-- ===== src/Merge/Audio/Retire/Swept.antt =====
-- The loop of `Audio.Retire` over the trusted pages: a turn, and the end.
use mathlib.Core.Path.{subst}
use native.Mathlib.Decide.{dec_lt}
use native.Mathlib.Nat.{mod-lt}
use mxl_k8s.Base.{
  ℕ, ◌+◌, ◌*◌, ◌%◌, ◌≤◌, ◌<◌, max, ◌≡◌, ◌≢◌, refl, sym, ◌∙◌, ◌⊎◌, inl, inr, Option, none, some,
  List, arith, length, length-set, get_elem?, get_elem?_of_lt, All, All-get_elem?, get_elem?-set_ne,
  mod-ne,
}
use mxl_k8s.Merge.Audio.{Audio, page_samples}
use mxl_k8s.Merge.Audio.Covered.{Commit}
use mxl_k8s.Merge.Audio.Committed.{IsWhole}
use mxl_k8s.Merge.Audio.Retire.{reach, put}
use mxl_k8s.Merge.Audio.Retire.Reach.{reach-total, reach-WritesNear, Spares, IsTurned}

module _ (log : List Commit) (due : ℕ) (a : Audio) (lo : ℕ) where
  -- The first sample of page `n` that readers trust.
  abbrev pub first_of : ℕ → ℕ
  first_of n = max lo (n * page_samples)

  -- What the slot of page `n` shows after the loop, next to what it showed before.
  abbrev pub IsKept : ℕ → List ℕ → List ℕ → Type 0
  IsKept n old new =
      (cur : ℕ) × (to : ℕ) × (get_elem? old (n % a.pages) ≡ some cur)
      × (get_elem? new (n % a.pages) ≡ some to)
      × IsTurned log due a n (first_of n) cur to

  -- The loop over the pages from `n` on.
  pub record Swept (n : ℕ) (old new : List ℕ) : Type 0 where
    pub ring : length new ≡ length old
    pub sources : All (λ s. (s < length a.cov) ⊎ (s ≡ a.silence)) new
    pub kept : (k : ℕ) → n ≤ k → first_of k < a.head → IsKept k old new
    pub others :
        (q : ℕ)
        → ((k : ℕ) → n ≤ k → first_of k < a.head → k % a.pages ≢ q)
        → get_elem? new q ≡ get_elem? old q

  abbrev pub Sources : List ℕ → Type 0
  Sources current = All (λ s. (s < length a.cov) ⊎ (s ≡ a.silence)) current

  -- The loop ends: no member writes over what is left.
  pub ends-Swept :
      (n most : ℕ) (current : List ℕ)
      → IsWhole a
      → length current ≡ a.pages
      → Sources current
      → ((i r : ℕ) → 0 ≤ i → i < length a.cov → reach due a i ≡ some r → r ≤ most)
      → (a.head ≤ first_of n) ⊎ (most ≤ first_of n)
      → Swept n current current
  ends-Swept n most current w same known top over = record {
    ring = refl;
    sources = known;
    kept = λ k low high.
        let (cur, g) =
          get_elem?_of_lt current (k % a.pages) (omega (arith, mod-lt k w.some_pages)) in
        let s =
          All-get_elem? (λ s. (s < length a.cov) ⊎ (s ≡ a.silence)) current (k % a.pages) known g in
        (cur, cur, g, g, record { spared = still k low high cur s; source = s; origin = inl refl });
    others = λ q ne. refl;
  }
    where
      still :
          (k : ℕ)
          → n ≤ k
          → first_of k < a.head
          → (cur : ℕ) → (cur < length a.cov) ⊎ (cur ≡ a.silence)
          → Spares due a (first_of k) cur
      still k low high cur (inr e) = inl e
      still k low high cur (inl l) =
          let (r, e) = reach-total due a cur w l in
          inr (
            reach-WritesNear due a (first_of k) cur r e
              (omega (arith, top cur r (omega arith) l e)))

  -- One turn, then the rest of the loop.
  pub turn-Swept :
      (n cur to : ℕ) (current mid new : List ℕ)
      → length current ≡ a.pages
      → a.head ≤ (n + a.pages) * page_samples
      → first_of n < a.head
      → get_elem? current (n % a.pages) ≡ some cur
      → get_elem? mid (n % a.pages) ≡ some to
      → length mid ≡ length current
      → ((q : ℕ) → n % a.pages ≢ q → get_elem? mid q ≡ get_elem? current q)
      → IsTurned log due a n (first_of n) cur to
      → 0 < a.pages
      → Swept (n + 1) mid new
      → Swept n current new
  turn-Swept n cur to current mid new same near some_left g g' l rest t full k = record {
    ring = k.ring ∙ l;
    sources = k.sources;
    kept = λ j low high. elim (dec_lt n j) [
      | yes later ↦
          let (c, o, at, now, x) = k.kept j (omega arith) high in
          (c, o, sym (rest (j % a.pages) (apart j later high)) ∙ at, now, x)
      | no here ↦
          let e : n ≡ j = omega arith in
          subst (λ x. IsKept x current new) e
            (
              cur,
              to,
              g,
              k.others (n % a.pages) (λ i above below q. apart i (omega arith) below (sym q)) ∙ g',
              t,
            )
    ];
    others = λ q ne.
        k.others q (λ i above below. ne i (omega arith) below)
        ∙ rest q (ne n (omega arith) some_left);
  }
    where
      apart : (j : ℕ) → n < j → first_of j < a.head → n % a.pages ≢ j % a.pages
      apart j later high = mod-ne a.pages n j full later (omega arith)

  -- What a source put in a slot leaves.
  pub put-same :
      (to : Option ℕ) (p : ℕ) (current : List ℕ)
      → (length (put to p current) ≡ length current)
        × ((q : ℕ) → p ≢ q → get_elem? (put to p current) q ≡ get_elem? current q)
  put-same none p current = (refl, λ q ne. refl)
  put-same (some to) p current = (length-set current p to, λ q ne. get_elem?-set_ne current to ne)
