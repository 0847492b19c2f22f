-- ===== src/Merge/Audio/Step/Source.antt =====
-- What a turn of the audio policy's loop picks for a page.
use mxl_k8s.Base.{
  ℕ, suc, ◌+◌, ◌*◌, ◌%◌, ◌≤◌, ◌<◌, ◌≡◌, refl, inl, inr, true, false, not, ◌&&◌, Option, none, some,
  List, [], ◌∷◌, arith, length, get_elem?, get_elem?_of_lt, All, All-get_elem?, ltb, leb, ◌==◌,
  Bool-cases, if◌then◌else◌,
}
use mathlib.Core.Path.{subst}
use native.Mathlib.Nat.{mod-lt}
use mxl_k8s.Merge.Audio.{Coverage, Audio, page_samples}
use mxl_k8s.Merge.Audio.Covered.{Commit, InLog, IsCovered}
use mxl_k8s.Merge.Audio.Step.{held, weigh, weigh_all}

-- Member `m` moves the head to `u`, within page `n`, and committed each of its samples up to there.
pub record Candidate (log : List Commit) (a : Audio) (n m u : ℕ) : Type 0 where
  pub beyond : a.head < u
  pub within : u ≤ (n + 1) * page_samples
  pub member : m < length a.cov
  pub samples : (s : ℕ) → n * page_samples ≤ s → s < u → InLog log m s

abbrev pub IsCandidate : List Commit → Audio → ℕ → Option (ℕ × ℕ) → Type 0
IsCandidate log a n none = Unit
IsCandidate log a n (some (m, u)) = Candidate log a n m u

held-Candidate :
    (log : List Commit) (a : Audio) (n m : ℕ) (c : Coverage)
    → IsCovered log m c
    → m < length a.cov
    → a.head < held n c
    → Candidate log a n m (held n c)
unfolding held
held-Candidate log a n m c h l beyond = elim (Bool-cases (c.valid && (c.n == n) && not c.broken)) [
  | inr q ↦ absurd (ground arith)
  | inl q ↦
      let v : c.valid ≡ true = ground arith in
      let b : c.broken ≡ false = ground arith in
      let e : c.n ≡ n = ground arith in
      rw q record {
        beyond = ground arith;
        within = omega (arith, h.within v, e);
        member = l;
        samples = λ s low high. h.samples v b s (omega (arith, low, e)) high;
      }
]

better-Candidate :
    (log : List Commit) (a : Audio) (n m u : ℕ) (alt : Option (ℕ × ℕ))
    → Candidate log a n m u
    → IsCandidate log a n alt
    → IsCandidate log a n (elim alt [
      | none ↦ some (m, u)
      | some (x, v) ↦ if ltb v u then some (m, u) else some (x, v)
    ])
better-Candidate log a n m u none new h = new
better-Candidate log a n m u (some (x, v)) new h = elim (Bool-cases (ltb v u)) [
  | inl q ↦ rw q new
  | inr q ↦ rw q h
]

weigh-Candidate :
    (log : List Commit) (a : Audio) (n m u : ℕ) (pick alt : Option (ℕ × ℕ))
    → (a.head < u → Candidate log a n m u)
    → IsCandidate log a n pick × IsCandidate log a n alt
    → IsCandidate log a n (weigh a m u (pick, alt)).0
      × IsCandidate log a n (weigh a m u (pick, alt)).1
unfolding weigh
weigh-Candidate log a n m u pick alt new h = elim (Bool-cases (leb u a.head)) [
  | inl q ↦ rw q h
  | inr q ↦ elim (Bool-cases (m == a.primary)) [
    | inl p ↦ rw (q, p) (new (ground arith), h.1)
    | inr p ↦ rw (q, p) (h.0, better-Candidate log a n m u alt (new (ground arith)) h.1)
  ]
]

weigh_all_turn :
    (a : Audio) (n m : ℕ) (covs : List Coverage) (rest : List (List Coverage)) (c : Coverage)
    (found : Option (ℕ × ℕ) × Option (ℕ × ℕ)) (r : Option (Option (ℕ × ℕ) × Option (ℕ × ℕ)))
    → get_elem? covs (n % a.pages) ≡ some c
    → weigh_all a n (suc m) rest (weigh a m (held n c) found) ≡ r
    → weigh_all a n m (covs ∷ rest) found ≡ r
unfolding weigh_all
weigh_all_turn a n m covs rest c found r g q = rw (weigh_all, g) q

-- The loop over the members returns, and what it finds are candidates.
pub weigh_all-Candidate :
    (log : List Commit) (a : Audio) (n m : ℕ) (cov : List (List Coverage))
    (pick alt : Option (ℕ × ℕ))
    → 0 < a.pages
    → All (λ covs. length covs ≡ a.pages) cov
    → ((i : ℕ) (covs : List Coverage)
        → get_elem? cov i ≡ some covs
        → All (IsCovered log (m + i)) covs)
    → m + length cov ≡ length a.cov
    → IsCandidate log a n pick × IsCandidate log a n alt
    → (pick' alt' : Option (ℕ × ℕ)) × (weigh_all a n m cov (pick, alt) ≡ some (pick', alt'))
      × IsCandidate log a n pick'
      × IsCandidate log a n alt'
unfolding weigh_all
weigh_all-Candidate log a n m [] pick alt some_pages slots sound l h = (pick, alt, refl, h.0, h.1)
weigh_all-Candidate log a n m (covs ∷ rest) pick alt some_pages slots sound l h =
    let (c, g) = get_elem?_of_lt covs (n % a.pages) (omega (arith, slots.0, mod-lt n some_pages)) in
    let here : IsCovered log m c =
      All-get_elem? (IsCovered log m) covs (n % a.pages)
        (subst (λ x. All (IsCovered log x) covs) {x = m + 0} {y = m} (omega arith)
          (sound 0 covs refl))
        g in
    let u = held n c in
    let f = weigh a m u (pick, alt) in
    let (pick', alt', q, k1, k2) =
      weigh_all-Candidate log a n (suc m) rest f.0 f.1 some_pages slots.1
        (λ i covs' e.
          subst (λ x. All (IsCovered log x) covs') {x = m + suc i} {y = suc m + i} (omega arith)
            (sound (suc i) covs' e))
        (omega arith)
        (weigh-Candidate log a n m u pick alt (held-Candidate log a n m c here (omega arith)) h) in
    (pick', alt', weigh_all_turn a n m covs rest c (pick, alt) (some (pick', alt')) g q, k1, k2)
