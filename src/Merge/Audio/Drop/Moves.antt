-- ===== src/Merge/Audio/Drop/Moves.antt =====
-- Where `Audio.Drop` moves a page: off the dropped member, to one that holds what is published of
-- it.
use mathlib.Core.Path.{subst}
use native.Mathlib.Nat.{mod-lt}
use mxl_k8s.Base.{
  ℕ, suc, ◌+◌, ◌-◌, ◌*◌, ◌/◌, ◌%◌, ◌^◌, ◌≤◌, ◌<◌, min, ◌≡◌, ◌≢◌, refl, sym, ap, ◌∙◌, ◌⊎◌, inl, inr,
  Bool, true, false, not, ◌&&◌, none, some, List, [], ◌∷◌, arith, length, get_elem?,
  get_elem?_of_lt, lt_of_get_elem?, All, All-get_elem?, leb, ◌==◌, Bool-cases, leb→le, sub-back-mod,
}
use mxl_k8s.Base.Words.{u64, sub_u64}
use mxl_k8s.Merge.Audio.{Coverage, Audio, page_samples}
use mxl_k8s.Merge.Audio.Covered.{Commit, InLog, IsCovered}
use mxl_k8s.Merge.Audio.Committed.{IsSound}
use mxl_k8s.Merge.Audio.Drop.{holds_page, first_holder, or_silence, drop_page}

-- The member committed every sample of page `n` below the published head.
abbrev pub HasPublished : List Commit → Audio → ℕ → ℕ → Type 0
HasPublished log a n o =
    (s : ℕ) → n * page_samples ≤ s → s < (n + 1) * page_samples → s < a.head → InLog log o s

pub holds_page-HasPublished :
    (log : List Commit) (a : Audio) (n o : ℕ) (c : Coverage)
    → (n + 1) * page_samples < 2 ^ 64
    → IsCovered log o c
    → holds_page a n c ≡ true
    → HasPublished log a n o
unfolding holds_page
holds_page-HasPublished log a n o c fits h q s low high top =
    h.samples (ground (arith, q)) (ground (arith, q)) s (page (ground (arith, q)))
      (reached (ground (arith, q)))
  where
    page : c.n ≡ n → c.n * page_samples ≤ s
    page e = omega (arith, e)

    reached : min (u64 ((n + 1) * page_samples)) a.head ≤ c.to → s < c.to
    reached l = omega arith

-- What the loop over the members from `o` on answers.
abbrev pub IsHolder : (ℕ → Coverage → Bool) → ℕ → ℕ → List (List Coverage) → ℕ → Type 0
IsHolder test p o cov to =
    (i : ℕ) × (covs : List Coverage) × (c : Coverage) × (to ≡ o + i)
    × (get_elem? cov i ≡ some covs)
    × (get_elem? covs p ≡ some c)
    × (test to c ≡ true)

module _ (test : ℕ → Coverage → Bool) (p o : ℕ) (covs : List Coverage)
    (rest : List (List Coverage)) where
  holder_hit :
      (c : Coverage)
      → get_elem? covs p ≡ some c
      → test o c ≡ true
      → first_holder test p o (covs ∷ rest) ≡ some (some o)
  unfolding first_holder
  holder_hit c g t = rw (first_holder, g, t) refl

  holder_miss :
      (c : Coverage)
      → get_elem? covs p ≡ some c
      → test o c ≡ false
      → first_holder test p o (covs ∷ rest) ≡ first_holder test p (suc o) rest
  unfolding first_holder
  holder_miss c g t = rw (first_holder, g, t) refl

-- The loop over the members returns, and a member it finds passes the test.
pub first_holder-IsHolder :
    (test : ℕ → Coverage → Bool) (pages p o : ℕ) (cov : List (List Coverage))
    → p < pages
    → All (λ covs. length covs ≡ pages) cov
    → (first_holder test p o cov ≡ some none)
      ⊎ ((to : ℕ) × (first_holder test p o cov ≡ some (some to)) × IsHolder test p o cov to)
first_holder-IsHolder test pages p o [] l h = inl (unfold first_holder in refl)
first_holder-IsHolder test pages p o (covs ∷ rest) l h =
    let (c, g) = get_elem?_of_lt covs p (omega (arith, h.0)) in
    elim (Bool-cases (test o c)) [
      | inl t ↦ inr (o, holder_hit test p o covs rest c g t, (0, covs, c, omega arith, refl, g, t))
      | inr t ↦ elim (first_holder-IsHolder test pages p (suc o) rest l h.1) [
        | inl e ↦ inl (holder_miss test p o covs rest c g t ∙ e)
        | inr (to, e, (i, covs', c', q, g', k, t')) ↦ inr (
          to,
          holder_miss test p o covs rest c g t ∙ e,
          (suc i, covs', c', omega arith, g', k, t'),
        )
      ]
    ]

-- A source that a slot of the dropped member `m` moves to: the silence, or another member that
-- committed what is published of the page the slot holds.
pub record IsMoved (log : List Commit) (a : Audio) (m p to : ℕ) : Type 0 where
  pub other : to ≢ m
  pub holds :
      (to ≡ a.silence)
      ⊎ ((n : ℕ) × (n % a.pages ≡ p)
          × (n * page_samples < a.head)
          × (a.head ≤ (n + a.pages) * page_samples)
          × (to < length a.cov)
          × HasPublished log a n to)

module _ (log : List Commit) (a : Audio) (m : ℕ) where
  -- What the test of the loop is, for the page `n`.
  abbrev may_take : ℕ → ℕ → Coverage → Bool
  may_take n o c = not (o == m) && holds_page a n c

  abbrev last_page : ℕ
  last_page = (a.head - 1) / page_samples

  abbrev page_back : ℕ → ℕ
  page_back p = (last_page % a.pages + a.pages - p) % a.pages

  back_lt : (p : ℕ) → p < a.pages → last_page % a.pages < a.pages
  back_lt p l = mod-lt last_page (omega arith)

  page_back-lt : (p : ℕ) → p < a.pages → page_back p < a.pages
  page_back-lt p l = mod-lt (last_page % a.pages + a.pages - p) (omega arith)

  page_back-same :
      (p : ℕ)
      → p < a.pages
      → a.pages < 2 ^ 62
      → sub_u64 (last_page % a.pages + a.pages) p % a.pages ≡ page_back p
  page_back-same p l fits = ap (λ x. x % a.pages) (omega (arith, back_lt p l))

  drop_page_empty : (p : ℕ) → a.head ≡ 0 → drop_page a m p ≡ some a.silence
  unfolding drop_page
  drop_page_empty p e = ground arith

  drop_page_late :
      (p : ℕ)
      → (a.head == 0) ≡ false
      → (a.pages == 0) ≡ false
      → leb (page_back p) last_page ≡ false
      → sub_u64 (last_page % a.pages + a.pages) p % a.pages ≡ page_back p
      → drop_page a m p ≡ some a.silence
  unfolding drop_page
  drop_page_late p q r t e = rw (drop_page, q, r, e, t) refl

  drop_page_found :
      (p : ℕ)
      → (a.head == 0) ≡ false
      → (a.pages == 0) ≡ false
      → leb (page_back p) last_page ≡ true
      → sub_u64 (last_page % a.pages + a.pages) p % a.pages ≡ page_back p
      → drop_page a m p ≡ or_silence a (first_holder (may_take (last_page - page_back p)) p 0 a.cov)
  unfolding drop_page
  drop_page_found p q r t e = rw (drop_page, q, r, e, t) refl

  silence-IsMoved : (p : ℕ) → m ≢ a.silence → IsMoved log a m p a.silence
  silence-IsMoved p ne = record { other = λ e. ne (sym e); holds = inl refl }

  member-IsMoved :
      (p to : ℕ)
      → IsSound log a
      → p < a.pages
      → a.head < 2 ^ 63
      → 0 < a.head
      → page_back p ≤ last_page
      → IsHolder (may_take (last_page - page_back p)) p 0 a.cov to
      → IsMoved log a m p to
  member-IsMoved p to h l fits some_head b (i, covs, c, same, g, g', t) =
      let at : get_elem? a.cov to ≡ some covs =
        subst (λ x. get_elem? a.cov x ≡ some covs) (omega (arith, same)) g in
      let held : holds_page a (last_page - page_back p) c ≡ true = ground arith in
      record {
        other = λ e. ground (arith, t);
        holds = inr (
          last_page - page_back p,
          sub-back-mod last_page a.pages p l b,
          omega arith,
          omega (arith, page_back-lt p l),
          lt_of_get_elem? a.cov to at,
          holds_page-HasPublished log a (last_page - page_back p) to c (omega arith)
              (All-get_elem? (IsCovered log to) covs p (h to covs at) g') held,
        );
      }

  pub drop_page-IsMoved :
      (p : ℕ)
      → IsSound log a
      → All (λ covs. length covs ≡ a.pages) a.cov
      → m ≢ a.silence
      → p < a.pages
      → a.pages < 2 ^ 62
      → a.head < 2 ^ 63
      → (to : ℕ) × (drop_page a m p ≡ some to) × IsMoved log a m p to
  drop_page-IsMoved p h w ne l fits fits' = elim (Bool-cases (a.head == 0)) [
    | inl q ↦ (a.silence, drop_page_empty p (ground (arith, q)), silence-IsMoved p ne)
    | inr q ↦ elim (Bool-cases (leb (page_back p) last_page)) [
      | inr t ↦ (
        a.silence,
        drop_page_late p q (ground arith) t (page_back-same p l fits),
        silence-IsMoved p ne,
      )
      | inl t ↦
          let found = drop_page_found p q (ground arith) t (page_back-same p l fits) in
          elim (first_holder-IsHolder (may_take (last_page - page_back p)) a.pages p 0 a.cov l w) [
            | inl e ↦ (a.silence, found ∙ ap (or_silence a) e, silence-IsMoved p ne)
            | inr (to, e, k) ↦ (
              to,
              found ∙ ap (or_silence a) e,
              member-IsMoved p to h l fits' (ground (arith, q)) (leb→le _ _ t) k,
            )
          ]
    ]
  ]
