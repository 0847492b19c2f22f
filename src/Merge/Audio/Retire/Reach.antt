-- ===== src/Merge/Audio/Retire/Reach.antt =====
-- How far the members write, and which source a page moves to.
use mathlib.Core.Path.{subst}
use mxl_k8s.Base.{
  ℕ, suc, ◌+◌, ◌-◌, ◌*◌, ◌^◌, ◌≤◌, ◌<◌, max, min, ◌≡◌, refl, ap, ◌⊎◌, inl, inr, Bool, true, false,
  not, ◌&&◌, none, some, List, [], ◌∷◌, arith, length, get_elem?, get_elem?_of_lt, lt_of_get_elem?,
  All-get_elem?, leb, leb→le, ◌==◌, ==_iff, Bool-cases, Option-cases,
}
use mxl_k8s.Base.Words.{u64}
use mxl_k8s.Merge.Audio.{Coverage, Audio, page_samples}
use mxl_k8s.Merge.Audio.Covered.{Commit, IsCovered}
use mxl_k8s.Merge.Audio.Committed.{IsWhole, IsSound}
use mxl_k8s.Merge.Audio.Drop.{holds_page, first_holder, or_silence}
use mxl_k8s.Merge.Audio.Drop.Moves.{
  HasPublished, holds_page-HasPublished, IsHolder, first_holder-IsHolder,
}
use mxl_k8s.Merge.Audio.Retire.{reach, most_reach, spares, retire_page}

pub reach-total :
    (due : ℕ) (a : Audio) (m : ℕ)
    → IsWhole a
    → m < length a.cov
    → (r : ℕ) × (reach due a m ≡ some r)
unfolding reach
reach-total due a m w l =
    let (h, g) = get_elem?_of_lt a.ev_head m (omega (arith, w.ev_head)) in
    let (b, g') = get_elem?_of_lt a.batch m (omega (arith, w.batch)) in
    (past (u64 (u64 (max h due + a.ahead) + b)), rw (reach, g, g') refl)
  where
    past : ℕ → ℕ
    past x = x - min x (u64 (a.pages * page_samples))

most_turn :
    (due : ℕ) (a : Audio) (m : ℕ) (c : List Coverage) (rest : List (List Coverage)) (most r n : ℕ)
    → reach due a m ≡ some r
    → most_reach due a (suc m) rest (max most r) ≡ some n
    → most_reach due a m (c ∷ rest) most ≡ some n
unfolding most_reach
most_turn due a m c rest most r n e q = rw (most_reach, e) q

-- The loop over the members returns, and answers no less than it had.
pub most_reach-total :
    (due : ℕ) (a : Audio) (m : ℕ) (rest : List (List Coverage)) (most : ℕ)
    → IsWhole a
    → m + length rest ≡ length a.cov
    → (n : ℕ) × (most_reach due a m rest most ≡ some n)
      × (most ≤ n)
      × ((i r : ℕ) → m ≤ i → i < length a.cov → reach due a i ≡ some r → r ≤ n)
most_reach-total due a m [] most w h =
    (most, unfold most_reach in refl, omega arith, λ i r low high e. absurd (omega arith))
most_reach-total due a m (c ∷ rest) most w h =
    let (r, e) = reach-total due a m w (omega arith) in
    let (n, q, above, k) = most_reach-total due a (suc m) rest (max most r) w (omega arith) in
    (
      n,
      most_turn due a m c rest most r n e q,
      omega arith,
      λ i r' low high e'. elim (Bool-cases (m == i)) [
        | inl same ↦ ground (arith, e, e', above, ==_iff m i)
        | inr other ↦ k i r' (ground (arith, other)) high e'
      ],
    )

-- A member that will not write over the samples from `first` on before the next pass: from its
-- head, or from what is due by then, it writes at most the samples ahead and a batch further, and
-- that is within a buffer of `first`.
abbrev pub WritesNear : ℕ → Audio → ℕ → ℕ → Type 0
WritesNear due a first m =
    (h b : ℕ) × (get_elem? a.ev_head m ≡ some h)
    × (get_elem? a.batch m ≡ some b)
    × (u64 (u64 (max h due + a.ahead) + b) ≤ first + u64 (a.pages * page_samples))

-- A source that will not: the silence, or such a member.
abbrev pub Spares : ℕ → Audio → ℕ → ℕ → Type 0
Spares due a first source = (source ≡ a.silence) ⊎ WritesNear due a first source

pub reach-WritesNear :
    (due : ℕ) (a : Audio) (first m r : ℕ)
    → reach due a m ≡ some r
    → r ≤ first
    → WritesNear due a first m
unfolding reach
reach-WritesNear due a first m r e l = elim (Option-cases (get_elem? a.ev_head m)) [
  | inl q ↦ absurd (ground (arith, e, q))
  | inr (h, q) ↦ elim (Option-cases (get_elem? a.batch m)) [
    | inl q' ↦ absurd (ground (arith, e, q, q'))
    | inr (b, q') ↦
        let w = u64 (u64 (max h due + a.ahead) + b) in
        let runs : reach due a m ≡ some (w - min w (u64 (a.pages * page_samples))) =
          rw (reach, q, q') refl in
        let same : w - min w (u64 (a.pages * page_samples)) ≡ r = ground (arith, runs, e) in
        (h, b, q, q', by_min w (u64 (a.pages * page_samples)) r first same l)
  ]
]
  where
    by_min : (w n r first : ℕ) → w - min w n ≡ r → r ≤ first → w ≤ first + n
    by_min w n r first e l = omega arith

spares-Spares :
    (due : ℕ) (a : Audio) (first m r : ℕ)
    → reach due a m ≡ some r
    → spares due a first m ≡ true
    → Spares due a first m
unfolding spares
spares-Spares due a first m r e h = inr (reach-WritesNear due a first m r e (ground (arith, e)))

-- What a page of the loop shows once its turn is over: it is spared, and it is what the page
-- showed, the silence, or a member that committed what is published of the page.
pub record IsTurned (log : List Commit) (due : ℕ) (a : Audio) (n first cur to : ℕ) : Type 0 where
  pub spared : Spares due a first to
  pub source : (to < length a.cov) ⊎ (to ≡ a.silence)
  pub origin : (to ≡ cur) ⊎ (to ≡ a.silence) ⊎ HasPublished log a n to

module _ (log : List Commit) (due : ℕ) (a : Audio) (n first p cur : ℕ) where
  -- The test of the loop over the members.
  abbrev may_stand : ℕ → Coverage → Bool
  may_stand m c = not (m == cur) && (holds_page a n c && spares due a first m)

  page_silent : (cur == a.silence) ≡ true → retire_page due a n first p cur ≡ some none
  unfolding retire_page
  page_silent q = rw (retire_page, q) refl

  page_spared :
      (r : ℕ)
      → (cur == a.silence) ≡ false
      → reach due a cur ≡ some r
      → leb r first ≡ true
      → retire_page due a n first p cur ≡ some none
  unfolding retire_page
  page_spared r q e t = rw (retire_page, q, e, t) refl

  page_moved :
      (r to : ℕ)
      → (cur == a.silence) ≡ false
      → reach due a cur ≡ some r
      → leb r first ≡ false
      → or_silence a (first_holder may_stand p 0 a.cov) ≡ some to
      → retire_page due a n first p cur ≡ some (some to)
  unfolding retire_page
  page_moved r to q e t f = rw (retire_page, q, e, t, f) refl

  silence-IsTurned : IsTurned log due a n first cur a.silence
  silence-IsTurned = record { spared = inl refl; source = inr refl; origin = inr (inl refl) }

  member-IsTurned :
      (to : ℕ)
      → IsWhole a
      → IsSound log a
      → (n + 1) * page_samples < 2 ^ 64
      → IsHolder may_stand p 0 a.cov to
      → IsTurned log due a n first cur to
  member-IsTurned to w h fits (i, covs, c, same, g, g', t) =
      let at : get_elem? a.cov to ≡ some covs =
        subst (λ x. get_elem? a.cov x ≡ some covs) (omega (arith, same)) g in
      let held : holds_page a n c ≡ true = ground arith in
      let far : spares due a first to ≡ true = ground arith in
      let l = lt_of_get_elem? a.cov to at in
      let (r, e) = reach-total due a to w l in
      record {
        spared = spares-Spares due a first to r e far;
        source = inl l;
        origin = inr (
            inr (
              holds_page-HasPublished log a n to c fits
                (All-get_elem? (IsCovered log to) covs p (h to covs at) g') held));
      }

  -- A turn of the loop over the pages returns, and keeps the page.
  pub retire_page-IsTurned :
      IsWhole a
      → IsSound log a
      → p < a.pages
      → (n + 1) * page_samples < 2 ^ 64
      → (cur < length a.cov) ⊎ (cur ≡ a.silence)
      → ((retire_page due a n first p cur ≡ some none) × IsTurned log due a n first cur cur)
        ⊎ ((to : ℕ) × (retire_page due a n first p cur ≡ some (some to))
            × IsTurned log due a n first cur to)
  retire_page-IsTurned w h l fits known = elim (Bool-cases (cur == a.silence)) [
    | inl q ↦ inl (
      page_silent q,
      record { spared = inl ((==_iff _ _).0 q); source = known; origin = inl refl },
    )
    | inr q ↦
        let (r, e) = reach-total due a cur w (ground (arith, q)) in
        elim (Bool-cases (leb r first)) [
          | inl t ↦ inl (
            page_spared r q e t,
            record {
              spared = inr (reach-WritesNear due a first cur r e (leb→le _ _ t));
              source = known;
              origin = inl refl;
            },
          )
          | inr t ↦ elim (first_holder-IsHolder may_stand a.pages p 0 a.cov l w.slots) [
            | inl f ↦
                inr
                  (a.silence, page_moved r a.silence q e t (ap (or_silence a) f), silence-IsTurned)
            | inr (to, f, k) ↦
                inr (to, page_moved r to q e t (ap (or_silence a) f), member-IsTurned to w h fits k)
          ]
        ]
  ]
