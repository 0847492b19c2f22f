-- ===== src/Merge/Audio/Covered.antt =====
-- What the coverage of the audio policy says of the ranges that were committed.
use native.Mathlib.Decide.{dec_lt}
use native.Mathlib.Nat.{mod-lt}
use mxl_k8s.Base.{
  Bool-cases, ==_iff, ℕ, zero, suc, ◌+◌, ◌-◌, ◌*◌, ◌/◌, ◌%◌, ◌^◌, ◌≤◌, ◌<◌, min, max, ◌≡◌, refl,
  ◌⊎◌, inl, inr, true, false, not, ◌||◌, some, List, [], ◌∷◌, arith, length, length-set, get_elem?,
  set, get_elem?_of_lt, All, All-get_elem?, All-set, ltb, ◌==◌,
}
use mxl_k8s.Base.Words.{u64}
use mxl_k8s.Merge.Audio.{Coverage, page_samples, begin_page, extend, cover, cover_pages}

-- The ranges of samples reported as committed, the last one first.
pub record Commit : Type 0 where
  pub member : ℕ
  pub start : ℕ
  pub stop : ℕ

-- Whether the member committed the sample.
abbrev pub InLog : List Commit → ℕ → ℕ → Type 0
InLog [] m s = ⊥
InLog (k ∷ ks) m s = ((k.member ≡ m) × (k.start ≤ s) × (s < k.stop)) ⊎ InLog ks m s

-- A valid coverage ends within its page, and one without a gap has each sample committed.
pub record IsCovered (log : List Commit) (m : ℕ) (c : Coverage) : Type 0 where
  pub within : c.valid ≡ true → c.to ≤ (c.n + 1) * page_samples
  pub samples :
      c.valid ≡ true
      → c.broken ≡ false
      → (s : ℕ) → c.n * page_samples ≤ s
      → s < c.to
      → InLog log m s

pub later-IsCovered :
    (k : Commit) (log : List Commit) (m : ℕ) (c : Coverage)
    → IsCovered log m c
    → IsCovered (k ∷ log) m c
later-IsCovered k log m c h = record {
  within = h.within;
  samples = λ v b s low high. inr (h.samples v b s low high);
}

begin_page-IsCovered :
    (log : List Commit) (m n : ℕ) (c : Coverage)
    → n * page_samples < 2 ^ 64
    → IsCovered log m c
    → IsCovered log m (begin_page n c) × ((begin_page n c).n ≡ n) × ((begin_page n c).valid ≡ true)
unfolding begin_page
begin_page-IsCovered log m n c fits h = elim (Bool-cases (not c.valid || not (c.n == n))) [
  | inl q ↦ rw q (
    record { within = λ v. omega arith; samples = λ v b s low high. absurd (omega arith) },
    refl,
    refl,
  )
  | inr q ↦ rw q (h, ground arith, ground arith)
]

-- Samples that follow on what is covered, and were committed, are covered as well.
extend-IsCovered :
    (log : List Commit) (m lo hi : ℕ) (c : Coverage)
    → hi ≤ (c.n + 1) * page_samples
    → ((s : ℕ) → lo ≤ s → s < hi → InLog log m s)
    → IsCovered log m c
    → IsCovered log m (extend lo hi c)
unfolding extend
extend-IsCovered log m lo hi c near new h = elim (Bool-cases (lo == c.to)) [
  | inr q ↦ rw q record { within = h.within; samples = λ v b s low high. absurd (ground arith) }
  | inl q ↦ elim (Bool-cases c.broken) [
    | inl b ↦
        rw (q, b) record { within = h.within; samples = λ v x s low high. absurd (ground arith) }
    | inr b ↦
        rw (q, b)
          record {
            within = λ v. near;
            samples = λ v b' s low high. elim (dec_lt s c.to) [
              | yes old ↦ h.samples v b s low old
              | no late ↦ new s (omega (arith, (==_iff lo c.to).0 q)) high
            ];
          }
  ]
]

cover-IsCovered :
    (log : List Commit) (m n start stop : ℕ) (c : Coverage)
    → (n + 1) * page_samples < 2 ^ 64
    → ((s : ℕ) → start ≤ s → s < stop → InLog log m s)
    → IsCovered log m c
    → IsCovered log m (cover n start stop c)
unfolding cover
cover-IsCovered log m n start stop c fits new h =
    let (k, page, _) = begin_page-IsCovered log m n c (omega arith) h in
    extend-IsCovered log m (max start (u64 (n * page_samples)))
      (min stop (u64 ((n + 1) * page_samples))) (begin_page n c) (omega (arith, page))
      (λ s low high. new s (omega arith) (omega arith)) k

==_zero : (n : ℕ) → 0 < n → (n == 0) ≡ false
==_zero n h = ground arith

cover_pages_turn :
    (fuel pages start stop n : ℕ) (covs : List Coverage) (c : Coverage) (covs' : List Coverage)
    → 0 < pages
    → ltb (u64 (n * page_samples)) stop ≡ true
    → u64 (n + 1) ≡ n + 1
    → get_elem? covs (n % pages) ≡ some c
    → cover_pages fuel pages start stop (n + 1) (set covs (n % pages) (cover n start stop c))
      ≡ some covs'
    → cover_pages (suc fuel) pages start stop n covs ≡ some covs'
unfolding cover_pages
cover_pages_turn fuel pages start stop n covs c covs' some_pages q next g h =
    rw (cover_pages, q, ==_zero pages some_pages, g, next) h

-- The loop over the pages ends, and keeps every slot covered.
pub cover_pages-IsCovered :
    (fuel pages start stop n : ℕ) (log : List Commit) (m : ℕ) (covs : List Coverage)
    → 0 < pages
    → length covs ≡ pages
    → stop < 2 ^ 63
    → n ≤ suc (stop / page_samples)
    → suc (stop / page_samples) - n < fuel
    → ((s : ℕ) → start ≤ s → s < stop → InLog log m s)
    → All (IsCovered log m) covs
    → (covs' : List Coverage) × (cover_pages fuel pages start stop n covs ≡ some covs')
      × (length covs' ≡ pages)
      × All (IsCovered log m) covs'
unfolding cover_pages
cover_pages-IsCovered zero pages start stop n log m covs some_pages same fits low more new h =
    absurd (omega arith)
cover_pages-IsCovered (suc fuel) pages start stop n log m covs some_pages same fits low more new h =
    elim (Bool-cases (ltb (u64 (n * page_samples)) stop)) [
      | inr q ↦ (covs, rw (cover_pages, q) refl, same, h)
      | inl q ↦
          let (c, g) = get_elem?_of_lt covs (n % pages) (omega (arith, mod-lt n some_pages)) in
          let near : n * page_samples < stop = ground arith in
          let (covs', q', l, k) =
            cover_pages-IsCovered fuel pages start stop (n + 1) log m
              (set covs (n % pages) (cover n start stop c)) some_pages
              (omega (arith, length-set covs (n % pages) (cover n start stop c))) fits (omega arith)
              (omega arith) new
              (All-set (IsCovered log m) covs (n % pages) (cover n start stop c) h (
                cover-IsCovered log m n start stop c (omega arith) new
                  (All-get_elem? (IsCovered log m) covs (n % pages) h g))) in
          (
            covs',
            cover_pages_turn fuel pages start stop n covs c covs' some_pages q (omega arith) g q',
            l,
            k,
          )
    ]
