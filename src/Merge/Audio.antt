-- ===== src/Merge/Audio.antt =====
-- The audio policy of gateway/internal/merge/policy.go: page by page of the channels' rings, which
-- member a page shows, from the ranges the members are reported to have committed. Go's -1 is
-- `none`; an index out of range and a division by zero, which panic in Go, end in `none`.
pub mod Covered
pub mod Committed
pub mod Step
pub mod Drop
pub mod Retire
mod Tests
use mxl_k8s.Base.{
  ℕ, zero, suc, ◌+◌, ◌-◌, ◌*◌, ◌/◌, ◌%◌, ◌^◌, min, max, Bool, true, false, not, ◌&&◌, ◌||◌, Option,
  none, some, List, [], ◌∷◌, ◌++◌, ltb, leb, ◌==◌, if◌then◌else◌, get_elem?, set, replicate,
}
use mxl_k8s.Base.Int.{ℤ, pos, ◌-ℤ◌, leb_ℤ}
use mxl_k8s.Base.Words.{u64, sub_u64, i64, sub_time, millisecond}

abbrev pub page_samples : ℕ
page_samples = 1024

pub record Coverage : Type 0 where
  pub n : ℕ
  pub to : ℕ
  pub broken : Bool
  pub valid : Bool

pub record Audio : Type 0 where
  pub pages : ℕ
  pub skew : ℕ
  pub tolerance : ℤ
  pub silence : ℕ
  pub ahead : ℕ
  pub head : ℕ
  pub primary : ℕ
  pub current : List ℕ
  pub cov : List (List Coverage)
  pub ev_head : List ℕ
  pub batch : List ℕ
  pub started : Bool
  pub waiting_page : ℕ
  pub waiting_since : ℕ

abbrev pub no_coverage : Coverage
no_coverage = record { n = 0; to = 0; broken = false; valid = false }

unfoldable pub new_audio : ℕ → ℕ → ℕ → Audio
new_audio members pages silence = record {
  pages = pages;
  skew = 0;
  tolerance = pos (2 * millisecond);
  silence = silence;
  ahead = 0;
  head = 0;
  primary = 0;
  current = replicate pages silence;
  cov = replicate members (replicate pages no_coverage);
  ev_head = replicate members 0;
  batch = replicate members 0;
  started = false;
  waiting_page = 2 ^ 64 - 1;
  waiting_since = 0;
}

-- The slot's coverage starts over unless it is of page `n`.
unfoldable pub begin_page : ℕ → Coverage → Coverage
begin_page n c =
    if not c.valid || not (c.n == n)
    then record { n = n; to = u64 (n * page_samples); broken = false; valid = true }
    else c

-- The samples from `lo` to `hi` continue the coverage, or leave a gap.
unfoldable pub extend : ℕ → ℕ → Coverage → Coverage
extend lo hi c =
    if not (lo == c.to)
    then record c { broken = true }
    else if not c.broken
    then record c { to = hi }
    else c

-- The coverage of page `n` once the samples from `start` to `stop` are committed.
unfoldable pub cover : ℕ → ℕ → ℕ → Coverage → Coverage
cover n start stop c =
    extend (max start (u64 (n * page_samples))) (min stop (u64 ((n + 1) * page_samples)))
      (begin_page n c)

-- The loop over the pages from `n` on, on fuel.
unfoldable pub cover_pages : ℕ → ℕ → ℕ → ℕ → ℕ → List Coverage → Option (List Coverage)
unfolding cover
cover_pages zero pages start stop n covs = none
cover_pages (suc fuel) pages start stop n covs = elim (ltb (u64 (n * page_samples)) stop) [
  | false ↦ some covs
  | true ↦ elim (pages == 0) [
    | true ↦ none
    | false ↦ elim (get_elem? covs (n % pages)) [
      | none ↦ none
      | some c ↦
          cover_pages fuel pages start stop (u64 (n + 1))
            (set covs (n % pages) (cover n start stop c))
    ]
  ]
]

-- The first commit starts the output at the next boundary of a page.
unfoldable pub start_audio : ℕ → Audio → Audio
start_audio start a = if a.started then a else record a {
  head = u64 (start + page_samples - 1) / page_samples * page_samples;
  started = true;
}

unfoldable pub committed : ℕ → ℕ → ℕ → Audio → Option Audio
unfolding start_audio cover_pages
committed member start stop a =
    let e = start_audio start a in
    elim (get_elem? e.cov member) [
      | none ↦ none
      | some covs ↦
          elim (cover_pages (suc (suc (stop / page_samples) - start / page_samples)) e.pages start
            stop (start / page_samples) covs) [
              | none ↦ none
              | some covs' ↦ elim (get_elem? e.ev_head member) [
                | none ↦ none
                | some h ↦ elim (get_elem? e.batch member) [
                  | none ↦ none
                  | some _ ↦ some (record e {
                    cov = set e.cov member covs';
                    ev_head = if ltb h stop then set e.ev_head member stop else e.ev_head;
                    batch =
                        set e.batch member
                          (min (sub_u64 stop start) (u64 (e.pages * page_samples) / 2));
                  })
                ]
              ]
            ]
    ]
