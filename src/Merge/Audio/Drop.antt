-- ===== src/Merge/Audio/Drop.antt =====
-- `Audio.Drop` of gateway/internal/merge/policy.go: every page a member serves moves to another
-- that holds it whole, or to the silence, and what the member committed is forgotten.
pub mod Moves
pub mod Whole
use mxl_k8s.Base.{
  ℕ, suc, ◌+◌, ◌-◌, ◌*◌, ◌/◌, ◌%◌, min, Bool, true, false, not, ◌&&◌, Option, none, some, List, [],
  ◌∷◌, leb, ◌==◌, if◌then◌else◌, get_elem?, set, replicate,
}
use mxl_k8s.Base.Words.{u64, sub_u64}
use mxl_k8s.Merge.Audio.{Coverage, Audio, page_samples, no_coverage}
use mxl_k8s.Merge.Audio.Step.{PageSelect}

-- Whether the coverage is of page `n`, whole as far as it is published.
unfoldable pub holds_page : Audio → ℕ → Coverage → Bool
holds_page a n c =
    c.valid && (c.n == n) && not c.broken && leb (min (u64 ((n + 1) * page_samples)) a.head) c.to

-- The first member, from `o` on, whose coverage in slot `p` passes the test; `none` outside is an
-- index out of range.
unfoldable pub first_holder :
    (ℕ → Coverage → Bool) → ℕ → ℕ → List (List Coverage) → Option (Option ℕ)
first_holder test p o [] = some none
first_holder test p o (covs ∷ rest) = elim (get_elem? covs p) [
  | none ↦ none
  | some c ↦ elim (test o c) [ true ↦ some (some o) | false ↦ first_holder test p (suc o) rest ]
]

-- The source that the member found is, or the silence.
abbrev pub or_silence : Audio → Option (Option ℕ) → Option ℕ
or_silence a none = none
or_silence a (some none) = some a.silence
or_silence a (some (some o)) = some o

-- The source that slot `p` moves to, off member `m`.
unfoldable pub drop_page : Audio → ℕ → ℕ → Option ℕ
unfolding holds_page first_holder
drop_page a m p =
    if a.head == 0
    then some a.silence
    else if a.pages == 0
    then none
    else let last = (a.head - 1) / page_samples in
      let back = sub_u64 (last % a.pages + a.pages) p % a.pages in
      if leb back last
      then or_silence a
          (first_holder (λ o c. not (o == m) && holds_page a (last - back) c) p 0 a.cov)
      else some a.silence

-- The loop over the slots, from `p` on.
unfoldable pub drop_pages : Audio → ℕ → ℕ → List ℕ → Option (List ℕ × List PageSelect)
unfolding drop_page
drop_pages a m p [] = some ([], [])
drop_pages a m p (cur ∷ rest) = elim (drop_pages a m (suc p) rest) [
  | none ↦ none
  | some (rest', selects) ↦
      if not (cur == m) then some (cur ∷ rest', selects) else elim (drop_page a m p) [
        | none ↦ none
        | some to ↦ some (to ∷ rest', record { page = p; source = to } ∷ selects)
      ]
]

unfoldable pub drop_audio : Audio → ℕ → Option (Audio × List PageSelect)
unfolding drop_pages
drop_audio a m = elim (drop_pages a m 0 a.current) [
  | none ↦ none
  | some (current, selects) ↦ elim (get_elem? a.cov m) [
    | none ↦ none
    | some _ ↦ elim (get_elem? a.ev_head m) [
      | none ↦ none
      | some _ ↦ some (
        record a {
          current = current;
          cov = set a.cov m (replicate a.pages no_coverage);
          ev_head = set a.ev_head m 0;
        },
        selects,
      )
    ]
  ]
]
