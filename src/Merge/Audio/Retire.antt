-- ===== src/Merge/Audio/Retire.antt =====
-- `Audio.Retire` of gateway/internal/merge/policy.go: the pages whose source may write over their
-- trusted samples before the next pass move to a member that will not, or to the silence. The loop
-- over the members reads every `reach` first, so a member that `spares` cannot read has already
-- ended the call.
pub mod Reach
pub mod Swept
pub mod Trusted
use mxl_k8s.Base.{
  ℕ, zero, suc, ◌+◌, ◌-◌, ◌*◌, ◌/◌, ◌%◌, min, max, Bool, true, false, not, ◌&&◌, ◌||◌, Option, none,
  some, List, [], ◌∷◌, leb, ◌==◌, if◌then◌else◌, get_elem?, set,
}
use mxl_k8s.Base.Words.{u64}
use mxl_k8s.Merge.Audio.{Coverage, Audio, page_samples}
use mxl_k8s.Merge.Audio.Step.{PageSelect}
use mxl_k8s.Merge.Audio.Drop.{holds_page, first_holder, or_silence}

-- The first sample member `m` does not overwrite before the next pass.
unfoldable pub reach : ℕ → Audio → ℕ → Option ℕ
reach due a m = elim (get_elem? a.ev_head m) [
  | none ↦ none
  | some h ↦ elim (get_elem? a.batch m) [
    | none ↦ none
    | some b ↦
        let w = u64 (u64 (max h due + a.ahead) + b) in
        some (w - min w (u64 (a.pages * page_samples)))
  ]
]

-- The furthest of the members from `m` on.
unfoldable pub most_reach : ℕ → Audio → ℕ → List (List Coverage) → ℕ → Option ℕ
unfolding reach
most_reach due a m [] most = some most
most_reach due a m (_ ∷ rest) most = elim (reach due a m) [
  | none ↦ none
  | some r ↦ most_reach due a (suc m) rest (max most r)
]

-- `first >= reach(m)`
unfoldable pub spares : ℕ → Audio → ℕ → ℕ → Bool
unfolding reach
spares due a first m = elim (reach due a m) [ none ↦ false | some r ↦ leb r first ]

-- The source that slot `p` of page `n` moves to, where it moves.
unfoldable pub retire_page : ℕ → Audio → ℕ → ℕ → ℕ → ℕ → Option (Option ℕ)
unfolding reach spares holds_page first_holder
retire_page due a n first p cur = if cur == a.silence then some none else elim (reach due a cur) [
  | none ↦ none
  | some r ↦
      if leb r first
      then some none
      else elim (or_silence a (
          first_holder (λ m c. not (m == cur) && (holds_page a n c && spares due a first m)) p 0
            a.cov)) [ none ↦ none | some to ↦ some (some to) ]
]

-- The slot shows the source it moved to, where it moved.
abbrev pub put : Option ℕ → ℕ → List ℕ → List ℕ
put none p current = current
put (some to) p current = set current p to

abbrev pub select_of : Option ℕ → ℕ → List PageSelect → List PageSelect
select_of none p s = s
select_of (some to) p s = record { page = p; source = to } ∷ s

-- The loop over the trusted pages from `n` on, on fuel.
unfoldable pub retire_pages : ℕ → ℕ → Audio → ℕ → ℕ → ℕ → List ℕ → Option (List ℕ × List PageSelect)
unfolding retire_page
retire_pages zero due a most lo n current = none
retire_pages (suc fuel) due a most lo n current =
    let first = max lo (u64 (n * page_samples)) in
    elim (leb a.head first || leb most first) [
      | true ↦ some (current, [])
      | false ↦ elim (a.pages == 0) [
        | true ↦ none
        | false ↦ elim (get_elem? current (n % a.pages)) [
          | none ↦ none
          | some cur ↦ elim (retire_page due a n first (n % a.pages) cur) [
            | none ↦ none
            | some to ↦
                elim (retire_pages fuel due a most lo (u64 (n + 1))
                  (put to (n % a.pages) current)) [
                    | none ↦ none
                    | some (current', s) ↦ some (current', select_of to (n % a.pages) s)
                  ]
          ]
        ]
      ]
    ]

-- The first sample that readers trust.
abbrev pub trusted_from : Audio → ℕ
trusted_from a = a.head - min a.head (u64 (a.pages * page_samples) / 2)

unfoldable pub retire_audio : ℕ → Audio → Option (Audio × List PageSelect)
unfolding most_reach retire_pages
retire_audio due a = if not a.started then some (a, []) else elim (most_reach due a 0 a.cov 0) [
  | none ↦ none
  | some most ↦
      elim (retire_pages (suc (suc (a.head / page_samples - trusted_from a / page_samples))) due a
        most (trusted_from a) (trusted_from a / page_samples) a.current) [
          | none ↦ none
          | some (current, s) ↦ some (record a { current = current }, s)
        ]
]
