-- ===== src/Merge/Audio/Step.antt =====
-- `Audio.Step` of gateway/internal/merge/policy.go: the published head advances page by page.
pub mod Source
pub mod Turn
pub mod Passed
pub mod Served
use mxl_k8s.Base.{
  ℕ, zero, suc, ◌+◌, ◌-◌, ◌*◌, ◌/◌, ◌%◌, min, max, Bool, true, false, not, ◌&&◌, Option, none, some,
  List, [], ◌∷◌, ◌++◌, length, ltb, leb, ◌==◌, if◌then◌else◌, get_elem?, set,
}
use mxl_k8s.Base.Int.{ℤ, pos, ◌-ℤ◌, leb_ℤ}
use mxl_k8s.Base.Words.{u64, i64, sub_time}
use mxl_k8s.Merge.Audio.{Coverage, Audio, page_samples}

pub record PageSelect : Type 0 where
  pub page : ℕ
  pub source : ℕ

-- `upto[m]`, of the coverage in the slot of page `n`.
unfoldable pub held : ℕ → Coverage → ℕ
held n c = if c.valid && (c.n == n) && not c.broken then c.to else 0

-- The pick and the alternative after member `m`, each with its `upto`.
unfoldable pub weigh :
    Audio → ℕ → ℕ → Option (ℕ × ℕ) × Option (ℕ × ℕ) → Option (ℕ × ℕ) × Option (ℕ × ℕ)
weigh a m u (pick, alt) =
    if leb u a.head then (pick, alt) else if m == a.primary then (some (m, u), alt) else (
      pick,
      elim alt [ none ↦ some (m, u) | some (x, v) ↦ if ltb v u then some (m, u) else some (x, v) ],
    )

-- The loop over the members from member `m` on; `none` is an index out of range.
unfoldable pub weigh_all :
    Audio
    → ℕ
    → ℕ
    → List (List Coverage)
    → Option (ℕ × ℕ) × Option (ℕ × ℕ)
    → Option (Option (ℕ × ℕ) × Option (ℕ × ℕ))
weigh_all a n m [] found = some found
weigh_all a n m (covs ∷ rest) found = elim (get_elem? covs (n % a.pages)) [
  | none ↦ none
  | some c ↦ weigh_all a n (suc m) rest (weigh a m (held n c) found)
]

-- Whether the primary has a gap in the page or is past it; `none` is an index out of range.
unfoldable pub has_gap : Audio → ℕ → Option Bool
has_gap a n = elim (get_elem? a.cov a.primary) [
  | none ↦ none
  | some covs ↦ elim (get_elem? covs (n % a.pages)) [
    | none ↦ none
    | some c ↦
        if c.valid && (c.n == n) && c.broken
        then some true
        else elim (get_elem? a.ev_head a.primary) [ none ↦ none | some h ↦ some (ltb a.head h) ]
  ]
]

-- What one turn decides: it ends, it waits, or a source serves the page up to a sample.
pub data Turning : Type 0 where
  ends : Turning
  waits : Audio → ℤ → Turning
  takes : Audio → ℕ → ℕ → Turning
  faults : Turning

unfoldable pub wait_page : Audio → ℕ → ℕ → Audio
wait_page a n now =
    if a.waiting_page == n then a else record a { waiting_page = n; waiting_since = now }

-- Only a member other than the primary holds the page.
unfoldable pub stand_in : Audio → ℕ → ℕ → ℕ → ℕ → Turning
stand_in a n now m u =
    let e = wait_page a n now in
    let elapsed = sub_time now e.waiting_since in
    elim (has_gap e n) [
      | none ↦ faults
      | some true ↦ takes e m u
      | some false ↦
          if leb_ℤ e.tolerance elapsed
          then takes (record e { primary = m }) m u
          else waits e (i64 (e.tolerance -ℤ elapsed))
    ]

-- No member holds the page: it ends, or the silence fills it once the leader is past the skew.
unfoldable pub go_silent : Audio → ℕ → ℕ → Turning
go_silent a lead n =
    if ltb lead (u64 (a.head + a.skew))
    then ends
    else if ltb (length a.cov) a.silence
    then faults
    else takes a a.silence (min (u64 ((n + 1) * page_samples)) lead)

unfoldable pub settle_page : Audio → ℕ → ℕ → ℕ → Option (ℕ × ℕ) × Option (ℕ × ℕ) → Turning
settle_page a lead now n (some (m, u), alt) = takes a m u
settle_page a lead now n (none, some (m, u)) = stand_in a n now m u
settle_page a lead now n (none, none) = go_silent a lead n

-- The page's slot takes the source, with a select if it showed another, and the head moves.
unfoldable pub show_page : Audio → ℕ → ℕ → ℕ → Option (Audio × List PageSelect)
show_page a p source upto = elim (get_elem? a.current p) [
  | none ↦ none
  | some old ↦
      if old == source
      then some (record a { head = upto }, [])
      else some (
        record a { current = set a.current p source; head = upto },
        record { page = p; source = source } ∷ [],
      )
]

pub record SteppedAudio : Type 0 where
  pub state : Audio
  pub selects : List PageSelect
  pub head : ℕ
  pub wait : ℤ

abbrev pub stop_audio : Audio → List PageSelect → ℤ → SteppedAudio
stop_audio a selects wait = record { state = a; selects = selects; head = a.head; wait = wait }

-- The loop of `Step`, on fuel; each turn moves the head.
unfoldable pub advance_pages : ℕ → ℕ → ℕ → Audio → List PageSelect → Option SteppedAudio
advance_pages zero lead now a selects = none
advance_pages (suc fuel) lead now a selects = elim (a.started && ltb a.head lead) [
  | false ↦ some (stop_audio a selects (pos 0))
  | true ↦ elim (a.pages == 0) [
    | true ↦ none
    | false ↦ elim (weigh_all a (a.head / page_samples) 0 a.cov (none, none)) [
      | none ↦ none
      | some found ↦ elim (settle_page a lead now (a.head / page_samples) found) [
        | faults ↦ none
        | ends ↦ some (stop_audio a selects (pos 0))
        | waits e wait ↦ some (stop_audio e selects wait)
        | takes e m u ↦ elim (show_page e (a.head / page_samples % a.pages) m u) [
          | none ↦ none
          | some (f, s) ↦ advance_pages fuel lead now f (selects ++ s)
        ]
      ]
    ]
  ]
]

unfoldable pub lead_of : List ℕ → ℕ → ℕ
lead_of [] lead = lead
lead_of (h ∷ hs) lead = lead_of hs (max lead h)

unfoldable pub step_audio : Audio → ℕ → Option SteppedAudio
step_audio a now =
    let lead = lead_of a.ev_head 0 in advance_pages (suc (lead - a.head)) lead now a []
