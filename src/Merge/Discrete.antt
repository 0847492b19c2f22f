-- ===== src/Merge/Discrete.antt =====
-- The discrete policy of gateway/internal/merge/policy.go: grain by grain, which member a slot of
-- the output's ring shows. Go's -1 is `none`; an index out of range and a division by zero, which
-- panic in Go, end in `none` of the whole call.
pub mod Retire
pub mod Drop
pub mod Scan
pub mod Turn
pub mod Run
pub mod Step
pub mod Lag
mod Tests
pub mod Selects
pub mod Primary
pub mod Replay
use mxl_k8s.Base.{
  ℕ, zero, suc, ◌+◌, ◌-◌, ◌*◌, ◌%◌, Bool, true, false, not, ◌&&◌, ◌||◌, Option, none, some, List,
  [], ◌∷◌, ◌++◌, ltb, leb, ◌==◌, if◌then◌else◌, get_elem?, set, replicate,
}
use mxl_k8s.Base.Int.{ℤ, pos, ◌-ℤ◌, leb_ℤ}
use mxl_k8s.Base.Words.{u64, sub_u64, i64, sub_time, millisecond}

pub record Grain : Type 0 where
  pub index : ℕ
  pub invalid : Bool
  pub valid_slices : ℕ
  pub total_slices : ℕ

-- A member as the policy sees it: its head, and the header of each ring slot.
pub record Member : Type 0 where
  pub head : ℕ
  pub grain : ℕ → Grain

pub record DiscretePolicy : Type 0 where
  pub grains : ℕ
  pub is_data : Bool
  pub skew : ℕ
  pub tolerance : ℤ
  pub ordered : Bool
  pub placeholder : ℕ
  pub head : ℕ
  pub primary : Option ℕ
  pub current : List ℕ
  pub waiting_index : ℕ
  pub waiting_since : ℕ
  pub seen : List ℕ
  pub late : List ℕ

pub record Select : Type 0 where
  pub slot : ℕ
  pub source : ℕ
  pub index : ℕ

unfoldable pub new_discrete : ℕ → ℕ → DiscretePolicy
new_discrete grains placeholder = record {
  grains = grains;
  is_data = false;
  skew = 0;
  tolerance = pos (2 * millisecond);
  ordered = false;
  placeholder = placeholder;
  head = 0;
  primary = none;
  current = replicate grains placeholder;
  waiting_index = 0;
  waiting_since = 0;
  seen = [];
  late = [];
}

-- Whether the member holds the grain of `index`, committed, valid and complete.
unfoldable pub serves : DiscretePolicy → Member → ℕ → Bool
serves d m index =
    let g = m.grain (index % d.grains) in
    if ltb m.head index || ltb (sub_u64 d.grains 2) (m.head - index)
    then false
    else if not (g.index == index) || g.invalid
    then false
    else d.is_data || leb g.total_slices g.valid_slices

-- `i == d.Primary`
abbrev pub is_primary : Option ℕ → ℕ → Bool
is_primary none i = false
is_primary (some p) i = i == p

-- The pick and the alternative after member `i`.
unfoldable pub consider : DiscretePolicy → Bool → ℕ → Option ℕ × Option ℕ → Option ℕ × Option ℕ
consider d false i (pick, alt) = (pick, alt)
consider d true i (pick, alt) =
    if d.ordered && is_primary d.primary i
    then (some i, alt)
    else (pick, elim alt [ none ↦ some i | some a ↦ some a ])

-- The loop over the members, from member `i` on.
unfoldable pub scan :
    DiscretePolicy → ℕ → ℕ → List Member → Option ℕ × Option ℕ → Option ℕ × Option ℕ
scan d index i [] found = found
scan d index i (m ∷ ms) found = scan d index (suc i) ms (consider d (serves d m index) i found)

-- What one turn of the loop decides: it ends, it waits with a result, or it shows a source.
pub data Verdict : Type 0 where
  stop : Verdict
  hold : DiscretePolicy → ℤ → Verdict
  show : DiscretePolicy → ℕ → Verdict
  fault : Verdict

-- `d.Primary < 0 || members[d.Primary].Head >= index`; `none` is an index out of range.
unfoldable pub primary_skipped : DiscretePolicy → List Member → ℕ → Option Bool
primary_skipped d ms index = elim d.primary [
  | none ↦ some true
  | some p ↦ elim (get_elem? ms p) [ none ↦ none | some m ↦ some (leb index m.head) ]
]

unfoldable pub wait_for : DiscretePolicy → ℕ → ℕ → DiscretePolicy
wait_for d index now =
    if d.waiting_index == index then d else record d { waiting_index = index; waiting_since = now }

-- A member other than the primary holds the grain: skip the primary, replace it, or wait for it.
unfoldable pub substitute : DiscretePolicy → List Member → ℕ → ℕ → ℕ → Verdict
unfolding primary_skipped wait_for
substitute d ms index alt now =
    let e = wait_for d index now in
    let elapsed = sub_time now e.waiting_since in
    elim (primary_skipped e ms index) [
      | none ↦ fault
      | some true ↦ show e alt
      | some false ↦
          if leb_ℤ e.tolerance elapsed
          then show (record e { primary = some alt }) alt
          else hold e (i64 (e.tolerance -ℤ elapsed))
    ]

-- No member holds the grain: stop, or show the placeholder once the leader is past the skew.
unfoldable pub give_up : DiscretePolicy → ℕ → ℕ → Verdict
give_up d lead index = if ltb lead (u64 (index + d.skew)) then stop else show d d.placeholder

-- The source for the grain, from the pick and the alternative among the members that serve it.
unfoldable pub choose : DiscretePolicy → List Member → ℕ → ℕ → ℕ → Option ℕ × Option ℕ → Verdict
unfolding substitute give_up
choose d ms lead now index (some pick, alt) = show d pick
choose d ms lead now index (none, some alt) =
    if d.ordered then substitute d ms index alt now else show d alt
choose d ms lead now index (none, none) = give_up d lead index

unfoldable pub decide : DiscretePolicy → List Member → ℕ → ℕ → ℕ → Verdict
unfolding consider scan choose
decide d ms lead now index = choose d ms lead now index (scan d index 0 ms (none, none))

-- The first source that is a member becomes the primary where there is none yet.
unfoldable pub adopt : DiscretePolicy → ℕ → DiscretePolicy
adopt d pick = elim d.primary [
  | none ↦ if pick == d.placeholder then d else record d { primary = some pick }
  | some p ↦ d
]

-- Points a slot at a source, with the select to apply if it showed another one.
unfoldable pub point : DiscretePolicy → ℕ → ℕ → ℕ → Option (DiscretePolicy × List Select)
point d slot source index = elim (get_elem? d.current slot) [
  | none ↦ none
  | some old ↦
      if old == source
      then some (d, [])
      else some (
        record d { current = set d.current slot source },
        record { slot = slot; source = source; index = index } ∷ [],
      )
]

-- `Current` takes the source, and the head reaches the grain.
unfoldable pub publish : DiscretePolicy → ℕ → ℕ → Option (DiscretePolicy × List Select)
unfolding adopt point
publish d pick index = elim (point (adopt d pick) (index % d.grains) pick index) [
  | none ↦ none
  | some (e, s) ↦ some (record e { head = index }, s)
]

pub record Stepped : Type 0 where
  pub state : DiscretePolicy
  pub selects : List Select
  pub head : ℕ
  pub wait : ℤ

abbrev pub finish : DiscretePolicy → List Select → ℤ → Stepped
finish d selects wait = record { state = d; selects = selects; head = d.head; wait = wait }

-- The loop of `Step`, on fuel; each turn publishes one index.
unfoldable pub advance : ℕ → List Member → ℕ → ℕ → DiscretePolicy → List Select → Option Stepped
advance zero ms lead now d selects = none
advance (suc fuel) ms lead now d selects = elim (ltb d.head lead) [
  | false ↦ some (finish d selects (pos 0))
  | true ↦ elim (d.grains == 0) [
    | true ↦ none
    | false ↦ elim (decide d ms lead now (d.head + 1)) [
      | fault ↦ none
      | stop ↦ some (finish d selects (pos 0))
      | hold e wait ↦ some (finish e selects wait)
      | show e pick ↦ elim (publish e pick (d.head + 1)) [
        | none ↦ none
        | some (f, s) ↦ advance fuel ms lead now f (selects ++ s)
      ]
    ]
  ]
]

-- The highest head among the members.
unfoldable pub leading : List Member → ℕ → ℕ
leading [] lead = lead
leading (m ∷ ms) lead = leading ms (if ltb lead m.head then m.head else lead)

-- An ordered set starts on member 0.
unfoldable pub start_primary : DiscretePolicy → DiscretePolicy
start_primary d = elim d.primary [
  | none ↦ if d.ordered then record d { primary = some 0 } else d
  | some p ↦ d
]

-- The output starts at the leading member's newest grain.
unfoldable pub start_head : DiscretePolicy → ℕ → DiscretePolicy
start_head d lead = if d.head == 0 && ltb 0 lead then record d { head = lead - 1 } else d

unfoldable pub step : DiscretePolicy → List Member → ℕ → Option Stepped
unfolding leading start_primary start_head advance
step d ms now =
    let lead = leading ms 0 in
    let e = start_head (start_primary d) lead in advance (suc (lead - e.head)) ms lead now e []
