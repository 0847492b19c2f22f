-- ===== src/Merge/Engine.antt =====
-- gateway/internal/merge/engine.go: a pass of the engine's loop over a discrete output. The output
-- is its published head and the source that each view slot shows. Whether the module accepts a
-- select, an ioctl, is an argument. A write outside the views, which panics in Go, ends in `none`.
pub mod Apply
pub mod Visible
pub mod Tracks
pub mod Pass
pub mod Due
mod Tests
use mxl_k8s.Base.{
  ℕ, ◌+◌, ◌-◌, Bool, true, false, ◌&&◌, Option, none, some, List, [], ◌∷◌, ◌++◌, ltb, if◌then◌else◌,
  get_elem?, set,
}
use mxl_k8s.Base.Int.{ℤ}
use mxl_k8s.Base.Words.{u64, sub_u64}
use mxl_k8s.Merge.Discrete.{Member, DiscretePolicy, Select, step}
use mxl_k8s.Merge.Discrete.Retire.{retire}
use mxl_k8s.Merge.Discrete.Drop.{drop}

pub record Output : Type 0 where
  pub head : ℕ
  pub views : List ℕ

-- The readers are woken with it.
unfoldable pub publish_head : ℕ → Output → Output
publish_head head o = record o { head = head }

-- A select for an index more than one past the head publishes the index before it.
unfoldable pub announce : Select → Output → Output
unfolding publish_head
announce s o = if ltb (u64 (o.head + 1)) s.index then publish_head (s.index - 1) o else o

abbrev pub point_view : Select → Output → Output
point_view s o = record o { views = set o.views s.slot s.source }

-- The output afterwards, and whether the module took every select.
unfoldable pub apply : (Select → Bool) → List Select → Output → Option (Output × Bool)
unfolding announce
apply accepts [] o = some (o, true)
apply accepts (s ∷ ss) o = elim (get_elem? (announce s o).views s.slot) [
  | none ↦ none
  | some _ ↦ elim (accepts s) [
    | false ↦ some (announce s o, false)
    | true ↦ apply accepts ss (point_view s (announce s o))
  ]
]

pub record Merged : Type 0 where
  pub policy : DiscretePolicy
  pub output : Output
  pub wait : ℤ
  pub taken : Bool

-- After the selects, the head is published unless one of them failed.
unfoldable pub finish_pass : ℕ → Output × Bool → Output
unfolding publish_head
finish_pass head (o, taken) = if taken && ltb o.head head then publish_head head o else o

-- One pass at `now`, where the members are `ms` for `Step` and `later` for `Retire`.
unfoldable pub pass_discrete :
    (Select → Bool) → List Member → List Member → ℕ → ℕ → DiscretePolicy → Output → Option Merged
unfolding apply finish_pass
pass_discrete accepts ms later now due d o = elim (step d ms now) [
  | none ↦ none
  | some r ↦ elim (retire r.state later due) [
    | none ↦ none
    | some (e, s) ↦ elim (apply accepts (r.selects ++ s) o) [
      | none ↦ none
      | some p ↦
          some (record { policy = e; output = finish_pass r.head p; wait = r.wait; taken = p.1 })
    ]
  ]
]

-- `drop`: the slots that the member shows move off it.
unfoldable pub drop_member :
    (Select → Bool)
    → List Member
    → ℕ
    → DiscretePolicy
    → Output
    → Option (DiscretePolicy × Output × Bool)
unfolding apply
drop_member accepts ms member d o = elim (drop d ms member) [
  | none ↦ none
  | some (e, s) ↦ elim (apply accepts s o) [ none ↦ none | some (p, taken) ↦ some (e, p, taken) ]
]

-- libmxl's index of a time, and time of an index, are arguments.
unfoldable pub retire_due : (ℕ → ℕ) → (ℕ → ℕ) → ℕ → ℕ → ℕ × ℕ
retire_due index_of time_of now guard =
    let t = u64 (now + guard) in
    let near = index_of t in
    let due = if ltb t (time_of near) then sub_u64 near 1 else near in
    (due, sub_u64 (time_of (u64 (due + 1))) t)
