-- ===== src/Merge/Discrete/Drop.antt =====
-- `Discrete.Drop` of gateway/internal/merge/policy.go: every slot a member serves moves to another
-- member that holds its grain, or to the placeholder.
pub mod Moves
pub mod Whole
use mxl_k8s.Base.{
  ℕ, suc, ◌+◌, ◌-◌, ◌%◌, not, ◌&&◌, Option, none, some, List, [], ◌∷◌, leb, ◌==◌, if◌then◌else◌,
}
use mxl_k8s.Base.Words.{sub_u64}
use mxl_k8s.Merge.Discrete.{Member, DiscretePolicy, Select, serves}
use mxl_k8s.Merge.Discrete.Retire.{first_member}

-- How far the index that the slot holds lies below the published head.
unfoldable pub slot_back : DiscretePolicy → ℕ → ℕ
slot_back d slot = sub_u64 (d.head % d.grains + d.grains) slot % d.grains

-- The source the slot moves to, off member `m`, and the index it holds.
unfoldable pub take_over : DiscretePolicy → List Member → ℕ → ℕ → ℕ × ℕ
unfolding slot_back first_member serves
take_over d ms m slot =
    let back = slot_back d slot in
    if leb back d.head
    then (
      elim (first_member (λ o mb. not (o == m) && serves d mb (d.head - back)) 0 ms) [
        | none ↦ d.placeholder
        | some o ↦ o
      ],
      d.head - back,
    )
    else (d.placeholder, 0)

-- The loop over the slots, from `slot` on; `none` is a division by zero.
unfoldable pub drop_slots :
    DiscretePolicy → List Member → ℕ → ℕ → List ℕ → Option (List ℕ × List Select)
drop_slots d ms m slot [] = some ([], [])
drop_slots d ms m slot (cur ∷ rest) = elim (drop_slots d ms m (suc slot) rest) [
  | none ↦ none
  | some (rest', selects) ↦
      if not (cur == m)
      then some (cur ∷ rest', selects)
      else if d.grains == 0
      then none
      else let (to, index) = take_over d ms m slot in
        some (to ∷ rest', record { slot = slot; source = to; index = index } ∷ selects)
]

unfoldable pub drop : DiscretePolicy → List Member → ℕ → Option (DiscretePolicy × List Select)
unfolding drop_slots take_over
drop d ms m = elim (drop_slots d ms m 0 d.current) [
  | none ↦ none
  | some (current, selects) ↦ some (record d { current = current }, selects)
]
