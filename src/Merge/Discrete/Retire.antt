-- ===== src/Merge/Discrete/Retire.antt =====
-- `Discrete.Retire` of gateway/internal/merge/policy.go: the slots whose source may write over the
-- grain they show move to another holder, or to the placeholder.
pub mod Members
pub mod Safe
pub mod Loop
pub mod Trusted
use mxl_k8s.Base.{
  ℕ, zero, suc, ◌+◌, ◌-◌, ◌%◌, min, max, Bool, true, false, not, ◌&&◌, Option, none, some, List, [],
  ◌∷◌, ◌++◌, ltb, leb, ◌==◌, if◌then◌else◌, length, get_elem?, set, replicate,
}
use mxl_k8s.Base.Words.{u64}
use mxl_k8s.Merge.Discrete.{Member, DiscretePolicy, Select, serves}

-- Points a slot at a source, with its select.
unfoldable pub move : DiscretePolicy → ℕ → ℕ → ℕ → DiscretePolicy × List Select
move d slot source index = (
  record d { current = set d.current slot source },
  record { slot = slot; source = source; index = index } ∷ [],
)

-- The first member, from member `m` on, that passes the test.
unfoldable pub first_member : (ℕ → Member → Bool) → ℕ → List Member → Option ℕ
first_member test m [] = none
first_member test m (mb ∷ ms) =
    let rest = first_member test (suc m) ms in if test m mb then some m else rest

-- What `seen` and `late` become for members at `due`; `none` is an index out of range.
unfoldable pub track : ℕ → List Member → List ℕ → List ℕ → Option (List ℕ × List ℕ)
track due [] ss ls = some (ss, ls)
track due (mb ∷ ms) (s ∷ ss) (l ∷ ls) = elim (track due ms ss ls) [
  | none ↦ none
  | some (ss', ls') ↦
      if mb.head == s
      then some (s ∷ ss', l ∷ ls')
      else some (mb.head ∷ ss', (due - min due mb.head) ∷ ls')
]
track due _ _ _ = none

unfoldable pub refresh : DiscretePolicy → List Member → ℕ → Option DiscretePolicy
unfolding track
refresh d ms due =
    let n = length ms in
    let fresh = not (length d.seen == n) in
    let ss = if fresh then replicate n 0 else d.seen in
    let ls = if fresh then replicate n 0 else d.late in
    elim (track due ms ss ls) [
      | none ↦ none
      | some (ss', ls') ↦ some (record d { seen = ss'; late = ls' })
    ]

-- The highest index each member may write before the next pass.
unfoldable pub nexts : ℕ → List Member → List ℕ → List ℕ
nexts due (mb ∷ ms) (l ∷ ls) = max (u64 (mb.head + 1)) (due - min due l) ∷ nexts due ms ls
nexts due _ _ = []

unfoldable pub highest : List ℕ → ℕ → ℕ
highest [] reach = reach
highest (n ∷ ns) reach = highest ns (max reach n)

-- Whether member `m` writes below the index `i + Grains`.
unfoldable pub below : List ℕ → ℕ → ℕ → Bool
below ns m limit = elim (get_elem? ns m) [ none ↦ false | some n ↦ ltb n limit ]

-- The source slot of `i` moves to, off `cur`.
unfoldable pub successor : DiscretePolicy → List Member → List ℕ → ℕ → ℕ → ℕ
unfolding first_member below serves
successor d ms ns cur i =
    elim (first_member
      (λ m mb. not (m == cur) && (serves d mb i && below ns m (u64 (i + d.grains)))) 0 ms) [
        | none ↦ d.placeholder
        | some m ↦ m
      ]

-- One index of the loop; `none` is an index out of range.
unfoldable pub retire_index :
    DiscretePolicy → List Member → List ℕ → ℕ → Option (DiscretePolicy × List Select)
unfolding successor move
retire_index d ms ns i =
    let slot = i % d.grains in
    elim (get_elem? d.current slot) [
      | none ↦ none
      | some cur ↦ if cur == d.placeholder then some (d, []) else elim (get_elem? ns cur) [
        | none ↦ none
        | some n ↦
            if ltb n (u64 (i + d.grains))
            then some (d, [])
            else some (move d slot (successor d ms ns cur i) i)
      ]
    ]

-- The loop from `i` on, on fuel.
unfoldable pub retire_from :
    ℕ
    → List Member
    → List ℕ
    → ℕ
    → ℕ
    → DiscretePolicy
    → List Select
    → Option (DiscretePolicy × List Select)
unfolding highest
retire_from zero ms ns reach i d selects = none
retire_from (suc fuel) ms ns reach i d selects =
    elim (leb i d.head && leb (u64 (i + d.grains)) reach) [
      | false ↦ some (d, selects)
      | true ↦ elim (retire_index d ms ns i) [
        | none ↦ none
        | some (e, s) ↦ retire_from fuel ms ns reach (u64 (i + 1)) e (selects ++ s)
      ]
    ]

-- The oldest index that readers trust.
unfoldable pub oldest : DiscretePolicy → ℕ
oldest d = if ltb d.grains (u64 (d.head + 2)) then u64 (d.head + 2) - d.grains else 1

unfoldable pub retire : DiscretePolicy → List Member → ℕ → Option (DiscretePolicy × List Select)
unfolding refresh nexts highest oldest retire_index retire_from
retire d ms due = elim (refresh d ms due) [
  | none ↦ none
  | some e ↦
      let ns = nexts due ms e.late in
      retire_from (suc (suc e.head - oldest e)) ms ns (highest ns 0) (oldest e) e []
]
