-- ===== src/Agent/Redundancy.antt =====
-- agent/internal/redundancy/redundancy.go: a node's place in the list of the nodes that a set's
-- output is wanted on. Times are those of a clock that does not go back. What the API server
-- answers is an argument: `none` is an error, and a `Get` that finds nothing is its own case.
pub mod Uses
pub mod Scan
pub mod Run
pub mod Outputs
mod Tests
use mxl_k8s.Base.{
  ℕ, ◌+◌, Bool, true, false, not, ◌&&◌, ◌||◌, Option, none, some, String, List, [], ◌∷◌, ◌++◌, leb,
  ltb, if◌then◌else◌,
}
use mxl_k8s.Base.Texts.{same_text, contains_text}

-- An MxlFlowRedundancySet, with the version that the server gives each of its states.
pub record FlowSet : Type 0 where
  pub name : String
  pub domain : String
  pub flow_id : String
  pub nodes : List String
  pub version : ℕ

-- When each set was last seen used on the node.
abbrev pub Uses : Type 0
Uses = List (String × ℕ)

unfoldable pub last_use : String → Uses → Option ℕ
last_use name [] = none
last_use name ((k, t) ∷ uses) = if same_text k name then some t else last_use name uses

unfoldable pub record_use : String → ℕ → Uses → Uses
record_use name now [] = (name, now) ∷ []
record_use name now ((k, t) ∷ uses) =
    if same_text k name then (name, now) ∷ uses else (k, t) ∷ record_use name now uses

-- The set whose output is the flow in the domain.
unfoldable pub output_of : String → String → List FlowSet → Option FlowSet
output_of domain id [] = none
output_of domain id (s ∷ sets) =
    if same_text s.flow_id id && same_text s.domain domain then some s else output_of domain id sets

-- `none` is the error of the lookup.
unfoldable pub is_output : String → String → Option (List FlowSet) → Option Bool
unfolding output_of
is_output domain id none = none
is_output domain id (some sets) = elim (output_of domain id sets) [
  | none ↦ some false
  | some _ ↦ some true
]

-- What `Want` sends of the set it read; nothing, where the node is listed.
unfoldable pub want_update : String → FlowSet → Option FlowSet
want_update node cur =
    if contains_text cur.nodes node
    then none
    else some (record cur { nodes = cur.nodes ++ (node ∷ []) })

-- The sets that list the node.
unfoldable pub listing : String → List FlowSet → List FlowSet
listing node [] = []
listing node (s ∷ sets) =
    let rest = listing node sets in if contains_text s.nodes node then s ∷ rest else rest

-- The loop over those sets: the uses afterwards, and the sets that no process used for `grace`.
unfoldable pub see_used :
    (String → String → Bool) → ℕ → ℕ → List FlowSet → Uses → Uses × List String
unfolding last_use record_use
see_used in_use now grace [] uses = (uses, [])
see_used in_use now grace (s ∷ here) uses =
    let seen = last_use s.name uses in
    let fresh = see_used in_use now grace here (record_use s.name now uses) in
    let rest = see_used in_use now grace here uses in
    if in_use s.domain s.flow_id then fresh else elim seen [
      | none ↦ fresh
      | some last ↦ if leb (last + grace) now then (rest.0, s.name ∷ rest.1) else rest
    ]

unfoldable pub is_named : String → List FlowSet → Bool
is_named name [] = false
is_named name (s ∷ sets) = same_text s.name name || is_named name sets

-- The uses of sets that do not list the node are forgotten.
unfoldable pub forget : List FlowSet → Uses → Uses
unfolding is_named
forget here [] = []
forget here ((k, t) ∷ uses) =
    let rest = forget here uses in if is_named k here then (k, t) ∷ rest else rest

unfoldable pub sweep : (String → String → Bool) → ℕ → ℕ → List FlowSet → Uses → Uses × List String
unfolding see_used forget
sweep in_use now grace here uses =
    let (uses', idle) = see_used in_use now grace here uses in (forget here uses', idle)

-- `slices.Delete` of the first entry of the node
unfoldable pub without_node : String → List String → List String
without_node node [] = []
without_node node (n ∷ nodes) = if same_text n node then nodes else n ∷ without_node node nodes

-- Whether `leave` finds the output used again.
unfoldable pub used_again : ℕ → ℕ → String → Uses → Bool
unfolding last_use
used_again now grace name uses = elim (last_use name uses) [
  | none ↦ false
  | some last ↦ ltb now (last + grace)
]

-- What `leave` sends of the set it read, under the lock; nothing, where it has nothing to leave or
-- the output was used again.
unfoldable pub leave_update : String → ℕ → ℕ → Uses → FlowSet → Option FlowSet
unfolding used_again without_node
leave_update node now grace uses cur =
    if not (contains_text cur.nodes node)
    then none
    else if used_again now grace cur.name uses
    then none
    else some (record cur { nodes = without_node node cur.nodes })
