-- ===== src/Operator/RedundancySet/Reconcile.antt =====
-- `Reconcile` of operator/internal/redundancyset/controller.go, up to the status that it writes.
-- What the API server answers is an argument.
pub mod Kept
pub mod Failed
pub mod Done
mod Tests
use mxl_k8s.Base.{
  ℕ, ◌*◌, Bool, true, false, not, ◌&&◌, ◌||◌, Option, none, some, String, List, [], ◌∷◌,
  if◌then◌else◌,
}
use mxl_k8s.Base.Int.{ℤ, pos, ltb_ℤ}
use mxl_k8s.Base.Words.{second}
use mxl_k8s.Api.Names.{Bytes, FlowRef}
use mxl_k8s.Placement.Node.{Provider}
use mxl_k8s.Operator.RedundancySet.{Fetched, fetched, missing, failed, SetMember, Mirrors}
use mxl_k8s.Operator.RedundancySet.Mirrors.{Calls, ensure_mirrors}
use mxl_k8s.Operator.RedundancySet.Members.{
  Condition, StalledMembers, stalled_on, validate, check_members,
}
use mxl_k8s.Operator.RedundancySet.Gateways.{Pod, Served, output_ready}
use mxl_k8s.Operator.RedundancySet.Paths.{Paths, paths_disjoint}

pub record RedundancySet : Type 0 where
  pub deleting : Bool
  pub members : List FlowRef
  pub output : FlowRef
  pub generation : ℕ
  pub nodes : List Bytes
  pub stalled_members : List StalledMembers
  pub valid_before : Option (Bool × ℕ)

-- A flow: whether `ResolveOrigin` finds its origin, and where, or its error; and its definition.
pub record FlowRead (Value : Type 0) : Type 0 where
  pub origin : Option (Bool × Bytes)
  pub definition : Option (String → Value)
  pub unreadable : Bool

pub record Cluster (Value : Type 0) : Type 0 where
  pub node : Bytes → Fetched (Unit {0})
  pub flow : FlowRef → Fetched (FlowRead Value)
  pub pods : Option (List Pod)
  pub lists_mirrors : Bool
  pub providers : Bytes → Option (List Provider)
  pub calls : Calls

unfoldable pub existing_nodes : (Bytes → Fetched (Unit {0})) → List Bytes → Option (List Bytes)
existing_nodes get [] = some []
existing_nodes get (n ∷ nodes) =
    let rest = existing_nodes get nodes in
    elim (get n) [
      | failed ↦ none
      | missing ↦ rest
      | fetched _ ↦ elim rest [ none ↦ none | some out ↦ some (n ∷ out) ]
    ]

-- One member; `none` is an error.
unfoldable pub read_member :
    {Value : Type 0} → FlowRef → Fetched (FlowRead Value) → Option (SetMember Value)
read_member ref failed = none
read_member ref missing = some (record {
  ref = ref;
  has_flow = false;
  origin_found = false;
  origin_node = [];
  definition = none;
  unreadable = false;
})
read_member ref (fetched f) = elim f.origin [
  | none ↦ none
  | some (found, node) ↦ some (record {
    ref = ref;
    has_flow = true;
    origin_found = found;
    origin_node = node;
    definition = if f.unreadable then none else f.definition;
    unreadable = f.unreadable;
  })
]

unfoldable pub read_members :
    {Value : Type 0}
    → (FlowRef → Fetched (FlowRead Value))
    → List FlowRef
    → Option (List (SetMember Value))
unfolding read_member
read_members get [] = some []
read_members get (r ∷ refs) =
    let rest = read_members get refs in
    elim (read_member r (get r)) [
      | none ↦ none
      | some m ↦ elim rest [ none ↦ none | some ms ↦ some (m ∷ ms) ]
    ]

abbrev pub is_flow : {Value : Type 0} → Fetched (FlowRead Value) → Bool
is_flow (fetched f) = true
is_flow missing = false
is_flow failed = false

-- When the set is looked at again without an event; 0 is never.
unfoldable pub requeue_after : Bool → ℤ → ℤ
requeue_after ready settling =
    let after = if ready then pos 0 else pos (10 * second) in
    if ltb_ℤ (pos 0) settling && (ready || ltb_ℤ settling after) then settling else after

-- What the status is set to, and the next look.
pub record Reconciled : Type 0 where
  pub nodes : List Bytes
  pub stalled_members : List StalledMembers
  pub valid : Condition
  pub ready : Condition
  pub served : Served
  pub paths : Paths
  pub requeue : ℤ

-- The mirrors are written where the set is valid; `none` is an error.
unfoldable pub write_mirrors :
    {Value : Type 0}
    → (ℕ → ℕ)
    → Calls
    → Bool
    → List (SetMember Value)
    → List Bytes
    → Mirrors
    → Mirrors × Bool
unfolding ensure_mirrors
write_mirrors lower c valid ms nodes mirrors = elim valid [
  | true ↦ ensure_mirrors lower c ms nodes mirrors
  | false ↦ (mirrors, true)
]

-- `Reconcile` of a set that is there and not being deleted: the mirrors afterwards, and the
-- outcome; `none` is an error.
unfoldable pub reconcile_set :
    {Value : Type 0}
    → (ℕ → ℕ)
    → (Value → Value → Bool)
    → Cluster Value
    → ℕ
    → RedundancySet
    → Mirrors
    → Mirrors × Option Reconciled
unfolding existing_nodes read_members stalled_on validate check_members output_ready write_mirrors
    paths_disjoint requeue_after
reconcile_set lower same k now set mirrors = elim (existing_nodes k.node set.nodes) [
  | none ↦ (mirrors, none)
  | some nodes ↦ elim (read_members k.flow set.members) [
    | none ↦ (mirrors, none)
    | some ms ↦
        let stalled = stalled_on nodes set.stalled_members in
        let valid =
          validate same (is_flow (k.flow set.output)) set.output.domain set.members set.valid_before
            set.generation ms in
        let ready = check_members same ms stalled in
        elim (output_ready now k.pods nodes) [
          | none ↦ (mirrors, none)
          | some served ↦
              let (out, ok) = write_mirrors lower k.calls valid.status ms nodes mirrors in
              (
                out,
                if ok && k.lists_mirrors
                    then some (record {
                      nodes = nodes;
                      stalled_members = stalled;
                      valid = valid;
                      ready = ready;
                      served = served;
                      paths = paths_disjoint lower k.providers out set.members nodes;
                      requeue = requeue_after ready.status served.settling;
                    })
                    else none,
              )
        ]
  ]
]

-- How a call ends: with an error, with nothing to do, or with a status.
pub data Ending : Type 0 where
  erred : Ending
  ignored : Ending
  reported : Reconciled → Ending

abbrev pub ending : Option Reconciled → Ending
ending none = erred
ending (some o) = reported o

unfoldable pub reconcile :
    {Value : Type 0}
    → (ℕ → ℕ)
    → (Value → Value → Bool)
    → Cluster Value
    → ℕ
    → Fetched RedundancySet
    → Mirrors
    → Mirrors × Ending
unfolding reconcile_set
reconcile lower same k now failed mirrors = (mirrors, erred)
reconcile lower same k now missing mirrors = (mirrors, ignored)
reconcile lower same k now (fetched set) mirrors =
    if set.deleting
    then (mirrors, ignored)
    else let (out, o) = reconcile_set lower same k now set mirrors in (out, ending o)
