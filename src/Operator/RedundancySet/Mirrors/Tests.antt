-- ===== src/Operator/RedundancySet/Mirrors/Tests.antt =====
-- A set of two flows on two nodes: runs of `ensureMirrors`, and its theorem at them.
use mxl_k8s.Base.{
  ◌≡◌, refl, Bool, true, false, ◌==◌, Option, none, some, String, List, [], ◌∷◌, if◌then◌else◌,
}
use mxl_k8s.Api.Names.{Bytes, FlowRef, flow_name, in_mirror_name, clean, mirror_name_for}
use mxl_k8s.Api.Selection.{resolve}
use mxl_k8s.Operator.RedundancySet.{missing, SetMember, Mirrors}
use mxl_k8s.Operator.RedundancySet.Mirrors.{Calls, ensure_mirrors}
use mxl_k8s.Operator.RedundancySet.Mirrors.Steps.{answer}

-- "5fbec3b1-1b0f-417d-9059-8b94a4719" and three digits
abbrev id_ending : Bytes → Bytes
id_ending end =
    53 ∷ 102 ∷ 98 ∷ 101 ∷ 99 ∷ 51 ∷ 98 ∷ 49 ∷ 45 ∷ 49 ∷ 98 ∷ 48 ∷ 102 ∷ 45 ∷ 52 ∷ 49 ∷ 55 ∷ 100 ∷ 45
    ∷ 57 ∷ 48 ∷ 53 ∷ 57 ∷ 45 ∷ 56 ∷ 98 ∷ 57 ∷ 52 ∷ 97 ∷ 52 ∷ 55 ∷ 49 ∷ 57 ∷ end

abbrev first : FlowRef
first = record { domain = []; id = id_ending (55 ∷ 101 ∷ 100 ∷ []) }

abbrev second : FlowRef
second = record { domain = []; id = id_ending (55 ∷ 101 ∷ 101 ∷ []) }

-- The nodes "a", "b" and "c"
abbrev node_a : Bytes
node_a = 97 ∷ []

abbrev node_b : Bytes
node_b = 98 ∷ []

abbrev node_c : Bytes
node_c = 99 ∷ []

abbrev member : FlowRef → Bytes → SetMember Unit
member ref node = record {
  ref = ref;
  has_flow = true;
  origin_found = true;
  origin_node = node;
  definition = none;
  unreadable = false;
}

-- The first flow is produced on "a", the second on "b".
abbrev members : List (SetMember Unit)
members = member first node_a ∷ member second node_b ∷ []

abbrev origin : FlowRef → Bytes
origin ref = if same_end ref.id then node_a else node_b
  where
    same_end : Bytes → Bool
    same_end [] = false
    same_end (b ∷ []) = b == 100
    same_end (b ∷ c ∷ s) = same_end (c ∷ s)

abbrev calls : Calls
calls = record {
  capabilities = λ node. missing;
  get_mirror = λ name held. answer held;
  patches = λ name. true;
  creates = λ name. true;
}

abbrev no_mirror : Mirrors
no_mirror name = none

program : Unit {0}
unfolding ensure_mirrors resolve flow_name mirror_name_for clean in_mirror_name
program = tt

abbrev sources : FlowRef → Bytes → Mirrors → Option (Bytes × Bytes × String)
sources ref node mirrors = elim (mirrors (mirror_name_for (λ b. b) ref node)) [
  | none ↦ none
  | some m ↦ some (m.source_node, m.target_node, m.provider)
]

-- A third node wants both flows, and one of the two the other's.
mirrored : List (Option (Bytes × Bytes × String)) × Bool
mirrored =
    let (out, ok) = ensure_mirrors (λ b. b) calls members (node_a ∷ node_c ∷ []) no_mirror in
    (sources first node_a out ∷ sources second node_a out ∷ sources first node_c out ∷ [], ok)

mirrored_run :
    mirrored ≡ (none ∷ some (node_b, node_a, "tcp") ∷ some (node_a, node_c, "tcp") ∷ [], true)
unfolding mirrored program
mirrored_run = refl

-- Nodes that differ in a dot and a dash share the mirror, which goes to the first of them.
shared : Option (Bytes × Bytes × String)
shared =
    let (out, ok) =
      ensure_mirrors (λ b. b) calls members ((97 ∷ 46 ∷ 98 ∷ []) ∷ (97 ∷ 45 ∷ 98 ∷ []) ∷ [])
        no_mirror in
    sources first (97 ∷ 45 ∷ 98 ∷ []) out

shared_run : shared ≡ some (node_a, 97 ∷ 46 ∷ 98 ∷ [], "tcp")
unfolding shared program
shared_run = refl
