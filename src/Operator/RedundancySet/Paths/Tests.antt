-- ===== src/Operator/RedundancySet/Paths/Tests.antt =====
-- Two mirrors to a node: what `pathsDisjoint` answers, and its theorem there.
use mxl_k8s.Base.{◌≡◌, refl, false, Option, none, some, String, List, [], ◌∷◌}
use mxl_k8s.Api.Names.{Bytes, FlowRef, flow_name, in_mirror_name, clean, mirror_name_for}
use mxl_k8s.Placement.Node.{Provider, port_from}
use mxl_k8s.Placement.Ledger.{Placement}
use mxl_k8s.Operator.RedundancySet.{FlowMirror, Mirrors}
use mxl_k8s.Operator.RedundancySet.Mirrors.{put_mirror}
use mxl_k8s.Operator.RedundancySet.Paths.{
  Paths, disjoint, shared_target, shared_source, unplaced, paths_disjoint,
}
use mxl_k8s.Operator.RedundancySet.Paths.Fabric.{mirror_to, ports_of}
use mxl_k8s.Operator.RedundancySet.Paths.Told.{IsTold, paths_disjoint-IsTold}

abbrev first : FlowRef
first = record { domain = []; id = 49 ∷ [] }

abbrev second : FlowRef
second = record { domain = []; id = 50 ∷ [] }

abbrev node : Bytes
node = 97 ∷ []

abbrev sender : Bytes
sender = 98 ∷ []

abbrev to_node : FlowRef → Option Placement → FlowMirror
to_node ref placement = record {
  ref = ref;
  source_node = sender;
  target_node = node;
  provider = "tcp";
  placement = placement;
  deleting = false;
}

abbrev between : String → String → Option Placement
between source target = some (record { source_interface = source; target_interface = target })

-- The two members' mirrors, placed as given.
abbrev placed : Option Placement → Option Placement → Mirrors
placed p q =
    put_mirror (put_mirror (λ name. none) (mirror_name_for (λ b. b) first node) (to_node first p))
      (mirror_name_for (λ b. b) second node) (to_node second q)

abbrev no_capabilities : Bytes → Option (List Provider)
no_capabilities name = none

abbrev answer_of : Option Placement → Option Placement → Paths
answer_of p q =
    paths_disjoint (λ b. b) no_capabilities (placed p q) (first ∷ second ∷ []) (node ∷ [])

program : Unit {0}
unfolding paths_disjoint mirror_name_for flow_name clean in_mirror_name port_from
program = tt

apart : answer_of (between "10.0.0.1" "10.0.1.1") (between "10.0.0.2" "10.0.1.2") ≡ disjoint
unfolding program
apart = refl

one_arrival :
    answer_of (between "10.0.0.1" "10.0.1.1") (between "10.0.0.1" "10.0.1.1")
    ≡ shared_target first second node "10.0.1.1"
unfolding program
one_arrival = refl

one_departure :
    answer_of (between "10.0.0.1" "10.0.1.1") (between "10.0.0.1" "10.0.1.2")
    ≡ shared_source first second node sender "10.0.0.1"
unfolding program
one_departure = refl

one_waits : answer_of (between "10.0.0.1" "10.0.1.1") none ≡ unplaced 1
unfolding program
one_waits = refl

paths_disjoint-IsTold_example :
    IsTold
      (mirror_to (λ b. b) (placed (between "10.0.0.1" "10.0.1.1") none))
      (ports_of no_capabilities)
      (first ∷ second ∷ [])
      (node ∷ [])
      (paths_disjoint
        (λ b. b)
        no_capabilities
        (placed (between "10.0.0.1" "10.0.1.1") none)
        (first ∷ second ∷ [])
        (node ∷ []))
paths_disjoint-IsTold_example =
    paths_disjoint-IsTold (λ b. b) no_capabilities (placed (between "10.0.0.1" "10.0.1.1") none)
      (first ∷ second ∷ []) (node ∷ [])
