-- ===== src/Placement/Tests.antt =====
-- Two nodes of two interfaces each, one mirror already placed: the ledger, the planner, and the
-- theorems at them.
use mxl_k8s.Base.{◌≡◌, refl, ap, false, none, String, List, [], ◌∷◌, arith, All}
use mxl_k8s.Base.Int.{pos}
use mxl_k8s.Base.Words.{add_i64, sub_i64, mul_i64}
use mxl_k8s.Base.Order.{least}
use mxl_k8s.Base.Texts.{same_text_iff}
use mxl_k8s.Placement.Node.{FabricInterface, ingress, Node, interfaces, port_of}
use mxl_k8s.Placement.Ledger.{
  Placed, Ledger, node_at, budgets_of, add_load, charge, new_ledger, empty_ledger, egress_load,
  ingress_load,
}
use mxl_k8s.Placement.Ledger.Account.{
  demand_at, count_at, source_port, target_port, new_ledger-Account,
}
use mxl_k8s.Placement.Planner.{
  Settings, prefer_same_subnet, place_anyway, Request, placed, Decision, Netip, plannable,
  source_used, target_used, score, compare_candidates, place,
}
use mxl_k8s.Placement.Planner.Fits.{IsKept, IsOffered, AllFit, mirror_at, place-AllFit}

abbrev interface_at : String → String → FabricInterface
interface_at address device = record {
  address = address;
  device = device;
  subnet = "10.0.0.0/24";
  link_state = "up";
  capacity = pos 1000;
  budgets = "nic" ∷ [];
}

abbrev node_of : String → String → String → Node
node_of name first second = record {
  name = name;
  providers =
      record {
        name = "verbs";
        interfaces = interface_at first "eth0" ∷ interface_at second "eth1" ∷ [];
      }
      ∷ [];
  budgets = record { name = "nic"; mode = ingress; capacity = pos 1500 } ∷ [];
  max_utilization = pos 0;
}

abbrev both_nodes : List Node
both_nodes = node_of "left" "10.0.0.1" "10.0.0.2" ∷ node_of "right" "10.0.0.3" "10.0.0.4" ∷ []

abbrev one_placed : List Placed
one_placed =
    record {
      source_node = "left";
      target_node = "right";
      provider = "verbs";
      placement = record { source_interface = "10.0.0.1"; target_interface = "10.0.0.3" };
      demand = pos 300;
    }
    ∷ []

-- No text is a link-local address.
abbrev no_addresses : Netip (Unit {0})
no_addresses = record { parse_addr = λ _. none; is_link_local_unicast = λ _. false; unmap = λ a. a }

abbrev usual : Settings
usual = record { max_utilization = pos 90; pairing = prefer_same_subnet; overcommit = place_anyway }

abbrev wanted : Request
wanted = record {
  source_node = "left";
  target_node = "right";
  provider = "verbs";
  demand = pos 400;
  avoid_source = [];
  avoid_target = [];
}

ledger : Ledger
unfolding new_ledger
ledger = new_ledger both_nodes one_placed

answer : Decision
unfolding place ledger
answer = place no_addresses ledger usual wanted

answer_lem : answer ≡ record {
  outcome = placed;
  placement = record { source_interface = "10.0.0.2"; target_interface = "10.0.0.4" };
  shares_source = false;
  shares_target = false;
  headroom = pos 500;
}
unfolding answer ledger new_ledger place score egress_load ingress_load compare_candidates node_at
    budgets_of charge port_of interfaces plannable mul_i64 sub_i64 add_i64 least
answer_lem = refl

new_ledger-Account_example :
    (egress_load (new_ledger both_nodes one_placed) "left" "eth0" ≡ (
      pos (
          demand_at
            (λ p. p.source_node)
            (source_port (empty_ledger both_nodes))
            "left"
            "eth0"
            one_placed),
      count_at
          (λ p. p.source_node)
          (source_port (empty_ledger both_nodes))
          "left"
          "eth0"
          one_placed,
    ))
    × (ingress_load (new_ledger both_nodes one_placed) "left" "eth0" ≡ (
      pos (
          demand_at
            (λ p. p.target_node)
            (target_port (empty_ledger both_nodes))
            "left"
            "eth0"
            one_placed),
      count_at
          (λ p. p.target_node)
          (target_port (empty_ledger both_nodes))
          "left"
          "eth0"
          one_placed,
    ))
new_ledger-Account_example =
    new_ledger-Account both_nodes one_placed "left" "eth0" (omega arith, tt) (omega arith)

ledger-IsKept : IsKept ledger "left" "right"
unfolding ledger new_ledger node_at charge add_i64 add_load port_of
ledger-IsKept = record {
  source_name = refl;
  target_name = refl;
  egress = λ port. ground arith;
  ingress = λ port. ground arith;
  source_budgets = λ key. (ground arith, ground arith);
  target_budgets = λ key. (ground arith, ground arith);
}

sources-IsOffered :
    All (IsOffered ledger "left" "verbs") (interfaces (node_at ledger "left") "verbs")
unfolding ledger new_ledger node_at charge port_of interfaces source_used budgets_of
sources-IsOffered = (offered, (offered', tt))
  where
    offered : IsOffered ledger "left" "verbs" (interface_at "10.0.0.1" "eth0")
    offered = record {
      keyed = refl;
      capacity = omega arith;
      budgets = (omega arith, tt);
      distinct = (tt, tt);
    }

    offered' : IsOffered ledger "left" "verbs" (interface_at "10.0.0.2" "eth1")
    offered' = record {
      keyed = refl;
      capacity = omega arith;
      budgets = (omega arith, tt);
      distinct = (tt, tt);
    }

targets-IsOffered :
    All (IsOffered ledger "right" "verbs") (interfaces (node_at ledger "right") "verbs")
unfolding ledger new_ledger node_at charge port_of interfaces target_used budgets_of add_i64
targets-IsOffered = (offered, (offered', tt))
  where
    offered : IsOffered ledger "right" "verbs" (interface_at "10.0.0.3" "eth0")
    offered = record {
      keyed = refl;
      capacity = omega arith;
      budgets = (omega arith, tt);
      distinct = (tt, tt);
    }

    offered' : IsOffered ledger "right" "verbs" (interface_at "10.0.0.4" "eth1")
    offered' = record {
      keyed = refl;
      capacity = omega arith;
      budgets = (omega arith, tt);
      distinct = (tt, tt);
    }

answer-placed : (place no_addresses ledger usual wanted).outcome ≡ placed
unfolding answer
answer-placed = ap (λ (d : Decision). d.outcome) answer_lem

place-AllFit_example :
    (a b : FabricInterface) × (a.address
      ≡ (place no_addresses ledger usual wanted).placement.source_interface)
    × (b.address ≡ (place no_addresses ledger usual wanted).placement.target_interface)
    × AllFit ledger usual wanted a b
        (charge ledger (mirror_at wanted (place no_addresses ledger usual wanted).placement))
place-AllFit_example =
    place-AllFit no_addresses ledger usual wanted ledger-IsKept apart (omega arith)
      sources-IsOffered targets-IsOffered answer-placed
  where
    apart : ◌≡◌ {A = String} "left" "right" → ⊥
    apart e = absurd (ground (arith, (same_text_iff "left" "right").1 e))
