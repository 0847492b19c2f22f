-- ===== src/Placement/Planner/Agrees.antt =====
-- `Check` of what `Place` answered finds the headroom that `Place` reported.
use mxl_k8s.Base.{◌≡◌, String}
use mxl_k8s.Placement.Node.{FabricInterface, interfaces}
use mxl_k8s.Placement.Ledger.{Ledger, node_at}
use mxl_k8s.Placement.Planner.{find_interface}

-- The interface is the first of its node at its address.
abbrev pub IsFirst : Ledger → String → String → FabricInterface → Type 0
IsFirst l node provider i = find_interface (interfaces (node_at l node) provider) i.address ≡ i
