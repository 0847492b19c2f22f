-- ===== src/Placement/Node.antt =====
-- A node's fabric as its capabilities report it: `Node` of operator/internal/placement/planner.go
-- and the types of api/v1alpha1 it reads.
use mxl_k8s.Base.{Bool, true, false, Option, none, some, String, List, [], ◌∷◌, if◌then◌else◌}
use mxl_k8s.Base.Int.{ℤ, pos, ltb_ℤ}
use mxl_k8s.Base.Texts.{same_text}

pub record FabricInterface : Type 0 where
  pub address : String
  pub device : String
  pub subnet : String
  pub link_state : String
  pub capacity : ℤ
  pub budgets : List String

-- A budget's mode; a text that is none of the three is `other`, and the empty text is `unset`.
pub data BudgetMode : Type 0 where
  ingress : BudgetMode
  egress : BudgetMode
  combined : BudgetMode
  unset : BudgetMode
  other : BudgetMode

pub record Budget : Type 0 where
  pub name : String
  pub mode : BudgetMode
  pub capacity : ℤ

pub record Provider : Type 0 where
  pub name : String
  pub interfaces : List FabricInterface

pub record Node : Type 0 where
  pub name : String
  pub providers : List Provider
  pub budgets : List Budget
  pub max_utilization : ℤ

abbrev pub no_node : Node
no_node = record { name = ""; providers = []; budgets = []; max_utilization = pos 0 }

-- The interfaces whose link is not reported down.
unfoldable pub links_up : List FabricInterface → List FabricInterface
links_up [] = []
links_up (i ∷ is) =
    let rest = links_up is in if same_text i.link_state "down" then rest else i ∷ rest

-- The first provider of the name decides.
unfoldable pub interfaces_of : List Provider → String → List FabricInterface
unfolding links_up
interfaces_of [] provider = []
interfaces_of (p ∷ ps) provider =
    let rest = interfaces_of ps provider in
    if same_text p.name provider then links_up p.interfaces else rest

unfoldable pub interfaces : Node → String → List FabricInterface
unfolding interfaces_of
interfaces n provider = interfaces_of n.providers provider

unfoldable pub port : FabricInterface → String
port i = if same_text i.device "" then i.address else i.device

-- The port of the first interface at the address.
unfoldable pub port_at : List FabricInterface → String → Option String
unfolding port
port_at [] address = none
port_at (i ∷ is) address =
    let rest = port_at is address in if same_text i.address address then some (port i) else rest

-- The loop over the providers: the first of the name that lists the address.
unfoldable pub port_from : List Provider → String → String → String
unfolding port_at
port_from [] provider address = address
port_from (p ∷ ps) provider address =
    let rest = port_from ps provider address in
    if same_text p.name provider
    then elim (port_at p.interfaces address) [ none ↦ rest | some found ↦ found ]
    else rest

-- `Node.port`, and `PortOf` of a status
unfoldable pub port_of : Node → String → String → String
unfolding port_from
port_of n provider address = port_from n.providers provider address

unfoldable pub lists_address : List FabricInterface → String → Bool
lists_address [] address = false
lists_address (i ∷ is) address =
    if same_text i.address address then true else lists_address is address

-- `Node.Has`
unfoldable pub has_interface : Node → String → String → Bool
unfolding interfaces lists_address
has_interface n provider address = lists_address (interfaces n provider) address

unfoldable pub utilization : Node → ℤ → ℤ
utilization n default = if ltb_ℤ (pos 0) n.max_utilization then n.max_utilization else default
