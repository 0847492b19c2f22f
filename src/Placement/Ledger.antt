-- ===== src/Placement/Ledger.antt =====
-- `Ledger` of operator/internal/placement/planner.go: the load committed on every port and budget.
-- A Go map is a function to its values, whose zero value stands for a missing key. A count of
-- mirrors, an int that counts values in memory, is a number.
pub mod Account
use mxl_k8s.Base.{
  ℕ, suc, ◌+◌, Bool, true, false, ◌&&◌, Option, none, some, String, List, [], ◌∷◌, ◌++◌,
  if◌then◌else◌,
}
use mxl_k8s.Base.Int.{ℤ, pos}
use mxl_k8s.Base.Words.{add_i64}
use mxl_k8s.Base.Texts.{same_text, contains_text}
use mxl_k8s.Placement.Node.{FabricInterface, Budget, Provider, Node, no_node, port_of}

-- A pair of interfaces by their addresses.
pub record Placement : Type 0 where
  pub source_interface : String
  pub target_interface : String

pub record Placed : Type 0 where
  pub source_node : String
  pub target_node : String
  pub provider : String
  pub placement : Placement
  pub demand : ℤ

pub record Load : Type 0 where
  pub bits : ℤ
  pub mirrors : ℕ

pub record Ledger : Type 0 where
  pub egress : String → String → Load
  pub ingress : String → String → Load
  pub budget_egress : String → String → ℤ
  pub budget_ingress : String → String → ℤ
  pub nodes : String → Option Node

abbrev pub no_load : Load
no_load = record { bits = pos 0; mirrors = 0 }

-- `l.nodes[name]`, with the zero Node for a missing one
unfoldable pub node_at : Ledger → String → Node
node_at l name = elim (l.nodes name) [ none ↦ no_node | some n ↦ n ]

-- A write to a map whose keys are pairs of texts.
abbrev pub update : {V : Type 0} → (String → String → V) → String → String → V → String → String → V
update f node key v node' key' =
    if same_text node node' && same_text key key' then v else f node' key'

unfoldable pub names_at : List FabricInterface → String → List String
names_at [] address = []
names_at (i ∷ is) address =
    let rest = names_at is address in
    if same_text i.address address then i.budgets ++ rest else rest

unfoldable pub budget_names : List Provider → String → List String
unfolding names_at
budget_names [] address = []
budget_names (p ∷ ps) address = names_at p.interfaces address ++ budget_names ps address

unfoldable pub named_budgets : List Budget → List String → List Budget
named_budgets [] names = []
named_budgets (b ∷ bs) names =
    let rest = named_budgets bs names in if contains_text names b.name then b ∷ rest else rest

unfoldable pub budgets_of : Ledger → String → String → List Budget
unfolding budget_names named_budgets
budgets_of l node address = elim (l.nodes node) [
  | none ↦ []
  | some n ↦ named_budgets n.budgets (budget_names n.providers address)
]

unfoldable pub add_load : Load → ℤ → Load
add_load v demand = record { bits = add_i64 v.bits demand; mirrors = v.mirrors + 1 }

-- The loop that charges the demand to every budget of the list.
unfoldable pub charge_budgets :
    (String → String → ℤ) → String → List Budget → ℤ → String → String → ℤ
charge_budgets f node [] demand = f
charge_budgets f node (b ∷ bs) demand =
    charge_budgets (update f node b.name (add_i64 (f node b.name) demand)) node bs demand

unfoldable pub charge : Ledger → Placed → Ledger
unfolding node_at add_load charge_budgets budgets_of port_of
charge l p =
    let source = port_of (node_at l p.source_node) p.provider p.placement.source_interface in
    let target = port_of (node_at l p.target_node) p.provider p.placement.target_interface in
    record l {
      egress =
          update l.egress p.source_node source (add_load (l.egress p.source_node source) p.demand);
      ingress =
          update l.ingress p.target_node target
            (add_load (l.ingress p.target_node target) p.demand);
      budget_egress =
          charge_budgets l.budget_egress p.source_node
            (budgets_of l p.source_node p.placement.source_interface) p.demand;
      budget_ingress =
          charge_budgets l.budget_ingress p.target_node
            (budgets_of l p.target_node p.placement.target_interface) p.demand;
    }

-- The nodes by name; of two with one name the later one is kept.
unfoldable pub nodes_by_name : List Node → (String → Option Node) → String → Option Node
nodes_by_name [] f = f
nodes_by_name (n ∷ ns) f =
    nodes_by_name ns (λ name. if same_text n.name name then some n else f name)

unfoldable pub charge_all : Ledger → List Placed → Ledger
unfolding charge
charge_all l [] = l
charge_all l (p ∷ ps) = charge_all (charge l p) ps

unfoldable pub empty_ledger : List Node → Ledger
unfolding nodes_by_name
empty_ledger nodes = record {
  egress = λ _ _. no_load;
  ingress = λ _ _. no_load;
  budget_egress = λ _ _. pos 0;
  budget_ingress = λ _ _. pos 0;
  nodes = nodes_by_name nodes (λ _. none);
}

unfoldable pub new_ledger : List Node → List Placed → Ledger
unfolding empty_ledger charge_all
new_ledger nodes placed = charge_all (empty_ledger nodes) placed

-- `Egress`, `Ingress` and `BudgetLoad`
unfoldable pub egress_load : Ledger → String → String → ℤ × ℕ
egress_load l node key = ((l.egress node key).bits, (l.egress node key).mirrors)

unfoldable pub ingress_load : Ledger → String → String → ℤ × ℕ
ingress_load l node key = ((l.ingress node key).bits, (l.ingress node key).mirrors)

unfoldable pub budget_load : Ledger → String → String → ℤ × ℤ
budget_load l node budget = (l.budget_egress node budget, l.budget_ingress node budget)
