-- ===== src/Placement/Planner/Draws.antt =====
-- The budgets that the interfaces at an address draw on.
use mathlib.Core.Path.{subst}
use mxl_k8s.Base.{
  ◌≡◌, refl, sym, ◌⊎◌, inl, inr, true, String, List, [], ◌∷◌, arith, All, All-map, Bool-cases,
  Option-cases, ◌++◌,
}
use mxl_k8s.Base.Texts.{same_text, same_text_iff, contains_text}
use mxl_k8s.Placement.Node.{Budget, FabricInterface, Provider, no_node}
use mxl_k8s.Placement.Ledger.{Ledger, budgets_of, names_at, budget_names, named_budgets, node_at}

-- An interface at the address lists a budget of the name.
abbrev pub ListsBudget : List FabricInterface → String → String → Type 0
ListsBudget [] address name = ⊥
ListsBudget (i ∷ is) address name =
    ((i.address ≡ address) × (contains_text i.budgets name ≡ true)) ⊎ ListsBudget is address name

-- The interfaces at the address draw on the budget of the name.
abbrev pub DrawsOn : List Provider → String → String → Type 0
DrawsOn [] address name = ⊥
DrawsOn (p ∷ ps) address name = ListsBudget p.interfaces address name ⊎ DrawsOn ps address name

contains-append :
    (xs ys : List String) (name : String)
    → (contains_text xs name ≡ true) ⊎ (contains_text ys name ≡ true)
    → contains_text (xs ++ ys) name ≡ true
contains-append [] ys name (inl q) = absurd (ground (arith, q))
contains-append [] ys name (inr q) = q
contains-append (x ∷ xs) ys name h = elim (Bool-cases (same_text x name)) [
  | inl q ↦ rw q refl
  | inr q ↦ elim h [
    | inl c ↦ rw q (contains-append xs ys name (inl (ground (arith, c, q))))
    | inr c ↦ rw q (contains-append xs ys name (inr c))
  ]
]

contains-names_at :
    (is : List FabricInterface) (address name : String)
    → ListsBudget is address name
    → contains_text (names_at is address) name ≡ true
unfolding names_at
contains-names_at [] address name h = absurd h
contains-names_at (i ∷ is) address name (inl (e, c)) =
    rw ((same_text_iff i.address address).1 e)
      (contains-append i.budgets (names_at is address) name (inl c))
contains-names_at (i ∷ is) address name (inr h) = elim (Bool-cases (same_text i.address address)) [
  | inl q ↦ rw q (
      contains-append i.budgets (names_at is address) name
        (inr (contains-names_at is address name h)))
  | inr q ↦ rw q (contains-names_at is address name h)
]

contains-budget_names :
    (ps : List Provider) (address name : String)
    → DrawsOn ps address name
    → contains_text (budget_names ps address) name ≡ true
unfolding budget_names
contains-budget_names [] address name h = absurd h
contains-budget_names (p ∷ ps) address name (inl h) =
    contains-append (names_at p.interfaces address) (budget_names ps address) name
      (inl (contains-names_at p.interfaces address name h))
contains-budget_names (p ∷ ps) address name (inr h) =
    contains-append (names_at p.interfaces address) (budget_names ps address) name
      (inr (contains-budget_names ps address name h))

All-named_budgets :
    (P : Budget → Type 0) (bs : List Budget) (names : List String)
    → All P (named_budgets bs names)
    → All (λ b. contains_text names b.name ≡ true → P b) bs
unfolding named_budgets
All-named_budgets P [] names h = tt
All-named_budgets P (b ∷ bs) names h = elim (Bool-cases (contains_text names b.name)) [
  | inl q ↦
      let taken : named_budgets (b ∷ bs) names ≡ b ∷ named_budgets bs names =
        rw (named_budgets, q) refl in
      let all : All P (b ∷ named_budgets bs names) = subst (All P) taken h in
      (λ c. all.0, All-named_budgets P bs names all.1)
  | inr q ↦
      let left : named_budgets (b ∷ bs) names ≡ named_budgets bs names =
        rw (named_budgets, q) refl in
      let all : All P (named_budgets bs names) = subst (All P) left h in
      (λ c. absurd (ground (arith, c, q)), All-named_budgets P bs names all)
]

-- What holds of the code's budgets at an address holds of each budget of the node that the
-- interfaces there draw on.
pub All-budgets_of :
    (P : Budget → Type 0) (l : Ledger) (node address : String)
    → All P (budgets_of l node address)
    → All (λ b. DrawsOn (node_at l node).providers address b.name → P b) (node_at l node).budgets
unfolding budgets_of node_at
All-budgets_of P l node address h = elim (Option-cases (l.nodes node)) [
  | inl q ↦
      let at : node_at l node ≡ no_node = rw (node_at, q) refl in
      subst (λ n. All (λ b. DrawsOn n.providers address b.name → P b) n.budgets) (sym at) tt
  | inr (n, q) ↦
      let at : node_at l node ≡ n = rw (node_at, q) refl in
      let are : budgets_of l node address
          ≡ named_budgets n.budgets (budget_names n.providers address) =
        rw (budgets_of, q) refl in
      subst (λ x. All (λ b. DrawsOn x.providers address b.name → P b) x.budgets) (sym at)
        (All-map _ _ (λ b c d. c (contains-budget_names n.providers address b.name d)) n.budgets
          (All-named_budgets P n.budgets (budget_names n.providers address) (subst (All P) are h)))
]
