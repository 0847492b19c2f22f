-- ===== src/Placement/Planner/Budgets.antt =====
-- What charging a mirror does to the budgets of its two nodes.
use mathlib.Core.Path.{subst}
use mxl_k8s.Base.{
  ◌^◌, ◌≡◌, ◌≢◌, refl, sym, ap, ◌∙◌, ◌⊎◌, inl, inr, some, String, List, [], ◌∷◌, arith, All,
  Bool-cases,
}
use mxl_k8s.Base.Int.{ℤ, pos, ◌≤ℤ◌, ◌<ℤ◌, ◌+ℤ◌}
use mxl_k8s.Base.Words.{InI64, add_i64, add_i64_same}
use mxl_k8s.Base.Texts.{same_text, same_text_iff}
use mxl_k8s.Placement.Node.{BudgetMode, egress, ingress, combined, unset, other, Budget}
use mxl_k8s.Placement.Ledger.{Ledger, update, charge_budgets}
use mxl_k8s.Placement.Planner.{plannable, source_used, target_used}
use mxl_k8s.Placement.Planner.Limits.{IsRate}

-- A load that a rate and another such load keep in range.
abbrev pub IsHalfRate : ℤ → Type 0
IsHalfRate a = (pos 0 ≤ℤ a) × (a ≤ℤ pos (2 ^ 60))

-- No two budgets have one name.
abbrev pub Distinct : List Budget → Type 0
Distinct [] = Unit
Distinct (b ∷ bs) = All (λ c. b.name ≢ c.name) bs × Distinct bs

-- A load is within the share of the budget's capacity that may be committed, where it is known.
abbrev pub IsWithin : ℤ → Budget → ℤ → Type 0
IsWithin percent b used = pos 0 <ℤ b.capacity → used ≤ℤ plannable b.capacity percent

-- A budget of the source node carries the demand, and keeps within its capacity: what is sent, or
-- what is sent and received, by its mode.
abbrev pub SourceFits : Ledger → Ledger → String → ℤ → ℤ → Budget → Type 0
SourceFits l l' node demand percent b =
    (l'.budget_egress node b.name ≡ l.budget_egress node b.name +ℤ demand)
    × (b.mode ≡ egress → IsWithin percent b (l'.budget_egress node b.name))
    × (b.mode ≡ combined
        → IsWithin percent b (l'.budget_egress node b.name +ℤ l'.budget_ingress node b.name))

-- A budget of the target node does: what is received, also where it has no mode, or both.
abbrev pub TargetFits : Ledger → Ledger → String → ℤ → ℤ → Budget → Type 0
TargetFits l l' node demand percent b =
    (l'.budget_ingress node b.name ≡ l.budget_ingress node b.name +ℤ demand)
    × ((b.mode ≡ ingress) ⊎ (b.mode ≡ unset) → IsWithin percent b (l'.budget_ingress node b.name))
    × (b.mode ≡ combined
        → IsWithin percent b (l'.budget_egress node b.name +ℤ l'.budget_ingress node b.name))

module _ (f : String → String → ℤ) (node : String) (demand : ℤ) where
  -- What a charge of one budget leaves.
  abbrev with_budget : Budget → String → String → ℤ
  with_budget b = update f node b.name (add_i64 (f node b.name) demand)

  with_budget_self : (b : Budget) → with_budget b node b.name ≡ add_i64 (f node b.name) demand
  with_budget_self b =
      rw ((same_text_iff node node).1 refl, (same_text_iff b.name b.name).1 refl) refl

  with_budget_other :
      (b : Budget) (key : String) → b.name ≢ key → with_budget b node key ≡ f node key
  with_budget_other b key ne = elim (Bool-cases (same_text b.name key)) [
    | inl q ↦ absurd (ne ((same_text_iff b.name key).0 q))
    | inr q ↦ rw ((same_text_iff node node).1 refl, q) refl
  ]

  with_budget_elsewhere :
      (b : Budget) (at key : String) → node ≢ at → with_budget b at key ≡ f at key
  with_budget_elsewhere b at key ne = elim (Bool-cases (same_text node at)) [
    | inl q ↦ absurd (ne ((same_text_iff node at).0 q))
    | inr q ↦ rw q refl
  ]

pub charge_budgets_elsewhere :
    (f : String → String → ℤ) (node : String) (bs : List Budget) (demand : ℤ) (at key : String)
    → node ≢ at
    → charge_budgets f node bs demand at key ≡ f at key
unfolding charge_budgets
charge_budgets_elsewhere f node [] demand at key ne = refl
charge_budgets_elsewhere f node (b ∷ bs) demand at key ne =
    charge_budgets_elsewhere (with_budget f node demand b) node bs demand at key ne
    ∙ with_budget_elsewhere f node demand b at key ne

charge_budgets_other :
    (f : String → String → ℤ) (node : String) (bs : List Budget) (demand : ℤ) (key : String)
    → All (λ c. key ≢ c.name) bs
    → charge_budgets f node bs demand node key ≡ f node key
unfolding charge_budgets
charge_budgets_other f node [] demand key h = refl
charge_budgets_other f node (b ∷ bs) demand key h =
    charge_budgets_other (with_budget f node demand b) node bs demand key h.1
    ∙ with_budget_other f node demand b key (λ e. h.0 (sym e))

pub All-zip :
    {A : Type 0} (P Q R : A → Type 0)
    → ((x : A) → P x → Q x → R x)
    → (xs : List A) → All P xs
    → All Q xs
    → All R xs
All-zip P Q R f [] h k = tt
All-zip P Q R f (x ∷ xs) h k = (f x h.0 k.0, All-zip P Q R f xs h.1 k.1)

-- Each budget of the list carries the demand once.
pub charge_budgets_each :
    (f : String → String → ℤ) (node : String) (bs : List Budget) (demand : ℤ)
    → Distinct bs
    → All (λ b. charge_budgets f node bs demand node b.name ≡ add_i64 (f node b.name) demand) bs
unfolding charge_budgets
charge_budgets_each f node [] demand h = tt
charge_budgets_each f node (b ∷ bs) demand h = (
  charge_budgets_other (with_budget f node demand b) node bs demand b.name h.0
      ∙ with_budget_self f node demand b,
  All-zip _ _ _
      (λ c e ne. e ∙ ap (λ x. add_i64 x demand) (with_budget_other f node demand b c.name ne)) bs
      (charge_budgets_each (with_budget f node demand b) node bs demand h.1) h.0,
)

pub add_rate : (a d : ℤ) → IsHalfRate a → IsRate d → add_i64 a d ≡ a +ℤ d
add_rate a d h k = add_i64_same a d (in_range a d h k)
  where
    in_range : (x y : ℤ) → IsHalfRate x → IsRate y → InI64 (x +ℤ y)
    in_range x y h k = ground arith

pub half_IsRate : (a : ℤ) → IsHalfRate a → IsRate a
half_IsRate a h = ground arith

sum_IsRate : (a b : ℤ) → IsHalfRate a → IsHalfRate b → IsRate (a +ℤ b)
sum_IsRate a b h k = ground arith

pub regroup :
    (e i d p : ℤ)
    → IsHalfRate e
    → IsHalfRate i
    → IsRate d
    → (e +ℤ i) +ℤ d ≤ℤ p
    → ((e +ℤ d) +ℤ i ≤ℤ p) × (e +ℤ (i +ℤ d) ≤ℤ p)
regroup e i d p he hi hd h = ground arith

-- What the code counts of a budget at a node, by its mode.
module _ (l : Ledger) (node : String) (b : Budget) where
  pub source_egress : b.mode ≡ egress → source_used l node b ≡ some (l.budget_egress node b.name)
  unfolding source_used
  source_egress q = rw (source_used, q) refl

  pub source_combined :
      b.mode ≡ combined
      → source_used l node b
        ≡ some (add_i64 (l.budget_egress node b.name) (l.budget_ingress node b.name))
  unfolding source_used
  source_combined q = rw (source_used, q) refl

  pub target_ingress :
      (b.mode ≡ ingress) ⊎ (b.mode ≡ unset)
      → target_used l node b ≡ some (l.budget_ingress node b.name)
  unfolding target_used
  target_ingress (inl q) = rw (target_used, q) refl
  target_ingress (inr q) = rw (target_used, q) refl

  pub target_combined :
      b.mode ≡ combined
      → target_used l node b
        ≡ some (add_i64 (l.budget_egress node b.name) (l.budget_ingress node b.name))
  unfolding target_used
  target_combined q = rw (target_used, q) refl

  module _ (out : IsHalfRate (l.budget_egress node b.name))
      (back : IsHalfRate (l.budget_ingress node b.name)) where
    both_IsRate : IsRate (add_i64 (l.budget_egress node b.name) (l.budget_ingress node b.name))
    both_IsRate =
        subst IsRate (sym (add_rate _ _ out (half_IsRate _ back))) (sum_IsRate _ _ out back)

    pub source_used-IsRate :
        (m : BudgetMode) → b.mode ≡ m → (u : ℤ) → source_used l node b ≡ some u → IsRate u
    unfolding source_used
    source_used-IsRate egress q u e =
        subst IsRate (ground (arith, source_egress q, e)) (half_IsRate _ out)
    source_used-IsRate combined q u e =
        subst IsRate (ground (arith, source_combined q, e)) both_IsRate
    source_used-IsRate ingress q u e = absurd (ground (arith, q, e))
    source_used-IsRate unset q u e = absurd (ground (arith, q, e))
    source_used-IsRate other q u e = absurd (ground (arith, q, e))

    pub target_used-IsRate :
        (m : BudgetMode) → b.mode ≡ m → (u : ℤ) → target_used l node b ≡ some u → IsRate u
    unfolding target_used
    target_used-IsRate ingress q u e =
        subst IsRate (ground (arith, target_ingress (inl q), e)) (half_IsRate _ back)
    target_used-IsRate unset q u e =
        subst IsRate (ground (arith, target_ingress (inr q), e)) (half_IsRate _ back)
    target_used-IsRate combined q u e =
        subst IsRate (ground (arith, target_combined q, e)) both_IsRate
    target_used-IsRate egress q u e = absurd (ground (arith, q, e))
    target_used-IsRate other q u e = absurd (ground (arith, q, e))
