-- ===== src/Placement/Planner/Charged.antt =====
-- The budgets of a mirror's two nodes once it is charged.
use mathlib.Core.Path.{subst}
use mxl_k8s.Base.{◌≡◌, ◌≢◌, refl, sym, ap, ◌∙◌, some, String, List, All, All-map}
use mxl_k8s.Base.Int.{ℤ, pos, ◌≤ℤ◌, ◌<ℤ◌, ◌+ℤ◌}
use mxl_k8s.Base.Words.{InI64, add_i64}
use mxl_k8s.Placement.Node.{Budget}
use mxl_k8s.Placement.Ledger.{Placed, Ledger, budgets_of, charge_budgets, charge}
use mxl_k8s.Placement.Planner.{plannable, source_used, target_used}
use mxl_k8s.Placement.Planner.Limits.{IsRate, Holds, AreRates, AllHold}
use mxl_k8s.Placement.Planner.Budgets.{
  IsHalfRate, Distinct, SourceFits, TargetFits, charge_budgets_elsewhere, All-zip,
  charge_budgets_each, add_rate, half_IsRate, regroup, source_egress, source_combined,
  target_ingress, target_combined, source_used-IsRate, target_used-IsRate,
}

module _ (l l' : Ledger) (node : String) (demand percent : ℤ) (b : Budget)
    (out : IsHalfRate (l.budget_egress node b.name))
    (back : IsHalfRate (l.budget_ingress node b.name)) (rate : IsRate demand) where
  -- What was committed of both and the demand, once the code's sum is the sum.
  both_hold :
      Holds demand b.capacity percent
        (add_i64 (l.budget_egress node b.name) (l.budget_ingress node b.name))
      → pos 0 <ℤ b.capacity
      → (l.budget_egress node b.name +ℤ l.budget_ingress node b.name) +ℤ demand
        ≤ℤ plannable b.capacity percent
  both_hold h known =
      subst (λ x. x +ℤ demand ≤ℤ plannable b.capacity percent)
        (add_rate (l.budget_egress node b.name) (l.budget_ingress node b.name) out
          (half_IsRate _ back))
        (h known)

  source_fits :
      l'.budget_egress node b.name ≡ add_i64 (l.budget_egress node b.name) demand
      → l'.budget_ingress node b.name ≡ l.budget_ingress node b.name
      → ((u : ℤ) → source_used l node b ≡ some u → Holds demand b.capacity percent u)
      → SourceFits l l' node demand percent b
  source_fits charged same h =
      let e = charged ∙ add_rate (l.budget_egress node b.name) demand out rate in
      (
        e,
        λ m known.
            subst (λ x. x ≤ℤ plannable b.capacity percent) (sym e)
              (h _ (source_egress l node b m) known),
        λ m known.
            let w = both_hold (h _ (source_combined l node b m)) known in
            subst (λ x. x +ℤ l'.budget_ingress node b.name ≤ℤ plannable b.capacity percent) (sym e)
              (subst
                (λ x. (l.budget_egress node b.name +ℤ demand) +ℤ x ≤ℤ plannable b.capacity percent)
                (sym same) (regroup _ _ demand _ out back rate w).0),
      )

  target_fits :
      l'.budget_ingress node b.name ≡ add_i64 (l.budget_ingress node b.name) demand
      → l'.budget_egress node b.name ≡ l.budget_egress node b.name
      → ((u : ℤ) → target_used l node b ≡ some u → Holds demand b.capacity percent u)
      → TargetFits l l' node demand percent b
  target_fits charged same h =
      let e = charged ∙ add_rate (l.budget_ingress node b.name) demand back rate in
      (
        e,
        λ m known.
            subst (λ x. x ≤ℤ plannable b.capacity percent) (sym e)
              (h _ (target_ingress l node b m) known),
        λ m known.
            let w = both_hold (h _ (target_combined l node b m)) known in
            subst (λ x. l'.budget_egress node b.name +ℤ x ≤ℤ plannable b.capacity percent) (sym e)
              (subst
                (λ x. x +ℤ (l.budget_ingress node b.name +ℤ demand) ≤ℤ plannable b.capacity percent)
                (sym same) (regroup _ _ demand _ out back rate w).1),
      )

-- The loads of the budgets of a node are half rates.
abbrev pub HalfRates : Ledger → String → Type 0
HalfRates l node =
    (key : String) → IsHalfRate (l.budget_egress node key) × IsHalfRate (l.budget_ingress node key)

pub source-AreRates :
    (l : Ledger) (node : String) (bs : List Budget)
    → HalfRates l node
    → All (λ b. InI64 b.capacity) bs
    → AreRates (source_used l node) bs
source-AreRates l node bs h =
    All-map _ _ (λ b c. (c, source_used-IsRate l node b (h b.name).0 (h b.name).1 b.mode refl)) bs

pub target-AreRates :
    (l : Ledger) (node : String) (bs : List Budget)
    → HalfRates l node
    → All (λ b. InI64 b.capacity) bs
    → AreRates (target_used l node) bs
target-AreRates l node bs h =
    All-map _ _ (λ b c. (c, target_used-IsRate l node b (h b.name).0 (h b.name).1 b.mode refl)) bs

module _ (l : Ledger) (p : Placed) (percent : ℤ) (bs : List Budget)
    (apart : p.source_node ≢ p.target_node) (rate : IsRate p.demand) where
  pub charge-SourceFits :
      budgets_of l p.source_node p.placement.source_interface ≡ bs
      → HalfRates l p.source_node
      → Distinct bs
      → AllHold (source_used l p.source_node) p.demand percent bs
      → All (SourceFits l (charge l p) p.source_node p.demand percent) bs
  unfolding charge
  charge-SourceFits e h d holds =
      All-zip _ _ _
        (λ b charged held.
          source_fits l (charge l p) p.source_node p.demand percent b (h b.name).0 (h b.name).1 rate
            (ap
                (λ cs.
                  charge_budgets l.budget_egress p.source_node cs p.demand p.source_node b.name)
                e
              ∙ charged)
            (charge_budgets_elsewhere l.budget_ingress p.target_node
              (budgets_of l p.target_node p.placement.target_interface) p.demand p.source_node
              b.name (λ q. apart (sym q)))
            held)
        bs (charge_budgets_each l.budget_egress p.source_node bs p.demand d) holds

  pub charge-TargetFits :
      budgets_of l p.target_node p.placement.target_interface ≡ bs
      → HalfRates l p.target_node
      → Distinct bs
      → AllHold (target_used l p.target_node) p.demand percent bs
      → All (TargetFits l (charge l p) p.target_node p.demand percent) bs
  unfolding charge
  charge-TargetFits e h d holds =
      All-zip _ _ _
        (λ b charged held.
          target_fits l (charge l p) p.target_node p.demand percent b (h b.name).0 (h b.name).1 rate
            (ap
                (λ cs.
                  charge_budgets l.budget_ingress p.target_node cs p.demand p.target_node b.name)
                e
              ∙ charged)
            (charge_budgets_elsewhere l.budget_egress p.source_node
              (budgets_of l p.source_node p.placement.source_interface) p.demand p.target_node
              b.name apart)
            held)
        bs (charge_budgets_each l.budget_ingress p.target_node bs p.demand d) holds
