-- ===== src/Placement/Planner/Fits.antt =====
-- A mirror that `Place` places fits: charged to the ledger, no capacity or budget is exceeded.
use mathlib.Core.Path.{subst}
use mxl_k8s.Base.{◌≡◌, ◌≢◌, refl, sym, ap, ◌∙◌, inl, inr, String, arith, All, All-get_elem?}
use mxl_k8s.Base.Int.{ℤ, pos, ◌≤ℤ◌, ◌<ℤ◌, ◌+ℤ◌}
use mxl_k8s.Base.Words.{InI64, add_i64_same, max_i64}
use mxl_k8s.Base.Texts.{same_text_iff}
use mxl_k8s.Placement.Node.{FabricInterface, Node, interfaces, port, port_of, utilization}
use mxl_k8s.Placement.Ledger.{
  Placement, Placed, Load, Ledger, node_at, budgets_of, add_load, update, charge, egress_load,
  ingress_load,
}
use mxl_k8s.Placement.Planner.{
  Settings, Request, placed, Decision, Candidate, without_room, place_anyway, hold, Overcommit,
  Netip, plannable, source_used, target_used, score, place,
}
use mxl_k8s.Placement.Planner.Order.{HasRoom}
use mxl_k8s.Placement.Planner.Best.{candidates, place-IsAnswer}
use mxl_k8s.Placement.Planner.Limits.{
  IsRate, Holds, AreRates, AllHold, room-Holds, budget_room-AllHold,
}
use mxl_k8s.Placement.Planner.Budgets.{Distinct, SourceFits, TargetFits}
use mxl_k8s.Placement.Planner.Charged.{
  HalfRates, source-AreRates, target-AreRates, charge-SourceFits, charge-TargetFits,
}
use mxl_k8s.Placement.Planner.Draws.{DrawsOn, All-budgets_of}
use mxl_k8s.Placement.Planner.Chosen.{IsScored, candidates-IsScored}

-- What an interface of a node must be for its limits to be kept: its address leads to its port, and
-- its budgets have names of their own.
pub record IsOffered (l : Ledger) (node provider : String) (i : FabricInterface) : Type 0 where
  pub keyed : port_of (node_at l node) provider i.address ≡ port i
  pub capacity : InI64 i.capacity
  pub budgets : All (λ b. InI64 b.capacity) (budgets_of l node i.address)
  pub distinct : Distinct (budgets_of l node i.address)

-- A ledger whose nodes have their own names and whose loads are rates.
pub record IsKept (l : Ledger) (source target : String) : Type 0 where
  pub source_name : (node_at l source).name ≡ source
  pub target_name : (node_at l target).name ≡ target
  pub egress : (port : String) → IsRate (l.egress source port).bits
  pub ingress : (port : String) → IsRate (l.ingress target port).bits
  pub source_budgets : HalfRates l source
  pub target_budgets : HalfRates l target

-- The mirror of a request at a placement.
abbrev pub mirror_at : Request → Placement → Placed
mirror_at req p = record {
  source_node = req.source_node;
  target_node = req.target_node;
  provider = req.provider;
  placement = p;
  demand = req.demand;
}

-- The limits on a pair with the mirror charged: the ports and the budgets carry the demand, and
-- keep within what may be committed.
pub record AllFit (l : Ledger) (s : Settings) (req : Request) (a b : FabricInterface) (l' : Ledger)
    : Type 0 where
  pub source_port :
      ((l'.egress req.source_node (port a)).bits
        ≡ (l.egress req.source_node (port a)).bits +ℤ req.demand)
      × (pos 0 <ℤ a.capacity
          → (l'.egress req.source_node (port a)).bits
            ≤ℤ plannable a.capacity (utilization (node_at l req.source_node) s.max_utilization))
  pub target_port :
      ((l'.ingress req.target_node (port b)).bits
        ≡ (l.ingress req.target_node (port b)).bits +ℤ req.demand)
      × (pos 0 <ℤ b.capacity
          → (l'.ingress req.target_node (port b)).bits
            ≤ℤ plannable b.capacity (utilization (node_at l req.target_node) s.max_utilization))
  pub source_budgets :
      All
        (λ d.
          DrawsOn (node_at l req.source_node).providers a.address d.name
          → SourceFits l l' req.source_node req.demand
              (utilization (node_at l req.source_node) s.max_utilization)
              d)
        (node_at l req.source_node).budgets
  pub target_budgets :
      All
        (λ d.
          DrawsOn (node_at l req.target_node).providers b.address d.name
          → TargetFits l l' req.target_node req.demand
              (utilization (node_at l req.target_node) s.max_utilization)
              d)
        (node_at l req.target_node).budgets

update_self : {V : Type 0} (f : String → String → V) (n k : String) (v : V) → update f n k v n k ≡ v
update_self f n k v = rw ((same_text_iff n n).1 refl, (same_text_iff k k).1 refl) refl

add_load-bits : (v : Load) (d : ℤ) → IsRate v.bits → IsRate d → (add_load v d).bits ≡ v.bits +ℤ d
unfolding add_load
add_load-bits v d h k = add_i64_same v.bits d (sum_fits v.bits d h k)
  where
    sum_fits : (x y : ℤ) → IsRate x → IsRate y → InI64 (x +ℤ y)
    sum_fits x y h k = ground arith

-- The limits on a pair between two nodes, with what is committed and the demand.
abbrev Within : Ledger → ℤ → ℤ → FabricInterface → FabricInterface → ℤ → String → String → Type 0
Within l su tu a b demand source target =
    Holds demand a.capacity su (l.egress source (port a)).bits
    × Holds demand b.capacity tu (l.ingress target (port b)).bits
    × AllHold (source_used l source) demand su (budgets_of l source a.address)
    × AllHold (target_used l target) demand tu (budgets_of l target b.address)

-- The headroom of a score bounds each limit.
score-Within :
    (l : Ledger) (s : Settings) (n m : Node) (a b : FabricInterface) (req : Request)
    → IsRate req.demand
    → InI64 a.capacity
    → InI64 b.capacity
    → IsRate (l.egress n.name (port a)).bits
    → IsRate (l.ingress m.name (port b)).bits
    → AreRates (source_used l n.name) (budgets_of l n.name a.address)
    → AreRates (target_used l m.name) (budgets_of l m.name b.address)
    → HasRoom (score l s n m a b req)
    → Within l
        (utilization n s.max_utilization)
        (utilization m s.max_utilization)
        a
        b
        req.demand
        n.name
        m.name
unfolding score egress_load ingress_load
score-Within l s n m a b req d fa fb ra rb ba bb h =
    let su = utilization n s.max_utilization in
    let tu = utilization m s.max_utilization in
    let (h1, t_holds) =
      budget_room-AllHold (target_used l m.name) req.demand tu (budgets_of l m.name b.address) _ bb
        d h in
    let (h2, s_holds) =
      budget_room-AllHold (source_used l n.name) req.demand su (budgets_of l n.name a.address) _ ba
        d h1 in
    let (h3, b_holds) =
      room-Holds req.demand b.capacity tu (l.ingress m.name (port b)).bits _ fb rb d h2 in
    let (_, a_holds) =
      room-Holds req.demand a.capacity su (l.egress n.name (port a)).bits (pos max_i64) fa ra d
        h3 in
    (a_holds, b_holds, s_holds, t_holds)

named-Within :
    (l : Ledger) (s : Settings) (a b : FabricInterface) (req : Request)
    → IsKept l req.source_node req.target_node
    → IsRate req.demand
    → IsOffered l req.source_node req.provider a
    → IsOffered l req.target_node req.provider b
    → HasRoom (score l s (node_at l req.source_node) (node_at l req.target_node) a b req)
    → Within l
        (utilization (node_at l req.source_node) s.max_utilization)
        (utilization (node_at l req.target_node) s.max_utilization)
        a
        b
        req.demand
        req.source_node
        req.target_node
named-Within l s a b req k d o t h =
    let n = node_at l req.source_node in
    let m = node_at l req.target_node in
    let to_source = sym k.source_name in
    let to_target = sym k.target_name in
    let w =
      score-Within l s n m a b req d o.capacity t.capacity
        (subst (λ x. IsRate (l.egress x (port a)).bits) to_source (k.egress (port a)))
        (subst (λ x. IsRate (l.ingress x (port b)).bits) to_target (k.ingress (port b)))
        (subst (λ x. AreRates (source_used l x) (budgets_of l x a.address)) to_source
          (source-AreRates l req.source_node (budgets_of l req.source_node a.address)
            k.source_budgets o.budgets))
        (subst (λ x. AreRates (target_used l x) (budgets_of l x b.address)) to_target
          (target-AreRates l req.target_node (budgets_of l req.target_node b.address)
            k.target_budgets t.budgets))
        h in
    subst
      (λ x.
        Within l (utilization n s.max_utilization) (utilization m s.max_utilization) a b req.demand
          x req.target_node)
      k.source_name
      (subst
        (λ x.
          Within l (utilization n s.max_utilization) (utilization m s.max_utilization) a b
            req.demand n.name x)
        k.target_name w)

-- The loads of the two ports once the mirror is charged.
charge-egress :
    (l : Ledger) (p : Placed) (key : String)
    → port_of (node_at l p.source_node) p.provider p.placement.source_interface ≡ key
    → (charge l p).egress p.source_node key ≡ add_load (l.egress p.source_node key) p.demand
unfolding charge
charge-egress l p key e =
    rw e (update_self l.egress p.source_node key (add_load (l.egress p.source_node key) p.demand))

charge-ingress :
    (l : Ledger) (p : Placed) (key : String)
    → port_of (node_at l p.target_node) p.provider p.placement.target_interface ≡ key
    → (charge l p).ingress p.target_node key ≡ add_load (l.ingress p.target_node key) p.demand
unfolding charge
charge-ingress l p key e =
    rw e (update_self l.ingress p.target_node key (add_load (l.ingress p.target_node key) p.demand))

-- A decision that says placed is a candidate with room.
answered :
    (s : Settings) (d : Decision) (b : Candidate)
    → d ≡ without_room s.overcommit b
    → d.outcome ≢ placed
answered s d b e q = by_policy s.overcommit (sym (ap (λ (x : Decision). x.outcome) e) ∙ q)
  where
    by_policy : (o : Overcommit) → (without_room o b).outcome ≡ placed → ⊥
    by_policy hold e = cc
    by_policy place_anyway e = cc

-- Where the two nodes differ and have their own names, every interface that they offer leads by
-- its address to its port and draws on budgets of different names, the demand and the ports' loads
-- lie between 0 and 2^61, the budgets' loads between 0 and 2^60 and the capacities in int64: a
-- mirror that `Place` says is placed goes to a pair of interfaces such that, once it is charged to
-- the ledger, each of the two ports carries its demand, and so does each budget of the two nodes
-- that an interface at the address lists. The load of a port is then within the share of the
-- interface's capacity that may be committed, where a capacity is known. So is the load of a
-- budget by its mode: what the source sends for an egress budget, what the target receives for an
-- ingress budget and for one without a mode, and both together for a combined one.
pub place-AllFit :
    {Addr : Type 0} (ip : Netip Addr) (l : Ledger) (s : Settings) (req : Request)
    → IsKept l req.source_node req.target_node
    → req.source_node ≢ req.target_node
    → IsRate req.demand
    → All
        (IsOffered l req.source_node req.provider)
        (interfaces (node_at l req.source_node) req.provider)
    → All
        (IsOffered l req.target_node req.provider)
        (interfaces (node_at l req.target_node) req.provider)
    → (place ip l s req).outcome ≡ placed
    → (a b : FabricInterface) × (a.address ≡ (place ip l s req).placement.source_interface)
      × (b.address ≡ (place ip l s req).placement.target_interface)
      × AllFit l s req a b (charge l (mirror_at req (place ip l s req).placement))
place-AllFit ip l s req k apart d o t q = elim (place-IsAnswer ip l s req) [
  | inl (_, e) ↦ absurd (ground (arith, e, q))
  | inr (c, i, g, _, inr (_, e)) ↦ absurd (answered s (place ip l s req) c e q)
  | inr (c, i, g, _, inl (r, e)) ↦
      let P = IsOffered l req.source_node req.provider in
      let Q = IsOffered l req.target_node req.provider in
      let (same, p, u) =
        All-get_elem? (IsScored ip l s req P Q) (candidates ip l s req) i
          (candidates-IsScored ip l s req P Q o t) g in
      let w = named-Within l s c.src c.tgt req k d p u (subst HasRoom same r) in
      let su = utilization (node_at l req.source_node) s.max_utilization in
      let tu = utilization (node_at l req.target_node) s.max_utilization in
      let there : Placement = (place ip l s req).placement in
      let at_source : there.source_interface ≡ c.src.address =
        ap (λ (x : Decision). x.placement.source_interface) e in
      let at_target : there.target_interface ≡ c.tgt.address =
        ap (λ (x : Decision). x.placement.target_interface) e in
      let sent =
        ap (λ (v : Load). v.bits)
          (charge-egress l (mirror_at req there) (port c.src)
            (ap (port_of (node_at l req.source_node) req.provider) at_source ∙ p.keyed))
        ∙ add_load-bits _ req.demand (k.egress (port c.src)) d in
      let received =
        ap (λ (v : Load). v.bits)
          (charge-ingress l (mirror_at req there) (port c.tgt)
            (ap (port_of (node_at l req.target_node) req.provider) at_target ∙ u.keyed))
        ∙ add_load-bits _ req.demand (k.ingress (port c.tgt)) d in
      (
        c.src,
        c.tgt,
        sym at_source,
        sym at_target,
        record {
          source_port = (
            sent,
            λ known. subst (λ (x : ℤ). x ≤ℤ plannable c.src.capacity su) (sym sent) (w.0 known),
          );
          target_port = (
            received,
            λ known. subst (λ (x : ℤ). x ≤ℤ plannable c.tgt.capacity tu) (sym received) (w.1 known),
          );
          source_budgets = All-budgets_of _ l req.source_node c.src.address (
              charge-SourceFits l (mirror_at req there) su
                (budgets_of l req.source_node c.src.address) apart d
                (ap (budgets_of l req.source_node) at_source) k.source_budgets p.distinct w.2);
          target_budgets = All-budgets_of _ l req.target_node c.tgt.address (
              charge-TargetFits l (mirror_at req there) tu
                (budgets_of l req.target_node c.tgt.address) apart d
                (ap (budgets_of l req.target_node) at_target) k.target_budgets u.distinct w.3);
        },
      )
]
