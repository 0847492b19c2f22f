-- ===== src/Placement/Ledger/Account.antt =====
-- The ledger's loads are the sums of what was charged.
use mxl_k8s.Base.{
  ℕ, ◌+◌, ◌≤◌, ◌≡◌, refl, ap, ◌∙◌, inl, inr, Bool, ◌&&◌, Option, none, some, String, List, [], ◌∷◌,
  arith, All, if◌then◌else◌, Bool-cases,
}
use mxl_k8s.Base.Int.{ℤ, pos, negsuc, pos_part, ◌≤ℤ◌}
use mxl_k8s.Base.Words.{add_i64, add_i64_same, max_i64}
use mxl_k8s.Base.Texts.{same_text, same_text_iff}
use mxl_k8s.Placement.Node.{Node, no_node, port_of}
use mxl_k8s.Placement.Ledger.{
  Placed, Load, Ledger, no_load, node_at, add_load, update, charge, charge_all, new_ledger,
  empty_ledger, egress_load, ingress_load,
}

module _ (node_of key_of : Placed → String) where
  -- The loads once the mirrors are charged, each at its node and key.
  abbrev charged : (String → String → Load) → List Placed → String → String → Load
  charged f [] = f
  charged f (p ∷ ps) =
      charged (update f (node_of p) (key_of p) (add_load (f (node_of p) (key_of p)) p.demand)) ps

  abbrev pub is_at : String → String → Placed → Bool
  is_at node key p = same_text (node_of p) node && same_text (key_of p) key

  -- The demands, and the number, of the mirrors at a node and key.
  abbrev pub demand_at : String → String → List Placed → ℕ
  demand_at node key [] = 0
  demand_at node key (p ∷ ps) =
      (if is_at node key p then pos_part p.demand else 0) + demand_at node key ps

  abbrev pub count_at : String → String → List Placed → ℕ
  count_at node key [] = 0
  count_at node key (p ∷ ps) = (if is_at node key p then 1 else 0) + count_at node key ps

abbrev pub total_demand : List Placed → ℕ
total_demand [] = 0
total_demand (p ∷ ps) = pos_part p.demand + total_demand ps

add_load_lem :
    (v : Load) (b : ℕ) (d : ℤ)
    → v.bits ≡ pos b
    → pos 0 ≤ℤ d
    → b + pos_part d ≤ max_i64
    → (add_load v d).bits ≡ pos (b + pos_part d)
unfolding add_load
add_load_lem v b (pos d) e l fits =
    ap (λ x. add_i64 x (pos d)) e ∙ (add_i64_same (pos b) (pos d) (ground arith) ∙ ground arith)
add_load_lem v b (negsuc d) e l fits = absurd (ground arith)

module _ (node_of key_of : Placed → String) (node key : String) where
  -- One mirror counts at its own node and key, and nowhere else.
  updated :
      (f : String → String → Load) (p : Placed) (b : ℕ)
      → (f node key).bits ≡ pos b
      → pos 0 ≤ℤ p.demand
      → b + pos_part p.demand ≤ max_i64
      → ((update f
            (node_of p)
            (key_of p)
            (add_load (f (node_of p) (key_of p)) p.demand)
            node
            key).bits
          ≡ pos (b + (if is_at node_of key_of node key p then pos_part p.demand else 0)))
        × ((update f
              (node_of p)
              (key_of p)
              (add_load (f (node_of p) (key_of p)) p.demand)
              node
              key).mirrors
            ≡ (f node key).mirrors + (if is_at node_of key_of node key p then 1 else 0))
  unfolding add_load
  updated f p b e l fits = elim (Bool-cases (is_at node_of key_of node key p)) [
    | inr q ↦ rw q (e ∙ ap pos (omega arith), omega arith)
    | inl q ↦
        let at_node : node_of p ≡ node = (same_text_iff (node_of p) node).0 (ground (arith, q)) in
        let at_key : key_of p ≡ key = (same_text_iff (key_of p) key).0 (ground (arith, q)) in
        let same : f (node_of p) (key_of p) ≡ f node key = λ i. f (at_node i) (at_key i) in
        rw q (
          add_load_lem (f (node_of p) (key_of p)) b p.demand (ap (λ (v : Load). v.bits) same ∙ e) l
              fits,
          ap (λ (v : Load). v.mirrors + 1) same,
        )
  ]

  charged_sum :
      (f : String → String → Load) (ps : List Placed) (b : ℕ)
      → (f node key).bits ≡ pos b
      → All (λ p. pos 0 ≤ℤ p.demand) ps
      → b + total_demand ps ≤ max_i64
      → (((charged node_of key_of f ps) node key).bits
          ≡ pos (b + demand_at node_of key_of node key ps))
        × (((charged node_of key_of f ps) node key).mirrors
            ≡ (f node key).mirrors + count_at node_of key_of node key ps)
  charged_sum f [] b e h fits = (e ∙ ap pos (omega arith), omega arith)
  charged_sum f (p ∷ ps) b e h fits =
      let (bits, mirrors) = updated f p b e h.0 (omega arith) in
      let part = if is_at node_of key_of node key p then pos_part p.demand else 0 in
      let (all_bits, all_mirrors) =
        charged_sum (update f (node_of p) (key_of p) (add_load (f (node_of p) (key_of p)) p.demand))
          ps (b + part) bits h.1 (ground arith) in
      (all_bits ∙ ap pos (omega arith), omega (arith, all_mirrors, mirrors))

-- The ports that a mirror is charged to, by the nodes of a ledger.
abbrev pub source_port : Ledger → Placed → String
source_port l p = port_of (node_at l p.source_node) p.provider p.placement.source_interface

abbrev pub target_port : Ledger → Placed → String
target_port l p = port_of (node_at l p.target_node) p.provider p.placement.target_interface

node_at_same : (l m : Ledger) (name : String) → l.nodes ≡ m.nodes → node_at l name ≡ node_at m name
unfolding node_at
node_at_same l m name e =
    ap (λ (f : String → Option Node). elim (f name) as (λ _. Node) [ none ↦ no_node | some n ↦ n ])
      e

charge_all-charged :
    (l m : Ledger) (ps : List Placed)
    → l.nodes ≡ m.nodes
    → ((charge_all l ps).egress ≡ charged (λ p. p.source_node) (source_port m) l.egress ps)
      × ((charge_all l ps).ingress ≡ charged (λ p. p.target_node) (target_port m) l.ingress ps)
unfolding charge_all charge
charge_all-charged l m [] e = (refl, refl)
charge_all-charged l m (p ∷ ps) e =
    let (out, into) = charge_all-charged (charge l p) m ps e in
    let source : source_port l p ≡ source_port m p =
      ap (λ n. port_of n p.provider p.placement.source_interface)
        (node_at_same l m p.source_node e) in
    let target : target_port l p ≡ target_port m p =
      ap (λ n. port_of n p.provider p.placement.target_interface)
        (node_at_same l m p.target_node e) in
    (
      out
          ∙ ap
              (λ k.
                charged (λ q. q.source_node) (source_port m)
                  (update l.egress p.source_node k (add_load (l.egress p.source_node k) p.demand))
                  ps)
              source,
      into
          ∙ ap
              (λ k.
                charged (λ q. q.target_node) (target_port m)
                  (update l.ingress p.target_node k (add_load (l.ingress p.target_node k) p.demand))
                  ps)
              target,
    )

-- Where no placed mirror has a negative demand and all demands together stay in int64, the loads
-- of a ledger made for them are sums: what leaves a port is the total demand of the mirrors whose
-- source interface is on it, what arrives on it that of the mirrors whose target interface is,
-- each with the number of these mirrors.
pub new_ledger-Account :
    (nodes : List Node) (ps : List Placed) (node key : String)
    → All (λ p. pos 0 ≤ℤ p.demand) ps
    → total_demand ps ≤ max_i64
    → (egress_load (new_ledger nodes ps) node key ≡ (
      pos (demand_at (λ p. p.source_node) (source_port (empty_ledger nodes)) node key ps),
      count_at (λ p. p.source_node) (source_port (empty_ledger nodes)) node key ps,
    ))
      × (ingress_load (new_ledger nodes ps) node key ≡ (
        pos (demand_at (λ p. p.target_node) (target_port (empty_ledger nodes)) node key ps),
        count_at (λ p. p.target_node) (target_port (empty_ledger nodes)) node key ps,
      ))
unfolding new_ledger egress_load ingress_load empty_ledger
new_ledger-Account nodes ps node key h fits =
    let l = empty_ledger nodes in
    let (out, into) = charge_all-charged l l ps refl in
    let (a, b) =
      charged_sum (λ p. p.source_node) (source_port l) node key (λ _ _. no_load) ps 0 refl h
        (omega arith) in
    let (c, d) =
      charged_sum (λ p. p.target_node) (target_port l) node key (λ _ _. no_load) ps 0 refl h
        (omega arith) in
    (
      loads (ap (λ f. f node key) out) (a ∙ ap pos (omega arith)) (b ∙ omega arith),
      loads (ap (λ f. f node key) into) (c ∙ ap pos (omega arith)) (d ∙ omega arith),
    )
  where
    loads :
        {x y : Load} {n m : ℕ}
        → x ≡ y
        → y.bits ≡ pos n
        → y.mirrors ≡ m
        → ◌≡◌ {A = ℤ × ℕ} (x.bits, x.mirrors) (pos n, m)
    loads e p q = λ i. ((ap (λ (v : Load). v.bits) e ∙ p) i, (ap (λ (v : Load). v.mirrors) e ∙ q) i)
