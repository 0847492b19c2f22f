-- ===== src/Placement/Planner.antt =====
-- `Place` and `Check` of operator/internal/placement/planner.go. What the code asks of package
-- netip is an argument.
pub mod Budgets
pub mod Charged
pub mod Draws
pub mod Order
pub mod Best
pub mod Limits
pub mod Chosen
pub mod Fits
pub mod Agrees
use Prim.Native.Nat.{Ordering}
use mxl_k8s.Base.{
  ℕ, ◌+◌, ◌≤◌, Bool, true, false, not, ◌&&◌, ◌||◌, Option, none, some, String, List, [], ◌∷◌, ◌++◌,
  map, if◌then◌else◌,
}
use mxl_k8s.Base.Int.{ℤ, pos, leb_ℤ, ltb_ℤ, quot, min_ℤ}
use mxl_k8s.Base.Words.{max_i64, add_i64, sub_i64, mul_i64}
use mxl_k8s.Base.Order.{or_else, compare_ℤ, compare_text, least}
use mxl_k8s.Base.Texts.{same_text, contains_text}
use mxl_k8s.Placement.Node.{
  FabricInterface, Budget, ingress, egress, combined, unset, other, Node, interfaces, port,
  utilization,
}
use mxl_k8s.Placement.Ledger.{Placement, Ledger, node_at, budgets_of, egress_load, ingress_load}

-- A text other than the three is the first.
pub data Pairing : Type 0 where
  prefer_same_subnet : Pairing
  same_subnet : Pairing
  any_pair : Pairing

-- A text other than `hold` is `place`.
pub data Overcommit : Type 0 where
  place_anyway : Overcommit
  hold : Overcommit

pub record Settings : Type 0 where
  pub max_utilization : ℤ
  pub pairing : Pairing
  pub overcommit : Overcommit

pub record Request : Type 0 where
  pub source_node : String
  pub target_node : String
  pub provider : String
  pub demand : ℤ
  pub avoid_source : List String
  pub avoid_target : List String

pub data Outcome : Type 0 where
  placed : Outcome
  overcommitted : Outcome
  held : Outcome
  no_interface : Outcome

pub record Decision : Type 0 where
  pub outcome : Outcome
  pub placement : Placement
  pub shares_source : Bool
  pub shares_target : Bool
  pub headroom : ℤ

pub record Candidate : Type 0 where
  pub src : FabricInterface
  pub tgt : FabricInterface
  pub headroom : ℤ
  pub load : ℤ
  pub mirrors : ℕ
  pub shares_source : Bool
  pub shares_target : Bool

unfoldable pub disjoint_rank : Candidate → ℕ
disjoint_rank c =
    if not c.shares_source && not c.shares_target
    then 0
    else if not c.shares_target
    then 1
    else if not c.shares_source
    then 2
    else 3

unfoldable pub plannable : ℤ → ℤ → ℤ
plannable capacity percent =
    if leb_ℤ percent (pos 0) || leb_ℤ (pos 100) percent
    then capacity
    else mul_i64 (quot capacity 100) percent

-- `Demand`
unfoldable pub demand_of : ℤ → ℤ → ℤ → ℤ
demand_of bits overhead provisional =
    if leb_ℤ bits (pos 0) then provisional else add_i64 bits (mul_i64 (quot bits 100) overhead)

-- The closure `room` of `score`, on the headroom it lowers.
unfoldable pub room : ℤ → ℤ → ℤ → ℤ → ℤ → ℤ
room demand capacity percent used headroom =
    if leb_ℤ capacity (pos 0)
    then headroom
    else min_ℤ headroom (sub_i64 (sub_i64 (plannable capacity percent) used) demand)

-- What a budget of the source node has committed, if it counts what is sent.
unfoldable pub source_used : Ledger → String → Budget → Option ℤ
source_used l node b = elim b.mode [
  | egress ↦ some (l.budget_egress node b.name)
  | combined ↦ some (add_i64 (l.budget_egress node b.name) (l.budget_ingress node b.name))
  | ingress ↦ none
  | unset ↦ none
  | other ↦ none
]

-- What a budget of the target node has committed, if it counts what is received.
unfoldable pub target_used : Ledger → String → Budget → Option ℤ
target_used l node b = elim b.mode [
  | ingress ↦ some (l.budget_ingress node b.name)
  | unset ↦ some (l.budget_ingress node b.name)
  | combined ↦ some (add_i64 (l.budget_egress node b.name) (l.budget_ingress node b.name))
  | egress ↦ none
  | other ↦ none
]

-- The loop over budgets that lowers the headroom.
unfoldable pub budget_room : (Budget → Option ℤ) → ℤ → ℤ → List Budget → ℤ → ℤ
unfolding room
budget_room used demand percent [] headroom = headroom
budget_room used demand percent (b ∷ bs) headroom =
    budget_room used demand percent bs
      (elim (used b) [ none ↦ headroom | some u ↦ room demand b.capacity percent u headroom ])

unfoldable pub score :
    Ledger → Settings → Node → Node → FabricInterface → FabricInterface → Request → Candidate
unfolding port utilization egress_load ingress_load room budget_room source_used target_used
score l s source target a b req =
    let (out_bits, out_mirrors) = egress_load l source.name (port a) in
    let (in_bits, in_mirrors) = ingress_load l target.name (port b) in
    let su = utilization source s.max_utilization in
    let tu = utilization target s.max_utilization in
    record {
      src = a;
      tgt = b;
      headroom =
          budget_room (target_used l target.name) req.demand tu (budgets_of l target.name b.address)
            (budget_room (source_used l source.name) req.demand su
              (budgets_of l source.name a.address)
              (room req.demand b.capacity tu in_bits
                (room req.demand a.capacity su out_bits (pos max_i64))));
      load = add_i64 out_bits in_bits;
      mirrors = out_mirrors + in_mirrors;
      shares_source = contains_text req.avoid_source (port a);
      shares_target = contains_text req.avoid_target (port b);
    }

-- The order of the sort in `Place`: a pair with room first, then rank, headroom, load, mirrors
-- and the addresses.
abbrev pub lacks_room : Candidate → ℕ
lacks_room c = if leb_ℤ (pos 0) c.headroom then 0 else 1

abbrev compare_ℕ : ℕ → ℕ → Ordering
compare_ℕ m n = Prim.Native.Nat.compare m n

unfoldable pub compare_candidates : Candidate → Candidate → Ordering
unfolding disjoint_rank
compare_candidates a b = or_else (compare_ℕ (lacks_room a) (lacks_room b)) (
    or_else (compare_ℕ (disjoint_rank a) (disjoint_rank b)) (
      or_else (compare_ℤ b.headroom a.headroom) (
        or_else (compare_ℤ a.load b.load) (
          or_else (compare_ℕ a.mirrors b.mirrors) (
            or_else (compare_text a.src.address b.src.address)
              (compare_text a.tgt.address b.tgt.address))))))

unfoldable pub pairs :
    List FabricInterface → List FabricInterface → List (FabricInterface × FabricInterface)
pairs [] bs = []
pairs (a ∷ rest) bs = map (λ b. (a, b)) bs ++ pairs rest bs

unfoldable pub on_one_subnet :
    List (FabricInterface × FabricInterface) → List (FabricInterface × FabricInterface)
on_one_subnet [] = []
on_one_subnet ((a, b) ∷ ps) =
    let rest = on_one_subnet ps in
    if not (same_text a.subnet "") && same_text a.subnet b.subnet then (a, b) ∷ rest else rest

unfoldable pub paired :
    Pairing → List (FabricInterface × FabricInterface) → List (FabricInterface × FabricInterface)
unfolding on_one_subnet
paired any_pair ps = ps
paired same_subnet ps = on_one_subnet ps
paired prefer_same_subnet ps = elim (on_one_subnet ps) [ [] ↦ ps | q ∷ qs ↦ q ∷ qs ]

-- The answer that names the candidate's pair.
abbrev pub chosen : Outcome → Candidate → Decision
chosen outcome best = record {
  outcome = outcome;
  placement = record { source_interface = best.src.address; target_interface = best.tgt.address };
  shares_source = best.shares_source;
  shares_target = best.shares_target;
  headroom = best.headroom;
}

-- What the setting says of a mirror that no pair has room for.
abbrev pub without_room : Overcommit → Candidate → Decision
without_room hold best = record {
  outcome = held;
  placement = record { source_interface = ""; target_interface = "" };
  shares_source = false;
  shares_target = false;
  headroom = best.headroom;
}
without_room place_anyway best = chosen overcommitted best

-- The decision for the best candidate.
unfoldable pub decided : Settings → Candidate → Decision
decided s best =
    if ltb_ℤ best.headroom (pos 0) then without_room s.overcommit best else chosen placed best

abbrev pub nothing : Decision
nothing = record {
  outcome = no_interface;
  placement = record { source_interface = ""; target_interface = "" };
  shares_source = false;
  shares_target = false;
  headroom = pos 0;
}

-- The first interface at the address, or one that has nothing but the address.
unfoldable pub find_interface : List FabricInterface → String → FabricInterface
find_interface [] address = record {
  address = address;
  device = "";
  subnet = "";
  link_state = "";
  capacity = pos 0;
  budgets = [];
}
find_interface (i ∷ is) address =
    let rest = find_interface is address in if same_text i.address address then i else rest

unfoldable pub check_placement : Ledger → Settings → Request → Placement → ℤ
unfolding find_interface score
check_placement l s req p =
    let source = node_at l req.source_node in
    let target = node_at l req.target_node in
    (score l s source target (find_interface (interfaces source req.provider) p.source_interface)
      (find_interface (interfaces target req.provider) p.target_interface) req).headroom

-- Package netip: the addresses that texts stand for.
pub record Netip (Addr : Type 0) : Type 0 where
  pub parse_addr : String → Option Addr
  pub is_link_local_unicast : Addr → Bool
  pub unmap : Addr → Addr

module _ {Addr : Type 0} (ip : Netip Addr) where
  unfoldable pub link_local : String → Bool
  link_local address = elim (ip.parse_addr address) [
    | none ↦ false
    | some a ↦ ip.is_link_local_unicast a || ip.is_link_local_unicast (ip.unmap a)
  ]

  unfoldable pub without_link_local : List FabricInterface → List FabricInterface
  unfolding link_local
  without_link_local [] = []
  without_link_local (i ∷ is) =
      let rest = without_link_local is in if link_local i.address then rest else i ∷ rest

  unfoldable pub routable : List FabricInterface → List FabricInterface
  unfolding without_link_local
  routable is = elim (without_link_local is) [ [] ↦ is | i ∷ rest ↦ i ∷ rest ]

  -- The pairs that may carry the mirror.
  unfoldable pub allowed : Ledger → Settings → Request → List (FabricInterface × FabricInterface)
  unfolding routable pairs paired
  allowed l s req = paired s.pairing (
      pairs (routable (interfaces (node_at l req.source_node) req.provider))
        (routable (interfaces (node_at l req.target_node) req.provider)))

  unfoldable pub scored :
      Ledger → Settings → Request → List (FabricInterface × FabricInterface) → List Candidate
  unfolding score
  scored l s req [] = []
  scored l s req ((a, b) ∷ ps) =
      score l s (node_at l req.source_node) (node_at l req.target_node) a b req ∷ scored l s req ps

  unfoldable pub place : Ledger → Settings → Request → Decision
  unfolding allowed scored decided
  place l s req = elim (scored l s req (allowed l s req)) [
    | [] ↦ nothing
    | c ∷ cs ↦ decided s (least compare_candidates c cs)
  ]
