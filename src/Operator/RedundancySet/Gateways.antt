-- ===== src/Operator/RedundancySet/Gateways.antt =====
-- `outputReady` and `gatewayReadySince` of operator/internal/redundancyset/controller.go. Times are
-- nanoseconds.
pub mod Ready
pub mod Settled
pub mod Answer
mod Tests
use mxl_k8s.Base.{
  ℕ, ◌*◌, Bool, true, false, not, ◌&&◌, ◌||◌, Option, none, some, List, [], ◌∷◌, ltb, same_bytes,
  if◌then◌else◌,
}
use mxl_k8s.Base.Int.{ℤ, pos, ltb_ℤ}
use mxl_k8s.Base.Words.{second, sub_time, sub_i64}
use mxl_k8s.Api.Names.{Bytes}
use mxl_k8s.Operator.RedundancySet.Members.{
  Reason, gateways_ready, gateway_not_ready, no_nodes, is_empty,
}

-- Whether the type of a condition is Ready, and its status true.
pub record PodCondition : Type 0 where
  pub is_ready : Bool
  pub is_true : Bool
  pub since : ℕ

pub record Pod : Type 0 where
  pub node : Bytes
  pub deleting : Bool
  pub conditions : List PodCondition

abbrev pub gateway_settle : ℕ
gateway_settle = 5 * second

abbrev pub is_earlier : ℕ → Option ℕ → Bool
is_earlier since none = true
is_earlier since (some t) = ltb since t

-- The loop over a pod's conditions; the earliest time found, if any.
unfoldable pub earliest : List PodCondition → Option ℕ → Option ℕ
earliest [] found = found
earliest (c ∷ cs) found =
    earliest cs
      (if c.is_ready && c.is_true && is_earlier c.since found then some c.since else found)

unfoldable pub ready_since : List Pod → Bytes → Option ℕ → Option ℕ
unfolding earliest
ready_since [] node found = found
ready_since (p ∷ ps) node found =
    ready_since ps node
      (if not (same_bytes p.node node) || p.deleting then found else earliest p.conditions found)

unfoldable pub gateway_ready_since : List Pod → Bytes → Option ℕ
unfolding ready_since
gateway_ready_since pods node = ready_since pods node none

abbrev pub max_ℤ : ℤ → ℤ → ℤ
max_ℤ a b = if ltb_ℤ a b then b else a

-- How long until a gateway that is ready since then has settled.
unfoldable pub left_of : ℕ → ℕ → ℤ
unfolding sub_i64 sub_time
left_of now since = sub_i64 (pos gateway_settle) (sub_time now since)

-- The loop over the nodes: those that are down, and how long until the last has settled.
unfoldable pub scan_gateways : ℕ → List Pod → List Bytes → ℤ → List Bytes × ℤ
unfolding gateway_ready_since left_of
scan_gateways now pods [] settling = ([], settling)
scan_gateways now pods (node ∷ nodes) settling =
    let rest = scan_gateways now pods nodes in
    elim (gateway_ready_since pods node) [
      | none ↦ let (down, s) = rest settling in (node ∷ down, s)
      | some since ↦
          let left = left_of now since in
          if ltb_ℤ (pos 0) left
          then (let (down, s) = rest (max_ℤ settling left) in (node ∷ down, s))
          else rest settling
    ]

-- The condition, the nodes its message names, and how long until the last has settled.
pub record Served : Type 0 where
  pub status : Bool
  pub reason : Reason
  pub down : List Bytes
  pub settling : ℤ

-- The pods are those of the gateways; `none` is the error of the `List`.
unfoldable pub output_ready : ℕ → Option (List Pod) → List Bytes → Option Served
unfolding scan_gateways
output_ready now pods [] =
    some (record { status = true; reason = no_nodes; down = []; settling = pos 0 })
output_ready now none (node ∷ nodes) = none
output_ready now (some pods) (node ∷ nodes) =
    let (down, settling) = scan_gateways now pods (node ∷ nodes) (pos 0) in
    if is_empty down
    then some (record { status = true; reason = gateways_ready; down = []; settling = pos 0 })
    else some
        (record { status = false; reason = gateway_not_ready; down = down; settling = settling })
