-- ===== src/Operator/RedundancySet.antt =====
-- operator/internal/redundancyset/controller.go: a set of redundant flows, its members and the
-- mirrors of them. Names are bytes, as in Api/Names.
pub mod Mirrors
pub mod Members
pub mod Gateways
pub mod Paths
pub mod Reconcile
pub use mxl_k8s.Operator.Fetching.{Fetched, fetched, missing, failed}
use mxl_k8s.Base.{ℕ, Bool, true, false, Option, none, some, String, List, [], ◌∷◌}
use mxl_k8s.Api.Names.{Bytes, FlowRef}
use mxl_k8s.Placement.Ledger.{Placement}

-- What the operator knows of a member. Its definition is from the flow's keys to their values.
pub record SetMember (Value : Type 0) : Type 0 where
  pub ref : FlowRef
  pub has_flow : Bool
  pub origin_found : Bool
  pub origin_node : Bytes
  pub definition : Option (String → Value)
  pub unreadable : Bool

pub record FlowMirror : Type 0 where
  pub ref : FlowRef
  pub source_node : Bytes
  pub target_node : Bytes
  pub provider : String
  pub placement : Option Placement
  pub deleting : Bool

-- The mirrors that the server holds, by their names.
abbrev pub Mirrors : Type 0
Mirrors = Bytes → Option FlowMirror
