-- ===== src/Operator/RedundancySet/Mirrors/Wanted.antt =====
-- What `ensureMirrors` leaves.
use mxl_k8s.Base.{◌≡◌, true}
use mxl_k8s.Api.Names.{Bytes, FlowRef, is_flow_id}
use mxl_k8s.Api.Names.Mirrors.{IsLabel}
use mxl_k8s.Operator.RedundancySet.{SetMember, Mirrors}
use mxl_k8s.Operator.RedundancySet.Mirrors.Loops.{WantedMirror}

-- The member is a flow of the domain with a flow id, and its origin is that of its flow.
pub record IsMember {Value : Type 0} (domain : Bytes) (origin : FlowRef → Bytes)
    (m : SetMember Value) : Type 0 where
  pub home : m.ref.domain ≡ domain
  pub id : is_flow_id m.ref.id ≡ true
  pub from : m.origin_node ≡ origin m.ref

record IsWanted (domain : Bytes) (origin : FlowRef → Bytes) (w : WantedMirror) : Type 0 where
  pub home : w.ref.domain ≡ domain
  pub id : is_flow_id w.ref.id ≡ true
  pub from : w.source ≡ origin w.ref
  pub label : IsLabel w.target
