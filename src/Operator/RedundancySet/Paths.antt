-- ===== src/Operator/RedundancySet/Paths.antt =====
-- `pathsDisjoint` of operator/internal/redundancyset/controller.go: whether the mirrors that
-- arrive on a node were placed on ports of their own. A Go map is a list of its entries, the
-- newest first.
pub mod Ports
pub mod Fabric
pub mod OneNode
pub mod Told
mod Tests
use mxl_k8s.Base.{
  ℕ, ◌+◌, Bool, true, false, ◌&&◌, Option, none, some, String, List, [], ◌∷◌, ltb, same_bytes,
  if◌then◌else◌,
}
use mxl_k8s.Base.Texts.{same_text}
use mxl_k8s.Api.Names.{Bytes, FlowRef, mirror_name_for}
use mxl_k8s.Placement.Node.{Provider, port_from}
use mxl_k8s.Operator.RedundancySet.{FlowMirror, Mirrors}

-- Two members, and what they share: the node they arrive on and its port, or the node they leave,
-- also.
pub data Paths : Type 0 where
  disjoint : Paths
  shared_target : FlowRef → FlowRef → Bytes → String → Paths
  shared_source : FlowRef → FlowRef → Bytes → Bytes → String → Paths
  unplaced : ℕ → Paths

-- A map's entry of a key.
unfoldable pub entry : {K : Type 0} → (K → K → Bool) → K → List (K × FlowRef) → Option FlowRef
entry same key [] = none
entry same key ((k, r) ∷ es) = let rest = entry same key es in if same k key then some r else rest

-- The node that a mirror leaves, and the port there.
abbrev pub Leaving : Type 0
Leaving = Bytes × String

abbrev pub same_leaving : Leaving → Leaving → Bool
same_leaving (n, p) (m, q) = same_bytes n m && same_text p q

-- What the loop over the members of a node knows.
pub record Seen : Type 0 where
  pub targets : List (String × FlowRef)
  pub sources : List (Leaving × FlowRef)
  pub shared : Option Paths
  pub unplaced_count : ℕ

-- The loop goes on, or ends with a shared port.
pub data Looked : Type 0 where
  ended : Paths → Looked
  going : Option Paths → ℕ → Looked

-- Capabilities that cannot be read are none.
abbrev pub providers_of : (Bytes → Option (List Provider)) → Bytes → List Provider
providers_of caps node = elim (caps node) [ none ↦ [] | some ps ↦ ps ]

-- Where a mirror arrives, and where it leaves.
unfoldable pub arrives : (Bytes → Option (List Provider)) → Bytes → FlowMirror → String → String
unfolding port_from
arrives caps node m address = port_from (providers_of caps node) m.provider address

unfoldable pub leaves : (Bytes → Option (List Provider)) → FlowMirror → String → Leaving
unfolding port_from
leaves caps m address =
    (m.source_node, port_from (providers_of caps m.source_node) m.provider address)

-- The first shared port of a source is kept.
unfoldable pub note_source : Bytes → FlowRef → Leaving → Seen → Option Paths
unfolding entry
note_source node ref key seen = elim seen.shared [
  | some p ↦ some p
  | none ↦ elim (entry same_leaving key seen.sources) [
    | none ↦ none
    | some other ↦ some (shared_source other ref node key.0 key.1)
  ]
]

-- The mirror to the node that is not being deleted.
unfoldable pub live_mirror : (ℕ → ℕ) → Mirrors → Bytes → FlowRef → Option FlowMirror
unfolding mirror_name_for
live_mirror lower mirrors node ref = elim (mirrors (mirror_name_for lower ref node)) [
  | none ↦ none
  | some m ↦ if m.deleting then none else some m
]

-- The loop over the members.
unfoldable pub look_on :
    (ℕ → ℕ) → (Bytes → Option (List Provider)) → Mirrors → Bytes → List FlowRef → Seen → Looked
unfolding live_mirror arrives leaves entry note_source
look_on lower caps mirrors node [] seen = going seen.shared seen.unplaced_count
look_on lower caps mirrors node (ref ∷ refs) seen =
    let next = look_on lower caps mirrors node refs in
    elim (live_mirror lower mirrors node ref) [
      | none ↦ next seen
      | some m ↦ elim m.placement [
        | none ↦ next (record seen { unplaced_count = seen.unplaced_count + 1 })
        | some p ↦
            let port = arrives caps node m p.target_interface in
            let key = leaves caps m p.source_interface in
            elim (entry same_text port seen.targets) [
              | some other ↦ ended (shared_target other ref node port)
              | none ↦ next (record {
                targets = (port, ref) ∷ seen.targets;
                sources = (key, ref) ∷ seen.sources;
                shared = note_source node ref key seen;
                unplaced_count = seen.unplaced_count;
              })
            ]
      ]
    ]

-- The loop over the nodes.
unfoldable pub look_all :
    (ℕ → ℕ)
    → (Bytes → Option (List Provider))
    → Mirrors
    → List FlowRef
    → List Bytes
    → Option Paths
    → ℕ
    → Looked
unfolding look_on
look_all lower caps mirrors refs [] shared count = going shared count
look_all lower caps mirrors refs (node ∷ nodes) shared count =
    let next = look_all lower caps mirrors refs nodes in
    elim (look_on lower caps mirrors node refs
      (record { targets = []; sources = []; shared = shared; unplaced_count = count })) [
        | ended p ↦ ended p
        | going shared' count' ↦ next shared' count'
      ]

unfoldable pub paths_disjoint :
    (ℕ → ℕ) → (Bytes → Option (List Provider)) → Mirrors → List FlowRef → List Bytes → Paths
unfolding look_all
paths_disjoint lower caps mirrors refs nodes =
    elim (look_all lower caps mirrors refs nodes none 0) [
      | ended p ↦ p
      | going (some p) count ↦ p
      | going none count ↦ if ltb 0 count then unplaced count else disjoint
    ]
