-- ===== src/Operator/RedundancySet/Paths/Fabric.antt =====
-- Which mirrors `pathsDisjoint` counts, and where they arrive and leave, told by the capabilities.
use mxl_k8s.Base.{
  ℕ, ◌≡◌, refl, sym, ap, ◌∙◌, inl, inr, Bool, true, false, Option, none, some, String, List, [],
  ◌∷◌, ◌++◌, Option-cases, if◌then◌else◌, Bool-cases,
}
use mxl_k8s.Base.Texts.{same_text, same_text_iff}
use mxl_k8s.Api.Names.{Bytes, FlowRef, mirror_name_for}
use mxl_k8s.Placement.Node.{FabricInterface, Provider, port, port_at, port_from}
use mxl_k8s.Placement.Ledger.{Placement}
use mxl_k8s.Operator.RedundancySet.{FlowMirror, Mirrors}
use mxl_k8s.Operator.RedundancySet.Paths.{Leaving, arrives, leaves, live_mirror}

-- Of a placed mirror, the port it arrives at, and the node it leaves with its port, as the loop
-- looks them up.
abbrev pub place_of :
    (Bytes → Option (List Provider)) → Bytes → FlowMirror → Placement → String × Leaving
place_of caps node m p = (arrives caps node m p.target_interface, leaves caps m p.source_interface)

-- The interfaces that the capabilities list under the provider.
abbrev pub listed_under : List Provider → String → List FabricInterface
listed_under [] provider = []
listed_under (p ∷ ps) provider =
    let rest = listed_under ps provider in
    elim (same_text p.name provider) [ true ↦ p.interfaces ++ rest | false ↦ rest ]

abbrev pub first_at : List FabricInterface → String → Option FabricInterface
first_at [] address = none
first_at (i ∷ is) address =
    let rest = first_at is address in
    elim (same_text i.address address) [ true ↦ some i | false ↦ rest ]

-- A port is the device of the interface; without an interface or a device it is the address.
abbrev pub device_or : String → Option FabricInterface → String
device_or address none = address
device_or address (some i) = elim (same_text i.device "") [ true ↦ address | false ↦ i.device ]

-- The capabilities of a node that has none list nothing.
abbrev pub fabric_port : Option (List Provider) → String → String → String
fabric_port none provider address = address
fabric_port (some ps) provider address =
    device_or address (first_at (listed_under ps provider) address)

-- The mirror that is there and is not being deleted.
abbrev pub not_deleted : Option FlowMirror → Option FlowMirror
not_deleted none = none
not_deleted (some m) = elim m.deleting [ true ↦ none | false ↦ some m ]

-- What is held under the name of the flow's mirror to the node.
abbrev pub mirror_to : (ℕ → ℕ) → Mirrors → Bytes → FlowRef → Option FlowMirror
mirror_to lower mirrors node ref = not_deleted (mirrors (mirror_name_for lower ref node))

-- The port at the target, the source node, and the port there.
abbrev pub ports_of :
    (Bytes → Option (List Provider)) → Bytes → FlowMirror → Placement → String × Leaving
ports_of caps node m p = (
  fabric_port (caps node) m.provider p.target_interface,
  (m.source_node, fabric_port (caps m.source_node) m.provider p.source_interface),
)

pub live_mirror-mirror_to :
    (lower : ℕ → ℕ) (mirrors : Mirrors) (node : Bytes) (ref : FlowRef)
    → live_mirror lower mirrors node ref ≡ mirror_to lower mirrors node ref
unfolding live_mirror
live_mirror-mirror_to lower mirrors node ref =
    elim (Option-cases (mirrors (mirror_name_for lower ref node))) [
      | inl q ↦ rw (live_mirror, q) refl
      | inr (m, q) ↦ rw (live_mirror, q) (kept m m.deleting)
    ]
  where
    kept :
        (m : FlowMirror) (b : Bool)
        → (if b then none else some m)
          ≡ elim b as (λ x. Option FlowMirror) [ true ↦ none | false ↦ some m ]
    kept m true = refl
    kept m false = refl

port-device_or :
    (i : FabricInterface) (address : String)
    → i.address ≡ address
    → port i ≡ device_or address (some i)
unfolding port
port-device_or i address e = elim (Bool-cases (same_text i.device "")) [
  | inl d ↦ rw (port, device_or, d) e
  | inr d ↦ rw (port, device_or, d) refl
]

abbrev found_or : String → Option String → String
found_or address none = address
found_or address (some found) = found

port_at-first_at :
    (is js : List FabricInterface) (address : String)
    → found_or (device_or address (first_at js address)) (port_at is address)
      ≡ device_or address (first_at (is ++ js) address)
unfolding port_at
port_at-first_at [] js address = refl
port_at-first_at (i ∷ is) js address = elim (Bool-cases (same_text i.address address)) [
  | inl q ↦
      let here : first_at (i ∷ (is ++ js)) address ≡ some i = rw (first_at, q) refl in
      let found : port_at (i ∷ is) address ≡ some (port i) = rw (port_at, q) refl in
      ap (found_or (device_or address (first_at js address))) found
      ∙ port-device_or i address ((same_text_iff i.address address).0 q)
      ∙ ap (device_or address) (sym here)
  | inr q ↦
      let later : first_at (i ∷ (is ++ js)) address ≡ first_at (is ++ js) address =
        rw (first_at, q) refl in
      let past : port_at (i ∷ is) address ≡ port_at is address = rw (port_at, q) refl in
      ap (found_or (device_or address (first_at js address))) past
      ∙ port_at-first_at is js address
      ∙ ap (device_or address) (sym later)
]

port_from-device_or :
    (ps : List Provider) (provider address : String)
    → port_from ps provider address
      ≡ device_or address (first_at (listed_under ps provider) address)
unfolding port_from
port_from-device_or [] provider address = refl
port_from-device_or (p ∷ ps) provider address = elim (Bool-cases (same_text p.name provider)) [
  | inr q ↦
      let more : listed_under (p ∷ ps) provider ≡ listed_under ps provider =
        rw (listed_under, q) refl in
      let next : port_from (p ∷ ps) provider address ≡ port_from ps provider address =
        rw (port_from, q) refl in
      next
      ∙ port_from-device_or ps provider address
      ∙ ap (λ is. device_or address (first_at is address)) (sym more)
  | inl q ↦
      let more : listed_under (p ∷ ps) provider ≡ p.interfaces ++ listed_under ps provider =
        rw (listed_under, q) refl in
      let next : port_from (p ∷ ps) provider address
          ≡ found_or (port_from ps provider address) (port_at p.interfaces address) =
        rw (port_from, q)
          (by_option (port_from ps provider address) (port_at p.interfaces address)) in
      next
      ∙ ap (λ x. found_or x (port_at p.interfaces address))
          (port_from-device_or ps provider address)
      ∙ port_at-first_at p.interfaces (listed_under ps provider) address
      ∙ ap (λ is. device_or address (first_at is address)) (sym more)
]
  where
    by_option :
        (rest : String) (o : Option String)
        → (if true then elim o as (λ x. String) [ none ↦ rest | some found ↦ found ] else rest)
          ≡ found_or rest o
    by_option rest none = refl
    by_option rest (some found) = refl

port_of-fabric_port :
    (caps : Option (List Provider)) (provider address : String)
    → port_from (elim caps [ none ↦ [] | some ps ↦ ps ]) provider address
      ≡ fabric_port caps provider address
unfolding port_from
port_of-fabric_port none provider address = refl
port_of-fabric_port (some ps) provider address = port_from-device_or ps provider address

pub place_of-ports_of :
    (caps : Bytes → Option (List Provider)) (node : Bytes) (m : FlowMirror) (p : Placement)
    → place_of caps node m p ≡ ports_of caps node m p
unfolding arrives leaves
place_of-ports_of caps node m p =
    rw
      (
        port_of-fabric_port (caps node) m.provider p.target_interface,
        port_of-fabric_port (caps m.source_node) m.provider p.source_interface,
      )
      refl
