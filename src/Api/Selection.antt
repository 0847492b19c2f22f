-- ===== src/Api/Selection.antt =====
-- api/selection/provider.go: which provider carries a mirror between two nodes. A set of providers
-- is a map in Go; here it is a list of names, read only for membership.
pub mod Agrees
mod Tests
use mxl_k8s.Base.{
  ℕ, Bool, true, false, not, ◌&&◌, ◌||◌, Option, none, some, String, List, [], ◌∷◌, ◌==◌,
  if◌then◌else◌, length,
}
use mxl_k8s.Base.Int.{ℤ, pos, leb_ℤ}
use mxl_k8s.Base.Texts.{same_text, contains_text}

abbrev pub provider_efa : String
provider_efa = "efa"

abbrev pub provider_verbs : String
provider_verbs = "verbs"

abbrev pub provider_tcp : String
provider_tcp = "tcp"

abbrev pub provider_auto : String
provider_auto = "auto"

abbrev pub cross_node_preference : List String
cross_node_preference = provider_efa ∷ provider_verbs ∷ provider_tcp ∷ []

-- A provider as a node's status lists it.
pub record Capability : Type 0 where
  pub name : String
  pub device_count : ℤ

-- Whether the status reports a probe, and the providers it lists.
pub record Status : Type 0 where
  pub probed : Bool
  pub providers : List Capability

pub data Advice : Type 0 where
  fine : Advice
  capabilities_unknown : Advice
  no_common_provider : Advice

-- `out[name] = struct{}{}`
unfoldable pub add_name : String → List String → List String
add_name name names = if contains_text names name then names else name ∷ names

-- The inner loop, over the known providers.
unfoldable pub add_known : String → List String → List String → List String
unfolding add_name
add_known name [] names = names
add_known name (k ∷ known) names =
    add_known name known (if same_text name k then add_name name names else names)

unfoldable pub collect : Bool → List Capability → List String → List String
unfolding add_known
collect probed [] names = names
collect probed (c ∷ cs) names = collect probed cs (
    if probed && leb_ℤ c.device_count (pos 0)
    then names
    else add_known c.name cross_node_preference names)

unfoldable pub provider_set : Status → List String
unfolding collect
provider_set s = collect s.probed s.providers []

-- The first provider of the preference that both sets hold.
unfoldable pub first_common : List String → List String → List String → Option String
first_common [] src tgt = none
first_common (p ∷ ps) src tgt =
    let rest = first_common ps src tgt in
    if contains_text src p && contains_text tgt p then some p else rest

unfoldable pub resolve : Status → Status → String × Advice
unfolding provider_set first_common
resolve source target =
    let src = provider_set source in
    let tgt = provider_set target in
    if length src == 0 || length tgt == 0
    then (provider_tcp, capabilities_unknown)
    else elim (first_common cross_node_preference src tgt) [
      | some p ↦ (p, fine)
      | none ↦ (provider_tcp, no_common_provider)
    ]

unfoldable pub supported : Status → Status → String → Bool
unfolding provider_set
supported source target provider =
    if same_text provider "" || same_text provider provider_auto
    then false
    else contains_text (provider_set source) provider
      && contains_text (provider_set target) provider
