-- ===== src/Operator/RedundancySet/Mirrors.antt =====
-- `ensureMirrors` of operator/internal/redundancyset/controller.go: each member is mirrored to
-- each node that the output is wanted on. What the API server answers to a call is an argument;
-- the owner references of a mirror are left out.
pub mod Steps
pub mod Loops
pub mod Wanted
mod Tests
use mxl_k8s.Base.{
  ℕ, Bool, true, false, not, ◌&&◌, ◌||◌, Option, none, some, String, List, [], ◌∷◌, same_bytes,
  if◌then◌else◌,
}
use mxl_k8s.Base.Texts.{same_text}
use mxl_k8s.Api.Names.{Bytes, FlowRef, mirror_name_for}
use mxl_k8s.Api.Selection.{Status, resolve}
use mxl_k8s.Operator.RedundancySet.{
  Fetched, fetched, missing, failed, SetMember, FlowMirror, Mirrors,
}

-- The capabilities of a node; what a `Get` of a name answers where the server holds a mirror or
-- none; and whether a `Patch` and a `Create` of a name succeed.
pub record Calls : Type 0 where
  pub capabilities : Bytes → Fetched Status
  pub get_mirror : Bytes → Option FlowMirror → Fetched FlowMirror
  pub patches : Bytes → Bool
  pub creates : Bytes → Bool

-- A node without capabilities has none of the status' fields.
unfoldable pub status_of : Fetched Status → Option Status
status_of (fetched s) = some s
status_of missing = some (record { probed = false; providers = [] })
status_of failed = none

-- `none` is an error.
unfoldable pub provider_between : Calls → Bytes → Bytes → Option String
unfolding status_of resolve
provider_between c source target = elim (status_of (c.capabilities source)) [
  | none ↦ none
  | some src ↦ elim (status_of (c.capabilities target)) [
    | none ↦ none
    | some tgt ↦ some (resolve src tgt).0
  ]
]

abbrev pub put_mirror : Mirrors → Bytes → FlowMirror → Mirrors
put_mirror mirrors name m n = if same_bytes n name then some m else mirrors n

-- The patch holds what the read mirror has otherwise; the server applies it to what it holds.
unfoldable pub patch : Calls → Bytes → FlowMirror → Bytes → String → Mirrors → Mirrors × Bool
patch c name read source provider mirrors = elim (mirrors name) [
  | none ↦ (mirrors, false)
  | some held ↦
      if c.patches name
      then (
        put_mirror mirrors name (record held {
          source_node = if same_bytes read.source_node source then held.source_node else source;
          provider = if same_text read.provider provider then held.provider else provider;
        }),
        true,
      )
      else (mirrors, false)
]

-- `IsAlreadyExists` is no error.
unfoldable pub create : Calls → Bytes → FlowMirror → Mirrors → Mirrors × Bool
create c name m mirrors = elim (mirrors name) [
  | some held ↦ (mirrors, true)
  | none ↦ if c.creates name then (put_mirror mirrors name m, true) else (mirrors, false)
]

-- The mirrors afterwards, and whether there was no error.
unfoldable pub ensure_mirror : (ℕ → ℕ) → Calls → FlowRef → Bytes → Bytes → Mirrors → Mirrors × Bool
unfolding provider_between patch create
ensure_mirror lower c ref source target mirrors =
    let name = mirror_name_for lower ref target in
    elim (provider_between c source target) [
      | none ↦ (mirrors, false)
      | some provider ↦ elim (c.get_mirror name (mirrors name)) [
        | failed ↦ (mirrors, false)
        | missing ↦
            create c name
              (record {
                ref = ref;
                source_node = source;
                target_node = target;
                provider = provider;
                placement = none;
                deleting = false;
              })
              mirrors
        | fetched m ↦
            if same_bytes m.source_node source && same_text m.provider provider
            then (mirrors, true)
            else patch c name m source provider mirrors
      ]
    ]

-- The first error ends a loop.
abbrev pub and_then : Mirrors × Bool → (Mirrors → Mirrors × Bool) → Mirrors × Bool
and_then (mirrors, true) next = next mirrors
and_then (mirrors, false) next = (mirrors, false)

module _ {Value : Type 0} where
  -- The loop over the members, for one node.
  unfoldable pub ensure_on :
      (ℕ → ℕ) → Calls → List (SetMember Value) → Bytes → Mirrors → Mirrors × Bool
  unfolding ensure_mirror
  ensure_on lower c [] node mirrors = (mirrors, true)
  ensure_on lower c (m ∷ ms) node mirrors =
      let rest = ensure_on lower c ms node in
      if not m.origin_found || same_bytes m.origin_node node
      then rest mirrors
      else and_then (ensure_mirror lower c m.ref m.origin_node node mirrors) rest

  unfoldable pub ensure_mirrors :
      (ℕ → ℕ) → Calls → List (SetMember Value) → List Bytes → Mirrors → Mirrors × Bool
  unfolding ensure_on
  ensure_mirrors lower c ms [] mirrors = (mirrors, true)
  ensure_mirrors lower c ms (node ∷ nodes) mirrors =
      and_then (ensure_on lower c ms node mirrors) (ensure_mirrors lower c ms nodes)
