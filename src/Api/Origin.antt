-- ===== src/Api/Origin.antt =====
-- api/v1alpha1/origin.go: which node a consumer of a flow is sent to. Times are nanoseconds.
pub mod Agrees
mod Tests
use mxl_k8s.Base.{ℕ, Bool, true, false, Option, none, some, String, List, [], ◌∷◌}

-- The phases of api/v1alpha1/mxlflow_types.go, and any other text.
pub data Phase : Type 0 where
  origin : Phase
  mirroring : Phase
  ready : Phase
  stale : Phase
  other : Phase

pub record Location : Type 0 where
  pub node_name : String
  pub phase : Phase

-- A flow: the name that its `Ref` gives it, with its domain, and where it is.
pub record Flow : Type 0 where
  pub name : String
  pub locations : List Location

-- What a LeaseFreshness answers: an error, or whether the Lease is fresh and when it lapses.
pub data Answer : Type 0 where
  failed : String → Answer
  answered : Bool → ℕ → Answer

pub record OriginResolution : Type 0 where
  pub node : String
  pub found : Bool
  pub all_stale : Bool
  pub deadline : ℕ

-- An error, or a resolution.
pub data Resolved : Type 0 where
  error : String → Resolved
  resolved : OriginResolution → Resolved

abbrev pub nowhere : Bool → OriginResolution
nowhere saw = record { node = ""; found = false; all_stale = saw; deadline = 0 }

-- The loop over the locations, after an origin was seen or not.
unfoldable pub resolve_from :
    String → Option (String → String → Answer) → List Location → Bool → Resolved
resolve_from name fresh [] saw = resolved (nowhere saw)
resolve_from name fresh (l ∷ ls) saw =
    let rest = resolve_from name fresh ls true in
    let skip = resolve_from name fresh ls saw in
    elim l.phase [
      | mirroring ↦ skip
      | ready ↦ skip
      | stale ↦ skip
      | other ↦ skip
      | origin ↦ elim fresh [
        | none ↦
            resolved record { node = l.node_name; found = true; all_stale = false; deadline = 0 }
        | some ask ↦ elim (ask name l.node_name) [
          | failed e ↦ error e
          | answered true deadline ↦
              resolved
                record { node = l.node_name; found = true; all_stale = false; deadline = deadline }
          | answered false deadline ↦ rest
        ]
      ]
    ]

unfoldable pub resolve_origin : Option Flow → Option (String → String → Answer) → Resolved
resolve_origin none fresh = resolved (nowhere false)
resolve_origin (some flow) fresh = resolve_from flow.name fresh flow.locations false

unfoldable pub node_from : List Location → String
node_from [] = ""
node_from (l ∷ ls) =
    let rest = node_from ls in
    elim l.phase [
      | mirroring ↦ rest
      | ready ↦ rest
      | stale ↦ rest
      | other ↦ rest
      | origin ↦ l.node_name
    ]

unfoldable pub origin_node : Option Flow → String
origin_node none = ""
origin_node (some flow) = node_from flow.locations
