-- ===== src/Operator/RedundancySet/Members.antt =====
-- `validate` and `membersReady` of operator/internal/redundancyset/controller.go. A message of
-- `validate` is left out; that of `membersReady` is the list of what it names, without the values
-- that differ. `same` is `reflect.DeepEqual` of two values.
pub mod Agree
pub mod Checked
pub mod Complaining
pub mod Reported
mod Tests
use mxl_k8s.Base.{
  ℕ, ◌+◌, Bool, true, false, not, ◌&&◌, ◌||◌, Option, none, some, String, List, [], ◌∷◌, ◌++◌, ◌==◌,
  same_bytes, if◌then◌else◌,
}
use mxl_k8s.Api.Names.{Bytes, FlowRef}
use mxl_k8s.Operator.RedundancySet.{SetMember}

pub data Reason : Type 0 where
  members_aligned : Reason
  members_ready : Reason
  member_missing : Reason
  member_stalled : Reason
  other_domain : Reason
  misaligned : Reason
  output_taken : Reason
  gateways_ready : Reason
  gateway_not_ready : Reason
  no_nodes : Reason

pub data Complaint : Type 0 where
  no_flow : FlowRef → Complaint
  no_definition : FlowRef → Complaint
  no_producer : FlowRef → Complaint
  not_advanced : FlowRef → List Bytes → Complaint
  differ : List String → Complaint

-- A condition that is true or false.
pub record Condition : Type 0 where
  pub status : Bool
  pub reason : Reason
  pub message : List Complaint

pub record StalledMembers : Type 0 where
  pub node : Bytes
  pub flow_ids : List Bytes

-- `slices.Contains`
unfoldable pub contains_name : List Bytes → Bytes → Bool
contains_name [] name = false
contains_name (n ∷ names) name = let rest = contains_name names name in same_bytes n name || rest

-- The entries of nodes that are in the set.
unfoldable pub stalled_on : List Bytes → List StalledMembers → List StalledMembers
unfolding contains_name
stalled_on nodes [] = []
stalled_on nodes (s ∷ ss) =
    let rest = stalled_on nodes ss in if contains_name nodes s.node then s ∷ rest else rest

abbrev pub aligned_keys : List String
aligned_keys =
    "format" ∷ "media_type" ∷ "grain_rate" ∷ "sample_rate" ∷ "frame_width" ∷ "frame_height"
    ∷ "interlace_mode" ∷ "components" ∷ "channel_count" ∷ "bit_depth" ∷ []

abbrev pub is_empty : {A : Type 0} → List A → Bool
is_empty [] = true
is_empty (x ∷ xs) = false

module _ {Value : Type 0} (same : Value → Value → Bool) where
  -- A definition of a later member has another value at the key.
  unfoldable pub differs_from : String → Value → List (SetMember Value) → Bool
  differs_from key v [] = false
  differs_from key v (m ∷ ms) =
      let rest = differs_from key v ms in
      elim m.definition [ none ↦ rest | some d ↦ not (same v (d key)) || rest ]

  unfoldable pub differs_in : List (SetMember Value) → String → Bool
  unfolding differs_from
  differs_in [] key = false
  differs_in (m ∷ ms) key =
      let rest = differs_in ms key in
      elim m.definition [ none ↦ rest | some d ↦ differs_from key (d key) ms ]

  unfoldable pub differing : List (SetMember Value) → List String → List String
  unfolding differs_in
  differing ms [] = []
  differing ms (key ∷ keys) =
      let rest = differing ms keys in if differs_in ms key then key ∷ rest else rest

  -- The aligned keys that the members differ in.
  unfoldable pub disagreement : List (SetMember Value) → List String
  unfolding differing
  disagreement ms = differing ms aligned_keys

unfoldable pub any_unreadable : {Value : Type 0} → List (SetMember Value) → Bool
any_unreadable [] = false
any_unreadable (m ∷ ms) = let rest = any_unreadable ms in m.unreadable || rest

unfoldable pub published : {Value : Type 0} → List (SetMember Value) → ℕ
published [] = 0
published (m ∷ ms) =
    let rest = published ms in elim m.definition [ none ↦ rest | some d ↦ rest + 1 ]

unfoldable pub in_domain : Bytes → List FlowRef → Bool
in_domain domain [] = true
in_domain domain (r ∷ refs) = let rest = in_domain domain refs in same_bytes r.domain domain && rest

-- The status and the generation of the Valid condition that the set has.
unfoldable pub agreed_before : Option (Bool × ℕ) → ℕ → Bool
agreed_before none generation = false
agreed_before (some (valid, observed)) generation = valid && (observed == generation)

abbrev pub fails : Reason → Condition
fails reason = record { status = false; reason = reason; message = [] }

unfoldable pub validate :
    {Value : Type 0}
    → (Value → Value → Bool)
    → Bool
    → Bytes
    → List FlowRef
    → Option (Bool × ℕ)
    → ℕ
    → List (SetMember Value)
    → Condition
unfolding in_domain agreed_before any_unreadable disagreement published
validate same taken domain refs before generation ms =
    let ok : Condition = record { status = true; reason = members_aligned; message = [] } in
    if taken
    then fails output_taken
    else if not (in_domain domain refs)
    then fails other_domain
    else if agreed_before before generation
    then ok
    else if any_unreadable ms
    then fails misaligned
    else if not (is_empty (disagreement same ms))
    then fails misaligned
    else if published ms == 0
    then fails member_missing
    else ok

pub record Complaints : Type 0 where
  pub missing : List Complaint
  pub apart : List Complaint
  pub stalls : List Complaint

-- The nodes where the flow has not advanced.
unfoldable pub stalls_of : List StalledMembers → Bytes → List Bytes
unfolding contains_name
stalls_of [] id = []
stalls_of (s ∷ ss) id =
    let rest = stalls_of ss id in if contains_name s.flow_ids id then s.node ∷ rest else rest

-- The loop over the members.
unfoldable pub complain :
    {Value : Type 0} → List StalledMembers → List (SetMember Value) → Complaints
unfolding stalls_of
complain stalled [] = record { missing = []; apart = []; stalls = [] }
complain stalled (m ∷ ms) =
    let rest = complain stalled ms in
    let on = stalls_of stalled m.ref.id in
    if not m.has_flow
    then record rest { missing = no_flow m.ref ∷ rest.missing }
    else if m.unreadable
    then record rest { apart = no_definition m.ref ∷ rest.apart }
    else if not m.origin_found
    then record rest { missing = no_producer m.ref ∷ rest.missing }
    else if is_empty on
    then rest
    else record rest { stalls = not_advanced m.ref on ∷ rest.stalls }

unfoldable pub check_members :
    {Value : Type 0}
    → (Value → Value → Bool)
    → List (SetMember Value)
    → List StalledMembers
    → Condition
unfolding complain disagreement
check_members same ms stalled =
    let c = complain stalled ms in
    let keys = disagreement same ms in
    let apart = if is_empty keys then c.apart else c.apart ++ (differ keys ∷ []) in
    if not (is_empty c.missing)
    then record {
      status = false;
      reason = member_missing;
      message = c.missing ++ (apart ++ c.stalls);
    }
    else if not (is_empty apart)
    then record { status = false; reason = misaligned; message = apart ++ c.stalls }
    else if not (is_empty c.stalls)
    then record { status = false; reason = member_stalled; message = c.stalls }
    else record { status = true; reason = members_ready; message = [] }
