-- ===== src/Operator/RedundancySet/Members/Tests.antt =====
-- Sets of two members: what `validate` and `membersReady` answer, and their theorems there.
use mxl_k8s.Base.{
  ℕ, ◌≡◌, refl, Bool, true, false, none, some, String, List, [], ◌∷◌, ◌==◌, ==_iff, if◌then◌else◌,
}
use mxl_k8s.Base.Texts.{same_text}
use mxl_k8s.Api.Names.{FlowRef}
use mxl_k8s.Operator.RedundancySet.{SetMember}
use mxl_k8s.Operator.RedundancySet.Members.{
  Reason, misaligned, no_producer, differ, StalledMembers, validate, check_members, stalled_on,
}
use mxl_k8s.Operator.RedundancySet.Members.Checked.{IsChecked, validate-IsChecked}
use mxl_k8s.Operator.RedundancySet.Members.Reported.{IsReported, check_members-IsReported}

abbrev ref : ℕ → FlowRef
ref n = record { domain = []; id = n ∷ [] }

-- A definition with one grain rate, and 0 at every other key.
abbrev rated : ℕ → String → ℕ
rated rate key = if same_text key "grain_rate" then rate else 0

abbrev member : ℕ → Bool → ℕ → SetMember ℕ
member n produced rate = record {
  ref = ref n;
  has_flow = true;
  origin_found = produced;
  origin_node = [];
  definition = some (rated rate);
  unreadable = false;
}

abbrev apart : List (SetMember ℕ)
apart = member 1 true 25 ∷ member 2 false 50 ∷ []

abbrev stalls : List StalledMembers
stalls = record { node = 7 ∷ []; flow_ids = (1 ∷ []) ∷ [] } ∷ []

program : Unit {0}
unfolding validate check_members stalled_on
program = tt

unproduced : check_members ◌==◌ apart [] ≡ record {
  status = false;
  reason = Reason.member_missing;
  message = no_producer (ref 2) ∷ differ ("grain_rate" ∷ []) ∷ [];
}
unfolding program
unproduced = refl

fails_first :
    validate ◌==◌ false [] (ref 1 ∷ ref 2 ∷ []) none 3 apart
    ≡ record { status = false; reason = misaligned; message = [] }
unfolding program
fails_first = refl

-- Once it was valid at the generation, it is.
passes_later : (validate ◌==◌ false [] (ref 1 ∷ ref 2 ∷ []) (some (true, 3)) 3 apart).status ≡ true
unfolding program
passes_later = refl

-- The entry of a node that left the set is dropped.
left_node : stalled_on ((8 ∷ []) ∷ []) stalls ≡ []
unfolding program
left_node = refl

validate-IsChecked_example :
    IsChecked false []
      (ref 1 ∷ ref 2 ∷ [])
      none
      3
      apart
      (validate ◌==◌ false [] (ref 1 ∷ ref 2 ∷ []) none 3 apart).reason
      (validate ◌==◌ false [] (ref 1 ∷ ref 2 ∷ []) none 3 apart).status
validate-IsChecked_example =
    validate-IsChecked ◌==◌ false [] (ref 1 ∷ ref 2 ∷ []) none 3 apart ==_iff

check_members-IsReported_example :
    IsReported stalls apart
      (check_members ◌==◌ apart stalls).reason
      (check_members ◌==◌ apart stalls).status
check_members-IsReported_example = check_members-IsReported ◌==◌ apart stalls ==_iff
