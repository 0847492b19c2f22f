-- ===== src/Operator/RedundancySet/Members/Reported.antt =====
-- What `membersReady` answers.
use mathlib.Core.Path.{subst}
use mxl_k8s.Base.{
  ◌≡◌, ◌↔◌, refl, inl, inr, Bool, true, false, not, List, [], ◌∷◌, ◌++◌, arith, All, Bool-cases,
  if◌then◌else◌,
}
use mxl_k8s.Operator.RedundancySet.{SetMember}
use mxl_k8s.Operator.RedundancySet.Members.{
  Reason, members_aligned, members_ready, member_missing, member_stalled, other_domain, misaligned,
  output_taken, gateways_ready, gateway_not_ready, no_nodes, Complaint, differ, Condition,
  StalledMembers, is_empty, disagreement, Complaints, complain, check_members,
}
use mxl_k8s.Operator.RedundancySet.Members.Agree.{Decides, Agree, disagreement-Agree}
use mxl_k8s.Operator.RedundancySet.Members.Complaining.{
  Advances, IsProduced, IsReadable, IsMoving, Complained, complain-Complained,
}

module _ {Value : Type 0} where
  -- What each answer says.
  abbrev pub IsReported : List StalledMembers → List (SetMember Value) → Reason → Bool → Type 0
  IsReported stalled ms member_missing status = (status ≡ false) × ¬ All IsProduced ms
  IsReported stalled ms misaligned status =
      (status ≡ false) × All IsProduced ms × ¬ (All IsReadable ms × Agree ms)
  IsReported stalled ms member_stalled status =
      (status ≡ false)
      × All IsProduced ms
      × All IsReadable ms
      × Agree ms
      × ¬ All (λ m. Advances stalled m.ref.id) ms
  IsReported stalled ms members_ready status =
      (status ≡ true)
      × All IsProduced ms
      × All IsReadable ms
      × Agree ms
      × All (λ m. Advances stalled m.ref.id) ms
  IsReported stalled ms members_aligned status = ⊥
  IsReported stalled ms other_domain status = ⊥
  IsReported stalled ms output_taken status = ⊥
  IsReported stalled ms gateways_ready status = ⊥
  IsReported stalled ms gateway_not_ready status = ⊥
  IsReported stalled ms no_nodes status = ⊥

  all_advance :
      (stalled : List StalledMembers) (ms : List (SetMember Value))
      → All IsProduced ms
      → All IsReadable ms
      → All (IsMoving stalled) ms
      → All (λ m. Advances stalled m.ref.id) ms
  all_advance stalled [] h k l = tt
  all_advance stalled (m ∷ ms) h k l =
      let u = k.0 h.0.0 in (l.0 h.0.0 u (h.0.1 u), all_advance stalled ms h.1 k.1 l.1)

  all_move :
      (stalled : List StalledMembers) (ms : List (SetMember Value))
      → All (λ m. Advances stalled m.ref.id) ms
      → All (IsMoving stalled) ms
  all_move stalled [] h = tt
  all_move stalled (m ∷ ms) h = ((λ e e' e''. h.0), all_move stalled ms h.1)

  -- The answer by what the loop complains of and the keys that differ.
  judged :
      (stalled : List StalledMembers) (ms : List (SetMember Value)) (c : Complaints)
      (apart : List Complaint)
      → Complained stalled ms c
      → Decides (is_empty apart) (All IsReadable ms × Agree ms)
      → (d : Condition)
      → (if not (is_empty c.missing)
          then record {
            status = false;
            reason = member_missing;
            message = c.missing ++ (apart ++ c.stalls);
          }
          else if not (is_empty apart)
          then record { status = false; reason = misaligned; message = apart ++ c.stalls }
          else if not (is_empty c.stalls)
          then record { status = false; reason = member_stalled; message = c.stalls }
          else record { status = true; reason = members_ready; message = [] })
        ≡ d
      → IsReported stalled ms d.reason d.status
  judged stalled ms c apart h (to, not_to) d e =
      let P : Condition → Type 0 =
        λ x. IsReported stalled ms (Condition.reason x) (Condition.status x) in
      elim (Bool-cases (is_empty c.missing)) [
        | inr m ↦ subst P e (rw m (refl, h.missing.1 m))
        | inl m ↦ elim (Bool-cases (is_empty apart)) [
          | inr a ↦ subst P e (rw (m, a) (refl, h.missing.0 m, not_to a))
          | inl a ↦ elim (Bool-cases (is_empty c.stalls)) [
            | inr s ↦ subst P e (
                rw (m, a, s)
                  (
                    refl,
                    h.missing.0 m,
                    (to a).0,
                    (to a).1,
                    λ k. h.stalls.1 s (all_move stalled ms k),
                  ))
            | inl s ↦ subst P e (
                rw (m, a, s)
                  (
                    refl,
                    h.missing.0 m,
                    (to a).0,
                    (to a).1,
                    all_advance stalled ms (h.missing.0 m) (to a).0 (h.stalls.0 s),
                  ))
          ]
        ]
      ]

append_not_empty : (xs : List Complaint) (x : Complaint) → is_empty (xs ++ (x ∷ [])) ≡ false
append_not_empty [] x = refl
append_not_empty (y ∷ xs) x = refl

-- Where `same` decides equality of values: `membersReady` is true where every member has a flow,
-- with a readable definition and a producer, each two definitions have one value at each aligned
-- key, and no node that the set keeps reports one of the members as stalled. Otherwise it names
-- that a member is missing, where one has no flow, or a flow that is not unreadable and has no
-- producer; or else that they are misaligned, where a definition is unreadable or two differ; or
-- else that one is stalled.
pub check_members-IsReported :
    {Value : Type 0} (same : Value → Value → Bool) (ms : List (SetMember Value))
    (stalled : List StalledMembers)
    → ((v w : Value) → (same v w ≡ true) ↔ (v ≡ w))
    → IsReported stalled ms
        (check_members same ms stalled).reason
        (check_members same ms stalled).status
unfolding check_members
check_members-IsReported same ms stalled is =
    let c = complain stalled ms in
    let h = complain-Complained stalled ms in
    let keys = disagreement same ms in
    let (agree, not_agree) = disagreement-Agree same is ms in
    let apart = if is_empty keys then c.apart else c.apart ++ (differ keys ∷ []) in
    let decided : Decides (is_empty apart) (All IsReadable ms × Agree ms) =
      elim (Bool-cases (is_empty keys)) [
        | inl q ↦ rw q (λ e. (h.apart.0 e, agree q), λ e k. h.apart.1 e k.0)
        | inr q ↦ rw q (
          λ e. absurd (ground (arith, e, append_not_empty c.apart (differ keys))),
          λ e k. not_agree q k.1,
        )
      ] in
    judged stalled ms c apart h decided (check_members same ms stalled) refl
