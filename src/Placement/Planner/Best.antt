-- ===== src/Placement/Planner/Best.antt =====
-- `Place` answers with a pair that no allowed pair is preferred to.
use mxl_k8s.Base.{
  ℕ, ◌≡◌, refl, ◌⊎◌, inl, inr, some, List, [], ◌∷◌, arith, get_elem?, All, All-map, Bool-cases,
}
use mxl_k8s.Base.Int.{pos, ◌<ℤ◌, ltb_ℤ}
use mxl_k8s.Base.Order.{NotGt, least, least-NotGt, least_mem}
use mxl_k8s.Placement.Ledger.{Ledger}
use mxl_k8s.Placement.Planner.{
  Settings, Request, placed, Decision, Candidate, chosen, without_room, compare_candidates, decided,
  nothing, Netip, allowed, scored, place,
}
use mxl_k8s.Placement.Planner.Order.{
  HasRoom, Preferred, compare_candidates-IsLawful, compare_candidates-Preferred,
}

-- The answer for candidates of which `b` is preferred: `b` where it has room, and else what the
-- setting says of a mirror that none has room for.
abbrev pub IsAnswer : Settings → List Candidate → Candidate → Decision → Type 0
IsAnswer s cs b d =
    (HasRoom b × (d ≡ chosen placed b))
    ⊎ (All (λ c. c.headroom <ℤ pos 0) cs × (d ≡ without_room s.overcommit b))

full_of_preferred : (b c : Candidate) → b.headroom <ℤ pos 0 → Preferred b c → c.headroom <ℤ pos 0
full_of_preferred b c h p = ground (arith, p.0)

decided-IsAnswer :
    (s : Settings) (cs : List Candidate) (b : Candidate)
    → All (Preferred b) cs
    → IsAnswer s cs b (decided s b)
unfolding decided
decided-IsAnswer s cs b h = elim (Bool-cases (ltb_ℤ b.headroom (pos 0))) [
  | inr q ↦ inl (ground arith, rw (decided, q) refl)
  | inl q ↦ inr (
    All-map (Preferred b) (λ c. c.headroom <ℤ pos 0) (λ c p. full_of_preferred b c (ground arith) p)
        cs h,
    rw (decided, q) refl,
  )
]

module _ {Addr : Type 0} (ip : Netip Addr) (l : Ledger) (s : Settings) (req : Request) where
  abbrev pub candidates : List Candidate
  candidates = scored ip l s req (allowed ip l s req)

  pub place-IsAnswer :
      ((candidates ≡ []) × (place ip l s req ≡ nothing))
      ⊎ ((b : Candidate) × (i : ℕ) × (get_elem? candidates i ≡ some b)
          × All (Preferred b) candidates
          × IsAnswer s candidates b (place ip l s req))
  unfolding place
  place-IsAnswer = by_candidates candidates
    where
      by_candidates :
          (cs : List Candidate)
          → ((cs ≡ [])
              × ((elim cs as (λ _. Decision) [
                | [] ↦ nothing
                | c ∷ rest ↦ decided s (least compare_candidates c rest)
              ])
                  ≡ nothing))
            ⊎ ((b : Candidate) × (i : ℕ) × (get_elem? cs i ≡ some b)
                × All (Preferred b) cs
                × IsAnswer s cs b (elim cs [
                  | [] ↦ nothing
                  | c ∷ rest ↦ decided s (least compare_candidates c rest)
                ]))
      by_candidates [] = inl (refl, refl)
      by_candidates (c ∷ rest) =
          let b = least compare_candidates c rest in
          let (i, g) = least_mem compare_candidates c rest in
          let best =
            All-map (λ x. NotGt (compare_candidates b x)) (Preferred b)
              (λ x n. compare_candidates-Preferred b x n) (c ∷ rest)
              (least-NotGt compare_candidates-IsLawful c rest) in
          inr (b, i, g, best, decided-IsAnswer s (c ∷ rest) b best)
