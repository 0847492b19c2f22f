-- ===== src/Placement/Planner/Order.antt =====
-- The order in which `Place` sorts its candidates.
use Prim.Native.Nat.{Ordering, compare}
use mxl_k8s.Base.{ℕ, ◌+◌, ◌≤◌, ◌≡◌, sym, arith, if◌then◌else◌}
use mxl_k8s.Base.Int.{ℤ, pos, ◌≤ℤ◌}
use mxl_k8s.Base.Order.{
  IsLawful, NotGt, or_else, or_else-IsLawful, IsLawful-on, IsLawful-reversed, compare-IsLawful,
  compare_ℤ, compare_ℤ-IsLawful, compare_text, compare_text-IsLawful,
}
use mxl_k8s.Placement.Planner.{Candidate, lacks_room, disjoint_rank, compare_candidates}

addresses-IsLawful : IsLawful (λ (a b : Candidate).
    or_else (compare_text a.src.address b.src.address) (compare_text a.tgt.address b.tgt.address))
addresses-IsLawful =
    or_else-IsLawful (IsLawful-on (λ (c : Candidate). c.src.address) compare_text-IsLawful)
      (IsLawful-on (λ (c : Candidate). c.tgt.address) compare_text-IsLawful)

loads-IsLawful : IsLawful (λ (a b : Candidate). or_else (compare_ℤ b.headroom a.headroom) (
    or_else (compare_ℤ a.load b.load) (
      or_else (compare a.mirrors b.mirrors) (
        or_else
          (compare_text a.src.address b.src.address)
          (compare_text a.tgt.address b.tgt.address)))))
loads-IsLawful =
    or_else-IsLawful
      (IsLawful-reversed (IsLawful-on (λ (c : Candidate). c.headroom) compare_ℤ-IsLawful))
      (or_else-IsLawful (IsLawful-on (λ (c : Candidate). c.load) compare_ℤ-IsLawful) (
        or_else-IsLawful (IsLawful-on (λ (c : Candidate). c.mirrors) compare-IsLawful)
          addresses-IsLawful))

pub compare_candidates-IsLawful : IsLawful compare_candidates
unfolding compare_candidates
compare_candidates-IsLawful =
    or_else-IsLawful (IsLawful-on (λ (c : Candidate). lacks_room c) compare-IsLawful) (
      or_else-IsLawful (IsLawful-on (λ (c : Candidate). disjoint_rank c) compare-IsLawful)
        loads-IsLawful)

abbrev pub HasRoom : Candidate → Type 0
HasRoom c = pos 0 ≤ℤ c.headroom

-- What a pair shares with the mirror's siblings: a target interface weighs more than a source one.
abbrev pub overlap : Candidate → ℕ
overlap c = (if c.shares_target then 2 else 0) + (if c.shares_source then 1 else 0)

-- One candidate is as good as another: by room, overlap, headroom, load and mirrors, in this order.
abbrev pub Preferred : Candidate → Candidate → Type 0
Preferred b c =
    (HasRoom c → HasRoom b)
    × ((HasRoom b → HasRoom c)
        → (overlap b ≤ overlap c)
          × (overlap b ≡ overlap c
              → (c.headroom ≤ℤ b.headroom)
                × (b.headroom ≡ c.headroom
                    → (b.load ≤ℤ c.load) × (b.load ≡ c.load → b.mirrors ≤ c.mirrors))))

disjoint_rank-overlap : (c : Candidate) → disjoint_rank c ≡ overlap c
unfolding disjoint_rank
disjoint_rank-overlap c = ground arith

-- What decides first is not greater, and the next decides where it finds no difference.
or_else_split : (o o' : Ordering) → NotGt (or_else o o') → NotGt o × (o ≡ Ordering.eq → NotGt o')
or_else_split o o' h = ground arith

compare_ℤ_same : (a b : ℤ) → a ≡ b → compare_ℤ b a ≡ Ordering.eq
compare_ℤ_same a b e = ground arith

lacks_room_same :
    (b c : Candidate)
    → (HasRoom c → HasRoom b)
    → (HasRoom b → HasRoom c)
    → lacks_room b ≡ lacks_room c
lacks_room_same b c f g = ground arith

pub compare_candidates-Preferred :
    (b c : Candidate) → NotGt (compare_candidates b c) → Preferred b c
unfolding compare_candidates
compare_candidates-Preferred b c h =
    let (room, ranks) = or_else_split (compare (lacks_room b) (lacks_room c)) _ h in
    let backwards : HasRoom c → HasRoom b = λ r. ground (arith, room) in
    (
      backwards,
      λ forwards.
          let (rank, heads) =
            or_else_split (compare (disjoint_rank b) (disjoint_rank c)) _
              (ranks (ground (arith, lacks_room_same b c backwards forwards))) in
          (
            ground (arith, disjoint_rank-overlap b, disjoint_rank-overlap c, rank),
            λ e.
                let (head, loads) =
                  or_else_split (compare_ℤ c.headroom b.headroom) _
                    (heads (ground (arith, disjoint_rank-overlap b, disjoint_rank-overlap c, e))) in
                (
                  ground (arith, head),
                  λ f.
                      let (load, mirrors) =
                        or_else_split (compare_ℤ b.load c.load) _
                          (loads (compare_ℤ_same b.headroom c.headroom f)) in
                      (
                        ground (arith, load),
                        λ g.
                            let (mirror, _) =
                              or_else_split (compare b.mirrors c.mirrors) _
                                (mirrors (compare_ℤ_same c.load b.load (sym g))) in
                            ground (arith, mirror),
                      ),
                ),
          ),
    )
