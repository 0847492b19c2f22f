-- ===== src/Merge/Discrete/Scan.antt =====
-- What the loop of `Step` over the members finds.
use mxl_k8s.Base.{
  ℕ, zero, suc, ◌+◌, ◌≡◌, ◌⊎◌, inl, inr, Bool, true, false, Option, none, some, List, [], ◌∷◌,
  arith, All, At, ◌≤◌, ◌-◌, ◌%◌, ==_iff, Bool-cases,
}
use mxl_k8s.Base.Words.{u64, sub_u64}
use mxl_k8s.Merge.Discrete.{Member, DiscretePolicy, serves, consider, scan}

-- The member holds the grain of the index: its head is not before it and has not taken its slot
-- over, and what is in the slot is that grain, valid, and complete where it is not data.
pub record HoldsGrain (d : DiscretePolicy) (index : ℕ) (m : Member) : Type 0 where
  pub reached : index ≤ m.head
  pub in_ring : m.head - index ≤ u64 (d.grains - 2)
  pub same : (m.grain (index % d.grains)).index ≡ index
  pub valid : (m.grain (index % d.grains)).invalid ≡ false
  pub complete :
      (d.is_data ≡ true)
      ⊎ ((m.grain (index % d.grains)).total_slices ≤ (m.grain (index % d.grains)).valid_slices)

pub serves-HoldsGrain :
    (d : DiscretePolicy) (index : ℕ) (m : Member)
    → 2 ≤ d.grains
    → serves d m index ≡ true
    → HoldsGrain d index m
unfolding serves
serves-HoldsGrain d index m deep q =
    let g = m.grain (index % d.grains) in
    let wraps : sub_u64 d.grains 2 ≡ u64 (d.grains - 2) = omega arith in
    record {
      reached = ground (arith, q);
      in_ring = ground (arith, q, wraps);
      same = ground (arith, q, ==_iff g.index index);
      valid = ground (arith, q);
      complete = elim (Bool-cases d.is_data) [ inl t ↦ inl t | inr t ↦ inr (ground (arith, q, t)) ];
    }

pub HoldsGrain-serves :
    (d : DiscretePolicy) (index : ℕ) (m : Member)
    → 2 ≤ d.grains
    → serves d m index ≡ false
    → ¬ HoldsGrain d index m
unfolding serves
HoldsGrain-serves d index m deep q h =
    let g = m.grain (index % d.grains) in
    let wraps : sub_u64 d.grains 2 ≡ u64 (d.grains - 2) = omega arith in
    ground
      (arith, q, wraps, h.reached, h.in_ring, (==_iff g.index index).1 h.same, h.valid, h.complete)

module _ (d : DiscretePolicy) (index : ℕ) where
  -- Member `k` of the list serves the index.
  abbrev pub Serves : List Member → ℕ → Type 0
  Serves = At (λ m. serves d m index ≡ true)

  abbrev pub NoneServes : List Member → Type 0
  NoneServes = All (λ m. serves d m index ≡ false)

  -- The pick or the alternative is `j`.
  abbrev pub Found : Option ℕ × Option ℕ → ℕ → Type 0
  Found found j = (found.0 ≡ some j) ⊎ (found.1 ≡ some j)

  consider-Found :
      (b : Bool) (i : ℕ) (found : Option ℕ × Option ℕ) (j : ℕ)
      → Found (consider d b i found) j
      → Found found j ⊎ ((j ≡ i) × (b ≡ true))
  unfolding consider
  consider-Found b i (pick, alt) j h = ground arith

  -- What the loop finds was found before, or is a member that serves the index.
  pub scan-Found :
      (i : ℕ) (ms : List Member) (found : Option ℕ × Option ℕ) (j : ℕ)
      → Found (scan d index i ms found) j
      → Found found j ⊎ ((k : ℕ) × (j ≡ i + k) × Serves ms k)
  unfolding scan
  scan-Found i [] found j h = inl h
  scan-Found i (m ∷ ms) found j h =
      elim (scan-Found (suc i) ms (consider d (serves d m index) i found) j h) [
        | inr (k, e, s) ↦ inr (suc k, omega arith, s)
        | inl e ↦ elim (consider-Found (serves d m index) i found j e) [
          | inl f ↦ inl f
          | inr (e', s) ↦ inr (0, omega arith, s)
        ]
      ]

  consider-none :
      (b : Bool) (i : ℕ) (found : Option ℕ × Option ℕ)
      → consider d b i found ≡ (none, none)
      → (found ≡ (none, none)) × (b ≡ false)
  unfolding consider
  consider-none b i (pick, alt) e = ground arith

  -- The loop that finds nothing found nothing before, and no member serves the index.
  pub scan-none :
      (i : ℕ) (ms : List Member) (found : Option ℕ × Option ℕ)
      → scan d index i ms found ≡ (none, none)
      → (found ≡ (none, none)) × NoneServes ms
  unfolding scan
  scan-none i [] found h = (h, tt)
  scan-none i (m ∷ ms) found h =
      let (e, rest) = scan-none (suc i) ms (consider d (serves d m index) i found) h in
      let (f, n) = consider-none (serves d m index) i found e in (f, (n, rest))

  consider_keeps :
      (p : ℕ) (b : Bool) (i : ℕ) (found : Option ℕ × Option ℕ)
      → d.primary ≡ some p
      → found.0 ≡ some p
      → (consider d b i found).0 ≡ some p
  unfolding consider
  consider_keeps p b i (pick, alt) e h = ground arith

  consider_primary :
      (p : ℕ) (b : Bool) (i : ℕ) (found : Option ℕ × Option ℕ)
      → d.ordered ≡ true
      → d.primary ≡ some p
      → p ≡ i
      → b ≡ true
      → (consider d b i found).0 ≡ some p
  unfolding consider
  consider_primary p b i (pick, alt) o e q s = ground arith

  -- A pick stays as long as only other members than the primary follow.
  scan-keeps :
      (p i : ℕ) (ms : List Member) (found : Option ℕ × Option ℕ)
      → d.primary ≡ some p
      → found.0 ≡ some p
      → (scan d index i ms found).0 ≡ some p
  unfolding scan
  scan-keeps p i [] found e h = h
  scan-keeps p i (m ∷ ms) found e h =
      scan-keeps p (suc i) ms (consider d (serves d m index) i found) e
        (consider_keeps p (serves d m index) i found e h)

  -- An ordered set picks its primary whenever the primary serves the index.
  pub scan-primary :
      (p i : ℕ) (ms : List Member) (found : Option ℕ × Option ℕ) (k : ℕ)
      → d.ordered ≡ true
      → d.primary ≡ some p
      → p ≡ i + k
      → Serves ms k
      → (scan d index i ms found).0 ≡ some p
  unfolding scan
  scan-primary p i [] found k o e q s = absurd s
  scan-primary p i (m ∷ ms) found zero o e q s =
      scan-keeps p (suc i) ms (consider d (serves d m index) i found) e
        (consider_primary p (serves d m index) i found o e (omega arith) s)
  scan-primary p i (m ∷ ms) found (suc k) o e q s =
      scan-primary p (suc i) ms (consider d (serves d m index) i found) k o e (omega arith) s
