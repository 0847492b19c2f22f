-- ===== src/Merge/Discrete/Drop/Moves.antt =====
-- What `Drop` moves: every slot of the dropped member, and no other.
use mathlib.Core.Path.{subst}
use mxl_k8s.Base.{
  ℕ, ◌+◌, ◌-◌, ◌%◌, ◌^◌, ◌≤◌, ◌<◌, ◌≡◌, ◌≢◌, refl, sym, ap, ◌∙◌, ◌⊎◌, inl, inr, true, not, ◌&&◌,
  some, List, arith, At-of_get_elem?, sub-back-mod, Bool-cases, Option-cases, ◌==◌, leb, leb→le,
}
use native.Mathlib.Nat.{zero-add}
use mxl_k8s.Merge.Discrete.{Member, DiscretePolicy, serves}
use mxl_k8s.Merge.Discrete.Scan.{Serves}
use mxl_k8s.Merge.Discrete.Retire.{first_member}
use mxl_k8s.Merge.Discrete.Retire.Members.{first_member-some}
use mxl_k8s.Merge.Discrete.Drop.{slot_back, take_over}

-- A source of a slot other than the dropped member `m`: the placeholder, or a member that serves
-- the published index that the slot holds.
pub record IsTaken (d : DiscretePolicy) (ms : List Member) (m slot source : ℕ) : Type 0 where
  pub other : source ≢ m
  pub holds :
      (source ≡ d.placeholder)
      ⊎ ((i : ℕ) × (i % d.grains ≡ slot)
          × (i ≤ d.head)
          × (d.head < i + d.grains)
          × Serves d i ms source)

module _ (d : DiscretePolicy) (ms : List Member) (m : ℕ) where
  slot_back-mod :
      (slot : ℕ)
      → slot < d.grains
      → d.grains < 2 ^ 62
      → slot_back d slot ≡ (d.head % d.grains + d.grains - slot) % d.grains
  unfolding slot_back
  slot_back-mod slot l fits = ap (λ x. x % d.grains) (omega arith)

  placeholder-IsTaken : (slot : ℕ) → m ≢ d.placeholder → IsTaken d ms m slot d.placeholder
  placeholder-IsTaken slot ne = record { other = λ e. ne (sym e); holds = inl refl }

  -- The index the slot holds, where it is published.
  member-IsTaken :
      (slot o : ℕ)
      → slot < d.grains
      → d.grains < 2 ^ 62
      → slot_back d slot ≤ d.head
      → first_member (λ o mb. not (o == m) && serves d mb (d.head - slot_back d slot)) 0 ms ≡ some o
      → IsTaken d ms m slot o
  member-IsTaken slot o l fits b f =
      let (k, mb, same, g, t) =
        first_member-some (λ o mb. not (o == m) && serves d mb (d.head - slot_back d slot)) 0 ms
          {m = o} f in
      let e = slot_back-mod slot l fits in
      let sv : serves d mb (d.head - slot_back d slot) ≡ true = ground arith in
      record {
        other = λ p. ground (arith, t);
        holds = inr (
          d.head - slot_back d slot,
          ap (λ x. (d.head - x) % d.grains) e ∙ sub-back-mod d.head d.grains slot l (rw (← e) b),
          omega arith,
          omega (arith, e),
          At-of_get_elem? _ ms o (rw (same, zero-add) g) sv,
        );
      }

  pub take_over-IsTaken :
      (slot : ℕ)
      → m ≢ d.placeholder
      → slot < d.grains
      → d.grains < 2 ^ 62
      → IsTaken d ms m slot (take_over d ms m slot).0
  unfolding take_over
  take_over-IsTaken slot ne l fits = elim (Bool-cases (leb (slot_back d slot) d.head)) [
    | inr q ↦
        subst (IsTaken d ms m slot) {x = d.placeholder} (ground arith) (placeholder-IsTaken slot ne)
    | inl q ↦
        elim (Option-cases
          (first_member (λ o mb. not (o == m) && serves d mb (d.head - slot_back d slot)) 0 ms)) [
            | inl f ↦
                subst (IsTaken d ms m slot) {x = d.placeholder} (rw (q, f, take_over) refl)
                  (placeholder-IsTaken slot ne)
            | inr (o, f) ↦
                subst (IsTaken d ms m slot) {x = o} (rw (q, f, take_over) refl)
                  (member-IsTaken slot o l fits (leb→le _ _ q) f)
          ]
  ]
