-- ===== src/Merge/Discrete/Drop/Whole.antt =====
-- `Drop` as a whole: it returns, and leaves no slot to the dropped member.
use mathlib.Core.List.{append_assoc}
use mxl_k8s.Base.{
  ℕ, suc, ◌+◌, ◌^◌, ◌≤◌, ◌<◌, ◌≡◌, ◌≢◌, refl, sym, ap, ◌∙◌, ◌⊎◌, inl, inr, true, false, some, List,
  [], ◌∷◌, ◌++◌, arith, length, length-append, set, Bool-cases, ◌==◌, ==_iff,
}
use mxl_k8s.Merge.Discrete.{Member, DiscretePolicy, Select}
use mxl_k8s.Merge.Discrete.Run.{IsReady}
use mxl_k8s.Merge.Discrete.Replay.{replay}
use mxl_k8s.Merge.Discrete.Drop.{take_over, drop_slots, drop}
use mxl_k8s.Merge.Discrete.Drop.Moves.{IsTaken, take_over-IsTaken}

module _ (d : DiscretePolicy) (ms : List Member) (m : ℕ) where
  -- The sources of the slots from `slot` on, before and after: only slots of `m` change.
  abbrev pub IsDropped : ℕ → List ℕ → List ℕ → Type 0
  IsDropped slot [] [] = Unit
  IsDropped slot (cur ∷ rest) (new ∷ rest') =
      (((cur ≢ m) × (new ≡ cur)) ⊎ ((cur ≡ m) × IsTaken d ms m slot new))
      × IsDropped (suc slot) rest rest'
  IsDropped slot _ _ = ⊥

  set-append :
      (pre : List ℕ) (cur new : ℕ) (rest : List ℕ)
      → set (pre ++ (cur ∷ rest)) (length pre) new ≡ (pre ++ (new ∷ [])) ++ rest
  set-append [] cur new rest = refl
  set-append (x ∷ pre) cur new rest = ap (◌∷◌ x) (set-append pre cur new rest)

  snoc-append :
      (pre : List ℕ) (cur : ℕ) (rest : List ℕ) → pre ++ (cur ∷ rest) ≡ (pre ++ (cur ∷ [])) ++ rest
  snoc-append pre cur rest = sym (append_assoc pre (cur ∷ []) rest)

  -- What the loop over the slots from `slot` on returns.
  abbrev Drops : ℕ → List ℕ → Type 0
  Drops slot rest =
      (rest' : List ℕ) × (s : List Select) × (drop_slots d ms m slot rest ≡ some (rest', s))
      × IsDropped slot rest rest'
      × ((pre : List ℕ) → length pre ≡ slot → replay s (pre ++ rest) ≡ pre ++ rest')

  drop_stay :
      (slot cur : ℕ) (rest rest' : List ℕ) (s : List Select)
      → (cur == m) ≡ false
      → drop_slots d ms m (suc slot) rest ≡ some (rest', s)
      → drop_slots d ms m slot (cur ∷ rest) ≡ some (cur ∷ rest', s)
  unfolding drop_slots
  drop_stay slot cur rest rest' s q e = ground arith

  drop_move :
      (slot cur : ℕ) (rest rest' : List ℕ) (s : List Select)
      → (cur == m) ≡ true
      → 2 ≤ d.grains
      → drop_slots d ms m (suc slot) rest ≡ some (rest', s)
      → drop_slots d ms m slot (cur ∷ rest)
        ≡ some (
          (take_over d ms m slot).0 ∷ rest',
          record {
            slot = slot;
            source = (take_over d ms m slot).0;
            index = (take_over d ms m slot).1;
          }
              ∷ s,
        )
  unfolding drop_slots
  drop_move slot cur rest rest' s q g e = ground arith

  drop_slots-Drops :
      (slot : ℕ) (rest : List ℕ)
      → m ≢ d.placeholder
      → 2 ≤ d.grains
      → d.grains < 2 ^ 62
      → slot + length rest ≡ d.grains
      → Drops slot rest
  drop_slots-Drops slot [] ne g fits h = ([], [], unfold drop_slots in refl, tt, λ pre e. refl)
  drop_slots-Drops slot (cur ∷ rest) ne g fits h =
      let (rest', s, e, k, r) = drop_slots-Drops (suc slot) rest ne g fits (omega arith) in
      elim (Bool-cases (cur == m)) [
        | inr q ↦ (
          cur ∷ rest',
          s,
          drop_stay slot cur rest rest' s q e,
          (inl ((λ p. ground (arith, q)), refl), k),
          λ pre l.
              ap (replay s) (snoc-append pre cur rest)
              ∙ r (pre ++ (cur ∷ [])) (omega (arith, length-append pre (cur ∷ [])))
              ∙ sym (snoc-append pre cur rest'),
        )
        | inl q ↦
            let new : ℕ = (take_over d ms m slot).0 in
            (
              new ∷ rest',
              record { slot = slot; source = new; index = (take_over d ms m slot).1 } ∷ s,
              drop_move slot cur rest rest' s q g e,
              (inr ((==_iff _ _).0 q, take_over-IsTaken d ms m slot ne (omega arith) fits), k),
              λ pre l.
                  ap (replay s) (
                    ap (λ i. set (pre ++ (cur ∷ rest)) i new) (sym l) ∙ set-append pre cur new rest)
                  ∙ r (pre ++ (new ∷ [])) (omega (arith, length-append pre (new ∷ [])))
                  ∙ sym (snoc-append pre new rest'),
            )
      ]

-- Where the policy is whole, with a ring below 2^62 grains, `Drop` of member `m` returns, and
-- changes no more than sources of slots. Every slot that showed `m` shows another source: the
-- placeholder, or a member other than `m` that serves the index the slot holds, the one at that
-- place of the ring within a ring below the head. Every other slot shows what it showed. The
-- selects, applied in order, turn the old sources into the new ones.
pub drop-IsDropped :
    (d : DiscretePolicy) (ms : List Member) (m : ℕ)
    → IsReady (length ms) d
    → m < length ms
    → d.grains < 2 ^ 62
    → (current : List ℕ) × (s : List Select) × (drop d ms m
        ≡ some (record d { current = current }, s))
      × IsDropped d ms m 0 d.current current
      × (replay s d.current ≡ current)
unfolding drop
drop-IsDropped d ms m h l fits =
    let (current, s, e, k, r) =
      drop_slots-Drops d ms m 0 d.current (omega (arith, h.members)) h.deep fits
        (omega (arith, h.ring)) in
    (current, s, rw (e, drop) refl, k, r [] refl)
