-- ===== src/Merge/Discrete/Replay.antt =====
-- Selects applied in order to the sources of the slots.
use mxl_k8s.Base.{
  ◌≡◌, refl, inl, inr, ◌∙◌, ap, sym, List, [], ◌∷◌, ◌++◌, ℕ, arith, All, All-map, ◌+◌, ◌≤◌, ◌<◌,
  ◌%◌, set, set_same,
}
use mathlib.Core.List.{append-nil}
use mxl_k8s.Merge.Discrete.{DiscretePolicy, Member, Select}
use mxl_k8s.Merge.Discrete.Run.{Turn, Run, start, turn}

abbrev pub replay : List Select → List ℕ → List ℕ
replay [] current = current
replay (s ∷ ss) current = replay ss (set current s.slot s.source)

pub replay-append :
    (ss ts : List Select) (current : List ℕ)
    → replay (ss ++ ts) current ≡ replay ts (replay ss current)
replay-append [] ts current = refl
replay-append (s ∷ ss) ts current = replay-append ss ts (set current s.slot s.source)

-- The selects name indices above `low` in ascending order, each at its place of the ring.
abbrev pub Ascends : ℕ → ℕ → List Select → Type 0
Ascends grains low [] = Unit
Ascends grains low (s ∷ ss) =
    (low < s.index) × (s.slot ≡ s.index % grains) × Ascends grains s.index ss

Ascends-append :
    (grains low top : ℕ) (ss : List Select) (s : Select)
    → Ascends grains low ss
    → All (λ t. t.index ≤ top) ss
    → low ≤ top
    → top < s.index
    → s.slot ≡ s.index % grains
    → Ascends grains low (ss ++ (s ∷ []))
Ascends-append grains low top [] s h a l b e = (omega arith, e, tt)
Ascends-append grains low top (x ∷ ss) s h a l b e =
    (h.0, h.1, Ascends-append grains x.index top ss s h.2 a.1 a.0 b e)

All-append : (P : Select → Type 0) (ss ts : List Select) → All P ss → All P ts → All P (ss ++ ts)
All-append P [] ts h k = k
All-append P (s ∷ ss) ts h k = (h.0, All-append P ss ts h.1 k)

module _ (ms : List Member) (lead now : ℕ) where
  Turn-replay :
      {d e : DiscretePolicy} (pick : ℕ) {s : List Select}
      → Turn ms lead now d pick e s
      → replay s d.current ≡ e.current
  Turn-replay {d} {e} pick {s} t = elim t.selects [
    | inl none ↦ rw none (sym (set_same d.current _ (t.quiet none)) ∙ sym t.current)
    | inr one ↦ rw one (sym t.current)
  ]

  below :
      (e f : DiscretePolicy) (s : List Select) {pick : ℕ} {t : List Select}
      → Turn ms lead now e pick f t
      → All (λ x. x.index ≤ e.head) s
      → All (λ x. x.index ≤ f.head) s
  below e f s k = All-map _ _ (λ x l. omega (arith, k.head)) s

  pub Run-Ascends :
      {d e : DiscretePolicy} {s : List Select}
      → Run ms lead now d e s
      → Ascends d.grains d.head s
        × All (λ t. t.index ≤ e.head) s
        × (d.head ≤ e.head)
        × (e.grains ≡ d.grains)
  Run-Ascends start = (tt, tt, omega arith, refl)
  Run-Ascends {d} (turn {e = e} {f = f} {s = s} {t = t} pick r k) =
      let (a, b, c, g) = Run-Ascends r in
      elim k.selects [
        | inl none ↦
            rw (none, append-nil) (a, below e f s k b, omega (arith, k.head), k.config.grains ∙ g)
        | inr one ↦ rw one (
          Ascends-append d.grains d.head e.head s _ a b c (omega arith)
              (ap (λ x. (e.head + 1) % x) g),
          All-append (λ x. x.index ≤ f.head) s _ (below e f s k b) (omega (arith, k.head), tt),
          omega (arith, k.head),
          k.config.grains ∙ g,
        )
      ]

  pub Run-replay :
      {d e : DiscretePolicy} {s : List Select}
      → Run ms lead now d e s
      → replay s d.current ≡ e.current
  Run-replay start = refl
  Run-replay {d} (turn {e = e} {f = f} {s = s} {t = t} pick r k) =
      replay-append s t d.current
      ∙ ap (replay t) (Run-replay r)
      ∙ Turn-replay {d = e} {e = f} pick k
