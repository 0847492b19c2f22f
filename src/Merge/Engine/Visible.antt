-- ===== src/Merge/Engine/Visible.antt =====
-- What readers trust while the selects of a pass are applied.
use mathlib.Core.Path.{subst}
use mathlib.Core.List.{append-nil, append_assoc}
use mxl_k8s.Base.{
  ℕ, ◌+◌, ◌%◌, ◌^◌, ◌≤◌, ◌<◌, ◌≡◌, refl, sym, ap, ◌∙◌, ◌⊎◌, inl, inr, Bool, some, List, [], ◌∷◌,
  ◌++◌, arith, length, get_elem?, get_elem?-set_ne, set, set_same, mod-ne,
}
use mxl_k8s.Merge.Discrete.{Member, DiscretePolicy, Select}
use mxl_k8s.Merge.Discrete.Turn.{IsSource}
use mxl_k8s.Merge.Discrete.Run.{IsReady, Turn, Run, start, turn, Run-SameConfig}
use mxl_k8s.Merge.Discrete.Step.{Run-IsSourced}
use mxl_k8s.Merge.Engine.{Output, announce, point_view}
use mxl_k8s.Merge.Engine.Apply.{Sees, before, announced, pointed, announce-views, announce-head}

Sees-cons :
    {accepts : Select → Bool} {s : Select} {ss : List Select} {o x : Output}
    → Sees accepts (s ∷ ss) o x
    → (x ≡ o) ⊎ (x ≡ announce s o) ⊎ Sees accepts ss (point_view s (announce s o)) x
Sees-cons before = inl refl
Sees-cons announced = inr (inl refl)
Sees-cons (pointed q r) = inr (inr r)

Sees-nil : {accepts : Select → Bool} {o x : Output} → Sees accepts [] o x → x ≡ o
Sees-nil before = refl

module _ (ms : List Member) (lead now : ℕ) where
  -- The same turns, the first one first.
  data Turns : DiscretePolicy → DiscretePolicy → List Select → Type 0 where
    done : {d : DiscretePolicy} → Turns d d []
    first :
        {d e f : DiscretePolicy} {s t : List Select} (pick : ℕ)
        → Turn ms lead now d pick e s
        → Turns e f t
        → Turns d f (s ++ t)

  snoc-Turns :
      {d e f : DiscretePolicy} {s t : List Select} (pick : ℕ)
      → Turns d e s
      → Turn ms lead now e pick f t
      → Turns d f (s ++ t)
  snoc-Turns {f = f} {t = t} pick done k = subst (Turns _ f) (append-nil t) (first pick k done)
  snoc-Turns {f = f} {t = t} pick (first {s = s} {t = t'} p k r) k' =
      subst (Turns _ f) (sym (append_assoc s t' t)) (first p k (snoc-Turns pick r k'))

  Run-Turns : {d e : DiscretePolicy} {s : List Select} → Run ms lead now d e s → Turns d e s
  Run-Turns start = done
  Run-Turns (turn pick r k) = snoc-Turns pick (Run-Turns r) k

  -- The output shows the sources of a state of the policy that is at most one index ahead of it.
  abbrev IsAbreast : DiscretePolicy → Output → Type 0
  IsAbreast d x =
      (e : DiscretePolicy) × (s : List Select) × Run ms lead now d e s
      × (x.views ≡ e.current)
      × (x.head ≤ e.head)
      × (e.head ≤ x.head + 1)

  -- A slot of no index that the turns publish shows what it showed.
  Run-keeps :
      {d e : DiscretePolicy} {s : List Select} (i : ℕ)
      → IsReady (length ms) d
      → Run ms lead now d e s
      → i ≤ d.head
      → e.head < i + d.grains
      → (d.head ≤ e.head)
        × (get_elem? e.current (i % d.grains) ≡ get_elem? d.current (i % d.grains))
  Run-keeps i h start low near = (omega arith, refl)
  Run-keeps {d} i h (turn {e = e} {f = f} pick r k) low near =
      let (up, same) = Run-keeps {d = d} {e = e} i h r low (omega (arith, k.head)) in
      let c = Run-SameConfig ms lead now r in
      (
        omega (arith, k.head),
        ap (λ v. get_elem? v (i % d.grains)) k.current
            ∙ get_elem?-set_ne e.current pick (λ q.
              mod-ne d.grains i (e.head + 1) (omega (arith, h.deep)) (omega arith)
                (omega (arith, k.head)) (sym (ap (λ g. (e.head + 1) % g) (sym c.grains) ∙ q)))
            ∙ same,
      )

  module _ (accepts : Select → Bool) (d0 : DiscretePolicy) (o0 : Output)
      (fits : lead < 2 ^ 63) where
    abbrev IsGood : Output → Type 0
    IsGood x = (x ≡ o0) ⊎ IsAbreast d0 x

    Turns-IsGood :
        {d e : DiscretePolicy} {s0 s : List Select} (o : Output) {x : Output}
        → Run ms lead now d0 d s0
        → Turns d e s
        → o.views ≡ d.current
        → o.head ≤ d.head
        → IsGood o
        → Sees accepts s o x
        → IsGood x
    Turns-IsGood o r done v l g sees = subst IsGood (sym (Sees-nil sees)) g
    Turns-IsGood {d = d} {s0 = s0} o {x} r (first {e = f} {s = s} {t = t} pick k rest) v l g sees =
        elim k.selects [
          | inl quiet ↦
              let same : f.current ≡ d.current =
                k.current ∙ set_same d.current ((d.head + 1) % d.grains) (k.quiet quiet) in
              Turns-IsGood {d = f} o (turn pick r k) rest (v ∙ sym same) (omega (arith, k.head)) g
                (subst (λ y. Sees accepts (y ++ t) o x) quiet sees)
          | inr one ↦
              let sel : Select = record {
                slot = (d.head + 1) % d.grains;
                source = pick;
                index = d.head + 1;
              } in
              let (_, up, low, high) =
                announce-head sel o (d.head + 1) (omega (arith, k.behind)) (omega arith)
                  (omega arith) in
              let here : IsGood (announce sel o) =
                inr (d, s0, r, announce-views sel o ∙ v, omega arith, omega arith) in
              let there : IsGood (point_view sel (announce sel o)) = inr (
                f,
                s0 ++ s,
                turn pick r k,
                ap (λ y. set y sel.slot pick) (announce-views sel o ∙ v) ∙ sym k.current,
                omega (arith, k.head),
                omega (arith, k.head),
              ) in
              elim (Sees-cons (subst (λ y. Sees accepts (y ++ t) o x) one sees)) [
                | inl q ↦ subst IsGood (sym q) g
                | inr (inl q) ↦ subst IsGood (sym q) here
                | inr (inr later) ↦
                    Turns-IsGood {d = f} (point_view sel (announce sel o)) (turn pick r k) rest
                      (ap (λ y. set y sel.slot pick) (announce-views sel o ∙ v) ∙ sym k.current)
                      (omega (arith, k.head)) there later
              ]
        ]

  -- What readers trust of an output: each index in the ring but the one about to be overwritten, as
  -- far as it is published, shows a source of it where it is new, and what it showed before.
  abbrev pub IsTrusted : DiscretePolicy → Output → Output → Type 0
  IsTrusted d o x =
      (i : ℕ)
      → i ≤ x.head
      → x.head + 1 < i + d.grains
      → (d.head < i
          → (src : ℕ) × (get_elem? x.views (i % d.grains) ≡ some src) × IsSource d ms lead i src)
        × (i ≤ d.head → get_elem? x.views (i % d.grains) ≡ get_elem? o.views (i % d.grains))

  pub Run-IsTrusted :
      (accepts : Select → Bool) {d e : DiscretePolicy} {s : List Select} (o x : Output)
      → lead < 2 ^ 63
      → IsReady (length ms) d
      → Run ms lead now d e s
      → o.views ≡ d.current
      → o.head ≤ d.head
      → Sees accepts s o x
      → IsTrusted d o x
  Run-IsTrusted accepts {d} {e} {s} o x fits h r v l sees =
      elim (Turns-IsGood accepts d o fits o start (Run-Turns r) v l (inl refl) sees) [
        | inl same ↦ λ i low near. (
          λ new. absurd (omega (arith, ap (λ y. y.head) same)),
          λ old. ap (λ y. get_elem? y.views (i % d.grains)) same,
        )
        | inr (f, t, k, w, up, near') ↦ λ i low near. (
          λ new.
              let (src, g, is) = Run-IsSourced ms lead now h k i new (omega arith) (omega arith) in
              (src, ap (λ y. get_elem? y (i % d.grains)) w ∙ g, is),
          λ old.
              ap (λ y. get_elem? y (i % d.grains)) w
              ∙ (Run-keeps i h k old (omega arith)).1
              ∙ ap (λ y. get_elem? y (i % d.grains)) (sym v),
        )
      ]
