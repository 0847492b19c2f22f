-- ===== src/Gateway/Gate/Held.antt =====
-- When the gate fails.
use mathlib.Core.Path.{subst}
use mxl_k8s.Base.{
  ℕ, ◌-◌, ◌≤◌, ◌<◌, ◌≡◌, refl, sym, ap, ◌∙◌, ◌⊎◌, inl, inr, Bool, true, false, not, ◌||◌, Option,
  none, some, List, [], ◌∷◌, ◌++◌, arith, All, ltb, Bool-cases, Option-cases,
}
use mxl_k8s.Gateway.Gate.{Gate, Comparison, observe_gate, check_gate, gate_after}

abbrev pub IsBad : Comparison → Type 0
IsBad c = (c.applies ≡ true) × (c.unenumerated ≡ true)

-- The comparisons do not end in a bad one.
abbrev pub IsClear : List Comparison → Type 0
IsClear [] = Unit
IsClear (c ∷ cs) = IsBad c → ⊥

-- The comparisons end in a run of bad ones, the first of which was at `since`.
abbrev pub IsRun : List Comparison → ℕ → Type 0
IsRun cs since =
    (run : List Comparison) × (first : Comparison) × (before : List Comparison) × (cs
      ≡ run ++ (first ∷ before))
    × All IsBad run
    × IsBad first
    × (first.at ≡ since)
    × IsClear before

IsBad-of : (c : Comparison) → (not c.applies || not c.unenumerated) ≡ false → IsBad c
IsBad-of c q = (ground (arith, q), ground (arith, q))

good-IsBad : (c : Comparison) → (not c.applies || not c.unenumerated) ≡ true → IsBad c → ⊥
good-IsBad c q (a, b) = absurd (ground (arith, q, a, b))

-- What the gate after the comparisons says of them.
abbrev IsOf : List Comparison → Option ℕ → Type 0
IsOf cs none = IsClear cs
IsOf cs (some since) = IsRun cs since

observe_good :
    (c : Comparison) (g : Gate)
    → (not c.applies || not c.unenumerated) ≡ true
    → (observe_gate c g).since ≡ none
unfolding observe_gate
observe_good c g q = rw (observe_gate, q) refl

observe_first :
    (c : Comparison) (g : Gate)
    → (not c.applies || not c.unenumerated) ≡ false
    → g.since ≡ none
    → (observe_gate c g).since ≡ some c.at
unfolding observe_gate
observe_first c g q e = rw (observe_gate, q, e) refl

observe_later :
    (c : Comparison) (g : Gate) (t : ℕ)
    → (not c.applies || not c.unenumerated) ≡ false
    → g.since ≡ some t
    → (observe_gate c g).since ≡ some t
unfolding observe_gate
observe_later c g t q e = rw (observe_gate, q, e) e

grace_after : (grace : ℕ) (cs : List Comparison) → (gate_after grace cs).grace ≡ grace
unfolding gate_after observe_gate
grace_after grace [] = refl
grace_after grace (c ∷ cs) = elim (Bool-cases (not c.applies || not c.unenumerated)) [
  | inl q ↦ rw q (grace_after grace cs)
  | inr q ↦ elim (Option-cases (gate_after grace cs).since) [
    | inl e ↦ rw (q, e) (grace_after grace cs)
    | inr (t, e) ↦ rw (q, e) (grace_after grace cs)
  ]
]

after-IsOf : (grace : ℕ) (cs : List Comparison) → IsOf cs (gate_after grace cs).since
unfolding gate_after
after-IsOf grace [] = tt
after-IsOf grace (c ∷ cs) =
    let g = gate_after grace cs in
    let h = after-IsOf grace cs in
    elim (Bool-cases (not c.applies || not c.unenumerated)) [
      | inl q ↦ subst (IsOf (c ∷ cs)) (sym (observe_good c g q)) (good-IsBad c q)
      | inr q ↦ elim (Option-cases g.since) [
        | inl e ↦
            subst (IsOf (c ∷ cs)) (sym (observe_first c g q e))
              ([], c, cs, refl, tt, IsBad-of c q, refl, subst (IsOf cs) e h)
        | inr (t, e) ↦
            let (run, first, before, same, bad, start, at, clear) = subst (IsOf cs) e h in
            subst (IsOf (c ∷ cs)) (sym (observe_later c g t q e))
              (c ∷ run, first, before, ap (◌∷◌ c) same, (IsBad-of c q, bad), start, at, clear)
      ]
    ]

-- What the verdict says of the comparisons.
abbrev pub IsVerdict : ℕ → ℕ → List Comparison → Bool → Type 0
IsVerdict grace now cs true = IsClear cs ⊎ ((since : ℕ) × IsRun cs since × (now - since < grace))
IsVerdict grace now cs false = (since : ℕ) × IsRun cs since × (grace ≤ now - since)

check_clear : (now : ℕ) (g : Gate) → g.since ≡ none → check_gate now g ≡ true
unfolding check_gate
check_clear now g e = rw (check_gate, e) refl

check_since :
    (now since : ℕ) (g : Gate) → g.since ≡ some since → check_gate now g ≡ ltb (now - since) g.grace
unfolding check_gate
check_since now since g e = rw (check_gate, e) refl

-- After any comparisons, `Check` fails where they end in an unbroken run of comparisons that
-- applied and left a host device unenumerated, the first of which was at least the grace ago. It
-- passes where they end in another comparison, where there was none, and where that run is shorter
-- than the grace.
pub check_gate-IsVerdict :
    (grace now : ℕ) (cs : List Comparison)
    → IsVerdict grace now cs (check_gate now (gate_after grace cs))
check_gate-IsVerdict grace now cs =
    let g = gate_after grace cs in
    let h = after-IsOf grace cs in
    elim (Option-cases g.since) [
      | inl e ↦
          subst (IsVerdict grace now cs) (sym (check_clear now g e)) (inl (subst (IsOf cs) e h))
      | inr (t, e) ↦
          let run : IsRun cs t = subst (IsOf cs) e h in
          let same : check_gate now g ≡ ltb (now - t) grace =
            check_since now t g e ∙ ap (ltb (now - t)) (grace_after grace cs) in
          elim (Bool-cases (ltb (now - t) grace)) [
            | inl q ↦
                subst (IsVerdict grace now cs) (sym (same ∙ q)) (inr (t, run, ground (arith, q)))
            | inr q ↦ subst (IsVerdict grace now cs) (sym (same ∙ q)) (t, run, ground (arith, q))
          ]
    ]
