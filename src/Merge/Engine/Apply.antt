-- ===== src/Merge/Engine/Apply.antt =====
-- What readers can see while selects are applied.
use mxl_k8s.Base.{
  ℕ, ◌+◌, ◌-◌, ◌^◌, ◌≤◌, ◌<◌, max, ◌≡◌, refl, ap, ◌∙◌, inl, inr, Bool, true, false, some, List, [],
  ◌∷◌, arith, All, length, length-set, get_elem?, get_elem?_of_lt, set, ltb, Bool-cases,
}
use mxl_k8s.Base.Words.{u64}
use mxl_k8s.Merge.Discrete.{Select}
use mxl_k8s.Merge.Discrete.Replay.{replay}
use mxl_k8s.Merge.Engine.{Output, publish_head, announce, point_view, apply}

-- The outputs that readers can see while the selects are applied: before, after the head is
-- published for a select, and after each select that the module takes.
pub data Sees (accepts : Select → Bool) : List Select → Output → Output → Type 0 where
  before : {ss : List Select} {o : Output} → Sees accepts ss o o
  announced : {s : Select} {ss : List Select} {o : Output} → Sees accepts (s ∷ ss) o (announce s o)
  pointed :
      {s : Select} {ss : List Select} {o p : Output}
      → accepts s ≡ true
      → Sees accepts ss (point_view s (announce s o)) p
      → Sees accepts (s ∷ ss) o p

pub announce-views : (s : Select) (o : Output) → (announce s o).views ≡ o.views
unfolding announce publish_head
announce-views s o = ground arith

-- The select is for a slot of the ring and an index up to `top`.
abbrev pub IsWithin : ℕ → ℕ → Select → Type 0
IsWithin grains top s = (s.slot < grains) × (s.index ≤ top)

pub announce-head :
    (s : Select) (o : Output) (top : ℕ)
    → top < 2 ^ 63
    → o.head ≤ top
    → s.index ≤ top
    → ((announce s o).head ≤ top)
      × (o.head ≤ (announce s o).head)
      × (s.index ≤ (announce s o).head + 1)
      × ((announce s o).head ≤ max o.head (s.index - 1))
unfolding announce publish_head
announce-head s o top fits h k = elim (Bool-cases (ltb (u64 (o.head + 1)) s.index)) [
  | inl q ↦ rw q (omega arith, ground (arith, q), omega arith, omega arith)
  | inr q ↦ rw q (h, omega arith, ground (arith, q), omega arith)
]

-- What applying the selects answers: an output that readers see, with a head up to `top`; if the
-- module took all of them, each slot shows what the selects say.
pub record Applied (accepts : Select → Bool) (ss : List Select) (o : Output) (top : ℕ) (p : Output)
    (taken : Bool) : Type 0 where
  pub sees : Sees accepts ss o p
  pub head : p.head ≤ top
  pub up : o.head ≤ p.head
  pub ring : length p.views ≡ length o.views
  pub views : taken ≡ true → p.views ≡ replay ss o.views
  pub all : ((s : Select) → accepts s ≡ true) → taken ≡ true

apply_refused :
    (accepts : Select → Bool) (s : Select) (ss : List Select) (o : Output) (old : ℕ)
    → get_elem? (announce s o).views s.slot ≡ some old
    → accepts s ≡ false
    → apply accepts (s ∷ ss) o ≡ some (announce s o, false)
unfolding apply
apply_refused accepts s ss o old g q = rw (apply, g, q) refl

apply_taken :
    (accepts : Select → Bool) (s : Select) (ss : List Select) (o : Output) (old : ℕ)
    → get_elem? (announce s o).views s.slot ≡ some old
    → accepts s ≡ true
    → apply accepts (s ∷ ss) o ≡ apply accepts ss (point_view s (announce s o))
unfolding apply
apply_taken accepts s ss o old g q = rw (apply, g, q) refl

pub apply-Applied :
    (accepts : Select → Bool) (grains top : ℕ) (ss : List Select) (o : Output)
    → top < 2 ^ 63
    → length o.views ≡ grains
    → o.head ≤ top
    → All (IsWithin grains top) ss
    → (p : Output) × (taken : Bool) × (apply accepts ss o ≡ some (p, taken))
      × Applied accepts ss o top p taken
apply-Applied accepts grains top [] o fits ring low h = (
  o,
  true,
  unfold apply in refl,
  record {
    sees = before;
    head = low;
    up = omega arith;
    ring = refl;
    views = λ t. refl;
    all = λ f. refl;
  },
)
apply-Applied accepts grains top (s ∷ ss) o fits ring low h =
    let (old, g) =
      get_elem?_of_lt (announce s o).views s.slot
        (omega (arith, ap length (announce-views s o), h.0)) in
    let (a, up, _, _) = announce-head s o top fits low (h.0.1) in
    let same : length (announce s o).views ≡ length o.views = ap length (announce-views s o) in
    elim (Bool-cases (accepts s)) [
      | inr q ↦ (
        announce s o,
        false,
        apply_refused accepts s ss o old g q,
        record {
          sees = announced;
          head = a;
          up = up;
          ring = same;
          views = λ t. absurd (ground (arith, t));
          all = λ f. absurd (ground (arith, q, f s));
        },
      )
      | inl q ↦
          let l = length-set (announce s o).views s.slot s.source in
          let (p, taken, e, k) =
            apply-Applied accepts grains top ss (point_view s (announce s o)) fits (l ∙ same ∙ ring)
              a h.1 in
          (
            p,
            taken,
            apply_taken accepts s ss o old g q ∙ e,
            record {
              sees = pointed q k.sees;
              head = k.head;
              up = omega (arith, up, k.up);
              ring = k.ring ∙ l ∙ same;
              views =
                  λ t. k.views t ∙ ap (λ v. replay ss (set v s.slot s.source)) (announce-views s o);
              all = k.all;
            },
          )
    ]
