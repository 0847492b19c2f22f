-- ===== src/Agent/Redundancy/Uses.antt =====
-- What the uses, the lists of nodes and the loop of `Release` answer.
use mxl_k8s.Base.{
  ℕ, ◌≤◌, ◌≡◌, refl, sym, ap, ◌∙◌, ◌⊎◌, inl, inr, false, ◌||◌, none, some, String, List, [], ◌∷◌,
  ◌++◌, arith, if◌then◌else◌, Bool-cases,
}
use mxl_k8s.Base.Texts.{same_text, same_text_iff, contains_text}
use mxl_k8s.Agent.Redundancy.{FlowSet, Uses, last_use, record_use, is_named, forget}

pub last_use-record_use :
    (name : String) (now : ℕ) (uses : Uses) → last_use name (record_use name now uses) ≡ some now
unfolding last_use record_use
last_use-record_use name now [] = rw ((same_text_iff name name).1 refl) refl
last_use-record_use name now ((k, t) ∷ uses) = elim (Bool-cases (same_text k name)) [
  | inl q ↦ rw (q, (same_text_iff name name).1 refl) refl
  | inr q ↦ rw (q, q) (last_use-record_use name now uses)
]

pub last_use-record_use_other :
    (name other : String) (now : ℕ) (uses : Uses)
    → same_text name other ≡ false
    → last_use other (record_use name now uses) ≡ last_use other uses
unfolding last_use record_use
last_use-record_use_other name other now [] ne = rw ne refl
last_use-record_use_other name other now ((k, t) ∷ uses) ne = elim (Bool-cases (same_text k name)) [
  | inl q ↦
      let e : same_text k other ≡ false =
        ap (λ x. same_text x other) ((same_text_iff k name).0 q) ∙ ne in
      rw (q, ne, e) refl
  | inr q ↦ elim (Bool-cases (same_text k other)) [
    | inl r ↦ rw (q, r) refl
    | inr r ↦ rw (q, r) (last_use-record_use_other name other now uses ne)
  ]
]

-- Every use is of a time up to now.
abbrev pub IsPast : ℕ → Uses → Type 0
IsPast now uses = (name : String) (t : ℕ) → last_use name uses ≡ some t → t ≤ now

pub contains-append :
    (nodes : List String) (node n : String)
    → contains_text (nodes ++ (node ∷ [])) n ≡ (contains_text nodes n || same_text node n)
contains-append [] node n = ground arith
contains-append (m ∷ nodes) node n = elim (Bool-cases (same_text m n)) [
  | inl q ↦ rw q refl
  | inr q ↦ rw q (contains-append nodes node n)
]

abbrev pub Has : String → Uses → Type 0
Has name uses = (t : ℕ) × (last_use name uses ≡ some t)

pub last_use-forget :
    (here : List FlowSet) (name : String) (uses : Uses)
    → last_use name (forget here uses) ≡ (if is_named name here then last_use name uses else none)
unfolding last_use forget
last_use-forget here name [] = ground arith
last_use-forget here name ((k, t) ∷ uses) = elim (Bool-cases (same_text k name)) [
  | inl q ↦
      let e : k ≡ name = (same_text_iff k name).0 q in
      elim (Bool-cases (is_named k here)) [
        | inl r ↦ rw (r, ap (λ x. is_named x here) (sym e) ∙ r, q) refl
        | inr r ↦
            let e' : is_named name here ≡ false = ap (λ x. is_named x here) (sym e) ∙ r in
            rw (r, e') (last_use-forget here name uses ∙ rw e' refl)
      ]
  | inr q ↦ elim (Bool-cases (is_named k here)) [
    | inl r ↦ rw (r, q) (last_use-forget here name uses)
    | inr r ↦ rw (r, q) (last_use-forget here name uses)
  ]
]

-- A use recorded now keeps every use, and none gets earlier.
pub record_use-Has :
    (name other : String) (now : ℕ) (uses : Uses)
    → Has other uses
    → Has other (record_use name now uses)
record_use-Has name other now uses (t, e) = elim (Bool-cases (same_text name other)) [
  | inl q ↦ (
    now,
    ap (λ x. last_use x (record_use name now uses)) (sym ((same_text_iff name other).0 q))
        ∙ last_use-record_use name now uses,
  )
  | inr q ↦ (t, last_use-record_use_other name other now uses q ∙ e)
]

recorded :
    (name other : String) (now t : ℕ) (uses : Uses)
    → last_use other (record_use name now uses) ≡ some t
    → (t ≡ now) ⊎ (last_use other uses ≡ some t)
recorded name other now t uses e = elim (Bool-cases (same_text name other)) [
  | inl q ↦
      let same =
        ap (λ x. last_use x (record_use name now uses)) (sym ((same_text_iff name other).0 q))
        ∙ last_use-record_use name now uses in
      inl (ground (arith, e, same))
  | inr q ↦ inr (sym (last_use-record_use_other name other now uses q) ∙ e)
]

-- Each use is of now, or the one it was.
abbrev pub Moved : ℕ → Uses → Uses → Type 0
Moved now old new =
    (name : String) (t : ℕ) → last_use name new ≡ some t → (t ≡ now) ⊎ (last_use name old ≡ some t)

pub record_use-Moved :
    (name : String) (now : ℕ) (uses : Uses) → Moved now uses (record_use name now uses)
record_use-Moved name now uses other t e = recorded name other now t uses e
