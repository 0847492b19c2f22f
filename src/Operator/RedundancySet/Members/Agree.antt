-- ===== src/Operator/RedundancySet/Members/Agree.antt =====
-- What `disagreement` finds, and the parts of what `membersReady` complains of.
use mathlib.Core.Path.{subst}
use mxl_k8s.Base.{
  ◌≡◌, ◌↔◌, refl, sym, ◌∙◌, inl, inr, Bool, true, false, not, Option, none, some, String, List, [],
  ◌∷◌, arith, All, All-map, Bool-cases, Option-cases,
}
use mxl_k8s.Operator.RedundancySet.{SetMember}
use mxl_k8s.Operator.RedundancySet.Members.{
  aligned_keys, is_empty, differs_from, differs_in, differing, disagreement,
}

-- What a test decides.
abbrev pub Decides : Bool → Type 0 → Type 0
Decides b P = (b ≡ true → P) × (b ≡ false → ¬ P)

module _ {Value : Type 0} where
  -- The definition, where there is one, has the value at the key.
  abbrev pub HasIn : String → Value → Option (String → Value) → Type 0
  HasIn key v none = Unit
  HasIn key v (some d) = v ≡ d key

  abbrev pub Has : String → Value → SetMember Value → Type 0
  Has key v m = HasIn key v m.definition

  -- The definitions have the value that this one has at the key.
  abbrev pub AgreeWith : List (SetMember Value) → String → Option (String → Value) → Type 0
  AgreeWith ms key none = Unit
  AgreeWith ms key (some d) = All (Has key (d key)) ms

  abbrev pub AgreeAt : List (SetMember Value) → String → Type 0
  AgreeAt ms key = All (λ m. AgreeWith ms key m.definition) ms

  -- Every two definitions have one value at each aligned key.
  abbrev pub Agree : List (SetMember Value) → Type 0
  Agree ms = All (AgreeAt ms) aligned_keys

  AgreeWith-trans :
      (ms : List (SetMember Value)) (key : String) (v : Value) (o : Option (String → Value))
      → All (Has key v) ms
      → HasIn key v o
      → AgreeWith ms key o
  AgreeWith-trans ms key v none h k = tt
  AgreeWith-trans ms key v (some d) h k = subst (λ w. All (Has key w) ms) k h

  -- A value that all have.
  AgreeAt-of :
      (key : String) (v : Value) (ms : List (SetMember Value)) → All (Has key v) ms → AgreeAt ms key
  AgreeAt-of key v ms h = All-map _ _ (λ m k. AgreeWith-trans ms key v m.definition h k) ms h

  AgreeAt-tail :
      (key : String) (m : SetMember Value) (ms : List (SetMember Value))
      → AgreeAt (m ∷ ms) key
      → AgreeAt ms key
  AgreeAt-tail key m ms h = All-map _ _ (λ x k. drop_first x.definition k) ms h.1
    where
      drop_first : (o : Option (String → Value)) → AgreeWith (m ∷ ms) key o → AgreeWith ms key o
      drop_first none k = tt
      drop_first (some d) k = k.1

  AgreeAt-absent :
      (key : String) (m : SetMember Value) (ms : List (SetMember Value))
      → m.definition ≡ none
      → AgreeAt ms key
      → AgreeAt (m ∷ ms) key
  AgreeAt-absent key m ms n h = (
    subst (AgreeWith (m ∷ ms) key) (sym n) tt,
    All-map _ _ (λ x k. add_first x.definition k) ms h,
  )
    where
      add_first : (o : Option (String → Value)) → AgreeWith ms key o → AgreeWith (m ∷ ms) key o
      add_first none k = tt
      add_first (some d) k = (subst (HasIn key (d key)) (sym n) tt, k)

  module _ (same : Value → Value → Bool) (is : (v w : Value) → (same v w ≡ true) ↔ (v ≡ w)) where
    differs_from-Has :
        (key : String) (v : Value) (ms : List (SetMember Value))
        → Decides (not (differs_from same key v ms)) (All (Has key v) ms)
    unfolding differs_from
    differs_from-Has key v [] = (λ q. tt, λ q. absurd (ground (arith, q)))
    differs_from-Has key v (m ∷ ms) =
        let (f, g) = differs_from-Has key v ms in
        elim (Option-cases m.definition) [
          | inl n ↦ rw n (λ q. (tt, f q), λ q h. g q h.1)
          | inr (d, n) ↦ elim (Bool-cases (same v (d key))) [
            | inr t ↦
                rw (n, t)
                  (
                    λ q. absurd (ground (arith, q)),
                    λ q h. absurd (ground (arith, t, (is v (d key)).1 h.0)),
                  )
            | inl t ↦ rw (n, t) (λ q. ((is v (d key)).0 t, f q), λ q h. g q h.1)
          ]
        ]

    differs_in-AgreeAt :
        (key : String) (ms : List (SetMember Value))
        → Decides (not (differs_in same ms key)) (AgreeAt ms key)
    unfolding differs_in
    differs_in-AgreeAt key [] = (λ q. tt, λ q. absurd (ground (arith, q)))
    differs_in-AgreeAt key (m ∷ ms) =
        let (f, g) = differs_in-AgreeAt key ms in
        elim (Option-cases m.definition) [
          | inl n ↦
              let at : not (differs_in same ms key) ≡ not (differs_in same (m ∷ ms) key) =
                rw (differs_in, n) refl in
              (
                λ q. AgreeAt-absent key m ms n (f (at ∙ q)),
                λ q h. g (at ∙ q) (AgreeAt-tail key m ms h),
              )
          | inr (d, n) ↦
              let (f', g') = differs_from-Has key (d key) ms in
              let at : not (differs_from same key (d key) ms) ≡ not (differs_in same (m ∷ ms) key) =
                rw (differs_in, n) refl in
              let here : Has key (d key) m = subst (HasIn key (d key)) (sym n) refl in
              (
                λ q. AgreeAt-of key (d key) (m ∷ ms) (here, f' (at ∙ q)),
                λ q h. g' (at ∙ q) (subst (AgreeWith (m ∷ ms) key) n h.0).1,
              )
        ]

    differing-Agree :
        (ms : List (SetMember Value)) (keys : List String)
        → Decides (is_empty (differing same ms keys)) (All (AgreeAt ms) keys)
    unfolding differing
    differing-Agree ms [] = (λ q. tt, λ q. absurd (ground (arith, q)))
    differing-Agree ms (key ∷ keys) =
        let (f, g) = differing-Agree ms keys in
        let (f', g') = differs_in-AgreeAt key ms in
        elim (Bool-cases (differs_in same ms key)) [
          | inl t ↦ rw t (λ q. absurd (ground (arith, q)), λ q h. g' (ground (arith, t)) h.0)
          | inr t ↦ rw t (λ q. (f' (ground (arith, t)), f q), λ q h. g q h.1)
        ]

    pub disagreement-Agree :
        (ms : List (SetMember Value)) → Decides (is_empty (disagreement same ms)) (Agree ms)
    unfolding disagreement
    disagreement-Agree ms = differing-Agree ms aligned_keys
