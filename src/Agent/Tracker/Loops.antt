-- ===== src/Agent/Tracker/Loops.antt =====
-- The loops of `Sync`, by what they leave running for a name.
use mathlib.Core.Path.{subst}
use mxl_k8s.Base.{
  ℕ, ◌≡◌, refl, sym, ap, ◌∙◌, inl, inr, true, false, Option, none, some, String, List, [], ◌∷◌,
  Bool-cases, Option-cases, if◌then◌else◌,
}
use mxl_k8s.Base.Texts.{same_text, same_text_iff}
use mxl_k8s.Agent.Tracker.{Entry, lookup, is_stale, stop_stale, start_one, start_missing}

-- No key has two entries.
abbrev pub IsMap : {A : Type 0} → List (String × A) → Type 0
IsMap [] = Unit
IsMap ((k, a) ∷ es) = (lookup k es ≡ none) × IsMap es

pub lookup_here :
    {A : Type 0} (name k : String) (a : A) (es : List (String × A))
    → same_text k name ≡ true
    → lookup name ((k, a) ∷ es) ≡ some a
unfolding lookup
lookup_here name k a es q = rw (lookup, q) refl

pub lookup_past :
    {A : Type 0} (name k : String) (a : A) (es : List (String × A))
    → same_text k name ≡ false
    → lookup name ((k, a) ∷ es) ≡ lookup name es
unfolding lookup
lookup_past name k a es q = rw (lookup, q) refl

-- Where the names are one, nothing later is of it.
lookup_later :
    {A : Type 0} (name k : String) (es : List (String × A))
    → same_text k name ≡ true
    → lookup k es ≡ none
    → lookup name es ≡ none
lookup_later name k es q h = subst (λ x. lookup x es ≡ none) ((same_text_iff k name).0 q) h

module _ (start : String → String → Option ℕ) (primary : String)
    (domains : List (String × String)) where
  abbrev pub still : String → Option Entry → Option Entry
  still name none = none
  still name (some e) = if is_stale primary domains name e then none else some e

  still_stale :
      (name : String) (e : Entry)
      → is_stale primary domains name e ≡ true
      → still name (some e) ≡ none
  still_stale name e s = rw s refl

  pub still_running :
      (name : String) (e : Entry)
      → is_stale primary domains name e ≡ false
      → still name (some e) ≡ some e
  still_running name e s = rw s refl

  pub stop_stale-still :
      (name : String) (running : List (String × Entry))
      → IsMap running
      → lookup name (stop_stale primary domains running).0 ≡ still name (lookup name running)
  unfolding stop_stale
  stop_stale-still name [] h = unfold lookup in refl
  stop_stale-still name ((k, e) ∷ running) h =
      let r = stop_stale-still name running h.1 in
      let kept = (stop_stale primary domains running).0 in
      let here : same_text k name ≡ true → lookup name kept ≡ none =
        λ q. r ∙ ap (still name) (lookup_later name k running q h.0) in
      let past : same_text k name ≡ false
          → lookup name kept ≡ still name (lookup name ((k, e) ∷ running)) =
        λ q. r ∙ ap (still name) (sym (lookup_past name k e running q)) in
      elim (Bool-cases (is_stale primary domains k e)) [
        | inl s ↦
            let runs : (stop_stale primary domains ((k, e) ∷ running)).0 ≡ kept =
              rw (stop_stale, s) refl in
            ap (lookup name) runs ∙ (elim (Bool-cases (same_text k name)) [
              | inr q ↦ past q
              | inl q ↦
                  here q
                  ∙ sym (
                      ap (still name) (lookup_here name k e running q)
                      ∙ still_stale name e (
                          subst (λ x. is_stale primary domains x e ≡ true)
                            ((same_text_iff k name).0 q) s))
            ])
        | inr s ↦
            let runs : (stop_stale primary domains ((k, e) ∷ running)).0 ≡ (k, e) ∷ kept =
              rw (stop_stale, s) refl in
            ap (lookup name) runs ∙ (elim (Bool-cases (same_text k name)) [
              | inr q ↦ lookup_past name k e kept q ∙ past q
              | inl q ↦
                  lookup_here name k e kept q
                  ∙ sym (
                      ap (still name) (lookup_here name k e running q)
                      ∙ still_running name e (
                          subst (λ x. is_stale primary domains x e ≡ false)
                            ((same_text_iff k name).0 q) s))
            ])
      ]

  -- What runs for a name, from what ran for it and the domain it now is.
  abbrev pub filled : String → Option String → Option Entry → Option Entry
  filled name none o = o
  filled name (some dir) (some e) = some e
  filled name (some dir) none =
      if same_text dir primary
      then none
      else elim (start name dir) [ none ↦ none | some t ↦ some (record { dir = dir; tracker = t }) ]

  filled_primary :
      (name dir : String) → same_text dir primary ≡ true → filled name (some dir) none ≡ none
  filled_primary name dir p = rw p refl

  filled_failed :
      (name dir : String)
      → same_text dir primary ≡ false
      → start name dir ≡ none
      → filled name (some dir) none ≡ none
  filled_failed name dir p t = rw (p, t) refl

  filled_started :
      (name dir : String) (t : ℕ)
      → same_text dir primary ≡ false
      → start name dir ≡ some t
      → filled name (some dir) none ≡ some (record { dir = dir; tracker = t })
  filled_started name dir t p e = rw (p, e) refl

  -- The call leaves what runs.
  left_as :
      (name dir : String) (running : List (String × Entry)) (o : Option Entry)
      → start_one start primary name dir running ≡ running
      → lookup name running ≡ o
      → filled name (some dir) o ≡ o
      → lookup name (start_one start primary name dir running)
        ≡ filled name (some dir) (lookup name running)
  left_as name dir running o runs q f =
      ap (lookup name) runs ∙ q ∙ sym (ap (filled name (some dir)) q ∙ f)

  start_one-here :
      (name dir : String) (running : List (String × Entry))
      → lookup name (start_one start primary name dir running)
        ≡ filled name (some dir) (lookup name running)
  unfolding start_one
  start_one-here name dir running = elim (Option-cases (lookup name running)) [
    | inr (e, q) ↦ elim (Bool-cases (same_text dir primary)) [
      | inl p ↦ left_as name dir running (some e) (rw (start_one, p) refl) q refl
      | inr p ↦ left_as name dir running (some e) (rw (start_one, p, q) refl) q refl
    ]
    | inl q ↦ elim (Bool-cases (same_text dir primary)) [
      | inl p ↦ left_as name dir running none (rw (start_one, p) refl) q (filled_primary name dir p)
      | inr p ↦ elim (Option-cases (start name dir)) [
        | inl t ↦
            left_as name dir running none (rw (start_one, p, q, t) refl) q
              (filled_failed name dir p t)
        | inr (t, e) ↦
            let new : Entry = record { dir = dir; tracker = t } in
            let runs : start_one start primary name dir running ≡ (name, new) ∷ running =
              rw (start_one, p, q, e) refl in
            ap (lookup name) runs
            ∙ lookup_here name name new running ((same_text_iff name name).1 refl)
            ∙ sym (ap (filled name (some dir)) q ∙ filled_started name dir t p e)
      ]
    ]
  ]

  start_one-past :
      (name k dir : String) (running : List (String × Entry))
      → same_text k name ≡ false
      → lookup name (start_one start primary k dir running) ≡ lookup name running
  unfolding start_one
  start_one-past name k dir running n = elim (Bool-cases (same_text dir primary)) [
    | inl p ↦ rw (start_one, p) refl
    | inr p ↦ elim (Option-cases (lookup k running)) [
      | inr (e, q) ↦ rw (start_one, p, q) refl
      | inl q ↦ elim (Option-cases (start k dir)) [
        | inl t ↦ rw (start_one, p, q, t) refl
        | inr (t, e) ↦
            let new : Entry = record { dir = dir; tracker = t } in
            let runs : start_one start primary k dir running ≡ (k, new) ∷ running =
              rw (start_one, p, q, e) refl in
            ap (lookup name) runs ∙ lookup_past name k new running n
      ]
    ]
  ]

  pub start_missing-filled :
      (name : String) (ds : List (String × String)) (running : List (String × Entry))
      → IsMap ds
      → lookup name (start_missing start primary ds running)
        ≡ filled name (lookup name ds) (lookup name running)
  unfolding start_missing
  start_missing-filled name [] running h = unfold lookup in refl
  start_missing-filled name ((k, dir) ∷ ds) running h =
      let next = start_one start primary k dir running in
      let r = start_missing-filled name ds next h.1 in
      elim (Bool-cases (same_text k name)) [
        | inr q ↦
            r
            ∙ ap (filled name (lookup name ds)) (start_one-past name k dir running q)
            ∙ ap (λ o. filled name o (lookup name running)) (sym (lookup_past name k dir ds q))
        | inl q ↦
            r
            ∙ ap (λ o. filled name o (lookup name next)) (lookup_later name k ds q h.0)
            ∙ subst
                (λ x.
                  lookup name (start_one start primary x dir running)
                  ≡ filled name (some dir) (lookup name running))
                (sym ((same_text_iff k name).0 q)) (start_one-here name dir running)
            ∙ ap (λ o. filled name o (lookup name running)) (sym (lookup_here name k dir ds q))
      ]

  abbrev pub started : String → String → Option Entry
  started name dir = elim (start name dir) [
    | none ↦ none
    | some t ↦ some (record { dir = dir; tracker = t })
  ]

  abbrev pub kept_or_started : String → String → Option Entry → Option Entry
  kept_or_started name dir none = started name dir
  kept_or_started name dir (some e) = if same_text dir e.dir then some e else started name dir

  -- What is to run for a name that has a domain or none: nothing for the primary directory; the
  -- tracker that ran in the domain's directory; otherwise a new one, where it starts.
  abbrev pub expected : String → Option String → Option Entry → Option Entry
  expected name none o = none
  expected name (some dir) o = if same_text dir primary then none else kept_or_started name dir o

  filled_fresh :
      (name dir : String)
      → same_text dir primary ≡ false
      → filled name (some dir) none ≡ started name dir
  filled_fresh name dir p = rw p refl

  pub filled-expected :
      (name : String) (d : Option String) (o : Option Entry)
      → lookup name domains ≡ d
      → filled name d (still name o) ≡ expected name d o
  unfolding is_stale
  filled-expected name none none q = refl
  filled-expected name none (some e) q = rw (is_stale, q) refl
  filled-expected name (some dir) none q = refl
  filled-expected name (some dir) (some e) q = elim (Bool-cases (same_text dir primary)) [
    | inl p ↦ elim (Bool-cases (same_text dir e.dir)) [
      | inl m ↦ rw (is_stale, q, p, m) (filled_primary name dir p)
      | inr m ↦ rw (is_stale, q, p, m) (filled_primary name dir p)
    ]
    | inr p ↦ elim (Bool-cases (same_text dir e.dir)) [
      | inl m ↦ rw (is_stale, q, p, m) refl
      | inr m ↦ rw (is_stale, q, p, m) (filled_fresh name dir p)
    ]
  ]
