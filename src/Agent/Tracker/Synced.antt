-- ===== src/Agent/Tracker/Synced.antt =====
-- What `Sync` leaves running.
use mathlib.Core.Path.{subst}
use mxl_k8s.Base.{
  ℕ, ◌↔◌, ◌≡◌, ◌≢◌, refl, sym, ap, ◌∙◌, ◌⊎◌, inl, inr, true, false, Option, none, some, String,
  List, [], ◌∷◌, arith, Bool-cases, Option-cases,
}
use mxl_k8s.Base.Texts.{same_text, same_text_iff}
use mxl_k8s.Agent.Tracker.{Entry, lookup, is_stale, stop_stale, start_missing, sync, is_tracked}
use mxl_k8s.Agent.Tracker.Loops.{
  IsMap, lookup_here, lookup_past, still, still_running, stop_stale-still, filled,
  start_missing-filled, expected, filled-expected,
}

abbrev pub IsIn : ℕ → List ℕ → Type 0
IsIn n [] = ⊥
IsIn n (m ∷ ms) = (m ≡ n) ⊎ IsIn n ms

stop_stale-IsIn :
    (primary : String) (domains : List (String × String)) (name : String) (e : Entry)
    (running : List (String × Entry))
    → lookup name running ≡ some e
    → is_stale primary domains name e ≡ true
    → IsIn e.tracker (stop_stale primary domains running).1
unfolding stop_stale lookup
stop_stale-IsIn primary domains name e [] q s = absurd (ground (arith, q))
stop_stale-IsIn primary domains name e ((k, f) ∷ running) q s =
    let rest = (stop_stale primary domains running).1 in
    elim (Bool-cases (same_text k name)) [
      | inl n ↦
          let same : f ≡ e = ground (arith, sym (lookup_here name k f running n) ∙ q) in
          let at_name : is_stale primary domains name f ≡ true =
            ap (is_stale primary domains name) same ∙ s in
          let stale : is_stale primary domains k f ≡ true =
            subst (λ x. is_stale primary domains x f ≡ true) (sym ((same_text_iff k name).0 n))
              at_name in
          let runs : f.tracker ∷ rest ≡ (stop_stale primary domains ((k, f) ∷ running)).1 =
            rw (stop_stale, stale) refl in
          subst (IsIn e.tracker) runs (inl (ap (λ x. x.tracker) same))
      | inr n ↦
          let further =
            stop_stale-IsIn primary domains name e running
              (sym (lookup_past name k f running n) ∙ q) s in
          elim (Bool-cases (is_stale primary domains k f)) [
            | inl t ↦
                let runs : f.tracker ∷ rest ≡ (stop_stale primary domains ((k, f) ∷ running)).1 =
                  rw (stop_stale, t) refl in
                subst (IsIn e.tracker) runs (inr further)
            | inr t ↦
                let runs : rest ≡ (stop_stale primary domains ((k, f) ∷ running)).1 =
                  rw (stop_stale, t) refl in
                subst (IsIn e.tracker) runs further
          ]
    ]

-- What ran for the name is not to run on: the domain is gone, or its directory is another one or
-- the primary one.
abbrev pub IsOver : String → List (String × String) → String → Entry → Type 0
IsOver primary domains name e =
    (lookup name domains ≡ none)
    ⊎ ((dir : String) × (lookup name domains ≡ some dir) × ((dir ≢ e.dir) ⊎ (dir ≡ primary)))

is_stale-IsOver :
    (primary : String) (domains : List (String × String)) (name : String) (e : Entry)
    → is_stale primary domains name e ≡ true
    → IsOver primary domains name e
unfolding is_stale
is_stale-IsOver primary domains name e s = elim (Option-cases (lookup name domains)) [
  | inl q ↦ inl q
  | inr (dir, q) ↦ elim (Bool-cases (same_text dir primary)) [
    | inl p ↦ inr (dir, q, inr ((same_text_iff dir primary).0 p))
    | inr p ↦
        inr (dir, q, inl (λ m. absurd (ground (arith, s, q, p, (same_text_iff dir e.dir).1 m))))
  ]
]

-- The tracker of an entry that is not to run on.
abbrev pub WasOver : String → List (String × String) → List (String × Entry) → ℕ → Type 0
WasOver primary domains running t =
    (name : String) × (e : Entry) × (lookup name running ≡ some e)
    × (e.tracker ≡ t)
    × IsOver primary domains name e

WasOver-past :
    (primary : String) (domains : List (String × String)) (k : String) (f : Entry)
    (running : List (String × Entry)) (t : ℕ)
    → lookup k running ≡ none
    → WasOver primary domains running t
    → WasOver primary domains ((k, f) ∷ running) t
WasOver-past primary domains k f running t h (name, e, q, same, over) =
    elim (Bool-cases (same_text k name)) [
      | inl n ↦
          let twice : lookup name running ≡ none =
            subst (λ x. lookup x running ≡ none) ((same_text_iff k name).0 n) h in
          absurd (ground (arith, q, twice))
      | inr n ↦ (name, e, lookup_past name k f running n ∙ q, same, over)
    ]

stop_stale-WasOver :
    (primary : String) (domains : List (String × String)) (running : List (String × Entry)) (t : ℕ)
    → IsMap running
    → IsIn t (stop_stale primary domains running).1
    → WasOver primary domains running t
unfolding stop_stale
stop_stale-WasOver primary domains [] t h i = absurd i
stop_stale-WasOver primary domains ((k, f) ∷ running) t h i =
    let rest = (stop_stale primary domains running).1 in
    let past : IsIn t rest → WasOver primary domains ((k, f) ∷ running) t = λ j.
      WasOver-past primary domains k f running t h.0
        (stop_stale-WasOver primary domains running t h.1 j) in
    elim (Bool-cases (is_stale primary domains k f)) [
      | inr s ↦
          let runs : (stop_stale primary domains ((k, f) ∷ running)).1 ≡ rest =
            rw (stop_stale, s) refl in
          past (subst (IsIn t) runs i)
      | inl s ↦
          let runs : (stop_stale primary domains ((k, f) ∷ running)).1 ≡ f.tracker ∷ rest =
            rw (stop_stale, s) refl in
          elim (subst (IsIn t) runs i) [
            | inr j ↦ past j
            | inl e ↦ (
              k,
              f,
              lookup_here k k f running ((same_text_iff k k).1 refl),
              e,
              is_stale-IsOver primary domains k f s,
            )
          ]
    ]

is_tracked_iff :
    (running : List (String × Entry)) (name : String)
    → (is_tracked running name ≡ true) ↔ ((e : Entry) × (lookup name running ≡ some e))
unfolding is_tracked
is_tracked_iff running name = elim (Option-cases (lookup name running)) [
  | inl q ↦
      let untracked : is_tracked running name ≡ false = rw (is_tracked, q) refl in
      (λ t. absurd (ground (arith, t, untracked)), λ x. absurd (ground (arith, sym q ∙ x.1)))
  | inr (e, q) ↦
      let tracked : is_tracked running name ≡ true = rw (is_tracked, q) refl in
      (λ t. (e, q), λ x. tracked)
]

-- Where neither map has two entries of a key, in whichever order the loops take them: after
-- `Sync`, for each name there runs what is expected: nothing where the domain is gone or in the
-- primary directory; the tracker that ran, where it ran in the domain's directory; otherwise a new
-- one, where it starts. A tracker that ran either runs on or was stopped, and those stopped are
-- only trackers that ran for a name whose domain is gone, in another directory or in the primary
-- one. `Tracked` answers whether one runs.
pub sync-expected :
    (start : String → String → Option ℕ) (primary : String) (domains : List (String × String))
    (running : List (String × Entry)) (name : String)
    → IsMap domains
    → IsMap running
    → (lookup name (sync start primary domains running).0
        ≡ expected start primary domains name (lookup name domains) (lookup name running))
      × ((e : Entry)
          → lookup name running ≡ some e
          → (lookup name (sync start primary domains running).0 ≡ some e)
            ⊎ IsIn e.tracker (sync start primary domains running).1)
      × ((t : ℕ)
          → IsIn t (sync start primary domains running).1
          → WasOver primary domains running t)
      × ((is_tracked (sync start primary domains running).0 name ≡ true)
          ↔ ((e : Entry) × (lookup name (sync start primary domains running).0 ≡ some e)))
unfolding sync is_tracked is_stale
sync-expected start primary domains running name h k =
    let kept = (stop_stale primary domains running).0 in
    let out = start_missing start primary domains kept in
    let fills =
      start_missing-filled start primary domains name domains kept h
      ∙ ap (filled start primary domains name (lookup name domains))
          (stop_stale-still start primary domains name running k) in
    (
      fills
          ∙ filled-expected start primary domains name (lookup name domains) (lookup name running)
              refl,
      λ e q. elim (Bool-cases (is_stale primary domains name e)) [
        | inl s ↦ inr (stop_stale-IsIn primary domains name e running q s)
        | inr s ↦ inl (
            fills
            ∙ ap
                (λ o.
                  filled start primary domains name (lookup name domains)
                    (still start primary domains name o))
                q
            ∙ ap (filled start primary domains name (lookup name domains))
                (still_running start primary domains name e s)
            ∙ runs_on e s (lookup name domains) refl)
      ],
      λ t i. stop_stale-WasOver primary domains running t k i,
      is_tracked_iff out name,
    )
  where
    runs_on :
        (e : Entry)
        → is_stale primary domains name e ≡ false
        → (d : Option String) → lookup name domains ≡ d
        → filled start primary domains name d (some e) ≡ some e
    runs_on e s none q =
        let stale : is_stale primary domains name e ≡ true = rw (is_stale, q) refl in
        absurd (ground (arith, sym stale ∙ s))
    runs_on e s (some dir) q = refl
