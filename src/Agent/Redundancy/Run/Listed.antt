-- ===== src/Agent/Redundancy/Run/Listed.antt =====
-- What an update leaves of the sets that the server keeps.
use mathlib.Core.Path.{subst}
use mxl_k8s.Base.{
  suc, ◌≤◌, ◌≡◌, refl, sym, ap, ◌∙◌, inl, inr, true, false, some, String, List, [], ◌∷◌, arith,
  Bool-cases,
}
use mxl_k8s.Base.Texts.{same_text, same_text_iff, contains_text}
use mxl_k8s.Agent.Redundancy.{FlowSet}
use mxl_k8s.Agent.Redundancy.Run.{find_set, write}

pub find_set-name :
    (name : String) (sets : List FlowSet) (s : FlowSet)
    → find_set name sets ≡ some s
    → s.name ≡ name
unfolding find_set
find_set-name name [] s e = absurd (ground (arith, e))
find_set-name name (x ∷ sets) s e = elim (Bool-cases (same_text x.name name)) [
  | inl q ↦
      let same : x ≡ s = ground (arith, e, q) in
      sym (ap (λ y. y.name) same) ∙ (same_text_iff x.name name).0 q
  | inr q ↦ find_set-name name sets s (ground (arith, e, q))
]

abbrev renewed : FlowSet → FlowSet
renewed u = record u { version = suc u.version }

pub find_set-write :
    (u : FlowSet) (sets : List FlowSet) (cur : FlowSet)
    → find_set u.name sets ≡ some cur
    → find_set u.name (write u sets) ≡ some (renewed u)
unfolding find_set write
find_set-write u [] cur e = absurd (ground (arith, e))
find_set-write u (x ∷ sets) cur e = elim (Bool-cases (same_text x.name u.name)) [
  | inl q ↦ rw (q, (same_text_iff u.name u.name).1 refl) refl
  | inr q ↦ rw (q, q) (find_set-write u sets cur (ground (arith, e, q)))
]

pub find_set-write_other :
    (u : FlowSet) (name : String) (sets : List FlowSet)
    → same_text u.name name ≡ false
    → find_set name (write u sets) ≡ find_set name sets
unfolding find_set write
find_set-write_other u name [] ne = refl
find_set-write_other u name (x ∷ sets) ne = elim (Bool-cases (same_text x.name u.name)) [
  | inl q ↦
      let e : same_text x.name name ≡ false =
        ap (λ y. same_text y name) ((same_text_iff x.name u.name).0 q) ∙ ne in
      rw (q, ne, e) refl
  | inr q ↦ elim (Bool-cases (same_text x.name name)) [
    | inl r ↦ rw (q, r) refl
    | inr r ↦ rw (q, r) (find_set-write_other u name sets ne)
  ]
]

-- The set of that name is there, and lists the node.
abbrev pub IsListed : String → String → List FlowSet → Type 0
IsListed node name store =
    (cur : FlowSet) × (find_set name store ≡ some cur) × (contains_text cur.nodes node ≡ true)

-- What was read of the set: it was a state of that set, and has its nodes where its version still
-- is the newest.
abbrev pub IsState : String → FlowSet → List FlowSet → Type 0
IsState name snap store =
    (snap.name ≡ name)
    × ((cur : FlowSet)
        → find_set name store ≡ some cur
        → (snap.version ≤ cur.version) × (snap.version ≡ cur.version → snap.nodes ≡ cur.nodes))

pub read-IsState :
    (name : String) (store : List FlowSet) (cur : FlowSet)
    → find_set name store ≡ some cur
    → IsState name cur store
read-IsState name store cur e = (
  find_set-name name store cur e,
  λ now e'.
      let same : cur ≡ now = ground (arith, e, e') in
      (omega (arith, ap (λ s. s.version) same), λ v. ap (λ s. s.nodes) same),
)

module _ (u cur : FlowSet) (store : List FlowSet) where
  -- An update with the newest version leaves what was read true.
  pub write-IsState :
      (name : String) (snap : FlowSet)
      → find_set u.name store ≡ some cur
      → u.version ≡ cur.version
      → IsState name snap store
      → IsState name snap (write u store)
  write-IsState name snap e v (same, h) = (
    same,
    λ now e'. elim (Bool-cases (same_text u.name name)) [
      | inl q ↦
          let at = (same_text_iff u.name name).0 q in
          let old : find_set name store ≡ some cur =
            subst (λ x. find_set x store ≡ some cur) at e in
          let new : find_set name (write u store) ≡ some (renewed u) =
            subst (λ x. find_set x (write u store) ≡ some (renewed u)) at
              (find_set-write u store cur e) in
          let is : suc u.version ≡ now.version = ground (arith, new, e') in
          (omega (arith, (h cur old).0), λ x. absurd (omega (arith, (h cur old).0)))
      | inr q ↦ h now (sym (find_set-write_other u name store q) ∙ e')
    ],
  )

  -- An update that keeps the node listed, or is of another set, leaves a set listing it.
  pub write-IsListed :
      (node name : String)
      → find_set u.name store ≡ some cur
      → (u.name ≡ name → contains_text cur.nodes node ≡ true → contains_text u.nodes node ≡ true)
      → IsListed node name store
      → IsListed node name (write u store)
  write-IsListed node name e keeps (s, f, l) = elim (Bool-cases (same_text u.name name)) [
    | inl q ↦
        let at = (same_text_iff u.name name).0 q in
        let old : find_set name store ≡ some cur = subst (λ x. find_set x store ≡ some cur) at e in
        let same : s ≡ cur = ground (arith, old, f) in
        (
          renewed u,
          subst (λ x. find_set x (write u store) ≡ some (renewed u)) at
              (find_set-write u store cur e),
          keeps at (ap (λ x. contains_text x.nodes node) (sym same) ∙ l),
        )
    | inr q ↦ (s, find_set-write_other u name store q ∙ f, l)
  ]
