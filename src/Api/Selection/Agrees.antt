-- ===== src/Api/Selection/Agrees.antt =====
-- `Resolve` and `Supported` against what the two nodes advertise.
use mathlib.Core.Path.{subst}
use mxl_k8s.Base.{
  ◌≡◌, refl, sym, ap, ◌∙◌, ◌⊎◌, inl, inr, Bool, true, false, not, ◌&&◌, ◌||◌, none, some, String,
  List, [], ◌∷◌, arith, length, Bool-cases, ◌==◌, if◌then◌else◌,
}
use mxl_k8s.Base.Int.{pos, leb_ℤ}
use mxl_k8s.Base.Texts.{same_text, same_text_iff, contains_text}
use mxl_k8s.Api.Selection.{
  provider_efa, provider_verbs, provider_tcp, provider_auto, cross_node_preference, Capability,
  Status, Advice, fine, capabilities_unknown, no_common_provider, add_name, add_known, collect,
  provider_set, first_common, resolve, supported,
}

-- The node lists the provider, with a device where it reports a probe.
abbrev pub offers : Bool → List Capability → String → Bool
offers probed [] p = false
offers probed (c ∷ cs) p =
    (same_text c.name p && not (probed && leb_ℤ c.device_count (pos 0))) || offers probed cs p

-- A name added is there, and the others stay.
contains-add_name :
    (name p : String) (names : List String)
    → contains_text (add_name name names) p ≡ (same_text name p || contains_text names p)
unfolding add_name
contains-add_name name p names = elim (Bool-cases (contains_text names name)) [
  | inr q ↦ rw q (if_or (same_text name p) (contains_text names p))
  | inl q ↦ elim (Bool-cases (same_text name p)) [
    | inr e ↦ rw (q, e) refl
    | inl e ↦
        let same : name ≡ p = (same_text_iff name p).0 e in
        rw (q, e) (ap (contains_text names) (sym same) ∙ q)
  ]
]
  where
    if_or : (a b : Bool) → (if a then true else b) ≡ (a || b)
    if_or true b = refl
    if_or false b = refl

or_and : (a b c d : Bool) → ((a && b) || ((a && c) || d)) ≡ ((a && (b || c)) || d)
or_and a b c d = ground arith

-- The inner loop adds the name where it is known.
contains-add_known :
    (name p : String) (known names : List String)
    → contains_text (add_known name known names) p
      ≡ ((same_text name p && contains_text known p) || contains_text names p)
unfolding add_known
contains-add_known name p [] names = ground arith
contains-add_known name p (k ∷ known) names = elim (Bool-cases (same_text name k)) [
  | inr q ↦
      rw (q, contains-add_known name p known names)
        (ground (arith, same_text_iff name p, same_text_iff name k, same_text_iff k p))
  | inl q ↦
      rw (q, contains-add_known name p known (add_name name names), contains-add_name name p names)
        (ground (arith, same_text_iff name p, same_text_iff name k, same_text_iff k p))
]

collected :
    (offered rest known names : Bool)
    → ((rest && known) || ((offered && known) || names)) ≡ (((offered || rest) && known) || names)
collected offered rest known names = ground arith

contains-collect :
    (probed : Bool) (p : String) (cs : List Capability) (names : List String)
    → contains_text (collect probed cs names) p
      ≡ ((offers probed cs p && contains_text cross_node_preference p) || contains_text names p)
unfolding collect
contains-collect probed p [] names = refl
contains-collect probed p (c ∷ cs) names =
    elim (Bool-cases (probed && leb_ℤ c.device_count (pos 0))) [
      | inl q ↦ rw (q, contains-collect probed p cs names) (ground arith)
      | inr q ↦
          rw
            (
              q,
              contains-collect probed p cs (add_known c.name cross_node_preference names),
              contains-add_known c.name p cross_node_preference names,
            )
            (ground arith)
    ]

-- A provider is in a node's set exactly where the node offers it and it spans two nodes.
contains-provider_set :
    (s : Status) (p : String)
    → contains_text (provider_set s) p
      ≡ (offers s.probed s.providers p && contains_text cross_node_preference p)
unfolding provider_set
contains-provider_set s p = contains-collect s.probed p s.providers [] ∙ or_false _
  where
    or_false : (b : Bool) → (b || false) ≡ b
    or_false true = refl
    or_false false = refl

-- Both nodes offer the provider.
abbrev pub shared : Status → Status → String → Bool
shared s t p = offers s.probed s.providers p && offers t.probed t.providers p

-- The node offers none of the providers that span two nodes.
abbrev pub OffersNone : Status → Type 0
OffersNone s =
    (offers s.probed s.providers provider_efa ≡ false)
    × (offers s.probed s.providers provider_verbs ≡ false)
    × (offers s.probed s.providers provider_tcp ≡ false)

-- What `Resolve` answers, by what the nodes offer.
abbrev pub IsResolved : Status → Status → String × Advice → Type 0
IsResolved s t (p, fine) =
    (shared s t p ≡ true)
    × ((p ≡ provider_efa)
        ⊎ ((p ≡ provider_verbs) × (shared s t provider_efa ≡ false))
        ⊎ ((p ≡ provider_tcp)
            × (shared s t provider_efa ≡ false)
            × (shared s t provider_verbs ≡ false)))
IsResolved s t (p, capabilities_unknown) = (p ≡ provider_tcp) × (OffersNone s ⊎ OffersNone t)
IsResolved s t (p, no_common_provider) =
    (p ≡ provider_tcp)
    × (¬ OffersNone s × ¬ OffersNone t)
    × (shared s t provider_efa ≡ false)
    × (shared s t provider_verbs ≡ false)
    × (shared s t provider_tcp ≡ false)

empty-OffersNone : (s : Status) → (length (provider_set s) == 0) ≡ true → OffersNone s
empty-OffersNone s q = (at provider_efa refl, at provider_verbs refl, at provider_tcp refl)
  where
    gone :
        (names : List String) (p : String)
        → (length names == 0) ≡ true
        → contains_text names p ≡ false
    gone [] p q = refl
    gone (n ∷ names) p q = absurd (ground (arith, q))

    at :
        (p : String)
        → contains_text cross_node_preference p ≡ true
        → offers s.probed s.providers p ≡ false
    at p k = drop_known _ _ k (sym (contains-provider_set s p) ∙ gone (provider_set s) p q)
      where
        drop_known : (a b : Bool) → b ≡ true → (a && b) ≡ false → a ≡ false
        drop_known a b e f = ground arith

-- A name of the preference is one of its three.
preferred_cases :
    (p : String)
    → contains_text cross_node_preference p ≡ true
    → (p ≡ provider_efa) ⊎ (p ≡ provider_verbs) ⊎ (p ≡ provider_tcp)
preferred_cases p q = elim (Bool-cases (same_text provider_efa p)) [
  | inl e ↦ inl (sym ((same_text_iff provider_efa p).0 e))
  | inr e ↦ elim (Bool-cases (same_text provider_verbs p)) [
    | inl v ↦ inr (inl (sym ((same_text_iff provider_verbs p).0 v)))
    | inr v ↦ elim (Bool-cases (same_text provider_tcp p)) [
      | inl c ↦ inr (inr (sym ((same_text_iff provider_tcp p).0 c)))
      | inr c ↦ absurd (ground (arith, q, e, v, c))
    ]
  ]
]

-- A set with a provider is of a node that offers one of the three.
nonempty-OffersNone : (s : Status) → (length (provider_set s) == 0) ≡ false → ¬ OffersNone s
nonempty-OffersNone s q (e, v, c) = first (provider_set s) refl q
  where
    refuse : (a b : Bool) → true ≡ (a && b) → a ≡ false → ⊥
    refuse a b h f = ground (arith, h, f)

    known : (a b : Bool) → true ≡ (a && b) → b ≡ true
    known a b h = ground (arith, h)

    none_of :
        (p : String)
        → true ≡ (offers s.probed s.providers p && contains_text cross_node_preference p)
        → (p ≡ provider_efa) ⊎ (p ≡ provider_verbs) ⊎ (p ≡ provider_tcp)
        → ⊥
    none_of p h (inl r) = refuse _ _ h (ap (offers s.probed s.providers) r ∙ e)
    none_of p h (inr (inl r)) = refuse _ _ h (ap (offers s.probed s.providers) r ∙ v)
    none_of p h (inr (inr r)) = refuse _ _ h (ap (offers s.probed s.providers) r ∙ c)

    holds : (p : String) (names : List String) → contains_text (p ∷ names) p ≡ true
    holds p names = ground (arith, same_text_iff p p)

    first : (names : List String) → provider_set s ≡ names → (length names == 0) ≡ false → ⊥
    first [] r n = absurd (ground (arith, n))
    first (p ∷ names) r n =
        let h : true ≡ (offers s.probed s.providers p && contains_text cross_node_preference p) =
          sym (holds p names) ∙ ap (λ x. contains_text x p) (sym r) ∙ contains-provider_set s p in
        none_of p h (preferred_cases p (known _ _ h))

known-shared :
    (s t : Status) (p : String)
    → contains_text cross_node_preference p ≡ true
    → (contains_text (provider_set s) p && contains_text (provider_set t) p) ≡ shared s t p
known-shared s t p k = rw (contains-provider_set s p, contains-provider_set t p, k) (and_true _ _)
  where
    and_true : (a b : Bool) → ((a && true) && (b && true)) ≡ (a && b)
    and_true a b = ground arith

common-IsResolved :
    (s t : Status)
    → ¬ OffersNone s × ¬ OffersNone t
    → IsResolved s t (elim (first_common cross_node_preference (provider_set s) (provider_set t)) [
      | some p ↦ (p, fine)
      | none ↦ (provider_tcp, no_common_provider)
    ])
unfolding first_common
common-IsResolved s t some_each =
    rw
      (
        known-shared s t provider_efa refl,
        known-shared s t provider_verbs refl,
        known-shared s t provider_tcp refl,
      )
      (elim (Bool-cases (shared s t provider_efa)) [
        | inl e ↦ rw e (e, inl refl)
        | inr e ↦ elim (Bool-cases (shared s t provider_verbs)) [
          | inl v ↦ rw (e, v) (v, inr (inl (refl, e)))
          | inr v ↦ elim (Bool-cases (shared s t provider_tcp)) [
            | inl c ↦ rw (e, v, c) (c, inr (inr (refl, e, v)))
            | inr c ↦ rw (e, v, c) (refl, some_each, e, v, c)
          ]
        ]
      ])

-- `Resolve` answers the most preferred of efa, verbs and tcp that both nodes offer: list, and have
-- a device for where the node reports a probe. Otherwise it answers tcp and says which of two
-- reasons it was: a node offers none of the three, or each offers one and no one is offered by
-- both.
pub resolve-IsResolved : (s t : Status) → IsResolved s t (resolve s t)
unfolding resolve
resolve-IsResolved s t =
    elim (Bool-cases (length (provider_set s) == 0 || length (provider_set t) == 0)) [
      | inr q ↦ rw q (
          common-IsResolved s t
            (nonempty-OffersNone s (neither q).0, nonempty-OffersNone t (neither q).1))
      | inl q ↦ rw q (
        refl,
        elim (Bool-cases (length (provider_set s) == 0)) [
          | inl e ↦ inl (empty-OffersNone s e)
          | inr e ↦ inr (empty-OffersNone t (ground (arith, q, e)))
        ],
      )
    ]
  where
    neither : {a b : Bool} → (a || b) ≡ false → (a ≡ false) × (b ≡ false)
    neither {a} {b} q = ground (arith, q)

both_true : (a b : Bool) → a ≡ true → b ≡ true → (a && b) ≡ true
both_true a b p q = ground arith

picked :
    (p : String)
    → (p ≡ provider_efa) ⊎ (p ≡ provider_verbs) ⊎ (p ≡ provider_tcp)
    → contains_text cross_node_preference p ≡ true
picked p (inl e) = rw e refl
picked p (inr (inl e)) = rw e refl
picked p (inr (inr e)) = rw e refl

unspanning :
    (p : String) → (p ≡ "") ⊎ (p ≡ provider_auto) → contains_text cross_node_preference p ≡ false
unspanning p (inl e) = rw e refl
unspanning p (inr e) = rw e refl

supported-shared :
    (s t : Status) (p : String)
    → supported s t p ≡ (contains_text cross_node_preference p && shared s t p)
unfolding supported
supported-shared s t p = elim (Bool-cases (same_text p "" || same_text p provider_auto)) [
  | inr q ↦
      rw (q, contains-provider_set s p, contains-provider_set t p)
        (regroup (offers s.probed s.providers p) (offers t.probed t.providers p)
          (contains_text cross_node_preference p))
  | inl q ↦ rw (q, unspanning p (which q (Bool-cases (same_text p "")))) refl
]
  where
    regroup : (a b k : Bool) → ((a && k) && (b && k)) ≡ (k && (a && b))
    regroup a b k = ground arith

    or_right : (a b : Bool) → (a || b) ≡ true → a ≡ false → b ≡ true
    or_right a b p q = ground arith

    which :
        (same_text p "" || same_text p provider_auto) ≡ true
        → (same_text p "" ≡ true) ⊎ (same_text p "" ≡ false)
        → (p ≡ "") ⊎ (p ≡ provider_auto)
    which h (inl e) = inl ((same_text_iff p "").0 e)
    which h (inr e) = inr ((same_text_iff p provider_auto).0 (or_right _ _ h e))

-- A provider that `Resolve` picks without advice is one that `Supported` accepts for the two nodes,
-- and `Supported` accepts exactly the providers that span two nodes and both offer.
pub supported-resolve :
    (s t : Status) (p : String)
    → (supported s t p ≡ (contains_text cross_node_preference p && shared s t p))
      × (resolve s t ≡ (p, fine) → supported s t p ≡ true)
unfolding supported
supported-resolve s t p =
    (supported-shared s t p, λ e. resolved (subst (IsResolved s t) e (resolve-IsResolved s t)))
  where
    preferred :
        (p ≡ provider_efa)
          ⊎ ((p ≡ provider_verbs) × (shared s t provider_efa ≡ false))
          ⊎ ((p ≡ provider_tcp)
              × (shared s t provider_efa ≡ false)
              × (shared s t provider_verbs ≡ false))
        → (p ≡ provider_efa) ⊎ (p ≡ provider_verbs) ⊎ (p ≡ provider_tcp)
    preferred (inl e) = inl e
    preferred (inr (inl (e, _))) = inr (inl e)
    preferred (inr (inr (e, _, _))) = inr (inr e)

    resolved : IsResolved s t (p, fine) → supported s t p ≡ true
    resolved (sh, which) = supported-shared s t p ∙ both_true _ _ (picked p (preferred which)) sh
