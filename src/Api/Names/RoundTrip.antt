-- ===== src/Api/Names/RoundTrip.antt =====
-- The names of flows and Leases, built and parsed.
use mathlib.Core.Path.{subst}
use mxl_k8s.Base.{
  ℕ, ◌≤◌, ◌<◌, ◌≡◌, ◌≢◌, refl, sym, ap, ◌∙◌, inl, inr, ◌↔◌, Bool, true, false, not, ◌&&◌, none,
  some, [], ◌∷◌, ◌++◌, arith, length, length-append, ltb, ◌==◌, ==_iff, get_elem?, Bool-cases,
  Option-cases,
}
use mxl_k8s.Api.Names.{
  Bytes, dash, lease_name_prefix, is_flow_id, lease_name, cut_prefix, take, skip, starts_lease,
  parse_lease_name,
}
use mxl_k8s.Api.Names.Parts.{
  is_flow_id-IsPlain, cut_prefix-append, cut_prefix-some, take-append, skip-append,
  get_elem?-append, take-skip, length-skip,
}

ltb_long : (n : ℕ) → 38 ≤ n → ltb n 38 ≡ false
ltb_long n h = ground arith

long_ltb : (n : ℕ) → ltb n 38 ≡ false → 37 < n
long_ltb n h = ground (arith, h)

some_byte : (s : Bytes) → s ≢ [] → 0 < length s
some_byte [] h = absurd (h refl)
some_byte (b ∷ s) h = omega arith

pub starts_lease-append :
    (id node : Bytes) → is_flow_id id ≡ true → node ≢ [] → starts_lease (id ++ (dash ∷ node)) ≡ true
unfolding starts_lease
starts_lease-append id node h ne =
    let l : length id ≡ 36 = (is_flow_id-IsPlain id h).0 in
    let long : ltb (length (id ++ (dash ∷ node))) 38 ≡ false =
      ltb_long (length (id ++ (dash ∷ node)))
        (omega (arith, l, length-append id (dash ∷ node), some_byte node ne)) in
    rw (starts_lease, long, get_elem?-append id node dash 36 l, take-append id (dash ∷ node) 36 l) h

parse_from :
    (name rest : Bytes)
    → cut_prefix lease_name_prefix name ≡ some rest
    → starts_lease rest ≡ true
    → parse_lease_name name ≡ some (take 36 rest, skip 37 rest)
unfolding parse_lease_name
parse_from name rest e h = rw (parse_lease_name, e, h) refl

pub parse_split :
    (id node : Bytes)
    → is_flow_id id ≡ true
    → node ≢ []
    → parse_lease_name (lease_name_prefix ++ (id ++ (dash ∷ node))) ≡ some (id, node)
parse_split id node h ne =
    let l : length id ≡ 36 = (is_flow_id-IsPlain id h).0 in
    parse_from (lease_name_prefix ++ (id ++ (dash ∷ node))) (id ++ (dash ∷ node))
      (cut_prefix-append lease_name_prefix (id ++ (dash ∷ node))) (starts_lease-append id node h ne)
    ∙ ap some (
        ap (λ x. (x, skip 37 (id ++ (dash ∷ node)))) (take-append id (dash ∷ node) 36 l)
        ∙ ap (λ x. (id, x)) (skip-append id node dash 36 l))

-- What starts with a flow id, a dash and more is made of those.
starts_lease-parts :
    (s : Bytes)
    → starts_lease s ≡ true
    → (s ≡ take 36 s ++ (dash ∷ skip 37 s))
      × (is_flow_id (take 36 s) ≡ true)
      × (0 < length (skip 37 s))
unfolding starts_lease
starts_lease-parts s h = elim (Option-cases (get_elem? s 36)) [
  | inl e ↦ absurd (ground (arith, h, e))
  | inr (b, e) ↦
      let (x, y, z) = both_of (ltb (length s) 38) (b == dash) (is_flow_id (take 36 s)) (
        subst
          (λ o.
            (not (ltb (length s) 38)
              && (elim o [ none ↦ false | some c ↦ c == dash ])
              && is_flow_id (take 36 s))
            ≡ true)
          e h) in
      let same : b ≡ dash = (==_iff b dash).0 y in
      (take-skip s 36 dash (e ∙ ap some same), z, length-skip 36 s (long_ltb (length s) x))
]
  where
    both_of : (a b c : Bool) → (not a && b && c) ≡ true → (a ≡ false) × (b ≡ true) × (c ≡ true)
    both_of a b c q = (ground (arith, q), ground (arith, q), ground (arith, q))

-- What a name that parses is made of.
parsed :
    (name id node : Bytes)
    → parse_lease_name name ≡ some (id, node)
    → (name ≡ lease_name id node) × (is_flow_id id ≡ true) × (node ≢ [])
unfolding parse_lease_name
parsed name id node e = elim (Option-cases (cut_prefix lease_name_prefix name)) [
  | inl q ↦ absurd (ground (arith, e, q))
  | inr (rest, q) ↦ elim (Bool-cases (starts_lease rest)) [
    | inr t ↦ absurd (ground (arith, e, q, t))
    | inl t ↦
        let (pieces, h, l) = starts_lease-parts rest t in
        let same : some (take 36 rest, skip 37 rest) ≡ some (id, node) =
          sym (parse_from name rest q t) ∙ e in
        let i : take 36 rest ≡ id = ground (arith, same) in
        let n : skip 37 rest ≡ node = ground (arith, same) in
        (
          cut_prefix-some lease_name_prefix name rest q
              ∙ ap (λ r. lease_name_prefix ++ r)
                  (pieces ∙ ap (λ x. x ++ (dash ∷ skip 37 rest)) i ∙ ap (λ x. id ++ (dash ∷ x)) n)
              ∙ unfold lease_name in refl,
          ap is_flow_id (sym i) ∙ h,
          λ empty. absurd (omega (arith, ap length (n ∙ empty))),
        )
  ]
]

-- `ParseLeaseName` reverses `LeaseName`: it answers a flow id and a node exactly for the name that
-- `LeaseName` makes of the two, where the first is a flow id and the node's name is not empty.
pub parse_lease_name-lease_name :
    (name id node : Bytes)
    → (parse_lease_name name ≡ some (id, node))
      ↔ ((name ≡ lease_name id node) × (is_flow_id id ≡ true) × (node ≢ []))
unfolding lease_name
parse_lease_name-lease_name name id node =
    (parsed name id node, λ (e, h, ne). ap parse_lease_name e ∙ parse_split id node h ne)
