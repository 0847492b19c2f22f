-- ===== src/Api/Names/Domains.antt =====
-- The names of flows and Leases in any domain, built and parsed.
use mathlib.Core.List.{append_assoc}
use mxl_k8s.Base.{
  ℕ, ◌<◌, ◌≡◌, ◌≢◌, refl, sym, ap, ◌∙◌, ◌⊎◌, inl, inr, Bool, true, false, ◌&&◌, Option, none, some,
  [], ◌∷◌, ◌++◌, arith, length, All, ◌==◌, Option-cases,
}
use mxl_k8s.Api.Names.{
  Bytes, dash, domain_separator, lease_name_prefix, FlowRef, is_flow_id, flow_name, split_last,
  parse_flow_name, lease_name_for, cut_prefix, starts_lease, parse_lease_name, find_domain,
  parse_tail, parse_lease_name_for,
}
use mxl_k8s.Api.Names.Parts.{is_flow_id-IsPlain, cut_prefix-append}
use mxl_k8s.Api.Names.RoundTrip.{parse_split, starts_lease-append}

-- No separator in the bytes is followed by a flow id, a dash and more, where `tail` follows the
-- bytes.
abbrev pub IsQuiet : Bytes → Bytes → Type 0
IsQuiet tail [] = Unit
IsQuiet tail (b ∷ s) =
    ((b ≢ domain_separator) ⊎ (starts_lease (s ++ tail) ≡ false)) × IsQuiet tail s

abbrev NoSeparator : Bytes → Type 0
NoSeparator s = All (λ b. b ≢ domain_separator) s

NoSeparator-IsQuiet : (tail s : Bytes) → NoSeparator s → IsQuiet tail s
NoSeparator-IsQuiet tail [] h = tt
NoSeparator-IsQuiet tail (b ∷ s) h = (inl h.0, NoSeparator-IsQuiet tail s h.1)

-- What the loop finds, behind what it passed over.
abbrev found : Bytes → Option (Bytes × Bytes) → Option (Bytes × Bytes)
found s none = none
found s (some (d, t)) = some (s ++ d, t)

-- The loop passes over what is quiet.
find_domain-append :
    (s tail : Bytes) → IsQuiet tail s → find_domain (s ++ tail) ≡ found s (find_domain tail)
unfolding find_domain
find_domain-append [] tail h = elim (Option-cases (find_domain tail)) [
  | inl e ↦ rw e refl
  | inr ((d, t), e) ↦ rw e refl
]
find_domain-append (b ∷ s) tail h =
    let quiet : ((b == domain_separator) && starts_lease (s ++ tail)) ≡ false =
      off b (starts_lease (s ++ tail)) h.0 in
    let rest = find_domain-append s tail h.1 in
    elim (Option-cases (find_domain tail)) [
      | inl e ↦ rw (find_domain, quiet, rest, e) refl
      | inr ((d, t), e) ↦ rw (find_domain, quiet, rest, e) refl
    ]
  where
    off :
        (b : ℕ) (x : Bool)
        → (b ≢ domain_separator) ⊎ (x ≡ false)
        → ((b == domain_separator) && x) ≡ false
    off b x (inl ne) = ground (arith, ne)
    off b x (inr e) = ground (arith, e)

find_domain-here :
    (t : Bytes) → starts_lease t ≡ true → find_domain (domain_separator ∷ t) ≡ some ([], t)
unfolding find_domain
find_domain-here t h = rw (find_domain, h) refl

split_last-none : (s : Bytes) → NoSeparator s → split_last s ≡ none
unfolding split_last
split_last-none [] h = refl
split_last-none (b ∷ s) h =
    let rest = split_last-none s h.1 in
    let off : (b == domain_separator) ≡ false = ground (arith, h.0) in
    rw (split_last, rest, off) refl

split_last-append :
    (d id : Bytes) → NoSeparator id → split_last (d ++ (domain_separator ∷ id)) ≡ some (d, id)
unfolding split_last
split_last-append [] id h = rw (split_last, split_last-none id h) refl
split_last-append (b ∷ d) id h = rw (split_last, split_last-append d id h) refl

-- The name of a flow, whose domain is empty or not.
name_plain : (r : FlowRef) → r.domain ≡ [] → flow_name r ≡ r.id
unfolding flow_name
name_plain r e = rw (flow_name, e) refl

name_domain :
    (r : FlowRef) → 0 < length r.domain → flow_name r ≡ r.domain ++ (domain_separator ∷ r.id)
unfolding flow_name
name_domain r h = ground arith

empty_or : (s : Bytes) → (s ≡ []) ⊎ (0 < length s)
empty_or [] = inl refl
empty_or (b ∷ s) = inr (omega arith)

parse_none :
    (name : Bytes)
    → split_last name ≡ none
    → parse_flow_name name ≡ record { domain = []; id = name }
unfolding parse_flow_name
parse_none name e = rw (parse_flow_name, e) refl

parse_some :
    (name d i : Bytes)
    → split_last name ≡ some (d, i)
    → parse_flow_name name ≡ record { domain = d; id = i }
unfolding parse_flow_name
parse_some name d i e = rw (parse_flow_name, e) refl

-- `ParseFlowName` reverses `FlowRef.Name` for every flow whose id is a flow id, whatever its
-- domain.
pub parse_flow_name-flow_name :
    (r : FlowRef) → is_flow_id r.id ≡ true → parse_flow_name (flow_name r) ≡ r
parse_flow_name-flow_name r h =
    let plain = (is_flow_id-IsPlain r.id h).1 in
    elim (empty_or r.domain) [
      | inl e ↦
          ap parse_flow_name (name_plain r e)
          ∙ parse_none r.id (split_last-none r.id plain)
          ∙ ap (λ d. record { domain = d; id = r.id }) (sym e)
      | inr l ↦
          ap parse_flow_name (name_domain r l)
          ∙ parse_some (r.domain ++ (domain_separator ∷ r.id)) r.domain r.id
              (split_last-append r.domain r.id plain)
    ]

tail_run :
    (domain tail id node : Bytes)
    → parse_lease_name (lease_name_prefix ++ tail) ≡ some (id, node)
    → parse_tail domain tail ≡ some (record { domain = domain; id = id }, node)
unfolding parse_tail
tail_run domain tail id node e = rw (parse_tail, e) refl

for_none :
    (name rest : Bytes)
    → cut_prefix lease_name_prefix name ≡ some rest
    → find_domain rest ≡ none
    → parse_lease_name_for name ≡ parse_tail [] rest
unfolding parse_lease_name_for
for_none name rest q f = rw (parse_lease_name_for, q, f) refl

for_some :
    (name rest domain tail : Bytes)
    → cut_prefix lease_name_prefix name ≡ some rest
    → find_domain rest ≡ some (domain, tail)
    → parse_lease_name_for name ≡ parse_tail domain tail
unfolding parse_lease_name_for
for_some name rest domain tail q f = rw (parse_lease_name_for, q, f) refl

append_nil : (s : Bytes) → s ++ [] ≡ s
append_nil [] = refl
append_nil (b ∷ s) = ap (◌∷◌ b) (append_nil s)

-- What the name of the Lease is, after the prefix.
abbrev lease_tail : FlowRef → Bytes → Bytes
lease_tail r node = r.id ++ (dash ∷ node)

primary :
    (r : FlowRef) (node : Bytes)
    → is_flow_id r.id ≡ true
    → node ≢ []
    → IsQuiet [] node
    → r.domain ≡ []
    → parse_lease_name_for (lease_name_prefix ++ (flow_name r ++ (dash ∷ node))) ≡ some (r, node)
primary r node h ne quiet e =
    let plain = (is_flow_id-IsPlain r.id h).1 in
    ap (λ x. parse_lease_name_for (lease_name_prefix ++ (x ++ (dash ∷ node)))) (name_plain r e)
    ∙ for_none (lease_name_prefix ++ lease_tail r node) (lease_tail r node)
        (cut_prefix-append lease_name_prefix (lease_tail r node))
        (find_domain-append r.id (dash ∷ node) (NoSeparator-IsQuiet (dash ∷ node) r.id plain)
          ∙ ap (found r.id) (no_domain node quiet))
    ∙ tail_run [] (lease_tail r node) r.id node (parse_split r.id node h ne)
    ∙ ap (λ d. some (record { domain = d; id = r.id }, node)) (sym e)
  where
    no_bytes : find_domain [] ≡ none
    no_bytes = unfold find_domain in refl

    no_domain : (n : Bytes) → IsQuiet [] n → find_domain (dash ∷ n) ≡ none
    no_domain n q =
        ap (λ x. find_domain (dash ∷ x)) (sym (append_nil n))
        ∙ find_domain-append (dash ∷ n) [] (inl (λ e. absurd (omega arith)), q)
        ∙ ap (found (dash ∷ n)) no_bytes

elsewhere :
    (r : FlowRef) (node : Bytes)
    → is_flow_id r.id ≡ true
    → node ≢ []
    → IsQuiet (domain_separator ∷ (r.id ++ (dash ∷ node))) r.domain
    → 0 < length r.domain
    → parse_lease_name_for (lease_name_prefix ++ (flow_name r ++ (dash ∷ node))) ≡ some (r, node)
elsewhere r node h ne quiet l =
    let whole = r.domain ++ (domain_separator ∷ lease_tail r node) in
    ap (λ x. parse_lease_name_for (lease_name_prefix ++ x))
      (ap (λ x. x ++ (dash ∷ node)) (name_domain r l)
        ∙ append_assoc r.domain (domain_separator ∷ r.id) (dash ∷ node))
    ∙ for_some (lease_name_prefix ++ whole) whole r.domain (lease_tail r node)
        (cut_prefix-append lease_name_prefix whole)
        (find_domain-append r.domain (domain_separator ∷ lease_tail r node) quiet
          ∙ ap (found r.domain)
              (find_domain-here (lease_tail r node) (starts_lease-append r.id node h ne))
          ∙ ap (λ d. some (d, lease_tail r node)) (append_nil r.domain))
    ∙ tail_run r.domain (lease_tail r node) r.id node (parse_split r.id node h ne)

-- `ParseLeaseNameFor` reverses `LeaseNameFor` for a flow whose id is a flow id, and a node whose
-- name is not empty. The condition is on the first part of the name that may hold separators, the
-- domain or, in the primary domain, the node's name: none of its separators is followed by a flow
-- id, a dash and more.
pub parse_lease_name_for-lease_name_for :
    (r : FlowRef) (node : Bytes)
    → is_flow_id r.id ≡ true
    → node ≢ []
    → (r.domain ≡ [] → IsQuiet [] node)
    → IsQuiet (domain_separator ∷ (r.id ++ (dash ∷ node))) r.domain
    → parse_lease_name_for (lease_name_for r node) ≡ some (r, node)
unfolding lease_name_for
parse_lease_name_for-lease_name_for r node h ne alone quiet = elim (empty_or r.domain) [
  | inl e ↦ primary r node h ne (alone e) e
  | inr l ↦ elsewhere r node h ne quiet l
]
