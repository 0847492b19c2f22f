-- ===== src/Api/Names/Tests.antt =====
-- Names of one flow, and the theorems at them.
use mxl_k8s.Api.Names.Mirrors.{mirror_name_for_inj}
use mxl_k8s.Base.{
  ℕ, ◌+◌, if◌then◌else◌, leb, ◌&&◌, ◌≡◌, ◌≢◌, refl, inl, inr, ◌↔◌, true, some, [], ◌∷◌, ◌++◌, arith,
}
use mxl_k8s.Api.Names.{
  Bytes, dash, domain_separator, FlowRef, is_flow_id, digits, is_digit, dashed, ends, flow_name,
  parse_flow_name, lease_name, lease_name_for, parse_lease_name, starts_lease, parse_lease_name_for,
  parse_tail, find_domain, cut_prefix, take, skip, in_mirror_name, clean, mirror_name_for,
}
use mxl_k8s.Api.Names.RoundTrip.{parse_lease_name-lease_name}
use mxl_k8s.Api.Names.Domains.{
  IsQuiet, parse_flow_name-flow_name, parse_lease_name_for-lease_name_for,
}

-- "5fbec3b1-1b0f-417d-9059-8b94a47197ed"
abbrev flow : Bytes
flow =
    53 ∷ 102 ∷ 98 ∷ 101 ∷ 99 ∷ 51 ∷ 98 ∷ 49 ∷ 45 ∷ 49 ∷ 98 ∷ 48 ∷ 102 ∷ 45 ∷ 52 ∷ 49 ∷ 55 ∷ 100 ∷ 45
    ∷ 57 ∷ 48 ∷ 53 ∷ 57 ∷ 45 ∷ 56 ∷ 98 ∷ 57 ∷ 52 ∷ 97 ∷ 52 ∷ 55 ∷ 49 ∷ 57 ∷ 55 ∷ 101 ∷ 100 ∷ []

-- "node-7"
abbrev node : Bytes
node = 110 ∷ 111 ∷ 100 ∷ 101 ∷ 45 ∷ 55 ∷ []

-- The flow in the domain "a.b".
abbrev far : FlowRef
far = record { domain = 97 ∷ 46 ∷ 98 ∷ []; id = flow }

flow-is_flow_id : is_flow_id flow ≡ true
unfolding is_flow_id digits is_digit dashed ends
flow-is_flow_id = refl

parse_lease_name-lease_name_example :
    (parse_lease_name (lease_name flow node) ≡ some (flow, node))
    ↔ ((lease_name flow node ≡ lease_name flow node) × (is_flow_id flow ≡ true) × (node ≢ []))
parse_lease_name-lease_name_example = parse_lease_name-lease_name (lease_name flow node) flow node

parse_flow_name-flow_name_example : parse_flow_name (flow_name far) ≡ far
parse_flow_name-flow_name_example = parse_flow_name-flow_name far flow-is_flow_id

some_node : node ≢ []
some_node e = absurd (ground (arith, e))

domain-IsQuiet : IsQuiet (domain_separator ∷ (flow ++ (dash ∷ node))) far.domain
unfolding starts_lease is_flow_id digits is_digit dashed ends take
domain-IsQuiet =
    (inl (λ e. absurd (omega arith)), (inr refl, (inl (λ e. absurd (omega arith)), tt)))

far_domain : far.domain ≢ []
far_domain e = absurd (ground (arith, e))

parse_lease_name_for-lease_name_for_example :
    parse_lease_name_for (lease_name_for far node) ≡ some (far, node)
parse_lease_name_for-lease_name_for_example =
    parse_lease_name_for-lease_name_for far node flow-is_flow_id some_node
      (λ e. absurd (far_domain e)) domain-IsQuiet

-- A domain that holds a flow id after a separator, "a.<id>-b": its Lease's name parses as that of
-- a flow of the domain "a".
abbrev odd : FlowRef
odd = record { domain = 97 ∷ 46 ∷ (flow ++ (45 ∷ 98 ∷ [])); id = flow }

odd_lease :
    parse_lease_name_for (lease_name_for odd node)
    ≡ some (record { domain = 97 ∷ []; id = flow }, 98 ∷ 46 ∷ (flow ++ (dash ∷ node)))
unfolding parse_lease_name_for parse_tail parse_lease_name find_domain cut_prefix starts_lease
    is_flow_id digits is_digit dashed ends take skip lease_name_for flow_name
odd_lease = refl

-- Of the ASCII letters.
abbrev to_lower : ℕ → ℕ
to_lower c = if leb 65 c && leb c 90 then c + 32 else c

mirror_name_for_inj_example :
    (mirror_name_for to_lower far node ≡ mirror_name_for to_lower far (97 ∷ []))
    ↔ ((far ≡ far) × (node ≡ 97 ∷ []))
unfolding in_mirror_name
mirror_name_for_inj_example =
    mirror_name_for_inj to_lower far far node (97 ∷ []) (λ c q. ground (arith, q)) refl
      flow-is_flow_id flow-is_flow_id (refl, (refl, (refl, (refl, (refl, (refl, tt)))))) (refl, tt)

-- The nodes "a.b" and "a-b" share a name.
dotted :
    mirror_name_for to_lower far (97 ∷ 46 ∷ 98 ∷ [])
    ≡ mirror_name_for to_lower far (97 ∷ 45 ∷ 98 ∷ [])
unfolding mirror_name_for flow_name clean in_mirror_name
dotted = refl
