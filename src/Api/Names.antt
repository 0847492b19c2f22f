-- ===== src/Api/Names.antt =====
-- api/v1alpha1/lease.go, flowref.go and mirror.go: the names of flows, of their Origin Leases and
-- of their mirrors, as Go's bytes.
pub mod Parts
pub mod RoundTrip
pub mod Domains
pub mod Mirrors
mod Tests
use mxl_k8s.Base.{
  ℕ, zero, suc, ◌+◌, Bool, true, false, not, ◌&&◌, ◌||◌, Option, none, some, List, [], ◌∷◌, ◌++◌,
  length, map, ltb, leb, ◌==◌, if◌then◌else◌, get_elem?,
}

abbrev pub Bytes : Type 0
Bytes = List ℕ

abbrev pub dash : ℕ
dash = 45

abbrev pub domain_separator : ℕ
domain_separator = 46

-- "mxl-flow-"
abbrev pub lease_name_prefix : Bytes
lease_name_prefix = 109 ∷ 120 ∷ 108 ∷ 45 ∷ 102 ∷ 108 ∷ 111 ∷ 119 ∷ 45 ∷ []

abbrev pub flow_id_length : ℕ
flow_id_length = 36

pub record FlowRef : Type 0 where
  pub domain : Bytes
  pub id : Bytes

-- `[0-9a-f]`
unfoldable pub is_digit : ℕ → Bool
is_digit b = (leb 48 b && leb b 57) || (leb 97 b && leb b 102)

-- A group of `[0-9a-f]` and what may follow it.
unfoldable pub digits : ℕ → (Bytes → Bool) → Bytes → Bool
unfolding is_digit
digits zero rest s = rest s
digits (suc n) rest [] = false
digits (suc n) rest (b ∷ s) = let more = digits n rest s in is_digit b && more

unfoldable pub dashed : (Bytes → Bool) → Bytes → Bool
dashed rest [] = false
dashed rest (b ∷ s) = (b == dash) && rest s

unfoldable pub ends : Bytes → Bool
ends [] = true
ends (b ∷ s) = false

-- `FlowIDPattern`
unfoldable pub is_flow_id : Bytes → Bool
unfolding digits dashed ends
is_flow_id =
    digits 8 (dashed (digits 4 (dashed (digits 4 (dashed (digits 4 (dashed (digits 12 ends))))))))

unfoldable pub flow_name : FlowRef → Bytes
flow_name r = if length r.domain == 0 then r.id else r.domain ++ (domain_separator ∷ r.id)

-- Around the last separator of the name.
unfoldable pub split_last : Bytes → Option (Bytes × Bytes)
split_last [] = none
split_last (b ∷ s) = elim (split_last s) [
  | some (d, i) ↦ some (b ∷ d, i)
  | none ↦ if b == domain_separator then some ([], s) else none
]

unfoldable pub parse_flow_name : Bytes → FlowRef
unfolding split_last
parse_flow_name name = elim (split_last name) [
  | some (d, i) ↦ record { domain = d; id = i }
  | none ↦ record { domain = []; id = name }
]

unfoldable pub lease_name : Bytes → Bytes → Bytes
lease_name id node = lease_name_prefix ++ (id ++ (dash ∷ node))

unfoldable pub lease_name_for : FlowRef → Bytes → Bytes
unfolding flow_name
lease_name_for r node = lease_name_prefix ++ (flow_name r ++ (dash ∷ node))

-- `strings.CutPrefix`
unfoldable pub cut_prefix : Bytes → Bytes → Option Bytes
cut_prefix [] s = some s
cut_prefix (p ∷ ps) [] = none
cut_prefix (p ∷ ps) (b ∷ s) = let rest = cut_prefix ps s in if p == b then rest else none

unfoldable pub take : ℕ → Bytes → Bytes
take zero s = []
take (suc n) [] = []
take (suc n) (b ∷ s) = b ∷ take n s

unfoldable pub skip : ℕ → Bytes → Bytes
skip zero s = s
skip (suc n) [] = []
skip (suc n) (b ∷ s) = skip n s

-- A flow id, a dash, and more.
unfoldable pub starts_lease : Bytes → Bool
unfolding take is_flow_id
starts_lease s =
    not (ltb (length s) (flow_id_length + 2))
    && (elim (get_elem? s flow_id_length) [ none ↦ false | some b ↦ b == dash ])
    && is_flow_id (take flow_id_length s)

unfoldable pub parse_lease_name : Bytes → Option (Bytes × Bytes)
unfolding cut_prefix starts_lease take skip
parse_lease_name name = elim (cut_prefix lease_name_prefix name) [
  | none ↦ none
  | some rest ↦
      if starts_lease rest
      then some (take flow_id_length rest, skip (flow_id_length + 1) rest)
      else none
]

-- The loop over the bytes: around the first separator that a flow id follows.
unfoldable pub find_domain : Bytes → Option (Bytes × Bytes)
unfolding starts_lease
find_domain [] = none
find_domain (b ∷ s) =
    let later = find_domain s in
    if (b == domain_separator) && starts_lease s
    then some ([], s)
    else elim later [ none ↦ none | some (d, cand) ↦ some (b ∷ d, cand) ]

-- What follows the domain is the name of a Lease of the primary domain.
unfoldable pub parse_tail : Bytes → Bytes → Option (FlowRef × Bytes)
unfolding parse_lease_name
parse_tail domain rest = elim (parse_lease_name (lease_name_prefix ++ rest)) [
  | none ↦ none
  | some (id, node) ↦ some (record { domain = domain; id = id }, node)
]

unfoldable pub parse_lease_name_for : Bytes → Option (FlowRef × Bytes)
unfolding cut_prefix find_domain parse_tail
parse_lease_name_for name = elim (cut_prefix lease_name_prefix name) [
  | none ↦ none
  | some rest ↦ elim (find_domain rest) [
    | none ↦ parse_tail [] rest
    | some (domain, cand) ↦ parse_tail domain cand
  ]
]

-- What a mirror's name keeps, in its case.
unfoldable pub in_mirror_name : ℕ → Bool
in_mirror_name c = (leb 97 c && leb c 122) || (leb 48 c && leb c 57) || (c == dash)

unfoldable pub clean : ℕ → ℕ
unfolding in_mirror_name
clean c = if in_mirror_name c then c else dash

-- `MirrorNameFor`, on the runes of the names. `strings.ToLower` of a rune is an argument.
unfoldable pub mirror_name_for : (ℕ → ℕ) → FlowRef → Bytes → Bytes
unfolding clean flow_name
mirror_name_for lower r node = map (λ c. clean (lower c)) (flow_name r ++ (dash ∷ dash ∷ node))
