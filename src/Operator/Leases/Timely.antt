-- ===== src/Operator/Leases/Timely.antt =====
-- When a Lease is deleted, and until when it is fresh.
use mathlib.Core.Path.{subst}
use native.Mathlib.Decide.{dec_lt}
use mxl_k8s.Base.{
  ℕ, ◌+◌, ◌-◌, ◌^◌, ◌≤◌, ◌<◌, ◌≡◌, ◌≢◌, ◌↔◌, refl, sym, ap, ◌∙◌, ◌⊎◌, inl, inr, Bool, true, false,
  Option, none, some, [], ◌∷◌, ◌++◌, arith, ltb, ltb→lt, ==_iff, Bool-cases,
}
use mxl_k8s.Base.Int.{pos}
use mxl_k8s.Base.Words.{second}
use mxl_k8s.Api.Names.{
  Bytes, FlowRef, dash, domain_separator, is_flow_id, flow_name, lease_name, lease_name_for,
  parse_lease_name_for,
}
use mxl_k8s.Api.Names.Domains.{IsQuiet, parse_lease_name_for-lease_name_for}
use mxl_k8s.Operator.Fetching.{Fetched, fetched}
use mxl_k8s.Operator.Leases.{
  Lease, expiry, is_fresh, Collection, done, later, again, error, orphaned, delete_lease, collect,
}
use mxl_k8s.Operator.Leases.Collected.{IsOrphan, over, collect_past, collect_within}

-- A Lease with the name of a flow with a flow id on a node, no separator in whose domain, or in
-- the primary domain in the node, is followed by a flow id, a dash and more, and a window that
-- ends before 2^62 ns: where its node has left or its flow is gone, the server still holds it and
-- the deletion succeeds, a call past its window deletes it; a call within it leaves it and asks
-- for a look after which, with the same answers, a call deletes it.
pub collect_orphan :
    (nodes flows : Bytes → Fetched (Unit {0})) (l : Lease) (ref : FlowRef) (node : Bytes) (now : ℕ)
    → l.name ≡ lease_name_for ref node
    → is_flow_id ref.id ≡ true
    → node ≢ []
    → (ref.domain ≡ [] → IsQuiet [] node)
    → IsQuiet (domain_separator ∷ (ref.id ++ (dash ∷ node))) ref.domain
    → expiry l < 2 ^ 62
    → IsOrphan nodes flows ref node
    → (collect nodes flows true now (fetched l) (some l) ≡ (none, done))
      ⊎ ((wait : ℕ) × (collect nodes flows true now (fetched l) (some l)
            ≡ (some l, later (pos wait)))
          × ((next : ℕ)
              → now + wait ≤ next
              → collect nodes flows true next (fetched l) (some l) ≡ (none, done)))
collect_orphan nodes flows l ref node now name id ne alone quiet h o =
    let parsed =
      ap parse_lease_name_for name
      ∙ parse_lease_name_for-lease_name_for ref node id ne alone quiet in
    elim (dec_lt now (expiry l)) [
      | no p ↦ inl (collect_past nodes flows true now l ref node refl parsed (omega arith) o)
      | yes p ↦ inr (
        expiry l - now + second,
        collect_within nodes flows true now l (some l) ref node parsed h p,
        λ next e. collect_past nodes flows true next l ref node refl parsed (omega (arith, e)) o,
      )
    ]

module _ (nodes flows : Bytes → Fetched (Unit {0})) (succeeds : Bool) where
  -- Which collection asks for a later look.
  abbrev IsLater : Collection → Type 0
  IsLater done = ⊥
  IsLater (later w) = Unit
  IsLater again = ⊥
  IsLater error = ⊥

  delete_lease-IsLater : (l : Lease) → ¬ IsLater (delete_lease succeeds l (some l)).1
  unfolding delete_lease
  delete_lease-IsLater l = elim (Bool-cases succeeds) [
    | inl q ↦ rw (delete_lease, (==_iff l.version l.version).1 refl, q) (λ h. h)
    | inr q ↦ rw (delete_lease, (==_iff l.version l.version).1 refl, q) (λ h. h)
  ]

  collect-IsLater :
      (now : ℕ) (l : Lease) (ref : FlowRef) (node : Bytes)
      → parse_lease_name_for l.name ≡ some (ref, node)
      → expiry l ≤ now
      → ¬ IsLater (collect nodes flows succeeds now (fetched l) (some l)).1
  unfolding collect
  collect-IsLater now l ref node p h = by_orphan (orphaned nodes flows (flow_name ref) node) refl
    where
      by_orphan :
          (o : Option Bool)
          → orphaned nodes flows (flow_name ref) node ≡ o
          → ¬ IsLater (collect nodes flows succeeds now (fetched l) (some l)).1
      by_orphan none q = rw (collect, p, over (expiry l) now h, q) (λ k. k)
      by_orphan (some false) q = rw (collect, p, over (expiry l) now h, q) (λ k. k)
      by_orphan (some true) q = rw (collect, p, over (expiry l) now h, q) (delete_lease-IsLater l)

is_fresh_lem :
    (get : Bytes → Fetched Lease) (now renewed : ℕ) (l : Lease) (ref : FlowRef) (node : Bytes)
    → get (lease_name_for ref node) ≡ fetched l
    → l.renew_time ≡ some renewed
    → is_fresh (some get) now (flow_name ref) node ≡ some (ltb now (expiry l), expiry l)
unfolding is_fresh expiry lease_name lease_name_for
is_fresh_lem get now renewed l ref node g t = rw (is_fresh, g, t, expiry) refl

-- The Lease that `IsFresh` reads for a flow's name and a node is that of the flow on the node;
-- where it has a renewal, and a window that ends before 2^62 ns, `IsFresh` answers that it is
-- fresh exactly where a collector's call leaves it for a later look, whatever has become of the
-- node and the flow, and both go by the same end of its window.
pub is_fresh-collect :
    (nodes flows : Bytes → Fetched (Unit {0})) (succeeds : Bool) (get : Bytes → Fetched Lease)
    (now renewed : ℕ) (l : Lease) (ref : FlowRef) (node : Bytes)
    → get (lease_name_for ref node) ≡ fetched l
    → parse_lease_name_for l.name ≡ some (ref, node)
    → l.renew_time ≡ some renewed
    → expiry l < 2 ^ 62
    → (fresh : Bool) × (is_fresh (some get) now (flow_name ref) node ≡ some (fresh, expiry l))
      × ((fresh ≡ true) ↔ (
          collect nodes flows succeeds now (fetched l) (some l)
          ≡ (some l, later (pos (expiry l - now + second)))))
is_fresh-collect nodes flows succeeds get now renewed l ref node g p t h = (
  ltb now (expiry l),
  is_fresh_lem get now renewed l ref node g t,
  (
    λ q. collect_within nodes flows succeeds now l (some l) ref node p h (ltb→lt now (expiry l) q),
    λ e. elim (Bool-cases (ltb now (expiry l))) [
      | inl q ↦ q
      | inr q ↦ absurd (
          collect-IsLater nodes flows succeeds now l ref node p (ground (arith, q))
            (subst (λ c. IsLater nodes flows succeeds c.1) (sym e) tt))
    ],
  ),
)
