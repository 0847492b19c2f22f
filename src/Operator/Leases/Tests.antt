-- ===== src/Operator/Leases/Tests.antt =====
-- The Lease of a flow on a node that has left: runs of the collector, and its theorems there.
use mxl_k8s.Base.{
  ℕ, ◌+◌, ◌-◌, ◌*◌, ◌≤◌, ◌≡◌, ◌↔◌, refl, ◌⊎◌, inl, Bool, true, Option, none, some, [], ◌∷◌, arith,
}
use mxl_k8s.Base.Int.{pos}
use mxl_k8s.Base.Words.{second, sub_time}
use mxl_k8s.Api.Names.{
  Bytes, FlowRef, is_flow_id, digits, is_digit, dashed, ends, flow_name, lease_name_for,
  parse_lease_name_for, starts_lease,
}
use mxl_k8s.Operator.Fetching.{Fetched, fetched, missing}
use mxl_k8s.Operator.Leases.{
  Lease, lease_duration, expiry, is_fresh, Collection, done, later, again, collect,
}
use mxl_k8s.Operator.Leases.Collected.{IsCollectable, collect-IsCollectable}
use mxl_k8s.Operator.Leases.Timely.{collect_orphan, is_fresh-collect}

-- "5fbec3b1-1b0f-417d-9059-8b94a47197ed"
abbrev flow : FlowRef
flow = record {
  domain = [];
  id =
      53 ∷ 102 ∷ 98 ∷ 101 ∷ 99 ∷ 51 ∷ 98 ∷ 49 ∷ 45 ∷ 49 ∷ 98 ∷ 48 ∷ 102 ∷ 45 ∷ 52 ∷ 49 ∷ 55 ∷ 100
      ∷ 45 ∷ 57 ∷ 48 ∷ 53 ∷ 57 ∷ 45 ∷ 56 ∷ 98 ∷ 57 ∷ 52 ∷ 97 ∷ 52 ∷ 55 ∷ 49 ∷ 57 ∷ 55 ∷ 101 ∷ 100
      ∷ [];
}

abbrev holder : Bytes
holder = 97 ∷ []

-- Renewed at second 100, with the default window of 30 seconds.
abbrev lease : Lease
lease = record {
  name = lease_name_for flow holder;
  renew_time = some (100 * second);
  duration_seconds = none;
  version = 7;
}

abbrev left : Bytes → Fetched (Unit {0})
left node = missing

abbrev present : Bytes → Fetched (Unit {0})
present name = fetched tt

program : Unit {0}
unfolding collect lease_name_for is_flow_id starts_lease parse_lease_name_for expiry lease_duration
    sub_time
program = tt

abbrev run_at : ℕ → Option Lease × Collection
run_at now = collect left present true now (fetched lease) (some lease)

waits_first : run_at (110 * second) ≡ (some lease, later (pos (21 * second)))
unfolding program
waits_first = refl

deleted_then : run_at (131 * second) ≡ (none, done)
unfolding program
deleted_then = refl

-- A renewal between the read and the deletion keeps the Lease.
renewed_between :
    (collect left present true
      (131 * second)
      (fetched lease)
      (some (record lease { version = 8 }))).1
    ≡ again
unfolding program
renewed_between = refl

lease_parses : parse_lease_name_for (lease_name_for flow holder) ≡ some (flow, holder)
unfolding program
lease_parses = refl

collect-IsCollectable_example : IsCollectable left present true (131 * second) (fetched lease) lease
collect-IsCollectable_example =
    collect-IsCollectable left present true (131 * second) (fetched lease) lease done deleted_then

collect_orphan_example :
    (run_at (110 * second) ≡ (none, done))
    ⊎ ((wait : ℕ) × (run_at (110 * second) ≡ (some lease, later (pos wait)))
        × ((next : ℕ) → 110 * second + wait ≤ next → run_at next ≡ (none, done)))
unfolding is_flow_id digits is_digit dashed ends expiry lease_duration
collect_orphan_example =
    collect_orphan left present lease flow holder (110 * second) refl refl (λ e. ground (arith, e))
      (λ e. (inl (λ e'. ground (arith, e')), tt)) tt (omega arith) (inl refl)

is_fresh-collect_example :
    (fresh : Bool) × (is_fresh (some (λ name. fetched lease)) (110 * second) (flow_name flow) holder
      ≡ some (fresh, expiry lease))
    × ((fresh ≡ true) ↔ (
        run_at (110 * second) ≡ (some lease, later (pos (expiry lease - 110 * second + second)))))
unfolding expiry lease_duration
is_fresh-collect_example =
    is_fresh-collect left present true (λ name. fetched lease) (110 * second) (100 * second) lease
      flow holder refl lease_parses refl (omega arith)
