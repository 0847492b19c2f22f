-- ===== src/Operator/Leases.antt =====
-- operator/internal/leasecheck/leasecheck.go and operator/internal/leasegc/controller.go: whether
-- the Lease of a flow's origin is fresh, and when it is deleted. Times are nanoseconds since Go's
-- zero time.
pub mod Collected
pub mod Timely
mod Tests
use mxl_k8s.Base.{
  ℕ, ◌+◌, ◌*◌, Bool, true, false, Option, none, some, List, ltb, ◌==◌, if◌then◌else◌,
}
use mxl_k8s.Base.Int.{ℤ, pos, negsuc, ltb_ℤ}
use mxl_k8s.Base.Words.{second, sub_time, add_i64}
use mxl_k8s.Api.Names.{Bytes, FlowRef, flow_name, lease_name, parse_lease_name_for}
use mxl_k8s.Operator.Fetching.{Fetched, fetched, missing, failed}

-- A Lease; the version stands for its UID and its resource version, which each update changes.
pub record Lease : Type 0 where
  pub name : Bytes
  pub renew_time : Option ℕ
  pub duration_seconds : Option ℤ
  pub version : ℕ

abbrev pub default_lease_duration : ℕ
default_lease_duration = 30 * second

-- The seconds are an int32, whose nanoseconds an int64 holds.
unfoldable pub lease_duration : Option ℤ → ℕ
lease_duration none = default_lease_duration
lease_duration (some (negsuc n)) = default_lease_duration
lease_duration (some (pos n)) = if ltb 0 n then n * second else default_lease_duration

unfoldable pub expiry : Lease → ℕ
unfolding lease_duration
expiry l = elim l.renew_time [ none ↦ 0 | some t ↦ t + lease_duration l.duration_seconds ]

-- `Checker.IsFresh`, with the Leases that a client reads, where there is one: an error, or whether
-- the Lease is fresh and when it lapses.
unfoldable pub is_fresh : Option (Bytes → Fetched Lease) → ℕ → Bytes → Bytes → Option (Bool × ℕ)
unfolding lease_duration lease_name
is_fresh none now id node = some (false, 0)
is_fresh (some get) now id node = elim (get (lease_name id node)) [
  | failed ↦ none
  | missing ↦ some (false, 0)
  | fetched l ↦ elim l.renew_time [
    | none ↦ some (false, 0)
    | some t ↦
        let deadline = t + lease_duration l.duration_seconds in some (ltb now deadline, deadline)
  ]
]

-- What a call of the collector ends with: nothing more to do, a later look, another try, or an
-- error.
pub data Collection : Type 0 where
  done : Collection
  later : ℤ → Collection
  again : Collection
  error : Collection

-- Whether the node or the flow is gone; `none` is an error.
unfoldable pub orphaned :
    (Bytes → Fetched (Unit {0})) → (Bytes → Fetched (Unit {0})) → Bytes → Bytes → Option Bool
orphaned nodes flows flow node = elim (nodes node) [
  | missing ↦ some true
  | failed ↦ none
  | fetched _ ↦ elim (flows flow) [ missing ↦ some true | failed ↦ none | fetched _ ↦ some false ]
]

-- `Delete` of the Lease that was read, where the server holds a Lease of the name or none.
unfoldable pub delete_lease : Bool → Lease → Option Lease → Option Lease × Collection
delete_lease succeeds read none = (none, done)
delete_lease succeeds read (some held) =
    if held.version == read.version
    then (if succeeds then (none, done) else (some held, error))
    else (some held, again)

-- One call for the Lease that was read at `now`: what the server holds afterwards, and how it ends.
unfoldable pub collect :
    (Bytes → Fetched (Unit {0}))
    → (Bytes → Fetched (Unit {0}))
    → Bool
    → ℕ
    → Fetched Lease
    → Option Lease
    → Option Lease × Collection
unfolding parse_lease_name_for flow_name expiry orphaned delete_lease sub_time add_i64
collect nodes flows succeeds now missing held = (held, done)
collect nodes flows succeeds now failed held = (held, error)
collect nodes flows succeeds now (fetched l) held = elim (parse_lease_name_for l.name) [
  | none ↦ (held, done)
  | some (ref, node) ↦
      let wait = sub_time (expiry l) now in
      if ltb_ℤ (pos 0) wait
      then (held, later (add_i64 wait (pos second)))
      else elim (orphaned nodes flows (flow_name ref) node) [
        | none ↦ (held, error)
        | some false ↦ (held, done)
        | some true ↦ delete_lease succeeds l held
      ]
]
