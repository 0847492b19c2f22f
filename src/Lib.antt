-- ===== src/Lib.antt =====
-- The merge of redundant flows in the gateway of mxl-k8s, the choice of a flow's origin and of the
-- provider of a mirror, the names of flows and Leases, the placement of mirrors on fabric
-- interfaces, and the sets of redundant flows: the nodes that the agents keep listed on them and
-- the mirrors and conditions that the operator keeps of them, and the Leases that it collects.
--
-- An MXL flow is a ring of grains in shared memory. Where a flow is redundant, the gateway merges
-- its members into one output ring without copying: an engine (gateway/internal/merge/engine.go)
-- reads the members' heads, asks a policy which member each slot of the output shows, points the
-- slots there, and follows which members stand still. The library models the decisions, on plain
-- values.
--
-- Base: Go's machine integers, times and durations (Base/Words, Base/Int), tests, lists,
-- remainders.
--
-- Merge/Discrete: `Discrete` of gateway/internal/merge/policy.go. A Member is its head and, for
-- each ring slot, the grain header the code reads through `Member.Grain`. `step`, `retire` and
-- `drop` are `Step`, `Retire` and `Drop`. The -1 of `Primary` is `none`. A call ends in `none`
-- where Go panics on an index or a division, and where the fuel of a loop runs out. The loop of
-- `Step` has fuel for one turn for each index from the head to the leading member, the loop of
-- `Retire` for each index from the oldest to the head; the theorems show that both return.
-- `IsReady` is what the engine keeps of a policy: one source for each slot, each a member or the
-- placeholder. The proofs stand in the modules below: Scan, Turn and Run lift facts of one turn to
-- the loop, Step, Lag, Primary and Selects are the theorems of `Step`, Retire and Drop have their
-- own.
--
-- Merge/Audio: `Audio` of the same file, its `NewAudio`, `Committed` (`committed`), `Step`
-- (`step_audio`, in Merge/Audio/Step), `Drop` (`drop_audio`) and `Retire` (`retire_audio`). A
-- slot's coverage is a record in a list for each member. The loops of `Committed` and `Retire` have
-- fuel for each page of the range and the loop of `Step` for each sample from the head to the
-- leading member; each turn of it moves the head, and the theorems show that they return. `IsWhole`
-- is the shape of the slices, with heads below 2^63, and `IsSound` says that the coverage is true
-- of a log of the commits, which the code does not keep.
--
-- Merge/Progress: `progress` of gateway/internal/merge/progress.go, which decides which members are
-- stalled. The parallel slices of the code are one list of records, and a nil progress, which
-- observes nothing, is not a value. Times are nanoseconds since Go's zero time, and `Sub`
-- saturates.
--
-- Merge/Engine: the engine's pass over a discrete output, of gateway/internal/merge/engine.go: the
-- discrete branch of the loop in `run` with `apply` and `publish`, the discrete branch of `drop`,
-- and `retireDue` (`retire_due`). The output is its head and the source each view shows. Whether
-- the kernel module takes a select, and libmxl's indices of times, are arguments. `Sees` has the
-- outputs that readers can see between the selects.
--
-- Api/Origin: api/v1alpha1/origin.go, the node a consumer of a flow is sent to. The Lease check is
-- an argument, and the name that `Ref().Name()` gives a flow is a field.
--
-- Api/Names: api/v1alpha1/lease.go, flowref.go and mirror.go, the names of flows, Leases and
-- mirrors as lists of bytes. `MirrorNameFor` works on runes, which are the bytes of an ASCII name;
-- lower-casing a rune is an argument. The regular expression `FlowIDPattern` of common.go is
-- written out as `is_flow_id`.
--
-- Api/Selection: api/selection/provider.go, the provider of a mirror between two nodes. A set of
-- names is a list, and whether a node's status reports a probe is a field.
--
-- Agent/Redundancy: agent/internal/redundancy/redundancy.go. What `Want`, `Release` and `leave`
-- compute are functions; Run has the calls as steps on the sets that the API server keeps, one step
-- for each `Get`, each update and each locked part, with other writers, which may change a set in
-- any way, and the clock between them.
-- An update of a state that is not the newest is a conflict, and the call reads again; a call may
-- stop after any step, which stands for the timeout of `leave` and the number of retries. A set
-- that is deleted is not modelled.
--
-- Agent/Tracker: agent/internal/tracker/manager.go, `Sync` and `Tracked`. A Go map is the list of
-- its entries in the order that a loop takes, which is any; a tracker is its number, and what
-- `Start` answers an argument.
--
-- Operator/RedundancySet: operator/internal/redundancyset/controller.go. Mirrors has
-- `ensureMirrors`, Members `validate` (`validate`) and `membersReady` (`check_members`), Gateways
-- `outputReady` (`output_ready`) and `gatewayReadySince`, Paths `pathsDisjoint`, and Reconcile
-- `Reconcile` itself, up to the status that it sets. What the API server and the cache answer is an
-- argument (`Calls`, `Cluster`), and an error is a value; the mirrors that the server holds are a
-- function of their names, which the calls change one by one. A definition is a function of its
-- keys, and `reflect.DeepEqual` an argument. A message of `membersReady` is the list of what it
-- names, and those of `validate` are left out. The watches, which only ask for another `Reconcile`,
-- and the update of the status are left out.
--
-- Operator/Leases: operator/internal/leasecheck/leasecheck.go, `IsFresh` (`is_fresh`), and
-- operator/internal/leasegc/controller.go, a call of `Reconcile` (`collect`) for the Lease that it
-- read, where the server may hold another version by the time of the deletion. The seconds of a
-- window are an int32, whose nanoseconds an int64 holds; the watches are left out.
--
-- Placement: operator/internal/placement/planner.go. Node has the interfaces and ports of a node,
-- Ledger the committed loads, Planner `Place` (`place`) and `Check` (`check_placement`). A Go map
-- is a function to its values. Rates are int64 and wrap; the theorems about sums state ranges in
-- which they do not. Package netip is the record `Netip`, an argument. Of the sort in `Place` the
-- code reads the first element, which is `least` by the comparison.
--
-- Gateway/Gate: `EnumerationGate` of gateway/internal/capabilities/gate.go, which fails the
-- liveness probe.
--
-- Left out: the rest of the engine, whose rings are memory shared with the MXL library, its pass
-- over an audio output and `Replace`, and the mutex of `progress`, which each method holds
-- throughout. The other controllers of the operator, the other parts of the agent and the exporter
-- are not modelled.
pub mod Agent
pub mod Api
pub mod Base
pub mod Gateway
pub mod Merge
pub mod Operator
pub mod Placement
