-- ===== src/Operator/RedundancySet/Reconcile/Tests.antt =====
-- A set of two flows, wanted on three nodes one of which is gone: a run of `Reconcile`, and its
-- theorem.
use mxl_k8s.Base.{
  ℕ, ◌≡◌, refl, Bool, true, false, Option, none, some, List, [], ◌∷◌, ◌==◌, same_bytes,
  if◌then◌else◌,
}
use mxl_k8s.Base.Int.{ℤ, pos}
use mxl_k8s.Api.Names.{
  Bytes, FlowRef, is_flow_id, flow_name, in_mirror_name, clean, mirror_name_for,
}
use mxl_k8s.Api.Selection.{resolve}
use mxl_k8s.Operator.RedundancySet.{Fetched, fetched, missing, Mirrors}
use mxl_k8s.Operator.RedundancySet.Mirrors.{Calls}
use mxl_k8s.Operator.RedundancySet.Mirrors.Steps.{answer}
use mxl_k8s.Operator.RedundancySet.Reconcile.{
  RedundancySet, FlowRead, Cluster, Ending, erred, ignored, reported, reconcile,
}

-- "5fbec3b1-1b0f-417d-9059-8b94a47197e" and a digit
abbrev flow : ℕ → FlowRef
flow last = record {
  domain = [];
  id =
      53 ∷ 102 ∷ 98 ∷ 101 ∷ 99 ∷ 51 ∷ 98 ∷ 49 ∷ 45 ∷ 49 ∷ 98 ∷ 48 ∷ 102 ∷ 45 ∷ 52 ∷ 49 ∷ 55 ∷ 100
      ∷ 45 ∷ 57 ∷ 48 ∷ 53 ∷ 57 ∷ 45 ∷ 56 ∷ 98 ∷ 57 ∷ 52 ∷ 97 ∷ 52 ∷ 55 ∷ 49 ∷ 57 ∷ 55 ∷ 101 ∷ last
      ∷ [];
}

abbrev set_of_two : RedundancySet
set_of_two = record {
  deleting = false;
  members = flow 49 ∷ flow 50 ∷ [];
  output = flow 51;
  generation = 1;
  nodes = (97 ∷ []) ∷ (98 ∷ []) ∷ (99 ∷ []) ∷ [];
  stalled_members = [];
  valid_before = none;
}

-- Both flows are produced on "a"; the output is no flow.
abbrev read : FlowRef → Fetched (FlowRead ℕ)
read r =
    if same_bytes r.id (flow 51).id
    then missing
    else fetched
        (record { origin = some (true, 97 ∷ []); definition = some (λ key. 0); unreadable = false })

abbrev calls : Calls
calls = record {
  capabilities = λ n. missing;
  get_mirror = λ name held. answer held;
  patches = λ name. true;
  creates = λ name. true;
}

-- The node "c" is gone, and there is no gateway.
abbrev cluster : Cluster ℕ
cluster = record {
  node = λ n. if same_bytes n (99 ∷ []) then missing else fetched tt;
  flow = read;
  pods = some [];
  lists_mirrors = true;
  providers = λ n. none;
  calls = calls;
}

abbrev no_mirror : Mirrors
no_mirror name = none

program : Unit {0}
unfolding reconcile resolve flow_name mirror_name_for clean in_mirror_name is_flow_id
program = tt

run : Mirrors × Ending
run = reconcile (λ b. b) ◌==◌ cluster 0 (fetched set_of_two) no_mirror

abbrev summary : Ending → Option (List Bytes × Bool × ℤ)
summary erred = none
summary ignored = none
summary (reported o) = some (o.nodes, o.valid.status, o.requeue)

run_summary : summary run.1 ≡ some ((97 ∷ []) ∷ (98 ∷ []) ∷ [], true, pos 0)
unfolding run program
run_summary = refl

-- A set that is being deleted is left as it is.
run_deleting :
    reconcile (λ b. b) ◌==◌ cluster 0 (fetched (record set_of_two { deleting = true })) no_mirror
    ≡ (no_mirror, ignored)
unfolding program
run_deleting = refl
