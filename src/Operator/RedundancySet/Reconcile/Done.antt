-- ===== src/Operator/RedundancySet/Reconcile/Done.antt =====
-- What `Reconcile` has done where it ends without an error.
use mxl_k8s.Base.{ℕ, ◌≡◌, Bool, true, false, some, List, [], All}
use mxl_k8s.Api.Names.{Bytes, FlowRef}
use mxl_k8s.Operator.RedundancySet.{Fetched, fetched, missing, failed, SetMember, Mirrors}
use mxl_k8s.Operator.RedundancySet.Mirrors.Loops.{wants, Mirrored}
use mxl_k8s.Operator.RedundancySet.Members.{stalled_on, validate, check_members}
use mxl_k8s.Operator.RedundancySet.Gateways.{Served}
use mxl_k8s.Operator.RedundancySet.Paths.{paths_disjoint}
use mxl_k8s.Operator.RedundancySet.Reconcile.{
  RedundancySet, Cluster, existing_nodes, read_members, is_flow, requeue_after, Reconciled,
  write_mirrors, Ending, erred, ignored, reported,
}
use mxl_k8s.Operator.RedundancySet.Reconcile.Failed.{HasFailed}
use mxl_k8s.Operator.RedundancySet.Reconcile.Kept.{AreExisting, IsSoon}

module _ {Value : Type 0} (lower : ℕ → ℕ) (same : Value → Value → Bool) (k : Cluster Value)
    (now : ℕ) (set : RedundancySet) (mirrors : Mirrors) where
  -- What the call sets the status to, and which mirrors it wrote.
  abbrev outcome : List Bytes → List (SetMember Value) → Served → Mirrors → Reconciled
  outcome nodes ms served out = record {
    nodes = nodes;
    stalled_members = stalled_on nodes set.stalled_members;
    valid =
        validate same (is_flow (k.flow set.output)) set.output.domain set.members set.valid_before
          set.generation ms;
    ready = check_members same ms (stalled_on nodes set.stalled_members);
    served = served;
    paths = paths_disjoint lower k.providers out set.members nodes;
    requeue =
        requeue_after (check_members same ms (stalled_on nodes set.stalled_members)).status
          served.settling;
  }

  record Ended (out : Mirrors) (o : Reconciled) : Type 0 where
    pub members : List (SetMember Value)
    pub served : Served
    pub nodes : existing_nodes k.node set.nodes ≡ some o.nodes
    pub read : read_members k.flow set.members ≡ some members
    pub writes : write_mirrors lower k.calls o.valid.status members o.nodes mirrors ≡ (out, true)
    pub same_outcome : outcome o.nodes members served out ≡ o

-- The set is gone, or it is being deleted.
abbrev pub IsGone : Fetched RedundancySet → Type 0
IsGone failed = ⊥
IsGone missing = Unit
IsGone (fetched set) = set.deleting ≡ true

abbrev pub members_of : Fetched RedundancySet → List FlowRef
members_of failed = []
members_of missing = []
members_of (fetched set) = set.members

abbrev pub nodes_of : Fetched RedundancySet → List Bytes
nodes_of failed = []
nodes_of missing = []
nodes_of (fetched set) = set.nodes

module _ {Value : Type 0} (lower : ℕ → ℕ) (k : Cluster Value) (mirrors : Mirrors) where
  -- What a call for the set has done that ends with that status and leaves those mirrors.
  abbrev pub IsSettled : RedundancySet → Mirrors → Reconciled → Type 0
  IsSettled set out o =
      AreExisting k.node set.nodes o.nodes
      × (o.valid.status ≡ false → out ≡ mirrors)
      × IsSoon o.ready.status o.served.settling o.requeue
      × ((ms : List (SetMember Value)) × (read_members k.flow set.members ≡ some ms)
          × (o.valid.status ≡ true → All (λ w. Mirrored lower k.calls w out) (wants ms o.nodes)))

  abbrev pub IsDone : Fetched RedundancySet → Mirrors → Ending → Type 0
  IsDone get out ignored = IsGone get × (out ≡ mirrors)
  IsDone failed out erred = Unit
  IsDone missing out erred = ⊥
  IsDone (fetched set) out erred = (set.deleting ≡ false) × HasFailed lower k mirrors set
  IsDone failed out (reported o) = ⊥
  IsDone missing out (reported o) = ⊥
  IsDone (fetched set) out (reported o) = (set.deleting ≡ false) × IsSettled set out o
