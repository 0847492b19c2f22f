-- ===== src/Agent/Redundancy/Run.antt =====
-- The calls of `Want` and the loop of `Release` on one node, as steps on the sets that the API
-- server keeps: each `Get`, each status update and each locked part is one step, and other writers
-- and the clock step between them. Another writer may change a set in any way. An update of a
-- state of a set that is not the newest is a conflict, after which the call reads the set again. A
-- set is not deleted.
pub mod Listed
pub mod Kept
pub mod Safe
use mxl_k8s.Base.{
  ℕ, suc, ◌+◌, ◌≡◌, ◌≢◌, Bool, true, false, Option, none, some, String, List, [], ◌∷◌, ◌==◌,
  if◌then◌else◌, get_elem?, set,
}
use mxl_k8s.Base.Texts.{same_text, contains_text}
use mxl_k8s.Agent.Redundancy.{FlowSet, Uses, record_use, want_update, listing, sweep, leave_update}

unfoldable pub find_set : String → List FlowSet → Option FlowSet
find_set name [] = none
find_set name (s ∷ sets) = if same_text s.name name then some s else find_set name sets

-- The server replaces a set, and gives it its next version.
unfoldable pub write : FlowSet → List FlowSet → List FlowSet
write u [] = []
write u (s ∷ sets) =
    let rest = write u sets in
    if same_text s.name u.name then record u { version = suc u.version } ∷ sets else s ∷ rest

-- How far a call of `Want` is: it recorded its use, it read the set, it returned, it failed.
pub data Stage : Type 0 where
  started : Stage
  holding : FlowSet → Stage
  served : Stage
  failed : Stage

pub record Want : Type 0 where
  pub name : String
  pub since : ℕ
  pub stage : Stage

-- How far `Release` is: between two calls, past its list, at the next set to leave, or holding
-- what it read of the set it leaves.
pub data Phase : Type 0 where
  resting : Phase
  listed : List FlowSet → Phase
  leaving : List String → Phase
  removing : List String → FlowSet → Phase

pub record State : Type 0 where
  pub store : List FlowSet
  pub uses : Uses
  pub now : ℕ
  pub phase : Phase
  pub wants : List Want

unfoldable pub start_want : String → State → State
start_want name st = record st {
  uses = record_use name st.now st.uses;
  wants = record { name = name; since = st.now; stage = started } ∷ st.wants;
}

abbrev pub set_stage : ℕ → Want → Stage → State → State
set_stage i w stage st = record st { wants = set st.wants i (record w { stage = stage }) }

-- After its `Get` the call returns, where the node is listed.
unfoldable pub read_want : String → ℕ → Want → FlowSet → State → State
read_want node i w cur st = elim (want_update node cur) [
  | none ↦ set_stage i w served st
  | some _ ↦ set_stage i w (holding cur) st
]

-- The update of the set that the call read, where `cur` is what the server has.
unfoldable pub send_want : String → ℕ → Want → FlowSet → FlowSet → State → State
send_want node i w snap cur st = elim (want_update node snap) [
  | none ↦ set_stage i w served st
  | some u ↦
      if u.version == cur.version
      then set_stage i w served (record st { store = write u st.store })
      else set_stage i w started st
]

unfoldable pub sweep_uses : (String → String → Bool) → ℕ → List FlowSet → State → State
sweep_uses in_use grace here st =
    let (uses, idle) = sweep in_use st.now grace here st.uses in
    record st { uses = uses; phase = leaving idle }

-- `leave` after its `Get`
unfoldable pub read_leave : String → String → List String → State → State
read_leave node name rest st = elim (find_set name st.store) [
  | none ↦ record st { phase = leaving rest }
  | some cur ↦ record st {
    phase = if contains_text cur.nodes node then removing rest cur else leaving rest;
  }
]

-- The locked part of `leave`, where `cur` is what the server has.
unfoldable pub send_leave : String → ℕ → List String → FlowSet → FlowSet → State → State
send_leave node grace rest snap cur st = elim (leave_update node st.now grace st.uses snap) [
  | none ↦ record st { phase = leaving rest }
  | some u ↦
      if u.version == cur.version
      then record st { store = write u st.store; phase = leaving rest }
      else record st { phase = leaving (snap.name ∷ rest) }
]

module _ (node : String) (grace : ℕ) where
  pub data Step : State → State → Type 0 where
    wait : (st : State) (d : ℕ) → Step st (record st { now = st.now + d })
    want : (st : State) (name : String) → Step st (start_want name st)
    read :
        (st : State) (i : ℕ) (w : Want) (cur : FlowSet)
        → get_elem? st.wants i ≡ some w
        → w.stage ≡ started
        → find_set w.name st.store ≡ some cur
        → Step st (read_want node i w cur st)
    send :
        (st : State) (i : ℕ) (w : Want) (snap cur : FlowSet)
        → get_elem? st.wants i ≡ some w
        → w.stage ≡ holding snap
        → find_set w.name st.store ≡ some cur
        → Step st (send_want node i w snap cur st)
    fail :
        (st : State) (i : ℕ) (w : Want)
        → get_elem? st.wants i ≡ some w
        → w.stage ≢ served
        → Step st (set_stage i w failed st)
    other :
        (st : State) (u cur : FlowSet)
        → find_set u.name st.store ≡ some cur
        → u.version ≡ cur.version
        → Step st (record st { store = write u st.store })
    list :
        (st : State)
        → st.phase ≡ resting
        → Step st (record st { phase = listed (listing node st.store) })
    lock :
        (st : State) (in_use : String → String → Bool) (here : List FlowSet)
        → st.phase ≡ listed here
        → Step st (sweep_uses in_use grace here st)
    next :
        (st : State) (name : String) (rest : List String)
        → st.phase ≡ leaving (name ∷ rest)
        → Step st (read_leave node name rest st)
    remove :
        (st : State) (rest : List String) (snap cur : FlowSet)
        → st.phase ≡ removing rest snap
        → find_set snap.name st.store ≡ some cur
        → Step st (send_leave node grace rest snap cur st)
    quit : (st : State) → Step st (record st { phase = resting })

  pub data Steps : State → State → Type 0 where
    none_yet : (st : State) → Steps st st
    one_more : (st mid new : State) → Steps st mid → Step mid new → Steps st new
