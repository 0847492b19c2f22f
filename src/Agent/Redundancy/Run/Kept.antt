-- ===== src/Agent/Redundancy/Run/Kept.antt =====
-- What holds in every state of the calls: a use on record is no earlier than any call counted on
-- it.
use mathlib.Core.Path.{subst}
use mxl_k8s.Base.{
  ℕ, ◌+◌, ◌≤◌, ◌<◌, ◌≡◌, sym, ◌⊎◌, inl, inr, Bool, true, false, Bool-cases, some, String, List,
  arith, All, All-map, All-set, All-get_elem?, get_elem?,
}
use mxl_k8s.Base.Texts.{same_text, same_text_iff, contains_text}
use mxl_k8s.Agent.Redundancy.{FlowSet, Uses, last_use, record_use, sweep}
use mxl_k8s.Agent.Redundancy.Uses.{
  Has, Moved, record_use-Moved, record_use-Has, last_use-record_use,
}
use mxl_k8s.Agent.Redundancy.Scan.{sweep-Scanned}
use mxl_k8s.Agent.Redundancy.Run.{
  find_set, write, Stage, started, holding, served, failed, Want, Phase, resting, listed, leaving,
  removing, State, start_want, set_stage, sweep_uses,
}
use mxl_k8s.Agent.Redundancy.Run.Listed.{IsListed, IsState, write-IsState, write-IsListed}

-- `ex` holds of a set's name and the time of a call where another writer has since taken the node
-- out of the set.
module _ (node : String) (grace : ℕ) (ex : String → ℕ → Type 0) where
  -- What a call of `Want` for the set, counted since that time, can rely on.
  abbrev pub IsHeld : ℕ → List FlowSet → String → ℕ → Stage → Type 0
  IsHeld now store name since started = Unit
  IsHeld now store name since failed = Unit
  IsHeld now store name since (holding snap) =
      IsState name snap store × (contains_text snap.nodes node ≡ false)
  IsHeld now store name since served =
      now < since + grace → IsListed node name store ⊎ ex name since

  pub record IsCounted (now : ℕ) (store : List FlowSet) (uses : Uses) (w : Want) : Type 0 where
    pub past : w.since ≤ now
    pub counted : (t : ℕ) → last_use w.name uses ≡ some t → w.since ≤ t
    pub held : IsHeld now store w.name w.since w.stage

  abbrev pub IsAt : List FlowSet → Uses → Phase → Type 0
  IsAt store uses resting = Unit
  IsAt store uses (listed here) = Unit
  IsAt store uses (leaving names) = All (λ name. Has name uses) names
  IsAt store uses (removing rest snap) =
      All (λ name. Has name uses) rest × Has snap.name uses × IsState snap.name snap store

  pub record IsSafe (st : State) : Type 0 where
    pub wants : All (IsCounted st.now st.store st.uses) st.wants
    pub at : IsAt st.store st.uses st.phase

  held-wait :
      (now d : ℕ) (store : List FlowSet) (name : String) (since : ℕ) (stage : Stage)
      → IsHeld now store name since stage
      → IsHeld (now + d) store name since stage
  held-wait now d store name since started h = tt
  held-wait now d store name since failed h = tt
  held-wait now d store name since (holding snap) h = h
  held-wait now d store name since served h = λ l. h (omega arith)

  pub wait-IsSafe : (st : State) (d : ℕ) → IsSafe st → IsSafe (record st { now = st.now + d })
  wait-IsSafe st d h = record {
    wants =
        All-map (IsCounted st.now st.store st.uses) (IsCounted (st.now + d) st.store st.uses)
          (λ w x. record {
            past = omega (arith, x.past);
            counted = x.counted;
            held = held-wait st.now d st.store w.name w.since w.stage x.held;
          })
          st.wants h.wants;
    at = h.at;
  }

  -- Uses that move to now leave every call counted.
  moved-IsCounted :
      (now : ℕ) (store : List FlowSet) (old new : Uses) (w : Want)
      → Moved now old new
      → IsCounted now store old w
      → IsCounted now store new w
  moved-IsCounted now store old new w m h = record {
    past = h.past;
    counted = λ t e. elim (m w.name t e) [ inl q ↦ omega (arith, h.past) | inr q ↦ h.counted t q ];
    held = h.held;
  }

  recorded-IsAt :
      (store : List FlowSet) (name : String) (now : ℕ) (uses : Uses) (phase : Phase)
      → IsAt store uses phase
      → IsAt store (record_use name now uses) phase
  recorded-IsAt store name now uses resting h = tt
  recorded-IsAt store name now uses (listed here) h = tt
  recorded-IsAt store name now uses (leaving names) h =
      All-map (λ n. Has n uses) (λ n. Has n (record_use name now uses))
        (λ n x. record_use-Has name n now uses x) names h
  recorded-IsAt store name now uses (removing rest snap) (h, k, s) = (
    All-map (λ n. Has n uses) (λ n. Has n (record_use name now uses))
        (λ n x. record_use-Has name n now uses x) rest h,
    record_use-Has name snap.name now uses k,
    s,
  )

  pub want-IsSafe : (st : State) (name : String) → IsSafe st → IsSafe (start_want name st)
  unfolding start_want
  want-IsSafe st name h = record {
    wants = (
      record {
        past = omega arith;
        counted = λ t e. ground (arith, e, last_use-record_use name st.now st.uses);
        held = tt;
      },
      All-map (IsCounted st.now st.store st.uses)
          (IsCounted st.now st.store (record_use name st.now st.uses))
          (λ w x.
            moved-IsCounted st.now st.store st.uses (record_use name st.now st.uses) w
              (record_use-Moved name st.now st.uses) x)
          st.wants h.wants,
    );
    at = recorded-IsAt st.store name st.now st.uses st.phase h.at;
  }

  pub stage-IsSafe :
      (st : State) (i : ℕ) (w : Want) (stage : Stage)
      → get_elem? st.wants i ≡ some w
      → IsSafe st
      → IsHeld st.now st.store w.name w.since stage
      → IsSafe (set_stage i w stage st)
  stage-IsSafe st i w stage g h k =
      let x = All-get_elem? (IsCounted st.now st.store st.uses) st.wants i h.wants g in
      record {
        wants =
            All-set (IsCounted st.now st.store st.uses) st.wants i (record w { stage = stage })
              h.wants (record { past = x.past; counted = x.counted; held = k });
        at = h.at;
      }

  -- Another place of `Release` leaves the calls as they are.
  pub phase-IsSafe :
      (st : State) (phase : Phase)
      → IsSafe st
      → IsAt st.store st.uses phase
      → IsSafe (record st { phase = phase })
  phase-IsSafe st phase h k = record { wants = h.wants; at = k }

  pub sweep-IsSafe :
      (in_use : String → String → Bool) (here : List FlowSet) (st : State)
      → IsSafe st
      → IsSafe (sweep_uses in_use grace here st)
  unfolding sweep_uses
  sweep-IsSafe in_use here st h =
      let k = sweep-Scanned in_use st.now grace here st.uses in
      record {
        wants =
            All-map (IsCounted st.now st.store st.uses)
              (IsCounted st.now st.store (sweep in_use st.now grace here st.uses).0)
              (λ w x.
                moved-IsCounted st.now st.store st.uses (sweep in_use st.now grace here st.uses).0 w
                  k.moved x)
              st.wants h.wants;
        at = k.idle_known;
      }

  -- Whom an update may take the node from: no call counted within the grace, unless `ex` holds.
  abbrev pub Keeps : ℕ → Uses → FlowSet → FlowSet → Type 0
  Keeps now uses u cur =
      (since : ℕ)
      → ((t : ℕ) → last_use u.name uses ≡ some t → since ≤ t)
      → since ≤ now
      → now < since + grace
      → contains_text cur.nodes node ≡ true
      → (contains_text u.nodes node ≡ true) ⊎ ex u.name since

  IsListed-write :
      (store : List FlowSet) (u cur : FlowSet) (name : String) (since : ℕ)
      → find_set u.name store ≡ some cur
      → IsListed node name store
      → (u.name ≡ name
          → contains_text cur.nodes node ≡ true
          → (contains_text u.nodes node ≡ true) ⊎ ex u.name since)
      → IsListed node name (write u store) ⊎ ex name since
  IsListed-write store u cur name since e here k = elim (Bool-cases (contains_text u.nodes node)) [
    | inl q ↦ inl (write-IsListed u cur store node name e (λ same y. q) here)
    | inr q ↦ elim (Bool-cases (same_text u.name name)) [
      | inr d ↦ inl (
          write-IsListed u cur store node name e
            (λ same. absurd (ground (arith, d, (same_text_iff u.name name).1 same))) here)
      | inl d ↦
          let same = (same_text_iff u.name name).0 d in
          elim (Bool-cases (contains_text cur.nodes node)) [
            | inr c ↦
                inl (
                  write-IsListed u cur store node name e (λ r y. absurd (ground (arith, c, y)))
                    here)
            | inl c ↦ elim (k same c) [
              | inl y ↦ absurd (ground (arith, q, y))
              | inr x ↦ inr (subst (λ n. ex n since) same x)
            ]
          ]
    ]
  ]

  held-write :
      (now : ℕ) (store : List FlowSet) (uses : Uses) (u cur : FlowSet) (name : String) (since : ℕ)
      (stage : Stage)
      → find_set u.name store ≡ some cur
      → u.version ≡ cur.version
      → Keeps now uses u cur
      → ((t : ℕ) → last_use name uses ≡ some t → since ≤ t)
      → since ≤ now
      → IsHeld now store name since stage
      → IsHeld now (write u store) name since stage
  held-write now store uses u cur name since started e v k c p h = tt
  held-write now store uses u cur name since failed e v k c p h = tt
  held-write now store uses u cur name since (holding snap) e v k c p (h, l) =
      (write-IsState u cur store name snap e v h, l)
  held-write now store uses u cur name since served e v k c p h = λ l. elim (h l) [
    | inr x ↦ inr x
    | inl here ↦ IsListed-write store u cur name since e here (λ same.
        k since (subst (λ x. (t : ℕ) → last_use x uses ≡ some t → since ≤ t) (sym same) c) p l)
  ]

  write-IsAt :
      (store : List FlowSet) (uses : Uses) (u cur : FlowSet) (phase : Phase)
      → find_set u.name store ≡ some cur
      → u.version ≡ cur.version
      → IsAt store uses phase
      → IsAt (write u store) uses phase
  write-IsAt store uses u cur resting e v h = tt
  write-IsAt store uses u cur (listed here) e v h = tt
  write-IsAt store uses u cur (leaving names) e v h = h
  write-IsAt store uses u cur (removing rest snap) e v (h, k, s) =
      (h, k, write-IsState u cur store snap.name snap e v s)

  pub write-IsSafe :
      (st : State) (u cur : FlowSet)
      → find_set u.name st.store ≡ some cur
      → u.version ≡ cur.version
      → Keeps st.now st.uses u cur
      → IsSafe st
      → IsSafe (record st { store = write u st.store })
  write-IsSafe st u cur e v k h = record {
    wants =
        All-map (IsCounted st.now st.store st.uses) (IsCounted st.now (write u st.store) st.uses)
          (λ w x. record {
            past = x.past;
            counted = x.counted;
            held =
                held-write st.now st.store st.uses u cur w.name w.since w.stage e v k x.counted
                  x.past x.held;
          })
          st.wants h.wants;
    at = write-IsAt st.store st.uses u cur st.phase e v h.at;
  }
