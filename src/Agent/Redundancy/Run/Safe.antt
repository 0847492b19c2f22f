-- ===== src/Agent/Redundancy/Run/Safe.antt =====
-- Every step keeps what holds of the calls, so a node stays listed for the grace after `Want`
-- returned, unless another writer takes it out.
use mathlib.Core.Path.{subst}
use mxl_k8s.Base.{
  ℕ, suc, ◌+◌, ◌≤◌, ◌<◌, ◌≡◌, refl, sym, ap, ◌∙◌, ◌⊎◌, inl, inr, true, false, some, String, List,
  [], ◌∷◌, ◌++◌, arith, All-get_elem?, get_elem?, ◌==◌, ==_iff, Bool-cases, Option-cases,
}
use mxl_k8s.Base.Texts.{same_text_iff, contains_text}
use mxl_k8s.Agent.Redundancy.{
  FlowSet, Uses, last_use, want_update, leave_update, used_again, without_node, listing,
}
use mxl_k8s.Agent.Redundancy.Uses.{Has, contains-append}
use mxl_k8s.Agent.Redundancy.Run.{
  find_set, write, started, holding, served, failed, Want, resting, listed, leaving, removing,
  State, read_want, send_want, read_leave, send_leave, Step, wait, want, read, send, fail, other,
  list, lock, next, remove, quit, Steps, none_yet, one_more,
}
use mxl_k8s.Agent.Redundancy.Run.Listed.{
  IsListed, IsState, read-IsState, find_set-name, find_set-write,
}
use mxl_k8s.Agent.Redundancy.Run.Kept.{
  IsHeld, IsCounted, IsAt, IsSafe, wait-IsSafe, want-IsSafe, stage-IsSafe, phase-IsSafe,
  sweep-IsSafe, Keeps, write-IsSafe,
}

module _ (node : String) (grace : ℕ) (name : String) (since : ℕ) where
  -- Another writer takes the node out of the set, at that time or later.
  abbrev pub TakesOut : (st new : State) → Step node grace st new → Type 0
  TakesOut _ _ (wait st d) = ⊥
  TakesOut _ _ (want st n) = ⊥
  TakesOut _ _ (read st i w cur g p e) = ⊥
  TakesOut _ _ (send st i w snap cur g p e) = ⊥
  TakesOut _ _ (fail st i w g ne) = ⊥
  TakesOut _ _ (other st u cur e v) =
      (u.name ≡ name)
      × (since ≤ st.now)
      × (contains_text cur.nodes node ≡ true)
      × (contains_text u.nodes node ≡ false)
  TakesOut _ _ (list st p) = ⊥
  TakesOut _ _ (lock st in_use here p) = ⊥
  TakesOut _ _ (next st n rest p) = ⊥
  TakesOut _ _ (remove st rest snap cur p e) = ⊥
  TakesOut _ _ (quit st) = ⊥

  -- Some step of the run does.
  abbrev pub WasTakenOut : (st new : State) → Steps node grace st new → Type 0
  WasTakenOut _ _ (none_yet st) = ⊥
  WasTakenOut _ _ (one_more st mid new s x) = WasTakenOut st mid s ⊎ TakesOut mid new x

module _ (node : String) (grace : ℕ) (ex : String → ℕ → Type 0) where
  abbrev with_node : FlowSet → FlowSet
  with_node snap = record snap { nodes = snap.nodes ++ (node ∷ []) }

  adds : (snap : FlowSet) → contains_text (with_node snap).nodes node ≡ true
  adds snap = ground (arith, contains-append snap.nodes node node, same_text_iff node node)

  read-IsSafe :
      (st : State) (i : ℕ) (w : Want) (cur : FlowSet)
      → get_elem? st.wants i ≡ some w
      → find_set w.name st.store ≡ some cur
      → IsSafe node grace ex st
      → IsSafe node grace ex (read_want node i w cur st)
  unfolding read_want want_update
  read-IsSafe st i w cur g e h = elim (Bool-cases (contains_text cur.nodes node)) [
    | inl q ↦
        rw (read_want, q) (stage-IsSafe node grace ex st i w served g h (λ l. inl (cur, e, q)))
    | inr q ↦
        rw (read_want, q)
          (stage-IsSafe node grace ex st i w (holding cur) g h
            (read-IsState w.name st.store cur e, q))
  ]

  send-IsSafe :
      (st : State) (i : ℕ) (w : Want) (snap cur : FlowSet)
      → get_elem? st.wants i ≡ some w
      → w.stage ≡ holding snap
      → find_set w.name st.store ≡ some cur
      → IsSafe node grace ex st
      → IsSafe node grace ex (send_want node i w snap cur st)
  unfolding send_want want_update
  send-IsSafe st i w snap cur g p e h =
      let x =
        All-get_elem? (IsCounted node grace ex st.now st.store st.uses) st.wants i h.wants g in
      let (is, q) = subst (IsHeld node grace ex st.now st.store w.name w.since) p x.held in
      rw (send_want, q)
        (elim (Bool-cases (snap.version == cur.version)) [
          | inr v ↦ rw v (stage-IsSafe node grace ex st i w started g h tt)
          | inl v ↦
              let at : find_set snap.name st.store ≡ some cur =
                subst (λ n. find_set n st.store ≡ some cur) (sym is.0) e in
              let k =
                write-IsSafe node grace ex st (with_node snap) cur at ((==_iff _ _).0 v)
                  (λ since c past l y. inl (adds snap)) h in
              rw v (
                stage-IsSafe node grace ex (record st { store = write (with_node snap) st.store }) i
                  w served g k
                  (λ l. inl (
                    record (with_node snap) { version = suc snap.version },
                    subst
                        (λ n.
                          find_set n (write (with_node snap) st.store)
                          ≡ some (record (with_node snap) { version = suc snap.version }))
                        is.0 (find_set-write (with_node snap) st.store cur at),
                    adds snap,
                  )))
        ])

  next-IsSafe :
      (st : State) (name : String) (rest : List String)
      → st.phase ≡ leaving (name ∷ rest)
      → IsSafe node grace ex st
      → IsSafe node grace ex (read_leave node name rest st)
  unfolding read_leave
  next-IsSafe st name rest p h =
      let (has, more) = subst (IsAt node grace ex st.store st.uses) p h.at in
      elim (Option-cases (find_set name st.store)) [
        | inl e ↦ rw (read_leave, e) (phase-IsSafe node grace ex st (leaving rest) h more)
        | inr (cur, e) ↦ elim (Bool-cases (contains_text cur.nodes node)) [
          | inr q ↦ rw (read_leave, e, q) (phase-IsSafe node grace ex st (leaving rest) h more)
          | inl q ↦
              let same = find_set-name name st.store cur e in
              rw (read_leave, e, q)
                (phase-IsSafe node grace ex st (removing rest cur) h (
                  more,
                  subst (λ n. Has n st.uses) (sym same) has,
                  subst (λ n. IsState n cur st.store) (sym same) (read-IsState name st.store cur e),
                ))
        ]
      ]

  -- The update of `leave` takes the node from no call counted within the grace.
  leave-Keeps :
      (now : ℕ) (uses : Uses) (u snap cur : FlowSet) (t : ℕ)
      → u.name ≡ snap.name
      → last_use snap.name uses ≡ some t
      → used_again now grace snap.name uses ≡ false
      → Keeps node grace ex now uses u cur
  unfolding used_again
  leave-Keeps now uses u snap cur t same e q since c past l y =
      let late : t + grace ≤ now = ground (arith, e, q) in
      let early : since ≤ t = c t (ap (λ n. last_use n uses) same ∙ e) in absurd (omega arith)

  remove-IsSafe :
      (st : State) (rest : List String) (snap cur : FlowSet)
      → st.phase ≡ removing rest snap
      → find_set snap.name st.store ≡ some cur
      → IsSafe node grace ex st
      → IsSafe node grace ex (send_leave node grace rest snap cur st)
  unfolding send_leave leave_update
  remove-IsSafe st rest snap cur p e h =
      let (more, (t, has), is) = subst (IsAt node grace ex st.store st.uses) p h.at in
      let u : FlowSet = record snap { nodes = without_node node snap.nodes } in
      elim (Bool-cases (contains_text snap.nodes node)) [
        | inr q ↦ rw (send_leave, q) (phase-IsSafe node grace ex st (leaving rest) h more)
        | inl q ↦ elim (Bool-cases (used_again st.now grace snap.name st.uses)) [
          | inl a ↦ rw (send_leave, q, a) (phase-IsSafe node grace ex st (leaving rest) h more)
          | inr a ↦ elim (Bool-cases (snap.version == cur.version)) [
            | inr v ↦
                rw (send_leave, q, a, v)
                  (phase-IsSafe node grace ex st (leaving (snap.name ∷ rest)) h ((t, has), more))
            | inl v ↦
                rw (send_leave, q, a, v)
                  (phase-IsSafe node grace ex (record st { store = write u st.store })
                    (leaving rest)
                    (write-IsSafe node grace ex st u cur e ((==_iff _ _).0 v)
                      (leave-Keeps st.now st.uses u snap cur t refl has a) h)
                    more)
          ]
        ]
      ]

  -- Every step keeps what holds of the calls.
  Step-IsSafe :
      (st new : State) (x : Step node grace st new)
      → ((name : String) (since : ℕ) → TakesOut node grace name since st new x → ex name since)
      → IsSafe node grace ex st
      → IsSafe node grace ex new
  Step-IsSafe _ _ (wait st d) k h = wait-IsSafe node grace ex st d h
  Step-IsSafe _ _ (want st name) k h = want-IsSafe node grace ex st name h
  Step-IsSafe _ _ (read st i w cur g p e) k h = read-IsSafe st i w cur g e h
  Step-IsSafe _ _ (send st i w snap cur g p e) k h = send-IsSafe st i w snap cur g p e h
  Step-IsSafe _ _ (fail st i w g ne) k h = stage-IsSafe node grace ex st i w failed g h tt
  Step-IsSafe _ _ (other st u cur e v) k h =
      write-IsSafe node grace ex st u cur e v
        (λ since c past l y. elim (Bool-cases (contains_text u.nodes node)) [
          | inl q ↦ inl q
          | inr q ↦ inr (k u.name since (refl, past, y, q))
        ])
        h
  Step-IsSafe _ _ (list st p) k h =
      phase-IsSafe node grace ex st (listed (listing node st.store)) h tt
  Step-IsSafe _ _ (lock st in_use here p) k h = sweep-IsSafe node grace ex in_use here st h
  Step-IsSafe _ _ (next st name rest p) k h = next-IsSafe st name rest p h
  Step-IsSafe _ _ (remove st rest snap cur p e) k h = remove-IsSafe st rest snap cur p e h
  Step-IsSafe _ _ (quit st) k h = phase-IsSafe node grace ex st resting h tt

  Steps-IsSafe :
      (st new : State) (s : Steps node grace st new)
      → ((name : String) (since : ℕ) → WasTakenOut node grace name since st new s → ex name since)
      → IsSafe node grace ex st
      → IsSafe node grace ex new
  Steps-IsSafe _ _ (none_yet st) k h = h
  Steps-IsSafe _ _ (one_more st mid new s x) k h =
      Step-IsSafe mid new x (λ n t y. k n t (inr y))
        (Steps-IsSafe st mid s (λ n t y. k n t (inl y)) h)

-- The agent when it starts: no use is on record and no call runs, whatever the sets are.
abbrev pub fresh_state : List FlowSet → ℕ → State
fresh_state store now = record { store = store; uses = []; now = now; phase = resting; wants = [] }

-- Whatever the calls of `Want`, the loop of `Release`, the other writers and the clock did since
-- the agent started, in any order of their steps, where no set is deleted: a set whose output a
-- call of `Want` returned for lists the node until the grace is over, counted from when the call
-- recorded its use, unless another writer took the node out of that set after the call recorded
-- it.
pub Steps-IsListed :
    (node : String) (grace : ℕ) (store : List FlowSet) (start : ℕ) (st : State) (i : ℕ) (w : Want)
    (s : Steps node grace (fresh_state store start) st)
    → get_elem? st.wants i ≡ some w
    → w.stage ≡ served
    → st.now < w.since + grace
    → IsListed node w.name st.store
      ⊎ WasTakenOut node grace w.name w.since (fresh_state store start) st s
Steps-IsListed node grace store start st i w s g p l =
    let ex : String → ℕ → Type 0 =
      λ name since. WasTakenOut node grace name since (fresh_state store start) st s in
    let h =
      Steps-IsSafe node grace ex (fresh_state store start) st s (λ n t y. y)
        (record { wants = tt; at = tt }) in
    let x = All-get_elem? (IsCounted node grace ex st.now st.store st.uses) st.wants i h.wants g in
    subst (IsHeld node grace ex st.now st.store w.name w.since) p x.held l
