-- ===== src/Operator/Leases/Collected.antt =====
-- Which Leases are deleted.
use mxl_k8s.Base.{
  ℕ, ◌+◌, ◌-◌, ◌^◌, ◌≤◌, ◌<◌, ◌≡◌, refl, sym, ap, ◌∙◌, ◌⊎◌, inl, inr, Bool, true, false, Option,
  none, some, arith, ◌==◌, ==_iff, Bool-cases, Option-cases,
}
use mxl_k8s.Base.Int.{pos, ◌+ℤ◌, ltb_ℤ}
use mxl_k8s.Base.Words.{second, sub_time, add_i64, add_i64_same}
use mxl_k8s.Api.Names.{Bytes, FlowRef, flow_name, parse_lease_name_for}
use mxl_k8s.Operator.Fetching.{Fetched, fetched, missing, failed}
use mxl_k8s.Operator.Leases.{
  Lease, expiry, Collection, done, later, again, error, orphaned, delete_lease, collect,
}

-- The node of the Lease has left the cluster, or its flow is gone.
abbrev pub IsOrphan :
    (Bytes → Fetched (Unit {0})) → (Bytes → Fetched (Unit {0})) → FlowRef → Bytes → Type 0
IsOrphan nodes flows ref node =
    (nodes node ≡ missing) ⊎ ((nodes node ≡ fetched tt) × (flows (flow_name ref) ≡ missing))

waits :
    (deadline now : ℕ)
    → deadline < 2 ^ 62
    → now < deadline
    → (ltb_ℤ (pos 0) (sub_time deadline now) ≡ true)
      × (add_i64 (sub_time deadline now) (pos second) ≡ pos (deadline - now + second))
unfolding sub_time
waits deadline now h k =
    let left : sub_time deadline now ≡ pos (deadline - now) = ground arith in
    let room : pos (deadline - now) +ℤ pos second ≡ pos (deadline - now + second) = ground arith in
    (
      ground arith,
      ap (λ w. add_i64 w (pos second)) left
          ∙ add_i64_same (pos (deadline - now)) (pos second) (ground arith)
          ∙ room,
    )

pub over : (deadline now : ℕ) → deadline ≤ now → ltb_ℤ (pos 0) (sub_time deadline now) ≡ false
unfolding sub_time
over deadline now h = ground arith

over_of : (deadline now : ℕ) → ltb_ℤ (pos 0) (sub_time deadline now) ≡ false → deadline ≤ now
unfolding sub_time
over_of deadline now q = ground (arith, q)

module _ (nodes flows : Bytes → Fetched (Unit {0})) (succeeds : Bool) (now : ℕ) where
  orphaned-IsOrphan :
      (ref : FlowRef) (node : Bytes)
      → orphaned nodes flows (flow_name ref) node ≡ some true
      → IsOrphan nodes flows ref node
  unfolding orphaned
  orphaned-IsOrphan ref node e = by_node (nodes node) (flows (flow_name ref)) refl refl
    where
      by_node :
          (n f : Fetched (Unit {0}))
          → nodes node ≡ n
          → flows (flow_name ref) ≡ f
          → IsOrphan nodes flows ref node
      by_node missing f p q = inl p
      by_node failed f p q = absurd (ground (arith, e, p))
      by_node (fetched u) missing p q = inr (p, q)
      by_node (fetched u) failed p q = absurd (ground (arith, e, p, q))
      by_node (fetched u) (fetched v) p q = absurd (ground (arith, e, p, q))

  IsOrphan-orphaned :
      (ref : FlowRef) (node : Bytes)
      → IsOrphan nodes flows ref node
      → orphaned nodes flows (flow_name ref) node ≡ some true
  unfolding orphaned
  IsOrphan-orphaned ref node (inl p) = rw (orphaned, p) refl
  IsOrphan-orphaned ref node (inr (p, q)) = rw (orphaned, p, q) refl

  -- A Lease that is orphaned and past its window, and that the server still holds, is deleted.
  pub collect_past :
      (l : Lease) (ref : FlowRef) (node : Bytes)
      → succeeds ≡ true
      → parse_lease_name_for l.name ≡ some (ref, node)
      → expiry l ≤ now
      → IsOrphan nodes flows ref node
      → collect nodes flows succeeds now (fetched l) (some l) ≡ (none, done)
  unfolding collect delete_lease
  collect_past l ref node s p h o =
      rw
        (
          collect,
          delete_lease,
          p,
          over (expiry l) now h,
          IsOrphan-orphaned ref node o,
          (==_iff l.version l.version).1 refl,
          s,
        )
        refl

  -- One within its window is left, and looked at again.
  pub collect_within :
      (l : Lease) (held : Option Lease) (ref : FlowRef) (node : Bytes)
      → parse_lease_name_for l.name ≡ some (ref, node)
      → expiry l < 2 ^ 62
      → now < expiry l
      → collect nodes flows succeeds now (fetched l) held
        ≡ (held, later (pos (expiry l - now + second)))
  unfolding collect
  collect_within l held ref node p h k =
      let (w, v) = waits (expiry l) now h k in rw (collect, p, w, v) refl

  -- The Lease that the call read is the one it deleted, is past its window, and is an orphan's.
  abbrev pub IsCollectable : Fetched Lease → Lease → Type 0
  IsCollectable read held =
      (l : Lease) × (ref : FlowRef) × (node : Bytes) × (read ≡ fetched l)
      × (held.version ≡ l.version)
      × (expiry l ≤ now)
      × (parse_lease_name_for l.name ≡ some (ref, node))
      × IsOrphan nodes flows ref node

  gone :
      (read held : Lease) (c : Collection)
      → delete_lease succeeds read (some held) ≡ (none, c)
      → held.version ≡ read.version
  unfolding delete_lease
  gone read held c e = elim (Bool-cases (held.version == read.version)) [
    | inl q ↦ (==_iff held.version read.version).0 q
    | inr q ↦
        let kept : delete_lease succeeds read (some held) ≡ (some held, again) =
          rw (delete_lease, q) refl in
        absurd (ground (arith, ap (λ x. x.0) (sym kept ∙ e)))
  ]

  kept :
      (held : Lease) (c d : Collection)
      → ◌≡◌ {A = Option Lease × Collection} (some held, c) (none, d)
      → ⊥
  kept held c d e = absurd (ground (arith, ap (λ x. x.0) e))

-- Where a call deletes the Lease that the server holds, that is the version that the call read;
-- its window is over; its name is that of a Lease of a flow's origin; and the node that the name
-- gives has left the cluster, or the flow is gone.
pub collect-IsCollectable :
    (nodes flows : Bytes → Fetched (Unit {0})) (succeeds : Bool) (now : ℕ) (read : Fetched Lease)
    (held : Lease) (c : Collection)
    → collect nodes flows succeeds now read (some held) ≡ (none, c)
    → IsCollectable nodes flows succeeds now read held
unfolding collect
collect-IsCollectable nodes flows succeeds now missing held c e =
    absurd (kept nodes flows succeeds now held done c e)
collect-IsCollectable nodes flows succeeds now failed held c e =
    absurd (kept nodes flows succeeds now held error c e)
collect-IsCollectable nodes flows succeeds now (fetched l) held c e =
    elim (Option-cases (parse_lease_name_for l.name)) [
      | inl p ↦
          let ends : collect nodes flows succeeds now (fetched l) (some held) ≡ (some held, done) =
            rw (collect, p) refl in
          absurd (kept nodes flows succeeds now held done c (sym ends ∙ e))
      | inr ((ref, node), p) ↦ elim (Bool-cases (ltb_ℤ (pos 0) (sub_time (expiry l) now))) [
        | inl w ↦
            let ends : collect nodes flows succeeds now (fetched l) (some held)
                ≡ (some held, later (add_i64 (sub_time (expiry l) now) (pos second))) =
              rw (collect, p, w) refl in
            absurd (
              kept nodes flows succeeds now held
                (later (add_i64 (sub_time (expiry l) now) (pos second))) c (sym ends ∙ e))
        | inr w ↦
            by_orphan ref node p (over_of (expiry l) now w) w
              (orphaned nodes flows (flow_name ref) node) refl
      ]
    ]
  where
    by_orphan :
        (ref : FlowRef) (node : Bytes)
        → parse_lease_name_for l.name ≡ some (ref, node)
        → expiry l ≤ now
        → ltb_ℤ (pos 0) (sub_time (expiry l) now) ≡ false
        → (o : Option Bool) → orphaned nodes flows (flow_name ref) node ≡ o
        → IsCollectable nodes flows succeeds now (fetched l) held
    by_orphan ref node p h w none q =
        let ends : collect nodes flows succeeds now (fetched l) (some held) ≡ (some held, error) =
          rw (collect, p, w, q) refl in
        absurd (kept nodes flows succeeds now held error c (sym ends ∙ e))
    by_orphan ref node p h w (some false) q =
        let ends : collect nodes flows succeeds now (fetched l) (some held) ≡ (some held, done) =
          rw (collect, p, w, q) refl in
        absurd (kept nodes flows succeeds now held done c (sym ends ∙ e))
    by_orphan ref node p h w (some true) q =
        let ends : collect nodes flows succeeds now (fetched l) (some held)
            ≡ delete_lease succeeds l (some held) =
          rw (collect, p, w, q) refl in
        (
          l,
          ref,
          node,
          refl,
          gone nodes flows succeeds now l held c (sym ends ∙ e),
          h,
          p,
          orphaned-IsOrphan nodes flows succeeds now ref node q,
        )
