-- ===== src/Operator/RedundancySet/Paths/Told.antt =====
-- `pathsDisjoint` answers by the ports of the mirrors.
use mathlib.Core.Path.{subst, fun_ext}
use mxl_k8s.Base.{
  ℕ, ◌+◌, ◌<◌, ◌≡◌, refl, ◌⊎◌, inl, inr, Option, none, some, List, [], ◌∷◌, String, arith, All, ltb,
  Bool-cases,
}
use mxl_k8s.Api.Names.{Bytes, FlowRef}
use mxl_k8s.Placement.Node.{Provider}
use mxl_k8s.Placement.Ledger.{Placement}
use mxl_k8s.Operator.RedundancySet.{FlowMirror, Mirrors}
use mxl_k8s.Operator.RedundancySet.Paths.{
  Paths, disjoint, shared_target, shared_source, unplaced, Seen, Looked, ended, going, look_on,
  look_all, paths_disjoint, Leaving, live_mirror,
}
use mxl_k8s.Operator.RedundancySet.Paths.Ports.{
  Fresh, waiting, arrivals, departures, IsShared, IsTarget, IsSource,
}
use mxl_k8s.Operator.RedundancySet.Paths.Fabric.{
  place_of, mirror_to, ports_of, live_mirror-mirror_to, place_of-ports_of,
}
use mxl_k8s.Operator.RedundancySet.Paths.OneNode.{LookedOn, look_on-LookedOn}

module _ (live : Bytes → FlowRef → Option FlowMirror)
    (place : Bytes → FlowMirror → Placement → String × Leaving) (refs : List FlowRef) where
  -- No two mirrors to one of the nodes arrive at one port.
  abbrev pub ArriveApart : List Bytes → Type 0
  ArriveApart nodes = All (λ node. Fresh [] (arrivals live place node refs)) nodes

  -- No two mirrors to one of the nodes leave one node by one port.
  abbrev pub LeaveApart : List Bytes → Type 0
  LeaveApart nodes = All (λ node. Fresh [] (departures live place node refs)) nodes

  -- How many mirrors to the nodes are not placed.
  abbrev pub all_waiting : List Bytes → ℕ
  all_waiting [] = 0
  all_waiting (node ∷ nodes) = waiting live place node refs + all_waiting nodes

  -- What an answer says of the mirrors to the nodes.
  abbrev pub IsTold : List Bytes → Paths → Type 0
  IsTold nodes disjoint = ArriveApart nodes × LeaveApart nodes × (all_waiting nodes ≡ 0)
  IsTold nodes (unplaced n) =
      ArriveApart nodes × LeaveApart nodes × (all_waiting nodes ≡ n) × (0 < n)
  IsTold nodes (shared_target a b node port) =
      ¬ ArriveApart nodes × IsShared live place (shared_target a b node port)
  IsTold nodes (shared_source a b node from port) =
      ArriveApart nodes
      × ¬ LeaveApart nodes
      × IsShared live place (shared_source a b node from port)

module _ (lower : ℕ → ℕ) (caps : Bytes → Option (List Provider)) (mirrors : Mirrors)
    (refs : List FlowRef) where
  record AllNoted (nodes : List Bytes) (before after : Option Paths) : Type 0 where
    pub clear :
        after ≡ none
        → (before ≡ none) × LeaveApart (live_mirror lower mirrors) (place_of caps) refs nodes
    pub noted :
        (p : Paths)
        → after ≡ some p
        → (before ≡ some p)
          ⊎ (IsSource (live_mirror lower mirrors) (place_of caps) p
              × IsShared (live_mirror lower mirrors) (place_of caps) p
              × ¬ LeaveApart (live_mirror lower mirrors) (place_of caps) refs nodes)

  abbrev LookedAll : List Bytes → Option Paths → ℕ → Looked → Type 0
  LookedAll nodes before count (ended p) =
      IsTarget (live_mirror lower mirrors) (place_of caps) p
      × IsShared (live_mirror lower mirrors) (place_of caps) p
      × ¬ ArriveApart (live_mirror lower mirrors) (place_of caps) refs nodes
  LookedAll nodes before count (going after total) =
      ArriveApart (live_mirror lower mirrors) (place_of caps) refs nodes
      × (total ≡ count + all_waiting (live_mirror lower mirrors) (place_of caps) refs nodes)
      × AllNoted nodes before after

  -- What the loop over a node's members begins with.
  abbrev started : Option Paths → ℕ → Seen
  started before count = record {
    targets = [];
    sources = [];
    shared = before;
    unplaced_count = count;
  }

  one_more :
      (node : Bytes) (nodes : List Bytes) (before mid : Option Paths) (count more : ℕ) (l : Looked)
      → LookedOn lower caps mirrors node refs (started before count) (going mid more)
      → LookedAll nodes mid more l
      → LookedAll (node ∷ nodes) before count l
  one_more node nodes before mid count more (ended p) (a, b, c) (x, y, z) = (x, y, λ f. z f.1)
  one_more node nodes before mid count more (going after total) (a, b, c) (x, y, z) = (
    (a, x),
    omega (arith, b, y),
    record {
      clear = λ e. let (e', f) = z.clear e in let (e'', f') = c.clear e' in (e'', (f', f));
      noted = λ p e. elim (z.noted p e) [
        | inr (s, t, n) ↦ inr (s, t, λ f. n f.1)
        | inl e' ↦ elim (c.noted p e') [
          | inl e'' ↦ inl e''
          | inr (s, t, n) ↦ inr (s, t, λ f. n f.0)
        ]
      ];
    },
  )

  look_all-LookedAll :
      (nodes : List Bytes) (before : Option Paths) (count : ℕ)
      → LookedAll nodes before count (look_all lower caps mirrors refs nodes before count)
  unfolding look_all
  look_all-LookedAll [] before count =
      (tt, omega arith, record { clear = λ e. (e, tt); noted = λ p e. inl e })
  look_all-LookedAll (node ∷ nodes) before count =
      by_node (look_on lower caps mirrors node refs (started before count)) refl
        (look_on-LookedOn lower caps mirrors node refs (started before count)
          (record { targets = tt; sources = tt }))
        (look_all-LookedAll nodes)
    where
      by_node :
          (l : Looked)
          → look_on lower caps mirrors node refs (started before count) ≡ l
          → LookedOn lower caps mirrors node refs (started before count) l
          → ((mid : Option Paths) (more : ℕ)
              → LookedAll nodes mid more (look_all lower caps mirrors refs nodes mid more))
          → LookedAll
              (node ∷ nodes)
              before
              count
              (look_all lower caps mirrors refs (node ∷ nodes) before count)
      by_node (ended p) e (x, y, z) r =
          let same : ended p ≡ look_all lower caps mirrors refs (node ∷ nodes) before count =
            rw (look_all, e) refl in
          subst (LookedAll (node ∷ nodes) before count) same (x, y, λ f. z f.0)
      by_node (going mid more) e h r =
          let same : look_all lower caps mirrors refs nodes mid more
              ≡ look_all lower caps mirrors refs (node ∷ nodes) before count =
            rw (look_all, e) refl in
          subst (LookedAll (node ∷ nodes) before count) same (
            one_more node nodes before mid count more
              (look_all lower caps mirrors refs nodes mid more) h (r mid more))

  IsTarget-IsTold :
      (nodes : List Bytes) (p : Paths)
      → IsTarget (live_mirror lower mirrors) (place_of caps) p
      → IsShared (live_mirror lower mirrors) (place_of caps) p
      → ¬ ArriveApart (live_mirror lower mirrors) (place_of caps) refs nodes
      → IsTold (live_mirror lower mirrors) (place_of caps) refs nodes p
  IsTarget-IsTold nodes disjoint i s n = absurd i
  IsTarget-IsTold nodes (unplaced k) i s n = absurd i
  IsTarget-IsTold nodes (shared_target a b node port) i s n = (n, s)
  IsTarget-IsTold nodes (shared_source a b node from port) i s n = absurd i

  IsSource-IsTold :
      (nodes : List Bytes) (p : Paths)
      → IsSource (live_mirror lower mirrors) (place_of caps) p
      → IsShared (live_mirror lower mirrors) (place_of caps) p
      → ArriveApart (live_mirror lower mirrors) (place_of caps) refs nodes
      → ¬ LeaveApart (live_mirror lower mirrors) (place_of caps) refs nodes
      → IsTold (live_mirror lower mirrors) (place_of caps) refs nodes p
  IsSource-IsTold nodes disjoint i s a n = absurd i
  IsSource-IsTold nodes (unplaced k) i s a n = absurd i
  IsSource-IsTold nodes (shared_target x b node port) i s a n = absurd i
  IsSource-IsTold nodes (shared_source x b node from port) i s a n = (a, n, s)

looked-IsTold :
    (lower : ℕ → ℕ) (caps : Bytes → Option (List Provider)) (mirrors : Mirrors)
    (refs : List FlowRef) (nodes : List Bytes)
    → IsTold
        (live_mirror lower mirrors)
        (place_of caps)
        refs
        nodes
        (paths_disjoint lower caps mirrors refs nodes)
unfolding paths_disjoint
looked-IsTold lower caps mirrors refs nodes =
    by_look (look_all lower caps mirrors refs nodes none 0) refl
      (look_all-LookedAll lower caps mirrors refs nodes none 0)
  where
    by_look :
        (l : Looked)
        → look_all lower caps mirrors refs nodes none 0 ≡ l
        → LookedAll lower caps mirrors refs nodes none 0 l
        → IsTold
            (live_mirror lower mirrors)
            (place_of caps)
            refs
            nodes
            (paths_disjoint lower caps mirrors refs nodes)
    by_look (ended p) e (x, y, z) =
        let same : p ≡ paths_disjoint lower caps mirrors refs nodes = rw (paths_disjoint, e) refl in
        subst (IsTold (live_mirror lower mirrors) (place_of caps) refs nodes) same
          (IsTarget-IsTold lower caps mirrors refs nodes p x y z)
    by_look (going (some p) total) e (x, y, z) =
        let same : p ≡ paths_disjoint lower caps mirrors refs nodes = rw (paths_disjoint, e) refl in
        elim (z.noted p refl) [
          | inl q ↦ absurd (ground (arith, q))
          | inr (s, t, n) ↦
              subst (IsTold (live_mirror lower mirrors) (place_of caps) refs nodes) same
                (IsSource-IsTold lower caps mirrors refs nodes p s t x n)
        ]
    by_look (going none total) e (x, y, z) = elim (Bool-cases (ltb 0 total)) [
      | inl q ↦
          let same : unplaced total ≡ paths_disjoint lower caps mirrors refs nodes =
            rw (paths_disjoint, e, q) refl in
          subst (IsTold (live_mirror lower mirrors) (place_of caps) refs nodes) same
            (x, (z.clear refl).1, omega (arith, y), ground (arith, q))
      | inr q ↦
          let same : disjoint ≡ paths_disjoint lower caps mirrors refs nodes =
            rw (paths_disjoint, e, q) refl in
          subst (IsTold (live_mirror lower mirrors) (place_of caps) refs nodes) same
            (x, (z.clear refl).1, ground (arith, y, q))
    ]

-- `pathsDisjoint` answers that the mirrors are disjoint where on each node no two arrive at one
-- port and no two leave one node by one port, and all are placed. Otherwise it names two members
-- that arrive at one port of a node; or, where no two do on any node, two that leave one node by
-- one port; or, where there are none of these either, how many mirrors are not placed. A member's
-- mirror to a node is what is held under its name and is not being deleted; a port is the device of
-- the first interface that the node's capabilities list at the address under the provider, or the
-- address where they list none or it has no device.
pub paths_disjoint-IsTold :
    (lower : ℕ → ℕ) (caps : Bytes → Option (List Provider)) (mirrors : Mirrors)
    (refs : List FlowRef) (nodes : List Bytes)
    → IsTold
        (mirror_to lower mirrors)
        (ports_of caps)
        refs
        nodes
        (paths_disjoint lower caps mirrors refs nodes)
paths_disjoint-IsTold lower caps mirrors refs nodes =
    let is : live_mirror lower mirrors ≡ mirror_to lower mirrors =
      fun_ext (λ node. fun_ext (λ ref. live_mirror-mirror_to lower mirrors node ref)) in
    let at : place_of caps ≡ ports_of caps =
      fun_ext (λ node. fun_ext (λ m. fun_ext (λ p. place_of-ports_of caps node m p))) in
    let told = looked-IsTold lower caps mirrors refs nodes in
    subst (λ x. IsTold x (ports_of caps) refs nodes (paths_disjoint lower caps mirrors refs nodes))
      is
      (subst
        (λ x.
          IsTold (live_mirror lower mirrors) x refs nodes
            (paths_disjoint lower caps mirrors refs nodes))
        at told)
