-- ===== src/Operator/RedundancySet/Paths/OneNode.antt =====
-- The loop of `pathsDisjoint` over the members, for one node.
use mathlib.Core.Path.{subst}
use mxl_k8s.Base.{
  ℕ, ◌+◌, ◌≡◌, refl, sym, ◌⊎◌, inl, inr, Option, none, some, String, List, [], ◌∷◌, map, arith, All,
  Option-cases,
}
use mxl_k8s.Base.Texts.{same_text, same_text_iff}
use mxl_k8s.Api.Names.{Bytes, FlowRef}
use mxl_k8s.Placement.Node.{Provider}
use mxl_k8s.Placement.Ledger.{Placement}
use mxl_k8s.Operator.RedundancySet.{FlowMirror, Mirrors}
use mxl_k8s.Operator.RedundancySet.Paths.{
  Paths, shared_target, shared_source, entry, Leaving, same_leaving, Seen, Looked, ended, going,
  arrives, leaves, note_source, live_mirror, look_on,
}
use mxl_k8s.Operator.RedundancySet.Paths.Ports.{
  Fresh, keys, entry-none, entry-some, same_leaving_iff, places, waiting, arrivals, departures,
  ArrivesAt, LeavesBy, IsShared, IsTarget, IsSource,
}
use mxl_k8s.Operator.RedundancySet.Paths.Fabric.{place_of}

module _ (lower : ℕ → ℕ) (caps : Bytes → Option (List Provider)) (mirrors : Mirrors) where
  -- The note of a shared source that the loop makes over the keys.
  pub record IsNoted (seen ks : List Leaving) (before after : Option Paths) : Type 0 where
    pub clear : after ≡ none → (before ≡ none) × Fresh seen ks
    pub noted :
        (p : Paths)
        → after ≡ some p
        → (before ≡ some p)
          ⊎ (IsSource (live_mirror lower mirrors) (place_of caps) p
              × IsShared (live_mirror lower mirrors) (place_of caps) p
              × ¬ Fresh seen ks)

  -- The entries of the maps are of mirrors that are placed there.
  pub record IsSeen (node : Bytes) (seen : Seen) : Type 0 where
    pub targets :
        All (λ e. ArrivesAt (live_mirror lower mirrors) (place_of caps) node e.1 e.0) seen.targets
    pub sources :
        All (λ e. LeavesBy (live_mirror lower mirrors) (place_of caps) node e.1 e.0) seen.sources

  abbrev pub LookedOn : Bytes → List FlowRef → Seen → Looked → Type 0
  LookedOn node refs seen (ended p) =
      IsTarget (live_mirror lower mirrors) (place_of caps) p
      × IsShared (live_mirror lower mirrors) (place_of caps) p
      × ¬ Fresh (keys seen.targets) (arrivals (live_mirror lower mirrors) (place_of caps) node refs)
  LookedOn node refs seen (going shared count) =
      Fresh (keys seen.targets) (arrivals (live_mirror lower mirrors) (place_of caps) node refs)
      × (count
          ≡ seen.unplaced_count + waiting (live_mirror lower mirrors) (place_of caps) node refs)
      × IsNoted (keys seen.sources)
          (departures (live_mirror lower mirrors) (place_of caps) node refs) seen.shared shared

  note_source-IsNoted :
      (node : Bytes) (ref : FlowRef) (key : Leaving) (seen : Seen) (ks : List Leaving)
      (after : Option Paths)
      → LeavesBy (live_mirror lower mirrors) (place_of caps) node ref key
      → All (λ e. LeavesBy (live_mirror lower mirrors) (place_of caps) node e.1 e.0) seen.sources
      → IsNoted (key ∷ keys seen.sources) ks (note_source node ref key seen) after
      → IsNoted (keys seen.sources) (key ∷ ks) seen.shared after
  unfolding note_source
  note_source-IsNoted node ref key seen ks after here h r = elim (Option-cases seen.shared) [
    | inr (p0, q) ↦ record {
      clear = λ e. absurd (ground (arith, (r.clear e).0, q));
      noted = λ p e. elim (r.noted p e) [
        | inl b ↦ inl (ground (arith, b, q))
        | inr (s, t, n) ↦ inr (s, t, λ f. n f.1)
      ];
    }
    | inl q ↦ elim (Option-cases (entry same_leaving key seen.sources)) [
      | inl t ↦ record {
        clear =
            λ e. (q, (entry-none same_leaving same_leaving_iff key seen.sources t, (r.clear e).1));
        noted = λ p e. elim (r.noted p e) [
          | inl b ↦ absurd (ground (arith, b, q, t))
          | inr (s, t', n) ↦ inr (s, t', λ f. n f.1)
        ];
      }
      | inr (other, t) ↦
          let (was, n) =
            entry-some same_leaving same_leaving_iff
              (λ e. LeavesBy (live_mirror lower mirrors) (place_of caps) node e.1 e.0) key
              seen.sources other t h in
          record {
            clear = λ e. absurd (ground (arith, (r.clear e).0, q, t));
            noted = λ p e. elim (r.noted p e) [
              | inl b ↦
                  let same : shared_source other ref node key.0 key.1 ≡ p =
                    ground (arith, b, q, t) in
                  inr (
                    subst
                      (λ x.
                        IsSource (live_mirror lower mirrors) (place_of caps) x
                        × IsShared (live_mirror lower mirrors) (place_of caps) x
                        × ¬ Fresh (keys seen.sources) (key ∷ ks))
                      same (tt, (was, here), λ f. n f.0))
              | inr (s, t', n') ↦ inr (s, t', λ f. n' f.1)
            ];
          }
    ]
  ]

  -- With one more placed mirror seen.
  abbrev with_place : Bytes → FlowRef → FlowMirror → Placement → Seen → Seen
  with_place node ref m p seen = record {
    targets = ((place_of caps node m p).0, ref) ∷ seen.targets;
    sources = ((place_of caps node m p).1, ref) ∷ seen.sources;
    shared = note_source node ref (place_of caps node m p).1 seen;
    unplaced_count = seen.unplaced_count;
  }

  places_placed :
      (node : Bytes) (ref : FlowRef) (refs : List FlowRef) (m : FlowMirror) (p : Placement)
      → live_mirror lower mirrors node ref ≡ some m
      → m.placement ≡ some p
      → places (live_mirror lower mirrors) (place_of caps) node (ref ∷ refs)
        ≡ place_of caps node m p ∷ places (live_mirror lower mirrors) (place_of caps) node refs
  unfolding arrives leaves
  places_placed node ref refs m p q q' = rw (places, q, q') refl

  places_unplaced :
      (node : Bytes) (ref : FlowRef) (refs : List FlowRef) (m : FlowMirror)
      → live_mirror lower mirrors node ref ≡ some m
      → m.placement ≡ none
      → places (live_mirror lower mirrors) (place_of caps) node (ref ∷ refs)
        ≡ places (live_mirror lower mirrors) (place_of caps) node refs
  places_unplaced node ref refs m q q' = rw (places, q, q') refl

  places_absent :
      (node : Bytes) (ref : FlowRef) (refs : List FlowRef)
      → live_mirror lower mirrors node ref ≡ none
      → places (live_mirror lower mirrors) (place_of caps) node (ref ∷ refs)
        ≡ places (live_mirror lower mirrors) (place_of caps) node refs
  places_absent node ref refs q = rw (places, q) refl

  waiting_placed :
      (node : Bytes) (ref : FlowRef) (refs : List FlowRef) (m : FlowMirror) (p : Placement)
      → live_mirror lower mirrors node ref ≡ some m
      → m.placement ≡ some p
      → waiting (live_mirror lower mirrors) (place_of caps) node (ref ∷ refs)
        ≡ waiting (live_mirror lower mirrors) (place_of caps) node refs
  waiting_placed node ref refs m p q q' = rw (waiting, q, q') refl

  waiting_unplaced :
      (node : Bytes) (ref : FlowRef) (refs : List FlowRef) (m : FlowMirror)
      → live_mirror lower mirrors node ref ≡ some m
      → m.placement ≡ none
      → waiting (live_mirror lower mirrors) (place_of caps) node (ref ∷ refs)
        ≡ waiting (live_mirror lower mirrors) (place_of caps) node refs + 1
  waiting_unplaced node ref refs m q q' = rw (waiting, q, q') refl

  waiting_absent :
      (node : Bytes) (ref : FlowRef) (refs : List FlowRef)
      → live_mirror lower mirrors node ref ≡ none
      → waiting (live_mirror lower mirrors) (place_of caps) node (ref ∷ refs)
        ≡ waiting (live_mirror lower mirrors) (place_of caps) node refs
  waiting_absent node ref refs q = rw (waiting, q) refl

  abbrev NotedAt : Seen → Option Paths → List (String × Leaving) → Type 0
  NotedAt seen after ps = IsNoted (keys seen.sources) (map (λ x. x.1) ps) seen.shared after

  -- Whether the arrivals of the places are fresh.
  abbrev FreshAt : Seen → List (String × Leaving) → Type 0
  FreshAt seen ps = Fresh (keys seen.targets) (map (λ x. x.0) ps)

  one_placed :
      (node : Bytes) (ref : FlowRef) (refs : List FlowRef) (m : FlowMirror) (p : Placement)
      (seen : Seen) (l : Looked)
      → live_mirror lower mirrors node ref ≡ some m
      → m.placement ≡ some p
      → entry same_text (place_of caps node m p).0 seen.targets ≡ none
      → IsSeen node seen
      → LookedOn node refs (with_place node ref m p seen) l
      → LookedOn node (ref ∷ refs) seen l
  one_placed node ref refs m p seen (ended x) q q' t h (a, b, c) =
      (a, b, λ f. c (subst (FreshAt seen) (places_placed node ref refs m p q q') f).1)
  one_placed node ref refs m p seen (going shared count) q q' t h (a, b, c) =
      let e = sym (places_placed node ref refs m p q q') in
      (
        subst (FreshAt seen) e
            (entry-none same_text same_text_iff (place_of caps node m p).0 seen.targets t, a),
        omega (arith, b, waiting_placed node ref refs m p q q'),
        subst (NotedAt seen shared) e (
            note_source-IsNoted node ref (place_of caps node m p).1 seen
              (departures (live_mirror lower mirrors) (place_of caps) node refs) shared
              (m, p, q, q', refl) h.sources c),
      )

  not_placed :
      (node : Bytes) (ref : FlowRef) (refs : List FlowRef) (m : FlowMirror) (seen : Seen)
      (l : Looked)
      → live_mirror lower mirrors node ref ≡ some m
      → m.placement ≡ none
      → LookedOn node refs (record seen { unplaced_count = seen.unplaced_count + 1 }) l
      → LookedOn node (ref ∷ refs) seen l
  not_placed node ref refs m seen (ended x) q q' (a, b, c) =
      (a, b, λ f. c (subst (FreshAt seen) (places_unplaced node ref refs m q q') f))
  not_placed node ref refs m seen (going shared count) q q' (a, b, c) =
      let e = sym (places_unplaced node ref refs m q q') in
      (
        subst (FreshAt seen) e a,
        omega (arith, b, waiting_unplaced node ref refs m q q'),
        subst (NotedAt seen shared) e c,
      )

  not_mirrored :
      (node : Bytes) (ref : FlowRef) (refs : List FlowRef) (seen : Seen) (l : Looked)
      → live_mirror lower mirrors node ref ≡ none
      → LookedOn node refs seen l
      → LookedOn node (ref ∷ refs) seen l
  not_mirrored node ref refs seen (ended x) q (a, b, c) =
      (a, b, λ f. c (subst (FreshAt seen) (places_absent node ref refs q) f))
  not_mirrored node ref refs seen (going shared count) q (a, b, c) =
      let e = sym (places_absent node ref refs q) in
      (
        subst (FreshAt seen) e a,
        omega (arith, b, waiting_absent node ref refs q),
        subst (NotedAt seen shared) e c,
      )

  nothing-IsNoted : (seen : List Leaving) (before : Option Paths) → IsNoted seen [] before before
  nothing-IsNoted seen before = record { clear = λ e. (e, tt); noted = λ p e. inl e }

  pub look_on-LookedOn :
      (node : Bytes) (refs : List FlowRef) (seen : Seen)
      → IsSeen node seen
      → LookedOn node refs seen (look_on lower caps mirrors node refs seen)
  unfolding look_on
  look_on-LookedOn node [] seen h =
      (tt, omega arith, nothing-IsNoted (keys seen.sources) seen.shared)
  look_on-LookedOn node (ref ∷ refs) seen h =
      let goes = LookedOn node (ref ∷ refs) seen in
      elim (Option-cases (live_mirror lower mirrors node ref)) [
        | inl q ↦ subst goes (rw (look_on, q) refl) (
            not_mirrored node ref refs seen (look_on lower caps mirrors node refs seen) q
              (look_on-LookedOn node refs seen h))
        | inr (m, q) ↦ elim (Option-cases m.placement) [
          | inl q' ↦
              let more : Seen = record seen { unplaced_count = seen.unplaced_count + 1 } in
              subst goes (rw (look_on, q, q') refl) (
                not_placed node ref refs m seen (look_on lower caps mirrors node refs more) q q' (
                  look_on-LookedOn node refs more
                    (record { targets = h.targets; sources = h.sources })))
          | inr (p, q') ↦
              let port = (place_of caps node m p).0 in
              elim (Option-cases (entry same_text port seen.targets)) [
                | inl t ↦
                    let more = with_place node ref m p seen in
                    subst goes (rw (look_on, q, q', t) refl) (
                      one_placed node ref refs m p seen (look_on lower caps mirrors node refs more)
                        q q' t h
                        (look_on-LookedOn node refs more (record {
                          targets = ((m, p, q, q', refl), h.targets);
                          sources = ((m, p, q, q', refl), h.sources);
                        })))
                | inr (other, t) ↦
                    let (was, n) =
                      entry-some same_text same_text_iff
                        (λ e. ArrivesAt (live_mirror lower mirrors) (place_of caps) node e.1 e.0)
                        port seen.targets other t h.targets in
                    let found : goes (ended (shared_target other ref node port)) = (
                      tt,
                      (was, (m, p, q, q', refl)),
                      λ f. n (subst (FreshAt seen) (places_placed node ref refs m p q q') f).0,
                    ) in
                    let same : ended (shared_target other ref node port)
                        ≡ look_on lower caps mirrors node (ref ∷ refs) seen =
                      rw (look_on, q, q', t) refl in
                    subst goes same found
              ]
        ]
      ]
