-- ===== src/Operator/RedundancySet/Mirrors/Loops.antt =====
-- The loops of `ensureMirrors` as one loop over the mirrors that are wanted.
use mathlib.Core.Path.{subst}
use mxl_k8s.Base.{
  ℕ, ◌≡◌, ◌≢◌, refl, sym, ap, ◌∙◌, ◌⊎◌, inl, inr, Bool, true, false, not, ◌||◌, List, [], ◌∷◌, ◌++◌,
  arith, All, All-map, same_bytes, same_bytes_iff, Bool-cases, if◌then◌else◌,
}
use mxl_k8s.Api.Names.{Bytes, FlowRef, mirror_name_for}
use mxl_k8s.Operator.RedundancySet.{SetMember, Mirrors}
use mxl_k8s.Operator.RedundancySet.Mirrors.{
  Calls, ensure_mirror, and_then, ensure_on, ensure_mirrors,
}
use mxl_k8s.Operator.RedundancySet.Mirrors.Steps.{
  IsCurrent, IsUp, IsMirrored, IsNamed, Ensured, ensure_mirror-Ensured,
}

-- A mirror that is wanted: of which flow, and between which nodes.
pub record WantedMirror : Type 0 where
  pub ref : FlowRef
  pub source : Bytes
  pub target : Bytes

abbrev pub want_name : (ℕ → ℕ) → WantedMirror → Bytes
want_name lower w = mirror_name_for lower w.ref w.target

module _ {Value : Type 0} where
  abbrev pub wants_on : List (SetMember Value) → Bytes → List WantedMirror
  wants_on [] node = []
  wants_on (m ∷ ms) node =
      let rest = wants_on ms node in
      if not m.origin_found || same_bytes m.origin_node node
      then rest
      else record { ref = m.ref; source = m.origin_node; target = node } ∷ rest

  -- Each member with an origin, to each node but the one its origin is on.
  abbrev pub wants : List (SetMember Value) → List Bytes → List WantedMirror
  wants ms [] = []
  wants ms (node ∷ nodes) = wants_on ms node ++ wants ms nodes

module _ (lower : ℕ → ℕ) (c : Calls) where
  abbrev pub ensure_all : List WantedMirror → Mirrors → Mirrors × Bool
  ensure_all [] mirrors = (mirrors, true)
  ensure_all (w ∷ ws) mirrors =
      and_then (ensure_mirror lower c w.ref w.source w.target mirrors) (ensure_all ws)

  abbrev pub Mirrored : WantedMirror → Mirrors → Type 0
  Mirrored w = IsMirrored lower c w.ref w.source w.target

  abbrev pub Named : WantedMirror → Mirrors → Type 0
  Named w = IsNamed lower c w.ref w.source w.target

  -- A mirror of the list that has the name of this one is this one.
  abbrev pub IsApart : List WantedMirror → WantedMirror → Type 0
  IsApart ws v = All (λ w. want_name lower v ≡ want_name lower w → v ≡ w) ws

  module _ (v w : WantedMirror) (mirrors out : Mirrors) (ok : Bool)
      (h : Ensured lower c w.ref w.source w.target mirrors out ok)
      (apart : want_name lower v ≡ want_name lower w → v ≡ w) where
    same_or : (v ≡ w) ⊎ (out (want_name lower v) ≡ mirrors (want_name lower v))
    same_or = elim (Bool-cases (same_bytes (want_name lower v) (want_name lower w))) [
      | inl q ↦ inl (apart ((same_bytes_iff (want_name lower v) (want_name lower w)).0 q))
      | inr q ↦ inr (
          h.others (want_name lower v) (λ e.
            absurd
              (ground (arith, q, (same_bytes_iff (want_name lower v) (want_name lower w)).1 e))))
    ]

    keeps-Mirrored : Mirrored v mirrors → Mirrored v out
    keeps-Mirrored k = elim same_or [
      | inl e ↦
          let old : out ≡ mirrors = h.stays (subst (λ x. Mirrored x mirrors) e k) in
          subst (Mirrored v) (sym old) k
      | inr e ↦ (k.0, e ∙ k.1, k.2, k.3)
    ]

    keeps-Named : Named v mirrors → Named v out
    keeps-Named k = elim same_or [
      | inl e ↦ subst (λ x. Named x out) (sym e) (h.named (subst (λ x. Named x mirrors) e k))
      | inr e ↦ λ m q. k m (sym e ∙ q)
    ]

  -- What the loop does, whatever it answers.
  pub record EnsuredAll (ws : List WantedMirror) (mirrors out : Mirrors) (ok : Bool) : Type 0 where
    pub others : (n : Bytes) → All (λ w. n ≢ want_name lower w) ws → out n ≡ mirrors n
    pub now : All (IsApart ws) ws → ok ≡ true → All (λ w. Mirrored w out) ws
    pub named : (v : WantedMirror) → IsApart ws v → Named v mirrors → Named v out
    pub stays : (v : WantedMirror) → IsApart ws v → Mirrored v mirrors → Mirrored v out
    pub up : IsUp c → ok ≡ true
    pub still : All (λ w. Mirrored w mirrors) ws → out ≡ mirrors

  nothing_wanted : (mirrors : Mirrors) → EnsuredAll [] mirrors mirrors true
  nothing_wanted mirrors = record {
    others = λ n h. refl;
    now = λ h t. tt;
    named = λ v h k. k;
    stays = λ v h k. k;
    up = λ h. refl;
    still = λ h. refl;
  }

  one_failed :
      (w : WantedMirror) (ws : List WantedMirror) (mirrors out : Mirrors)
      → Ensured lower c w.ref w.source w.target mirrors out false
      → EnsuredAll (w ∷ ws) mirrors out false
  one_failed w ws mirrors out h = record {
    others = λ n k. h.others n k.0;
    now = λ k t. absurd (ground (arith, t));
    named = λ v k. keeps-Named v w mirrors out false h k.0;
    stays = λ v k. keeps-Mirrored v w mirrors out false h k.0;
    up = h.up;
    still = λ k. h.stays k.0;
  }

  one_more :
      (w : WantedMirror) (ws : List WantedMirror) (mirrors mid out : Mirrors) (ok : Bool)
      → Ensured lower c w.ref w.source w.target mirrors mid true
      → EnsuredAll ws mid out ok
      → EnsuredAll (w ∷ ws) mirrors out ok
  one_more w ws mirrors mid out ok h r = record {
    others = λ n k. r.others n k.1 ∙ h.others n k.0;
    now = λ k t. (r.stays w (k.0.1) (h.now refl), r.now (All-map _ _ (λ v q. q.1) ws k.1) t);
    named = λ v k n. r.named v k.1 (keeps-Named v w mirrors mid true h k.0 n);
    stays = λ v k n. r.stays v k.1 (keeps-Mirrored v w mirrors mid true h k.0 n);
    up = r.up;
    still = λ k.
        let first : mid ≡ mirrors = h.stays k.0 in
        r.still (subst (λ x. All (λ w'. Mirrored w' x) ws) (sym first) k.1) ∙ first;
  }

  after_one :
      (w : WantedMirror) (ws : List WantedMirror) (mirrors : Mirrors) (p : Mirrors × Bool)
      → Ensured lower c w.ref w.source w.target mirrors p.0 p.1
      → ((mid : Mirrors) → EnsuredAll ws mid (ensure_all ws mid).0 (ensure_all ws mid).1)
      → EnsuredAll (w ∷ ws) mirrors (and_then p (ensure_all ws)).0 (and_then p (ensure_all ws)).1
  after_one w ws mirrors (mid, true) h r =
      one_more w ws mirrors mid (ensure_all ws mid).0 (ensure_all ws mid).1 h (r mid)
  after_one w ws mirrors (mid, false) h r = one_failed w ws mirrors mid h

  pub ensure_all-EnsuredAll :
      IsCurrent c
      → (ws : List WantedMirror) (mirrors : Mirrors)
      → EnsuredAll ws mirrors (ensure_all ws mirrors).0 (ensure_all ws mirrors).1
  ensure_all-EnsuredAll current [] mirrors = nothing_wanted mirrors
  ensure_all-EnsuredAll current (w ∷ ws) mirrors =
      after_one w ws mirrors (ensure_mirror lower c w.ref w.source w.target mirrors)
        (ensure_mirror-Ensured lower c w.ref w.source w.target mirrors current)
        (ensure_all-EnsuredAll current ws)

  and_then_cong :
      (p : Mirrors × Bool) (f g : Mirrors → Mirrors × Bool)
      → ((m : Mirrors) → f m ≡ g m)
      → and_then p f ≡ and_then p g
  and_then_cong (m, true) f g h = h m
  and_then_cong (m, false) f g h = refl

  and_then_assoc :
      (p : Mirrors × Bool) (f g : Mirrors → Mirrors × Bool)
      → and_then p (λ m. and_then (f m) g) ≡ and_then (and_then p f) g
  and_then_assoc (m, true) f g = refl
  and_then_assoc (m, false) f g = refl

  all_append :
      (ws vs : List WantedMirror) (mirrors : Mirrors)
      → ensure_all (ws ++ vs) mirrors ≡ and_then (ensure_all ws mirrors) (ensure_all vs)
  all_append [] vs mirrors = refl
  all_append (w ∷ ws) vs mirrors =
      let p = ensure_mirror lower c w.ref w.source w.target mirrors in
      and_then_cong p (ensure_all (ws ++ vs)) (λ m. and_then (ensure_all ws m) (ensure_all vs))
        (all_append ws vs)
      ∙ and_then_assoc p (ensure_all ws) (ensure_all vs)

  module _ {Value : Type 0} where
    ensure_on-all :
        (ms : List (SetMember Value)) (node : Bytes) (mirrors : Mirrors)
        → ensure_on lower c ms node mirrors ≡ ensure_all (wants_on ms node) mirrors
    unfolding ensure_on
    ensure_on-all [] node mirrors = refl
    ensure_on-all (m ∷ ms) node mirrors =
        elim (Bool-cases (not m.origin_found || same_bytes m.origin_node node)) [
          | inl q ↦ rw q (ensure_on-all ms node mirrors)
          | inr q ↦ rw q (
              and_then_cong (ensure_mirror lower c m.ref m.origin_node node mirrors)
                (ensure_on lower c ms node) (ensure_all (wants_on ms node)) (ensure_on-all ms node))
        ]

    pub ensure_mirrors-all :
        (ms : List (SetMember Value)) (nodes : List Bytes) (mirrors : Mirrors)
        → ensure_mirrors lower c ms nodes mirrors ≡ ensure_all (wants ms nodes) mirrors
    unfolding ensure_mirrors
    ensure_mirrors-all ms [] mirrors = refl
    ensure_mirrors-all ms (node ∷ nodes) mirrors =
        ap (λ p. and_then p (ensure_mirrors lower c ms nodes)) (ensure_on-all ms node mirrors)
        ∙ and_then_cong (ensure_all (wants_on ms node) mirrors) (ensure_mirrors lower c ms nodes)
            (ensure_all (wants ms nodes)) (ensure_mirrors-all ms nodes)
        ∙ sym (all_append (wants_on ms node) (wants ms nodes) mirrors)
