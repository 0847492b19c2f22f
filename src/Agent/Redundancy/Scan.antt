-- ===== src/Agent/Redundancy/Scan.antt =====
-- What the locked part of `Release` leaves of the uses, and which sets it finds idle.
use mathlib.Core.Path.{subst}
use mxl_k8s.Base.{
  ℕ, ◌+◌, ◌≡◌, refl, sym, ◌∙◌, ◌⊎◌, inl, inr, Bool, true, false, none, some, String, List, [], ◌∷◌,
  arith, leb, Bool-cases, Option-cases, All, All-map,
}
use mxl_k8s.Base.Texts.{same_text_iff}
use mxl_k8s.Agent.Redundancy.{
  FlowSet, Uses, last_use, record_use, see_used, is_named, forget, sweep,
}
use mxl_k8s.Agent.Redundancy.Uses.{Has, Moved, record_use-Moved, record_use-Has, last_use-forget}

module _ (in_use : String → String → Bool) (now grace : ℕ) where
  -- What the loop leaves: each use is of now or as it was, none is forgotten, and each idle set
  -- has one.
  record Observed (here : List FlowSet) (old new : Uses) (idle : List String) : Type 0 where
    pub moved : Moved now old new
    pub keeps : (name : String) → Has name old → Has name new
    pub idle_known : All (λ name. Has name new × (is_named name here ≡ true)) idle

  named_later :
      (s : FlowSet) (here : List FlowSet) (name : String)
      → is_named name here ≡ true
      → is_named name (s ∷ here) ≡ true
  unfolding is_named
  named_later s here name e = ground (arith, e)

  named_here : (s : FlowSet) (here : List FlowSet) → is_named s.name (s ∷ here) ≡ true
  unfolding is_named
  named_here s here = rw ((same_text_iff s.name s.name).1 refl) refl

  see_used_fresh :
      (s : FlowSet) (here : List FlowSet) (uses : Uses)
      → (in_use s.domain s.flow_id ≡ true) ⊎ (last_use s.name uses ≡ none)
      → see_used in_use now grace (s ∷ here) uses
        ≡ see_used in_use now grace here (record_use s.name now uses)
  unfolding see_used
  see_used_fresh s here uses (inl q) = rw (see_used, q) refl
  see_used_fresh s here uses (inr q) = elim (Bool-cases (in_use s.domain s.flow_id)) [
    | inl r ↦ rw (see_used, r) refl
    | inr r ↦ rw (see_used, r, q) refl
  ]

  see_used_idle :
      (s : FlowSet) (here : List FlowSet) (uses : Uses) (last : ℕ)
      → in_use s.domain s.flow_id ≡ false
      → last_use s.name uses ≡ some last
      → leb (last + grace) now ≡ true
      → see_used in_use now grace (s ∷ here) uses ≡ (
        (see_used in_use now grace here uses).0,
        s.name ∷ (see_used in_use now grace here uses).1,
      )
  unfolding see_used
  see_used_idle s here uses last q r t = rw (see_used, q, r, t) refl

  see_used_rest :
      (s : FlowSet) (here : List FlowSet) (uses : Uses) (last : ℕ)
      → in_use s.domain s.flow_id ≡ false
      → last_use s.name uses ≡ some last
      → leb (last + grace) now ≡ false
      → see_used in_use now grace (s ∷ here) uses ≡ see_used in_use now grace here uses
  unfolding see_used
  see_used_rest s here uses last q r t = rw (see_used, q, r, t) refl

  widen :
      (s : FlowSet) (here : List FlowSet) (old mid new : Uses) (idle : List String)
      → Moved now old mid
      → ((name : String) → Has name old → Has name mid)
      → Observed here mid new idle
      → Observed (s ∷ here) old new idle
  widen s here old mid new idle m k h = record {
    moved = λ name t e. elim (h.moved name t e) [ inl q ↦ inl q | inr q ↦ m name t q ];
    keeps = λ name x. h.keeps name (k name x);
    idle_known =
        All-map (λ name. Has name new × (is_named name here ≡ true))
          (λ name. Has name new × (is_named name (s ∷ here) ≡ true))
          (λ name x. (x.0, named_later s here name x.1)) idle h.idle_known;
  }

  see_used-Observed :
      (here : List FlowSet) (uses : Uses)
      → Observed here uses
          (see_used in_use now grace here uses).0
          (see_used in_use now grace here uses).1
  see_used-Observed [] uses =
      unfold see_used in
      record { moved = (λ name t e. inr e); keeps = λ name x. x; idle_known = tt }
  see_used-Observed (s ∷ here) uses =
      let m = record_use-Moved s.name now uses in
      let fresh : (in_use s.domain s.flow_id ≡ true) ⊎ (last_use s.name uses ≡ none) → Goal = λ e.
        subst (λ r. Observed (s ∷ here) uses r.0 r.1) (sym (see_used_fresh s here uses e))
          (widen s here uses (record_use s.name now uses) _ _ m
            (λ other x. record_use-Has s.name other now uses x)
            (see_used-Observed here (record_use s.name now uses))) in
      let rest =
        widen s here uses uses _ _ (λ name t e. inr e) (λ name x. x)
          (see_used-Observed here uses) in
      elim (Bool-cases (in_use s.domain s.flow_id)) [
        | inl q ↦ fresh (inl q)
        | inr q ↦ elim (Option-cases (last_use s.name uses)) [
          | inl r ↦ fresh (inr r)
          | inr (last, r) ↦ elim (Bool-cases (leb (last + grace) now)) [
            | inr t ↦
                subst (λ r. Observed (s ∷ here) uses r.0 r.1)
                  (sym (see_used_rest s here uses last q r t)) rest
            | inl t ↦
                subst (λ r. Observed (s ∷ here) uses r.0 r.1)
                  (sym (see_used_idle s here uses last q r t))
                  (record {
                    moved = rest.moved;
                    keeps = rest.keeps;
                    idle_known =
                        ((rest.keeps s.name (last, r), named_here s here), rest.idle_known);
                  })
          ]
        ]
      ]
    where
      Goal : Type 0
      Goal =
          Observed (s ∷ here) uses (see_used in_use now grace (s ∷ here) uses).0
            (see_used in_use now grace (s ∷ here) uses).1

  -- What the whole locked part leaves.
  pub record Scanned (old new : Uses) (idle : List String) : Type 0 where
    pub moved : Moved now old new
    pub idle_known : All (λ name. Has name new) idle

  forgotten :
      (here : List FlowSet) (name : String) (t : ℕ) (uses : Uses)
      → last_use name (forget here uses) ≡ some t
      → last_use name uses ≡ some t
  forgotten here name t uses e = elim (Bool-cases (is_named name here)) [
    | inl q ↦ ground (arith, last_use-forget here name uses, e, q)
    | inr q ↦ ground (arith, last_use-forget here name uses, e, q)
  ]

  kept_named :
      (here : List FlowSet) (name : String) (uses : Uses)
      → Has name uses
      → is_named name here ≡ true
      → Has name (forget here uses)
  kept_named here name uses (t, e) q = (t, last_use-forget here name uses ∙ rw q e)

  -- The locked part of `Release` sets uses to now or leaves them, and each set that it finds idle
  -- keeps its use.
  pub sweep-Scanned :
      (here : List FlowSet) (uses : Uses)
      → Scanned uses (sweep in_use now grace here uses).0 (sweep in_use now grace here uses).1
  unfolding sweep
  sweep-Scanned here uses =
      let k = see_used-Observed here uses in
      let mid = (see_used in_use now grace here uses).0 in
      record {
        moved = λ name t e. k.moved name t (forgotten here name t mid e);
        idle_known =
            All-map (λ name. Has name mid × (is_named name here ≡ true))
              (λ name. Has name (forget here mid)) (λ name x. kept_named here name mid x.0 x.1)
              (see_used in_use now grace here uses).1 k.idle_known;
      }
