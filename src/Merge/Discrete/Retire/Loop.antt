-- ===== src/Merge/Discrete/Retire/Loop.antt =====
-- The loop of `Retire`: every slot from its first index to the head is kept.
use mathlib.Core.Path.{subst}
use native.Mathlib.Decide.{dec_lt}
use mxl_k8s.Base.{
  ℕ, zero, suc, ◌+◌, ◌-◌, ◌%◌, ◌^◌, ◌≤◌, ◌<◌, ◌≡◌, ◌≢◌, refl, sym, ap, ◌∙◌, ◌⊎◌, inl, inr, true,
  Option, none, some, List, ◌++◌, arith, length, get_elem?, get_elem?_of_lt, mod-ne, Bool-cases,
  leb, ◌==◌, ==_iff, ◌&&◌, At-map,
}
use mxl_k8s.Base.Words.{u64}
use mxl_k8s.Merge.Discrete.{Member, DiscretePolicy, Select}
use mxl_k8s.Merge.Discrete.Turn.{SameConfig, SameConfig-refl, SameConfig-trans, serves-SameConfig}
use mxl_k8s.Merge.Discrete.Run.{IsReady}
use mxl_k8s.Merge.Discrete.Replay.{replay, replay-append}
use mxl_k8s.Merge.Discrete.Retire.{retire_index, retire_from}
use mxl_k8s.Merge.Discrete.Retire.Safe.{IsKept, Turned, source-lt, retire_index-Turned}

module _ (ms : List Member) (ns : List ℕ) where
  -- The loop from index `i` on: every slot from there to the head is kept.
  pub record Swept (d e : DiscretePolicy) (i : ℕ) (before after : List Select) : Type 0 where
    pub config : SameConfig d e
    pub head : e.head ≡ d.head
    pub seen : e.seen ≡ d.seen
    pub late : e.late ≡ d.late
    pub ready : IsReady (length ms) e
    pub kept : (j : ℕ) → i ≤ j → j ≤ d.head → IsKept ms ns d e j
    pub others :
        (k : ℕ)
        → ((j : ℕ) → i ≤ j → j ≤ d.head → j % d.grains ≢ k)
        → get_elem? e.current k ≡ get_elem? d.current k
    pub replays : (c : List ℕ) → replay before c ≡ d.current → replay after c ≡ e.current

  -- The loop ends: no member writes as far as the next slot.
  ends-Swept :
      (d : DiscretePolicy) (i : ℕ) (s : List Select) (reach : ℕ)
      → IsReady (length ms) d
      → length ns ≡ length ms
      → ((k n : ℕ) → get_elem? ns k ≡ some n → n ≤ reach)
      → (d.head < i) ⊎ (reach < i + d.grains)
      → Swept d d i s s
  ends-Swept d i s reach h same top over = record {
    config = SameConfig-refl d;
    head = refl;
    seen = refl;
    late = refl;
    ready = h;
    kept = λ j low high. keep j low high;
    others = λ k ne. refl;
    replays = λ c e. e;
  }
    where
      quiet :
          (j cur : ℕ)
          → i ≤ j
          → j ≤ d.head
          → get_elem? d.current (j % d.grains) ≡ some cur
          → (cur ≡ d.placeholder) ⊎ ((n : ℕ) × (get_elem? ns cur ≡ some n) × (n < j + d.grains))
      quiet j cur low high g = elim (Bool-cases (cur == d.placeholder)) [
        | inl q ↦ inl ((==_iff _ _).0 q)
        | inr q ↦
            let (n, gn) = get_elem?_of_lt ns cur (source-lt ms ns d j cur h same g q) in
            inr (n, gn, omega (arith, top cur n gn))
      ]

      keep : (j : ℕ) → i ≤ j → j ≤ d.head → IsKept ms ns d d j
      keep j low high =
          let (cur, g) = get_elem?_of_lt d.current (j % d.grains) (omega (arith, h.ring, h.deep)) in
          record { source = cur; shows = g; quiet = quiet j cur low high g; origin = inl g }

  -- What the rest of the loop keeps, seen from before the turn.
  keep_later :
      (d f e : DiscretePolicy) (i j : ℕ) (t : List Select)
      → Turned ms ns d f t i
      → i % d.grains ≢ j % d.grains
      → IsKept ms ns f e j
      → IsKept ms ns d e j
  keep_later d f e i j t k ne x = record {
    source = x.source;
    shows = subst (λ g. get_elem? e.current (j % g) ≡ some x.source) k.moved.config.grains x.shows;
    quiet = elim x.quiet [
      | inl p ↦ inl (p ∙ k.moved.config.placeholder)
      | inr (n, g, l) ↦ inr (n, g, omega (arith, k.moved.config.grains))
    ];
    origin = elim x.origin [
      | inl g ↦ inl (
          sym (k.others (j % d.grains) ne)
          ∙ subst (λ g. get_elem? f.current (j % g) ≡ some x.source) k.moved.config.grains g)
      | inr (inl p) ↦ inr (inl (p ∙ k.moved.config.placeholder))
      | inr (inr v) ↦ inr (
          inr
            (At-map _ _ (λ m p. sym (serves-SameConfig d f m j k.moved.config) ∙ p) ms x.source v))
    ];
  }

  keep_here :
      (d f e : DiscretePolicy) (i : ℕ)
      → get_elem? e.current (i % d.grains) ≡ get_elem? f.current (i % d.grains)
      → IsKept ms ns d f i
      → IsKept ms ns d e i
  keep_here d f e i same x = record {
    source = x.source;
    shows = same ∙ x.shows;
    quiet = x.quiet;
    origin = x.origin;
  }

  -- One turn, then the rest of the loop.
  turn-Swept :
      (d f e : DiscretePolicy) (i : ℕ) (s t after : List Select)
      → IsReady (length ms) d
      → d.head < i + d.grains
      → i ≤ d.head
      → Turned ms ns d f t i
      → Swept f e (i + 1) (s ++ t) after
      → Swept d e i s after
  turn-Swept d f e i s t after h near low k w = record {
    config = SameConfig-trans d f e k.moved.config w.config;
    head = w.head ∙ k.moved.head;
    seen = w.seen ∙ k.moved.seen;
    late = w.late ∙ k.moved.late;
    ready = w.ready;
    kept = λ j above below. elim (dec_lt i j) [
      | yes later ↦
          keep_later d f e i j t k (apart j later below)
            (w.kept j (omega arith) (omega (arith, k.moved.head)))
      | no here ↦
          let e' : i ≡ j = omega arith in
          subst (IsKept ms ns d e) e'
            (keep_here d f e i (w.others (i % d.grains) (away i low)) k.kept)
    ];
    others = λ x ne.
        w.others x (λ j above below.
          subst (λ g. j % g ≢ x) (sym g) (ne j (omega arith) (omega (arith, k.moved.head))))
        ∙ k.others x (ne i (omega arith) low);
    replays = λ c q. w.replays c (replay-append s t c ∙ ap (replay t) q ∙ k.moved.replays);
  }
    where
      g : f.grains ≡ d.grains
      g = k.moved.config.grains

      apart : (j : ℕ) → i < j → j ≤ d.head → i % d.grains ≢ j % d.grains
      apart j later below = mod-ne d.grains i j (omega (arith, h.deep)) later (omega arith)

      away : (i' : ℕ) → i' ≤ d.head → (j : ℕ) → i + 1 ≤ j → j ≤ f.head → j % f.grains ≢ i % d.grains
      away i' _ j above below =
          subst (λ g. j % g ≢ i % d.grains) (sym g)
            (λ q. apart j (omega arith) (omega (arith, k.moved.head)) (sym q))

  retire_from_turn :
      (fuel : ℕ) (d f : DiscretePolicy) (i : ℕ) (s t : List Select) (reach : ℕ)
      {r : Option (DiscretePolicy × List Select)}
      → (leb i d.head && leb (u64 (i + d.grains)) reach) ≡ true
      → u64 (i + 1) ≡ i + 1
      → retire_index d ms ns i ≡ some (f, t)
      → retire_from fuel ms ns reach (i + 1) f (s ++ t) ≡ r
      → retire_from (suc fuel) ms ns reach i d s ≡ r
  unfolding retire_from
  retire_from_turn fuel d f i s t reach {r = none} q next q1 q2 = ground arith
  retire_from_turn fuel d f i s t reach {r = some (e, after)} q next q1 q2 = ground arith

  pub retire_from-Swept :
      (fuel : ℕ) (d : DiscretePolicy) (i : ℕ) (s : List Select) (reach : ℕ)
      → IsReady (length ms) d
      → length ns ≡ length ms
      → ((k n : ℕ) → get_elem? ns k ≡ some n → n ≤ reach)
      → d.head < i + d.grains
      → d.head + d.grains + 1 < 2 ^ 64
      → suc d.head - i < fuel
      → (e : DiscretePolicy) × (after : List Select) × (retire_from fuel ms ns reach i d s
          ≡ some (e, after))
        × Swept d e i s after
  unfolding retire_from
  retire_from-Swept zero d i s reach h same top near fits more = absurd (omega arith)
  retire_from-Swept (suc fuel) d i s reach h same top near fits more =
      elim (Bool-cases (leb i d.head && leb (u64 (i + d.grains)) reach)) [
        | inr q ↦ (d, s, ground arith, ends-Swept d i s reach h same top (ground arith))
        | inl q ↦
            let low : i ≤ d.head = ground arith in
            let next : u64 (i + 1) ≡ i + 1 = omega arith in
            let (cur, g) =
              get_elem?_of_lt d.current (i % d.grains) (omega (arith, h.ring, h.deep)) in
            let (f, t, q1, k) = retire_index-Turned ms ns d i cur h same (omega arith) g in
            let (e, after, q2, w) =
              retire_from-Swept fuel f (i + 1) (s ++ t) reach k.ready same top
                (omega (arith, k.moved.head, k.moved.config.grains))
                (omega (arith, k.moved.head, k.moved.config.grains))
                (omega (arith, k.moved.head)) in
            (
              e,
              after,
              retire_from_turn fuel d f i s t reach {r = some (e, after)} q next q1 q2,
              turn-Swept d f e i s t after h near low k w,
            )
      ]
