-- ===== src/Merge/Discrete/Run.antt =====
-- The loop of `Step` as a sequence of publishing turns, with the way it ends.
use mxl_k8s.Base.{
  ℕ, zero, suc, ◌+◌, ◌-◌, ◌%◌, ◌≤◌, ◌<◌, ◌≡◌, refl, ◌∙◌, ◌⊎◌, inl, inr, true, false, some, List, [],
  ◌∷◌, ◌++◌, arith, All, ltb, ltb→le, ltb→lt, lt→ltb, length, get_elem?, set, Bool-cases,
  get_elem?_of_lt, All-set, length-set, lt_of_At,
}
use mxl_k8s.Base.Int.{ℤ, pos}
use mxl_k8s.Merge.Discrete.{
  Member, DiscretePolicy, Select, Verdict, Stepped, stop, hold, show, fault, decide, publish,
  advance, finish,
}
use mxl_k8s.Merge.Discrete.Turn.{
  SameConfig, SameConfig-refl, SameConfig-trans, HasPrimary, IsSource, Decided, decide-show,
  decide-hold, decide-ne-fault, Published-publish, publish-total,
}

-- A policy over `n` members whose ring is whole: what the engine builds and every pass keeps.
pub record IsReady (n : ℕ) (d : DiscretePolicy) : Type 0 where
  pub peopled : 0 < n
  pub deep : 2 ≤ d.grains
  pub ring : length d.current ≡ d.grains
  pub members : n ≤ d.placeholder
  pub primary : HasPrimary n d.primary
  pub sources : All (λ s. (s < n) ⊎ (s ≡ d.placeholder)) d.current

module _ (ms : List Member) (lead now : ℕ) where
  -- A turn that publishes `pick` as the next index.
  pub record Turn (d : DiscretePolicy) (pick : ℕ) (e : DiscretePolicy) (s : List Select)
      : Type 0 where
    pub behind : d.head < lead
    pub config : SameConfig d e
    pub source : IsSource d ms lead (d.head + 1) pick
    pub head : e.head ≡ d.head + 1
    pub current : e.current ≡ set d.current ((d.head + 1) % d.grains) pick
    pub primary : HasPrimary (length ms) d.primary → HasPrimary (length ms) e.primary
    pub since : d.waiting_since ≤ now → e.waiting_since ≤ now
    pub selects :
        (s ≡ [])
        ⊎ (s ≡ record { slot = (d.head + 1) % d.grains; source = pick; index = d.head + 1 } ∷ [])
    pub quiet : s ≡ [] → get_elem? d.current ((d.head + 1) % d.grains) ≡ some pick

  -- The policy and the selects after any number of turns.
  pub data Run (d : DiscretePolicy) : DiscretePolicy → List Select → Type 0 where
    start : Run d d []
    turn :
        {e f : DiscretePolicy} {s t : List Select} (pick : ℕ)
        → Run d e s
        → Turn e pick f t
        → Run d f (s ++ t)

  -- Why the loop ends, with the state and the wait it returns.
  pub data Ends (d e : DiscretePolicy) (wait : ℤ) : Type 0 where
    caught_up : lead ≤ d.head → e ≡ d → wait ≡ pos 0 → Ends d e wait
    stopped :
        d.head < lead
        → decide d ms lead now (d.head + 1) ≡ stop
        → e ≡ d
        → wait ≡ pos 0
        → Ends d e wait
    held : d.head < lead → decide d ms lead now (d.head + 1) ≡ hold e wait → Ends d e wait

  pub record Returns (d : DiscretePolicy) (r : Stepped) : Type 0 where
    pub last : DiscretePolicy
    pub run : Run d last r.selects
    pub ends : Ends last r.state r.wait
    pub head : r.head ≡ r.state.head

  -- A source is a member or the placeholder.
  IsSource-within :
      (d : DiscretePolicy) (index pick : ℕ)
      → IsSource d ms lead index pick
      → (pick < length ms) ⊎ (pick ≡ d.placeholder)
  IsSource-within d index pick (inl s) = inl (lt_of_At _ ms pick s)
  IsSource-within d index pick (inr t) = inr t.0

  Turn-IsReady :
      {d e : DiscretePolicy} (pick : ℕ) {s : List Select}
      → Turn d pick e s
      → IsReady (length ms) d
      → IsReady (length ms) e
  Turn-IsReady {d} {e} pick t h = record {
    peopled = h.peopled;
    deep = rw t.config.grains h.deep;
    ring = rw (t.current, t.config.grains, length-set) h.ring;
    members = rw t.config.placeholder h.members;
    primary = t.primary h.primary;
    sources =
        rw (t.current, t.config.placeholder)
          (All-set _ d.current ((d.head + 1) % d.grains) pick h.sources
            (IsSource-within d (d.head + 1) pick t.source));
  }

  pub Run-IsReady :
      {d e : DiscretePolicy} {s : List Select}
      → Run d e s
      → IsReady (length ms) d
      → IsReady (length ms) e
  Run-IsReady start h = h
  Run-IsReady (turn pick r t) h = Turn-IsReady pick t (Run-IsReady r h)

  pub Run-SameConfig : {d e : DiscretePolicy} {s : List Select} → Run d e s → SameConfig d e
  Run-SameConfig {d} start = SameConfig-refl d
  Run-SameConfig {d} (turn {e = e} {f = f} pick r t) =
      SameConfig-trans d e f (Run-SameConfig r) t.config

  slot_filled :
      (d : DiscretePolicy) (index : ℕ)
      → IsReady (length ms) d
      → (old : ℕ) × (get_elem? d.current (index % d.grains) ≡ some old)
  slot_filled d index h =
      get_elem?_of_lt d.current (index % d.grains) (omega (arith, h.ring, h.deep))

  -- A turn of the code is a turn.
  Turn-publish :
      {d mid e : DiscretePolicy} (pick : ℕ) {s : List Select}
      → IsReady (length ms) d
      → d.head < lead
      → decide d ms lead now (d.head + 1) ≡ show mid pick
      → publish mid pick (d.head + 1) ≡ some (e, s)
      → Turn d pick e s
  Turn-publish {d} {mid} {e} pick {s} h behind q p =
      let (b, source) = decide-show d ms lead now (d.head + 1) {e = mid} {pick = pick} q in
      let (old, g) = slot_filled d (d.head + 1) h in
      let u =
        Published-publish (length ms) mid pick (d.head + 1) {old = old} {e = e} {s = s}
          (rw (b.current, b.config.grains) g) p in
      record {
        behind = behind;
        config = SameConfig-trans d mid e b.config u.config;
        source = source;
        head = u.head;
        current = ground arith;
        primary = λ hp.
            u.primary (b.primary hp)
              (rw b.config.placeholder (IsSource-within d (d.head + 1) pick source));
        since = λ c. omega (arith, b.since c, u.since);
        selects = rw (← b.config.grains) u.selects;
        quiet = rw (← b.current, ← b.config.grains) u.quiet;
      }

  -- The loop from a state of the run returns, at its end.
  pub advance_caught :
      (fuel : ℕ) (e : DiscretePolicy) (s : List Select)
      → ltb e.head lead ≡ false
      → advance (suc fuel) ms lead now e s ≡ some (finish e s (pos 0))
  unfolding advance
  advance_caught fuel e s q = ground arith

  advance_stop :
      (fuel : ℕ) (e : DiscretePolicy) (s : List Select)
      → ltb e.head lead ≡ true
      → 2 ≤ e.grains
      → decide e ms lead now (e.head + 1) ≡ stop
      → advance (suc fuel) ms lead now e s ≡ some (finish e s (pos 0))
  unfolding advance
  advance_stop fuel e s q g d = ground arith

  advance_hold :
      (fuel : ℕ) (e f : DiscretePolicy) (w : ℤ) (s : List Select)
      → ltb e.head lead ≡ true
      → 2 ≤ e.grains
      → decide e ms lead now (e.head + 1) ≡ hold f w
      → advance (suc fuel) ms lead now e s ≡ some (finish f s w)
  unfolding advance
  advance_hold fuel e f w s q g d = ground arith

  pub advance_show :
      (fuel : ℕ) (e mid f : DiscretePolicy) (pick : ℕ) (s t : List Select)
      → ltb e.head lead ≡ true
      → 2 ≤ e.grains
      → decide e ms lead now (e.head + 1) ≡ show mid pick
      → publish mid pick (e.head + 1) ≡ some (f, t)
      → advance (suc fuel) ms lead now e s ≡ advance fuel ms lead now f (s ++ t)
  unfolding advance
  advance_show fuel e mid f pick s t q g d p = ground arith

  -- The loop returns from `f` with `s`, at the end of a run from `d`.
  abbrev Total : ℕ → DiscretePolicy → DiscretePolicy → List Select → Type 0
  Total fuel d f s = (r : Stepped) × (advance fuel ms lead now f s ≡ some r) × Returns d r

  advance-turn :
      (fuel : ℕ) (d e : DiscretePolicy) (s : List Select) (v : Verdict)
      → decide e ms lead now (e.head + 1) ≡ v
      → IsReady (length ms) e
      → e.head < lead
      → Run d e s
      → ((f : DiscretePolicy) (t : List Select)
          → f.head ≡ e.head + 1
          → Run d f t
          → Total fuel d f t)
      → Total (suc fuel) d e s
  advance-turn fuel d e s stop p h q r rec = (
    finish e s (pos 0),
    advance_stop fuel e s (lt→ltb _ _ q) h.deep p,
    record { last = e; run = r; ends = stopped q p refl refl; head = refl },
  )
  advance-turn fuel d e s (hold f w) p h q r rec = (
    finish f s w,
    advance_hold fuel e f w s (lt→ltb _ _ q) h.deep p,
    record { last = e; run = r; ends = held q p; head = refl },
  )
  advance-turn fuel d e s fault p h q r rec =
      absurd (decide-ne-fault e ms lead now (e.head + 1) h.primary p)
  advance-turn fuel d e s (show mid pick) p h q r rec =
      let (b, source) = decide-show e ms lead now (e.head + 1) {e = mid} {pick = pick} p in
      let (old, g) = slot_filled e (e.head + 1) h in
      let (f, t, u) =
        publish-total mid pick (e.head + 1) {old = old} (rw (b.current, b.config.grains) g) in
      let k : Turn e pick f t = Turn-publish {d = e} {mid = mid} pick h q p u in
      let (x, y, z) = rec f (s ++ t) k.head (turn pick r k) in
      (x, advance_show fuel e mid f pick s t (lt→ltb _ _ q) h.deep p u ∙ y, z)

  pub advance-Returns :
      (fuel : ℕ) (d e : DiscretePolicy) (s : List Select)
      → IsReady (length ms) d
      → lead - e.head < fuel
      → Run d e s
      → Total fuel d e s
  advance-Returns zero d e s h f r = absurd (omega arith)
  advance-Returns (suc fuel) d e s h f r = elim (Bool-cases (ltb e.head lead)) [
    | inr q ↦ (
      finish e s (pos 0),
      advance_caught fuel e s q,
      record { last = e; run = r; ends = caught_up (ltb→le _ _ q) refl refl; head = refl },
    )
    | inl q ↦
        advance-turn fuel d e s (decide e ms lead now (e.head + 1)) refl (Run-IsReady r h)
          (ltb→lt _ _ q) r
          (λ g t head run. advance-Returns fuel d g t h (omega (arith, ltb→lt _ _ q)) run)
  ]

  -- However the loop ends, the ring, the head and the configuration are the last turn's.
  pub Ends-Decided : {d e : DiscretePolicy} {wait : ℤ} → Ends d e wait → Decided (length ms) now d e
  Ends-Decided (caught_up _ same _) = ground arith
  Ends-Decided (stopped _ _ same _) = ground arith
  Ends-Decided {d} {e} {wait} (held _ q) =
      (decide-hold d ms lead now (d.head + 1) {e = e} {wait = wait} q).0

  pub Decided-IsReady :
      (d e : DiscretePolicy)
      → Decided (length ms) now d e
      → IsReady (length ms) d
      → IsReady (length ms) e
  Decided-IsReady d e b h = record {
    peopled = h.peopled;
    deep = rw b.config.grains h.deep;
    ring = rw (b.current, b.config.grains) h.ring;
    members = rw b.config.placeholder h.members;
    primary = b.primary h.primary;
    sources = rw (b.current, b.config.placeholder) h.sources;
  }
