-- ===== src/Merge/Discrete/Retire/Trusted.antt =====
-- `Retire` as a whole: it returns, and no slot that readers trust shows a member that may write
-- over its grain.
use mxl_k8s.Base.{
  ℕ, suc, ◌+◌, ◌-◌, ◌%◌, ◌^◌, ◌≤◌, ◌<◌, ◌≡◌, sym, ap, ◌∙◌, ◌⊎◌, inl, inr, At, At-map, Option, some,
  List, [], arith, length, get_elem?, get_elem?_of_lt, lt_of_get_elem?, replicate, min, max,
}
use mathlib.Core.Path.{subst}
use mxl_k8s.Base.Words.{u64}
use mxl_k8s.Merge.Discrete.{Member, DiscretePolicy, Select}
use mxl_k8s.Merge.Discrete.Scan.{HoldsGrain, serves-HoldsGrain}
use mxl_k8s.Merge.Discrete.Turn.{SameConfig, SameConfig-trans, HasPrimary, serves-SameConfig}
use mxl_k8s.Merge.Discrete.Run.{IsReady}
use mxl_k8s.Merge.Discrete.Replay.{replay}
use mxl_k8s.Merge.Discrete.Retire.{nexts, highest, retire_from, oldest, refresh, retire}
use mxl_k8s.Merge.Discrete.Retire.Members.{
  Follows, IsTracked, Refreshed, refresh-total, le-highest, nexts-get, length-nexts,
}
use mxl_k8s.Merge.Discrete.Retire.Loop.{Swept, retire_from-Swept}

-- No index within a ring of the head wraps.
abbrev pub InRange : DiscretePolicy → Type 0
InRange d = d.head + d.grains + 2 < 2 ^ 64

-- Nothing that `source` may write before the next pass reaches the index `i + grains`.
abbrev pub WritesBelow : DiscretePolicy → List Member → ℕ → ℕ → ℕ → Type 0
WritesBelow d ms due i source =
    (m : Member) × (late : ℕ) × (get_elem? ms source ≡ some m)
    × (get_elem? d.late source ≡ some late)
    × (u64 (m.head + 1) < i + d.grains)
    × (due - min due late < i + d.grains)

-- Slot `i` shows a source that keeps it true: it was there before, is the placeholder, or holds
-- the grain of `i`.
pub record IsTrue (d e : DiscretePolicy) (ms : List Member) (due i : ℕ) : Type 0 where
  pub source : ℕ
  pub shows : get_elem? e.current (i % d.grains) ≡ some source
  pub quiet : (source ≡ d.placeholder) ⊎ WritesBelow e ms due i source
  pub origin :
      (get_elem? d.current (i % d.grains) ≡ some source)
      ⊎ (source ≡ d.placeholder)
      ⊎ At (HoldsGrain d i) ms source

oldest_le :
    (d : DiscretePolicy) (i : ℕ) → InRange d → 1 ≤ i → d.head + 2 ≤ i + d.grains → oldest d ≤ i
unfolding oldest
oldest_le d i fits one low = ground arith

oldest_near : (d : DiscretePolicy) → InRange d → 2 ≤ d.grains → d.head < oldest d + d.grains
unfolding oldest
oldest_near d fits deep = ground arith

-- What `Retire` returns, with what it keeps of the policy.
pub record Retired (d : DiscretePolicy) (ms : List Member) (due : ℕ) (e : DiscretePolicy)
    (s : List Select) : Type 0 where
  pub ready : IsReady (length ms) e
  pub config : SameConfig d e
  pub head : e.head ≡ d.head
  pub late : length e.late ≡ length ms
  pub tracked : IsTracked d ms due e
  pub replays : replay s d.current ≡ e.current
  pub trusted : (i : ℕ) → 1 ≤ i → d.head + 2 ≤ i + d.grains → i ≤ d.head → IsTrue d e ms due i

Refreshed-IsReady : {n : ℕ} (d e : DiscretePolicy) → Refreshed n d e → IsReady n d → IsReady n e
Refreshed-IsReady {n} d e k h = record {
  peopled = h.peopled;
  deep = rw k.config.grains h.deep;
  ring = rw (k.current, k.config.grains) h.ring;
  members = rw k.config.placeholder h.members;
  primary = subst (HasPrimary n) (sym k.primary) h.primary;
  sources = rw (k.current, k.config.placeholder) h.sources;
}

-- What a bound on the code's next index of a member says of the member.
nexts-WritesBelow :
    (d e : DiscretePolicy) (ms : List Member) (due i source n : ℕ)
    → length e.late ≡ length ms
    → get_elem? (nexts due ms e.late) source ≡ some n
    → n < i + d.grains
    → e.grains ≡ d.grains
    → WritesBelow e ms due i source
nexts-WritesBelow d e ms due i source n h g l same =
    let in_range = lt_of_get_elem? (nexts due ms e.late) source g in
    let (m, gm) =
      get_elem?_of_lt ms source (omega (arith, in_range, length-nexts due ms e.late h)) in
    let (late, gl) =
      get_elem?_of_lt e.late source (omega (arith, in_range, length-nexts due ms e.late h)) in
    let x = nexts-get due ms e.late source gm gl in
    let y : n ≡ max (u64 (m.head + 1)) (due - min due late) = ground arith in
    (m, late, gm, gl, omega arith, omega arith)

Retired-Swept :
    (d a e : DiscretePolicy) (ms : List Member) (due : ℕ) (s : List Select)
    → 2 ≤ d.grains
    → InRange d
    → Refreshed (length ms) d a
    → IsTracked d ms due a
    → Swept ms (nexts due ms a.late) a e (oldest a) [] s
    → Retired d ms due e s
Retired-Swept d a e ms due s deep fits k t w = record {
  ready = w.ready;
  config = SameConfig-trans d a e k.config w.config;
  head = w.head ∙ k.head;
  late = ap length w.late ∙ k.late;
  tracked = record {
    known = λ x.
        subst (λ ls. Follows due ms d.seen d.late e.seen ls) (sym w.late)
          (subst (λ ss. Follows due ms d.seen d.late ss a.late) (sym w.seen) (t.known x));
    forgotten = λ x.
        subst (λ ls. Follows due ms (replicate (length ms) 0) (replicate (length ms) 0) e.seen ls)
          (sym w.late)
          (subst
            (λ ss. Follows due ms (replicate (length ms) 0) (replicate (length ms) 0) ss a.late)
            (sym w.seen) (t.forgotten x));
  };
  replays = w.replays d.current (sym k.current);
  trusted = λ i one low high.
      let x =
        w.kept i
          (oldest_le a i (omega (arith, k.head, k.config.grains)) one
            (omega (arith, k.head, k.config.grains)))
          (omega (arith, k.head)) in
      record {
        source = x.source;
        shows = subst (λ g. get_elem? e.current (i % g) ≡ some x.source) k.config.grains x.shows;
        quiet = elim x.quiet [
          | inl p ↦ inl (p ∙ k.config.placeholder)
          | inr (n, g, l) ↦ inr (
              nexts-WritesBelow a e ms due i x.source n (ap length w.late ∙ k.late)
                (subst (λ ls. get_elem? (nexts due ms ls) x.source ≡ some n) (sym w.late) g) l
                w.config.grains)
        ];
        origin = elim x.origin [
          | inl g ↦ inl (
              ap (λ c. get_elem? c (i % d.grains)) (sym k.current)
              ∙ subst (λ g. get_elem? a.current (i % g) ≡ some x.source) k.config.grains g)
          | inr (inl p) ↦ inr (inl (p ∙ k.config.placeholder))
          | inr (inr v) ↦ inr (
              inr (
                At-map _ _
                  (λ m p.
                    serves-HoldsGrain d i m deep (sym (serves-SameConfig d a m i k.config) ∙ p))
                  ms x.source v))
        ];
      };
}

retire_of :
    (d a : DiscretePolicy) (ms : List Member) (due : ℕ) {r : Option (DiscretePolicy × List Select)}
    → refresh d ms due ≡ some a
    → retire_from
        (suc (suc a.head - oldest a))
        ms
        (nexts due ms a.late)
        (highest (nexts due ms a.late) 0)
        (oldest a)
        a
        []
      ≡ r
    → retire d ms due ≡ r
unfolding retire
retire_of d a ms due q q' = rw (q, retire) q'

-- Where the policy is whole, follows as many members in `late` as in `seen`, and its indices are
-- in the range of `InRange`, `Retire` returns. After it, every index i that readers trust, from
-- head - grains + 2 to the head, shows a source that writes nothing over it before the next pass:
-- the placeholder, or a member whose next index, and the index due less how far the member runs
-- behind it, both lie below i + grains. How far a member runs behind is what was remembered where
-- its head is the one remembered, and else the index due less its head; the head is remembered
-- then, and with another number of members than before all are as if they had been at 0. The
-- source was there before, or is the placeholder, or a member that holds the grain of i: its head
-- is at most the grains less two past i, and its slot has the grain of i, valid, and complete
-- where it is not data. The selects, applied in order, turn the old sources of the slots into the
-- new ones, and the policy stays whole.
pub retire-Retired :
    (d : DiscretePolicy) (ms : List Member) (due : ℕ)
    → IsReady (length ms) d
    → length d.late ≡ length d.seen
    → InRange d
    → (e : DiscretePolicy) × (s : List Select) × (retire d ms due ≡ some (e, s))
      × Retired d ms due e s
retire-Retired d ms due h tracked fits =
    let (a, q, k, t) = refresh-total d ms due tracked in
    let (e, s, q', w) = swept a k in
    (e, s, retire_of d a ms due q q', Retired-Swept d a e ms due s h.deep fits k t w)
  where
    swept :
        (a : DiscretePolicy)
        → Refreshed (length ms) d a
        → (e : DiscretePolicy) × (s : List Select) × (retire_from
              (suc (suc a.head - oldest a))
              ms
              (nexts due ms a.late)
              (highest (nexts due ms a.late) 0)
              (oldest a)
              a
              []
            ≡ some (e, s))
          × Swept ms (nexts due ms a.late) a e (oldest a) [] s
    swept a k =
        retire_from-Swept ms (nexts due ms a.late) (suc (suc a.head - oldest a)) a (oldest a) []
          (highest (nexts due ms a.late) 0) (Refreshed-IsReady d a k h)
          (length-nexts due ms a.late k.late) (λ j n g. le-highest (nexts due ms a.late) 0 j g)
          (oldest_near a (omega (arith, k.head, k.config.grains))
            (omega (arith, h.deep, k.config.grains)))
          (omega (arith, k.head, k.config.grains)) (omega arith)
