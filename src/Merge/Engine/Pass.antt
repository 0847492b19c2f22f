-- ===== src/Merge/Engine/Pass.antt =====
-- A pass of the engine over a discrete output: what the policy decides is what the output shows.
use mathlib.Core.Path.{subst}
use native.Mathlib.Nat.{mod-lt}
use mxl_k8s.Base.{
  ℕ, ◌^◌, ◌≤◌, ◌<◌, max, ◌≡◌, refl, sym, ap, ◌∙◌, inl, inr, Bool, true, some, List, [], ◌∷◌, ◌++◌,
  arith, All, All-map, ltb, length, Bool-cases,
}
use mxl_k8s.Merge.Discrete.{
  Member, DiscretePolicy, Select, Stepped, leading, step, start_head, start_primary,
}
use mxl_k8s.Merge.Discrete.Run.{
  IsReady, Run, start, turn, Run-IsReady, Run-SameConfig, Ends-Decided, Decided-IsReady,
}
use mxl_k8s.Merge.Discrete.Step.{
  begun, begun-SameConfig, begun-IsReady, current-begun, step-Returns,
}
use mxl_k8s.Merge.Discrete.Replay.{replay, replay-append, Ascends, Run-Ascends, Run-replay}
use mxl_k8s.Merge.Discrete.Retire.{retire}
use mxl_k8s.Merge.Discrete.Retire.Trusted.{retire-Retired}
use mxl_k8s.Merge.Engine.{Output, Merged, apply, finish_pass, publish_head, pass_discrete}
use mxl_k8s.Merge.Engine.Apply.{Sees, IsWithin, apply-Applied}
use mxl_k8s.Merge.Engine.Visible.{IsTrusted, Run-IsTrusted}
use mxl_k8s.Merge.Engine.Tracks.{step-Tracks, retire-IsWithin}

-- The output shows what the policy records, and is published no further than the policy is.
pub record IsServing (n : ℕ) (d : DiscretePolicy) (o : Output) : Type 0 where
  pub ready : IsReady n d
  pub views : o.views ≡ d.current
  pub head : o.head ≤ d.head
  pub tracked : length d.late ≡ length d.seen

module _ (ms : List Member) (lead now : ℕ) where
  Run-top :
      {d e : DiscretePolicy} {s : List Select} → Run ms lead now d e s → e.head ≤ max d.head lead
  Run-top start = omega arith
  Run-top {d} (turn {e = e} pick r k) = omega (arith, Run-top {d = d} {e = e} r, k.head, k.behind)

Ascends-IsWithin :
    (grains low top : ℕ) (ss : List Select)
    → 0 < grains
    → Ascends grains low ss
    → All (λ s. s.index ≤ top) ss
    → All (IsWithin grains top) ss
Ascends-IsWithin grains low top [] h k l = tt
Ascends-IsWithin grains low top (s ∷ ss) h k l =
    ((omega (arith, k.1, mod-lt s.index h), l.0), Ascends-IsWithin grains s.index top ss h k.2 l.1)

All-append : (P : Select → Type 0) (ss ts : List Select) → All P ss → All P ts → All P (ss ++ ts)
All-append P [] ts h k = k
All-append P (s ∷ ss) ts h k = (h.0, All-append P ss ts h.1 k)

begun-head :
    (d : DiscretePolicy) (ms : List Member)
    → (d.head ≤ (begun d ms).head) × ((begun d ms).head ≤ max d.head (leading ms 0))
unfolding start_head start_primary
begun-head d ms = (ground arith, ground arith)

-- What a pass does with the policy before it applies its selects.
record Planned (ms later : List Member) (now due : ℕ) (d : DiscretePolicy) (o : Output)
    (r : Stepped) (e : DiscretePolicy) (s : List Select) : Type 0 where
  pub stepped : step d ms now ≡ some r
  pub retired : retire r.state later due ≡ some (e, s)
  pub ready : IsReady (length ms) e
  pub head : e.head ≡ r.head
  pub top : r.head ≤ max d.head (leading ms 0)
  pub up : d.head ≤ r.head
  pub tracked : length e.late ≡ length e.seen
  pub within : All (IsWithin d.grains r.head) (r.selects ++ s)
  pub replays : replay (r.selects ++ s) d.current ≡ e.current
  pub trusted :
      o.views ≡ d.current
      → o.head ≤ d.head
      → leading ms 0 < 2 ^ 63
      → (accepts : Select → Bool) (x : Output) → Sees accepts r.selects o x
      → IsTrusted ms (leading ms 0) now (begun d ms) o x

plan-Planned :
    (ms later : List Member) (now due : ℕ) (d : DiscretePolicy) (o : Output)
    → IsReady (length ms) d
    → length d.late ≡ length d.seen
    → length later ≡ length ms
    → leading ms 0 < 2 ^ 63
    → d.head < 2 ^ 63
    → d.grains < 2 ^ 62
    → (r : Stepped) × (e : DiscretePolicy) × (s : List Select) × Planned ms later now due d o r e s
plan-Planned ms later now due d o h tracked same lead fits ring =
    let (r, q, x) = step-Returns d ms now h in
    let b = Ends-Decided ms (leading ms 0) now x.ends in
    let bh = begun-IsReady d ms h in
    let kept =
      Decided-IsReady ms (leading ms 0) now x.last r.state b
        (Run-IsReady ms (leading ms 0) now x.run bh) in
    let c0 = begun-SameConfig d ms in
    let c1 = Run-SameConfig ms (leading ms 0) now x.run in
    let g : r.state.grains ≡ d.grains = b.config.grains ∙ c1.grains ∙ c0.grains in
    let t = step-Tracks d ms now r q in
    let lists : length r.state.late ≡ length r.state.seen =
      ap length t.1 ∙ tracked ∙ sym (ap length t.0) in
    let (up, top, grow, _) = Run-Ascends ms (leading ms 0) now x.run in
    let (low, high) = begun-head d ms in
    let edge = Run-top ms (leading ms 0) now x.run in
    let head : r.head ≡ x.last.head = x.head ∙ b.head in
    let (e, s, q', k) =
      retire-Retired r.state later due (subst (λ n. IsReady n r.state) (sym same) kept) lists
        (omega (arith, x.head)) in
    let (w, lists') = retire-IsWithin r.state e later due s q' lists (omega (arith, h.deep)) in
    (
      r,
      e,
      s,
      record {
        stepped = q;
        retired = q';
        ready = subst (λ n. IsReady n e) same k.ready;
        head = k.head ∙ sym x.head;
        top = omega arith;
        up = omega arith;
        tracked = lists';
        within =
            All-append (IsWithin d.grains r.head) r.selects s
              (Ascends-IsWithin d.grains (begun d ms).head r.head r.selects (omega (arith, h.deep))
                (subst (λ y. Ascends y (begun d ms).head r.selects) c0.grains up)
                (All-map _ _ (λ y z. omega (arith, z, head)) r.selects top))
              (All-map _ _ (λ y z. (omega (arith, z.0, g), omega (arith, z.1, x.head))) s w);
        replays =
            replay-append r.selects s d.current
            ∙ ap (replay s) (
                ap (replay r.selects) (sym (current-begun d ms))
                ∙ Run-replay ms (leading ms 0) now x.run
                ∙ sym b.current)
            ∙ k.replays;
        trusted = λ v l lead' accepts y sees.
            Run-IsTrusted ms (leading ms 0) now accepts o y lead' bh x.run
              (v ∙ sym (current-begun d ms)) (omega arith) sees;
      },
    )

finished :
    (head : ℕ) (p : Output) (taken : Bool)
    → p.head ≤ head
    → ((finish_pass head (p, taken)).head ≤ head)
      × ((finish_pass head (p, taken)).views ≡ p.views)
      × (taken ≡ true → (finish_pass head (p, taken)).head ≡ head)
      × (p.head ≤ (finish_pass head (p, taken)).head)
unfolding finish_pass publish_head
finished head p taken l = elim (Bool-cases taken) [
  | inr q ↦ rw q (l, refl, λ t. absurd (ground (arith, t, q)), omega arith)
  | inl q ↦ elim (Bool-cases (ltb p.head head)) [
    | inl t ↦ rw (q, t) (omega arith, refl, λ x. refl, l)
    | inr t ↦ rw (q, t) (l, refl, λ x. ground (arith, t), omega arith)
  ]
]

pass_run :
    (accepts : Select → Bool) (ms later : List Member) (now due : ℕ) (d e : DiscretePolicy)
    (o p : Output) (r : Stepped) (s : List Select) (taken : Bool)
    → step d ms now ≡ some r
    → retire r.state later due ≡ some (e, s)
    → apply accepts (r.selects ++ s) o ≡ some (p, taken)
    → pass_discrete accepts ms later now due d o
      ≡ some (record {
        policy = e;
        output = finish_pass r.head (p, taken);
        wait = r.wait;
        taken = taken;
      })
unfolding pass_discrete
pass_run accepts ms later now due d e o p r s taken q q' q'' = rw (pass_discrete, q, q', q'') refl

-- Where the output shows what the policy records and is published no further than the policy, the
-- policy is whole and follows as many members in `late` as in `seen`, the ring has fewer than 2^62
-- grains and no head is at 2^63 or more, a pass returns, whatever the members hold and however far
-- they got by the time of `Retire`. The published head moves only forward and not past the
-- policy's. If the module took every select, the output shows again what the policy records,
-- published up to the policy's head, and the policy is whole; the next pass starts from there.
-- While the selects of `Step` are applied, every output that readers can see is right for them:
-- each index from two above the oldest of the ring up to the published head shows a source of that
-- index where `Step` published it, and what it showed before where it is older.
pub pass_discrete-IsServing :
    (accepts : Select → Bool) (ms later : List Member) (now due : ℕ) (d : DiscretePolicy)
    (o : Output)
    → IsServing (length ms) d o
    → length later ≡ length ms
    → leading ms 0 < 2 ^ 63
    → d.head < 2 ^ 63
    → d.grains < 2 ^ 62
    → (m : Merged) × (r : Stepped) × (pass_discrete accepts ms later now due d o ≡ some m)
      × (step d ms now ≡ some r)
      × (o.head ≤ m.output.head)
      × (m.output.head ≤ m.policy.head)
      × (m.taken ≡ true → IsServing (length ms) m.policy m.output × (m.output.head ≡ m.policy.head))
      × (((s : Select) → accepts s ≡ true) → m.taken ≡ true)
      × ((x : Output)
          → Sees accepts r.selects o x
          → IsTrusted ms (leading ms 0) now (begun d ms) o x)
pass_discrete-IsServing accepts ms later now due d o h same lead fits ring =
    let (r, e, s, k) = plan-Planned ms later now due d o h.ready h.tracked same lead fits ring in
    let (p, taken, q, a) =
      apply-Applied accepts d.grains r.head (r.selects ++ s) o (omega (arith, k.top))
        (ap length h.views ∙ h.ready.ring) (omega (arith, h.head, k.up)) k.within in
    let (below, shows, full, up) = finished r.head p taken a.head in
    (
      record { policy = e; output = finish_pass r.head (p, taken); wait = r.wait; taken = taken },
      r,
      pass_run accepts ms later now due d e o p r s taken k.stepped k.retired q,
      k.stepped,
      omega (arith, a.up, up),
      omega (arith, below, k.head),
      λ t. (
        record {
          ready = k.ready;
          views = shows ∙ a.views t ∙ ap (replay (r.selects ++ s)) h.views ∙ k.replays;
          head = omega (arith, below, k.head);
          tracked = k.tracked;
        },
        full t ∙ sym k.head,
      ),
      a.all,
      k.trusted h.views h.head lead accepts,
    )
