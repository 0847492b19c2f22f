-- ===== src/Merge/Discrete/Step.antt =====
-- What `Step` promises: it returns, keeps the policy whole, and shows each grain it publishes from
-- a source of it.
use mxl_k8s.Base.{
  ℕ, suc, ◌+◌, ◌-◌, ◌%◌, ◌≤◌, ◌<◌, ◌≡◌, sym, ◌∙◌, ◌⊎◌, inl, inr, some, List, [], arith, All, At,
  All-map, At-map, length, get_elem?, get_elem?-set_self, get_elem?-set_ne, mod-ne,
}
use native.Mathlib.Decide.{dec_lt}
use mxl_k8s.Merge.Discrete.{
  Member, DiscretePolicy, Select, Stepped, leading, start_primary, start_head, step,
}
use mxl_k8s.Base.Words.{u64}
use mxl_k8s.Merge.Discrete.Scan.{HoldsGrain, serves-HoldsGrain, HoldsGrain-serves}
use mxl_k8s.Merge.Discrete.Turn.{SameConfig, HasPrimary, IsSource, serves-SameConfig}
use mxl_k8s.Merge.Discrete.Run.{
  IsReady, Turn, Run, start, turn, Returns, Run-IsReady, Run-SameConfig, advance-Returns,
  Ends-Decided, Decided-IsReady,
}

-- The policy that the loop starts from.
abbrev pub begun : DiscretePolicy → List Member → DiscretePolicy
begun d ms = start_head (start_primary d) (leading ms 0)

pub begun-SameConfig : (d : DiscretePolicy) (ms : List Member) → SameConfig d (begun d ms)
unfolding start_head start_primary
begun-SameConfig d ms = ground arith

pub current-begun : (d : DiscretePolicy) (ms : List Member) → (begun d ms).current ≡ d.current
unfolding start_head start_primary
current-begun d ms = ground arith

begun-HasPrimary :
    (n : ℕ) (d : DiscretePolicy) (ms : List Member)
    → 0 < n
    → HasPrimary n d.primary
    → HasPrimary n (begun d ms).primary
unfolding start_head start_primary
begun-HasPrimary n d ms h p = ground arith

pub begun-IsReady :
    (d : DiscretePolicy) (ms : List Member)
    → IsReady (length ms) d
    → IsReady (length ms) (begun d ms)
begun-IsReady d ms h =
    let c = begun-SameConfig d ms in
    record {
      peopled = h.peopled;
      deep = rw c.grains h.deep;
      ring = rw (current-begun, c.grains) h.ring;
      members = rw c.placeholder h.members;
      primary = begun-HasPrimary (length ms) d ms h.peopled h.primary;
      sources = rw (current-begun, c.placeholder) h.sources;
    }

pub step-Returns :
    (d : DiscretePolicy) (ms : List Member) (now : ℕ)
    → IsReady (length ms) d
    → (r : Stepped) × (step d ms now ≡ some r) × Returns ms (leading ms 0) now (begun d ms) r
unfolding step
step-Returns d ms now h =
    advance-Returns ms (leading ms 0) now (suc (leading ms 0 - (begun d ms).head)) (begun d ms)
      (begun d ms) [] (begun-IsReady d ms h) (omega arith) start

module _ (ms : List Member) (lead now : ℕ) where
  IsSource-SameConfig :
      (d e : DiscretePolicy) (index pick : ℕ)
      → SameConfig d e
      → IsSource e ms lead index pick
      → IsSource d ms lead index pick
  IsSource-SameConfig d e index pick h (inl s) =
      inl (At-map _ _ (λ m p. sym (serves-SameConfig d e m index h) ∙ p) ms pick s)
  IsSource-SameConfig d e index pick h (inr s) = inr (
    s.0 ∙ h.placeholder,
    All-map _ _ (λ m p. sym (serves-SameConfig d e m index h) ∙ p) ms s.1,
    rw (← h.skew) s.2,
  )

  -- The slot of every index published since `d`, as far as the ring holds it, shows a source of it.
  abbrev pub IsSourced : DiscretePolicy → DiscretePolicy → Type 0
  IsSourced d e =
      (i : ℕ)
      → d.head < i
      → i ≤ e.head
      → e.head < i + d.grains
      → (src : ℕ) × (get_elem? e.current (i % d.grains) ≡ some src) × IsSource d ms lead i src

  Turn-IsSourced :
      {d e f : DiscretePolicy} (pick : ℕ) {s : List Select}
      → IsReady (length ms) e
      → SameConfig d e
      → Turn ms lead now e pick f s
      → IsSourced d e
      → IsSourced d f
  Turn-IsSourced {d} {e} {f} pick r c t h i low high near = elim (dec_lt e.head i) [
    | yes new ↦
        let same : i ≡ e.head + 1 = omega (arith, t.head) in
        (
          pick,
          rw (same, t.current, ← c.grains)
              (get_elem?-set_self e.current ((e.head + 1) % e.grains) pick
                (omega (arith, r.ring, r.deep))),
          rw same (IsSource-SameConfig d e (e.head + 1) pick c t.source),
        )
    | no old ↦
        let (src, g, s) = h i low (omega arith) (omega (arith, t.head)) in
        (
          src,
          rw (t.current, ← c.grains)
              (get_elem?-set_ne e.current pick (λ q.
                  mod-ne e.grains i (e.head + 1) (omega (arith, r.deep)) (omega arith)
                    (omega (arith, t.head, c.grains)) (sym q))
                ∙ rw c.grains g),
          s,
        )
  ]

  pub Run-IsSourced :
      {d e : DiscretePolicy} {s : List Select}
      → IsReady (length ms) d
      → Run ms lead now d e s
      → IsSourced d e
  Run-IsSourced h start = λ i low high near. absurd (omega arith)
  Run-IsSourced {d} h (turn {e = e} {f = f} pick r t) =
      Turn-IsSourced {d = d} {e = e} {f = f} pick (Run-IsReady ms lead now r h)
        (Run-SameConfig ms lead now r) t (Run-IsSourced h r)

-- `pick` may show the index: a member that holds its grain, or the placeholder where no member does
-- and the leading one is past the skew.
abbrev pub IsShown : DiscretePolicy → List Member → ℕ → ℕ → ℕ → Type 0
IsShown d ms lead index pick =
    At (HoldsGrain d index) ms pick
    ⊎ ((pick ≡ d.placeholder)
        × All (λ m. ¬ HoldsGrain d index m) ms
        × (u64 (index + d.skew) ≤ lead))

IsSource-IsShown :
    (d : DiscretePolicy) (ms : List Member) (lead index pick : ℕ)
    → 2 ≤ d.grains
    → IsSource d ms lead index pick
    → IsShown d ms lead index pick
IsSource-IsShown d ms lead index pick deep (inl s) =
    inl (At-map _ _ (λ m q. serves-HoldsGrain d index m deep q) ms pick s)
IsSource-IsShown d ms lead index pick deep (inr (p, none_serves, past)) =
    inr (p, All-map _ _ (λ m q. HoldsGrain-serves d index m deep q) ms none_serves, past)

-- The slot of every index published since `d`, as far as the ring holds it, shows what it may.
abbrev pub IsFaithful : List Member → ℕ → DiscretePolicy → DiscretePolicy → Type 0
IsFaithful ms lead d e =
    (i : ℕ)
    → d.head < i
    → i ≤ e.head
    → e.head < i + d.grains
    → (src : ℕ) × (get_elem? e.current (i % d.grains) ≡ some src) × IsShown d ms lead i src

-- Where the policy is whole (`IsReady`), `Step` returns for any members and any time: no index of
-- the code is out of range, and the policy is whole again. The slot of every index it published
-- that the ring still holds shows a source of that index: a member whose head is at most the grains
-- less two past the index and whose slot has the grain of that index, valid, and complete where it
-- is not data; or the placeholder, where there is no such member and the leading one is past the
-- skew.
pub step-IsFaithful :
    (d : DiscretePolicy) (ms : List Member) (now : ℕ)
    → IsReady (length ms) d
    → (r : Stepped) × (step d ms now ≡ some r)
      × IsReady (length ms) r.state
      × (r.head ≡ r.state.head)
      × IsFaithful ms (leading ms 0) (begun d ms) r.state
step-IsFaithful d ms now h =
    let (r, q, x) = step-Returns d ms now h in
    let b = Ends-Decided ms (leading ms 0) now x.ends in
    let k = Run-IsReady ms (leading ms 0) now x.run (begun-IsReady d ms h) in
    (
      r,
      q,
      Decided-IsReady ms (leading ms 0) now x.last r.state b k,
      x.head,
      λ i low high near.
          let sourced : IsSourced ms (leading ms 0) now (begun d ms) r.state = λ i low high near.
            rw b.current (
              Run-IsSourced ms (leading ms 0) now (begun-IsReady d ms h) x.run i low
                (omega (arith, b.head)) (omega (arith, b.head))) in
          let (src, g, s) = sourced i low high near in
          (
            src,
            g,
            IsSource-IsShown (begun d ms) ms (leading ms 0) i src (begun-IsReady d ms h).deep s,
          ),
    )
