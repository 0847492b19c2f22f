-- ===== src/Merge/Discrete/Turn.antt =====
-- What one turn of the loop of `Step` decides and publishes.
use mxl_k8s.Base.{
  ℕ, ◌+◌, ◌%◌, ◌≤◌, ◌<◌, ◌≡◌, ◌≢◌, refl, sym, ◌⊎◌, inl, inr, true, false, Option, none, some, List,
  [], ◌∷◌, arith, ◌==◌, if◌then◌else◌, length, get_elem?, set, Bool-cases, Option-cases,
  get_elem?_of_lt, lt_of_At, set_same,
}
use mathlib.Core.Path.{subst}
use mxl_k8s.Base.Int.{ℤ, ◌-ℤ◌, ◌<ℤ◌}
use mxl_k8s.Base.Words.{u64, i64, sub_time}
use mxl_k8s.Merge.Discrete.{
  Member, DiscretePolicy, Select, stop, hold, show, fault, serves, scan, primary_skipped, wait_for,
  substitute, choose, decide, publish,
}
use mxl_k8s.Merge.Discrete.Scan.{Serves, NoneServes, Found, scan-Found, scan-none}

-- What `Step` never changes.
pub record SameConfig (d e : DiscretePolicy) : Type 0 where
  pub grains : e.grains ≡ d.grains
  pub is_data : e.is_data ≡ d.is_data
  pub skew : e.skew ≡ d.skew
  pub tolerance : e.tolerance ≡ d.tolerance
  pub ordered : e.ordered ≡ d.ordered
  pub placeholder : e.placeholder ≡ d.placeholder

pub SameConfig-refl : (d : DiscretePolicy) → SameConfig d d
SameConfig-refl d = ground arith

pub SameConfig-trans : (d e f : DiscretePolicy) → SameConfig d e → SameConfig e f → SameConfig d f
SameConfig-trans d e f h k = ground arith

pub serves-SameConfig :
    (d e : DiscretePolicy) (m : Member) (i : ℕ) → SameConfig d e → serves e m i ≡ serves d m i
unfolding serves
serves-SameConfig d e m i h = rw (h.grains, h.is_data) refl

-- The primary, where there is one, is one of `n` members.
abbrev pub HasPrimary : ℕ → Option ℕ → Type 0
HasPrimary n none = Unit
HasPrimary n (some p) = p < n

-- `pick` may show the grain `index`: a member that serves it, or the placeholder where no member
-- does and the leading one is past the skew.
abbrev pub IsSource : DiscretePolicy → List Member → ℕ → ℕ → ℕ → Type 0
IsSource d ms lead index pick =
    Serves d index ms pick
    ⊎ ((pick ≡ d.placeholder) × NoneServes d index ms × (u64 (index + d.skew) ≤ lead))

-- What a decision leaves as it was.
pub record Decided (n now : ℕ) (d e : DiscretePolicy) : Type 0 where
  pub config : SameConfig d e
  pub head : e.head ≡ d.head
  pub current : e.current ≡ d.current
  pub primary : HasPrimary n d.primary → HasPrimary n e.primary
  pub since : d.waiting_since ≤ now → e.waiting_since ≤ now

module _ (d : DiscretePolicy) (ms : List Member) (lead now index : ℕ) where
  substitute-show :
      (alt : ℕ) {e : DiscretePolicy} {pick : ℕ}
      → alt < length ms
      → substitute d ms index alt now ≡ show e pick
      → Decided (length ms) now d e × (pick ≡ alt)
  unfolding substitute wait_for primary_skipped
  substitute-show alt h q = ground arith

  choose-show :
      (found : Option ℕ × Option ℕ) {e : DiscretePolicy} {pick : ℕ}
      → ((j : ℕ) → Found d index found j → Serves d index ms j)
      → (found ≡ (none, none) → NoneServes d index ms)
      → choose d ms lead now index found ≡ show e pick
      → Decided (length ms) now d e × IsSource d ms lead index pick
  unfolding choose
  choose-show (some j, alt) on off q =
      (ground arith, inl (subst (Serves d index ms) (ground arith) (on j (inl refl))))
  choose-show (none, some alt) {e} {pick} on off q = elim (Bool-cases d.ordered) [
    | inl o ↦
        let (h, same) =
          substitute-show alt {e = e} {pick = pick} (lt_of_At _ ms alt (on alt (inr refl)))
            (simp o at q) in
        (h, inl (subst (Serves d index ms) (sym same) (on alt (inr refl))))
    | inr o ↦ (ground arith, inl (subst (Serves d index ms) (ground arith) (on alt (inr refl))))
  ]
  choose-show (none, none) on off q = (ground arith, inr (ground arith, off refl, ground arith))

  -- A decision shows a source of the grain, and leaves the ring and the head as they were.
  pub decide-show :
      {e : DiscretePolicy} {pick : ℕ}
      → decide d ms lead now index ≡ show e pick
      → Decided (length ms) now d e × IsSource d ms lead index pick
  unfolding decide
  decide-show q =
      choose-show (scan d index 0 ms (none, none)) found_serves
        (λ e. (scan-none d index 0 ms (none, none) e).1) q
    where
      found_serves :
          (j : ℕ) → Found d index (scan d index 0 ms (none, none)) j → Serves d index ms j
      found_serves j f = elim (scan-Found d index 0 ms (none, none) j f) [
        | inl g ↦ absurd (ground arith)
        | inr (k, e, s) ↦ subst (Serves d index ms) (omega arith) s
      ]

-- Why a turn waits: another member than the late primary holds the grain, and the tolerance since
-- the wait began is not over.
pub record Waits (d : DiscretePolicy) (ms : List Member) (now index : ℕ) (e : DiscretePolicy)
    (wait : ℤ) : Type 0 where
  pub ordered : d.ordered ≡ true
  pub primary : e.primary ≡ d.primary
  pub waiting : e.waiting_index ≡ index
  pub since : e.waiting_since ≡ (if d.waiting_index == index then d.waiting_since else now)
  pub early : sub_time now e.waiting_since <ℤ d.tolerance
  pub left : wait ≡ i64 (d.tolerance -ℤ sub_time now e.waiting_since)
  pub late : primary_skipped d ms index ≡ some false

module _ (d : DiscretePolicy) (ms : List Member) (lead now index : ℕ) where
  substitute-hold :
      (alt : ℕ) {e : DiscretePolicy} {wait : ℤ}
      → d.ordered ≡ true
      → substitute d ms index alt now ≡ hold e wait
      → Decided (length ms) now d e × Waits d ms now index e wait
  unfolding substitute
  substitute-hold alt o q = (ground arith, ground arith)

  substitute-ne-stop : (alt : ℕ) → substitute d ms index alt now ≢ stop
  unfolding substitute
  substitute-ne-stop alt q = ground arith

  choose-hold :
      (found : Option ℕ × Option ℕ) {e : DiscretePolicy} {wait : ℤ}
      → choose d ms lead now index found ≡ hold e wait
      → Decided (length ms) now d e
        × Waits d ms now index e wait
        × ((j : ℕ) × Found d index found j)
  unfolding choose
  choose-hold (some j, alt) q = absurd (ground arith)
  choose-hold (none, some alt) {e} {wait} q = elim (Bool-cases d.ordered) [
    | inl o ↦
        let (h, w) = substitute-hold alt {e = e} {wait = wait} o (simp o at q) in
        (h, w, (alt, inr refl))
    | inr o ↦ absurd (ground arith)
  ]
  choose-hold (none, none) q = absurd (ground arith)

  choose-stop :
      (found : Option ℕ × Option ℕ)
      → choose d ms lead now index found ≡ stop
      → (found ≡ (none, none)) × (lead < u64 (index + d.skew))
  unfolding choose
  choose-stop (some j, alt) q = absurd (ground arith)
  choose-stop (none, some alt) q = absurd (ground (arith, substitute-ne-stop alt))
  choose-stop (none, none) q = (refl, ground arith)

  HasPrimary-lt : (n : ℕ) (o : Option ℕ) {p : ℕ} → HasPrimary n o → o ≡ some p → p < n
  HasPrimary-lt n none h e = absurd (ground arith)
  HasPrimary-lt n (some q) h e = ground arith

  substitute-ne-fault :
      (alt : ℕ) → HasPrimary (length ms) d.primary → substitute d ms index alt now ≢ fault
  unfolding substitute
  substitute-ne-fault alt h q = elim (Option-cases d.primary) [
    | inl e ↦ ground arith
    | inr (p, e) ↦
        let (m, g) = get_elem?_of_lt ms p (HasPrimary-lt (length ms) d.primary h e) in ground arith
  ]

  choose-ne-fault :
      (found : Option ℕ × Option ℕ)
      → HasPrimary (length ms) d.primary
      → choose d ms lead now index found ≢ fault
  unfolding choose
  choose-ne-fault (some j, alt) p q = ground arith
  choose-ne-fault (none, some alt) p q = ground (arith, substitute-ne-fault alt)
  choose-ne-fault (none, none) p q = ground arith

  -- A decision waits only for a late primary, while another member holds the grain.
  pub decide-hold :
      {e : DiscretePolicy} {wait : ℤ}
      → decide d ms lead now index ≡ hold e wait
      → Decided (length ms) now d e × Waits d ms now index e wait × ((k : ℕ) × Serves d index ms k)
  unfolding decide
  decide-hold q =
      let (h, w, (j, f)) = choose-hold (scan d index 0 ms (none, none)) q in
      (
        h,
        w,
        elim (scan-Found d index 0 ms (none, none) j f) [
          | inl g ↦ absurd (ground arith)
          | inr (k, e, s) ↦ (k, s)
        ],
      )

  -- A decision stops only where no member holds the grain and the leader is within the skew.
  pub decide-stop :
      decide d ms lead now index ≡ stop → NoneServes d index ms × (lead < u64 (index + d.skew))
  unfolding decide
  decide-stop q =
      let (e, h) = choose-stop (scan d index 0 ms (none, none)) q in
      ((scan-none d index 0 ms (none, none) e).1, h)

  pub decide-ne-fault : HasPrimary (length ms) d.primary → decide d ms lead now index ≢ fault
  unfolding decide
  decide-ne-fault p = choose-ne-fault (scan d index 0 ms (none, none)) p

-- What publishing `pick` as `index` does to the policy.
pub record Published (n : ℕ) (d : DiscretePolicy) (pick index : ℕ) (e : DiscretePolicy)
    (s : List Select) : Type 0 where
  pub config : SameConfig d e
  pub head : e.head ≡ index
  pub current : e.current ≡ set d.current (index % d.grains) pick
  pub primary :
      HasPrimary n d.primary → (pick < n) ⊎ (pick ≡ d.placeholder) → HasPrimary n e.primary
  pub since : e.waiting_since ≡ d.waiting_since
  pub selects :
      (s ≡ []) ⊎ (s ≡ record { slot = index % d.grains; source = pick; index = index } ∷ [])
  pub quiet : s ≡ [] → get_elem? d.current (index % d.grains) ≡ some pick

pub Published-publish :
    (n : ℕ) (d : DiscretePolicy) (pick index : ℕ) {old : ℕ} {e : DiscretePolicy} {s : List Select}
    → get_elem? d.current (index % d.grains) ≡ some old
    → publish d pick index ≡ some (e, s)
    → Published n d pick index e s
unfolding publish
Published-publish n d pick index {old} g q = ground (arith, set_same d.current (index % d.grains) g)

-- A slot of the ring can be published to.
pub publish-total :
    (d : DiscretePolicy) (pick index : ℕ) {old : ℕ}
    → get_elem? d.current (index % d.grains) ≡ some old
    → (e : DiscretePolicy) × (s : List Select) × (publish d pick index ≡ some (e, s))
unfolding publish
publish-total d pick index {old} g = elim (Option-cases (publish d pick index)) [
  | inl e ↦ absurd (ground arith)
  | inr ((e, s), q) ↦ (e, s, q)
]
