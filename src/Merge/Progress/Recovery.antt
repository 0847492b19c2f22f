-- ===== src/Merge/Progress/Recovery.antt =====
-- A member that became stalled stays stalled for `RecoverAfter`, whatever it delivers meanwhile.
use mxl_k8s.Base.{
  ℕ, suc, All, ◌/◌, ◌+◌, ◌*◌, ◌≤◌, ◌<◌, ◌≡◌, refl, sym, ◌∙◌, ◌⊎◌, inl, inr, Bool, true, false, ◌&&◌,
  List, [], ◌∷◌, arith, Bool-cases, ◌==◌, if◌then◌else◌,
}
use mathlib.Core.Path.{subst}
use mxl_k8s.Base.Int.{ℤ, pos, ◌≤ℤ◌, ◌<ℤ◌, leb_ℤ}
use mxl_k8s.Base.Words.{sub_time, second, max_i64}
use mxl_k8s.Merge.Progress.{
  Followed, half, recover_after, record_head, judge, settle, observe_member,
}

-- Stalled since `since`: it moved steadily only from then on, or has not moved for half a window.
pub record IsStalledSince (window : ℤ) (since : ℕ) (m : Followed) : Type 0 where
  pub known : m.known ≡ true
  pub stall : m.stall ≡ true
  pub rests : (since ≤ m.steady) ⊎ (half window ≤ℤ sub_time since m.moved)

sub_time_mono : (t now u : ℕ) → t ≤ now → sub_time t u ≤ℤ sub_time now u
unfolding sub_time
sub_time_mono t now u h = ground arith

sub_time_recent :
    (since steady now : ℕ)
    → since ≤ steady
    → now < since + 5 * second
    → sub_time now steady <ℤ recover_after
unfolding sub_time
sub_time_recent since steady now h k = ground arith

leb_ℤ_of_≤ℤ : (a b : ℤ) → a ≤ℤ b → leb_ℤ a b ≡ true
leb_ℤ_of_≤ℤ a b h = ground arith

-- The steady time a move at `now` leaves is not before `since`.
since_le_steady :
    (window : ℤ) (since now : ℕ) (m : Followed)
    → since ≤ now
    → IsStalledSince window since m
    → since ≤ (if m.stall && leb_ℤ (half window) (sub_time now m.moved) then now else m.steady)
since_le_steady window since now m l s = elim s.rests [
  | inl steady ↦ elim (Bool-cases (m.stall && leb_ℤ (half window) (sub_time now m.moved))) [
    | inl q ↦ rw q l
    | inr q ↦ rw q steady
  ]
  | inr rests ↦
      rw
        (
          s.stall,
          leb_ℤ_of_≤ℤ (half window) (sub_time now m.moved)
              (ground (arith, rests, sub_time_mono since now m.moved l)),
        )
        l
]

-- A head recorded while stalled keeps the member stalled since then.
record_head-IsStalledSince :
    (window : ℤ) (since now h : ℕ) (m : Followed)
    → since ≤ now
    → IsStalledSince window since m
    → IsStalledSince window since (record_head window now h m)
unfolding record_head
record_head-IsStalledSince window since now h m l s = elim (Bool-cases (h == m.head)) [
  | inl q ↦ rw q s
  | inr q ↦ rw q record {
    known = s.known;
    stall = s.stall;
    rests = inl (since_le_steady window since now m l s);
  }
]

-- Judged before `RecoverAfter` is over, it is stalled.
judge-IsStalledSince :
    (window : ℤ) (start since now : ℕ) (m : Followed)
    → since ≤ now
    → now < since + 5 * second
    → IsStalledSince window since m
    → judge window start now m ≡ (true, true)
unfolding judge
judge-IsStalledSince window start since now m l k s = elim s.rests [
  | inl steady ↦ ground (arith, s.known, s.stall, sub_time_recent since m.steady now steady k)
  | inr rests ↦ ground (arith, s.known, s.stall, sub_time_mono since now m.moved l)
]

settle-stalled :
    (m : Followed) → m.known ≡ true → m.stall ≡ true → settle m (true, true) ≡ (m, false)
unfolding settle
settle-stalled m k s = rw (k, s) refl

-- One observation before `RecoverAfter` is over keeps it stalled and changes nothing but times.
observe_member-IsStalledSince :
    (window : ℤ) (start since now h : ℕ) (m : Followed)
    → since ≤ now
    → now < since + 5 * second
    → IsStalledSince window since m
    → observe_member window start now h m ≡ (record_head window now h m, false)
unfolding observe_member
observe_member-IsStalledSince window start since now h m l k s =
    let e = record_head-IsStalledSince window since now h m l s in
    rw (judge-IsStalledSince window start since now (record_head window now h m) l k e)
      (settle-stalled (record_head window now h m) e.known e.stall)

-- What observations, each a time and a head, leave of one member, and how many changed its state.
unfoldable pub observe_each : ℤ → ℕ → List (ℕ × ℕ) → Followed → Followed × ℕ
observe_each window start [] m = (m, 0)
observe_each window start ((now, h) ∷ rest) m =
    let (m', changed) = observe_member window start now h m in
    let (last, n) = observe_each window start rest m' in (last, if changed then suc n else n)

-- The observations are made from `since` until before `until`.
abbrev pub Within : ℕ → ℕ → List (ℕ × ℕ) → Type 0
Within since until = All (λ o. (since ≤ o.0) × (o.0 < until))

keeps_IsStalledSince :
    (window : ℤ) (start since : ℕ) (os : List (ℕ × ℕ)) (m : Followed)
    → Within since (since + 5 * second) os
    → IsStalledSince window since m
    → IsStalledSince window since (observe_each window start os m).0
      × ((observe_each window start os m).1 ≡ 0)
unfolding observe_each
keeps_IsStalledSince window start since [] m w s = (s, refl)
keeps_IsStalledSince window start since ((now, h) ∷ rest) m ((l, k), w) s =
    rw (observe_member-IsStalledSince window start since now h m l k s) (
      keeps_IsStalledSince window start since rest (record_head window now h m) w
        (record_head-IsStalledSince window since now h m l s))

abbrev pub IsStalled : Followed → Type 0
IsStalled m = (m.known ≡ true) × (m.stall ≡ true)

abbrev pub counts_stalled : Followed → Bool
counts_stalled m = m.known && m.stall

sub_time_zero :
    (window now : ℕ) → window ≤ max_i64 → window / 2 ≤ now → half (pos window) ≤ℤ sub_time now 0
unfolding sub_time
sub_time_zero window now w l = ground arith

-- Judged stalled for the first time, a member has not moved for half a window.
judge_rests :
    (window start now : ℕ) (m : Followed)
    → window ≤ max_i64
    → window / 2 ≤ now
    → counts_stalled m ≡ false
    → judge (pos window) start now m ≡ (true, true)
    → half (pos window) ≤ℤ sub_time now m.moved
unfolding judge
judge_rests window start now m w l c e = elim (Bool-cases (m.moved == 0)) [
  | inl q ↦ ground (arith, q, sub_time_zero window now w l)
  | inr q ↦ ground (arith, q, c, e)
]

settle-judged :
    (e : Followed) (j : Bool × Bool)
    → ((settle e j).0.known ≡ j.0) × ((settle e j).0.stall ≡ j.1) × ((settle e j).0.moved ≡ e.moved)
unfolding settle
settle-judged e (known, stall) = ground arith

counts_stalled-record_head :
    (window : ℤ) (now h : ℕ) (m : Followed)
    → counts_stalled (record_head window now h m) ≡ counts_stalled m
unfolding record_head
counts_stalled-record_head window now h m = ground arith

pair_≡ : {a b : Bool} (j : Bool × Bool) → j.0 ≡ a → j.1 ≡ b → j ≡ (a, b)
pair_≡ (x, y) p q = cc (p, q)

-- The observation at which a member becomes stalled finds it at rest.
settle_rests :
    (window start now : ℕ) (e : Followed) (j : Bool × Bool)
    → window ≤ max_i64
    → window / 2 ≤ now
    → counts_stalled e ≡ false
    → judge (pos window) start now e ≡ j
    → IsStalled (settle e j).0
    → IsStalledSince (pos window) now (settle e j).0
settle_rests window start now e j w l c eq s =
    let f = settle-judged e j in
    record {
      known = s.0;
      stall = s.1;
      rests = inr (
          subst (λ u. half (pos window) ≤ℤ sub_time now u) (sym f.2)
            (judge_rests window start now e w l c (eq ∙ pair_≡ j (sym f.0 ∙ s.0) (sym f.1 ∙ s.1))));
    }

becomes-IsStalledSince :
    (window start since h : ℕ) (m : Followed)
    → window ≤ max_i64
    → window / 2 ≤ since
    → counts_stalled m ≡ false
    → IsStalled (observe_member (pos window) start since h m).0
    → IsStalledSince (pos window) since (observe_member (pos window) start since h m).0
unfolding observe_member
becomes-IsStalledSince window start since h m w l c s =
    settle_rests window start since (record_head (pos window) since h m)
      (judge (pos window) start since (record_head (pos window) since h m)) w l
      (counts_stalled-record_head (pos window) since h m ∙ c) refl s

-- A member that an observation turns stalled stays stalled for `recover_after` from then on,
-- whatever heads it shows in any number of observations made before that is over, and none of
-- these reports a change: a producer that commits now and then does not turn the member back and
-- forth. The window is an int64, and half of it has passed since the zero time.
pub observe_each_stays-IsStalled :
    (window start since h : ℕ) (os : List (ℕ × ℕ)) (m : Followed)
    → window ≤ max_i64
    → window / 2 ≤ since
    → counts_stalled m ≡ false
    → IsStalled (observe_member (pos window) start since h m).0
    → Within since (since + 5 * second) os
    → IsStalled
        (observe_each (pos window) start os (observe_member (pos window) start since h m).0).0
      × ((observe_each (pos window) start os (observe_member (pos window) start since h m).0).1 ≡ 0)
observe_each_stays-IsStalled window start since h os m w l c s o =
    let m' = (observe_member (pos window) start since h m).0 in
    let (k, n) =
      keeps_IsStalledSince (pos window) start since os m' o
        (becomes-IsStalledSince window start since h m w l c s) in
    ((k.known, k.stall), n)
