-- ===== src/Merge/Discrete/Tests.antt =====
-- A set of two members on a ring of four grains: runs of the policy, and its theorems at them.
use mxl_k8s.Base.{
  ℕ, ◌+◌, ◌-◌, ◌%◌, ◌≤◌, ◌<◌, ◌≡◌, refl, ◌⊎◌, inl, inr, true, false, Option, none, some, List, [],
  ◌∷◌, arith, All,
}
use mxl_k8s.Base.Int.{ℤ, pos}
use mxl_k8s.Base.Words.{sub_time}
use mxl_k8s.Merge.Discrete.{
  Member, DiscretePolicy, Select, Stepped, new_discrete, serves, leading, step, decide, publish,
}
use mxl_k8s.Merge.Discrete.Run.{IsReady}
use mxl_k8s.Merge.Discrete.Step.{begun, IsFaithful, step-IsFaithful}
use mxl_k8s.Merge.Discrete.Lag.{IsWaiting, step_lag}
use mxl_k8s.Merge.Discrete.Replay.{replay, Ascends}
use mxl_k8s.Merge.Discrete.Selects.{step-replays}
use mxl_k8s.Merge.Discrete.Primary.{IsServing, ShowsPrimary, step_primary}
use mxl_k8s.Merge.Discrete.Retire.{retire}
use mxl_k8s.Merge.Discrete.Retire.Trusted.{Retired, retire-Retired}
use mxl_k8s.Merge.Discrete.Drop.{drop}
use mxl_k8s.Merge.Discrete.Drop.Whole.{IsDropped, drop-IsDropped}

-- A ring whose slots hold the grains up to `head`, all complete.
abbrev holding : ℕ → Member
holding head = record {
  head = head;
  grain = λ slot. record {
    index = head - (head + 4 - slot) % 4;
    invalid = false;
    valid_slices = 1;
    total_slices = 1;
  };
}

abbrev set_of_two : DiscretePolicy
set_of_two = record (new_discrete 4 2) {
  ordered = true;
  skew = 2;
  head = 7;
  primary = some 0;
  current = 2 ∷ 2 ∷ 2 ∷ 2 ∷ [];
}

abbrev both : List Member
both = holding 10 ∷ holding 9 ∷ []

abbrev primary_late : List Member
primary_late = holding 7 ∷ holding 9 ∷ []

set_of_two-IsReady : IsReady 2 set_of_two
unfolding new_discrete
set_of_two-IsReady = record {
  peopled = omega arith;
  deep = omega arith;
  ring = refl;
  members = omega arith;
  primary = omega arith;
  sources = (inr refl, (inr refl, (inr refl, (inr refl, tt))));
}

program : Unit {0}
unfolding step decide publish new_discrete serves retire drop sub_time
program = tt

-- The primary serves all three grains.
heads : Option (List ℕ)
heads = elim (step set_of_two both 5) [ none ↦ none | some r ↦ some (r.head ∷ r.state.current) ]

step_both : heads ≡ some (10 ∷ 0 ∷ 0 ∷ 0 ∷ 2 ∷ [])
unfolding heads program
step_both = refl

-- The primary is late: the pass waits the whole tolerance.
waits : Option (ℕ × ℤ)
waits = elim (step set_of_two primary_late 5) [ none ↦ none | some r ↦ some (r.head, r.wait) ]

step_late : waits ≡ some (7, pos 2000000)
unfolding waits program
step_late = refl

step-IsFaithful_example :
    (r : Stepped) × (step set_of_two both 5 ≡ some r)
    × IsReady 2 r.state
    × (r.head ≡ r.state.head)
    × IsFaithful both (leading both 0) (begun set_of_two both) r.state
step-IsFaithful_example = step-IsFaithful set_of_two both 5 set_of_two-IsReady

step_lag_example :
    (r : Stepped) × (step set_of_two primary_late 5 ≡ some r)
    × (7 ≤ r.head)
    × (r.head ≤ leading primary_late 0)
    × ((leading primary_late 0 < r.head + 1 + 2) ⊎ IsWaiting primary_late r.state r.wait)
unfolding new_discrete leading
step_lag_example =
    step_lag set_of_two primary_late 5 set_of_two-IsReady (omega arith) (omega arith) (omega arith)

step-replays_example :
    (r : Stepped) × (step set_of_two both 5 ≡ some r)
    × (replay r.selects (2 ∷ 2 ∷ 2 ∷ 2 ∷ []) ≡ r.state.current)
    × Ascends 4 (begun set_of_two both).head r.selects
    × All (λ s. s.index ≤ r.head) r.selects
unfolding new_discrete
step-replays_example = step-replays set_of_two both 5 set_of_two-IsReady

near : (i : ℕ) → 7 < i → i ≤ 10 → (i ≡ 8) ⊎ (i ≡ 9) ⊎ (i ≡ 10)
near i a b = omega arith

both-IsServing : IsServing both (leading both 0) (begun set_of_two both) 0
unfolding program
both-IsServing = record {
  ordered = refl;
  primary = refl;
  deep = omega arith;
  ring = refl;
  low = omega arith;
  serves = λ i a b. elim (near i a b) [
    | inl e ↦ rw e refl
    | inr (inl e) ↦ rw e refl
    | inr (inr e) ↦ rw e refl
  ];
}

step_primary_example :
    (r : Stepped) × (step set_of_two both 5 ≡ some r)
    × (r.head ≡ leading both 0)
    × (r.wait ≡ pos 0)
    × (r.state.head ≡ leading both 0)
    × (r.state.primary ≡ some 0)
    × ShowsPrimary both (leading both 0) 5 0 (begun set_of_two both).head r.state
step_primary_example = step_primary set_of_two both 5 0 both-IsServing

retire-Retired_example :
    (e : DiscretePolicy) × (s : List Select) × (retire set_of_two both 11 ≡ some (e, s))
    × Retired set_of_two both 11 e s
unfolding new_discrete
retire-Retired_example = retire-Retired set_of_two both 11 set_of_two-IsReady refl (omega arith)

drop-IsDropped_example :
    (current : List ℕ) × (s : List Select) × (drop set_of_two both 1
      ≡ some (record set_of_two { current = current }, s))
    × IsDropped set_of_two both 1 0 (2 ∷ 2 ∷ 2 ∷ 2 ∷ []) current
    × (replay s (2 ∷ 2 ∷ 2 ∷ 2 ∷ []) ≡ current)
unfolding new_discrete
drop-IsDropped_example =
    drop-IsDropped set_of_two both 1 set_of_two-IsReady (omega arith) (omega arith)
