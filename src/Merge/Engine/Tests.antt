-- ===== src/Merge/Engine/Tests.antt =====
-- Passes of the engine over two members on a ring of four grains, and its theorems at them.
use mxl_k8s.Base.{
  ℕ, ◌+◌, ◌-◌, ◌*◌, ◌/◌, ◌%◌, ◌≤◌, ◌<◌, ◌≡◌, refl, inr, Bool, true, false, Option, none, some, List,
  [], ◌∷◌, arith, ◌==◌, not,
}
use mxl_k8s.Base.Words.{sub_time}
use mxl_k8s.Merge.Discrete.{
  Member, DiscretePolicy, Select, Stepped, new_discrete, leading, step, decide, publish, serves,
}
use mxl_k8s.Merge.Discrete.Run.{IsReady}
use mxl_k8s.Merge.Discrete.Step.{begun}
use mxl_k8s.Merge.Discrete.Retire.{retire}
use mxl_k8s.Merge.Discrete.Drop.{drop}
use mxl_k8s.Merge.Engine.{Output, Merged, pass_discrete, drop_member, retire_due}
use mxl_k8s.Merge.Engine.Apply.{Sees}
use mxl_k8s.Merge.Engine.Visible.{IsTrusted}
use mxl_k8s.Merge.Engine.Pass.{IsServing, pass_discrete-IsServing}
use mxl_k8s.Merge.Engine.Due.{IsNearest, retire_due-IsDue}

abbrev holding : ℕ → Member
holding head = record {
  head = head;
  grain = λ slot. record {
    index = head - (head + 4 - slot) % 4;
    invalid = false;
    valid_slices = 1;
    total_slices = 1;
  };
}

abbrev policy : DiscretePolicy
policy = record (new_discrete 4 2) {
  ordered = true;
  skew = 2;
  head = 7;
  primary = some 0;
  current = 2 ∷ 2 ∷ 2 ∷ 2 ∷ [];
}

abbrev output : Output
output = record { head = 7; views = 2 ∷ 2 ∷ 2 ∷ 2 ∷ [] }

abbrev both : List Member
both = holding 10 ∷ holding 9 ∷ []

abbrev always : Select → Bool
always s = true

-- The module refuses the select of index 9.
abbrev refuses : Select → Bool
refuses s = not (s.index == 9)

program : Unit {0}
unfolding step decide publish new_discrete serves retire drop sub_time pass_discrete drop_member
program = tt

abbrev shown : Option Merged → Option (List ℕ × Bool)
shown none = none
shown (some m) = some (m.output.head ∷ m.output.views, m.taken)

taken_pass : Option (List ℕ × Bool)
taken_pass = shown (pass_discrete always both both 5 11 policy output)

pass_taken : taken_pass ≡ some (10 ∷ 0 ∷ 0 ∷ 0 ∷ 2 ∷ [], true)
unfolding taken_pass program
pass_taken = refl

refused_pass : Option (List ℕ × Bool)
refused_pass = shown (pass_discrete refuses both both 5 11 policy output)

pass_refused : refused_pass ≡ some (8 ∷ 0 ∷ 2 ∷ 2 ∷ 2 ∷ [], false)
unfolding refused_pass program
pass_refused = refl

-- The pass after it publishes index 10, though the slots of 9 and 10 show the placeholder.
second_pass : Option (List ℕ × Bool)
second_pass = elim (pass_discrete refuses both both 5 11 policy output) [
  | none ↦ none
  | some m ↦ shown (pass_discrete always both both 5 11 m.policy m.output)
]

pass_lost : second_pass ≡ some (10 ∷ 0 ∷ 2 ∷ 2 ∷ 2 ∷ [], true)
unfolding second_pass program
pass_lost = refl

policy-IsReady : IsReady 2 policy
unfolding new_discrete
policy-IsReady = record {
  peopled = omega arith;
  deep = omega arith;
  ring = refl;
  members = omega arith;
  primary = omega arith;
  sources = (inr refl, (inr refl, (inr refl, (inr refl, tt))));
}

output-IsServing : IsServing 2 policy output
unfolding new_discrete
output-IsServing = record {
  ready = policy-IsReady;
  views = refl;
  head = omega arith;
  tracked = refl;
}

pass_discrete-IsServing_example :
    (m : Merged) × (r : Stepped) × (pass_discrete always both both 5 11 policy output ≡ some m)
    × (step policy both 5 ≡ some r)
    × (7 ≤ m.output.head)
    × (m.output.head ≤ m.policy.head)
    × (m.taken ≡ true → IsServing 2 m.policy m.output × (m.output.head ≡ m.policy.head))
    × (((s : Select) → always s ≡ true) → m.taken ≡ true)
    × ((x : Output)
        → Sees always r.selects output x
        → IsTrusted both (leading both 0) 5 (begun policy both) output x)
unfolding new_discrete leading
pass_discrete-IsServing_example =
    pass_discrete-IsServing always both both 5 11 policy output output-IsServing refl (omega arith)
      (omega arith) (omega arith)

abbrev time_of : ℕ → ℕ
time_of n = n * 40

abbrev index_of : ℕ → ℕ
index_of t = (t + 20) / 40

index_of-IsNearest : IsNearest index_of time_of 399
index_of-IsNearest = record {
  origin = refl;
  after = omega arith;
  before = inr (omega arith);
  range = (omega arith, omega arith, omega arith);
}

retire_due-IsDue_example :
    (time_of (retire_due index_of time_of 396 3).0 ≤ 396 + 3)
    × (396 + 3 < time_of ((retire_due index_of time_of 396 3).0 + 1))
    × (0 < (retire_due index_of time_of 396 3).1)
    × (396 + (retire_due index_of time_of 396 3).1 + 3
        ≡ time_of ((retire_due index_of time_of 396 3).0 + 1))
retire_due-IsDue_example = retire_due-IsDue index_of time_of 396 3 (omega arith) index_of-IsNearest
