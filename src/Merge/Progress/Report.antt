-- ===== src/Merge/Progress/Report.antt =====
-- What `observe` answers, and what `stalled` reports after it.
use mxl_k8s.Base.{ℕ, ◌≡◌, Bool, true, false, List, [], ◌∷◌}
use mxl_k8s.Base.Int.{ℤ, ◌<ℤ◌}
use mxl_k8s.Base.Words.{sub_time}
use mxl_k8s.Merge.Progress.{Followed, Progress, start_grace}

-- What one member's state says once it was observed at `now`.
pub record IsJudged (window : ℤ) (start now : ℕ) (m : Followed) : Type 0 where
  -- a member that counts as moving moved less than a window ago
  pub moving : m.known ≡ true → m.stall ≡ false → sub_time now m.moved <ℤ window
  -- an undecided one has not moved, and the grace is not over
  pub undecided : m.known ≡ false → (m.moved ≡ 0) × (sub_time now start <ℤ start_grace)

abbrev pub AllJudged : ℤ → ℕ → ℕ → List Followed → Type 0
AllJudged window start now [] = Unit
AllJudged window start now (m ∷ ms) = IsJudged window start now m × AllJudged window start now ms

-- The states of the members are the same, one by one.
abbrev pub SameStates : List Followed → List Followed → Type 0
SameStates [] [] = Unit
SameStates (m ∷ ms) (n ∷ ns) = ((m.known ≡ n.known) × (m.stall ≡ n.stall)) × SameStates ms ns
SameStates _ _ = ⊥

-- Whether the state of the first member, and whether those of the rest, changed.
abbrev pub Answers : List Followed → List Followed → Bool → Type 0
Answers before after changed =
    (changed ≡ false → SameStates after before) × (changed ≡ true → ¬ SameStates after before)
