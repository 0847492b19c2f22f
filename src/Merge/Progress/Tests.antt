-- ===== src/Merge/Progress/Tests.antt =====
-- Runs of the progress: two members of a slow start, and its theorems at them.
use mxl_k8s.Base.{ℕ, ◌*◌, ◌/◌, ◌≡◌, refl, true, false, List, [], ◌∷◌, arith}
use mxl_k8s.Base.Int.{pos}
use mxl_k8s.Base.Words.{sub_time, second}
use mxl_k8s.Merge.Progress.{
  Followed, Progress, follow, new_progress, record_head, judge, settle, observe_member, stalled,
  stall_window,
}
use mxl_k8s.Merge.Progress.Recovery.{observe_each, IsStalled, observe_each_stays-IsStalled}

abbrev two_seconds : ℕ
two_seconds = 2 * second

-- Two members at their heads 5 and 9, followed from the twentieth second on.
abbrev two_members : Progress
two_members = record {
  window = pos (2 * second);
  start = 20 * second;
  members =
      record { head = 5; moved = 0; steady = 0; known = false; stall = false }
      ∷ record { head = 9; moved = 0; steady = 0; known = false; stall = false }
      ∷ [];
}

new_progress_two :
    new_progress (5 ∷ 9 ∷ []) (20 * second) (stall_window (pos (second / 25))) ≡ two_members
unfolding new_progress follow stall_window
new_progress_two = refl

-- Neither has moved, and the grace is not over.
stalled_at_start : stalled two_members ≡ ([], 0 ∷ 1 ∷ [])
unfolding stalled
stalled_at_start = refl

-- A member that moved in the twentieth second and shows the same head in the thirtieth.
abbrev at_rest : Followed
at_rest = record { head = 7; moved = 20 * second; steady = 0; known = true; stall = false }

at_rest_stalls : IsStalled (observe_member (pos two_seconds) 0 (30 * second) 7 at_rest).0
unfolding observe_member record_head judge settle sub_time
at_rest_stalls = (refl, refl)

-- It then moves in the 31st and in the 34th second.
abbrev moves : List (ℕ × ℕ)
moves = (31 * second, 8) ∷ (34 * second, 9) ∷ []

observe_each_stays-IsStalled_example :
    IsStalled
      (observe_each
        (pos two_seconds)
        0
        moves
        (observe_member (pos two_seconds) 0 (30 * second) 7 at_rest).0).0
    × ((observe_each
          (pos two_seconds)
          0
          moves
          (observe_member (pos two_seconds) 0 (30 * second) 7 at_rest).0).1
        ≡ 0)
observe_each_stays-IsStalled_example =
    observe_each_stays-IsStalled two_seconds 0 (30 * second) 7 moves at_rest (omega arith)
      (omega arith) refl at_rest_stalls
      ((omega arith, omega arith), ((omega arith, omega arith), tt))
