-- ===== src/Merge/Progress.antt =====
-- gateway/internal/merge/progress.go: when each member's head last moved, and which members are
-- stalled. The five parallel slices of `progress`, all of one length, are one list of records. The
-- mutex is left out: each method holds it from its first to its last read.
pub mod Recovery
pub mod Report
mod Tests
use mxl_k8s.Base.{
  ℕ, zero, suc, ◌+◌, ◌/◌, ◌*◌, Bool, true, false, not, ◌&&◌, ◌||◌, Option, none, some, List, [],
  ◌∷◌, ltb, leb, ◌==◌, if◌then◌else◌,
}
use mxl_k8s.Base.Int.{ℤ, pos, negsuc, leb_ℤ, ltb_ℤ, sub_ℕ}
use mxl_k8s.Base.Words.{sub_time, second, i64}

abbrev pub stall_after : ℤ
stall_after = pos (2 * second)

abbrev pub stall_grains : ℕ
stall_grains = 3

abbrev pub start_grace : ℤ
start_grace = pos (10 * second)

abbrev pub recover_after : ℤ
recover_after = pos (5 * second)

-- Half of a duration, as Go divides: towards zero.
abbrev pub half : ℤ → ℤ
half (pos n) = pos (n / 2)
half (negsuc n) = sub_ℕ 0 ((n + 1) / 2)

-- `stallGrains * period`, on int64
abbrev triple : ℤ → ℤ
triple (pos n) = i64 (pos (stall_grains * n))
triple (negsuc n) = i64 (sub_ℕ 0 (stall_grains * (n + 1)))

unfoldable pub stall_window : ℤ → ℤ
stall_window period = if leb_ℤ stall_after (triple period) then triple period else stall_after

-- What is followed of one member; a zero time is one that is not set.
pub record Followed : Type 0 where
  pub head : ℕ
  pub moved : ℕ
  pub steady : ℕ
  pub known : Bool
  pub stall : Bool

pub record Progress : Type 0 where
  pub window : ℤ
  pub start : ℕ
  pub members : List Followed

unfoldable pub follow : List ℕ → List Followed
follow [] = []
follow (h ∷ hs) =
    record { head = h; moved = 0; steady = 0; known = false; stall = false } ∷ follow hs

unfoldable pub new_progress : List ℕ → ℕ → ℤ → Progress
unfolding follow
new_progress heads now window = record { window = window; start = now; members = follow heads }

-- `none` is an index out of range.
unfoldable pub mark_stalled : List Bool → List Followed → Option (List Followed)
mark_stalled [] ms = some ms
mark_stalled (r ∷ rs) [] = none
mark_stalled (r ∷ rs) (m ∷ ms) = elim (mark_stalled rs ms) [
  | none ↦ none
  | some ms' ↦ some (record m { known = r; stall = r } ∷ ms')
]

unfoldable pub stalled_from : List Bool → Progress → Option Progress
unfolding mark_stalled
stalled_from reported p = elim (mark_stalled reported p.members) [
  | none ↦ none
  | some ms ↦ some (record p { members = ms })
]

-- Records that the head is `h` at `now`.
unfoldable pub record_head : ℤ → ℕ → ℕ → Followed → Followed
record_head window now h m = if h == m.head then m else record m {
  head = h;
  moved = now;
  steady = if m.stall && leb_ℤ (half window) (sub_time now m.moved) then now else m.steady;
}

-- Whether the state is known, and whether it is stalled.
unfoldable pub judge : ℤ → ℕ → ℕ → Followed → Bool × Bool
judge window start now m =
    if m.known && m.stall
    then (
      true,
      not (not (m.moved == 0) && ltb_ℤ (sub_time now m.moved) (half window))
          || ltb_ℤ (sub_time now m.steady) recover_after,
    )
    else if not (m.moved == 0)
    then (true, leb_ℤ window (sub_time now m.moved))
    else if leb_ℤ start_grace (sub_time now start)
    then (true, true)
    else (false, m.stall)

abbrev pub same_bool : Bool → Bool → Bool
same_bool true b = b
same_bool false b = not b

-- Takes the judgement, and whether it changes the state.
unfoldable pub settle : Followed → Bool × Bool → Followed × Bool
settle e (known, stall) =
    if same_bool known e.known && same_bool stall e.stall
    then (e, false)
    else (record e { known = known; stall = stall }, true)

-- One member's turn of the loop of `observe`, and whether its state changed.
unfoldable pub observe_member : ℤ → ℕ → ℕ → ℕ → Followed → Followed × Bool
observe_member window start now h m =
    let e = record_head window now h m in settle e (judge window start now e)

-- The loop over the heads; `none` is an index out of range.
unfoldable pub observe_all : ℤ → ℕ → ℕ → List ℕ → List Followed → Option (List Followed × Bool)
observe_all window start now [] ms = some (ms, false)
observe_all window start now (h ∷ hs) [] = none
observe_all window start now (h ∷ hs) (m ∷ ms) = elim (observe_all window start now hs ms) [
  | none ↦ none
  | some (ms', changed) ↦
      let (m', one) = observe_member window start now h m in some (m' ∷ ms', one || changed)
]

-- `observe` on a progress; on a nil one it returns false.
unfoldable pub observe : List ℕ → ℕ → Progress → Option (Progress × Bool)
unfolding observe_all
observe heads now p = elim (observe_all p.window p.start now heads p.members) [
  | none ↦ none
  | some (ms, changed) ↦ some (record p { members = ms }, changed)
]

-- The members stalled and those undecided, from member `i` on.
unfoldable pub report_from : ℕ → List Followed → List ℕ × List ℕ
report_from i [] = ([], [])
report_from i (m ∷ ms) =
    let (stalled, undecided) = report_from (suc i) ms in
    if not m.known
    then (stalled, i ∷ undecided)
    else if m.stall
    then (i ∷ stalled, undecided)
    else (stalled, undecided)

unfoldable pub stalled : Progress → List ℕ × List ℕ
unfolding report_from
stalled p = report_from 0 p.members
