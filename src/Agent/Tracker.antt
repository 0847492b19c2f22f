-- ===== src/Agent/Tracker.antt =====
-- agent/internal/tracker/manager.go: one tracker for each domain on the node but the primary one.
-- A map is the list of its entries in the order that a loop over it takes; what `Start` answers is
-- an argument, and a tracker is its number.
pub mod Loops
pub mod Synced
mod Tests
use mxl_k8s.Base.{
  ℕ, Bool, true, false, not, ◌||◌, Option, none, some, String, List, [], ◌∷◌, if◌then◌else◌,
}
use mxl_k8s.Base.Texts.{same_text}

pub record Entry : Type 0 where
  pub dir : String
  pub tracker : ℕ

unfoldable pub lookup : {A : Type 0} → String → List (String × A) → Option A
lookup name [] = none
lookup name ((k, a) ∷ es) = let rest = lookup name es in if same_text k name then some a else rest

-- The domain is gone, or its directory is another one or the primary one.
unfoldable pub is_stale : String → List (String × String) → String → Entry → Bool
unfolding lookup
is_stale primary domains name e = elim (lookup name domains) [
  | none ↦ true
  | some dir ↦ not (same_text dir e.dir) || same_text dir primary
]

-- The loop over the running trackers: those that stay, and those that are stopped.
unfoldable pub stop_stale :
    String → List (String × String) → List (String × Entry) → List (String × Entry) × List ℕ
unfolding is_stale
stop_stale primary domains [] = ([], [])
stop_stale primary domains ((name, e) ∷ running) =
    let (kept, stopped) = stop_stale primary domains running in
    if is_stale primary domains name e
    then (kept, e.tracker ∷ stopped)
    else ((name, e) ∷ kept, stopped)

unfoldable pub start_one :
    (String → String → Option ℕ)
    → String
    → String
    → String
    → List (String × Entry)
    → List (String × Entry)
unfolding lookup
start_one start primary name dir running =
    if same_text dir primary then running else elim (lookup name running) [
      | some e ↦ running
      | none ↦ elim (start name dir) [
        | none ↦ running
        | some t ↦ (name, record { dir = dir; tracker = t }) ∷ running
      ]
    ]

-- The loop over the domains.
unfoldable pub start_missing :
    (String → String → Option ℕ)
    → String
    → List (String × String)
    → List (String × Entry)
    → List (String × Entry)
unfolding start_one
start_missing start primary [] running = running
start_missing start primary ((name, dir) ∷ domains) running =
    start_missing start primary domains (start_one start primary name dir running)

-- `Sync`: the trackers that run afterwards, and those that were stopped.
unfoldable pub sync :
    (String → String → Option ℕ)
    → String
    → List (String × String)
    → List (String × Entry)
    → List (String × Entry) × List ℕ
unfolding stop_stale start_missing
sync start primary domains running =
    let (kept, stopped) = stop_stale primary domains running in
    (start_missing start primary domains kept, stopped)

-- `Tracked`, whose two results are one
unfoldable pub is_tracked : List (String × Entry) → String → Bool
unfolding lookup
is_tracked running name = elim (lookup name running) [ none ↦ false | some e ↦ true ]
