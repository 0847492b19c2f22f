-- ===== src/Agent/Tracker/Tests.antt =====
-- Three domains that come, go and move: a run of `Sync`, and its theorem there.
use mxl_k8s.Base.{
  ℕ, ◌≡◌, ◌↔◌, refl, ◌⊎◌, true, Option, none, some, String, List, [], ◌∷◌, if◌then◌else◌,
}
use mxl_k8s.Base.Texts.{same_text}
use mxl_k8s.Agent.Tracker.{Entry, lookup, sync, is_tracked}
use mxl_k8s.Agent.Tracker.Loops.{expected}
use mxl_k8s.Agent.Tracker.Synced.{IsIn, WasOver, sync-expected}

abbrev entry_in : String → ℕ → Entry
entry_in dir tracker = record { dir = dir; tracker = tracker }

-- "a" ran and stays, "b" moved, "c" is gone, "p" is the primary one, and "d" is new but does not
-- start.
abbrev running : List (String × Entry)
running = ("a", entry_in "/a" 1) ∷ ("b", entry_in "/b" 2) ∷ ("c", entry_in "/c" 3) ∷ []

abbrev domains : List (String × String)
domains = ("p", "/p") ∷ ("d", "/d") ∷ ("b", "/b2") ∷ ("a", "/a") ∷ []

abbrev start : String → String → Option ℕ
start name dir = if same_text name "d" then none else some 4

program : Unit {0}
unfolding sync lookup
program = tt

synced :
    sync start "/p" domains running
    ≡ (("b", entry_in "/b2" 4) ∷ ("a", entry_in "/a" 1) ∷ [], 2 ∷ 3 ∷ [])
unfolding program
synced = refl

sync-expected_example :
    (lookup "b" (sync start "/p" domains running).0
      ≡ expected start "/p" domains "b" (lookup "b" domains) (lookup "b" running))
    × ((e : Entry)
        → lookup "b" running ≡ some e
        → (lookup "b" (sync start "/p" domains running).0 ≡ some e)
          ⊎ IsIn e.tracker (sync start "/p" domains running).1)
    × ((t : ℕ) → IsIn t (sync start "/p" domains running).1 → WasOver "/p" domains running t)
    × ((is_tracked (sync start "/p" domains running).0 "b" ≡ true)
        ↔ ((e : Entry) × (lookup "b" (sync start "/p" domains running).0 ≡ some e)))
unfolding lookup
sync-expected_example =
    sync-expected start "/p" domains running "b" (refl, (refl, (refl, (refl, tt))))
      (refl, (refl, (refl, tt)))
