-- ===== src/Merge/Audio/Step/Served.antt =====
-- `Audio.Step`: what it publishes was committed.
use mxl_k8s.Base.{ℕ, ◌-◌, ◌^◌, ◌<◌, max, ◌≡◌, refl, some, List, [], ◌∷◌, arith, All, suc}
use mxl_k8s.Merge.Audio.{Audio}
use mxl_k8s.Merge.Audio.Covered.{Commit}
use mxl_k8s.Merge.Audio.Committed.{IsWhole, IsSound}
use mxl_k8s.Merge.Audio.Step.{SteppedAudio, lead_of, step_audio}
use mxl_k8s.Merge.Audio.Step.Passed.{Passed, advance_pages-Passed}

lead_of_low :
    (hs : List ℕ) (lead : ℕ) → All (λ h. h < 2 ^ 63) hs → lead < 2 ^ 63 → lead_of hs lead < 2 ^ 63
unfolding lead_of
lead_of_low [] lead h l = l
lead_of_low (x ∷ hs) lead h l = lead_of_low hs (max lead x) h.1 (omega (arith, h.0))

-- Where the policy is whole and its coverage is true of the log of the commits, `Step` returns at
-- any time, and the policy stays whole. The head never moves back. Every page with samples between
-- the old head and the new one, if the ring still holds it, shows the silence or a member that
-- committed each of the page's samples below the new head. A slot at the place of no such page
-- shows what it showed, and so does every slot where the head has not moved.
pub step_audio-Passed :
    (log : List Commit) (a : Audio) (now : ℕ)
    → IsWhole a
    → IsSound log a
    → (r : SteppedAudio) × (step_audio a now ≡ some r)
      × (r.head ≡ r.state.head)
      × Passed log a.pages a.silence a r.state
unfolding step_audio
step_audio-Passed log a now w sound =
    let lead = lead_of a.ev_head 0 in
    advance_pages-Passed log a.pages a.silence (suc (lead - a.head)) lead now a [] refl refl w sound
      (lead_of_low a.ev_head 0 w.low (omega arith)) (omega arith)
