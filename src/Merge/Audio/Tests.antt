-- ===== src/Merge/Audio/Tests.antt =====
-- Two members on rings of four pages: a commit, a pass, and the theorems at them.
use mathlib.Core.Path.{subst}
use mxl_k8s.Base.{
  ℕ, ◌-◌, ◌*◌, ◌/◌, ◌%◌, ◌≤◌, ◌<◌, ◌≢◌, get_elem?, ◌^◌, ◌≡◌, refl, inl, inr, true, false, Option,
  none, some, List, [], ◌∷◌, arith, All, All-get_elem?,
}
use mxl_k8s.Base.Int.{pos}
use mxl_k8s.Merge.Audio.{
  Audio, page_samples, new_audio, no_coverage, committed, start_audio, cover_pages, cover,
  begin_page, extend,
}
use mxl_k8s.Merge.Audio.Covered.{Commit, IsCovered}
use mxl_k8s.Merge.Audio.Committed.{IsWhole, IsSound, committed-IsSound}
use mxl_k8s.Merge.Audio.Step.{
  PageSelect, SteppedAudio, step_audio, advance_pages, weigh_all, weigh, held, settle_page,
  show_page, lead_of,
}
use mxl_k8s.Merge.Audio.Drop.{drop_audio, drop_pages, drop_page, first_holder, holds_page}
use mxl_k8s.Merge.Audio.Drop.Whole.{IsDropped, without, drop_audio-IsDropped}
use mxl_k8s.Merge.Audio.Retire.{
  trusted_from, retire_audio, retire_pages, retire_page, most_reach, reach, spares,
}
use mxl_k8s.Merge.Audio.Retire.Swept.{IsKept}
use mxl_k8s.Merge.Audio.Retire.Trusted.{retire_audio-IsKept}
use mxl_k8s.Merge.Audio.Step.Passed.{Passed}
use mxl_k8s.Merge.Audio.Step.Served.{step_audio-Passed}

-- The policy before any commit, and after member 0 committed a page and a half.
abbrev idle : Audio
idle = record {
  pages = 4;
  skew = 0;
  tolerance = pos 2000000;
  silence = 2;
  ahead = 0;
  head = 0;
  primary = 0;
  current = 2 ∷ 2 ∷ 2 ∷ 2 ∷ [];
  cov =
      (no_coverage ∷ no_coverage ∷ no_coverage ∷ no_coverage ∷ [])
      ∷ (no_coverage ∷ no_coverage ∷ no_coverage ∷ no_coverage ∷ [])
      ∷ [];
  ev_head = 0 ∷ 0 ∷ [];
  batch = 0 ∷ 0 ∷ [];
  started = false;
  waiting_page = 2 ^ 64 - 1;
  waiting_since = 0;
}

idle_new : new_audio 2 4 2 ≡ idle
unfolding new_audio
idle_new = refl

abbrev busy : Audio
busy = record idle {
  cov =
      (record { n = 0; to = 1024; broken = false; valid = true }
        ∷ record { n = 1; to = 1536; broken = false; valid = true }
        ∷ no_coverage
        ∷ no_coverage
        ∷ [])
      ∷ (no_coverage ∷ no_coverage ∷ no_coverage ∷ no_coverage ∷ [])
      ∷ [];
  ev_head = 1536 ∷ 0 ∷ [];
  batch = 1536 ∷ 0 ∷ [];
  started = true;
}

committed-busy : committed 0 0 1536 idle ≡ some busy
unfolding committed start_audio cover_pages cover begin_page extend
committed-busy = refl

-- A pass then serves both pages from member 0, up to sample 1536.
stepped : List ℕ
stepped = elim (step_audio busy 5) [ none ↦ [] | some r ↦ r.head ∷ r.state.current ]

stepped-busy : stepped ≡ 1536 ∷ 0 ∷ 0 ∷ 2 ∷ 2 ∷ []
unfolding stepped step_audio advance_pages weigh_all weigh held settle_page show_page lead_of
stepped-busy = refl

idle-IsWhole : IsWhole idle
idle-IsWhole = record {
  some_pages = omega arith;
  ring = refl;
  slots = (refl, (refl, tt));
  ev_head = refl;
  batch = refl;
  primary = omega arith;
  silence = omega arith;
  low = (omega arith, (omega arith, tt));
  sources = (inr refl, (inr refl, (inr refl, (inr refl, tt))));
}

no_coverage-IsCovered : (m : ℕ) → IsCovered [] m no_coverage
no_coverage-IsCovered m = record {
  within = λ v. absurd (ground arith);
  samples = λ v b s low high. absurd (ground arith);
}

idle-IsSound : IsSound [] idle
idle-IsSound m covs g =
    let none_yet = no_coverage-IsCovered m in
    let row : All (IsCovered [] m) (no_coverage ∷ no_coverage ∷ no_coverage ∷ no_coverage ∷ []) =
      (none_yet, (none_yet, (none_yet, (none_yet, tt)))) in
    All-get_elem? (All (IsCovered [] m)) idle.cov m (row, (row, tt)) g

committed-IsSound_example :
    (b : Audio) × (committed 0 0 1536 idle ≡ some b)
    × IsWhole b
    × IsSound (record { member = 0; start = 0; stop = 1536 } ∷ []) b
    × (b.started ≡ true)
    × (b.current ≡ 2 ∷ 2 ∷ 2 ∷ 2 ∷ [])
committed-IsSound_example =
    committed-IsSound [] 0 0 1536 idle idle-IsWhole idle-IsSound (omega arith) (omega arith)
      (omega arith)

abbrev busy_log : List Commit
busy_log = record { member = 0; start = 0; stop = 1536 } ∷ []

same_run : {b c : Audio} {o : Option Audio} → o ≡ some b → o ≡ some c → b ≡ c
same_run p q = ground (arith, p, q)

busy-IsSound : IsWhole busy × IsSound busy_log busy
busy-IsSound =
    let (b, q, w, s, _, _) =
      committed-IsSound [] 0 0 1536 idle idle-IsWhole idle-IsSound (omega arith) (omega arith)
        (omega arith) in
    let e : b ≡ busy = same_run q committed-busy in
    (subst IsWhole e w, subst (IsSound busy_log) e s)

step_audio-Passed_example :
    (r : SteppedAudio) × (step_audio busy 5 ≡ some r)
    × (r.head ≡ r.state.head)
    × Passed busy_log 4 2 busy r.state
step_audio-Passed_example = step_audio-Passed busy_log busy 5 busy-IsSound.0 busy-IsSound.1

-- Member 1 commits the same samples, and the output shows member 0 up to sample 1536.
abbrev both_log : List Commit
both_log = record { member = 1; start = 0; stop = 1536 } ∷ busy_log

abbrev both : Audio
both = record busy {
  cov =
      (record { n = 0; to = 1024; broken = false; valid = true }
        ∷ record { n = 1; to = 1536; broken = false; valid = true }
        ∷ no_coverage
        ∷ no_coverage
        ∷ [])
      ∷ (record { n = 0; to = 1024; broken = false; valid = true }
          ∷ record { n = 1; to = 1536; broken = false; valid = true }
          ∷ no_coverage
          ∷ no_coverage
          ∷ [])
      ∷ [];
  ev_head = 1536 ∷ 1536 ∷ [];
  batch = 1536 ∷ 1536 ∷ [];
}

committed-both : committed 1 0 1536 busy ≡ some both
unfolding committed start_audio cover_pages cover begin_page extend
committed-both = refl

abbrev shown : Audio
shown = record both { head = 1536; current = 0 ∷ 0 ∷ 2 ∷ 2 ∷ [] }

shown-IsWhole : IsWhole shown
shown-IsWhole = record {
  some_pages = omega arith;
  ring = refl;
  slots = (refl, (refl, tt));
  ev_head = refl;
  batch = refl;
  primary = omega arith;
  silence = omega arith;
  low = (omega arith, (omega arith, tt));
  sources = (inl (omega arith), (inl (omega arith), (inr refl, (inr refl, tt))));
}

shown-IsSound : IsSound both_log shown
shown-IsSound =
    let (b, q, _, s, _, _) =
      committed-IsSound busy_log 1 0 1536 busy busy-IsSound.0 busy-IsSound.1 (omega arith)
        (omega arith) (omega arith) in
    let e : b ≡ both = same_run q committed-both in subst (IsSound both_log) e s

-- Both pages move to member 1.
moved : List ℕ
moved = elim (drop_audio shown 0) [ none ↦ [] | some (b, _) ↦ b.current ]

moved-shown : moved ≡ 1 ∷ 1 ∷ 2 ∷ 2 ∷ []
unfolding moved drop_audio drop_pages drop_page first_holder holds_page
moved-shown = refl

drop_audio-IsDropped_example :
    (b : Audio) × (s : List PageSelect) × (drop_audio shown 0 ≡ some (b, s))
    × IsDropped both_log shown 0 0 shown.current b.current
    × IsWhole b
    × IsSound (without 0 both_log) b
drop_audio-IsDropped_example =
    drop_audio-IsDropped both_log shown 0 shown-IsWhole shown-IsSound (omega arith) (omega arith)
      (omega arith) (omega arith)

-- A clock two pages further on: the reach of both members passes what is left of the first page.
abbrev lagging : Audio
lagging = record shown { ahead = 2560 }

retired : List ℕ
retired = elim (retire_audio 1536 lagging) [ none ↦ [] | some (b, _) ↦ b.current ]

retired-lagging : retired ≡ 2 ∷ 2 ∷ 2 ∷ 2 ∷ []
unfolding retired retire_audio retire_pages retire_page most_reach reach spares first_holder
    holds_page
retired-lagging = refl

lagging-IsWhole : IsWhole lagging
lagging-IsWhole = record {
  some_pages = omega arith;
  ring = refl;
  slots = (refl, (refl, tt));
  ev_head = refl;
  batch = refl;
  primary = omega arith;
  silence = omega arith;
  low = (omega arith, (omega arith, tt));
  sources = (inl (omega arith), (inl (omega arith), (inr refl, (inr refl, tt))));
}

retire_audio-IsKept_example :
    (current : List ℕ) × (s : List PageSelect) × (retire_audio 1536 lagging
      ≡ some (record lagging { current = current }, s))
    × ((n : ℕ)
        → trusted_from lagging / page_samples ≤ n
        → n * page_samples < lagging.head
        → IsKept both_log 1536 lagging (trusted_from lagging) n lagging.current current)
    × ((q : ℕ)
        → ((n : ℕ)
            → trusted_from lagging / page_samples ≤ n
            → n * page_samples < lagging.head
            → n % lagging.pages ≢ q)
        → get_elem? current q ≡ get_elem? lagging.current q)
    × IsWhole (record lagging { current = current })
retire_audio-IsKept_example =
    retire_audio-IsKept both_log 1536 lagging lagging-IsWhole shown-IsSound refl (omega arith)
      (omega arith) (omega arith)
