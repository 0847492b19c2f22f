-- ===== src/Merge/Audio/Step/Passed.antt =====
-- The loop of the audio policy's pass: it returns, and every page it published shows a source.
use mxl_k8s.Base.{
  ℕ, zero, suc, ◌+◌, ◌-◌, ◌*◌, ◌/◌, ◌%◌, ◌^◌, ◌≤◌, ◌<◌, ◌≡◌, ◌≢◌, refl, sym, ap, ◌∙◌, ◌⊎◌, inl, inr,
  true, false, ◌&&◌, Option, none, some, List, ◌++◌, arith, length, mod-ne, get_elem?,
  get_elem?_of_lt, get_elem?-set_self, get_elem?-set_ne, All, ltb, ◌==◌, Bool-cases,
}
use mathlib.Core.Path.{subst}
use native.Mathlib.Decide.{dec_lt}
use native.Mathlib.Nat.{mod-lt}
use mxl_k8s.Base.Int.{pos}
use mxl_k8s.Merge.Audio.{Audio, page_samples}
use mxl_k8s.Merge.Audio.Covered.{Commit, InLog, IsCovered}
use mxl_k8s.Merge.Audio.Committed.{IsWhole, IsSound}
use mxl_k8s.Merge.Audio.Step.{
  Turning, ends, waits, takes, faults, PageSelect, SteppedAudio, stop_audio, weigh_all, settle_page,
  show_page, advance_pages,
}
use mxl_k8s.Merge.Audio.Step.Source.{weigh_all-Candidate}
use mxl_k8s.Merge.Audio.Step.Turn.{
  SameSet, SameSet-refl, SameSet-trans, Kept, Taken, IsDecided, settle_page-IsDecided, Shown,
  show_page-Shown,
}

-- The slot of page `j` shows the silence, or a member that committed the page up to the head.
pub IsServed : List Commit → ℕ → ℕ → Audio → ℕ → Type 0
IsServed log pages silence r j =
    (src : ℕ) × (get_elem? r.current (j % pages) ≡ some src)
    × ((src ≡ silence)
        ⊎ ((s : ℕ)
            → j * page_samples ≤ s
            → s < (j + 1) * page_samples
            → s < r.head
            → InLog log src s))

-- What a pass does from `a` to `r`, over a ring of `pages`.
pub record Passed (log : List Commit) (pages silence : ℕ) (a r : Audio) : Type 0 where
  pub same : SameSet a r
  pub whole : IsWhole r
  pub up : a.head ≤ r.head
  pub quiet : r.head ≡ a.head → r.current ≡ a.current
  pub served :
      (j : ℕ)
      → a.head < r.head
      → a.head < (j + 1) * page_samples
      → j * page_samples < r.head
      → r.head ≤ (j + pages) * page_samples
      → IsServed log pages silence r j
  pub others :
      (x : ℕ)
      → ((j : ℕ) → a.head < (j + 1) * page_samples → j * page_samples < r.head → j % pages ≢ x)
      → get_elem? r.current x ≡ get_elem? a.current x

Passed-Kept :
    (log : List Commit) (pages silence : ℕ) (a r : Audio) → Kept a r → Passed log pages silence a r
Passed-Kept log pages silence a r k = record {
  same = k.same;
  whole = k.whole;
  up = omega (arith, k.head);
  quiet = λ _. k.current;
  served = λ j more low high near. absurd (omega (arith, k.head));
  others = λ x ne. ap (λ c. get_elem? c x) k.current;
}

-- A turn that takes a source for page `n`, and what the loop does after it.
turn-Passed :
    (log : List Commit) (pages silence n m u : ℕ) (a e f r : Audio)
    → a.pages ≡ pages
    → a.silence ≡ silence
    → n ≡ a.head / page_samples
    → IsWhole a
    → Taken log a n e m u
    → Shown e (n % pages) m u f
    → Passed log pages silence f r
    → Passed log pages silence a r
unfolding IsServed
turn-Passed log pages silence n m u a e f r ps si page w t h k = record {
  same = SameSet-trans a e r t.kept.same (SameSet-trans e f r h.same k.same);
  whole = k.whole;
  up = omega (arith, k.up, h.head, t.beyond);
  quiet = λ q. absurd (omega (arith, q, k.up, h.head, t.beyond));
  served = λ j more low high near. elim (dec_lt f.head r.head) [
    | no last ↦
        let final : r.head ≡ f.head = omega (arith, k.up) in
        let it : j ≡ n = omega (arith, h.head, t.within) in
        rw it (
          here r (ap (λ c. get_elem? c (n % pages)) (k.quiet final))
            (λ s hi top. omega (arith, final, h.head)))
    | yes further ↦ elim (dec_lt f.head ((j + 1) * page_samples)) [
      | yes later ↦ k.served j further later high near
      | no done ↦
          let it : j ≡ n = omega (arith, h.head, t.within) in
          rw it (
            here r
              (k.others (n % pages) (λ j' above below.
                apart j' (omega (arith, h.head, t.within)) (omega (arith, near, it))))
              (λ s hi top. omega (arith, it, done, h.head)))
    ]
  ];
  others = λ x ne.
      k.others x (λ j above below. ne j (omega (arith, h.head, t.beyond)) below)
      ∙ ap (λ c. get_elem? c x) h.current
      ∙ get_elem?-set_ne e.current m (ne n (omega arith) (omega (arith, h.head, t.beyond, k.up)))
      ∙ ap (λ c. get_elem? c x) t.kept.current;
}
  where
    apart : (j' : ℕ) → n < j' → j' < n + pages → j' % pages ≢ n % pages
    apart j' x y = λ q. mod-ne pages n j' (omega (arith, w.some_pages)) x y (sym q)

    slot : n % pages < length e.current
    slot =
        let l : 0 < pages = omega (arith, w.some_pages) in
        omega (arith, t.kept.whole.ring, t.kept.same.pages, ps, mod-lt n l)

    here :
        (r' : Audio)
        → get_elem? r'.current (n % pages) ≡ get_elem? f.current (n % pages)
        → ((s : ℕ) → s < (n + 1) * page_samples → s < r'.head → s < u)
        → IsServed log pages silence r' n
    here r' q cut = (
      m,
      q
          ∙ ap (λ c. get_elem? c (n % pages)) h.current
          ∙ get_elem?-set_self e.current (n % pages) m slot,
      elim t.page [
        | inl x ↦ inl (x ∙ si)
        | inr y ↦ inr (λ s low high top. y s low (cut s high top))
      ],
    )

advance_stop :
    (fuel lead now : ℕ) (a : Audio) (selects : List PageSelect)
    → (a.started && ltb a.head lead) ≡ false
    → advance_pages (suc fuel) lead now a selects ≡ some (stop_audio a selects (pos 0))
unfolding advance_pages
advance_stop fuel lead now a selects q = rw (advance_pages, q) refl

-- What a turn leaves, by what it decides.
abbrev after : ℕ → ℕ → ℕ → Audio → List PageSelect → Turning → Option SteppedAudio
after fuel lead now a selects faults = none
after fuel lead now a selects ends = some (stop_audio a selects (pos 0))
after fuel lead now a selects (waits e wait) = some (stop_audio e selects wait)
after fuel lead now a selects (takes e m u) =
    elim (show_page e (a.head / page_samples % a.pages) m u) [
      | none ↦ none
      | some (f, s) ↦ advance_pages fuel lead now f (selects ++ s)
    ]

==_positive : (n : ℕ) → 0 < n → (n == 0) ≡ false
==_positive n h = ground arith

advance_turn :
    (fuel lead now : ℕ) (a : Audio) (selects : List PageSelect) (pick alt : Option (ℕ × ℕ))
    (t : Turning)
    → 0 < a.pages
    → (a.started && ltb a.head lead) ≡ true
    → weigh_all a (a.head / page_samples) 0 a.cov (none, none) ≡ some (pick, alt)
    → settle_page a lead now (a.head / page_samples) (pick, alt) ≡ t
    → advance_pages (suc fuel) lead now a selects ≡ after fuel lead now a selects t
unfolding advance_pages
advance_turn fuel lead now a selects pick alt faults l q f d =
    rw (advance_pages, q, ==_positive a.pages l, f, d) refl
advance_turn fuel lead now a selects pick alt ends l q f d =
    rw (advance_pages, q, ==_positive a.pages l, f, d) refl
advance_turn fuel lead now a selects pick alt (waits e wait) l q f d =
    rw (advance_pages, q, ==_positive a.pages l, f, d) refl
advance_turn fuel lead now a selects pick alt (takes e m u) l q f d =
    rw (advance_pages, q, ==_positive a.pages l, f, d) refl

after_takes :
    (fuel lead now : ℕ) (a : Audio) (selects : List PageSelect) (e : Audio) (m u : ℕ) (f : Audio)
    (s : List PageSelect)
    → show_page e (a.head / page_samples % a.pages) m u ≡ some (f, s)
    → after fuel lead now a selects (takes e m u) ≡ advance_pages fuel lead now f (selects ++ s)
after_takes fuel lead now a selects e m u f s q = rw (after, q) refl

member-SameSet :
    (a e : Audio) (m : ℕ)
    → SameSet a e
    → (m < length a.cov) ⊎ (m ≡ a.silence)
    → (m < length e.cov) ⊎ (m ≡ e.silence)
member-SameSet a e m s (inl l) = inl (omega (arith, ap length s.cov))
member-SameSet a e m s (inr q) = inr (q ∙ sym s.silence)

IsSound-SameSet :
    (log : List Commit) (a e f : Audio) → SameSet a e → SameSet e f → IsSound log a → IsSound log f
IsSound-SameSet log a e f s t sound m covs g =
    sound m covs (ap (λ c. get_elem? c m) (sym (t.cov ∙ s.cov)) ∙ g)

-- The loop returns, with a pass.
abbrev Returns : List Commit → ℕ → ℕ → ℕ → ℕ → ℕ → Audio → List PageSelect → Type 0
Returns log pages silence fuel lead now a selects =
    (r : SteppedAudio) × (advance_pages fuel lead now a selects ≡ some r)
    × (r.head ≡ r.state.head)
    × Passed log pages silence a r.state

turn-Returns :
    (log : List Commit) (pages silence fuel lead now : ℕ) (a : Audio) (selects : List PageSelect)
    (pick alt : Option (ℕ × ℕ)) (t : Turning)
    → a.pages ≡ pages
    → a.silence ≡ silence
    → IsWhole a
    → IsSound log a
    → ((f : Audio) (s : List PageSelect)
        → f.pages ≡ pages
        → f.silence ≡ silence
        → IsWhole f
        → IsSound log f
        → a.head < f.head
        → Returns log pages silence fuel lead now f s)
    → a.head < lead
    → (a.started && ltb a.head lead) ≡ true
    → weigh_all a (a.head / page_samples) 0 a.cov (none, none) ≡ some (pick, alt)
    → settle_page a lead now (a.head / page_samples) (pick, alt) ≡ t
    → IsDecided log a (a.head / page_samples) t
    → Returns log pages silence (suc fuel) lead now a selects
turn-Returns log pages silence fuel lead now a selects pick alt faults ps si w sound rec low q f d
      k =
    absurd k
turn-Returns log pages silence fuel lead now a selects pick alt ends ps si w sound rec low q f d k =
    (
      stop_audio a selects (pos 0),
      advance_turn fuel lead now a selects pick alt ends w.some_pages q f d,
      refl,
      Passed-Kept log pages silence a a
          record { same = SameSet-refl a; whole = w; head = refl; current = refl },
    )
turn-Returns log pages silence fuel lead now a selects pick alt (waits e wait) ps si w sound rec low
      q f d k =
    (
      stop_audio e selects wait,
      advance_turn fuel lead now a selects pick alt (waits e wait) w.some_pages q f d,
      refl,
      Passed-Kept log pages silence a e k,
    )
turn-Returns log pages silence fuel lead now a selects pick alt (takes e m u) ps si w sound rec low
      q f d k =
    let s0 = k.kept.same in
    let (old, g) =
      get_elem?_of_lt e.current (a.head / page_samples % a.pages)
        (omega (arith, k.kept.whole.ring, s0.pages, mod-lt (a.head / page_samples) w.some_pages)) in
    let (f', s, q', h) =
      show_page-Shown e (a.head / page_samples % a.pages) m u k.kept.whole
        (member-SameSet a e m s0 k.member) g in
    let (r, run, l, x) =
      rec f' (selects ++ s) (h.same.pages ∙ s0.pages ∙ ps) (h.same.silence ∙ s0.silence ∙ si)
        h.whole (IsSound-SameSet log a e f' s0 h.same sound) (omega (arith, h.head, k.beyond)) in
    (
      r,
      advance_turn fuel lead now a selects pick alt (takes e m u) w.some_pages q f d
          ∙ after_takes fuel lead now a selects e m u f' s q'
          ∙ run,
      l,
      turn-Passed log pages silence (a.head / page_samples) m u a e f' r.state ps si refl w k
          (subst (λ c. Shown e (a.head / page_samples % c) m u f') ps h) x,
    )

-- From a whole policy with sound coverage, the loop returns for enough fuel, with a pass.
pub advance_pages-Passed :
    (log : List Commit) (pages silence fuel lead now : ℕ) (a : Audio) (selects : List PageSelect)
    → a.pages ≡ pages
    → a.silence ≡ silence
    → IsWhole a
    → IsSound log a
    → lead < 2 ^ 63
    → lead - a.head < fuel
    → Returns log pages silence fuel lead now a selects
advance_pages-Passed log pages silence zero lead now a selects ps si w sound fits more =
    absurd (omega arith)
advance_pages-Passed log pages silence (suc fuel) lead now a selects ps si w sound fits more =
    elim (Bool-cases (a.started && ltb a.head lead)) [
      | inr q ↦ (
        stop_audio a selects (pos 0),
        advance_stop fuel lead now a selects q,
        refl,
        Passed-Kept log pages silence a a
            record { same = SameSet-refl a; whole = w; head = refl; current = refl },
      )
      | inl q ↦
          let low : a.head < lead = ground arith in
          let n = a.head / page_samples in
          let (pick, alt, f, p, o) =
            weigh_all-Candidate log a n 0 a.cov none none w.some_pages w.slots
              (λ i covs g.
                subst (λ x. All (IsCovered log x) covs) {x = i} {y = 0 + i} (omega arith)
                  (sound i covs g))
              (omega arith) (tt, tt) in
          turn-Returns log pages silence fuel lead now a selects pick alt
            (settle_page a lead now n (pick, alt)) ps si w sound
            (λ f s ps' si' w' sound' further.
              advance_pages-Passed log pages silence fuel lead now f s ps' si' w' sound' fits
                (omega arith))
            low q f refl (settle_page-IsDecided log a lead now n pick alt w low fits refl p o)
    ]
