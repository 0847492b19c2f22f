-- ===== src/Merge/Audio/Retire/Trusted.antt =====
-- `Audio.Retire` as a whole: every trusted page is shown from a source that will not write over it.
use mxl_k8s.Base.{
  ℕ, zero, suc, ◌+◌, ◌-◌, ◌*◌, ◌/◌, ◌%◌, ◌^◌, ◌≤◌, ◌<◌, max, ◌≡◌, ◌≢◌, refl, ap, ◌∙◌, ◌⊎◌, inl, inr,
  true, false, ◌||◌, Option, none, some, List, [], arith, length, get_elem?, get_elem?_of_lt, All,
  All-get_elem?, All-set, get_elem?-set_self, leb, ◌==◌, Bool-cases,
}
use native.Mathlib.Nat.{mod-lt}
use mxl_k8s.Base.Words.{u64}
use mxl_k8s.Merge.Audio.{Audio, page_samples}
use mxl_k8s.Merge.Audio.Covered.{Commit}
use mxl_k8s.Merge.Audio.Committed.{IsWhole, IsSound}
use mxl_k8s.Merge.Audio.Step.{PageSelect}
use mxl_k8s.Merge.Audio.Retire.{
  reach, retire_page, put, select_of, retire_pages, trusted_from, most_reach, retire_audio,
}
use mxl_k8s.Merge.Audio.Retire.Reach.{most_reach-total, IsTurned, retire_page-IsTurned}
use mxl_k8s.Merge.Audio.Retire.Swept.{
  first_of, IsKept, Swept, Sources, ends-Swept, turn-Swept, put-same,
}

module _ (log : List Commit) (due : ℕ) (a : Audio) (most lo : ℕ) where
  pages_end :
      (fuel n : ℕ) (current : List ℕ)
      → (leb a.head (max lo (u64 (n * page_samples))) || leb most (max lo (u64 (n * page_samples))))
        ≡ true
      → retire_pages (suc fuel) due a most lo n current ≡ some (current, [])
  unfolding retire_pages
  pages_end fuel n current q = rw (retire_pages, q) refl

  pages_turn :
      (fuel n cur : ℕ) (to : Option ℕ) (current new : List ℕ) (s : List PageSelect)
      → u64 (n + 1) ≡ n + 1
      → (leb a.head (max lo (u64 (n * page_samples))) || leb most (max lo (u64 (n * page_samples))))
        ≡ false
      → (a.pages == 0) ≡ false
      → get_elem? current (n % a.pages) ≡ some cur
      → retire_page due a n (max lo (u64 (n * page_samples))) (n % a.pages) cur ≡ some to
      → retire_pages fuel due a most lo (n + 1) (put to (n % a.pages) current) ≡ some (new, s)
      → retire_pages (suc fuel) due a most lo n current ≡ some (new, select_of to (n % a.pages) s)
  unfolding retire_pages
  pages_turn fuel n cur to current new s e q full g t h =
      rw (retire_pages, q, full, g, t, e, h) refl

  -- What the turn answers, as the source it puts in the slot.
  abbrev Turn : ℕ → ℕ → List ℕ → Type 0
  Turn n cur current =
      (to : Option ℕ) × (now : ℕ) × (retire_page due a n (first_of log due a lo n) (n % a.pages) cur
        ≡ some to)
      × (get_elem? (put to (n % a.pages) current) (n % a.pages) ≡ some now)
      × IsTurned log due a n (first_of log due a lo n) cur now
      × Sources log due a lo (put to (n % a.pages) current)

  page-Turn :
      (n cur : ℕ) (current : List ℕ)
      → IsWhole a
      → IsSound log a
      → (n + 1) * page_samples < 2 ^ 64
      → length current ≡ a.pages
      → Sources log due a lo current
      → get_elem? current (n % a.pages) ≡ some cur
      → Turn n cur current
  page-Turn n cur current w h fits same known g =
      let l : n % a.pages < a.pages = mod-lt n w.some_pages in
      elim (retire_page-IsTurned log due a n (first_of log due a lo n) (n % a.pages) cur w h l fits
        (All-get_elem? (λ s. (s < length a.cov) ⊎ (s ≡ a.silence)) current (n % a.pages) known g)) [
          | inl (e, t) ↦ (none, cur, e, g, t, known)
          | inr (to, e, t) ↦ (
            some to,
            to,
            e,
            get_elem?-set_self current (n % a.pages) to (omega (arith, l)),
            t,
            All-set (λ s. (s < length a.cov) ⊎ (s ≡ a.silence)) current (n % a.pages) to known
                t.source,
          )
        ]

  -- The loop returns, and sweeps every page from `n` on.
  pages-Swept :
      (fuel n : ℕ) (current : List ℕ)
      → IsWhole a
      → IsSound log a
      → a.head < 2 ^ 63
      → n * page_samples ≤ a.head + page_samples
      → suc (a.head / page_samples) - n < fuel
      → a.head ≤ (n + a.pages) * page_samples
      → length current ≡ a.pages
      → Sources log due a lo current
      → ((i r : ℕ) → 0 ≤ i → i < length a.cov → reach due a i ≡ some r → r ≤ most)
      → (new : List ℕ) × (s : List PageSelect) × (retire_pages fuel due a most lo n current
          ≡ some (new, s))
        × Swept log due a lo n current new
  pages-Swept zero n current w h fits low more near same known top = absurd (omega arith)
  pages-Swept (suc fuel) n current w h fits low more near same known top =
      let e : u64 (n * page_samples) ≡ n * page_samples = omega arith in
      elim (Bool-cases
        (leb a.head (first_of log due a lo n) || leb most (first_of log due a lo n))) [
          | inl q ↦ (
            current,
            [],
            pages_end fuel n current (rw e q),
            ends-Swept log due a lo n most current w same known top (ground (arith, q)),
          )
          | inr q ↦
              let left : first_of log due a lo n < a.head = ground (arith, q) in
              let (cur, g) =
                get_elem?_of_lt current (n % a.pages) (omega (arith, mod-lt n w.some_pages)) in
              let (to, now, t, g', k, known') =
                page-Turn n cur current w h (omega arith) same known g in
              let (l, rest) = put-same log due a lo to (n % a.pages) current in
              let (new, s, r, swept) =
                pages-Swept fuel (n + 1) (put to (n % a.pages) current) w h fits (omega arith)
                  (omega arith) (omega arith) (l ∙ same) known' top in
              (
                new,
                select_of to (n % a.pages) s,
                pages_turn fuel n cur to current new s (omega arith) (rw e q)
                    (ground (arith, w.some_pages)) g
                    (ap (λ x. retire_page due a n (max lo x) (n % a.pages) cur) e ∙ t) r,
                turn-Swept log due a lo n cur now current (put to (n % a.pages) current) new same
                    near left g g' l rest k w.some_pages swept,
              )
        ]

shown-IsWhole :
    (a : Audio) (current : List ℕ)
    → IsWhole a
    → length current ≡ a.pages
    → All (λ s. (s < length a.cov) ⊎ (s ≡ a.silence)) current
    → IsWhole (record a { current = current })
shown-IsWhole a current w l s = record {
  some_pages = w.some_pages;
  ring = l;
  slots = w.slots;
  ev_head = w.ev_head;
  batch = w.batch;
  primary = w.primary;
  silence = w.silence;
  low = w.low;
  sources = s;
}

retire_audio_run :
    (due most : ℕ) (a : Audio) (current : List ℕ) (s : List PageSelect)
    → a.started ≡ true
    → most_reach due a 0 a.cov 0 ≡ some most
    → retire_pages
        (suc (suc (a.head / page_samples - trusted_from a / page_samples)))
        due
        a
        most
        (trusted_from a)
        (trusted_from a / page_samples)
        a.current
      ≡ some (current, s)
    → retire_audio due a ≡ some (record a { current = current }, s)
unfolding retire_audio
retire_audio_run due most a current s q e r = simp (retire_audio, q, e, r) refl

-- Where the policy has started and is whole, with a ring of two pages or more, fewer than 2^50 of
-- them, a head below 2^63 and coverage true of the log of the commits, `Retire` returns. Each page
-- with samples that readers trust, published and within half a buffer of the head, is then shown
-- from the silence, or from a member that will not write over it: the later of its head and `due`,
-- with the samples ahead and its batch, is no further than a buffer past the page's first trusted
-- sample. That
-- source is the one it showed before, the silence, or a member that committed every published
-- sample of the page. Slots of no such page show what they showed, and the policy is whole again.
pub retire_audio-IsKept :
    (log : List Commit) (due : ℕ) (a : Audio)
    → IsWhole a
    → IsSound log a
    → a.started ≡ true
    → 2 ≤ a.pages
    → a.pages < 2 ^ 50
    → a.head < 2 ^ 63
    → (current : List ℕ) × (s : List PageSelect) × (retire_audio due a
        ≡ some (record a { current = current }, s))
      × ((n : ℕ)
          → trusted_from a / page_samples ≤ n
          → n * page_samples < a.head
          → IsKept log due a (trusted_from a) n a.current current)
      × ((q : ℕ)
          → ((n : ℕ)
              → trusted_from a / page_samples ≤ n
              → n * page_samples < a.head
              → n % a.pages ≢ q)
          → get_elem? current q ≡ get_elem? a.current q)
      × IsWhole (record a { current = current })
retire_audio-IsKept log due a w h begun deep small fits =
    let (most, e, _, top) = most_reach-total due a 0 a.cov 0 w (omega arith) in
    let (current, s, r, k) =
      pages-Swept log due a most (trusted_from a)
        (suc (suc (a.head / page_samples - trusted_from a / page_samples)))
        (trusted_from a / page_samples) a.current w h fits (omega arith) (omega arith) (omega arith)
        w.ring w.sources top in
    (
      current,
      s,
      retire_audio_run due most a current s begun e r,
      λ n low high. k.kept n low (omega arith),
      λ q ne. k.others q (λ n low high. ne n low (omega arith)),
      shown-IsWhole a current w (k.ring ∙ w.ring) k.sources,
    )
