-- ===== src/Merge/Audio/Committed.antt =====
-- `Audio.Committed`: what it records is sound for everything that was committed.
use mxl_k8s.Base.{
  ℕ, suc, ◌-◌, ◌*◌, ◌/◌, ◌^◌, ◌≤◌, ◌<◌, min, ◌≡◌, refl, sym, ap, ◌∙◌, ◌⊎◌, inl, inr, true, some,
  List, ◌∷◌, arith, length, length-set, get_elem?, set, get_elem?_of_lt, get_elem?-set_self,
  get_elem?-set_ne, All, All-get_elem?, All-set, ltb, ◌==◌, ==_iff, Bool-cases, if◌then◌else◌,
  All-map,
}
use mathlib.Core.Path.{subst}
use mxl_k8s.Base.Words.{u64, sub_u64}
use mxl_k8s.Merge.Audio.{Coverage, Audio, page_samples, cover_pages, start_audio, committed}
use mxl_k8s.Merge.Audio.Covered.{Commit, IsCovered, later-IsCovered, cover_pages-IsCovered}

-- What a policy keeps of its slices, over rings of at least one page: each has its length, and a
-- page shows a member or the silence.
pub record IsWhole (a : Audio) : Type 0 where
  pub some_pages : 0 < a.pages
  pub ring : length a.current ≡ a.pages
  pub slots : All (λ covs. length covs ≡ a.pages) a.cov
  pub ev_head : length a.ev_head ≡ length a.cov
  pub batch : length a.batch ≡ length a.cov
  pub primary : a.primary < length a.cov
  pub silence : a.silence ≤ length a.cov
  pub low : All (λ h. h < 2 ^ 63) a.ev_head
  pub sources : All (λ s. (s < length a.cov) ⊎ (s ≡ a.silence)) a.current

-- Every coverage of every member is true of what the member committed.
abbrev pub IsSound : List Commit → Audio → Type 0
IsSound log a =
    (m : ℕ) (covs : List Coverage) → get_elem? a.cov m ≡ some covs → All (IsCovered log m) covs

-- The policy once member `m` has coverage `covs` and committed the samples from `start` to `stop`.
abbrev recorded : ℕ → ℕ → ℕ → List Coverage → ℕ → Audio → Audio
recorded m start stop covs h e = record e {
  cov = set e.cov m covs;
  ev_head = if ltb h stop then set e.ev_head m stop else e.ev_head;
  batch = set e.batch m (min (sub_u64 stop start) (u64 (e.pages * page_samples) / 2));
}

set-IsSound :
    (log : List Commit) (k : Commit) (m : ℕ) (cov : List (List Coverage)) (covs : List Coverage)
    → ((m' : ℕ) (covs' : List Coverage)
        → get_elem? cov m' ≡ some covs'
        → All (IsCovered log m') covs')
    → m < length cov
    → All (IsCovered (k ∷ log) m) covs
    → (m' : ℕ) (covs' : List Coverage) → get_elem? (set cov m covs) m' ≡ some covs'
    → All (IsCovered (k ∷ log) m') covs'
set-IsSound log k m cov covs h l new m' covs' g = elim (Bool-cases (m == m')) [
  | inl q ↦
      let same : m ≡ m' = (==_iff m m').0 q in
      let found : covs ≡ covs' = ground (arith, g, same, get_elem?-set_self cov m covs l) in
      subst (λ x. All (IsCovered (k ∷ log) x) covs') same
        (subst (All (IsCovered (k ∷ log) m)) found new)
  | inr q ↦
      All-map (IsCovered log m') (IsCovered (k ∷ log) m') (later-IsCovered k log m') covs'
        (h m' covs' (sym (get_elem?-set_ne cov covs (λ e. absurd (ground (arith, e, q)))) ∙ g))
]

length-at :
    (cov : List (List Coverage)) (m pages : ℕ) (covs : List Coverage)
    → All (λ c. length c ≡ pages) cov
    → get_elem? cov m ≡ some covs
    → length covs ≡ pages
length-at cov m pages covs h g = All-get_elem? (λ c. length c ≡ pages) cov m h g

recorded-IsWhole :
    (m start stop h : ℕ) (covs : List Coverage) (e : Audio)
    → IsWhole e
    → stop < 2 ^ 63
    → length covs ≡ e.pages
    → IsWhole (recorded m start stop covs h e)
recorded-IsWhole m start stop h covs e w fits same =
    let l = length-set e.cov m covs in
    record {
      some_pages = w.some_pages;
      ring = w.ring;
      slots = All-set (λ c. length c ≡ e.pages) e.cov m covs w.slots same;
      ev_head = elim (Bool-cases (ltb h stop)) [
        | inl q ↦ rw q (length-set e.ev_head m stop ∙ w.ev_head ∙ sym l)
        | inr q ↦ rw q (w.ev_head ∙ sym l)
      ];
      batch =
          length-set e.batch m (min (sub_u64 stop start) (u64 (e.pages * page_samples) / 2))
          ∙ w.batch
          ∙ sym l;
      primary = omega (arith, w.primary, l);
      silence = omega (arith, w.silence, l);
      low = elim (Bool-cases (ltb h stop)) [
        | inl q ↦ rw q (All-set (λ x. x < 2 ^ 63) e.ev_head m stop w.low fits)
        | inr q ↦ rw q w.low
      ];
      sources = rw l w.sources;
    }

start_audio-IsWhole :
    (start : ℕ) (a : Audio)
    → IsWhole a
    → IsWhole (start_audio start a)
      × ((start_audio start a).cov ≡ a.cov)
      × ((start_audio start a).started ≡ true)
      × ((start_audio start a).current ≡ a.current)
unfolding start_audio
start_audio-IsWhole start a w = elim (Bool-cases a.started) [
  | inl q ↦ simp q (w, refl, refl, refl)
  | inr q ↦ simp q (
    record {
      some_pages = w.some_pages;
      ring = w.ring;
      slots = w.slots;
      ev_head = w.ev_head;
      batch = w.batch;
      primary = w.primary;
      silence = w.silence;
      low = w.low;
      sources = w.sources;
    },
    refl,
    refl,
    refl,
  )
]

committed_run :
    (m start stop h b : ℕ) (a : Audio) (covs covs' : List Coverage)
    → get_elem? (start_audio start a).cov m ≡ some covs
    → cover_pages
        (suc (suc (stop / page_samples) - start / page_samples))
        (start_audio start a).pages
        start
        stop
        (start / page_samples)
        covs
      ≡ some covs'
    → get_elem? (start_audio start a).ev_head m ≡ some h
    → get_elem? (start_audio start a).batch m ≡ some b
    → committed m start stop a ≡ some (recorded m start stop covs' h (start_audio start a))
unfolding committed
committed_run m start stop h b a covs covs' q1 q2 q3 q4 = rw (committed, q1, q2, q3, q4) refl

-- Where the policy is whole and its coverage is true of the log of the commits so far, `Committed`
-- of the samples from `start` to `stop` by a member of the set, below 2^63, returns. The policy is
-- whole again, shows what it showed and has started, and its coverage is true of the log with this
-- commit: a page that counts as arrived without a gap up to some sample had each sample from its
-- first to that one committed by the member.
pub committed-IsSound :
    (log : List Commit) (m start stop : ℕ) (a : Audio)
    → IsWhole a
    → IsSound log a
    → m < length a.cov
    → start ≤ stop
    → stop < 2 ^ 63
    → (b : Audio) × (committed m start stop a ≡ some b)
      × IsWhole b
      × IsSound (record { member = m; start = start; stop = stop } ∷ log) b
      × (b.started ≡ true)
      × (b.current ≡ a.current)
committed-IsSound log m start stop a w h l order fits =
    let e = start_audio start a in
    let k : Commit = record { member = m; start = start; stop = stop } in
    let (we, same, begun, shown) = start_audio-IsWhole start a w in
    let (covs, g) = get_elem?_of_lt e.cov m (omega (arith, ap length same)) in
    let (ev, gh) = get_elem?_of_lt e.ev_head m (omega (arith, ap length same, we.ev_head)) in
    let (b, gb) = get_elem?_of_lt e.batch m (omega (arith, ap length same, we.batch)) in
    let fit = length-at e.cov m e.pages covs we.slots g in
    let (covs', q, fit', new) =
      cover_pages-IsCovered (suc (suc (stop / page_samples) - start / page_samples)) e.pages start
        stop (start / page_samples) (k ∷ log) m covs we.some_pages fit fits (omega arith)
        (omega arith) (λ s low high. inl (refl, low, high))
        (All-map (IsCovered log m) (IsCovered (k ∷ log) m) (later-IsCovered k log m) covs
          (h m covs (rw (← same) g))) in
    (
      recorded m start stop covs' ev e,
      committed_run m start stop ev b a covs covs' g q gh gb,
      recorded-IsWhole m start stop ev covs' e we fits fit',
      set-IsSound log k m e.cov covs' (rw same h) (omega (arith, ap length same)) new,
      begun,
      shown,
    )
