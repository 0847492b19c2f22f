-- ===== src/Merge/Audio/Step/Turn.antt =====
-- One turn of the audio policy's loop: it returns, and the source it takes has the page.
use mxl_k8s.Base.{
  ℕ, ◌+◌, ◌*◌, ◌/◌, ◌%◌, ◌^◌, ◌≤◌, ◌<◌, ◌≡◌, refl, sym, ap, ◌∙◌, ◌⊎◌, inl, inr, Bool, true, false,
  ◌&&◌, Option, none, some, List, [], ◌∷◌, arith, length, set, length-set, All-set, set_same,
  get_elem?, get_elem?_of_lt, All-get_elem?, ltb, ◌==◌, ==_iff, Bool-cases, if◌then◌else◌,
}
use native.Mathlib.Nat.{mod-lt}
use mxl_k8s.Base.Int.{leb_ℤ}
use mxl_k8s.Base.Words.{u64, sub_time}
use mxl_k8s.Merge.Audio.{Coverage, Audio, page_samples}
use mxl_k8s.Merge.Audio.Covered.{Commit, InLog}
use mxl_k8s.Merge.Audio.Committed.{IsWhole}
use mxl_k8s.Merge.Audio.Step.{
  Turning, ends, waits, takes, faults, wait_page, has_gap, stand_in, go_silent, settle_page,
  show_page, PageSelect,
}
use mxl_k8s.Merge.Audio.Step.Source.{Candidate, IsCandidate}

-- What a pass leaves as it is.
pub record SameSet (a e : Audio) : Type 0 where
  pub pages : e.pages ≡ a.pages
  pub silence : e.silence ≡ a.silence
  pub cov : e.cov ≡ a.cov
  pub ev_head : e.ev_head ≡ a.ev_head
  pub started : e.started ≡ a.started

pub SameSet-refl : (a : Audio) → SameSet a a
SameSet-refl a = record { pages = refl; silence = refl; cov = refl; ev_head = refl; started = refl }

pub SameSet-trans : (a e f : Audio) → SameSet a e → SameSet e f → SameSet a f
SameSet-trans a e f h k = record {
  pages = k.pages ∙ h.pages;
  silence = k.silence ∙ h.silence;
  cov = k.cov ∙ h.cov;
  ev_head = k.ev_head ∙ h.ev_head;
  started = k.started ∙ h.started;
}

-- A state that shows the same pages up to the same head.
pub record Kept (a e : Audio) : Type 0 where
  pub same : SameSet a e
  pub whole : IsWhole e
  pub head : e.head ≡ a.head
  pub current : e.current ≡ a.current

-- The source has the samples of the page up to `u`, or is the silence.
abbrev pub HasPage : List Commit → Audio → ℕ → ℕ → ℕ → Type 0
HasPage log a n m u = (m ≡ a.silence) ⊎ ((s : ℕ) → n * page_samples ≤ s → s < u → InLog log m s)

pub record Taken (log : List Commit) (a : Audio) (n : ℕ) (e : Audio) (m u : ℕ) : Type 0 where
  pub kept : Kept a e
  pub beyond : a.head < u
  pub within : u ≤ (n + 1) * page_samples
  pub member : (m < length a.cov) ⊎ (m ≡ a.silence)
  pub page : HasPage log a n m u

abbrev pub IsDecided : List Commit → Audio → ℕ → Turning → Type 0
IsDecided log a n ends = Unit
IsDecided log a n (waits e w) = Kept a e
IsDecided log a n (takes e m u) = Taken log a n e m u
IsDecided log a n faults = ⊥

Kept-refl : (a : Audio) → IsWhole a → Kept a a
Kept-refl a w = record { same = SameSet-refl a; whole = w; head = refl; current = refl }

Kept-wait_page : (a : Audio) (n now : ℕ) → IsWhole a → Kept a (wait_page a n now)
unfolding wait_page
Kept-wait_page a n now w = elim (Bool-cases (a.waiting_page == n)) [
  | inl q ↦ rw q (Kept-refl a w)
  | inr q ↦ rw q record {
    same = record { pages = refl; silence = refl; cov = refl; ev_head = refl; started = refl };
    whole = record {
      some_pages = w.some_pages;
      ring = w.ring;
      slots = w.slots;
      ev_head = w.ev_head;
      batch = w.batch;
      primary = w.primary;
      silence = w.silence;
      low = w.low;
      sources = w.sources;
    };
    head = refl;
    current = refl;
  }
]

Kept-primary :
    (a e : Audio) (m : ℕ) → Kept a e → m < length e.cov → Kept a (record e { primary = m })
Kept-primary a e m k l =
    let w = k.whole in
    let s = k.same in
    record {
      same = record {
        pages = s.pages;
        silence = s.silence;
        cov = s.cov;
        ev_head = s.ev_head;
        started = s.started;
      };
      whole = record {
        some_pages = w.some_pages;
        ring = w.ring;
        slots = w.slots;
        ev_head = w.ev_head;
        batch = w.batch;
        primary = l;
        silence = w.silence;
        low = w.low;
        sources = w.sources;
      };
      head = k.head;
      current = k.current;
    }

Taken-Candidate :
    (log : List Commit) (a : Audio) (n : ℕ) (e : Audio) (m u : ℕ)
    → Kept a e
    → Candidate log a n m u
    → Taken log a n e m u
Taken-Candidate log a n e m u k c = record {
  kept = k;
  beyond = c.beyond;
  within = c.within;
  member = inl c.member;
  page = inr c.samples;
}

has_gap_of :
    (a : Audio) (n : ℕ) (covs : List Coverage) (c : Coverage) (h : ℕ)
    → get_elem? a.cov a.primary ≡ some covs
    → get_elem? covs (n % a.pages) ≡ some c
    → get_elem? a.ev_head a.primary ≡ some h
    → has_gap a n ≡ some (if c.valid && (c.n == n) && c.broken then true else ltb a.head h)
unfolding has_gap
has_gap_of a n covs c h q1 q2 q3 = elim (Bool-cases (c.valid && (c.n == n) && c.broken)) [
  | inl q ↦ rw (has_gap, q1, q2, q) refl
  | inr q ↦ rw (has_gap, q1, q2, q, q3) refl
]

-- The primary's indices are in range.
has_gap-total : (a : Audio) (n : ℕ) → IsWhole a → (b : Bool) × (has_gap a n ≡ some b)
has_gap-total a n w =
    let (covs, q1) = get_elem?_of_lt a.cov a.primary w.primary in
    let slot = All-get_elem? (λ x. length x ≡ a.pages) a.cov a.primary w.slots q1 in
    let (c, q2) = get_elem?_of_lt covs (n % a.pages) (omega (arith, slot, mod-lt n w.some_pages)) in
    let (h, q3) = get_elem?_of_lt a.ev_head a.primary (omega (arith, w.primary, w.ev_head)) in
    (
      if c.valid && (c.n == n) && c.broken then true else ltb a.head h,
      has_gap_of a n covs c h q1 q2 q3,
    )

stand_in_of :
    (log : List Commit) (a : Audio) (n now m u : ℕ) (b : Bool)
    → Candidate log a n m u
    → Kept a (wait_page a n now)
    → m < length (wait_page a n now).cov
    → has_gap (wait_page a n now) n ≡ some b
    → IsDecided log a n (stand_in a n now m u)
unfolding stand_in
stand_in_of log a n now m u true c k l q =
    rw (stand_in, q) (Taken-Candidate log a n (wait_page a n now) m u k c)
stand_in_of log a n now m u false c k l q =
    let e = wait_page a n now in
    elim (Bool-cases (leb_ℤ e.tolerance (sub_time now e.waiting_since))) [
      | inl p ↦
          rw (stand_in, q, p)
            (Taken-Candidate log a n (record e { primary = m }) m u (Kept-primary a e m k l) c)
      | inr p ↦ rw (stand_in, q, p) k
    ]

stand_in-IsDecided :
    (log : List Commit) (a : Audio) (n now m u : ℕ)
    → IsWhole a
    → Candidate log a n m u
    → IsDecided log a n (stand_in a n now m u)
stand_in-IsDecided log a n now m u w c =
    let k = Kept-wait_page a n now w in
    let (b, q) = has_gap-total (wait_page a n now) n k.whole in
    stand_in_of log a n now m u b c k (omega (arith, ap length k.same.cov, c.member)) q

go_silent-IsDecided :
    (log : List Commit) (a : Audio) (lead n : ℕ)
    → IsWhole a
    → a.head < lead
    → lead < 2 ^ 63
    → n ≡ a.head / page_samples
    → IsDecided log a n (go_silent a lead n)
unfolding go_silent
go_silent-IsDecided log a lead n w low fits e =
    elim (Bool-cases (ltb lead (u64 (a.head + a.skew)))) [
      | inl q ↦ rw q tt
      | inr q ↦ elim (Bool-cases (ltb (length a.cov) a.silence)) [
        | inl p ↦ absurd (ground (arith, w.silence))
        | inr p ↦
            rw (q, p)
              record {
                kept = Kept-refl a w;
                beyond = omega arith;
                within = omega arith;
                member = inr refl;
                page = inl refl;
              }
      ]
    ]

pub settle_page-IsDecided :
    (log : List Commit) (a : Audio) (lead now n : ℕ) (pick alt : Option (ℕ × ℕ))
    → IsWhole a
    → a.head < lead
    → lead < 2 ^ 63
    → n ≡ a.head / page_samples
    → IsCandidate log a n pick
    → IsCandidate log a n alt
    → IsDecided log a n (settle_page a lead now n (pick, alt))
unfolding settle_page
settle_page-IsDecided log a lead now n (some (m, u)) alt w low fits e p q =
    Taken-Candidate log a n a m u (Kept-refl a w) p
settle_page-IsDecided log a lead now n none (some (m, u)) w low fits e p q =
    stand_in-IsDecided log a n now m u w q
settle_page-IsDecided log a lead now n none none w low fits e p q =
    go_silent-IsDecided log a lead n w low fits e

-- The page's slot shows the source, the others what they showed, and the head is `u`.
pub record Shown (e : Audio) (p m u : ℕ) (f : Audio) : Type 0 where
  pub same : SameSet e f
  pub whole : IsWhole f
  pub head : f.head ≡ u
  pub current : f.current ≡ set e.current p m

pub show_page-Shown :
    (e : Audio) (p m u : ℕ) {old : ℕ}
    → IsWhole e
    → (m < length e.cov) ⊎ (m ≡ e.silence)
    → get_elem? e.current p ≡ some old
    → (f : Audio) × (s : List PageSelect) × (show_page e p m u ≡ some (f, s)) × Shown e p m u f
unfolding show_page
show_page-Shown e p m u {old} w l g = elim (Bool-cases (old == m)) [
  | inl q ↦ (
    record e { head = u },
    [],
    rw (show_page, g, q) refl,
    record {
      same = record { pages = refl; silence = refl; cov = refl; ev_head = refl; started = refl };
      whole = record {
        some_pages = w.some_pages;
        ring = w.ring;
        slots = w.slots;
        ev_head = w.ev_head;
        batch = w.batch;
        primary = w.primary;
        silence = w.silence;
        low = w.low;
        sources = w.sources;
      };
      head = refl;
      current = sym (set_same e.current p (g ∙ ap some ((==_iff old m).0 q)));
    },
  )
  | inr q ↦ (
    record e { current = set e.current p m; head = u },
    record { page = p; source = m } ∷ [],
    rw (show_page, g, q) refl,
    record {
      same = record { pages = refl; silence = refl; cov = refl; ev_head = refl; started = refl };
      whole = record {
        some_pages = w.some_pages;
        ring = length-set e.current p m ∙ w.ring;
        slots = w.slots;
        ev_head = w.ev_head;
        batch = w.batch;
        primary = w.primary;
        silence = w.silence;
        low = w.low;
        sources = All-set (λ s. (s < length e.cov) ⊎ (s ≡ e.silence)) e.current p m w.sources l;
      };
      head = refl;
      current = refl;
    },
  )
]
