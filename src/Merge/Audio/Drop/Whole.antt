-- ===== src/Merge/Audio/Drop/Whole.antt =====
-- `Audio.Drop` as a whole: it returns, and leaves no page to the dropped member.
use mxl_k8s.Base.{
  ℕ, suc, ◌+◌, ◌^◌, ◌<◌, ◌≡◌, ◌≢◌, refl, sym, ap, ◌∙◌, ◌⊎◌, inl, inr, true, false, some, List, [],
  ◌∷◌, arith, length, get_elem?, get_elem?_of_lt, All, All-map, All-set, All-replicate, set,
  length-set, replicate, if◌then◌else◌, length-replicate, get_elem?-set_self, get_elem?-set_ne,
  Bool-cases, ◌==◌, ==_iff,
}
use mathlib.Core.Path.{subst}
use mxl_k8s.Merge.Audio.{Coverage, Audio, no_coverage}
use mxl_k8s.Merge.Audio.Covered.{Commit, InLog, IsCovered}
use mxl_k8s.Merge.Audio.Committed.{IsWhole, IsSound}
use mxl_k8s.Merge.Audio.Step.{PageSelect}
use mxl_k8s.Merge.Audio.Drop.{drop_page, drop_pages, drop_audio}
use mxl_k8s.Merge.Audio.Drop.Moves.{IsMoved, drop_page-IsMoved}

module _ (log : List Commit) (a : Audio) (m : ℕ) where
  -- The sources from slot `p` on, before and after: only slots of `m` change.
  abbrev pub IsDropped : ℕ → List ℕ → List ℕ → Type 0
  IsDropped p [] [] = Unit
  IsDropped p (cur ∷ rest) (new ∷ rest') =
      (((cur ≢ m) × (new ≡ cur)) ⊎ ((cur ≡ m) × IsMoved log a m p new))
      × IsDropped (suc p) rest rest'
  IsDropped p _ _ = ⊥

  drop_stay :
      (p cur : ℕ) (rest rest' : List ℕ) (s : List PageSelect)
      → (cur == m) ≡ false
      → drop_pages a m (suc p) rest ≡ some (rest', s)
      → drop_pages a m p (cur ∷ rest) ≡ some (cur ∷ rest', s)
  unfolding drop_pages
  drop_stay p cur rest rest' s q e = rw (drop_pages, e, q) refl

  drop_move :
      (p cur to : ℕ) (rest rest' : List ℕ) (s : List PageSelect)
      → (cur == m) ≡ true
      → drop_page a m p ≡ some to
      → drop_pages a m (suc p) rest ≡ some (rest', s)
      → drop_pages a m p (cur ∷ rest) ≡ some (to ∷ rest', record { page = p; source = to } ∷ s)
  unfolding drop_pages
  drop_move p cur to rest rest' s q t e = rw (drop_pages, e, q, t) refl

  drop_pages-IsDropped :
      (p : ℕ) (rest : List ℕ)
      → IsSound log a
      → All (λ covs. length covs ≡ a.pages) a.cov
      → m ≢ a.silence
      → p + length rest ≡ a.pages
      → a.pages < 2 ^ 62
      → a.head < 2 ^ 63
      → (rest' : List ℕ) × (s : List PageSelect) × (drop_pages a m p rest ≡ some (rest', s))
        × IsDropped p rest rest'
  drop_pages-IsDropped p [] h w ne same fits fits' = ([], [], unfold drop_pages in refl, tt)
  drop_pages-IsDropped p (cur ∷ rest) h w ne same fits fits' =
      let (rest', s, e, k) = drop_pages-IsDropped (suc p) rest h w ne (omega arith) fits fits' in
      elim (Bool-cases (cur == m)) [
        | inr q ↦ (
          cur ∷ rest',
          s,
          drop_stay p cur rest rest' s q e,
          (inl ((λ x. ground (arith, q)), refl), k),
        )
        | inl q ↦
            let (to, t, moved) = drop_page-IsMoved log a m p h w ne (omega arith) fits fits' in
            (
              to ∷ rest',
              record { page = p; source = to } ∷ s,
              drop_move p cur to rest rest' s q t e,
              (inr ((==_iff _ _).0 q, moved), k),
            )
      ]

-- The log without what `m` committed.
abbrev pub without : ℕ → List Commit → List Commit
without m [] = []
without m (k ∷ ks) = if k.member == m then without m ks else k ∷ without m ks

without-InLog : (m o s : ℕ) (log : List Commit) → o ≢ m → InLog log o s → InLog (without m log) o s
without-InLog m o s [] ne h = h
without-InLog m o s (k ∷ ks) ne h = elim (Bool-cases (k.member == m)) [
  | inl q ↦ rw q (elim h [
    | inl x ↦ absurd (ne (sym x.0 ∙ (==_iff _ _).0 q))
    | inr y ↦ without-InLog m o s ks ne y
  ])
  | inr q ↦ rw q (elim h [ inl x ↦ inl x | inr y ↦ inr (without-InLog m o s ks ne y) ])
]

without-IsCovered :
    (m o : ℕ) (log : List Commit) (c : Coverage)
    → o ≢ m
    → IsCovered log o c
    → IsCovered (without m log) o c
without-IsCovered m o log c ne h = record {
  within = h.within;
  samples = λ v b s low high. without-InLog m o s log ne (h.samples v b s low high);
}

nothing-IsCovered : (log : List Commit) (m : ℕ) → IsCovered log m no_coverage
nothing-IsCovered log m = record {
  within = λ v. ground arith;
  samples = λ v b s low high. absurd (ground (arith, v));
}

-- A member that starts over leaves the coverage of the others true.
reset-IsSound :
    (log : List Commit) (a : Audio) (m : ℕ)
    → IsSound log a
    → m < length a.cov
    → (o : ℕ) (covs : List Coverage)
    → get_elem? (set a.cov m (replicate a.pages no_coverage)) o ≡ some covs
    → All (IsCovered (without m log) o) covs
reset-IsSound log a m h l o covs g = elim (Bool-cases (m == o)) [
  | inl q ↦
      let same : m ≡ o = (==_iff m o).0 q in
      let found : replicate a.pages no_coverage ≡ covs =
        ground (arith, g, same, get_elem?-set_self a.cov m (replicate a.pages no_coverage) l) in
      subst (All (IsCovered (without m log) o)) found (
        All-replicate (IsCovered (without m log) o) a.pages no_coverage
          (nothing-IsCovered (without m log) o))
  | inr q ↦
      let ne : m ≢ o = λ e. absurd (ground (arith, e, q)) in
      All-map (IsCovered log o) (IsCovered (without m log) o)
        (λ c. without-IsCovered m o log c (λ e. ne (sym e))) covs
        (h o covs (sym (get_elem?-set_ne a.cov (replicate a.pages no_coverage) ne) ∙ g))
]

dropped-sources :
    (log : List Commit) (a : Audio) (m p : ℕ) (cur new : List ℕ)
    → IsDropped log a m p cur new
    → All (λ s. (s < length a.cov) ⊎ (s ≡ a.silence)) cur
    → All (λ s. (s < length a.cov) ⊎ (s ≡ a.silence)) new × (length new ≡ length cur)
dropped-sources log a m p [] [] h k = (tt, refl)
dropped-sources log a m p (c ∷ cs) [] h k = absurd h
dropped-sources log a m p [] (n ∷ ns) h k = absurd h
dropped-sources log a m p (c ∷ cs) (n ∷ ns) h k =
    let (rest, same) = dropped-sources log a m (suc p) cs ns h.1 k.1 in
    let now : (n < length a.cov) ⊎ (n ≡ a.silence) = elim h.0 [
      | inl (_, e) ↦ subst (λ s. (s < length a.cov) ⊎ (s ≡ a.silence)) (sym e) k.0
      | inr (_, moved) ↦ elim moved.holds [ inl e ↦ inr e | inr (_, _, _, _, l, _) ↦ inl l ]
    ] in
    ((now, rest), ap suc same)

-- The policy after `Drop`, with the sources it moved to.
abbrev pub forgotten : ℕ → List ℕ → Audio → Audio
forgotten m current a = record a {
  current = current;
  cov = set a.cov m (replicate a.pages no_coverage);
  ev_head = set a.ev_head m 0;
}

forgotten-IsWhole :
    (log : List Commit) (a : Audio) (m : ℕ) (current : List ℕ)
    → IsWhole a
    → IsDropped log a m 0 a.current current
    → IsWhole (forgotten m current a)
forgotten-IsWhole log a m current w h =
    let (sources, same) = dropped-sources log a m 0 a.current current h w.sources in
    let l = length-set a.cov m (replicate a.pages no_coverage) in
    record {
      some_pages = w.some_pages;
      ring = same ∙ w.ring;
      slots =
          All-set (λ c. length c ≡ a.pages) a.cov m (replicate a.pages no_coverage) w.slots
            (length-replicate a.pages no_coverage);
      ev_head = length-set a.ev_head m 0 ∙ w.ev_head ∙ sym l;
      batch = w.batch ∙ sym l;
      primary = omega (arith, w.primary, l);
      silence = omega (arith, w.silence, l);
      low = All-set (λ x. x < 2 ^ 63) a.ev_head m 0 w.low (omega arith);
      sources = rw l sources;
    }

drop_audio_run :
    (a : Audio) (m h : ℕ) (current : List ℕ) (s : List PageSelect) (covs : List Coverage)
    → drop_pages a m 0 a.current ≡ some (current, s)
    → get_elem? a.cov m ≡ some covs
    → get_elem? a.ev_head m ≡ some h
    → drop_audio a m ≡ some (forgotten m current a, s)
unfolding drop_audio
drop_audio_run a m h current s covs e g k = rw (drop_audio, e, g, k) refl

-- Where the policy is whole and its coverage is true of the log of the commits, with fewer than
-- 2^62 pages and a head below 2^63, `Drop` of member `m` returns. Every slot that showed `m` shows
-- the silence, or another member that committed every published sample of the page the slot holds,
-- the one at that place of the ring within a ring below the head. Every other slot shows what it
-- showed. The policy is whole again, and its coverage is true of the log without what `m`
-- committed.
pub drop_audio-IsDropped :
    (log : List Commit) (a : Audio) (m : ℕ)
    → IsWhole a
    → IsSound log a
    → m < length a.cov
    → m ≢ a.silence
    → a.pages < 2 ^ 62
    → a.head < 2 ^ 63
    → (b : Audio) × (s : List PageSelect) × (drop_audio a m ≡ some (b, s))
      × IsDropped log a m 0 a.current b.current
      × IsWhole b
      × IsSound (without m log) b
drop_audio-IsDropped log a m w h l ne fits fits' =
    let (current, s, e, k) =
      drop_pages-IsDropped log a m 0 a.current h w.slots ne (omega (arith, w.ring)) fits fits' in
    let (covs, g) = get_elem?_of_lt a.cov m l in
    let (ev, g') = get_elem?_of_lt a.ev_head m (omega (arith, w.ev_head)) in
    (
      forgotten m current a,
      s,
      drop_audio_run a m ev current s covs e g g',
      k,
      forgotten-IsWhole log a m current w k,
      reset-IsSound log a m h l,
    )
