-- ===== src/Merge/Discrete/Retire/Members.antt =====
-- What `Retire` knows of the members: how far each may write, and which one can take a slot over.
use mxl_k8s.Base.{
  ℕ, zero, suc, ◌+◌, ◌-◌, ◌≤◌, ◌<◌, ◌≡◌, ◌≢◌, refl, sym, ap, ◌∙◌, ◌==◌, ==_iff, ◌⊎◌, inl, inr, Bool,
  true, not, ◌&&◌, some, List, [], ◌∷◌, arith, length, get_elem?, replicate, length-replicate, min,
  max, Bool-cases, Option-cases,
}
use mathlib.Core.Path.{subst}
use native.Mathlib.Nat.{zero-add}
use mxl_k8s.Base.Words.{u64}
use mxl_k8s.Merge.Discrete.{Member, DiscretePolicy, serves}
use mxl_k8s.Merge.Discrete.Turn.{SameConfig}
use mxl_k8s.Merge.Discrete.Retire.{track, refresh, nexts, highest, below, first_member, successor}

-- What is remembered of each member, by its head: the head, and how far it runs behind `due`, which
-- stays while the head does, and is else counted again. The head is the first list's, and the other
-- is the second's.
abbrev pub Follows : ℕ → List Member → List ℕ → List ℕ → List ℕ → List ℕ → Type 0
Follows due ms heads lates heads' lates' =
    (k : ℕ) (m : Member) (head late : ℕ)
    → get_elem? ms k ≡ some m
    → get_elem? heads k ≡ some head
    → get_elem? lates k ≡ some late
    → (get_elem? heads' k ≡ some m.head)
      × (m.head ≡ head → get_elem? lates' k ≡ some late)
      × (m.head ≢ head → get_elem? lates' k ≡ some (due - m.head))

follows_cons :
    (due : ℕ) (m : Member) (ms : List Member) (s l s' l' : ℕ) (ss ls ss' ls' : List ℕ)
    → s' ≡ m.head
    → (m.head ≡ s → l' ≡ l)
    → (m.head ≢ s → l' ≡ due - m.head)
    → Follows due ms ss ls ss' ls'
    → Follows due (m ∷ ms) (s ∷ ss) (l ∷ ls) (s' ∷ ss') (l' ∷ ls')
follows_cons due m ms s l s' l' ss ls ss' ls' a b c h zero n head late g gs gl =
    let is : m ≡ n = ground (arith, g) in
    let was : s ≡ head = ground (arith, gs) in
    let kept : l ≡ late = ground (arith, gl) in
    (
      ap some (a ∙ ap (λ x. x.head) is),
      λ q. ap some (b (ap (λ x. x.head) is ∙ q ∙ sym was) ∙ kept),
      λ q. ap some (c (λ e. q (sym (ap (λ x. x.head) is) ∙ e ∙ was)) ∙ ap (λ x. due - x.head) is),
    )
follows_cons due m ms s l s' l' ss ls ss' ls' a b c h (suc k) n head late g gs gl =
    h k n head late g gs gl

pub track-total :
    (due : ℕ) (ms : List Member) (ss ls : List ℕ)
    → length ss ≡ length ms
    → length ls ≡ length ms
    → (ss' : List ℕ) × (ls' : List ℕ) × (track due ms ss ls ≡ some (ss', ls'))
      × (length ss' ≡ length ms)
      × (length ls' ≡ length ms)
      × Follows due ms ss ls ss' ls'
unfolding track
track-total due [] ss ls h k =
    (ss, ls, refl, h, k, λ j m head late g gs gl. absurd (ground (arith, g)))
track-total due (m ∷ ms) (s ∷ ss) (l ∷ ls) h k =
    let (ss', ls', e, h', k', f) = track-total due ms ss ls (omega arith) (omega arith) in
    elim (Bool-cases (m.head == s)) [
      | inl q ↦
          let same : m.head ≡ s = (==_iff m.head s).0 q in
          (
            s ∷ ss',
            l ∷ ls',
            ground arith,
            omega arith,
            omega arith,
            follows_cons due m ms s l s l ss ls ss' ls' (sym same) (λ x. refl)
                (λ ne. absurd (ne same)) f,
          )
      | inr q ↦ (
        m.head ∷ ss',
        (due - min due m.head) ∷ ls',
        ground arith,
        omega arith,
        omega arith,
        follows_cons due m ms s l m.head (due - min due m.head) ss ls ss' ls' refl
            (λ x. absurd (ground (arith, q, (==_iff m.head s).1 x))) (λ ne. omega arith) f,
      )
    ]
track-total due (m ∷ ms) [] ls h k = absurd (omega arith)
track-total due (m ∷ ms) (s ∷ ss) [] h k = absurd (omega arith)

pub highest-ge : (ns : List ℕ) (reach : ℕ) → reach ≤ highest ns reach
unfolding highest
highest-ge [] reach = omega arith
highest-ge (n ∷ ns) reach = omega (arith, highest-ge ns (max reach n))

pub le-highest :
    (ns : List ℕ) (reach k : ℕ) {n : ℕ} → get_elem? ns k ≡ some n → n ≤ highest ns reach
unfolding highest
le-highest [] reach k h = absurd (ground arith)
le-highest (n ∷ ns) reach zero h = ground (arith, highest-ge ns (max reach n))
le-highest (n ∷ ns) reach (suc k) h = le-highest ns (max reach n) k h

pub nexts-get :
    (due : ℕ) (ms : List Member) (ls : List ℕ) (k : ℕ) {m : Member} {l : ℕ}
    → get_elem? ms k ≡ some m
    → get_elem? ls k ≡ some l
    → get_elem? (nexts due ms ls) k ≡ some (max (u64 (m.head + 1)) (due - min due l))
unfolding nexts
nexts-get due [] ls k h g = absurd (ground arith)
nexts-get due (m ∷ ms) [] k h g = absurd (ground arith)
nexts-get due (m ∷ ms) (l ∷ ls) zero h g = ground arith
nexts-get due (m ∷ ms) (l ∷ ls) (suc k) h g = nexts-get due ms ls k h g

pub length-nexts :
    (due : ℕ) (ms : List Member) (ls : List ℕ)
    → length ls ≡ length ms
    → length (nexts due ms ls) ≡ length ms
unfolding nexts
length-nexts due [] ls h = refl
length-nexts due (m ∷ ms) [] h = absurd (omega arith)
length-nexts due (m ∷ ms) (l ∷ ls) h = ap suc (length-nexts due ms ls (omega arith))

pub first_member-some :
    (test : ℕ → Member → Bool) (j : ℕ) (ms : List Member) {m : ℕ}
    → first_member test j ms ≡ some m
    → (k : ℕ) × (mb : Member) × (m ≡ j + k) × (get_elem? ms k ≡ some mb) × (test m mb ≡ true)
unfolding first_member
first_member-some test j [] h = absurd (ground arith)
first_member-some test j (mb ∷ ms) {m} h = elim (Bool-cases (test j mb)) [
  | inl y ↦ (0, mb, ground arith, refl, subst (λ x. test x mb ≡ true) (ground arith) y)
  | inr n ↦
      let (k, mb', e, g, t) = first_member-some test (suc j) ms {m = m} (ground arith) in
      (suc k, mb', omega arith, g, t)
]

-- What reading the members' heads changes: what was seen of them, and nothing else.
pub record Refreshed (n : ℕ) (d e : DiscretePolicy) : Type 0 where
  pub config : SameConfig d e
  pub head : e.head ≡ d.head
  pub current : e.current ≡ d.current
  pub primary : e.primary ≡ d.primary
  pub seen : length e.seen ≡ n
  pub late : length e.late ≡ n

-- What the policy then remembers of the members: with another number of members it forgets the
-- ones before, as if each had been at 0.
pub record IsTracked (d : DiscretePolicy) (ms : List Member) (due : ℕ) (e : DiscretePolicy)
    : Type 0 where
  pub known : length d.seen ≡ length ms → Follows due ms d.seen d.late e.seen e.late
  pub forgotten :
      length d.seen ≢ length ms
      → Follows due ms (replicate (length ms) 0) (replicate (length ms) 0) e.seen e.late

pub refresh-total :
    (d : DiscretePolicy) (ms : List Member) (due : ℕ)
    → length d.late ≡ length d.seen
    → (e : DiscretePolicy) × (refresh d ms due ≡ some e)
      × Refreshed (length ms) d e
      × IsTracked d ms due e
unfolding refresh
refresh-total d ms due h = elim (Bool-cases (length d.seen == length ms)) [
  | inl q ↦
      let (ss, ls, e, h', k', f) = track-total due ms d.seen d.late (ground arith) (ground arith) in
      (
        record d { seen = ss; late = ls },
        ground arith,
        ground arith,
        record {
          known = λ x. f;
          forgotten = λ ne. absurd (ne ((==_iff (length d.seen) (length ms)).0 q));
        },
      )
  | inr q ↦
      let (ss, ls, e, h', k', f) =
        track-total due ms (replicate (length ms) 0) (replicate (length ms) 0)
          (length-replicate (length ms) 0) (length-replicate (length ms) 0) in
      (
        record d { seen = ss; late = ls },
        ground arith,
        ground arith,
        record {
          known = λ x. absurd (ground (arith, q, (==_iff (length d.seen) (length ms)).1 x));
          forgotten = λ ne. f;
        },
      )
]

below-some :
    (ns : List ℕ) (m limit : ℕ)
    → below ns m limit ≡ true
    → (n : ℕ) × (get_elem? ns m ≡ some n) × (n < limit)
unfolding below
below-some ns m limit h = ground arith

-- The slot of `i` moves to the placeholder, or to a member that holds `i` and writes below it.
pub successor-source :
    (d : DiscretePolicy) (ms : List Member) (ns : List ℕ) (cur i : ℕ)
    → (successor d ms ns cur i ≡ d.placeholder)
      ⊎ ((mb : Member) × (n : ℕ) × (get_elem? ms (successor d ms ns cur i) ≡ some mb)
          × (serves d mb i ≡ true)
          × (get_elem? ns (successor d ms ns cur i) ≡ some n)
          × (n < u64 (i + d.grains)))
unfolding successor
successor-source d ms ns cur i =
    elim (Option-cases (
      first_member (λ m mb. not (m == cur) && (serves d mb i && below ns m (u64 (i + d.grains)))) 0
        ms)) [
          | inl e ↦ inl (rw (e, successor) refl)
          | inr (m, e) ↦
              let (k, mb, same, g, t) =
                first_member-some
                  (λ m mb. not (m == cur) && (serves d mb i && below ns m (u64 (i + d.grains)))) 0
                  ms {m = m} e in
              let (n, h, l) = below-some ns m (u64 (i + d.grains)) (ground arith) in
              inr (
                mb,
                n,
                rw (e, successor) (rw (same, zero-add) g),
                ground arith,
                rw (e, successor) h,
                l,
              )
        ]
