-- ===== src/Merge/Discrete/Retire/Safe.antt =====
-- After `Retire` no slot that readers trust shows a member that may write over its grain.
use mxl_k8s.Base.{
  ℕ, ◌+◌, ◌%◌, ◌^◌, ◌<◌, ◌≡◌, ◌≢◌, refl, ◌∙◌, ◌⊎◌, inl, inr, false, some, List, [], ◌∷◌, arith,
  All-set, All-get_elem?, length, get_elem?, set, length-set, get_elem?_of_lt, get_elem?-set_self,
  get_elem?-set_ne, Bool-cases, ltb, ltb→lt, ◌==◌, ==_iff, lt_of_At, At-of_get_elem?,
}
use mxl_k8s.Base.Words.{u64}
use mxl_k8s.Merge.Discrete.{Member, DiscretePolicy, Select}
use mxl_k8s.Merge.Discrete.Scan.{Serves}
use mxl_k8s.Merge.Discrete.Turn.{SameConfig, SameConfig-refl}
use mxl_k8s.Merge.Discrete.Run.{IsReady}
use mxl_k8s.Merge.Discrete.Replay.{replay}
use mxl_k8s.Merge.Discrete.Retire.{retire_index, successor}
use mxl_k8s.Merge.Discrete.Retire.Members.{successor-source}

-- The state after the slots of some indices moved: only sources changed.
pub record Moved (d e : DiscretePolicy) (s : List Select) : Type 0 where
  pub config : SameConfig d e
  pub head : e.head ≡ d.head
  pub primary : e.primary ≡ d.primary
  pub seen : e.seen ≡ d.seen
  pub late : e.late ≡ d.late
  pub replays : replay s d.current ≡ e.current

module _ (ms : List Member) (ns : List ℕ) where
  -- Slot `i` shows a source that writes nothing over index `i` before the next pass.
  pub record IsKept (d e : DiscretePolicy) (i : ℕ) : Type 0 where
    pub source : ℕ
    pub shows : get_elem? e.current (i % d.grains) ≡ some source
    pub quiet :
        (source ≡ d.placeholder) ⊎ ((n : ℕ) × (get_elem? ns source ≡ some n) × (n < i + d.grains))
    pub origin :
        (get_elem? d.current (i % d.grains) ≡ some source)
        ⊎ (source ≡ d.placeholder)
        ⊎ Serves d i ms source

  -- One turn of the loop, at index `i`.
  pub record Turned (d e : DiscretePolicy) (s : List Select) (i : ℕ) : Type 0 where
    pub moved : Moved d e s
    pub ready : IsReady (length ms) e
    pub kept : IsKept d e i
    pub others : (j : ℕ) → i % d.grains ≢ j → get_elem? e.current j ≡ get_elem? d.current j

  -- A slot that stays.
  stays-Turned :
      (d : DiscretePolicy) (i cur : ℕ)
      → IsReady (length ms) d
      → get_elem? d.current (i % d.grains) ≡ some cur
      → (cur ≡ d.placeholder) ⊎ ((n : ℕ) × (get_elem? ns cur ≡ some n) × (n < i + d.grains))
      → Turned d d [] i
  stays-Turned d i cur h g quiet = record {
    moved = record {
      config = SameConfig-refl d;
      head = refl;
      primary = refl;
      seen = refl;
      late = refl;
      replays = refl;
    };
    ready = h;
    kept = record { source = cur; shows = g; quiet = quiet; origin = inl g };
    others = λ j ne. refl;
  }

  -- A slot that moves to `to`.
  abbrev moves : DiscretePolicy → ℕ → ℕ → DiscretePolicy
  moves d i to = record d { current = set d.current (i % d.grains) to }

  abbrev select_of : DiscretePolicy → ℕ → ℕ → List Select
  select_of d i to = record { slot = i % d.grains; source = to; index = i } ∷ []

  moves-IsReady :
      (d : DiscretePolicy) (i to : ℕ)
      → IsReady (length ms) d
      → (to < length ms) ⊎ (to ≡ d.placeholder)
      → IsReady (length ms) (moves d i to)
  moves-IsReady d i to h w = record {
    peopled = h.peopled;
    deep = h.deep;
    ring = length-set d.current (i % d.grains) to ∙ h.ring;
    members = h.members;
    primary = h.primary;
    sources = All-set _ d.current (i % d.grains) to h.sources w;
  }

  moves-Turned :
      (d : DiscretePolicy) (i to : ℕ)
      → IsReady (length ms) d
      → (to ≡ d.placeholder)
        ⊎ (Serves d i ms to × ((n : ℕ) × (get_elem? ns to ≡ some n) × (n < i + d.grains)))
      → Turned d (moves d i to) (select_of d i to) i
  moves-Turned d i to h quiet = record {
    moved = record {
      config = ground arith;
      head = refl;
      primary = refl;
      seen = refl;
      late = refl;
      replays = refl;
    };
    ready =
        moves-IsReady d i to h (elim quiet [ inl e ↦ inr e | inr s ↦ inl (lt_of_At _ ms to s.0) ]);
    kept = record {
      source = to;
      shows = get_elem?-set_self d.current (i % d.grains) to (omega (arith, h.ring, h.deep));
      quiet = elim quiet [ inl e ↦ inl e | inr s ↦ inr s.1 ];
      origin = inr (elim quiet [ inl e ↦ inl e | inr s ↦ inr s.0 ]);
    };
    others = λ j ne. get_elem?-set_ne d.current to ne;
  }

  -- The turn of the code at `i`, where the slot shows `cur`.
  abbrev pub Turns : DiscretePolicy → ℕ → Type 0
  Turns d i =
      (e : DiscretePolicy) × (s : List Select) × (retire_index d ms ns i ≡ some (e, s))
      × Turned d e s i

  retire_index-member :
      (d : DiscretePolicy) (i cur n : ℕ)
      → IsReady (length ms) d
      → i + d.grains < 2 ^ 64
      → get_elem? d.current (i % d.grains) ≡ some cur
      → (cur == d.placeholder) ≡ false
      → get_elem? ns cur ≡ some n
      → Turns d i
  unfolding retire_index
  retire_index-member d i cur n h fits g ne gn = elim (Bool-cases (ltb n (u64 (i + d.grains)))) [
    | inl y ↦
        (d, [], ground arith, stays-Turned d i cur h g (inr (n, gn, omega (arith, ltb→lt _ _ y))))
    | inr y ↦
        let to : ℕ = successor d ms ns cur i in
        (
          moves d i to,
          select_of d i to,
          ground arith,
          moves-Turned d i to h (elim (successor-source d ms ns cur i) [
            | inl e ↦ inl e
            | inr (mb, m, gm, sv, gn', l) ↦
                inr (At-of_get_elem? _ ms to gm sv, (m, gn', omega arith))
          ]),
        )
  ]

  pub source-lt :
      (d : DiscretePolicy) (i cur : ℕ)
      → IsReady (length ms) d
      → length ns ≡ length ms
      → get_elem? d.current (i % d.grains) ≡ some cur
      → (cur == d.placeholder) ≡ false
      → cur < length ns
  source-lt d i cur h same g q = elim (All-get_elem? _ d.current (i % d.grains) h.sources g) [
    | inl l ↦ omega arith
    | inr e ↦ absurd (ground arith)
  ]

  pub retire_index-Turned :
      (d : DiscretePolicy) (i cur : ℕ)
      → IsReady (length ms) d
      → length ns ≡ length ms
      → i + d.grains < 2 ^ 64
      → get_elem? d.current (i % d.grains) ≡ some cur
      → Turns d i
  unfolding retire_index
  retire_index-Turned d i cur h same fits g = elim (Bool-cases (cur == d.placeholder)) [
    | inl q ↦ (d, [], ground arith, stays-Turned d i cur h g (inl ((==_iff _ _).0 q)))
    | inr q ↦
        let (n, gn) = get_elem?_of_lt ns cur (source-lt d i cur h same g q) in
        retire_index-member d i cur n h fits g q gn
  ]
