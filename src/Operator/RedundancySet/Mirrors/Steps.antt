-- ===== src/Operator/RedundancySet/Mirrors/Steps.antt =====
-- One call of `ensureMirror`.
use mathlib.Core.Path.{subst}
use mxl_k8s.Base.{
  ℕ, ◌≡◌, ◌≢◌, refl, sym, ap, ◌∙◌, inl, inr, Bool, true, false, ◌&&◌, Option, none, some, String,
  arith, same_bytes, same_bytes_iff, Bool-cases, Option-cases, if◌then◌else◌,
}
use mxl_k8s.Base.Texts.{same_text, same_text_iff}
use mxl_k8s.Api.Names.{Bytes, FlowRef, mirror_name_for}
use mxl_k8s.Api.Selection.{Status, resolve}
use mxl_k8s.Operator.RedundancySet.{Fetched, fetched, missing, failed, FlowMirror, Mirrors}
use mxl_k8s.Operator.RedundancySet.Mirrors.{
  Calls, status_of, provider_between, put_mirror, patch, create, ensure_mirror,
}

-- A `Get` answers what the server holds.
abbrev pub answer : Option FlowMirror → Fetched FlowMirror
answer none = missing
answer (some m) = fetched m

abbrev pub IsCurrent : Calls → Type 0
IsCurrent c = (name : Bytes) (held : Option FlowMirror) → c.get_mirror name held ≡ answer held

-- No call fails.
pub record IsUp (c : Calls) : Type 0 where
  pub reads : (node : Bytes) → c.capabilities node ≢ failed
  pub patches : (name : Bytes) → c.patches name ≡ true
  pub creates : (name : Bytes) → c.creates name ≡ true

module _ (lower : ℕ → ℕ) (c : Calls) (ref : FlowRef) (source target : Bytes) where
  -- The mirror of the flow to the target is from the source, over the provider that the two share.
  abbrev pub IsMirrored : Mirrors → Type 0
  IsMirrored mirrors =
      (m : FlowMirror) × (mirrors (mirror_name_for lower ref target) ≡ some m)
      × (m.source_node ≡ source)
      × (provider_between c source target ≡ some m.provider)

  -- What the server holds under the mirror's name is of the flow and to the target.
  abbrev pub IsNamed : Mirrors → Type 0
  IsNamed mirrors =
      (m : FlowMirror)
      → mirrors (mirror_name_for lower ref target) ≡ some m
      → (m.ref ≡ ref) × (m.target_node ≡ target)

  -- What the call does, whatever it answers.
  pub record Ensured (mirrors out : Mirrors) (ok : Bool) : Type 0 where
    pub others : (n : Bytes) → n ≢ mirror_name_for lower ref target → out n ≡ mirrors n
    pub now : ok ≡ true → IsMirrored out
    pub named : IsNamed mirrors → IsNamed out
    pub stays : IsMirrored mirrors → out ≡ mirrors
    pub up : IsUp c → ok ≡ true

  provider_up : IsUp c → (p : String) × (provider_between c source target ≡ some p)
  unfolding provider_between status_of
  provider_up up =
      let (src, q) = status (c.capabilities source) (up.reads source) in
      let (tgt, q') = status (c.capabilities target) (up.reads target) in
      ((resolve src tgt).0, rw (provider_between, q, q') refl)
    where
      status : (f : Fetched Status) → f ≢ failed → (s : Status) × (status_of f ≡ some s)
      status (fetched s) h = (s, refl)
      status missing h = (_, refl)
      status failed h = absurd (h refl)

  put_mirror_self :
      (mirrors : Mirrors) (name : Bytes) (m : FlowMirror) → put_mirror mirrors name m name ≡ some m
  put_mirror_self mirrors name m = rw ((same_bytes_iff name name).1 refl) refl

  put_mirror_ne :
      (mirrors : Mirrors) (name n : Bytes) (m : FlowMirror)
      → n ≢ name
      → put_mirror mirrors name m n ≡ mirrors n
  put_mirror_ne mirrors name n m h = elim (Bool-cases (same_bytes n name)) [
    | inl q ↦ absurd (h ((same_bytes_iff n name).0 q))
    | inr q ↦ rw q refl
  ]

  -- The call leaves the mirrors.
  unchanged :
      (mirrors : Mirrors) (ok : Bool)
      → (ok ≡ true → IsMirrored mirrors)
      → (IsUp c → ok ≡ true)
      → Ensured mirrors mirrors ok
  unchanged mirrors ok now up = record {
    others = λ n h. refl;
    now = now;
    named = λ h. h;
    stays = λ h. refl;
    up = up;
  }

  -- The call writes the mirror.
  written :
      (mirrors : Mirrors) (m : FlowMirror)
      → m.source_node ≡ source
      → provider_between c source target ≡ some m.provider
      → (IsNamed mirrors → (m.ref ≡ ref) × (m.target_node ≡ target))
      → ¬ IsMirrored mirrors
      → Ensured mirrors (put_mirror mirrors (mirror_name_for lower ref target) m) true
  written mirrors m s p k new =
      let name = mirror_name_for lower ref target in
      let here : IsMirrored (put_mirror mirrors name m) =
        (m, put_mirror_self mirrors name m, s, p) in
      record {
        others = λ n h. put_mirror_ne mirrors name n m h;
        now = λ t. here;
        named = λ h n e.
            let same : m ≡ n = ground (arith, sym (put_mirror_self mirrors name m) ∙ e) in
            subst (λ x. (x.ref ≡ ref) × (x.target_node ≡ target)) same (k h);
        stays = λ h. absurd (new h);
        up = λ h. refl;
      }

  created :
      (mirrors : Mirrors) (p : String)
      → provider_between c source target ≡ some p
      → mirrors (mirror_name_for lower ref target) ≡ none
      → c.get_mirror (mirror_name_for lower ref target) (mirrors (mirror_name_for lower ref target))
        ≡ missing
      → Ensured mirrors
          (ensure_mirror lower c ref source target mirrors).0
          (ensure_mirror lower c ref source target mirrors).1
  unfolding ensure_mirror create
  created mirrors p q n r = elim (Bool-cases (c.creates (mirror_name_for lower ref target))) [
    | inl t ↦
        rw (ensure_mirror, create, q, r, n, t)
          (written mirrors _ refl q (λ h. (refl, refl)) (λ h. absurd (ground (arith, sym n ∙ h.1))))
    | inr t ↦
        rw (ensure_mirror, create, q, r, n, t)
          (unchanged mirrors false (λ x. absurd (ground (arith, x)))
            (λ up. absurd (ground (arith, t, up.creates (mirror_name_for lower ref target)))))
  ]

  patched :
      (mirrors : Mirrors) (p : String) (m : FlowMirror)
      → provider_between c source target ≡ some p
      → mirrors (mirror_name_for lower ref target) ≡ some m
      → c.get_mirror (mirror_name_for lower ref target) (mirrors (mirror_name_for lower ref target))
        ≡ fetched m
      → Ensured mirrors
          (ensure_mirror lower c ref source target mirrors).0
          (ensure_mirror lower c ref source target mirrors).1
  unfolding ensure_mirror patch
  patched mirrors p m q n r =
      elim (Bool-cases (same_bytes m.source_node source && same_text m.provider p)) [
        | inl t ↦
            rw (ensure_mirror, q, r, t)
              (unchanged mirrors true
                (λ x. (
                  m,
                  n,
                  (same_bytes_iff m.source_node source).0 (ground (arith, t)),
                  q ∙ ap some (sym ((same_text_iff m.provider p).0 (ground (arith, t)))),
                ))
                (λ up. refl))
        | inr t ↦ elim (Bool-cases (c.patches (mirror_name_for lower ref target))) [
          | inr w ↦
              rw (ensure_mirror, patch, q, r, t, n, w)
                (unchanged mirrors false (λ x. absurd (ground (arith, x)))
                  (λ up. absurd (ground (arith, w, up.patches (mirror_name_for lower ref target)))))
          | inl w ↦
              rw (ensure_mirror, patch, q, r, t, n, w)
                (written mirrors _ (kept_bytes m.source_node)
                  (q ∙ ap some (sym (kept_text m.provider p))) (λ h. h m n)
                  (λ h. absurd (ground (arith, t, matches h))))
        ]
      ]
    where
      matches :
          IsMirrored mirrors → (same_bytes m.source_node source && same_text m.provider p) ≡ true
      matches (x, e, s, r) =
          let same : m ≡ x = ground (arith, sym n ∙ e) in
          let provider : p ≡ x.provider = ground (arith, sym q ∙ r) in
          rw
            (
              (same_bytes_iff m.source_node source).1 (ap (λ y. y.source_node) same ∙ s),
              (same_text_iff m.provider p).1 (ap (λ y. y.provider) same ∙ sym provider),
            )
            refl

      kept_bytes : (s : Bytes) → (if same_bytes s source then s else source) ≡ source
      kept_bytes s = elim (Bool-cases (same_bytes s source)) [
        | inl q ↦ rw q ((same_bytes_iff s source).0 q)
        | inr q ↦ rw q refl
      ]

      kept_text : (s t : String) → (if same_text s t then s else t) ≡ t
      kept_text s t = elim (Bool-cases (same_text s t)) [
        | inl q ↦ rw q ((same_text_iff s t).0 q)
        | inr q ↦ rw q refl
      ]

  pub ensure_mirror-Ensured :
      (mirrors : Mirrors)
      → IsCurrent c
      → Ensured mirrors
          (ensure_mirror lower c ref source target mirrors).0
          (ensure_mirror lower c ref source target mirrors).1
  unfolding ensure_mirror
  ensure_mirror-Ensured mirrors current =
      let name = mirror_name_for lower ref target in
      elim (Option-cases (provider_between c source target)) [
        | inl q ↦
            rw (ensure_mirror, q)
              (unchanged mirrors false (λ x. absurd (ground (arith, x)))
                (λ up. let (p, e) = provider_up up in absurd (ground (arith, q, e))))
        | inr (p, q) ↦ elim (Option-cases (mirrors name)) [
          | inl n ↦ created mirrors p q n (current name (mirrors name) ∙ ap answer n)
          | inr (m, n) ↦ patched mirrors p m q n (current name (mirrors name) ∙ ap answer n)
        ]
      ]
