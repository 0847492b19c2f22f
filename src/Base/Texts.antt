-- ===== src/Base/Texts.antt =====
-- Whole texts, compared for equality and in order.
use text.Mathlib.Text.{◌==◌}
use text.Mathlib.TextEquality.{eq_iff}
use Prim.Native.String.{String}
use mathlib.Core.Path.{◌≡◌, refl, sym}
use mathlib.Core.Logic.{◌↔◌}
use mathlib.Core.Bool.{Bool, true, false}
use mathlib.Core.List.{List, [], ◌∷◌}
use mxl_k8s.Base.Tests.{if◌then◌else◌}

abbrev pub same_text : String → String → Bool
same_text s t = s == t

pub same_text_iff : (s t : String) → (same_text s t ≡ true) ↔ (s ≡ t)
same_text_iff s t = eq_iff s t

-- `slices.Contains` on texts
abbrev pub contains_text : List String → String → Bool
contains_text [] s = false
contains_text (t ∷ ts) s = if same_text t s then true else contains_text ts s

pub same_text_comm : (s t : String) → same_text s t ≡ same_text t s
same_text_comm s t =
    both (same_text s t) (same_text t s) (λ p. (eq_iff t s).1 (sym ((eq_iff s t).0 p)))
      (λ p. (eq_iff s t).1 (sym ((eq_iff t s).0 p)))
  where
    both : (a b : Bool) → (a ≡ true → b ≡ true) → (b ≡ true → a ≡ true) → a ≡ b
    both true b f g = sym (f refl)
    both false true f g = g refl
    both false false f g = refl
