-- ===== src/Base/Mod.antt =====
-- Places of a ring: two indices less than one ring apart have different places.
use Prim.Native.Nat.{ℕ, zero, suc, ◌+◌, ◌-◌, ◌*◌, ◌/◌, ◌%◌, ◌≤◌, ◌<◌}
use mathlib.Core.Path.{◌≡◌, ap, ◌∙◌, subst}
use mathlib.Core.Logic.{◌≢◌}
use native.Mathlib.Nat.{div-add-mod, mod-lt, mod-eq_of_lt, add-mod_right, mul-add-mod_self_left}
use native.Mathlib.Decide.{dec_lt}
use native.Mathlib.Omega.{arith}

pub mod-ne : (g i j : ℕ) → 0 < g → i < j → j < i + g → i % g ≢ j % g
mod-ne g i j h a b e = grind (arith, div-add-mod, mod-lt)

back_near : (r g slot : ℕ) → r < g → slot ≤ r → (r + g - slot) % g ≡ r - slot
back_near r g slot h k =
    ap (λ x. x % g) {x = r + g - slot} {y = r - slot + g} (omega arith)
    ∙ add-mod_right (r - slot) g
    ∙ mod-eq_of_lt (omega arith)

back_far : (r g slot : ℕ) → r < g → r < slot → slot < g → (r + g - slot) % g ≡ r + g - slot
back_far r g slot h k l = mod-eq_of_lt (omega arith)

at_place : (g q slot i : ℕ) → slot < g → i ≡ g * q + slot → i % g ≡ slot
at_place g q slot i l e = rw e (mul-add-mod_self_left g q slot ∙ mod-eq_of_lt l)

place_back :
    (g q r slot : ℕ)
    → slot < g
    → r < g
    → (r + g - slot) % g ≤ g * q + r
    → (g * q + r - (r + g - slot) % g) % g ≡ slot
place_back g q r slot l h b = elim (dec_lt r slot) [
  | no near ↦
      at_place g q slot (g * q + r - (r + g - slot) % g) l
        (omega (arith, back_near r g slot h (omega arith)))
  | yes far ↦ far_back far q (rw (← back_far r g slot h far l) b)
]
  where
    far_back :
        r < slot → (q : ℕ) → r + g - slot ≤ g * q + r → (g * q + r - (r + g - slot) % g) % g ≡ slot
    far_back far zero b = absurd (omega arith)
    far_back far (suc q) b =
        at_place g q slot (g * suc q + r - (r + g - slot) % g) l
          (omega (arith, back_far r g slot h far l))

-- The index at a place of the ring, as far below `h` as the place is, has that place.
pub sub-back-mod :
    (h g slot : ℕ) → slot < g → (h % g + g - slot) % g ≤ h → (h - (h % g + g - slot) % g) % g ≡ slot
sub-back-mod h g slot l b =
    subst (λ x. (x - (h % g + g - slot) % g) % g ≡ slot) (div-add-mod h g)
      (place_back g (h / g) (h % g) slot l (mod-lt h (omega arith))
        (omega (arith, div-add-mod h g)))
