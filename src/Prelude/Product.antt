-- ===== src/Prelude/Product.antt =====
-- Products of signed integers.
use Prim.Native.Nat.{ℕ, ◌+◌, ◌*◌, ◌≤◌}
use mathlib.Core.Path.{◌≡◌, sym, ap, ◌∙◌}
use native.Mathlib.Nat.{eq_of_mul-eq-mul_right}
use native.Mathlib.Omega.{arith}
use erp_ai_private.Prelude.Int.{ℤ, pos, pos_part, neg_part, ◌+ℤ◌, ◌-ℤ◌, +ℤ_parts, int_laws}

infixl 70 ◌*ℤ◌
unfoldable pub ◌*ℤ◌ : ℤ → ℤ → ℤ
a *ℤ b =
    pos (pos_part a * pos_part b + neg_part a * neg_part b)
    -ℤ pos (pos_part a * neg_part b + neg_part a * pos_part b)

times : (p q x y r : ℕ) → p + y ≡ q + x → p * r + y * r ≡ q * r + x * r
times p q x y r h = let scaled = ap (λ t. t * r) h in omega arith

pub *ℤ-add : (a b r : ℤ) → (a +ℤ b) *ℤ r ≡ a *ℤ r +ℤ b *ℤ r
unfolding ◌*ℤ◌
*ℤ-add a b r =
    let parts = +ℤ_parts a b in
    let up = times _ _ _ _ (pos_part r) parts in
    let down = times _ _ _ _ (neg_part r) parts in grind int_laws

back : (a b : ℤ) → a -ℤ b +ℤ b ≡ a
back a b = grind int_laws

difference : (x y z : ℤ) → x ≡ z +ℤ y → z ≡ x -ℤ y
difference x y z h = grind int_laws

pub *ℤ-sub : (a b r : ℤ) → (a -ℤ b) *ℤ r ≡ a *ℤ r -ℤ b *ℤ r
*ℤ-sub a b r =
    difference (a *ℤ r) (b *ℤ r) ((a -ℤ b) *ℤ r)
      (ap (λ x. x *ℤ r) (sym (back a b)) ∙ *ℤ-add (a -ℤ b) b r)

pub *ℤ-zero : (r : ℤ) → pos 0 *ℤ r ≡ pos 0
unfolding ◌*ℤ◌
*ℤ-zero r = grind int_laws

pub *ℤ-cancel : (a : ℤ) (s : ℕ) → 1 ≤ s → a *ℤ pos s ≡ pos 0 → a ≡ pos 0
unfolding ◌*ℤ◌
*ℤ-cancel a s h e =
    let same : pos_part a * s ≡ neg_part a * s = grind int_laws in
    let parts = eq_of_mul-eq-mul_right s h (pos_part a) (neg_part a) same in grind int_laws
