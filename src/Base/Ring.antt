-- ===== src/Base/Ring.antt =====
-- Products of signed integers: their laws and their magnitudes.
use Prim.Native.Nat.{◌+◌, ◌*◌, ◌≤◌}
use mathlib.Core.Path.{◌≡◌, ap}
use native.Mathlib.Omega.{arith}
use denaria_perp_arbitrum.Base.Int.{
  ℤ, pos, negsuc, pos_part, neg_part, abs_ℕ, neg_ℤ, ◌+ℤ◌, ◌-ℤ◌, ◌*ℤ◌, +ℤ_parts, -ℤ_parts, *ℤ_parts,
  eq_of_parts,
}

pub *ℤ_comm : (a b : ℤ) → a *ℤ b ≡ b *ℤ a
*ℤ_comm a b = eq_of_parts _ _ (omega (arith, *ℤ_parts a b, *ℤ_parts b a))

pub *ℤ_sub : (a x y : ℤ) → a *ℤ (x -ℤ y) ≡ a *ℤ x -ℤ a *ℤ y
*ℤ_sub a x y =
    let e = -ℤ_parts x y in
    eq_of_parts _ _ (
      omega (
        arith,
        *ℤ_parts a (x -ℤ y),
        *ℤ_parts a x,
        *ℤ_parts a y,
        -ℤ_parts (a *ℤ x) (a *ℤ y),
        ap (λ t. pos_part a * t) e,
        ap (λ t. neg_part a * t) e,
      ))

pub *ℤ_add : (a x y : ℤ) → a *ℤ (x +ℤ y) ≡ a *ℤ x +ℤ a *ℤ y
*ℤ_add a x y =
    let e = +ℤ_parts x y in
    eq_of_parts _ _ (
      omega (
        arith,
        *ℤ_parts a (x +ℤ y),
        *ℤ_parts a x,
        *ℤ_parts a y,
        +ℤ_parts (a *ℤ x) (a *ℤ y),
        ap (λ t. pos_part a * t) e,
        ap (λ t. neg_part a * t) e,
      ))

pub *ℤ_assoc : (a b c : ℤ) → a *ℤ (b *ℤ c) ≡ a *ℤ b *ℤ c
*ℤ_assoc a b c =
    let e = *ℤ_parts b c in
    let f = *ℤ_parts a b in
    eq_of_parts _ _ (
      omega (
        arith,
        *ℤ_parts a (b *ℤ c),
        *ℤ_parts (a *ℤ b) c,
        ap (λ t. pos_part a * t) e,
        ap (λ t. neg_part a * t) e,
        ap (λ t. t * pos_part c) f,
        ap (λ t. t * neg_part c) f,
      ))

pub abs-*ℤ : (a b : ℤ) → abs_ℕ (a *ℤ b) ≡ abs_ℕ a * abs_ℕ b
unfolding ◌*ℤ◌
abs-*ℤ (pos a) (pos b) = ground arith
abs-*ℤ (pos a) (negsuc b) = ground arith
abs-*ℤ (negsuc a) (pos b) = ground arith
abs-*ℤ (negsuc a) (negsuc b) = ground arith

pub abs-+ℤ : (a b : ℤ) → abs_ℕ (a +ℤ b) ≤ abs_ℕ a + abs_ℕ b
unfolding ◌+ℤ◌
abs-+ℤ a b = ground arith

pub abs--ℤ : (a b : ℤ) → abs_ℕ (a -ℤ b) ≤ abs_ℕ a + abs_ℕ b
unfolding ◌-ℤ◌
abs--ℤ a b = ground arith

pub abs-neg_ℤ : (a : ℤ) → abs_ℕ (neg_ℤ a) ≡ abs_ℕ a
abs-neg_ℤ a = ground arith

pub neg_ℤ_parts : (a : ℤ) → pos_part (neg_ℤ a) + pos_part a ≡ neg_part (neg_ℤ a) + neg_part a
neg_ℤ_parts a = ground arith

pub *ℤ_neg : (a b : ℤ) → a *ℤ neg_ℤ b ≡ neg_ℤ (a *ℤ b)
*ℤ_neg a b =
    let e = neg_ℤ_parts b in
    eq_of_parts _ _ (
      omega (
        arith,
        *ℤ_parts a (neg_ℤ b),
        *ℤ_parts a b,
        neg_ℤ_parts (a *ℤ b),
        ap (λ t. pos_part a * t) e,
        ap (λ t. neg_part a * t) e,
      ))
