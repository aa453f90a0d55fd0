-- ===== src/CurveMath/Matrix/Cofactors.antt =====
-- The adjugate of a matrix of src/rust/CurveMath.rs, over the integers.
use denaria_perp_arbitrum.Base.{
  ◌≡◌, refl, arith, ℤ, neg_ℤ, ◌+ℤ◌, ◌-ℤ◌, ◌*ℤ◌, eq_of_parts, +ℤ_parts, -ℤ_parts, *ℤ_neg,
  neg_ℤ_parts, *ℤ_comm, *ℤ_add, *ℤ_sub, *ℤ_assoc,
}
use denaria_perp_arbitrum.CurveMath.Matrix.{Matrix}

abbrev pub determinant : Matrix → ℤ
determinant m = m.m00 *ℤ m.m11 -ℤ m.m10 *ℤ m.m01

cross : (c d p : ℤ) → d *ℤ (neg_ℤ c *ℤ p) ≡ neg_ℤ (c *ℤ d *ℤ p)
cross c d p =
    rw
      (
        *ℤ_assoc d (neg_ℤ c) p,
        *ℤ_neg d c,
        *ℤ_comm (neg_ℤ (d *ℤ c)) p,
        *ℤ_neg p (d *ℤ c),
        *ℤ_comm p (d *ℤ c),
        *ℤ_comm d c,
      )
      refl

difference : (u v p : ℤ) → (u -ℤ v) *ℤ p ≡ u *ℤ p -ℤ v *ℤ p
difference u v p = rw (*ℤ_comm (u -ℤ v) p, *ℤ_sub p u v, *ℤ_comm p u, *ℤ_comm p v) refl

-- A row of the adjugate, multiplied by the two entries of the other matrix.
row :
    (x y a b c d p q : ℤ)
    → x *ℤ (d *ℤ p -ℤ b *ℤ q) +ℤ y *ℤ (neg_ℤ c *ℤ p +ℤ a *ℤ q)
      ≡ x *ℤ d *ℤ p -ℤ x *ℤ b *ℤ q +ℤ (neg_ℤ (c *ℤ y *ℤ p) +ℤ y *ℤ a *ℤ q)
row x y a b c d p q =
    rw
      (
        *ℤ_sub x (d *ℤ p) (b *ℤ q),
        *ℤ_assoc x d p,
        *ℤ_assoc x b q,
        *ℤ_add y (neg_ℤ c *ℤ p) (a *ℤ q),
        cross c y p,
        *ℤ_assoc y a q,
      )
      refl

cancel : (x y w : ℤ) → x -ℤ y +ℤ (neg_ℤ w +ℤ y) ≡ x -ℤ w
cancel x y w = eq_of_parts _ _ (
    omega (
      arith,
      +ℤ_parts (x -ℤ y) (neg_ℤ w +ℤ y),
      -ℤ_parts x y,
      +ℤ_parts (neg_ℤ w) y,
      neg_ℤ_parts w,
      -ℤ_parts x w,
    ))

cancel' : (x y w : ℤ) → x -ℤ y +ℤ (neg_ℤ x +ℤ w) ≡ w -ℤ y
cancel' x y w = eq_of_parts _ _ (
    omega (
      arith,
      +ℤ_parts (x -ℤ y) (neg_ℤ x +ℤ w),
      -ℤ_parts x y,
      +ℤ_parts (neg_ℤ x) w,
      neg_ℤ_parts x,
      -ℤ_parts w y,
    ))

-- The matrix times its adjugate is its determinant, applied to a vector.
pub first_row :
    (a b c d p q : ℤ)
    → a *ℤ (d *ℤ p -ℤ b *ℤ q) +ℤ b *ℤ (neg_ℤ c *ℤ p +ℤ a *ℤ q) ≡ (a *ℤ d -ℤ c *ℤ b) *ℤ p
first_row a b c d p q =
    rw (row a b a b c d p q, *ℤ_comm b a, difference (a *ℤ d) (c *ℤ b) p)
      (cancel (a *ℤ d *ℤ p) (a *ℤ b *ℤ q) (c *ℤ b *ℤ p))

pub second_row :
    (a b c d p q : ℤ)
    → c *ℤ (d *ℤ p -ℤ b *ℤ q) +ℤ d *ℤ (neg_ℤ c *ℤ p +ℤ a *ℤ q) ≡ (a *ℤ d -ℤ c *ℤ b) *ℤ q
second_row a b c d p q =
    rw (row c d a b c d p q, *ℤ_comm d a, difference (a *ℤ d) (c *ℤ b) q)
      (cancel' (c *ℤ d *ℤ p) (c *ℤ b *ℤ q) (a *ℤ d *ℤ q))
