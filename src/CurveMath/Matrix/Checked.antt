-- ===== src/CurveMath/Matrix/Checked.antt =====
-- The checked steps of the recovery of src/rust/CurveMath.rs, inside their bounds.
use denaria_perp_arbitrum.Base.{
  ℕ, ◌+◌, ◌*◌, ◌≤◌, ◌<◌, ◌≡◌, refl, true, arith, ℤ, pos, abs_ℕ, neg_ℤ, ◌+ℤ◌, ◌-ℤ◌, ◌*ℤ◌, half_mod,
  fits_signed-IsSigned, ok, ltb_ℤ, abs-*ℤ, abs-+ℤ, abs--ℤ, abs-neg_ℤ,
}
use denaria_perp_arbitrum.CurveMath.MulDiv.{cmul, cadd, csub, cneg, checked}
use denaria_perp_arbitrum.CurveMath.Matrix.{
  Matrix, adjugate_vector, checked_dot, positive_determinant,
}
use denaria_perp_arbitrum.CurveMath.Matrix.Cofactors.{determinant}

checked-eq : (z : ℤ) → abs_ℕ z < half_mod → checked z ≡ ok z
unfolding checked
checked-eq z h = rw (fits_signed-IsSigned z (omega arith, omega arith)) refl

cadd-eq : (a b : ℤ) (c : ℕ) → abs_ℕ a + abs_ℕ b ≤ c → c < half_mod → cadd a b ≡ ok (a +ℤ b)
unfolding cadd
cadd-eq a b c h k = checked-eq (a +ℤ b) (omega (arith, abs-+ℤ a b))

csub-eq : (a b : ℤ) (c : ℕ) → abs_ℕ a + abs_ℕ b ≤ c → c < half_mod → csub a b ≡ ok (a -ℤ b)
unfolding csub
csub-eq a b c h k = checked-eq (a -ℤ b) (omega (arith, abs--ℤ a b))

cneg-eq : (a : ℤ) → abs_ℕ a < half_mod → cneg a ≡ ok (neg_ℤ a)
unfolding cneg
cneg-eq a h = checked-eq (neg_ℤ a) (omega (arith, abs-neg_ℤ a))

pub le_mul : (x y b c : ℕ) → x ≤ b → y ≤ c → x * y ≤ b * c
le_mul x y b c h k = grind arith

cmul-eq :
    (a b : ℤ) (x y : ℕ) → abs_ℕ a ≤ x → abs_ℕ b ≤ y → x * y < half_mod → cmul a b ≡ ok (a *ℤ b)
unfolding cmul
cmul-eq a b x y h k fits =
    checked-eq (a *ℤ b) (omega (arith, abs-*ℤ a b, le_mul (abs_ℕ a) (abs_ℕ b) x y h k))

abs_product : (a b : ℤ) (x y : ℕ) → abs_ℕ a ≤ x → abs_ℕ b ≤ y → abs_ℕ (a *ℤ b) ≤ x * y
abs_product a b x y h k = omega (arith, abs-*ℤ a b, le_mul (abs_ℕ a) (abs_ℕ b) x y h k)

-- A pair of products in the bounds of its parts.
pub checked_dot-eq :
    (x0 y0 x1 y1 : ℤ) (b c : ℕ)
    → abs_ℕ x0 ≤ b
    → abs_ℕ y0 ≤ c
    → abs_ℕ x1 ≤ b
    → abs_ℕ y1 ≤ c
    → 2 * (b * c) < half_mod
    → checked_dot x0 y0 x1 y1 ≡ ok (x0 *ℤ y0 +ℤ x1 *ℤ y1)
unfolding checked_dot
checked_dot-eq x0 y0 x1 y1 b c h1 h2 h3 h4 fits =
    rw (cmul-eq x0 y0 b c h1 h2 (omega arith), cmul-eq x1 y1 b c h3 h4 (omega arith))
      (cadd-eq (x0 *ℤ y0) (x1 *ℤ y1) (2 * (b * c))
        (omega (arith, abs_product x0 y0 b c h1 h2, abs_product x1 y1 b c h3 h4)) fits)

-- The magnitudes of the entries of a matrix.
abbrev pub IsBounded : ℕ → Matrix → Type 0
IsBounded b m = (abs_ℕ m.m00 ≤ b) × (abs_ℕ m.m01 ≤ b) × (abs_ℕ m.m10 ≤ b) × (abs_ℕ m.m11 ≤ b)

pub positive_determinant-eq :
    (m : Matrix) (b : ℕ)
    → IsBounded b m
    → 2 * (b * b) < half_mod
    → ltb_ℤ (pos 0) (determinant m) ≡ true
    → positive_determinant m ≡ ok (determinant m)
unfolding positive_determinant
positive_determinant-eq m b (h00, h01, h10, h11) fits h =
    rw
      (
        cmul-eq m.m00 m.m11 b b h00 h11 (omega arith),
        cmul-eq m.m10 m.m01 b b h10 h01 (omega arith),
        csub-eq (m.m00 *ℤ m.m11) (m.m10 *ℤ m.m01) (2 * (b * b))
            (omega
              (arith, abs_product m.m00 m.m11 b b h00 h11, abs_product m.m10 m.m01 b b h10 h01))
            fits,
        h,
      )
      refl

pub adjugate_vector-eq :
    (m : Matrix) (b c p q : ℕ)
    → IsBounded b m
    → p ≤ c
    → q ≤ c
    → 1 ≤ c
    → 2 * (b * c) < half_mod
    → b < half_mod
    → adjugate_vector m (pos p) (pos q)
      ≡ ok (m.m11 *ℤ pos p -ℤ m.m01 *ℤ pos q, neg_ℤ m.m10 *ℤ pos p +ℤ m.m00 *ℤ pos q)
unfolding adjugate_vector
adjugate_vector-eq m b c p q (h00, h01, h10, h11) hp hq one fits small =
    let neg : abs_ℕ (neg_ℤ m.m10) ≤ b = omega (arith, abs-neg_ℤ m.m10) in
    let hp' : abs_ℕ (pos p) ≤ c = omega arith in
    let hq' : abs_ℕ (pos q) ≤ c = omega arith in
    rw
      (
        cmul-eq m.m11 (pos p) b c h11 hp' (omega arith),
        cmul-eq m.m01 (pos q) b c h01 hq' (omega arith),
        csub-eq (m.m11 *ℤ pos p) (m.m01 *ℤ pos q) (2 * (b * c))
            (omega
              (arith, abs_product m.m11 (pos p) b c h11 hp', abs_product m.m01 (pos q) b c h01 hq'))
            fits,
        cneg-eq m.m10 (omega arith),
        cmul-eq (neg_ℤ m.m10) (pos p) b c neg hp' (omega arith),
        cmul-eq m.m00 (pos q) b c h00 hq' (omega arith),
        cadd-eq (neg_ℤ m.m10 *ℤ pos p) (m.m00 *ℤ pos q) (2 * (b * c))
            (omega (
              arith,
              abs_product (neg_ℤ m.m10) (pos p) b c neg hp',
              abs_product m.m00 (pos q) b c h00 hq',
            ))
            fits,
      )
      refl

pub sizes :
    (b c : ℕ)
    → 1 ≤ b
    → 1 ≤ c
    → (b ≤ b * (b * c))
      × (b * c ≤ b * (b * c))
      × (b * b ≤ b * (b * c))
      × (c ≤ b * (b * c))
      × (b * (2 * (b * c)) ≡ 2 * (b * (b * c)))
sizes b c h k =
    let one : 1 * 1 ≤ b * c = le_mul 1 1 b c h k in
    let first : b * 1 ≤ b * (b * c) = le_mul b 1 b (b * c) (omega arith) (omega arith) in
    let second : 1 * (b * c) ≤ b * (b * c) = le_mul 1 (b * c) b (b * c) h (omega arith) in
    let inner : b * 1 ≤ b * c = le_mul b 1 b c (omega arith) k in
    let third : b * b ≤ b * (b * c) = le_mul b b b (b * c) (omega arith) (omega arith) in
    let fourth : 1 * c ≤ b * c = le_mul 1 c b c h (omega arith) in
    (omega arith, omega arith, third, omega arith, grind arith)

pub dot_size :
    (x0 y0 x1 y1 : ℤ) (b c : ℕ)
    → abs_ℕ x0 ≤ b
    → abs_ℕ y0 ≤ c
    → abs_ℕ x1 ≤ b
    → abs_ℕ y1 ≤ c
    → abs_ℕ (x0 *ℤ y0 +ℤ x1 *ℤ y1) ≤ 2 * (b * c)
dot_size x0 y0 x1 y1 b c h1 h2 h3 h4 =
    omega (
      arith,
      abs-+ℤ (x0 *ℤ y0) (x1 *ℤ y1),
      abs_product x0 y0 b c h1 h2,
      abs_product x1 y1 b c h3 h4,
    )

pub cross_size :
    (x0 y0 x1 y1 : ℤ) (b c : ℕ)
    → abs_ℕ x0 ≤ b
    → abs_ℕ y0 ≤ c
    → abs_ℕ x1 ≤ b
    → abs_ℕ y1 ≤ c
    → abs_ℕ (x0 *ℤ y0 -ℤ x1 *ℤ y1) ≤ 2 * (b * c)
cross_size x0 y0 x1 y1 b c h1 h2 h3 h4 =
    omega (
      arith,
      abs--ℤ (x0 *ℤ y0) (x1 *ℤ y1),
      abs_product x0 y0 b c h1 h2,
      abs_product x1 y1 b c h3 h4,
    )
