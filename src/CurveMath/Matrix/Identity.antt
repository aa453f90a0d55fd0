-- ===== src/CurveMath/Matrix/Identity.antt =====
-- `recover_lp_balance_from_snapshot` of src/rust/CurveMath.rs, for an epoch whose matrix has not
-- changed since the snapshot.
use denaria_perp_arbitrum.Base.{
  ℕ, ◌+◌, ◌*◌, ◌/◌, ◌≤◌, ◌<◌, ◌≡◌, refl, ap, ◌∙◌, true, arith, ℤ, pos, negsuc, abs_ℕ, neg_ℤ, ◌+ℤ◌,
  ◌-ℤ◌, ◌*ℤ◌, half_mod, ok, ltb, ltb_ℤ, leb_ℤ, abs-neg_ℤ,
}
use denaria_perp_arbitrum.CurveMath.Util.{i, quot}
use denaria_perp_arbitrum.CurveMath.MulDiv.{mul_div_signed}
use denaria_perp_arbitrum.CurveMath.MulDiv.Sum.{mul_div_signed_exact}
use denaria_perp_arbitrum.CurveMath.MulDiv.Division.{div_unique}
use denaria_perp_arbitrum.CurveMath.Matrix.{
  Matrix, q80, recover_lp_balance_from_snapshot, recover_exact,
}
use denaria_perp_arbitrum.CurveMath.Matrix.Cofactors.{determinant, first_row, second_row}
use denaria_perp_arbitrum.CurveMath.Matrix.Checked.{
  IsBounded, checked_dot-eq, positive_determinant-eq, adjugate_vector-eq, sizes, dot_size,
  cross_size, le_mul,
}

positive_part : (z : ℤ) → ltb_ℤ (pos 0) z ≡ true → (k : ℕ) × (z ≡ pos k) × (0 < k)
positive_part (pos k) h = (k, refl, ground arith)
positive_part (negsuc k) h = absurd (ground arith)

pos_mul : (k n : ℕ) → pos k *ℤ pos n ≡ pos (k * n)
unfolding ◌*ℤ◌
pos_mul k n = ground arith

abs_pos_mul : (k n : ℕ) → abs_ℕ (pos k *ℤ pos n) ≡ k * n
abs_pos_mul k n = rw (pos_mul k n) (omega arith)

div_mul : (k n : ℕ) → 0 < k → k * n / k ≡ n
div_mul k n h = div_unique (k * n) k n 0 (omega (arith)) h

factor_le : (k n : ℕ) → 0 < k → n ≤ k * n
factor_le k n h = omega (arith, le_mul 1 n k n h (omega arith))

product_one : (k n : ℕ) → pos k *ℤ pos n *ℤ pos 1 ≡ pos (k * n)
product_one k n =
    let num : k * n * 1 ≡ k * n = omega arith in rw (pos_mul k n, pos_mul (k * n) 1, num) refl

quot_mul : (k n : ℕ) → 0 < k → quot (pos k *ℤ pos n *ℤ pos 1) (pos k) ≡ pos n
quot_mul k n h =
    let num : k * n + 0 ≡ k * n = omega arith in
    let den : k + 0 ≡ k = omega arith in rw (product_one k n, num, den, div_mul k n h) refl

quot_size : (k n : ℕ) → 0 < k → abs_ℕ (pos k *ℤ pos n *ℤ pos 1) / abs_ℕ (pos k) ≡ n
quot_size k n h =
    let num : k * n + 0 ≡ k * n = omega arith in
    let den : k + 0 ≡ k = omega arith in rw (product_one k n, num, den) (div_mul k n h)

-- A product of a determinant and an amount, divided by the determinant.
recovered :
    (z d : ℤ) (k n : ℕ)
    → d ≡ pos k
    → 0 < k
    → z ≡ d *ℤ pos n
    → abs_ℕ z < half_mod
    → abs_ℕ d < half_mod
    → mul_div_signed z (pos 1) d ≡ ok (pos n)
recovered z d k n e h f hz hd =
    let v : z ≡ pos k *ℤ pos n = f ∙ ap (λ t. t *ℤ pos n) e in
    let small : k * n < half_mod = omega (arith, ap abs_ℕ v, abs_pos_mul k n) in
    rw (e, v)
      (mul_div_signed_exact (pos k *ℤ pos n) (pos 1) (pos k) (omega (arith, abs_pos_mul k n))
          (omega arith) (omega (arith, ap abs_ℕ e)) (λ b. omega (arith, ap abs_ℕ b))
          (omega (arith, quot_size k n h, factor_le k n h))
        ∙ ap ok (quot_mul k n h))

-- For an epoch whose matrix is that of the snapshot, has a positive determinant and entries up to
-- `b`, and for amounts up to `c`, where `b` and `c` are at least one and four times `b` times `b`
-- times `c` is below 2 ^ 255, a matrix scale of at most 2 ^ 80 lets the recovery return, with the
-- amounts of the snapshot.
pub recover_lp_balance_unchanged :
    (m : Matrix) (stable asset b c : ℕ) (decimals : ℤ)
    → leb_ℤ decimals q80 ≡ true
    → ltb_ℤ (pos 0) (determinant m) ≡ true
    → IsBounded b m
    → stable ≤ c
    → asset ≤ c
    → 1 ≤ b
    → 1 ≤ c
    → 4 * (b * (b * c)) < half_mod
    → recover_lp_balance_from_snapshot m m stable asset decimals ≡ ok (pos stable, pos asset)
unfolding recover_lp_balance_from_snapshot recover_exact i
recover_lp_balance_unchanged m p q b c decimals scale det (h00, h01, h10, h11) hp hq hb hc fits =
    let (s1, s2, s3, s4, s5) = sizes b c hb hc in
    let (k, e, positive) = positive_part (determinant m) det in
    let inp : ltb p half_mod ≡ true = ground arith in
    let inq : ltb q half_mod ≡ true = ground arith in
    let hp' : abs_ℕ (pos p) ≤ c = omega arith in
    let hq' : abs_ℕ (pos q) ≤ c = omega arith in
    let neg : abs_ℕ (neg_ℤ m.m10) ≤ b = omega (arith, abs-neg_ℤ m.m10) in
    let u0 : ℤ = m.m11 *ℤ pos p -ℤ m.m01 *ℤ pos q in
    let u1 : ℤ = neg_ℤ m.m10 *ℤ pos p +ℤ m.m00 *ℤ pos q in
    let b0 = cross_size m.m11 (pos p) m.m01 (pos q) b c h11 hp' h01 hq' in
    let b1 = dot_size (neg_ℤ m.m10) (pos p) m.m00 (pos q) b c neg hp' h00 hq' in
    let det_size = cross_size m.m00 m.m11 m.m10 m.m01 b b h00 h11 h10 h01 in
    rw
      (
        scale,
        inp,
        inq,
        adjugate_vector-eq m b c p q (h00, h01, h10, h11) hp hq hc (omega arith) (omega arith),
        checked_dot-eq m.m00 u0 m.m01 u1 b (2 * (b * c)) h00 b0 h01 b1 (omega arith),
        checked_dot-eq m.m10 u0 m.m11 u1 b (2 * (b * c)) h10 b0 h11 b1 (omega arith),
        positive_determinant-eq m b (h00, h01, h10, h11) (omega arith) det,
        recovered (m.m00 *ℤ u0 +ℤ m.m01 *ℤ u1) (determinant m) k p e positive
            (first_row m.m00 m.m01 m.m10 m.m11 (pos p) (pos q))
            (omega (arith, dot_size m.m00 u0 m.m01 u1 b (2 * (b * c)) h00 b0 h01 b1)) (omega arith),
        recovered (m.m10 *ℤ u0 +ℤ m.m11 *ℤ u1) (determinant m) k q e positive
            (second_row m.m00 m.m01 m.m10 m.m11 (pos p) (pos q))
            (omega (arith, dot_size m.m10 u0 m.m11 u1 b (2 * (b * c)) h10 b0 h11 b1)) (omega arith),
      )
      refl
