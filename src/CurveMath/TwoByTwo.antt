-- ===== src/CurveMath/TwoByTwo.antt =====
-- src/rust/CurveMath.rs: products and inverses of matrices of two rows and two columns, in fixed
-- point. A matrix is row-major: m00, m01, m10, m11.
use denaria_perp_arbitrum.Base.{
  ℤ, pos, eqb_ℤ, not, ◌⊞◌, ◌⊟◌, ◌⊠◌, negate, Outcome, Code, ok, require, ◌>>=◌, ◌>>◌,
}
use denaria_perp_arbitrum.CurveMath.Util.{divide_signed}
use denaria_perp_arbitrum.CurveMath.Matrix.{Matrix}

-- `(x0 * y0 + x1 * y1) / norm`
unfoldable pub scalar_2x2 : ℤ → ℤ → ℤ → ℤ → ℤ → Outcome ℤ
scalar_2x2 x0 x1 y0 y1 norm = divide_signed (x0 ⊠ y0 ⊞ x1 ⊠ y1) norm

unfoldable pub mat_mul_2x2 : Matrix → Matrix → ℤ → Outcome Matrix
mat_mul_2x2 a b norm = do
  r00 ← divide_signed (a.m00 ⊠ b.m00 ⊞ a.m01 ⊠ b.m10) norm
  r01 ← divide_signed (a.m00 ⊠ b.m01 ⊞ a.m01 ⊠ b.m11) norm
  r10 ← divide_signed (a.m10 ⊠ b.m00 ⊞ a.m11 ⊠ b.m10) norm
  r11 ← divide_signed (a.m10 ⊠ b.m01 ⊞ a.m11 ⊠ b.m11) norm
  ok (record { m00 = r00; m01 = r01; m10 = r10; m11 = r11 })

unfoldable pub mat_inverse_2x2 : Matrix → ℤ → Outcome Matrix
mat_inverse_2x2 a norm = do
  det ← divide_signed (a.m00 ⊠ a.m11 ⊟ a.m10 ⊠ a.m01) norm
  require (not (eqb_ℤ det (pos 0))) Code.inverse0
  r00 ← divide_signed (a.m11 ⊠ norm) det
  r01 ← divide_signed (negate a.m01 ⊠ norm) det
  r10 ← divide_signed (negate a.m10 ⊠ norm) det
  r11 ← divide_signed (a.m00 ⊠ norm) det
  ok (record { m00 = r00; m01 = r01; m10 = r10; m11 = r11 })

unfoldable pub vec_mat_2x2 : ℤ → ℤ → Matrix → ℤ → Outcome (ℤ × ℤ)
vec_mat_2x2 v0 v1 m norm = do
  r0 ← divide_signed (v0 ⊠ m.m00 ⊞ v1 ⊠ m.m10) norm
  r1 ← divide_signed (v0 ⊠ m.m01 ⊞ v1 ⊠ m.m11) norm
  ok (r0, r1)

unfoldable pub mat_vec_2x2 : Matrix → ℤ → ℤ → ℤ → Outcome (ℤ × ℤ)
mat_vec_2x2 m v0 v1 norm = do
  r0 ← divide_signed (m.m00 ⊠ v0 ⊞ m.m01 ⊠ v1) norm
  r1 ← divide_signed (m.m10 ⊠ v0 ⊞ m.m11 ⊠ v1) norm
  ok (r0, r1)
