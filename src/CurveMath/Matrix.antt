-- ===== src/CurveMath/Matrix.antt =====
-- src/rust/CurveMath.rs: the recovery of an LP balance and of the accrued funding through the
-- adjugate of the snapshot matrix. Matrices are row-major: m00, m01, m10, m11.
pub mod Cofactors
pub mod Checked
pub mod Identity
use denaria_perp_arbitrum.Base.{
  ℕ, ◌^◌, ℤ, pos, ltb_ℤ, leb_ℤ, Outcome, Code, ok, require, ◌>>=◌, ◌>>◌, if◌then◌else◌,
}
use denaria_perp_arbitrum.CurveMath.Util.{i}
use denaria_perp_arbitrum.CurveMath.MulDiv.{
  cmul, cadd, csub, cneg, mul_div_signed, sum_mul_div_signed,
}

pub record Matrix : Type 0 where
  pub m00 : ℤ
  pub m01 : ℤ
  pub m10 : ℤ
  pub m11 : ℤ

-- 2 ^ 80
abbrev pub q80 : ℤ
q80 = pos (2 ^ 80)

unfoldable pub positive_determinant_fixed : Matrix → ℤ → Outcome ℤ
positive_determinant_fixed m liquidity_m_decimals = do
  det ← sum_mul_div_signed m.m00 m.m11 (← cneg m.m10) m.m01 liquidity_m_decimals
  require (ltb_ℤ (pos 0) det) Code.mdet
  ok det

-- adj(M(t0)) * v(t0)
unfoldable pub adjugate_vector : Matrix → ℤ → ℤ → Outcome (ℤ × ℤ)
adjugate_vector m p q = do
  dp ← cmul m.m11 p
  bq ← cmul m.m01 q
  u0 ← csub dp bq
  c ← cneg m.m10
  cp ← cmul c p
  aq ← cmul m.m00 q
  u1 ← cadd cp aq
  ok (u0, u1)

-- x0 * y0 + x1 * y1
unfoldable pub checked_dot : ℤ → ℤ → ℤ → ℤ → Outcome ℤ
checked_dot x0 y0 x1 y1 = do first ← cmul x0 y0; second ← cmul x1 y1; cadd first second

-- The determinant, refused unless it is positive.
unfoldable pub positive_determinant : Matrix → Outcome ℤ
positive_determinant m = do
  ad ← cmul m.m00 m.m11
  bc ← cmul m.m10 m.m01
  det ← csub ad bc
  require (ltb_ℤ (pos 0) det) Code.mdet
  ok det

-- The path for a matrix scale of at most 2 ^ 80.
unfoldable pub recover_exact : Matrix → Matrix → ℤ → ℤ → Outcome (ℤ × ℤ)
recover_exact current snapshot p q = do
  (u0, u1) ← adjugate_vector snapshot p q
  z0 ← checked_dot current.m00 u0 current.m01 u1
  z1 ← checked_dot current.m10 u0 current.m11 u1
  det ← positive_determinant snapshot
  stable_balance ← mul_div_signed z0 (pos 1) det
  asset_balance ← mul_div_signed z1 (pos 1) det
  ok (stable_balance, asset_balance)

-- The path for larger scales.
unfoldable pub recover_reduced : Matrix → Matrix → ℤ → ℤ → ℤ → Outcome (ℤ × ℤ)
recover_reduced current m p q decimals = do
  n00 ← sum_mul_div_signed current.m00 m.m11 (← cneg current.m01) m.m10 decimals
  n01 ← sum_mul_div_signed (← cneg current.m00) m.m01 current.m01 m.m00 decimals
  n10 ← sum_mul_div_signed current.m10 m.m11 (← cneg current.m11) m.m10 decimals
  n11 ← sum_mul_div_signed (← cneg current.m10) m.m01 current.m11 m.m00 decimals
  det_fixed ← positive_determinant_fixed m decimals
  stable_balance ← sum_mul_div_signed n00 p n01 q det_fixed
  asset_balance ← sum_mul_div_signed n10 p n11 q det_fixed
  ok (stable_balance, asset_balance)

unfoldable pub recover_lp_balance_from_snapshot : Matrix → Matrix → ℕ → ℕ → ℤ → Outcome (ℤ × ℤ)
recover_lp_balance_from_snapshot current snapshot initial_stable initial_asset decimals = do
  p ← i initial_stable
  q ← i initial_asset
  if leb_ℤ decimals q80
      then recover_exact current snapshot p q
      else recover_reduced current snapshot p q decimals

unfoldable pub funding_star_exact : ℤ → ℤ → Matrix → ℤ → ℤ → ℤ → ℕ → Outcome ℤ
funding_star_exact delta_g0 delta_g1 snapshot p q m_decimals g_decimals = do
  (u0, u1) ← adjugate_vector snapshot p q
  z ← checked_dot delta_g0 u0 delta_g1 u1
  det ← positive_determinant snapshot
  g ← i g_decimals
  scaled_det ← cmul det g
  mul_div_signed z m_decimals scaled_det

unfoldable pub funding_star_reduced : ℤ → ℤ → Matrix → ℤ → ℤ → ℤ → ℕ → Outcome ℤ
funding_star_reduced delta_g0 delta_g1 m p q m_decimals g_decimals = do
  w0 ← sum_mul_div_signed delta_g0 m.m11 (← cneg delta_g1) m.m10 m_decimals
  w1 ← sum_mul_div_signed (← cneg delta_g0) m.m01 delta_g1 m.m00 m_decimals
  scaled_z ← checked_dot w0 p w1 q
  det_fixed ← positive_determinant_fixed m m_decimals
  g ← i g_decimals
  scaled_det ← cmul det_fixed g
  mul_div_signed scaled_z m_decimals scaled_det

unfoldable pub recover_funding_star_from_snapshot : ℤ → ℤ → Matrix → ℕ → ℕ → ℤ → ℕ → Outcome ℤ
recover_funding_star_from_snapshot delta_g0 delta_g1 snapshot stable asset m_decimals g_decimals =
    do
      p ← i stable
      q ← i asset
      if leb_ℤ m_decimals q80
          then funding_star_exact delta_g0 delta_g1 snapshot p q m_decimals g_decimals
          else funding_star_reduced delta_g0 delta_g1 snapshot p q m_decimals g_decimals
