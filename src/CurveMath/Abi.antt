-- ===== src/CurveMath/Abi.antt =====
-- src/rust/CurveMath.rs: the public methods of the standalone program, with the conversions of their
-- arguments. The matrix methods pass their arguments on to CurveMath/TwoByTwo.
use denaria_perp_arbitrum.CurveMath.TwoByTwo.{
  mat_mul_2x2, mat_inverse_2x2, vec_mat_2x2, mat_vec_2x2, scalar_2x2,
}
use denaria_perp_arbitrum.Base.{
  ℕ, ℤ, Bool, ◌&&◌, leb, eqb_ℤ, negate, Outcome, Fault, ok, assert, ◌>>=◌, ◌>>◌, if◌then◌else◌,
}
use denaria_perp_arbitrum.CurveMath.Util.{i, u}
use denaria_perp_arbitrum.CurveMath.Matrix.{Matrix}
use denaria_perp_arbitrum.CurveMath.Curve.{
  CurveInput, compute_long_return_inner, compute_short_return_inner,
}
use denaria_perp_arbitrum.CurveMath.Inverse.{compute_exact_in_long_inner}
use denaria_perp_arbitrum.CurveMath.InverseShort.{compute_exact_in_short_inner}
use denaria_perp_arbitrum.CurveMath.Cubic.{newton_cubic}

-- The arguments of the four curve methods, as unsigned words.
pub record Call : Type 0 where
  pub size : ℕ
  pub spot_price : ℕ
  pub oracle_decimals : ℕ
  pub initial_guess : ℕ
  pub global_liquidity_stable : ℕ
  pub global_liquidity_asset : ℕ
  pub parameter_a : ℕ
  pub parameter_b : ℕ
  pub curve_parameter_decimals : ℕ

-- The conversion of the arguments, in their order, around one of the solvers.
unfoldable pub converted : (ℤ → CurveInput → Outcome ℤ) → Call → Outcome ℕ
converted inner a = do
  size ← i a.size
  spot_price ← i a.spot_price
  oracle_dec ← i a.oracle_decimals
  guess ← i a.initial_guess
  stable ← i a.global_liquidity_stable
  asset ← i a.global_liquidity_asset
  param_a ← i a.parameter_a
  param_b ← i a.parameter_b
  curve_dec ← i a.curve_parameter_decimals
  result ← inner size (record {
    spot_price = spot_price;
    oracle_dec = oracle_dec;
    initial_guess = guess;
    init_stable = stable;
    init_asset = asset;
    param_a = param_a;
    param_b = param_b;
    curve_dec = curve_dec;
  })
  u result

unfoldable pub compute_long_return : Call → Outcome ℕ
compute_long_return a = converted compute_long_return_inner a

unfoldable pub compute_short_return : Call → Outcome ℕ
compute_short_return a = converted compute_short_return_inner a

unfoldable pub compute_exact_amount_in_long : Call → Outcome ℕ
compute_exact_amount_in_long a = do
  assert (leb a.size a.global_liquidity_asset) Fault.invl1
  converted compute_exact_in_long_inner a

unfoldable pub compute_exact_amount_in_short : Call → Outcome ℕ
compute_exact_amount_in_short a = do
  assert (leb a.size a.global_liquidity_stable) Fault.invs1
  converted compute_exact_in_short_inner a

-- A coefficient from its magnitude and sign.
unfoldable pub coefficient : ℕ → Bool → Outcome ℤ
coefficient magnitude sign = do z ← i magnitude; ok (if sign then z else negate z)

unfoldable pub newton_method_cubic : ℕ → ℕ → ℕ × Bool → ℕ × Bool → ℕ × Bool → Outcome ℕ
unfolding coefficient
newton_method_cubic initial_guess a (b, b_sign) (c, c_sign) (d, d_sign) = do
  a_s ← i a
  b_s ← coefficient b b_sign
  c_s ← coefficient c c_sign
  d_s ← coefficient d d_sign
  guess ← i initial_guess
  result ← newton_cubic guess a_s b_s c_s d_s
  u result

unfoldable pub equal_two_by_two_matrix : Matrix → Matrix → Bool
equal_two_by_two_matrix a b =
    eqb_ℤ a.m00 b.m00 && eqb_ℤ a.m01 b.m01 && eqb_ℤ a.m10 b.m10 && eqb_ℤ a.m11 b.m11

unfoldable pub mat_mul_two_by_two : Matrix → Matrix → ℤ → Outcome Matrix
mat_mul_two_by_two a b normalization_decimals = mat_mul_2x2 a b normalization_decimals

unfoldable pub inverse_two_by_two : Matrix → ℤ → Outcome Matrix
inverse_two_by_two a normalization_decimals = mat_inverse_2x2 a normalization_decimals

unfoldable pub mul_vec_mat_two_by_two : ℤ → ℤ → Matrix → ℤ → Outcome (ℤ × ℤ)
mul_vec_mat_two_by_two v0 v1 m normalization_decimals = vec_mat_2x2 v0 v1 m normalization_decimals

unfoldable pub mul_mat_vec_two_by_two : Matrix → ℤ → ℤ → ℤ → Outcome (ℤ × ℤ)
mul_mat_vec_two_by_two m v0 v1 normalization_decimals = mat_vec_2x2 m v0 v1 normalization_decimals

unfoldable pub scalar_two_by_two : ℤ → ℤ → ℤ → ℤ → ℤ → Outcome ℤ
scalar_two_by_two a0 a1 b0 b1 normalization_decimals = scalar_2x2 a0 a1 b0 b1 normalization_decimals
