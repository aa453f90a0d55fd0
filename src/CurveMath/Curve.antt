-- ===== src/CurveMath/Curve.antt =====
-- src/rust/CurveMath.rs: the cubic of the dynamic curve, for a long trade, a short trade, and the
-- inverse of a long trade.
use denaria_perp_arbitrum.Base.{ℤ, pos, ◌⊞◌, ◌⊟◌, ◌⊠◌, negate, Outcome, ok, ◌>>=◌}
use denaria_perp_arbitrum.CurveMath.Newton.{◌⋆◌, ◌⫽◌, scale, newton_cubic_signed}

-- The parameters that the curve functions share, in the source's order after `size`.
pub record CurveInput : Type 0 where
  pub spot_price : ℤ
  pub oracle_dec : ℤ
  pub initial_guess : ℤ
  pub init_stable : ℤ
  pub init_asset : ℤ
  pub param_a : ℤ
  pub param_b : ℤ
  pub curve_dec : ℤ

-- The coefficients a, b, c, d.
pub record Cubic : Type 0 where
  pub a : ℤ
  pub b : ℤ
  pub c : ℤ
  pub d : ℤ

abbrev s : ℤ
s = scale

abbrev two : ℤ
two = pos 2

abbrev three : ℤ
three = pos 3

unfoldable pub long_coefficients : ℤ → CurveInput → Outcome Cubic
long_coefficients size n = do
  px ← ok n.spot_price ⋆ n.init_asset ⫽ n.oracle_dec
  let lambda = px ⊞ size
  x_sq ← ok n.init_asset ⋆ n.init_asset ⫽ s
  a ← ok lambda ⋆ lambda ⫽ s ⋆ lambda ⫽ x_sq
  sp ← ok n.spot_price ⋆ s ⫽ n.oracle_dec
  sp2 ← ok sp ⋆ sp ⫽ s
  sp3 ← ok sp2 ⋆ sp ⫽ s
  n1 ← ok x_sq ⋆ sp3 ⫽ s
  num ← ok n.param_a ⋆ lambda ⫽ n.curve_dec ⋆ n1 ⫽ s
  init_asset_val ← ok sp ⋆ n.init_asset ⫽ s
  let den = init_asset_val ⊞ n.init_stable
  b1 ← ok num ⋆ s ⫽ den
  lambda_sq ← ok lambda ⋆ lambda ⫽ s
  let factor_2b3 = two ⊠ n.param_b ⊞ three ⊠ n.curve_dec
  b2 ← ok lambda_sq ⋆ sp ⫽ s ⋆ factor_2b3 ⫽ n.curve_dec
  b_plus ← ok (n.param_b ⊞ n.curve_dec) ⋆ s ⫽ n.curve_dec
  c2 ← ok x_sq ⋆ sp ⫽ s ⋆ sp ⫽ s ⋆ b_plus ⫽ s ⋆ (b_plus ⊞ two ⊠ s) ⫽ s
  let signed_diff = size ⊟ init_asset_val
  c1 ← ok x_sq ⋆ n.param_a ⫽ n.curve_dec ⋆ sp ⫽ s ⋆ sp ⫽ s ⋆ signed_diff ⫽ den
  c ← ok lambda ⋆ (c1 ⊞ c2) ⫽ s
  d ←
      ok x_sq
      ⋆ sp
      ⫽ s
      ⋆ sp
      ⫽ s
      ⋆ sp
      ⫽ s
      ⋆ n.init_asset
      ⫽ s
      ⋆ n.init_asset
      ⫽ s
      ⋆ b_plus
      ⫽ s
      ⋆ b_plus
      ⫽ s
  ok (record { a = a; b = b1 ⊟ b2; c = c; d = negate d })

unfoldable pub compute_long_return_inner : ℤ → CurveInput → Outcome ℤ
compute_long_return_inner size n = do
  k ← long_coefficients size n
  new_asset ← newton_cubic_signed n.initial_guess k.a k.b k.c k.d
  ok (n.init_asset ⊟ new_asset)

unfoldable pub short_coefficients : ℤ → CurveInput → Outcome Cubic
short_coefficients size n = do
  sp_size ← ok n.spot_price ⋆ size ⫽ n.oracle_dec
  let lambda = sp_size ⊞ n.init_stable
  y_sq ← ok n.init_stable ⋆ n.init_stable ⫽ s
  a ← ok lambda ⋆ lambda ⫽ s ⋆ lambda ⫽ y_sq
  px ← ok n.spot_price ⋆ n.init_asset ⫽ n.oracle_dec
  let den = px ⊞ n.init_stable
  b1 ← ok y_sq ⋆ n.param_a ⫽ n.curve_dec ⋆ lambda ⫽ den
  b2 ← ok lambda ⋆ lambda ⫽ s ⋆ (two ⊠ n.param_b ⊞ three ⊠ n.curve_dec) ⫽ n.curve_dec
  let p_sum = n.param_b ⊞ n.curve_dec
  part ← ok y_sq ⋆ p_sum ⫽ n.curve_dec
  part_p ← ok part ⋆ p_sum ⫽ n.curve_dec
  let c2 = part_p ⊞ two ⊠ part
  base ← ok y_sq ⋆ n.param_a ⫽ n.curve_dec
  let signed_diff = sp_size ⊟ n.init_stable
  c1 ← ok base ⋆ signed_diff ⫽ den
  c ← ok lambda ⋆ (c1 ⊞ c2) ⫽ s
  b_plus ← ok (n.param_b ⊞ n.curve_dec) ⋆ s ⫽ n.curve_dec
  d ← ok y_sq ⋆ y_sq ⫽ s ⋆ b_plus ⫽ s ⋆ b_plus ⫽ s
  ok (record { a = a; b = b1 ⊟ b2; c = c; d = negate d })

unfoldable pub compute_short_return_inner : ℤ → CurveInput → Outcome ℤ
compute_short_return_inner size n = do
  k ← short_coefficients size n
  new_stable ← newton_cubic_signed n.initial_guess k.a k.b k.c k.d
  ok (n.init_stable ⊟ new_stable)
