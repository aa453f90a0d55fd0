-- ===== src/CurveMath/Inverse.antt =====
-- src/rust/CurveMath.rs: the cubic of the inverse of a long trade, by its terms.
use denaria_perp_arbitrum.Base.{ℤ, pos, ◌⊞◌, ◌⊟◌, negate, Outcome, ok, ◌>>=◌}
use denaria_perp_arbitrum.CurveMath.Newton.{◌⋆◌, ◌⫽◌, scale, newton_cubic_signed}
use denaria_perp_arbitrum.CurveMath.Curve.{CurveInput, Cubic}

abbrev s : ℤ
s = scale

abbrev two : ℤ
two = pos 2

-- The values that the coefficients share.
pub record InverseTerms : Type 0 where
  pub x : ℤ
  pub x0 : ℤ
  pub a_prime : ℤ
  pub lambda : ℤ
  pub k : ℤ
  pub b_plus : ℤ

unfoldable pub inverse_long_terms : ℤ → CurveInput → Outcome InverseTerms
inverse_long_terms output_size n = do
  sp ← ok n.spot_price ⋆ s ⫽ n.oracle_dec
  let x0 = n.init_asset
  let x = n.init_asset ⊟ output_size
  x0sp ← ok x0 ⋆ sp ⫽ s
  a_prime ← ok n.param_a ⋆ sp ⫽ s ⋆ sp ⫽ s ⋆ x0 ⫽ s ⋆ x0 ⫽ s ⋆ x0 ⫽ s ⋆ x0 ⫽ (x0sp ⊞ n.init_stable)
  moved ← ok n.spot_price ⋆ (x0 ⊟ x) ⫽ n.oracle_dec
  px ← ok n.spot_price ⋆ x0 ⫽ n.oracle_dec
  ok (record {
    x = x;
    x0 = x0;
    a_prime = a_prime;
    lambda = negate (moved ⊞ n.init_stable);
    k = px ⊟ n.init_stable;
    b_plus = n.param_b ⊞ n.curve_dec;
  })

-- `k * x / s - spot_price * x0 / oracle_dec * x0 / s`
unfoldable pub inverse_long_gap : CurveInput → InverseTerms → Outcome ℤ
inverse_long_gap n t = do
  kx ← ok t.k ⋆ t.x ⫽ s
  pxx ← ok n.spot_price ⋆ t.x0 ⫽ n.oracle_dec ⋆ t.x0 ⫽ s
  ok (kx ⊟ pxx)

unfoldable pub inverse_long_b : CurveInput → InverseTerms → Outcome ℤ
inverse_long_b n t = do
  let x = t.x
  let x0 = t.x0
  t1 ← ok t.a_prime ⋆ x ⫽ n.curve_dec ⋆ s ⫽ x0 ⋆ s ⫽ x0 ⋆ s ⫽ x0 ⋆ s ⫽ x0
  t2 ← ok two ⋆ x ⋆ x ⫽ x0 ⋆ x ⫽ x0 ⋆ t.k ⫽ s ⋆ s ⫽ x0 ⋆ s ⫽ x0
  t3 ← ok two ⋆ x ⋆ x ⫽ s ⋆ n.spot_price ⫽ n.oracle_dec ⋆ t.b_plus ⫽ n.curve_dec ⋆ s ⫽ x0 ⋆ s ⫽ x0
  gap ← inverse_long_gap n t
  t4 ← ok gap ⋆ x ⫽ x0 ⋆ x ⫽ x0 ⋆ s ⫽ x0 ⋆ s ⫽ x0
  ok (t1 ⊞ t2 ⊟ t3 ⊞ t4)

unfoldable pub inverse_long_c : CurveInput → InverseTerms → Outcome ℤ
inverse_long_c n t = do
  let x = t.x
  let x0 = t.x0
  let p = n.spot_price
  let od = n.oracle_dec
  let cd = n.curve_dec
  let b_plus = t.b_plus
  let k_lam = t.k ⊞ t.lambda
  ct1 ← ok t.a_prime ⋆ x ⫽ cd ⋆ k_lam ⫽ x0 ⋆ s ⫽ x0 ⋆ s ⫽ x0 ⋆ s ⫽ x0
  ct2 ← ok x0 ⋆ x0 ⫽ s ⋆ b_plus ⫽ cd ⋆ b_plus ⫽ cd ⋆ p ⫽ od ⋆ p ⫽ od ⋆ x ⫽ x0 ⋆ s ⫽ x0
  ct3 ← ok t.k ⋆ t.k ⫽ s ⋆ x ⫽ x0 ⋆ x ⫽ x0 ⋆ x ⫽ x0 ⋆ s ⫽ x0
  ct4 ← ok two ⋆ x ⋆ x ⫽ s ⋆ b_plus ⫽ cd ⋆ p ⫽ od ⋆ t.k ⫽ s ⋆ s ⫽ x0 ⋆ s ⫽ x0
  gap ← inverse_long_gap n t
  ct5 ← ok two ⋆ gap ⋆ t.k ⫽ s ⋆ x ⫽ x0 ⋆ x ⫽ x0 ⋆ s ⫽ x0 ⋆ s ⫽ x0
  ct6 ← ok two ⋆ x ⋆ b_plus ⫽ cd ⋆ gap ⫽ s ⋆ p ⫽ od ⋆ s ⫽ x0 ⋆ s ⫽ x0
  ok (ct1 ⊞ ct2 ⊞ ct3 ⊟ ct4 ⊞ ct5 ⊟ ct6)

unfoldable pub inverse_long_d : CurveInput → InverseTerms → Outcome ℤ
inverse_long_d n t = do
  let x = t.x
  let x0 = t.x0
  let p = n.spot_price
  let od = n.oracle_dec
  let cd = n.curve_dec
  let b_plus = t.b_plus
  dt1 ← ok x ⋆ t.a_prime ⫽ x0 ⋆ t.k ⫽ s ⋆ t.lambda ⫽ x0 ⋆ s ⫽ x0 ⋆ s ⫽ x0 ⋆ s ⫽ od
  temp ← inverse_long_gap n t
  dt2 ← ok temp ⋆ b_plus ⫽ cd ⋆ b_plus ⫽ cd ⋆ p ⫽ od ⋆ p ⫽ od
  dt3 ← ok temp ⋆ t.k ⫽ s ⋆ t.k ⫽ s ⋆ x ⫽ x0 ⋆ x ⫽ x0 ⋆ s ⫽ x0 ⋆ s ⫽ x0
  dt4 ← ok two ⋆ temp ⋆ x ⫽ s ⋆ b_plus ⫽ cd ⋆ p ⫽ od ⋆ t.k ⫽ s ⋆ s ⫽ x0 ⋆ s ⫽ x0
  ok (dt1 ⊞ dt2 ⊞ dt3 ⊟ dt4)

unfoldable pub inverse_long_coefficients : ℤ → CurveInput → Outcome Cubic
inverse_long_coefficients output_size n = do
  t ← inverse_long_terms output_size n
  a ← ok t.x ⋆ t.x ⫽ t.x0 ⋆ t.x ⫽ t.x0 ⋆ s ⫽ t.x0 ⋆ s ⫽ t.x0
  b ← inverse_long_b n t
  c ← inverse_long_c n t
  d ← inverse_long_d n t
  ok (record { a = a; b = b; c = c; d = d })

unfoldable pub compute_exact_in_long_inner : ℤ → CurveInput → Outcome ℤ
compute_exact_in_long_inner output_size n = do
  k ← inverse_long_coefficients output_size n
  new_stable ← newton_cubic_signed n.initial_guess k.a k.b k.c k.d
  ok (new_stable ⊟ n.init_stable)
