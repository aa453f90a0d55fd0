-- ===== src/CurveMath/InverseShort.antt =====
-- src/rust/CurveMath.rs: the cubic of the inverse of a short trade, by its terms.
use denaria_perp_arbitrum.Base.{◌⊠◌, ℤ, pos, ◌⊞◌, ◌⊟◌, Outcome, ok, ◌>>=◌}
use denaria_perp_arbitrum.CurveMath.Newton.{◌⋆◌, ◌⫽◌, scale, newton_cubic_signed}
use denaria_perp_arbitrum.CurveMath.Curve.{CurveInput, Cubic}

abbrev s : ℤ
s = scale

abbrev two : ℤ
two = pos 2

-- The values that the coefficients share.
pub record ShortTerms : Type 0 where
  pub y : ℤ
  pub y0 : ℤ
  pub a_prime : ℤ
  pub lambda : ℤ
  pub k : ℤ
  pub b_plus : ℤ

unfoldable pub inverse_short_terms : ℤ → CurveInput → Outcome ShortTerms
inverse_short_terms output_size n = do
  let y = n.init_stable ⊟ output_size
  let y0 = n.init_stable
  px0 ← ok n.spot_price ⋆ n.init_asset ⫽ n.oracle_dec
  a_prime ← ok n.param_a ⋆ y0 ⫽ s ⋆ y0 ⫽ s ⋆ y0 ⫽ s ⋆ y0 ⫽ (px0 ⊞ y0)
  ok (record {
    y = y;
    y0 = y0;
    a_prime = a_prime;
    lambda = y ⊟ y0 ⊟ px0;
    k = y0 ⊟ px0;
    b_plus = n.param_b ⊞ n.curve_dec;
  })

-- `k * y / s - y0 * y0 / s`
unfoldable pub inverse_short_gap : ShortTerms → Outcome ℤ
inverse_short_gap t = do ky ← ok t.k ⋆ t.y ⫽ s; yy ← ok t.y0 ⋆ t.y0 ⫽ s; ok (ky ⊟ yy)

unfoldable pub inverse_short_b : CurveInput → ShortTerms → Outcome ℤ
inverse_short_b n t = do
  let y = t.y
  let y0 = t.y0
  let p = n.spot_price
  let od = n.oracle_dec
  let cd = n.curve_dec
  bt1 ← ok t.a_prime ⋆ y ⫽ cd ⋆ s ⫽ y0 ⋆ s ⫽ y0 ⋆ s ⫽ y0 ⋆ s ⫽ y0 ⋆ od ⫽ p
  bt2 ← ok two ⋆ y ⋆ y ⫽ y0 ⋆ y ⫽ y0 ⋆ od ⫽ p ⋆ t.k ⫽ y0 ⋆ s ⫽ y0
  bt3 ← ok two ⋆ y ⋆ t.b_plus ⫽ cd ⋆ y ⫽ y0 ⋆ s ⫽ y0 ⋆ od ⫽ p
  let bt4_1 = t.k ⊠ y ⊟ y0 ⊠ y0
  bt4 ← ok bt4_1 ⫽ s ⋆ y ⫽ y0 ⋆ y ⫽ y0 ⋆ s ⫽ y0 ⋆ s ⫽ y0 ⋆ od ⫽ p
  ok (bt1 ⊞ bt2 ⊟ bt3 ⊞ bt4)

unfoldable pub inverse_short_c : CurveInput → ShortTerms → Outcome ℤ
inverse_short_c n t = do
  let y = t.y
  let y0 = t.y0
  let p = n.spot_price
  let od = n.oracle_dec
  let cd = n.curve_dec
  let b_plus = t.b_plus
  let k_lam = t.k ⊞ t.lambda
  ct1 ← ok t.a_prime ⋆ s ⫽ cd ⋆ y ⫽ y0 ⋆ k_lam ⫽ y0 ⋆ s ⫽ y0 ⋆ s ⫽ y0 ⋆ od ⫽ p ⋆ od ⫽ p
  ct2 ← ok y ⋆ b_plus ⫽ cd ⋆ b_plus ⫽ cd ⋆ od ⫽ p ⋆ od ⫽ p
  ct3 ← ok t.k ⋆ t.k ⫽ y0 ⋆ y ⫽ y0 ⋆ y ⫽ y0 ⋆ y ⫽ y0 ⋆ od ⫽ p ⋆ od ⫽ p
  ct4 ← ok two ⋆ y ⋆ y ⫽ y0 ⋆ b_plus ⫽ cd ⋆ t.k ⫽ y0 ⋆ od ⫽ p ⋆ od ⫽ p
  gap ← inverse_short_gap t
  ct5 ← ok two ⋆ t.k ⋆ y ⫽ y0 ⋆ y ⫽ y0 ⋆ gap ⫽ s ⋆ od ⫽ p ⋆ od ⫽ p ⋆ s ⫽ y0 ⋆ s ⫽ y0
  ct6 ← ok two ⋆ y ⋆ b_plus ⫽ cd ⋆ gap ⫽ s ⋆ od ⫽ p ⋆ od ⫽ p ⋆ s ⫽ y0 ⋆ s ⫽ y0
  ok (ct1 ⊞ ct2 ⊞ ct3 ⊟ ct4 ⊞ ct5 ⊟ ct6)

unfoldable pub inverse_short_d : CurveInput → ShortTerms → Outcome ℤ
inverse_short_d n t = do
  let y = t.y
  let y0 = t.y0
  let p = n.spot_price
  let od = n.oracle_dec
  let cd = n.curve_dec
  let b_plus = t.b_plus
  dt1 ←
      ok y ⋆ s ⫽ y0 ⋆ t.a_prime ⫽ cd ⋆ s ⫽ y0 ⋆ t.k ⫽ y0 ⋆ t.lambda ⫽ y0 ⋆ od ⫽ p ⋆ od ⫽ p ⋆ od ⫽ p
  temp ← inverse_short_gap t
  dt2 ← ok temp ⋆ b_plus ⫽ cd ⋆ b_plus ⫽ cd ⋆ od ⫽ p ⋆ od ⫽ p ⋆ od ⫽ p
  dt3 ← ok temp ⋆ t.k ⫽ y0 ⋆ t.k ⫽ y0 ⋆ y ⫽ y0 ⋆ y ⫽ y0 ⋆ od ⫽ p ⋆ od ⫽ p ⋆ od ⫽ p
  dt4 ← ok two ⋆ temp ⋆ b_plus ⫽ cd ⋆ y ⫽ y0 ⋆ t.k ⫽ y0 ⋆ od ⫽ p ⋆ od ⫽ p ⋆ od ⫽ p
  ok (dt1 ⊞ dt2 ⊞ dt3 ⊟ dt4)

unfoldable pub inverse_short_coefficients : ℤ → CurveInput → Outcome Cubic
inverse_short_coefficients output_size n = do
  t ← inverse_short_terms output_size n
  a ← ok t.y ⋆ t.y ⫽ t.y0 ⋆ t.y ⫽ t.y0 ⋆ s ⫽ t.y0 ⋆ s ⫽ t.y0
  b ← inverse_short_b n t
  c ← inverse_short_c n t
  d ← inverse_short_d n t
  ok (record { a = a; b = b; c = c; d = d })

unfoldable pub compute_exact_in_short_inner : ℤ → CurveInput → Outcome ℤ
compute_exact_in_short_inner output_size n = do
  q ← inverse_short_coefficients output_size n
  new_asset ← newton_cubic_signed n.initial_guess q.a q.b q.c q.d
  ok (new_asset ⊟ n.init_asset)
