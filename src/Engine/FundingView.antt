-- ===== src/Engine/FundingView.antt =====
-- perp-engine/src/funding.rs: the funding rate and the funding fee, read from the storage.
use denaria_perp_arbitrum.Base.{
  ℕ, Bool, true, false, not, ◌||◌, ltb, ◌==◌, if◌then◌else◌, same_flag, ℤ, pos, is_nonneg, ◌⊕◌, ◌⊖◌,
  ◌⊗◌, ◌⊞◌, ◌⊟◌, negate, Outcome, Code, ok, revert, ◌>>=◌,
}
use denaria_perp_arbitrum.CurveMath.Util.{wad, i, u, md, divide, signed_sum}
use denaria_perp_arbitrum.CurveMath.MulDiv.{mul_div_signed}
use denaria_perp_arbitrum.CurveMath.Matrix.{Matrix, recover_funding_star_from_snapshot}
use denaria_perp_arbitrum.Engine.State.{Address, Engine, LiquidityEpoch, LiquidityPosition}
use denaria_perp_arbitrum.Engine.Epochs.{epoch_at}

-- The coefficient by the exposure and the pool, and its share of the funding interval.
unfoldable pub funding_rate_over : Engine → ℕ → ℕ → Outcome (ℕ × Bool)
funding_rate_over e price delta = do
  price_o ← md price wad e.config.oracle_decimals
  exposure ← md e.market.total_trader_exposure price_o wad
  let raw = exposure ⊗ 100_000 ⊗ wad
  denom_asset ← md e.market.global_liquidity_asset price_o wad
  let denom = e.config.funding_c ⊗ (denom_asset ⊕ e.market.global_liquidity_stable)
  coeff ← divide raw denom
  new_rate ← md coeff delta e.config.funding_interval
  rate ← md price_o new_rate wad
  ok (rate, e.market.total_trader_exposure_sign)

unfoldable pub compute_funding_rate : Engine → ℕ → ℕ → ℕ → Outcome (ℕ × Bool)
compute_funding_rate e block_ts price timestamp =
    if ltb block_ts timestamp
    then revert Code.f1
    else if e.market.global_liquidity_asset ⊕ e.market.global_liquidity_stable == 0
    then ok (0, true)
    else funding_rate_over e price (block_ts ⊖ timestamp)

-- `b`: a change of the funding rate on the scale of the row G.
unfoldable pub g_increment : ℕ → ℕ → Bool → Outcome ℤ
g_increment g_decimals rate sign = do
  scaled ← md rate g_decimals wad
  b ← i scaled
  ok (if sign then b else negate b)

-- epoch.G - snapshot.G + b * M[1][column] / decimals
unfoldable pub delta_g : ℤ → ℤ → ℤ → ℤ → ℤ → Outcome ℤ
delta_g row snapshot b entry decimals = do
  moved ← mul_div_signed b entry decimals
  ok (row ⊟ snapshot ⊞ moved)

abbrev pub snapshot_matrix : LiquidityPosition → Matrix
snapshot_matrix lp = record {
  m00 = lp.snapshot_m00;
  m01 = lp.snapshot_m01;
  m10 = lp.snapshot_m10;
  m11 = lp.snapshot_m11;
}

abbrev pub epoch_matrix : LiquidityEpoch → Matrix
epoch_matrix epoch = record {
  m00 = epoch.liquidity_m00;
  m01 = epoch.liquidity_m01;
  m10 = epoch.liquidity_m10;
  m11 = epoch.liquidity_m11;
}

abbrev holds_shares : LiquidityPosition → Bool
holds_shares lp = not (lp.initial_stable_balance == 0) || not (lp.initial_asset_balance == 0)

-- The part of the fee that accrued to the LP position: its magnitude and sign.
unfoldable pub funding_star : Engine → Address → ℕ → Bool → Outcome ℤ
funding_star e user fr fr_sign = do
  let lp = e.liquidity_position user
  let epoch = epoch_at e (e.liquidity_position_epoch user)
  let m_dec = e.config.liquidity_m_decimals
  let g_dec = e.config.liquidity_g_decimals
  (delta_f, delta_f_sign) ←
      signed_sum fr fr_sign e.market.funding_rate (not e.market.funding_rate_sign)
  b ← g_increment g_dec delta_f delta_f_sign
  delta_g0 ← delta_g epoch.matrix_row_g0 lp.snapshot_g0 b epoch.liquidity_m10 m_dec
  delta_g1 ← delta_g epoch.matrix_row_g1 lp.snapshot_g1 b epoch.liquidity_m11 m_dec
  if holds_shares lp
      then recover_funding_star_from_snapshot delta_g0 delta_g1 (snapshot_matrix lp)
          lp.initial_stable_balance lp.initial_asset_balance m_dec g_dec
      else ok (pos 0)

unfoldable pub compute_funding_fee_with : Engine → Address → ℕ → Bool → Outcome (ℕ × Bool)
compute_funding_fee_with e user fr fr_sign = do
  let lp = e.liquidity_position user
  let vp = e.user_virtual_trader_position user
  star ← funding_star e user fr fr_sign
  (delta_f2, delta_f2_sign) ←
      signed_sum fr fr_sign vp.initial_funding_rate (not vp.initial_funding_rate_sign)
  (exposure, exposure_sign) ← signed_sum vp.balance_asset true (vp.debt_asset ⊕ lp.debt_asset) false
  abs_star ← (if is_nonneg star then u star else u (negate star))
  trader_part ← md exposure delta_f2 wad
  signed_sum abs_star (is_nonneg star) trader_part (same_flag delta_f2_sign exposure_sign)

unfoldable pub compute_funding_fee : Engine → Address → Outcome (ℕ × Bool)
compute_funding_fee e user =
    compute_funding_fee_with e user e.market.funding_rate e.market.funding_rate_sign
