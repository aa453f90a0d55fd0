-- ===== src/Engine/MarginView.antt =====
-- perp-engine/src/internal_logic.rs and the curve calls of trade.rs: LP balance, PnL and margin
-- ratio, read from the storage.
pub mod Clamp
use denaria_perp_arbitrum.Base.{
  ℕ, Bool, true, false, not, ◌&&◌, ltb, ◌==◌, if◌then◌else◌, pos, ◌⊕◌, ◌⊖◌, Outcome, Code, ok,
  revert, ◌>>=◌,
}
use denaria_perp_arbitrum.CurveMath.Util.{i, u, u_or_zero, md, signed_sum, util_diff_abs}
use denaria_perp_arbitrum.CurveMath.Matrix.{recover_lp_balance_from_snapshot}
use denaria_perp_arbitrum.CurveMath.Curve.{
  CurveInput, compute_long_return_inner, compute_short_return_inner,
}
use denaria_perp_arbitrum.CurveMath.Inverse.{compute_exact_in_long_inner}
use denaria_perp_arbitrum.Engine.State.{Address, Engine}
use denaria_perp_arbitrum.Engine.Epochs.{epoch_at, is_zero}
use denaria_perp_arbitrum.Engine.FundingView.{
  compute_funding_rate, compute_funding_fee_with, snapshot_matrix, epoch_matrix,
}

-- The curve parameters A and B that every call passes, and the curve decimals.
abbrev pub curve_a : ℕ
curve_a = 100_000_000

abbrev pub curve_b : ℕ
curve_b = 10_000_000

abbrev pub curve_decimals : ℕ
curve_decimals = 100_000_000

unfoldable pub curve_input : ℕ → ℕ → ℕ → ℕ → ℕ → ℕ → ℕ → Outcome CurveInput
curve_input spot od guess stable asset a b = do
  p ← i spot
  o ← i od
  g ← i guess
  y ← i stable
  x ← i asset
  pa ← i a
  pb ← i b
  ok (record {
    spot_price = p;
    oracle_dec = o;
    initial_guess = g;
    init_stable = y;
    init_asset = x;
    param_a = pa;
    param_b = pb;
    curve_dec = pos curve_decimals;
  })

unfoldable pub compute_long_return : ℕ → ℕ → ℕ → ℕ → ℕ → ℕ → ℕ → ℕ → Outcome ℕ
compute_long_return size spot od guess stable asset a b = do
  z ← i size
  n ← curve_input spot od guess stable asset a b
  r ← compute_long_return_inner z n
  u r

unfoldable pub compute_short_return : ℕ → ℕ → ℕ → ℕ → ℕ → ℕ → ℕ → ℕ → Outcome ℕ
compute_short_return size spot od guess stable asset a b = do
  z ← i size
  n ← curve_input spot od guess stable asset a b
  r ← compute_short_return_inner z n
  u r

unfoldable pub compute_exact_amount_in_long : ℕ → ℕ → ℕ → ℕ → ℕ → ℕ → ℕ → ℕ → Outcome ℕ
compute_exact_amount_in_long size spot od guess stable asset a b = do
  z ← i size
  n ← curve_input spot od guess stable asset a b
  r ← compute_exact_in_long_inner z n
  u r

abbrev pub capped : ℕ → ℕ → ℕ
capped cap amount = if ltb cap amount then cap else amount

unfoldable pub get_lp_liquidity_balance : Engine → Address → Outcome (ℕ × ℕ)
get_lp_liquidity_balance e user =
    let lp = e.liquidity_position user in
    let epoch = epoch_at e (e.liquidity_position_epoch user) in
    if is_zero lp.snapshot_m00
    then ok (0, 0)
    else if is_zero epoch.liquidity_m00
    then ok (0, 0)
    else do
      (stable_signed, asset_signed) ←
          recover_lp_balance_from_snapshot (epoch_matrix epoch) (snapshot_matrix lp)
            lp.initial_stable_balance lp.initial_asset_balance e.config.liquidity_m_decimals
      ok (
        capped e.market.global_liquidity_stable (u_or_zero stable_signed),
        capped e.market.global_liquidity_asset (u_or_zero asset_signed),
      )

-- The balances and debts of a user, with the funding fee.
pub record Holdings : Type 0 where
  pub balance_stable : ℕ
  pub balance_asset : ℕ
  pub debt_stable : ℕ
  pub debt_asset : ℕ
  pub funding_fee : ℕ
  pub funding_fee_sign : Bool

-- The value of the residual asset: at spot, or through the curve.
unfoldable pub residual_value : Engine → ℕ → Bool → ℕ → ℕ → Bool → Outcome ℕ
residual_value e diff_asset diff_asset_sign price oracle_dec use_spot_price =
    let ts = e.market.global_liquidity_stable in
    let ta = e.market.global_liquidity_asset in
    if use_spot_price
    then md diff_asset price oracle_dec
    else if diff_asset_sign
    then compute_short_return diff_asset price oracle_dec ts ts ta curve_a curve_b
    else if ltb ta diff_asset
    then revert Code.pnl1
    else compute_exact_amount_in_long diff_asset price oracle_dec ts ts ta curve_a curve_b

unfoldable pub calc_pnl : Engine → Holdings → ℕ → ℕ → Bool → Outcome (ℕ × Bool)
calc_pnl e h price oracle_dec use_spot_price = do
  (stable, stable_sign) ← signed_sum h.balance_stable true h.debt_stable false
  (diff_stable, diff_stable_sign) ←
      signed_sum stable stable_sign h.funding_fee (not h.funding_fee_sign)
  (diff_asset, diff_asset_sign) ← signed_sum h.balance_asset true h.debt_asset false
  threshold ← md 10_000_000_000_000 oracle_dec price
  short_return ←
      (if ltb threshold diff_asset
        then residual_value e diff_asset diff_asset_sign price oracle_dec use_spot_price
        else ok 0)
  signed_sum diff_stable diff_stable_sign short_return diff_asset_sign

unfoldable pub calc_hypothetical_mr : Engine → Holdings → ℕ → ℕ → Outcome ℕ
calc_hypothetical_mr e h price collateral = do
  (pnl, pnl_sign) ← calc_pnl e h price 100_000_000 true
  position_value ← md (util_diff_abs h.balance_asset h.debt_asset) price 100_000_000
  (tot_coll, tot_coll_sign) ← signed_sum collateral true pnl pnl_sign
  if not tot_coll_sign && not (tot_coll == 0)
      then ok 0
      else if position_value == 0
      then ok 1_000_000
      else md tot_coll 1_000_000 position_value

-- What the margin check reads.
pub record MarginCheck : Type 0 where
  pub margin_ratio : ℕ
  pub balance_stable : ℕ
  pub balance_asset : ℕ
  pub debt_stable : ℕ
  pub debt_asset : ℕ
  pub lp_debt_stable : ℕ
  pub lp_debt_asset : ℕ
  pub stable_lp : ℕ
  pub asset_lp : ℕ

-- A user's holdings: the trader position and the LP position, with the funding fee that has
-- accrued up to the rate `fr`.
unfoldable pub holdings : Engine → Address → ℕ × ℕ → ℕ → Bool → Outcome Holdings
holdings e user (stable_lp, asset_lp) fr fr_sign = do
  let vp = e.user_virtual_trader_position user
  let lp = e.liquidity_position user
  (local_ff, local_ff_sign) ← compute_funding_fee_with e user fr fr_sign
  (fee, fee_sign) ← signed_sum vp.funding_fee vp.funding_fee_sign local_ff local_ff_sign
  ok (record {
    balance_stable = stable_lp ⊕ vp.balance_stable;
    balance_asset = asset_lp ⊕ vp.balance_asset;
    debt_stable = vp.debt_stable ⊕ lp.debt_stable;
    debt_asset = vp.debt_asset ⊕ lp.debt_asset;
    funding_fee = fee;
    funding_fee_sign = fee_sign;
  })

-- The funding rate brought forward to `price` over the time since `timestamp`.
unfoldable pub rate_after : Engine → ℕ → ℕ → ℕ → Outcome (ℕ × Bool)
rate_after e block_ts price timestamp = do
  (nfr, nfr_sign) ← compute_funding_rate e block_ts price timestamp
  signed_sum e.market.funding_rate e.market.funding_rate_sign nfr nfr_sign

unfoldable pub margin_check_core : Engine → ℕ → Address → ℕ → ℕ → ℕ → Outcome MarginCheck
margin_check_core e block_ts user price collateral last_op_ts = do
  (stable_lp, asset_lp) ← get_lp_liquidity_balance e user
  (fr, fr_sign) ←
      (if last_op_ts == block_ts
        then ok (e.market.funding_rate, e.market.funding_rate_sign)
        else rate_after e block_ts price last_op_ts)
  h ← holdings e user (stable_lp, asset_lp) fr fr_sign
  mr ← calc_hypothetical_mr e h price collateral
  let vp = e.user_virtual_trader_position user
  let lp = e.liquidity_position user
  ok (record {
    margin_ratio = mr;
    balance_stable = vp.balance_stable;
    balance_asset = vp.balance_asset;
    debt_stable = vp.debt_stable;
    debt_asset = vp.debt_asset;
    lp_debt_stable = lp.debt_stable;
    lp_debt_asset = lp.debt_asset;
    stable_lp = stable_lp;
    asset_lp = asset_lp;
  })

unfoldable pub calc_mr : Engine → ℕ → Address → ℕ → ℕ → ℕ → Outcome ℕ
calc_mr e block_ts user price collateral last_op_ts = do
  check ← margin_check_core e block_ts user price collateral last_op_ts
  ok check.margin_ratio

unfoldable pub calc_pnl_user_internal : Engine → ℕ → Address → ℕ → Bool → Outcome (ℕ × Bool)
calc_pnl_user_internal e block_ts user price allow_fallback = do
  (stable_lp, asset_lp) ← get_lp_liquidity_balance e user
  (fr, fr_sign) ← rate_after e block_ts price e.market.last_operation_timestamp
  h ← holdings e user (stable_lp, asset_lp) fr fr_sign
  let use_spot_price =
      allow_fallback
      && (ltb h.balance_asset h.debt_asset
          && ltb e.market.global_liquidity_asset (h.debt_asset ⊖ h.balance_asset))
  calc_pnl e h price e.config.oracle_decimals use_spot_price

unfoldable pub calc_pnl_user : Engine → ℕ → Address → ℕ → Outcome (ℕ × Bool)
calc_pnl_user e block_ts user price = calc_pnl_user_internal e block_ts user price false

unfoldable pub calc_pnl_user_liquidation_safe : Engine → ℕ → Address → ℕ → Outcome (ℕ × Bool)
calc_pnl_user_liquidation_safe e block_ts user price =
    calc_pnl_user_internal e block_ts user price true
