-- ===== src/Engine/Close.antt =====
-- perp-engine/src/close.rs: closing a position and realizing its PnL.
pub mod Cleared
pub mod Settle
use denaria_perp_arbitrum.Base.{
  ℕ, Bool, true, false, not, ◌&&◌, ◌||◌, ltb, ◌==◌, if◌then◌else◌, ◌⊕◌, ◌⊖◌, ◌⊗◌, Code, ◌/◌,
}
use denaria_perp_arbitrum.CurveMath.Util.{wad, md, md_ceil, signed_sum, util_diff_abs}
use denaria_perp_arbitrum.Engine.State.{
  Address, Engine, Event, Effect, Config, Market, VirtualTraderPosition,
}
use denaria_perp_arbitrum.Engine.Monad.{
  M, ◌>>=◌, ◌>>◌, pure, call, gets, asks, ensure, set_market, set_position, when, emit, external,
  enter, set_entered, verify_report, read_price, read_collateral,
}
use denaria_perp_arbitrum.Engine.MarginView.{
  get_lp_liquidity_balance, compute_exact_amount_in_long, calc_pnl_user, curve_a, curve_b,
}
use denaria_perp_arbitrum.Engine.Accrual.{update_fg, settle_funding_and_update_snapshots}
use denaria_perp_arbitrum.Engine.Liquidity.{remove_liquidity, clear_liquidity_position}
use denaria_perp_arbitrum.Engine.Trade.{Order, execute_trade, refresh_curve}
use denaria_perp_arbitrum.Engine.Clear.{clear_virtual_trader_position, clear_auto_close_data}

abbrev pub dust : ℕ
dust = 10_000_000_000

abbrev pub bps : ℕ
bps = 100_000

-- The traders' exposure falls by an LP's asset debt that becomes a trader's debt.
unfoldable pub drop_exposure : ℕ → Market → Market
drop_exposure debt m =
    if not m.total_trader_exposure_sign
    then record m { total_trader_exposure = m.total_trader_exposure ⊕ debt }
    else record m {
      total_trader_exposure_sign = ltb debt m.total_trader_exposure;
      total_trader_exposure = util_diff_abs m.total_trader_exposure debt;
    }

-- Pull the whole LP position into the trader's position.
unfoldable pub unwind_lp : Address → ℕ → ℕ → ℕ → ℕ → M (Unit {0})
unwind_lp user lp_stable_balance lp_asset_balance price max_liq_fee = do
  remove_liquidity lp_stable_balance lp_asset_balance user price max_liq_fee
  lp ← gets λ e. e.liquidity_position user
  set_position user λ p. record p {
    debt_asset = p.debt_asset ⊕ lp.debt_asset;
    debt_stable = p.debt_stable ⊕ lp.debt_stable;
  }
  when (ltb 0 lp.debt_asset) (set_market (drop_exposure lp.debt_asset))

abbrev closing_order : Bool → ℕ → ℕ → ℕ → Address → Address → ℕ → Order
closing_order direction size min_return guess frontend user price = record {
  direction = direction;
  size = size;
  min_trade_return = min_return;
  initial_guess = guess;
  frontend_address = frontend;
  user = user;
  spot_price = price;
}

-- The asset left over is sold.
unfoldable pub sell_surplus : Address → ℕ → ℕ → ℕ → ℕ → Address → M (Unit {0})
sell_surplus user ba da price max_slippage frontend = do
  set_position user λ p. record p { balance_asset = ba ⊖ da; debt_asset = 0 }
  let input_size = ba ⊖ da
  od ← gets λ e. e.config.oracle_decimals
  value ← call (md input_size price od)
  min_trade_return ← call (md value (bps ⊖ max_slippage) bps)
  init_guess ← gets λ e. e.market.global_liquidity_stable
  tr ←
      execute_trade (closing_order false input_size min_trade_return init_guess frontend user price)
  emit (Event.executed_trade user false input_size tr price 0)

-- The input that leaves `exact_amount_in` when the frontend part of the fees is not charged.
unfoldable pub input_without_frontend : Config → ℕ → M ℕ
input_without_frontend c exact_amount_in = do
  let ratio_dec = c.fee_fractions_decimals
  let fee_charged_fraction = ratio_dec ⊖ c.fee_frontend
  let fee_denominator = wad ⊗ ratio_dec ⊖ c.trading_fee ⊗ fee_charged_fraction
  first ← call (md_ceil exact_amount_in (wad ⊗ ratio_dec) fee_denominator)
  second ← call (md_ceil (c.flat_trading_fee ⊗ fee_charged_fraction) wad fee_denominator)
  pure (first ⊕ second)

-- The stable amount that buys `exact_amount_in` worth of the curve after fees.
unfoldable pub input_needed : Config → Address → ℕ → M ℕ
input_needed c frontend exact_amount_in =
    if frontend == 0 && ltb 0 c.fee_frontend
    then input_without_frontend c exact_amount_in
    else call (md (exact_amount_in ⊕ c.flat_trading_fee) wad (wad ⊖ c.trading_fee))

-- Code `c0`: what is left of the asset is dust.
unfoldable pub ensure_dust : Address → ℕ → M (Unit {0})
ensure_dust user price = do
  e ← gets λ e. e
  let p = e.user_virtual_trader_position user
  let pool_dust = e.market.global_liquidity_stable / dust
  let dust_bound = if ltb dust pool_dust then pool_dust else dust
  residue ← call (md (util_diff_abs p.balance_asset p.debt_asset) price e.config.oracle_decimals)
  ensure (ltb residue dust_bound) Code.c0

-- The asset debt is bought back.
unfoldable pub buy_back : Address → ℕ → ℕ → ℕ → Address → M (Unit {0})
buy_back user debt price max_slippage frontend = do
  refresh_curve true price
  e ← gets λ e. e
  let m = e.market
  let od = e.config.oracle_decimals
  exact_in ← call (
      compute_exact_amount_in_long (debt ⊕ m.dx0) price od m.global_liquidity_stable
        m.global_liquidity_stable m.global_liquidity_asset curve_a curve_b)
  needed ← input_needed e.config frontend (exact_in ⊖ m.dy0)
  value ← call (md needed od price)
  min_trade_return ← call (md value (bps ⊖ max_slippage) bps)
  tr ←
      execute_trade
        (closing_order true needed min_trade_return m.global_liquidity_asset frontend user price)
  emit (Event.executed_trade user true needed tr price 0)
  ensure_dust user price

-- The asset side of the position is closed by trades, unless it is dust.
unfoldable pub close_asset_side : Address → ℕ → ℕ → Address → M (Unit {0})
close_asset_side user price max_slippage frontend = do
  e ← gets λ e. e
  let ba = (e.user_virtual_trader_position user).balance_asset
  let da = (e.user_virtual_trader_position user).debt_asset
  residue ← call (md (util_diff_abs ba da) price e.config.oracle_decimals)
  if ltb residue dust
      then set_position user (λ p. record p { balance_asset = da })
      else ((if ltb da ba
            then sell_surplus user ba da price max_slippage frontend
            else set_position user (λ p. record p { debt_asset = da ⊖ ba; balance_asset = 0 }))
          >> (gets (λ e'. (e'.user_virtual_trader_position user).debt_asset) >>= λ da2.
              when (ltb 0 da2) (buy_back user da2 price max_slippage frontend)))

-- The insurance fund pays the loss beyond the collateral.
unfoldable pub charge_insurance : ℕ → Bool → ℕ → M (Unit {0})
charge_insurance pnl pnl_sign collateral = when (ltb collateral pnl && not pnl_sign) (
    gets (λ e. e.market) >>= λ m.
    call (signed_sum m.insurance_fund m.insurance_fund_sign (pnl ⊖ collateral) false) >>= λ r.
    set_market (λ n. record n { insurance_fund = r.0; insurance_fund_sign = r.1 }))

-- Is there anything of an LP position to unwind?
unfoldable pub has_lp_residue : Engine → Address → ℕ → ℕ → Bool
has_lp_residue e user stable asset =
    let lp = e.liquidity_position user in
    not (stable == 0) || not (asset == 0) || not (lp.debt_asset == 0) || not (lp.debt_stable == 0)

unfoldable pub close_and_withdraw_inner : ℕ → ℕ → Address → Address → ℕ → ℕ → Bool → M (ℕ × Bool)
unfolding unwind_lp close_asset_side charge_insurance
close_and_withdraw_inner max_slippage max_liq_fee frontend user price collateral is_self_close = do
  e ← gets λ e. e
  (lp_stable, lp_asset) ← call (get_lp_liquidity_balance e user)
  when (has_lp_residue e user lp_stable lp_asset)
      (unwind_lp user lp_stable lp_asset price max_liq_fee)
  clear_liquidity_position user
  close_asset_side user price max_slippage frontend
  e' ← gets λ e. e
  block_ts ← asks λ env. env.block_timestamp
  (pnl, pnl_sign) ← call (calc_pnl_user e' block_ts user price)
  ensure (not (is_self_close && not pnl_sign && not (ltb pnl collateral))) Code.c1
  clear_virtual_trader_position user
  clear_auto_close_data user 0
  charge_insurance pnl pnl_sign collateral
  emit (Event.closed_position user pnl pnl_sign)
  pure (pnl, pnl_sign)

unfoldable pub add_pnl_to_collateral : Address → ℕ → Bool → M (Unit {0})
add_pnl_to_collateral user pnl pnl_sign = do
  vault ← gets λ e. e.config.vault
  external (Effect.add_pnl_to_collateral vault user pnl pnl_sign)

unfoldable pub close_and_withdraw_outer : Address → ℕ → ℕ → Address → ℕ → M (Unit {0})
unfolding add_pnl_to_collateral
close_and_withdraw_outer user max_slippage max_liq_fee frontend report = do
  enter
  verify_report report
  price ← read_price
  collateral ← read_collateral user
  (pnl, pnl_sign) ←
      close_and_withdraw_inner max_slippage max_liq_fee frontend user price collateral true
  add_pnl_to_collateral user pnl pnl_sign
  set_entered false

-- The PnL that moves to the collateral leaves the position.
unfoldable pub settle_pnl : ℕ → Bool → VirtualTraderPosition → VirtualTraderPosition
settle_pnl pnl pnl_sign p =
    if not pnl_sign
    then (if ltb pnl p.debt_stable
        then record p { debt_stable = p.debt_stable ⊖ pnl }
        else record p {
          balance_stable = p.balance_stable ⊕ (pnl ⊖ p.debt_stable);
          debt_stable = 0;
        })
    else (if ltb pnl p.balance_stable
        then record p { balance_stable = p.balance_stable ⊖ pnl }
        else record p {
          debt_stable = p.debt_stable ⊕ (pnl ⊖ p.balance_stable);
          balance_stable = 0;
        })

unfoldable pub realize_pnl_outer : Address → ℕ → M (ℕ × Bool)
unfolding settle_pnl add_pnl_to_collateral
realize_pnl_outer user report = do
  enter
  verify_report report
  price ← read_price
  last_op_ts ← gets λ e. e.market.last_operation_timestamp
  update_fg price last_op_ts
  e ← gets λ e. e
  block_ts ← asks λ env. env.block_timestamp
  (pnl, pnl_sign) ← call (calc_pnl_user e block_ts user price)
  collateral ← read_collateral user
  ensure (pnl_sign || ltb pnl collateral) Code.r1
  settle_funding_and_update_snapshots user
  set_position user (settle_pnl pnl pnl_sign)
  add_pnl_to_collateral user pnl pnl_sign
  emit (Event.realized_pnl user pnl pnl_sign)
  set_entered false
  pure (pnl, pnl_sign)
