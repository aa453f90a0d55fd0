-- ===== src/Engine/Transfer.antt =====
-- perp-engine/src/liquidation.rs: the transfer of a position to a liquidator.
pub mod Sides
pub mod Refinement
pub mod Ledger
pub mod Filling
pub mod Netting
use denaria_perp_arbitrum.Base.{
  ℕ, Bool, false, not, ◌&&◌, ◌||◌, ltb, leb, if◌then◌else◌, ◌⊕◌, ◌⊖◌, ◌⊗◌, Code,
}
use denaria_perp_arbitrum.CurveMath.Util.{divide, md, signed_sum, calc_slip}
use denaria_perp_arbitrum.Engine.State.{Address, VirtualTraderPosition}
use denaria_perp_arbitrum.Engine.Monad.{
  M, ◌>>=◌, ◌>>◌, pure, call, gets, asks, ensure, set_position,
}
use denaria_perp_arbitrum.Engine.MarginView.{
  compute_short_return, compute_exact_amount_in_long, calc_pnl_user_liquidation_safe, curve_a,
  curve_b,
}
use denaria_perp_arbitrum.Engine.Trade.{assign_protocol_fee_filling_insurance}

-- Pay stable, the shortfall as debt.
unfoldable pub debit_stable : ℕ → VirtualTraderPosition → VirtualTraderPosition
debit_stable amount p =
    if leb amount p.balance_stable
    then record p { balance_stable = p.balance_stable ⊖ amount }
    else record p { debt_stable = p.debt_stable ⊕ (amount ⊖ p.balance_stable); balance_stable = 0 }

-- Receive stable, debt first.
unfoldable pub credit_stable_via_debt : ℕ → VirtualTraderPosition → VirtualTraderPosition
credit_stable_via_debt amount p =
    if leb amount p.debt_stable
    then record p { debt_stable = p.debt_stable ⊖ amount }
    else record p { balance_stable = p.balance_stable ⊕ (amount ⊖ p.debt_stable); debt_stable = 0 }

unfoldable pub debit_asset : ℕ → VirtualTraderPosition → VirtualTraderPosition
debit_asset amount p =
    if leb amount p.balance_asset
    then record p { balance_asset = p.balance_asset ⊖ amount }
    else record p { debt_asset = p.debt_asset ⊕ (amount ⊖ p.balance_asset); balance_asset = 0 }

unfoldable pub credit_asset_via_debt : ℕ → VirtualTraderPosition → VirtualTraderPosition
credit_asset_via_debt amount p =
    if leb amount p.debt_asset
    then record p { debt_asset = p.debt_asset ⊖ amount }
    else record p { balance_asset = p.balance_asset ⊕ (amount ⊖ p.debt_asset); debt_asset = 0 }

-- The stable value of the liquidated asset when the user is long: the curve's return, or spot if
-- the slippage is out of line.
unfoldable pub long_value : ℕ → ℕ → M ℕ
long_value d_amount price = do
  e ← gets λ e. e
  let m = e.market
  let od = e.config.oracle_decimals
  dy_prime ← call (
      compute_short_return d_amount price od m.global_liquidity_stable m.global_liquidity_stable
        m.global_liquidity_asset curve_a curve_b)
  p ← call (md dy_prime od d_amount)
  slip ← call (calc_slip p price 100_000_000)
  if ltb (e.config.slip_liquidation_th ⊗ m.avg_slippage_s) slip
      then call (md d_amount price od)
      else pure dy_prime

-- The same when the user is short: the cost of buying the asset back.
unfoldable pub short_curve_value : ℕ → Address → ℕ → ℕ → M ℕ
short_curve_value d_amount user price collateral = do
  e ← gets λ e. e
  block_ts ← asks λ env. env.block_timestamp
  let m = e.market
  let od = e.config.oracle_decimals
  exact_in ← call (
      compute_exact_amount_in_long d_amount price od m.global_liquidity_stable
        m.global_liquidity_stable m.global_liquidity_asset curve_a curve_b)
  (pnl0, pnl0_sign) ← call (calc_pnl_user_liquidation_safe e block_ts user price)
  spot ← call (md d_amount price od)
  (pnl, pnl_sign) ← call (signed_sum pnl0 pnl0_sign (exact_in ⊖ spot) false)
  p ← call (md exact_in od d_amount)
  slip ← call (calc_slip p price 100_000_000)
  if ltb collateral pnl && not pnl_sign
        || ltb (e.config.slip_liquidation_th ⊗ m.avg_slippage_l) slip
      then call (md d_amount price od)
      else pure exact_in

unfoldable pub short_value : ℕ → Address → ℕ → ℕ → M ℕ
short_value d_amount user price collateral = do
  e ← gets λ e. e
  if ltb e.market.global_liquidity_asset d_amount
      then call (md d_amount price e.config.oracle_decimals)
      else short_curve_value d_amount user price collateral

-- The insurance part of the discount, paid by the liquidator.
unfoldable pub pay_insurance : Address → ℕ → M (Unit {0})
pay_insurance liquidator insurance_fraction = do
  set_position liquidator (debit_stable insurance_fraction)
  assign_protocol_fee_filling_insurance insurance_fraction liquidator

-- The insurance part: `discount / ins_fund_fraction * value / liq_dec`.
unfoldable pub insurance_part : ℕ → ℕ → M ℕ
insurance_part discount dy_prime = do
  c ← gets λ e. e.config
  part ← call (divide discount c.ins_fund_fraction)
  call (md part dy_prime c.liquidation_decimals)

-- The asset goes from the user to the liquidator, the stable value `dy` back.
unfoldable pub transfer_long : ℕ → Address → Address → ℕ → ℕ → M (Unit {0})
unfolding pay_insurance
transfer_long d_amount user liquidator dy insurance_fraction = do
  up ← gets λ e. e.user_virtual_trader_position user
  ensure (leb d_amount up.balance_asset) Code.lq1
  set_position user λ p. record p { balance_asset = p.balance_asset ⊖ d_amount }
  set_position liquidator λ p. record p { balance_asset = p.balance_asset ⊕ d_amount }
  set_position liquidator (debit_stable dy)
  set_position user (credit_stable_via_debt dy)
  pay_insurance liquidator insurance_fraction

-- The debt goes from the user to the liquidator, with the stable value `dy_second`.
unfoldable pub transfer_short : ℕ → Address → Address → ℕ → ℕ → M (Unit {0})
unfolding pay_insurance
transfer_short d_amount user liquidator dy_second insurance_fraction = do
  set_position user (debit_stable dy_second)
  set_position liquidator λ p. record p { balance_stable = p.balance_stable ⊕ dy_second }
  set_position liquidator (debit_asset d_amount)
  set_position user (credit_asset_via_debt d_amount)
  pay_insurance liquidator insurance_fraction

unfoldable pub liquidate_position : ℕ → Address → ℕ → Bool → Address → ℕ → ℕ → M (Unit {0})
liquidate_position d_amount user discount direction liquidator price collateral = do
  liq_dec ← gets λ e. e.config.liquidation_decimals
  dy_prime ←
      (if direction then long_value d_amount price else short_value d_amount user price collateral)
  dy ← call (md (if direction then liq_dec ⊖ discount else liq_dec ⊕ discount) dy_prime liq_dec)
  insurance_fraction ← insurance_part discount dy_prime
  (if direction
      then transfer_long d_amount user liquidator dy insurance_fraction
      else transfer_short d_amount user liquidator dy insurance_fraction)
