-- ===== src/Engine/Liquidation.antt =====
-- perp-engine/src/liquidation.rs: the liquidation of an unhealthy position.
use denaria_perp_arbitrum.Base.{
  ℤ, ℕ, Bool, false, not, ◌&&◌, ◌||◌, ltb, leb, ◌==◌, if◌then◌else◌, ◌⊕◌, ◌⊖◌, Code, ok, Outcome,
  List, [], ◌∷◌, ◌/◌,
}
use denaria_perp_arbitrum.CurveMath.Util.{md, signed_sum_to_int, util_diff_abs}
use denaria_perp_arbitrum.Engine.State.{Address, Engine, Event, Effect}
use denaria_perp_arbitrum.Engine.Monad.{
  M, ◌>>=◌, ◌>>◌, pure, call, gets, asks, ensure, when, emit, external, enter, set_entered,
  verify_report, read_price, read_collateral,
}
use denaria_perp_arbitrum.Engine.MarginView.{
  get_lp_liquidity_balance, calc_mr, calc_pnl_user_liquidation_safe,
}
use denaria_perp_arbitrum.Engine.Accrual.{
  update_fg, settle_funding_and_update_snapshots, stamp_funding_rate,
}
use denaria_perp_arbitrum.Engine.Liquidity.{remove_liquidity}
use denaria_perp_arbitrum.Engine.Trade.{ensure_margin}
use denaria_perp_arbitrum.Base.{fail}
use denaria_perp_arbitrum.Engine.Discount.{compute_liquidation_discount}
use denaria_perp_arbitrum.Engine.Transfer.{liquidate_position}
use denaria_perp_arbitrum.Engine.Close.{close_and_withdraw_inner}
use denaria_perp_arbitrum.Engine.Batch.{length, zip, has_duplicates}

abbrev pub max_liquidation_batch : ℕ
max_liquidation_batch = 100

-- The share of the position that is liquidated, and whether the position is net long.
abbrev with_side : Bool → Outcome ℕ → Outcome (ℕ × Bool)
with_side side (ok fraction) = ok (fraction, side)
with_side side (fail why) = fail why

unfoldable pub liquidated_share : Engine → Address → ℕ → ℕ → Outcome (ℕ × Bool)
liquidated_share e user asset_liq size =
    let vp = e.user_virtual_trader_position user in
    let lp = e.liquidity_position user in
    let have = asset_liq ⊕ vp.balance_asset in
    let owed = vp.debt_asset ⊕ lp.debt_asset in
    with_side (ltb owed have) (md size e.config.liquidation_decimals (util_diff_abs have owed))

-- The asset to pull from the LP position of a net-long user.
unfoldable pub asset_to_pull : Engine → Address → Bool → ℕ → ℕ → ℕ
asset_to_pull e user exposition_side size asset_share =
    let vp = e.user_virtual_trader_position user in
    let lp = e.liquidity_position user in
    let required = lp.debt_asset ⊕ size ⊖ vp.balance_asset in
    if exposition_side && ltb vp.balance_asset size
    then (if ltb asset_share required then required else asset_share)
    else asset_share

-- Pull the liquidated share of the LP position out of the pool.
unfoldable pub pull_liquidity : Address → ℕ → ℕ → ℕ → ℕ → Bool → ℕ → M (Unit {0})
pull_liquidity user size price stable_liq asset_liq exposition_side fraction = do
  e ← gets λ e. e
  let liq_dec = e.config.liquidation_decimals
  stable_to_remove ← call (md stable_liq fraction liq_dec)
  asset_share ← call (md asset_liq fraction liq_dec)
  let asset_to_remove = asset_to_pull e user exposition_side size asset_share
  when (exposition_side && ltb (e.user_virtual_trader_position user).balance_asset size)
      (ensure (leb asset_to_remove asset_liq) Code.lq1)
  when (not (stable_to_remove == 0) || not (asset_to_remove == 0))
      (remove_liquidity stable_to_remove asset_to_remove user price 0)

-- LQ1: how much may be liquidated at this margin ratio.
unfoldable pub ensure_liquidatable : ℕ → ℕ → M (Unit {0})
ensure_liquidatable margin_ratio fraction = do
  c ← gets λ e. e.config
  ensure
      (if leb margin_ratio (c.mmr / 2)
        then leb fraction c.liquidation_decimals
        else leb margin_ratio c.mmr && leb fraction (c.liquidation_decimals / 2))
      Code.lq1

unfoldable pub stamp_both : Address → Address → M (Unit {0})
stamp_both user liquidator = do stamp_funding_rate user; stamp_funding_rate liquidator

-- A full liquidation closes the user out and sweeps the collateral.
unfoldable pub close_out : Address → Address → ℕ → ℕ → M (Unit {0})
close_out liquidator user price collateral_user = do
  (cpnl, cpnl_sign) ←
      close_and_withdraw_inner 100_000 10_000_000_000 liquidator user price collateral_user false
  vault ← gets λ e. e.config.vault
  external (Effect.add_pnl_to_collateral vault user cpnl cpnl_sign)
  vault' ← gets λ e. e.config.vault
  external (Effect.remove_all_collateral_for_user vault' user)

-- The part of a liquidation before the transfer: funding, margin, snapshots, LP removal. The result
-- is the margin ratio, the share, the side, the collateral and the PnL before.
pub record Assessment : Type 0 where
  pub margin_ratio : ℕ
  pub fraction : ℕ
  pub exposition_side : Bool
  pub collateral_user : ℕ
  pub pnl_before : ℕ
  pub pnl_before_sign : Bool

unfoldable pub assess : Address → Address → ℕ → ℕ → M Assessment
assess liquidator user size price = do
  ensure (not (user == liquidator)) Code.lq0
  last_op_ts ← gets λ e. e.market.last_operation_timestamp
  update_fg price last_op_ts
  collateral_user ← read_collateral user
  e ← gets λ e. e
  block_ts ← asks λ env. env.block_timestamp
  margin_ratio ←
      call (calc_mr e block_ts user price collateral_user e.market.last_operation_timestamp)
  (pnl_before, pnl_before_sign) ← call (calc_pnl_user_liquidation_safe e block_ts user price)
  settle_funding_and_update_snapshots liquidator
  settle_funding_and_update_snapshots user
  e' ← gets λ e. e
  (stable_liq, asset_liq) ← call (get_lp_liquidity_balance e' user)
  (fraction, exposition_side) ← call (liquidated_share e' user asset_liq size)
  when (not (stable_liq == 0) || not (asset_liq == 0))
      (pull_liquidity user size price stable_liq asset_liq exposition_side fraction)
  pure (record {
    margin_ratio = margin_ratio;
    fraction = fraction;
    exposition_side = exposition_side;
    collateral_user = collateral_user;
    pnl_before = pnl_before;
    pnl_before_sign = pnl_before_sign;
  })

-- The event of a liquidation.
unfoldable pub report_liquidation : Address → Address → ℕ → ℕ → Assessment → ℕ → ℤ → M (Unit {0})
report_liquidation liquidator user size price a discount delta_pnl = do
  c ← gets λ e. e.config
  position_size ← call (md size price c.oracle_decimals)
  liquidation_fee ← call (md position_size discount c.liquidation_decimals)
  emit (
      Event.liquidated_user user liquidator a.fraction liquidation_fee position_size price delta_pnl
        a.exposition_side)

unfoldable pub liquidate_with_price : Address → Address → ℕ → ℕ → M (Unit {0})
unfolding assess ensure_liquidatable stamp_both close_out report_liquidation
liquidate_with_price liquidator user size price = do
  a ← assess liquidator user size price
  ensure_liquidatable a.margin_ratio a.fraction
  c ← gets λ e. e.config
  discount ← call (compute_liquidation_discount c.mmr c.liquidation_discount a.margin_ratio)
  liquidate_position size user discount a.exposition_side liquidator price a.collateral_user
  stamp_both user liquidator
  collateral_liquidator ← read_collateral liquidator
  ensure_margin liquidator price collateral_liquidator Code.lq2
  e ← gets λ e. e
  block_ts ← asks λ env. env.block_timestamp
  (pnl_after, pnl_after_sign) ← call (calc_pnl_user_liquidation_safe e block_ts user price)
  delta_pnl ← call (signed_sum_to_int a.pnl_before (not a.pnl_before_sign) pnl_after pnl_after_sign)
  when (a.fraction == c.liquidation_decimals) (close_out liquidator user price a.collateral_user)
  report_liquidation liquidator user size price a discount delta_pnl

unfoldable pub liquidate_impl : Address → Address → ℕ → ℕ → M (Unit {0})
liquidate_impl liquidator user size report = do
  enter
  verify_report report
  price ← read_price
  liquidate_with_price liquidator user size price
  set_entered false

unfoldable pub liquidate_each : Address → List (Address × ℕ) → ℕ → M (Unit {0})
liquidate_each liquidator [] price = pure tt
liquidate_each liquidator ((user, size) ∷ rest) price =
    liquidate_with_price liquidator user size price >>= λ _. liquidate_each liquidator rest price

unfoldable pub batch_liquidate_impl : Address → List Address → List ℕ → ℕ → M (Unit {0})
unfolding liquidate_each
batch_liquidate_impl liquidator users sizes report = do
  ensure (length users == length sizes) Code.bl1
  ensure (leb (length users) max_liquidation_batch) Code.bl2
  ensure (not (has_duplicates users)) Code.bl3
  enter
  verify_report report
  price ← read_price
  liquidate_each liquidator (zip users sizes) price
  set_entered false
