-- ===== src/Engine/Liquidity.antt =====
-- perp-engine/src/liquidity.rs: liquidity that is added to and removed from the pool.
use denaria_perp_arbitrum.Base.{
  ℕ, true, false, not, ◌&&◌, ◌||◌, ltb, leb, ◌==◌, if◌then◌else◌, pos, ◌⊕◌, ◌⊖◌, ◌⊗◌, Code,
}
use denaria_perp_arbitrum.CurveMath.Util.{i, u, md, reduce_value, util_diff_abs}
use denaria_perp_arbitrum.CurveMath.Fees.{
  FeeInput, compute_liquidity_removal_fee, compute_liquidity_deposit_fee,
}
use denaria_perp_arbitrum.Engine.State.{Address, Engine, Event, Market}
use denaria_perp_arbitrum.Engine.Monad.{
  M, ◌>>=◌, ◌>>◌, pure, call, gets, asks, ensure, set_market, set_position, set_lp, when, emit,
  enter, set_entered, verify_report, read_price, read_collateral,
}
use denaria_perp_arbitrum.Engine.Epochs.{UpdateKind, apply_liquidity_matrix_update}
use denaria_perp_arbitrum.Engine.FundingView.{compute_funding_fee, compute_funding_fee_with}
use denaria_perp_arbitrum.Engine.MarginView.{get_lp_liquidity_balance, calc_pnl_user, rate_after}
use denaria_perp_arbitrum.Engine.Accrual.{update_fg, settle_funding_fee, update_snapshots}

abbrev pub fee_decimals : ℕ
fee_decimals = 10_000_000_000

-- The matrix update of a fee, and its credit to the stable side.
unfoldable pub spread_fee : ℕ → ℕ → M (Unit {0})
spread_fee fee_value total_liq_value = do
  m ← gets λ e. e.market
  liq_m_dec ← gets λ e. e.config.liquidity_m_decimals
  liq_m_dec_u ← call (u liq_m_dec)
  fee_stable ← call (md fee_value m.global_liquidity_stable total_liq_value)
  a_x_word ← call (md fee_stable liq_m_dec_u m.global_liquidity_stable)
  a_x ← call (i a_x_word)
  a_y_word ← call (md (fee_value ⊖ fee_stable) liq_m_dec_u m.global_liquidity_asset)
  a_y ← call (i a_y_word)
  apply_liquidity_matrix_update a_x a_y UpdateKind.fee
  set_market λ n. record n { global_liquidity_stable = m.global_liquidity_stable ⊕ fee_value }

unfoldable pub distribute_liquidity_fee : ℕ → ℕ → M (Unit {0})
distribute_liquidity_fee fee_value spot_price = do
  m ← gets λ e. e.market
  oracle_dec ← gets λ e. e.config.oracle_decimals
  asset_value ← call (md m.global_liquidity_asset spot_price oracle_dec)
  let total_liq_value = m.global_liquidity_stable ⊕ asset_value
  when
      (ltb 0 fee_value
        && not (m.global_liquidity_asset == 0)
        && not (m.global_liquidity_stable == 0)
        && ltb 0 total_liq_value)
      (spread_fee fee_value total_liq_value)

abbrev fee_input : Engine → ℕ → ℕ → ℕ → FeeInput
fee_input e stable asset price = record {
  stable_liquidity = stable;
  asset_liquidity = asset;
  initial_stable_liquidity = e.market.global_liquidity_stable;
  initial_asset_liquidity = e.market.global_liquidity_asset;
  price = price;
  oracle_decimals = e.config.oracle_decimals;
  liquidity_max_fee = e.config.liquidity_max_fee;
  liquidity_min_fee = e.config.liquidity_min_fee;
  liquidity_fee_k = e.config.liquidity_fee_k;
  liquidity_fee_decimals = fee_decimals;
}

-- What the trader takes out of a removal after the fee: the stable amount that is left, with a
-- shortfall charged to the trader's stable debt.
unfoldable pub deduct_removal_fee : Address → ℕ → ℕ → M ℕ
deduct_removal_fee user stable_to_remove fee_value =
    if leb fee_value stable_to_remove then pure (stable_to_remove ⊖ fee_value) else do
      set_position user
          λ p. record p { debt_stable = p.debt_stable ⊕ (fee_value ⊖ stable_to_remove) }
      pure 0

-- Repay the LP debt first, then credit the trader balances; the amounts that were credited.
unfoldable pub credit_removed : Address → ℕ → ℕ → M (ℕ × ℕ)
credit_removed user stable_to_remove asset_to_remove = do
  lp ← gets λ e. e.liquidity_position user
  let (stable, new_lp_debt_stable) = reduce_value stable_to_remove lp.debt_stable
  let (asset, new_lp_debt_asset) = reduce_value asset_to_remove lp.debt_asset
  set_lp user λ l. record l { debt_stable = new_lp_debt_stable; debt_asset = new_lp_debt_asset }
  set_position user λ p. record p {
    balance_stable = p.balance_stable ⊕ stable;
    balance_asset = p.balance_asset ⊕ asset;
  }
  pure (stable, asset)

-- The traders' exposure grows by an asset amount that leaves the pool.
unfoldable pub add_exposure : ℕ → Market → Market
add_exposure asset m =
    if m.total_trader_exposure_sign
    then record m { total_trader_exposure = m.total_trader_exposure ⊕ asset }
    else record m {
      total_trader_exposure_sign = ltb m.total_trader_exposure asset;
      total_trader_exposure = util_diff_abs m.total_trader_exposure asset;
    }

-- A new reference point of the curve.
unfoldable pub reset_curve : ℕ → M (Unit {0})
reset_curve price = do
  block_ts ← asks λ env. env.block_timestamp
  set_market
      λ m. record m { last_curve_update = block_ts; last_validated_price = price; dy0 = 0; dx0 = 0 }

-- The fee of a removal: checked against the user's limit.
unfoldable pub removal_fee_value : ℕ → ℕ → ℕ → ℕ → M ℕ
removal_fee_value stable_to_remove asset_to_remove spot_price max_fee_value = do
  e ← gets λ e. e
  fee ←
      call (compute_liquidity_removal_fee (fee_input e stable_to_remove asset_to_remove spot_price))
  asset_value ← call (md asset_to_remove spot_price e.config.oracle_decimals)
  fee_value ← call (md (stable_to_remove ⊕ asset_value) fee fee_decimals)
  ensure (leb fee_value max_fee_value || max_fee_value == 0) Code.l6
  pure fee_value

-- Take the removed amounts out of the pool.
unfoldable pub withdraw_from_pool : ℕ → ℕ → M (Unit {0})
withdraw_from_pool stable_to_remove asset_to_remove = do
  m ← gets λ e. e.market
  ensure
      (leb stable_to_remove m.global_liquidity_stable
        && leb asset_to_remove m.global_liquidity_asset)
      Code.rla
  set_market λ n. record n {
    global_liquidity_stable = m.global_liquidity_stable ⊖ stable_to_remove;
    global_liquidity_asset = m.global_liquidity_asset ⊖ asset_to_remove;
  }

-- The settlement of funding and snapshots that opens a removal.
unfoldable pub open_removal : ℕ → ℕ → Address → ℕ → M (Unit {0})
open_removal stable_to_remove asset_to_remove user spot_price = do
  e ← gets λ e. e
  (lp_stable, lp_asset) ← call (get_lp_liquidity_balance e user)
  ensure (leb stable_to_remove lp_stable && leb asset_to_remove lp_asset) Code.l5
  update_fg spot_price e.market.last_operation_timestamp
  e' ← gets λ e. e
  local_fee ← call (compute_funding_fee e' user)
  settle_funding_fee user local_fee
  update_snapshots user (lp_stable ⊖ stable_to_remove) (lp_asset ⊖ asset_to_remove)

unfoldable pub remove_liquidity : ℕ → ℕ → Address → ℕ → ℕ → M (Unit {0})
unfolding open_removal removal_fee_value withdraw_from_pool deduct_removal_fee credit_removed
    add_exposure reset_curve
remove_liquidity stable_to_remove asset_to_remove user spot_price max_fee_value = do
  open_removal stable_to_remove asset_to_remove user spot_price
  fee_value ← removal_fee_value stable_to_remove asset_to_remove spot_price max_fee_value
  withdraw_from_pool stable_to_remove asset_to_remove
  distribute_liquidity_fee fee_value spot_price
  stable_left ← deduct_removal_fee user stable_to_remove fee_value
  (stable, asset) ← credit_removed user stable_left asset_to_remove
  when (ltb 0 asset) (set_market (add_exposure asset))
  reset_curve spot_price
  emit (Event.liquidity_moved user stable asset fee_value false)

-- The LP debt grows by the deposit, and by the part of the fee that the deposit does not cover;
-- the stable amount that is left of the deposit.
unfoldable pub borrow_deposit : Address → ℕ → ℕ → ℕ → M ℕ
borrow_deposit sender liquidity_stable liquidity_asset fee_value = do
  set_lp sender λ lp. record lp {
    debt_stable = lp.debt_stable ⊕ liquidity_stable;
    debt_asset = lp.debt_asset ⊕ liquidity_asset;
  }
  if leb fee_value liquidity_stable
      then pure (liquidity_stable ⊖ fee_value)
      else set_lp sender
          (λ lp. record lp { debt_stable = lp.debt_stable ⊕ (fee_value ⊖ liquidity_stable) })
        >>= λ _. pure 0

-- Take the LP's old balance out of the pool (if it is not empty) and put the new one in.
unfoldable pub rebase_pool : ℕ → ℕ → ℕ → ℕ → Market → Market
rebase_pool old_lp_stable old_lp_asset liquidity_stable liquidity_asset m =
    if not (m.global_liquidity_asset == 0) || not (m.global_liquidity_stable == 0)
    then record m {
      global_liquidity_stable = m.global_liquidity_stable ⊖ old_lp_stable ⊕ liquidity_stable;
      global_liquidity_asset = m.global_liquidity_asset ⊖ old_lp_asset ⊕ liquidity_asset;
    }
    else record m {
      global_liquidity_stable = m.global_liquidity_stable ⊕ liquidity_stable;
      global_liquidity_asset = m.global_liquidity_asset ⊕ liquidity_asset;
    }

unfoldable pub add_liquidity : ℕ → ℕ → ℕ → ℕ → Address → M (Unit {0})
unfolding borrow_deposit rebase_pool
add_liquidity liquidity_stable liquidity_asset fee_value spot_price sender = do
  e ← gets λ e. e
  block_ts ← asks λ env. env.block_timestamp
  let last_op_ts = e.market.last_operation_timestamp
  (local_fr, local_fr_sign) ← call (rate_after e block_ts spot_price last_op_ts)
  local_fee ← call (compute_funding_fee_with e sender local_fr local_fr_sign)
  settle_funding_fee sender local_fee
  update_fg spot_price last_op_ts
  stable_left ← borrow_deposit sender liquidity_stable liquidity_asset fee_value
  distribute_liquidity_fee fee_value spot_price
  e' ← gets λ e. e
  (old_lp_stable, old_lp_asset) ← call (get_lp_liquidity_balance e' sender)
  let stable = stable_left ⊕ old_lp_stable
  let asset = liquidity_asset ⊕ old_lp_asset
  set_market (rebase_pool old_lp_stable old_lp_asset stable asset)
  update_snapshots sender stable asset
  emit (Event.liquidity_moved sender stable asset fee_value true)

-- Code `c1`: the PnL is a gain, or a loss below the collateral.
unfoldable pub ensure_solvent : Address → ℕ → ℕ → M (Unit {0})
ensure_solvent user price collateral = do
  e ← gets λ e. e
  block_ts ← asks λ env. env.block_timestamp
  (pnl, pnl_sign) ← call (calc_pnl_user e block_ts user price)
  ensure (ltb pnl collateral || pnl_sign) Code.c1

-- L2: the fee of a deposit, within the user's limit.
unfoldable pub deposit_fee_value : ℕ → ℕ → ℕ → ℕ → M ℕ
deposit_fee_value liquidity_stable liquidity_asset price max_fee_value = do
  e ← gets λ e. e
  curve_fee ←
      call (compute_liquidity_deposit_fee (fee_input e liquidity_stable liquidity_asset price))
  let fee =
      if e.market.global_liquidity_asset == 0 && e.market.global_liquidity_stable == 0
      then 0
      else curve_fee
  asset_value ← call (md liquidity_asset price e.config.oracle_decimals)
  fee_value ← call (md (liquidity_stable ⊕ asset_value) fee fee_decimals)
  ensure (leb fee_value max_fee_value || max_fee_value == 0) Code.l2
  pure fee_value

-- L1 and L4: the movement is worth the minimum.
unfoldable pub ensure_movement : ℕ → ℕ → ℕ → Code → M (Unit {0})
ensure_movement stable asset price why = do
  c ← gets λ e. e.config
  asset_value ← call (md asset price c.oracle_decimals)
  ensure (leb c.minimum_liquidity_movement (stable ⊕ asset_value)) why

-- L3: the total debt is backed by the collateral at the maximal LP leverage.
unfoldable pub ensure_backed : Address → ℕ → ℕ → M (Unit {0})
ensure_backed sender price collateral = do
  e ← gets λ e. e
  let lp = e.liquidity_position sender
  let vp = e.user_virtual_trader_position sender
  asset_value ← call (md (lp.debt_asset ⊕ vp.debt_asset) price e.config.oracle_decimals)
  ensure
      (leb (lp.debt_stable ⊕ vp.debt_stable ⊕ asset_value) (collateral ⊗ e.config.max_lp_leverage))
      Code.l3

unfoldable pub add_liquidity_outer : Address → ℕ → ℕ → ℕ → ℕ → M (Unit {0})
unfolding ensure_movement deposit_fee_value ensure_solvent ensure_backed
add_liquidity_outer sender liquidity_stable liquidity_asset max_fee_value report = do
  enter
  verify_report report
  price ← read_price
  ensure_movement liquidity_stable liquidity_asset price Code.l1
  fee_value ← deposit_fee_value liquidity_stable liquidity_asset price max_fee_value
  add_liquidity liquidity_stable liquidity_asset fee_value price sender
  reset_curve price
  collateral ← read_collateral sender
  ensure_solvent sender price collateral
  ensure_backed sender price collateral
  set_entered false

unfoldable pub remove_liquidity_outer : Address → ℕ → ℕ → ℕ → ℕ → M (Unit {0})
unfolding ensure_movement ensure_solvent
remove_liquidity_outer sender stable_to_remove asset_to_remove max_fee_value report = do
  enter
  verify_report report
  price ← read_price
  ensure_movement stable_to_remove asset_to_remove price Code.l4
  remove_liquidity stable_to_remove asset_to_remove sender price max_fee_value
  collateral ← read_collateral sender
  ensure_solvent sender price collateral
  set_entered false

unfoldable pub clear_liquidity_position : Address → M (Unit {0})
clear_liquidity_position user = set_lp user λ _. record {
  initial_stable_balance = 0;
  initial_asset_balance = 0;
  debt_stable = 0;
  debt_asset = 0;
  snapshot_m00 = pos 0;
  snapshot_m01 = pos 0;
  snapshot_m10 = pos 0;
  snapshot_m11 = pos 0;
  snapshot_g0 = pos 0;
  snapshot_g1 = pos 0;
}
