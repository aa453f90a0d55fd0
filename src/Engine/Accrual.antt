-- ===== src/Engine/Accrual.antt =====
-- perp-engine/src/funding.rs `update_fg`, liquidity.rs `update_snapshots` and internal_logic.rs
-- `settle_funding_and_update_snapshots`: the methods that accrue funding and move snapshots.
pub mod Stamp
use denaria_perp_arbitrum.Base.{ℕ, Bool, not, ◌&&◌, ◌==◌, if◌then◌else◌, ℤ, pos, ◌⊞◌}
use denaria_perp_arbitrum.CurveMath.Util.{signed_sum}
use denaria_perp_arbitrum.CurveMath.MulDiv.{mul_div_signed}
use denaria_perp_arbitrum.Engine.State.{Address, Engine, LiquidityEpoch, LiquidityPosition, update}
use denaria_perp_arbitrum.Engine.Monad.{
  M, ◌>>=◌, ◌>>◌, pure, call, gets, asks, modify, set_market, set_position, set_lp, when,
}
use denaria_perp_arbitrum.Engine.Epochs.{
  epoch_at, for_active_epochs, has_active_liquidity_snapshot, decrement_active_lp_count,
  increment_active_lp_count, retire_inactive_liquidity_epochs, roll_liquidity_epoch_if_needed,
}
use denaria_perp_arbitrum.Engine.FundingView.{
  compute_funding_rate, compute_funding_fee, g_increment,
}
use denaria_perp_arbitrum.Engine.MarginView.{get_lp_liquidity_balance}

-- The row G of one epoch, moved by `b`.
unfoldable pub accrued_epoch : ℤ → ℤ → LiquidityEpoch → M LiquidityEpoch
accrued_epoch b d e = do
  dg0 ← call (mul_div_signed b e.liquidity_m10 d)
  dg1 ← call (mul_div_signed b e.liquidity_m11 d)
  pure (record e { matrix_row_g0 = e.matrix_row_g0 ⊞ dg0; matrix_row_g1 = e.matrix_row_g1 ⊞ dg1 })

-- The part of `update_fg` past its test of the timestamp.
unfoldable pub accrue_funding : ℕ → ℕ → M (Unit {0})
unfolding for_active_epochs accrued_epoch
accrue_funding price timestamp = do
  e ← gets λ e. e
  block_ts ← asks λ env. env.block_timestamp
  (new_fr, new_fr_sign) ← call (compute_funding_rate e block_ts price timestamp)
  (fr, fr_sign) ←
      call (signed_sum e.market.funding_rate e.market.funding_rate_sign new_fr new_fr_sign)
  set_market λ m. record m { funding_rate = fr; funding_rate_sign = fr_sign }
  b ← call (g_increment e.config.liquidity_g_decimals new_fr new_fr_sign)
  for_active_epochs (accrued_epoch b e.config.liquidity_m_decimals)
  set_market λ m. record m { last_operation_timestamp = block_ts }

unfoldable pub update_fg : ℕ → ℕ → M (Unit {0})
update_fg price timestamp = do
  last ← gets λ e. e.market.last_operation_timestamp
  block_ts ← asks λ env. env.block_timestamp
  if last == block_ts then pure tt else accrue_funding price timestamp

-- Add the funding fee that has accrued to the fee of the trader position.
unfoldable pub settle_funding_fee : Address → ℕ × Bool → M (Unit {0})
settle_funding_fee user (local_ff, local_ff_sign) = do
  vp ← gets λ e. e.user_virtual_trader_position user
  (nff, nffs) ← call (signed_sum vp.funding_fee vp.funding_fee_sign local_ff local_ff_sign)
  set_position user λ p. record p { funding_fee = nff; funding_fee_sign = nffs }

abbrev pub stamp_funding_rate : Address → M (Unit {0})
stamp_funding_rate user = do
  m ← gets λ e. e.market
  set_position user λ p. record p {
    initial_funding_rate = m.funding_rate;
    initial_funding_rate_sign = m.funding_rate_sign;
  }

-- The snapshot fields of an LP position at zero.
abbrev pub without_snapshot : LiquidityPosition → LiquidityPosition
without_snapshot lp = record lp {
  initial_stable_balance = 0;
  initial_asset_balance = 0;
  snapshot_m00 = pos 0;
  snapshot_m01 = pos 0;
  snapshot_m10 = pos 0;
  snapshot_m11 = pos 0;
  snapshot_g0 = pos 0;
  snapshot_g1 = pos 0;
}

abbrev set_lp_epoch : Address → ℕ → M (Unit {0})
set_lp_epoch user k =
    modify λ e. record e { liquidity_position_epoch = update e.liquidity_position_epoch user k }

-- A full exit: the snapshot is dropped and its epoch released.
unfoldable pub drop_snapshot : Address → Bool → ℕ → M (Unit {0})
drop_snapshot user had_active old_epoch_id = do
  when had_active (modify (decrement_active_lp_count old_epoch_id))
  set_lp user without_snapshot
  set_lp_epoch user 0
  modify retire_inactive_liquidity_epochs

-- Count the LP in the epoch that its snapshot moves to.
unfoldable pub move_lp_count : Bool → ℕ → ℕ → Engine → Engine
move_lp_count had_active old_epoch_id new_epoch_id e =
    if not had_active
    then increment_active_lp_count new_epoch_id e
    else if not (old_epoch_id == new_epoch_id)
    then increment_active_lp_count new_epoch_id (decrement_active_lp_count old_epoch_id e)
    else e

-- The snapshot is taken in the current epoch, after a roll if one is due.
unfoldable pub take_snapshot : Address → Bool → ℕ → ℕ → ℕ → M (Unit {0})
unfolding move_lp_count
take_snapshot user had_active old_epoch_id new_initial_stable new_initial_asset = do
  roll_liquidity_epoch_if_needed
  new_epoch_id ← gets λ e. e.market.current_liquidity_epoch
  modify (move_lp_count had_active old_epoch_id new_epoch_id)
  epoch ← gets λ e. epoch_at e new_epoch_id
  set_lp user λ lp. record lp {
    snapshot_g0 = epoch.matrix_row_g0;
    snapshot_g1 = epoch.matrix_row_g1;
    snapshot_m00 = epoch.liquidity_m00;
    snapshot_m01 = epoch.liquidity_m01;
    snapshot_m10 = epoch.liquidity_m10;
    snapshot_m11 = epoch.liquidity_m11;
    initial_stable_balance = new_initial_stable;
    initial_asset_balance = new_initial_asset;
  }
  set_lp_epoch user new_epoch_id
  modify retire_inactive_liquidity_epochs

unfoldable pub update_snapshots : Address → ℕ → ℕ → M (Unit {0})
unfolding drop_snapshot take_snapshot
update_snapshots user new_initial_stable new_initial_asset = do
  stamp_funding_rate user
  had_active ← gets λ e. has_active_liquidity_snapshot e user
  old_epoch_id ← gets λ e. e.liquidity_position_epoch user
  if new_initial_stable == 0 && new_initial_asset == 0
      then drop_snapshot user had_active old_epoch_id
      else take_snapshot user had_active old_epoch_id new_initial_stable new_initial_asset

unfoldable pub settle_funding_and_update_snapshots : Address → M (Unit {0})
settle_funding_and_update_snapshots user = do
  e ← gets λ e. e
  (lp_stable_balance, lp_asset_balance) ← call (get_lp_liquidity_balance e user)
  local_fee ← call (compute_funding_fee e user)
  settle_funding_fee user local_fee
  update_snapshots user lp_stable_balance lp_asset_balance
