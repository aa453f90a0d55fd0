-- ===== src/Engine/Entry.antt =====
-- perp-engine/src/lib.rs: the public methods. A plain method acts for its caller, a `_for` method for
-- the user that the trusted forwarder names.
pub mod Forwarding
use denaria_perp_arbitrum.Base.{ℕ, Bool, List, Code}
use denaria_perp_arbitrum.Engine.State.{Address}
use denaria_perp_arbitrum.Engine.Monad.{
  M, ◌>>=◌, ◌>>◌, gets, asks, ensure, verify_report, read_price,
}
use denaria_perp_arbitrum.Engine.Epochs.{has_active_liquidity_snapshot}
use denaria_perp_arbitrum.Engine.Accrual.{update_fg, settle_funding_and_update_snapshots}
use denaria_perp_arbitrum.Engine.Access.{require_forwarder}
use denaria_perp_arbitrum.Engine.Clear.{clear_auto_close_data}
use denaria_perp_arbitrum.Engine.Trade.{trade_impl}
use denaria_perp_arbitrum.Engine.Close.{close_and_withdraw_outer, realize_pnl_outer}
use denaria_perp_arbitrum.Engine.Liquidity.{add_liquidity_outer, remove_liquidity_outer}
use denaria_perp_arbitrum.Engine.Liquidation.{liquidate_impl, batch_liquidate_impl}
use denaria_perp_arbitrum.Engine.AutoClose.{
  enable_auto_close_impl, auto_close_user_position_impl, batch_auto_close_user_position_impl,
}

-- `let user = self.vm().msg_sender();` in front of a method.
abbrev as_caller : {A : Type 0} → (Address → M A) → M A
as_caller method = asks (λ env. env.msg_sender) >>= method

-- `let user = self.require_forwarder(user)?;` in front of a method.
abbrev as_user : {A : Type 0} → Address → (Address → M A) → M A
as_user user method = require_forwarder user >>= method

unfoldable pub trade : Bool → ℕ → ℕ → ℕ → Address → ℕ → ℕ → M ℕ
trade direction size min_return guess frontend leverage report =
    as_caller λ user. trade_impl user direction size min_return guess frontend leverage report

unfoldable pub trade_for : Address → Bool → ℕ → ℕ → ℕ → Address → ℕ → ℕ → M ℕ
trade_for user direction size min_return guess frontend leverage report =
    as_user user λ user. trade_impl user direction size min_return guess frontend leverage report

unfoldable pub close_and_withdraw : ℕ → ℕ → Address → ℕ → M (Unit {0})
close_and_withdraw max_slippage max_liq_fee frontend report =
    as_caller λ user. close_and_withdraw_outer user max_slippage max_liq_fee frontend report

unfoldable pub close_and_withdraw_for : Address → ℕ → ℕ → Address → ℕ → M (Unit {0})
close_and_withdraw_for user max_slippage max_liq_fee frontend report =
    as_user user λ user. close_and_withdraw_outer user max_slippage max_liq_fee frontend report

unfoldable pub add_liquidity_public : ℕ → ℕ → ℕ → ℕ → M (Unit {0})
add_liquidity_public stable asset max_fee_value report =
    as_caller λ sender. add_liquidity_outer sender stable asset max_fee_value report

unfoldable pub add_liquidity_for : Address → ℕ → ℕ → ℕ → ℕ → M (Unit {0})
add_liquidity_for user stable asset max_fee_value report =
    as_user user λ sender. add_liquidity_outer sender stable asset max_fee_value report

unfoldable pub remove_liquidity_public : ℕ → ℕ → ℕ → ℕ → M (Unit {0})
remove_liquidity_public stable asset max_fee_value report =
    as_caller λ sender. remove_liquidity_outer sender stable asset max_fee_value report

unfoldable pub remove_liquidity_for : Address → ℕ → ℕ → ℕ → ℕ → M (Unit {0})
remove_liquidity_for user stable asset max_fee_value report =
    as_user user λ sender. remove_liquidity_outer sender stable asset max_fee_value report

unfoldable pub liquidate : Address → ℕ → ℕ → M (Unit {0})
liquidate user size report = as_caller λ liquidator. liquidate_impl liquidator user size report

unfoldable pub liquidate_for : Address → Address → ℕ → ℕ → M (Unit {0})
liquidate_for liquidator user size report =
    as_user liquidator λ liquidator. liquidate_impl liquidator user size report

unfoldable pub batch_liquidate_for : Address → List Address → List ℕ → ℕ → M (Unit {0})
batch_liquidate_for liquidator users sizes report =
    as_user liquidator λ liquidator. batch_liquidate_impl liquidator users sizes report

unfoldable pub realize_pnl : ℕ → M (ℕ × Bool)
realize_pnl report = as_caller λ user. realize_pnl_outer user report

unfoldable pub realize_pnl_for : Address → ℕ → M (ℕ × Bool)
realize_pnl_for user report = as_user user λ user. realize_pnl_outer user report

unfoldable pub enable_auto_close : ℕ → ℕ → ℕ → ℕ → M (Unit {0})
enable_auto_close profit_th loss_th max_slippage max_liq_fee =
    as_caller λ user. enable_auto_close_impl user profit_th loss_th max_slippage max_liq_fee

unfoldable pub enable_auto_close_for : Address → ℕ → ℕ → ℕ → ℕ → M (Unit {0})
enable_auto_close_for user profit_th loss_th max_slippage max_liq_fee =
    as_user user λ user. enable_auto_close_impl user profit_th loss_th max_slippage max_liq_fee

unfoldable pub disable_auto_close : M (Unit {0})
disable_auto_close = as_caller λ user. clear_auto_close_data user 0

unfoldable pub disable_auto_close_for : Address → M (Unit {0})
disable_auto_close_for user = as_user user λ user. clear_auto_close_data user 0

unfoldable pub auto_close_user_position : Address → Address → ℕ → M (Unit {0})
auto_close_user_position user frontend report =
    as_caller λ caller. auto_close_user_position_impl caller user frontend report

unfoldable pub auto_close_user_position_for : Address → Address → Address → ℕ → M (Unit {0})
auto_close_user_position_for caller user frontend report =
    as_user caller λ caller. auto_close_user_position_impl caller user frontend report

unfoldable pub batch_auto_close_user_position_for :
    Address → List Address → List Address → ℕ → M (Unit {0})
batch_auto_close_user_position_for caller users frontends report =
    as_user caller λ caller. batch_auto_close_user_position_impl caller users frontends report

unfoldable pub update_fg_keeper : ℕ → M (Unit {0})
update_fg_keeper report = do
  verify_report report
  price ← read_price
  last_op_ts ← gets λ e. e.market.last_operation_timestamp
  update_fg price last_op_ts

unfoldable pub update_lp_snapshot : Address → ℕ → M (Unit {0})
update_lp_snapshot user report = do
  active ← gets λ e. has_active_liquidity_snapshot e user
  ensure active Code.ls0
  verify_report report
  price ← read_price
  last_op_ts ← gets λ e. e.market.last_operation_timestamp
  update_fg price last_op_ts
  settle_funding_and_update_snapshots user
