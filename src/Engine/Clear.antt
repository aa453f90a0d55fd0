-- ===== src/Engine/Clear.antt =====
-- perp-engine/src/close.rs and auto_close.rs: the deletion of a position and of an auto-close
-- configuration.
use denaria_perp_arbitrum.Base.{ℕ, false}
use denaria_perp_arbitrum.Engine.State.{Address, Event}
use denaria_perp_arbitrum.Engine.Monad.{
  M, ◌>>=◌, ◌>>◌, gets, set_position, set_auto_close, when, emit,
}

unfoldable pub clear_virtual_trader_position : Address → M (Unit {0})
clear_virtual_trader_position user = set_position user λ _. record {
  balance_stable = 0;
  balance_asset = 0;
  debt_stable = 0;
  debt_asset = 0;
  funding_fee = 0;
  funding_fee_sign = false;
  initial_funding_rate = 0;
  initial_funding_rate_sign = false;
}

-- The event is emitted only if the user had auto-close enabled; `mode` is 0 for a user's disable or
-- a normal close, 1 for a third party's close.
unfoldable pub clear_auto_close_data : Address → ℕ → M (Unit {0})
clear_auto_close_data user mode = do
  ac ← gets λ e. e.auto_close_users_data user
  when ac.authorized (emit (Event.toggled_auto_close user 0 0 mode mode))
  set_auto_close user λ _. record {
    authorized = false;
    profit_th = 0;
    loss_th = 0;
    max_slippage = 0;
    max_liq_fee = 0;
  }
