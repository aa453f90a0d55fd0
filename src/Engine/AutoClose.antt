-- ===== src/Engine/AutoClose.antt =====
-- perp-engine/src/auto_close.rs: closing a position for its owner once a threshold is met.
pub mod Skipped
use denaria_perp_arbitrum.Base.{
  ℕ, Bool, true, false, not, ◌&&◌, ◌||◌, ltb, leb, ◌==◌, if◌then◌else◌, ◌⊕◌, Code, Failure, reverts,
  List, [], ◌∷◌,
}
use denaria_perp_arbitrum.Engine.State.{Address, Event, AutoCloseData}
use denaria_perp_arbitrum.Engine.Monad.{
  M, done, halt, ◌>>=◌, ◌>>◌, pure, call, gets, asks, ensure, set_position, set_auto_close, emit,
  enter, set_entered, verify_report, read_price, read_collateral,
}
use denaria_perp_arbitrum.Engine.MarginView.{calc_pnl_user}
use denaria_perp_arbitrum.Engine.Clear.{clear_auto_close_data}
use denaria_perp_arbitrum.Engine.Close.{close_and_withdraw_inner, add_pnl_to_collateral}
use denaria_perp_arbitrum.Engine.Batch.{length, zip, has_duplicates}

abbrev pub max_autoclose_batch : ℕ
max_autoclose_batch = 100

unfoldable pub enable_auto_close_impl : Address → ℕ → ℕ → ℕ → ℕ → M (Unit {0})
enable_auto_close_impl user profit_th loss_th max_slippage max_liq_fee = do
  ensure (ltb 0 profit_th || ltb 0 loss_th) Code.a
  set_auto_close user λ _. record {
    authorized = true;
    profit_th = profit_th;
    loss_th = loss_th;
    max_slippage = max_slippage;
    max_liq_fee = max_liq_fee;
  }
  emit (Event.toggled_auto_close user profit_th loss_th max_slippage max_liq_fee)

-- Has the PnL reached the profit threshold, or the loss threshold within the collateral?
abbrev pub threshold_met : AutoCloseData → ℕ → Bool → ℕ → Bool
threshold_met ac pnl pnl_sign collateral =
    if pnl_sign
    then not (ac.profit_th == 0) && leb ac.profit_th pnl
    else not (ac.loss_th == 0) && leb ac.loss_th pnl && leb pnl collateral

-- The tests that come before any change; the result is the collateral.
unfoldable pub ensure_eligible : Address → ℕ → M ℕ
ensure_eligible user price = do
  e ← gets λ e. e
  block_ts ← asks λ env. env.block_timestamp
  let ac = e.auto_close_users_data user
  ensure ac.authorized Code.a1
  (pnl, pnl_sign) ← call (calc_pnl_user e block_ts user price)
  collateral ← read_collateral user
  ensure (threshold_met ac pnl pnl_sign collateral) Code.a1
  pure collateral

-- The fee goes from the owner to the caller, the configuration is cleared, the position closed.
unfoldable pub auto_close_eligible : Address → Address → Address → ℕ → ℕ → M (Unit {0})
unfolding add_pnl_to_collateral
auto_close_eligible caller user frontend price collateral = do
  auto_close_fee ← gets λ e. e.config.auto_close_fee
  set_position user λ p. record p { debt_stable = p.debt_stable ⊕ auto_close_fee }
  set_position caller λ p. record p { balance_stable = p.balance_stable ⊕ auto_close_fee }
  ac ← gets λ e. e.auto_close_users_data user
  clear_auto_close_data user 1
  (cpnl, cpnl_sign) ←
      close_and_withdraw_inner ac.max_slippage ac.max_liq_fee frontend user price collateral true
  add_pnl_to_collateral user cpnl cpnl_sign

unfoldable pub auto_close_with_price : Address → Address → Address → ℕ → M (Unit {0})
unfolding ensure_eligible auto_close_eligible
auto_close_with_price caller user frontend price = do
  collateral ← ensure_eligible user price
  auto_close_eligible caller user frontend price collateral

unfoldable pub auto_close_user_position_impl : Address → Address → Address → ℕ → M (Unit {0})
auto_close_user_position_impl caller user frontend report = do
  enter
  verify_report report
  price ← read_price
  auto_close_with_price caller user frontend price
  set_entered false

-- `Err(e) if e == ineligible`
abbrev pub is_ineligible : Failure → Bool
is_ineligible (reverts Code.a1) = true
is_ineligible _ = false

-- An ineligible user is skipped; the state is the one that the failed call left.
unfoldable pub skip_ineligible : M (Unit {0}) → M (Unit {0})
skip_ineligible m env s = elim (m env s) [
  | done _ s' ↦ done tt s'
  | halt e s' ↦ if is_ineligible e then done tt s' else halt e s'
]

unfoldable pub auto_close_each : Address → List (Address × Address) → ℕ → M (Unit {0})
unfolding skip_ineligible
auto_close_each caller [] price = pure tt
auto_close_each caller ((user, frontend) ∷ rest) price =
    skip_ineligible (auto_close_with_price caller user frontend price) >>= λ _.
    auto_close_each caller rest price

unfoldable pub batch_auto_close_user_position_impl :
    Address → List Address → List Address → ℕ → M (Unit {0})
unfolding auto_close_each
batch_auto_close_user_position_impl caller users frontends report = do
  ensure (length users == length frontends) Code.ba1
  ensure (leb (length users) max_autoclose_batch) Code.ba2
  ensure (not (has_duplicates users)) Code.ba3
  enter
  verify_report report
  price ← read_price
  auto_close_each caller (zip users frontends) price
  set_entered false
