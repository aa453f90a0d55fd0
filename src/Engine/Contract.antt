-- ===== src/Engine/Contract.antt =====
-- The public methods of perp-engine/src/lib.rs as the calls of one contract: a transaction that
-- stops is undone, and what it leaves is the next one's storage.
pub mod Steps
pub mod Guarding
pub mod Quiet
pub mod Reach
pub mod Outsiders
pub mod Breaker
pub mod Paused
use denaria_perp_arbitrum.Base.{ℕ, Bool, false, List, [], ◌≡◌}
use denaria_perp_arbitrum.Engine.State.{Address, Role, Engine, Env, State}
use denaria_perp_arbitrum.Engine.Monad.{Step, done, halt, M}
use denaria_perp_arbitrum.Engine.Access.{
  grant_role, revoke_role, renounce_role, pause_trading, unpause_trading, set_trusted_forwarder,
}
use denaria_perp_arbitrum.Engine.Parameters.{
  Guarded, Unguarded, prepare_time_locked_parameters, set_time_locked_parameters,
  set_unguarded_parameters,
}
use denaria_perp_arbitrum.Engine.Setup.{Setup, initialize_production}
use denaria_perp_arbitrum.Engine.Entry.{
  trade, trade_for, close_and_withdraw, close_and_withdraw_for, add_liquidity_public,
  add_liquidity_for, remove_liquidity_public, remove_liquidity_for, liquidate, liquidate_for,
  batch_liquidate_for, realize_pnl, realize_pnl_for, enable_auto_close, enable_auto_close_for,
  disable_auto_close, disable_auto_close_for, auto_close_user_position,
  auto_close_user_position_for, batch_auto_close_user_position_for, update_fg_keeper,
  update_lp_snapshot,
}

-- The calls, with the arguments of the methods.
pub data Call : Type 0 where
  trading : Bool → ℕ → ℕ → ℕ → Address → ℕ → ℕ → Call
  trading_for : Address → Bool → ℕ → ℕ → ℕ → Address → ℕ → ℕ → Call
  closing : ℕ → ℕ → Address → ℕ → Call
  closing_for : Address → ℕ → ℕ → Address → ℕ → Call
  adding : ℕ → ℕ → ℕ → ℕ → Call
  adding_for : Address → ℕ → ℕ → ℕ → ℕ → Call
  removing : ℕ → ℕ → ℕ → ℕ → Call
  removing_for : Address → ℕ → ℕ → ℕ → ℕ → Call
  liquidating : Address → ℕ → ℕ → Call
  liquidating_for : Address → Address → ℕ → ℕ → Call
  batch_liquidating_for : Address → List Address → List ℕ → ℕ → Call
  realizing : ℕ → Call
  realizing_for : Address → ℕ → Call
  enabling : ℕ → ℕ → ℕ → ℕ → Call
  enabling_for : Address → ℕ → ℕ → ℕ → ℕ → Call
  disabling : Call
  disabling_for : Address → Call
  auto_closing : Address → Address → ℕ → Call
  auto_closing_for : Address → Address → Address → ℕ → Call
  batch_auto_closing_for : Address → List Address → List Address → ℕ → Call
  accruing : ℕ → Call
  snapshotting : Address → ℕ → Call
  granting : Role → Address → Call
  revoking : Role → Address → Call
  renouncing : Role → Address → Call
  pausing : Call
  unpausing : Call
  forwarding : Address → Call
  preparing : Guarded → Call
  setting : Guarded → Call
  setting_unguarded : Unguarded → Call
  initializing : Setup → Call

-- What a transaction leaves of the storage.
abbrev pub outcome : {A : Type 0} → Engine → Step A → Engine
outcome e (done x s) = s.engine
outcome e (halt f s) = e

abbrev pub run : {A : Type 0} → Env → Engine → M A → Engine
run env e m = outcome e (m env (record { engine = e; trace = [] }))

unfoldable pub transact : Env → Call → Engine → Engine
transact env (Call.trading d s m g f l r) e = run env e (trade d s m g f l r)
transact env (Call.trading_for u d s m g f l r) e = run env e (trade_for u d s m g f l r)
transact env (Call.closing s l f r) e = run env e (close_and_withdraw s l f r)
transact env (Call.closing_for u s l f r) e = run env e (close_and_withdraw_for u s l f r)
transact env (Call.adding s a m r) e = run env e (add_liquidity_public s a m r)
transact env (Call.adding_for u s a m r) e = run env e (add_liquidity_for u s a m r)
transact env (Call.removing s a m r) e = run env e (remove_liquidity_public s a m r)
transact env (Call.removing_for u s a m r) e = run env e (remove_liquidity_for u s a m r)
transact env (Call.liquidating u s r) e = run env e (liquidate u s r)
transact env (Call.liquidating_for l u s r) e = run env e (liquidate_for l u s r)
transact env (Call.batch_liquidating_for l us ss r) e = run env e (batch_liquidate_for l us ss r)
transact env (Call.realizing r) e = run env e (realize_pnl r)
transact env (Call.realizing_for u r) e = run env e (realize_pnl_for u r)
transact env (Call.enabling p l s f) e = run env e (enable_auto_close p l s f)
transact env (Call.enabling_for u p l s f) e = run env e (enable_auto_close_for u p l s f)
transact env Call.disabling e = run env e disable_auto_close
transact env (Call.disabling_for u) e = run env e (disable_auto_close_for u)
transact env (Call.auto_closing u f r) e = run env e (auto_close_user_position u f r)
transact env (Call.auto_closing_for c u f r) e = run env e (auto_close_user_position_for c u f r)
transact env (Call.batch_auto_closing_for c us fs r) e =
    run env e (batch_auto_close_user_position_for c us fs r)
transact env (Call.accruing r) e = run env e (update_fg_keeper r)
transact env (Call.snapshotting u r) e = run env e (update_lp_snapshot u r)
transact env (Call.granting q a) e = run env e (grant_role q a)
transact env (Call.revoking q a) e = run env e (revoke_role q a)
transact env (Call.renouncing q a) e = run env e (renounce_role q a)
transact env Call.pausing e = run env e pause_trading
transact env Call.unpausing e = run env e unpause_trading
transact env (Call.forwarding a) e = run env e (set_trusted_forwarder a)
transact env (Call.preparing g) e = run env e (prepare_time_locked_parameters g)
transact env (Call.setting g) e = run env e (set_time_locked_parameters g)
transact env (Call.setting_unguarded g) e = run env e (set_unguarded_parameters g)
transact env (Call.initializing a) e = run env e (initialize_production a)

-- The storage that a sequence of transactions can leave, from that of a new contract on.
pub data IsReachable : Engine → Type 0 where
  deployed : (e : Engine) → e.entered ≡ false → e.config.initialized ≡ false → IsReachable e
  after : {e : Engine} (env : Env) (c : Call) → IsReachable e → IsReachable (transact env c e)
