-- ===== src/Engine/Contract/Reach.antt =====
-- The storage of perp-engine/src/lib.rs after any sequence of transactions.
use denaria_perp_arbitrum.Base.{true, false, [], ◌≡◌, refl, sym, ◌∙◌}
use denaria_perp_arbitrum.Engine.State.{Engine, Env, State}
use denaria_perp_arbitrum.Engine.Monad.{Step, done, halt, modify}
use denaria_perp_arbitrum.Engine.Monad.Frames.{left}
use denaria_perp_arbitrum.Engine.Monad.Laws.{Ends, Ends->>=, Ends-modify}
use denaria_perp_arbitrum.Engine.Monad.Keeps.{Keeps, Ends-Keeps}
use denaria_perp_arbitrum.Engine.Access.{
  grant_role_internal, grant_role, revoke_role, renounce_role, pause_trading, unpause_trading,
  set_trusted_forwarder,
}
use denaria_perp_arbitrum.Engine.Epochs.{initialize_liquidity_epoch}
use denaria_perp_arbitrum.Engine.Parameters.{
  narrow, multiply, prepare_time_locked_parameters, set_time_locked_parameters,
  set_unguarded_parameters,
}
use denaria_perp_arbitrum.Engine.Setup.{
  Setup, initialize_production, ensure_setup, write_setup, finalize_init, init_protocol_constants,
}
use denaria_perp_arbitrum.Engine.Entry.{
  enable_auto_close, enable_auto_close_for, disable_auto_close, disable_auto_close_for,
  update_fg_keeper, update_lp_snapshot,
}
use denaria_perp_arbitrum.Engine.Contract.{Call, transact, IsReachable, deployed, after, outcome}
use denaria_perp_arbitrum.Engine.Contract.Steps.{
  IsSound, KeepsSound, scales, protocol_scales, quiet,
}
use denaria_perp_arbitrum.Engine.Contract.Quiet.{
  steps, grant_role-Keeps, revoke_role-Keeps, renounce_role-Keeps, pause_trading-Keeps,
  unpause_trading-Keeps, set_trusted_forwarder-Keeps, prepare_time_locked_parameters-Keeps,
  set_time_locked_parameters-Keeps, set_unguarded_parameters-Keeps, enable_auto_close-Keeps,
  enable_auto_close_for-Keeps, disable_auto_close-Keeps, disable_auto_close_for-Keeps,
  update_fg_keeper-Keeps, update_lp_snapshot-Keeps,
}
use denaria_perp_arbitrum.Engine.Contract.Guarding.{
  trading-KeepsSound, trading_for-KeepsSound, closing-KeepsSound, closing_for-KeepsSound,
  adding-KeepsSound, adding_for-KeepsSound, removing-KeepsSound, removing_for-KeepsSound,
  liquidating-KeepsSound, liquidating_for-KeepsSound, realizing-KeepsSound,
  realizing_for-KeepsSound, auto_closing-KeepsSound, auto_closing_for-KeepsSound,
  batch_liquidating_for-KeepsSound, batch_auto_closing_for-KeepsSound,
}

initialize-scales :
    (env : Env) (a : Setup)
    → Ends env (λ s. scales s.engine.config ≡ protocol_scales) (initialize_production a)
unfolding initialize_production ensure_setup write_setup finalize_init init_protocol_constants
    initialize_liquidity_epoch narrow multiply grant_role_internal
initialize-scales env a = Ends->>= _ _ λ b. Ends->>= _ _ λ u.
    Ends-Keeps (λ s. scales s.engine.config) (modify init_protocol_constants) _ (λ s r e p. e ∙ p)
      (Ends-modify _ λ s. refl) λ v. search steps depth 60

initialize-Keeps :
    (env : Env) (a : Setup) → Keeps env (λ s. s.engine.entered) (initialize_production a)
unfolding initialize_production ensure_setup write_setup finalize_init init_protocol_constants
    initialize_liquidity_epoch narrow multiply grant_role_internal
initialize-Keeps env a = search steps depth 60

outcome_initialized :
    {A : Type 0} (e : Engine) (t : Step A)
    → ((y : A) (r : State) → t ≡ done y r → scales r.engine.config ≡ protocol_scales)
    → (left t).engine.entered ≡ e.entered
    → IsSound e
    → IsSound (outcome e t)
outcome_initialized e (done x s) h k (p, q) = (k ∙ p, λ i. h x s refl)
outcome_initialized e (halt f s) h k p = p

initializing-KeepsSound : (env : Env) (a : Setup) → KeepsSound env (initialize_production a)
initializing-KeepsSound env a e p =
    let s : State = record { engine = e; trace = [] } in
    outcome_initialized e (initialize_production a env s) ((initialize-scales env a).ends s)
      ((initialize-Keeps env a).keeps s) p

transact-IsSound : (env : Env) (c : Call) (e : Engine) → IsSound e → IsSound (transact env c e)
unfolding transact
transact-IsSound env (Call.trading d s m g f l r) = trading-KeepsSound env d s m g f l r
transact-IsSound env (Call.trading_for u d s m g f l r) = trading_for-KeepsSound env d s m g f l r u
transact-IsSound env (Call.closing s l f r) = closing-KeepsSound env s l f r
transact-IsSound env (Call.closing_for u s l f r) = closing_for-KeepsSound env s l f r u
transact-IsSound env (Call.adding s a m r) = adding-KeepsSound env s a m r
transact-IsSound env (Call.adding_for u s a m r) = adding_for-KeepsSound env s a m r u
transact-IsSound env (Call.removing s a m r) = removing-KeepsSound env s a m r
transact-IsSound env (Call.removing_for u s a m r) = removing_for-KeepsSound env s a m r u
transact-IsSound env (Call.liquidating u s r) = liquidating-KeepsSound env u s r
transact-IsSound env (Call.liquidating_for l u s r) = liquidating_for-KeepsSound env u s r l
transact-IsSound env (Call.batch_liquidating_for l us ss r) =
    batch_liquidating_for-KeepsSound env us ss r l
transact-IsSound env (Call.realizing r) = realizing-KeepsSound env r
transact-IsSound env (Call.realizing_for u r) = realizing_for-KeepsSound env r u
transact-IsSound env (Call.enabling p l s f) =
    quiet env (enable_auto_close p l s f) (enable_auto_close-Keeps env p l s f)
transact-IsSound env (Call.enabling_for u p l s f) =
    quiet env (enable_auto_close_for u p l s f) (enable_auto_close_for-Keeps env u p l s f)
transact-IsSound env Call.disabling = quiet env disable_auto_close (disable_auto_close-Keeps env)
transact-IsSound env (Call.disabling_for u) =
    quiet env (disable_auto_close_for u) (disable_auto_close_for-Keeps env u)
transact-IsSound env (Call.auto_closing u f r) = auto_closing-KeepsSound env u f r
transact-IsSound env (Call.auto_closing_for c u f r) = auto_closing_for-KeepsSound env u f r c
transact-IsSound env (Call.batch_auto_closing_for c us fs r) =
    batch_auto_closing_for-KeepsSound env us fs r c
transact-IsSound env (Call.accruing r) =
    quiet env (update_fg_keeper r) (update_fg_keeper-Keeps env r)
transact-IsSound env (Call.snapshotting u r) =
    quiet env (update_lp_snapshot u r) (update_lp_snapshot-Keeps env u r)
transact-IsSound env (Call.granting q a) = quiet env (grant_role q a) (grant_role-Keeps env q a)
transact-IsSound env (Call.revoking q a) = quiet env (revoke_role q a) (revoke_role-Keeps env q a)
transact-IsSound env (Call.renouncing q a) =
    quiet env (renounce_role q a) (renounce_role-Keeps env q a)
transact-IsSound env Call.pausing = quiet env pause_trading (pause_trading-Keeps env)
transact-IsSound env Call.unpausing = quiet env unpause_trading (unpause_trading-Keeps env)
transact-IsSound env (Call.forwarding a) =
    quiet env (set_trusted_forwarder a) (set_trusted_forwarder-Keeps env a)
transact-IsSound env (Call.preparing g) =
    quiet env (prepare_time_locked_parameters g) (prepare_time_locked_parameters-Keeps env g)
transact-IsSound env (Call.setting g) =
    quiet env (set_time_locked_parameters g) (set_time_locked_parameters-Keeps env g)
transact-IsSound env (Call.setting_unguarded g) =
    quiet env (set_unguarded_parameters g) (set_unguarded_parameters-Keeps env g)
transact-IsSound env (Call.initializing a) = initializing-KeepsSound env a

-- After any sequence of transactions with a new contract, each of any method with any arguments
-- in any environment, and undone if it stops, the reentrancy guard is free, and a contract that
-- is initialized has the ten scales of the protocol, those of the matrices and of the funding
-- accumulators included.
pub IsReachable-IsSound : (e : Engine) → IsReachable e → IsSound e
IsReachable-IsSound _ (deployed e free fresh) = (free, λ i. absurd (clash (sym fresh ∙ i)))
  where
    clash : false ≡ true → ⊥
    clash h = cc
IsReachable-IsSound _ (after {e} env c r) = transact-IsSound env c e (IsReachable-IsSound e r)
