-- ===== src/Engine/Contract/Outsiders.antt =====
-- perp-engine/src/lib.rs: the transactions of accounts that hold no role.
use denaria_perp_arbitrum.Base.{
  reverts, Code, Failure, Bool-cases, inl, inr, ◌==◌, [], ◌≡◌, refl, ap, ◌∙◌, true, false,
}
use denaria_perp_arbitrum.Engine.State.{Address, Role, Engine, Env, State}
use denaria_perp_arbitrum.Engine.Monad.{Step, done, halt, M, ◌>>=◌, asks}
use denaria_perp_arbitrum.Engine.Monad.Frames.{Framed, left}
use denaria_perp_arbitrum.Engine.Monad.Laws.{>>=-halt}
use denaria_perp_arbitrum.Engine.Monad.Keeps.{Keeps, Keeps->>=, Keeps-asks, Framed-Keeps}
use denaria_perp_arbitrum.Engine.Access.{
  grant_role, revoke_role, renounce_role, pause_trading, unpause_trading, set_trusted_forwarder,
  has_role, only_role, only_mod, revoke_role_internal,
}
use denaria_perp_arbitrum.Engine.Parameters.{
  prepare_time_locked_parameters, set_time_locked_parameters, set_unguarded_parameters,
}
use denaria_perp_arbitrum.Engine.Setup.{Setup, initialize_production}
use denaria_perp_arbitrum.Engine.Access.{require_forwarder}
use denaria_perp_arbitrum.Engine.Entry.{
  trade, trade_for, close_and_withdraw, close_and_withdraw_for, add_liquidity_public,
  add_liquidity_for, remove_liquidity_public, remove_liquidity_for, liquidate, liquidate_for,
  batch_liquidate_for, realize_pnl, realize_pnl_for, enable_auto_close, enable_auto_close_for,
  disable_auto_close, disable_auto_close_for, auto_close_user_position,
  auto_close_user_position_for, batch_auto_close_user_position_for,
}
use denaria_perp_arbitrum.Engine.Admin.{Admin, admin}
use denaria_perp_arbitrum.Engine.Admin.Guarded.{update_fg_keeper-Framed, update_lp_snapshot-Framed}
use denaria_perp_arbitrum.Engine.Admin.Trading.{trade_impl-Framed}
use denaria_perp_arbitrum.Engine.Admin.Providing.{
  add_liquidity_outer-Framed, remove_liquidity_outer-Framed,
}
use denaria_perp_arbitrum.Engine.Admin.Closing.{
  close_and_withdraw_outer-Framed, realize_pnl_outer-Framed, clear_auto_close_data-Framed,
}
use denaria_perp_arbitrum.Engine.Admin.Liquidating.{
  liquidate_impl-Framed, batch_liquidate_impl-Framed,
}
use denaria_perp_arbitrum.Engine.Admin.AutoClosing.{
  enable_auto_close_impl-Framed, auto_close_user_position_impl-Framed,
  batch_auto_close_user_position_impl-Framed,
}
use denaria_perp_arbitrum.Engine.Contract.{Call, transact, outcome, run}
use denaria_perp_arbitrum.Engine.Contract.Steps.{require_forwarder-Keeps}

-- The parameters, the emergency breaker and the roles in a storage.
abbrev pub administration : Engine → Admin
administration e = admin (record { engine = e; trace = [] })

-- The account holds no role.
abbrev pub IsOutsider : Engine → Address → Type 0
IsOutsider e a = (q : Role) → has_role e q a ≡ false

-- The storage that a sequence of transactions leaves whose senders hold no role at its start.
pub data IsLedBy (start : Engine) : Engine → Type 0 where
  here : IsLedBy start start
  next :
      {e : Engine} (env : Env) (c : Call)
      → IsOutsider start env.msg_sender
      → IsLedBy start e
      → IsLedBy start (transact env c e)

outcome-administration :
    {A : Type 0} (e : Engine) (t : Step A)
    → admin (left t) ≡ administration e
    → administration (outcome e t) ≡ administration e
outcome-administration e (done x s) h = h
outcome-administration e (halt f s) h = refl

module _ {A : Type 0} (env : Env) (e : Engine) where
  kept : (m : M A) → Keeps env admin m → administration (run env e m) ≡ administration e
  kept m h =
      let s : State = record { engine = e; trace = [] } in
      outcome-administration e (m env s) (h.keeps s)

  by_caller :
      (method : Address → M A)
      → ((user : Address) → Framed env admin (method user))
      → administration (run env e (asks (λ env. env.msg_sender) >>= method)) ≡ administration e
  by_caller method h = kept _ (Keeps->>= _ _ (Keeps-asks _) λ u. Framed-Keeps _ (h u))

only_role_refuses :
    (env : Env) (s : State) (q : Role)
    → IsOutsider s.engine env.msg_sender
    → only_role q env s ≡ halt (reverts Code.ac) s
unfolding only_role ◌>>=◌
only_role_refuses env s q h = rw (h q) refl

only_mod_refuses :
    (env : Env) (s : State)
    → IsOutsider s.engine env.msg_sender
    → only_mod env s ≡ halt (reverts Code.ac) s
unfolding only_mod ◌>>=◌
only_mod_refuses env s h = only_role_refuses env s s.engine.config.mod_role h

-- A method that starts with a test that stops.
undone :
    {A B : Type 0} (env : Env) (e : Engine) (m : M A) (g : A → M B) (f : Failure)
    → m env (record { engine = e; trace = [] }) ≡ halt f (record { engine = e; trace = [] })
    → run env e (m >>= g) ≡ e
undone env e m g f h = ap (outcome e) (>>=-halt m g env _ h)

renounce_refused :
    (env : Env) (e : Engine) (q : Role) (a : Address)
    → IsOutsider e env.msg_sender
    → run env e (renounce_role q a) ≡ e
unfolding renounce_role revoke_role_internal ◌>>=◌
renounce_refused env e q a h = elim (Bool-cases (a == env.msg_sender)) [
  | inl p ↦ rw (p, h q) refl
  | inr p ↦ rw p refl
]

module _ {A : Type 0} (env : Env) (e : Engine) (user : Address) where
  by_user :
      (method : Address → M A)
      → ((user : Address) → Framed env admin (method user))
      → administration (run env e (require_forwarder user >>= method)) ≡ administration e
  by_user method h =
      kept env e _
        (Keeps->>= _ _ (require_forwarder-Keeps env admin user) λ u. Framed-Keeps _ (h u))

initializing_refused :
    (env : Env) (e : Engine) (a : Setup)
    → e.config.initialized ≡ true
    → run env e (initialize_production a) ≡ e
unfolding initialize_production ◌>>=◌
initializing_refused env e a h = rw h refl

transact-administration :
    (env : Env) (c : Call) (e : Engine)
    → e.config.initialized ≡ true
    → IsOutsider e env.msg_sender
    → administration (transact env c e) ≡ administration e
unfolding transact trade trade_for close_and_withdraw close_and_withdraw_for add_liquidity_public
    add_liquidity_for remove_liquidity_public remove_liquidity_for liquidate liquidate_for
    batch_liquidate_for realize_pnl realize_pnl_for enable_auto_close enable_auto_close_for
    disable_auto_close disable_auto_close_for auto_close_user_position auto_close_user_position_for
    batch_auto_close_user_position_for grant_role revoke_role pause_trading unpause_trading
    set_trusted_forwarder prepare_time_locked_parameters set_time_locked_parameters
    set_unguarded_parameters
transact-administration env (Call.trading d s m g f l r) e i h =
    by_caller env e _ λ u. trade_impl-Framed env u d s m g f l r
transact-administration env (Call.trading_for v d s m g f l r) e i h =
    by_user env e v _ λ u. trade_impl-Framed env u d s m g f l r
transact-administration env (Call.closing s l f r) e i h =
    by_caller env e _ λ u. close_and_withdraw_outer-Framed env u s l f r
transact-administration env (Call.closing_for v s l f r) e i h =
    by_user env e v _ λ u. close_and_withdraw_outer-Framed env u s l f r
transact-administration env (Call.adding s a m r) e i h =
    by_caller env e _ λ u. add_liquidity_outer-Framed env u s a m r
transact-administration env (Call.adding_for v s a m r) e i h =
    by_user env e v _ λ u. add_liquidity_outer-Framed env u s a m r
transact-administration env (Call.removing s a m r) e i h =
    by_caller env e _ λ u. remove_liquidity_outer-Framed env u s a m r
transact-administration env (Call.removing_for v s a m r) e i h =
    by_user env e v _ λ u. remove_liquidity_outer-Framed env u s a m r
transact-administration env (Call.liquidating v s r) e i h =
    by_caller env e _ λ u. liquidate_impl-Framed env u v s r
transact-administration env (Call.liquidating_for l v s r) e i h =
    by_user env e l _ λ u. liquidate_impl-Framed env u v s r
transact-administration env (Call.batch_liquidating_for l us ss r) e i h =
    by_user env e l _ λ u. batch_liquidate_impl-Framed env u us ss r
transact-administration env (Call.realizing r) e i h =
    by_caller env e _ λ u. realize_pnl_outer-Framed env u r
transact-administration env (Call.realizing_for v r) e i h =
    by_user env e v _ λ u. realize_pnl_outer-Framed env u r
transact-administration env (Call.enabling p l s f) e i h =
    by_caller env e _ λ u. enable_auto_close_impl-Framed env u p l s f
transact-administration env (Call.enabling_for v p l s f) e i h =
    by_user env e v _ λ u. enable_auto_close_impl-Framed env u p l s f
transact-administration env Call.disabling e i h =
    by_caller env e _ λ u. clear_auto_close_data-Framed env u 0
transact-administration env (Call.disabling_for v) e i h =
    by_user env e v _ λ u. clear_auto_close_data-Framed env u 0
transact-administration env (Call.auto_closing v f r) e i h =
    by_caller env e _ λ u. auto_close_user_position_impl-Framed env u v f r
transact-administration env (Call.auto_closing_for c v f r) e i h =
    by_user env e c _ λ u. auto_close_user_position_impl-Framed env u v f r
transact-administration env (Call.batch_auto_closing_for c us fs r) e i h =
    by_user env e c _ λ u. batch_auto_close_user_position_impl-Framed env u us fs r
transact-administration env (Call.accruing r) e i h =
    kept env e _ (Framed-Keeps _ (update_fg_keeper-Framed env r))
transact-administration env (Call.snapshotting u r) e i h =
    kept env e _ (Framed-Keeps _ (update_lp_snapshot-Framed env u r))
transact-administration env (Call.granting q a) e i h =
    ap administration (undone env e _ _ _ (only_role_refuses env _ _ h))
transact-administration env (Call.revoking q a) e i h =
    ap administration (undone env e _ _ _ (only_role_refuses env _ _ h))
transact-administration env (Call.renouncing q a) e i h =
    ap administration (renounce_refused env e q a h)
transact-administration env Call.pausing e i h =
    ap administration (undone env e _ _ _ (only_mod_refuses env _ h))
transact-administration env Call.unpausing e i h =
    ap administration (undone env e _ _ _ (only_mod_refuses env _ h))
transact-administration env (Call.forwarding a) e i h =
    ap administration (undone env e _ _ _ (only_mod_refuses env _ h))
transact-administration env (Call.preparing g) e i h =
    ap administration (undone env e _ _ _ (only_mod_refuses env _ h))
transact-administration env (Call.setting g) e i h =
    ap administration (undone env e _ _ _ (only_mod_refuses env _ h))
transact-administration env (Call.setting_unguarded g) e i h =
    ap administration (undone env e _ _ _ (only_mod_refuses env _ h))
transact-administration env (Call.initializing a) e i h =
    ap administration (initializing_refused env e a i)

-- No sequence of transactions with an initialized contract, of any methods and in any environments,
-- whose senders hold no role at its start, changes the parameters, the emergency breaker or the
-- roles.
pub outsiders_keep_administration :
    (start e : Engine)
    → start.config.initialized ≡ true
    → IsLedBy start e
    → administration e ≡ administration start
unfolding has_role
outsiders_keep_administration start _ i here = refl
outsiders_keep_administration start _ i (next {e} env c h led) =
    let same = outsiders_keep_administration start e i led in
    transact-administration env c e (ap (λ a. a.config.initialized) same ∙ i)
      (λ q. ap (λ a. a.role_members q env.msg_sender) same ∙ h q)
    ∙ same
