-- ===== src/Engine/Contract/Quiet.antt =====
-- The methods of perp-engine/src/lib.rs without the guard keep the storage sound.
use denaria_perp_arbitrum.Base.{ℕ, ap}
use denaria_perp_arbitrum.Engine.State.{Address, Role, Env}
use denaria_perp_arbitrum.Engine.Monad.{M}
use denaria_perp_arbitrum.Engine.Monad.Frames.{Framed}
use denaria_perp_arbitrum.Engine.Monad.Keeps.{
  Keeps, Keeps->>=, Keeps-pure, Keeps-asks, Keeps-gets, Keeps-ensure, Keeps-if, Keeps-when,
  Keeps-modify, Keeps-emit, Framed-Keeps,
}
use denaria_perp_arbitrum.Engine.Admin.{core, Core, reads}
use denaria_perp_arbitrum.Engine.Admin.Accounting.{
  update_fg-core, settle_funding_and_update_snapshots-core,
}
use denaria_perp_arbitrum.Engine.Access.{
  grant_role, revoke_role, renounce_role, pause_trading, unpause_trading, set_trusted_forwarder,
  only_role, only_mod, grant_role_internal, revoke_role_internal, require_forwarder,
}
use denaria_perp_arbitrum.Engine.Parameters.{
  Guarded, Unguarded, narrow, multiply, prepare_time_locked_parameters, set_time_locked_parameters,
  set_unguarded_parameters,
}
use denaria_perp_arbitrum.Engine.Entry.{
  enable_auto_close, enable_auto_close_for, disable_auto_close, disable_auto_close_for,
  update_fg_keeper, update_lp_snapshot,
}
use denaria_perp_arbitrum.Engine.Clear.{clear_auto_close_data}
use denaria_perp_arbitrum.Engine.AutoClose.{enable_auto_close_impl}
use denaria_perp_arbitrum.Engine.Contract.Steps.{fixed, Fixed, scales}

pub ruleset steps = (
  Keeps->>=, Keeps-pure, Keeps-asks, Keeps-gets, Keeps-ensure, Keeps-if, Keeps-when, Keeps-modify,
  Keeps-emit,
)

pub grant_role-Keeps : (env : Env) (q : Role) (a : Address) → Keeps env fixed (grant_role q a)
unfolding grant_role only_role grant_role_internal
grant_role-Keeps env q a = search steps depth 40

pub revoke_role-Keeps : (env : Env) (q : Role) (a : Address) → Keeps env fixed (revoke_role q a)
unfolding revoke_role only_role revoke_role_internal
revoke_role-Keeps env q a = search steps depth 40

pub renounce_role-Keeps : (env : Env) (q : Role) (a : Address) → Keeps env fixed (renounce_role q a)
unfolding renounce_role revoke_role_internal
renounce_role-Keeps env q a = search steps depth 40

pub pause_trading-Keeps : (env : Env) → Keeps env fixed (pause_trading)
unfolding pause_trading only_mod only_role
pause_trading-Keeps env = search steps depth 40

pub unpause_trading-Keeps : (env : Env) → Keeps env fixed (unpause_trading)
unfolding unpause_trading only_mod only_role
unpause_trading-Keeps env = search steps depth 40

pub set_trusted_forwarder-Keeps :
    (env : Env) (a : Address) → Keeps env fixed (set_trusted_forwarder a)
unfolding set_trusted_forwarder only_mod only_role
set_trusted_forwarder-Keeps env a = search steps depth 40

pub prepare_time_locked_parameters-Keeps :
    (env : Env) (g : Guarded) → Keeps env fixed (prepare_time_locked_parameters g)
unfolding prepare_time_locked_parameters only_mod only_role multiply
prepare_time_locked_parameters-Keeps env g = search steps depth 40

pub set_time_locked_parameters-Keeps :
    (env : Env) (g : Guarded) → Keeps env fixed (set_time_locked_parameters g)
unfolding set_time_locked_parameters only_mod only_role narrow
set_time_locked_parameters-Keeps env g = search steps depth 40

pub set_unguarded_parameters-Keeps :
    (env : Env) (g : Unguarded) → Keeps env fixed (set_unguarded_parameters g)
unfolding set_unguarded_parameters only_mod only_role
set_unguarded_parameters-Keeps env g = search steps depth 40

enable_auto_close_impl-Keeps :
    (env : Env) (u : Address) (p l s f : ℕ) → Keeps env fixed (enable_auto_close_impl u p l s f)
unfolding enable_auto_close_impl
enable_auto_close_impl-Keeps env u p l s f = search steps depth 40

pub enable_auto_close-Keeps :
    (env : Env) (p l s f : ℕ) → Keeps env fixed (enable_auto_close p l s f)
unfolding enable_auto_close
enable_auto_close-Keeps env p l s f = search (steps, enable_auto_close_impl-Keeps) depth 40

pub enable_auto_close_for-Keeps :
    (env : Env) (u : Address) (p l s f : ℕ) → Keeps env fixed (enable_auto_close_for u p l s f)
unfolding enable_auto_close_for require_forwarder
enable_auto_close_for-Keeps env u p l s f = search (steps, enable_auto_close_impl-Keeps) depth 40

clear_auto_close_data-Keeps :
    (env : Env) (u : Address) (k : ℕ) → Keeps env fixed (clear_auto_close_data u k)
unfolding clear_auto_close_data
clear_auto_close_data-Keeps env u k = search steps depth 40

pub disable_auto_close-Keeps : (env : Env) → Keeps env fixed (disable_auto_close)
unfolding disable_auto_close
disable_auto_close-Keeps env = search (steps, clear_auto_close_data-Keeps) depth 40

pub disable_auto_close_for-Keeps :
    (env : Env) (u : Address) → Keeps env fixed (disable_auto_close_for u)
unfolding disable_auto_close_for require_forwarder
disable_auto_close_for-Keeps env u = search (steps, clear_auto_close_data-Keeps) depth 40

-- The accrual is framed by the administration and the guard together.
abbrev fixed_of : Core → Fixed
fixed_of c = record {
  entered = c.entered;
  initialized = c.administration.config.initialized;
  held = scales c.administration.config;
}

core-fixed : {A : Type 0} {env : Env} (m : M A) → Framed env core m → Framed env fixed m
core-fixed m h = record { keeps = λ s. ap fixed_of (h.keeps s); blind = h.blind }

pub update_fg_keeper-Keeps : (env : Env) (report : ℕ) → Keeps env fixed (update_fg_keeper report)
unfolding update_fg_keeper
update_fg_keeper-Keeps env report =
    Framed-Keeps _ (core-fixed _ (search (reads, update_fg-core) depth 20))

pub update_lp_snapshot-Keeps :
    (env : Env) (user : Address) (report : ℕ) → Keeps env fixed (update_lp_snapshot user report)
unfolding update_lp_snapshot
update_lp_snapshot-Keeps env user report = Framed-Keeps _ (
    core-fixed _
      (search (reads, update_fg-core, settle_funding_and_update_snapshots-core) depth 20))
