-- ===== src/Engine/Access.antt =====
-- perp-engine/src/access_control.rs, and the public methods of lib.rs on roles, on the emergency
-- breaker and on the trusted forwarder.
pub mod Roles
use denaria_perp_arbitrum.Base.{Bool, true, false, not, ◌==◌, if◌then◌else◌, Code}
use denaria_perp_arbitrum.Engine.State.{Address, Role, Engine, Event, update}
use denaria_perp_arbitrum.Engine.Monad.{
  M, ◌>>=◌, ◌>>◌, pure, gets, asks, ensure, modify, set_config, emit,
}

unfoldable pub has_role : Engine → Role → Address → Bool
has_role e role account = e.role_members role account

abbrev pub write_role : Role → Address → Bool → Engine → Engine
write_role role account b e = record e {
  role_members = update e.role_members role (update (e.role_members role) account b);
}

unfoldable pub grant_role_internal : Role → Address → M (Unit {0})
grant_role_internal role account = do
  held ← gets λ e. has_role e role account
  if held
      then pure tt
      else (modify (write_role role account true)
          >> (asks (λ env. env.msg_sender) >>= λ sender.
              emit (Event.role_granted role account sender)))

unfoldable pub revoke_role_internal : Role → Address → M (Unit {0})
revoke_role_internal role account = do
  held ← gets λ e. has_role e role account
  if not held
      then pure tt
      else (modify (write_role role account false)
          >> (asks (λ env. env.msg_sender) >>= λ sender.
              emit (Event.role_revoked role account sender)))

unfoldable pub only_role : Role → M (Unit {0})
only_role role = do
  caller ← asks λ env. env.msg_sender
  held ← gets λ e. has_role e role caller
  ensure held Code.ac

unfoldable pub require_forwarder : Address → M Address
require_forwarder user = do
  caller ← asks λ env. env.msg_sender
  forwarder ← gets λ e. e.config.trusted_forwarder
  ensure (caller == forwarder) Code.f
  pure user

abbrev pub default_admin_role : Role
default_admin_role = 0

unfoldable pub grant_role : Role → Address → M (Unit {0})
grant_role role account = do only_role default_admin_role; grant_role_internal role account

unfoldable pub revoke_role : Role → Address → M (Unit {0})
revoke_role role account = do only_role default_admin_role; revoke_role_internal role account

unfoldable pub renounce_role : Role → Address → M (Unit {0})
renounce_role role caller_confirmation = do
  caller ← asks λ env. env.msg_sender
  ensure (caller_confirmation == caller) Code.acb
  revoke_role_internal role caller

-- The role that the setters ask for.
unfoldable pub only_mod : M (Unit {0})
only_mod = do mod_role ← gets λ e. e.config.mod_role; only_role mod_role

abbrev pub set_paused : Bool → M (Unit {0})
set_paused b = do
  modify λ e. record e { trading_paused = b }
  account ← asks λ env. env.msg_sender
  emit (Event.trading_paused_set b account)

unfoldable pub pause_trading : M (Unit {0})
pause_trading = do only_mod; set_paused true

unfoldable pub unpause_trading : M (Unit {0})
unpause_trading = do only_mod; set_paused false

unfoldable pub set_trusted_forwarder : Address → M (Unit {0})
set_trusted_forwarder forwarder = do
  only_mod
  old ← gets λ e. e.config.trusted_forwarder
  set_config λ c. record c { trusted_forwarder = forwarder }
  emit (Event.trusted_forwarder_updated old forwarder)
