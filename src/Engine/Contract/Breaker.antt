-- ===== src/Engine/Contract/Breaker.antt =====
-- The emergency breaker of perp-engine/src/lib.rs after the transactions of accounts without a role.
use denaria_perp_arbitrum.Base.{◌≡◌, refl, ap, ◌∙◌, true, false}
use denaria_perp_arbitrum.Engine.State.{Engine, Env, State}
use denaria_perp_arbitrum.Engine.Monad.{done, ◌>>=◌}
use denaria_perp_arbitrum.Engine.Monad.Laws.{>>=-done}
use denaria_perp_arbitrum.Engine.Access.{
  set_paused, has_role, pause_trading, unpause_trading, only_mod, only_role,
}
use denaria_perp_arbitrum.Engine.Contract.{Call, transact, outcome}
use denaria_perp_arbitrum.Engine.Contract.Outsiders.{IsLedBy, outsiders_keep_administration}

-- The sender moderates the contract.
abbrev pub IsModerator : Env → Engine → Type 0
IsModerator env e = has_role e e.config.mod_role env.msg_sender ≡ true

only_mod_passes : (env : Env) (s : State) → IsModerator env s.engine → only_mod env s ≡ done tt s
unfolding only_mod only_role ◌>>=◌
only_mod_passes env s h = rw h refl

pub pausing-eq :
    (env : Env) (e : Engine)
    → IsModerator env e
    → transact env Call.pausing e ≡ record e { trading_paused = true }
unfolding transact pause_trading ◌>>=◌
pausing-eq env e h =
    ap (outcome e) (>>=-done only_mod (λ _. set_paused true) env _ (only_mod_passes env _ h))

unpausing-eq :
    (env : Env) (e : Engine)
    → IsModerator env e
    → transact env Call.unpausing e ≡ record e { trading_paused = false }
unfolding transact unpause_trading ◌>>=◌
unpausing-eq env e h =
    ap (outcome e) (>>=-done only_mod (λ _. set_paused false) env _ (only_mod_passes env _ h))

-- No sequence of transactions by accounts without a role takes the emergency breaker of an
-- initialized contract from a moderator: after any of them his pause takes effect at once and
-- changes nothing else, and so does his release of the breaker afterwards.
pub moderator_reaches_breaker :
    (env : Env) (start e : Engine)
    → start.config.initialized ≡ true
    → IsLedBy start e
    → IsModerator env start
    → (transact env Call.pausing e ≡ record e { trading_paused = true })
      × (transact env Call.unpausing (transact env Call.pausing e)
          ≡ record e { trading_paused = false })
unfolding has_role
moderator_reaches_breaker env start e i led h =
    let same = outsiders_keep_administration start e i led in
    let held : IsModerator env e =
      ap (λ a. a.role_members a.config.mod_role env.msg_sender) same ∙ h in
    let paused = pausing-eq env e held in
    (
      paused,
      ap (transact env Call.unpausing) paused
          ∙ unpausing-eq env (record e { trading_paused = true }) held,
    )
