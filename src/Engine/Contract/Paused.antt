-- ===== src/Engine/Contract/Paused.antt =====
-- The emergency breaker of perp-engine/src/lib.rs, once a moderator has set it: no trade runs.
use denaria_perp_arbitrum.Base.{
  ℕ, Bool, true, ◌==◌, Bool-cases, inl, inr, Code, reverts, [], ◌≡◌, refl, ap, ◌∙◌,
}
use denaria_perp_arbitrum.Engine.State.{Address, Engine, Env, State}
use denaria_perp_arbitrum.Engine.Monad.{halt, ◌>>=◌}
use denaria_perp_arbitrum.Engine.Monad.Laws.{Stops, Stops-halt}
use denaria_perp_arbitrum.Engine.Access.{require_forwarder}
use denaria_perp_arbitrum.Engine.Trade.{trade_impl}
use denaria_perp_arbitrum.Engine.Entry.{trade, trade_for}
use denaria_perp_arbitrum.Engine.Entry.Forwarding.{gate_open, gate_shut}
use denaria_perp_arbitrum.Engine.Contract.{Call, transact, outcome}
use denaria_perp_arbitrum.Engine.Contract.Outsiders.{IsLedBy, outsiders_keep_administration}
use denaria_perp_arbitrum.Engine.Contract.Breaker.{IsModerator, pausing-eq}

module _ (later : Env) (direction : Bool) (size min_return guess : ℕ) (frontend : Address)
    (leverage report : ℕ) where
  trade_impl-paused :
      (user : Address) (s : State)
      → s.engine.trading_paused ≡ true
      → trade_impl user direction size min_return guess frontend leverage report later s
        ≡ halt (reverts Code.paused) s
  unfolding trade_impl ◌>>=◌ Stops
  trade_impl-paused user s h =
      Stops-halt (trade_impl user direction size min_return guess frontend leverage report later s)
        (reverts Code.paused) s (rw (Stops, h) (refl, refl))

  -- A forwarded trade stops at the test of the forwarder or at that of the breaker.
  trade_for-paused :
      (user : Address) (e : Engine)
      → e.trading_paused ≡ true
      → transact later
          (Call.trading_for user direction size min_return guess frontend leverage report)
          e
        ≡ e
  unfolding transact trade_for require_forwarder ◌>>=◌
  trade_for-paused user e h =
      let s : State = record { engine = e; trace = [] } in
      let method = λ (user : Address).
        trade_impl user direction size min_return guess frontend leverage report in
      let test = later.msg_sender == e.config.trusted_forwarder in
      elim (Bool-cases test) [
        | inl sent ↦
            ap (outcome e) (gate_open test later s user method sent ∙ trade_impl-paused user s h)
        | inr foreign ↦ ap (outcome e) (gate_shut test later s user method foreign)
      ]

-- Once a moderator of an initialized contract has set the breaker, and after any sequence of
-- transactions by accounts without a role, a trade of any account reverts with PAUSED and changes
-- nothing, and a forwarded trade leaves the storage as it is.
pub pausing_stops_trades :
    (env later : Env) (start e : Engine) (user : Address) (direction : Bool)
    (size min_return guess : ℕ) (frontend : Address) (leverage report : ℕ)
    → start.config.initialized ≡ true
    → IsModerator env start
    → IsLedBy (transact env Call.pausing start) e
    → (trade direction size min_return guess frontend leverage report later
          (record { engine = e; trace = [] })
        ≡ halt (reverts Code.paused) (record { engine = e; trace = [] }))
      × (transact later
            (Call.trading_for user direction size min_return guess frontend leverage report)
            e
          ≡ e)
unfolding trade ◌>>=◌
pausing_stops_trades env later start e user direction size min_return guess frontend leverage report
      i h led =
    let set = pausing-eq env start h in
    let same =
      outsiders_keep_administration (transact env Call.pausing start) e
        (ap (λ x. x.config.initialized) set ∙ i) led in
    let paused : e.trading_paused ≡ true =
      ap (λ a. a.trading_paused) same ∙ ap (λ x. x.trading_paused) set in
    (
      trade_impl-paused later direction size min_return guess frontend leverage report
          later.msg_sender _ paused,
      trade_for-paused later direction size min_return guess frontend leverage report user e paused,
    )
