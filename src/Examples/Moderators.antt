-- ===== src/Examples/Moderators.antt =====
-- The theorems on what a moderator has set, at concrete inputs.
use denaria_perp_arbitrum.Base.{
  ℕ, ◌+◌, ◌*◌, ◌%◌, ◌≤◌, ◌≡◌, refl, true, List, [], ◌∷◌, Code, reverts, word_mod,
}
use denaria_perp_arbitrum.Examples.{engine, env, state}
use denaria_perp_arbitrum.Examples.Administration.{change}
use denaria_perp_arbitrum.Engine.State.{Engine, State, Env}
use denaria_perp_arbitrum.Engine.Monad.{done, halt, ◌>>=◌}
use denaria_perp_arbitrum.Engine.Monad.Frames.{left}
use denaria_perp_arbitrum.Engine.Monad.After.{After}
use denaria_perp_arbitrum.Engine.Access.{has_role, only_mod, only_role, pause_trading}
use denaria_perp_arbitrum.Engine.Entry.{trade}
use denaria_perp_arbitrum.Engine.Parameters.{
  set_time_locked_parameters, prepare_time_locked_parameters, unlock_time, multiply,
  time_locked_param_hash,
}
use denaria_perp_arbitrum.Engine.Parameters.TimeLock.{IsWritten}
use denaria_perp_arbitrum.Engine.Parameters.Binding.{prepared_change_binds}
use denaria_perp_arbitrum.Engine.Contract.{Call, transact}
use denaria_perp_arbitrum.Engine.Contract.Outsiders.{IsOutsider, here, next}
use denaria_perp_arbitrum.Engine.Contract.Breaker.{IsModerator}
use denaria_perp_arbitrum.Engine.Contract.Paused.{pausing_stops_trades}

abbrev outsider : Env
outsider = record env { msg_sender = 6 }

-- A hash of a list of words.
abbrev digest : List ℕ → ℕ
digest [] = 1
digest (x ∷ l) = (x + 1_000_003 * digest l) % word_mod

abbrev hashing : Env
hashing = record env { keccak256 = digest }

abbrev prepared : State
prepared = left (prepare_time_locked_parameters change hashing state)

prepared_returns : prepare_time_locked_parameters change hashing state ≡ done tt prepared
unfolding prepare_time_locked_parameters only_mod only_role has_role multiply ◌>>=◌
    time_locked_param_hash unlock_time
prepared_returns = refl

six_has_no_role_left : IsOutsider prepared.engine 6
unfolding has_role prepare_time_locked_parameters only_mod only_role multiply ◌>>=◌
six_has_no_role_left q = refl

-- Account 6 calls the keeper's method in between, and makes the change at 2010.
prepared_change_binds_example :
    After
      (record hashing { block_timestamp = 2_010 })
      (set_time_locked_parameters change)
      (record { engine = transact outsider (Call.accruing 0) prepared.engine; trace = [] })
      (λ _ q.
        IsModerator (record hashing { block_timestamp = 2_010 }) prepared.engine
        × (unlock_time hashing engine ≤ 2_010)
        × IsWritten change q.engine)
prepared_change_binds_example =
    prepared_change_binds change change hashing (record hashing { block_timestamp = 2_010 }) state
      prepared _ refl prepared_returns (next outsider (Call.accruing 0) six_has_no_role_left here)
      refl (λ _. refl, λ _. refl)

-- Account 5 sets the breaker, and account 6 tries to trade.
abbrev stopped : Engine
stopped = transact outsider (Call.trading true 100 0 0 0 3 0) (transact env Call.pausing engine)

six_has_no_role : IsOutsider (transact env Call.pausing engine) 6
unfolding has_role transact pause_trading only_mod only_role ◌>>=◌
six_has_no_role q = refl

pausing_stops_trades_example :
    (trade true 100 0 0 0 3 0 outsider (record { engine = stopped; trace = [] })
      ≡ halt (reverts Code.paused) (record { engine = stopped; trace = [] }))
    × (transact outsider (Call.trading_for 7 true 100 0 0 0 3 0) stopped ≡ stopped)
unfolding has_role
pausing_stops_trades_example =
    pausing_stops_trades env outsider engine stopped 7 true 100 0 0 0 3 0 refl refl
      (next outsider (Call.trading true 100 0 0 0 3 0) six_has_no_role here)
