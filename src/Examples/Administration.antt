-- ===== src/Examples/Administration.antt =====
-- The theorems on administration, forwarding, setup and the life of a position at concrete inputs.
use denaria_perp_arbitrum.Base.{ℕ, ◌≡◌, refl, false, [], ◌∷◌, ok, arith, Code, reverts, List}
use mathlib.Core.Option.{some}
use denaria_perp_arbitrum.Examples.{engine, env, state, arguments, config}
use denaria_perp_arbitrum.Engine.State.{State, Env}
use denaria_perp_arbitrum.Engine.Monad.{done, halt, ◌>>=◌}
use denaria_perp_arbitrum.Engine.Monad.Frames.{left}
use denaria_perp_arbitrum.Engine.Monad.Laws.{Returns, Ends}
use denaria_perp_arbitrum.Engine.Access.{has_role}
use denaria_perp_arbitrum.Engine.Guards.{AllGuarded}
use denaria_perp_arbitrum.Engine.Admin.{admin}
use denaria_perp_arbitrum.Engine.Admin.Guarded.{guarded_methods_keep_admin}
use denaria_perp_arbitrum.Engine.Entry.Forwarding.{
  forwarded_methods_act_for_user, AllForwarded, Relayed,
}
use denaria_perp_arbitrum.Engine.Setup.{Setup, initialize_production}
use denaria_perp_arbitrum.Engine.Setup.Once.{initialize_production_once, IsSetUp}
use denaria_perp_arbitrum.Engine.Parameters.{
  Guarded, set_time_locked_parameters, prepare_time_locked_parameters, unlock_time,
}
use denaria_perp_arbitrum.Engine.Parameters.TimeLock.{prepared_parameters_set, Settles}
use denaria_perp_arbitrum.Engine.Epochs.{roll_liquidity_epoch_if_needed}
use denaria_perp_arbitrum.Engine.Epochs.Window.{roll_keeps_IsWindow, IsWindow}
use denaria_perp_arbitrum.Engine.AutoClose.{
  auto_close_each, ensure_eligible, auto_close_user_position_impl,
}
use denaria_perp_arbitrum.Engine.AutoClose.Skipped.{auto_close_each_skips, AllIneligible}
use denaria_perp_arbitrum.Engine.Close.{close_and_withdraw_outer}
use denaria_perp_arbitrum.Engine.Close.Cleared.{closes_clear_position, IsClosed}
use denaria_perp_arbitrum.Engine.ErrorData.{err}
use denaria_perp_arbitrum.Engine.ErrorData.RoundTrip.{decode-err, decode}

guarded_methods_keep_admin_example :
    AllGuarded arguments (λ A m. admin (left (m env state)) ≡ admin state)
guarded_methods_keep_admin_example = guarded_methods_keep_admin env state arguments

-- The forwarder's call.
abbrev forwarder : Env
forwarder = record env { msg_sender = 14 }

forwarded_methods_example : AllForwarded arguments (Relayed forwarder state)
forwarded_methods_example = forwarded_methods_act_for_user forwarder state arguments

-- An engine that was not set up.
abbrev pub fresh : State
fresh = record {
  engine = record engine {
    config = record config { initialized = false };
    role_members = λ role account. false;
  };
  trace = [];
}

abbrev pub setup : Setup
setup = record {
  oracle = 12;
  vault = 11;
  multi_call_manager = 14;
  mmr = 40_000;
  ticker_asset_currency = 7;
  fee_frontend = 100_000;
  fee_lp = 400_000;
  fee_protocol_addr = 13;
  trading_fee = 500_000_000_000_000;
  flat_trading_fee = 0;
  ema_param = 90_000_000;
}

initialize_production_once_example : Returns (initialize_production setup env fresh) (λ _ r.
    IsSetUp setup env r.engine
    × (initialize_production setup forwarder r ≡ halt (reverts Code.init) r))
unfolding has_role
initialize_production_once_example =
    initialize_production_once setup setup env forwarder fresh (refl, refl, refl, refl)
      (refl, refl, refl, refl, omega arith, omega arith, omega arith, omega arith, omega arith)

abbrev pub change : Guarded
change = record {
  mmr = 50_000;
  trading_fee = 400_000_000_000_000;
  flat_trading_fee = 0;
  fee_lp = 300_000;
  liquidity_min_fee = 0;
  liquidity_max_fee = 10;
  liquidity_fee_k = 1;
  funding_c = 1_000_000;
  param_time_lock = 20;
  minimum_trade_size = 48_000_000_000_000_000_000;
}

prepared_parameters_set_example : Returns (prepare_time_locked_parameters change env state) (λ _ r.
    Settles change (set_time_locked_parameters change (record env { block_timestamp = 2_010 }) r))
unfolding has_role unlock_time
prepared_parameters_set_example =
    prepared_parameters_set change env 2_010 state
      (
        refl,
        omega arith,
        omega arith,
        omega arith,
        omega arith,
        omega arith,
        omega arith,
        omega arith,
        omega arith,
        omega arith,
        omega arith,
      )
      (omega arith)

roll_keeps_IsWindow_example : IsWindow (left (roll_liquidity_epoch_if_needed env state)).engine
roll_keeps_IsWindow_example = roll_keeps_IsWindow env state (omega arith) (omega arith, omega arith)

-- Nobody has turned auto-close on.
auto_close_each_skips_example :
    auto_close_each 5 ((6, 0) ∷ (7, 0) ∷ []) 300_000_000_000 env state ≡ done tt state
unfolding AllIneligible ensure_eligible ◌>>=◌
auto_close_each_skips_example =
    auto_close_each_skips 5 ((6, 0) ∷ (7, 0) ∷ []) 300_000_000_000 env state
      ((state, refl), ((state, refl), tt))

closes_clear_position_example :
    Ends env (IsClosed 6) (close_and_withdraw_outer 6 100 100 0 0)
    × Ends env (IsClosed 6) (auto_close_user_position_impl 5 6 0 0)
closes_clear_position_example = closes_clear_position 5 6 0 100 100 0 env

-- The bytes of `LQ1`.
decode-err_example :
    (bytes : List ℕ) × (err (76 ∷ 81 ∷ 49 ∷ []) ≡ ok bytes)
    × (decode bytes ≡ some (76 ∷ 81 ∷ 49 ∷ []))
decode-err_example = decode-err (76 ∷ 81 ∷ 49 ∷ []) (omega arith)
