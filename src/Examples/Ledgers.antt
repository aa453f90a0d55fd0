-- ===== src/Examples/Ledgers.antt =====
-- The theorems on transfers, on recovered balances and on sequences of transactions at concrete inputs.
use denaria_perp_arbitrum.Base.{refl, arith, ◌≡◌, ok, pos, negsuc}
use denaria_perp_arbitrum.Base.{◌-ℤ◌, ◌*ℤ◌}
use denaria_perp_arbitrum.CurveMath.Matrix.{Matrix, q80, recover_lp_balance_from_snapshot}
use denaria_perp_arbitrum.CurveMath.Matrix.Identity.{recover_lp_balance_unchanged}
use denaria_perp_arbitrum.Examples.{Engine, engine, env, state}
use denaria_perp_arbitrum.Examples.Administration.{fresh, setup}
use denaria_perp_arbitrum.Engine.Monad.Laws.{Returns}
use denaria_perp_arbitrum.Engine.Contract.{Call, transact, deployed, after}
use denaria_perp_arbitrum.Engine.Contract.Steps.{IsSound}
use denaria_perp_arbitrum.Engine.Contract.Reach.{IsReachable-IsSound}
use denaria_perp_arbitrum.Engine.Transfer.{transfer_long, transfer_short}
use denaria_perp_arbitrum.Engine.Transfer.Refinement.{
  Refines, transfer_long-Refines, transfer_short-Refines,
}

-- The fund is in deficit; the user sells three units of asset for a value of fifty.
transfer_long-Refines_example :
    Returns (transfer_long 3 6 7 50 5 env state) (λ _ r. Refines 6 7 7 3 50 5 engine r.engine)
transfer_long-Refines_example = transfer_long-Refines 3 50 5 6 7 env state refl (omega arith) (
  (omega arith, omega arith, omega arith, omega arith),
  (omega arith, omega arith, omega arith, omega arith),
  omega arith,
  omega arith,
  omega arith,
  omega arith,
  omega arith,
  omega arith,
  omega arith,
  omega arith,
  omega arith,
)

transfer_short-Refines_example :
    Returns (transfer_short 3 6 7 50 5 env state) (λ _ r. Refines 7 6 7 3 50 5 engine r.engine)
transfer_short-Refines_example = transfer_short-Refines 3 50 5 6 7 env state refl (
  (omega arith, omega arith, omega arith, omega arith),
  (omega arith, omega arith, omega arith, omega arith),
  omega arith,
  omega arith,
  omega arith,
  omega arith,
  omega arith,
  omega arith,
  omega arith,
  omega arith,
  omega arith,
)

-- The contract is initialized, and account 5 pauses it.
abbrev paused : Engine
paused = transact env Call.pausing (transact env (Call.initializing setup) fresh.engine)

IsReachable-IsSound_example : IsSound paused
IsReachable-IsSound_example =
    IsReachable-IsSound paused (
      after env Call.pausing
        (after env (Call.initializing setup) (deployed fresh.engine refl refl)))

abbrev snapshot : Matrix
snapshot = record { m00 = pos 3; m01 = pos 1; m10 = negsuc 1; m11 = pos 5 }

recover_lp_balance_unchanged_example :
    recover_lp_balance_from_snapshot snapshot snapshot 400 60 q80 ≡ ok (pos 400, pos 60)
unfolding ◌-ℤ◌ ◌*ℤ◌
recover_lp_balance_unchanged_example =
    recover_lp_balance_unchanged snapshot 400 60 5 400 q80 refl refl
      (omega arith, omega arith, omega arith, omega arith) (omega arith) (omega arith) (omega arith)
      (omega arith) (omega arith)
