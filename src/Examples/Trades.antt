-- ===== src/Examples/Trades.antt =====
-- The theorems on a whole trade, on the liquidity fees, on the moving average and on accounts without a role at concrete
-- inputs.
use denaria_perp_arbitrum.CurveMath.Util.{wad, md, util_diff_abs, calc_ema}
use denaria_perp_arbitrum.CurveMath.Util.Average.{calc_ema-Between, Between}
use denaria_perp_arbitrum.Base.{
  ℕ, ◌+◌, ◌<◌, ◌≤◌, ◌*◌, ◌^◌, word_mod, false, ◌≡◌, refl, arith, ok, true, [],
}
use denaria_perp_arbitrum.CurveMath.Fees.{
  FeeInput, compute_liquidity_removal_fee, compute_liquidity_deposit_fee, removal_fee_waived,
  removal_fee_sides, removal_fee_stable_side, removal_fee_at, interpolated_fee, rel_price_diff_sq,
}
use denaria_perp_arbitrum.CurveMath.Fees.Cap.{Within}
use denaria_perp_arbitrum.CurveMath.Fees.Total.{
  compute_liquidity_removal_fee_le_max, compute_liquidity_deposit_fee_le_max,
}
use denaria_perp_arbitrum.Examples.{engine, market, env}
use denaria_perp_arbitrum.Engine.State.{Engine, Env, State}
use denaria_perp_arbitrum.Engine.Access.{has_role}
use denaria_perp_arbitrum.Engine.Monad.After.{After}
use denaria_perp_arbitrum.Engine.Trade.{trade_impl}
use denaria_perp_arbitrum.Engine.Trade.Assets.{holding}
use denaria_perp_arbitrum.Engine.Trade.Conserved.{Traded, Kept, trade_moves_asset}
use denaria_perp_arbitrum.Engine.Contract.{Call, transact}
use denaria_perp_arbitrum.Engine.Contract.Breaker.{moderator_reaches_breaker}
use denaria_perp_arbitrum.Engine.Contract.Outsiders.{
  administration, IsOutsider, here, next, outsiders_keep_administration,
}

-- A pool of 300,000 stable and 100 asset, at a price of 3,000, and a trader with collateral.
abbrev deep : State
deep = record {
  engine = record engine {
    market = record market {
      global_liquidity_stable = 300_000_000_000_000_000_000_000;
      global_liquidity_asset = 100_000_000_000_000_000_000;
    };
  };
  trace = [];
}

abbrev funded : Env
funded = record env { user_collateral = λ _ _ _. ok 1_000_000_000_000_000_000_000 }

trade_moves_asset_example :
    After funded (trade_impl 6 true 100_000_000_000_000_000_000 0 0 0 3 0) deep (λ y r.
      Traded true 100_000_000_000_000_000_000 y (holding 6 deep) (holding 6 r)
      × Kept (holding 9 deep) (holding 9 r))
trade_moves_asset_example =
    trade_moves_asset funded 6 true 100_000_000_000_000_000_000 0 0 0 3 0 9 deep refl
      (omega arith, omega arith, omega arith)

-- A part of a pool whose price is above the oracle's.
abbrev quote : FeeInput
quote = record {
  stable_liquidity = 50_000_000_000_000_000_000_000;
  asset_liquidity = 20_000_000_000_000_000_000;
  initial_stable_liquidity = 300_000_000_000_000_000_000_000;
  initial_asset_liquidity = 99_000_000_000_000_000_000;
  price = 300_000_000_000;
  oracle_decimals = 100_000_000;
  liquidity_max_fee = 50_000_000;
  liquidity_min_fee = 1_000_000;
  liquidity_fee_k = 20_000;
  liquidity_fee_decimals = 10_000_000_000;
}

compute_liquidity_removal_fee_le_max_example :
    Within 50_000_000 (compute_liquidity_removal_fee quote)
compute_liquidity_removal_fee_le_max_example =
    compute_liquidity_removal_fee_le_max quote
      (
        omega arith,
        omega arith,
        omega arith,
        omega arith,
        omega arith,
        omega arith,
        omega arith,
        omega arith,
      )
      (omega arith, omega arith, omega arith, omega arith)

-- A pool whose stable side leaves 256 bits when it is multiplied by 10 ^ 18: a fee is returned from the
-- wrapped product.
abbrev oversized : FeeInput
oversized = record quote { initial_stable_liquidity = 2 ^ 200 }

oversized_wraps : word_mod ≤ oversized.initial_stable_liquidity * wad
oversized_wraps = omega arith

oversized_fee : compute_liquidity_removal_fee oversized ≡ ok 49_999_691
unfolding compute_liquidity_removal_fee removal_fee_waived removal_fee_sides removal_fee_stable_side
    removal_fee_at interpolated_fee rel_price_diff_sq md util_diff_abs
oversized_fee = refl

compute_liquidity_deposit_fee_le_max_example :
    Within 50_000_000 (compute_liquidity_deposit_fee quote)
compute_liquidity_deposit_fee_le_max_example =
    compute_liquidity_deposit_fee_le_max quote
      (
        omega arith,
        omega arith,
        omega arith,
        omega arith,
        omega arith,
        omega arith,
        omega arith,
        omega arith,
      )
      (omega arith, omega arith)

-- A price one percent above the spot price, and an old average of half a percent.
calc_ema-Between_example :
    (v : ℕ) × (calc_ema 303_000_000_000 300_000_000_000 100_000_000 500_000 90_000_000 ≡ ok v)
    × (v * 100_000_000 ≤ 500_000 * 90_000_000 + 1_000_000 * 10_000_000)
    × (500_000 * 90_000_000 + 1_000_000 * 10_000_000 < (v + 2) * 100_000_000)
    × Between 500_000 1_000_000 v
calc_ema-Between_example =
    calc_ema-Between 303_000_000_000 300_000_000_000 100_000_000 500_000 90_000_000
      (omega arith, omega arith, omega arith, omega arith) (omega arith, omega arith, omega arith)
      (omega arith, omega arith, omega arith)

-- Account 6 trades, tries to pause, and tries to take the moderators' role.
abbrev outsider : Env
outsider = record env { msg_sender = 6 }

six_has_no_role : IsOutsider engine 6
unfolding has_role
six_has_no_role q = refl

abbrev tried : Engine
tried =
    transact outsider (Call.granting 99 6)
      (transact outsider Call.pausing (transact outsider (Call.trading true 100 0 0 0 3 0) engine))

outsiders_keep_administration_example : administration tried ≡ administration engine
outsiders_keep_administration_example = outsiders_keep_administration engine tried refl (
    next outsider (Call.granting 99 6) six_has_no_role (
      next outsider Call.pausing six_has_no_role
        (next outsider (Call.trading true 100 0 0 0 3 0) six_has_no_role here)))

moderator_reaches_breaker_example :
    (transact env Call.pausing tried ≡ record tried { trading_paused = true })
    × (transact env Call.unpausing (transact env Call.pausing tried)
        ≡ record tried { trading_paused = false })
unfolding has_role
moderator_reaches_breaker_example =
    moderator_reaches_breaker env engine tried refl
      (next outsider (Call.granting 99 6) six_has_no_role (
        next outsider Call.pausing six_has_no_role
          (next outsider (Call.trading true 100 0 0 0 3 0) six_has_no_role here)))
      refl
