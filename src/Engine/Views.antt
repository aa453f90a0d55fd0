-- ===== src/Engine/Views.antt =====
-- perp-engine/src/lib.rs: the public read-only methods that other contracts and front ends call.
use denaria_perp_arbitrum.Base.{ℕ, Bool, Outcome, ok, ◌>>=◌}
use denaria_perp_arbitrum.CurveMath.Util.{u}
use denaria_perp_arbitrum.Engine.State.{Address, Engine, Env, State, VirtualTraderPosition}
use denaria_perp_arbitrum.Engine.FundingView.{compute_funding_rate, compute_funding_fee_with}
use denaria_perp_arbitrum.Engine.MarginView.{get_lp_liquidity_balance, calc_pnl_user}
use denaria_perp_arbitrum.Engine.Getters.{MarginCheckData, margin_check_data}

unfoldable pub get_lp_liquidity_balance_public : Engine → Address → Outcome (ℕ × ℕ)
get_lp_liquidity_balance_public e user = get_lp_liquidity_balance e user

unfoldable pub get_lp_liquidity_epoch : Engine → Address → ℕ
get_lp_liquidity_epoch e user = e.liquidity_position_epoch user

unfoldable pub get_price : Env → State → Outcome ℕ
get_price env s = do price ← env.get_price s.trace s.engine.config.oracle; u price

unfoldable pub oracle_public : Engine → Outcome Address
oracle_public e = ok e.config.oracle

unfoldable pub calc_pnl_public : Engine → ℕ → Address → ℕ → Outcome (ℕ × Bool)
calc_pnl_public e block_ts user price = calc_pnl_user e block_ts user price

unfoldable pub last_operation_timestamp_public : Engine → Outcome ℕ
last_operation_timestamp_public e = ok e.market.last_operation_timestamp

unfoldable pub mmr_public : Engine → Outcome ℕ
mmr_public e = ok e.config.mmr

unfoldable pub max_lp_leverage_public : Engine → Outcome ℕ
max_lp_leverage_public e = ok e.config.max_lp_leverage

unfoldable pub margin_check_data_public : Engine → ℕ → Address → ℕ → ℕ → Outcome MarginCheckData
margin_check_data_public e block_ts user price collateral =
    margin_check_data e block_ts user price collateral

unfoldable pub user_virtual_trader_position_public :
    Engine → Address → Outcome VirtualTraderPosition
user_virtual_trader_position_public e user = ok (e.user_virtual_trader_position user)

-- The fields of an LP position that are not arrays.
pub record LpView : Type 0 where
  pub initial_stable_balance : ℕ
  pub initial_asset_balance : ℕ
  pub debt_stable : ℕ
  pub debt_asset : ℕ

unfoldable pub liquidity_position_public : Engine → Address → Outcome LpView
liquidity_position_public e user =
    let lp = e.liquidity_position user in
    ok (record {
      initial_stable_balance = lp.initial_stable_balance;
      initial_asset_balance = lp.initial_asset_balance;
      debt_stable = lp.debt_stable;
      debt_asset = lp.debt_asset;
    })

pub record CurveParameters : Type 0 where
  pub short_curve_parameter_a : ℕ
  pub short_curve_parameter_b : ℕ
  pub long_curve_parameter_a : ℕ
  pub long_curve_parameter_b : ℕ
  pub last_curve_update : ℕ
  pub curve_update_interval : ℕ
  pub last_trade_direction : Bool
  pub last_validated_price : ℕ

unfoldable pub curve_parameters : Engine → Outcome CurveParameters
curve_parameters e = ok (record {
  short_curve_parameter_a = e.config.short_curve_parameter_a;
  short_curve_parameter_b = e.config.short_curve_parameter_b;
  long_curve_parameter_a = e.config.long_curve_parameter_a;
  long_curve_parameter_b = e.config.long_curve_parameter_b;
  last_curve_update = e.market.last_curve_update;
  curve_update_interval = e.config.curve_update_interval;
  last_trade_direction = e.market.last_trade_direction;
  last_validated_price = e.market.last_validated_price;
})

unfoldable pub compute_funding_rate_public : Engine → ℕ → ℕ → ℕ → Outcome (ℕ × Bool)
compute_funding_rate_public e block_ts price timestamp =
    compute_funding_rate e block_ts price timestamp

unfoldable pub compute_funding_fee_with_public : Engine → Address → ℕ → Bool → Outcome (ℕ × Bool)
compute_funding_fee_with_public e user funding_rate funding_rate_sign =
    compute_funding_fee_with e user funding_rate funding_rate_sign
