-- ===== src/Engine/Getters.antt =====
-- perp-engine/src/lib.rs and internal_logic.rs: the read-only methods that gather many fields; Views
-- has the others.
use denaria_perp_arbitrum.Base.{ℕ, Bool, ◌==◌, Outcome, ok, ◌>>=◌}
use denaria_perp_arbitrum.Engine.State.{Address, Engine}
use denaria_perp_arbitrum.Engine.MarginView.{MarginCheck, margin_check_core}

-- The margin check with the two limits that the vault reads.
pub record MarginCheckData : Type 0 where
  pub check : MarginCheck
  pub max_lp_leverage : ℕ
  pub mmr : ℕ

unfoldable pub margin_check_data : Engine → ℕ → Address → ℕ → ℕ → Outcome MarginCheckData
margin_check_data e block_ts user price collateral = do
  check ← margin_check_core e block_ts user price collateral e.market.last_operation_timestamp
  ok (record { check = check; max_lp_leverage = e.config.max_lp_leverage; mmr = e.config.mmr })

unfoldable pub is_trusted_forwarder : Engine → Address → Bool
is_trusted_forwarder e forwarder = forwarder == e.config.trusted_forwarder

pub record Parameters : Type 0 where
  pub vault : Address
  pub oracle : Address
  pub minimum_trade_size : ℕ
  pub minimum_liquidity_movement : ℕ
  pub fee_frontend : ℕ
  pub fee_lp : ℕ
  pub insurance_fund_cap : ℕ
  pub ticker_asset_currency : ℕ
  pub insurance_fund : ℕ
  pub insurance_fund_sign : Bool
  pub short_curve_parameter_a : ℕ
  pub short_curve_parameter_b : ℕ
  pub long_curve_parameter_a : ℕ
  pub long_curve_parameter_b : ℕ
  pub total_trader_exposure : ℕ
  pub total_trader_exposure_sign : Bool

unfoldable pub read_parameters : Engine → Parameters
read_parameters e = record {
  vault = e.config.vault;
  oracle = e.config.oracle;
  minimum_trade_size = e.config.minimum_trade_size;
  minimum_liquidity_movement = e.config.minimum_liquidity_movement;
  fee_frontend = e.config.fee_frontend;
  fee_lp = e.config.fee_lp;
  insurance_fund_cap = e.config.insurance_fund_cap;
  ticker_asset_currency = e.config.ticker_asset_currency;
  insurance_fund = e.market.insurance_fund;
  insurance_fund_sign = e.market.insurance_fund_sign;
  short_curve_parameter_a = e.config.short_curve_parameter_a;
  short_curve_parameter_b = e.config.short_curve_parameter_b;
  long_curve_parameter_a = e.config.long_curve_parameter_a;
  long_curve_parameter_b = e.config.long_curve_parameter_b;
  total_trader_exposure = e.market.total_trader_exposure;
  total_trader_exposure_sign = e.market.total_trader_exposure_sign;
}

pub record Fees : Type 0 where
  pub trading_fee : ℕ
  pub flat_trading_fee : ℕ
  pub auto_close_fee : ℕ
  pub liquidity_min_fee : ℕ
  pub liquidity_max_fee : ℕ
  pub liquidity_fee_k : ℕ
  pub liquidation_discount : ℕ
  pub funding_c : ℕ
  pub funding_interval : ℕ
  pub funding_rate : ℕ
  pub funding_rate_sign : Bool

unfoldable pub read_fees : Engine → Fees
read_fees e = record {
  trading_fee = e.config.trading_fee;
  flat_trading_fee = e.config.flat_trading_fee;
  auto_close_fee = e.config.auto_close_fee;
  liquidity_min_fee = e.config.liquidity_min_fee;
  liquidity_max_fee = e.config.liquidity_max_fee;
  liquidity_fee_k = e.config.liquidity_fee_k;
  liquidation_discount = e.config.liquidation_discount;
  funding_c = e.config.funding_c;
  funding_interval = e.config.funding_interval;
  funding_rate = e.market.funding_rate;
  funding_rate_sign = e.market.funding_rate_sign;
}
