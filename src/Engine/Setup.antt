-- ===== src/Engine/Setup.antt =====
-- perp-engine/src/config.rs `init_protocol_constants` and `finalize_init`, and the initializers of
-- lib.rs. The benchmark initializer and the seeding of a pool are built for tests only.
pub mod Once
use denaria_perp_arbitrum.Base.{ℕ, true, not, ltb, ◌==◌, ◌+◌, ◌⊖◌, ◌⊗◌, ◌^◌, pos, Code, ◌/◌}
use denaria_perp_arbitrum.CurveMath.Util.{wad}
use denaria_perp_arbitrum.Engine.State.{Address, Engine, Config}
use denaria_perp_arbitrum.Engine.Monad.{
  M, ◌>>=◌, ◌>>◌, gets, asks, ensure, modify, set_config, set_market,
}
use denaria_perp_arbitrum.Engine.Epochs.{initialize_liquidity_epoch}
use denaria_perp_arbitrum.Engine.Access.{grant_role_internal, only_mod, default_admin_role}
use denaria_perp_arbitrum.Engine.Parameters.{narrow, multiply}

abbrev constants : Config → Config
constants c = record c {
  max_leverage = 15;
  max_lp_leverage = 15;
  ins_fund_fraction = 6;
  slip_liquidation_th = 10;
  oracle_decimals = 100_000_000;
  minimum_trade_size = 48 ⊗ wad;
  trading_fee_decimals = wad;
  fee_fractions_decimals = 1_000_000;
  curve_update_interval = 6;
  long_curve_parameter_a = 100_000_000;
  long_curve_parameter_b = 10_000_000;
  short_curve_parameter_a = 100_000_000;
  short_curve_parameter_b = 10_000_000;
  insurance_fund_cap = 500 ⊗ wad;
  liquidation_discount = 7_500;
  auto_close_fee = 200_000_000_000_000_000;
  minimum_liquidity_movement = wad / 100;
  liquidity_m_decimals = pos (2 ^ 80);
  mmr_decimals = 1_000_000;
  liquidation_decimals = 1_000_000;
  liquidity_fee_decimals = 10_000_000_000;
  funding_rate_decimals = wad;
  funding_c_decimals = 100_000;
  liquidity_g_decimals = 1_000_000_000_000_000_000 ⊗ 1_000_000;
  funding_c = 1_000_000;
  funding_interval = 86_400;
  param_time_lock = 10;
}

-- The first epoch is written after the scale of the matrices.
unfoldable pub init_protocol_constants : Engine → Engine
init_protocol_constants e = initialize_liquidity_epoch 0 (record e {
  config = constants e.config;
  market = record (e.market) { insurance_fund_sign = true };
})

unfoldable pub finalize_init : Address → M (Unit {0})
finalize_init admin = do
  mod_role ← asks λ env. env.mod_role_name
  set_config λ c. record c { mod_role = mod_role }
  grant_role_internal default_admin_role admin
  grant_role_internal mod_role admin
  set_config λ c. record c { initialized = true }

-- The arguments of the initializer.
pub record Setup : Type 0 where
  pub oracle : Address
  pub vault : Address
  pub multi_call_manager : Address
  pub mmr : ℕ
  pub ticker_asset_currency : ℕ
  pub fee_frontend : ℕ
  pub fee_lp : ℕ
  pub fee_protocol_addr : Address
  pub trading_fee : ℕ
  pub flat_trading_fee : ℕ
  pub ema_param : ℕ

-- SET1, SET2, SET3, SET5 to SET8, read against the constants that were just written.
unfoldable pub ensure_setup : Setup → M (Unit {0})
ensure_setup a = do
  c ← gets λ e. e.config
  ensure (not (a.oracle == 0)) Code.set2
  ensure (not (a.vault == 0)) Code.set3
  ensure (not (a.multi_call_manager == 0)) Code.set8
  ensure (ltb (a.fee_frontend + a.fee_lp) c.fee_fractions_decimals) Code.set1
  ensure (ltb a.trading_fee c.trading_fee_decimals) Code.set5
  flat_scaled ← multiply a.flat_trading_fee wad
  bound ← multiply (c.trading_fee_decimals ⊖ a.trading_fee) c.minimum_trade_size
  ensure (ltb flat_scaled bound) Code.set6
  ensure (not (a.fee_protocol_addr == 0)) Code.set7

unfoldable pub write_setup : Setup → M (Unit {0})
write_setup a = do
  mmr ← narrow 32 a.mmr
  set_config λ c. record c {
    mmr = mmr;
    oracle = a.oracle;
    vault = a.vault;
    trusted_forwarder = a.multi_call_manager;
    ticker_asset_currency = a.ticker_asset_currency;
    fee_frontend = a.fee_frontend;
    fee_lp = a.fee_lp;
    fee_protocol_addr = a.fee_protocol_addr;
    trading_fee = a.trading_fee;
    flat_trading_fee = a.flat_trading_fee;
  }
  ema_param ← narrow 64 a.ema_param
  set_config λ c. record c { ema_param = ema_param }

unfoldable pub initialize_production : Setup → M (Unit {0})
unfolding ensure_setup write_setup finalize_init
initialize_production a = do
  initialized ← gets λ e. e.config.initialized
  ensure (not initialized) Code.init
  modify init_protocol_constants
  ensure_setup a
  write_setup a
  admin ← asks λ env. env.msg_sender
  finalize_init admin

unfoldable pub initialize_benchmark : Address → Address → Address → M (Unit {0})
unfolding finalize_init
initialize_benchmark oracle vault fee_protocol_addr = do
  initialized ← gets λ e. e.config.initialized
  ensure (not initialized) Code.init
  set_config λ c. record c {
    oracle = oracle;
    vault = vault;
    fee_protocol_addr = fee_protocol_addr;
    mmr = 40_000;
    fee_frontend = 300_000;
    fee_lp = 500_000;
    trading_fee = 0;
    flat_trading_fee = 120_000_000_000_000_000;
    ema_param = 90_000_000;
  }
  modify init_protocol_constants
  admin ← asks λ env. env.msg_sender
  finalize_init admin

unfoldable pub seed_benchmark_state : ℕ → ℕ → M (Unit {0})
seed_benchmark_state stable_liquidity asset_liquidity = do
  initialized ← gets λ e. e.config.initialized
  ensure initialized Code.s0
  only_mod
  set_market λ m. record m {
    global_liquidity_stable = stable_liquidity;
    global_liquidity_asset = asset_liquidity;
  }
