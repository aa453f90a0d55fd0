-- ===== src/Engine/State.antt =====
-- perp-engine/src/lib.rs: the storage of `PerpEngine`, its events, and the calls of other contracts.
-- The scalar fields stand in two records: `Config` holds what only the initializer and the
-- MOD_ROLE setters write, `Market` what trading writes. A mapping is a function.
use denaria_perp_arbitrum.Base.{ℕ, Bool, ℤ, List, Outcome, ◌==◌, if◌then◌else◌}

abbrev pub Address : Type 0
Address = ℕ

-- A `B256`.
abbrev pub Role : Type 0
Role = ℕ

pub record Config : Type 0 where
  pub vault : Address
  pub oracle : Address
  pub fee_protocol_addr : Address
  pub trusted_forwarder : Address
  pub max_leverage : ℕ
  pub max_lp_leverage : ℕ
  pub ins_fund_fraction : ℕ
  pub slip_liquidation_th : ℕ
  pub oracle_decimals : ℕ
  pub ema_param : ℕ
  pub curve_update_interval : ℕ
  pub funding_interval : ℕ
  pub param_locked_until : ℕ
  pub param_time_lock : ℕ
  pub mmr : ℕ
  pub fee_frontend : ℕ
  pub fee_lp : ℕ
  pub liquidation_discount : ℕ
  pub funding_c : ℕ
  pub minimum_trade_size : ℕ
  pub minimum_liquidity_movement : ℕ
  pub trading_fee : ℕ
  pub flat_trading_fee : ℕ
  pub auto_close_fee : ℕ
  pub insurance_fund_cap : ℕ
  pub liquidity_min_fee : ℕ
  pub liquidity_max_fee : ℕ
  pub liquidity_fee_k : ℕ
  pub short_curve_parameter_a : ℕ
  pub short_curve_parameter_b : ℕ
  pub long_curve_parameter_a : ℕ
  pub long_curve_parameter_b : ℕ
  pub mmr_decimals : ℕ
  pub liquidation_decimals : ℕ
  pub fee_fractions_decimals : ℕ
  pub liquidity_fee_decimals : ℕ
  pub funding_rate_decimals : ℕ
  pub funding_c_decimals : ℕ
  pub liquidity_m_decimals : ℤ
  pub trading_fee_decimals : ℕ
  pub liquidity_g_decimals : ℕ
  pub mod_role : Role
  pub param_hash : ℕ
  pub ticker_asset_currency : ℕ
  pub initialized : Bool

pub record Market : Type 0 where
  pub insurance_fund_sign : Bool
  pub funding_rate_sign : Bool
  pub total_trader_exposure_sign : Bool
  pub last_trade_direction : Bool
  pub last_operation_timestamp : ℕ
  pub last_curve_update : ℕ
  pub insurance_fund : ℕ
  pub global_liquidity_stable : ℕ
  pub global_liquidity_asset : ℕ
  pub funding_rate : ℕ
  pub total_trader_exposure : ℕ
  pub dx0 : ℕ
  pub dy0 : ℕ
  pub avg_slippage_l : ℕ
  pub avg_slippage_s : ℕ
  pub last_validated_price : ℕ
  pub current_liquidity_epoch : ℕ
  pub oldest_active_liquidity_epoch : ℕ

pub record VirtualTraderPosition : Type 0 where
  pub balance_stable : ℕ
  pub balance_asset : ℕ
  pub debt_stable : ℕ
  pub debt_asset : ℕ
  pub funding_fee : ℕ
  pub funding_fee_sign : Bool
  pub initial_funding_rate : ℕ
  pub initial_funding_rate_sign : Bool

pub record LiquidityPosition : Type 0 where
  pub initial_stable_balance : ℕ
  pub initial_asset_balance : ℕ
  pub debt_stable : ℕ
  pub debt_asset : ℕ
  pub snapshot_m00 : ℤ
  pub snapshot_m01 : ℤ
  pub snapshot_m10 : ℤ
  pub snapshot_m11 : ℤ
  pub snapshot_g0 : ℤ
  pub snapshot_g1 : ℤ

pub record AutoCloseData : Type 0 where
  pub authorized : Bool
  pub profit_th : ℕ
  pub loss_th : ℕ
  pub max_slippage : ℕ
  pub max_liq_fee : ℕ

pub record LiquidityEpoch : Type 0 where
  pub liquidity_m00 : ℤ
  pub liquidity_m01 : ℤ
  pub liquidity_m10 : ℤ
  pub liquidity_m11 : ℤ
  pub matrix_row_g0 : ℤ
  pub matrix_row_g1 : ℤ
  pub active_lp_count : ℕ

-- `entered` is the reentrancy guard, `trading_paused` the emergency breaker.
pub record Engine : Type 0 where
  pub config : Config
  pub market : Market
  pub entered : Bool
  pub trading_paused : Bool
  pub user_virtual_trader_position : Address → VirtualTraderPosition
  pub liquidity_position : Address → LiquidityPosition
  pub liquidity_position_epoch : Address → ℕ
  pub liquidity_epochs : ℕ → LiquidityEpoch
  pub auto_close_users_data : Address → AutoCloseData
  pub role_members : Role → Address → Bool

-- The events, with the parameters in the source's order.
pub data Event : Type 0 where
  executed_trade : Address → Bool → ℕ → ℕ → ℕ → ℕ → Event
  closed_position : Address → ℕ → Bool → Event
  liquidity_moved : Address → ℕ → ℕ → ℕ → Bool → Event
  liquidated_user : Address → Address → ℕ → ℕ → ℕ → ℕ → ℤ → Bool → Event
  toggled_auto_close : Address → ℕ → ℕ → ℕ → ℕ → Event
  realized_pnl : Address → ℕ → Bool → Event
  parameters_updated : Address → ℕ → Address → ℕ → ℕ → ℕ → Event
  locked_parameter_update : ℕ → List ℕ → Event
  trusted_forwarder_updated : Address → Address → Event
  role_granted role_revoked : Role → Address → Address → Event
  trading_paused_set : Bool → Address → Event

-- What a transaction does outside its storage, oldest last. The first address of a call is the
-- contract that is called.
pub data Effect : Type 0 where
  emitted : Event → Effect
  verify_report_if_necessary : Address → ℕ → Effect
  add_pnl_to_collateral : Address → Address → ℕ → Bool → Effect
  remove_all_collateral_for_user : Address → Address → Effect

abbrev pub Trace : Type 0
Trace = List Effect

-- The caller, the block, the hash function, and the answers of the oracle and the vault. An answer
-- may depend on all that the transaction did before.
pub record Env : Type 0 where
  pub msg_sender : Address
  pub block_timestamp : ℕ
  pub keccak256 : List ℕ → ℕ
  pub mod_role_name : ℕ
  pub get_price : Trace → Address → Outcome ℤ
  pub user_collateral : Trace → Address → Address → Outcome ℕ
  pub answer : Trace → Effect → Outcome (Unit {0})

pub record State : Type 0 where
  pub engine : Engine
  pub trace : Trace

abbrev pub update {ℓ} : {A : Type ℓ} → (ℕ → A) → ℕ → A → ℕ → A
update g k v q = if q == k then v else g q
