-- ===== src/Examples.antt =====
-- The theorems at concrete inputs.
pub mod Administration
pub mod Ledgers
pub mod Trades
pub mod Moderators
use denaria_perp_arbitrum.Base.{
  ℕ, ◌≡◌, refl, Bool, true, false, ℤ, pos, negsuc, [], ◌∷◌, ok, ◌*ℤ◌, ◌+ℤ◌, ◌^◌, arith, with_sign,
}
use denaria_perp_arbitrum.Base.{ltb, ◌==◌, if◌then◌else◌, ◌+◌, ◌<◌, ◌≤◌}
use denaria_perp_arbitrum.CurveMath.Util.{signed_sum, md_ceil, reduce_value}
use denaria_perp_arbitrum.CurveMath.Util.Exact.{signed_sum_exact, md_ceil_least, reduce_value_nets}
use denaria_perp_arbitrum.CurveMath.MulDiv.{mul_div_signed, sum_mul_div_signed}
use denaria_perp_arbitrum.CurveMath.MulDiv.Sum.{mul_div_signed_exact, sum_mul_div_signed_exact}
use denaria_perp_arbitrum.Base.{
  ◌*◌, ◌-◌, ◌⊎◌, panic, Fault, word_mod, wrap, ◌⊞◌, ◌⊟◌, ◌⊠◌, ◌-ℤ◌, negate,
}
use denaria_perp_arbitrum.CurveMath.Util.{quot, md, divide, divide_signed, i, u, u_or_zero}
use denaria_perp_arbitrum.CurveMath.MulDiv.{
  cmul, cadd, csub, cneg, checked, mul_div_floor_512, abs_int, signed_result,
}
use denaria_perp_arbitrum.CurveMath.Matrix.{
  recover_lp_balance_from_snapshot, recover_exact, adjugate_vector, checked_dot,
  positive_determinant,
}
use denaria_perp_arbitrum.CurveMath.Newton.{
  newton_cubic_signed, newton_rounds, newton_step, has_converged,
}
use denaria_perp_arbitrum.Engine.Monad.{Step, done, halt, ◌>>=◌}
use denaria_perp_arbitrum.Engine.Monad.Laws.{Returns, Ends}
use denaria_perp_arbitrum.Engine.Epochs.{
  retire_inactive_liquidity_epochs, for_active_epochs, for_epochs,
}
use denaria_perp_arbitrum.Engine.Epochs.Retire.{
  retire_inactive_liquidity_epochs_lem, Retired, is_settled,
}
use denaria_perp_arbitrum.Engine.Trade.{assign_protocol_fee_filling_insurance}
use denaria_perp_arbitrum.Engine.Trade.Insurance.{assign_protocol_fee_conserves, Assigned}
use denaria_perp_arbitrum.Engine.Guards.{
  guarded_methods_refuse, guarded_methods_release, Arguments, AllGuarded, Refused, IsReleased,
}
use denaria_perp_arbitrum.Engine.MarginView.{get_lp_liquidity_balance}
use denaria_perp_arbitrum.Engine.MarginView.Clamp.{get_lp_liquidity_balance_le_pool}
use denaria_perp_arbitrum.Engine.Accrual.{update_fg, accrue_funding, accrued_epoch}
use denaria_perp_arbitrum.Engine.Accrual.Stamp.{update_fg_once}
use denaria_perp_arbitrum.Engine.FundingView.{compute_funding_rate, funding_rate_over, g_increment}
use denaria_perp_arbitrum.Engine.Discount.{compute_liquidation_discount}
use denaria_perp_arbitrum.Engine.Discount.Bounds.{compute_liquidation_discount_range, InRange}
use denaria_perp_arbitrum.Engine.Batch.{has_duplicates}
use denaria_perp_arbitrum.Engine.Batch.Distinct.{has_duplicates_lem, HasRepeat}
use denaria_perp_arbitrum.Engine.Transfer.{
  debit_stable, credit_stable_via_debt, debit_asset, credit_asset_via_debt,
}
use denaria_perp_arbitrum.Engine.Transfer.Netting.{
  debit_stable_lem, credit_stable_lem, debit_asset_lem, credit_asset_lem, MovesStable, MovesAsset,
}
use denaria_perp_arbitrum.Engine.Close.{settle_pnl}
use denaria_perp_arbitrum.Engine.Close.Settle.{settle_pnl_lem}
use denaria_perp_arbitrum.Engine.Access.{grant_role, revoke_role, has_role}
use denaria_perp_arbitrum.Engine.Access.Roles.{grant_role_grants, revoke_role_revokes, Holds}
use denaria_perp_arbitrum.Engine.State.{
  Config, Market, Engine, Env, State, VirtualTraderPosition, LiquidityPosition, LiquidityEpoch,
}

abbrev pub dec : ℕ
dec = 1_000_000_000_000_000_000

abbrev pub config : Config
config = record {
  vault = 11;
  oracle = 12;
  fee_protocol_addr = 13;
  trusted_forwarder = 14;
  max_leverage = 15;
  max_lp_leverage = 15;
  ins_fund_fraction = 6;
  slip_liquidation_th = 10;
  oracle_decimals = 100_000_000;
  ema_param = 90_000_000;
  curve_update_interval = 6;
  funding_interval = 86_400;
  param_locked_until = 0;
  param_time_lock = 10;
  mmr = 40_000;
  fee_frontend = 100_000;
  fee_lp = 400_000;
  liquidation_discount = 7_500;
  funding_c = 1_000_000;
  minimum_trade_size = 48_000_000_000_000_000_000;
  minimum_liquidity_movement = 10_000_000_000_000_000;
  trading_fee = 500_000_000_000_000;
  flat_trading_fee = 0;
  auto_close_fee = 200_000_000_000_000_000;
  insurance_fund_cap = 500_000_000_000_000_000_000;
  liquidity_min_fee = 0;
  liquidity_max_fee = 0;
  liquidity_fee_k = 0;
  short_curve_parameter_a = 100_000_000;
  short_curve_parameter_b = 10_000_000;
  long_curve_parameter_a = 100_000_000;
  long_curve_parameter_b = 10_000_000;
  mmr_decimals = 1_000_000;
  liquidation_decimals = 1_000_000;
  fee_fractions_decimals = 1_000_000;
  liquidity_fee_decimals = 10_000_000_000;
  funding_rate_decimals = 1_000_000_000_000_000_000;
  funding_c_decimals = 100_000;
  liquidity_m_decimals = pos (2 ^ 80);
  trading_fee_decimals = 1_000_000_000_000_000_000;
  liquidity_g_decimals = 1_000_000_000_000_000_000_000_000;
  mod_role = 99;
  param_hash = 0;
  ticker_asset_currency = 7;
  initialized = true;
}

-- The fund is in deficit, three epochs are open, and the trader exposure is long.
abbrev pub market : Market
market = record {
  insurance_fund_sign = false;
  funding_rate_sign = true;
  total_trader_exposure_sign = true;
  last_trade_direction = true;
  last_operation_timestamp = 1_000;
  last_curve_update = 1_000;
  insurance_fund = 40;
  global_liquidity_stable = 3_000_000_000_000_000_000_000;
  global_liquidity_asset = 1_000_000_000_000_000_000;
  funding_rate = 5;
  total_trader_exposure = 100_000_000_000_000_000;
  dx0 = 0;
  dy0 = 0;
  avg_slippage_l = 0;
  avg_slippage_s = 0;
  last_validated_price = 300_000_000_000;
  current_liquidity_epoch = 3;
  oldest_active_liquidity_epoch = 0;
}

abbrev pub epoch : ℕ → LiquidityEpoch
epoch count = record {
  liquidity_m00 = pos (2 ^ 80);
  liquidity_m01 = pos 0;
  liquidity_m10 = pos 0;
  liquidity_m11 = pos (2 ^ 80);
  matrix_row_g0 = pos 0;
  matrix_row_g1 = pos 0;
  active_lp_count = count;
}

abbrev pub position : VirtualTraderPosition
position = record {
  balance_stable = 70;
  balance_asset = 9;
  debt_stable = 20;
  debt_asset = 4;
  funding_fee = 0;
  funding_fee_sign = true;
  initial_funding_rate = 0;
  initial_funding_rate_sign = true;
}

abbrev pub lp_position : LiquidityPosition
lp_position = record {
  initial_stable_balance = 4_000_000_000_000_000_000_000;
  initial_asset_balance = 600_000_000_000_000_000;
  debt_stable = 0;
  debt_asset = 0;
  snapshot_m00 = pos (2 ^ 80);
  snapshot_m01 = pos 0;
  snapshot_m10 = pos 0;
  snapshot_m11 = pos (2 ^ 80);
  snapshot_g0 = pos 0;
  snapshot_g1 = pos 0;
}

-- Account 5 holds the admin role.
abbrev pub engine : Engine
engine = record {
  config = config;
  market = market;
  entered = false;
  trading_paused = false;
  user_virtual_trader_position = λ _. position;
  liquidity_position = λ _. lp_position;
  liquidity_position_epoch = λ _. 2;
  liquidity_epochs = λ k. epoch (if ltb k 2 then 0 else 1);
  auto_close_users_data = λ _. record {
    authorized = false;
    profit_th = 0;
    loss_th = 0;
    max_slippage = 0;
    max_liq_fee = 0;
  };
  role_members = λ role account. account == 5;
}

abbrev pub env : Env
env = record {
  msg_sender = 5;
  block_timestamp = 2_000;
  keccak256 = λ _. 0;
  mod_role_name = 99;
  get_price = λ _ _. ok (pos 300_000_000_000);
  user_collateral = λ _ _ _. ok 0;
  answer = λ _ _. ok tt;
}

abbrev pub state : State
state = record { engine = engine; trace = [] }

abbrev pub arguments : Arguments
arguments = record {
  caller = 5;
  user = 6;
  frontend = 0;
  direction = true;
  size = 100;
  other_size = 1;
  limit = 0;
  guess = 0;
  leverage = 3;
  report = 0;
  users = 6 ∷ 7 ∷ [];
  sizes = 1 ∷ 2 ∷ [];
  frontends = 0 ∷ 0 ∷ [];
}

-- The state in the middle of a guarded method.
abbrev pub busy : State
busy = record { engine = record engine { entered = true }; trace = [] }

retire_inactive_liquidity_epochs_example :
    Retired engine (retire_inactive_liquidity_epochs engine)
    × (is_settled (retire_inactive_liquidity_epochs engine) ≡ true)
retire_inactive_liquidity_epochs_example = retire_inactive_liquidity_epochs_lem engine (omega arith)

assign_protocol_fee_example :
    Returns
      (assign_protocol_fee_filling_insurance 100 13 env state)
      (λ _ r. Assigned 100 13 engine r.engine)
assign_protocol_fee_example =
    assign_protocol_fee_conserves 100 13 env state (omega arith, omega arith, omega arith)

guarded_methods_refuse_example : AllGuarded arguments (Refused env busy)
guarded_methods_refuse_example = guarded_methods_refuse env busy arguments refl

guarded_methods_release_example : AllGuarded arguments (λ A m. Ends {A = A} env IsReleased m)
guarded_methods_release_example = guarded_methods_release env arguments

compute_liquidation_discount_example :
    (d : ℕ) × (compute_liquidation_discount 40_000 7_500 15_000 ≡ ok d)
    × InRange 40_000 7_500 15_000 d
compute_liquidation_discount_example =
    compute_liquidation_discount_range 40_000 7_500 15_000 (omega arith) (omega arith) (omega arith)
      (omega arith)

has_duplicates_example :
    ((has_duplicates (6 ∷ 7 ∷ 6 ∷ []) ≡ true) → HasRepeat (6 ∷ 7 ∷ 6 ∷ []))
    × (HasRepeat (6 ∷ 7 ∷ 6 ∷ []) → has_duplicates (6 ∷ 7 ∷ 6 ∷ []) ≡ true)
has_duplicates_example = has_duplicates_lem (6 ∷ 7 ∷ 6 ∷ [])

debit_stable_example : MovesStable position (debit_stable 100 position) 100 0
debit_stable_example =
    debit_stable_lem 100 position (omega arith, omega arith, omega arith, omega arith) (omega arith)

credit_stable_example : MovesStable position (credit_stable_via_debt 100 position) 0 100
credit_stable_example =
    credit_stable_lem 100 position (omega arith, omega arith, omega arith, omega arith)
      (omega arith)

debit_asset_example : MovesAsset position (debit_asset 100 position) 100 0
debit_asset_example =
    debit_asset_lem 100 position (omega arith, omega arith, omega arith, omega arith) (omega arith)

credit_asset_example : MovesAsset position (credit_asset_via_debt 100 position) 0 100
credit_asset_example =
    credit_asset_lem 100 position (omega arith, omega arith, omega arith, omega arith) (omega arith)

grant_role_example : Returns (grant_role 99 7 env state) (λ _ r. Holds engine r.engine 99 7 true)
unfolding has_role
grant_role_example = grant_role_grants 99 7 env state refl

revoke_role_example : Returns (revoke_role 99 5 env state) (λ _ r. Holds engine r.engine 99 5 false)
unfolding has_role
revoke_role_example = revoke_role_revokes 99 5 env state refl

mul_div_signed_example :
    mul_div_signed (negsuc 6) (pos 5) (pos 2) ≡ ok (quot (negsuc 6 *ℤ pos 5) (pos 2))
unfolding ◌*ℤ◌
mul_div_signed_example =
    mul_div_signed_exact (negsuc 6) (pos 5) (pos 2) (omega arith) (omega arith) (omega arith)
      (λ e. ground arith) (omega arith)

signed_sum_example :
    ((z : ℕ) × (s : Bool) × (signed_sum 7 true 9 false ≡ ok (z, s))
      × (with_sign s z ≡ with_sign true 7 +ℤ with_sign false 9)
      × (z < word_mod))
    ⊎ ((signed_sum 7 true 9 false ≡ panic Fault.ss1) × (word_mod ≤ 7 + 9) × (true ≡ false))
signed_sum_example = signed_sum_exact 7 true 9 false (omega arith) (omega arith)

md_ceil_example :
    (q : ℕ) × (md_ceil 7 5 4 ≡ ok q) × (7 * 5 ≤ q * 4) × ((q ≡ 0) ⊎ ((q - 1) * 4 < 7 * 5))
md_ceil_example = md_ceil_least 7 5 4 (omega arith) (omega arith)

reduce_value_example :
    ((reduce_value 7 9).0 + 9 ≡ 7 + (reduce_value 7 9).1)
    × (((reduce_value 7 9).0 ≡ 0) ⊎ ((reduce_value 7 9).1 ≡ 0))
    × ((reduce_value 7 9).0 ≤ 7)
    × ((reduce_value 7 9).1 ≤ 9)
reduce_value_example = reduce_value_nets 7 9 (omega arith) (omega arith)

-- The solver on a linear equation: a first step to the root, and a second that finds it unchanged.
solver_result :
    newton_cubic_signed (pos 0) (pos 0) (pos 0) (pos dec) (negsuc 4_999_999_999_999_999_999)
    ≡ ok (pos 5_000_000_000_000_000_000)
unfolding newton_cubic_signed newton_rounds newton_step has_converged divide_signed wrap ◌⊞◌ ◌⊟◌ ◌⊠◌
    ◌+ℤ◌ ◌-ℤ◌ ◌*ℤ◌
solver_result = refl

-- The LP deposited more stable than the pool holds.
lp_balance :
    get_lp_liquidity_balance engine 6 ≡ ok (3_000_000_000_000_000_000_000, 600_000_000_000_000_000)
unfolding get_lp_liquidity_balance recover_lp_balance_from_snapshot recover_exact adjugate_vector
    checked_dot positive_determinant cmul cadd csub cneg checked mul_div_signed mul_div_floor_512
    abs_int signed_result i u u_or_zero negate wrap ◌+ℤ◌ ◌-ℤ◌ ◌*ℤ◌
lp_balance = refl

get_lp_liquidity_balance_example :
    (3_000_000_000_000_000_000_000 ≤ engine.market.global_liquidity_stable)
    × (600_000_000_000_000_000 ≤ engine.market.global_liquidity_asset)
get_lp_liquidity_balance_example = get_lp_liquidity_balance_le_pool engine 6 _ _ lp_balance

sum_mul_div_signed_example :
    sum_mul_div_signed (pos 7) (pos 5) (negsuc 2) (pos 4) (pos 2)
    ≡ ok (quot (pos 7 *ℤ pos 5 +ℤ negsuc 2 *ℤ pos 4) (pos 2))
unfolding ◌*ℤ◌ ◌+ℤ◌
sum_mul_div_signed_example =
    sum_mul_div_signed_exact (pos 7) (pos 5) (negsuc 2) (pos 4) (pos 2) (omega arith) (omega arith)
      (omega arith) (omega arith) (omega arith) (λ e. ground arith) (omega arith) (omega arith)
      (omega arith)

-- The state that a run leaves.
abbrev after : {A : Type 0} → Step A → State
after (done x s) = s
after (halt e s) = s

accrued :
    update_fg 300_000_000_000 1_000 env state
    ≡ done tt (after (update_fg 300_000_000_000 1_000 env state))
unfolding update_fg accrue_funding ◌>>=◌ compute_funding_rate funding_rate_over g_increment md
    divide i signed_sum for_active_epochs for_epochs accrued_epoch mul_div_signed mul_div_floor_512
    abs_int signed_result u negate wrap ◌⊞◌ ◌+ℤ◌
accrued = refl

update_fg_once_example :
    ((after (update_fg 300_000_000_000 1_000 env state)).engine.market.last_operation_timestamp
      ≡ 2_000)
    × (update_fg 299 1_500 env (after (update_fg 300_000_000_000 1_000 env state))
        ≡ done tt (after (update_fg 300_000_000_000 1_000 env state)))
update_fg_once_example =
    update_fg_once 300_000_000_000 1_000 env state
      (after (update_fg 300_000_000_000 1_000 env state)) accrued 299 1_500

settle_pnl_example : MovesStable position (settle_pnl 100 true position) 100 0
settle_pnl_example =
    settle_pnl_lem 100 true position (omega arith, omega arith, omega arith, omega arith)
      (omega arith) (omega arith)
