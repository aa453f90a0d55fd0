-- ===== src/Engine/Parameters.antt =====
-- The setters of parameters in perp-engine/src/lib.rs, with `time_locked_param_hash` of config.rs.
-- A value that does not fit the width of its field reverts with C.
pub mod TimeLock
pub mod Binding
use denaria_perp_arbitrum.Base.{
  ℕ, not, ◌&&◌, ltb, leb, ◌==◌, Code, List, [], ◌∷◌, ◌⊖◌, ◌+◌, ◌*◌, ◌%◌, ◌^◌, word_mod,
}
use denaria_perp_arbitrum.CurveMath.Util.{wad}
use denaria_perp_arbitrum.Engine.State.{Address, Engine, Event, Env}
use denaria_perp_arbitrum.Engine.Monad.{M, ◌>>=◌, ◌>>◌, pure, gets, asks, ensure, set_config, emit}
use denaria_perp_arbitrum.Engine.Access.{only_mod}

-- The arguments of the time-locked setters.
pub record Guarded : Type 0 where
  pub mmr : ℕ
  pub trading_fee : ℕ
  pub flat_trading_fee : ℕ
  pub fee_lp : ℕ
  pub liquidity_min_fee : ℕ
  pub liquidity_max_fee : ℕ
  pub liquidity_fee_k : ℕ
  pub funding_c : ℕ
  pub param_time_lock : ℕ
  pub minimum_trade_size : ℕ

abbrev words : Guarded → List ℕ
words g =
    g.mmr ∷ g.trading_fee ∷ g.flat_trading_fee ∷ g.fee_lp ∷ g.liquidity_min_fee
    ∷ g.liquidity_max_fee ∷ g.liquidity_fee_k ∷ g.funding_c ∷ g.param_time_lock
    ∷ g.minimum_trade_size ∷ []

-- The hash function takes the 256-bit words that the encoding joins.
unfoldable pub time_locked_param_hash : (List ℕ → ℕ) → Guarded → ℕ
time_locked_param_hash keccak256 g =
    let inner = keccak256 (g.mmr ∷ g.trading_fee ∷ g.flat_trading_fee ∷ g.fee_lp ∷ []) in
    keccak256 (
      inner ∷ g.liquidity_min_fee ∷ g.liquidity_max_fee ∷ g.liquidity_fee_k ∷ g.funding_c
      ∷ g.param_time_lock ∷ g.minimum_trade_size ∷ [])

-- `u32::try_from` and `u64::try_from`: a value of `bits` bits, or C.
unfoldable pub narrow : ℕ → ℕ → M ℕ
narrow bits x = ensure (ltb x (2 ^ bits)) Code.c >> pure x

-- `checked_mul`, or MOV.
unfoldable pub multiply : ℕ → ℕ → M ℕ
multiply a b = ensure (ltb (a * b) word_mod) Code.mov >> pure (a * b)

-- `U64::from(block_timestamp) + param_time_lock`, a sum of 64-bit words.
unfoldable pub unlock_time : Env → Engine → ℕ
unlock_time env e = (env.block_timestamp + e.config.param_time_lock) % 2 ^ 64

unfoldable pub prepare_time_locked_parameters : Guarded → M (Unit {0})
prepare_time_locked_parameters g = do
  only_mod
  e ← gets λ e. e
  let c = e.config
  ensure
      (ltb g.mmr 1_000_000
        && leb g.fee_lp (c.fee_fractions_decimals ⊖ c.fee_frontend)
        && ltb g.trading_fee c.trading_fee_decimals)
      Code.c
  flat_scaled ← multiply g.flat_trading_fee wad
  fee_bound ← multiply (c.trading_fee_decimals ⊖ g.trading_fee) g.minimum_trade_size
  ensure
      (ltb flat_scaled fee_bound
        && leb g.liquidity_min_fee g.liquidity_max_fee
        && leb g.liquidity_max_fee 10_000_000_000)
      Code.c
  unlock ← asks λ env. unlock_time env e
  hash ← asks λ env. time_locked_param_hash env.keccak256 g
  set_config λ c. record c { param_locked_until = unlock; param_hash = hash }
  emit (Event.locked_parameter_update unlock (words g))

unfoldable pub set_time_locked_parameters : Guarded → M (Unit {0})
set_time_locked_parameters g = do
  only_mod
  new_hash ← asks λ env. time_locked_param_hash env.keccak256 g
  now ← asks λ env. env.block_timestamp
  c ← gets λ e. e.config
  ensure (leb c.param_locked_until now && new_hash == c.param_hash) Code.c
  mmr ← narrow 32 g.mmr
  set_config λ c. record c { mmr = mmr }
  fee_lp ← narrow 32 g.fee_lp
  set_config λ c. record c {
    fee_lp = fee_lp;
    flat_trading_fee = g.flat_trading_fee;
    trading_fee = g.trading_fee;
    liquidity_min_fee = g.liquidity_min_fee;
    liquidity_max_fee = g.liquidity_max_fee;
    liquidity_fee_k = g.liquidity_fee_k;
  }
  funding_c ← narrow 32 g.funding_c
  set_config λ c. record c { funding_c = funding_c }
  param_time_lock ← narrow 64 g.param_time_lock
  set_config λ c. record c { param_time_lock = param_time_lock }
  set_config λ c. record c { minimum_trade_size = g.minimum_trade_size }

-- The arguments of `set_unguarded_parameters`.
pub record Unguarded : Type 0 where
  pub oracle : Address
  pub fee_frontend : ℕ
  pub fee_protocol_addr : Address
  pub insurance_fund_cap : ℕ
  pub max_leverage : ℕ
  pub liquidation_discount : ℕ
  pub max_lp_leverage : ℕ
  pub slip_liquidation_th : ℕ

unfoldable pub set_unguarded_parameters : Unguarded → M (Unit {0})
set_unguarded_parameters g = do
  only_mod
  c ← gets λ e. e.config
  ensure
      (not (g.oracle == 0)
        && leb g.fee_frontend (c.fee_fractions_decimals ⊖ c.fee_lp)
        && ltb g.liquidation_discount 500_000
        && not (c.fee_protocol_addr == 0))
      Code.c
  set_config λ c. record c {
    oracle = g.oracle;
    insurance_fund_cap = g.insurance_fund_cap;
    fee_frontend = g.fee_frontend;
    fee_protocol_addr = g.fee_protocol_addr;
    liquidation_discount = g.liquidation_discount;
    max_leverage = g.max_leverage;
    max_lp_leverage = g.max_lp_leverage;
    slip_liquidation_th = g.slip_liquidation_th;
  }
  emit (
      Event.parameters_updated g.oracle g.fee_frontend g.fee_protocol_addr g.insurance_fund_cap
        g.max_leverage g.liquidation_discount)
