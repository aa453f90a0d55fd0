-- ===== src/Engine/Setup/Once.antt =====
-- `initialize_production` of perp-engine/src/lib.rs: what an accepted setup leaves, and that there is
-- no second one.
use denaria_perp_arbitrum.Base.{
  ◌≡◌, refl, true, false, ltb, ◌==◌, ◌+◌, ◌*◌, ◌-◌, ◌<◌, ◌^◌, Code, reverts, pos, word_mod, arith,
  ==-refl, ◌⊖◌, ◌⊗◌,
}
use denaria_perp_arbitrum.CurveMath.Util.{wad}
use denaria_perp_arbitrum.Engine.State.{update, State, Env, Engine}
use denaria_perp_arbitrum.Engine.Monad.{halt, ◌>>=◌}
use denaria_perp_arbitrum.Engine.Monad.Laws.{Returns}
use denaria_perp_arbitrum.Engine.Access.{has_role, grant_role_internal}
use denaria_perp_arbitrum.Engine.Parameters.{narrow, multiply}
use denaria_perp_arbitrum.Engine.Epochs.{initialize_liquidity_epoch}
use denaria_perp_arbitrum.Engine.Setup.{
  Setup, initialize_production, ensure_setup, write_setup, finalize_init, init_protocol_constants,
}

-- No setup was made, the caller has no role, and the name of the moderators' role is not that of the
-- administrators.
abbrev pub IsFresh : Env → Engine → Type 0
IsFresh env e =
    (e.config.initialized ≡ false)
    × (has_role e 0 env.msg_sender ≡ false)
    × (has_role e env.mod_role_name env.msg_sender ≡ false)
    × ((env.mod_role_name == 0) ≡ false)

-- What the initializer accepts.
abbrev pub IsAcceptable : Setup → Type 0
IsAcceptable a =
    ((a.oracle == 0) ≡ false)
    × ((a.vault == 0) ≡ false)
    × ((a.multi_call_manager == 0) ≡ false)
    × ((a.fee_protocol_addr == 0) ≡ false)
    × (a.fee_frontend + a.fee_lp < 1_000_000)
    × (a.trading_fee < wad)
    × (a.flat_trading_fee * wad < (wad - a.trading_fee) * (48 * wad))
    × (a.mmr < 2 ^ 32)
    × (a.ema_param < 2 ^ 64)

-- The caller is the administrator and the moderator, the parameters are those of the call, and the
-- engine is initialized, with the identity for the matrix of its first epoch.
abbrev pub IsSetUp : Setup → Env → Engine → Type 0
IsSetUp a env e =
    (e.config.initialized ≡ true)
    × (has_role e 0 env.msg_sender ≡ true)
    × (has_role e e.config.mod_role env.msg_sender ≡ true)
    × (e.config.oracle ≡ a.oracle)
    × (e.config.vault ≡ a.vault)
    × (e.config.trusted_forwarder ≡ a.multi_call_manager)
    × (e.config.mmr ≡ a.mmr)
    × (e.config.ticker_asset_currency ≡ a.ticker_asset_currency)
    × (e.config.fee_frontend ≡ a.fee_frontend)
    × (e.config.fee_lp ≡ a.fee_lp)
    × (e.config.fee_protocol_addr ≡ a.fee_protocol_addr)
    × (e.config.trading_fee ≡ a.trading_fee)
    × (e.config.flat_trading_fee ≡ a.flat_trading_fee)
    × (e.config.ema_param ≡ a.ema_param)
    × (e.config.fee_frontend + e.config.fee_lp < e.config.fee_fractions_decimals)
    × (e.config.trading_fee < e.config.trading_fee_decimals)
    × ((e.liquidity_epochs 0).liquidity_m00 ≡ e.config.liquidity_m_decimals)
    × ((e.liquidity_epochs 0).liquidity_m01 ≡ pos 0)
    × ((e.liquidity_epochs 0).liquidity_m10 ≡ pos 0)
    × ((e.liquidity_epochs 0).liquidity_m11 ≡ e.config.liquidity_m_decimals)

-- On a fresh engine an acceptable setup returns, with each of its eleven parameters stored, the
-- matrix of the first epoch the identity at its scale and the caller in both roles, and any later
-- setup reverts with INIT and changes nothing.
pub initialize_production_once :
    (a b : Setup) (env later : Env) (s : State)
    → IsFresh env s.engine
    → IsAcceptable a
    → Returns (initialize_production a env s) (λ _ r.
      IsSetUp a env r.engine × (initialize_production b later r ≡ halt (reverts Code.init) r))
unfolding initialize_production ensure_setup write_setup init_protocol_constants narrow multiply
    initialize_liquidity_epoch ◌>>=◌ finalize_init grant_role_internal has_role Returns
initialize_production_once a b env later s (fresh, r1, r2, r3)
      (h1, h2, h3, h4, h5, h6, h7, h8, h9) =
    let f1 : ltb (a.fee_frontend + a.fee_lp) 1_000_000 ≡ true = ground arith in
    let f2 : ltb a.trading_fee wad ≡ true = ground arith in
    let m1 : ltb (a.flat_trading_fee * wad) word_mod ≡ true = ground arith in
    let m2 : ltb ((wad ⊖ a.trading_fee) * (48 ⊗ wad)) word_mod ≡ true = ground arith in
    let f3 : ltb (a.flat_trading_fee * wad) ((wad ⊖ a.trading_fee) * (48 ⊗ wad)) ≡ true =
      ground arith in
    let f4 : ltb a.mmr (2 ^ 32) ≡ true = ground arith in
    let f5 : ltb a.ema_param (2 ^ 64) ≡ true = ground arith in
    let r4 : (0 == env.mod_role_name) ≡ false = ground arith in
    rw (Returns, fresh, h1, h2, h3, f1, f2, m1, m2, f3, h4, f4, f5, r1, r3, r2)
      (
        (
          refl,
          rw (r4, ==-refl env.msg_sender, update) refl,
          rw (==-refl env.mod_role_name, ==-refl env.msg_sender, update) refl,
          refl,
          refl,
          refl,
          refl,
          refl,
          refl,
          refl,
          refl,
          refl,
          refl,
          refl,
          h5,
          h6,
          refl,
          refl,
          refl,
          refl,
        ),
        refl,
      )
