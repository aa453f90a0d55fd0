-- ===== src/Engine/Parameters/TimeLock.antt =====
-- The time lock of perp-engine/src/lib.rs: what becomes of a prepared change once the lock has run out.
use denaria_perp_arbitrum.Base.{
  ◌*◌, ◌-◌, word_mod, ◌⊖◌, ℕ, ◌≡◌, refl, Bool, true, false, ltb, leb, ◌==◌, ◌<◌, ◌≤◌, ◌^◌, Code,
  arith, ==-refl, ◌&&◌, ◌⊎◌, inl, inr, Bool-cases, reverts,
}
use denaria_perp_arbitrum.CurveMath.Util.{wad}
use denaria_perp_arbitrum.Engine.State.{State, Env, Engine}
use denaria_perp_arbitrum.Engine.Monad.{Step, done, halt, ◌>>=◌}
use denaria_perp_arbitrum.Engine.Monad.Laws.{Returns}
use denaria_perp_arbitrum.Engine.Access.{has_role, only_mod, only_role}
use denaria_perp_arbitrum.Engine.Parameters.{
  Guarded, narrow, multiply, time_locked_param_hash, unlock_time, prepare_time_locked_parameters,
  set_time_locked_parameters,
}

abbrev is_mod : Env → Engine → Bool
is_mod env e = has_role e e.config.mod_role env.msg_sender

-- The sender is a moderator, the change is in bounds, and the fee fractions and scales are in order.
abbrev pub IsPreparable : Guarded → Env → Engine → Type 0
IsPreparable g env e =
    (is_mod env e ≡ true)
    × (e.config.fee_frontend ≤ e.config.fee_fractions_decimals)
    × (e.config.fee_fractions_decimals < 2 ^ 32)
    × (e.config.trading_fee_decimals < word_mod)
    × (g.mmr < 1_000_000)
    × (g.fee_lp ≤ e.config.fee_fractions_decimals - e.config.fee_frontend)
    × (g.trading_fee < e.config.trading_fee_decimals)
    × ((e.config.trading_fee_decimals - g.trading_fee) * g.minimum_trade_size < word_mod)
    × (g.flat_trading_fee * wad
        < (e.config.trading_fee_decimals - g.trading_fee) * g.minimum_trade_size)
    × (g.liquidity_min_fee ≤ g.liquidity_max_fee)
    × (g.liquidity_max_fee ≤ 10_000_000_000)

-- The two values of a change that the preparation does not bound fit their fields.
abbrev pub fits : Guarded → Bool
fits g = ltb g.funding_c (2 ^ 32) && ltb g.param_time_lock (2 ^ 64)

-- The parameters are those of the change.
abbrev pub IsWritten : Guarded → Engine → Type 0
IsWritten g e =
    (e.config.mmr ≡ g.mmr)
    × (e.config.trading_fee ≡ g.trading_fee)
    × (e.config.flat_trading_fee ≡ g.flat_trading_fee)
    × (e.config.fee_lp ≡ g.fee_lp)
    × (e.config.liquidity_min_fee ≡ g.liquidity_min_fee)
    × (e.config.liquidity_max_fee ≡ g.liquidity_max_fee)
    × (e.config.liquidity_fee_k ≡ g.liquidity_fee_k)
    × (e.config.funding_c ≡ g.funding_c)
    × (e.config.param_time_lock ≡ g.param_time_lock)
    × (e.config.minimum_trade_size ≡ g.minimum_trade_size)

-- A run that reverts with C.
unfoldable pub IsRefused : {A : Type 0} → Step A → Type 0
IsRefused (done x q) = ⊥
IsRefused (halt f q) = f ≡ reverts Code.c

-- What a made change does: it writes the parameters when the two values fit, and reverts with C when
-- one of them does not.
abbrev pub Settles : Guarded → Step (Unit {0}) → Type 0
Settles g t =
    ((fits g ≡ true) × Returns t (λ _ q. IsWritten g q.engine)) ⊎ ((fits g ≡ false) × IsRefused t)

set_time_locked_parameters-Settles :
    (g : Guarded) (env : Env) (s : State)
    → is_mod env s.engine ≡ true
    → (leb s.engine.config.param_locked_until env.block_timestamp
        && time_locked_param_hash env.keccak256 g == s.engine.config.param_hash)
      ≡ true
    → g.mmr < 2 ^ 32
    → g.fee_lp < 2 ^ 32
    → Settles g (set_time_locked_parameters g env s)
unfolding set_time_locked_parameters narrow only_mod only_role ◌>>=◌ Returns has_role IsRefused
set_time_locked_parameters-Settles g env s h unlocked low part =
    let b1 : ltb g.mmr (2 ^ 32) ≡ true = ground arith in
    let b2 : ltb g.fee_lp (2 ^ 32) ≡ true = ground arith in
    elim (Bool-cases (ltb g.funding_c (2 ^ 32))) [
      | inr wide ↦ inr (rw wide refl, rw (IsRefused, h, unlocked, b1, b2, wide) refl)
      | inl c ↦ elim (Bool-cases (ltb g.param_time_lock (2 ^ 64))) [
        | inr wide ↦ inr (rw (c, wide) refl, rw (IsRefused, h, unlocked, b1, b2, c, wide) refl)
        | inl l ↦ inl (
          rw (c, l) refl,
          rw (Returns, h, unlocked, b1, b2, c, l)
              (refl, refl, refl, refl, refl, refl, refl, refl, refl, refl),
        )
      ]
    ]

-- When the fee fractions and the scales are in order, a change in bounds that a moderator
-- prepares is accepted, and once the lock has run out his call that makes it returns, with the
-- parameters then the prepared ones, when the funding coefficient has at most 32 bits and the
-- time lock at most 64; when one of them has more, it reverts with C.
pub prepared_parameters_set :
    (g : Guarded) (env : Env) (t : ℕ) (s : State)
    → IsPreparable g env s.engine
    → unlock_time env s.engine ≤ t
    → Returns
        (prepare_time_locked_parameters g env s)
        (λ _ r. Settles g (set_time_locked_parameters g (record env { block_timestamp = t }) r))
unfolding prepare_time_locked_parameters multiply only_mod only_role ◌>>=◌ Returns has_role
prepared_parameters_set g env t s (h1, h2, h3, h4, h5, h6, h7, h8, h9, h10, h11) late =
    let c = s.engine.config in
    let b1 : (ltb g.mmr 1_000_000
          && leb g.fee_lp (c.fee_fractions_decimals ⊖ c.fee_frontend)
          && ltb g.trading_fee c.trading_fee_decimals)
        ≡ true =
      ground arith in
    let b2 : ltb (g.flat_trading_fee * wad) word_mod ≡ true = ground arith in
    let same : c.trading_fee_decimals ⊖ g.trading_fee ≡ c.trading_fee_decimals - g.trading_fee =
      ground arith in
    let b3 : ltb ((c.trading_fee_decimals ⊖ g.trading_fee) * g.minimum_trade_size) word_mod ≡ true =
      rw same (ground arith) in
    let b4 : (ltb (g.flat_trading_fee * wad)
            ((c.trading_fee_decimals ⊖ g.trading_fee) * g.minimum_trade_size)
          && leb g.liquidity_min_fee g.liquidity_max_fee
          && leb g.liquidity_max_fee 10_000_000_000)
        ≡ true =
      rw same (ground arith) in
    let b5 : leb (unlock_time env s.engine) t ≡ true = ground arith in
    rw (Returns, h1, b1, b2, b3, b4)
      (set_time_locked_parameters-Settles g _ _ h1
        (rw (b5, ==-refl (time_locked_param_hash env.keccak256 g)) refl) (ground arith)
        (ground arith))
