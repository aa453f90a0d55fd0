-- ===== src/Engine/Contract/Steps.antt =====
-- What every transaction with perp-engine/src/lib.rs keeps of its storage, from what its method does.
use denaria_perp_arbitrum.Base.{sym, ℕ, Bool, true, false, [], ℤ, pos, ◌^◌, ◌≡◌, refl, ap, ◌∙◌}
use denaria_perp_arbitrum.CurveMath.Util.{wad}
use denaria_perp_arbitrum.Engine.State.{Address, Config, Engine, Env, State}
use denaria_perp_arbitrum.Engine.Monad.{Step, done, halt, M, ◌>>=◌, asks}
use denaria_perp_arbitrum.Engine.Monad.Frames.{Framed, left}
use denaria_perp_arbitrum.Engine.Monad.Laws.{Ends, Ends->>=}
use denaria_perp_arbitrum.Engine.Monad.Keeps.{
  Keeps, Keeps->>=, Keeps-asks, Keeps-gets, Keeps-ensure, Keeps-pure, Framed-Keeps,
}
use denaria_perp_arbitrum.Engine.Access.{require_forwarder}
use denaria_perp_arbitrum.Engine.Guards.{IsReleased}
use denaria_perp_arbitrum.Engine.Admin.{admin}
use denaria_perp_arbitrum.Engine.Contract.{outcome, run}

-- The scales of the amounts, which only the initializer writes.
pub record Scales : Type 0 where
  pub oracle_decimals : ℕ
  pub mmr_decimals : ℕ
  pub liquidation_decimals : ℕ
  pub fee_fractions_decimals : ℕ
  pub liquidity_fee_decimals : ℕ
  pub funding_rate_decimals : ℕ
  pub funding_c_decimals : ℕ
  pub liquidity_m_decimals : ℤ
  pub liquidity_g_decimals : ℕ
  pub trading_fee_decimals : ℕ

abbrev pub scales : Config → Scales
scales c = record {
  oracle_decimals = c.oracle_decimals;
  mmr_decimals = c.mmr_decimals;
  liquidation_decimals = c.liquidation_decimals;
  fee_fractions_decimals = c.fee_fractions_decimals;
  liquidity_fee_decimals = c.liquidity_fee_decimals;
  funding_rate_decimals = c.funding_rate_decimals;
  funding_c_decimals = c.funding_c_decimals;
  liquidity_m_decimals = c.liquidity_m_decimals;
  liquidity_g_decimals = c.liquidity_g_decimals;
  trading_fee_decimals = c.trading_fee_decimals;
}

abbrev pub protocol_scales : Scales
protocol_scales = record {
  oracle_decimals = 100_000_000;
  mmr_decimals = 1_000_000;
  liquidation_decimals = 1_000_000;
  fee_fractions_decimals = 1_000_000;
  liquidity_fee_decimals = 10_000_000_000;
  funding_rate_decimals = wad;
  funding_c_decimals = 100_000;
  liquidity_m_decimals = pos (2 ^ 80);
  liquidity_g_decimals = 10 ^ 24;
  trading_fee_decimals = wad;
}

-- The guard is free, and an initialized contract has the protocol's scales.
abbrev pub IsSound : Engine → Type 0
IsSound e = (e.entered ≡ false) × (e.config.initialized ≡ true → scales e.config ≡ protocol_scales)

pub record Fixed : Type 0 where
  pub entered : Bool
  pub initialized : Bool
  pub held : Scales

abbrev pub fixed : State → Fixed
fixed s = record {
  entered = s.engine.entered;
  initialized = s.engine.config.initialized;
  held = scales s.engine.config;
}

-- A transaction with the method keeps the storage sound.
abbrev pub KeepsSound : {A : Type 0} → Env → M A → Type 0
KeepsSound env m = (e : Engine) → IsSound e → IsSound (run env e m)

outcome-fixed :
    {A : Type 0} (e : Engine) (t : Step A)
    → fixed (left t) ≡ fixed (record { engine = e; trace = [] })
    → IsSound e
    → IsSound (outcome e t)
outcome-fixed e (done x s) h (p, q) =
    (ap (λ f. f.entered) h ∙ p, λ i. ap (λ f. f.held) h ∙ q (sym (ap (λ f. f.initialized) h) ∙ i))
outcome-fixed e (halt f s) h p = p

-- A method that leaves the guard and the configuration's scales alone.
pub quiet : {A : Type 0} (env : Env) (m : M A) → Keeps env fixed m → KeepsSound env m
quiet env m h e p =
    let s : State = record { engine = e; trace = [] } in outcome-fixed e (m env s) (h.keeps s) p

outcome_released :
    {A : Type 0} (e : Engine) (t : Step A)
    → ((y : A) (r : State) → t ≡ done y r → IsReleased r)
    → admin (left t) ≡ admin (record { engine = e; trace = [] })
    → IsSound e
    → IsSound (outcome e t)
outcome_released e (done x s) h a (p, q) =
    let same : s.engine.config ≡ e.config = ap (λ b. b.config) a in
    (h x s refl, λ i. ap scales same ∙ q (sym (ap (λ c. c.initialized) same) ∙ i))
outcome_released e (halt f s) h a p = p

-- A guarded method.
pub released :
    {A : Type 0} (env : Env) (m : M A)
    → Ends env IsReleased m
    → Keeps env admin m
    → KeepsSound env m
released env m h k e p =
    let s : State = record { engine = e; trace = [] } in
    outcome_released e (m env s) (h.ends s) (k.keeps s) p

-- A guarded method of the caller, and one of the forwarded user.
pub caller_released :
    {A : Type 0} (env : Env) (method : Address → M A)
    → ((user : Address) → Ends env IsReleased (method user))
    → ((user : Address) → Framed env admin (method user))
    → KeepsSound env (asks (λ env. env.msg_sender) >>= method)
caller_released env method h k =
    released env _ (Ends->>= _ _ h) (Keeps->>= _ _ (Keeps-asks _) λ u. Framed-Keeps _ (k u))

pub require_forwarder-Keeps :
    {X : Type 0} (env : Env) (f : State → X) (user : Address) → Keeps env f (require_forwarder user)
unfolding require_forwarder
require_forwarder-Keeps env f user = Keeps->>= _ _ (Keeps-asks _) λ caller.
    Keeps->>= _ _ (Keeps-gets _) λ forwarder. Keeps->>= _ _ (Keeps-ensure _ _) λ u. Keeps-pure user

pub user_released :
    {A : Type 0} (env : Env) (user : Address) (method : Address → M A)
    → ((user : Address) → Ends env IsReleased (method user))
    → ((user : Address) → Framed env admin (method user))
    → KeepsSound env (require_forwarder user >>= method)
user_released env user method h k =
    released env _ (Ends->>= _ _ h)
      (Keeps->>= _ _ (require_forwarder-Keeps env admin user) λ u. Framed-Keeps _ (k u))
