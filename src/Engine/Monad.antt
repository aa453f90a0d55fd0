-- ===== src/Engine/Monad.antt =====
-- A method of the engine: it reads the environment, changes the state, and returns a value or
-- stops. The state comes back after a failure too, with all that was written before it.
pub mod Frames
pub mod Laws
pub mod Keeps
pub mod After
use denaria_perp_arbitrum.Base.{
  ℕ, Bool, true, ◌∷◌, Outcome, Failure, ok, fail, Code, reverts, if◌then◌else◌,
}
use denaria_perp_arbitrum.CurveMath.Util.{u}
use denaria_perp_arbitrum.Engine.State.{
  Address, Config, Market, Engine, State, Env, Event, Effect, emitted, update,
  VirtualTraderPosition, LiquidityPosition, LiquidityEpoch, AutoCloseData,
}

pub data Step (A : Type 0) : Type 0 where
  done : A → State → Step A
  halt : Failure → State → Step A

abbrev pub M : Type 0 → Type 0
M A = Env → State → Step A

infixl 5 ◌>>=◌ ◌>>◌
unfoldable pub ◌>>=◌ : {A B : Type 0} → M A → (A → M B) → M B
◌>>=◌ m g env s = elim (m env s) [ done x s' ↦ g x env s' | halt e s' ↦ halt e s' ]

abbrev pub ◌>>◌ : {B : Type 0} → M (Unit {0}) → M B → M B
m >> k = m >>= λ _. k

abbrev pub pure : {A : Type 0} → A → M A
pure x env s = done x s

abbrev pub from : {A : Type 0} → State → Outcome A → Step A
from s (ok x) = done x s
from s (fail e) = halt e s

-- A computation that does not touch the state.
abbrev pub call : {A : Type 0} → Outcome A → M A
call m env s = from s m

-- A read-only method.
abbrev pub view : {A : Type 0} → (Env → State → Outcome A) → M A
view g env s = from s (g env s)

abbrev pub asks : {A : Type 0} → (Env → A) → M A
asks g env s = done (g env) s

abbrev pub gets : {A : Type 0} → (Engine → A) → M A
gets g env s = done (g s.engine) s

abbrev pub modify : (Engine → Engine) → M (Unit {0})
modify g env s = done tt (record s { engine = g s.engine })

-- `if !test { return Err(code) }`
abbrev pub ensure : Bool → Code → M (Unit {0})
ensure b why env s = if b then done tt s else halt (reverts why) s

-- `if test { body }`
abbrev pub when : Bool → M (Unit {0}) → M (Unit {0})
when b m env s = if b then m env s else done tt s

abbrev pub set_market : (Market → Market) → M (Unit {0})
set_market g = modify λ e. record e { market = g e.market }

abbrev pub set_config : (Config → Config) → M (Unit {0})
set_config g = modify λ e. record e { config = g e.config }

abbrev pub set_entered : Bool → M (Unit {0})
set_entered b = modify λ e. record e { entered = b }

abbrev pub set_position : Address → (VirtualTraderPosition → VirtualTraderPosition) → M (Unit {0})
set_position user g = modify λ e. record e {
  user_virtual_trader_position =
      update e.user_virtual_trader_position user (g (e.user_virtual_trader_position user));
}

abbrev pub set_lp : Address → (LiquidityPosition → LiquidityPosition) → M (Unit {0})
set_lp user g = modify λ e. record e {
  liquidity_position = update e.liquidity_position user (g (e.liquidity_position user));
}

abbrev pub set_epoch : ℕ → (LiquidityEpoch → LiquidityEpoch) → M (Unit {0})
set_epoch k g =
    modify
      λ e. record e { liquidity_epochs = update e.liquidity_epochs k (g (e.liquidity_epochs k)) }

abbrev pub set_auto_close : Address → (AutoCloseData → AutoCloseData) → M (Unit {0})
set_auto_close user g = modify λ e. record e {
  auto_close_users_data = update e.auto_close_users_data user (g (e.auto_close_users_data user));
}

abbrev pub emit : Event → M (Unit {0})
emit v env s = done tt (record s { trace = emitted v ∷ s.trace })

-- A call of another contract that may change that contract's state.
abbrev pub external : Effect → M (Unit {0})
external c env s = from (record s { trace = c ∷ s.trace }) (env.answer s.trace c)

-- `oracle.verify_report_if_necessary(report)?`
unfoldable pub verify_report : ℕ → M (Unit {0})
verify_report report env s =
    external (Effect.verify_report_if_necessary s.engine.config.oracle report) env s

-- `cm::u(oracle.get_price()?)`
unfoldable pub read_price : M ℕ
read_price = do
  signed_price ← view λ env s. env.get_price s.trace s.engine.config.oracle
  call (u signed_price)

-- `vault.user_collateral(user)?`
unfoldable pub read_collateral : Address → M ℕ
read_collateral user = view λ env s. env.user_collateral s.trace s.engine.config.vault user

-- The prologue of the public methods: the reentrancy guard.
unfoldable pub enter : M (Unit {0})
enter = do
  entered ← gets λ e. e.entered
  if entered then (λ env s. halt (reverts Code.r) s) else set_entered true
