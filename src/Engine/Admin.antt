-- ===== src/Engine/Admin.antt =====
-- What administration owns in the storage of perp-engine/src/lib.rs: the parameters, the emergency
-- breaker and the roles.
pub mod Engines
pub mod Accounting
pub mod Accounted
pub mod Trading
pub mod Providing
pub mod Closing
pub mod Liquidating
pub mod AutoClosing
pub mod Guarded
use denaria_perp_arbitrum.Base.{ap, Bool, ◌≡◌, refl}
use denaria_perp_arbitrum.Engine.State.{Env, Config, Role, Address, State, Effect}
use denaria_perp_arbitrum.Engine.Monad.{M}
use denaria_perp_arbitrum.Engine.Monad.Frames.{
  Framed, Framed->>=, Framed-pure, Framed-call, Framed-view, Framed-asks, Framed-gets,
  Framed-ensure, Framed-if, Framed-when, Framed-modify, Framed-emit, Framed-external,
  Framed-verify_report, Framed-read_price, Framed-read_collateral, Framed-enter,
}

pub record Admin : Type 0 where
  pub config : Config
  pub trading_paused : Bool
  pub role_members : Role → Address → Bool

abbrev pub admin : State → Admin
admin s = record {
  config = s.engine.config;
  trading_paused = s.engine.trading_paused;
  role_members = s.engine.role_members;
}

-- The same with the reentrancy guard.
pub record Core : Type 0 where
  pub administration : Admin
  pub entered : Bool

abbrev pub core : State → Core
core s = record { administration = admin s; entered = s.engine.entered }

pub core-admin : {A : Type 0} {env : Env} (m : M A) → Framed env core m → Framed env admin m
core-admin m h = record { keeps = λ s. ap (λ c. c.administration) (h.keeps s); blind = h.blind }

-- A method keeps a view when each of its parts does.
pub ruleset reads = (
  Framed->>=, Framed-pure, Framed-call, Framed-view, Framed-asks, Framed-gets, Framed-ensure,
  Framed-if, Framed-when, Framed-modify, Framed-emit, Framed-external, Framed-verify_report,
  Framed-read_price, Framed-read_collateral, Framed-enter,
)
