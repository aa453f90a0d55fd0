-- ===== src/Engine/Guards.antt =====
-- The reentrancy guard of perp-engine/src/lib.rs, over all the methods that take it.
use denaria_perp_arbitrum.Base.{ℕ, ◌≡◌, refl, Bool, true, false, List, Code, reverts}
use denaria_perp_arbitrum.Engine.State.{Address, Engine, State, Env}
use denaria_perp_arbitrum.Engine.Monad.{halt, M, ◌>>=◌, ensure, enter, set_entered, gets}
use denaria_perp_arbitrum.Engine.Monad.Laws.{Ends, Ends->>=, Ends-modify, Ends-pure}
use denaria_perp_arbitrum.Engine.Trade.{trade_impl}
use denaria_perp_arbitrum.Engine.Liquidity.{add_liquidity_outer, remove_liquidity_outer}
use denaria_perp_arbitrum.Engine.Close.{close_and_withdraw_outer, realize_pnl_outer}
use denaria_perp_arbitrum.Engine.Liquidation.{liquidate_impl, batch_liquidate_impl}
use denaria_perp_arbitrum.Engine.AutoClose.{
  auto_close_user_position_impl, batch_auto_close_user_position_impl,
}

-- The arguments of the guarded methods.
pub record Arguments : Type 0 where
  pub caller : Address
  pub user : Address
  pub frontend : Address
  pub direction : Bool
  pub size : ℕ
  pub other_size : ℕ
  pub limit : ℕ
  pub guess : ℕ
  pub leverage : ℕ
  pub report : ℕ
  pub users : List Address
  pub sizes : List ℕ
  pub frontends : List Address

abbrev trade_of : Arguments → M ℕ
trade_of a = trade_impl a.user a.direction a.size a.limit a.guess a.frontend a.leverage a.report

-- The methods of one argument list, each with the property `P`.
abbrev pub AllGuarded : Arguments → ((A : Type 0) → M A → Type 0) → Type 0
AllGuarded a P =
    P _ (add_liquidity_outer a.user a.size a.other_size a.limit a.report)
    × P _ (remove_liquidity_outer a.user a.size a.other_size a.limit a.report)
    × P _ (close_and_withdraw_outer a.user a.limit a.other_size a.frontend a.report)
    × P _ (realize_pnl_outer a.user a.report)
    × P _ (liquidate_impl a.caller a.user a.size a.report)
    × P _ (auto_close_user_position_impl a.caller a.user a.frontend a.report)
    × P _ (trade_of a)
    × P _ (batch_liquidate_impl a.caller a.users a.sizes a.report)
    × P _ (batch_auto_close_user_position_impl a.caller a.users a.frontends a.report)

-- The run reverts and changes nothing.
abbrev pub Refused : Env → State → (A : Type 0) → M A → Type 0
Refused env s A m = (why : Code) × (m env s ≡ halt (reverts why) s)

entered_refuses :
    {B : Type 0} (env : Env) (s : State) (g : Unit {0} → M B)
    → s.engine.entered ≡ true
    → Refused env s _ (enter >>= g)
unfolding enter ◌>>=◌
entered_refuses env s g h = (Code.r, rw h refl)

-- A test before the guard.
after_test :
    {B : Type 0} (env : Env) (s : State) (b : Bool) (why : Code) (g : Unit {0} → M B)
    → Refused env s _ (g tt)
    → Refused env s _ (ensure b why >>= g)
unfolding ◌>>=◌
after_test env s true why g h = h
after_test env s false why g h = (why, refl)

after_read :
    {A B : Type 0} (env : Env) (s : State) (f : Engine → A) (g : A → M B)
    → Refused env s _ (g (f s.engine))
    → Refused env s _ (gets f >>= g)
unfolding ◌>>=◌
after_read env s f g h = h

trade-Refused :
    (env : Env) (s : State) (a : Arguments) → s.engine.entered ≡ true → Refused env s _ (trade_of a)
unfolding trade_impl
trade-Refused env s a h = after_read env s _ _ (after_test env s _ _ _ (entered_refuses env s _ h))

-- While the guard is taken, every guarded method reverts and leaves the state as it is, whatever its
-- arguments.
pub guarded_methods_refuse :
    (env : Env) (s : State) (a : Arguments) → s.engine.entered ≡ true → AllGuarded a (Refused env s)
unfolding add_liquidity_outer remove_liquidity_outer close_and_withdraw_outer realize_pnl_outer
    liquidate_impl auto_close_user_position_impl batch_liquidate_impl
    batch_auto_close_user_position_impl
guarded_methods_refuse env s a h = (
  entered_refuses env s _ h,
  entered_refuses env s _ h,
  entered_refuses env s _ h,
  entered_refuses env s _ h,
  entered_refuses env s _ h,
  entered_refuses env s _ h,
  trade-Refused env s a h,
  after_test env s _ _ _
      (after_test env s _ _ _ (after_test env s _ _ _ (entered_refuses env s _ h))),
  after_test env s _ _ _
      (after_test env s _ _ _ (after_test env s _ _ _ (entered_refuses env s _ h))),
)

abbrev pub IsReleased : State → Type 0
IsReleased s = s.engine.entered ≡ false

release : (env : Env) → Ends env IsReleased (set_entered false)
release env = Ends-modify _ λ s. refl

ruleset release_rules = (Ends->>=, Ends-pure, release)

-- A guarded method that returns has released the guard.
pub guarded_methods_release :
    (env : Env) (a : Arguments) → AllGuarded a (λ A m. Ends {A = A} env IsReleased m)
unfolding add_liquidity_outer remove_liquidity_outer close_and_withdraw_outer realize_pnl_outer
    liquidate_impl auto_close_user_position_impl batch_liquidate_impl
    batch_auto_close_user_position_impl trade_impl
guarded_methods_release env a = (
  search release_rules depth 16,
  search release_rules depth 16,
  search release_rules depth 16,
  search release_rules depth 16,
  search release_rules depth 16,
  search release_rules depth 16,
  search release_rules depth 16,
  search release_rules depth 16,
  search release_rules depth 16,
)
