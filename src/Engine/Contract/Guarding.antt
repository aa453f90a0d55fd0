-- ===== src/Engine/Contract/Guarding.antt =====
-- The guarded methods of perp-engine/src/lib.rs keep the storage sound.
use denaria_perp_arbitrum.Base.{ℕ, Bool, false, List, []}
use denaria_perp_arbitrum.Engine.State.{Address, Env}
use denaria_perp_arbitrum.Engine.Guards.{Arguments, guarded_methods_release}
use denaria_perp_arbitrum.Engine.Admin.Guarded.{guarded_methods-Framed}
use denaria_perp_arbitrum.Engine.Trade.{trade_impl}
use denaria_perp_arbitrum.Engine.Liquidity.{add_liquidity_outer, remove_liquidity_outer}
use denaria_perp_arbitrum.Engine.Close.{close_and_withdraw_outer, realize_pnl_outer}
use denaria_perp_arbitrum.Engine.Liquidation.{liquidate_impl, batch_liquidate_impl}
use denaria_perp_arbitrum.Engine.AutoClose.{
  auto_close_user_position_impl, batch_auto_close_user_position_impl,
}
use denaria_perp_arbitrum.Engine.Entry.{
  trade, trade_for, close_and_withdraw, close_and_withdraw_for, add_liquidity_public,
  add_liquidity_for, remove_liquidity_public, remove_liquidity_for, liquidate, liquidate_for,
  batch_liquidate_for, realize_pnl, realize_pnl_for, auto_close_user_position,
  auto_close_user_position_for, batch_auto_close_user_position_for,
}
use denaria_perp_arbitrum.Engine.Contract.Steps.{KeepsSound, caller_released, user_released}

abbrev blank : Arguments
blank = record {
  caller = 0;
  user = 0;
  frontend = 0;
  direction = false;
  size = 0;
  other_size = 0;
  limit = 0;
  guess = 0;
  leverage = 0;
  report = 0;
  users = [];
  sizes = [];
  frontends = [];
}

module _ (env : Env) (d : Bool) (s m g : ℕ) (f : Address) (l r : ℕ) where
  abbrev trading_arguments : Address → Arguments
  trading_arguments v = record blank {
    user = v;
    direction = d;
    size = s;
    limit = m;
    guess = g;
    frontend = f;
    leverage = l;
    report = r;
  }

  pub trading-KeepsSound : KeepsSound env (trade d s m g f l r)
  unfolding trade
  trading-KeepsSound =
      caller_released env (λ v. trade_impl v d s m g f l r)
        (λ v. (guarded_methods_release env (trading_arguments v)).6)
        (λ v. (guarded_methods-Framed env (trading_arguments v)).6)

  pub trading_for-KeepsSound : (user : Address) → KeepsSound env (trade_for user d s m g f l r)
  unfolding trade_for
  trading_for-KeepsSound user =
      user_released env user (λ v. trade_impl v d s m g f l r)
        (λ v. (guarded_methods_release env (trading_arguments v)).6)
        (λ v. (guarded_methods-Framed env (trading_arguments v)).6)

module _ (env : Env) (s l : ℕ) (f : Address) (r : ℕ) where
  abbrev closing_arguments : Address → Arguments
  closing_arguments v = record blank {
    user = v;
    limit = s;
    other_size = l;
    frontend = f;
    report = r;
  }

  pub closing-KeepsSound : KeepsSound env (close_and_withdraw s l f r)
  unfolding close_and_withdraw
  closing-KeepsSound =
      caller_released env (λ v. close_and_withdraw_outer v s l f r)
        (λ v. (guarded_methods_release env (closing_arguments v)).2)
        (λ v. (guarded_methods-Framed env (closing_arguments v)).2)

  pub closing_for-KeepsSound :
      (user : Address) → KeepsSound env (close_and_withdraw_for user s l f r)
  unfolding close_and_withdraw_for
  closing_for-KeepsSound user =
      user_released env user (λ v. close_and_withdraw_outer v s l f r)
        (λ v. (guarded_methods_release env (closing_arguments v)).2)
        (λ v. (guarded_methods-Framed env (closing_arguments v)).2)

module _ (env : Env) (s a m r : ℕ) where
  abbrev adding_arguments : Address → Arguments
  adding_arguments v = record blank { user = v; size = s; other_size = a; limit = m; report = r }

  pub adding-KeepsSound : KeepsSound env (add_liquidity_public s a m r)
  unfolding add_liquidity_public
  adding-KeepsSound =
      caller_released env (λ v. add_liquidity_outer v s a m r)
        (λ v. (guarded_methods_release env (adding_arguments v)).0)
        (λ v. (guarded_methods-Framed env (adding_arguments v)).0)

  pub adding_for-KeepsSound : (user : Address) → KeepsSound env (add_liquidity_for user s a m r)
  unfolding add_liquidity_for
  adding_for-KeepsSound user =
      user_released env user (λ v. add_liquidity_outer v s a m r)
        (λ v. (guarded_methods_release env (adding_arguments v)).0)
        (λ v. (guarded_methods-Framed env (adding_arguments v)).0)

module _ (env : Env) (s a m r : ℕ) where
  abbrev removing_arguments : Address → Arguments
  removing_arguments v = record blank { user = v; size = s; other_size = a; limit = m; report = r }

  pub removing-KeepsSound : KeepsSound env (remove_liquidity_public s a m r)
  unfolding remove_liquidity_public
  removing-KeepsSound =
      caller_released env (λ v. remove_liquidity_outer v s a m r)
        (λ v. (guarded_methods_release env (removing_arguments v)).1)
        (λ v. (guarded_methods-Framed env (removing_arguments v)).1)

  pub removing_for-KeepsSound :
      (user : Address) → KeepsSound env (remove_liquidity_for user s a m r)
  unfolding remove_liquidity_for
  removing_for-KeepsSound user =
      user_released env user (λ v. remove_liquidity_outer v s a m r)
        (λ v. (guarded_methods_release env (removing_arguments v)).1)
        (λ v. (guarded_methods-Framed env (removing_arguments v)).1)

module _ (env : Env) (u : Address) (s r : ℕ) where
  abbrev liquidating_arguments : Address → Arguments
  liquidating_arguments v = record blank { caller = v; user = u; size = s; report = r }

  pub liquidating-KeepsSound : KeepsSound env (liquidate u s r)
  unfolding liquidate
  liquidating-KeepsSound =
      caller_released env (λ v. liquidate_impl v u s r)
        (λ v. (guarded_methods_release env (liquidating_arguments v)).4)
        (λ v. (guarded_methods-Framed env (liquidating_arguments v)).4)

  pub liquidating_for-KeepsSound : (user : Address) → KeepsSound env (liquidate_for user u s r)
  unfolding liquidate_for
  liquidating_for-KeepsSound user =
      user_released env user (λ v. liquidate_impl v u s r)
        (λ v. (guarded_methods_release env (liquidating_arguments v)).4)
        (λ v. (guarded_methods-Framed env (liquidating_arguments v)).4)

module _ (env : Env) (r : ℕ) where
  abbrev realizing_arguments : Address → Arguments
  realizing_arguments v = record blank { user = v; report = r }

  pub realizing-KeepsSound : KeepsSound env (realize_pnl r)
  unfolding realize_pnl
  realizing-KeepsSound =
      caller_released env (λ v. realize_pnl_outer v r)
        (λ v. (guarded_methods_release env (realizing_arguments v)).3)
        (λ v. (guarded_methods-Framed env (realizing_arguments v)).3)

  pub realizing_for-KeepsSound : (user : Address) → KeepsSound env (realize_pnl_for user r)
  unfolding realize_pnl_for
  realizing_for-KeepsSound user =
      user_released env user (λ v. realize_pnl_outer v r)
        (λ v. (guarded_methods_release env (realizing_arguments v)).3)
        (λ v. (guarded_methods-Framed env (realizing_arguments v)).3)

module _ (env : Env) (u f : Address) (r : ℕ) where
  abbrev auto_closing_arguments : Address → Arguments
  auto_closing_arguments v = record blank { caller = v; user = u; frontend = f; report = r }

  pub auto_closing-KeepsSound : KeepsSound env (auto_close_user_position u f r)
  unfolding auto_close_user_position
  auto_closing-KeepsSound =
      caller_released env (λ v. auto_close_user_position_impl v u f r)
        (λ v. (guarded_methods_release env (auto_closing_arguments v)).5)
        (λ v. (guarded_methods-Framed env (auto_closing_arguments v)).5)

  pub auto_closing_for-KeepsSound :
      (user : Address) → KeepsSound env (auto_close_user_position_for user u f r)
  unfolding auto_close_user_position_for
  auto_closing_for-KeepsSound user =
      user_released env user (λ v. auto_close_user_position_impl v u f r)
        (λ v. (guarded_methods_release env (auto_closing_arguments v)).5)
        (λ v. (guarded_methods-Framed env (auto_closing_arguments v)).5)

module _ (env : Env) (us : List Address) (ss : List ℕ) (r : ℕ) where
  abbrev batch_liquidating_arguments : Address → Arguments
  batch_liquidating_arguments v = record blank { caller = v; users = us; sizes = ss; report = r }

  pub batch_liquidating_for-KeepsSound :
      (user : Address) → KeepsSound env (batch_liquidate_for user us ss r)
  unfolding batch_liquidate_for
  batch_liquidating_for-KeepsSound user =
      user_released env user (λ v. batch_liquidate_impl v us ss r)
        (λ v. (guarded_methods_release env (batch_liquidating_arguments v)).7)
        (λ v. (guarded_methods-Framed env (batch_liquidating_arguments v)).7)

module _ (env : Env) (us fs : List Address) (r : ℕ) where
  abbrev batch_auto_closing_arguments : Address → Arguments
  batch_auto_closing_arguments v = record blank {
    caller = v;
    users = us;
    frontends = fs;
    report = r;
  }

  pub batch_auto_closing_for-KeepsSound :
      (user : Address) → KeepsSound env (batch_auto_close_user_position_for user us fs r)
  unfolding batch_auto_close_user_position_for
  batch_auto_closing_for-KeepsSound user =
      user_released env user (λ v. batch_auto_close_user_position_impl v us fs r)
        (λ v. (guarded_methods_release env (batch_auto_closing_arguments v)).8)
        (λ v. (guarded_methods-Framed env (batch_auto_closing_arguments v)).8)
