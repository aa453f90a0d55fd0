-- ===== src/Engine/Admin/Guarded.antt =====
-- The guarded methods of perp-engine/src, and the methods without the guard that any account may
-- call, write nothing that administration owns.
use denaria_perp_arbitrum.Base.{ℕ, ◌≡◌}
use denaria_perp_arbitrum.Engine.Monad.{◌>>=◌}
use denaria_perp_arbitrum.Engine.State.{Address, Env, State}
use denaria_perp_arbitrum.Engine.Monad.Frames.{Framed, left}
use denaria_perp_arbitrum.Engine.Guards.{Arguments, AllGuarded}
use denaria_perp_arbitrum.Engine.Admin.{admin, reads}
use denaria_perp_arbitrum.Engine.Admin.Accounted.{
  update_fg-Framed, settle_funding_and_update_snapshots-Framed,
}
use denaria_perp_arbitrum.Engine.Admin.Trading.{trade_impl-Framed}
use denaria_perp_arbitrum.Engine.Admin.Providing.{
  add_liquidity_outer-Framed, remove_liquidity_outer-Framed,
}
use denaria_perp_arbitrum.Engine.Admin.Closing.{
  close_and_withdraw_outer-Framed, realize_pnl_outer-Framed, clear_auto_close_data-Framed,
}
use denaria_perp_arbitrum.Engine.Admin.Liquidating.{
  liquidate_impl-Framed, batch_liquidate_impl-Framed,
}
use denaria_perp_arbitrum.Engine.Admin.AutoClosing.{
  enable_auto_close_impl-Framed, auto_close_user_position_impl-Framed,
  batch_auto_close_user_position_impl-Framed,
}
use denaria_perp_arbitrum.Engine.Entry.{
  update_fg_keeper, update_lp_snapshot, enable_auto_close, disable_auto_close,
}

pub update_fg_keeper-Framed : (env : Env) (report : ℕ) → Framed env admin (update_fg_keeper report)
unfolding update_fg_keeper
update_fg_keeper-Framed env report = search (reads, update_fg-Framed) depth 20

pub update_lp_snapshot-Framed :
    (env : Env) (user : Address) (report : ℕ) → Framed env admin (update_lp_snapshot user report)
unfolding update_lp_snapshot
update_lp_snapshot-Framed env user report =
    search (reads, update_fg-Framed, settle_funding_and_update_snapshots-Framed) depth 20

pub guarded_methods-Framed : (env : Env) (a : Arguments) → AllGuarded a (λ A m. Framed env admin m)
guarded_methods-Framed env a = (
  add_liquidity_outer-Framed env _ _ _ _ _,
  remove_liquidity_outer-Framed env _ _ _ _ _,
  close_and_withdraw_outer-Framed env _ _ _ _ _,
  realize_pnl_outer-Framed env _ _,
  liquidate_impl-Framed env _ _ _ _,
  auto_close_user_position_impl-Framed env _ _ _ _,
  trade_impl-Framed env _ _ _ _ _ _ _ _,
  batch_liquidate_impl-Framed env _ _ _ _,
  batch_auto_close_user_position_impl-Framed env _ _ _ _,
)

-- No guarded method, whether it returns or stops, changes the parameters, the emergency breaker or
-- the roles.
pub guarded_methods_keep_admin :
    (env : Env) (s : State) (a : Arguments) → AllGuarded a (λ A m. admin (left (m env s)) ≡ admin s)
guarded_methods_keep_admin env s a =
    let (m1, m2, m3, m4, m5, m6, m7, m8, m9) = guarded_methods-Framed env a in
    (
      m1.keeps s,
      m2.keeps s,
      m3.keeps s,
      m4.keeps s,
      m5.keeps s,
      m6.keeps s,
      m7.keeps s,
      m8.keeps s,
      m9.keeps s,
    )

-- The keepers' methods, and the switches of auto-close, change none of them either.
open_methods_keep_admin :
    (env : Env) (s : State) (user : Address) (report profit_th loss_th max_slippage max_liq_fee : ℕ)
    → (admin (left (update_fg_keeper report env s)) ≡ admin s)
      × (admin (left (update_lp_snapshot user report env s)) ≡ admin s)
      × (admin (left (enable_auto_close profit_th loss_th max_slippage max_liq_fee env s))
          ≡ admin s)
      × (admin (left (disable_auto_close env s)) ≡ admin s)
unfolding enable_auto_close disable_auto_close ◌>>=◌
open_methods_keep_admin env s user report profit_th loss_th max_slippage max_liq_fee = (
  (update_fg_keeper-Framed env report).keeps s,
  (update_lp_snapshot-Framed env user report).keeps s,
  (enable_auto_close_impl-Framed env env.msg_sender profit_th loss_th max_slippage
        max_liq_fee).keeps
      s,
  (clear_auto_close_data-Framed env env.msg_sender 0).keeps s,
)
