-- ===== src/Engine/Admin/Closing.antt =====
-- What the methods of perp-engine/src/close.rs keep of the administration.
use denaria_perp_arbitrum.Base.{ℕ, Bool}
use denaria_perp_arbitrum.Engine.State.{Address, Env, Config}
use denaria_perp_arbitrum.Engine.Monad.Frames.{Framed}
use denaria_perp_arbitrum.Engine.Admin.{admin, reads}
use denaria_perp_arbitrum.Engine.Clear.{clear_auto_close_data, clear_virtual_trader_position}
use denaria_perp_arbitrum.Engine.Admin.Providing.{
  clear_liquidity_position-Framed, remove_liquidity-Framed,
}
use denaria_perp_arbitrum.Engine.Close.{
  add_pnl_to_collateral, buy_back, charge_insurance, close_and_withdraw_inner,
  close_and_withdraw_outer, close_asset_side, ensure_dust, input_needed, input_without_frontend,
  realize_pnl_outer, sell_surplus, unwind_lp,
}
use denaria_perp_arbitrum.Engine.Admin.Trading.{execute_trade-Framed, refresh_curve-Framed}
use denaria_perp_arbitrum.Engine.Admin.Accounted.{
  settle_funding_and_update_snapshots-Framed, update_fg-Framed,
}

pub clear_virtual_trader_position-Framed :
    (env : Env) (a0 : Address) → Framed env admin (clear_virtual_trader_position a0)
unfolding clear_virtual_trader_position
clear_virtual_trader_position-Framed env a0 = search reads depth 40

pub clear_auto_close_data-Framed :
    (env : Env) (a0 : Address) (a1 : ℕ) → Framed env admin (clear_auto_close_data a0 a1)
unfolding clear_auto_close_data
clear_auto_close_data-Framed env a0 a1 = search reads depth 40

pub unwind_lp-Framed :
    (env : Env) (a0 : Address) (a1 : ℕ) (a2 : ℕ) (a3 : ℕ) (a4 : ℕ)
    → Framed env admin (unwind_lp a0 a1 a2 a3 a4)
unfolding unwind_lp
unwind_lp-Framed env a0 a1 a2 a3 a4 = search (reads, remove_liquidity-Framed) depth 40

pub sell_surplus-Framed :
    (env : Env) (a0 : Address) (a1 : ℕ) (a2 : ℕ) (a3 : ℕ) (a4 : ℕ) (a5 : Address)
    → Framed env admin (sell_surplus a0 a1 a2 a3 a4 a5)
unfolding sell_surplus
sell_surplus-Framed env a0 a1 a2 a3 a4 a5 = search (reads, execute_trade-Framed) depth 40

pub input_without_frontend-Framed :
    (env : Env) (a0 : Config) (a1 : ℕ) → Framed env admin (input_without_frontend a0 a1)
unfolding input_without_frontend
input_without_frontend-Framed env a0 a1 = search reads depth 40

pub input_needed-Framed :
    (env : Env) (a0 : Config) (a1 : Address) (a2 : ℕ) → Framed env admin (input_needed a0 a1 a2)
unfolding input_needed
input_needed-Framed env a0 a1 a2 = search (reads, input_without_frontend-Framed) depth 40

pub ensure_dust-Framed : (env : Env) (a0 : Address) (a1 : ℕ) → Framed env admin (ensure_dust a0 a1)
unfolding ensure_dust
ensure_dust-Framed env a0 a1 = search reads depth 40

pub buy_back-Framed :
    (env : Env) (a0 : Address) (a1 : ℕ) (a2 : ℕ) (a3 : ℕ) (a4 : Address)
    → Framed env admin (buy_back a0 a1 a2 a3 a4)
unfolding buy_back
buy_back-Framed env a0 a1 a2 a3 a4 =
    search
      (reads, refresh_curve-Framed, execute_trade-Framed, input_needed-Framed, ensure_dust-Framed)
      depth 40

pub close_asset_side-Framed :
    (env : Env) (a0 : Address) (a1 : ℕ) (a2 : ℕ) (a3 : Address)
    → Framed env admin (close_asset_side a0 a1 a2 a3)
unfolding close_asset_side
close_asset_side-Framed env a0 a1 a2 a3 =
    search (reads, sell_surplus-Framed, buy_back-Framed) depth 40

pub charge_insurance-Framed :
    (env : Env) (a0 : ℕ) (a1 : Bool) (a2 : ℕ) → Framed env admin (charge_insurance a0 a1 a2)
unfolding charge_insurance
charge_insurance-Framed env a0 a1 a2 = search reads depth 40

pub close_and_withdraw_inner-Framed :
    (env : Env) (a0 : ℕ) (a1 : ℕ) (a2 : Address) (a3 : Address) (a4 : ℕ) (a5 : ℕ) (a6 : Bool)
    → Framed env admin (close_and_withdraw_inner a0 a1 a2 a3 a4 a5 a6)
unfolding close_and_withdraw_inner
close_and_withdraw_inner-Framed env a0 a1 a2 a3 a4 a5 a6 =
    search
      (
        reads, clear_liquidity_position-Framed, clear_virtual_trader_position-Framed,
        clear_auto_close_data-Framed, unwind_lp-Framed, close_asset_side-Framed,
        charge_insurance-Framed,
      )
      depth 40

pub add_pnl_to_collateral-Framed :
    (env : Env) (a0 : Address) (a1 : ℕ) (a2 : Bool)
    → Framed env admin (add_pnl_to_collateral a0 a1 a2)
unfolding add_pnl_to_collateral
add_pnl_to_collateral-Framed env a0 a1 a2 = search reads depth 40

pub close_and_withdraw_outer-Framed :
    (env : Env) (a0 : Address) (a1 : ℕ) (a2 : ℕ) (a3 : Address) (a4 : ℕ)
    → Framed env admin (close_and_withdraw_outer a0 a1 a2 a3 a4)
unfolding close_and_withdraw_outer
close_and_withdraw_outer-Framed env a0 a1 a2 a3 a4 =
    search (reads, close_and_withdraw_inner-Framed, add_pnl_to_collateral-Framed) depth 40

pub realize_pnl_outer-Framed :
    (env : Env) (a0 : Address) (a1 : ℕ) → Framed env admin (realize_pnl_outer a0 a1)
unfolding realize_pnl_outer
realize_pnl_outer-Framed env a0 a1 =
    search
      (
        reads, update_fg-Framed, settle_funding_and_update_snapshots-Framed,
        add_pnl_to_collateral-Framed,
      )
      depth 40
