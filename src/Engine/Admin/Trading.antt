-- ===== src/Engine/Admin/Trading.antt =====
-- What the methods of perp-engine/src/trade.rs keep of the administration.
use denaria_perp_arbitrum.Base.{Code, ℕ, Bool}
use denaria_perp_arbitrum.Engine.State.{Address, Env, Market}
use denaria_perp_arbitrum.Engine.Monad.Frames.{Framed}
use denaria_perp_arbitrum.Engine.Admin.{admin, reads}
use denaria_perp_arbitrum.Engine.Trade.{Order, Fill}
use denaria_perp_arbitrum.Engine.Trade.{
  assign_protocol_fee_filling_insurance, book_trade, ensure_margin, ensure_pool_left,
  ensure_trade_size, execute_trade, fill_deficit, fill_long, fill_long_sized, fill_short,
  fill_surplus, move_pool_long, move_pool_short, refresh_curve, share_fee, trade_impl,
}
use denaria_perp_arbitrum.Engine.Admin.Accounted.{
  refresh_lp_funding_snapshot-admin, apply_liquidity_matrix_update-Framed,
  settle_funding_fee-Framed, update_fg-Framed,
}

pub fill_surplus-Framed :
    (env : Env) (a0 : ℕ) (a1 : Address) (a2 : Market) (a3 : ℕ)
    → Framed env admin (fill_surplus a0 a1 a2 a3)
unfolding fill_surplus
fill_surplus-Framed env a0 a1 a2 a3 = search reads depth 40

pub fill_deficit-Framed :
    (env : Env) (a0 : ℕ) (a1 : Address) (a2 : Market) (a3 : ℕ)
    → Framed env admin (fill_deficit a0 a1 a2 a3)
unfolding fill_deficit
fill_deficit-Framed env a0 a1 a2 a3 = search reads depth 40

pub assign_protocol_fee_filling_insurance-Framed :
    (env : Env) (a0 : ℕ) (a1 : Address)
    → Framed env admin (assign_protocol_fee_filling_insurance a0 a1)
unfolding assign_protocol_fee_filling_insurance
assign_protocol_fee_filling_insurance-Framed env a0 a1 =
    search (reads, fill_surplus-Framed, fill_deficit-Framed) depth 40

pub refresh_curve-Framed : (env : Env) (a0 : Bool) (a1 : ℕ) → Framed env admin (refresh_curve a0 a1)
unfolding refresh_curve
refresh_curve-Framed env a0 a1 = search reads depth 40

pub fill_long_sized-Framed :
    (env : Env) (a0 : Bool) (a1 : Order) (a2 : ℕ) (a3 : ℕ) (a4 : ℕ) (a5 : ℕ)
    → Framed env admin (fill_long_sized a0 a1 a2 a3 a4 a5)
unfolding fill_long_sized
fill_long_sized-Framed env a0 a1 a2 a3 a4 a5 = search reads depth 40

pub fill_long-Framed :
    (env : Env) (a0 : Bool) (a1 : Order) (a2 : ℕ) (a3 : ℕ) (a4 : ℕ)
    → Framed env admin (fill_long a0 a1 a2 a3 a4)
unfolding fill_long
fill_long-Framed env a0 a1 a2 a3 a4 = search (reads, fill_long_sized-Framed) depth 40

pub fill_short-Framed :
    (env : Env) (a0 : Bool) (a1 : Order) (a2 : ℕ) (a3 : ℕ) (a4 : ℕ)
    → Framed env admin (fill_short a0 a1 a2 a3 a4)
unfolding fill_short
fill_short-Framed env a0 a1 a2 a3 a4 = search reads depth 40

pub book_trade-Framed : (env : Env) (a0 : Order) (a1 : ℕ) → Framed env admin (book_trade a0 a1)
unfolding book_trade
book_trade-Framed env a0 a1 =
    search (reads, refresh_lp_funding_snapshot-admin, settle_funding_fee-Framed) depth 40

pub move_pool_long-Framed :
    (env : Env) (a0 : Order) (a1 : Fill) (a2 : ℕ) → Framed env admin (move_pool_long a0 a1 a2)
unfolding move_pool_long
move_pool_long-Framed env a0 a1 a2 = search (reads, apply_liquidity_matrix_update-Framed) depth 40

pub move_pool_short-Framed :
    (env : Env) (a0 : Order) (a1 : Fill) (a2 : ℕ) → Framed env admin (move_pool_short a0 a1 a2)
unfolding move_pool_short
move_pool_short-Framed env a0 a1 a2 = search (reads, apply_liquidity_matrix_update-Framed) depth 40

pub share_fee-Framed : (env : Env) (a0 : Order) (a1 : ℕ) → Framed env admin (share_fee a0 a1)
unfolding share_fee
share_fee-Framed env a0 a1 = search (reads, assign_protocol_fee_filling_insurance-Framed) depth 40

pub ensure_pool_left-Framed : (env : Env) (a0 : ℕ) → Framed env admin (ensure_pool_left a0)
unfolding ensure_pool_left
ensure_pool_left-Framed env a0 = search reads depth 40

pub execute_trade-Framed : (env : Env) (a0 : Order) → Framed env admin (execute_trade a0)
unfolding execute_trade
execute_trade-Framed env a0 =
    search
      (
        reads, update_fg-Framed, refresh_curve-Framed, fill_long-Framed, fill_short-Framed,
        book_trade-Framed, move_pool_long-Framed, move_pool_short-Framed, share_fee-Framed,
        ensure_pool_left-Framed,
      )
      depth 40

pub ensure_trade_size-Framed :
    (env : Env) (a0 : Bool) (a1 : ℕ) (a2 : ℕ) → Framed env admin (ensure_trade_size a0 a1 a2)
unfolding ensure_trade_size
ensure_trade_size-Framed env a0 a1 a2 = search reads depth 40

pub ensure_margin-Framed :
    (env : Env) (a0 : Address) (a1 : ℕ) (a2 : ℕ) (a3 : Code)
    → Framed env admin (ensure_margin a0 a1 a2 a3)
unfolding ensure_margin
ensure_margin-Framed env a0 a1 a2 a3 = search reads depth 40

pub trade_impl-Framed :
    (env : Env) (a0 : Address) (a1 : Bool) (a2 : ℕ) (a3 : ℕ) (a4 : ℕ) (a5 : Address) (a6 : ℕ)
    (a7 : ℕ)
    → Framed env admin (trade_impl a0 a1 a2 a3 a4 a5 a6 a7)
unfolding trade_impl
trade_impl-Framed env a0 a1 a2 a3 a4 a5 a6 a7 =
    search (reads, execute_trade-Framed, ensure_trade_size-Framed, ensure_margin-Framed) depth 40
