-- ===== src/Engine/Admin/Providing.antt =====
-- What the methods of perp-engine/src/liquidity.rs keep of the administration.
use denaria_perp_arbitrum.Base.{Code, ℕ}
use denaria_perp_arbitrum.Engine.State.{Address, Env}
use denaria_perp_arbitrum.Engine.Monad.Frames.{Framed}
use denaria_perp_arbitrum.Engine.Admin.{admin, reads}
use denaria_perp_arbitrum.Engine.Admin.Accounted.{
  apply_liquidity_matrix_update-Framed, settle_funding_fee-Framed, update_fg-Framed,
  update_snapshots-Framed,
}
use denaria_perp_arbitrum.Engine.Liquidity.{
  add_liquidity, add_liquidity_outer, borrow_deposit, clear_liquidity_position, credit_removed,
  deduct_removal_fee, deposit_fee_value, distribute_liquidity_fee, ensure_backed, ensure_movement,
  ensure_solvent, open_removal, removal_fee_value, remove_liquidity, remove_liquidity_outer,
  reset_curve, spread_fee, withdraw_from_pool,
}

pub spread_fee-Framed : (env : Env) (a0 : ℕ) (a1 : ℕ) → Framed env admin (spread_fee a0 a1)
unfolding spread_fee
spread_fee-Framed env a0 a1 = search (reads, apply_liquidity_matrix_update-Framed) depth 40

pub distribute_liquidity_fee-Framed :
    (env : Env) (a0 : ℕ) (a1 : ℕ) → Framed env admin (distribute_liquidity_fee a0 a1)
unfolding distribute_liquidity_fee
distribute_liquidity_fee-Framed env a0 a1 = search (reads, spread_fee-Framed) depth 40

pub deduct_removal_fee-Framed :
    (env : Env) (a0 : Address) (a1 : ℕ) (a2 : ℕ) → Framed env admin (deduct_removal_fee a0 a1 a2)
unfolding deduct_removal_fee
deduct_removal_fee-Framed env a0 a1 a2 = search reads depth 40

pub credit_removed-Framed :
    (env : Env) (a0 : Address) (a1 : ℕ) (a2 : ℕ) → Framed env admin (credit_removed a0 a1 a2)
unfolding credit_removed
credit_removed-Framed env a0 a1 a2 = search reads depth 40

pub reset_curve-Framed : (env : Env) (a0 : ℕ) → Framed env admin (reset_curve a0)
unfolding reset_curve
reset_curve-Framed env a0 = search reads depth 40

pub removal_fee_value-Framed :
    (env : Env) (a0 : ℕ) (a1 : ℕ) (a2 : ℕ) (a3 : ℕ)
    → Framed env admin (removal_fee_value a0 a1 a2 a3)
unfolding removal_fee_value
removal_fee_value-Framed env a0 a1 a2 a3 = search reads depth 40

pub withdraw_from_pool-Framed :
    (env : Env) (a0 : ℕ) (a1 : ℕ) → Framed env admin (withdraw_from_pool a0 a1)
unfolding withdraw_from_pool
withdraw_from_pool-Framed env a0 a1 = search reads depth 40

pub open_removal-Framed :
    (env : Env) (a0 : ℕ) (a1 : ℕ) (a2 : Address) (a3 : ℕ)
    → Framed env admin (open_removal a0 a1 a2 a3)
unfolding open_removal
open_removal-Framed env a0 a1 a2 a3 =
    search (reads, update_fg-Framed, settle_funding_fee-Framed, update_snapshots-Framed) depth 40

pub remove_liquidity-Framed :
    (env : Env) (a0 : ℕ) (a1 : ℕ) (a2 : Address) (a3 : ℕ) (a4 : ℕ)
    → Framed env admin (remove_liquidity a0 a1 a2 a3 a4)
unfolding remove_liquidity
remove_liquidity-Framed env a0 a1 a2 a3 a4 =
    search
      (
        reads, distribute_liquidity_fee-Framed, deduct_removal_fee-Framed, credit_removed-Framed,
        reset_curve-Framed, removal_fee_value-Framed, withdraw_from_pool-Framed,
        open_removal-Framed,
      )
      depth 40

pub borrow_deposit-Framed :
    (env : Env) (a0 : Address) (a1 : ℕ) (a2 : ℕ) (a3 : ℕ)
    → Framed env admin (borrow_deposit a0 a1 a2 a3)
unfolding borrow_deposit
borrow_deposit-Framed env a0 a1 a2 a3 = search reads depth 40

pub add_liquidity-Framed :
    (env : Env) (a0 : ℕ) (a1 : ℕ) (a2 : ℕ) (a3 : ℕ) (a4 : Address)
    → Framed env admin (add_liquidity a0 a1 a2 a3 a4)
unfolding add_liquidity
add_liquidity-Framed env a0 a1 a2 a3 a4 =
    search
      (
        reads, update_fg-Framed, settle_funding_fee-Framed, update_snapshots-Framed,
        distribute_liquidity_fee-Framed, borrow_deposit-Framed,
      )
      depth 40

pub ensure_solvent-Framed :
    (env : Env) (a0 : Address) (a1 : ℕ) (a2 : ℕ) → Framed env admin (ensure_solvent a0 a1 a2)
unfolding ensure_solvent
ensure_solvent-Framed env a0 a1 a2 = search reads depth 40

pub deposit_fee_value-Framed :
    (env : Env) (a0 : ℕ) (a1 : ℕ) (a2 : ℕ) (a3 : ℕ)
    → Framed env admin (deposit_fee_value a0 a1 a2 a3)
unfolding deposit_fee_value
deposit_fee_value-Framed env a0 a1 a2 a3 = search reads depth 40

pub ensure_movement-Framed :
    (env : Env) (a0 : ℕ) (a1 : ℕ) (a2 : ℕ) (a3 : Code)
    → Framed env admin (ensure_movement a0 a1 a2 a3)
unfolding ensure_movement
ensure_movement-Framed env a0 a1 a2 a3 = search reads depth 40

pub ensure_backed-Framed :
    (env : Env) (a0 : Address) (a1 : ℕ) (a2 : ℕ) → Framed env admin (ensure_backed a0 a1 a2)
unfolding ensure_backed
ensure_backed-Framed env a0 a1 a2 = search reads depth 40

pub add_liquidity_outer-Framed :
    (env : Env) (a0 : Address) (a1 : ℕ) (a2 : ℕ) (a3 : ℕ) (a4 : ℕ)
    → Framed env admin (add_liquidity_outer a0 a1 a2 a3 a4)
unfolding add_liquidity_outer
add_liquidity_outer-Framed env a0 a1 a2 a3 a4 =
    search
      (
        reads, reset_curve-Framed, add_liquidity-Framed, ensure_solvent-Framed,
        deposit_fee_value-Framed, ensure_movement-Framed, ensure_backed-Framed,
      )
      depth 40

pub remove_liquidity_outer-Framed :
    (env : Env) (a0 : Address) (a1 : ℕ) (a2 : ℕ) (a3 : ℕ) (a4 : ℕ)
    → Framed env admin (remove_liquidity_outer a0 a1 a2 a3 a4)
unfolding remove_liquidity_outer
remove_liquidity_outer-Framed env a0 a1 a2 a3 a4 =
    search (reads, remove_liquidity-Framed, ensure_solvent-Framed, ensure_movement-Framed) depth 40

pub clear_liquidity_position-Framed :
    (env : Env) (a0 : Address) → Framed env admin (clear_liquidity_position a0)
unfolding clear_liquidity_position
clear_liquidity_position-Framed env a0 = search reads depth 40
