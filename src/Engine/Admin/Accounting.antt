-- ===== src/Engine/Admin/Accounting.antt =====
-- What accrual, epochs and snapshots of perp-engine/src/funding.rs and liquidity.rs keep: the
-- administration and the guard.
use denaria_perp_arbitrum.Base.{ℕ, zero, suc, Bool, ℤ, ◌⊕◌, refl}
use denaria_perp_arbitrum.Engine.State.{Address, Env, LiquidityEpoch}
use denaria_perp_arbitrum.Engine.Monad.{M}
use denaria_perp_arbitrum.Engine.Monad.Frames.{
  Framed, Framed->>=, Framed-pure, Framed-gets, Framed-if, Framed-modify,
}
use denaria_perp_arbitrum.Engine.Admin.{core, reads}
use denaria_perp_arbitrum.Engine.Epochs.{UpdateKind, is_skipped}
use denaria_perp_arbitrum.Engine.Epochs.{
  apply_liquidity_matrix_update, for_active_epochs, for_epochs, roll_liquidity_epoch_if_needed,
  updated_epoch,
}
use denaria_perp_arbitrum.Engine.Admin.Engines.{
  decrement-kept, move_lp_count-kept, open_next_epoch-kept, retire-kept,
}
use denaria_perp_arbitrum.Engine.Accrual.{
  accrue_funding, accrued_epoch, drop_snapshot, settle_funding_and_update_snapshots,
  settle_funding_fee, stamp_funding_rate, take_snapshot, update_fg, update_snapshots,
}

pub updated_epoch-core :
    (env : Env) (d a_x a_y : ℤ) (kind : UpdateKind) (e : LiquidityEpoch)
    → Framed env core (updated_epoch d a_x a_y kind e)
unfolding updated_epoch
updated_epoch-core env d a_x a_y UpdateKind.long e = search reads depth 20
updated_epoch-core env d a_x a_y UpdateKind.short e = search reads depth 20
updated_epoch-core env d a_x a_y UpdateKind.fee e = search reads depth 20

pub roll_liquidity_epoch_if_needed-core :
    (env : Env) → Framed env core (roll_liquidity_epoch_if_needed)
unfolding roll_liquidity_epoch_if_needed
roll_liquidity_epoch_if_needed-core env = search (reads, open_next_epoch-kept) depth 40

pub for_epochs-core :
    (env : Env) (n k : ℕ) (body : LiquidityEpoch → M LiquidityEpoch)
    → ((e : LiquidityEpoch) → Framed env core (body e))
    → Framed env core (for_epochs n k body)
unfolding for_epochs
for_epochs-core env zero k body h = Framed-pure tt
for_epochs-core env (suc n) k body h = Framed->>= _ _ (Framed-gets _) λ e.
    Framed->>= _ _
      (Framed-if (is_skipped e k) _ _ (Framed-pure tt)
        (Framed->>= _ _ (h _) λ v. Framed-modify _ λ s. refl))
      λ u. for_epochs-core env n (k ⊕ 1) body h

pub for_active_epochs-core :
    (env : Env) (body : LiquidityEpoch → M LiquidityEpoch)
    → ((e : LiquidityEpoch) → Framed env core (body e))
    → Framed env core (for_active_epochs body)
unfolding for_active_epochs
for_active_epochs-core env body h = search (reads, for_epochs-core, h) depth 20

pub apply_liquidity_matrix_update-core :
    (env : Env) (a0 : ℤ) (a1 : ℤ) (a2 : UpdateKind)
    → Framed env core (apply_liquidity_matrix_update a0 a1 a2)
unfolding apply_liquidity_matrix_update
apply_liquidity_matrix_update-core env a0 a1 a2 =
    search (reads, updated_epoch-core, for_active_epochs-core) depth 40

pub accrued_epoch-core :
    (env : Env) (a0 : ℤ) (a1 : ℤ) (a2 : LiquidityEpoch) → Framed env core (accrued_epoch a0 a1 a2)
unfolding accrued_epoch
accrued_epoch-core env a0 a1 a2 = search reads depth 40

pub accrue_funding-core : (env : Env) (a0 : ℕ) (a1 : ℕ) → Framed env core (accrue_funding a0 a1)
unfolding accrue_funding
accrue_funding-core env a0 a1 = search (reads, for_active_epochs-core, accrued_epoch-core) depth 40

pub update_fg-core : (env : Env) (a0 : ℕ) (a1 : ℕ) → Framed env core (update_fg a0 a1)
unfolding update_fg
update_fg-core env a0 a1 = search (reads, accrue_funding-core) depth 40

pub settle_funding_fee-core :
    (env : Env) (a0 : Address) (a1 : ℕ × Bool) → Framed env core (settle_funding_fee a0 a1)
unfolding settle_funding_fee
settle_funding_fee-core env a0 a1 = search reads depth 40

pub stamp_funding_rate-core : (env : Env) (a0 : Address) → Framed env core (stamp_funding_rate a0)
stamp_funding_rate-core env a0 = search reads depth 40

pub drop_snapshot-core :
    (env : Env) (a0 : Address) (a1 : Bool) (a2 : ℕ) → Framed env core (drop_snapshot a0 a1 a2)
unfolding drop_snapshot
drop_snapshot-core env a0 a1 a2 = search (reads, retire-kept, decrement-kept) depth 40

pub take_snapshot-core :
    (env : Env) (a0 : Address) (a1 : Bool) (a2 : ℕ) (a3 : ℕ) (a4 : ℕ)
    → Framed env core (take_snapshot a0 a1 a2 a3 a4)
unfolding take_snapshot
take_snapshot-core env a0 a1 a2 a3 a4 =
    search (reads, retire-kept, move_lp_count-kept, roll_liquidity_epoch_if_needed-core) depth 40

pub update_snapshots-core :
    (env : Env) (a0 : Address) (a1 : ℕ) (a2 : ℕ) → Framed env core (update_snapshots a0 a1 a2)
unfolding update_snapshots
update_snapshots-core env a0 a1 a2 =
    search (reads, stamp_funding_rate-core, drop_snapshot-core, take_snapshot-core) depth 40

pub settle_funding_and_update_snapshots-core :
    (env : Env) (a0 : Address) → Framed env core (settle_funding_and_update_snapshots a0)
unfolding settle_funding_and_update_snapshots
settle_funding_and_update_snapshots-core env a0 =
    search (reads, settle_funding_fee-core, update_snapshots-core) depth 40
