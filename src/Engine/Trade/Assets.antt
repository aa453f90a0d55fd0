-- ===== src/Engine/Trade/Assets.antt =====
-- perp-engine/src/trade.rs: what its steps leave of the asset of the pool and of one account.
use denaria_perp_arbitrum.Base.{
  ℕ, zero, suc, Bool, Code, ℤ, ◌≡◌, refl, ◌⊕◌, ◌==◌, ==→eq, Bool-cases, inl, inr,
}
use denaria_perp_arbitrum.Engine.State.{
  Address, Env, State, Market, LiquidityEpoch, VirtualTraderPosition, update,
}
use denaria_perp_arbitrum.Engine.Monad.{M, set_position}
use denaria_perp_arbitrum.Engine.Monad.Frames.{
  Framed, Framed->>=, Framed-pure, Framed-gets, Framed-if, Framed-modify,
}
use denaria_perp_arbitrum.Engine.Admin.{reads}
use denaria_perp_arbitrum.Engine.Epochs.{
  UpdateKind, is_skipped, apply_liquidity_matrix_update, for_active_epochs, for_epochs,
  updated_epoch, refresh_lp_funding_snapshot, has_active_liquidity_snapshot,
}
use denaria_perp_arbitrum.Engine.Accrual.{
  accrue_funding, accrued_epoch, settle_funding_fee, update_fg,
}
use denaria_perp_arbitrum.Engine.Trade.{
  assign_protocol_fee_filling_insurance, ensure_pool_left, fill_deficit, fill_long, fill_long_sized,
  fill_short, fill_surplus, refresh_curve, share_fee, Order, ensure_trade_size, ensure_margin,
}

-- The asset of the pool, and the balance and the debt of an account.
pub record Holding : Type 0 where
  pub pool : ℕ
  pub balance : ℕ
  pub debt : ℕ

abbrev pub holding : Address → State → Holding
holding a s = record {
  pool = s.engine.market.global_liquidity_asset;
  balance = (s.engine.user_virtual_trader_position a).balance_asset;
  debt = (s.engine.user_virtual_trader_position a).debt_asset;
}

-- A change of a position that leaves the asset side.
pub Framed-set_position :
    (a : Address) (env : Env) (user : Address) (k : VirtualTraderPosition → VirtualTraderPosition)
    → ((p : VirtualTraderPosition) → (k p).balance_asset ≡ p.balance_asset)
    → ((p : VirtualTraderPosition) → (k p).debt_asset ≡ p.debt_asset)
    → Framed env (holding a) (set_position user k)
Framed-set_position a env user k h d = Framed-modify _ λ s. elim (Bool-cases (a == user)) [
  | inl e ↦
      let same = ==→eq a user e in
      rw
        (
          update,
          e,
          h (s.engine.user_virtual_trader_position user),
          d (s.engine.user_virtual_trader_position user),
          same,
        )
        refl
  | inr e ↦ rw (update, e) refl
]

module _ (a : Address) (env : Env) where
  updated_epoch-holding :
      (d a_x a_y : ℤ) (kind : UpdateKind) (e : LiquidityEpoch)
      → Framed env (holding a) (updated_epoch d a_x a_y kind e)
  unfolding updated_epoch
  updated_epoch-holding d a_x a_y UpdateKind.long e = search reads depth 20
  updated_epoch-holding d a_x a_y UpdateKind.short e = search reads depth 20
  updated_epoch-holding d a_x a_y UpdateKind.fee e = search reads depth 20

  for_epochs-holding :
      (n k : ℕ) (body : LiquidityEpoch → M LiquidityEpoch)
      → ((e : LiquidityEpoch) → Framed env (holding a) (body e))
      → Framed env (holding a) (for_epochs n k body)
  unfolding for_epochs
  for_epochs-holding zero k body h = Framed-pure tt
  for_epochs-holding (suc n) k body h = Framed->>= _ _ (Framed-gets _) λ e.
      Framed->>= _ _
        (Framed-if (is_skipped e k) _ _ (Framed-pure tt)
          (Framed->>= _ _ (h _) λ v. Framed-modify _ λ s. refl))
        λ u. for_epochs-holding n (k ⊕ 1) body h

  for_active_epochs-holding :
      (body : LiquidityEpoch → M LiquidityEpoch)
      → ((e : LiquidityEpoch) → Framed env (holding a) (body e))
      → Framed env (holding a) (for_active_epochs body)
  unfolding for_active_epochs
  for_active_epochs-holding body h = search (reads, for_epochs-holding, h) depth 20

  pub apply_liquidity_matrix_update-holding :
      (a0 : ℤ) (a1 : ℤ) (a2 : UpdateKind)
      → Framed env (holding a) (apply_liquidity_matrix_update a0 a1 a2)
  unfolding apply_liquidity_matrix_update
  apply_liquidity_matrix_update-holding a0 a1 a2 =
      search (reads, updated_epoch-holding, for_active_epochs-holding) depth 40

  accrued_epoch-holding :
      (a0 : ℤ) (a1 : ℤ) (a2 : LiquidityEpoch) → Framed env (holding a) (accrued_epoch a0 a1 a2)
  unfolding accrued_epoch
  accrued_epoch-holding a0 a1 a2 = search reads depth 40

  accrue_funding-holding : (a0 : ℕ) (a1 : ℕ) → Framed env (holding a) (accrue_funding a0 a1)
  unfolding accrue_funding
  accrue_funding-holding a0 a1 =
      search (reads, for_active_epochs-holding, accrued_epoch-holding) depth 40

  pub update_fg-holding : (a0 : ℕ) (a1 : ℕ) → Framed env (holding a) (update_fg a0 a1)
  unfolding update_fg
  update_fg-holding a0 a1 = search (reads, accrue_funding-holding) depth 40

  pub settle_funding_fee-holding :
      (a0 : Address) (a1 : ℕ × Bool) → Framed env (holding a) (settle_funding_fee a0 a1)
  unfolding settle_funding_fee
  settle_funding_fee-holding a0 a1 = search (Framed-set_position, reads) depth 40

  pub refresh_lp_funding_snapshot-holding :
      (user : Address) (s : State)
      → holding a (record s { engine = refresh_lp_funding_snapshot user s.engine }) ≡ holding a s
  unfolding refresh_lp_funding_snapshot
  refresh_lp_funding_snapshot-holding user s =
      elim (Bool-cases (has_active_liquidity_snapshot s.engine user)) [
        | inl e ↦ rw e refl
        | inr e ↦ rw e refl
      ]

  pub refresh_curve-holding : (a0 : Bool) (a1 : ℕ) → Framed env (holding a) (refresh_curve a0 a1)
  unfolding refresh_curve
  refresh_curve-holding a0 a1 = search reads depth 40

  fill_long_sized-holding :
      (a0 : Bool) (a1 : Order) (a2 a3 a4 a5 : ℕ)
      → Framed env (holding a) (fill_long_sized a0 a1 a2 a3 a4 a5)
  unfolding fill_long_sized
  fill_long_sized-holding a0 a1 a2 a3 a4 a5 = search reads depth 40

  pub fill_long-holding :
      (a0 : Bool) (a1 : Order) (a2 a3 a4 : ℕ) → Framed env (holding a) (fill_long a0 a1 a2 a3 a4)
  unfolding fill_long
  fill_long-holding a0 a1 a2 a3 a4 = search (reads, fill_long_sized-holding) depth 40

  pub fill_short-holding :
      (a0 : Bool) (a1 : Order) (a2 a3 a4 : ℕ) → Framed env (holding a) (fill_short a0 a1 a2 a3 a4)
  unfolding fill_short
  fill_short-holding a0 a1 a2 a3 a4 = search reads depth 40

  fill_surplus-holding :
      (a0 : ℕ) (a1 : Address) (a2 : Market) (a3 : ℕ)
      → Framed env (holding a) (fill_surplus a0 a1 a2 a3)
  unfolding fill_surplus
  fill_surplus-holding a0 a1 a2 a3 = search (Framed-set_position, reads) depth 40

  fill_deficit-holding :
      (a0 : ℕ) (a1 : Address) (a2 : Market) (a3 : ℕ)
      → Framed env (holding a) (fill_deficit a0 a1 a2 a3)
  unfolding fill_deficit
  fill_deficit-holding a0 a1 a2 a3 = search (Framed-set_position, reads) depth 40

  assign_protocol_fee-holding :
      (a0 : ℕ) (a1 : Address) → Framed env (holding a) (assign_protocol_fee_filling_insurance a0 a1)
  unfolding assign_protocol_fee_filling_insurance
  assign_protocol_fee-holding a0 a1 =
      search (reads, fill_surplus-holding, fill_deficit-holding) depth 40

  pub share_fee-holding : (a0 : Order) (a1 : ℕ) → Framed env (holding a) (share_fee a0 a1)
  unfolding share_fee
  share_fee-holding a0 a1 =
      search (Framed-set_position, reads, assign_protocol_fee-holding) depth 40

  pub ensure_pool_left-holding : (a0 : ℕ) → Framed env (holding a) (ensure_pool_left a0)
  unfolding ensure_pool_left
  ensure_pool_left-holding a0 = search reads depth 40

  pub ensure_trade_size-holding :
      (a0 : Bool) (a1 a2 : ℕ) → Framed env (holding a) (ensure_trade_size a0 a1 a2)
  unfolding ensure_trade_size
  ensure_trade_size-holding a0 a1 a2 = search reads depth 40

  pub ensure_margin-holding :
      (a0 : Address) (a1 a2 : ℕ) (a3 : Code) → Framed env (holding a) (ensure_margin a0 a1 a2 a3)
  unfolding ensure_margin
  ensure_margin-holding a0 a1 a2 a3 = search reads depth 40
