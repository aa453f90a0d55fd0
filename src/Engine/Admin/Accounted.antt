-- ===== src/Engine/Admin/Accounted.antt =====
-- What accrual, epochs and snapshots of perp-engine/src/funding.rs and liquidity.rs keep of the
-- administration alone.
use denaria_perp_arbitrum.Base.{ℕ, ℤ, Bool, ap, ◌≡◌}
use denaria_perp_arbitrum.Engine.State.{Address, Env, State}
use denaria_perp_arbitrum.Engine.Monad.Frames.{Framed}
use denaria_perp_arbitrum.Engine.Admin.{admin, core-admin}
use denaria_perp_arbitrum.Engine.Epochs.{
  UpdateKind, apply_liquidity_matrix_update, refresh_lp_funding_snapshot,
}
use denaria_perp_arbitrum.Engine.Accrual.{
  update_fg, settle_funding_fee, stamp_funding_rate, update_snapshots,
  settle_funding_and_update_snapshots,
}
use denaria_perp_arbitrum.Engine.Admin.Engines.{refresh_lp_funding_snapshot-kept}
use denaria_perp_arbitrum.Engine.Admin.Accounting.{
  apply_liquidity_matrix_update-core, update_fg-core, settle_funding_fee-core,
  stamp_funding_rate-core, update_snapshots-core, settle_funding_and_update_snapshots-core,
}

pub refresh_lp_funding_snapshot-admin :
    (user : Address) (s : State)
    → admin (record s { engine = refresh_lp_funding_snapshot user s.engine }) ≡ admin s
refresh_lp_funding_snapshot-admin user s =
    ap (λ c. c.administration) (refresh_lp_funding_snapshot-kept user s)

pub apply_liquidity_matrix_update-Framed :
    (env : Env) (a0 : ℤ) (a1 : ℤ) (a2 : UpdateKind)
    → Framed env admin (apply_liquidity_matrix_update a0 a1 a2)
apply_liquidity_matrix_update-Framed env a0 a1 a2 =
    core-admin _ (apply_liquidity_matrix_update-core env a0 a1 a2)

pub update_fg-Framed : (env : Env) (a0 : ℕ) (a1 : ℕ) → Framed env admin (update_fg a0 a1)
update_fg-Framed env a0 a1 = core-admin _ (update_fg-core env a0 a1)

pub settle_funding_fee-Framed :
    (env : Env) (a0 : Address) (a1 : ℕ × Bool) → Framed env admin (settle_funding_fee a0 a1)
settle_funding_fee-Framed env a0 a1 = core-admin _ (settle_funding_fee-core env a0 a1)

pub stamp_funding_rate-Framed :
    (env : Env) (a0 : Address) → Framed env admin (stamp_funding_rate a0)
stamp_funding_rate-Framed env a0 = core-admin _ (stamp_funding_rate-core env a0)

pub update_snapshots-Framed :
    (env : Env) (a0 : Address) (a1 : ℕ) (a2 : ℕ) → Framed env admin (update_snapshots a0 a1 a2)
update_snapshots-Framed env a0 a1 a2 = core-admin _ (update_snapshots-core env a0 a1 a2)

pub settle_funding_and_update_snapshots-Framed :
    (env : Env) (a0 : Address) → Framed env admin (settle_funding_and_update_snapshots a0)
settle_funding_and_update_snapshots-Framed env a0 =
    core-admin _ (settle_funding_and_update_snapshots-core env a0)
