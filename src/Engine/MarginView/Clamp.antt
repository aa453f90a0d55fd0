-- ===== src/Engine/MarginView/Clamp.antt =====
-- `get_lp_liquidity_balance` of perp-engine/src/internal_logic.rs: the pool bounds a balance.
use denaria_perp_arbitrum.Base.{
  ap, ℕ, ◌≤◌, ◌≡◌, arith, Bool-cases, inl, inr, Outcome, ok, fail, ◌>>=◌, ℤ,
}
use denaria_perp_arbitrum.CurveMath.Util.{u_or_zero}
use denaria_perp_arbitrum.Engine.State.{Engine, Address}
use denaria_perp_arbitrum.Engine.Epochs.{epoch_at, is_zero}
use denaria_perp_arbitrum.Engine.MarginView.{get_lp_liquidity_balance, capped}

abbrev Balance : Type 0
Balance = Outcome (ℕ × ℕ)

abbrev Bounded : Engine → ℕ → ℕ → Type 0
Bounded e stable asset =
    (stable ≤ e.market.global_liquidity_stable) × (asset ≤ e.market.global_liquidity_asset)

pair_bound :
    (e : Engine) (x y : ℕ) {stable asset : ℕ}
    → Bounded e x y
    → ◌≡◌ {A = Balance} (ok (x, y)) (ok (stable, asset))
    → Bounded e stable asset
pair_bound e x y b h =
    let p : x ≡ _ = ap stable_of h in let q : y ≡ _ = ap asset_of h in rw (← p, ← q) b
  where
    stable_of : Balance → ℕ
    stable_of (ok (a, b)) = a
    stable_of (fail f) = 0

    asset_of : Balance → ℕ
    asset_of (ok (a, b)) = b
    asset_of (fail f) = 0

capped_bound : (cap x : ℕ) → capped cap x ≤ cap
capped_bound cap x = ground arith

abbrev clamped : Engine → ℤ × ℤ → Balance
clamped e (stable_signed, asset_signed) = ok (
  capped e.market.global_liquidity_stable (u_or_zero stable_signed),
  capped e.market.global_liquidity_asset (u_or_zero asset_signed),
)

recovered :
    (e : Engine) {stable asset : ℕ} (outcome : Outcome (ℤ × ℤ))
    → (outcome >>= clamped e) ≡ ok (stable, asset)
    → Bounded e stable asset
recovered e (ok r) h = pair_bound e _ _ (capped_bound _ _, capped_bound _ _) h
recovered e (fail f) h = cc

-- An LP balance that is computed is at most the pool, on both sides.
pub get_lp_liquidity_balance_le_pool :
    (e : Engine) (user : Address) (stable asset : ℕ)
    → get_lp_liquidity_balance e user ≡ ok (stable, asset)
    → (stable ≤ e.market.global_liquidity_stable) × (asset ≤ e.market.global_liquidity_asset)
unfolding get_lp_liquidity_balance
get_lp_liquidity_balance_le_pool e user stable asset h =
    elim (Bool-cases (is_zero (e.liquidity_position user).snapshot_m00)) [
      | inl z ↦ pair_bound e 0 0 (omega arith, omega arith) (simp z at h)
      | inr z ↦
          elim (Bool-cases (is_zero (epoch_at e (e.liquidity_position_epoch user)).liquidity_m00)) [
            | inl y ↦ pair_bound e 0 0 (omega arith, omega arith) (simp (z, y) at h)
            | inr y ↦ recovered e _ (simp (z, y) at h)
          ]
    ]
