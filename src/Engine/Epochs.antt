-- ===== src/Engine/Epochs.antt =====
-- perp-engine/src/funding.rs: the LP accounting epochs. Methods that cannot fail are functions of
-- the engine; a loop is a recursion on the rounds left.
pub mod Window
pub mod Retire
use denaria_perp_arbitrum.Base.{
  ℕ, zero, suc, ◌+◌, ◌-◌, Bool, true, false, not, ◌&&◌, ◌||◌, ltb, leb, ◌==◌, if◌then◌else◌, ℤ, pos,
  eqb_ℤ, ltb_ℤ, ◌⊕◌, ◌⊖◌, ◌⊞◌, ◌⊟◌, ◌⊠◌, negate, Outcome, Code, ok,
}
use denaria_perp_arbitrum.CurveMath.Util.{divide_signed, div_ceil}
use denaria_perp_arbitrum.CurveMath.MulDiv.{sum_mul_div_signed}
use denaria_perp_arbitrum.Engine.State.{Address, Engine, LiquidityEpoch, update}
use denaria_perp_arbitrum.Engine.Monad.{M, ◌>>=◌, ◌>>◌, pure, call, gets, modify, ensure, when}

abbrev pub liquidity_epoch_det_denominator : ℕ
liquidity_epoch_det_denominator = 1_000_000_000_000

abbrev pub max_active_liquidity_epochs : ℕ
max_active_liquidity_epochs = 8

abbrev pub epoch_at : Engine → ℕ → LiquidityEpoch
epoch_at e k = e.liquidity_epochs k

abbrev pub is_zero : ℤ → Bool
is_zero z = eqb_ℤ z (pos 0)

unfoldable pub liquidity_epoch_determinant : Engine → ℕ → Outcome ℤ
liquidity_epoch_determinant e epoch_id =
    let epoch = epoch_at e epoch_id in
    if is_zero epoch.liquidity_m00
    then ok (pos 0)
    else sum_mul_div_signed epoch.liquidity_m00 epoch.liquidity_m11 (negate epoch.liquidity_m10)
        epoch.liquidity_m01 e.config.liquidity_m_decimals

abbrev pub write_epoch : ℕ → LiquidityEpoch → Engine → Engine
write_epoch k v e = record e { liquidity_epochs = update e.liquidity_epochs k v }

unfoldable pub initialize_liquidity_epoch : ℕ → Engine → Engine
initialize_liquidity_epoch epoch_id e =
    write_epoch epoch_id
      (record (epoch_at e epoch_id) {
        liquidity_m00 = e.config.liquidity_m_decimals;
        liquidity_m01 = pos 0;
        liquidity_m10 = pos 0;
        liquidity_m11 = e.config.liquidity_m_decimals;
        matrix_row_g0 = pos 0;
        matrix_row_g1 = pos 0;
      })
      e

unfoldable pub increment_active_lp_count : ℕ → Engine → Engine
increment_active_lp_count k e =
    write_epoch k (record (epoch_at e k) { active_lp_count = (epoch_at e k).active_lp_count ⊕ 1 }) e

unfoldable pub decrement_active_lp_count : ℕ → Engine → Engine
decrement_active_lp_count k e =
    write_epoch k (record (epoch_at e k) { active_lp_count = (epoch_at e k).active_lp_count ⊖ 1 }) e

abbrev pub empty_epoch : LiquidityEpoch
empty_epoch = record {
  liquidity_m00 = pos 0;
  liquidity_m01 = pos 0;
  liquidity_m10 = pos 0;
  liquidity_m11 = pos 0;
  matrix_row_g0 = pos 0;
  matrix_row_g1 = pos 0;
  active_lp_count = 0;
}

unfoldable pub delete_liquidity_epoch : ℕ → Engine → Engine
delete_liquidity_epoch k e = write_epoch k empty_epoch e

abbrev pub set_oldest : ℕ → Engine → Engine
set_oldest k e = record e { market = record (e.market) { oldest_active_liquidity_epoch = k } }

abbrev pub set_current : ℕ → Engine → Engine
set_current k e = record e { market = record (e.market) { current_liquidity_epoch = k } }

-- An epoch that an LP still uses.
abbrev pub is_live : LiquidityEpoch → Bool
is_live epoch = not (is_zero epoch.liquidity_m00) && not (epoch.active_lp_count == 0)

-- One round that does not leave the loop.
unfoldable pub retire_oldest : Engine → Engine
unfolding delete_liquidity_epoch
retire_oldest e =
    let oldest = e.market.oldest_active_liquidity_epoch in
    set_oldest (oldest ⊕ 1)
      (if is_zero (epoch_at e oldest).liquidity_m00 then e else delete_liquidity_epoch oldest e)

unfoldable pub retire_rounds : ℕ → Engine → Engine
retire_rounds zero e = e
retire_rounds (suc k) e =
    elim (leb e.market.current_liquidity_epoch e.market.oldest_active_liquidity_epoch
      || is_live (epoch_at e e.market.oldest_active_liquidity_epoch)) [
        | true ↦ e
        | false ↦ retire_rounds k (retire_oldest e)
      ]

-- The loop ends at the current epoch at the latest, so the distance to it is enough rounds.
unfoldable pub retire_inactive_liquidity_epochs : Engine → Engine
unfolding retire_rounds
retire_inactive_liquidity_epochs e =
    retire_rounds (e.market.current_liquidity_epoch - e.market.oldest_active_liquidity_epoch) e

unfoldable pub active_window : Engine → ℕ
active_window e =
    let previous = e.market.current_liquidity_epoch in
    let window = previous ⊕ 1 ⊖ e.market.oldest_active_liquidity_epoch in
    if (epoch_at e previous).active_lp_count == 0 then window ⊖ 1 else window

unfoldable pub open_next_epoch : Engine → Engine
unfolding initialize_liquidity_epoch retire_inactive_liquidity_epochs
open_next_epoch e =
    let new_epoch = e.market.current_liquidity_epoch ⊕ 1 in
    retire_inactive_liquidity_epochs
      (initialize_liquidity_epoch new_epoch (set_current new_epoch e))

unfoldable pub roll_liquidity_epoch_if_needed : M (Unit {0})
roll_liquidity_epoch_if_needed = do
  e ← gets λ e. e
  determinant ← call (liquidity_epoch_determinant e e.market.current_liquidity_epoch)
  threshold ←
      call (divide_signed e.config.liquidity_m_decimals (pos liquidity_epoch_det_denominator))
  when (not (ltb_ℤ threshold determinant)) (
      ensure (ltb (active_window e) max_active_liquidity_epochs) Code.lecap
      >> modify open_next_epoch)

unfoldable pub has_active_liquidity_snapshot : Engine → Address → Bool
has_active_liquidity_snapshot e user =
    let lp = e.liquidity_position user in
    not (is_zero lp.snapshot_m00)
    && (not (lp.initial_stable_balance == 0) || not (lp.initial_asset_balance == 0))

unfoldable pub refresh_lp_funding_snapshot : Address → Engine → Engine
refresh_lp_funding_snapshot user e =
    if not (has_active_liquidity_snapshot e user)
    then e
    else let epoch = epoch_at e (e.liquidity_position_epoch user) in
      record e {
        liquidity_position = update e.liquidity_position user (record (e.liquidity_position user) {
          snapshot_g0 = epoch.matrix_row_g0;
          snapshot_g1 = epoch.matrix_row_g1;
        });
      }

-- An epoch in the window that a matrix or funding update passes over.
abbrev pub is_skipped : Engine → ℕ → Bool
is_skipped e k =
    is_zero (epoch_at e k).liquidity_m00
    || (not (k == e.market.current_liquidity_epoch) && (epoch_at e k).active_lp_count == 0)

-- `a * m / liq_m_dec`, and its rounded-up form.
abbrev scaled : ℤ → ℤ → ℤ → Outcome ℤ
scaled a m d = divide_signed (a ⊠ m) d

abbrev scaled_ceil : ℤ → ℤ → ℤ → Outcome ℤ
scaled_ceil a m d = div_ceil (a ⊠ m) d

-- update_kind: long, short, or the distribution of a fee.
pub data UpdateKind : Type 0 where
  long short fee : UpdateKind

-- The new matrix of one epoch.
unfoldable pub updated_epoch : ℤ → ℤ → ℤ → UpdateKind → LiquidityEpoch → M LiquidityEpoch
updated_epoch d a_x a_y long e = do
  p00 ← call (scaled a_y e.liquidity_m10 d)
  p01 ← call (scaled a_y e.liquidity_m11 d)
  p10 ← call (scaled_ceil a_x e.liquidity_m10 d)
  p11 ← call (scaled_ceil a_x e.liquidity_m11 d)
  pure (record e {
    liquidity_m00 = e.liquidity_m00 ⊞ p00;
    liquidity_m01 = e.liquidity_m01 ⊞ p01;
    liquidity_m10 = e.liquidity_m10 ⊟ p10;
    liquidity_m11 = e.liquidity_m11 ⊟ p11;
  })
updated_epoch d a_x a_y short e = do
  p10 ← call (scaled a_x e.liquidity_m00 d)
  p11 ← call (scaled a_x e.liquidity_m01 d)
  p00 ← call (scaled_ceil a_y e.liquidity_m00 d)
  p01 ← call (scaled_ceil a_y e.liquidity_m01 d)
  pure (record e {
    liquidity_m10 = e.liquidity_m10 ⊞ p10;
    liquidity_m11 = e.liquidity_m11 ⊞ p11;
    liquidity_m00 = e.liquidity_m00 ⊟ p00;
    liquidity_m01 = e.liquidity_m01 ⊟ p01;
  })
updated_epoch d a_x a_y fee e = do
  p00 ← call (divide_signed (a_y ⊠ e.liquidity_m10 ⊞ a_x ⊠ e.liquidity_m00) d)
  p01 ← call (divide_signed (a_y ⊠ e.liquidity_m11 ⊞ a_x ⊠ e.liquidity_m01) d)
  pure (record e { liquidity_m00 = e.liquidity_m00 ⊞ p00; liquidity_m01 = e.liquidity_m01 ⊞ p01 })

-- A loop over the window of epochs that rewrites each epoch that is not skipped.
unfoldable pub for_epochs : ℕ → ℕ → (LiquidityEpoch → M LiquidityEpoch) → M (Unit {0})
for_epochs zero k body = pure tt
for_epochs (suc left) k body = gets (λ e. e) >>= λ e.
    (if is_skipped e k then pure tt else body (epoch_at e k) >>= λ v. modify (write_epoch k v))
    >>= λ _. for_epochs left (k ⊕ 1) body

-- `while epoch_id <= current`, from the oldest active epoch.
unfoldable pub for_active_epochs : (LiquidityEpoch → M LiquidityEpoch) → M (Unit {0})
unfolding for_epochs
for_active_epochs body = gets (λ e. e.market) >>= λ m.
    for_epochs (m.current_liquidity_epoch + 1 - m.oldest_active_liquidity_epoch)
      m.oldest_active_liquidity_epoch body

unfoldable pub apply_liquidity_matrix_update : ℤ → ℤ → UpdateKind → M (Unit {0})
unfolding for_active_epochs updated_epoch
apply_liquidity_matrix_update a_x a_y update_kind = do
  d ← gets λ e. e.config.liquidity_m_decimals
  for_active_epochs (updated_epoch d a_x a_y update_kind)
