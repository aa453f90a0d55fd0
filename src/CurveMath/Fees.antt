-- ===== src/CurveMath/Fees.antt =====
-- src/rust/CurveMath.rs: the fees on liquidity that is added or removed.
pub mod Cap
pub mod Total
use denaria_perp_arbitrum.Base.{
  false, ℕ, Bool, ◌&&◌, ◌||◌, ltb, ◌==◌, if◌then◌else◌, ◌⊕◌, ◌⊖◌, ◌⊗◌, Outcome, ok, ◌>>=◌,
}
use denaria_perp_arbitrum.CurveMath.Util.{wad, md, util_diff_abs}

-- The amounts, the pool and the parameters of the fee, in the source's order.
pub record FeeInput : Type 0 where
  pub stable_liquidity : ℕ
  pub asset_liquidity : ℕ
  pub initial_stable_liquidity : ℕ
  pub initial_asset_liquidity : ℕ
  pub price : ℕ
  pub oracle_decimals : ℕ
  pub liquidity_max_fee : ℕ
  pub liquidity_min_fee : ℕ
  pub liquidity_fee_k : ℕ
  pub liquidity_fee_decimals : ℕ

-- `md(md(diff, diff, p), ratio_decimals, p)`
unfoldable pub rel_price_diff_sq : ℕ → ℕ → Outcome ℕ
rel_price_diff_sq p' p = do sq ← md (util_diff_abs p' p) (util_diff_abs p' p) p; md sq wad p

-- The interpolated fee; `min_term` is the first factor of the numerator.
unfoldable pub interpolated_fee : FeeInput → ℕ → ℕ → ℕ → ℕ → Outcome ℕ
interpolated_fee n min_term p p_prime p_second = do
  diff1 ← rel_price_diff_sq p_prime p
  diff2 ← rel_price_diff_sq p_second p
  weighted ← md min_term (wad ⊕ diff1) wad
  tail ← md diff2 n.liquidity_fee_decimals wad
  weight ← md n.liquidity_fee_k (wad ⊕ diff1) wad
  tail' ← md diff2 n.liquidity_fee_decimals wad
  md (weighted ⊕ tail) n.liquidity_max_fee (weight ⊕ tail')

-- The part of the removal fee after `p`, `p_prime` and `p_second` are known.
unfoldable pub removal_fee_at : FeeInput → ℕ → ℕ → ℕ → Outcome ℕ
removal_fee_at n p p_prime p_second =
    if ltb p_second p_prime && ltb p p_second then ok n.liquidity_min_fee else do
      ratio ← md n.liquidity_min_fee n.liquidity_fee_decimals n.liquidity_max_fee
      min_term ← md ratio n.liquidity_fee_k n.liquidity_fee_decimals
      interpolated_fee n min_term p p_prime p_second

-- The stable side is the larger one: prices in stable per asset.
unfoldable pub removal_fee_stable_side : FeeInput → Outcome ℕ
removal_fee_stable_side n =
    if n.initial_asset_liquidity == n.asset_liquidity then ok n.liquidity_max_fee else do
      p ← md n.price wad n.oracle_decimals
      p_prime ← md n.initial_stable_liquidity wad n.initial_asset_liquidity
      p_second ←
          md (n.initial_stable_liquidity ⊖ n.stable_liquidity) wad
            (n.initial_asset_liquidity ⊖ n.asset_liquidity)
      removal_fee_at n p p_prime p_second

-- The asset side is the larger one: prices in asset per stable.
unfoldable pub removal_fee_asset_side : FeeInput → Outcome ℕ
removal_fee_asset_side n = if n.initial_stable_liquidity == n.stable_liquidity then ok 0 else do
  p ← md wad n.oracle_decimals n.price
  p_prime ← md n.initial_asset_liquidity wad n.initial_stable_liquidity
  p_second ←
      md (n.initial_asset_liquidity ⊖ n.asset_liquidity) wad
        (n.initial_stable_liquidity ⊖ n.stable_liquidity)
  removal_fee_at n p p_prime p_second

unfoldable pub removal_fee_sides : FeeInput → Outcome ℕ
removal_fee_sides n = do
  pool_price ← md n.initial_stable_liquidity wad n.initial_asset_liquidity
  oracle_price ← md n.price wad n.oracle_decimals
  if ltb oracle_price pool_price then removal_fee_stable_side n else removal_fee_asset_side n

-- `a && b`, with `b` evaluated only if `a` holds.
unfoldable pub asset_is_dust : FeeInput → Outcome Bool
asset_is_dust n = do
  asset_dust ← md (10 ⊗ wad) n.oracle_decimals n.price
  ok (ltb (n.initial_asset_liquidity ⊖ n.asset_liquidity) asset_dust)

unfoldable pub removal_fee_waived : FeeInput → Outcome Bool
removal_fee_waived n =
    if ltb (n.initial_stable_liquidity ⊖ n.stable_liquidity) (10 ⊗ wad)
    then asset_is_dust n
    else ok false

unfoldable pub compute_liquidity_removal_fee : FeeInput → Outcome ℕ
compute_liquidity_removal_fee n =
    if n.liquidity_max_fee == 0
    then ok 0
    else if n.initial_stable_liquidity == 0 || n.initial_asset_liquidity == 0
    then ok 0
    else do waived ← removal_fee_waived n; if waived then ok 0 else removal_fee_sides n

unfoldable pub deposit_fee_at : FeeInput → ℕ → ℕ → ℕ → Outcome ℕ
deposit_fee_at n p p_prime p_second =
    if ltb p_second p_prime && ltb p p_second then ok n.liquidity_min_fee else do
      min_term ← md n.liquidity_min_fee n.liquidity_fee_k n.liquidity_max_fee
      interpolated_fee n min_term p p_prime p_second

unfoldable pub deposit_fee_stable_side : FeeInput → Outcome ℕ
deposit_fee_stable_side n = do
  p ← md n.price wad n.oracle_decimals
  p_prime ← md n.initial_stable_liquidity wad n.initial_asset_liquidity
  p_second ←
      md (n.initial_stable_liquidity ⊕ n.stable_liquidity) wad
        (n.initial_asset_liquidity ⊕ n.asset_liquidity)
  deposit_fee_at n p p_prime p_second

unfoldable pub deposit_fee_asset_side : FeeInput → Outcome ℕ
deposit_fee_asset_side n = do
  p ← md wad n.oracle_decimals n.price
  p_prime ← md n.initial_asset_liquidity wad n.initial_stable_liquidity
  p_second ←
      md (n.initial_asset_liquidity ⊕ n.asset_liquidity) wad
        (n.initial_stable_liquidity ⊕ n.stable_liquidity)
  deposit_fee_at n p p_prime p_second

unfoldable pub compute_liquidity_deposit_fee : FeeInput → Outcome ℕ
compute_liquidity_deposit_fee n =
    if n.initial_stable_liquidity == 0 || n.initial_asset_liquidity == 0
    then ok 0
    else if n.liquidity_max_fee == 0
    then ok 0
    else do
      pool_price ← md n.initial_stable_liquidity wad n.initial_asset_liquidity
      oracle_price ← md n.price wad n.oracle_decimals
      if ltb oracle_price pool_price then deposit_fee_stable_side n else deposit_fee_asset_side n
