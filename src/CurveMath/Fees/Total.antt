-- ===== src/CurveMath/Fees/Total.antt =====
-- The liquidity fees of src/rust/CurveMath.rs, over all their branches.
use denaria_perp_arbitrum.Base.{
  ℕ, ◌+◌, ◌*◌, ◌/◌, ◌≤◌, ◌<◌, ◌≡◌, refl, arith, word_mod, ◌⊕◌, ◌⊖◌, ◌⊗◌, Bool, true, false, ltb,
  ◌==◌, ◌&&◌, ◌||◌, Bool-cases, inl, inr, Outcome, ok, if◌then◌else◌,
}
use denaria_perp_arbitrum.CurveMath.Util.{wad}
use denaria_perp_arbitrum.CurveMath.Fees.{
  FeeInput, removal_fee_at, removal_fee_stable_side, removal_fee_asset_side, removal_fee_sides,
  asset_is_dust, removal_fee_waived, compute_liquidity_removal_fee, deposit_fee_at,
  deposit_fee_stable_side, deposit_fee_asset_side, compute_liquidity_deposit_fee,
}
use denaria_perp_arbitrum.CurveMath.Fees.Cap.{Within, md-eq, scaled_le, interpolated_fee-Within}

-- The parameters are in order, the prices are not zero, and the steepness of the fee is at most half
-- of the oracle's price in either unit.
abbrev pub IsPriced : FeeInput → Type 0
IsPriced n =
    (n.liquidity_min_fee ≤ n.liquidity_max_fee)
    × (1 ≤ n.liquidity_fee_k)
    × (2 * (n.liquidity_fee_k * wad) < word_mod)
    × (0 < n.liquidity_fee_decimals)
    × (0 < n.price)
    × (0 < n.oracle_decimals)
    × (2 * n.liquidity_fee_k ≤ n.price ⊗ wad / n.oracle_decimals)
    × (2 * n.liquidity_fee_k ≤ wad ⊗ n.oracle_decimals / n.price)

within : (b v : ℕ) → v ≤ b → Within b (ok v)
within b v h = (v, refl, h)

Within-if :
    {b : ℕ} (t : Bool) (x y : Outcome ℕ) → Within b x → Within b y → Within b (if t then x else y)
Within-if true x y h k = h
Within-if false x y h k = k

module _ (n : FeeInput) where
  removal_fee_at-Within :
      (p p_prime p_second : ℕ)
      → IsPriced n
      → 0 < n.liquidity_max_fee
      → 2 * n.liquidity_fee_k ≤ p
      → Within n.liquidity_max_fee (removal_fee_at n p p_prime p_second)
  unfolding removal_fee_at
  removal_fee_at-Within p p_prime p_second (le, one, small, decimals, _, _, _, _) top below =
      let test = ltb p_second p_prime && ltb p p_second in
      let ratio = n.liquidity_min_fee ⊗ n.liquidity_fee_decimals / n.liquidity_max_fee in
      let least : ratio ≤ n.liquidity_fee_decimals =
        scaled_le n.liquidity_min_fee n.liquidity_fee_decimals n.liquidity_max_fee
          n.liquidity_fee_decimals top le (omega arith) in
      elim (Bool-cases test) [
        | inl e ↦ rw e (within n.liquidity_max_fee n.liquidity_min_fee le)
        | inr e ↦
            rw
              (
                e,
                md-eq n.liquidity_min_fee n.liquidity_fee_decimals n.liquidity_max_fee top,
                md-eq ratio n.liquidity_fee_k n.liquidity_fee_decimals decimals,
              )
              (interpolated_fee-Within n (ratio ⊗ n.liquidity_fee_k / n.liquidity_fee_decimals) p
                p_prime p_second
                (scaled_le ratio n.liquidity_fee_k n.liquidity_fee_decimals n.liquidity_fee_k
                  decimals least (omega arith))
                one below small)
      ]

  deposit_fee_at-Within :
      (p p_prime p_second : ℕ)
      → IsPriced n
      → 0 < n.liquidity_max_fee
      → 2 * n.liquidity_fee_k ≤ p
      → Within n.liquidity_max_fee (deposit_fee_at n p p_prime p_second)
  unfolding deposit_fee_at
  deposit_fee_at-Within p p_prime p_second (le, one, small, _, _, _, _, _) top below =
      elim (Bool-cases (ltb p_second p_prime && ltb p p_second)) [
        | inl e ↦ rw e (within n.liquidity_max_fee n.liquidity_min_fee le)
        | inr e ↦
            rw (e, md-eq n.liquidity_min_fee n.liquidity_fee_k n.liquidity_max_fee top)
              (interpolated_fee-Within n
                (n.liquidity_min_fee ⊗ n.liquidity_fee_k / n.liquidity_max_fee) p p_prime p_second
                (scaled_le n.liquidity_min_fee n.liquidity_fee_k n.liquidity_max_fee
                  n.liquidity_fee_k top le (omega arith))
                one below small)
      ]

-- The amounts are words, and a removal takes at most the pool.
abbrev pub IsRemoval : FeeInput → Type 0
IsRemoval n =
    (n.stable_liquidity ≤ n.initial_stable_liquidity)
    × (n.asset_liquidity ≤ n.initial_asset_liquidity)
    × (n.initial_stable_liquidity < word_mod)
    × (n.initial_asset_liquidity < word_mod)

-- The pool has room for a deposit.
abbrev pub IsDeposit : FeeInput → Type 0
IsDeposit n =
    (n.initial_stable_liquidity + n.stable_liquidity < word_mod)
    × (n.initial_asset_liquidity + n.asset_liquidity < word_mod)

left_over : (a b : ℕ) → b ≤ a → a < word_mod → (a == b) ≡ false → 0 < a ⊖ b
left_over a b h w e = ground arith

module _ (n : FeeInput) (priced : IsPriced n) (top : 0 < n.liquidity_max_fee)
    (stable : 0 < n.initial_stable_liquidity) (asset : 0 < n.initial_asset_liquidity) where
  removal_stable-Within : IsRemoval n → Within n.liquidity_max_fee (removal_fee_stable_side n)
  unfolding removal_fee_stable_side
  removal_stable-Within (h1, h2, h3, h4) =
      let (_, _, _, _, price, oracle, dear, _) = priced in
      elim (Bool-cases (n.initial_asset_liquidity == n.asset_liquidity)) [
        | inl e ↦ rw e (within n.liquidity_max_fee n.liquidity_max_fee (omega arith))
        | inr e ↦
            rw
              (
                e,
                md-eq n.price wad n.oracle_decimals oracle,
                md-eq n.initial_stable_liquidity wad n.initial_asset_liquidity asset,
                md-eq (n.initial_stable_liquidity ⊖ n.stable_liquidity) wad
                    (n.initial_asset_liquidity ⊖ n.asset_liquidity)
                    (left_over n.initial_asset_liquidity n.asset_liquidity h2 h4 e),
              )
              (removal_fee_at-Within n _ _ _ priced top dear)
      ]

  removal_asset-Within : IsRemoval n → Within n.liquidity_max_fee (removal_fee_asset_side n)
  unfolding removal_fee_asset_side
  removal_asset-Within (h1, h2, h3, h4) =
      let (_, _, _, _, price, oracle, _, cheap) = priced in
      elim (Bool-cases (n.initial_stable_liquidity == n.stable_liquidity)) [
        | inl e ↦ rw e (within n.liquidity_max_fee 0 (omega arith))
        | inr e ↦
            rw
              (
                e,
                md-eq wad n.oracle_decimals n.price price,
                md-eq n.initial_asset_liquidity wad n.initial_stable_liquidity stable,
                md-eq (n.initial_asset_liquidity ⊖ n.asset_liquidity) wad
                    (n.initial_stable_liquidity ⊖ n.stable_liquidity)
                    (left_over n.initial_stable_liquidity n.stable_liquidity h1 h3 e),
              )
              (removal_fee_at-Within n _ _ _ priced top cheap)
      ]

  removal_sides-Within : IsRemoval n → Within n.liquidity_max_fee (removal_fee_sides n)
  unfolding removal_fee_sides
  removal_sides-Within h =
      let (_, _, _, _, price, oracle, _, _) = priced in
      rw
        (
          md-eq n.initial_stable_liquidity wad n.initial_asset_liquidity asset,
          md-eq n.price wad n.oracle_decimals oracle,
        )
        (Within-if
          (ltb (n.price ⊗ wad / n.oracle_decimals)
            (n.initial_stable_liquidity ⊗ wad / n.initial_asset_liquidity))
          _ _ (removal_stable-Within h) (removal_asset-Within h))

  deposit_stable-Within : IsDeposit n → Within n.liquidity_max_fee (deposit_fee_stable_side n)
  unfolding deposit_fee_stable_side
  deposit_stable-Within (h1, h2) =
      let (_, _, _, _, price, oracle, dear, _) = priced in
      rw
        (
          md-eq n.price wad n.oracle_decimals oracle,
          md-eq n.initial_stable_liquidity wad n.initial_asset_liquidity asset,
          md-eq (n.initial_stable_liquidity ⊕ n.stable_liquidity) wad
              (n.initial_asset_liquidity ⊕ n.asset_liquidity) (omega arith),
        )
        (deposit_fee_at-Within n _ _ _ priced top dear)

  deposit_asset-Within : IsDeposit n → Within n.liquidity_max_fee (deposit_fee_asset_side n)
  unfolding deposit_fee_asset_side
  deposit_asset-Within (h1, h2) =
      let (_, _, _, _, price, oracle, _, cheap) = priced in
      rw
        (
          md-eq wad n.oracle_decimals n.price price,
          md-eq n.initial_asset_liquidity wad n.initial_stable_liquidity stable,
          md-eq (n.initial_asset_liquidity ⊕ n.asset_liquidity) wad
              (n.initial_stable_liquidity ⊕ n.stable_liquidity) (omega arith),
        )
        (deposit_fee_at-Within n _ _ _ priced top cheap)

waived-eq : (n : FeeInput) → 0 < n.price → (b : Bool) × (removal_fee_waived n ≡ ok b)
unfolding removal_fee_waived asset_is_dust
waived-eq n h =
    let low = ltb (n.initial_stable_liquidity ⊖ n.stable_liquidity) (10 ⊗ wad) in
    elim (Bool-cases low) [
      | inl e ↦ rw (e, md-eq (10 ⊗ wad) n.oracle_decimals n.price h) (_, refl)
      | inr e ↦ rw e (false, refl)
    ]

-- For a minimal fee of at most the maximal one, scales and a price that are not zero, a steepness
-- of at least one, below 2 ^ 255 / 10 ^ 18 and at most half of the oracle price in either unit,
-- and a removal of at most the pool, the removal fee is computed, also where products wrap
-- around, as they do in the release build, and is at most the maximal fee.
pub compute_liquidity_removal_fee_le_max :
    (n : FeeInput)
    → IsPriced n
    → IsRemoval n
    → Within n.liquidity_max_fee (compute_liquidity_removal_fee n)
unfolding compute_liquidity_removal_fee
compute_liquidity_removal_fee_le_max n priced h =
    let (_, _, _, _, price, _, _, _) = priced in
    let (waived, e) = waived-eq n price in
    let empty = n.initial_stable_liquidity == 0 || n.initial_asset_liquidity == 0 in
    elim (Bool-cases (n.liquidity_max_fee == 0)) [
      | inl z ↦ rw z (within n.liquidity_max_fee 0 (omega arith))
      | inr z ↦ elim (Bool-cases empty) [
        | inl m ↦ rw (z, m) (within n.liquidity_max_fee 0 (omega arith))
        | inr m ↦
            rw (z, m, e)
              (Within-if waived _ _ (within n.liquidity_max_fee 0 (omega arith))
                (removal_sides-Within n priced (ground arith) (ground arith) (ground arith) h))
      ]
    ]

-- For a minimal fee of at most the maximal one, scales and a price that are not zero, a steepness
-- of at least one, below 2 ^ 255 / 10 ^ 18 and at most half of the oracle price in either unit,
-- and a pool with room for the deposit, the deposit fee is computed, also where products wrap
-- around, as they do in the release build, and is at most the maximal fee.
pub compute_liquidity_deposit_fee_le_max :
    (n : FeeInput)
    → IsPriced n
    → IsDeposit n
    → Within n.liquidity_max_fee (compute_liquidity_deposit_fee n)
unfolding compute_liquidity_deposit_fee
compute_liquidity_deposit_fee_le_max n priced h =
    let (_, _, _, _, price, oracle, _, _) = priced in
    let empty = n.initial_stable_liquidity == 0 || n.initial_asset_liquidity == 0 in
    elim (Bool-cases empty) [
      | inl m ↦ rw m (within n.liquidity_max_fee 0 (omega arith))
      | inr m ↦ elim (Bool-cases (n.liquidity_max_fee == 0)) [
        | inl z ↦ rw (m, z) (within n.liquidity_max_fee 0 (omega arith))
        | inr z ↦
            let top : 0 < n.liquidity_max_fee = ground arith in
            let stable : 0 < n.initial_stable_liquidity = ground arith in
            let asset : 0 < n.initial_asset_liquidity = ground arith in
            rw
              (
                m,
                z,
                md-eq n.initial_stable_liquidity wad n.initial_asset_liquidity asset,
                md-eq n.price wad n.oracle_decimals oracle,
              )
              (Within-if _ _ _ (deposit_stable-Within n priced top stable asset h)
                (deposit_asset-Within n priced top stable asset h))
      ]
    ]
