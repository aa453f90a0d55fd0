-- ===== src/CurveMath/Fees/Cap.antt =====
-- The liquidity fees of src/rust/CurveMath.rs are computed, and stay below their maximum.
use denaria_perp_arbitrum.Base.{
  ℕ, ◌+◌, ◌*◌, ◌/◌, ◌≤◌, ◌<◌, ◌≡◌, arith, word_mod, ◌⊕◌, ◌⊗◌, Outcome, ok,
}
use denaria_perp_arbitrum.CurveMath.Util.{wad, md, divide, util_diff_abs}
use denaria_perp_arbitrum.CurveMath.MulDiv.Division.{div_unique, div_mono, div_mod_lem}
use denaria_perp_arbitrum.CurveMath.Fees.{FeeInput, interpolated_fee, rel_price_diff_sq}

-- A value is computed, up to a bound.
abbrev pub Within : ℕ → Outcome ℕ → Type 0
Within b o = (v : ℕ) × (o ≡ ok v) × (v ≤ b)

pub md-eq : (a b c : ℕ) → 0 < c → md a b c ≡ ok ((a ⊗ b) / c)
unfolding md divide
md-eq a b c h = ground arith

mul_le : (x y b c : ℕ) → x ≤ b → y ≤ c → x * y ≤ b * c
mul_le x y b c h k = grind arith

div_cancel : (q d : ℕ) → 0 < d → q * d / d ≡ q
div_cancel q d h = div_unique (q * d) d q 0 (omega arith) h

div_le : (x q d : ℕ) → 0 < d → x ≤ q * d → x / d ≤ q
div_le x q d h le = omega (arith, div_mono x (q * d) d le, div_cancel q d h)

le_div : (x q d : ℕ) → 0 < d → q * d ≤ x → q ≤ x / d
le_div x q d h le = omega (arith, div_mono (q * d) x d le, div_cancel q d h)

-- A wrapped product is not above the product.
wrapped_le : (a b : ℕ) → a ⊗ b ≤ a * b
wrapped_le a b = omega (arith)

exact : (a b : ℕ) → a * b < word_mod → a ⊗ b ≡ a * b
exact a b h = omega arith

-- A ratio of at most one keeps the bound of what it scales.
pub scaled_le : (x y d b : ℕ) → 0 < d → x ≤ d → y ≤ b → (x ⊗ y) / d ≤ b
scaled_le x y d b h le le' =
    div_le (x ⊗ y) b d h (omega (arith, wrapped_le x y, mul_le x y d b le le'))

-- The weight of the distance from the oracle's price stays in the words.
weight_fits :
    (k p diff : ℕ)
    → 2 * k ≤ p
    → 2 * (k * wad) < word_mod
    → diff * p < word_mod
    → k * (wad + diff) < word_mod
weight_fits k p diff h w d =
    let doubled : 2 * k * diff ≤ p * diff = mul_le (2 * k) diff p diff h (omega arith) in
    grind arith

quotient_fits : (x d : ℕ) → 0 < d → x < word_mod → x / d * d < word_mod
quotient_fits x d h less = omega (arith, div_mod_lem x d h)

-- The last step: the numerator is not above the denominator.
capped :
    (weighted weight tail top : ℕ)
    → weighted ≤ weight
    → 0 < weight
    → weight + tail < word_mod
    → Within top (md (weighted ⊕ tail) top (weight ⊕ tail))
capped weighted weight tail top le h fits =
    let num : weighted ⊕ tail ≡ weighted + tail = omega arith in
    let den : weight ⊕ tail ≡ weight + tail = omega arith in
    let above : 0 < weight ⊕ tail = omega arith in
    (
      (weighted ⊕ tail) ⊗ top / (weight ⊕ tail),
      md-eq (weighted ⊕ tail) top (weight ⊕ tail) above,
      scaled_le (weighted ⊕ tail) top (weight ⊕ tail) top above (omega arith) (omega arith),
    )

abbrev rel : ℕ → ℕ → ℕ
rel p' p = (util_diff_abs p' p ⊗ util_diff_abs p' p / p) ⊗ wad / p

rel_price_diff_sq-eq : (p' p : ℕ) → 0 < p → rel_price_diff_sq p' p ≡ ok (rel p' p)
unfolding rel_price_diff_sq
rel_price_diff_sq-eq p' p h =
    rw (md-eq (util_diff_abs p' p) (util_diff_abs p' p) p h)
      (md-eq (util_diff_abs p' p ⊗ util_diff_abs p' p / p) wad p h)

-- The quotient of the two weighted sums.
weighed :
    (m k r t top : ℕ)
    → m ≤ k
    → 1 ≤ k
    → k * (wad + r) < word_mod
    → t < word_mod
    → Within top (md (m ⊗ (wad ⊕ r) / wad ⊕ t / wad) top (k ⊗ (wad ⊕ r) / wad ⊕ t / wad))
weighed m k r t top le one fits less =
    let whole : 1 * (wad + r) ≤ k * (wad + r) = mul_le 1 (wad + r) k (wad + r) one (omega arith) in
    let smaller : m * (wad + r) ≤ k * (wad + r) = mul_le m (wad + r) k (wad + r) le (omega arith) in
    let plus : wad ⊕ r ≡ wad + r = omega arith in
    rw (plus, exact m (wad + r) (omega arith), exact k (wad + r) fits)
      (capped (m * (wad + r) / wad) (k * (wad + r) / wad) (t / wad) top
        (div_mono (m * (wad + r)) (k * (wad + r)) wad smaller) (omega arith) (omega arith))

pub interpolated_fee-Within :
    (n : FeeInput) (min_term p p_prime p_second : ℕ)
    → min_term ≤ n.liquidity_fee_k
    → 1 ≤ n.liquidity_fee_k
    → 2 * n.liquidity_fee_k ≤ p
    → 2 * (n.liquidity_fee_k * wad) < word_mod
    → Within n.liquidity_max_fee (interpolated_fee n min_term p p_prime p_second)
unfolding interpolated_fee
interpolated_fee-Within n min_term p p_prime p_second le one below small =
    let positive : 0 < p = omega arith in
    let k = n.liquidity_fee_k in
    let r = rel p_prime p in
    let square = util_diff_abs p_prime p ⊗ util_diff_abs p_prime p / p in
    let product : r * p < word_mod = quotient_fits (square ⊗ wad) p positive (omega arith) in
    rw
      (
        rel_price_diff_sq-eq p_prime p positive,
        rel_price_diff_sq-eq p_second p positive,
        md-eq min_term (wad ⊕ r) wad (omega arith),
        md-eq (rel p_second p) n.liquidity_fee_decimals wad (omega arith),
        md-eq k (wad ⊕ r) wad (omega arith),
      )
      (weighed min_term k r (rel p_second p ⊗ n.liquidity_fee_decimals) n.liquidity_max_fee le one
        (weight_fits k p r below small product) (omega arith))
