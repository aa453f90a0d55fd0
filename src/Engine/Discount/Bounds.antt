-- ===== src/Engine/Discount/Bounds.antt =====
-- `_compute_liquidation_discount` of perp-engine/src/liquidation.rs: its range.
use denaria_perp_arbitrum.Base.{
  ℕ, ◌+◌, ◌-◌, ◌*◌, ◌/◌, ◌%◌, ◌≤◌, ◌<◌, ◌≡◌, refl, arith, leb, leb→le, ◌^◌, Bool-cases, inl, inr,
  word_mod, ok, ◌⊕◌, ◌⊖◌, if◌then◌else◌,
}
use native.Mathlib.Nat.{mul-le-mul_left}
use denaria_perp_arbitrum.CurveMath.MulDiv.Division.{div_unique, div_mono}
use denaria_perp_arbitrum.CurveMath.Util.{md}
use denaria_perp_arbitrum.Engine.Discount.{
  e10, steep_discount, mild_discount, compute_liquidation_discount,
}

md-eq : (a b c : ℕ) → 0 < c → a * b < word_mod → md a b c ≡ ok (a * b / c)
unfolding md
md-eq a b c h fits = let e : a * b % word_mod ≡ a * b = ground arith in rw e (ground arith)

-- The factor of a discount lies between one and two.
factor_bounds : (n x : ℕ) → x ≤ e10 → (n ≤ n * (e10 + x) / e10) × (n * (e10 + x) / e10 ≤ 2 * n)
factor_bounds n x h =
    let w = n * x in
    let top : n * x ≤ n * e10 = mul-le-mul_left n h in
    let split : n * (e10 + x) ≡ n * e10 + n * x = omega arith in (grind arith, grind arith)

share_bound : (a s : ℕ) → 0 < s → a ≤ s → a * e10 / s ≤ e10
share_bound a s h le =
    let exact : e10 * s / s ≡ e10 = div_unique (e10 * s) s e10 0 (omega arith) h in
    let mono : a * e10 / s ≤ e10 * s / s = div_mono (a * e10) (e10 * s) s (omega arith) in
    rw exact at mono

-- The range of the discount at a margin ratio: at or below half the maintenance margin, between
-- once and twice the configured discount; above it, between half of it and all of it.
abbrev pub InRange : ℕ → ℕ → ℕ → ℕ → Type 0
InRange mmr liq_disc margin_ratio d =
    if leb margin_ratio (mmr / 2)
    then (liq_disc ≤ d) × (d ≤ 2 * liq_disc)
    else (liq_disc / 2 ≤ d) × (d ≤ 2 * (liq_disc / 2))

steep :
    (s liq_disc mr : ℕ)
    → 0 < s
    → mr ≤ s
    → s < 2 ^ 32
    → liq_disc < 2 ^ 32
    → (d : ℕ) × (steep_discount s liq_disc mr ≡ ok d) × ((liq_disc ≤ d) × (d ≤ 2 * liq_disc))
unfolding steep_discount
steep s liq_disc mr hs le fs fd =
    let sub : s ⊖ mr ≡ s - mr = ground arith in
    let x = (s - mr) * e10 / s in
    let bound : (s - mr) * e10 / s ≤ e10 = share_bound (s - mr) s hs (omega arith) in
    let small : liq_disc * (e10 + x) ≤ liq_disc * (2 * e10) =
      mul-le-mul_left liq_disc (omega arith) in
    let add : e10 ⊕ x ≡ e10 + x = ground arith in
    (
      liq_disc * (e10 + x) / e10,
      rw
          (
            sub,
            md-eq (s - mr) e10 s hs (omega arith),
            add,
            md-eq liq_disc (e10 + x) e10 (omega arith) (omega arith),
          )
          refl,
      factor_bounds liq_disc x bound,
    )

mild :
    (s t liq_disc mr : ℕ)
    → s < mr
    → mr ≤ t
    → t < 2 ^ 32
    → liq_disc < 2 ^ 32
    → (d : ℕ) × (mild_discount s t liq_disc mr ≡ ok d)
      × ((liq_disc / 2 ≤ d) × (d ≤ 2 * (liq_disc / 2)))
unfolding mild_discount
mild s t liq_disc mr lt le ft fd =
    let sub : t ⊖ mr ≡ t - mr = ground arith in
    let sub2 : t ⊖ s ≡ t - s = ground arith in
    let h = liq_disc / 2 in
    let x = (t - mr) * e10 / (t - s) in
    let bound : x ≤ e10 = share_bound (t - mr) (t - s) (omega arith) (omega arith) in
    let small : h * (e10 + x) ≤ h * (2 * e10) = mul-le-mul_left h (omega arith) in
    let add : e10 ⊕ x ≡ e10 + x = ground arith in
    (
      h * (e10 + x) / e10,
      rw
          (
            sub,
            sub2,
            md-eq (t - mr) e10 (t - s) (omega arith) (omega arith),
            add,
            md-eq h (e10 + x) e10 (omega arith) (omega arith),
          )
          refl,
      factor_bounds h x bound,
    )

-- For a maintenance margin of at least two parts, a margin ratio up to it, and both configured
-- values within their 32-bit fields, the discount is computed and lies in its range.
pub compute_liquidation_discount_range :
    (mmr liq_disc margin_ratio : ℕ)
    → 2 ≤ mmr
    → mmr < 2 ^ 32
    → liq_disc < 2 ^ 32
    → margin_ratio ≤ mmr
    → (d : ℕ) × (compute_liquidation_discount mmr liq_disc margin_ratio ≡ ok d)
      × InRange mmr liq_disc margin_ratio d
unfolding compute_liquidation_discount
compute_liquidation_discount_range mmr liq_disc mr h fm fd le =
    elim (Bool-cases (leb mr (mmr / 2))) [
      | inl low ↦
          rw low (steep (mmr / 2) liq_disc mr (omega arith) (leb→le _ _ low) (omega arith) fd)
      | inr high ↦ rw high (mild (mmr / 2) mmr liq_disc mr (ground arith) le fm fd)
    ]
