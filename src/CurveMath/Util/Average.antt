-- ===== src/CurveMath/Util/Average.antt =====
-- The moving average of src/rust/CurveMath.rs: it stays between the old average and the new slip.
use denaria_perp_arbitrum.Base.{
  ℕ, ◌+◌, ◌-◌, ◌*◌, ◌/◌, ◌%◌, ◌≤◌, ◌<◌, ◌≡◌, ap, arith, word_mod, leb, Bool-cases, ◌⊖◌, ◌⊎◌, inl,
  inr, ok,
}
use mathlib.Core.Path.{subst}
use denaria_perp_arbitrum.CurveMath.Util.{calc_ema, calc_slip, md, divide, util_diff_abs}

cancel : (q m d : ℕ) → 0 < d → q * d ≤ m * d → q ≤ m
cancel q m d h k = grind arith

mul_mono : (a b c : ℕ) → a ≤ b → a * c ≤ b * c
mul_mono a b c h = grind arith

cancel_two : (q m d : ℕ) → m * d < (q + 2) * d → m ≤ q + 1
cancel_two q m d k = elim (Bool-cases (leb (q + 2) m)) [
  | inl more ↦ absurd (omega (arith, mul_mono (q + 2) m d (ground arith)))
  | inr less ↦ ground arith
]

-- Two shares of the scale `d`, rounded down.
module _ (x y d : ℕ) (pos : 0 < d) where
  parts : (x / d * d + x % d ≡ x) × (x % d < d) × (y / d * d + y % d ≡ y) × (y % d < d)
  parts = (grind arith, grind arith, grind arith, grind arith)

  shares : ((x / d + y / d) * d ≤ x + y) × (x + y < (x / d + y / d + 2) * d)
  shares =
      let (p, r, q, t) = parts in
      let sum : (x / d + y / d) * d ≡ x / d * d + y / d * d = grind arith in
      let more : (x / d + y / d + 2) * d ≡ x / d * d + y / d * d + 2 * d = grind arith in
      (omega arith, omega arith)

  shares_le : (m : ℕ) → x + y ≤ m * d → x / d + y / d ≤ m
  shares_le m h = let (low, high) = shares in cancel (x / d + y / d) m d pos (omega arith)

  le-shares : (m : ℕ) → m * d ≤ x + y → m ≤ x / d + y / d + 1
  le-shares m h = let (low, high) = shares in cancel_two (x / d + y / d) m d (omega arith)

-- The value of a weighted mean between `a` and `b`, up to its rounding.
abbrev pub Between : ℕ → ℕ → ℕ → Type 0
Between a b v = ((v ≤ a) ⊎ (v ≤ b)) × ((a ≤ v + 1) ⊎ (b ≤ v + 1))

module _ (a b e f : ℕ) (pos : 0 < e + f) where
  mean-Between : Between a b (a * e / (e + f) + b * f / (e + f))
  mean-Between = elim (Bool-cases (leb a b)) [
    | inl le ↦
        let lower : a * f ≤ b * f = mul_mono a b f (ground arith) in
        let upper : a * e ≤ b * e = mul_mono a b e (ground arith) in
        let split_a : a * (e + f) ≡ a * e + a * f = grind arith in
        let split_b : b * (e + f) ≡ b * e + b * f = grind arith in
        (
          inr (shares_le (a * e) (b * f) (e + f) pos b (omega arith)),
          inl (le-shares (a * e) (b * f) (e + f) pos a (omega arith)),
        )
    | inr gt ↦
        let lower : b * f ≤ a * f = mul_mono b a f (ground arith) in
        let upper : b * e ≤ a * e = mul_mono b a e (ground arith) in
        let split_a : a * (e + f) ≡ a * e + a * f = grind arith in
        let split_b : b * (e + f) ≡ b * e + b * f = grind arith in
        (
          inl (shares_le (a * e) (b * f) (e + f) pos a (omega arith)),
          inr (le-shares (a * e) (b * f) (e + f) pos b (omega arith)),
        )
  ]

md-exact : (a b c : ℕ) → 0 < c → a * b < word_mod → md a b c ≡ ok (a * b / c)
unfolding md divide
md-exact a b c h k = ground arith

-- The distance of a price from the spot price.
abbrev pub distance : ℕ → ℕ → ℕ
distance p spot = (p - spot) + (spot - p)

util_diff_abs-eq :
    (p spot : ℕ) → p < word_mod → spot < word_mod → util_diff_abs p spot ≡ distance p spot
unfolding util_diff_abs
util_diff_abs-eq p spot h k = ground arith

below : (a b v : ℕ) → Between a b v → a < word_mod → b < word_mod → v < word_mod
below a b v (inl h, _) p q = omega arith
below a b v (inr h, _) p q = omega arith

quotient_le : (x c : ℕ) → 0 < c → x / c ≤ x
quotient_le x c h = grind arith

mean_of : (a b e d : ℕ) → 0 < d → e ≤ d → Between a b (a * e / d + b * (d - e) / d)
mean_of a b e d h le =
    let whole : e + (d - e) ≡ d = omega arith in
    subst (λ s. Between a b (a * e / s + b * (d - e) / s)) whole
      (mean-Between a b e (d - e) (omega arith))

-- For a weight of at most the scale, prices and an old average of at most 256 bits, and products that
-- fit them, the moving average is computed: times the scale it is the weighted sum of the old average
-- and the slip, the distance of the price from the spot price relative to that, less than two scales
-- rounded down, and it lies between the two, up to one unit below.
pub calc_ema-Between :
    (p spot scale old weight : ℕ)
    → (0 < spot) × (spot < word_mod) × (p < word_mod) × (old < word_mod)
    → (0 < scale) × (scale < word_mod) × (weight ≤ scale)
    → (distance p spot * scale < word_mod)
      × (old * weight < word_mod)
      × (distance p spot * scale / spot * (scale - weight) < word_mod)
    → (v : ℕ) × (calc_ema p spot scale old weight ≡ ok v)
      × (v * scale ≤ old * weight + distance p spot * scale / spot * (scale - weight))
      × (old * weight + distance p spot * scale / spot * (scale - weight) < (v + 2) * scale)
      × Between old (distance p spot * scale / spot) v
unfolding calc_ema calc_slip
calc_ema-Between p spot scale old weight (s1, s2, s3, s4) (d1, d2, d3) (m1, m2, m3) =
    let slip = distance p spot * scale / spot in
    let mean = mean_of old slip weight scale d1 d3 in
    let v = old * weight / scale + slip * (scale - weight) / scale in
    let (low, high) = shares (old * weight) (slip * (scale - weight)) scale d1 in
    let less : slip < word_mod = omega (arith, quotient_le (distance p spot * scale) spot s1) in
    let fits : v < word_mod = below old slip v mean s4 less in
    let rest : scale ⊖ weight ≡ scale - weight = ground arith in
    (
      v,
      rw
          (
            util_diff_abs-eq p spot s3 s2,
            md-exact (distance p spot) scale spot s1 m1,
            md-exact old weight scale d1 m2,
            rest,
            md-exact slip (scale - weight) scale d1 m3,
          )
          (ap ok (ground arith)),
      low,
      high,
      mean,
    )
