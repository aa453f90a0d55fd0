-- ===== src/CurveMath/Util/Exact.antt =====
-- The sign-and-magnitude helpers of CurveMath.rs against integer arithmetic.
use denaria_perp_arbitrum.Base.{
  zero, suc, ℕ, ◌+◌, ◌-◌, ◌*◌, ◌/◌, ◌%◌, ◌≤◌, ◌<◌, ◌≡◌, refl, Bool, true, false, ltb, ◌==◌,
  with_sign, ◌+ℤ◌, word_mod, ◌⊖◌, Fault, ok, panic, arith, Bool-cases, inl, inr, ◌⊎◌,
}
use denaria_perp_arbitrum.CurveMath.Util.{md_ceil, signed_sum, reduce_value}

-- For magnitudes of at most 256 bits, the magnitude and sign of `signed_sum` are those of the exact integer sum; `signed_sum` panics
-- just when that magnitude needs more than 256 bits.
pub signed_sum_exact :
    (x : ℕ) (sx : Bool) (y : ℕ) (sy : Bool)
    → x < word_mod
    → y < word_mod
    → ((z : ℕ) × (s : Bool) × (signed_sum x sx y sy ≡ ok (z, s))
        × (with_sign s z ≡ with_sign sx x +ℤ with_sign sy y)
        × (z < word_mod))
      ⊎ ((signed_sum x sx y sy ≡ panic Fault.ss1) × (word_mod ≤ x + y) × (sx ≡ sy))
unfolding signed_sum ◌+ℤ◌
signed_sum_exact x true y true hx hy = elim (Bool-cases (ltb (x + y) word_mod)) [
  | inl fits ↦ inl (x + y, true, ground arith, ground arith, ground arith)
  | inr over ↦ inr (ground arith, ground arith, refl)
]
signed_sum_exact x false y false hx hy = elim (Bool-cases (ltb (x + y) word_mod)) [
  | inl fits ↦ inl (x + y, false, ground arith, ground arith, ground arith)
  | inr over ↦ inr (ground arith, ground arith, refl)
]
signed_sum_exact x true y false hx hy = elim (Bool-cases (ltb y x)) [
  | inl more ↦ inl (x ⊖ y, true, ground arith, ground arith, ground arith)
  | inr less ↦ inl (y ⊖ x, false, ground arith, ground arith, ground arith)
]
signed_sum_exact x false y true hx hy = elim (Bool-cases (ltb y x)) [
  | inl more ↦ inl (x ⊖ y, false, ground arith, ground arith, ground arith)
  | inr less ↦ inl (y ⊖ x, true, ground arith, ground arith, ground arith)
]

-- `reduce_value` nets two words: at most one remains, neither grows, and their difference is kept.
pub reduce_value_nets :
    (a b : ℕ)
    → a < word_mod
    → b < word_mod
    → let (ra, rb) = reduce_value a b in
      (ra + b ≡ a + rb) × ((ra ≡ 0) ⊎ (rb ≡ 0)) × (ra ≤ a) × (rb ≤ b)
unfolding reduce_value
reduce_value_nets a b ha hb = ground arith

pred-mul : (q c : ℕ) → (q ≡ 0) ⊎ ((q - 1) * c + c ≡ q * c)
pred-mul zero c = inl refl
pred-mul (suc q) c = inr (let e : suc q - 1 ≡ q = omega arith in rw e (omega arith))

-- For a positive divisor and a product `a * b` of at most 256 bits, `md_ceil` is the least number
-- whose product with the divisor is not below `a * b`.
pub md_ceil_least :
    (a b c : ℕ)
    → 0 < c
    → a * b < word_mod
    → (q : ℕ) × (md_ceil a b c ≡ ok q) × (a * b ≤ q * c) × ((q ≡ 0) ⊎ ((q - 1) * c < a * b))
unfolding md_ceil
md_ceil_least a b c hc hab = elim (Bool-cases (a * b % c == 0)) [
  | inl even ↦ (
    a * b / c,
    ground (arith, parts),
    ground (arith, parts),
    ground (arith, parts, pred-mul (a * b / c) c),
  )
  | inr over ↦ (
    a * b / c + 1,
    ground (arith, parts, small),
    ground (arith, parts),
    ground (arith, parts, last),
  )
]
  where
    parts : (a * b / c * c + a * b % c ≡ a * b) × (a * b % c < c)
    parts = (grind arith, grind arith)

    last : (a * b / c + 1 - 1) * c ≡ a * b / c * c
    last = let e : a * b / c + 1 - 1 ≡ a * b / c = omega arith in rw e

    small : a * b / c ≤ a * b
    small = grind arith
