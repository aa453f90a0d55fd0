-- ===== src/CurveMath/MulDiv/Sum.antt =====
-- `mul_div_signed` and `sum_mul_div_signed` give the exact quotient of the exact sum of products.
use denaria_perp_arbitrum.Base.{
  ◌==◌, ◌%◌, ◌∙◌, ap, Bool-cases, inl, inr, Outcome, word_mod, zero, suc, ℕ, ◌+◌, ◌-◌, ◌*◌, ◌/◌,
  ◌<◌, ◌≡◌, Bool, true, false, not, ltb, if◌then◌else◌, same_flag, ◌≢◌, ℤ, pos, negsuc, abs_ℕ,
  is_nonneg, with_sign, ◌+ℤ◌, ◌*ℤ◌, half_mod, ok, arith,
}
use denaria_perp_arbitrum.CurveMath.Util.{quot}
use denaria_perp_arbitrum.CurveMath.MulDiv.{
  sum_mul_div_signed, carry_sum, borrow_difference, mul_div_signed,
}
use denaria_perp_arbitrum.CurveMath.MulDiv.Exact.{
  mul_div_parts-eq, carry_sum-eq, borrow_difference-eq, abs_int-eq, nonzero, abs_pos, IsSymmetric,
  mul_div_signed-parts,
}

zero_div : (d : ℕ) → 0 / d ≡ 0
zero_div d = grind arith

-- An integer given by a sign and a magnitude, and the product and sum of such.
quot-with_sign :
    (s : Bool) (n : ℕ) (d : ℤ)
    → quot (with_sign s n) d ≡ with_sign (same_flag s (is_nonneg d)) (n / abs_ℕ d)
quot-with_sign true n d = ground arith
quot-with_sign false zero d = ground (arith, zero_div (abs_ℕ d))
quot-with_sign false (suc n) d = ground arith

*ℤ-with_sign :
    (v m : ℤ) → v *ℤ m ≡ with_sign (same_flag (is_nonneg v) (is_nonneg m)) (abs_ℕ v * abs_ℕ m)
unfolding ◌*ℤ◌
*ℤ-with_sign (pos v) (pos m) = ground arith
*ℤ-with_sign (pos v) (negsuc m) = ground arith
*ℤ-with_sign (negsuc v) (pos m) = ground arith
*ℤ-with_sign (negsuc v) (negsuc m) = ground arith

+ℤ-same : (s : Bool) (m n : ℕ) → with_sign s m +ℤ with_sign s n ≡ with_sign s (m + n)
unfolding ◌+ℤ◌
+ℤ-same true m n = ground arith
+ℤ-same false m n = ground arith

+ℤ-opposite :
    (s : Bool) (m n : ℕ)
    → with_sign s m +ℤ with_sign (not s) n
      ≡ (if ltb n m then with_sign s (m - n) else with_sign (not s) (n - m))
unfolding ◌+ℤ◌
+ℤ-opposite true m n = ground arith
+ℤ-opposite false m n = ground arith

abs-with_sign : (s : Bool) (n : ℕ) → abs_ℕ (with_sign s n) ≡ n
abs-with_sign true n = ground arith
abs-with_sign false n = ground arith

-- `mul_div_signed` is the exact product divided by the denominator, truncated toward zero,
-- whenever the arguments and the quotient have magnitudes below 2 ^ 255 and the denominator is not
-- zero.
pub mul_div_signed_exact :
    (v m d : ℤ)
    → IsSymmetric v
    → IsSymmetric m
    → IsSymmetric d
    → d ≢ pos 0
    → abs_ℕ (v *ℤ m) / abs_ℕ d < half_mod
    → mul_div_signed v m d ≡ ok (quot (v *ℤ m) d)
mul_div_signed_exact v m d hv hm hd nz fits =
    rw (*ℤ-with_sign v m, quot-with_sign)
      (mul_div_signed-parts v m d hv hm hd nz (rw (*ℤ-with_sign v m, abs-with_sign) at fits))

-- The truncated quotient by a denominator of sign `e` and magnitude `k` of a sum of two terms.
abbrev sum_quot : Bool → Bool → Bool → ℕ → ℕ → ℕ → ℤ
sum_quot s t e m n k =
    if same_flag s t
    then with_sign (same_flag s e) ((m + n) / k)
    else if ltb n m
    then with_sign (same_flag s e) ((m - n) / k)
    else with_sign (same_flag t e) ((n - m) / k)

sum_quot-quot :
    (s t : Bool) (m n : ℕ) (d : ℤ)
    → quot (with_sign s m +ℤ with_sign t n) d ≡ sum_quot s t (is_nonneg d) m n (abs_ℕ d)
sum_quot-quot true true m n d = rw (+ℤ-same true m n) (quot-with_sign true (m + n) d)
sum_quot-quot false false m n d = rw (+ℤ-same false m n) (quot-with_sign false (m + n) d)
sum_quot-quot true false m n d = rw (+ℤ-opposite true m n) (elim (Bool-cases (ltb n m)) [
  | inl more ↦ rw more (quot-with_sign true (m - n) d)
  | inr less ↦ rw less (quot-with_sign false (n - m) d)
])
sum_quot-quot false true m n d = rw (+ℤ-opposite false m n) (elim (Bool-cases (ltb n m)) [
  | inl more ↦ rw more (quot-with_sign false (m - n) d)
  | inr less ↦ rw less (quot-with_sign true (n - m) d)
])

-- The magnitude of the sum of two terms with signs.
abbrev sum_abs : Bool → Bool → ℕ → ℕ → ℕ
sum_abs s t m n = if same_flag s t then m + n else m - n + (n - m)

abs-sum : (s t : Bool) (m n : ℕ) → abs_ℕ (with_sign s m +ℤ with_sign t n) ≡ sum_abs s t m n
unfolding ◌+ℤ◌
abs-sum true true m n = ground arith
abs-sum true false m n = ground arith
abs-sum false true m n = ground arith
abs-sum false false m n = ground arith

equal_terms :
    (s t : Bool) (m n k : ℕ)
    → (if m == n
        then pos 0
        else if ltb n m
        then with_sign s ((m - n) / k)
        else with_sign t ((n - m) / k))
      ≡ (if ltb n m then with_sign s ((m - n) / k) else with_sign t ((n - m) / k))
equal_terms s true m n k = ground (arith, zero_div k)
equal_terms s false m n k = ground (arith, zero_div k)

abbrev combine : Bool → Bool → Bool → ℕ → ℕ → ℕ → Outcome ℤ
combine s t e m n k =
    if same_flag (same_flag s e) (same_flag t e)
    then carry_sum (same_flag s e) (m / k) (m % k) (n / k) (n % k) k
    else borrow_difference (same_flag s e) (m / k) (m % k) (same_flag t e) (n / k) (n % k)

combine-eq :
    (s t e : Bool) (m n k : ℕ)
    → 0 < k
    → k < half_mod
    → m / k < word_mod
    → n / k < word_mod
    → sum_abs s t m n / k < half_mod
    → combine s t e m n k ≡ ok (sum_quot s t e m n k)
combine-eq true true true m n k h hk hm hn fits = carry_sum-eq true m n k h hk fits
combine-eq true true false m n k h hk hm hn fits = carry_sum-eq false m n k h hk fits
combine-eq false false true m n k h hk hm hn fits = carry_sum-eq false m n k h hk fits
combine-eq false false false m n k h hk hm hn fits = carry_sum-eq true m n k h hk fits
combine-eq true false true m n k h hk hm hn fits =
    borrow_difference-eq true false m n k h hm hn fits ∙ ap ok (equal_terms true false m n k)
combine-eq true false false m n k h hk hm hn fits =
    borrow_difference-eq false true m n k h hm hn fits ∙ ap ok (equal_terms false true m n k)
combine-eq false true true m n k h hk hm hn fits =
    borrow_difference-eq false true m n k h hm hn fits ∙ ap ok (equal_terms false true m n k)
combine-eq false true false m n k h hk hm hn fits =
    borrow_difference-eq true false m n k h hm hn fits ∙ ap ok (equal_terms true false m n k)

-- `sum_mul_div_signed` splits its terms into quotients and remainders and never forms the sum of
-- the products, yet it returns that exact sum divided by the denominator, truncated toward zero,
-- whenever the arguments have magnitudes below 2 ^ 255, the denominator is not zero, the two
-- quotients fit 256 bits and the result is a signed word.
pub sum_mul_div_signed_exact :
    (v m w n d : ℤ)
    → IsSymmetric v
    → IsSymmetric m
    → IsSymmetric w
    → IsSymmetric n
    → IsSymmetric d
    → d ≢ pos 0
    → abs_ℕ v * abs_ℕ m / abs_ℕ d < word_mod
    → abs_ℕ w * abs_ℕ n / abs_ℕ d < word_mod
    → abs_ℕ (v *ℤ m +ℤ w *ℤ n) / abs_ℕ d < half_mod
    → sum_mul_div_signed v m w n d ≡ ok (quot (v *ℤ m +ℤ w *ℤ n) d)
unfolding sum_mul_div_signed
sum_mul_div_signed_exact v m w n d hv hm hw hn hd nz f1 f2 fits =
    rw
      (
        nonzero d nz,
        abs_int-eq d hd,
        mul_div_parts-eq v m (abs_ℕ d) hv hm (abs_pos d nz) f1,
        mul_div_parts-eq w n (abs_ℕ d) hw hn (abs_pos d nz) f2,
        *ℤ-with_sign v m,
        *ℤ-with_sign w n,
        sum_quot-quot (same_flag (is_nonneg v) (is_nonneg m))
            (same_flag (is_nonneg w) (is_nonneg n)) (abs_ℕ v * abs_ℕ m) (abs_ℕ w * abs_ℕ n) d,
      )
      (combine-eq (same_flag (is_nonneg v) (is_nonneg m)) (same_flag (is_nonneg w) (is_nonneg n))
        (is_nonneg d) (abs_ℕ v * abs_ℕ m) (abs_ℕ w * abs_ℕ n) (abs_ℕ d) (abs_pos d nz) hd f1 f2
        (rw (*ℤ-with_sign v m, *ℤ-with_sign w n, abs-sum) at fits))
