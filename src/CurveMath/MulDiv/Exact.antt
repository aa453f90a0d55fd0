-- ===== src/CurveMath/MulDiv/Exact.antt =====
-- The fused multiply-divide of CurveMath.rs against exact integer arithmetic.
use denaria_perp_arbitrum.Base.{
  leb→le, ltb→lt, ◌||◌, ◌&&◌, ◌≢◌, zero, suc, ℕ, ◌+◌, ◌-◌, ◌*◌, ◌/◌, ◌%◌, ◌≤◌, ◌<◌, ◌≡◌, refl, Bool,
  true, false, not, ltb, leb, ◌==◌, if◌then◌else◌, same_flag, ℤ, pos, negsuc, abs_ℕ, is_nonneg,
  with_sign, eqb_ℤ, word_mod, half_mod, ok, arith, Bool-cases, inl, inr,
}
use denaria_perp_arbitrum.CurveMath.MulDiv.{
  uadd, abs_int, signed_result, mul_div_floor_512, mul_mod_512, mul_div_signed, mul_div_parts,
  carry_sum, borrow_difference, sub_quotient_remainder,
}
use denaria_perp_arbitrum.CurveMath.MulDiv.Division.{
  div_add_carry, div_add_plain, div_sub_plain, div_sub_borrow, order_of_parts, eq_of_div_mod,
  le_of_div_mod, div_mono,
}

-- A signed word whose magnitude is a signed word too: any but -2 ^ 255.
abbrev pub IsSymmetric : ℤ → Type 0
IsSymmetric z = abs_ℕ z < half_mod

pub abs_int-eq : (z : ℤ) → IsSymmetric z → abs_int z ≡ ok (abs_ℕ z)
unfolding abs_int
abs_int-eq (pos n) h = ground arith
abs_int-eq (negsuc n) h = ground arith

signed_result-eq : (s : Bool) (n : ℕ) → n < half_mod → signed_result s n ≡ ok (with_sign s n)
unfolding signed_result
signed_result-eq true n h = ground arith
signed_result-eq false n h = ground arith

mul_div_floor-eq :
    (x y d : ℕ) → 0 < d → x * y / d < word_mod → mul_div_floor_512 x y d ≡ ok (x * y / d)
unfolding mul_div_floor_512
mul_div_floor-eq x y d h fits = ground arith

mul_mod-eq : (x y d : ℕ) → 0 < d → mul_mod_512 x y d ≡ ok (x * y % d)
unfolding mul_mod_512
mul_mod-eq x y d h = ground arith

pub abs_pos : (d : ℤ) → d ≢ pos 0 → 0 < abs_ℕ d
abs_pos (pos zero) h = absurd (h refl)
abs_pos (pos (suc n)) h = omega arith
abs_pos (negsuc n) h = omega arith

pub nonzero : (d : ℤ) → d ≢ pos 0 → not (eqb_ℤ d (pos 0)) ≡ true
nonzero (pos zero) h = absurd (h refl)
nonzero (pos (suc n)) h = ground arith
nonzero (negsuc n) h = ground arith

-- The sign of a product and the magnitude of its quotient.
abbrev pub product_sign : ℤ → ℤ → ℤ → Bool
product_sign v m d = same_flag (same_flag (is_nonneg v) (is_nonneg m)) (is_nonneg d)

pub mul_div_signed-parts :
    (v m d : ℤ)
    → IsSymmetric v
    → IsSymmetric m
    → IsSymmetric d
    → d ≢ pos 0
    → abs_ℕ v * abs_ℕ m / abs_ℕ d < half_mod
    → mul_div_signed v m d ≡ ok (with_sign (product_sign v m d) (abs_ℕ v * abs_ℕ m / abs_ℕ d))
unfolding mul_div_signed
mul_div_signed-parts v m d hv hm hd nz fits =
    rw
      (
        nonzero d nz,
        abs_int-eq v hv,
        abs_int-eq m hm,
        abs_int-eq d hd,
        mul_div_floor-eq (abs_ℕ v) (abs_ℕ m) (abs_ℕ d) (abs_pos d nz) (omega arith),
      )
      (signed_result-eq (product_sign v m d) (abs_ℕ v * abs_ℕ m / abs_ℕ d) fits)

pub mul_div_parts-eq :
    (v m : ℤ) (d : ℕ)
    → IsSymmetric v
    → IsSymmetric m
    → 0 < d
    → abs_ℕ v * abs_ℕ m / d < word_mod
    → mul_div_parts v m d
      ≡ ok (same_flag (is_nonneg v) (is_nonneg m), abs_ℕ v * abs_ℕ m / d, abs_ℕ v * abs_ℕ m % d)
unfolding mul_div_parts
mul_div_parts-eq v m d hv hm h fits = rw (
  abs_int-eq v hv,
  abs_int-eq m hm,
  mul_div_floor-eq (abs_ℕ v) (abs_ℕ m) d h fits,
  mul_mod-eq (abs_ℕ v) (abs_ℕ m) d h,
)

uadd-eq : (x y : ℕ) → x + y < word_mod → uadd x y ≡ ok (x + y)
unfolding uadd
uadd-eq x y h = ground arith

mod_bound : (n d : ℕ) → 0 < d → n % d < d
mod_bound n d h = grind arith

-- Both terms of one sign: the quotient of the sum of the magnitudes.
pub carry_sum-eq :
    (s : Bool) (m n d : ℕ)
    → 0 < d
    → d < half_mod
    → (m + n) / d < half_mod
    → carry_sum s (m / d) (m % d) (n / d) (n % d) d ≡ ok (with_sign s ((m + n) / d))
unfolding carry_sum
carry_sum-eq s m n d h hd fits = elim (Bool-cases (leb d (m % d + n % d))) [
  | inl over ↦
      let e : (m + n) / d ≡ m / d + n / d + 1 = div_add_carry m n d h (leb→le _ _ over) in
      rw
        (
          uadd-eq (m / d) (n / d) (omega arith),
          uadd-eq (m % d) (n % d) (omega (arith, mod_bound m d h, mod_bound n d h)),
          over,
          uadd-eq (m / d + n / d) 1 (omega arith),
          ← e,
        )
        (signed_result-eq s ((m + n) / d) fits)
  | inr under ↦
      let e : (m + n) / d ≡ m / d + n / d = div_add_plain m n d h (ground arith) in
      rw
        (
          uadd-eq (m / d) (n / d) (omega arith),
          uadd-eq (m % d) (n % d) (omega (arith, mod_bound m d h, mod_bound n d h)),
          under,
          ← e,
        )
        (signed_result-eq s ((m + n) / d) fits)
]

sub_quotient_remainder-eq :
    (m n d : ℕ)
    → 0 < d
    → m / d < word_mod
    → n ≤ m
    → sub_quotient_remainder (m / d) (m % d) (n / d) (n % d) ≡ (m - n) / d
unfolding sub_quotient_remainder
sub_quotient_remainder-eq m n d h fits le = elim (Bool-cases (leb (n % d) (m % d))) [
  | inl plain ↦ ground (arith, div_sub_plain m n d h le, div_mono n m d le)
  | inr borrow ↦ ground (arith, div_sub_borrow m n d h le, div_mono n m d le, le_of_div_mod m n d h)
]

-- Which of two magnitudes is larger, read off their quotients and remainders.
order_test :
    (m n d : ℕ) → 0 < d → (ltb (n / d) (m / d) || (m / d == n / d && ltb (n % d) (m % d))) ≡ ltb n m
order_test m n d h = ground (
  arith,
  order_of_parts m n d h,
  order_of_parts n m d h,
  le_of_div_mod m n d h,
  le_of_div_mod n m d h,
  eq_of_div_mod m n d h,
)

equal_test : (m n d : ℕ) → 0 < d → (m / d == n / d && m % d == n % d) ≡ (m == n)
equal_test m n d h = ground (arith, eq_of_div_mod m n d h)

-- Terms of opposite signs: the quotient of the difference, with the sign of the larger.
pub borrow_difference-eq :
    (s t : Bool) (m n d : ℕ)
    → 0 < d
    → m / d < word_mod
    → n / d < word_mod
    → (m - n + (n - m)) / d < half_mod
    → borrow_difference s (m / d) (m % d) t (n / d) (n % d)
      ≡ ok (
          if m == n
          then pos 0
          else if ltb n m
          then with_sign s ((m - n) / d)
          else with_sign t ((n - m) / d))
unfolding borrow_difference
borrow_difference-eq s t m n d h hm hn fits =
    rw (equal_test m n d h, order_test m n d h) (go (m == n) refl (ltb n m) refl)
  where
    go :
        (e : Bool)
        → (m == n) ≡ e
        → (g : Bool) → ltb n m ≡ g
        → (if e
            then ok (pos 0)
            else if g
            then signed_result s (sub_quotient_remainder (m / d) (m % d) (n / d) (n % d))
            else signed_result t (sub_quotient_remainder (n / d) (n % d) (m / d) (m % d)))
          ≡ ok (
              if e
              then pos 0
              else if g
              then with_sign s ((m - n) / d)
              else with_sign t ((n - m) / d))
    go true p g q = refl
    go false p true q =
        let lt : n < m = ltb→lt _ _ q in
        let e : m - n + (n - m) ≡ m - n = omega arith in
        rw (sub_quotient_remainder-eq m n d h hm (omega arith))
          (signed_result-eq s ((m - n) / d) (rw e at fits))
    go false p false q =
        let le : m ≤ n = ground arith in
        let e : m - n + (n - m) ≡ n - m = omega arith in
        rw (sub_quotient_remainder-eq n m d h hn le)
          (signed_result-eq t ((n - m) / d) (rw e at fits))
