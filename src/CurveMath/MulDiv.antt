-- ===== src/CurveMath/MulDiv.antt =====
-- src/rust/CurveMath.rs: products and quotients through an exact 512-bit product, and the checked
-- operations of the snapshot recovery.
pub mod Division
pub mod Exact
pub mod Sum
use denaria_perp_arbitrum.Base.{
  ℕ, ◌+◌, ◌*◌, ◌/◌, ◌%◌, Bool, not, ◌&&◌, ◌||◌, ltb, leb, ◌==◌, if◌then◌else◌, same_flag, ℤ, pos,
  is_nonneg, eqb_ℤ, ◌+ℤ◌, ◌-ℤ◌, ◌*ℤ◌, neg_ℤ, fits_signed, word_mod, ◌⊖◌, negate, Outcome, Fault,
  Code, ok, panic, revert, require, ◌>>=◌, ◌>>◌,
}
use denaria_perp_arbitrum.CurveMath.Util.{i, u}

unfoldable pub mul_div_floor_512 : ℕ → ℕ → ℕ → Outcome ℕ
mul_div_floor_512 a b c =
    if c == 0
    then panic Fault.division_by_zero
    else if ltb (a * b / c) word_mod
    then ok (a * b / c)
    else panic Fault.mul_div_overflow

unfoldable pub mul_mod_512 : ℕ → ℕ → ℕ → Outcome ℕ
mul_mod_512 a b c = if c == 0 then panic Fault.division_by_zero else ok (a * b % c)

unfoldable pub abs_int : ℤ → Outcome ℕ
unfolding u negate
abs_int value = if is_nonneg value then u value else u (negate value)

-- `checked_mul`, `checked_add`, `checked_sub`, `checked_neg` on `I256`, and `checked_add` on `U256`.
unfoldable pub checked : ℤ → Outcome ℤ
checked z = if fits_signed z then ok z else revert Code.mov

unfoldable pub cmul : ℤ → ℤ → Outcome ℤ
unfolding checked
cmul a b = checked (a *ℤ b)

unfoldable pub cadd : ℤ → ℤ → Outcome ℤ
unfolding checked
cadd a b = checked (a +ℤ b)

unfoldable pub csub : ℤ → ℤ → Outcome ℤ
unfolding checked
csub a b = checked (a -ℤ b)

unfoldable pub cneg : ℤ → Outcome ℤ
unfolding checked
cneg a = checked (neg_ℤ a)

unfoldable pub uadd : ℕ → ℕ → Outcome ℕ
uadd a b = if ltb (a + b) word_mod then ok (a + b) else revert Code.mov

-- The value of a magnitude as a signed word: `if positive { result } else { -result }`.
unfoldable pub signed_result : Bool → ℕ → Outcome ℤ
unfolding i negate
signed_result positive magnitude = do
  result ← i magnitude
  if positive then ok result else ok (negate result)

unfoldable pub mul_div_signed : ℤ → ℤ → ℤ → Outcome ℤ
mul_div_signed value multiplier denominator = do
  require (not (eqb_ℤ denominator (pos 0))) Code.m0
  abs_value ← abs_int value
  abs_multiplier ← abs_int multiplier
  abs_denominator ← abs_int denominator
  abs_result ← mul_div_floor_512 abs_value abs_multiplier abs_denominator
  let positive = same_flag (is_nonneg value) (is_nonneg multiplier)
  signed_result (same_flag positive (is_nonneg denominator)) abs_result

unfoldable pub mul_div_parts : ℤ → ℤ → ℕ → Outcome (Bool × ℕ × ℕ)
mul_div_parts value multiplier abs_denominator = do
  abs_value ← abs_int value
  abs_multiplier ← abs_int multiplier
  quotient ← mul_div_floor_512 abs_value abs_multiplier abs_denominator
  remainder ← mul_mod_512 abs_value abs_multiplier abs_denominator
  ok (same_flag (is_nonneg value) (is_nonneg multiplier), quotient, remainder)

unfoldable pub sub_quotient_remainder : ℕ → ℕ → ℕ → ℕ → ℕ
sub_quotient_remainder larger_quotient larger_remainder smaller_quotient smaller_remainder =
    if leb smaller_remainder larger_remainder
    then larger_quotient ⊖ smaller_quotient
    else if larger_quotient == smaller_quotient
    then 0
    else larger_quotient ⊖ smaller_quotient ⊖ 1

-- The two branches of `sum_mul_div_signed` after the split into quotients and remainders.
unfoldable pub carry_sum : Bool → ℕ → ℕ → ℕ → ℕ → ℕ → Outcome ℤ
carry_sum positive q1 r1 q2 r2 abs_denominator = do
  quotient ← uadd q1 q2
  remainder ← uadd r1 r2
  quotient' ← (if leb abs_denominator remainder then uadd quotient 1 else ok quotient)
  signed_result positive quotient'

unfoldable pub borrow_difference : Bool → ℕ → ℕ → Bool → ℕ → ℕ → Outcome ℤ
borrow_difference positive1 q1 r1 positive2 q2 r2 =
    if q1 == q2 && r1 == r2
    then ok (pos 0)
    else if ltb q2 q1 || (q1 == q2 && ltb r2 r1)
    then signed_result positive1 (sub_quotient_remainder q1 r1 q2 r2)
    else signed_result positive2 (sub_quotient_remainder q2 r2 q1 r1)

unfoldable pub sum_mul_div_signed : ℤ → ℤ → ℤ → ℤ → ℤ → Outcome ℤ
sum_mul_div_signed first_value first_multiplier second_value second_multiplier denominator = do
  require (not (eqb_ℤ denominator (pos 0))) Code.m0
  abs_denominator ← abs_int denominator
  (positive1, q1, r1) ← mul_div_parts first_value first_multiplier abs_denominator
  (positive2, q2, r2) ← mul_div_parts second_value second_multiplier abs_denominator
  let first_positive = same_flag positive1 (is_nonneg denominator)
  let second_positive = same_flag positive2 (is_nonneg denominator)
  if same_flag first_positive second_positive
      then carry_sum first_positive q1 r1 q2 r2 abs_denominator
      else borrow_difference first_positive q1 r1 second_positive q2 r2
