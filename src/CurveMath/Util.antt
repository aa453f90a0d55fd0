-- ===== src/CurveMath/Util.antt =====
-- src/rust/CurveMath.rs: conversions, `md`, `md_ceil`, and the helpers over magnitudes and signs.
pub mod Exact
pub mod Average
use denaria_perp_arbitrum.Base.{
  ℕ, ◌+◌, ◌/◌, ◌%◌, Bool, not, ◌&&◌, ltb, leb, ◌==◌, if◌then◌else◌, same_flag, ℤ, pos, pos_part,
  abs_ℕ, is_nonneg, with_sign, ltb_ℤ, eqb_ℤ, word_mod, half_mod, ◌⊕◌, ◌⊖◌, ◌⊗◌, ◌⊞◌, negate, wrap,
  Outcome, Fault, ok, panic, ◌>>=◌,
}

abbrev pub wad : ℕ
wad = 1_000_000_000_000_000_000

-- `I256::try_from(v)`, with its panic.
unfoldable pub i : ℕ → Outcome ℤ
i v = if ltb v half_mod then ok (pos v) else panic Fault.i256

-- `U256::try_from(v)`, with its panic.
unfoldable pub u : ℤ → Outcome ℕ
u v = if is_nonneg v then ok (pos_part v) else panic Fault.u256

unfoldable pub u_or_zero : ℤ → ℕ
u_or_zero v = pos_part v

-- `/` and `%` on `U256`.
unfoldable pub divide : ℕ → ℕ → Outcome ℕ
divide a b = if b == 0 then panic Fault.division_by_zero else ok (a / b)

unfoldable pub md : ℕ → ℕ → ℕ → Outcome ℕ
unfolding divide
md a b c = divide (a ⊗ b) c

unfoldable pub md_ceil : ℕ → ℕ → ℕ → Outcome ℕ
unfolding divide
md_ceil a b c = do let p = a ⊗ b; q ← divide p c; if p % c == 0 then ok q else ok (q ⊕ 1)

-- The quotient truncated toward zero, and the remainder with the sign of `a`.
abbrev pub quot : ℤ → ℤ → ℤ
quot a b = with_sign (same_flag (is_nonneg a) (is_nonneg b)) (abs_ℕ a / abs_ℕ b)

abbrev pub rem : ℤ → ℤ → ℤ
rem a b = with_sign (is_nonneg a) (abs_ℕ a % abs_ℕ b)

-- `/` on `I256`.
unfoldable pub divide_signed : ℤ → ℤ → Outcome ℤ
unfolding wrap
divide_signed a b = if eqb_ℤ b (pos 0) then panic Fault.division_by_zero else ok (wrap (quot a b))

unfoldable pub util_diff_abs : ℕ → ℕ → ℕ
util_diff_abs x y = if leb y x then x ⊖ y else y ⊖ x

unfoldable pub signed_sum : ℕ → Bool → ℕ → Bool → Outcome (ℕ × Bool)
signed_sum x sign_x y sign_y =
    if same_flag sign_x sign_y
    then (if ltb (x + y) word_mod then ok (x + y, sign_x) else panic Fault.ss1)
    else if ltb y x
    then ok (x ⊖ y, sign_x)
    else ok (y ⊖ x, not sign_x)

unfoldable pub signed_sum_to_int : ℕ → Bool → ℕ → Bool → Outcome ℤ
unfolding signed_sum i negate
signed_sum_to_int x sign_x y sign_y = do
  (magnitude, sign) ← signed_sum x sign_x y sign_y
  z ← i magnitude
  if sign then ok z else ok (negate z)

unfoldable pub calc_slip : ℕ → ℕ → ℕ → Outcome ℕ
unfolding util_diff_abs md
calc_slip p spot_p decimals = md (util_diff_abs p spot_p) decimals spot_p

unfoldable pub calc_ema : ℕ → ℕ → ℕ → ℕ → ℕ → Outcome ℕ
unfolding calc_slip md
calc_ema p spot_p slip_decimals old_average ema_param = do
  slip ← calc_slip p spot_p slip_decimals
  old ← md old_average ema_param slip_decimals
  new ← md slip (slip_decimals ⊖ ema_param) slip_decimals
  ok (old ⊕ new)

unfoldable pub div_ceil : ℤ → ℤ → Outcome ℤ
unfolding divide_signed ◌⊞◌
div_ceil a b = do
  q ← divide_signed a b
  let has_rem = not (eqb_ℤ (rem a b) (pos 0))
  let same_sign = same_flag (ltb_ℤ a (pos 0)) (ltb_ℤ b (pos 0))
  if has_rem && same_sign then ok (q ⊞ pos 1) else ok q

unfoldable pub reduce_value : ℕ → ℕ → ℕ × ℕ
reduce_value a b = if ltb a b then (0, b ⊖ a) else (a ⊖ b, 0)
