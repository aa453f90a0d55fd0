-- ===== src/CurveMath/Cubic.antt =====
-- src/rust/CurveMath.rs: the solver over magnitudes and signs, with the branches of the Solidity
-- code.
use denaria_perp_arbitrum.Base.{
  ℕ, zero, suc, Bool, true, false, ℤ, pos, ltb_ℤ, leb_ℤ, ◌⊞◌, ◌⊟◌, ◌⊠◌, negate, Outcome, Fault, ok,
  panic, assert, ◌>>=◌, ◌>>◌, if◌then◌else◌, same_flag, not,
}
use denaria_perp_arbitrum.CurveMath.Newton.{◌⋆◌, ◌⫽◌, scale, has_converged}

unfoldable pub signed_parts : ℤ → ℤ × Bool
signed_parts v = if ltb_ℤ v (pos 0) then (negate v, false) else (v, true)

unfoldable pub diff_abs : ℤ → ℤ → ℤ × Bool
diff_abs lhs rhs = if leb_ℤ rhs lhs then (lhs ⊟ rhs, true) else (rhs ⊟ lhs, false)

unfoldable pub apply_newton_step : ℤ → ℤ × Bool → ℤ × Bool → Bool → Outcome ℤ
apply_newton_step x_prev (fx, fx_sign) (fpx, fpx_sign) require_positive_subtraction = do
  step ← ok fx ⋆ scale ⫽ fpx
  if same_flag fx_sign fpx_sign
      then (if ltb_ℤ step x_prev
          then ok (x_prev ⊟ step)
          else assert (not require_positive_subtraction) Fault.nm1 >> ok (pos 0))
      else ok (x_prev ⊞ step)

-- The products of one round: `a * x^2`, `a * x^3`, `b * x^2`, `b * x` and `c * x`.
pub record Terms : Type 0 where
  pub ax2 : ℤ
  pub ax3 : ℤ
  pub bx2 : ℤ
  pub bx : ℤ
  pub cx : ℤ

unfoldable pub cubic_terms : ℤ → ℤ → ℤ → ℤ → Outcome Terms
cubic_terms a b c x = do
  x2 ← ok x ⋆ x ⫽ scale
  x3 ← ok x2 ⋆ x ⫽ scale
  ax2 ← ok a ⋆ x2 ⫽ scale
  ax3 ← ok a ⋆ x3 ⫽ scale
  bx2 ← ok b ⋆ x2 ⫽ scale
  bx ← ok b ⋆ x ⫽ scale
  cx ← ok c ⋆ x ⫽ scale
  ok (record { ax2 = ax2; ax3 = ax3; bx2 = bx2; bx = bx; cx = cx })

abbrev three_times : ℤ → ℤ
three_times z = pos 3 ⊠ z

abbrev twice : ℤ → ℤ
twice z = pos 2 ⊠ z

-- The value and the slope by the signs of `b`, `c` and `d`, and whether a subtraction must stay
-- positive.
unfoldable pub cubic_branch : Bool → Bool → Bool → Terms → ℤ → ℤ → (ℤ × Bool) × (ℤ × Bool) × Bool
unfolding diff_abs
cubic_branch true true true t c d =
    ((t.ax3 ⊞ t.bx2 ⊞ t.cx ⊞ d, true), (three_times t.ax2 ⊞ twice t.bx ⊞ c, true), true)
cubic_branch true false true t c d =
    (diff_abs (t.ax3 ⊞ t.bx2 ⊞ d) t.cx, diff_abs (three_times t.ax2 ⊞ twice t.bx) c, false)
cubic_branch false true true t c d =
    (diff_abs (t.ax3 ⊞ t.cx ⊞ d) t.bx2, diff_abs (three_times t.ax2 ⊞ c) (twice t.bx), true)
cubic_branch false false true t c d =
    (diff_abs (t.ax3 ⊞ d) (t.bx2 ⊞ t.cx), diff_abs (three_times t.ax2) (twice t.bx ⊞ c), false)
cubic_branch true true false t c d =
    (diff_abs (t.ax3 ⊞ t.bx2 ⊞ t.cx) d, (three_times t.ax2 ⊞ twice t.bx ⊞ c, true), false)
cubic_branch true false false t c d =
    (diff_abs (t.ax3 ⊞ t.bx2) (d ⊞ t.cx), diff_abs (three_times t.ax2 ⊞ twice t.bx) c, false)
cubic_branch false true false t c d =
    (diff_abs (t.ax3 ⊞ t.cx) (d ⊞ t.bx2), diff_abs (three_times t.ax2 ⊞ c) (twice t.bx), false)
cubic_branch false false false t c d =
    (diff_abs t.ax3 (d ⊞ t.bx2 ⊞ t.cx), diff_abs (three_times t.ax2) (twice t.bx ⊞ c), false)

-- One round, from the magnitudes and signs of the coefficients.
unfoldable pub cubic_step : ℤ → ℤ × Bool → ℤ × Bool → ℤ × Bool → ℤ → Outcome ℤ
cubic_step a (b, b_sign) (c, c_sign) (d, d_sign) x_prev = do
  t ← cubic_terms a b c x_prev
  let (fx, fpx, strict) = cubic_branch b_sign c_sign d_sign t c d
  apply_newton_step x_prev fx fpx strict

unfoldable pub cubic_rounds : ℕ → ℤ → ℤ × Bool → ℤ × Bool → ℤ × Bool → ℤ → Outcome ℤ
cubic_rounds zero a b c d x = panic Fault.nm2
cubic_rounds (suc k) a b c d x_prev = cubic_step a b c d x_prev >>= λ x.
    elim (has_converged x_prev x) [ true ↦ ok x | false ↦ cubic_rounds k a b c d x ]

unfoldable pub newton_cubic : ℤ → ℤ → ℤ → ℤ → ℤ → Outcome ℤ
newton_cubic guess a b c d =
    cubic_rounds 255 a (signed_parts b) (signed_parts c) (signed_parts d) guess
