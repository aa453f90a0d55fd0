-- ===== src/CurveMath/Newton.antt =====
-- src/rust/CurveMath.rs: Newton's method on a cubic, with coefficients as signed words.
use denaria_perp_arbitrum.Base.{
  ℕ, zero, suc, Bool, true, false, ℤ, pos, ltb_ℤ, leb_ℤ, ◌⊞◌, ◌⊟◌, ◌⊠◌, Outcome, Fault, ok, panic,
  ◌>>=◌, if◌then◌else◌,
}
use denaria_perp_arbitrum.CurveMath.Util.{wad, divide_signed}

-- A product or a quotient in a chain read from the left, `a * b / c * d`.
infixl 70 ◌⋆◌ ◌⫽◌
abbrev pub ◌⋆◌ : Outcome ℤ → ℤ → Outcome ℤ
m ⋆ b = m >>= λ a. ok (a ⊠ b)

abbrev pub ◌⫽◌ : Outcome ℤ → ℤ → Outcome ℤ
m ⫽ b = m >>= λ a. divide_signed a b

abbrev pub scale : ℤ
scale = pos wad

abbrev pub convergence_threshold : ℤ
convergence_threshold = pos 10_000_000_000

-- One round of the loop: `x - f(x) * s / f'(x)`.
unfoldable pub newton_step : ℤ → ℤ → ℤ → ℤ → ℤ → Outcome ℤ
newton_step a b c d x = do
  x2 ← ok x ⋆ x ⫽ scale
  x3 ← ok x2 ⋆ x ⫽ scale
  ax3 ← ok a ⋆ x3 ⫽ scale
  bx2 ← ok b ⋆ x2 ⫽ scale
  cx ← ok c ⋆ x ⫽ scale
  let fx = ax3 ⊞ bx2 ⊞ cx ⊞ d
  three_ax2 ← ok (pos 3 ⊠ a) ⋆ x2 ⫽ scale
  two_bx ← ok (pos 2 ⊠ b) ⋆ x ⫽ scale
  let fpx = three_ax2 ⊞ two_bx ⊞ c
  step ← ok fx ⋆ scale ⫽ fpx
  ok (x ⊟ step)

-- The convergence test between two rounds.
unfoldable pub has_converged : ℤ → ℤ → Bool
has_converged x_prev x =
    leb_ℤ (if ltb_ℤ x_prev x then x ⊟ x_prev else x_prev ⊟ x) convergence_threshold

-- The loop, on the rounds left.
unfoldable pub newton_rounds : ℕ → ℤ → ℤ → ℤ → ℤ → ℤ → Outcome ℤ
newton_rounds zero a b c d x = panic Fault.nm2
newton_rounds (suc k) a b c d x_prev = newton_step a b c d x_prev >>= λ x.
    elim (has_converged x_prev x) [ true ↦ ok x | false ↦ newton_rounds k a b c d x ]

unfoldable pub newton_cubic_signed : ℤ → ℤ → ℤ → ℤ → ℤ → Outcome ℤ
newton_cubic_signed guess a b c d = newton_rounds 255 a b c d guess
