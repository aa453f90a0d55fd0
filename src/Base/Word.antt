-- ===== src/Base/Word.antt =====
-- 256-bit words. An unsigned word is a number below 2 ^ 256 and a signed word an integer in
-- [-2 ^ 255, 2 ^ 255); `+ - *` wrap around, as in the release build of the engine.
use Prim.Native.Nat.{ℕ, ◌+◌, ◌-◌, ◌*◌, ◌%◌, ◌^◌, ◌≤◌, ◌<◌}
use mathlib.Core.Path.{◌≡◌}
use mathlib.Core.Bool.{Bool, true, ◌&&◌}
use native.Mathlib.Omega.{arith}
use denaria_perp_arbitrum.Base.Tests.{ltb, leb, if◌then◌else◌}
use denaria_perp_arbitrum.Base.Int.{ℤ, pos, negsuc, pos_part, neg_part, ◌+ℤ◌, ◌-ℤ◌, ◌*ℤ◌, neg_ℤ}

abbrev pub word_mod : ℕ
word_mod = 2 ^ 256

abbrev pub half_mod : ℕ
half_mod = 2 ^ 255

infixl 65 ◌⊕◌ ◌⊖◌ ◌⊞◌ ◌⊟◌
infixl 70 ◌⊗◌ ◌⊠◌
-- `U256` sum, difference and product.
abbrev pub ◌⊕◌ : ℕ → ℕ → ℕ
a ⊕ b = (a + b) % word_mod

abbrev pub ◌⊖◌ : ℕ → ℕ → ℕ
a ⊖ b = (a + word_mod - b) % word_mod

abbrev pub ◌⊗◌ : ℕ → ℕ → ℕ
a ⊗ b = a * b % word_mod

-- The signed reading of a bit pattern, and the wrap-around of an integer to a signed word.
abbrev pub signed : ℕ → ℤ
signed w = if ltb w half_mod then pos w else negsuc (word_mod - w - 1)

unfoldable pub wrap : ℤ → ℤ
wrap z = signed ((pos_part z % word_mod + word_mod - neg_part z % word_mod) % word_mod)

-- `I256` sum, difference, product and negation.
unfoldable pub ◌⊞◌ : ℤ → ℤ → ℤ
unfolding wrap ◌+ℤ◌
a ⊞ b = wrap (a +ℤ b)

unfoldable pub ◌⊟◌ : ℤ → ℤ → ℤ
unfolding wrap ◌-ℤ◌
a ⊟ b = wrap (a -ℤ b)

unfoldable pub ◌⊠◌ : ℤ → ℤ → ℤ
unfolding wrap ◌*ℤ◌
a ⊠ b = wrap (a *ℤ b)

unfoldable pub negate : ℤ → ℤ
unfolding wrap
negate a = wrap (neg_ℤ a)

abbrev pub fits_signed : ℤ → Bool
fits_signed z = ltb (pos_part z) half_mod && leb (neg_part z) half_mod

abbrev pub IsSigned : ℤ → Type 0
IsSigned z = (pos_part z < half_mod) × (neg_part z ≤ half_mod)

pub wrap_fits : (z : ℤ) → IsSigned z → wrap z ≡ z
unfolding wrap
wrap_fits z h = ground arith

pub fits_signed-IsSigned : (z : ℤ) → IsSigned z → fits_signed z ≡ true
fits_signed-IsSigned z h = ground arith
