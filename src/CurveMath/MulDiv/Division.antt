-- ===== src/CurveMath/MulDiv/Division.antt =====
-- Quotients of sums and differences from the quotients and remainders of the parts.
use denaria_perp_arbitrum.Base.{ap, ℕ, suc, ◌+◌, ◌-◌, ◌*◌, ◌/◌, ◌%◌, ◌≤◌, ◌<◌, ◌≡◌, arith}

pub order_of_parts : (m n d : ℕ) → 0 < d → n / d < m / d → n < m
order_of_parts m n d h c = grind arith

pub eq_of_div_mod : (m n d : ℕ) → 0 < d → m / d ≡ n / d → m % d ≡ n % d → m ≡ n
eq_of_div_mod m n d h e r = grind arith

pub le_of_div_mod : (m n d : ℕ) → 0 < d → m / d ≡ n / d → m % d ≤ n % d → m ≤ n
le_of_div_mod m n d h e r = grind arith

pub div_mono : (m n d : ℕ) → m ≤ n → m / d ≤ n / d
div_mono m n d h = grind arith

mul_step : (x y d : ℕ) → x < y → x * d + d ≤ y * d
mul_step x y d h = let e : suc x * d ≤ y * d = grind arith in omega arith

pub div_mod_lem : (n d : ℕ) → 0 < d → (n / d * d + n % d ≡ n) × (n % d < d)
div_mod_lem n d h = (grind arith, grind arith)

-- A quotient is determined by its remainder's bound.
pub div_unique : (n d q r : ℕ) → q * d + r ≡ n → r < d → n / d ≡ q
div_unique n d q r e h = ground (arith, div_mod_lem n d, mul_step (n / d) q d, mul_step q (n / d) d)

pub div_add_carry : (m n d : ℕ) → 0 < d → d ≤ m % d + n % d → (m + n) / d ≡ m / d + n / d + 1
div_add_carry m n d h c =
    div_unique (m + n) d (m / d + n / d + 1) (m % d + n % d - d)
      (omega (arith, div_mod_lem m d h, div_mod_lem n d h))
      (omega (arith, div_mod_lem m d h, div_mod_lem n d h))

pub div_add_plain : (m n d : ℕ) → 0 < d → m % d + n % d < d → (m + n) / d ≡ m / d + n / d
div_add_plain m n d h c =
    div_unique (m + n) d (m / d + n / d) (m % d + n % d)
      (omega (arith, div_mod_lem m d h, div_mod_lem n d h)) c

sub_mul : (x y d : ℕ) → y ≤ x → (x - y) * d + y * d ≡ x * d
sub_mul x y d h =
    let e : x ≡ (x - y) + y = omega arith in
    let f : x * d ≡ ((x - y) + y) * d = ap (λ (t : ℕ). t * d) e in omega arith

pub div_sub_plain : (m n d : ℕ) → 0 < d → n ≤ m → n % d ≤ m % d → (m - n) / d ≡ m / d - n / d
div_sub_plain m n d h le c =
    div_unique (m - n) d (m / d - n / d) (m % d - n % d)
      (omega (
        arith,
        div_mod_lem m d h,
        div_mod_lem n d h,
        sub_mul (m / d) (n / d) d (div_mono n m d le),
      ))
      (omega (arith, div_mod_lem m d h))

pub div_sub_borrow : (m n d : ℕ) → 0 < d → n ≤ m → m % d < n % d → (m - n) / d ≡ m / d - n / d - 1
div_sub_borrow m n d h le c = omega (arith, quotient)
  where
    below : n / d + 1 ≤ m / d
    below = ground (arith, div_mono n m d, le_of_div_mod m n d)

    quotient : (m - n) / d ≡ m / d - (n / d + 1)
    quotient =
        div_unique (m - n) d (m / d - (n / d + 1)) (m % d + d - n % d)
          (omega (arith, div_mod_lem m d h, div_mod_lem n d h, sub_mul (m / d) (n / d + 1) d below))
          (omega (arith, div_mod_lem m d h, div_mod_lem n d h))
