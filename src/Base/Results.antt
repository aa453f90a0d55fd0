-- ===== src/Base/Results.antt =====
-- The result of a computation that may stop. The engine's revert codes, each by its text; a revert
-- that an external contract returns is `foreign` unless it is one of these codes. A panic aborts
-- the program.
use mathlib.Core.Path.{◌≡◌, refl}
use mathlib.Core.Bool.{Bool, true, false}
use Prim.Native.Nat.{ℕ}

pub data Code : Type 0 where
  mov m0 mdet inverse0 f1 lecap l1 l2 l3 l4 l5 l6 rla c c0 c1 r r1 t0 t1 t2 t3 t4 t5 : Code
  paused s0 lq0 lq1 lq2 bl1 bl2 bl3 ba1 ba2 ba3 a a1 ac acb f ls0 pnl1 : Code
  init set1 set2 set3 set5 set6 set7 set8 : Code
  foreign : ℕ → Code

pub data Fault : Type 0 where
  division_by_zero i256 u256 ss1 nm1 nm2 mul_div_overflow invl1 invs1 slice : Fault

pub data Failure : Type 0 where
  reverts : Code → Failure
  panics : Fault → Failure

pub data Outcome {ℓ} (A : Type ℓ) : Type ℓ where
  ok : A → Outcome A
  fail : Failure → Outcome A

abbrev pub revert {ℓ} : {A : Type ℓ} → Code → Outcome A
revert why = fail (reverts why)

abbrev pub panic {ℓ} : {A : Type ℓ} → Fault → Outcome A
panic why = fail (panics why)

infixl 5 ◌>>=◌ ◌>>◌
abbrev pub ◌>>=◌ {ℓ κ} : {A : Type ℓ} {B : Type κ} → Outcome A → (A → Outcome B) → Outcome B
ok x >>= g = g x
fail e >>= g = fail e

abbrev pub ◌>>◌ {ℓ} : {B : Type ℓ} → Outcome (Unit {0}) → Outcome B → Outcome B
m >> k = m >>= λ _. k

-- `if !test { return Err(code) }`
abbrev pub require : Bool → Code → Outcome (Unit {0})
require true why = ok tt
require false why = revert why

-- `assert!(test, message)`
abbrev pub assert : Bool → Fault → Outcome (Unit {0})
assert true why = ok tt
assert false why = panic why

-- Inversion of a chain that succeeded.
pub >>=-eq-ok {ℓ κ} :
    {A : Type ℓ} {B : Type κ} (m : Outcome A) (g : A → Outcome B) {y : B}
    → (m >>= g) ≡ ok y
    → (x : A) × (m ≡ ok x) × (g x ≡ ok y)
>>=-eq-ok (ok x) g h = (x, refl, h)
>>=-eq-ok (fail e) g h = cc
