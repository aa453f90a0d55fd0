-- ===== src/Engine/Batch/Distinct.antt =====
-- `has_duplicates` of perp-engine/src/liquidation.rs: what the check of a batch decides.
use denaria_perp_arbitrum.Base.{
  ℕ, zero, suc, ◌<◌, ◌≡◌, refl, Bool, true, false, ◌||◌, ◌==◌, List, [], ◌∷◌, arith, inl, inr, ◌⊎◌,
  ◌↔◌,
}
use denaria_perp_arbitrum.Engine.Batch.{length, contains, has_duplicates}

-- The entry at a position, 0 out of range.
unfoldable pub entry : List ℕ → ℕ → ℕ
entry [] k = 0
entry (x ∷ xs) zero = x
entry (x ∷ xs) (suc k) = entry xs k

or_false : (a b : Bool) → (a || b) ≡ false → (a ≡ false) × (b ≡ false)
or_false true b h = cc
or_false false b h = (refl, h)

differ : (x : ℕ) → (x == x) ≡ true
differ x = ground arith

contains-entry :
    (user : ℕ) (rest : List ℕ)
    → contains user rest ≡ false
    → (k : ℕ) → k < length rest
    → entry rest k ≡ user
    → ⊥
unfolding contains entry
contains-entry user [] h k lt e = omega arith
contains-entry user (other ∷ rest) h zero lt e =
    let parts = or_false (user == other) (contains user rest) h in
    let same : (user == other) ≡ true = rw e (differ user) in cc
contains-entry user (other ∷ rest) h (suc k) lt e =
    let parts = or_false (user == other) (contains user rest) h in
    contains-entry user rest parts.1 k (omega arith) e

has_duplicates_sound :
    (users : List ℕ)
    → has_duplicates users ≡ false
    → (j k : ℕ) → j < k
    → k < length users
    → entry users j ≡ entry users k
    → ⊥
unfolding has_duplicates entry
has_duplicates_sound [] h j k jk lt e = omega arith
has_duplicates_sound (user ∷ rest) h zero (suc k) jk lt e =
    let parts = or_false (contains user rest) (has_duplicates rest) h in
    contains-entry user rest parts.0 k (omega arith) (cc)
has_duplicates_sound (user ∷ rest) h (suc j) (suc k) jk lt e =
    let parts = or_false (contains user rest) (has_duplicates rest) h in
    has_duplicates_sound rest parts.1 j k (omega arith) (omega arith) e
has_duplicates_sound (user ∷ rest) h zero zero jk lt e = omega arith
has_duplicates_sound (user ∷ rest) h (suc j) zero jk lt e = omega arith

or_true : (a b : Bool) → (a || b) ≡ true → (a ≡ true) ⊎ (b ≡ true)
or_true true b h = inl refl
or_true false b h = inr h

contains_found :
    (user : ℕ) (rest : List ℕ)
    → contains user rest ≡ true
    → (k : ℕ) × (k < length rest) × (entry rest k ≡ user)
unfolding contains entry
contains_found user [] h = cc
contains_found user (other ∷ rest) h = elim (or_true (user == other) (contains user rest) h) [
  | inl e ↦ (0, omega arith, ground arith)
  | inr e ↦ let (k, lt, found) = contains_found user rest e in (suc k, omega arith, found)
]

has_duplicates_found :
    (users : List ℕ)
    → has_duplicates users ≡ true
    → (j k : ℕ) × (j < k) × (k < length users) × (entry users j ≡ entry users k)
unfolding has_duplicates entry
has_duplicates_found [] h = cc
has_duplicates_found (user ∷ rest) h = elim (or_true (contains user rest) (has_duplicates rest) h) [
  | inl e ↦
      let (k, lt, found) = contains_found user rest e in (0, suc k, omega arith, omega arith, cc)
  | inr e ↦
      let (j, k, jk, lt, found) = has_duplicates_found rest e in
      (suc j, suc k, omega arith, omega arith, found)
]

-- Two positions of the list hold one user.
abbrev pub HasRepeat : List ℕ → Type 0
HasRepeat users = (j : ℕ) × (k : ℕ) × (j < k) × (k < length users) × (entry users j ≡ entry users k)

flagged : (users : List ℕ) → HasRepeat users → (b : Bool) → has_duplicates users ≡ b → b ≡ true
flagged users r true e = refl
flagged users (j, k, jk, lt, same) false e = absurd (has_duplicates_sound users e j k jk lt same)

-- The check of a batch refuses exactly the lists in which two positions hold one user.
pub has_duplicates_lem : (users : List ℕ) → (has_duplicates users ≡ true) ↔ HasRepeat users
has_duplicates_lem users =
    (has_duplicates_found users, λ r. flagged users r (has_duplicates users) refl)
