-- ===== src/Engine/Batch.antt =====
-- The checks on the lists of a batch, shared by liquidation.rs and auto_close.rs.
pub mod Distinct
use denaria_perp_arbitrum.Base.{ℕ, suc, Bool, false, ◌||◌, ◌==◌, List, [], ◌∷◌}

abbrev pub length {ℓ} : {A : Type ℓ} → List A → ℕ
length [] = 0
length (x ∷ xs) = suc (length xs)

-- `users.iter().zip(others.iter())`
abbrev pub zip {ℓ κ} : {A : Type ℓ} {B : Type κ} → List A → List B → List (A × B)
zip [] ys = []
zip (x ∷ xs) [] = []
zip (x ∷ xs) (y ∷ ys) = (x, y) ∷ zip xs ys

-- Is `users[j]` equal to `user` for some j of the rest?
unfoldable pub contains : ℕ → List ℕ → Bool
contains user [] = false
contains user (other ∷ rest) = user == other || contains user rest

-- Are `users[i]` and `users[j]` equal for some i < j?
unfoldable pub has_duplicates : List ℕ → Bool
unfolding contains
has_duplicates [] = false
has_duplicates (user ∷ rest) = contains user rest || has_duplicates rest
