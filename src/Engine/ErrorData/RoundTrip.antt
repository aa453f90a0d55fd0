-- ===== src/Engine/ErrorData/RoundTrip.antt =====
-- `err` of perp-engine/src/lib.rs: the ABI data gives the code back.
use denaria_perp_arbitrum.Base.{
  ℕ, zero, suc, ◌+◌, ◌*◌, ◌-◌, ◌≤◌, leb, ◌==◌, if◌then◌else◌, ◌≡◌, refl, ap, arith, List, [], ◌∷◌,
  ok, true,
}
use mathlib.Core.Option.{Option, some, none}
use mathlib.Core.List.{◌++◌}
use denaria_perp_arbitrum.Engine.Batch.{length}
use denaria_perp_arbitrum.Engine.ErrorData.{err, zeros, be_bytes, selector, offset}

abbrev drop : ℕ → List ℕ → List ℕ
drop zero l = l
drop (suc n) [] = []
drop (suc n) (x ∷ l) = drop n l

abbrev take : ℕ → List ℕ → List ℕ
take zero l = []
take (suc n) [] = []
take (suc n) (x ∷ l) = x ∷ take n l

abbrev from_be : ℕ → List ℕ → ℕ
from_be acc [] = acc
from_be acc (x ∷ l) = from_be (acc * 256 + x) l

-- The word of 32 bytes at a position.
abbrev word_at : ℕ → List ℕ → ℕ
word_at n bytes = from_be 0 (take 32 (drop n bytes))

-- The text behind the word that holds its length, when the data reaches to its end.
abbrev text_at : ℕ → List ℕ → Option (List ℕ)
text_at n bytes =
    let rest = drop (n + 32) bytes in
    if leb (word_at n bytes) (length rest) then some (take (word_at n bytes) rest) else none

-- The reader of a client, by the ABI's rules: the data of `Error(string)` starts with its selector
-- 0x08c379a0, and the arguments behind it with the offset of the text among them.
abbrev pub decode : List ℕ → Option (List ℕ)
decode bytes =
    let args = drop 4 bytes in
    if from_be 0 (take 4 bytes) == 0x08c379a0 then text_at (word_at 0 args) args else none

take-length : (l k : List ℕ) → take (length l) (l ++ k) ≡ l
take-length [] k = refl
take-length (x ∷ l) k = ap (λ m. x ∷ m) (take-length l k)

length-le-append : (l k : List ℕ) → length l ≤ length (l ++ k)
length-le-append [] k = omega arith
length-le-append (x ∷ l) k = omega (arith, length-le-append l k)

-- The word of the length.
from_be-be_bytes : (n : ℕ) → n ≤ 32 → from_be 0 (zeros 24 ++ be_bytes 8 n) ≡ n
unfolding be_bytes
from_be-be_bytes n h = ground arith

abbrev encoded : List ℕ → List ℕ
encoded code =
    selector
    ++ (offset ++ ((zeros 24 ++ be_bytes 8 (length code)) ++ (code ++ zeros (32 - length code))))

leb-true : (a b : ℕ) → a ≤ b → leb a b ≡ true
leb-true a b h = ground arith

-- A code of at most 32 bytes is encoded, and a client that reads the data by the ABI's rules, the
-- selector of an error text and the offset included, gets the code back.
pub decode-err :
    (code : List ℕ)
    → length code ≤ 32
    → (bytes : List ℕ) × (err code ≡ ok bytes) × (decode bytes ≡ some code)
unfolding err be_bytes
decode-err code h =
    let fits : leb (length code) 32 ≡ true = ground arith in
    let pad = zeros (32 - length code) in
    (
      encoded code,
      rw fits refl,
      rw
          (
            from_be-be_bytes (length code) h,
            leb-true (length code) (length (code ++ pad)) (length-le-append code pad),
          )
          (ap some (take-length code pad)),
    )
