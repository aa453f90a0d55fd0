-- ===== src/Engine/ErrorData.antt =====
-- `err` of perp-engine/src/lib.rs: a revert code as the ABI data of `Error(string)`. Texts and data are
-- lists of bytes.
pub mod RoundTrip
use denaria_perp_arbitrum.Base.{
  ℕ, zero, suc, ◌-◌, ◌/◌, ◌%◌, ◌^◌, leb, if◌then◌else◌, List, [], ◌∷◌, Outcome, Fault, ok, panic,
}
use mathlib.Core.List.{◌++◌}
use denaria_perp_arbitrum.Engine.Batch.{length}

abbrev pub zeros : ℕ → List ℕ
zeros zero = []
zeros (suc n) = 0 ∷ zeros n

-- `to_be_bytes`, of `k` bytes.
unfoldable pub be_bytes : ℕ → ℕ → List ℕ
be_bytes zero n = []
be_bytes (suc k) n = n / 256 ^ k % 256 ∷ be_bytes k n

-- The selector of `Error(string)`.
abbrev pub selector : List ℕ
selector = 0x08 ∷ 0xc3 ∷ 0x79 ∷ 0xa0 ∷ []

-- The word that holds the offset of the text, 32.
abbrev pub offset : List ℕ
offset = zeros 31 ++ (0x20 ∷ [])

-- A text of more than 32 bytes does not fit the array that it is copied to.
unfoldable pub err : List ℕ → Outcome (List ℕ)
err code =
    if leb (length code) 32
    then ok (
        selector
        ++ (offset
            ++ ((zeros 24 ++ be_bytes 8 (length code)) ++ (code ++ zeros (32 - length code)))))
    else panic Fault.slice
