-- ===== src/Session/Bytes.antt =====
-- packages/crypto/src/bytes.ts: comparing byte strings, and writing them in hexadecimal.
pub mod Laws
use Prim.Native.Nat.{bit_or, bit_xor}
use tablefolk.Base.{
  ℕ, ◌+◌, ◌/◌, ◌%◌, ◌<◌, Bool, true, false, ◌&&◌, List, [], ◌∷◌, ltb, ◌==◌, if◌then◌else◌, length,
  All,
}

abbrev pub Bytes : Type 0
Bytes = List ℕ

-- The elements of a `Uint8Array`.
abbrev pub IsBytes : Bytes → Type 0
IsBytes = All (λ b. b < 256)

-- The loop of `bytesEqual`: the bits in which the two differ so far.
unfoldable pub difference : ℕ → Bytes → Bytes → ℕ
difference d (a ∷ left) (b ∷ right) = difference (bit_or d (bit_xor a b)) left right
difference d _ _ = d

-- `bytesEqual`.
unfoldable pub bytes_equal : Bytes → Bytes → Bool
bytes_equal left right = if length left == length right then difference 0 left right == 0 else false

-- The code of a hexadecimal digit.
abbrev pub digit_code : ℕ → ℕ
digit_code d = if ltb d 10 then 48 + d else 87 + d

-- `bytesToHex`, as the codes of its text.
unfoldable pub bytes_to_hex : Bytes → List ℕ
bytes_to_hex [] = []
bytes_to_hex (b ∷ bytes) = digit_code (b / 16) ∷ digit_code (b % 16) ∷ bytes_to_hex bytes

-- Equality of the keys of a `Map` on hexadecimal texts.
unfoldable pub text_equal : List ℕ → List ℕ → Bool
text_equal [] [] = true
text_equal (a ∷ s) (b ∷ t) = a == b && text_equal s t
text_equal _ _ = false
