-- ===== src/Net/Bytes.antt =====
-- The byte-order functions of Net/BufferReader.cpp and Net/BufferWriter.cpp. A reader takes the
-- memory from its pointer on; a writer gives the bytes that it stores there. The operands of each
-- `|` have no bit in common, so it is a sum.
pub mod RoundTrip
use cloud_assitant.Prelude.{ℕ, ◌+◌, ◌*◌, ◌/◌, ◌%◌, ◌^◌, List, [], ◌∷◌, Option, none, some}

unfoldable pub read_uint8 : List ℕ → Option ℕ
read_uint8 (a ∷ r) = some a
read_uint8 _ = none

unfoldable pub read_uint16_be : List ℕ → Option ℕ
read_uint16_be (a ∷ b ∷ r) = some (a * 2 ^ 8 + b)
read_uint16_be _ = none

unfoldable pub read_uint16_le : List ℕ → Option ℕ
read_uint16_le (a ∷ b ∷ r) = some (b * 2 ^ 8 + a)
read_uint16_le _ = none

unfoldable pub read_uint24_be : List ℕ → Option ℕ
read_uint24_be (a ∷ b ∷ c ∷ r) = some (a * 2 ^ 16 + b * 2 ^ 8 + c)
read_uint24_be _ = none

unfoldable pub read_uint24_le : List ℕ → Option ℕ
read_uint24_le (a ∷ b ∷ c ∷ r) = some (c * 2 ^ 16 + b * 2 ^ 8 + a)
read_uint24_le _ = none

unfoldable pub read_uint32_be : List ℕ → Option ℕ
read_uint32_be (a ∷ b ∷ c ∷ d ∷ r) = some (a * 2 ^ 24 + b * 2 ^ 16 + c * 2 ^ 8 + d)
read_uint32_be _ = none

unfoldable pub read_uint32_le : List ℕ → Option ℕ
read_uint32_le (a ∷ b ∷ c ∷ d ∷ r) = some (d * 2 ^ 24 + c * 2 ^ 16 + b * 2 ^ 8 + a)
read_uint32_le _ = none

-- What a store into a `char` keeps.
abbrev pub to_byte : ℕ → ℕ
to_byte v = v % 256

unfoldable pub write_uint8 : ℕ → List ℕ
write_uint8 v = to_byte v ∷ []

unfoldable pub write_uint16_be : ℕ → List ℕ
write_uint16_be v = to_byte (v / 2 ^ 8) ∷ to_byte v ∷ []

unfoldable pub write_uint16_le : ℕ → List ℕ
write_uint16_le v = to_byte v ∷ to_byte (v / 2 ^ 8) ∷ []

unfoldable pub write_uint24_be : ℕ → List ℕ
write_uint24_be v = to_byte (v / 2 ^ 16) ∷ to_byte (v / 2 ^ 8) ∷ to_byte v ∷ []

-- The source stores `value >> 16` at index 1 and `value >> 8` at index 2.
unfoldable pub write_uint24_le : ℕ → List ℕ
write_uint24_le v = to_byte v ∷ to_byte (v / 2 ^ 16) ∷ to_byte (v / 2 ^ 8) ∷ []

unfoldable pub write_uint32_be : ℕ → List ℕ
write_uint32_be v =
    to_byte (v / 2 ^ 24) ∷ to_byte (v / 2 ^ 16) ∷ to_byte (v / 2 ^ 8) ∷ to_byte v ∷ []

unfoldable pub write_uint32_le : ℕ → List ℕ
write_uint32_le v =
    to_byte v ∷ to_byte (v / 2 ^ 8) ∷ to_byte (v / 2 ^ 16) ∷ to_byte (v / 2 ^ 24) ∷ []
