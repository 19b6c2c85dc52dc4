-- ===== src/Net/Bytes/RoundTrip.antt =====
-- Reading back what the writers of Net/BufferWriter.cpp stored.
use cloud_assitant.Prelude.{ℕ, ◌/◌, ◌%◌, ◌^◌, ◌<◌, ◌≡◌, ap, List, ◌++◌, some, arith, ◌↔◌}
use cloud_assitant.Net.Bytes.{
  read_uint16_be, read_uint24_be, read_uint32_be, read_uint32_le, write_uint16_be, write_uint24_be,
  write_uint32_be, write_uint32_le, read_uint24_le, write_uint24_le, read_uint16_le,
  write_uint16_le,
}

module _ (v : ℕ) (rest : List ℕ) where
  pub read_uint16_be-write : v < 2 ^ 16 → read_uint16_be (write_uint16_be v ++ rest) ≡ some v
  unfolding read_uint16_be write_uint16_be
  read_uint16_be-write h = ap some (omega arith)

  pub read_uint16_le-write : v < 2 ^ 16 → read_uint16_le (write_uint16_le v ++ rest) ≡ some v
  unfolding read_uint16_le write_uint16_le
  read_uint16_le-write h = ap some (omega arith)

  pub read_uint24_be-write : v < 2 ^ 24 → read_uint24_be (write_uint24_be v ++ rest) ≡ some v
  unfolding read_uint24_be write_uint24_be
  read_uint24_be-write h = ap some (omega arith)

  pub read_uint32_be-write : v < 2 ^ 32 → read_uint32_be (write_uint32_be v ++ rest) ≡ some v
  unfolding read_uint32_be write_uint32_be
  read_uint32_be-write h = ap some (omega arith)

  pub read_uint32_le-write : v < 2 ^ 32 → read_uint32_le (write_uint32_le v ++ rest) ≡ some v
  unfolding read_uint32_le write_uint32_le
  read_uint32_le-write h = ap some (omega arith)

-- `write_uint24_le` swaps the upper two bytes: on a 24-bit value `read_uint24_le` gives the value
-- back exactly when its two upper bytes are the same.
pub read_uint24_le-write :
    (v : ℕ) (rest : List ℕ)
    → v < 2 ^ 24
    → (read_uint24_le (write_uint24_le v ++ rest) ≡ some v) ↔ (v / 2 ^ 16 ≡ v / 2 ^ 8 % 256)
unfolding read_uint24_le write_uint24_le
read_uint24_le-write v rest h = (λ e. ground arith, λ e. ap some (omega arith))
