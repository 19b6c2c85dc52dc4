-- ===== src/Transfer/Checksum.antt =====
-- The CRC-32 of Transfer/FileReceiver.cpp: `UpdateCrc32` and the block loop of `ChecksumFile`.
pub mod Blocks
use cloud_assitant.Prelude.{
  ℕ, zero, suc, ◌+◌, ◌-◌, ◌*◌, ◌/◌, ◌%◌, ◌^◌, List, [], ◌∷◌, Option, none, some, Bool, true, false,
  ltb, length, take, drop, bit_and, bit_xor,
}

-- `~crc` on 32 bits.
abbrev pub invert : ℕ → ℕ
invert crc = 2 ^ 32 - 1 - crc % 2 ^ 32

-- `(crc >> 1) ^ (0xEDB88320u & (0u - (crc & 1u)))`
unfoldable pub crc_bit : ℕ → ℕ
crc_bit crc = bit_xor (crc / 2) (bit_and 0xedb8_8320 ((2 ^ 32 - crc % 2) % 2 ^ 32)) % 2 ^ 32

unfoldable pub crc_bits : ℕ → ℕ → ℕ
unfolding crc_bit
crc_bits zero crc = crc
crc_bits (suc n) crc = crc_bits n (crc_bit crc)

unfoldable pub crc_bytes : ℕ → List ℕ → ℕ
unfolding crc_bits
crc_bytes crc [] = crc
crc_bytes crc (b ∷ bs) = crc_bytes (crc_bits 8 (bit_xor crc b % 2 ^ 32)) bs

unfoldable pub update_crc32 : ℕ → List ℕ → ℕ
unfolding crc_bytes
update_crc32 crc xs = invert (crc_bytes (invert crc) xs)

-- The loop `while (input)` over what is left of the file: a read that comes back short ends it.
-- The result is `none` when the fuel runs out.
unfoldable pub checksum_loop : ℕ → ℕ → ℕ → List ℕ → Option ℕ
unfolding update_crc32
checksum_loop zero block crc rest = none
checksum_loop (suc fuel) block crc rest =
    let next = checksum_loop fuel block (update_crc32 crc (take block rest)) (drop block rest) in
    elim (ltb (length rest) block) [
      | true ↦ some (update_crc32 crc (take block rest))
      | false ↦ next
    ]

abbrev pub block_size : ℕ
block_size = 64 * 1024

-- `ChecksumFile` of a file that holds `contents`, or could not be opened.
unfoldable pub checksum_file : Option (List ℕ) → Option ℕ
unfolding checksum_loop
checksum_file none = some 0
checksum_file (some contents) = checksum_loop (suc (length contents)) block_size 0 contents
