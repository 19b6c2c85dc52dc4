-- ===== src/Transfer/Checksum/Blocks.antt =====
-- Reading a file in blocks gives the checksum of the whole file.
use cloud_assitant.Prelude.{
  ℕ, zero, suc, ◌%◌, ◌^◌, ◌≤◌, ◌<◌, List, [], ◌∷◌, ◌++◌, some, false, ltb, length, take, drop,
  bit_xor, ◌≡◌, refl, sym, ap, ◌∙◌, arith, take-append-drop, length-drop, take_all, Bool-cases, inl,
  inr, ltb→lt,
}
use cloud_assitant.Transfer.Checksum.{
  invert, crc_bit, crc_bits, crc_bytes, update_crc32, checksum_loop, checksum_file, block_size,
}

crc_bits-lt : (n crc : ℕ) → crc < 2 ^ 32 → crc_bits n crc < 2 ^ 32
unfolding crc_bits
crc_bits-lt zero crc h = h
crc_bits-lt (suc n) crc h = crc_bits-lt n (crc_bit crc) (crc_bit-lt crc)
  where
    crc_bit-lt : (c : ℕ) → crc_bit c < 2 ^ 32
    crc_bit-lt c = unfold crc_bit in omega arith

crc_bytes-lt : (xs : List ℕ) (crc : ℕ) → crc < 2 ^ 32 → crc_bytes crc xs < 2 ^ 32
unfolding crc_bytes
crc_bytes-lt [] crc h = h
crc_bytes-lt (x ∷ xs) crc h =
    crc_bytes-lt xs _ (crc_bits-lt 8 (bit_xor crc x % 2 ^ 32) (omega arith))

crc_bytes-append :
    (xs ys : List ℕ) (crc : ℕ) → crc_bytes crc (xs ++ ys) ≡ crc_bytes (crc_bytes crc xs) ys
unfolding crc_bytes
crc_bytes-append [] ys crc = refl
crc_bytes-append (x ∷ xs) ys crc = crc_bytes-append xs ys _

-- The checksum of a text is that of its second part, started from that of its first.
pub update_crc32-append :
    (xs ys : List ℕ) (crc : ℕ) → update_crc32 crc (xs ++ ys) ≡ update_crc32 (update_crc32 crc xs) ys
unfolding update_crc32
update_crc32-append xs ys crc =
    rw (crc_bytes-append xs ys (invert crc)) (
      ap (λ c. invert (crc_bytes c ys))
        (sym (twice _ (crc_bytes-lt xs (invert crc) (omega arith)))))
  where
    twice : (c : ℕ) → c < 2 ^ 32 → invert (invert c) ≡ c
    twice c h = omega arith

checksum_loop_lem :
    (fuel block crc : ℕ) (rest : List ℕ)
    → 0 < block
    → length rest < fuel
    → checksum_loop fuel block crc rest ≡ some (update_crc32 crc rest)
unfolding checksum_loop
checksum_loop_lem zero block crc rest hb h = absurd (omega arith)
checksum_loop_lem (suc fuel) block crc rest hb h = elim (Bool-cases (ltb (length rest) block)) [
  | inl short ↦
      rw (short, checksum_loop)
        (ap (λ t. some (update_crc32 crc t)) (take_all block rest (lt_le (ltb→lt _ _ short))))
  | inr long ↦
      rw (long, checksum_loop)
        (checksum_loop_lem fuel block _ (drop block rest) hb (fewer long)
          ∙ ap some (sym (update_crc32-append (take block rest) (drop block rest) crc))
          ∙ ap (λ t. some (update_crc32 crc t)) (take-append-drop block rest))
]
  where
    lt_le : length rest < block → length rest ≤ block
    lt_le l = omega arith

    fewer : ltb (length rest) block ≡ false → length (drop block rest) < fuel
    fewer long = ground (arith, length-drop block rest)

-- The loop of `ChecksumFile` ends on every file, and gives the CRC-32 of all that the file holds.
pub checksum_file_lem :
    (contents : List ℕ) → checksum_file (some contents) ≡ some (update_crc32 0 contents)
unfolding checksum_file
checksum_file_lem contents =
    checksum_loop_lem (suc (length contents)) block_size 0 contents (omega arith) (omega arith)
