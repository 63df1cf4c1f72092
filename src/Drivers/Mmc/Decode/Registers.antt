-- ===== src/Drivers/Mmc/Decode/Registers.antt =====
-- What the decoders take from a register.
use pascal_scheduler.Prelude.{
  ℕ, ◌+◌, ◌*◌, ◌/◌, ◌%◌, ◌^◌, ◌<◌, ◌≤◌, ◌≡◌, ap, ◌∙◌, List, [], ◌∷◌, length, arith, leb, ◌==◌,
  if◌then◌else◌,
}
use pascal_scheduler.Drivers.Mmc.{Verdict, mmc_ok, mmc_error, Info}
use native.Mathlib.Nat.{one-le-pow, le-mul_of_pos_right, mod-eq_of_lt}
use pascal_scheduler.Drivers.Mmc.Fields.{unstuff_bits}
use pascal_scheduler.Drivers.Mmc.Fields.Register.{number, unstuff_bits_lem}
use pascal_scheduler.Drivers.Mmc.Crc.Division.{AllBytes}
use pascal_scheduler.Drivers.Mmc.Decode.{
  swap_words, word_at, swapped, decode_blocks, decode_size, sd_decode_csd,
}

-- The number in bytes, the highest first.
abbrev pub big_endian : List ℕ → ℕ
big_endian [] = 0
big_endian (b ∷ bs) = b * 2 ^ (8 * length bs) + big_endian bs

-- The words of a register after the swaps hold the number that the card has sent, the highest byte first,
-- and a field of them is a field of this number. The bytes behind the sixteenth do not count.
pub unstuff_bits-swapped :
    (b0 b1 b2 b3 b4 b5 b6 b7 b8 b9 b10 b11 b12 b13 b14 b15 : ℕ) (rest : List ℕ) (start size : ℕ)
    → let raw =
        b0 ∷ b1 ∷ b2 ∷ b3 ∷ b4 ∷ b5 ∷ b6 ∷ b7 ∷ b8 ∷ b9 ∷ b10 ∷ b11 ∷ b12 ∷ b13 ∷ b14 ∷ b15 ∷ [] in
      AllBytes raw
      → start + size ≤ 128
      → size ≤ 32
      → 0 < size
      → unstuff_bits
          (swapped (
            b0 ∷ b1 ∷ b2 ∷ b3 ∷ b4 ∷ b5 ∷ b6 ∷ b7 ∷ b8 ∷ b9 ∷ b10 ∷ b11 ∷ b12 ∷ b13 ∷ b14 ∷ b15
            ∷ rest))
          start
          size
        ≡ big_endian raw / 2 ^ start % 2 ^ size
unfolding swapped word_at swap_words
unstuff_bits-swapped b0 b1 b2 b3 b4 b5 b6 b7 b8 b9 b10 b11 b12 b13 b14 b15 rest start size bytes
      inside small some_bits =
    unstuff_bits_lem w0 w1 w2 w3 start size
      (omega (arith, bytes), omega (arith, bytes), omega (arith, bytes), omega (arith, bytes))
      inside small some_bits
    ∙ ap (λ (n : ℕ). n / 2 ^ start % 2 ^ size) (omega arith)
  where
    w0 : ℕ
    w0 = b3 + b2 * 2 ^ 8 + b1 * 2 ^ 16 + b0 * 2 ^ 24

    w1 : ℕ
    w1 = b7 + b6 * 2 ^ 8 + b5 * 2 ^ 16 + b4 * 2 ^ 24

    w2 : ℕ
    w2 = b11 + b10 * 2 ^ 8 + b9 * 2 ^ 16 + b8 * 2 ^ 24

    w3 : ℕ
    w3 = b15 + b14 * 2 ^ 8 + b13 * 2 ^ 16 + b12 * 2 ^ 24

-- A field of the 128-bit register.
abbrev pub field : ℕ → ℕ → ℕ → ℕ
field n start size = n / 2 ^ start % 2 ^ size

-- The bytes of a card with the first layout of the register: (C_SIZE + 1) blocks of 2 ^ (C_SIZE_MULT + 2)
-- times 2 ^ READ_BL_LEN bytes.
abbrev pub capacity : ℕ → ℕ
capacity n = (field n 62 12 + 1) * 2 ^ (field n 47 3 + 2) * 2 ^ field n 80 4

-- What sd_decode_csd makes of the register `n`.
pub record Decoded (n : ℕ) (info : Info) (result : Verdict × Info) : Type 0 where
  pub read_block : result.1.read_block_size ≡ 2 ^ field n 80 4
  pub write_block : result.1.write_block_size ≡ 2 ^ field n 22 4
  pub verdict : result.0 ≡ (if leb 2 (field n 126 2) then mmc_error else mmc_ok)
  pub size : result.1.mem_size ≡ (
      if field n 126 2 == 0
      then capacity n / 2 ^ 20
      else (if field n 126 2 == 1 then field n 48 22 + 512 else info.mem_size))

size_in_mib :
    (c m k : ℕ)
    → c * m * k < 2 ^ 32
    → 0 < k
    → c * m % 2 ^ 32 * k % 2 ^ 32 / 1024 / 1024 ≡ c * m * k / 2 ^ 20
size_in_mib c m k h pos = rw (blocks, mod-eq_of_lt h) (omega arith)
  where
    blocks : c * m % 2 ^ 32 ≡ c * m
    blocks = omega (arith, h, le-mul_of_pos_right (c * m) pos)

module _ (words : List ℕ) (n : ℕ) (info : Info)
    (fields : (start size : ℕ)
      → start + size ≤ 128
      → size ≤ 32
      → 0 < size
      → unstuff_bits words start size ≡ field n start size)
    (small : capacity n < 2 ^ 32) where
  sd_decode_csd-by_fields : Decoded n info (sd_decode_csd words info)
  unfolding sd_decode_csd decode_blocks decode_size
  sd_decode_csd-by_fields =
      rw
        (
          fields 126 2 (omega arith) (omega arith) (omega arith),
          fields 80 4 (omega arith) (omega arith) (omega arith),
          fields 22 4 (omega arith) (omega arith) (omega arith),
          fields 62 12 (omega arith) (omega arith) (omega arith),
          fields 47 3 (omega arith) (omega arith) (omega arith),
          fields 48 22 (omega arith) (omega arith) (omega arith),
        )
        (record {
          read_block = ground arith;
          write_block = ground arith;
          verdict = ground arith;
          size = ground (
            arith,
            size_in_mib (field n 62 12 + 1) (2 ^ (field n 47 3 + 2)) (2 ^ field n 80 4) small
                (one-le-pow (field n 80 4) 2 (omega arith)),
          );
        })

-- If the fields of the first layout tell of fewer than 2 ^ 32 bytes, sd_decode_csd takes the block sizes from the
-- register, gives the capacity in MiB with the first layout, adds 512 to C_SIZE with the second one, and fails
-- with another.
pub sd_decode_csd_lem :
    (w0 w1 w2 w3 : ℕ) (info : Info)
    → (w0 < 2 ^ 32) × (w1 < 2 ^ 32) × (w2 < 2 ^ 32) × (w3 < 2 ^ 32)
    → capacity (number (w0 ∷ w1 ∷ w2 ∷ w3 ∷ [])) < 2 ^ 32
    → Decoded (number (w0 ∷ w1 ∷ w2 ∷ w3 ∷ [])) info (sd_decode_csd (w0 ∷ w1 ∷ w2 ∷ w3 ∷ []) info)
sd_decode_csd_lem w0 w1 w2 w3 info words small =
    sd_decode_csd-by_fields (w0 ∷ w1 ∷ w2 ∷ w3 ∷ []) (number (w0 ∷ w1 ∷ w2 ∷ w3 ∷ [])) info
      (λ (start size : ℕ) a b c. unstuff_bits_lem w0 w1 w2 w3 start size words a b c) small
