-- ===== src/Drivers/Mmc/Crc.antt =====
-- mmc_crc7.
pub mod Division
use pascal_scheduler.Prelude.{
  ℕ, zero, suc, ◌+◌, ◌*◌, ◌%◌, List, [], ◌∷◌, if◌then◌else◌, bit_and, bit_or, bit_xor,
}
use pascal_scheduler.Prelude.Word.{has_flag}

-- One round of the inner loop on `crc`; both variables are uint8_t.
unfoldable pub crc_bit : ℕ → ℕ → ℕ
crc_bit crc c =
    let crc' = crc * 2 % 256 in if has_flag (bit_xor c crc') 0x80 then bit_xor crc' 0x09 else crc'

-- The inner loop, with that many rounds left.
unfoldable pub crc_bits : ℕ → ℕ → ℕ → ℕ
crc_bits zero crc c = crc
crc_bits (suc rounds) crc c = crc_bits rounds (crc_bit crc c) (c * 2 % 256)

unfoldable pub crc_bytes : List ℕ → ℕ → ℕ
crc_bytes [] crc = crc
crc_bytes (c ∷ cs) crc = crc_bytes cs (bit_and (crc_bits 8 crc c) 0x7F)

unfoldable pub mmc_crc7 : List ℕ → ℕ
mmc_crc7 bytes = bit_or (crc_bytes bytes 0 * 2 % 256) 0x1
