-- ===== src/Drivers/Mmc/Decode.antt =====
-- swap_words, and the decoding of the CSD and CID registers.
pub mod Registers
use pascal_scheduler.Prelude.{
  ℕ, ◌+◌, ◌-◌, ◌*◌, ◌/◌, ◌%◌, ◌^◌, List, [], ◌∷◌, ◌++◌, drop, take, cells, get_or, store_all, not,
  Option, some, ◌>>=◌, ◌==◌, if◌then◌else◌, true,
}
use pascal_scheduler.Drivers.Spi.Port.{Port}
use pascal_scheduler.Libc.Strings.{strncpy}
use pascal_scheduler.Drivers.Mmc.{Verdict, mmc_ok, mmc_error, Info, Csd, Cid, Message, sd_option}
use pascal_scheduler.Drivers.Mmc.Fields.{unstuff_bits}
use pascal_scheduler.Drivers.Mmc.Crc.{mmc_crc7}
use pascal_scheduler.Drivers.Mmc.Commands.{mmc_send_cmd, mmc_cmd09, mmc_cmd10}
use pascal_scheduler.Drivers.Mmc.Replies.{mmc_spi_wait_start_block, mmc_read}

-- The two swaps of bytes. The array has four elements at least.
unfoldable pub swap_words : List ℕ → List ℕ
swap_words (b0 ∷ b1 ∷ b2 ∷ b3 ∷ rest) = b3 ∷ b2 ∷ b1 ∷ b0 ∷ rest
swap_words other = other

-- A uint32_t of the little-endian processor at the first four bytes.
unfoldable pub word_at : List ℕ → ℕ
word_at bytes =
    get_or bytes 0 0
    + get_or bytes 1 0 * 2 ^ 8
    + get_or bytes 2 0 * 2 ^ 16
    + get_or bytes 3 0 * 2 ^ 24

-- The four words of the buffer after the loop over swap_words.
unfoldable pub swapped : List ℕ → List ℕ
swapped buf =
    word_at (swap_words buf)
    ∷ word_at (swap_words (drop 4 buf))
    ∷ word_at (swap_words (drop 8 buf))
    ∷ word_at (swap_words (drop 12 buf))
    ∷ []

-- The fields that both decoders read first.
unfoldable pub decode_blocks : List ℕ → Info → Info
decode_blocks buf info = record info {
  csd = record info.csd {
    c_structure = unstuff_bits buf 126 2;
    read_bl_len = unstuff_bits buf 80 4;
    write_bl_len = unstuff_bits buf 22 4;
  };
  read_block_size = 2 ^ unstuff_bits buf 80 4;
  write_block_size = 2 ^ unstuff_bits buf 22 4;
}

-- The size of a card by c_size, c_mult and the block size, in MiB, as all decoders compute it.
unfoldable pub decode_size : List ℕ → Info → Info
decode_size buf info =
    let c_size = unstuff_bits buf 62 12 in
    let c_mult = unstuff_bits buf 47 3 in
    let mult = 2 ^ (c_mult + 2) in
    let blocknr = (c_size + 1) * mult % 2 ^ 32 in
    record info {
      csd = record info.csd { c_size = c_size; c_mult = c_mult };
      mem_size = blocknr * info.read_block_size % 2 ^ 32 / 1024 / 1024;
    }

unfoldable pub sd_decode_csd : List ℕ → Info → Verdict × Info
sd_decode_csd buf info =
    let info' = decode_blocks buf info in
    if info'.csd.c_structure == 0
    then (mmc_ok, decode_size buf info')
    else if info'.csd.c_structure == 1
    then (
      mmc_ok,
      record info' {
        csd = record info'.csd { c_size = unstuff_bits buf 48 22 };
        mem_size = unstuff_bits buf 48 22 + 1 * 512;
      },
    )
    else (mmc_error, info')

unfoldable pub mmc_decode_csd : List ℕ → Info → Verdict × Info
mmc_decode_csd buf info = (mmc_ok, decode_size buf (decode_blocks buf info))

-- strncpy between two arrays, and the terminating zero.
unfoldable pub copied : ℕ → List ℕ → List ℕ
copied num source = cells num (strncpy 0 100 num (store_all source 100 (λ a. 0))) 0 ++ (0 ∷ [])

unfoldable pub decode_cid : List ℕ → Info → Info
decode_cid raw info =
    let buf = swapped raw in
    record info {
      cid = record {
        oid = copied 2 (drop 1 raw);
        pnm = copied 5 (drop 3 raw);
        mid = unstuff_bits buf 120 8;
        prv = unstuff_bits buf 56 8;
        psn = unstuff_bits buf 24 32;
        mdt_year = unstuff_bits buf 12 8 + 2000;
        mdt_month = unstuff_bits buf 8 4;
        crc7 = unstuff_bits buf 1 7;
      };
    }

module _ {S : Type 0} (port : Port S) (print : Message → S → Option S) (fuel : ℕ) where
  -- What mmc_read_csd and mmc_read_cid do first: the command, and the 18 bytes of the register.
  unfoldable pub read_register : ℕ → S → Option (List ℕ × S)
  read_register cmd s = do
    s' ← mmc_send_cmd port cmd 0 s
    (verdict, s'') ← mmc_spi_wait_start_block port fuel true s'
    mmc_read port fuel 18 s''

  unfoldable pub mmc_read_csd : Info → S → Option (Verdict × Info × S)
  mmc_read_csd info s = do
    (raw, s') ← read_register mmc_cmd09 s
    if not (mmc_crc7 (take 15 raw) == get_or raw 15 0)
        then some (mmc_error, info, s')
        else if unstuff_bits (swapped raw) 122 4 == 0
        then (do
          s'' ← print sd_option s'
          some ((sd_decode_csd (swapped raw) info).0, (sd_decode_csd (swapped raw) info).1, s''))
        else some ((mmc_decode_csd (swapped raw) info).0, (mmc_decode_csd (swapped raw) info).1, s')

  unfoldable pub mmc_read_cid : Info → S → Option (Verdict × Info × S)
  mmc_read_cid info s = do
    (raw, s') ← read_register mmc_cmd10 s
    if not (mmc_crc7 (take 15 raw) == get_or raw 15 0)
        then some (mmc_error, info, s')
        else some (mmc_ok, decode_cid raw info, s')
