-- ===== src/Drivers/Mmc/Sector.antt =====
-- mmc_read_sector and mmc_write_sector.
pub mod Blocks
use pascal_scheduler.Prelude.{
  ℕ, ◌*◌, ◌%◌, ◌^◌, false, List, [], ◌∷◌, take, length, ltb, Option, none, some, ◌>>=◌, ◌==◌,
  if◌then◌else◌,
}
use pascal_scheduler.Drivers.Spi.Port.{Port}
use pascal_scheduler.Drivers.Mmc.{Verdict, mmc_ok, mmc_error, Info}
use pascal_scheduler.Drivers.Mmc.Commands.{mmc_send, mmc_send_cmd, mmc_cmd17, mmc_cmd24}
use pascal_scheduler.Drivers.Mmc.Replies.{mmc_spi_read_status, mmc_spi_wait_start_block, mmc_read}

-- How a read ends: with an error, or with the block that is in the buffer.
pub data Block : Type 0 where
  no_block : Block
  block : List ℕ → Block

module _ {S : Type 0} (port : Port S) (fuel : ℕ) where
  unfoldable pub read_block : ℕ → S → Verdict → Option (Block × S)
  read_block size s mmc_error = some (no_block, s)
  read_block size s mmc_ok = do (bytes, s1) ← mmc_read port fuel size s; some (block bytes, s1)

  unfoldable pub mmc_read_sector : Info → ℕ → S → Option (Block × S)
  mmc_read_sector info sector s = do
    s1 ← mmc_send_cmd port mmc_cmd17 (sector * info.read_block_size % 2 ^ 32) s
    (status, s2) ← mmc_spi_read_status port fuel s1
    if status == 0
        then (do
          (verdict, s3) ← mmc_spi_wait_start_block port fuel false s2
          read_block info.read_block_size s3 verdict)
        else some (no_block, s2)

  -- `mmc_send(buf, size)` with the bytes that the caller has put into the array. A send of more bytes reads what
  -- lies behind them, of which nothing is known: it has no result.
  unfoldable pub send_array : ℕ → List ℕ → S → Option S
  send_array size buf s = if ltb (length buf) size then none else mmc_send port (take size buf) s

  unfoldable pub mmc_write_sector : Info → List ℕ → ℕ → S → Option (Verdict × S)
  mmc_write_sector info buf sector s = do
    s1 ← mmc_send_cmd port mmc_cmd24 (sector * info.write_block_size % 2 ^ 32) s
    (status, s2) ← mmc_spi_read_status port fuel s1
    if status == 0
        then (do
          s3 ← mmc_send port (0xFF ∷ 0xFE ∷ []) s2
          s4 ← send_array info.write_block_size buf s3
          some (mmc_ok, s4))
        else some (mmc_error, s2)
