-- ===== src/Drivers/Mmc/Replies.antt =====
-- What the driver reads from the card. The loops take fuel: the card may never answer.
pub mod Stream
use pascal_scheduler.Prelude.{
  ℕ, zero, suc, ◌-◌, Bool, ◌&&◌, not, List, [], ◌∷◌, get_or, Option, none, some, ◌>>=◌, ◌==◌,
  if◌then◌else◌, bit_and,
}
use pascal_scheduler.Drivers.Spi.Port.{Port}
use pascal_scheduler.Drivers.Mmc.{Verdict, mmc_ok, mmc_error}

module _ {S : Type 0} (port : Port S) where
  unfoldable pub mmc_read_byte : S → Option (ℕ × S)
  mmc_read_byte s = do (bytes, s') ← port.receive 1 s; some (get_or bytes 0 0, s')

  -- The loop of mmc_spi_wait_unbusy and of mmc_spi_read_status: reads until a byte is not 0xFF.
  unfoldable pub skip_idle : ℕ → S → Option (ℕ × S)
  skip_idle zero s = none
  skip_idle (suc fuel) s = do
    (status, s') ← mmc_read_byte s
    let rest = skip_idle fuel s'
    if status == 0xFF then rest else some (status, s')

  unfoldable pub mmc_spi_wait_unbusy : ℕ → S → Option (ℕ × S)
  mmc_spi_wait_unbusy fuel s = skip_idle fuel s

  unfoldable pub mmc_spi_read_status : ℕ → S → Option (ℕ × S)
  mmc_spi_read_status fuel s = skip_idle fuel s

  unfoldable pub mmc_spi_wait_start_block : ℕ → Bool → S → Option (Verdict × S)
  mmc_spi_wait_start_block zero ignore_status s = none
  mmc_spi_wait_start_block (suc fuel) ignore_status s = do
    (status, s') ← mmc_read_byte s
    let rest = mmc_spi_wait_start_block fuel ignore_status s'
    if bit_and status 0xF0 == 0 && not ignore_status
        then some (mmc_error, s')
        else (if status == 0xFE then some (mmc_ok, s') else rest)

  -- The buffer that a read of `size` bytes fills.
  unfoldable pub mmc_read : ℕ → ℕ → S → Option (List ℕ × S)
  mmc_read fuel size s = do
    (first, s') ← mmc_spi_wait_unbusy fuel s
    (rest, s'') ← port.receive (size - 1) s'
    some (first ∷ rest, s'')
