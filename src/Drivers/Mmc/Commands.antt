-- ===== src/Drivers/Mmc/Commands.antt =====
-- The commands that the driver sends.
pub mod Frame
use pascal_scheduler.Prelude.{ℕ, ◌/◌, ◌%◌, ◌^◌, List, [], ◌∷◌, ◌++◌, Option, ◌>>=◌}
use pascal_scheduler.Drivers.Spi.Port.{Port}
use pascal_scheduler.Drivers.Mmc.Crc.{mmc_crc7}

-- `enum mmc_cmd`
abbrev pub mmc_cmd01 : ℕ
mmc_cmd01 = 0x41

abbrev pub mmc_cmd08 : ℕ
mmc_cmd08 = 0x48

abbrev pub mmc_cmd09 : ℕ
mmc_cmd09 = 0x49

abbrev pub mmc_cmd10 : ℕ
mmc_cmd10 = 0x4a

abbrev pub mmc_cmd17 : ℕ
mmc_cmd17 = 0x51

abbrev pub mmc_cmd24 : ℕ
mmc_cmd24 = 0x58

abbrev pub mmc_cmd41 : ℕ
mmc_cmd41 = 0x69

abbrev pub mmc_cmd58 : ℕ
mmc_cmd58 = 0x7a

-- The command and the four bytes of the argument.
unfoldable pub command : ℕ → ℕ → List ℕ
command cmd arg = cmd ∷ arg / 2 ^ 24 % 256 ∷ arg / 2 ^ 16 % 256 ∷ arg / 2 ^ 8 % 256 ∷ arg % 256 ∷ []

unfoldable pub with_crc : List ℕ → List ℕ
with_crc body = body ++ (mmc_crc7 body ∷ [])

module _ {S : Type 0} (port : Port S) where
  unfoldable pub mmc_send : List ℕ → S → Option S
  mmc_send bytes s = port.send bytes s

  unfoldable pub mmc_send_cmd : ℕ → ℕ → S → Option S
  mmc_send_cmd cmd arg s = mmc_send (0xFF ∷ with_crc (command cmd arg)) s

  unfoldable pub mmc_send_acmd : ℕ → ℕ → S → Option S
  mmc_send_acmd cmd arg s = do
    s' ← mmc_send (0xFF ∷ 0x77 ∷ 0 ∷ 0 ∷ 0 ∷ 0 ∷ 0x01 ∷ []) s
    s'' ← mmc_send (0xFF ∷ 0xFF ∷ 0xFF ∷ 0xFF ∷ []) s'
    mmc_send (with_crc (command cmd arg)) s''
