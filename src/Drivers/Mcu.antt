-- ===== src/Drivers/Mcu.antt =====
-- dev/mcu/xmc.c, on the words that SCU_GENERAL->DBGROMID, PAU->FLSIZE and PAU->RAM0SIZE hold.
pub mod Fields
use pascal_scheduler.Prelude.{ℕ, ◌+◌, ◌*◌, ◌/◌, ◌%◌, ◌^◌, List, [], ◌∷◌, bit_and, set}
use pascal_scheduler.Prelude.Word.{sub32}

-- mcu_string: "Infineon XMC1100 version x"
abbrev pub mcu_string : List ℕ
mcu_string =
    73 ∷ 110 ∷ 102 ∷ 105 ∷ 110 ∷ 101 ∷ 111 ∷ 110 ∷ 32 ∷ 88 ∷ 77 ∷ 67 ∷ 49 ∷ 49 ∷ 48 ∷ 48 ∷ 32 ∷ 118
    ∷ 101 ∷ 114 ∷ 115 ∷ 105 ∷ 111 ∷ 110 ∷ 32 ∷ 120 ∷ []

unfoldable pub get_mcu_string : ℕ → List ℕ
get_mcu_string dbgromid =
    set mcu_string 25 (48 + bit_and (bit_and dbgromid 0xF0000000 / 2 ^ 24) 0xF)

-- An int, as a 32-bit pattern.
unfoldable pub get_flash_size : ℕ → ℕ
get_flash_size flsize = sub32 (bit_and (bit_and flsize 0x3F000 / 2 ^ 12) 0x3F) 1 * 4 % 2 ^ 32

unfoldable pub get_ram_size : ℕ → ℕ
get_ram_size ram0size = bit_and (bit_and ram0size 0x1F00 / 2 ^ 8) 0x1F * 256
