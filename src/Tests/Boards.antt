-- ===== src/Tests/Boards.antt =====
-- The bytes for a display, and the identification registers.
use pascal_scheduler.Prelude.{
  ℕ, ◌+◌, ◌*◌, ◌-◌, ◌/◌, ◌%◌, ◌^◌, ◌≡◌, refl, true, List, [], ◌∷◌, set, arith,
}
use pascal_scheduler.Main.{unlock, uart_task, next_place, place_after}
use pascal_scheduler.Main.Brackets.{call_at, holds, held_after}
use pascal_scheduler.Drivers.Lcd.{left_out, hd44780_4_bits_ops, hd44780_send_8, send_all}
use pascal_scheduler.Drivers.Lcd.Words.{words, latched, received}
use pascal_scheduler.Drivers.Lcd.Sends.{codes, send_all-received, hd44780_send_8_lem}
use pascal_scheduler.Drivers.Mcu.{mcu_string, get_mcu_string, get_flash_size, get_ram_size}
use pascal_scheduler.Drivers.Mcu.Fields.{get_mcu_string_lem}

abbrev letters : List (ℕ × ℕ)
letters = (0x48, 1) ∷ (0x0A, 1) ∷ (0x28, 0) ∷ []

send_all-received_example : words (latched 0 (codes (send_all letters))) ≡ received letters
send_all-received_example =
    send_all-received letters
      ((omega arith, omega arith), ((omega arith, omega arith), ((omega arith, omega arith), tt)))

-- The line feed is left out.
shown : received letters ≡ 0x148 ∷ 0x28 ∷ []
unfolding received left_out
shown = refl

hd44780_send_8_lem_example :
    latched 0 (codes (hd44780_send_8 hd44780_4_bits_ops 0))
    ≡ (0 * 16 + hd44780_4_bits_ops % 16) ∷ []
hd44780_send_8_lem_example = hd44780_send_8_lem hd44780_4_bits_ops 0 (omega arith) (omega arith)

get_mcu_string_lem_example :
    (get_mcu_string 0x101ED083 ≡ set mcu_string 25 48)
    × (get_flash_size 0x11000 ≡ (0x11000 / 2 ^ 12 % 64 - 1) * 4)
    × (get_ram_size 0x1000 ≡ 0x1000 / 2 ^ 8 % 32 * 256)
get_mcu_string_lem_example = get_mcu_string_lem 0x101ED083 0x11000 0x1000 (omega arith)

-- The eleventh step of uart_task unlocks the mutex that it holds.
eleventh : (call_at uart_task 10 ≡ unlock) × (holds uart_task 10 ≡ true)
unfolding call_at holds place_after next_place held_after
eleventh = (refl, refl)
