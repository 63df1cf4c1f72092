-- ===== src/Drivers/Mcu/Fields.antt =====
-- The bit fields that identify the microcontroller.
use pascal_scheduler.Prelude.{
  ℕ, ◌+◌, ◌*◌, ◌-◌, ◌/◌, ◌%◌, ◌^◌, ◌≤◌, ◌≡◌, refl, ap, ◌∙◌, bit_and, set, arith,
}
use pascal_scheduler.Prelude.Bits.{bit_and_mask, bit_and_field}
use pascal_scheduler.Prelude.Word.{sub32}
use native.Mathlib.Nat.{mul-div_left, one-le-pow, mod-mod}
use pascal_scheduler.Drivers.Mcu.{mcu_string, get_mcu_string, get_flash_size, get_ram_size}

-- A register field that is shifted to the bottom, and masked again.
field_lem :
    (k j a b : ℕ) → b + 1 ≡ 2 ^ j → bit_and (bit_and a (b * 2 ^ k) / 2 ^ k) b ≡ a / 2 ^ k % 2 ^ j
field_lem k j a b e =
    bit_and_mask j (bit_and a (b * 2 ^ k) / 2 ^ k) b e
    ∙ ap (λ (t : ℕ). t / 2 ^ k % 2 ^ j) (bit_and_field k j a b e)
    ∙ ap (λ (t : ℕ). t % 2 ^ j) (mul-div_left (a / 2 ^ k % 2 ^ j) (one-le-pow k 2 (omega arith)))
    ∙ mod-mod (a / 2 ^ k) (2 ^ j)

-- If the register counts a flash sector at all, the size of the flash is 4 KB for each of its sectors but the
-- first; the RAM is 256 bytes for each block, and the digit of the version is always '0', whatever the register
-- holds.
pub get_mcu_string_lem :
    (dbgromid flsize ram0size : ℕ)
    → 1 ≤ flsize / 2 ^ 12 % 64
    → (get_mcu_string dbgromid ≡ set mcu_string 25 48)
      × (get_flash_size flsize ≡ (flsize / 2 ^ 12 % 64 - 1) * 4)
      × (get_ram_size ram0size ≡ ram0size / 2 ^ 8 % 32 * 256)
unfolding get_mcu_string get_flash_size get_ram_size
get_mcu_string_lem dbgromid flsize ram0size h = (
  ap (λ (d : ℕ). set mcu_string 25 (48 + d)) no_digit,
  (ap (λ (t : ℕ). sub32 t 1 * 4 % 2 ^ 32) (field_lem 12 6 flsize 63 refl)
      ∙ unfold sub32 in omega (arith, h)),
  ap (λ (t : ℕ). t * 256) (field_lem 8 5 ram0size 31 refl),
)
  where
    upper : dbgromid / 2 ^ 28 % 2 ^ 4 * 2 ^ 28 / 2 ^ 24 % 2 ^ 4 ≡ 0
    upper = omega arith

    no_digit : bit_and (bit_and dbgromid 0xF0000000 / 2 ^ 24) 0xF ≡ 0
    no_digit =
        bit_and_mask 4 (bit_and dbgromid 0xF0000000 / 2 ^ 24) 0xF refl
        ∙ ap (λ (t : ℕ). t / 2 ^ 24 % 2 ^ 4) (bit_and_field 28 4 dbgromid 15 refl)
        ∙ upper
