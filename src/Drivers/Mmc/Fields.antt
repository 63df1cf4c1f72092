-- ===== src/Drivers/Mmc/Fields.antt =====
-- UNSTUFF_BITS: a bit field of a 128-bit register in four 32-bit words, the highest first.
pub mod Register
use pascal_scheduler.Prelude.{
  ℕ, ◌+◌, ◌-◌, ◌/◌, ◌%◌, ◌*◌, ◌^◌, List, get_or, ltb, if◌then◌else◌, bit_or, bit_and,
}

-- `__mask`. With the size 32 the subtraction wraps round.
unfoldable pub mask : ℕ → ℕ
mask size = ((if ltb size 32 then 2 ^ size else 0) + (2 ^ 32 - 1)) % 2 ^ 32

-- `__res` before the mask.
unfoldable pub shifted : List ℕ → ℕ → ℕ → ℕ
shifted resp start size =
    let off = 3 - start / 32 in
    let shft = start % 32 in
    let res = get_or resp off 0 / 2 ^ shft in
    if ltb 32 (size + shft)
    then bit_or res (get_or resp (off - 1) 0 * 2 ^ ((32 - shft) % 32) % 2 ^ 32)
    else res

unfoldable pub unstuff_bits : List ℕ → ℕ → ℕ → ℕ
unstuff_bits resp start size = bit_and (shifted resp start size) (mask size)
