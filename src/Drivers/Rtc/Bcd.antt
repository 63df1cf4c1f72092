-- ===== src/Drivers/Rtc/Bcd.antt =====
-- The binary coded decimals of the clock's registers.
use pascal_scheduler.Prelude.{ℕ, ◌%◌, ◌<◌, ◌≡◌, refl, Bool, true, ◌&&◌, ◌==◌, ltb, arith}
use pascal_scheduler.Prelude.Tables.{all_below, all_below-holds}
use pascal_scheduler.Drivers.Rtc.{bcd_decimal, decimal_bcd}

-- The round trip and the size of the code, tested below a bound.
both_ok : ℕ → Bool
both_ok v = (bcd_decimal (decimal_bcd v) == v % 80) && ltb (decimal_bcd v) 256

below_100 : all_below 100 both_ok ≡ true
unfolding all_below both_ok bcd_decimal decimal_bcd
below_100 = refl

-- A number of at most two digits is coded in a byte, and comes back from its code modulo 80: up to 79 the
-- round trip is exact, and from 80 on 80 is lost.
pub bcd_decimal-decimal_bcd :
    (v : ℕ) → v < 100 → (bcd_decimal (decimal_bcd v) ≡ v % 80) × (decimal_bcd v < 256)
unfolding both_ok
bcd_decimal-decimal_bcd v h = ground (arith, all_below-holds 100 both_ok v below_100 h)
