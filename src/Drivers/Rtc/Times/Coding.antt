-- ===== src/Drivers/Rtc/Times/Coding.antt =====
-- The fields of the time in the registers of the clock.
use pascal_scheduler.Prelude.{ℕ, ◌+◌, ◌%◌, ◌<◌, ◌≡◌, ap, ◌∙◌, store, arith}
use pascal_scheduler.Drivers.Rtc.{bcd_decimal, decimal_bcd, pack, unpack}
use pascal_scheduler.Drivers.Rtc.Bcd.{bcd_decimal-decimal_bcd}

-- The six fields of a struct tm.
pub record Fields (memory : ℕ → ℕ) (tm sec min hour mday mon year : ℕ) : Type 0 where
  pub tm_sec : memory tm ≡ sec
  pub tm_min : memory (tm + 4) ≡ min
  pub tm_hour : memory (tm + 8) ≡ hour
  pub tm_mday : memory (tm + 12) ≡ mday
  pub tm_mon : memory (tm + 16) ≡ mon
  pub tm_year : memory (tm + 20) ≡ year

-- The registers that hold these fields.
pub record Coded (register : ℕ → ℕ) (sec min hour mday mon year : ℕ) : Type 0 where
  pub seconds : register 0 ≡ decimal_bcd sec % 256
  pub minutes : register 1 ≡ decimal_bcd min % 256
  pub hours : register 2 ≡ decimal_bcd hour % 256
  pub day : register 4 ≡ decimal_bcd mday % 256
  pub month : register 5 ≡ decimal_bcd mon % 256
  pub year_of_century : register 6 ≡ decimal_bcd year % 256

pub pack-Coded :
    (tm buf sec min hour mday mon year : ℕ) (memory : ℕ → ℕ)
    → Fields memory tm sec min hour mday mon year
    → Coded (λ i. pack tm buf memory (buf + 1 + i)) sec min hour mday mon year
unfolding pack store
pack-Coded tm buf sec min hour mday mon year memory f = record {
  seconds = ground (arith, f.tm_sec);
  minutes = ground (arith, f.tm_min);
  hours = ground (arith, f.tm_hour);
  day = ground (arith, f.tm_mday);
  month = ground (arith, f.tm_mon);
  year_of_century = ground (arith, f.tm_year);
}

pub pack-first : (tm buf : ℕ) (memory : ℕ → ℕ) → pack tm buf memory buf ≡ 0
unfolding pack store
pack-first tm buf memory = ground arith

-- The buffer holds bytes, if the one that is not set does.
pub pack-bytes :
    (tm buf : ℕ) (memory : ℕ → ℕ)
    → memory (buf + 4) < 256
    → (n : ℕ) → n < 8
    → pack tm buf memory (buf + n) < 256
unfolding pack store
pack-bytes tm buf memory h n small =
    let gap : n ≡ 4 → memory (buf + n) < 256 = λ (e : n ≡ 4). rw e h in ground (arith, gap, small)

pub unpack-Fields :
    (tm buf : ℕ) (memory : ℕ → ℕ)
    → Fields
        (unpack tm buf memory)
        tm
        (bcd_decimal (memory buf))
        (bcd_decimal (memory (buf + 1)))
        (bcd_decimal (memory (buf + 2)))
        (bcd_decimal (memory (buf + 4)))
        (bcd_decimal (memory (buf + 5)))
        (bcd_decimal (memory (buf + 6)))
unfolding unpack store
unpack-Fields tm buf memory = record {
  tm_sec = ground arith;
  tm_min = ground arith;
  tm_hour = ground arith;
  tm_mday = ground arith;
  tm_mon = ground arith;
  tm_year = ground arith;
}

-- A field that is below 100 is read modulo 80.
pub field_back : (v w r : ℕ) → r ≡ decimal_bcd v % 256 → w ≡ r → v < 100 → bcd_decimal w ≡ v % 80
field_back v w r e h small =
    ap bcd_decimal (omega (arith, e, h, (bcd_decimal-decimal_bcd v small).1))
    ∙ (bcd_decimal-decimal_bcd v small).0
