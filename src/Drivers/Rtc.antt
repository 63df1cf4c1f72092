-- ===== src/Drivers/Rtc.antt =====
-- dev/rtc/ds1307.c: the clock on the I2C bus.
pub mod Bcd
pub mod Times
pub mod Ds1307
pub mod Wired
use pascal_scheduler.Prelude.{
  ℕ, ◌+◌, ◌*◌, ◌/◌, ◌%◌, Option, some, ◌>>=◌, store, ◌==◌, if◌then◌else◌, bit_and, bit_or, List, [],
  ◌∷◌,
}
use pascal_scheduler.Dev.{Vnode, Uio, Machine, DevOps, dev_ioctl, dev_write, dev_read}
use pascal_scheduler.Drivers.I2c.{set_peer}

-- _BCD_decimal and _decimal_BCD, for values that are not negative.
unfoldable pub bcd_decimal : ℕ → ℕ
bcd_decimal v = bit_and v 15 + 10 * (bit_and v 112 / 16)

unfoldable pub decimal_bcd : ℕ → ℕ
decimal_bcd v = bit_or (bit_and (v % 10) 15) (bit_and (v / 10) 15 * 16)

-- RTC_IOCTL_SET_TIME and RTC_IOCTL_GET_TIME.
abbrev pub set_time : ℕ
set_time = 0

abbrev pub get_time : ℕ
get_time = 1

-- The fields of the struct at `tm` are cells: tm_sec at tm, tm_min at tm + 4, then tm_hour, tm_mday, tm_mon
-- and tm_year. The buffer leaves the day of the week, at `buf + 4`, as it was on the stack.
unfoldable pub pack : ℕ → ℕ → (ℕ → ℕ) → ℕ → ℕ
pack tm buf memory = store (buf + 7) (decimal_bcd (memory (tm + 20)) % 256) (
    store (buf + 6) (decimal_bcd (memory (tm + 16)) % 256) (
      store (buf + 5) (decimal_bcd (memory (tm + 12)) % 256) (
        store (buf + 3) (decimal_bcd (memory (tm + 8)) % 256) (
          store (buf + 2) (decimal_bcd (memory (tm + 4)) % 256)
            (store (buf + 1) (decimal_bcd (memory tm) % 256) (store buf 0 memory))))))

unfoldable pub unpack : ℕ → ℕ → (ℕ → ℕ) → ℕ → ℕ
unpack tm buf memory = store (tm + 20) (bcd_decimal (memory (buf + 6))) (
    store (tm + 16) (bcd_decimal (memory (buf + 5))) (
      store (tm + 12) (bcd_decimal (memory (buf + 4))) (
        store (tm + 8) (bcd_decimal (memory (buf + 2))) (
          store (tm + 4) (bcd_decimal (memory (buf + 1)))
            (store tm (bcd_decimal (memory buf)) memory)))))

module _ {H : Type 0} (devices : ℕ → DevOps H) (fuel rtc_addr buf : ℕ) where
  -- The `switch` on the code.
  unfoldable pub serve : ℕ → ℕ → Vnode → Machine H → Option (ℕ × Vnode × Machine H)
  serve code tm node m =
      if code == set_time
      then (do
        (n, node', m') ← dev_write devices buf 8 node (record m { memory = pack tm buf m.memory })
        some (0, node', m'))
      else if code == get_time
      then (do
        (n, node', m') ← dev_write devices buf 1 node (record m { memory = store buf 0 m.memory })
        (n', node'', m'') ← dev_read devices fuel buf 7 node' m'
        some (0, node'', record m'' { memory = unpack tm buf m''.memory }))
      else some (0, node, m)

  -- `node` is the global i2c_node, and `rtc_addr` and `buf` are the addresses of the locals of that name.
  -- The answer is 0 for any code.
  unfoldable pub ds1307_rtc_ioctl : ℕ → ℕ → Vnode → Machine H → Option (ℕ × Vnode × Machine H)
  ds1307_rtc_ioctl code tm node m = do
    (r, node', m') ←
        dev_ioctl devices node set_peer rtc_addr (record m { memory = store rtc_addr 208 m.memory })
    serve code tm node' m'

-- ds1307_rtc_open and ds1307_rtc_close, and ds1307_rtc_read and ds1307_rtc_write: they do nothing.
unfoldable pub ds1307_rtc_open : {H : Type 0} → Vnode → Machine H → Option (ℕ × Vnode × Machine H)
ds1307_rtc_open vnode m = some (0, vnode, m)

unfoldable pub ds1307_rtc_transfer :
    {H : Type 0} → Vnode → Uio → Machine H → Option (ℕ × Vnode × Uio × Machine H)
ds1307_rtc_transfer vnode uio m = some (0, vnode, uio, m)
