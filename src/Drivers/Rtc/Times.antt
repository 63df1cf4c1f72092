-- ===== src/Drivers/Rtc/Times.antt =====
-- Setting the clock, and getting the time.
pub mod Coding
use pascal_scheduler.Prelude.{
  ℕ, ◌+◌, ◌%◌, ◌^◌, ◌<◌, ◌≤◌, ◌≡◌, ◌≢◌, ◌⊎◌, refl, ap, ◌∙◌, Option, some, ◌>>=◌, store, ◌==◌,
  if◌then◌else◌, arith,
}
use pascal_scheduler.Dev.{Vnode, Machine, DevOps, dev_i2c, dev_ioctl, dev_write, dev_read}
use pascal_scheduler.Drivers.I2c.{set_peer}
use pascal_scheduler.Drivers.Rtc.{
  bcd_decimal, decimal_bcd, set_time, get_time, pack, unpack, serve, ds1307_rtc_ioctl,
}
use pascal_scheduler.Drivers.Rtc.Bcd.{bcd_decimal-decimal_bcd}
pub use pascal_scheduler.Drivers.Rtc.Times.Coding.{Fields}
use pascal_scheduler.Drivers.Rtc.Times.Coding.{
  Coded, pack-Coded, pack-first, pack-bytes, unpack-Fields, field_back,
}

-- A transfer has ended, with the memory as it was.
pub record Ended {H : Type 0} (v : Vnode) (m : Machine H) (count : ℕ)
    (result : Option (ℕ × Vnode × Machine H)) : Type 0 where
  pub after : H
  pub returns : result ≡ some (count, v, record m { hardware = after })

-- The node of the bus behind I2C_IOCTL_SET_PEER with the address of the clock.
abbrev pub selected : Vnode → Vnode
selected v = record v { endpt = 208 }

-- The clock on the I2C bus: what its driver relies on. `register` is what the registers hold, which the clock keeps
-- as long as no time passes, and `pointer` is the one at which a read begins.
pub record Chip {H : Type 0} (devices : ℕ → DevOps H) (fuel : ℕ) (register : H → ℕ → ℕ)
    (pointer : H → ℕ) : Type 0 where
  pub selects :
      (v : Vnode) (p : ℕ) (m : Machine H)
      → v.dev_id ≡ dev_i2c
      → m.memory p ≡ 208
      → dev_ioctl devices v set_peer p m ≡ some (0, selected v, m)
  -- The first byte of a write is the number of a register, and the others go to the registers from there on.
  pub sets :
      (v : Vnode) (p : ℕ) (m : Machine H)
      → v.dev_id ≡ dev_i2c
      → Ended (selected v) m 8 (dev_write devices p 8 (selected v) m)
  pub set_registers :
      (v : Vnode) (p : ℕ) (m : Machine H) (i : ℕ) (e : v.dev_id ≡ dev_i2c)
      → m.memory p ≡ 0
      → ((n : ℕ) → n < 8 → m.memory (p + n) < 256)
      → i < 7
      → register (sets v p m e).after i ≡ m.memory (p + 1 + i)
  pub points :
      (v : Vnode) (p : ℕ) (m : Machine H)
      → v.dev_id ≡ dev_i2c
      → Ended (selected v) m 1 (dev_write devices p 1 (selected v) m)
  pub keeps :
      (v : Vnode) (p : ℕ) (m : Machine H) (i : ℕ) (e : v.dev_id ≡ dev_i2c)
      → m.memory p ≡ 0
      → register (points v p m e).after i ≡ register m.hardware i
  pub pointed :
      (v : Vnode) (p : ℕ) (m : Machine H) (e : v.dev_id ≡ dev_i2c)
      → m.memory p ≡ 0
      → pointer (points v p m e).after ≡ 0
  -- A read fetches the registers from the pointer on.
  pub fetched : Vnode → ℕ → Machine H → Machine H
  pub gets :
      (v : Vnode) (p : ℕ) (m : Machine H)
      → v.dev_id ≡ dev_i2c
      → dev_read devices fuel p 7 (selected v) m ≡ some (7, selected v, fetched v p m)
  pub get_registers :
      (v : Vnode) (p : ℕ) (m : Machine H) (i : ℕ)
      → p < 2 ^ 32
      → pointer m.hardware ≡ 0
      → i < 7
      → (fetched v p m).memory (p + i) ≡ register m.hardware i

-- The call has ended with the time in the struct at `tm`.
pub record Told {H : Type 0} (tm sec min hour mday mon year : ℕ)
    (result : Option (ℕ × Vnode × Machine H)) : Type 0 where
  pub node : Vnode
  pub after : Machine H
  pub returns : result ≡ some (0, node, after)
  pub fields : Fields after.memory tm sec min hour mday mon year

module _ {H : Type 0} (devices : ℕ → DevOps H) (fuel rtc_addr buf : ℕ) (register : H → ℕ → ℕ)
    (pointer : H → ℕ) (chip : Chip devices fuel register pointer) where
  record WasSet (sec min hour mday mon year : ℕ) (v : Vnode)
      (result : Option (ℕ × Vnode × Machine H)) : Type 0 where
    after : Machine H
    returns : result ≡ some (0, selected v, after)
    coded : Coded (register after.hardware) sec min hour mday mon year

  -- The machine behind the store of the address.
  abbrev addressed : Machine H → Machine H
  addressed m = record m { memory = store rtc_addr 208 m.memory }

  selected_first :
      (v : Vnode) (m : Machine H)
      → v.dev_id ≡ dev_i2c
      → dev_ioctl devices v set_peer rtc_addr (addressed m) ≡ some (0, selected v, addressed m)
  selected_first v m e = chip.selects v rtc_addr (addressed m) e (unfold store in ground arith)

  ioctl-set_time :
      (tm sec min hour mday mon year : ℕ) (v : Vnode) (m : Machine H)
      → v.dev_id ≡ dev_i2c
      → m.memory (buf + 4) < 256
      → (rtc_addr < tm) ⊎ (tm + 20 < rtc_addr)
      → Fields m.memory tm sec min hour mday mon year
      → WasSet sec min hour mday mon year v
          (ds1307_rtc_ioctl devices fuel rtc_addr buf set_time tm v m)
  unfolding ds1307_rtc_ioctl serve
  ioctl-set_time tm sec min hour mday mon year v m e unset apart f =
      let w = chip.sets v buf packed e in
      record {
        after = record packed { hardware = w.after };
        returns = rw (selected_first v m e, w.returns) refl;
        coded = record {
          seconds = reg 0 (omega arith) ∙ c.seconds;
          minutes = reg 1 (omega arith) ∙ c.minutes;
          hours = reg 2 (omega arith) ∙ c.hours;
          day = reg 4 (omega arith) ∙ c.day;
          month = reg 5 (omega arith) ∙ c.month;
          year_of_century = reg 6 (omega arith) ∙ c.year_of_century;
        };
      }
    where
      same : Fields (store rtc_addr 208 m.memory) tm sec min hour mday mon year
      same =
          unfold store in
          record {
            tm_sec = ground (arith, apart, f.tm_sec);
            tm_min = ground (arith, apart, f.tm_min);
            tm_hour = ground (arith, apart, f.tm_hour);
            tm_mday = ground (arith, apart, f.tm_mday);
            tm_mon = ground (arith, apart, f.tm_mon);
            tm_year = ground (arith, apart, f.tm_year);
          }

      packed : Machine H
      packed = record m { memory = pack tm buf (store rtc_addr 208 m.memory) }

      c :
          Coded
            (λ i. pack tm buf (store rtc_addr 208 m.memory) (buf + 1 + i))
            sec
            min
            hour
            mday
            mon
            year
      c = pack-Coded tm buf sec min hour mday mon year (store rtc_addr 208 m.memory) same

      reg :
          (i : ℕ)
          → i < 7
          → register (chip.sets v buf packed e).after i ≡ packed.memory (buf + 1 + i)
      reg i h =
          chip.set_registers v buf packed i e (pack-first tm buf (store rtc_addr 208 m.memory))
            (pack-bytes tm buf (store rtc_addr 208 m.memory)
              (unfold store in ground (arith, unset)))
            h

  ioctl-get_time :
      (tm sec min hour mday mon year : ℕ) (v : Vnode) (m : Machine H)
      → buf < 2 ^ 32
      → (sec < 100) × (min < 100) × (hour < 100) × (mday < 100) × (mon < 100) × (year < 100)
      → v.dev_id ≡ dev_i2c
      → Coded (register m.hardware) sec min hour mday mon year
      → Told tm
          (sec % 80)
          (min % 80)
          (hour % 80)
          (mday % 80)
          (mon % 80)
          (year % 80)
          (ds1307_rtc_ioctl devices fuel rtc_addr buf get_time tm v m)
  unfolding ds1307_rtc_ioctl serve
  ioctl-get_time tm sec min hour mday mon year v m word (h0, h1, h2, h3, h4, h5) e coded = record {
    node = selected v;
    after = record got { memory = unpack tm buf got.memory };
    returns = rw (selected_first v m e, p.returns, chip.gets v buf asked e) refl;
    fields = record {
      tm_sec =
          u.tm_sec
          ∙ field_back sec (got.memory buf) (register m.hardware 0) coded.seconds
              (ap got.memory {x = buf} {y = buf + 0} (omega arith) ∙ reg 0 (omega arith)) h0;
      tm_min =
          u.tm_min
          ∙ field_back min (got.memory (buf + 1)) (register m.hardware 1) coded.minutes
              (reg 1 (omega arith)) h1;
      tm_hour =
          u.tm_hour
          ∙ field_back hour (got.memory (buf + 2)) (register m.hardware 2) coded.hours
              (reg 2 (omega arith)) h2;
      tm_mday =
          u.tm_mday
          ∙ field_back mday (got.memory (buf + 4)) (register m.hardware 4) coded.day
              (reg 4 (omega arith)) h3;
      tm_mon =
          u.tm_mon
          ∙ field_back mon (got.memory (buf + 5)) (register m.hardware 5) coded.month
              (reg 5 (omega arith)) h4;
      tm_year =
          u.tm_year
          ∙ field_back year (got.memory (buf + 6)) (register m.hardware 6) coded.year_of_century
              (reg 6 (omega arith)) h5;
    };
  }
    where
      zeroed : Machine H
      zeroed = record m { memory = store buf 0 (store rtc_addr 208 m.memory) }

      p : Ended (selected v) zeroed 1 (dev_write devices buf 1 (selected v) zeroed)
      p = chip.points v buf zeroed e

      asked : Machine H
      asked = record zeroed { hardware = (chip.points v buf zeroed e).after }

      got : Machine H
      got = chip.fetched v buf asked

      u :
          Fields
            (unpack tm buf got.memory)
            tm
            (bcd_decimal (got.memory buf))
            (bcd_decimal (got.memory (buf + 1)))
            (bcd_decimal (got.memory (buf + 2)))
            (bcd_decimal (got.memory (buf + 4)))
            (bcd_decimal (got.memory (buf + 5)))
            (bcd_decimal (got.memory (buf + 6)))
      u = unpack-Fields tm buf got.memory

      reg : (i : ℕ) → i < 7 → got.memory (buf + i) ≡ register m.hardware i
      reg i h =
          chip.get_registers v buf asked i word
            (chip.pointed v buf zeroed e (unfold store in ground arith)) h
          ∙ chip.keeps v buf zeroed i e (unfold store in ground arith)

  -- On a clock that keeps what is set, RTC_IOCTL_SET_TIME with six fields below 100, and then RTC_IOCTL_GET_TIME,
  -- end and return 0, and each field that is told is the one that was set, modulo 80. (The struct does not hold the
  -- local variable rtc_addr, and the byte of the buffer that the driver leaves unset is a byte.)
  pub ioctl-set_time-get_time :
      (tm told sec min hour mday mon year : ℕ) (v : Vnode) (m : Machine H)
      → v.dev_id ≡ dev_i2c
      → m.memory (buf + 4) < 256
      → (rtc_addr < tm) ⊎ (tm + 20 < rtc_addr)
      → buf < 2 ^ 32
      → (sec < 100) × (min < 100) × (hour < 100) × (mday < 100) × (mon < 100) × (year < 100)
      → Fields m.memory tm sec min hour mday mon year
      → Told told (sec % 80) (min % 80) (hour % 80) (mday % 80) (mon % 80) (year % 80) (do
        (r, node, m') ← ds1307_rtc_ioctl devices fuel rtc_addr buf set_time tm v m
        ds1307_rtc_ioctl devices fuel rtc_addr buf get_time told node m')
  ioctl-set_time-get_time tm told sec min hour mday mon year v m e unset apart word small f =
      let s = ioctl-set_time tm sec min hour mday mon year v m e unset apart f in
      let g =
        ioctl-get_time told sec min hour mday mon year (selected v) s.after word small e s.coded in
      record { node = g.node; after = g.after; returns = rw s.returns g.returns; fields = g.fields }
