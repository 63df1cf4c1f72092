-- ===== src/Drivers/Rtc/Ds1307.antt =====
-- What a DS1307 does on the I2C bus, as its data sheet tells.
pub mod Transfer
use pascal_scheduler.Prelude.{
  ℕ, zero, suc, ◌+◌, ◌-◌, ◌%◌, ◌^◌, ◌<◌, ◌≡◌, ◌⊎◌, inl, inr, refl, sym, ap, ◌∙◌, Bool-cases, Option,
  some, ◌>>=◌, store, ◌==◌, if◌then◌else◌, arith,
}
use mathlib.Core.Path.{subst}
use pascal_scheduler.Prelude.Word.{add32, sub32, has_flag}
use pascal_scheduler.Dev.{
  Vnode, uio_write, uio_read, Machine, DevOps, dev_i2c, dev_ioctl, dev_write, dev_read, read_on,
}
use pascal_scheduler.Drivers.Usic.{Usic, poll}
use pascal_scheduler.Drivers.Loops.{send_from}
use pascal_scheduler.Drivers.Loops.Uios.{rounds_small}
use pascal_scheduler.Drivers.Uart.{uart_send}
use pascal_scheduler.Drivers.I2c.{
  Master, i2c, set_peer, wait_ack, begin_write, received, wait_byte, receive_to, usic_i2c_write,
  usic_i2c_read, usic_i2c_ioctl,
}
use pascal_scheduler.Drivers.I2c.Reading.{Filled, Filled-store}
use pascal_scheduler.Drivers.Rtc.{set_time, get_time, ds1307_rtc_ioctl}
use pascal_scheduler.Drivers.Rtc.Times.{
  Chip, Ended, selected, Fields, Told, ioctl-set_time-get_time,
}

-- What the DS1307 does on the bus, as its data sheet tells: 64 registers, and a pointer to the next one.
pub data Phase : Type 0 where
  unselected : Phase
  addressed : Phase
  writing : Phase
  reading : Phase

pub record Clock : Type 0 where
  pub registers : ℕ → ℕ
  pub pointer : ℕ
  pub phase : Phase

unfoldable pub on_start_write : ℕ → Clock → Clock
on_start_write peer c = record c { phase = if peer == 208 then addressed else unselected }

unfoldable pub on_start_read : ℕ → Clock → Clock
on_start_read peer c = record c { phase = if peer == 208 then reading else unselected }

-- The first byte of a write sets the pointer, and each other one is put into the register that it points to.
unfoldable pub on_byte : ℕ → Clock → Clock
on_byte b c = elim c.phase [
  | unselected ↦ c
  | addressed ↦ record { registers = c.registers; pointer = b % 64; phase = writing }
  | writing ↦ record {
    registers = store c.pointer b c.registers;
    pointer = (c.pointer + 1) % 64;
    phase = writing;
  }
  | reading ↦ c
]

-- A byte has been fetched from the clock.
unfoldable pub on_fetch : Clock → Clock
on_fetch c = record c { pointer = (c.pointer + 1) % 64 }

unfoldable pub on_stop : Clock → Clock
on_stop c = record c { phase = unselected }

unfoldable pub on_bytes : ℕ → (ℕ → ℕ) → ℕ → Clock → Clock
on_bytes zero memory ptr c = c
on_bytes (suc n) memory ptr c = on_bytes n memory (ptr + 1) (on_byte (memory ptr % 256) c)

-- The bytes that are fetched one after the other.
unfoldable pub stream : Clock → ℕ → ℕ
stream c zero = c.registers c.pointer % 256
stream c (suc i) = stream (on_fetch c) i

-- The vendor's functions on a channel to whose wires a clock is connected; `view` is the state of the clock. The
-- transmit FIFO drains, and a byte that is asked for arrives, within `polls` looks at a status.
pub record Attached {H : Type 0} (usic : Usic H) (master : Master H) (polls : ℕ) (view : H → Clock)
    : Type 0 where
  pub starts_write :
      (peer : ℕ) (h : H) → view (master.start_write peer h) ≡ on_start_write peer (view h)
  pub starts_read :
      (peer : ℕ) (h : H) → view (master.start_read peer h) ≡ on_start_read peer (view h)
  pub stops : (h : H) → view (master.stop h) ≡ on_stop (view h)
  pub looks : (h : H) → view (master.get_status_flag h).1 ≡ view h
  pub clears : (flag : ℕ) (h : H) → view (master.clear_status_flag flag h) ≡ view h
  pub drains :
      (h : H) → (h' : H) × (poll polls usic.tx_fifo_is_full h ≡ some h') × (view h' ≡ view h)
  pub puts : (b : ℕ) (h : H) → view (usic.tx_fifo_put_data b h) ≡ on_byte (b % 256) (view h)
  pub acks :
      (h : H)
      → (view h).phase ≡ reading
      → (h' : H) × (wait_byte usic master polls polls (master.receive_ack h) ≡ some h')
        × (view h' ≡ view h)
  pub nacks :
      (h : H)
      → (view h).phase ≡ reading
      → (h' : H) × (wait_byte usic master polls polls (master.receive_nack h) ≡ some h')
        × (view h' ≡ view h)
  pub gets :
      (h : H)
      → (view h).phase ≡ reading
      → (usic.rx_fifo_get_data h).0 % 256 ≡ (view h).registers (view h).pointer % 256
  pub fetches :
      (h : H) → (view h).phase ≡ reading → view (usic.rx_fifo_get_data h).1 ≡ on_fetch (view h)

-- What a run of bytes leaves in the registers.
pub on_bytes-Filled :
    (n ptr q : ℕ) (memory r : ℕ → ℕ)
    → q + n < 64
    → Filled n q
        (λ i. memory (ptr + i) % 256)
        r
        (on_bytes n memory ptr (record { registers = r; pointer = q; phase = writing })).registers
unfolding on_bytes on_byte
on_bytes-Filled zero ptr q memory r h = record {
  filled = λ (i : ℕ) l. absurd (omega (arith, l));
  below = λ (a : ℕ) l. refl;
  above = λ (a : ℕ) l. refl;
}
on_bytes-Filled (suc n) ptr q memory r h =
    let on : (q + 1) % 64 ≡ q + 1 = omega (arith, h) in
    subst
      (λ (u : ℕ).
        Filled (suc n) q (λ i. memory (ptr + i) % 256) r
          (on_bytes n memory (ptr + 1) (record {
            registers = store q (memory ptr % 256) r;
            pointer = u;
            phase = writing;
          })).registers)
      (sym on)
      (Filled-store n q (memory ptr % 256) (λ i. memory (ptr + i) % 256)
        (λ i. memory (ptr + 1 + i) % 256) r
        (on_bytes n memory (ptr + 1) (record {
          registers = store q (memory ptr % 256) r;
          pointer = q + 1;
          phase = writing;
        })).registers
        (ap (λ (a : ℕ). memory a % 256) (omega arith))
        (λ (i : ℕ). ap (λ (a : ℕ). memory a % 256) (omega arith))
        (on_bytes-Filled n (ptr + 1) (q + 1) memory (store q (memory ptr % 256) r)
          (omega (arith, h))))

pub stream_lem :
    (i : ℕ) (c : Clock) → c.pointer + i < 64 → stream c i ≡ c.registers (c.pointer + i) % 256
unfolding stream on_fetch
stream_lem zero c h = ap (λ (a : ℕ). c.registers a % 256) (omega arith)
stream_lem (suc i) c h =
    let on : (c.pointer + 1) % 64 ≡ c.pointer + 1 = omega (arith, h) in
    stream_lem i (on_fetch c) (omega (arith, h, on))
    ∙ ap (λ (a : ℕ). c.registers a % 256) (omega (arith, on))
