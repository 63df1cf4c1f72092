-- ===== src/Drivers/Lcd.antt =====
-- dev/lcd/hd44780.c: a display on the I2C bus.
pub mod Words
pub mod Sends
use pascal_scheduler.Prelude.{
  ℕ, ◌*◌, ◌/◌, ◌%◌, Bool, ◌&&◌, ◌||◌, not, List, [], ◌∷◌, ◌++◌, ◌==◌, ltb, if◌then◌else◌, bit_and,
  bit_or,
}
use pascal_scheduler.Dev.{Vnode, Uio}

-- What the driver calls: sys_sleep, dev_write(&code, 0, 1, &node) with the byte `code`, dev_ioctl with
-- I2C_IOCTL_SET_PEER, and dev_open. sys/dev.h declares no dev_write of four arguments, so what this call does is not
-- modelled: the functions give the calls that they make, in order.
pub data Call : Type 0 where
  sys_sleep : ℕ → Call
  dev_write : ℕ → ℕ → ℕ → Call
  ioctl_set_peer : ℕ → Call
  dev_open : Call

-- HD44780_4_BITS_OPS
abbrev pub hd44780_4_bits_ops : ℕ
hd44780_4_bits_ops = 0x2 * 16

-- The byte that hd44780_write_bus sends. A char is unsigned on the processor.
unfoldable pub bus_code : ℕ → ℕ → ℕ → ℕ
bus_code byte rs e =
    bit_or (bit_or (bit_and e 0x1 * 16 % 256) (bit_and rs 0x1 * 32)) (bit_and byte 0xF)

-- The characters that hd44780_send_4 leaves out.
unfoldable pub left_out : ℕ → ℕ → Bool
left_out byte rs = not (rs == 0) && (ltb byte 0x20 || ltb 0x7A byte)

unfoldable pub hd44780_check_busy : List Call
hd44780_check_busy = sys_sleep 2 ∷ []

-- With LCD_I2C_BUS, which the makefile defines.
unfoldable pub hd44780_write_bus : ℕ → ℕ → ℕ → List Call
hd44780_write_bus byte rs e = dev_write (bus_code byte rs e) 0 1 ∷ []

unfoldable pub hd44780_send_4 : ℕ → ℕ → List Call
hd44780_send_4 byte rs =
    if left_out byte rs
    then []
    else hd44780_check_busy
      ++ hd44780_write_bus (bit_and byte 0xF0 / 16) rs 1
      ++ hd44780_write_bus (bit_and byte 0xF0 / 16) rs 0
      ++ hd44780_write_bus (bit_and byte 0x0F) rs 1
      ++ hd44780_write_bus (bit_and byte 0x0F) 0 0

unfoldable pub hd44780_send_8 : ℕ → ℕ → List Call
hd44780_send_8 byte rs =
    hd44780_check_busy ++ hd44780_write_bus byte rs 1 ++ hd44780_write_bus byte rs 0

-- The calls of hd44780_send_4 one after the other, each with its arguments.
unfoldable pub send_all : List (ℕ × ℕ) → List Call
send_all [] = []
send_all ((byte, rs) ∷ more) = hd44780_send_4 byte rs ++ send_all more

-- The answer is 0.
unfoldable pub hd44780_open : ℕ → ℕ × List Call
hd44780_open lcd_address = (
  0,
  (ioctl_set_peer lcd_address ∷ dev_open ∷ [])
      ++ hd44780_send_8 hd44780_4_bits_ops 0
      ++ send_all (
          (0x28, 0)
          ∷ (0x0C, 0)
          ∷ (0x06, 0)
          ∷ (0x48, 1)
          ∷ (0x65, 1)
          ∷ (0x6C, 1)
          ∷ (0x6C, 1)
          ∷ (0x6F, 1)
          ∷ []),
)

-- hd44780_close, hd44780_write and hd44780_read, and hd44780_ioctl do nothing.
unfoldable pub hd44780_close : {S : Type 0} → Vnode → S → ℕ × S
hd44780_close vnode s = (0, s)

unfoldable pub hd44780_transfer : {S : Type 0} → Vnode → Uio → S → ℕ × Uio × S
hd44780_transfer vnode uio s = (0, uio, s)

unfoldable pub hd44780_ioctl : {S : Type 0} → Vnode → ℕ → ℕ → S → ℕ × S
hd44780_ioctl vnode code data_ptr s = (0, s)
