-- ===== src/Drivers/Pwm.antt =====
-- dev/pwm/ifx_ccu4.c. The registers of the timer slice and of the pins are read and written through
-- `read` and `write`.
use pascal_scheduler.Prelude.{ℕ, bit_or, ◌==◌, if◌then◌else◌, List, [], ◌∷◌}
use pascal_scheduler.Dev.{Vnode, Uio, Machine, DevOps}
use pascal_scheduler.Drivers.Gpio.{gpio_pin_mux, gpio_output_pp, gpio_output_alt, gpio_pi}
use mathlib.Core.Option.{Option, some}

-- What the driver writes to: P0_IOCR4, CCU4_GIDLC, CCU4_CC40PRS, CCU4_CC40CRS, CCU4_CC40TIMER,
-- CCU4_GCSS and CCU4_CC40TCSET.
pub data Register : Type 0 where
  p0_iocr4 : Register
  gidlc : Register
  prs : Register
  crs : Register
  timer : Register
  gcss : Register
  tcset : Register

-- `enum pwm_ioctl`
abbrev pub pwm_ioctl_set_duty : ℕ
pwm_ioctl_set_duty = 0

abbrev pub pwm_ioctl_set_periode : ℕ
pwm_ioctl_set_periode = 1

abbrev pub pwm_ioctl_set_update : ℕ
pwm_ioctl_set_update = 2

module _ {H : Type 0} (read : Register → H → ℕ) (write : Register → ℕ → H → H) where
  unfoldable pub write_all : List (Register × ℕ) → H → H
  write_all [] h = h
  write_all ((register, word) ∷ rest) h = write_all rest (write register word h)

  unfoldable pub ccu4_pwm_open : Vnode → Machine H → Option (ℕ × Vnode × Machine H)
  ccu4_pwm_open vnode m = some (
    0,
    vnode,
    record m {
      hardware =
          write_all
            ((gidlc, 0x101) ∷ (prs, 100) ∷ (crs, 5) ∷ (timer, 0) ∷ (gcss, 0x1) ∷ (tcset, 1) ∷ [])
            (gpio_pin_mux (read p0_iocr4) (write p0_iocr4)
              (bit_or gpio_output_pp (gpio_output_alt 4)) (gpio_pi 5) m.hardware);
    },
  )

  unfoldable pub ccu4_pwm_close : Vnode → Machine H → Option (ℕ × Vnode × Machine H)
  ccu4_pwm_close vnode m = some (0, vnode, m)

  -- ccu4_pwm_write and ccu4_pwm_read
  unfoldable pub ccu4_pwm_transfer : Vnode → Uio → Machine H → Option (ℕ × Vnode × Uio × Machine H)
  ccu4_pwm_transfer vnode uio m = some (0, vnode, uio, m)

  -- What the `switch` writes.
  unfoldable pub pwm_writes : ℕ → ℕ → List (Register × ℕ)
  pwm_writes code word =
      if code == pwm_ioctl_set_duty
      then (crs, word) ∷ []
      else if code == pwm_ioctl_set_periode
      then (prs, word) ∷ []
      else if code == pwm_ioctl_set_update
      then (gcss, 0x1) ∷ []
      else []

  unfoldable pub ccu4_pwm_ioctl : Vnode → ℕ → ℕ → Machine H → Option (ℕ × Vnode × Machine H)
  ccu4_pwm_ioctl vnode code data_ptr m =
      some (
        0,
        vnode,
        record m { hardware = write_all (pwm_writes code (m.memory data_ptr)) m.hardware },
      )

  unfoldable pub pwm : DevOps H
  pwm = record {
    d_open = ccu4_pwm_open;
    d_close = ccu4_pwm_close;
    d_read = ccu4_pwm_transfer;
    d_write = ccu4_pwm_transfer;
    d_ioctl = ccu4_pwm_ioctl;
  }
