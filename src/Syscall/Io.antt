-- ===== src/Syscall/Io.antt =====
-- sys_read and sys_write over the UART driver.
use pascal_scheduler.Prelude.{
  Bool-cases, ==_iff, ℕ, ◌+◌, ◌<◌, ◌≤◌, ◌≡◌, ◌≢◌, ◌⊎◌, inl, inr, ◌^◌, refl, ap, arith, List, ◌++◌,
  cells, Option, some, ◌==◌, ◌||◌,
}
use pascal_scheduler.Prelude.Word.{u32_max}
use pascal_scheduler.Dev.{Vnode, Machine, DevOps, dev_uart, dev_write, dev_read}
use pascal_scheduler.Drivers.Usic.{Usic, Transmits, Receives}
use pascal_scheduler.Drivers.Uart.{
  Call, uart, usic_uart_write, usic_uart_read, uart_send, uart_read,
}
use pascal_scheduler.Drivers.Loops.{send_from, read_to, write_uio, read_uio}
use pascal_scheduler.Drivers.Loops.Uios.{dev_write_whole, dev_read_whole}
use pascal_scheduler.Drivers.Loops.Transfer.{Sent, send_from_lem, Taken, read_to_lem}
use pascal_scheduler.Drivers.Uart.Transfer.{uart_send_lem, uart_read_lem}
use pascal_scheduler.Syscall.{Outcome, sys_write, sys_read, uart_vnode, ebadf}

module _ {H : Type 0} (devices : ℕ → DevOps H) (usic : Usic H) (polls : ℕ) (vendor : Call → H → H)
    (config : ℕ) (mapped : devices dev_uart ≡ uart usic polls vendor config) where
  -- The driver's operations are the shared bodies.
  writes_by : (devices dev_uart).d_write ≡ write_uio (uart_send usic polls)
  unfolding uart usic_uart_write
  writes_by = ap (λ (d : DevOps H). d.d_write) mapped

  reads_by : (devices dev_uart).d_read ≡ read_uio (uart_read usic polls)
  unfolding uart usic_uart_read
  reads_by = ap (λ (d : DevOps H). d.d_read) mapped

-- The effect of a write of `bytes` on an open line: they are sent, and memory and errno stay.
pub record Written {H : Type 0} (sent : H → List ℕ) (m : Machine H) (len errno : ℕ) (bytes : List ℕ)
    (result : Option (Outcome H)) : Type 0 where
  pub after : H
  pub returns :
      result ≡ some (record { ret = len; errno = errno; machine = record m { hardware = after } })
  pub sends : sent after ≡ sent m.hardware ++ bytes

-- The effect of a read of `len` bytes: they were taken from the line, in this order, and no other
-- memory has changed.
pub record Filled {H : Type 0} (taken : H → List ℕ) (m : Machine H) (ptr len errno : ℕ)
    (result : Option (Outcome H)) : Type 0 where
  pub after : Machine H
  pub returns : result ≡ some (record { ret = len; errno = errno; machine = after })
  pub takes : taken after.hardware ≡ taken m.hardware ++ cells len after.memory ptr
  pub below : (a : ℕ) → a < ptr → after.memory a ≡ m.memory a
  pub above : (a : ℕ) → ptr + len ≤ a → after.memory a ≡ m.memory a

module _ {H : Type 0} (devices : ℕ → DevOps H) (garbage : Vnode) (usic : Usic H) (polls : ℕ)
    (vendor : Call → H → H) (config : ℕ)
    (mapped : devices dev_uart ≡ uart usic polls vendor config) where
  -- sys_write to standard output or standard error, on a line that drains, returns the length and has
  -- sent exactly the bytes at `ptr`, in order; to any other file it sends nothing and fails with EBADF.
  pub sys_write_lem :
      (sent : H → List ℕ) (file ptr len errno : ℕ) (m : Machine H)
      → Transmits usic polls sent
      → len < 2 ^ 31
      → (((file ≡ 1) ⊎ (file ≡ 2))
          × Written sent m len errno
              (cells len m.memory ptr)
              (sys_write devices garbage file ptr len errno m))
        ⊎ ((file ≢ 1)
            × (file ≢ 2)
            × (sys_write devices garbage file ptr len errno m
                ≡ some (record { ret = u32_max; errno = ebadf; machine = m })))
  unfolding sys_write uart_vnode
  sys_write_lem sent file ptr len errno m line small =
      elim (Bool-cases ((file == 1) || (file == 2))) [
        | inl e ↦ inl (
          ground (arith, e),
          record { after = s.after; returns = rw (e, written) refl; sends = s.sends },
        )
        | inr e ↦ inr (ground (arith, e), ground (arith, e), rw e refl)
      ]
    where
      s :
          Sent sent m.hardware
            (send_from (uart_send usic polls) len ptr m.memory m.hardware)
            (cells len m.memory ptr)
      s =
          send_from_lem sent (uart_send usic polls) (uart_send_lem usic polls sent line) len ptr
            m.memory m.hardware

      written :
          dev_write devices ptr len (uart_vnode devices garbage) m
          ≡ some (len, uart_vnode devices garbage, record m { hardware = s.after })
      written =
          dev_write_whole devices (uart_vnode devices garbage) ptr len m small
            (uart_send usic polls) (writes_by devices usic polls vendor config mapped) s.returns

  -- sys_read from standard input, on a line on which bytes arrive, returns the length and has stored the
  -- next bytes of the line at `ptr`, in order; from any other file it reads nothing and fails with EBADF.
  pub sys_read_lem :
      (taken : H → List ℕ) (file ptr len errno : ℕ) (m : Machine H)
      → Receives usic polls taken
      → len < 2 ^ 31
      → ptr < 2 ^ 32
      → ((file ≡ 0)
          × Filled taken m ptr len errno (sys_read devices garbage 2 file ptr len errno m))
        ⊎ ((file ≢ 0)
            × (sys_read devices garbage 2 file ptr len errno m
                ≡ some (record { ret = u32_max; errno = ebadf; machine = m })))
  unfolding sys_read uart_vnode
  sys_read_lem taken file ptr len errno m line small address = elim (Bool-cases (file == 0)) [
    | inl e ↦ inl (
      (==_iff _ _).0 e,
      record {
        after = t.after;
        returns = rw (e, filled) refl;
        takes = t.takes;
        below = t.below;
        above = t.above;
      },
    )
    | inr e ↦ inr (ground (arith, e), rw e refl)
  ]
    where
      t : Taken taken m len ptr (read_to (uart_read usic polls) len ptr m)
      t = read_to_lem taken (uart_read usic polls) (uart_read_lem usic polls taken line) len ptr m

      filled :
          dev_read devices 2 ptr len (uart_vnode devices garbage) m
          ≡ some (len, uart_vnode devices garbage, t.after)
      filled =
          dev_read_whole devices (uart_vnode devices garbage) ptr len m small (uart_read usic polls)
            (reads_by devices usic polls vendor config mapped) t.returns address
