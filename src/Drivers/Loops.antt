-- ===== src/Drivers/Loops.antt =====
-- The loops over the bytes of a uio that the serial drivers share: for (; uio_resid > 0; uio_resid--, ptr++).
pub mod Transfer
pub mod Uios
use pascal_scheduler.Prelude.{ℕ, zero, suc, ◌+◌, ◌-◌, Option, some, ◌>>=◌, store}
use pascal_scheduler.Dev.{Machine, Vnode, Uio, rounds}

-- The loop of a write, over the bytes from `ptr` on, by the driver's function that sends one.
unfoldable pub send_from : {H : Type 0} → (ℕ → H → Option H) → ℕ → ℕ → (ℕ → ℕ) → H → Option H
send_from send zero ptr memory h = some h
send_from send (suc n) ptr memory h = do
  h' ← send (memory ptr) h
  send_from send n (ptr + 1) memory h'

-- The loop of a read, by the driver's function that reads one byte.
unfoldable pub read_to :
    {H : Type 0} → (H → Option (ℕ × H)) → ℕ → ℕ → Machine H → Option (Machine H)
read_to read zero ptr m = some m
read_to read (suc n) ptr m = do
  (ans, h) ← read m.hardware
  read_to read n (ptr + 1) (record { memory = store ptr ans m.memory; hardware = h })

-- The body of usic_uart_write and of usic_spi_write.
unfoldable pub write_uio :
    {H : Type 0}
    → (ℕ → H → Option H)
    → Vnode
    → Uio
    → Machine H
    → Option (ℕ × Vnode × Uio × Machine H)
write_uio send vnode uio m = do
  h ← send_from send (rounds uio.uio_resid) uio.iov_base m.memory m.hardware
  some (
    0,
    vnode,
    record uio { uio_resid = uio.uio_resid - rounds uio.uio_resid },
    record m { hardware = h },
  )

-- The body of usic_uart_read and of usic_spi_read.
unfoldable pub read_uio :
    {H : Type 0}
    → (H → Option (ℕ × H))
    → Vnode
    → Uio
    → Machine H
    → Option (ℕ × Vnode × Uio × Machine H)
read_uio read vnode uio m = do
  m' ← read_to read (rounds uio.uio_resid) uio.iov_base m
  some (0, vnode, record uio { uio_resid = uio.uio_resid - rounds uio.uio_resid }, m')
