-- ===== src/Drivers/Mmc/Ops.antt =====
-- The operations of the driver: mmc_spi_open, _close, _read, _write and _ioctl. `vnode->data` is none when
-- the pointer is NULL.
pub mod Partial
pub mod Patch
use pascal_scheduler.Prelude.{
  ℕ, zero, suc, ◌+◌, ◌-◌, ◌/◌, ◌%◌, Bool, true, false, not, ◌||◌, List, [], ◌∷◌, get_or, set,
  replicate, length, Option, none, some, ◌>>=◌, ◌==◌, ltb, if◌then◌else◌, store,
}
use pascal_scheduler.Prelude.Word.{add32, u32_max}
use pascal_scheduler.Dev.{Vnode, Uio, UioRw, uio_read, uio_write, Machine, rounds}
use pascal_scheduler.Drivers.Spi.Port.{Port}
use pascal_scheduler.Drivers.Mmc.{
  Verdict, mmc_ok, mmc_error, Info, mmc_disabled, max_block_length, Message, failed, init_failed,
}
use pascal_scheduler.Drivers.Mmc.Commands.{mmc_send}
use pascal_scheduler.Drivers.Mmc.Sector.{Block, no_block, block, mmc_read_sector, mmc_write_sector}
use pascal_scheduler.Drivers.Mmc.Startup.{mmc_to_idle, mmc_init}

-- `for(; uio_resid > 0; uio_resid--, ptr++) buf[i++] = *ptr;` with `n` rounds left.
unfoldable pub copy_in : ℕ → ℕ → ℕ → (ℕ → ℕ) → List ℕ → List ℕ
copy_in zero i ptr memory buf = buf
copy_in (suc n) i ptr memory buf = copy_in n (i + 1) (ptr + 1) memory (set buf i (memory ptr))

-- `for(; uio_resid > 0; uio_resid--, ptr++) *ptr = buf[i++];` with `n` rounds left.
unfoldable pub copy_out : ℕ → ℕ → ℕ → List ℕ → (ℕ → ℕ) → ℕ → ℕ
copy_out zero i ptr buf memory = memory
copy_out (suc n) i ptr buf memory =
    copy_out n (i + 1) (ptr + 1) buf (store ptr (get_or buf i 0) memory)

unfoldable pub is_read : UioRw → Bool
is_read uio_read = true
is_read uio_write = false

-- The test of the range of a transfer, as uint32_t.
unfoldable pub leaves_block : Info → Vnode → Uio → Bool
leaves_block info vnode uio =
    ltb info.read_block_size (add32 uio.uio_resid (vnode.offset % info.read_block_size))

module _ {H : Type 0} (port : Port (Machine H)) (fuel : ℕ) where
  -- mmc_read_sector into the array of 512 bytes; a larger block overruns the stack, a fault.
  unfoldable pub read_into_array : Info → ℕ → Machine H → Option (Block × Machine H)
  read_into_array info sector m =
      if ltb max_block_length info.read_block_size
      then none
      else mmc_read_sector port fuel info sector m

  unfoldable pub read_out : Uio → ℕ → Machine H → Block → Option (ℕ × Uio × Machine H)
  read_out uio i m no_block = some (u32_max, uio, m)
  read_out uio i m (block buf) = some (
    0,
    record uio { uio_resid = uio.uio_resid - rounds uio.uio_resid },
    record m { memory = copy_out (rounds uio.uio_resid) i uio.iov_base buf m.memory },
  )

  -- With a block size of 0, before the card is open, the division is undefined.
  unfoldable pub mmc_spi_read : Option Info → Vnode → Uio → Machine H → Option (ℕ × Uio × Machine H)
  mmc_spi_read none vnode uio m = some (u32_max, uio, m)
  mmc_spi_read (some info) vnode uio m =
      if not (is_read uio.uio_rw)
      then some (u32_max, uio, m)
      else if info.read_block_size == 0
      then none
      else if leaves_block info vnode uio
      then some (u32_max, uio, m)
      else (do
        (found, m') ← read_into_array info (vnode.offset / info.read_block_size) m
        read_out uio (vnode.offset % info.read_block_size) m' found)

  unfoldable pub answer : Verdict → ℕ
  answer mmc_ok = 0
  answer mmc_error = u32_max

  unfoldable pub write_back : Info → Vnode → Uio → Machine H → Block → Option (ℕ × Uio × Machine H)
  write_back info vnode uio m no_block = some (u32_max, uio, m)
  write_back info vnode uio m (block buf) = do
    (verdict, m') ←
        mmc_write_sector port fuel info
          (copy_in (rounds uio.uio_resid) (vnode.offset % info.read_block_size) uio.iov_base
            m.memory buf)
          (vnode.offset / info.read_block_size) m
    some (answer verdict, record uio { uio_resid = uio.uio_resid - rounds uio.uio_resid }, m')

  unfoldable pub mmc_spi_write :
      Option Info → Vnode → Uio → Machine H → Option (ℕ × Uio × Machine H)
  mmc_spi_write none vnode uio m = some (u32_max, uio, m)
  mmc_spi_write (some info) vnode uio m =
      if is_read uio.uio_rw
      then some (u32_max, uio, m)
      else if info.read_block_size == 0
      then none
      else if leaves_block info vnode uio
      then some (u32_max, uio, m)
      else (do
        (found, m') ← read_into_array info (vnode.offset / info.read_block_size) m
        write_back info vnode uio m' found)

module _ {S : Type 0} (port : Port S) (print : Message → S → Option S) (fuel : ℕ) where
  -- The label MMC_SPI_CRITICAL.
  unfoldable pub critical : Option Info → S → Option (ℕ × Option Info × S)
  critical info s = do (verdict, s') ← mmc_to_idle port s; some (u32_max, info, s')

  -- The label MMC_SPI_ERROR, behind a message.
  unfoldable pub disable : Message → Info → S → Option (ℕ × Option Info × S)
  disable message info s = do
    s' ← print message s
    critical (some (record info { flags = mmc_disabled })) s'

  unfoldable pub after_init : S → Verdict × Info → Option (ℕ × Option Info × S)
  after_init s (mmc_error, info) = disable init_failed info s
  after_init s (mmc_ok, info) = some (0, some info, s)

  unfoldable pub after_idle : Info → S → Verdict → Option (ℕ × Option Info × S)
  after_idle info s mmc_error = disable failed info s
  after_idle info s mmc_ok = do
    (verdict, info', s') ← mmc_init port print fuel info s
    after_init s' (verdict, info')

  -- The loop of ten clock bytes.
  unfoldable pub clock : ℕ → S → Option S
  clock zero s = some s
  clock (suc n) s = do s' ← mmc_send port (0xFF ∷ []) s; clock n s'

  unfoldable pub mmc_spi_open : Option Info → S → Option (ℕ × Option Info × S)
  mmc_spi_open none s = critical none s
  mmc_spi_open (some info) s = do
    s1 ← port.disable_slave s
    s2 ← clock 10 s1
    s3 ← port.enable_slave info.spi_channel s2
    (verdict, s4) ← mmc_to_idle port s3
    after_idle (record info { flags = 0 }) s4 verdict

  unfoldable pub mmc_spi_close : Option Info → S → Option (ℕ × S)
  mmc_spi_close none s = some (u32_max, s)
  mmc_spi_close (some info) s = do (verdict, s') ← mmc_to_idle port s; some (0, s')

unfoldable pub mmc_spi_ioctl : Option Info → ℕ → ℕ
mmc_spi_ioctl none code = u32_max
mmc_spi_ioctl (some info) code = 0
