-- ===== src/Dev.antt =====
-- sys/dev.c and include/sys/dev.h: the switch between the devices. A vnode's and a uio's ints are 32-bit
-- patterns. uio_offset and iov_len are left out, since no driver reads them.
use pascal_scheduler.Prelude.{ℕ, zero, suc, ◌%◌, ◌&&◌, Option, none, some, if◌then◌else◌, ◌>>=◌}
use pascal_scheduler.Prelude.Word.{add32, sub32, long_lt, u32_max}

-- `enum uio_rw`
pub data UioRw : Type 0 where
  uio_read : UioRw
  uio_write : UioRw

-- `enum seek_whence`
pub data SeekWhence : Type 0 where
  seek_set : SeekWhence
  seek_cur : SeekWhence
  seek_end : SeekWhence

-- `enum dev_type`
pub data DevType : Type 0 where
  i2c_type : DevType
  spi_type : DevType
  uart_type : DevType
  pwm_type : DevType
  lcd_type : DevType
  mmc_type : DevType
  rtc_type : DevType

-- `enum dev_id`
abbrev pub dev_i2c : ℕ
dev_i2c = 0

abbrev pub dev_uart : ℕ
dev_uart = 2

abbrev pub dev_rtc : ℕ
dev_rtc = 6

-- `struct vnode`
pub record Vnode : Type 0 where
  pub dev_type : DevType
  pub dev_id : ℕ
  pub endpt : ℕ
  pub offset : ℕ
  pub data_ptr : ℕ

-- `struct uio`, with the base of its iovec.
pub record Uio : Type 0 where
  pub iov_base : ℕ
  pub uio_resid : ℕ
  pub uio_rw : UioRw

-- What a driver changes: memory, and the peripherals with what is connected to them.
pub record Machine (H : Type 0) : Type 0 where
  pub memory : ℕ → ℕ
  pub hardware : H

-- `struct dev_ops`. An operation that polls a register without end gives `none`.
pub record DevOps (H : Type 0) : Type 0 where
  pub d_open : Vnode → Machine H → Option (ℕ × Vnode × Machine H)
  pub d_close : Vnode → Machine H → Option (ℕ × Vnode × Machine H)
  pub d_read : Vnode → Uio → Machine H → Option (ℕ × Vnode × Uio × Machine H)
  pub d_write : Vnode → Uio → Machine H → Option (ℕ × Vnode × Uio × Machine H)
  pub d_ioctl : Vnode → ℕ → ℕ → Machine H → Option (ℕ × Vnode × Machine H)

-- The rounds of `for (; uio_resid > 0; uio_resid--)`.
unfoldable pub rounds : ℕ → ℕ
rounds resid = if long_lt 0 resid then resid else 0

module _ {H : Type 0} (devices : ℕ → DevOps H) where
  unfoldable pub dev_open : Vnode → Machine H → Option (ℕ × Vnode × Machine H)
  dev_open vnode m = (devices vnode.dev_id).d_open vnode m

  unfoldable pub dev_close : Vnode → Machine H → Option (ℕ × Vnode × Machine H)
  dev_close vnode m = (devices vnode.dev_id).d_close vnode m

  unfoldable pub dev_ioctl : Vnode → ℕ → ℕ → Machine H → Option (ℕ × Vnode × Machine H)
  dev_ioctl vnode code data_ptr m = (devices vnode.dev_id).d_ioctl vnode (code % 256) data_ptr m

  unfoldable pub dev_write : ℕ → ℕ → Vnode → Machine H → Option (ℕ × Vnode × Machine H)
  dev_write ptr count vnode m = do
    (ret, vnode', uio, m') ←
        (devices vnode.dev_id).d_write vnode
          (record { iov_base = ptr; uio_resid = count; uio_rw = uio_write }) m
    some (sub32 count uio.uio_resid, vnode', m')

  -- The loop of dev_read, on fuel.
  unfoldable pub read_on : ℕ → ℕ → ℕ → Vnode → Uio → Machine H → Option (ℕ × Vnode × Machine H)
  read_on zero ptr count vnode uio m = none
  read_on (suc fuel) ptr count vnode uio m =
      if long_lt 0 uio.uio_resid
      then (do
        (ret, vnode', uio', m') ←
            (devices vnode.dev_id).d_read vnode
              (record uio { iov_base = add32 ptr (sub32 count uio.uio_resid) }) m
        read_on fuel ptr count vnode' uio' m')
      else some (sub32 count uio.uio_resid, vnode, m)

  unfoldable pub dev_read : ℕ → ℕ → ℕ → Vnode → Machine H → Option (ℕ × Vnode × Machine H)
  dev_read fuel ptr count vnode m =
      read_on fuel ptr count vnode (record { iov_base = ptr; uio_resid = count; uio_rw = uio_read })
        m

-- The value that dev_seek returns, and the vnode it leaves.
unfoldable pub dev_seek : ℕ → SeekWhence → Vnode → ℕ × Vnode
dev_seek offset seek_set vnode =
    if long_lt offset 0 then (u32_max, vnode) else (offset, record vnode { offset = offset })
dev_seek offset seek_cur vnode =
    if long_lt offset 0 && long_lt vnode.offset (sub32 0 offset)
    then (u32_max, vnode)
    else (add32 vnode.offset offset, record vnode { offset = add32 vnode.offset offset })
dev_seek offset seek_end vnode = (u32_max, vnode)
