-- ===== src/Syscall.antt =====
-- The calls of syscall.c that run in the calling task: sys_sbrk, sys_open, sys_close, sys_read, sys_write
-- and sys_getjiffy.
pub mod Sbrk
pub mod Io
use pascal_scheduler.Prelude.{ℕ, ◌+◌, ◌^◌, Option, some, ◌>>=◌, ltb, ◌==◌, ◌||◌, if◌then◌else◌}
use pascal_scheduler.Prelude.Word.{add32, sub32, u32_max}
use pascal_scheduler.Scheduler.State.{Kernel}
use pascal_scheduler.Dev.{Vnode, Machine, DevOps, uart_type, dev_uart, dev_read, dev_write}

-- The error numbers of errno.h that are used.
abbrev pub ebadf : ℕ
ebadf = 8

abbrev pub enomem : ℕ
enomem = 11

-- STDIN_FILENO, STDOUT_FILENO and STDERR_FILENO of sys/unistd.h.
abbrev pub stdin_fileno : ℕ
stdin_fileno = 0

abbrev pub stdout_fileno : ℕ
stdout_fileno = 1

abbrev pub stderr_fileno : ℕ
stderr_fileno = 2

-- The static variables of sys_sbrk and the number of errno.
pub record Heap : Type 0 where
  pub heap_top : ℕ
  pub heap_end : ℕ
  pub calls : ℕ
  pub errno : ℕ

-- The pointer that sys_sbrk returns, and the variables it leaves.
unfoldable pub sys_sbrk : ℕ → Heap → ℕ × Heap
sys_sbrk nbytes h =
    if ltb h.heap_end (add32 h.heap_top nbytes)
    then (u32_max, record h { errno = enomem })
    else (h.heap_top, record h { calls = add32 h.calls 1; heap_top = add32 h.heap_top nbytes })

unfoldable pub sys_open : ℕ → ℕ → ℕ → ℕ
sys_open name flags mode = u32_max

unfoldable pub sys_close : ℕ → ℕ
sys_close fd = u32_max

unfoldable pub sys_getjiffy : Kernel → ℕ
sys_getjiffy k = k.jiffy

-- What a call of sys_read or sys_write gives: the int it returns, errno and the machine.
pub record Outcome (H : Type 0) : Type 0 where
  pub ret : ℕ
  pub errno : ℕ
  pub machine : Machine H

-- `garbage` is the vnode on the stack before its two fields are set.
module _ {H : Type 0} (devices : ℕ → DevOps H) (garbage : Vnode) where
  unfoldable pub uart_vnode : Vnode
  uart_vnode = record garbage { dev_type = uart_type; dev_id = dev_uart }

  unfoldable pub sys_read : ℕ → ℕ → ℕ → ℕ → ℕ → Machine H → Option (Outcome H)
  sys_read fuel file ptr len errno m =
      if file == stdin_fileno
      then (do
        (ret, vnode, m') ← dev_read devices fuel ptr len uart_vnode m
        some (record { ret = ret; errno = errno; machine = m' }))
      else some (record { ret = u32_max; errno = ebadf; machine = m })

  unfoldable pub sys_write : ℕ → ℕ → ℕ → ℕ → Machine H → Option (Outcome H)
  sys_write file ptr len errno m =
      if (file == stdout_fileno) || (file == stderr_fileno)
      then (do
        (ret, vnode, m') ← dev_write devices ptr len uart_vnode m
        some (record { ret = ret; errno = errno; machine = m' }))
      else some (record { ret = u32_max; errno = ebadf; machine = m })
