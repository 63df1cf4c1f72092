-- ===== src/Boot/Entry.antt =====
-- kernel.c: _kernel_entry from end to end. The stacks of the tasks lie in the memory of the Kernel.
use pascal_scheduler.Prelude.{ℕ, Bool, List, Option, some, ◌>>=◌}
use pascal_scheduler.Dev.{Vnode, DevOps}
use pascal_scheduler.Scheduler.State.{Kernel}
use pascal_scheduler.Libc.Printf.{Layout}
use pascal_scheduler.Boot.{Boot, start}
use pascal_scheduler.Boot.Devices.{System, Platform, Texts, open_devices, banner}

-- The registers that get_mcu_string, get_flash_size and get_ram_size read.
pub record Identification : Type 0 where
  pub dbgromid : ℕ
  pub flsize : ℕ
  pub ram0size : ℕ

module _ {H : Type 0} (platform : Platform H) (uart i2c rtc : DevOps H)
    (uart_config1 i2c_config1 : ℕ) (garbage : Vnode) (fuel : ℕ) (layout : Layout) (c errno : ℕ)
    (texts : Texts) (chip : Identification) (systick_config : ℕ → ℕ × ℕ) (pending : Bool)
    (system_core_clock thread_stack_top : ℕ) (os_tasks : List ℕ) where
  unfoldable pub kernel_entry : System H → Kernel → Option (System H × Boot)
  kernel_entry s k = do
    s' ← open_devices platform uart i2c rtc uart_config1 i2c_config1 s
    m ←
        banner s'.devices garbage fuel layout c errno texts chip.dbgromid chip.flsize chip.ram0size
          s'.machine
    some (
      record s' { machine = m },
      start systick_config system_core_clock pending thread_stack_top os_tasks k,
    )
