-- ===== src/Boot/Devices.antt =====
-- kernel.c: the part of _kernel_entry before the scheduler, which maps the drivers, opens the devices and prints
-- what the kernel runs on. The three drivers are parameters.
pub mod Console
use pascal_scheduler.Prelude.{
  ℕ, ◌+◌, List, [], ◌∷◌, get_or, store, Option, some, ◌>>=◌, ◌==◌, if◌then◌else◌,
}
use pascal_scheduler.Dev.{
  Vnode, uart_type, i2c_type, rtc_type, Machine, DevOps, dev_i2c, dev_uart, dev_rtc, dev_open,
}
use pascal_scheduler.Drivers.Mcu.{get_mcu_string, get_flash_size, get_ram_size}
use pascal_scheduler.Libc.Printf.{Layout, printf}

-- driver_map
unfoldable pub driver_map : {H : Type 0} → ℕ → DevOps H → (ℕ → DevOps H) → ℕ → DevOps H
driver_map id table devices i = if i == id then table else devices i

-- The variables of the file that the entry sets, and the machine.
pub record System (H : Type 0) : Type 0 where
  pub devices : ℕ → DevOps H
  pub uart_node : Vnode
  pub i2c_node : Vnode
  pub rtc_node : Vnode
  pub machine : Machine H

-- The vendor's functions that the entry calls: SystemCoreClockUpdate, NVIC_SetPriority for SVCall and SysTick, and
-- XMC_GPIO_SetMode (as an output) and XMC_GPIO_SetOutputHigh for pin P0.5.
pub record Platform (H : Type 0) : Type 0 where
  pub system_core_clock_update : H → H
  pub set_svcall_priority : ℕ → H → H
  pub set_systick_priority : ℕ → H → H
  pub set_mode_output : H → H
  pub set_output_high : H → H

module _ {H : Type 0} (platform : Platform H) where
  unfoldable pub init_ports : H → H
  init_ports h = platform.set_output_high (platform.set_mode_output h)

  -- Up to initPorts().
  unfoldable pub prepare : H → H
  prepare h = init_ports (
      platform.set_systick_priority 2
        (platform.set_svcall_priority 0 (platform.system_core_clock_update h)))

  -- The addresses are those of the local variables uart_config1 and i2c_config1.
  module _ (uart i2c rtc : DevOps H) (uart_config1 i2c_config1 : ℕ) where
    unfoldable pub open_uart : System H → Option (System H)
    open_uart s = do
      let devices = driver_map dev_uart uart s.devices
      let node = record s.uart_node {
        dev_type = uart_type;
        dev_id = dev_uart;
        data_ptr = uart_config1;
      }
      (r, node', m) ← dev_open devices node s.machine
      some (record s { devices = devices; uart_node = node'; machine = m })

    unfoldable pub open_i2c : System H → Option (System H)
    open_i2c s = do
      let devices = driver_map dev_i2c i2c s.devices
      let node = record s.i2c_node { dev_type = i2c_type; dev_id = dev_i2c; data_ptr = i2c_config1 }
      (r, node', m) ← dev_open devices node s.machine
      some (record s { devices = devices; i2c_node = node'; machine = m })

    unfoldable pub open_rtc : System H → Option (System H)
    open_rtc s = do
      let devices = driver_map dev_rtc rtc s.devices
      let node = record s.rtc_node { dev_type = rtc_type; dev_id = dev_rtc }
      (r, node', m) ← dev_open devices node s.machine
      some (record s { devices = devices; rtc_node = node'; machine = m })

    -- The three modules are part of the system: UART_MODULE, I2C_MODULE and RTC_MODULE.
    unfoldable pub open_devices : System H → Option (System H)
    open_devices s = do
      s1 ←
          open_uart
            (record s { machine = record s.machine { hardware = prepare s.machine.hardware } })
      s2 ← open_i2c s1
      open_rtc s2

-- The addresses of the four formats and of mcu_string.
pub record Texts : Type 0 where
  pub title : ℕ
  pub version : ℕ
  pub flash : ℕ
  pub ram : ℕ
  pub mcu : ℕ

-- The four calls of printf, with the identification registers.
unfoldable pub banner :
    {H : Type 0}
    → (ℕ → DevOps H)
    → Vnode
    → ℕ
    → Layout
    → ℕ
    → ℕ
    → Texts
    → ℕ
    → ℕ
    → ℕ
    → Machine H
    → Option (Machine H)
banner devices garbage fuel layout c errno texts dbgromid flsize ram0size m = do
  (r1, m1) ← printf devices garbage fuel layout c errno texts.title [] m
  let named = store (texts.mcu + 25) (get_or (get_mcu_string dbgromid) 25 0) m1.memory
  (r2, m2) ←
      printf devices garbage fuel layout c errno texts.version (texts.mcu ∷ [])
        (record m1 { memory = named })
  (r3, m3) ← printf devices garbage fuel layout c errno texts.flash (get_flash_size flsize ∷ []) m2
  (r4, m4) ← printf devices garbage fuel layout c errno texts.ram (get_ram_size ram0size ∷ []) m3
  some m4
