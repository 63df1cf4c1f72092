-- ===== src/Boot/Ticks.antt =====
-- c_init.c, which runs between _init and _main.
use pascal_scheduler.Prelude.{ℕ, ◌/◌}

-- The writes to SysTick->CTRL, and SysTick_Config, which the vendor's headers define and which tells in its
-- result whether it has failed.
pub record SysTick (H : Type 0) : Type 0 where
  pub set_ctrl : ℕ → H → H
  pub sys_tick_config : ℕ → H → ℕ × H

-- A tick each millisecond. The branch for an error is empty.
unfoldable pub c_init : {H : Type 0} → SysTick H → ℕ → H → H
c_init timer system_core_clock h =
    (timer.sys_tick_config (system_core_clock / 1000) (timer.set_ctrl 3 h)).1
