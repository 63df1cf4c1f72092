-- ===== src/Boot.antt =====
-- kernel.c: the part of _kernel_entry that starts the scheduler and registers the tasks.
pub mod Started
pub mod Interrupted
pub mod Devices
pub mod Entry
pub mod Ticks
use pascal_scheduler.Prelude.{ℕ, Bool, List, [], ◌∷◌, none, some}
use pascal_scheduler.Scheduler.State.{Kernel}
use pascal_scheduler.Scheduler.Ops.{scheduler_init}
use pascal_scheduler.Scheduler.Register.{Registered, success, full, k_task_register}

-- How the loop ends: in the idle loop, or in fatal(), which stops the processor. `unscheduled` would be a choice of
-- task in the pending interrupt that does not end.
pub data Boot : Type 0 where
  idling : Kernel → Boot
  fatal : Boot
  unscheduled : Boot

-- The `while` loop over OS_Tasks; the list ends where the array has its 0.
unfoldable pub register_tasks : ℕ → List ℕ → Kernel → Boot
register_tasks thread_stack_top [] k = idling k
register_tasks thread_stack_top (f ∷ os_tasks) k =
    let (r, k') = k_task_register thread_stack_top f k in
    let rest = register_tasks thread_stack_top os_tasks k' in
    elim r [ success ↦ rest | full ↦ fatal ]

-- From scheduler_init (which returns 0) to the idle loop, if no further interrupt is taken on the way. The way with
-- interrupts is Booting in Boot/Interrupted.
unfoldable pub start : (ℕ → ℕ × ℕ) → ℕ → Bool → ℕ → List ℕ → Kernel → Boot
start systick_config system_core_clock pending thread_stack_top os_tasks k =
    elim (scheduler_init systick_config system_core_clock pending k) [
      | none ↦ unscheduled
      | some k' ↦ register_tasks thread_stack_top os_tasks k'
    ]
