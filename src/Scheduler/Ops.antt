-- ===== src/Scheduler/Ops.antt =====
-- The operations of scheduler.c on a running system. `none` would be a choice of task that does not
-- end.
pub mod Dispatch
use pascal_scheduler.Prelude.{ℕ, Bool, ◌/◌, Option, some, ◌==◌, if◌then◌else◌, ◌>>=◌, bit_or}
use pascal_scheduler.Prelude.Word.{add32}
use pascal_scheduler.Scheduler.State.{
  Kernel, task_created, task_ready, task_running, task_blocked, task_mutex_blocked, task_at,
  set_task, set_state,
}
use pascal_scheduler.Scheduler.Pick.{k_task_peek_next}

-- The statements with which scheduler, k_task_sleep, k_task_yield and k_mutex_lock end:
-- current_tid = k_task_peek_next(current_tid); tasks[current_tid].state = TASK_RUNNING.
unfoldable pub dispatch : Kernel → Option Kernel
dispatch k = do
  (tid, k') ← k_task_peek_next k.current_tid k
  some (set_state tid task_running (record k' { current_tid = tid }))

-- The first `if` of scheduler: the interrupted task has called signal_wait.
unfoldable pub take_signal : Kernel → Kernel
take_signal k =
    if k.signal_flag == 0
    then k
    else record (set_task k.current_tid
        (record (task_at k k.current_tid) {
          state = bit_or task_created task_blocked;
          sleep_until = 0;
          signal_flag = k.signal_flag;
        })
        k) { signal_flag = 0 }

-- What scheduler does before it chooses a task.
unfoldable pub tick : Kernel → Kernel
unfolding take_signal
tick k = take_signal (record (set_state k.current_tid task_ready k) { jiffy = add32 k.jiffy 1 })

unfoldable pub scheduler : Kernel → Option Kernel
scheduler k = dispatch (tick k)

-- scheduler_init up to __enable_irq(). SysTick_Config is the vendor's: given the ticks between two interrupts, it
-- leaves a reload value and a current value in the timer.
unfoldable pub prepare_idle : (ℕ → ℕ × ℕ) → ℕ → Kernel → Kernel
prepare_idle systick_config system_core_clock k =
    let (load, val) = systick_config (system_core_clock / 1000) in
    record (set_state 0 task_running (record k { registered_tasks = 0; current_tid = 0 })) {
      systick_load = load;
      systick_val = val;
    }

-- Interrupts are masked from reset on, and c_init has started the timer: `pending` tells whether an interrupt of it
-- has come up since, which __enable_irq() lets through.
unfoldable pub scheduler_init : (ℕ → ℕ × ℕ) → ℕ → Bool → Kernel → Option Kernel
scheduler_init systick_config system_core_clock pending k =
    let k' = prepare_idle systick_config system_core_clock k in
    if pending then scheduler k' else some k'

-- What k_task_sleep does before it chooses a task.
unfoldable pub fall_asleep : ℕ → Kernel → Kernel
fall_asleep stime k =
    set_task k.current_tid
      (record (task_at k k.current_tid) {
        state = task_blocked;
        sleep_until = add32 k.jiffy stime;
        signal_flag = 0;
      })
      k

unfoldable pub k_task_sleep : ℕ → Kernel → Option Kernel
k_task_sleep stime k = dispatch (fall_asleep stime k)

unfoldable pub k_task_yield : Kernel → Option Kernel
k_task_yield k = dispatch (set_state k.current_tid task_ready k)

unfoldable pub k_mutex_lock : Kernel → Option Kernel
k_mutex_lock k =
    if k.mutex == 0
    then some (record k { mutex = 1 })
    else dispatch (set_state k.current_tid task_mutex_blocked k)

unfoldable pub k_mutex_unlock : Kernel → Kernel
k_mutex_unlock k = record k { mutex = 0 }
