-- ===== src/Tests/Starting.antt =====
-- The boot of two tasks with an interrupt between the registrations.
use pascal_scheduler.Prelude.{
  ℕ, ◌+◌, ◌≡◌, refl, Bool, true, false, [], ◌∷◌, Option, none, some, arith, inl,
}
use pascal_scheduler.Scheduler.State.{Kernel, blank_kernel}
use pascal_scheduler.Prelude.Word.{has_flag}
use pascal_scheduler.Scheduler.Ops.{
  scheduler, prepare_idle, scheduler_init, dispatch, tick, take_signal,
}
use pascal_scheduler.Scheduler.Ops.Dispatch.{IsValid}
use pascal_scheduler.Scheduler.Register.{success, k_task_register}
use pascal_scheduler.Scheduler.Pick.{
  is_ready, scan, scan_task, scan_idle, round_robin, update_from, wake, grant, k_task_update_state,
  k_task_peek_next, pick,
}
use pascal_scheduler.System.{systick, step}
use pascal_scheduler.Boot.{idling, register_tasks}
use pascal_scheduler.Boot.Interrupted.{Booting, begin, registers, happens, booting_lem}

abbrev timer : ℕ → ℕ × ℕ
timer n = (n, n)

abbrev no_memory : ℕ → ℕ
no_memory a = 0

kernel_or : Option Kernel → Kernel
kernel_or none = blank_kernel 0 no_memory
kernel_or (some k) = k

is_some : Option Kernel → Bool
is_some none = false
is_some (some k) = true

some_lem : (o : Option Kernel) → is_some o ≡ true → o ≡ some (kernel_or o)
unfolding is_some kernel_or
some_lem none e = cc
some_lem (some k) e = refl

abbrev bare : Kernel
bare = kernel_or (scheduler_init timer 32000000 true (blank_kernel 0 no_memory))

abbrev with_one : Kernel
with_one = (k_task_register 536887296 0x1001 bare).1

abbrev switched : Kernel
switched = kernel_or (scheduler with_one)

bare_lem : scheduler_init timer 32000000 true (blank_kernel 0 no_memory) ≡ some bare
unfolding is_some scheduler_init prepare_idle scheduler dispatch tick take_signal k_task_peek_next
    pick scan scan_idle scan_task round_robin is_ready has_flag k_task_update_state update_from wake
    grant
bare_lem = some_lem (scheduler_init timer 32000000 true (blank_kernel 0 no_memory)) refl

with_one_lem : k_task_register 536887296 0x1001 bare ≡ (success, with_one)
unfolding kernel_or scheduler_init prepare_idle scheduler dispatch tick take_signal k_task_peek_next
    pick scan scan_idle scan_task round_robin is_ready has_flag k_task_update_state update_from wake
    grant k_task_register
with_one_lem = refl

switched_lem : (scheduler with_one ≡ some switched) × (switched.current_tid ≡ 1)
unfolding is_some kernel_or scheduler_init prepare_idle scheduler dispatch tick take_signal
    k_task_peek_next pick scan scan_idle scan_task round_robin is_ready has_flag k_task_update_state
    update_from wake grant k_task_register
switched_lem = (some_lem (scheduler with_one) refl, refl)

idle_runs : bare.current_tid ≡ 0
unfolding kernel_or scheduler_init prepare_idle scheduler dispatch tick take_signal k_task_peek_next
    pick scan scan_idle scan_task round_robin is_ready has_flag k_task_update_state update_from wake
    grant
idle_runs = refl

halfway : Booting 536887296 (0x1001 ∷ 0x2001 ∷ []) bare (0x2001 ∷ []) switched
unfolding step
halfway = happens systick (registers begin idle_runs with_one_lem) (inl refl) switched_lem.0

booting_lem_example :
    IsValid switched
    × (switched.registered_tasks + 1 ≡ 2)
    × ((l' : Kernel) × (register_tasks 536887296 (0x2001 ∷ []) switched ≡ idling l')
        × IsValid l'
        × (l'.registered_tasks ≡ 2))
booting_lem_example =
    booting_lem timer 32000000 true 536887296 0 (0x1001 ∷ 0x2001 ∷ []) (0x2001 ∷ []) no_memory bare
      switched (omega arith) bare_lem halfway
