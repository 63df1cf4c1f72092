-- ===== src/Main/Clock.antt =====
-- The two tasks, from the boot on: nobody disturbs the task that reads and prints the clock.
use pascal_scheduler.Prelude.{
  ℕ, zero, suc, ◌≤◌, ◌≡◌, refl, sym, ap, Bool, true, false, [], ◌∷◌, get_or, arith,
}
use native.Mathlib.Decide.{dec_le}
use mathlib.Core.Path.{subst}
use pascal_scheduler.Prelude.Word.{has_flag}
use pascal_scheduler.Scheduler.State.{
  Kernel, state_of, task_ready, task_mutex_blocked, blank_kernel,
}
use pascal_scheduler.Scheduler.Pick.Handoff.{waits}
use pascal_scheduler.Scheduler.Ops.Dispatch.{IsValid}
use pascal_scheduler.System.Exclusion.{running-waits}
use pascal_scheduler.Boot.{start, idling}
use pascal_scheduler.Boot.Started.{start_lem}
use pascal_scheduler.Main.{Step, rtc_update, rtc_print, Program, os_task_list}
use pascal_scheduler.Main.Brackets.{allowed, held_after, call_at, holds, tasks-allowed}
use pascal_scheduler.Main.Interleaving.{
  Interleaved, inside, AllBracketed, tasks_exclude, Interleaved-IsValid,
}

-- What runs as the idle task and under numbers that belong to no task: no step that concerns the mutex.
abbrev pub no_task : Program
no_task = record { calls = []; loop = 0 }

-- The tasks are registered in the order of the list, from 1 on.
unfoldable pub main_programs : ℕ → Program
main_programs zero = no_task
main_programs (suc i) = get_or os_task_list i no_task

no_task-holds : (n : ℕ) → holds no_task n ≡ false
unfolding holds call_at held_after
no_task-holds zero = refl
no_task-holds (suc n) = no_task-holds n

no_task-allowed : (n : ℕ) → allowed (call_at no_task n) (holds no_task n) ≡ true
unfolding call_at allowed
no_task-allowed n = rw (no_task-holds n) refl

main_programs-AllBracketed : AllBracketed main_programs
unfolding main_programs
main_programs-AllBracketed zero n = no_task-allowed n
main_programs-AllBracketed (suc zero) n = (tasks-allowed n).0
main_programs-AllBracketed (suc (suc zero)) n = (tasks-allowed n).1
main_programs-AllBracketed (suc (suc (suc i))) n = no_task-allowed n

-- Nobody waits in a system that has just started.
started_calm :
    (k : Kernel) (n : ℕ)
    → IsValid k
    → k.registered_tasks ≡ n
    → k.current_tid ≡ 0
    → ((j : ℕ) → 1 ≤ j → j ≤ n → state_of k j ≡ task_ready)
    → (j : ℕ) → waits k j ≡ false
unfolding has_flag
started_calm k n v count current ready zero =
    subst (λ (t : ℕ). waits k t ≡ false) current (running-waits v)
started_calm k n v count current ready (suc j) = elim (dec_le (suc j) n) [
  | yes le ↦ ap (λ (st : ℕ). has_flag st task_mutex_blocked) (ready (suc j) (omega arith) le)
  | no gt ↦
      ap (λ (st : ℕ). has_flag st task_mutex_blocked) (v.unused (suc j) (omega (arith, gt, count)))
]

-- Does the step read or print the clock?
abbrev pub uses_clock : Step → Bool
uses_clock rtc_update = true
uses_clock rtc_print = true
uses_clock other = false

uses_clock-allowed : (c : Step) (b : Bool) → uses_clock c ≡ true → allowed c b ≡ true → b ≡ true
unfolding allowed
uses_clock-allowed rtc_update b u a = a
uses_clock-allowed rtc_print b u a = a
uses_clock-allowed c b u a = cc

current_inside :
    (l : Kernel) (count : ℕ → ℕ)
    → uses_clock (call_at (main_programs l.current_tid) (count l.current_tid)) ≡ true
    → IsValid l
    → inside main_programs l count l.current_tid ≡ true
unfolding inside
current_inside l count u v = rw (running-waits v, held) refl
  where
    held : holds (main_programs l.current_tid) (count l.current_tid) ≡ true
    held =
        uses_clock-allowed (call_at (main_programs l.current_tid) (count l.current_tid))
          (holds (main_programs l.current_tid) (count l.current_tid)) u
          (main_programs-AllBracketed l.current_tid (count l.current_tid))

-- From the boot with the two tasks on, in whatever order their steps and the timer interrupts come: while the
-- current task is about to read or print the clock, no other task is inside its section.
pub clock_alone :
    (config : ℕ → ℕ × ℕ) (clock : ℕ) (pending : Bool) (top load f g : ℕ) (memory : ℕ → ℕ)
    (k l : Kernel) (count : ℕ → ℕ)
    → start config clock pending top (f ∷ g ∷ []) (blank_kernel load memory) ≡ idling k
    → Interleaved main_programs k l count
    → uses_clock (call_at (main_programs l.current_tid) (count l.current_tid)) ≡ true
    → (j : ℕ) → inside main_programs l count j ≡ true
    → j ≡ l.current_tid
clock_alone config clock pending top load f g memory k l count e i u j h =
    let (k1, e1, v, two, current, free, ready) =
      start_lem config clock pending top load (f ∷ g ∷ []) memory (omega arith) in
    let same : k1 ≡ k = cc (e, e1) in
    let i1 = subst (λ (t : Kernel). Interleaved main_programs t l count) (sym same) i in
    let calm = started_calm k1 2 v two current ready in
    tasks_exclude main_programs main_programs-AllBracketed v free calm i1 j l.current_tid h (
      current_inside l count u
        (Interleaved-IsValid main_programs main_programs-AllBracketed v free calm i1))
