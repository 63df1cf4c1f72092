-- ===== src/Tests/Scheduling.antt =====
-- A system of two tasks.
use pascal_scheduler.Prelude.{
  ℕ, zero, suc, ◌+◌, ◌-◌, ◌<◌, ◌≤◌, ◌≡◌, ◌≢◌, ◌⊎◌, inl, refl, true, false, some, arith, List, [],
  ◌∷◌, replicate, get_or, ◌>>=◌,
}
use pascal_scheduler.Prelude.Word.{has_flag}
use pascal_scheduler.Scheduler.State.{
  Task, Kernel, blank_task, blank_kernel, task_ready, task_running, task_blocked, task_at, state_of,
  task_mutex_blocked,
}
use pascal_scheduler.Scheduler.Pick.{
  is_ready, scan, scan_task, scan_idle, round_robin, update_from, wake, grant, k_task_update_state,
  k_task_peek_next, pick,
}
use pascal_scheduler.Scheduler.Pick.Search.{scan_lem, Finds}
use pascal_scheduler.Scheduler.Pick.Handoff.{Handoff, Handoff-update_from, waits}
use pascal_scheduler.Scheduler.Ops.{scheduler, dispatch, tick, take_signal}
use pascal_scheduler.Scheduler.Ops.Dispatch.{IsValid, IsParked}
use pascal_scheduler.Scheduler.Register.{k_task_register, success, stack_base}
use pascal_scheduler.Scheduler.Register.Frame.{k_task_register_lem, IsInitialFrame}
use pascal_scheduler.Boot.{idling, start}
use pascal_scheduler.Boot.Started.{start_lem}
use pascal_scheduler.Isr.{svc_dispatch, sys_sleep, svc_mutex_lock}
use pascal_scheduler.Signals.{signal_wait, signal_wait_spins}
use pascal_scheduler.Scheduler.Ops.{k_mutex_lock}
use pascal_scheduler.System.{
  Event, systick, svc, wait, step, run, switches, switch_count, gets_turn, ticks, Reach, here, next,
  sections,
}
use pascal_scheduler.System.Valid.{run-Succeeds, Succeeds}
use pascal_scheduler.System.Fairness.{starvation_free}
use pascal_scheduler.System.Sleep.{sys_sleep_at_least}
use pascal_scheduler.System.Return.{sys_sleep_at_most}
use pascal_scheduler.System.Wakeup.{signal_wait-does_not_wait}
use pascal_scheduler.System.Exclusion.{mutual_exclusion, Exclusive}

abbrev in_state : ℕ → Task
in_state s = record blank_task { state = s }

abbrev table : Task → List Task
table second = in_state task_ready ∷ in_state task_running ∷ second ∷ replicate 5 blank_task

abbrev no_memory : ℕ → ℕ
no_memory a = 0

-- Task 1 runs, and the second task is as given.
abbrev pair_with : Task → Kernel
pair_with second = record (blank_kernel 31999 no_memory) {
  current_tid = 1;
  registered_tasks = 2;
  tasks = table second;
  jiffy = 100;
}

-- Task 2 is ready.
abbrev pair : Kernel
pair = pair_with (in_state task_ready)

blank_behind : (n i : ℕ) → get_or (replicate n blank_task) i blank_task ≡ blank_task
blank_behind zero i = refl
blank_behind (suc n) zero = refl
blank_behind (suc n) (suc i) = blank_behind n i

pair_with-IsValid : (t : Task) → IsParked t.state → IsValid (pair_with t)
pair_with-IsValid t p = record {
  size = refl;
  room = omega arith;
  current = omega arith;
  bit = omega arith;
  unused = unused_blank;
  running = refl;
  others = others_parked;
}
  where
    unused_blank : (i : ℕ) → 2 < i → state_of (pair_with t) i ≡ 0
    unused_blank zero h = absurd (omega arith)
    unused_blank (suc zero) h = absurd (omega arith)
    unused_blank (suc (suc zero)) h = absurd (omega arith)
    unused_blank (suc (suc (suc i))) h = λ j. (blank_behind 5 i j).state

    others_parked : (i : ℕ) → i ≤ 2 → i ≢ 1 → IsParked (state_of (pair_with t) i)
    others_parked zero h ne = inl refl
    others_parked (suc zero) h ne = absurd (ne refl)
    others_parked (suc (suc zero)) h ne = p
    others_parked (suc (suc (suc i))) h ne = absurd (omega arith)

pair-IsValid : IsValid pair
pair-IsValid = pair_with-IsValid (in_state task_ready) (inl refl)

abbrev two_ticks : List Event
two_ticks = systick ∷ systick ∷ []

count-two_ticks : switch_count two_ticks pair ≡ 2
unfolding switch_count switches step scheduler dispatch tick take_signal k_task_peek_next pick scan
    scan_idle scan_task round_robin is_ready has_flag k_task_update_state update_from wake grant
count-two_ticks = refl

starvation_free_example : gets_turn 2 two_ticks pair ≡ true
starvation_free_example =
    starvation_free 2 two_ticks pair-IsValid (omega arith) (omega arith) refl
      (omega (arith, count-two_ticks))

run-Succeeds_example :
    Succeeds (run (svc 2 0 ∷ systick ∷ svc 2 0 ∷ svc 7 1 ∷ wait 4 ∷ systick ∷ []) pair)
run-Succeeds_example =
    run-Succeeds (svc 2 0 ∷ systick ∷ svc 2 0 ∷ svc 7 1 ∷ wait 4 ∷ systick ∷ []) pair-IsValid

sys_sleep_at_least_example :
    (k' : Kernel) × ((sys_sleep 2 pair >>= run two_ticks) ≡ some k')
    × (state_of k' 1 ≡ task_blocked)
    × (k'.current_tid ≢ 1)
unfolding ticks
sys_sleep_at_least_example =
    sys_sleep_at_least 2 two_ticks pair-IsValid (omega arith) (omega arith) (omega arith)

abbrev five_ticks : List Event
five_ticks = systick ∷ systick ∷ systick ∷ systick ∷ systick ∷ []

sys_sleep_at_most_example :
    (k' : Kernel) × (sys_sleep 2 pair ≡ some k')
    × (k'.current_tid ≢ 1)
    × (gets_turn 1 five_ticks k' ≡ true)
unfolding ticks
sys_sleep_at_most_example =
    sys_sleep_at_most 2 five_ticks pair-IsValid (omega arith) (omega arith) (omega arith)

signal_wait-does_not_wait_example :
    (k' : Kernel) × (scheduler (signal_wait 256 pair) ≡ some k')
    × (state_of k' 1 ≡ task_ready)
    × (signal_wait_spins k' ≡ false)
signal_wait-does_not_wait_example =
    signal_wait-does_not_wait 256 pair-IsValid (omega arith) (λ e. absurd (omega arith))
      (omega arith)

abbrev locked : Kernel
locked = record pair { mutex = 1 }

step-locked : step (svc svc_mutex_lock 0) pair ≡ some locked
unfolding step svc_dispatch k_mutex_lock
step-locked = refl

-- Task 1 has locked the mutex.
locked-Reach : Reach pair locked (sections (svc svc_mutex_lock 0) pair locked (λ j. false))
locked-Reach =
    next (svc svc_mutex_lock 0) here (omega arith, (λ e. refl), (λ e. absurd (omega arith)))
      step-locked

mutual_exclusion_example :
    Exclusive locked (sections (svc svc_mutex_lock 0) pair locked (λ j. false))
unfolding has_flag
mutual_exclusion_example = mutual_exclusion pair-IsValid refl refl locked-Reach

scan_lem_example : Finds pair 1 (scan 1 pair)
scan_lem_example = scan_lem 1 pair (omega arith) (omega arith)

-- Task 2 waits for the mutex, which is free.
abbrev waiting : Kernel
waiting = pair_with (in_state task_mutex_blocked)

waiting-WaitsAlone :
    (j : ℕ) → waits waiting j ≡ true → has_flag (state_of waiting j) task_blocked ≡ false
unfolding has_flag
waiting-WaitsAlone zero w = refl
waiting-WaitsAlone (suc zero) w = refl
waiting-WaitsAlone (suc (suc zero)) w = refl
waiting-WaitsAlone (suc (suc (suc j))) w = rw (blank_behind 5 j)

Handoff-update_from_example : Handoff waiting (update_from 2 1 waiting) 1 2
Handoff-update_from_example = Handoff-update_from 2 1 waiting (omega arith) waiting-WaitsAlone

abbrev timer : ℕ → ℕ × ℕ
timer n = (n - 1, 0)

start_lem_example :
    (k : Kernel) × (start timer 32000000 true 536887296
        (0x1001 ∷ 0x2001 ∷ [])
        (blank_kernel 0 no_memory)
      ≡ idling k)
    × IsValid k
    × (k.registered_tasks ≡ 2)
    × (k.current_tid ≡ 0)
    × (k.mutex ≡ 0)
    × ((j : ℕ) → 1 ≤ j → j ≤ 2 → state_of k j ≡ task_ready)
start_lem_example =
    start_lem timer 32000000 true 536887296 0 (0x1001 ∷ 0x2001 ∷ []) no_memory (omega arith)

k_task_register_lem_example :
    let (r, k') = k_task_register 536887296 0x1001 pair in
    let base = stack_base 536887296 3 in
    (r ≡ success)
    × (k'.registered_tasks ≡ 3)
    × (state_of k' 3 ≡ task_ready)
    × ((task_at k' 3).sp ≡ base - 36)
    × IsInitialFrame k'.memory (base - 36) 0x1001
    × ((j : ℕ) → j ≢ 3 → task_at k' j ≡ task_at pair j)
    × ((a : ℕ) → (a + 36 < base) ⊎ (base ≤ a) → k'.memory a ≡ pair.memory a)
unfolding stack_base
k_task_register_lem_example =
    k_task_register_lem 536887296 0x1001 pair refl (omega arith) (omega arith)
