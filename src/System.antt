-- ===== src/System.antt =====
-- The running system as a sequence of events: timer interrupts, supervisor calls of the current task,
-- and the two functions of signals.c.
pub mod Valid
pub mod Fairness
pub mod Sleep
pub mod Wakeup
pub mod Return
pub mod Exclusion
use pascal_scheduler.Prelude.{
  ℕ, ◌+◌, ◌≤◌, ◌≡◌, Bool, true, false, not, ◌||◌, ◌&&◌, ◌==◌, if◌then◌else◌, Option, none, some,
  List, [], ◌∷◌, ◌>>=◌,
}
use pascal_scheduler.Prelude.Word.{has_flag}
use pascal_scheduler.Scheduler.State.{Kernel, state_of, task_mutex_blocked}
use pascal_scheduler.Scheduler.Ops.{scheduler}
use pascal_scheduler.Isr.{svc_dispatch, svc_sleep, svc_yield, svc_mutex_lock, svc_mutex_unlock}
use pascal_scheduler.Signals.{signal_raise, signal_wait}

pub data Event : Type 0 where
  systick : Event
  svc : ℕ → ℕ → Event
  raise : ℕ → Event
  wait : ℕ → Event

unfoldable pub step : Event → Kernel → Option Kernel
step systick k = scheduler k
step (svc number arg) k = svc_dispatch number arg k
step (raise signal) k = some (signal_raise signal k)
step (wait signal) k = some (signal_wait signal k)

unfoldable pub run : List Event → Kernel → Option Kernel
run [] k = some k
run (e ∷ es) k = step e k >>= run es

-- Does the event make the scheduler choose a task?
unfoldable pub switches : Event → Kernel → Bool
switches systick k = true
switches (svc number arg) k =
    number == svc_sleep || number == svc_yield || (number == svc_mutex_lock && not (k.mutex == 0))
switches (raise signal) k = false
switches (wait signal) k = false

-- How often the scheduler chooses a task while the events run.
unfoldable pub switch_count : List Event → Kernel → ℕ
switch_count [] k = 0
switch_count (e ∷ es) k =
    (if switches e k then 1 else 0) + elim (step e k) [ none ↦ 0 | some k' ↦ switch_count es k' ]

-- Is `tid` the current task at some point of the run?
unfoldable pub gets_turn : ℕ → List Event → Kernel → Bool
gets_turn tid [] k = k.current_tid == tid
gets_turn tid (e ∷ es) k =
    k.current_tid == tid || elim (step e k) [ none ↦ false | some k' ↦ gets_turn tid es k' ]

-- How many of the events are timer interrupts.
unfoldable pub ticks : List Event → ℕ
ticks [] = 0
ticks (systick ∷ es) = 1 + ticks es
ticks (svc number arg ∷ es) = ticks es
ticks (raise signal ∷ es) = ticks es
ticks (wait signal ∷ es) = ticks es

-- Which tasks are between their mutex_lock and their mutex_unlock: ghost state, that no code keeps.
abbrev pub Section : Type 0
Section = ℕ → Bool

-- A task that has waited for the mutex and waits no longer has it.
unfoldable pub acquire : Kernel → Kernel → Section → Section
acquire k k' s j =
    s j
    || (has_flag (state_of k j) task_mutex_blocked
        && not (has_flag (state_of k' j) task_mutex_blocked))

-- The sections behind the event that has led from `k` to `k'`.
unfoldable pub sections : Event → Kernel → Kernel → Section → Section
sections systick k k' s = acquire k k' s
sections (svc number arg) k k' s =
    if number == svc_mutex_lock
    then (if k.mutex == 0 then (λ j. (j == k.current_tid) || s j) else acquire k k' s)
    else (if number == svc_mutex_unlock
        then (λ j. not (j == k.current_tid) && s j)
        else acquire k k' s)
sections (raise signal) k k' s = s
sections (wait signal) k k' s = s

-- The use of the mutex that is meant: tasks lock what they have not locked, and unlock what they
-- have; the idle task makes no supervisor calls.
abbrev pub Disciplined : Event → Kernel → Section → Type 0
Disciplined systick k s = Unit {0}
Disciplined (svc number arg) k s =
    (1 ≤ k.current_tid)
    × (number ≡ svc_mutex_lock → s k.current_tid ≡ false)
    × (number ≡ svc_mutex_unlock → s k.current_tid ≡ true)
Disciplined (raise signal) k s = Unit {0}
Disciplined (wait signal) k s = Unit {0}

-- The states that disciplined runs reach from `k`, where nobody is in a section.
pub data Reach (k : Kernel) : Kernel → Section → Type 0 where
  here : Reach k k (λ j. false)
  next :
      {l l' : Kernel} {s : Section} (e : Event)
      → Reach k l s
      → Disciplined e l s
      → step e l ≡ some l'
      → Reach k l' (sections e l l' s)
