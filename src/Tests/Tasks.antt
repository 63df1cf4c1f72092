-- ===== src/Tests/Tasks.antt =====
-- The two tasks of main.c, run from the boot on.
use pascal_scheduler.Prelude.{
  ℕ, zero, suc, ◌≤◌, ◌≡◌, refl, Bool, true, false, List, [], ◌∷◌, Option, none, some, ◌>>=◌, leb,
  if◌then◌else◌, arith, sym, ◌∙◌, inl, inr, Bool-cases,
}
use mathlib.Core.Path.{subst}
use pascal_scheduler.Scheduler.State.{Kernel, blank_kernel}
use pascal_scheduler.Prelude.Word.{has_flag}
use pascal_scheduler.Scheduler.Ops.{
  scheduler, prepare_idle, scheduler_init, dispatch, tick, take_signal, k_task_sleep, fall_asleep,
  k_mutex_lock,
}
use pascal_scheduler.Scheduler.Register.{k_task_register}
use pascal_scheduler.Isr.{sys_sleep, mutex_lock, svc_dispatch}
use pascal_scheduler.Scheduler.Pick.{
  is_ready, scan, scan_task, scan_idle, round_robin, update_from, wake, grant, k_task_update_state,
  k_task_peek_next, pick,
}
use pascal_scheduler.Boot.{Boot, idling, fatal, unscheduled, start, register_tasks}
use pascal_scheduler.Main.{place_after, next_place}
use pascal_scheduler.Main.Brackets.{call_at, holds, held_after}
use pascal_scheduler.Main.Interleaving.{
  Interleaved, begin, interrupt, advances, perform, advance, inside,
}
use pascal_scheduler.Main.Clock.{main_programs, uses_clock, clock_alone}

abbrev timer : ℕ → ℕ × ℕ
timer n = (n, n)

abbrev no_memory : ℕ → ℕ
no_memory a = 0

kernel_of : Boot → Kernel
kernel_of (idling k) = k
kernel_of fatal = blank_kernel 0 no_memory
kernel_of unscheduled = blank_kernel 0 no_memory

is_idling : Boot → Bool
is_idling (idling k) = true
is_idling fatal = false
is_idling unscheduled = false

idling_lem : (b : Boot) → is_idling b ≡ true → b ≡ idling (kernel_of b)
unfolding is_idling kernel_of
idling_lem (idling k) e = refl
idling_lem fatal e = cc
idling_lem unscheduled e = cc

booted : Kernel
booted =
    kernel_of
      (start timer 32000000 false 536887296 (0x1001 ∷ 0x2001 ∷ []) (blank_kernel 0 no_memory))

-- One event: the current task takes a step if `b`, and else the timer interrupts it.
event : Bool → Kernel × (ℕ → ℕ) → Option (Kernel × (ℕ → ℕ))
event false (k, count) = do k' ← scheduler k; some (k', count)
event true (k, count) =
    if leb 1 k.current_tid
    then (do
      k' ← perform (call_at (main_programs k.current_tid) (count k.current_tid)) k
      some (k', advance k.current_tid count))
    else none

events : List Bool → Kernel × (ℕ → ℕ) → Option (Kernel × (ℕ → ℕ))
events [] s = some s
events (b ∷ bs) s = do s' ← event b s; events bs s'

-- The state at the end of a run that succeeds.
last : Kernel × (ℕ → ℕ) → Option (Kernel × (ℕ → ℕ)) → Kernel × (ℕ → ℕ)
last s none = s
last s (some t) = t

succeeds : Option (Kernel × (ℕ → ℕ)) → Bool
succeeds none = false
succeeds (some t) = true

abbrev Reached : Kernel × (ℕ → ℕ) → Type 0
Reached t = Interleaved main_programs booted t.0 t.1

tick-Reached :
    (l : Kernel) (count : ℕ → ℕ) (t : Kernel × (ℕ → ℕ)) (r : Option Kernel)
    → Reached (l, count)
    → scheduler l ≡ r
    → (r >>= λ (k : Kernel). some (k, count)) ≡ some t
    → Reached t
tick-Reached l count t none i e h = cc
tick-Reached l count t (some k) i e h = subst Reached {x = (k, count)} (cc (h)) (interrupt i e)

step-Reached :
    (l : Kernel) (count : ℕ → ℕ) (t : Kernel × (ℕ → ℕ)) (r : Option Kernel)
    → Reached (l, count)
    → 1 ≤ l.current_tid
    → perform (call_at (main_programs l.current_tid) (count l.current_tid)) l ≡ r
    → (r >>= λ (k : Kernel). some (k, advance l.current_tid count)) ≡ some t
    → Reached t
step-Reached l count t none i c e h = cc
step-Reached l count t (some k) i c e h =
    subst Reached {x = (k, advance l.current_tid count)} (cc (h)) (advances i c e)

event-Reached : (b : Bool) (s t : Kernel × (ℕ → ℕ)) → Reached s → event b s ≡ some t → Reached t
unfolding event
event-Reached false (l, count) t i h = tick-Reached l count t (scheduler l) i refl h
event-Reached true (l, count) t i h = elim (Bool-cases (leb 1 l.current_tid)) [
  | inl c ↦
      step-Reached l count t
        (perform (call_at (main_programs l.current_tid) (count l.current_tid)) l) i
        (ground (arith, c)) refl (sym (rw c refl) ∙ h)
  | inr c ↦ cc (h, c)
]

more-Reached :
    (d : Kernel × (ℕ → ℕ)) (b : Bool) (bs : List Bool) (s : Kernel × (ℕ → ℕ))
    (r : Option (Kernel × (ℕ → ℕ)))
    → Reached s
    → event b s ≡ r
    → ((t : Kernel × (ℕ → ℕ))
        → Reached t
        → succeeds (events bs t) ≡ true
        → Reached (last d (events bs t)))
    → succeeds (r >>= events bs) ≡ true
    → Reached (last d (r >>= events bs))
unfolding succeeds
more-Reached d b bs s none i e rest ok = cc
more-Reached d b bs s (some t) i e rest ok = rest t (event-Reached b s t i e) ok

events-Reached :
    (d : Kernel × (ℕ → ℕ)) (bs : List Bool) (s : Kernel × (ℕ → ℕ))
    → Reached s
    → succeeds (events bs s) ≡ true
    → Reached (last d (events bs s))
unfolding events last
events-Reached d [] s i ok = i
events-Reached d (b ∷ bs) s i ok =
    more-Reached d b bs s (event b s) i refl (λ t it okt. events-Reached d bs t it okt) ok

-- uart_task sets the clock and sleeps, mutex_task runs until the sleeper is due, and uart_task locks the mutex.
interrupts : ℕ → List Bool
interrupts zero = true ∷ []
interrupts (suc n) = false ∷ interrupts n

script : List Bool
script = false ∷ true ∷ true ∷ interrupts 101

abbrev nothing : Kernel × (ℕ → ℕ)
nothing = (booted, λ j. 0)

final : Kernel × (ℕ → ℕ)
final = last nothing (events script nothing)

at_the_clock :
    (succeeds (events script nothing) ≡ true)
    × (uses_clock (call_at (main_programs final.0.current_tid) (final.1 final.0.current_tid))
        ≡ true)
    × (final.0.current_tid ≡ 1)
    × (inside main_programs final.0 final.1 1 ≡ true)
unfolding succeeds events event script interrupts final last booted kernel_of start register_tasks
    k_task_register prepare_idle scheduler_init main_programs call_at place_after next_place advance
    perform sys_sleep mutex_lock svc_dispatch k_task_sleep fall_asleep k_mutex_lock inside holds
    held_after scheduler dispatch tick take_signal k_task_peek_next pick scan scan_idle scan_task
    round_robin is_ready has_flag k_task_update_state update_from wake grant
at_the_clock = (refl, refl, refl, refl)

booted_lem :
    start timer 32000000 false 536887296 (0x1001 ∷ 0x2001 ∷ []) (blank_kernel 0 no_memory)
    ≡ idling booted
unfolding booted is_idling start register_tasks k_task_register prepare_idle scheduler_init
booted_lem =
    idling_lem
      (start timer 32000000 false 536887296 (0x1001 ∷ 0x2001 ∷ []) (blank_kernel 0 no_memory)) refl

final_reached : Interleaved main_programs booted final.0 final.1
unfolding final
final_reached = events-Reached nothing script nothing begin at_the_clock.0

clock_alone_example : 1 ≡ final.0.current_tid
clock_alone_example =
    clock_alone timer 32000000 false 536887296 0 0x1001 0x2001 no_memory booted final.0 final.1
      booted_lem final_reached at_the_clock.1 1 at_the_clock.3
