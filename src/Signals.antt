-- ===== src/Signals.antt =====
-- signals.c. The loop in which signal_wait spins ends when the scheduler has cleared `signal_flag`.
use pascal_scheduler.Prelude.{ℕ, ◌+◌, ◌<◌, ◌≡◌, refl, arith, Bool, not, ◌==◌, bit_or}
use pascal_scheduler.Prelude.Tables.{all_below, all_below-holds}
use pascal_scheduler.Scheduler.State.{Kernel}

unfoldable pub signal_raise : ℕ → Kernel → Kernel
signal_raise signal k = record k { signals_flags = bit_or k.signals_flags signal }

-- What signal_wait does before its loop: it asks the scheduler to block the task, and sets the timer
-- so that the scheduler comes at once.
unfoldable pub signal_wait : ℕ → Kernel → Kernel
signal_wait signal k = record k { signal_flag = signal; systick_val = 0 }

-- The test of the loop.
unfoldable pub signal_wait_spins : Kernel → Bool
signal_wait_spins k = not (k.signal_flag == 0)

-- "Constants: Signals IDs" of signals.h
abbrev pub signals_rtc : ℕ
signals_rtc = 1

abbrev pub signals_adc : ℕ
signals_adc = 2

abbrev pub signals_serial : ℕ
signals_serial = 4

abbrev pub signals_task : ℕ
signals_task = 256

-- TASK_SYNCHONISATION
unfoldable pub task_synchonisation : ℕ → ℕ
task_synchonisation x = bit_or signals_task (signals_task + x)

-- An offset below 256 has an identifier of its own.
task_synchonisation_lem : (x : ℕ) → x < 256 → task_synchonisation x ≡ 256 + x
unfolding task_synchonisation all_below
task_synchonisation_lem x h =
    ground (arith, all_below-holds 256 (λ (y : ℕ). bit_or 256 (256 + y) == 256 + y) x refl h)

-- The offsets 256 and 512 have the same one.
task_synchonisation_twice : task_synchonisation 256 ≡ task_synchonisation 512
unfolding task_synchonisation
task_synchonisation_twice = refl
