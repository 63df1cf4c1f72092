-- ===== src/System/Sleep.antt =====
-- k_task_sleep: how long a task sleeps.
pub mod Asleep
use pascal_scheduler.Prelude.{
  ℕ, ◌+◌, ◌<◌, ◌≤◌, ◌^◌, ◌≡◌, ◌≢◌, inl, inr, refl, ◌∙◌, false, ◌==◌, Option, some, length, arith,
  ap, sym, Bool-cases, ◌>>=◌, List, [], ◌∷◌,
}
use pascal_scheduler.Prelude.Word.{has_flag, add32, long_lt}
use pascal_scheduler.Scheduler.State.{Task, Kernel, task_blocked, state_of, task_at}
use pascal_scheduler.Scheduler.State.Table.{task_at-set_task_self}
use pascal_scheduler.Scheduler.Pick.{is_ready, Scan, idle, task, k_task_update_state}
use pascal_scheduler.Scheduler.Pick.Sleepers.{task_at-update_from_asleep}
use pascal_scheduler.Scheduler.Pick.Search.{Found, first}
use pascal_scheduler.Scheduler.Ops.{
  dispatch, take_signal, tick, scheduler, fall_asleep, k_task_sleep, k_task_yield, k_mutex_lock,
  k_mutex_unlock,
}
use pascal_scheduler.Scheduler.Ops.Dispatch.{IsValid, dispatch_lem, tid_of}
use pascal_scheduler.Isr.{
  svc_dispatch, svc_sleep, svc_yield, svc_mutex_lock, svc_mutex_unlock, sys_sleep,
}
use pascal_scheduler.Signals.{signal_raise, signal_wait}
use pascal_scheduler.System.{Event, systick, svc, raise, wait, step, run, ticks}
use pascal_scheduler.System.Valid.{
  Parks, AllParked-Parks, Parks-tick, Parks-fall_asleep, Parks-ready, Parks-mutex_blocked,
  IsValid-mutex, IsValid-signals,
}
use pascal_scheduler.System.Sleep.Asleep.{
  SleepsOn, Rests, dispatch-Rests, parked-Rests, stay-Rests, jiffy-tick, time_after,
}

svc-Rests :
    {k : Kernel} (t number arg : ℕ)
    → IsValid k
    → 1 ≤ t
    → t ≢ k.current_tid
    → state_of k t ≡ task_blocked
    → long_lt (task_at k t).sleep_until k.jiffy ≡ false
    → Rests t k k.jiffy (svc_dispatch number arg k)
unfolding svc_dispatch k_task_sleep k_task_yield k_mutex_unlock k_mutex_lock fall_asleep
svc-Rests {k} t number arg v t1 other b d = elim (Bool-cases (number == svc_sleep)) [
  | inl a ↦ rw a (parked-Rests t v (Parks-fall_asleep arg v) t1 other b d)
  | inr a ↦ elim (Bool-cases (number == svc_yield)) [
    | inl y ↦ rw (a, y) (parked-Rests t v (Parks-ready v) t1 other b d)
    | inr y ↦ elim (Bool-cases (number == svc_mutex_lock)) [
      | inl c ↦ elim (Bool-cases (k.mutex == 0)) [
        | inl free ↦
            rw (a, y, c, free)
              (stay-Rests k (record k { mutex = 1 }) t (IsValid-mutex 1 (omega arith) v) refl refl
                refl)
        | inr taken ↦ rw (a, y, c, taken) (parked-Rests t v (Parks-mutex_blocked v) t1 other b d)
      ]
      | inr c ↦ elim (Bool-cases (number == svc_mutex_unlock)) [
        | inl u ↦
            rw (a, y, c, u)
              (stay-Rests k (record k { mutex = 0 }) t (IsValid-mutex 0 (omega arith) v) refl refl
                refl)
        | inr u ↦ rw (a, y, c, u) (stay-Rests k k t v refl refl refl)
      ]
    ]
  ]
]

pub step-Rests :
    {k : Kernel} (t : ℕ) (e : Event)
    → IsValid k
    → 1 ≤ t
    → t ≢ k.current_tid
    → state_of k t ≡ task_blocked
    → long_lt (task_at k t).sleep_until (time_after e k.jiffy) ≡ false
    → Rests t k (time_after e k.jiffy) (step e k)
unfolding step scheduler signal_raise signal_wait
step-Rests {k} t systick v t1 other b d =
    rw (← jiffy-tick k) (parked-Rests t v (Parks-tick v) t1 other b (rw (jiffy-tick k) d))
step-Rests t (svc number arg) v t1 other b d = svc-Rests t number arg v t1 other b d
step-Rests {k} t (raise s) v t1 other b d =
    stay-Rests k (signal_raise s k) t (IsValid-signals _ _ _ v) refl refl refl
step-Rests {k} t (wait s) v t1 other b d =
    stay-Rests k (signal_wait s k) t (IsValid-signals _ _ _ v) refl refl refl

-- Up to 2 ^ 31 the patterns are in the order of the numbers.
pub long_lt-le : (a b : ℕ) → b ≤ a → a < 2 ^ 31 → long_lt a b ≡ false
long_lt-le a b h s = ground arith

pub ticks-cons :
    (e : Event) (es : List Event) (j : ℕ)
    → j + ticks (e ∷ es) < 2 ^ 31
    → time_after e j + ticks es ≡ j + ticks (e ∷ es)
unfolding ticks
ticks-cons systick es j h = omega arith
ticks-cons (svc number arg) es j h = refl
ticks-cons (raise s) es j h = refl
ticks-cons (wait s) es j h = refl

pub not_current : {k : Kernel} (t : ℕ) → IsValid k → state_of k t ≡ task_blocked → t ≢ k.current_tid
not_current {k} t v b e = ground (arith, sym b ∙ ap (state_of k) e ∙ v.running)

-- A sleeping task stays asleep, and off the processor, in every run whose timer interrupts do not
-- lead past its time.
sleeps_on :
    (t until : ℕ) (es : List Event) {k : Kernel}
    → IsValid k
    → 1 ≤ t
    → state_of k t ≡ task_blocked
    → (task_at k t).sleep_until ≡ until
    → until < 2 ^ 31
    → k.jiffy + ticks es ≤ until
    → (k' : Kernel) × (run es k ≡ some k') × (state_of k' t ≡ task_blocked) × (k'.current_tid ≢ t)
unfolding run
sleeps_on t until [] {k} v t1 b s small h = (k, refl, b, λ e. not_current t v b (sym e))
sleeps_on t until (e ∷ es) {k} v t1 b s small h =
    let (k', stepped, r) = step-Rests t e v t1 (not_current t v b) b (
      rw s
        (long_lt-le until (time_after e k.jiffy) (omega (arith, ticks-cons e es k.jiffy)) small)) in
    rw stepped (
      sleeps_on t until es r.valid t1 (rw (r.same, state_of) b) (rw r.same s) small
        (rw r.jiffy (omega (arith, ticks-cons e es k.jiffy))))

pub fall_asleep_own :
    (k : Kernel) (ms : ℕ)
    → k.current_tid < length k.tasks
    → k.jiffy + ms < 2 ^ 31
    → (state_of (fall_asleep ms k) k.current_tid ≡ task_blocked)
      × ((task_at (fall_asleep ms k) k.current_tid).sleep_until ≡ k.jiffy + ms)
unfolding fall_asleep
fall_asleep_own k ms h small =
    let written =
      task_at-set_task_self k k.current_tid
        (record (task_at k k.current_tid) {
          state = task_blocked;
          sleep_until = add32 k.jiffy ms;
          signal_flag = 0;
        })
        h in
    (ap (λ (t : Task). t.state) written, ap (λ (t : Task). t.sleep_until) written ∙ omega arith)

-- sys_sleep (syscall.c) sleeps for at least the given time: while the timer interrupts that follow the
-- call number at most `ms`, whatever else happens, the task is blocked and not current. (The clock
-- must stay below 2 ^ 31, where `long int` ends, and the idle task does not sleep.)
pub sys_sleep_at_least :
    (ms : ℕ) (es : List Event) {k : Kernel}
    → IsValid k
    → 1 ≤ k.current_tid
    → k.jiffy + ms < 2 ^ 31
    → ticks es ≤ ms
    → (k' : Kernel) × ((sys_sleep ms k >>= run es) ≡ some k')
      × (state_of k' k.current_tid ≡ task_blocked)
      × (k'.current_tid ≢ k.current_tid)
unfolding sys_sleep svc_dispatch k_task_sleep fall_asleep
sys_sleep_at_least ms es {k} v c1 small h =
    let (k', slept, r) =
      dispatch-Rests k.current_tid v (Parks-fall_asleep ms v) c1 own.0
        (rw own.1 (long_lt-le (k.jiffy + ms) k.jiffy (omega arith) small)) in
    rw slept (
      sleeps_on k.current_tid (k.jiffy + ms) es r.valid c1 (rw (r.same, state_of) own.0)
        (rw r.same own.1) small (rw r.jiffy (omega arith)))
  where
    own :
        (state_of (fall_asleep ms k) k.current_tid ≡ task_blocked)
        × ((task_at (fall_asleep ms k) k.current_tid).sleep_until ≡ k.jiffy + ms)
    own = fall_asleep_own k ms (omega (arith, v.size, v.room, v.current)) (omega arith)
