-- ===== src/System/Return.antt =====
-- When a task that sleeps gets the processor again.
use pascal_scheduler.Prelude.{
  ℕ, ◌+◌, ◌<◌, ◌≤◌, ◌^◌, ◌≡◌, ◌≢◌, inl, inr, true, some, arith, sym, List, [], ◌∷◌, dec_lt,
}
use pascal_scheduler.Scheduler.State.{Kernel, task_blocked, state_of, task_at}
use pascal_scheduler.Scheduler.Ops.{fall_asleep, k_task_sleep}
use pascal_scheduler.Scheduler.Ops.Dispatch.{IsValid}
use pascal_scheduler.Isr.{svc_dispatch, sys_sleep}
use pascal_scheduler.System.{
  Event, systick, svc, raise, wait, step, switches, switch_count, gets_turn, ticks,
}
use pascal_scheduler.System.Valid.{step-Succeeds, Parks, Parks-fall_asleep}
use pascal_scheduler.System.Fairness.{starvation_free, gets_turn_now, gets_turn_later}
use pascal_scheduler.System.Sleep.{step-Rests, not_current, fall_asleep_own, long_lt-le}
use pascal_scheduler.System.Sleep.Asleep.{dispatch-Rests, time_after}
use pascal_scheduler.System.Wakeup.{scheduler-due}

-- A timer interrupt is a switch.
ticks-switch_count : (es : List Event) {k : Kernel} → IsValid k → ticks es ≤ switch_count es k
unfolding ticks switch_count switches
ticks-switch_count [] v = omega arith
ticks-switch_count (systick ∷ es) v =
    let (k', e, v') = step-Succeeds systick v in rw e (omega (arith, ticks-switch_count es v'))
ticks-switch_count (svc number arg ∷ es) v =
    let (k', e, v') = step-Succeeds (svc number arg) v in
    rw e (omega (arith, ticks-switch_count es v'))
ticks-switch_count (raise s ∷ es) v =
    let (k', e, v') = step-Succeeds (raise s) v in rw e (omega (arith, ticks-switch_count es v'))
ticks-switch_count (wait s ∷ es) v =
    let (k', e, v') = step-Succeeds (wait s) v in rw e (omega (arith, ticks-switch_count es v'))

-- A task that sleeps until `until`.
record Sleeps (t until : ℕ) (k : Kernel) : Type 0 where
  valid : IsValid k
  positive : 1 ≤ t
  registered : t ≤ k.registered_tasks
  blocked : state_of k t ≡ task_blocked
  time : (task_at k t).sleep_until ≡ until
  early : k.jiffy ≤ until

-- An event that does not lead past the time of the task.
Sleeps-step :
    (t until : ℕ) (e : Event) (es : List Event) {k : Kernel}
    → Sleeps t until k
    → until < 2 ^ 31
    → time_after e k.jiffy ≤ until
    → ((k' : Kernel)
        → Sleeps t until k'
        → k'.registered_tasks ≡ k.registered_tasks
        → k'.jiffy ≡ time_after e k.jiffy
        → gets_turn t es k' ≡ true)
    → gets_turn t (e ∷ es) k ≡ true
Sleeps-step t until e es {k} s small h later =
    let (k', stepped, r) =
      step-Rests t e s.valid s.positive (not_current t s.valid s.blocked) s.blocked
        (rw s.time (long_lt-le until (time_after e k.jiffy) h small)) in
    gets_turn_later t e es k k' stepped (
      later k'
        (record {
          valid = r.valid;
          positive = s.positive;
          registered = omega (arith, s.registered, r.registered);
          blocked = rw (r.same, state_of) s.blocked;
          time = rw r.same s.time;
          early = omega (arith, r.jiffy, h);
        })
        r.registered r.jiffy)

-- The interrupt that leads past the time.
Sleeps-systick :
    (t until : ℕ) (es : List Event) {k : Kernel}
    → Sleeps t until k
    → until + 1 < 2 ^ 31
    → until ≤ k.jiffy
    → k.registered_tasks ≤ ticks es
    → gets_turn t (systick ∷ es) k ≡ true
unfolding step
Sleeps-systick t until es {k} s small late enough =
    let (k', stepped, v', same, woken) =
      scheduler-due t s.valid s.positive s.registered s.blocked (omega (arith, s.time, late))
        (omega (arith, small, s.early)) in
    gets_turn_later t systick es k k' stepped (elim woken [
      | inl now ↦ gets_turn_now t es k' now
      | inr ready ↦
          starvation_free t es v' s.positive (omega (arith, same, s.registered)) ready
            (omega (arith, same, enough, ticks-switch_count es v'))
    ])

comes_back :
    (t until : ℕ) (es : List Event) {k : Kernel}
    → Sleeps t until k
    → until + 1 < 2 ^ 31
    → until + 1 + k.registered_tasks ≤ k.jiffy + ticks es
    → gets_turn t es k ≡ true
unfolding ticks
comes_back t until [] s small h = absurd (omega (arith, h, s.early))
comes_back t until (systick ∷ es) {k} s small h = elim (dec_lt k.jiffy until) [
  | yes before ↦
      Sleeps-step t until systick es s (omega (arith, small)) (omega (arith, before, small))
        (λ k' s' n j. comes_back t until es s' small (omega (arith, n, j, h, before, small)))
  | no at ↦ Sleeps-systick t until es s small (omega (arith, at)) (omega (arith, h, s.early))
]
comes_back t until (svc number arg ∷ es) s small h =
    Sleeps-step t until (svc number arg) es s (omega (arith, small)) s.early
      (λ k' s' n j. comes_back t until es s' small (omega (arith, n, j, h)))
comes_back t until (raise a ∷ es) s small h =
    Sleeps-step t until (raise a) es s (omega (arith, small)) s.early
      (λ k' s' n j. comes_back t until es s' small (omega (arith, n, j, h)))
comes_back t until (wait a ∷ es) s small h =
    Sleeps-step t until (wait a) es s (omega (arith, small)) s.early
      (λ k' s' n j. comes_back t until es s' small (omega (arith, n, j, h)))

-- sys_sleep (syscall.c) does not sleep for ever: among the states behind the call, up to the timer interrupt
-- number ms + 1 + n, where n is the number of registered tasks, there is one in which the task is the current one
-- again, whatever else happens. (The clock must stay below 2 ^ 31 up to the end of the sleep, and the idle task does
-- not sleep.)
pub sys_sleep_at_most :
    (ms : ℕ) (es : List Event) {k : Kernel}
    → IsValid k
    → 1 ≤ k.current_tid
    → k.jiffy + ms + 1 < 2 ^ 31
    → ms + 1 + k.registered_tasks ≤ ticks es
    → (k' : Kernel) × (sys_sleep ms k ≡ some k')
      × (k'.current_tid ≢ k.current_tid)
      × (gets_turn k.current_tid es k' ≡ true)
unfolding sys_sleep svc_dispatch k_task_sleep fall_asleep
sys_sleep_at_most ms es {k} v c1 small h =
    let (k', slept, r) =
      dispatch-Rests k.current_tid v p c1 own.0
        (rw own.1 (long_lt-le (k.jiffy + ms) k.jiffy (omega arith) (omega (arith, small)))) in
    let s : Sleeps k.current_tid (k.jiffy + ms) k' = record {
      valid = r.valid;
      positive = c1;
      registered = omega (arith, v.current, r.registered, p.registered);
      blocked = rw (r.same, state_of) own.0;
      time = rw r.same own.1;
      early = omega (arith, r.jiffy);
    } in
    (
      k',
      slept,
      (λ e. not_current k.current_tid r.valid s.blocked (sym e)),
      comes_back k.current_tid (k.jiffy + ms) es s small
          (omega (arith, r.jiffy, r.registered, p.registered, h)),
    )
  where
    p : Parks k (fall_asleep ms k)
    p = Parks-fall_asleep ms v

    own :
        (state_of (fall_asleep ms k) k.current_tid ≡ task_blocked)
        × ((task_at (fall_asleep ms k) k.current_tid).sleep_until ≡ k.jiffy + ms)
    own = fall_asleep_own k ms (omega (arith, v.size, v.room, v.current)) (omega (arith, small))
