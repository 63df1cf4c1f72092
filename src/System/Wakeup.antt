-- ===== src/System/Wakeup.antt =====
-- When a blocked task becomes ready: the end of k_task_sleep, and signal_wait.
use pascal_scheduler.Prelude.{
  ℕ, ◌+◌, ◌<◌, ◌≤◌, ◌^◌, ◌≡◌, ◌≢◌, ◌⊎◌, inl, inr, refl, ◌∙◌, true, false, ◌==◌, some, length, arith,
  ap, sym, ℕ_discrete, length-set, bit_or,
}
use pascal_scheduler.Prelude.Word.{has_flag, add32, long_lt}
use pascal_scheduler.Scheduler.State.{
  Task, Kernel, task_created, task_ready, task_blocked, state_of, task_at, set_state,
}
use pascal_scheduler.Scheduler.State.Table.{task_at-set_task_self}
use pascal_scheduler.Scheduler.Pick.{Scan, idle, task, k_task_update_state}
use pascal_scheduler.Scheduler.Pick.Sleepers.{state_of-update_from_due}
use pascal_scheduler.Scheduler.Pick.Search.{Found, first}
use pascal_scheduler.Scheduler.Ops.{take_signal, tick, scheduler}
use pascal_scheduler.Scheduler.Ops.Dispatch.{IsValid, Switched, dispatch_lem, tid_of}
use pascal_scheduler.Signals.{signal_wait, signal_wait_spins}
use pascal_scheduler.System.Valid.{Parks, AllParked-Parks, Parks-tick, IsValid-signals}

-- A blocked task whose time is over comes out of a switch ready or running.
due-Switched :
    {k l k' : Kernel} (t : ℕ)
    → IsValid k
    → Parks k l
    → Switched l k'
    → 1 ≤ t
    → t ≤ k.registered_tasks
    → has_flag (state_of l t) task_blocked ≡ true
    → long_lt (task_at l t).sleep_until l.jiffy ≡ true
    → (k'.current_tid ≡ t) ⊎ (state_of k' t ≡ task_ready)
unfolding k_task_update_state
due-Switched {k} {l} {k'} t v p s t1 tn b d = elim (ℕ_discrete k'.current_tid t) [
  | yes e ↦ inl e
  | no ne ↦ inr (
      ap (λ (x : Task). x.state) (s.rest t (λ e. ne (sym e)))
      ∙ state_of-update_from_due l.registered_tasks 1 t l t1 (omega (arith, p.registered))
          (omega (arith, p.size, v.size, v.room)) b d)
]

long_lt-lt : (a b : ℕ) → a < b → b < 2 ^ 31 → long_lt a b ≡ true
long_lt-lt a b h s = ground arith

tick-other :
    (k : Kernel)
    → ((tick k).jiffy ≡ add32 k.jiffy 1) × ((tick k).registered_tasks ≡ k.registered_tasks)
unfolding tick take_signal
tick-other k = ground arith

-- The first timer interrupt at which the clock is past the time of a sleeping task ends its sleep: the
-- task is ready, or it already runs.
pub scheduler-due :
    (t : ℕ) {k : Kernel}
    → IsValid k
    → 1 ≤ t
    → t ≤ k.registered_tasks
    → state_of k t ≡ task_blocked
    → (task_at k t).sleep_until ≤ k.jiffy
    → k.jiffy + 1 < 2 ^ 31
    → (k' : Kernel) × (scheduler k ≡ some k')
      × IsValid k'
      × (k'.registered_tasks ≡ k.registered_tasks)
      × ((k'.current_tid ≡ t) ⊎ (state_of k' t ≡ task_ready))
unfolding scheduler has_flag
scheduler-due t {k} v t1 tn b h small =
    let (k', e, v', s) = dispatch_lem (AllParked-Parks v (Parks-tick v)) in
    (
      k',
      e,
      v',
      s.registered ∙ p.registered,
      due-Switched t v (Parks-tick v) s t1 tn (rw (p.rest t other, b, state_of) refl) (
          rw (p.rest t other, (tick-other k).0)
            (long_lt-lt (task_at k t).sleep_until (add32 k.jiffy 1) (omega arith) (omega arith))),
    )
  where
    p : Parks k (tick k)
    p = Parks-tick v

    other : t ≢ k.current_tid
    other e = ground (arith, sym b ∙ ap (state_of k) e ∙ v.running)

-- The search never answers the task that it starts from.
answers_other : (u : Kernel) (c : ℕ) (s : Scan) → 1 ≤ c → Found u c s → tid_of s ≢ c
answers_other u c idle p f e = omega arith
answers_other u c (task t) p (first x o r before) e = o.2 e

-- The table entry that scheduler writes for a task in signal_wait.
pub tick_signal :
    (k : Kernel)
    → k.current_tid < length k.tasks
    → k.signal_flag ≢ 0
    → (state_of (tick k) k.current_tid ≡ bit_or task_created task_blocked)
      × ((task_at (tick k) k.current_tid).sleep_until ≡ 0)
      × ((tick k).signal_flag ≡ 0)
unfolding tick take_signal
tick_signal k h asked =
    let waiting : (k.signal_flag == 0) ≡ false = ground arith in
    let ready = record (set_state k.current_tid task_ready k) { jiffy = add32 k.jiffy 1 } in
    let written =
      task_at-set_task_self ready k.current_tid
        (record (task_at ready k.current_tid) {
          state = bit_or task_created task_blocked;
          sleep_until = 0;
          signal_flag = k.signal_flag;
        })
        (omega (
          arith,
          length-set k.tasks k.current_tid
              (record (task_at k k.current_tid) { state = task_ready }),
        )) in
    rw waiting (ap (λ (t : Task). t.state) written, ap (λ (t : Task). t.sleep_until) written, refl)

-- While the clock is below 2 ^ 31 - 1, a task other than idle that calls signal_wait with a signal other than 0 is
-- ready again in the interrupt that takes it off the processor, and its loop is over then, whichever signals have
-- been raised: it does not wait for one.
pub signal_wait-does_not_wait :
    (signal : ℕ) {k : Kernel}
    → IsValid k
    → 1 ≤ k.current_tid
    → signal ≢ 0
    → k.jiffy + 1 < 2 ^ 31
    → (k' : Kernel) × (scheduler (signal_wait signal k) ≡ some k')
      × (state_of k' k.current_tid ≡ task_ready)
      × (signal_wait_spins k' ≡ false)
unfolding scheduler signal_wait signal_wait_spins has_flag
signal_wait-does_not_wait signal {k} v c1 asked small =
    let (k', e, v', s) = dispatch_lem (AllParked-Parks w p) in
    (
      k',
      e,
      elim (due-Switched k.current_tid w p s c1 v.current (rw (written.0, state_of) refl) (
          rw (written.1, (tick-other k0).0)
            (long_lt-lt 0 (add32 k.jiffy 1) (omega arith) (omega arith)))) [
              | inl same ↦ absurd (
                  answers_other (k_task_update_state (tick k0)) (tick k0).current_tid s.target
                    (rw p.current c1) s.found (sym s.chosen ∙ same ∙ sym p.current))
              | inr ready ↦ ready
            ],
      rw (s.flag, written.2) refl,
    )
  where
    k0 : Kernel
    k0 = record k { signal_flag = signal; systick_val = 0 }

    w : IsValid k0
    w = IsValid-signals k.signals_flags signal 0 v

    p : Parks k0 (tick k0)
    p = Parks-tick w

    written :
        (state_of (tick k0) k.current_tid ≡ bit_or task_created task_blocked)
        × ((task_at (tick k0) k.current_tid).sleep_until ≡ 0)
        × ((tick k0).signal_flag ≡ 0)
    written = tick_signal k0 (omega (arith, v.size, v.room, v.current)) asked
