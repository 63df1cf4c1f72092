-- ===== src/System/Exclusion.antt =====
-- Mutual exclusion by k_mutex_lock, k_mutex_unlock and the hand-over in k_task_update_state.
mod Handover
pub mod Waiting
use Handover.{waits-Parks, acquire-none, dispatch-Exclusive}
pub use Handover.{Exclusive, running-waits}
use pascal_scheduler.Prelude.{
  ℕ, zero, suc, ◌+◌, ◌-◌, ◌<◌, ◌≤◌, ◌^◌, ◌≡◌, ◌≢◌, ◌⊎◌, inl, inr, refl, ◌∙◌, Bool, true, false,
  ◌&&◌, ◌||◌, not, ◌==◌, Option, none, some, if◌then◌else◌, length, arith, ap, sym, dec_lt,
  ℕ_discrete, Bool-cases, ltb, ==_iff, ◌>>=◌, length-set, List, [], ◌∷◌, bit_or,
}
use mathlib.Core.Path.{fun_ext}
use pascal_scheduler.Prelude.Word.{has_flag, add32, long_lt}
use pascal_scheduler.Scheduler.State.{
  Task, Kernel, max_tasks, task_created, task_ready, task_running, task_blocked, task_mutex_blocked,
  state_of, task_at, set_state, set_task,
}
use pascal_scheduler.Scheduler.State.Table.{SameFrame, task_at-set_task_self}
use pascal_scheduler.Scheduler.Pick.{is_ready, Scan, idle, task, k_task_update_state, update_from}
use pascal_scheduler.Scheduler.Pick.Handoff.{waits, Handoff, kept, handed}
use pascal_scheduler.Scheduler.Pick.Search.{Found, nobody, first, distance, IsOther}
use pascal_scheduler.Scheduler.Ops.{
  dispatch, take_signal, tick, scheduler, fall_asleep, k_task_sleep, k_task_yield, k_mutex_lock,
  k_mutex_unlock,
}
use pascal_scheduler.Scheduler.Ops.Dispatch.{
  IsParked, IsValid, AllParked, Switched, dispatch_lem, tid_of, frame_update, Handoff-update,
  IsParked-update, state_of-update_unused,
}
use pascal_scheduler.Scheduler.Pick.Update.{Woken, Woken-update_from}
use pascal_scheduler.Signals.{signal_raise, signal_wait, signal_wait_spins}
use pascal_scheduler.Isr.{svc_dispatch, svc_sleep, svc_yield, svc_mutex_lock, svc_mutex_unlock}
use pascal_scheduler.System.{
  Event, systick, svc, raise, wait, step, Section, acquire, sections, Disciplined, Reach, here,
  next,
}
use pascal_scheduler.System.Wakeup.{tick_signal}
use pascal_scheduler.System.Valid.{
  Parks, AllParked-Parks, Parks-tick, Parks-fall_asleep, Parks-ready, Parks-mutex_blocked,
  IsValid-mutex, IsValid-signals,
}

-- The operations that park the current task otherwise than for the mutex.
free-Exclusive :
    {k l : Kernel} {s : Section}
    → Exclusive k s
    → Parks k l
    → waits l k.current_tid ≡ false
    → (k' : Kernel) × (dispatch l ≡ some k') × Exclusive k' (acquire k k' s)
free-Exclusive {k} {l} x p f = dispatch-Exclusive x p zero_free (λ w. cc)
  where
    zero_free : waits l 0 ≡ false
    zero_free = elim (ℕ_discrete 0 k.current_tid) [
      | yes e ↦ rw e f
      | no ne ↦ waits-Parks 0 p ne ∙ x.idle_free
    ]

-- The entry that an operation has written for the current task.
pub waits-set_task :
    (k : Kernel) (t : Task)
    → IsValid k
    → waits (set_task k.current_tid t k) k.current_tid ≡ has_flag t.state task_mutex_blocked
waits-set_task k t v =
    ap (λ (u : Task). has_flag u.state task_mutex_blocked)
      (task_at-set_task_self k k.current_tid t (omega (arith, v.size, v.room, v.current)))

pub waits-tick : (k : Kernel) → IsValid k → waits (tick k) k.current_tid ≡ false
waits-tick k v = elim (ℕ_discrete k.signal_flag 0) [
  | no asked ↦
      rw ((tick_signal k (omega (arith, v.size, v.room, v.current)) asked).0, state_of)
        (unfold has_flag in refl)
  | yes quiet ↦
      let calm : (k.signal_flag == 0) ≡ true = (==_iff _ _).1 quiet in
      unfold tick take_signal has_flag in
      rw calm (waits-set_task k (record (task_at k k.current_tid) { state = task_ready }) v)
]

tick-Exclusive :
    {k : Kernel} {s : Section}
    → Exclusive k s
    → (k' : Kernel) × (scheduler k ≡ some k') × Exclusive k' (acquire k k' s)
unfolding scheduler
tick-Exclusive {k} x = free-Exclusive x (Parks-tick x.valid) (waits-tick k x.valid)

sleep-Exclusive :
    {k : Kernel} {s : Section} (stime : ℕ)
    → Exclusive k s
    → (k' : Kernel) × (k_task_sleep stime k ≡ some k') × Exclusive k' (acquire k k' s)
unfolding k_task_sleep fall_asleep has_flag
sleep-Exclusive {k} stime x = free-Exclusive x (Parks-fall_asleep stime x.valid) (
    waits-set_task k
      (record (task_at k k.current_tid) {
        state = task_blocked;
        sleep_until = add32 k.jiffy stime;
        signal_flag = 0;
      })
      x.valid)

yield-Exclusive :
    {k : Kernel} {s : Section}
    → Exclusive k s
    → (k' : Kernel) × (k_task_yield k ≡ some k') × Exclusive k' (acquire k k' s)
unfolding k_task_yield has_flag
yield-Exclusive {k} x =
    free-Exclusive x (Parks-ready x.valid)
      (waits-set_task k (record (task_at k k.current_tid) { state = task_ready }) x.valid)

lock-Exclusive :
    {k : Kernel} {s : Section}
    → Exclusive k s
    → 1 ≤ k.current_tid
    → s k.current_tid ≡ false
    → (k' : Kernel) × (k_mutex_lock k ≡ some k')
      × Exclusive k' (if k.mutex == 0 then (λ j. (j == k.current_tid) || s j) else acquire k k' s)
unfolding k_mutex_lock
lock-Exclusive {k} {s} x c1 fresh = elim (ℕ_discrete k.mutex 0) [
  | yes e ↦
      let free : (k.mutex == 0) ≡ true = (==_iff _ _).1 e in
      rw free (record k { mutex = 1 }, refl, entered e)
  | no ne ↦
      let taken : (k.mutex == 0) ≡ false = ground arith in
      rw taken (
        dispatch-Exclusive x (Parks-mutex_blocked x.valid)
          (waits-Parks 0 (Parks-mutex_blocked x.valid) (omega arith) ∙ x.idle_free)
          (λ w. (ne, fresh)))
]
  where
    entered : k.mutex ≡ 0 → Exclusive (record k { mutex = 1 }) (λ j. (j == k.current_tid) || s j)
    entered e = record {
      valid = IsValid-mutex 1 (omega arith) x.valid;
      idle_free = x.idle_free;
      free = λ f. absurd (omega arith);
      taken = λ f. (k.current_tid, ground arith);
      alone = λ i j hi hj. ground (arith, x.free e i, x.free e j);
      outside = λ j h. elim (ℕ_discrete j k.current_tid) [
        | yes q ↦ rw q (running-waits x.valid)
        | no ne ↦ ground (arith, x.free e j)
      ];
    }

unlock-Exclusive :
    {k : Kernel} {s : Section}
    → Exclusive k s
    → s k.current_tid ≡ true
    → Exclusive (k_mutex_unlock k) (λ j. not (j == k.current_tid) && s j)
unfolding k_mutex_unlock
unlock-Exclusive {k} {s} x own = record {
  valid = IsValid-mutex 0 (omega arith) x.valid;
  idle_free = x.idle_free;
  free = λ f j. left j;
  taken = λ f. absurd (omega arith);
  alone = λ i j hi hj. cc (left i);
  outside = λ j h. cc (left j);
}
  where
    left : (j : ℕ) → (not (j == k.current_tid) && s j) ≡ false
    left j = elim (Bool-cases (s j)) [
      | inr n ↦ ground arith
      | inl y ↦ let q : j ≡ k.current_tid = x.alone j k.current_tid y own in ground arith
    ]

signals-Exclusive :
    {k : Kernel} {s : Section} (raised flag val : ℕ)
    → Exclusive k s
    → Exclusive (record k { signals_flags = raised; signal_flag = flag; systick_val = val }) s
signals-Exclusive raised flag val x = record {
  valid = IsValid-signals raised flag val x.valid;
  idle_free = x.idle_free;
  free = x.free;
  taken = x.taken;
  alone = x.alone;
  outside = x.outside;
}

abbrev Keeps : Event → Kernel → Section → Type 0
Keeps e k s = (k' : Kernel) × (step e k ≡ some k') × Exclusive k' (sections e k k' s)

-- A supervisor call that is none of the four does nothing.
other-Exclusive : {k : Kernel} {s : Section} → Exclusive k s → Exclusive k (acquire k k s)
other-Exclusive {k} {s} x = rw (fun_ext (λ j. acquire-none k k s j (λ w. w))) x

eq_false : {a b : ℕ} → a ≢ b → (a == b) ≡ false
eq_false h = ground arith

svc-Exclusive :
    {k : Kernel} {s : Section} (number arg : ℕ)
    → Exclusive k s
    → Disciplined (svc number arg) k s
    → Keeps (svc number arg) k s
unfolding step sections svc_dispatch
svc-Exclusive {k} {s} number arg x d = elim (ℕ_discrete number svc_sleep) [
  | yes e ↦ rw e (sleep-Exclusive arg x)
  | no a ↦ elim (ℕ_discrete number svc_yield) [
    | yes e ↦ rw e (yield-Exclusive x)
    | no b ↦ elim (ℕ_discrete number svc_mutex_lock) [
      | yes e ↦ rw e (lock-Exclusive x d.0 (d.1 e))
      | no c ↦ elim (ℕ_discrete number svc_mutex_unlock) [
        | yes e ↦ rw e (k_mutex_unlock k, refl, unlock-Exclusive x (d.2 e))
        | no u ↦ rw (eq_false a, eq_false b, eq_false c, eq_false u) (k, refl, other-Exclusive x)
      ]
    ]
  ]
]

step-Exclusive :
    {k : Kernel} {s : Section} (e : Event) → Exclusive k s → Disciplined e k s → Keeps e k s
unfolding step sections signal_raise signal_wait
step-Exclusive systick x d = tick-Exclusive x
step-Exclusive (svc number arg) x d = svc-Exclusive number arg x d
step-Exclusive {k} (raise n) x d = (signal_raise n k, refl, signals-Exclusive _ _ _ x)
step-Exclusive {k} (wait n) x d = (signal_wait n k, refl, signals-Exclusive _ _ _ x)

-- In every state that a disciplined run reaches from a well-formed system whose mutex is free and
-- which nobody waits for, at most one task is in its critical section, the mutex is 1 if one is, and
-- 0 if none is.
pub mutual_exclusion :
    {k l : Kernel} {s : Section}
    → IsValid k
    → k.mutex ≡ 0
    → waits k 0 ≡ false
    → Reach k l s
    → Exclusive l s
mutual_exclusion {k} v m z here = record {
  valid = v;
  idle_free = z;
  free = λ f j. refl;
  taken = λ f. absurd (omega arith);
  alone = λ i j hi hj. cc;
  outside = λ j h. cc;
}
mutual_exclusion v m z (next {l = l} {l' = l'} {s = s} e r d stepped) =
    let (k', stepped', x) = step-Exclusive e (mutual_exclusion v m z r) d in
    let same : k' ≡ l' = cc in rw (← same) x
