-- ===== src/System/Valid.antt =====
-- Every event ends, and keeps the table well formed.
use pascal_scheduler.Prelude.{
  ℕ, ◌≤◌, ◌≡◌, ◌≢◌, inl, inr, refl, ◌∙◌, ◌==◌, Option, some, length, arith, ap, sym, ℕ_discrete,
  Bool-cases, length-set, List, [], ◌∷◌,
}
use pascal_scheduler.Scheduler.State.{
  Task, Kernel, task_ready, task_mutex_blocked, state_of, task_at, set_state, set_task,
}
use pascal_scheduler.Scheduler.State.Table.{task_at-set_task_self, task_at-set_task_ne}
use pascal_scheduler.Scheduler.Ops.{
  dispatch, take_signal, tick, scheduler, fall_asleep, k_task_sleep, k_task_yield, k_mutex_lock,
  k_mutex_unlock,
}
use pascal_scheduler.Scheduler.Ops.Dispatch.{IsParked, IsValid, AllParked, dispatch_lem}
use pascal_scheduler.Isr.{svc_dispatch, svc_sleep, svc_yield, svc_mutex_lock, svc_mutex_unlock}
use pascal_scheduler.Signals.{signal_raise, signal_wait}
use pascal_scheduler.System.{Event, systick, svc, raise, wait, step, run}

-- What an operation does before its switch: it parks the current task and leaves the others.
pub record Parks (k l : Kernel) : Type 0 where
  pub own : IsParked (state_of l k.current_tid)
  pub rest : (j : ℕ) → j ≢ k.current_tid → task_at l j ≡ task_at k j
  pub size : length l.tasks ≡ length k.tasks
  pub registered : l.registered_tasks ≡ k.registered_tasks
  pub current : l.current_tid ≡ k.current_tid
  pub mutex : l.mutex ≡ k.mutex

pub AllParked-Parks : {k l : Kernel} → IsValid k → Parks k l → AllParked l
AllParked-Parks {k} {l} v p = record {
  size = p.size ∙ v.size;
  room = omega (arith, v.room, p.registered);
  current = omega (arith, v.current, p.registered, p.current);
  bit = omega (arith, v.bit, p.mutex);
  unused = λ i h.
      ap (λ (t : Task). t.state) (p.rest i (omega (arith, p.registered, v.current)))
      ∙ v.unused i (omega (arith, p.registered));
  parked = λ i h. elim (ℕ_discrete i k.current_tid) [
    | yes e ↦ rw e p.own
    | no ne ↦ rw (p.rest i ne, state_of) (v.others i (omega (arith, p.registered)) ne)
  ];
}

Parks-set_task :
    {k : Kernel} (t : Task) → IsValid k → IsParked t.state → Parks k (set_task k.current_tid t k)
Parks-set_task {k} t v p = record {
  own =
      rw
        (
          task_at-set_task_self k k.current_tid t (omega (arith, v.size, v.current, v.room)),
          state_of,
        )
        p;
  rest = λ j ne. task_at-set_task_ne k k.current_tid j t (λ e. ne (sym e));
  size = length-set k.tasks k.current_tid t;
  registered = refl;
  current = refl;
  mutex = refl;
}

pub Parks-fall_asleep : {k : Kernel} (stime : ℕ) → IsValid k → Parks k (fall_asleep stime k)
unfolding fall_asleep
Parks-fall_asleep stime v = Parks-set_task _ v (inr (inl refl))

pub Parks-ready : {k : Kernel} → IsValid k → Parks k (set_state k.current_tid task_ready k)
Parks-ready v = Parks-set_task _ v (inl refl)

pub Parks-mutex_blocked :
    {k : Kernel} → IsValid k → Parks k (set_state k.current_tid task_mutex_blocked k)
Parks-mutex_blocked v = Parks-set_task _ v (inr (inr (inr refl)))

Parks-again :
    {k l : Kernel} (t : Task)
    → IsValid k
    → Parks k l
    → IsParked t.state
    → Parks k (set_task k.current_tid t l)
Parks-again {k} {l} t v p h = record {
  own =
      rw
        (
          task_at-set_task_self l k.current_tid t
              (omega (arith, v.size, v.current, v.room, p.size)),
          state_of,
        )
        h;
  rest = λ j ne. task_at-set_task_ne l k.current_tid j t (λ e. ne (sym e)) ∙ p.rest j ne;
  size = length-set l.tasks k.current_tid t ∙ p.size;
  registered = p.registered;
  current = p.current;
  mutex = p.mutex;
}

-- The fields that the table's invariant does not name are free.
Parks-timing :
    {k l : Kernel} (jiffy flag : ℕ)
    → Parks k l
    → Parks k (record l { jiffy = jiffy; signal_flag = flag })
Parks-timing jiffy flag p = record {
  own = p.own;
  rest = p.rest;
  size = p.size;
  registered = p.registered;
  current = p.current;
  mutex = p.mutex;
}

pub Parks-tick : {k : Kernel} → IsValid k → Parks k (tick k)
unfolding tick take_signal
Parks-tick {k} v = elim (Bool-cases (k.signal_flag == 0)) [
  | inl quiet ↦ rw quiet (Parks-timing _ _ (Parks-ready v))
  | inr asked ↦ rw asked (Parks-timing _ _ (Parks-again _ v (Parks-ready v) (inr (inr (inl refl)))))
]

-- An operation ends, and keeps the invariant.
abbrev pub Succeeds : Option Kernel → Type 0
Succeeds r = (k' : Kernel) × (r ≡ some k') × IsValid k'

dispatch-Succeeds : {k l : Kernel} → IsValid k → Parks k l → Succeeds (dispatch l)
dispatch-Succeeds v p = let (k', e, v', s) = dispatch_lem (AllParked-Parks v p) in (k', e, v')

pub scheduler-Succeeds : {k : Kernel} → IsValid k → Succeeds (scheduler k)
unfolding scheduler
scheduler-Succeeds v = dispatch-Succeeds v (Parks-tick v)

k_task_sleep-Succeeds : {k : Kernel} (stime : ℕ) → IsValid k → Succeeds (k_task_sleep stime k)
unfolding k_task_sleep
k_task_sleep-Succeeds stime v = dispatch-Succeeds v (Parks-fall_asleep stime v)

k_task_yield-Succeeds : {k : Kernel} → IsValid k → Succeeds (k_task_yield k)
unfolding k_task_yield
k_task_yield-Succeeds v = dispatch-Succeeds v (Parks-ready v)

pub IsValid-mutex : {k : Kernel} (m : ℕ) → m ≤ 1 → IsValid k → IsValid (record k { mutex = m })
IsValid-mutex m h v = record {
  size = v.size;
  room = v.room;
  current = v.current;
  bit = h;
  unused = v.unused;
  running = v.running;
  others = v.others;
}

pub IsValid-signals :
    {k : Kernel} (raised flag val : ℕ)
    → IsValid k
    → IsValid (record k { signals_flags = raised; signal_flag = flag; systick_val = val })
IsValid-signals raised flag val v = record {
  size = v.size;
  room = v.room;
  current = v.current;
  bit = v.bit;
  unused = v.unused;
  running = v.running;
  others = v.others;
}

k_mutex_lock-Succeeds : {k : Kernel} → IsValid k → Succeeds (k_mutex_lock k)
unfolding k_mutex_lock
k_mutex_lock-Succeeds {k} v = elim (Bool-cases (k.mutex == 0)) [
  | inl free ↦ rw free (record k { mutex = 1 }, refl, IsValid-mutex 1 (omega arith) v)
  | inr taken ↦ rw taken (dispatch-Succeeds v (Parks-mutex_blocked v))
]

k_mutex_unlock-Succeeds : {k : Kernel} → IsValid k → Succeeds (some (k_mutex_unlock k))
unfolding k_mutex_unlock
k_mutex_unlock-Succeeds {k} v = (k_mutex_unlock k, refl, IsValid-mutex 0 (omega arith) v)

pub svc_dispatch-Succeeds :
    {k : Kernel} (number arg : ℕ) → IsValid k → Succeeds (svc_dispatch number arg k)
unfolding svc_dispatch
svc_dispatch-Succeeds {k} number arg v = elim (Bool-cases (number == svc_sleep)) [
  | inl a ↦ rw a (k_task_sleep-Succeeds arg v)
  | inr a ↦ elim (Bool-cases (number == svc_yield)) [
    | inl b ↦ rw (a, b) (k_task_yield-Succeeds v)
    | inr b ↦ elim (Bool-cases (number == svc_mutex_lock)) [
      | inl c ↦ rw (a, b, c) (k_mutex_lock-Succeeds v)
      | inr c ↦ elim (Bool-cases (number == svc_mutex_unlock)) [
        | inl d ↦ rw (a, b, c, d) (k_mutex_unlock-Succeeds v)
        | inr d ↦ rw (a, b, c, d) (k, refl, v)
      ]
    ]
  ]
]

pub step-Succeeds : {k : Kernel} (e : Event) → IsValid k → Succeeds (step e k)
unfolding step signal_raise signal_wait
step-Succeeds systick v = scheduler-Succeeds v
step-Succeeds (svc number arg) v = svc_dispatch-Succeeds number arg v
step-Succeeds {k} (raise s) v = (signal_raise s k, refl, IsValid-signals _ _ _ v)
step-Succeeds {k} (wait s) v = (signal_wait s k, refl, IsValid-signals _ _ _ v)

-- From a well-formed system every sequence of timer interrupts, supervisor calls and signal calls
-- runs to its end, and leaves a system in which exactly the current task runs, every index is in the
-- task table and the mutex is 0 or 1.
pub run-Succeeds : (es : List Event) {k : Kernel} → IsValid k → Succeeds (run es k)
unfolding run
run-Succeeds [] {k} v = (k, refl, v)
run-Succeeds (e ∷ es) v =
    let (k', stepped, v') = step-Succeeds e v in rw stepped (run-Succeeds es v')
