-- ===== src/Boot/Started.antt =====
-- The system that _kernel_entry starts.
use pascal_scheduler.Prelude.{
  ℕ, zero, suc, ◌+◌, ◌<◌, ◌≤◌, ◌≡◌, ◌≢◌, inl, refl, ◌∙◌, ap, sym, Bool, true, false, Option, some,
  none, List, [], ◌∷◌, length, get_or, arith, ltb, length-set, ℕ_discrete, set, replicate,
}
use pascal_scheduler.Prelude.Word.{sub32}
use pascal_scheduler.Scheduler.State.{
  Task, Kernel, max_tasks, task_ready, task_running, blank_kernel, blank_task, task_at, state_of,
  set_task,
}
use pascal_scheduler.Scheduler.State.Table.{task_at-set_task_self, task_at-set_task_ne}
use pascal_scheduler.Scheduler.Ops.{scheduler, prepare_idle, scheduler_init, tick, take_signal}
use pascal_scheduler.Scheduler.Pick.{k_task_update_state, update_from}
use pascal_scheduler.System.Valid.{Parks-tick, AllParked-Parks}
use pascal_scheduler.Scheduler.Ops.Dispatch.{IsValid, dispatch_lem}
use pascal_scheduler.Scheduler.Register.{
  Registered, success, k_task_register, stack_base, push_all, initial_frame,
}
use pascal_scheduler.Boot.{idling, unscheduled, register_tasks, start}

-- A registration that succeeds.
pub record Registers (k k' : Kernel) : Type 0 where
  pub registered : k'.registered_tasks ≡ k.registered_tasks + 1
  pub current : k'.current_tid ≡ k.current_tid
  pub mutex : k'.mutex ≡ k.mutex
  pub size : length k'.tasks ≡ length k.tasks
  pub ready : state_of k' (k.registered_tasks + 1) ≡ task_ready
  pub rest : (j : ℕ) → j ≢ k.registered_tasks + 1 → task_at k' j ≡ task_at k j

pub k_task_register-Registers :
    (top f : ℕ) (k : Kernel)
    → length k.tasks ≡ max_tasks
    → k.registered_tasks + 1 < max_tasks
    → (k' : Kernel) × (k_task_register top f k ≡ (success, k')) × Registers k k'
unfolding k_task_register
k_task_register-Registers top f k size room =
    let fits : ltb (k.registered_tasks + 1) max_tasks ≡ true = ground arith in
    (
      after,
      rw fits,
      record {
        registered = refl;
        current = refl;
        mutex = refl;
        size = length-set k.tasks (k.registered_tasks + 1) entry;
        ready =
            ap (λ (t : Task). t.state)
              (task_at-set_task_self k (k.registered_tasks + 1) entry (omega arith));
        rest = λ j ne. task_at-set_task_ne k (k.registered_tasks + 1) j entry (λ e. ne (sym e));
      },
    )
  where
    base : ℕ
    base = stack_base top (k.registered_tasks + 1)

    entry : Task
    entry = record (task_at k (k.registered_tasks + 1)) { sp = sub32 base 36; state = task_ready }

    after : Kernel
    after = record (set_task (k.registered_tasks + 1) entry k) {
      registered_tasks = k.registered_tasks + 1;
      memory = (push_all (record { sp = base; memory = k.memory }) (initial_frame f)).memory;
    }

pub IsValid-Registers :
    {k k' : Kernel} → IsValid k → k.registered_tasks + 1 < max_tasks → Registers k k' → IsValid k'
IsValid-Registers {k} {k'} v room r = record {
  size = r.size ∙ v.size;
  room = omega (arith, r.registered);
  current = omega (arith, r.registered, r.current, v.current);
  bit = omega (arith, r.mutex, v.bit);
  unused = λ i h.
      ap (λ (t : Task). t.state) (r.rest i (omega (arith, r.registered)))
      ∙ v.unused i (omega (arith, r.registered));
  running =
      rw r.current
        (ap (λ (t : Task). t.state) (r.rest k.current_tid (omega (arith, v.current))) ∙ v.running);
  others = λ i h ne. elim (ℕ_discrete i (k.registered_tasks + 1)) [
    | yes e ↦ rw e (inl r.ready)
    | no new ↦
        rw (r.rest i new, state_of)
          (v.others i (omega (arith, r.registered)) (λ e. ne (e ∙ sym r.current)))
  ];
}

-- The system that the loop leaves: the tasks are registered and ready behind those of `k`.
pub record Grown (n : ℕ) (k k' : Kernel) : Type 0 where
  pub valid : IsValid k'
  pub count : k'.registered_tasks ≡ k.registered_tasks + n
  pub current : k'.current_tid ≡ k.current_tid
  pub mutex : k'.mutex ≡ k.mutex
  pub old : (j : ℕ) → j ≤ k.registered_tasks → task_at k' j ≡ task_at k j
  pub new : (j : ℕ) → k.registered_tasks < j → j ≤ k'.registered_tasks → state_of k' j ≡ task_ready

register_tasks-cons :
    (top f : ℕ) (fs : List ℕ) (k k' : Kernel)
    → k_task_register top f k ≡ (success, k')
    → register_tasks top (f ∷ fs) k ≡ register_tasks top fs k'
unfolding register_tasks
register_tasks-cons top f fs k k' e =
    rw (e, register_tasks) (ap (λ (p : Registered × Kernel). register_tasks top fs p.1) e)

pub register_tasks-Grown :
    (top : ℕ) (fs : List ℕ) (k : Kernel)
    → IsValid k
    → k.registered_tasks + length fs < max_tasks
    → (k' : Kernel) × (register_tasks top fs k ≡ idling k') × Grown (length fs) k k'
unfolding register_tasks
register_tasks-Grown top [] k v h = (
  k,
  refl,
  record {
    valid = v;
    count = omega arith;
    current = refl;
    mutex = refl;
    old = λ j le. refl;
    new = λ j lt le. absurd (omega arith);
  },
)
register_tasks-Grown top (f ∷ fs) k v h =
    let (k1, e, r) = k_task_register-Registers top f k v.size (omega arith) in
    let (k', e', g) =
      register_tasks-Grown top fs k1 (IsValid-Registers v (omega arith) r)
        (omega (arith, r.registered)) in
    (
      k',
      register_tasks-cons top f fs k k1 e ∙ e',
      record {
        valid = g.valid;
        count = omega (arith, g.count, r.registered);
        current = g.current ∙ r.current;
        mutex = g.mutex ∙ r.mutex;
        old = λ j le. g.old j (omega (arith, r.registered)) ∙ r.rest j (omega arith);
        new = λ j lt le. elim (ℕ_discrete j (k.registered_tasks + 1)) [
          | yes at ↦ rw at (
              ap (λ (t : Task). t.state)
                (g.old (k.registered_tasks + 1) (omega (arith, r.registered)))
              ∙ r.ready)
          | no ne ↦ g.new j (omega (arith, r.registered)) le
        ];
      },
    )

get_or-replicate : (n i : ℕ) → get_or (replicate n blank_task) i blank_task ≡ blank_task
get_or-replicate zero i = refl
get_or-replicate (suc n) zero = refl
get_or-replicate (suc n) (suc i) = get_or-replicate n i

blank_behind :
    (i : ℕ)
    → 0 < i
    → (get_or
        (set (replicate max_tasks blank_task) 0 (record blank_task { state = task_running }))
        i
        blank_task).state
      ≡ 0
blank_behind zero h = absurd (omega arith)
blank_behind (suc i) h = ap (λ (t : Task). t.state) (get_or-replicate 7 i)

-- The idle task runs, alone, whether or not an interrupt is pending.
pub record Alone (k : Kernel) (result : Option Kernel) : Type 0 where
  pub after : Kernel
  pub returns : result ≡ some after
  pub valid : IsValid after
  pub registered : after.registered_tasks ≡ 0
  pub current : after.current_tid ≡ 0
  pub mutex : after.mutex ≡ 0

prepare_idle-IsValid :
    (config : ℕ → ℕ × ℕ) (clock load : ℕ) (memory : ℕ → ℕ)
    → IsValid (prepare_idle config clock (blank_kernel load memory))
unfolding prepare_idle
prepare_idle-IsValid config clock load memory = record {
  size = refl;
  room = omega arith;
  current = omega arith;
  bit = omega arith;
  unused = λ i h. blank_behind i h;
  running = refl;
  others = λ i h ne. absurd (omega arith);
}

pub scheduler_init-Alone :
    (config : ℕ → ℕ × ℕ) (clock : ℕ) (pending : Bool) (load : ℕ) (memory : ℕ → ℕ)
    → Alone
        (blank_kernel load memory)
        (scheduler_init config clock pending (blank_kernel load memory))
unfolding scheduler_init prepare_idle
scheduler_init-Alone config clock false load memory = record {
  after = prepare_idle config clock (blank_kernel load memory);
  returns = refl;
  valid = prepare_idle-IsValid config clock load memory;
  registered = refl;
  current = refl;
  mutex = refl;
}
scheduler_init-Alone config clock true load memory =
    let v = prepare_idle-IsValid config clock load memory in
    let p = Parks-tick v in
    let (k', e, v', s) = dispatch_lem (AllParked-Parks v p) in
    let none_there : k'.registered_tasks ≡ 0 = s.registered ∙ p.registered in
    record {
      after = k';
      returns = unfold scheduler in e;
      valid = v';
      registered = none_there;
      current = omega (arith, v'.current, none_there);
      mutex = s.mutex ∙ (unfold k_task_update_state update_from tick take_signal in refl);
    }

start_run :
    (config : ℕ → ℕ × ℕ) (clock : ℕ) (pending : Bool) (top : ℕ) (os_tasks : List ℕ) (k : Kernel)
    {k' : Kernel}
    → scheduler_init config clock pending k ≡ some k'
    → start config clock pending top os_tasks k ≡ register_tasks top os_tasks k'
unfolding start
start_run config clock pending top os_tasks k e =
    ap
      (λ (r : Option Kernel). elim r [
        | none ↦ unscheduled
        | some k' ↦ register_tasks top os_tasks k'
      ])
      e

-- The boot of the system: with at most 7 tasks in OS_Tasks, whether or not a timer interrupt is pending when interrupts
-- are enabled, and if no further one is taken in the loop that registers the tasks, _kernel_entry reaches its idle loop with a
-- well-formed table, the idle task as the current one, a free mutex, and every task of the list registered and
-- ready.
pub start_lem :
    (config : ℕ → ℕ × ℕ) (clock : ℕ) (pending : Bool) (top load : ℕ) (os_tasks : List ℕ)
    (memory : ℕ → ℕ)
    → length os_tasks < max_tasks
    → (k : Kernel) × (start config clock pending top os_tasks (blank_kernel load memory) ≡ idling k)
      × IsValid k
      × (k.registered_tasks ≡ length os_tasks)
      × (k.current_tid ≡ 0)
      × (k.mutex ≡ 0)
      × ((j : ℕ) → 1 ≤ j → j ≤ length os_tasks → state_of k j ≡ task_ready)
start_lem config clock pending top load os_tasks memory h =
    let a = scheduler_init-Alone config clock pending load memory in
    let (k, e, g) =
      register_tasks-Grown top os_tasks a.after a.valid (omega (arith, a.registered, h)) in
    (
      k,
      start_run config clock pending top os_tasks (blank_kernel load memory) a.returns ∙ e,
      g.valid,
      omega (arith, g.count, a.registered),
      g.current ∙ a.current,
      g.mutex ∙ a.mutex,
      λ j p q. g.new j (omega (arith, a.registered, p)) (omega (arith, g.count, q)),
    )
