-- ===== src/Boot/Interrupted.antt =====
-- The loop of _kernel_entry with the interrupts that come between two registrations.
use pascal_scheduler.Prelude.{
  ℕ, ◌+◌, ◌<◌, ◌≤◌, ◌≡◌, ◌⊎◌, refl, ◌∙◌, sym, Bool, ◌==◌, Bool-cases, inl, inr, Option, some, List,
  ◌∷◌, length, arith, ap,
}
use mathlib.Core.Path.{subst}
use pascal_scheduler.Scheduler.State.{Kernel, max_tasks, blank_kernel}
use pascal_scheduler.Scheduler.Ops.{
  dispatch, scheduler, scheduler_init, k_task_sleep, k_task_yield, k_mutex_lock, k_mutex_unlock,
}
use pascal_scheduler.Scheduler.Ops.Dispatch.{IsValid, dispatch_lem}
use pascal_scheduler.Scheduler.Register.{Registered, success, k_task_register}
use pascal_scheduler.Isr.{svc_dispatch, svc_sleep, svc_yield, svc_mutex_lock, svc_mutex_unlock}
use pascal_scheduler.Signals.{signal_raise, signal_wait}
use pascal_scheduler.System.{Event, systick, svc, raise, wait, step}
use pascal_scheduler.System.Valid.{
  Parks, Parks-tick, Parks-ready, Parks-fall_asleep, Parks-mutex_blocked, AllParked-Parks,
  IsValid-mutex, IsValid-signals,
}
use pascal_scheduler.Boot.{idling, register_tasks}
use pascal_scheduler.Boot.Started.{
  k_task_register-Registers, IsValid-Registers, register_tasks-Grown, scheduler_init-Alone,
}

-- What the loop of _kernel_entry goes through from `k` on, where scheduler_init has returned: the tasks that it has
-- yet to register, and the system. The loop runs as the idle task. Between two registrations an interrupt can come, and
-- a task that is registered already can run. A registration is one step: an interrupt inside it would see the old number
-- of tasks, since k_task_register counts the new one last.
pub data Booting (thread_stack_top : ℕ) (os_tasks : List ℕ) (k : Kernel)
    : List ℕ → Kernel → Type 0 where
  begin : Booting thread_stack_top os_tasks k os_tasks k
  registers :
      {f : ℕ} {left : List ℕ} {l l' : Kernel}
      → Booting thread_stack_top os_tasks k (f ∷ left) l
      → l.current_tid ≡ 0
      → k_task_register thread_stack_top f l ≡ (success, l')
      → Booting thread_stack_top os_tasks k left l'
  happens :
      {left : List ℕ} {l l' : Kernel} (e : Event)
      → Booting thread_stack_top os_tasks k left l
      → (e ≡ systick) ⊎ (1 ≤ l.current_tid)
      → step e l ≡ some l'
      → Booting thread_stack_top os_tasks k left l'

-- An operation ends, and keeps the invariant and the number of tasks.
abbrev Keeps : Kernel → Option Kernel → Type 0
Keeps k r = (k' : Kernel) × (r ≡ some k') × IsValid k' × (k'.registered_tasks ≡ k.registered_tasks)

dispatch-Keeps : {k l : Kernel} → IsValid k → Parks k l → Keeps k (dispatch l)
dispatch-Keeps v p =
    let (k', e, v', s) = dispatch_lem (AllParked-Parks v p) in
    (k', e, v', s.registered ∙ p.registered)

k_mutex_lock-Keeps : {k : Kernel} → IsValid k → Keeps k (k_mutex_lock k)
unfolding k_mutex_lock
k_mutex_lock-Keeps {k} v = elim (Bool-cases (k.mutex == 0)) [
  | inl free ↦ rw free (record k { mutex = 1 }, refl, IsValid-mutex 1 (omega arith) v, refl)
  | inr taken ↦ rw taken (dispatch-Keeps v (Parks-mutex_blocked v))
]

svc_dispatch-Keeps : {k : Kernel} (number arg : ℕ) → IsValid k → Keeps k (svc_dispatch number arg k)
unfolding svc_dispatch k_task_sleep k_task_yield k_mutex_unlock
svc_dispatch-Keeps {k} number arg v = elim (Bool-cases (number == svc_sleep)) [
  | inl a ↦ rw a (dispatch-Keeps v (Parks-fall_asleep arg v))
  | inr a ↦ elim (Bool-cases (number == svc_yield)) [
    | inl b ↦ rw (a, b) (dispatch-Keeps v (Parks-ready v))
    | inr b ↦ elim (Bool-cases (number == svc_mutex_lock)) [
      | inl c ↦ rw (a, b, c) (k_mutex_lock-Keeps v)
      | inr c ↦ elim (Bool-cases (number == svc_mutex_unlock)) [
        | inl d ↦ rw (a, b, c, d) (k_mutex_unlock k, refl, IsValid-mutex 0 (omega arith) v, refl)
        | inr d ↦ rw (a, b, c, d) (k, refl, v, refl)
      ]
    ]
  ]
]

step-Keeps : {k : Kernel} (e : Event) → IsValid k → Keeps k (step e k)
unfolding step scheduler signal_raise signal_wait
step-Keeps systick v = dispatch-Keeps v (Parks-tick v)
step-Keeps (svc number arg) v = svc_dispatch-Keeps number arg v
step-Keeps {k} (raise s) v = (signal_raise s k, refl, IsValid-signals _ _ _ v, refl)
step-Keeps {k} (wait s) v = (signal_wait s k, refl, IsValid-signals _ _ _ v, refl)

-- A well-formed system, in which the tasks that are registered and those that are left make up `n`.
abbrev Counts : ℕ → List ℕ → Kernel → Type 0
Counts n left l = IsValid l × (l.registered_tasks + length left ≡ n)

Counts-step :
    (n : ℕ) (e : Event) (left : List ℕ) (l l' : Kernel)
    → Counts n left l
    → step e l ≡ some l'
    → Counts n left l'
Counts-step n e left l l' (v, count) stepped =
    let (k', e', v', same) = step-Keeps e v in
    let reached : k' ≡ l' = cc (e', stepped) in
    subst (λ (t : Kernel). Counts n left t) reached (v', omega (arith, same, count))

Counts-register :
    (n top f : ℕ) (left : List ℕ) (l l' : Kernel)
    → n < max_tasks
    → Counts n (f ∷ left) l
    → k_task_register top f l ≡ (success, l')
    → Counts n left l'
Counts-register n top f left l l' small (v, count) done =
    let (k', e, r) = k_task_register-Registers top f l v.size (omega (arith, count)) in
    let reached : k' ≡ l' = ap (λ (p : Registered × Kernel). p.1) (sym e ∙ done) in
    subst (λ (t : Kernel). Counts n left t) reached
      (IsValid-Registers v (omega (arith, count)) r, omega (arith, r.registered, count))

Counts-Booting :
    (top : ℕ) (os_tasks : List ℕ) (k : Kernel) {left : List ℕ} {l : Kernel}
    → length os_tasks < max_tasks
    → Counts (length os_tasks) os_tasks k
    → Booting top os_tasks k left l
    → Counts (length os_tasks) left l
Counts-Booting top os_tasks k small c begin = c
Counts-Booting top os_tasks k small c (registers {f} {left} {l} {l'} b idle done) =
    Counts-register (length os_tasks) top f left l l' small
      (Counts-Booting top os_tasks k small c b) done
Counts-Booting top os_tasks k small c (happens {left} {l} {l'} e b may stepped) =
    Counts-step (length os_tasks) e left l l' (Counts-Booting top os_tasks k small c b) stepped

-- With at most 7 tasks in OS_Tasks, whatever interrupts come between the registrations and whatever the tasks that are
-- registered do meanwhile: the table is well formed, the tasks that are registered and those that are left are together
-- those of the list, and the loop never comes to fatal(): without further interrupts it registers what is left and ends
-- in the idle loop, with all tasks of the list registered.
pub booting_lem :
    (config : ℕ → ℕ × ℕ) (clock : ℕ) (pending : Bool) (top load : ℕ) (os_tasks left : List ℕ)
    (memory : ℕ → ℕ) (k l : Kernel)
    → length os_tasks < max_tasks
    → scheduler_init config clock pending (blank_kernel load memory) ≡ some k
    → Booting top os_tasks k left l
    → IsValid l
      × (l.registered_tasks + length left ≡ length os_tasks)
      × ((l' : Kernel) × (register_tasks top left l ≡ idling l')
          × IsValid l'
          × (l'.registered_tasks ≡ length os_tasks))
booting_lem config clock pending top load os_tasks left memory k l small e b =
    let a = scheduler_init-Alone config clock pending load memory in
    let reached : a.after ≡ k = cc (a.returns, e) in
    let started =
      subst (λ (t : Kernel). Counts (length os_tasks) os_tasks t) reached
        (a.valid, omega (arith, a.registered)) in
    let (v, count) = Counts-Booting top os_tasks k small started b in
    let (l', ends, g) = register_tasks-Grown top left l v (omega (arith, count, small)) in
    (v, count, (l', ends, g.valid, omega (arith, g.count, count)))
