-- ===== src/System/Fairness.antt =====
-- No ready task starves, whatever the others do.
pub mod Progress
use pascal_scheduler.Prelude.{
  ℕ, ◌+◌, ◌<◌, ◌≤◌, ◌≡◌, ◌≢◌, ◌⊎◌, inl, inr, refl, ◌∙◌, true, not, ◌==◌, Option, some,
  if◌then◌else◌, length, arith, sym, ℕ_discrete, Bool-cases, ==_iff, List, [], ◌∷◌,
}
use pascal_scheduler.Prelude.Word.{has_flag}
use pascal_scheduler.Scheduler.State.{Kernel, task_ready, state_of}
use pascal_scheduler.Scheduler.State.Table.{SameFrame}
use pascal_scheduler.Scheduler.Pick.{is_ready, Scan, idle, task, k_task_update_state}
use pascal_scheduler.Scheduler.Pick.Update.{Woken-update_from}
use pascal_scheduler.Scheduler.Pick.Search.{Found, nobody, first, distance, IsOther}
use pascal_scheduler.Scheduler.Ops.{
  dispatch, scheduler, k_task_sleep, k_task_yield, k_mutex_lock, k_mutex_unlock,
}
use pascal_scheduler.Scheduler.Ops.Dispatch.{IsValid, Switched, dispatch_lem, tid_of, frame_update}
use pascal_scheduler.Isr.{svc_dispatch, svc_sleep, svc_yield, svc_mutex_lock, svc_mutex_unlock}
use pascal_scheduler.Signals.{signal_raise, signal_wait}
use pascal_scheduler.System.{
  Event, systick, svc, raise, wait, step, switches, switch_count, gets_turn,
}
use pascal_scheduler.System.Valid.{
  Parks, AllParked-Parks, Parks-tick, Parks-fall_asleep, Parks-ready, Parks-mutex_blocked,
  IsValid-mutex, IsValid-signals,
}
use pascal_scheduler.System.Fairness.Progress.{Steps, dispatch-Steps, stay-Steps}

-- One if the step is a switch, and zero if not.
abbrev cost : Event → Kernel → ℕ
cost e k = if switches e k then 1 else 0

lock-Steps :
    {k : Kernel} (t : ℕ)
    → IsValid k
    → IsOther k k.current_tid t
    → state_of k t ≡ task_ready
    → Steps t (if not (k.mutex == 0) then 1 else 0) k (k_mutex_lock k)
unfolding k_mutex_lock
lock-Steps {k} t v o r = elim (Bool-cases (k.mutex == 0)) [
  | inl free ↦
      rw free
        (stay-Steps k (record k { mutex = 1 }) t (IsValid-mutex 1 (omega arith) v) r refl refl)
  | inr taken ↦ rw taken (dispatch-Steps t v (Parks-mutex_blocked v) o r)
]

svc-Steps :
    {k : Kernel} (t number arg : ℕ)
    → IsValid k
    → IsOther k k.current_tid t
    → state_of k t ≡ task_ready
    → Steps t (cost (svc number arg) k) k (svc_dispatch number arg k)
unfolding svc_dispatch switches k_task_sleep k_task_yield k_mutex_unlock
svc-Steps {k} t number arg v o r = elim (Bool-cases (number == svc_sleep)) [
  | inl a ↦ rw a (dispatch-Steps t v (Parks-fall_asleep arg v) o r)
  | inr a ↦ elim (Bool-cases (number == svc_yield)) [
    | inl b ↦ rw (a, b) (dispatch-Steps t v (Parks-ready v) o r)
    | inr b ↦ elim (Bool-cases (number == svc_mutex_lock)) [
      | inl c ↦ rw (a, b, c) (lock-Steps t v o r)
      | inr c ↦ elim (Bool-cases (number == svc_mutex_unlock)) [
        | inl d ↦
            rw (a, b, c, d)
              (stay-Steps k (record k { mutex = 0 }) t (IsValid-mutex 0 (omega arith) v) r refl
                refl)
        | inr d ↦ rw (a, b, c, d) (stay-Steps k k t v r refl refl)
      ]
    ]
  ]
]

step-Steps :
    {k : Kernel} (t : ℕ) (e : Event)
    → IsValid k
    → IsOther k k.current_tid t
    → state_of k t ≡ task_ready
    → Steps t (cost e k) k (step e k)
unfolding step switches scheduler signal_raise signal_wait
step-Steps t systick v o r = dispatch-Steps t v (Parks-tick v) o r
step-Steps t (svc number arg) v o r = svc-Steps t number arg v o r
step-Steps {k} t (raise s) v o r =
    stay-Steps k (signal_raise s k) t (IsValid-signals _ _ _ v) r refl refl
step-Steps {k} t (wait s) v o r =
    stay-Steps k (signal_wait s k) t (IsValid-signals _ _ _ v) r refl refl

distance-le : (n c t : ℕ) → c ≤ n → t ≤ n → t ≢ c → distance n c t ≤ n
distance-le n c t h p ne = ground arith

distance_pos : (n c t : ℕ) → c ≤ n → 1 ≤ t → t ≢ c → 1 ≤ distance n c t
distance_pos n c t h p ne = ground arith

pub gets_turn_now :
    (t : ℕ) (es : List Event) (k : Kernel) → k.current_tid ≡ t → gets_turn t es k ≡ true
unfolding gets_turn
gets_turn_now t [] k e = (==_iff _ _).1 e
gets_turn_now t (x ∷ es) k e = let now : (k.current_tid == t) ≡ true = (==_iff _ _).1 e in rw now

pub gets_turn_later :
    (t : ℕ) (e : Event) (es : List Event) (k k' : Kernel)
    → step e k ≡ some k'
    → gets_turn t es k' ≡ true
    → gets_turn t (e ∷ es) k ≡ true
unfolding gets_turn
gets_turn_later t e es k k' stepped later = rw (stepped, later) (ground arith)

switch_count-cons :
    (e : Event) (es : List Event) (k k' : Kernel)
    → step e k ≡ some k'
    → switch_count (e ∷ es) k ≡ cost e k + switch_count es k'
unfolding switch_count
switch_count-cons e es k k' stepped = rw stepped

-- A ready task that is `distance` steps of the round away gets the processor within as many
-- switches, whatever events the run consists of.
gets_turn_within :
    (t : ℕ) (es : List Event) {k : Kernel}
    → IsValid k
    → 1 ≤ t
    → t ≤ k.registered_tasks
    → state_of k t ≡ task_ready
    → distance k.registered_tasks k.current_tid t ≤ switch_count es k
    → gets_turn t es k ≡ true
unfolding switch_count gets_turn
gets_turn_within t [] {k} v p q r h = elim (ℕ_discrete k.current_tid t) [
  | yes e ↦ (==_iff _ _).1 e
  | no ne ↦
      absurd (
        omega
          (arith, distance_pos k.registered_tasks k.current_tid t v.current p (λ e. ne (sym e))))
]
gets_turn_within t (e ∷ es) {k} v p q r h = elim (ℕ_discrete k.current_tid t) [
  | yes eq ↦ gets_turn_now t (e ∷ es) k eq
  | no ne ↦
      let (k', stepped, v', progress) = step-Steps t e v (p, q, λ eq. ne (sym eq)) r in
      gets_turn_later t e es k k' stepped (elim progress [
        | inl now ↦ gets_turn_now t es k' now
        | inr (ready, same, near) ↦
            gets_turn_within t es v' p (omega arith) ready
              (rw same (omega (arith, switch_count-cons e es k k' stepped)))
      ])
]

-- Starvation freedom of the round-robin scheduler (README): in a well-formed system a registered
-- task that is ready becomes the current task within as many switches as there are registered tasks,
-- whatever timer interrupts, supervisor calls and signal calls the run consists of.
pub starvation_free :
    (t : ℕ) (es : List Event) {k : Kernel}
    → IsValid k
    → 1 ≤ t
    → t ≤ k.registered_tasks
    → state_of k t ≡ task_ready
    → k.registered_tasks ≤ switch_count es k
    → gets_turn t es k ≡ true
starvation_free t es {k} v p q r h = elim (ℕ_discrete k.current_tid t) [
  | yes e ↦ gets_turn_now t es k e
  | no ne ↦
      gets_turn_within t es v p q r (
        omega (arith, distance-le k.registered_tasks k.current_tid t v.current q (λ e. ne (sym e))))
]
