-- ===== src/System/Exclusion/Waiting.antt =====
-- Who begins to wait for the mutex: nobody but a task that calls k_mutex_lock while it is taken.
use pascal_scheduler.Prelude.{
  ℕ, ◌≤◌, ◌≡◌, ◌≢◌, inl, inr, refl, ◌∙◌, sym, ap, Bool, true, false, ◌||◌, some, ◌==◌,
  if◌then◌else◌, arith, ℕ_discrete, Bool-cases,
}
use mathlib.Core.Path.{subst}
use pascal_scheduler.Prelude.Word.{has_flag, add32}
use pascal_scheduler.Scheduler.State.{
  Kernel, task_ready, task_blocked, task_mutex_blocked, task_at, set_state,
}
use pascal_scheduler.Scheduler.Pick.{k_task_update_state}
use pascal_scheduler.Scheduler.Pick.Handoff.{waits, Handoff, kept, handed}
use pascal_scheduler.Scheduler.Ops.{
  dispatch, scheduler, fall_asleep, k_task_sleep, k_task_yield, k_mutex_lock,
}
use pascal_scheduler.Scheduler.Ops.Dispatch.{IsValid, Switched, dispatch_lem, Handoff-update}
use pascal_scheduler.System.{Section, acquire}
use pascal_scheduler.System.Valid.{
  Parks, AllParked-Parks, Parks-tick, Parks-fall_asleep, Parks-ready, Parks-mutex_blocked,
}
use pascal_scheduler.System.Exclusion.{Exclusive, waits-tick, waits-set_task}
use pascal_scheduler.System.Exclusion.Handover.{waits-Switched, waits-update, waits-Parks}

-- Nobody but `t` begins to wait.
abbrev pub Others : ℕ → Kernel → Kernel → Type 0
Others t k k' = (j : ℕ) → j ≢ t → waits k j ≡ false → waits k' j ≡ false

-- A switch behind which `own` tells whether the current task waits.
module _ {k l k' : Kernel} (v : IsValid k) (p : Parks k l) (zero_free : waits l 0 ≡ false)
    (e : dispatch l ≡ some k') where
  switched : Switched l k' × IsValid k'
  switched =
      let (k1, e1, v1, w) = dispatch_lem (AllParked-Parks v p) in
      let same : k1 ≡ k' = cc (e, e1) in
      subst (λ (u : Kernel). Switched l u × IsValid u) same (w, v1)

  before_switch : (j : ℕ) → waits k' j ≡ waits (k_task_update_state l) j
  before_switch j =
      waits-Switched j (AllParked-Parks v p) switched.0 switched.1
        (waits-update l 0 (AllParked-Parks v p) zero_free)

  still_free : (j : ℕ) → waits l j ≡ false → waits k' j ≡ false
  still_free j f = before_switch j ∙ waits-update l j (AllParked-Parks v p) f

  switch-Others : Others k.current_tid k k'
  switch-Others j ne f = still_free j (waits-Parks j p ne ∙ f)

  -- While the mutex is taken, who waits goes on waiting.
  still_waits : (j : ℕ) → l.mutex ≢ 0 → waits l j ≡ true → waits k' j ≡ true
  still_waits j taken w = before_switch j ∙ given (Handoff-update (AllParked-Parks v p))
    where
      given :
          Handoff l (k_task_update_state l) 1 l.registered_tasks
          → waits (k_task_update_state l) j ≡ true
      given (kept m same f) = ap (λ (n : ℕ). has_flag n task_mutex_blocked) (same j w) ∙ w
      given (handed t t1 tn free m wt ready others) = absurd (taken free)

-- A task is in its section or waits to enter it.
abbrev pub engaged : Kernel → Section → ℕ → Bool
engaged k s j = s j || waits k j

acquire-engaged :
    (k k' : Kernel) (s : Section) (j : ℕ)
    → (waits k j ≡ false → waits k' j ≡ false)
    → engaged k' (acquire k k' s) j ≡ engaged k s j
unfolding acquire
acquire-engaged k k' s j h = elim (Bool-cases (waits k j)) [
  | inr n ↦ rw (n, h n) (ground arith)
  | inl w ↦ elim (Bool-cases (waits k' j)) [
    | inl w' ↦ rw (w, w') (ground arith)
    | inr n' ↦ rw (w, n') (ground arith)
  ]
]

-- An event at which nobody begins or ends to be engaged.
abbrev pub Steady : Kernel → Kernel → Section → Type 0
Steady k k' s = (j : ℕ) → engaged k' (acquire k k' s) j ≡ engaged k s j

parked_free :
    {k l : Kernel} {s : Section}
    → Exclusive k s
    → Parks k l
    → waits l k.current_tid ≡ false
    → waits l 0 ≡ false
parked_free {k} x p own = elim (ℕ_discrete 0 k.current_tid) [
  | yes e ↦ rw e own
  | no ne ↦ waits-Parks 0 p ne ∙ x.idle_free
]

switch-Steady :
    {k l k' : Kernel} {s : Section}
    → Exclusive k s
    → Parks k l
    → waits l k.current_tid ≡ false
    → dispatch l ≡ some k'
    → Steady k k' s
switch-Steady {k} {l} {k'} {s} x p own e j = acquire-engaged k k' s j (λ f.
    elim (ℕ_discrete j k.current_tid) [
      | yes q ↦ still_free x.valid p (parked_free x p own) e j (rw q own)
      | no ne ↦ switch-Others x.valid p (parked_free x p own) e j ne f
    ])

pub scheduler-Steady :
    {k k' : Kernel} {s : Section} → Exclusive k s → scheduler k ≡ some k' → Steady k k' s
unfolding scheduler
scheduler-Steady {k} x e = switch-Steady x (Parks-tick x.valid) (waits-tick k x.valid) e

pub k_task_sleep-Steady :
    {k k' : Kernel} {s : Section} (stime : ℕ)
    → Exclusive k s
    → k_task_sleep stime k ≡ some k'
    → Steady k k' s
unfolding k_task_sleep fall_asleep has_flag
k_task_sleep-Steady {k} stime x e =
    switch-Steady x (Parks-fall_asleep stime x.valid)
      (waits-set_task k
        (record (task_at k k.current_tid) {
          state = task_blocked;
          sleep_until = add32 k.jiffy stime;
          signal_flag = 0;
        })
        x.valid)
      e

pub k_task_yield-Steady :
    {k k' : Kernel} {s : Section} → Exclusive k s → k_task_yield k ≡ some k' → Steady k k' s
unfolding k_task_yield has_flag
k_task_yield-Steady {k} x e =
    switch-Steady x (Parks-ready x.valid)
      (waits-set_task k (record (task_at k k.current_tid) { state = task_ready }) x.valid) e

-- k_mutex_lock engages its caller, and nobody else.
pub record Engages (k k' : Kernel) (s s' : Section) : Type 0 where
  pub own : engaged k' s' k.current_tid ≡ true
  pub rest : (j : ℕ) → j ≢ k.current_tid → engaged k' s' j ≡ engaged k s j

lock_free : (k : Kernel) → (k.mutex == 0) ≡ true → k_mutex_lock k ≡ some (record k { mutex = 1 })
unfolding k_mutex_lock
lock_free k e = rw e refl

lock_taken :
    (k : Kernel)
    → (k.mutex == 0) ≡ false
    → k_mutex_lock k ≡ dispatch (set_state k.current_tid task_mutex_blocked k)
unfolding k_mutex_lock
lock_taken k e = rw e refl

free-Engages :
    (k : Kernel) (s : Section)
    → Engages k (record k { mutex = 1 }) s (λ j. (j == k.current_tid) || s j)
free-Engages k s = record {
  own = ground arith;
  rest = λ j ne. let other : (j == k.current_tid) ≡ false = ground (arith, ne) in rw other refl;
}

taken-Engages :
    {k l k' : Kernel} {s : Section}
    → Exclusive k s
    → Parks k l
    → waits l 0 ≡ false
    → k.mutex ≢ 0
    → waits l k.current_tid ≡ true
    → dispatch l ≡ some k'
    → Engages k k' s (acquire k k' s)
taken-Engages {k} {l} {k'} {s} x p z taken own e = record {
  own =
      rw (still_waits x.valid p z e k.current_tid (λ f. taken (sym p.mutex ∙ f)) own)
        (ground arith);
  rest = λ j ne. acquire-engaged k k' s j (switch-Others x.valid p z e j ne);
}

pub k_mutex_lock-Engages :
    {k k' : Kernel} {s : Section}
    → Exclusive k s
    → 1 ≤ k.current_tid
    → k_mutex_lock k ≡ some k'
    → Engages k k' s (if k.mutex == 0 then (λ j. (j == k.current_tid) || s j) else acquire k k' s)
unfolding has_flag
k_mutex_lock-Engages {k} {k'} {s} x c1 e = elim (Bool-cases (k.mutex == 0)) [
  | inl q ↦
      let same : record k { mutex = 1 } ≡ k' = cc (lock_free k q, e) in
      rw q (
        subst (λ (u : Kernel). Engages k u s (λ j. (j == k.current_tid) || s j)) same
          (free-Engages k s))
  | inr q ↦ rw q (
      taken-Engages x (Parks-mutex_blocked x.valid)
        (waits-Parks 0 (Parks-mutex_blocked x.valid) (omega (arith, c1)) ∙ x.idle_free)
        (ground (arith, q))
        (waits-set_task k (record (task_at k k.current_tid) { state = task_mutex_blocked }) x.valid)
        (sym (lock_taken k q) ∙ e))
]
