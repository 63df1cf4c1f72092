-- ===== src/System/Sleep/Asleep.antt =====
-- A task that sleeps stays asleep over a scheduling decision.
use pascal_scheduler.Prelude.{ℕ, ◌≤◌, ◌≡◌, ◌≢◌, refl, ◌∙◌, false, Option, some, arith, sym}
use pascal_scheduler.Prelude.Word.{has_flag, add32, long_lt}
use pascal_scheduler.Scheduler.State.{Kernel, task_blocked, state_of, task_at}
use pascal_scheduler.Scheduler.Pick.{is_ready, Scan, idle, task, k_task_update_state}
use pascal_scheduler.Scheduler.Pick.Sleepers.{task_at-update_from_asleep}
use pascal_scheduler.Scheduler.Pick.Search.{Found, first}
use pascal_scheduler.Scheduler.Ops.{dispatch, take_signal, tick}
use pascal_scheduler.Scheduler.Ops.Dispatch.{IsValid, dispatch_lem, tid_of}
use pascal_scheduler.System.{Event, systick}
use pascal_scheduler.System.Valid.{Parks, AllParked-Parks}

task_at-update_asleep :
    (l : Kernel) (c : ℕ)
    → state_of l c ≡ task_blocked
    → long_lt (task_at l c).sleep_until l.jiffy ≡ false
    → task_at (k_task_update_state l) c ≡ task_at l c
unfolding k_task_update_state has_flag
task_at-update_asleep l c b d =
    task_at-update_from_asleep l.registered_tasks 1 c l
      (rw (b, state_of) refl, rw (b, state_of) refl) d

-- The search never answers a sleeping task.
not_chosen :
    (u : Kernel) (c t : ℕ) (s : Scan)
    → 1 ≤ t
    → state_of u t ≡ task_blocked
    → Found u c s
    → tid_of s ≢ t
unfolding is_ready has_flag
not_chosen u c t idle p b f e = omega arith
not_chosen u c t (task t') p b (first x o r before) e = ground (arith, r, b, e)

-- What a step leaves of a sleeping task `t` whose time is not over.
pub record SleepsOn (t : ℕ) (k k' : Kernel) (time : ℕ) : Type 0 where
  pub same : task_at k' t ≡ task_at k t
  pub valid : IsValid k'
  pub registered : k'.registered_tasks ≡ k.registered_tasks
  pub jiffy : k'.jiffy ≡ time

abbrev pub Rests : ℕ → Kernel → ℕ → Option Kernel → Type 0
Rests t k time r = (k' : Kernel) × (r ≡ some k') × SleepsOn t k k' time

-- A switch passes over a sleeping task, the one that has just gone to sleep included.
pub dispatch-Rests :
    {k l : Kernel} (t : ℕ)
    → IsValid k
    → Parks k l
    → 1 ≤ t
    → state_of l t ≡ task_blocked
    → long_lt (task_at l t).sleep_until l.jiffy ≡ false
    → Rests t l l.jiffy (dispatch l)
dispatch-Rests {k} {l} t v p t1 b d =
    let (k', e, v', s) = dispatch_lem (AllParked-Parks v p) in
    (
      k',
      e,
      record {
        same =
            s.rest t
              (λ e. not_chosen u l.current_tid t s.target t1 still s.found (sym (e ∙ s.chosen)))
            ∙ updated;
        valid = v';
        registered = s.registered;
        jiffy = s.time;
      },
    )
  where
    u : Kernel
    u = k_task_update_state l

    updated : task_at u t ≡ task_at l t
    updated = task_at-update_asleep l t b d

    still : state_of u t ≡ task_blocked
    still = rw (updated, state_of) b

-- The same, for a task that slept before the operation parked the current one.
pub parked-Rests :
    {k l : Kernel} (t : ℕ)
    → IsValid k
    → Parks k l
    → 1 ≤ t
    → t ≢ k.current_tid
    → state_of k t ≡ task_blocked
    → long_lt (task_at k t).sleep_until l.jiffy ≡ false
    → Rests t k l.jiffy (dispatch l)
parked-Rests {k} {l} t v p t1 other b d =
    let (k', e, r) =
      dispatch-Rests t v p t1 (rw (p.rest t other, state_of) b) (rw (p.rest t other) d) in
    (
      k',
      e,
      record {
        same = r.same ∙ p.rest t other;
        valid = r.valid;
        registered = r.registered ∙ p.registered;
        jiffy = r.jiffy;
      },
    )

pub stay-Rests :
    (k k' : Kernel) (t : ℕ)
    → IsValid k'
    → task_at k' t ≡ task_at k t
    → k'.registered_tasks ≡ k.registered_tasks
    → k'.jiffy ≡ k.jiffy
    → Rests t k k.jiffy (some k')
stay-Rests k k' t v s n j = (k', refl, record { same = s; valid = v; registered = n; jiffy = j })

pub jiffy-tick : (k : Kernel) → (tick k).jiffy ≡ add32 k.jiffy 1
unfolding tick take_signal
jiffy-tick k = ground arith

-- The clock behind an event.
abbrev pub time_after : Event → ℕ → ℕ
time_after systick j = add32 j 1
time_after _ j = j
