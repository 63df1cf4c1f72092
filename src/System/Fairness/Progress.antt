-- ===== src/System/Fairness/Progress.antt =====
-- A scheduling decision brings each ready task closer to its turn.
use pascal_scheduler.Prelude.{
  ℕ, ◌+◌, ◌<◌, ◌≤◌, ◌≡◌, ◌≢◌, ◌⊎◌, inl, inr, refl, ◌∙◌, true, Option, some, length, arith, sym,
  ℕ_discrete,
}
use pascal_scheduler.Prelude.Word.{has_flag}
use pascal_scheduler.Scheduler.State.{Kernel, task_ready, state_of}
use pascal_scheduler.Scheduler.State.Table.{SameFrame}
use pascal_scheduler.Scheduler.Pick.{is_ready, Scan, idle, task, k_task_update_state}
use pascal_scheduler.Scheduler.Pick.Update.{Woken-update_from}
use pascal_scheduler.Scheduler.Pick.Search.{Found, nobody, first, distance, IsOther}
use pascal_scheduler.Scheduler.Ops.{dispatch}
use pascal_scheduler.Scheduler.Ops.Dispatch.{IsValid, Switched, dispatch_lem, tid_of, frame_update}
use pascal_scheduler.System.Valid.{Parks, AllParked-Parks}

-- A task that is ready before the update is ready behind it.
is_ready-update :
    (k : Kernel) (t : ℕ)
    → t < length k.tasks
    → state_of k t ≡ task_ready
    → (is_ready (k_task_update_state k) t ≡ true)
      × (state_of (k_task_update_state k) t ≡ task_ready)
unfolding k_task_update_state is_ready has_flag
is_ready-update k t h r = ground (arith, Woken-update_from k.registered_tasks 1 t k h)

-- Two steps of the round that lead to different tasks have different lengths, and lengths add up.
distance_shrinks :
    (n c t t' : ℕ)
    → c ≤ n
    → 1 ≤ t
    → t ≤ n
    → 1 ≤ t'
    → t' ≤ n
    → t' ≢ c
    → t ≢ c
    → t ≢ t'
    → ¬ (distance n c t < distance n c t')
    → distance n t' t + 1 ≤ distance n c t
distance_shrinks n c t t' cn t1 tn s1 sn sc tc ne h = ground arith

-- What a step does for a ready task `t`: it gives it the turn, or keeps it ready and, if the step
-- has `s` switches, brings the round nearer to it.
abbrev Progress : ℕ → ℕ → Kernel → Kernel → Type 0
Progress t s k k' =
    (k'.current_tid ≡ t)
    ⊎ ((state_of k' t ≡ task_ready)
        × (k'.registered_tasks ≡ k.registered_tasks)
        × (distance k.registered_tasks k'.current_tid t + s
            ≤ distance k.registered_tasks k.current_tid t))

-- The answer of the search, for a task that is ready.
search_serves :
    (u : Kernel) (c t : ℕ) (s : Scan)
    → c ≤ u.registered_tasks
    → IsOther u c t
    → is_ready u t ≡ true
    → Found u c s
    → (tid_of s ≡ t)
      ⊎ (distance u.registered_tasks (tid_of s) t + 1 ≤ distance u.registered_tasks c t)
search_serves u c t idle cn o r (nobody none_ready) = cc (none_ready t o)
search_serves u c t (task t') cn o r (first x o' r' before) = elim (ℕ_discrete t' t) [
  | yes e ↦ inl e
  | no ne ↦ inr (
      distance_shrinks u.registered_tasks c t t' cn o.0 o.1 o'.0 o'.1 o'.2 o.2 (λ e. ne (sym e))
        (λ near. cc (before t o near)))
]

Progress-Switched :
    {k l k' : Kernel} (t : ℕ)
    → IsValid k
    → Parks k l
    → Switched l k'
    → IsOther k k.current_tid t
    → state_of k t ≡ task_ready
    → Progress t 1 k k'
Progress-Switched {k} {l} {k'} t v p s o r =
    elim (search_serves u l.current_tid t s.target (omega (arith, reg, p.current, v.current))
      (o.0, omega (arith, reg, o.1), rw p.current o.2) ready.0 s.found) [
        | inl e ↦ inl (s.chosen ∙ e)
        | inr near ↦ elim (ℕ_discrete k'.current_tid t) [
          | yes e ↦ inl e
          | no ne ↦ inr (
            rw (s.rest t (λ e. ne (sym e)), state_of) ready.1,
            s.registered ∙ p.registered,
            rw (s.chosen, ← reg, ← p.current) near,
          )
        ]
      ]
  where
    u : Kernel
    u = k_task_update_state l

    frame : SameFrame l u
    frame = frame_update l

    reg : u.registered_tasks ≡ k.registered_tasks
    reg = frame.registered ∙ p.registered

    ready : (is_ready u t ≡ true) × (state_of u t ≡ task_ready)
    ready =
        is_ready-update l t (omega (arith, o.1, p.size, v.size, v.room))
          (rw (p.rest t o.2, state_of) r)

-- A step that is a switch, of a system that was parked from `k`.
abbrev pub Steps : ℕ → ℕ → Kernel → Option Kernel → Type 0
Steps t s k r = (k' : Kernel) × (r ≡ some k') × IsValid k' × Progress t s k k'

pub dispatch-Steps :
    {k l : Kernel} (t : ℕ)
    → IsValid k
    → Parks k l
    → IsOther k k.current_tid t
    → state_of k t ≡ task_ready
    → Steps t 1 k (dispatch l)
dispatch-Steps t v p o r =
    let (k', e, v', s) = dispatch_lem (AllParked-Parks v p) in
    (k', e, v', Progress-Switched t v p s o r)

-- A step that leaves the table alone.
pub stay-Steps :
    (k k' : Kernel) (t : ℕ)
    → IsValid k'
    → state_of k' t ≡ task_ready
    → k'.current_tid ≡ k.current_tid
    → k'.registered_tasks ≡ k.registered_tasks
    → Steps t 0 k (some k')
stay-Steps k k' t v r c n = (k', refl, v, inr (r, n, rw c (omega arith)))
