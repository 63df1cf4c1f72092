-- ===== src/Scheduler/Pick/Sleepers.antt =====
-- k_task_update_state on the tasks in k_task_sleep: who wakes up, and who sleeps on.
use pascal_scheduler.Prelude.{
  ℕ, ◌+◌, ◌<◌, ◌≤◌, ◌≡◌, inl, inr, ◌∙◌, true, false, length, arith, ap, dec_lt,
}
use pascal_scheduler.Prelude.Word.{long_lt, has_flag}
use pascal_scheduler.Scheduler.State.{
  Task, Kernel, task_ready, task_blocked, task_mutex_blocked, task_at, state_of,
}
use pascal_scheduler.Scheduler.State.Table.{task_at-set_task_self}
use pascal_scheduler.Scheduler.Pick.{wake, grant, update_from}
use pascal_scheduler.Scheduler.Pick.Update.{
  round, task_at-update_from_out, task_at-update_from, before_round,
}

-- The task waits in k_task_sleep or signal_wait, and not for the mutex.
abbrev pub IsAsleep : Task → Type 0
IsAsleep t = (has_flag t.state task_blocked ≡ true) × (has_flag t.state task_mutex_blocked ≡ false)

state_of-round_due :
    (i : ℕ) (k : Kernel)
    → i < length k.tasks
    → has_flag (state_of k i) task_blocked ≡ true
    → long_lt (task_at k i).sleep_until k.jiffy ≡ true
    → state_of (round i k) i ≡ task_ready
unfolding round wake grant has_flag
state_of-round_due i k h b d =
    ground (arith, task_at-set_task_self k i (record (task_at k i) { state = task_ready }) h)

task_at-round_asleep :
    (i : ℕ) (k : Kernel)
    → IsAsleep (task_at k i)
    → long_lt (task_at k i).sleep_until k.jiffy ≡ false
    → task_at (round i k) i ≡ task_at k i
unfolding round wake grant
task_at-round_asleep i k a d = ground arith

-- A task whose time is over is made ready.
pub state_of-update_from_due :
    (rounds i j : ℕ) (k : Kernel)
    → i ≤ j
    → j < i + rounds
    → j < length k.tasks
    → has_flag (state_of k j) task_blocked ≡ true
    → long_lt (task_at k j).sleep_until k.jiffy ≡ true
    → state_of (update_from rounds i k) j ≡ task_ready
state_of-update_from_due rounds i j k p q h b d =
    let (same, frame, result) = task_at-update_from rounds i j k p q in
    ap (λ (t : Task). t.state) result
    ∙ state_of-round_due j (before_round i j k) (omega (arith, frame.size)) (rw (same, state_of) b)
        (rw (same, frame.time) d)

-- A task whose time is not over sleeps on.
pub task_at-update_from_asleep :
    (rounds i j : ℕ) (k : Kernel)
    → IsAsleep (task_at k j)
    → long_lt (task_at k j).sleep_until k.jiffy ≡ false
    → task_at (update_from rounds i k) j ≡ task_at k j
task_at-update_from_asleep rounds i j k a d = elim (dec_lt j i) [
  | yes p ↦ task_at-update_from_out rounds i j k (inl p)
  | no p ↦ elim (dec_lt j (i + rounds)) [
    | yes q ↦ within (omega arith) q
    | no q ↦ task_at-update_from_out rounds i j k (inr (omega arith))
  ]
]
  where
    within : i ≤ j → j < i + rounds → task_at (update_from rounds i k) j ≡ task_at k j
    within p q =
        let (same, frame, result) = task_at-update_from rounds i j k p q in
        result
        ∙ task_at-round_asleep j (before_round i j k) (rw same a) (rw (same, frame.time) d)
        ∙ same
