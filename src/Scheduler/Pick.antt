-- ===== src/Scheduler/Pick.antt =====
-- The choice of the next task in scheduler.c: k_task_update_state and k_task_peek_next.
pub mod Update
pub mod Sleepers
pub mod Handoff
pub mod Search
use pascal_scheduler.Prelude.{
  ℕ, zero, suc, ◌+◌, Bool, ◌&&◌, Option, none, some, ltb, ◌==◌, if◌then◌else◌,
}
use pascal_scheduler.Prelude.Word.{long_lt, has_flag}
use pascal_scheduler.Scheduler.State.{
  Kernel, task_ready, task_blocked, task_mutex_blocked, task_at, state_of, set_state,
}

-- IS_READY
unfoldable pub is_ready : Kernel → ℕ → Bool
is_ready k tid = has_flag (state_of k tid) task_ready

-- The first `if` of the loop of k_task_update_state: a sleep that is over.
unfoldable pub wake : ℕ → Kernel → Kernel
wake i k =
    if has_flag (state_of k i) task_blocked && long_lt (task_at k i).sleep_until k.jiffy
    then set_state i task_ready k
    else k

-- The second `if`: the free mutex goes to the task.
unfoldable pub grant : ℕ → Kernel → Kernel
grant i k =
    if has_flag (state_of k i) task_mutex_blocked && k.mutex == 0
    then record (set_state i task_ready k) { mutex = 1 }
    else k

-- The loop from index `i` with that many rounds left.
unfoldable pub update_from : ℕ → ℕ → Kernel → Kernel
update_from zero i k = k
update_from (suc rounds) i k = update_from rounds (i + 1) (grant i (wake i k))

unfoldable pub k_task_update_state : Kernel → Kernel
k_task_update_state k = update_from k.registered_tasks 1 k

-- How a `do` loop of k_task_peek_next ends: by `return 0`, or at a ready task.
pub data Scan : Type 0 where
  idle : Scan
  task : ℕ → Scan

-- The loop from the idle task. `none` means that the fuel has run out.
unfoldable pub scan_idle : ℕ → ℕ → Kernel → Option Scan
scan_idle zero tid k = none
scan_idle (suc fuel) tid k =
    let next = tid + 1 in
    let rest = scan_idle fuel (tid + 1) k in
    if ltb k.registered_tasks next
    then some idle
    else (if is_ready k next then some (task next) else rest)

-- The index after `tid`, going round to 1.
unfoldable pub round_robin : ℕ → ℕ → ℕ
round_robin registered tid = if ltb registered (tid + 1) then 1 else tid + 1

-- The loop from the task `ctid`.
unfoldable pub scan_task : ℕ → ℕ → ℕ → Kernel → Option Scan
scan_task zero ctid tid k = none
scan_task (suc fuel) ctid tid k =
    let next = round_robin k.registered_tasks tid in
    let rest = scan_task fuel ctid (round_robin k.registered_tasks tid) k in
    if next == ctid then some idle else (if is_ready k next then some (task next) else rest)

unfoldable pub scan : ℕ → Kernel → Option Scan
scan ctid k =
    let fuel = k.registered_tasks + 1 in
    if ctid == 0 then scan_idle fuel 0 k else scan_task fuel ctid ctid k

-- The statements behind the loops: the timer restarts unless the idle task was chosen.
unfoldable pub pick : Kernel → Scan → ℕ × Kernel
pick k idle = (0, k)
pick k (task tid) = (tid, record k { systick_val = k.systick_load })

unfoldable pub k_task_peek_next : ℕ → Kernel → Option (ℕ × Kernel)
k_task_peek_next ctid k =
    if k.registered_tasks == 0 then some (0, k) else elim (scan ctid (k_task_update_state k)) [
      | none ↦ none
      | some s ↦ some (pick (k_task_update_state k) s)
    ]
