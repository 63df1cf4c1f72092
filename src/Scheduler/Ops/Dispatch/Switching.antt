-- ===== src/Scheduler/Ops/Dispatch/Switching.antt =====
-- A table in which the chosen task has become the current one.
use pascal_scheduler.Prelude.{
  ℕ, ◌<◌, ◌≤◌, ◌≡◌, ◌≢◌, ◌⊎◌, refl, ◌∙◌, length, arith, ap, sym, length-set, get_or,
}
use pascal_scheduler.Scheduler.State.{
  Task, Kernel, max_tasks, blank_task, task_ready, task_running, task_blocked, task_mutex_blocked,
  state_of, task_at, set_state,
}
use pascal_scheduler.Scheduler.State.Table.{SameFrame, task_at-set_task_self, task_at-set_task_ne}
use pascal_scheduler.Scheduler.Pick.{Scan, idle, task, pick, k_task_update_state}
use pascal_scheduler.Scheduler.Pick.Update.{Woken-update_from, SameFrame-update_from}
use pascal_scheduler.Scheduler.Pick.Search.{Found, first}

-- The states of a task that does not run: ready, in k_task_sleep, in signal_wait, or waiting for
-- the mutex.
abbrev pub IsParked : ℕ → Type 0
IsParked s = (s ≡ task_ready) ⊎ (s ≡ task_blocked) ⊎ (s ≡ 9) ⊎ (s ≡ task_mutex_blocked)

-- The table between two operations: the current task runs, and no other.
pub record IsValid (k : Kernel) : Type 0 where
  pub size : length k.tasks ≡ max_tasks
  pub room : k.registered_tasks < max_tasks
  pub current : k.current_tid ≤ k.registered_tasks
  pub bit : k.mutex ≤ 1
  pub unused : (i : ℕ) → k.registered_tasks < i → state_of k i ≡ 0
  pub running : state_of k k.current_tid ≡ task_running
  pub others : (i : ℕ) → i ≤ k.registered_tasks → i ≢ k.current_tid → IsParked (state_of k i)

-- The table when a switch begins: no task runs.
pub record AllParked (k : Kernel) : Type 0 where
  pub size : length k.tasks ≡ max_tasks
  pub room : k.registered_tasks < max_tasks
  pub current : k.current_tid ≤ k.registered_tasks
  pub bit : k.mutex ≤ 1
  pub unused : (i : ℕ) → k.registered_tasks < i → state_of k i ≡ 0
  pub parked : (i : ℕ) → i ≤ k.registered_tasks → IsParked (state_of k i)

abbrev pub tid_of : Scan → ℕ
tid_of idle = 0
tid_of (task t) = t

-- What a switch from `k` to `k'` does: the tasks are updated, the search from the old current task
-- names the new one, and nothing else changes.
pub record Switched (k k' : Kernel) : Type 0 where
  pub target : Scan
  pub found : Found (k_task_update_state k) k.current_tid target
  pub chosen : k'.current_tid ≡ tid_of target
  pub runs : state_of k' k'.current_tid ≡ task_running
  pub rest : (j : ℕ) → j ≢ k'.current_tid → task_at k' j ≡ task_at (k_task_update_state k) j
  pub mutex : k'.mutex ≡ (k_task_update_state k).mutex
  pub size : length k'.tasks ≡ length k.tasks
  pub registered : k'.registered_tasks ≡ k.registered_tasks
  pub time : k'.jiffy ≡ k.jiffy
  pub flag : k'.signal_flag ≡ k.signal_flag

pub frame_update : (k : Kernel) → SameFrame k (k_task_update_state k)
unfolding k_task_update_state
frame_update k = SameFrame-update_from k.registered_tasks 1 k

pub IsParked-update :
    (k : Kernel) (i : ℕ)
    → i < length k.tasks
    → IsParked (state_of k i)
    → IsParked (state_of (k_task_update_state k) i)
unfolding k_task_update_state
IsParked-update k i h p = ground (arith, Woken-update_from k.registered_tasks 1 i k h)

pub tid_of-le : (k : Kernel) (c : ℕ) (s : Scan) → Found k c s → tid_of s ≤ k.registered_tasks
tid_of-le k c idle f = omega arith
tid_of-le k c (task t) (first t' o r b) = o.1

-- The kernel that `dispatch` returns for an answer of the search.
unfoldable pub switch_to : Kernel → Scan → Kernel
switch_to u s = set_state (tid_of s) task_running (record (pick u s).1 { current_tid = tid_of s })

-- `switch_to` writes the table of `u`, whichever timer value comes with it.
Switched-target :
    (k k' : Kernel) (s : Scan)
    → tid_of s < length k.tasks
    → Found (k_task_update_state k) k.current_tid s
    → k'.current_tid ≡ tid_of s
    → k'.tasks ≡ (set_state (tid_of s) task_running (k_task_update_state k)).tasks
    → k'.mutex ≡ (k_task_update_state k).mutex
    → k'.registered_tasks ≡ (k_task_update_state k).registered_tasks
    → k'.jiffy ≡ (k_task_update_state k).jiffy
    → k'.signal_flag ≡ (k_task_update_state k).signal_flag
    → Switched k k'
Switched-target k k' s h f chosen table mutex registered time flag = record {
  target = s;
  found = f;
  chosen = chosen;
  runs =
      ap (λ l. (get_or l k'.current_tid blank_task).state) table
      ∙ rw chosen (
          ap (λ (t : Task). t.state)
            (task_at-set_task_self u (tid_of s) _ (omega (arith, frame.size))));
  rest = λ j ne.
      ap (λ l. get_or l j blank_task) table
      ∙ task_at-set_task_ne u (tid_of s) j _ (λ e. ne (sym (chosen ∙ e)));
  mutex = mutex;
  size = ap length table ∙ length-set u.tasks (tid_of s) _ ∙ frame.size;
  registered = registered ∙ frame.registered;
  time = time ∙ frame.time;
  flag = flag ∙ frame.flag;
}
  where
    u : Kernel
    u = k_task_update_state k

    frame : SameFrame k u
    frame = frame_update k

pub Switched-switch_to :
    (k : Kernel) (s : Scan)
    → tid_of s < length k.tasks
    → Found (k_task_update_state k) k.current_tid s
    → Switched k (switch_to (k_task_update_state k) s)
unfolding switch_to pick
Switched-switch_to k idle h f = Switched-target k _ idle h f refl refl refl refl refl refl
Switched-switch_to k (task t) h f = Switched-target k _ (task t) h f refl refl refl refl refl refl
