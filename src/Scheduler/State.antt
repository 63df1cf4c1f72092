-- ===== src/Scheduler/State.antt =====
-- The state of scheduler.c and its task table (include/scheduler.h).
pub mod Table
use pascal_scheduler.Prelude.{ℕ, List, replicate, get_or, set}

-- `struct task_struct`.
pub record Task : Type 0 where
  pub sp : ℕ
  pub registers : List ℕ
  pub state : ℕ
  pub sleep_until : ℕ
  pub signal_flag : ℕ

abbrev pub max_tasks : ℕ
max_tasks = 8

abbrev pub task_created : ℕ
task_created = 0x1

abbrev pub task_ready : ℕ
task_ready = 0x2

abbrev pub task_running : ℕ
task_running = 0x4

abbrev pub task_blocked : ℕ
task_blocked = 0x8

abbrev pub task_mutex_blocked : ℕ
task_mutex_blocked = 0x10

-- The file's variables, those of signals.h, the two registers of the system timer that the code
-- writes, and the memory that holds the tasks' stacks, word by word.
pub record Kernel : Type 0 where
  pub current_tid : ℕ
  pub registered_tasks : ℕ
  pub tasks : List Task
  pub jiffy : ℕ
  pub mutex : ℕ
  pub signal_flag : ℕ
  pub signals_flags : ℕ
  pub systick_val : ℕ
  pub systick_load : ℕ
  pub memory : ℕ → ℕ

-- A static array starts as zeros.
abbrev pub blank_task : Task
blank_task = record {
  sp = 0;
  registers = replicate 4 0;
  state = 0;
  sleep_until = 0;
  signal_flag = 0;
}

-- The kernel's static data before anything runs.
abbrev pub blank_kernel : ℕ → (ℕ → ℕ) → Kernel
blank_kernel load memory = record {
  current_tid = 0;
  registered_tasks = 0;
  tasks = replicate max_tasks blank_task;
  jiffy = 0;
  mutex = 0;
  signal_flag = 0;
  signals_flags = 0;
  systick_val = 0;
  systick_load = load;
  memory = memory;
}

-- `tasks[tid]`; the invariant keeps every index that the code uses below `max_tasks`.
abbrev pub task_at : Kernel → ℕ → Task
task_at k tid = get_or k.tasks tid blank_task

abbrev pub state_of : Kernel → ℕ → ℕ
state_of k tid = (task_at k tid).state

abbrev pub set_task : ℕ → Task → Kernel → Kernel
set_task tid t k = record k { tasks = set k.tasks tid t }

-- `tasks[tid].state = s`.
abbrev pub set_state : ℕ → ℕ → Kernel → Kernel
set_state tid s k = set_task tid (record (task_at k tid) { state = s }) k
