-- ===== src/Scheduler/State/Table.antt =====
-- The task table under writes, and which part of the kernel an operation leaves alone.
use pascal_scheduler.Prelude.{
  ℕ, ◌<◌, ◌≡◌, ◌≢◌, refl, length, length-set, get_or-set_self, get_or-set_ne, arith,
}
use pascal_scheduler.Scheduler.State.{Task, Kernel, blank_task, task_at, set_task}

pub task_at-set_task_self :
    (k : Kernel) (tid : ℕ) (t : Task) → tid < length k.tasks → task_at (set_task tid t k) tid ≡ t
task_at-set_task_self k tid t h = get_or-set_self k.tasks tid t blank_task h

pub task_at-set_task_ne :
    (k : Kernel) (tid j : ℕ) (t : Task) → tid ≢ j → task_at (set_task tid t k) j ≡ task_at k j
task_at-set_task_ne k tid j t h = get_or-set_ne k.tasks tid j t blank_task h

-- What no choice of a task changes.
pub record SameFrame (k k' : Kernel) : Type 0 where
  pub registered : k'.registered_tasks ≡ k.registered_tasks
  pub current : k'.current_tid ≡ k.current_tid
  pub size : length k'.tasks ≡ length k.tasks
  pub time : k'.jiffy ≡ k.jiffy
  pub flag : k'.signal_flag ≡ k.signal_flag
  pub raised : k'.signals_flags ≡ k.signals_flags
  pub load : k'.systick_load ≡ k.systick_load
  pub memory : k'.memory ≡ k.memory

pub SameFrame-refl : (k : Kernel) → SameFrame k k
SameFrame-refl k = record {
  registered = refl;
  current = refl;
  size = refl;
  time = refl;
  flag = refl;
  raised = refl;
  load = refl;
  memory = refl;
}

pub SameFrame-trans : {k l m : Kernel} → SameFrame k l → SameFrame l m → SameFrame k m
SameFrame-trans a b = ground arith

pub SameFrame-set_task : (k : Kernel) (tid : ℕ) (t : Task) → SameFrame k (set_task tid t k)
SameFrame-set_task k tid t = record {
  registered = refl;
  current = refl;
  size = length-set k.tasks tid t;
  time = refl;
  flag = refl;
  raised = refl;
  load = refl;
  memory = refl;
}
