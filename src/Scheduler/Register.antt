-- ===== src/Scheduler/Register.antt =====
-- k_task_register of scheduler.c, as the makefile builds it (TARGET_XMC and STACK_DEBUG are defined).
pub mod Frame
use pascal_scheduler.Prelude.{store, ℕ, ◌+◌, ◌*◌, List, [], ◌∷◌, ltb, ◌==◌, if◌then◌else◌}
use pascal_scheduler.Prelude.Word.{sub32}
use pascal_scheduler.Scheduler.State.{Kernel, max_tasks, task_ready, task_at, set_task}

-- The stack pointer and the words of memory.
pub record Stack : Type 0 where
  pub sp : ℕ
  pub memory : ℕ → ℕ

-- The instruction `push {r}`: a full descending stack.
unfoldable pub push : Stack → ℕ → Stack
push s word = record { sp = sub32 s.sp 4; memory = store (sub32 s.sp 4) word s.memory }

unfoldable pub push_all : Stack → List ℕ → Stack
push_all s [] = s
push_all s (w ∷ ws) = push_all (push s w) ws

-- What the assembly code pushes, in order: the debugger's mark, xPSR, pc, lr, r12, r3, r2, r1, r0.
unfoldable pub initial_frame : ℕ → List ℕ
initial_frame task_func = 0xDEADBEEF ∷ 0x21000000 ∷ task_func ∷ task_func ∷ 0 ∷ 0 ∷ 0 ∷ 0 ∷ 0 ∷ []

-- `&THREAD_STACK_TOP - 512 * tid`: the symbol has pointer type, so it counts in words of 4 bytes.
unfoldable pub stack_base : ℕ → ℕ → ℕ
stack_base thread_stack_top tid = sub32 thread_stack_top (4 * (512 * tid))

-- The result of the call: 0 or -1.
pub data Registered : Type 0 where
  success full : Registered

unfoldable pub k_task_register : ℕ → ℕ → Kernel → Registered × Kernel
k_task_register thread_stack_top task_func k =
    let tid = k.registered_tasks + 1 in
    let sp = stack_base thread_stack_top tid in
    let built = push_all (record { sp = sp; memory = k.memory }) (initial_frame task_func) in
    if ltb tid max_tasks
    then (
      success,
      record (set_task tid (record (task_at k tid) { sp = sub32 sp 36; state = task_ready }) k) {
        registered_tasks = tid;
        memory = built.memory;
      },
    )
    else (full, k)
