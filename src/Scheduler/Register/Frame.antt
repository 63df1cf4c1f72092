-- ===== src/Scheduler/Register/Frame.antt =====
-- The stack frame that k_task_register builds for a new task.
use pascal_scheduler.Prelude.{
  store, ℕ, zero, suc, ◌+◌, ◌-◌, ◌*◌, ◌<◌, ◌≤◌, ◌≡◌, ◌≢◌, ◌⊎◌, inl, inr, ◌^◌, refl, ◌∙◌, ap, sym,
  true, false, List, [], ◌∷◌, length, get_or, arith, ltb,
}
use pascal_scheduler.Prelude.Word.{sub32}
use pascal_scheduler.Scheduler.State.{
  Task, Kernel, max_tasks, task_ready, task_at, state_of, set_task,
}
use pascal_scheduler.Scheduler.State.Table.{task_at-set_task_self, task_at-set_task_ne}
use pascal_scheduler.Scheduler.Register.{
  Stack, push, push_all, initial_frame, stack_base, success, full, k_task_register,
}

-- Below `sp` there is room for `n` words.
sub32-lt : (a b : ℕ) → b ≤ a → a < 2 ^ 32 → sub32 a b ≡ a - b
sub32-lt a b h s = omega arith

-- Pushing goes downwards and writes only below the stack pointer.
push_all-memory_above :
    (ws : List ℕ) (s : Stack) (a : ℕ)
    → 4 * length ws ≤ s.sp
    → s.sp < 2 ^ 32
    → s.sp ≤ a
    → (push_all s ws).memory a ≡ s.memory a
unfolding push_all push store
push_all-memory_above [] s a h small le = refl
push_all-memory_above (w ∷ ws) s a h small le =
    push_all-memory_above ws (push s w) a (omega arith) (omega arith) (omega arith) ∙ ground arith

push_all-memory_below :
    (ws : List ℕ) (s : Stack) (a : ℕ)
    → 4 * length ws ≤ s.sp
    → s.sp < 2 ^ 32
    → a + 4 * length ws < s.sp
    → (push_all s ws).memory a ≡ s.memory a
unfolding push_all push store
push_all-memory_below [] s a h small lt = refl
push_all-memory_below (w ∷ ws) s a h small lt =
    push_all-memory_below ws (push s w) a (omega arith) (omega arith) (omega arith) ∙ ground arith

-- The word that was pushed after `i` others stands `i + 1` words below the old stack pointer.
push_all-memory :
    (ws : List ℕ) (s : Stack) (i : ℕ)
    → 4 * length ws ≤ s.sp
    → s.sp < 2 ^ 32
    → i < length ws
    → (push_all s ws).memory (s.sp - 4 * (i + 1)) ≡ get_or ws i 0
unfolding push_all push store
push_all-memory [] s i h small lt = absurd (omega arith)
push_all-memory (w ∷ ws) s zero h small lt =
    push_all-memory_above ws (push s w) (s.sp - 4) (omega arith) (omega arith) (omega arith)
    ∙ ground arith
push_all-memory (w ∷ ws) s (suc i) h small lt =
    ap (push_all (push s w) ws).memory (omega arith)
    ∙ push_all-memory ws (push s w) i (omega arith) (omega arith) (omega arith)

-- What the exception return finds at the stack pointer of a new task: r0, r1, r2, r3, r12, lr, pc and
-- xPSR, with the debugger's mark above them.
pub record IsInitialFrame (memory : ℕ → ℕ) (sp task_func : ℕ) : Type 0 where
  pub r0 : memory sp ≡ 0
  pub r1 : memory (sp + 4) ≡ 0
  pub r2 : memory (sp + 8) ≡ 0
  pub r3 : memory (sp + 12) ≡ 0
  pub r12 : memory (sp + 16) ≡ 0
  pub lr : memory (sp + 20) ≡ task_func
  pub pc : memory (sp + 24) ≡ task_func
  pub xpsr : memory (sp + 28) ≡ 0x21000000
  pub mark : memory (sp + 32) ≡ 0xDEADBEEF

initial_frame-IsInitialFrame :
    (base task_func : ℕ) (memory : ℕ → ℕ)
    → 36 ≤ base
    → base < 2 ^ 32
    → IsInitialFrame
        (push_all (record { sp = base; memory = memory }) (initial_frame task_func)).memory
        (base - 36)
        task_func
unfolding initial_frame
initial_frame-IsInitialFrame base f memory h small = record {
  r0 = word 8 (base - 36) (omega arith) (omega arith);
  r1 = word 7 (base - 36 + 4) (omega arith) (omega arith);
  r2 = word 6 (base - 36 + 8) (omega arith) (omega arith);
  r3 = word 5 (base - 36 + 12) (omega arith) (omega arith);
  r12 = word 4 (base - 36 + 16) (omega arith) (omega arith);
  lr = word 3 (base - 36 + 20) (omega arith) (omega arith);
  pc = word 2 (base - 36 + 24) (omega arith) (omega arith);
  xpsr = word 1 (base - 36 + 28) (omega arith) (omega arith);
  mark = word 0 (base - 36 + 32) (omega arith) (omega arith);
}
  where
    s : Stack
    s = record { sp = base; memory = memory }

    frame : List ℕ
    frame = initial_frame f

    word :
        (i a : ℕ) → i < 9 → base - 4 * (i + 1) ≡ a → (push_all s frame).memory a ≡ get_or frame i 0
    word i a lt e =
        ap (push_all s frame).memory (sym e) ∙ push_all-memory frame s i (omega arith) small lt

stack_base-lt : (top tid : ℕ) → stack_base top tid < 2 ^ 32
unfolding stack_base
stack_base-lt top tid = omega arith

-- A task that is registered, and what becomes of the others. With room in the table and on the stack
-- k_task_register returns 0; the new task is ready, and its stack holds the frame from which the
-- exception return starts `task_func`; no other task changes, and no memory outside the 36 bytes of
-- the frame.
pub k_task_register_lem :
    (thread_stack_top task_func : ℕ) (k : Kernel)
    → length k.tasks ≡ max_tasks
    → k.registered_tasks + 1 < max_tasks
    → 36 ≤ stack_base thread_stack_top (k.registered_tasks + 1)
    → let (r, k') = k_task_register thread_stack_top task_func k in
      let tid = k.registered_tasks + 1 in
      let base = stack_base thread_stack_top tid in
      (r ≡ success)
      × (k'.registered_tasks ≡ tid)
      × (state_of k' tid ≡ task_ready)
      × ((task_at k' tid).sp ≡ base - 36)
      × IsInitialFrame k'.memory (base - 36) task_func
      × ((j : ℕ) → j ≢ tid → task_at k' j ≡ task_at k j)
      × ((a : ℕ) → (a + 36 < base) ⊎ (base ≤ a) → k'.memory a ≡ k.memory a)
unfolding k_task_register
k_task_register_lem top f k size room h =
    let fits : ltb (k.registered_tasks + 1) max_tasks ≡ true = ground arith in
    rw fits (
      refl,
      refl,
      ap (λ (t : Task). t.state) written,
      ap (λ (t : Task). t.sp) written ∙ omega (arith, stack_base-lt top tid),
      initial_frame-IsInitialFrame base f k.memory h below,
      (λ j ne. task_at-set_task_ne k tid j entry (λ e. ne (sym e))),
      (λ a out.
          unfold initial_frame in
          elim out [
            | inl under ↦ push_all-memory_below (initial_frame f) start a h below under
            | inr over ↦ push_all-memory_above (initial_frame f) start a h below over
          ]),
    )
  where
    tid : ℕ
    tid = k.registered_tasks + 1

    base : ℕ
    base = stack_base top tid

    below : base < 2 ^ 32
    below = stack_base-lt top tid

    start : Stack
    start = record { sp = base; memory = k.memory }

    entry : Task
    entry = record (task_at k tid) { sp = sub32 base 36; state = task_ready }

    written : task_at (set_task tid entry k) tid ≡ entry
    written = task_at-set_task_self k tid entry (omega arith)

-- A full table refuses: -1, and nothing changes.
pub k_task_register-full :
    (thread_stack_top task_func : ℕ) (k : Kernel)
    → max_tasks ≤ k.registered_tasks + 1
    → k_task_register thread_stack_top task_func k ≡ (full, k)
unfolding k_task_register
k_task_register-full top f k h =
    let no_room : ltb (k.registered_tasks + 1) max_tasks ≡ false = ground arith in rw no_room

-- The stack areas of different tasks are 2048 bytes apart.
pub stack_base_apart :
    (top i j : ℕ)
    → top < 2 ^ 32
    → 2048 * max_tasks ≤ top
    → i < j
    → j < max_tasks
    → stack_base top j + 2048 ≤ stack_base top i
unfolding stack_base
stack_base_apart top i j t h p q = omega arith
