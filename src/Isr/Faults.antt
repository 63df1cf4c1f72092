-- ===== src/Isr/Faults.antt =====
-- isr.c, the fault handler. `memory` holds the words of the stacks, at addresses that are multiples of 4.
use pascal_scheduler.Prelude.{ℕ, ◌+◌, ◌*◌, ◌≡◌, if◌then◌else◌}
use pascal_scheduler.Prelude.Word.{has_flag}

-- The local variables of unwind_stack, which are there for a debugger to see.
pub record Registers : Type 0 where
  pub r0 : ℕ
  pub r1 : ℕ
  pub r2 : ℕ
  pub r3 : ℕ
  pub r12 : ℕ
  pub lr : ℕ
  pub pc : ℕ
  pub psr : ℕ

-- The registers at the breakpoint that ends unwind_stack.
unfoldable pub unwind_stack : (ℕ → ℕ) → ℕ → Registers
unwind_stack memory fault_stack_address = record {
  r0 = memory (fault_stack_address + 4 * (0 + 4));
  r1 = memory (fault_stack_address + 4 * (1 + 4));
  r2 = memory (fault_stack_address + 4 * (2 + 4));
  r3 = memory (fault_stack_address + 4 * (3 + 4));
  r12 = memory (fault_stack_address + 4 * (4 + 4));
  lr = memory (fault_stack_address + 4 * (5 + 4));
  pc = memory (fault_stack_address + 4 * (6 + 4));
  psr = memory (fault_stack_address + 4 * (7 + 4));
}

-- Bit 2 of the link register tells which stack the processor has pushed the registers on. The loop behind the
-- instructions is not reached, since both branches leave for unwind_stack.
unfoldable pub hard_fault_handler : (ℕ → ℕ) → ℕ → ℕ → ℕ → Registers
hard_fault_handler memory lr psp msp =
    if has_flag 4 lr then unwind_stack memory psp else unwind_stack memory msp

-- What the processor pushes when it takes an exception: R0, R1, R2, R3, R12, LR, PC, xPSR.
pub record Pushed (memory : ℕ → ℕ) (sp : ℕ) (registers : Registers) : Type 0 where
  pub at_0 : memory sp ≡ registers.r0
  pub at_4 : memory (sp + 4) ≡ registers.r1
  pub at_8 : memory (sp + 8) ≡ registers.r2
  pub at_12 : memory (sp + 12) ≡ registers.r3
  pub at_16 : memory (sp + 16) ≡ registers.r12
  pub at_20 : memory (sp + 20) ≡ registers.lr
  pub at_24 : memory (sp + 24) ≡ registers.pc
  pub at_28 : memory (sp + 28) ≡ registers.psr

-- What unwind_stack shows as R0 to R3 are R12, LR, PC and xPSR at the fault.
unwind_stack_lem :
    (memory : ℕ → ℕ) (sp : ℕ) (registers : Registers)
    → Pushed memory sp registers
    → ((unwind_stack memory sp).r0 ≡ registers.r12)
      × ((unwind_stack memory sp).r1 ≡ registers.lr)
      × ((unwind_stack memory sp).r2 ≡ registers.pc)
      × ((unwind_stack memory sp).r3 ≡ registers.psr)
unfolding unwind_stack
unwind_stack_lem memory sp registers pushed =
    (pushed.at_16, pushed.at_20, pushed.at_24, pushed.at_28)
