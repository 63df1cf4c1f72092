-- ===== src/Isr.antt =====
-- isr.c, the supervisor call handler, and the calls that reach it (syscall.c, mutex.c).
pub mod Faults
use pascal_scheduler.Prelude.{ℕ, Option, some, List, get_or, if◌then◌else◌, ◌==◌}
use pascal_scheduler.Prelude.Word.{sub32}
use pascal_scheduler.Scheduler.State.{Kernel}
use pascal_scheduler.Scheduler.Ops.{k_task_sleep, k_task_yield, k_mutex_lock, k_mutex_unlock}

-- enum supervisor_function_e.
abbrev pub svc_yield : ℕ
svc_yield = 0

abbrev pub svc_sleep : ℕ
svc_sleep = 1

abbrev pub svc_mutex_lock : ℕ
svc_mutex_lock = 2

abbrev pub svc_mutex_unlock : ℕ
svc_mutex_unlock = 3

-- The `switch` of the handler.
unfoldable pub svc_dispatch : ℕ → ℕ → Kernel → Option Kernel
svc_dispatch svc_number svc_sleep_time k =
    if svc_number == svc_sleep
    then k_task_sleep svc_sleep_time k
    else (if svc_number == svc_yield
        then k_task_yield k
        else (if svc_number == svc_mutex_lock
            then k_mutex_lock k
            else (if svc_number == svc_mutex_unlock then some (k_mutex_unlock k) else some k)))

-- `svc_args` are the eight stacked words R0, R1, R2, R3, R12, LR, PC, xPSR, and `code` is the program
-- memory, byte by byte: the number stands in the instruction before PC.
unfoldable pub svc_c_handler : (ℕ → ℕ) → List ℕ → Kernel → Option Kernel
svc_c_handler code svc_args k =
    let svc_number = code (sub32 (get_or svc_args 6 0) 2) in
    svc_dispatch svc_number (get_or svc_args 0 0) k

-- The calls, each a single SVC instruction.
unfoldable pub sys_yield : Kernel → Option Kernel
sys_yield k = svc_dispatch svc_yield 0 k

unfoldable pub sys_sleep : ℕ → Kernel → Option Kernel
sys_sleep ms k = svc_dispatch svc_sleep ms k

unfoldable pub mutex_lock : Kernel → Option Kernel
mutex_lock k = svc_dispatch svc_mutex_lock 0 k

unfoldable pub mutex_unlock : Kernel → Option Kernel
mutex_unlock k = svc_dispatch svc_mutex_unlock 0 k
