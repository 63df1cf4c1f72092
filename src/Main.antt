-- ===== src/Main.antt =====
-- main.c: the two tasks. A task is the steps that it takes in order, and the one from which its loop begins again.
pub mod Brackets
pub mod Interleaving
pub mod Clock
use pascal_scheduler.Prelude.{
  ℕ, zero, suc, ◌+◌, ◌*◌, Bool, true, false, not, List, [], ◌∷◌, length, get_or, store, Option,
  some, ◌>>=◌, ◌==◌, if◌then◌else◌,
}
use pascal_scheduler.Dev.{Vnode, Machine, DevOps, dev_ioctl}
use pascal_scheduler.Drivers.Rtc.{set_time, get_time}
use pascal_scheduler.Libc.Printf.{Layout, printf}

pub data Step : Type 0 where
  -- The assignments to myRTC and the dev_ioctl that sets the clock.
  set_rtc : Step
  sleep : ℕ → Step
  lock : Step
  rtc_update : Step
  rtc_print : Step
  unlock : Step
  yield : Step

pub record Program : Type 0 where
  pub calls : List Step
  pub loop : ℕ

abbrev pub uart_task : Program
uart_task = record {
  calls = set_rtc ∷ sleep 100 ∷ lock ∷ rtc_update ∷ rtc_print ∷ unlock ∷ yield ∷ [];
  loop = 2;
}

abbrev pub mutex_task : Program
mutex_task = record { calls = lock ∷ sleep (1000 * 2) ∷ unlock ∷ yield ∷ []; loop = 0 }

-- OS_TASK_LIST
abbrev pub os_task_list : List Program
os_task_list = uart_task ∷ mutex_task ∷ []

-- The place of the next call.
unfoldable pub next_place : Program → ℕ → ℕ
next_place t place = if place + 1 == length t.calls then t.loop else place + 1

-- The place after `n` calls.
unfoldable pub place_after : Program → ℕ → ℕ
place_after t zero = 0
place_after t (suc n) = next_place t (place_after t n)

-- The fields of myRTC are cells, as in the driver of the clock.
module _ {H : Type 0} (devices : ℕ → DevOps H) (rtc_node : Vnode) (my_rtc : ℕ) where
  unfoldable pub do_rtc_update : Machine H → Option (Machine H)
  do_rtc_update m = do (r, node, m') ← dev_ioctl devices rtc_node get_time my_rtc m; some m'

  -- 17.6.16, 14:53:00
  unfoldable pub do_set_rtc : Machine H → Option (Machine H)
  do_set_rtc m = do
    let memory = store my_rtc 0 (
        store (my_rtc + 4) 53 (
          store (my_rtc + 8) 14
            (store (my_rtc + 20) 16 (store (my_rtc + 16) 6 (store (my_rtc + 12) 17 m.memory)))))
    (r, node, m') ← dev_ioctl devices rtc_node set_time my_rtc (record m { memory = memory })
    some m'

  -- `fmt` is the address of the format.
  unfoldable pub do_rtc_print : Vnode → ℕ → Layout → ℕ → ℕ → ℕ → Machine H → Option (ℕ × Machine H)
  do_rtc_print garbage fuel layout c errno fmt m =
      printf devices garbage fuel layout c errno fmt
        (m.memory (my_rtc + 12)
          ∷ m.memory (my_rtc + 16)
          ∷ m.memory (my_rtc + 20)
          ∷ m.memory (my_rtc + 8)
          ∷ m.memory (my_rtc + 4)
          ∷ m.memory my_rtc
          ∷ [])
        m
