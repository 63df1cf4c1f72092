-- ===== src/Tests/Drivers.antt =====
-- A serial line, and a heap.
use pascal_scheduler.Prelude.{
  ℕ, zero, suc, ◌+◌, ◌<◌, ◌≤◌, ◌≡◌, ◌≢◌, ◌⊎◌, refl, Bool, true, false, some, arith, List, [], ◌∷◌,
  ◌++◌, cells, ◌%◌,
}
use pascal_scheduler.Prelude.Word.{u32_max}
use pascal_scheduler.Dev.{Vnode, Machine, DevOps, uart_type}
use pascal_scheduler.Drivers.Usic.{Usic, Transmits, Receives, Ends, poll}
use pascal_scheduler.Drivers.Uart.{Call, uart}
use pascal_scheduler.Syscall.{Heap, sys_sbrk, enomem, ebadf, sys_write, sys_read}
use pascal_scheduler.Syscall.Sbrk.{IsValid, sys_sbrk_lem}
use pascal_scheduler.Syscall.Io.{Written, Filled, sys_write_lem, sys_read_lem}

-- After every byte, the transmit FIFO is found full once. The other side sends 0, 1, 2 and so on.
record Line : Type 0 where
  busy : Bool
  out : List ℕ
  received : ℕ

count_up : ℕ → List ℕ
count_up zero = []
count_up (suc n) = count_up n ++ (n % 256 ∷ [])

abbrev usic : Usic Line
usic = record {
  tx_fifo_is_full = λ h. (h.busy, record h { busy = false });
  tx_fifo_put_data = λ b h. record h { busy = true; out = h.out ++ (b ∷ []) };
  rx_fifo_is_empty = λ h. (false, h);
  rx_fifo_get_data = λ h. (h.received, record h { received = suc h.received });
}

usic-Ends_at : (b : Bool) (h : Line) → h.busy ≡ b → Ends 2 usic.tx_fifo_is_full (λ h. h.out) h
unfolding poll
usic-Ends_at true h e = record { after = record h { busy = false }; ends = rw e refl; kept = refl }
usic-Ends_at false h e = record { after = record h { busy = false }; ends = rw e refl; kept = refl }

usic-Transmits : Transmits usic 2 (λ h. h.out)
usic-Transmits = record { drains = λ h. usic-Ends_at h.busy h refl; puts = λ b h. refl }

usic-Receives : Receives usic 2 (λ h. count_up h.received)
unfolding poll count_up
usic-Receives = record {
  arrives = λ h. record { after = h; ends = refl; kept = refl };
  gets = λ h. refl;
}

abbrev quiet : Line
quiet = record { busy = true; out = []; received = 5 }

abbrev ignore : Call → Line → Line
ignore call h = h

abbrev devices : ℕ → DevOps Line
devices id = uart usic 2 ignore 1000

abbrev vnode : Vnode
vnode = record { dev_type = uart_type; dev_id = 0; endpt = 0; offset = 0; data_ptr = 0 }

abbrev machine : Machine Line
machine = record { memory = λ a. a % 256; hardware = quiet }

sys_write_lem_example :
    (((◌≡◌ {A = ℕ} 1 1) ⊎ (◌≡◌ {A = ℕ} 1 2))
      × Written
          (λ h. h.out)
          machine
          3
          0
          (cells 3 machine.memory 700)
          (sys_write devices vnode 1 700 3 0 machine))
    ⊎ ((◌≢◌ {A = ℕ} 1 1)
        × (◌≢◌ {A = ℕ} 1 2)
        × (sys_write devices vnode 1 700 3 0 machine
            ≡ some (record { ret = u32_max; errno = ebadf; machine = machine })))
sys_write_lem_example =
    sys_write_lem devices vnode usic 2 ignore 1000 refl (λ h. h.out) 1 700 3 0 machine
      usic-Transmits (omega arith)

sys_read_lem_example :
    ((◌≡◌ {A = ℕ} 0 0)
      × Filled
          (λ h. count_up h.received)
          machine
          700
          3
          0
          (sys_read devices vnode 2 0 700 3 0 machine))
    ⊎ ((◌≢◌ {A = ℕ} 0 0)
        × (sys_read devices vnode 2 0 700 3 0 machine
            ≡ some (record { ret = u32_max; errno = ebadf; machine = machine })))
sys_read_lem_example =
    sys_read_lem devices vnode usic 2 ignore 1000 refl (λ h. count_up h.received) 0 700 3 0 machine
      usic-Receives (omega arith) (omega arith)

abbrev heap : Heap
heap = record { heap_top = 1000; heap_end = 2000; calls = 0; errno = 0 }

sys_sbrk_lem_example :
    let (base, h') = sys_sbrk 600 heap in
    IsValid h'
    × (h'.heap_end ≡ 2000)
    × (((2000 < 1000 + 600) × (base ≡ u32_max) × (h'.heap_top ≡ 1000) × (h'.errno ≡ enomem))
        ⊎ ((base ≡ 1000) × (h'.heap_top ≡ base + 600) × (h'.heap_top ≤ 2000) × (h'.errno ≡ 0)))
sys_sbrk_lem_example =
    sys_sbrk_lem 600 heap (record { inside = omega arith; space = omega arith }) (omega arith)
