-- ===== src/Libc/Strings.antt =====
-- lib/libc/string: strcpy and strncpy, on fuel for strings of any length.
pub mod Copies
use pascal_scheduler.Prelude.{ℕ, zero, suc, ◌+◌, Option, none, some, store, ◌==◌, if◌then◌else◌}

-- The loop of strcpy, which copies no terminating zero. `none` means that the fuel has run out.
unfoldable pub copy_from : ℕ → ℕ → ℕ → (ℕ → ℕ) → Option (ℕ → ℕ)
copy_from zero dp ds memory = none
copy_from (suc fuel) dp ds memory =
    let rest = copy_from fuel (dp + 1) (ds + 1) (store dp (memory ds) memory) in
    if memory ds == 0 then some memory else rest

unfoldable pub strcpy : ℕ → ℕ → ℕ → (ℕ → ℕ) → Option (ℕ → ℕ)
strcpy fuel destination source memory = copy_from fuel destination source memory

-- `while (i < num)` of strncpy, with that many rounds left.
unfoldable pub pad : ℕ → ℕ → (ℕ → ℕ) → ℕ → ℕ
pad zero dp memory = memory
pad (suc left) dp memory = pad left (dp + 1) (store dp 0 memory)

-- The first loop of strncpy, with `num - i` bytes left, and the second behind it.
unfoldable pub copy_up_to : ℕ → ℕ → ℕ → (ℕ → ℕ) → ℕ → ℕ
copy_up_to zero dp ds memory = memory
copy_up_to (suc left) dp ds memory =
    let rest = copy_up_to left (dp + 1) (ds + 1) (store dp (memory ds) memory) in
    if memory ds == 0 then pad (suc left) dp memory else rest

unfoldable pub strncpy : ℕ → ℕ → ℕ → (ℕ → ℕ) → ℕ → ℕ
strncpy destination source num memory = copy_up_to num destination source memory
