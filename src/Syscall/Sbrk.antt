-- ===== src/Syscall/Sbrk.antt =====
-- The heap that sys_sbrk hands out.
use pascal_scheduler.Prelude.{
  Bool-cases, ℕ, ◌+◌, ◌≤◌, ◌<◌, ◌≡◌, ◌⊎◌, inl, inr, ◌^◌, refl, arith, ltb,
}
use pascal_scheduler.Prelude.Word.{u32_max, add32}
use pascal_scheduler.Syscall.{Heap, sys_sbrk, enomem}

-- The heap lies in the address space.
pub record IsValid (h : Heap) : Type 0 where
  pub inside : h.heap_top ≤ h.heap_end
  pub space : h.heap_end < 2 ^ 31

-- A request of fewer than 2 ^ 31 bytes on a heap in the lower half of the address space either fails with
-- ENOMEM, leaving the heap as it is, exactly when it does not fit; or it returns the block above all the
-- earlier ones, which ends inside the heap.
pub sys_sbrk_lem :
    (nbytes : ℕ) (h : Heap)
    → IsValid h
    → nbytes < 2 ^ 31
    → let (base, h') = sys_sbrk nbytes h in
      IsValid h'
      × (h'.heap_end ≡ h.heap_end)
      × (((h.heap_end < h.heap_top + nbytes)
            × (base ≡ u32_max)
            × (h'.heap_top ≡ h.heap_top)
            × (h'.errno ≡ enomem))
          ⊎ ((base ≡ h.heap_top)
              × (h'.heap_top ≡ base + nbytes)
              × (h'.heap_top ≤ h.heap_end)
              × (h'.errno ≡ h.errno)))
unfolding sys_sbrk
sys_sbrk_lem nbytes h v small = elim (Bool-cases (ltb h.heap_end (add32 h.heap_top nbytes))) [
  | inl e ↦ rw e (
    record { inside = v.inside; space = v.space },
    refl,
    inl (ground (arith, v.inside, v.space), refl, refl, refl),
  )
  | inr e ↦ rw e (
    record { inside = ground (arith, v.inside, v.space); space = v.space },
    refl,
    inr (refl, ground (arith, v.inside, v.space), ground (arith, v.inside, v.space), refl),
  )
]
