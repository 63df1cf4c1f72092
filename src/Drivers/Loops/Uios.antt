-- ===== src/Drivers/Loops/Uios.antt =====
-- dev_write and dev_read over a driver with these bodies.
use pascal_scheduler.Prelude.{
  ℕ, ◌-◌, ◌^◌, ◌<◌, ◌≡◌, ◌≢◌, Option, some, true, refl, arith, ℕ_discrete,
}
use pascal_scheduler.Prelude.Word.{add32, sub32, long_lt}
use pascal_scheduler.Dev.{Vnode, Machine, DevOps, rounds, dev_write, dev_read, read_on}
use pascal_scheduler.Drivers.Loops.{send_from, read_to, write_uio, read_uio}

pub rounds_small : (n : ℕ) → n < 2 ^ 31 → rounds n ≡ n
unfolding rounds
rounds_small n h = ground arith

module _ {H : Type 0} (devices : ℕ → DevOps H) (vnode : Vnode) (ptr len : ℕ) (m : Machine H)
    (small : len < 2 ^ 31) where
  -- The whole buffer is written in one call of the driver.
  pub dev_write_whole :
      (send : ℕ → H → Option H) {h : H}
      → (devices vnode.dev_id).d_write ≡ write_uio send
      → send_from send len ptr m.memory m.hardware ≡ some h
      → dev_write devices ptr len vnode m ≡ some (len, vnode, record m { hardware = h })
  unfolding dev_write write_uio
  dev_write_whole send driver sent = rw (driver, rounds_small len small, sent, none_left) refl
    where
      none_left : sub32 len (len - len) ≡ len
      none_left = omega arith

  -- One call of the driver fills the whole buffer, and the loop of dev_read stops at its second test.
  pub dev_read_whole :
      (read : H → Option (ℕ × H)) {m' : Machine H}
      → (devices vnode.dev_id).d_read ≡ read_uio read
      → read_to read len ptr m ≡ some m'
      → ptr < 2 ^ 32
      → dev_read devices 2 ptr len vnode m ≡ some (len, vnode, m')
  unfolding dev_read read_on read_uio
  dev_read_whole read driver done address = elim (ℕ_discrete len 0) [
    | yes z ↦ rw z (nothing (rw z at done))
    | no nz ↦ rw (more nz, at_start, driver, rounds_small len small, done, none_left, all_read) refl
  ]
    where
      nothing :
          {m' : Machine H}
          → read_to read 0 ptr m ≡ some m'
          → ◌≡◌ {A = Option (ℕ × Vnode × Machine H)} (some (0, vnode, m)) (some (0, vnode, m'))
      nothing e = unfold read_to in cc e

      more : len ≢ 0 → long_lt 0 len ≡ true
      more nz = ground (arith, nz, small)

      at_start : add32 ptr (sub32 len len) ≡ ptr
      at_start = omega arith

      none_left : len - len ≡ 0
      none_left = omega arith

      all_read : sub32 len 0 ≡ len
      all_read = omega arith
