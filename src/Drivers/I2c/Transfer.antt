-- ===== src/Drivers/I2c/Transfer.antt =====
-- What a write puts on the I2C bus.
use pascal_scheduler.Prelude.{
  ℕ, zero, suc, ◌-◌, ◌<◌, ◌^◌, ◌≡◌, inl, inr, refl, ◌∙◌, ap, Bool-cases, Option, some, List, [],
  ◌∷◌, ◌++◌, cells, arith,
}
use pascal_scheduler.Prelude.Word.{has_flag}
use pascal_scheduler.Dev.{Vnode, Uio, Machine}
use pascal_scheduler.Drivers.Loops.Uios.{rounds_small}
use pascal_scheduler.Drivers.Usic.{Usic, Transmits}
use pascal_scheduler.Drivers.Loops.{send_from}
use pascal_scheduler.Drivers.Uart.{uart_send}
use pascal_scheduler.Drivers.Loops.Transfer.{Sent, send_from_lem}
use pascal_scheduler.Drivers.Uart.Transfer.{uart_send_lem}
use pascal_scheduler.Prelude.{append_assoc}
use pascal_scheduler.Drivers.I2c.{Master, wait_ack, begin_write, usic_i2c_write}

-- `log` lists what the master has put on the bus: start conditions, bytes and stop conditions. A look at
-- the status, or clearing it, puts nothing there.
pub record Bus {H : Type 0} (usic : Usic H) (master : Master H) (polls : ℕ) (log : H → List ℕ)
    : Type 0 where
  pub start_word : ℕ → ℕ
  pub stop_word : ℕ
  pub line : Transmits usic polls log
  pub starts :
      (peer : ℕ) (h : H) → log (master.start_write peer h) ≡ log h ++ (start_word peer ∷ [])
  pub stops : (h : H) → log (master.stop h) ≡ log h ++ (stop_word ∷ [])
  pub looks : (h : H) → log (master.get_status_flag h).1 ≡ log h
  pub clears : (flag : ℕ) (h : H) → log (master.clear_status_flag flag h) ≡ log h

-- The write has ended, with the bytes on the bus between a start and a stop condition.
pub record OnBus {H : Type 0} (log : H → List ℕ) (start stop : ℕ) (bytes : List ℕ) (vnode : Vnode)
    (uio : Uio) (m : Machine H) (result : Option (ℕ × Vnode × Uio × Machine H)) : Type 0 where
  pub after : H
  pub returns :
      result ≡ some (0, vnode, record uio { uio_resid = 0 }, record m { hardware = after })
  pub logs : log after ≡ log m.hardware ++ (start ∷ (bytes ++ (stop ∷ [])))

module _ {H : Type 0} (usic : Usic H) (master : Master H) (polls : ℕ) (log : H → List ℕ)
    (bus : Bus usic master polls log) where
  wait_ack-quiet :
      (tries status : ℕ) (h : H) → log (wait_ack usic master polls tries status h) ≡ log h
  unfolding wait_ack
  wait_ack-quiet zero status h = refl
  wait_ack-quiet (suc tries) status h = elim (Bool-cases (has_flag status master.ack_received)) [
    | inl e ↦ rw e refl
    | inr e ↦ rw e (
        wait_ack-quiet tries (master.get_status_flag h).0 (master.get_status_flag h).1
        ∙ bus.looks h)
  ]

  begin_write-log :
      (peer : ℕ) (h : H)
      → log (begin_write usic master polls peer h) ≡ log h ++ (bus.start_word peer ∷ [])
  unfolding begin_write
  begin_write-log peer h =
      bus.clears master.ack_received (wait_ack usic master polls 200 0 (master.start_write peer h))
      ∙ wait_ack-quiet 200 0 (master.start_write peer h)
      ∙ bus.starts peer h

  -- On a bus on which the FIFO drains, a write of fewer than 2 ^ 31 bytes ends, whether or not the peer
  -- acknowledges; it returns 0 and leaves nothing to write, and the bus has seen a start condition with the
  -- vnode's peer, the bytes in order, and a stop condition.
  pub usic_i2c_write_lem :
      (vnode : Vnode) (uio : Uio) (m : Machine H)
      → uio.uio_resid < 2 ^ 31
      → OnBus log
          (bus.start_word vnode.endpt)
          bus.stop_word
          (cells uio.uio_resid m.memory uio.iov_base)
          vnode
          uio
          m
          (usic_i2c_write usic master polls vnode uio m)
  unfolding usic_i2c_write
  usic_i2c_write_lem vnode uio m small = record {
    after = master.stop s.after;
    returns = rw (rounds_small uio.uio_resid small, s.returns, none_left) refl;
    logs =
        bus.stops s.after
        ∙ ap (λ (l : List ℕ). l ++ (bus.stop_word ∷ []))
            (s.sends ∙ ap (λ (l : List ℕ). l ++ bytes) (begin_write-log vnode.endpt m.hardware))
        ∙ append_assoc (log m.hardware ++ (bus.start_word vnode.endpt ∷ [])) bytes
            (bus.stop_word ∷ [])
        ∙ append_assoc (log m.hardware) (bus.start_word vnode.endpt ∷ [])
            (bytes ++ (bus.stop_word ∷ []));
  }
    where
      bytes : List ℕ
      bytes = cells uio.uio_resid m.memory uio.iov_base

      begun : H
      begun = begin_write usic master polls vnode.endpt m.hardware

      s :
          Sent log begun
            (send_from (uart_send usic polls) uio.uio_resid uio.iov_base m.memory begun)
            bytes
      s =
          send_from_lem log (uart_send usic polls) (uart_send_lem usic polls log bus.line)
            uio.uio_resid uio.iov_base m.memory begun

      none_left : uio.uio_resid - uio.uio_resid ≡ 0
      none_left = omega arith
