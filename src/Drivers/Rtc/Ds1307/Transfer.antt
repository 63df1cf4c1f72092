-- ===== src/Drivers/Rtc/Ds1307/Transfer.antt =====
-- The I2C driver with a DS1307 on the bus.
use pascal_scheduler.Prelude.{
  ℕ, zero, suc, ◌+◌, ◌-◌, ◌%◌, ◌^◌, ◌<◌, ◌≡◌, inl, inr, refl, ap, ◌∙◌, Bool-cases, Option, some,
  ◌>>=◌, store, ◌==◌, if◌then◌else◌, arith,
}
use pascal_scheduler.Prelude.Word.{has_flag}
use pascal_scheduler.Dev.{Vnode, uio_write, uio_read, Machine}
use pascal_scheduler.Drivers.Usic.{Usic}
use pascal_scheduler.Drivers.Loops.{send_from}
use pascal_scheduler.Drivers.Loops.Uios.{rounds_small}
use pascal_scheduler.Drivers.Uart.{uart_send}
use pascal_scheduler.Drivers.I2c.{
  Master, wait_ack, begin_write, received, wait_byte, receive_to, usic_i2c_write, usic_i2c_read,
}
use pascal_scheduler.Drivers.I2c.Reading.{Filled, Filled-store}
use pascal_scheduler.Drivers.Rtc.Ds1307.{
  reading, Clock, on_start_write, on_byte, on_fetch, on_bytes, stream, Attached,
}

module _ {H : Type 0} (usic : Usic H) (master : Master H) (polls : ℕ) (view : H → Clock)
    (bus : Attached usic master polls view) where
  wait_ack-view :
      (tries status : ℕ) (h : H) → view (wait_ack usic master polls tries status h) ≡ view h
  unfolding wait_ack
  wait_ack-view zero status h = refl
  wait_ack-view (suc tries) status h = elim (Bool-cases (has_flag status master.ack_received)) [
    | inl e ↦ rw e refl
    | inr e ↦ rw e (
        wait_ack-view tries (master.get_status_flag h).0 (master.get_status_flag h).1 ∙ bus.looks h)
  ]

  pub begin_write-view :
      (peer : ℕ) (h : H)
      → view (begin_write usic master polls peer h) ≡ on_start_write peer (view h)
  unfolding begin_write
  begin_write-view peer h =
      bus.clears master.ack_received (wait_ack usic master polls 200 0 (master.start_write peer h))
      ∙ wait_ack-view 200 0 (master.start_write peer h)
      ∙ bus.starts_write peer h

  pub send_from-view :
      (n ptr : ℕ) (memory : ℕ → ℕ) (h : H)
      → (h' : H) × (send_from (uart_send usic polls) n ptr memory h ≡ some h')
        × (view h' ≡ on_bytes n memory ptr (view h))
  unfolding send_from uart_send on_bytes
  send_from-view zero ptr memory h = (h, refl, refl)
  send_from-view (suc n) ptr memory h =
      let (h1, drained, same) = bus.drains h in
      let (h2, sent, seen) =
        send_from-view n (ptr + 1) memory (usic.tx_fifo_put_data (memory ptr) h1) in
      (
        h2,
        rw drained sent,
        seen
            ∙ ap (on_bytes n memory (ptr + 1))
                (bus.puts (memory ptr) h1 ∙ ap (on_byte (memory ptr % 256)) same),
      )

  -- A read of the clock has put the bytes of its stream into memory.
  pub record Fetched (n ptr : ℕ) (m : Machine H) (result : Option (Machine H)) : Type 0 where
    pub after : Machine H
    pub returns : result ≡ some after
    pub memory : Filled n ptr (stream (view m.hardware)) m.memory after.memory

  -- The state behind the end of the wait for a byte.
  abbrev next : ℕ → (ℕ → ℕ) → H → Machine H
  next ptr memory h = record {
    memory =
        store ptr
          ((usic.rx_fifo_get_data (master.clear_status_flag (received usic master polls) h)).0
            % 256)
          memory;
    hardware = (usic.rx_fifo_get_data (master.clear_status_flag (received usic master polls) h)).1;
  }

  fetch_rest :
      (n ptr : ℕ) (m : Machine H) (requested h' : H)
      → (view m.hardware).phase ≡ reading
      → wait_byte usic master polls polls requested ≡ some h'
      → view h' ≡ view m.hardware
      → ((view (next ptr m.memory h').hardware).phase ≡ reading
          → Fetched n
              (ptr + 1)
              (next ptr m.memory h')
              (receive_to usic master polls n (ptr + 1) (next ptr m.memory h')))
      → Fetched (suc n) ptr m (
          wait_byte usic master polls polls requested
          >>= (λ h. receive_to usic master polls n (ptr + 1) (next ptr m.memory h)))
  fetch_rest n ptr m requested h' r waited same rest =
      let f = rest (ap (λ (c : Clock). c.phase) moved ∙ (unfold on_fetch in r)) in
      record {
        after = f.after;
        returns = rw waited f.returns;
        memory =
            Filled-store n ptr ((usic.rx_fifo_get_data cleared).0 % 256) (stream (view m.hardware))
              (stream (view (next ptr m.memory h').hardware)) m.memory f.after.memory
              (bus.gets cleared (ap (λ (c : Clock). c.phase) seen ∙ r)
                ∙ (unfold stream in ap (λ (c : Clock). c.registers c.pointer % 256) seen))
              (λ (i : ℕ). ap (λ (c : Clock). stream c i) moved ∙ (unfold stream in refl)) f.memory;
      }
    where
      cleared : H
      cleared = master.clear_status_flag (received usic master polls) h'

      seen : view cleared ≡ view m.hardware
      seen = bus.clears (received usic master polls) h' ∙ same

      moved : view (next ptr m.memory h').hardware ≡ on_fetch (view m.hardware)
      moved = bus.fetches cleared (ap (λ (c : Clock). c.phase) seen ∙ r) ∙ ap on_fetch seen

  pub receive_to-Fetched :
      (n ptr : ℕ) (m : Machine H)
      → (view m.hardware).phase ≡ reading
      → Fetched n ptr m (receive_to usic master polls n ptr m)
  unfolding receive_to
  receive_to-Fetched zero ptr m r = record {
    after = m;
    returns = refl;
    memory = record {
      filled = λ (i : ℕ) h. absurd (omega (arith, h));
      below = λ (a : ℕ) h. refl;
      above = λ (a : ℕ) h. refl;
    };
  }
  receive_to-Fetched (suc n) ptr m r = elim (Bool-cases (n == 0)) [
    | inl e ↦
        let (h', waited, same) = bus.nacks m.hardware r in
        fetch_rest n ptr m
          (if n == 0 then master.receive_nack m.hardware else master.receive_ack m.hardware) h' r
          (rw e waited) same (receive_to-Fetched n (ptr + 1) (next ptr m.memory h'))
    | inr e ↦
        let (h', waited, same) = bus.acks m.hardware r in
        fetch_rest n ptr m
          (if n == 0 then master.receive_nack m.hardware else master.receive_ack m.hardware) h' r
          (rw e waited) same (receive_to-Fetched n (ptr + 1) (next ptr m.memory h'))
  ]

  pub usic_i2c_write-run :
      (n p : ℕ) (v : Vnode) (m : Machine H) {h : H}
      → n < 2 ^ 31
      → send_from
          (uart_send usic polls)
          n
          p
          m.memory
          (begin_write usic master polls v.endpt m.hardware)
        ≡ some h
      → usic_i2c_write usic master polls v
          (record { iov_base = p; uio_resid = n; uio_rw = uio_write })
          m
        ≡ some (
          0,
          v,
          record { iov_base = p; uio_resid = 0; uio_rw = uio_write },
          record m { hardware = master.stop h },
        )
  unfolding usic_i2c_write
  usic_i2c_write-run n p v m small e =
      let none_left : n - n ≡ 0 = omega arith in rw (rounds_small n small, e, none_left) refl

  pub usic_i2c_read-run :
      (n p : ℕ) (v : Vnode) (m : Machine H) {m' : Machine H}
      → n < 2 ^ 31
      → receive_to usic master polls n p
          (record m { hardware = master.start_read v.endpt m.hardware })
        ≡ some m'
      → usic_i2c_read usic master polls v
          (record { iov_base = p; uio_resid = n; uio_rw = uio_read })
          m
        ≡ some (
          0,
          v,
          record { iov_base = p; uio_resid = 0; uio_rw = uio_read },
          record m' { hardware = master.stop m'.hardware },
        )
  unfolding usic_i2c_read
  usic_i2c_read-run n p v m small e =
      let none_left : n - n ≡ 0 = omega arith in rw (rounds_small n small, e, none_left) refl
