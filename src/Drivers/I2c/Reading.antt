-- ===== src/Drivers/I2c/Reading.antt =====
-- What a read asks of the I2C bus, and where the bytes go.
use pascal_scheduler.Prelude.{
  ℕ, zero, suc, ◌+◌, ◌-◌, ◌%◌, ◌<◌, ◌≤◌, ◌^◌, ◌≡◌, false, refl, sym, ◌∙◌, ap, Option, some, ◌>>=◌,
  List, [], ◌∷◌, ◌++◌, append_assoc, append-nil, store, ◌==◌, if◌then◌else◌, arith,
}
use pascal_scheduler.Dev.{Vnode, Uio, Machine}
use pascal_scheduler.Drivers.Loops.Uios.{rounds_small}
use pascal_scheduler.Drivers.Usic.{Usic}
use pascal_scheduler.Drivers.I2c.{Master, received, wait_byte, receive_to, usic_i2c_read}

-- Every byte but the last one is to be acknowledged.
abbrev pub asked : ℕ → ℕ → ℕ → List ℕ
asked ack nack zero = []
asked ack nack (suc zero) = nack ∷ []
asked ack nack (suc (suc n)) = ack ∷ asked ack nack (suc n)

-- The memory has changed from `old` to `new` in the `n` cells from `ptr` on, which hold `bytes`.
pub record Filled (n ptr : ℕ) (bytes old new : ℕ → ℕ) : Type 0 where
  pub filled : (i : ℕ) → i < n → new (ptr + i) ≡ bytes i
  pub below : (a : ℕ) → a < ptr → new a ≡ old a
  pub above : (a : ℕ) → ptr + n ≤ a → new a ≡ old a

-- One cell is stored to, and then the others.
pub Filled-store :
    (n ptr byte : ℕ) (bytes later old new : ℕ → ℕ)
    → byte ≡ bytes 0
    → ((i : ℕ) → later i ≡ bytes (suc i))
    → Filled n (ptr + 1) later (store ptr byte old) new
    → Filled (suc n) ptr bytes old new
unfolding store
Filled-store n ptr byte bytes later old new first others rest = record {
  filled = at;
  below = λ (a : ℕ) h. rest.below a (omega (arith, h)) ∙ ground (arith, h);
  above = λ (a : ℕ) h. rest.above a (omega (arith, h)) ∙ ground (arith, h);
}
  where
    at : (i : ℕ) → i < suc n → new (ptr + i) ≡ bytes i
    at zero h = ap new (omega arith) ∙ rest.below ptr (omega arith) ∙ ground (arith, first)
    at (suc i) h = ap new (omega arith) ∙ rest.filled i (omega (arith, h)) ∙ others i

module _ {H : Type 0} (usic : Usic H) (master : Master H) (polls : ℕ) (log : H → List ℕ)
    (coming : H → ℕ → ℕ) where
  -- A byte has been asked for, and arrives within `polls` looks at the status.
  pub record Requested (word : ℕ) (h requested : H) : Type 0 where
    pub after : H
    pub arrives : wait_byte usic master polls polls requested ≡ some after
    pub logs : log after ≡ log h ++ (word ∷ [])
    pub stays : (i : ℕ) → coming after i ≡ coming h i

  -- `log` lists what the master has put on the bus, and `coming` the bytes that the peer sends from here on.
  pub record ReadBus : Type 0 where
    pub start_word : ℕ → ℕ
    pub ack_word : ℕ
    pub nack_word : ℕ
    pub stop_word : ℕ
    pub starts :
        (peer : ℕ) (h : H) → log (master.start_read peer h) ≡ log h ++ (start_word peer ∷ [])
    pub begins : (peer : ℕ) (h : H) (i : ℕ) → coming (master.start_read peer h) i ≡ coming h i
    pub acks : (h : H) → Requested ack_word h (master.receive_ack h)
    pub nacks : (h : H) → Requested nack_word h (master.receive_nack h)
    pub clears : (flag : ℕ) (h : H) → log (master.clear_status_flag flag h) ≡ log h
    pub holds : (flag : ℕ) (h : H) (i : ℕ) → coming (master.clear_status_flag flag h) i ≡ coming h i
    pub gets : (h : H) → (usic.rx_fifo_get_data h).0 % 256 ≡ coming h 0
    pub takes : (h : H) → log (usic.rx_fifo_get_data h).1 ≡ log h
    pub moves : (h : H) (i : ℕ) → coming (usic.rx_fifo_get_data h).1 i ≡ coming h (suc i)
    pub stops : (h : H) → log (master.stop h) ≡ log h ++ (stop_word ∷ [])

  record ReadIn (n ptr : ℕ) (words : List ℕ) (m : Machine H) (result : Option (Machine H))
      : Type 0 where
    after : Machine H
    returns : result ≡ some after
    logs : log after.hardware ≡ log m.hardware ++ words
    memory : Filled n ptr (coming m.hardware) m.memory after.memory

  module _ (bus : ReadBus) where
    -- The state behind the end of the wait.
    abbrev next : ℕ → (ℕ → ℕ) → H → Machine H
    next ptr memory h = record {
      memory =
          store ptr
            ((usic.rx_fifo_get_data (master.clear_status_flag (received usic master polls) h)).0
              % 256)
            memory;
      hardware =
          (usic.rx_fifo_get_data (master.clear_status_flag (received usic master polls) h)).1;
    }

    next-coming :
        (ptr : ℕ) (memory : ℕ → ℕ) (h : H) (i : ℕ)
        → coming (next ptr memory h).hardware i ≡ coming h (suc i)
    next-coming ptr memory h i =
        bus.moves (master.clear_status_flag (received usic master polls) h) i
        ∙ bus.holds (received usic master polls) h (suc i)

    read_rest :
        (n ptr word : ℕ) (words : List ℕ) (m : Machine H) (requested : H)
        → (r : Requested word m.hardware requested)
        → ReadIn n
            (ptr + 1)
            words
            (next ptr m.memory r.after)
            (receive_to usic master polls n (ptr + 1) (next ptr m.memory r.after))
        → ReadIn (suc n) ptr (word ∷ words) m (
            wait_byte usic master polls polls requested
            >>= (λ h. receive_to usic master polls n (ptr + 1) (next ptr m.memory h)))
    read_rest n ptr word words m requested r rest = record {
      after = rest.after;
      returns = rw r.arrives rest.returns;
      logs =
          rest.logs
          ∙ ap (λ (l : List ℕ). l ++ words)
              (bus.takes (master.clear_status_flag (received usic master polls) r.after)
                ∙ bus.clears (received usic master polls) r.after
                ∙ r.logs)
          ∙ append_assoc (log m.hardware) (word ∷ []) words;
      memory =
          Filled-store n ptr
            ((usic.rx_fifo_get_data
                (master.clear_status_flag (received usic master polls) r.after)).0
              % 256)
            (coming m.hardware) (coming (next ptr m.memory r.after).hardware) m.memory
            rest.after.memory
            (bus.gets (master.clear_status_flag (received usic master polls) r.after)
              ∙ bus.holds (received usic master polls) r.after 0
              ∙ r.stays 0)
            (λ (i : ℕ). next-coming ptr m.memory r.after i ∙ r.stays (suc i)) rest.memory;
    }

    receive_to_lem :
        (n ptr : ℕ) (m : Machine H)
        → ReadIn n ptr (asked bus.ack_word bus.nack_word n) m (receive_to usic master polls n ptr m)
    unfolding receive_to
    receive_to_lem zero ptr m = record {
      after = m;
      returns = refl;
      logs = sym (append-nil (log m.hardware));
      memory = record {
        filled = λ (i : ℕ) h. absurd (omega (arith, h));
        below = λ (a : ℕ) h. refl;
        above = λ (a : ℕ) h. refl;
      };
    }
    receive_to_lem (suc zero) ptr m =
        read_rest zero ptr bus.nack_word [] m (master.receive_nack m.hardware)
          (bus.nacks m.hardware)
          (receive_to_lem zero (ptr + 1) (next ptr m.memory (bus.nacks m.hardware).after))
    receive_to_lem (suc (suc n)) ptr m =
        let more : (suc n == 0) ≡ false = ground arith in
        let r : Requested bus.ack_word m.hardware
            (if suc n == 0 then master.receive_nack m.hardware else master.receive_ack m.hardware) =
          rw more (bus.acks m.hardware) in
        read_rest (suc n) ptr bus.ack_word (asked bus.ack_word bus.nack_word (suc n)) m
          (if suc n == 0 then master.receive_nack m.hardware else master.receive_ack m.hardware) r
          (receive_to_lem (suc n) (ptr + 1) (next ptr m.memory r.after))

    -- The read has ended.
    pub record OnRead (vnode : Vnode) (uio : Uio) (m : Machine H)
        (result : Option (ℕ × Vnode × Uio × Machine H)) : Type 0 where
      pub after : Machine H
      pub returns : result ≡ some (0, vnode, record uio { uio_resid = 0 }, after)
      pub logs :
          log after.hardware
          ≡ log m.hardware
            ++ (bus.start_word vnode.endpt
                ∷ (asked bus.ack_word bus.nack_word uio.uio_resid ++ (bus.stop_word ∷ [])))
      pub memory : Filled uio.uio_resid uio.iov_base (coming m.hardware) m.memory after.memory

    -- On a bus on which each byte that is asked for arrives, a read of fewer than 2 ^ 31 bytes ends; it returns 0
    -- and leaves nothing to read. The bus has seen a start condition with the vnode's peer, a request of each
    -- byte, of which the last one alone is not acknowledged, and a stop condition; the bytes that the peer sent
    -- are in the request's cells in order, and no other cell has changed.
    pub usic_i2c_read_lem :
        (vnode : Vnode) (uio : Uio) (m : Machine H)
        → uio.uio_resid < 2 ^ 31
        → OnRead vnode uio m (usic_i2c_read usic master polls vnode uio m)
    unfolding usic_i2c_read
    usic_i2c_read_lem vnode uio m small = record {
      after = record r.after { hardware = master.stop r.after.hardware };
      returns = rw (rounds_small uio.uio_resid small, r.returns, none_left) refl;
      logs =
          bus.stops r.after.hardware
          ∙ ap (λ (l : List ℕ). l ++ (bus.stop_word ∷ []))
              (r.logs ∙ ap (λ (l : List ℕ). l ++ words) (bus.starts vnode.endpt m.hardware))
          ∙ append_assoc (log m.hardware ++ (bus.start_word vnode.endpt ∷ [])) words
              (bus.stop_word ∷ [])
          ∙ append_assoc (log m.hardware) (bus.start_word vnode.endpt ∷ [])
              (words ++ (bus.stop_word ∷ []));
      memory = record {
        filled = λ (i : ℕ) h. r.memory.filled i h ∙ bus.begins vnode.endpt m.hardware i;
        below = r.memory.below;
        above = r.memory.above;
      };
    }
      where
        words : List ℕ
        words = asked bus.ack_word bus.nack_word uio.uio_resid

        begun : Machine H
        begun = record m { hardware = master.start_read vnode.endpt m.hardware }

        r :
            ReadIn uio.uio_resid uio.iov_base words begun
              (receive_to usic master polls uio.uio_resid uio.iov_base begun)
        r = receive_to_lem uio.uio_resid uio.iov_base begun

        none_left : uio.uio_resid - uio.uio_resid ≡ 0
        none_left = omega arith
