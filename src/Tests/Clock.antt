-- ===== src/Tests/Clock.antt =====
-- An I2C bus without a peer, and the codes of the clock.
use pascal_scheduler.Prelude.{
  ℕ, suc, ap, ◌+◌, ◌%◌, refl, true, false, List, [], ◌∷◌, ◌++◌, cells, arith,
}
use pascal_scheduler.Dev.{Vnode, Uio, Machine, i2c_type, dev_i2c, uio_write}
use pascal_scheduler.Drivers.Usic.{Usic, poll}
use pascal_scheduler.Drivers.I2c.{Master, usic_i2c_write, usic_i2c_read, wait_byte, received}
use pascal_scheduler.Drivers.I2c.Reading.{ReadBus, OnRead, usic_i2c_read_lem}
use pascal_scheduler.Prelude.Word.{has_flag}
use pascal_scheduler.Drivers.I2c.Transfer.{Bus, OnBus, usic_i2c_write_lem}

abbrev usic : Usic (List ℕ)
usic = record {
  tx_fifo_is_full = λ h. (false, h);
  tx_fifo_put_data = λ b h. h ++ (b ∷ []);
  rx_fifo_is_empty = λ h. (true, h);
  rx_fifo_get_data = λ h. (0, h);
}

-- No acknowledge ever comes.
abbrev master : Master (List ℕ)
master = record {
  start_write = λ peer h. h ++ ((1024 + peer) ∷ []);
  start_read = λ peer h. h ++ ((1025 + peer) ∷ []);
  stop = λ h. h ++ (1536 ∷ []);
  receive_ack = λ h. h;
  receive_nack = λ h. h;
  get_status_flag = λ h. (0, h);
  clear_status_flag = λ flag h. h;
  set_up = λ call h. h;
  ack_received = 512;
  receive_indication = 16384;
  alternative_receive_indication = 32768;
}

lonely-Bus : Bus usic master 1 (λ h. h)
unfolding poll
lonely-Bus = record {
  start_word = λ peer. 1024 + peer;
  stop_word = 1536;
  line = record {
    drains = λ h. record { after = h; ends = refl; kept = refl };
    puts = λ b h. refl;
  };
  starts = λ peer h. refl;
  stops = λ h. refl;
  looks = λ h. refl;
  clears = λ flag h. refl;
}

abbrev pub clock : Vnode
clock = record { dev_type = i2c_type; dev_id = dev_i2c; endpt = 208; offset = 0; data_ptr = 0 }

abbrev three_bytes : Uio
three_bytes = record { iov_base = 40; uio_resid = 3; uio_rw = uio_write }

abbrev machine : Machine (List ℕ)
machine = record { memory = λ a. a % 256; hardware = [] }

usic_i2c_write_lem_example :
    OnBus
      (λ h. h)
      (lonely-Bus.start_word 208)
      lonely-Bus.stop_word
      (cells 3 machine.memory 40)
      clock
      three_bytes
      machine
      (usic_i2c_write usic master 1 clock three_bytes machine)
usic_i2c_write_lem_example =
    usic_i2c_write_lem usic master 1 (λ h. h) lonely-Bus clock three_bytes machine (omega arith)

-- A bus on which each byte arrives at once, and whose peer counts.
record Answering : Type 0 where
  out : List ℕ
  at : ℕ

abbrev counting_usic : Usic Answering
counting_usic = record {
  tx_fifo_is_full = λ h. (false, h);
  tx_fifo_put_data = λ b h. h;
  rx_fifo_is_empty = λ h. (false, h);
  rx_fifo_get_data = λ h. (h.at % 256, record h { at = suc h.at });
}

abbrev counting : Master Answering
counting = record {
  start_write = λ peer h. h;
  start_read = λ peer h. record h { out = h.out ++ ((1025 + peer) ∷ []) };
  stop = λ h. record h { out = h.out ++ (1536 ∷ []) };
  receive_ack = λ h. record h { out = h.out ++ (512 ∷ []) };
  receive_nack = λ h. record h { out = h.out ++ (768 ∷ []) };
  get_status_flag = λ h. (16384, h);
  clear_status_flag = λ flag h. h;
  set_up = λ call h. h;
  ack_received = 512;
  receive_indication = 16384;
  alternative_receive_indication = 32768;
}

abbrev count : Answering → ℕ → ℕ
count h i = (h.at + i) % 256

counting-ReadBus : ReadBus counting_usic counting 1 (λ h. h.out) count
unfolding wait_byte received has_flag
counting-ReadBus = record {
  start_word = λ peer. 1025 + peer;
  ack_word = 512;
  nack_word = 768;
  stop_word = 1536;
  starts = λ peer h. refl;
  begins = λ peer h (i : ℕ). refl;
  acks = λ h. record {
    after = record h { out = h.out ++ (512 ∷ []) };
    arrives = refl;
    logs = refl;
    stays = λ (i : ℕ). refl;
  };
  nacks = λ h. record {
    after = record h { out = h.out ++ (768 ∷ []) };
    arrives = refl;
    logs = refl;
    stays = λ (i : ℕ). refl;
  };
  clears = λ flag h. refl;
  holds = λ flag h (i : ℕ). refl;
  gets = λ h. omega arith;
  takes = λ h. refl;
  moves = λ h (i : ℕ). ap (λ (n : ℕ). n % 256) (omega arith);
  stops = λ h. refl;
}

abbrev line : Machine Answering
line = record { memory = λ a. 0; hardware = record { out = []; at = 65 } }

usic_i2c_read_lem_example :
    OnRead counting_usic counting 1
      (λ h. h.out)
      count
      counting-ReadBus
      clock
      three_bytes
      line
      (usic_i2c_read counting_usic counting 1 clock three_bytes line)
usic_i2c_read_lem_example =
    usic_i2c_read_lem counting_usic counting 1 (λ h. h.out) count counting-ReadBus clock three_bytes
      line (omega arith)
