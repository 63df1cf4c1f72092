-- ===== src/Drivers/I2c.antt =====
-- dev/i2c/ifx_usic.c.
pub mod Transfer
pub mod Reading
use pascal_scheduler.Prelude.{
  ℕ, zero, suc, ◌+◌, ◌-◌, ◌%◌, ◌^◌, Bool, not, List, [], ◌∷◌, Option, none, some, ◌>>=◌, store, ltb,
  ◌==◌, if◌then◌else◌, bit_or,
}
use pascal_scheduler.Prelude.Word.{add32, has_flag}
use pascal_scheduler.Dev.{Vnode, Uio, Machine, DevOps, rounds}
use pascal_scheduler.Drivers.Usic.{Usic}
use pascal_scheduler.Drivers.Loops.{send_from}
use pascal_scheduler.Drivers.Uart.{uart_send, perform}

-- The wires of the bus: SDA is on the pin P2_1, as alternate function 6, and SCL on P2_0, as alternate function 7,
-- both open drain.
pub data Line : Type 0 where
  sda : Line
  scl : Line

-- The vendor calls of usic_i2c_open and usic_i2c_close, with their arguments (but the channel).
pub data Call : Type 0 where
  -- XMC_I2C_CH_Init: baudrate.
  init : ℕ → Call
  set_input_source : Line → Call
  rx_fifo_configure : ℕ → ℕ → Call
  tx_fifo_configure : ℕ → ℕ → Call
  start : Call
  enable_digital_input : Line → Call
  set_mode : Line → Call
  stop_channel : Call

-- The FIFOs are at 0 and 16, of 16 words, with the limit 8.
unfoldable pub i2c_open_calls : List Call
i2c_open_calls =
    init 100000
    ∷ set_input_source sda
    ∷ set_input_source scl
    ∷ rx_fifo_configure 0 8
    ∷ tx_fifo_configure 16 8
    ∷ start
    ∷ enable_digital_input sda
    ∷ enable_digital_input scl
    ∷ set_mode sda
    ∷ set_mode scl
    ∷ []

-- The vendor's functions on an I2C master, the setting up of the channel, and the status bits.
pub record Master (H : Type 0) : Type 0 where
  pub start_write : ℕ → H → H
  pub start_read : ℕ → H → H
  pub stop : H → H
  pub receive_ack : H → H
  pub receive_nack : H → H
  pub get_status_flag : H → ℕ × H
  pub clear_status_flag : ℕ → H → H
  pub set_up : Call → H → H
  pub ack_received : ℕ
  pub receive_indication : ℕ
  pub alternative_receive_indication : ℕ

-- I2C_IOCTL_SET_PEER
abbrev pub set_peer : ℕ
set_peer = 0

module _ {H : Type 0} (usic : Usic H) (master : Master H) (polls : ℕ) where
  -- The loop that waits for an acknowledge, with that many tries left before the time-out.
  unfoldable pub wait_ack : ℕ → ℕ → H → H
  wait_ack zero status h = h
  wait_ack (suc tries) status h =
      let rest = wait_ack tries (master.get_status_flag h).0 (master.get_status_flag h).1 in
      if has_flag status master.ack_received then h else rest

  -- From the start condition to the cleared flag.
  unfoldable pub begin_write : ℕ → H → H
  begin_write peer h =
      master.clear_status_flag master.ack_received (wait_ack 200 0 (master.start_write peer h))

  -- The bytes go out by the same loop as in the UART driver, since _usic_i2c_send is written like
  -- _usic_uart_send.
  unfoldable pub usic_i2c_write : Vnode → Uio → Machine H → Option (ℕ × Vnode × Uio × Machine H)
  usic_i2c_write vnode uio m = do
    h ←
        send_from (uart_send usic polls) (rounds uio.uio_resid) uio.iov_base m.memory
          (begin_write vnode.endpt m.hardware)
    some (
      0,
      vnode,
      record uio { uio_resid = uio.uio_resid - rounds uio.uio_resid },
      record m { hardware = master.stop h },
    )

  -- The bits that tell of a received byte.
  unfoldable pub received : ℕ
  received = bit_or master.receive_indication master.alternative_receive_indication

  -- The loop that waits for a byte, on fuel.
  unfoldable pub wait_byte : ℕ → H → Option H
  wait_byte zero h = none
  wait_byte (suc fuel) h =
      let rest = wait_byte fuel (master.get_status_flag h).1 in
      if has_flag (master.get_status_flag h).0 received
      then some (master.get_status_flag h).1
      else rest

  -- The loop of usic_i2c_read, with `n` bytes left: the last one is not acknowledged.
  unfoldable pub receive_to : ℕ → ℕ → Machine H → Option (Machine H)
  receive_to zero ptr m = some m
  receive_to (suc n) ptr m = do
    h ←
        wait_byte polls
          (if n == 0 then master.receive_nack m.hardware else master.receive_ack m.hardware)
    let taken = usic.rx_fifo_get_data (master.clear_status_flag received h)
    receive_to n (ptr + 1)
        (record { memory = store ptr (taken.0 % 256) m.memory; hardware = taken.1 })

  unfoldable pub usic_i2c_read : Vnode → Uio → Machine H → Option (ℕ × Vnode × Uio × Machine H)
  usic_i2c_read vnode uio m = do
    m' ←
        receive_to (rounds uio.uio_resid) uio.iov_base
          (record m { hardware = master.start_read vnode.endpt m.hardware })
    some (
      0,
      vnode,
      record uio { uio_resid = uio.uio_resid - rounds uio.uio_resid },
      record m' { hardware = master.stop m'.hardware },
    )

  -- `config` is the address of the static variable i2c_config.
  unfoldable pub usic_i2c_open : ℕ → Vnode → Machine H → Option (ℕ × Vnode × Machine H)
  usic_i2c_open config vnode m = some (
    0,
    record vnode { data_ptr = config },
    record m { hardware = perform master.set_up i2c_open_calls m.hardware },
  )

  unfoldable pub usic_i2c_close : Vnode → Machine H → Option (ℕ × Vnode × Machine H)
  usic_i2c_close vnode m =
      some (0, vnode, record m { hardware = master.set_up stop_channel m.hardware })

  unfoldable pub usic_i2c_ioctl : Vnode → ℕ → ℕ → Machine H → Option (ℕ × Vnode × Machine H)
  usic_i2c_ioctl vnode code data_ptr m =
      if code == set_peer
      then some (0, record vnode { endpt = m.memory data_ptr }, m)
      else some (0, vnode, m)

  unfoldable pub i2c : ℕ → DevOps H
  i2c config = record {
    d_open = usic_i2c_open config;
    d_close = usic_i2c_close;
    d_read = usic_i2c_read;
    d_write = usic_i2c_write;
    d_ioctl = usic_i2c_ioctl;
  }
