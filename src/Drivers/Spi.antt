-- ===== src/Drivers/Spi.antt =====
-- dev/spi/ifx_usic.c.
pub mod Transfer
pub mod Port
use pascal_scheduler.Prelude.{
  ℕ, ◌+◌, ◌-◌, ◌%◌, Bool, not, List, [], ◌∷◌, Option, some, ◌>>=◌, ◌==◌, if◌then◌else◌,
}
use pascal_scheduler.Prelude.Word.{has_flag}
use pascal_scheduler.Dev.{Vnode, Uio, Machine, DevOps, rounds}
use pascal_scheduler.Drivers.Usic.{poll}
use pascal_scheduler.Drivers.Loops.{write_uio, read_uio}

-- The vendor calls of usic_spi_open and usic_spi_close, with their arguments (but the channel and what
-- names a pin or an input).
pub data Call : Type 0 where
  -- XMC_SPI_CH_Init: baudrate; a master, slave select not inverted, no parity.
  init : ℕ → Call
  configure_shift_clock_output : Call
  set_frame_length : ℕ → Call
  set_word_length : ℕ → Call
  set_bit_order_msb_first : Call
  set_input_source : Call
  start : Call
  enable_master_clock : Call
  init_rx_pin : Call
  init_tx_pin : Call
  init_selo_pin : Call
  init_clk_pin : Call
  stop : Call

-- The vendor's functions that the driver calls, on the state `H` of the peripherals and of what is
-- connected to them.
pub record Channel (H : Type 0) : Type 0 where
  pub set_up : Call → H → H
  pub enable_slave_select : ℕ → H → H
  pub disable_slave_select : H → H
  pub set_output_low : H → H
  pub set_output_high : H → H
  pub transmit : ℕ → H → H
  pub get_status_flag : H → ℕ × H
  pub clear_status_flag : ℕ → H → H
  pub receive : H → H
  pub get_received_data : H → ℕ × H
  pub transmit_shift_indication : ℕ

-- `enum spi_ioctl`
abbrev pub spi_ioctl_enable_slave : ℕ
spi_ioctl_enable_slave = 0

abbrev pub spi_ioctl_disable_slave : ℕ
spi_ioctl_disable_slave = 1

unfoldable pub spi_open_calls : List Call
spi_open_calls =
    init 50000
    ∷ configure_shift_clock_output
    ∷ set_frame_length 64
    ∷ set_word_length 8
    ∷ set_bit_order_msb_first
    ∷ set_input_source
    ∷ start
    ∷ enable_master_clock
    ∷ init_rx_pin
    ∷ init_tx_pin
    ∷ init_selo_pin
    ∷ init_clk_pin
    ∷ []

module _ {H : Type 0} (channel : Channel H) (polls : ℕ) where
  -- _usic_spi_enable_slave and _usic_spi_disable_slave, which return 0.
  unfoldable pub spi_enable_slave : ℕ → H → H
  spi_enable_slave slave h = channel.set_output_low (channel.enable_slave_select slave h)

  unfoldable pub spi_disable_slave : H → H
  spi_disable_slave h = channel.set_output_high (channel.disable_slave_select h)

  -- The test of the loop that waits for the transfer.
  unfoldable pub shifting : H → Bool × H
  shifting h =
      let (status, h') = channel.get_status_flag h in
      (not (has_flag status channel.transmit_shift_indication), h')

  -- _usic_spi_send
  unfoldable pub spi_send : ℕ → H → Option H
  spi_send byte h = do
    h' ← poll polls shifting (channel.transmit byte h)
    some (channel.clear_status_flag channel.transmit_shift_indication h')

  -- _usic_spi_read
  unfoldable pub spi_read : H → Option (ℕ × H)
  spi_read h =
      let (word, h') = channel.get_received_data (channel.receive h) in some (word % 256, h')

  unfoldable pub set_up_all : List Call → H → H
  set_up_all [] h = h
  set_up_all (call ∷ calls) h = set_up_all calls (channel.set_up call h)

  -- `spi_config` is the address of the static variable of that name.
  unfoldable pub usic_spi_open : ℕ → Vnode → Machine H → Option (ℕ × Vnode × Machine H)
  usic_spi_open spi_config vnode m = some (
    0,
    record vnode { data_ptr = spi_config },
    record m { hardware = set_up_all spi_open_calls m.hardware },
  )

  unfoldable pub usic_spi_close : Vnode → Machine H → Option (ℕ × Vnode × Machine H)
  usic_spi_close vnode m = some (0, vnode, record m { hardware = channel.set_up stop m.hardware })

  unfoldable pub usic_spi_write : Vnode → Uio → Machine H → Option (ℕ × Vnode × Uio × Machine H)
  usic_spi_write = write_uio spi_send

  unfoldable pub usic_spi_read : Vnode → Uio → Machine H → Option (ℕ × Vnode × Uio × Machine H)
  usic_spi_read = read_uio spi_read

  -- Both functions and the default answer 0.
  unfoldable pub usic_spi_ioctl : Vnode → ℕ → ℕ → Machine H → Option (ℕ × Vnode × Machine H)
  usic_spi_ioctl vnode code data_ptr m =
      if code == spi_ioctl_enable_slave
      then some (0, vnode, record m { hardware = spi_enable_slave (m.memory data_ptr) m.hardware })
      else if code == spi_ioctl_disable_slave
      then some (0, vnode, record m { hardware = spi_disable_slave m.hardware })
      else some (0, vnode, m)

  unfoldable pub spi : ℕ → DevOps H
  spi spi_config = record {
    d_open = usic_spi_open spi_config;
    d_close = usic_spi_close;
    d_read = usic_spi_read;
    d_write = usic_spi_write;
    d_ioctl = usic_spi_ioctl;
  }
