-- ===== src/Drivers/Uart.antt =====
-- dev/uart/ifx_usic.c.
pub mod Transfer
use pascal_scheduler.Prelude.{
  ℕ, zero, suc, ◌+◌, ◌-◌, ◌%◌, List, [], ◌∷◌, Option, some, ◌>>=◌, store,
}
use pascal_scheduler.Dev.{Vnode, Uio, Machine, DevOps, rounds}
use pascal_scheduler.Drivers.Usic.{Usic, poll}
use pascal_scheduler.Drivers.Loops.{write_uio, read_uio}

-- The vendor calls of usic_uart_open and usic_uart_close, with their arguments (but the channel and the
-- pins, which the makefile chooses).
pub data Call : Type 0 where
  -- XMC_UART_CH_Init: baudrate, data_bits, stop_bits; no parity.
  init : ℕ → ℕ → ℕ → Call
  set_input_source : Call
  rx_fifo_configure : ℕ → ℕ → Call
  tx_fifo_configure : ℕ → ℕ → Call
  start : Call
  set_tx_mode : Call
  set_rx_mode : Call
  stop : Call

module _ {C H : Type 0} (vendor : C → H → H) where
  unfoldable pub perform : List C → H → H
  perform [] h = h
  perform (call ∷ calls) h = perform calls (vendor call h)

-- The FIFOs are at 32 and 48, of 16 words, with the limit 8.
unfoldable pub open_calls : List Call
open_calls =
    init 19200 8 1
    ∷ set_input_source
    ∷ rx_fifo_configure 32 8
    ∷ tx_fifo_configure 48 8
    ∷ start
    ∷ set_tx_mode
    ∷ set_rx_mode
    ∷ []

module _ {H : Type 0} (usic : Usic H) (polls : ℕ) where
  -- _usic_uart_send
  unfoldable pub uart_send : ℕ → H → Option H
  uart_send byte h = do h' ← poll polls usic.tx_fifo_is_full h; some (usic.tx_fifo_put_data byte h')

  -- _usic_uart_read
  unfoldable pub uart_read : H → Option (ℕ × H)
  uart_read h = do
    h' ← poll polls usic.rx_fifo_is_empty h
    some ((usic.rx_fifo_get_data h').0 % 256, (usic.rx_fifo_get_data h').1)

  unfoldable pub usic_uart_write : Vnode → Uio → Machine H → Option (ℕ × Vnode × Uio × Machine H)
  usic_uart_write = write_uio uart_send

  unfoldable pub usic_uart_read : Vnode → Uio → Machine H → Option (ℕ × Vnode × Uio × Machine H)
  usic_uart_read = read_uio uart_read

  module _ (vendor : Call → H → H) (uart_config : ℕ) where
    -- `uart_config` is the address of the static variable of that name.
    unfoldable pub usic_uart_open : Vnode → Machine H → Option (ℕ × Vnode × Machine H)
    usic_uart_open vnode m = some (
      0,
      record vnode { data_ptr = uart_config },
      record m { hardware = perform vendor open_calls m.hardware },
    )

    unfoldable pub usic_uart_close : Vnode → Machine H → Option (ℕ × Vnode × Machine H)
    usic_uart_close vnode m = some (0, vnode, record m { hardware = vendor stop m.hardware })

    unfoldable pub usic_uart_ioctl : Vnode → ℕ → ℕ → Machine H → Option (ℕ × Vnode × Machine H)
    usic_uart_ioctl vnode code data_ptr m = some (0, vnode, m)

    unfoldable pub uart : DevOps H
    uart = record {
      d_open = usic_uart_open;
      d_close = usic_uart_close;
      d_read = usic_uart_read;
      d_write = usic_uart_write;
      d_ioctl = usic_uart_ioctl;
    }
