-- ===== src/Drivers/Uart/Transfer.antt =====
-- The UART driver's functions for one byte.
use pascal_scheduler.Prelude.{ℕ, ◌%◌, List, [], ◌∷◌, ◌++◌, refl, ap, ◌∙◌}
use pascal_scheduler.Drivers.Usic.{Usic, Ends, Transmits, Receives}
use pascal_scheduler.Drivers.Loops.Transfer.{Sent, Got}
use pascal_scheduler.Drivers.Uart.{uart_send, uart_read}

module _ {H : Type 0} (usic : Usic H) (polls : ℕ) where
  pub uart_send_lem :
      (sent : H → List ℕ)
      → Transmits usic polls sent
      → (byte : ℕ) (h : H) → Sent sent h (uart_send usic polls byte h) (byte ∷ [])
  unfolding uart_send
  uart_send_lem sent line byte h = record {
    after = usic.tx_fifo_put_data byte e.after;
    returns = rw e.ends refl;
    sends = line.puts byte e.after ∙ ap (λ (l : List ℕ). l ++ (byte ∷ [])) e.kept;
  }
    where
      e : Ends polls usic.tx_fifo_is_full sent h
      e = line.drains h

  pub uart_read_lem :
      (taken : H → List ℕ)
      → Receives usic polls taken
      → (h : H) → Got taken h (uart_read usic polls h)
  unfolding uart_read
  uart_read_lem taken line h = record {
    byte = (usic.rx_fifo_get_data e.after).0 % 256;
    after = (usic.rx_fifo_get_data e.after).1;
    returns = rw e.ends refl;
    gets =
        line.gets e.after
        ∙ ap (λ (l : List ℕ). l ++ ((usic.rx_fifo_get_data e.after).0 % 256 ∷ [])) e.kept;
  }
    where
      e : Ends polls usic.rx_fifo_is_empty taken h
      e = line.arrives h
