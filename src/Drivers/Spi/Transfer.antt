-- ===== src/Drivers/Spi/Transfer.antt =====
-- What the SPI driver's functions for one byte transfer.
use pascal_scheduler.Prelude.{ℕ, ◌+◌, ◌%◌, ◌≡◌, List, [], ◌∷◌, ◌++◌, refl, ◌∙◌}
use pascal_scheduler.Drivers.Usic.{Ends}
use pascal_scheduler.Drivers.Loops.Transfer.{Sent}
use pascal_scheduler.Drivers.Spi.{Channel, shifting, spi_send}

-- The bus: a transfer is over within `polls` looks at the status, `sent` is what the driver has transmitted,
-- and `coming` the bytes that the slave will give.
pub record Bus {H : Type 0} (channel : Channel H) (polls : ℕ) (sent : H → List ℕ)
    (coming : H → ℕ → ℕ) : Type 0 where
  pub shifts : (h : H) → Ends polls (shifting channel polls) sent h
  pub transmits : (byte : ℕ) (h : H) → sent (channel.transmit byte h) ≡ sent h ++ (byte ∷ [])
  pub clears : (flag : ℕ) (h : H) → sent (channel.clear_status_flag flag h) ≡ sent h
  pub receives :
      (h : H)
      → let (word, h') = channel.get_received_data (channel.receive h) in
        (word % 256 ≡ coming h 0) × ((i : ℕ) → coming h' i ≡ coming h (i + 1)) × (sent h' ≡ sent h)

module _ {H : Type 0} (channel : Channel H) (polls : ℕ) (sent : H → List ℕ) (coming : H → ℕ → ℕ)
    (bus : Bus channel polls sent coming) where
  pub spi_send_lem : (byte : ℕ) (h : H) → Sent sent h (spi_send channel polls byte h) (byte ∷ [])
  unfolding spi_send
  spi_send_lem byte h = record {
    after = channel.clear_status_flag channel.transmit_shift_indication e.after;
    returns = rw e.ends refl;
    sends = bus.clears channel.transmit_shift_indication e.after ∙ e.kept ∙ bus.transmits byte h;
  }
    where
      e : Ends polls (shifting channel polls) sent (channel.transmit byte h)
      e = bus.shifts (channel.transmit byte h)
