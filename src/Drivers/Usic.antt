-- ===== src/Drivers/Usic.antt =====
-- The vendor's functions on a USIC channel that dev/uart/ifx_usic.c and dev/i2c/ifx_usic.c call, and the
-- polling loops on them.
use pascal_scheduler.Prelude.{
  ℕ, zero, suc, Bool, List, [], ◌∷◌, ◌++◌, Option, none, some, if◌then◌else◌, ◌≡◌, ◌%◌,
}

-- One channel, on the state `H` of the peripherals and of what is connected to them. A call of a status
-- function may find that time has passed.
pub record Usic (H : Type 0) : Type 0 where
  pub tx_fifo_is_full : H → Bool × H
  pub tx_fifo_put_data : ℕ → H → H
  pub rx_fifo_is_empty : H → Bool × H
  pub rx_fifo_get_data : H → ℕ × H

module _ {H : Type 0} where
  -- `while (status() == true) { }`, with at most that many calls.
  unfoldable pub poll : ℕ → (H → Bool × H) → H → Option H
  poll zero status h = none
  poll (suc calls) status h =
      let rest = poll calls status (status h).1 in if (status h).0 then rest else some (status h).1

  -- A polling loop ends, and what `log` reads off the state is as before.
  pub record Ends (calls : ℕ) (status : H → Bool × H) (log : H → List ℕ) (h : H) : Type 0 where
    pub after : H
    pub ends : poll calls status h ≡ some after
    pub kept : log after ≡ log h

  -- The transmit FIFO drains within `calls` polls, and `sent` is what has been put into it.
  pub record Transmits (usic : Usic H) (calls : ℕ) (sent : H → List ℕ) : Type 0 where
    pub drains : (h : H) → Ends calls usic.tx_fifo_is_full sent h
    pub puts : (byte : ℕ) (h : H) → sent (usic.tx_fifo_put_data byte h) ≡ sent h ++ (byte ∷ [])

  -- A byte arrives within `calls` polls, and `taken` is what has been taken from the receive FIFO.
  pub record Receives (usic : Usic H) (calls : ℕ) (taken : H → List ℕ) : Type 0 where
    pub arrives : (h : H) → Ends calls usic.rx_fifo_is_empty taken h
    pub gets :
        (h : H)
        → taken (usic.rx_fifo_get_data h).1 ≡ taken h ++ ((usic.rx_fifo_get_data h).0 % 256 ∷ [])
