-- ===== src/Drivers/Mmc/Replies/Stream.antt =====
-- What the reading loops make of the bytes that come.
use pascal_scheduler.Prelude.{
  cells_move, ◌⊎◌, ℕ, zero, suc, ◌+◌, ◌-◌, ◌^◌, ◌<◌, ◌≡◌, ◌≢◌, refl, sym, ap, ◌∙◌, Bool, true,
  false, ◌&&◌, not, List, ◌∷◌, cells, Option, some, ◌==◌, bit_and, arith,
}
use mathlib.Core.Path.{subst}
use pascal_scheduler.Drivers.Spi.Port.{Port, Received, Conducts}
use pascal_scheduler.Drivers.Mmc.{mmc_ok}
use pascal_scheduler.Drivers.Mmc.Replies.{
  mmc_read_byte, skip_idle, mmc_spi_wait_start_block, mmc_spi_wait_unbusy, mmc_read,
}

-- A reading function has given `value`, moved the stream on by `n` bytes, and sent
-- nothing.
pub record Reads {S : Type 0} {A : Type 0} (sent : S → List ℕ) (coming : S → ℕ → ℕ) (s : S) (n : ℕ)
    (value : A) (result : Option (A × S)) : Type 0 where
  pub after : S
  pub returns : result ≡ some (value, after)
  pub moves : (i : ℕ) → coming after i ≡ coming s (i + n)
  pub kept : sent after ≡ sent s

module _ {S : Type 0} (port : Port S) (sent : S → List ℕ) (coming : S → ℕ → ℕ)
    (bus : Conducts port sent coming) where
  pub mmc_read_byte_lem : (s : S) → Reads sent coming s 1 (coming s 0) (mmc_read_byte port s)
  unfolding mmc_read_byte
  mmc_read_byte_lem s = record {
    after = r.after;
    returns = rw r.returns refl;
    moves = r.moves;
    kept = r.kept;
  }
    where
      r : Received sent coming s 1 (port.receive 1 s)
      r = bus.receives 1 s (omega arith)

  -- The stream behind its first byte.
  shift_hyp :
      (s s' : S) (P : ℕ → Type 0) (n : ℕ)
      → ((i : ℕ) → coming s' i ≡ coming s (i + 1))
      → ((i : ℕ) → i < suc n → P (coming s i))
      → (i : ℕ) → i < n
      → P (coming s' i)
  shift_hyp s s' P n moves all i h = subst P (sym (moves i)) (all (i + 1) (omega (arith, h)))

  -- Behind `n` bytes 0xFF, skip_idle gives the next byte.
  pub skip_idle_lem :
      (n fuel : ℕ) (s : S)
      → n < fuel
      → ((i : ℕ) → i < n → coming s i ≡ 0xFF)
      → coming s n ≢ 0xFF
      → Reads sent coming s (n + 1) (coming s n) (skip_idle port fuel s)
  unfolding skip_idle
  skip_idle_lem n zero s enough idle other = absurd (omega arith)
  skip_idle_lem zero (suc fuel) s enough idle other =
      let first = mmc_read_byte_lem s in
      let stop : (coming s 0 == 0xFF) ≡ false = ground (arith, other) in
      record {
        after = first.after;
        returns = rw (first.returns, stop) refl;
        moves = first.moves;
        kept = first.kept;
      }
  skip_idle_lem (suc n) (suc fuel) s enough idle other =
      let first = mmc_read_byte_lem s in
      let on : (coming s 0 == 0xFF) ≡ true = ground (arith, idle 0 (omega arith)) in
      let at : coming first.after n ≡ coming s (suc n) =
        first.moves n ∙ ap (coming s) (omega arith) in
      let rest =
        skip_idle_lem n fuel first.after (omega (arith, enough))
          (shift_hyp s first.after (λ b. b ≡ 0xFF) n first.moves idle) (rw at other) in
      record {
        after = rest.after;
        returns = rw (first.returns, on, rest.returns, at) refl;
        moves = λ (i : ℕ). rest.moves i ∙ first.moves (i + (n + 1)) ∙ ap (coming s) (omega arith);
        kept = rest.kept ∙ first.kept;
      }

  -- The loop that waits for a block goes on at such a byte.
  abbrev pub GoesOn : Bool → ℕ → Type 0
  GoesOn ignore_status b = (b ≢ 0xFE) × ((bit_and b 0xF0 ≢ 0) ⊎ (ignore_status ≡ true))

  -- Behind `n` such bytes comes the start of a block.
  pub mmc_spi_wait_start_block_lem :
      (n fuel : ℕ) (ignore_status : Bool) (s : S)
      → n < fuel
      → ((i : ℕ) → i < n → GoesOn ignore_status (coming s i))
      → coming s n ≡ 0xFE
      → Reads sent coming s (n + 1) mmc_ok (mmc_spi_wait_start_block port fuel ignore_status s)
  unfolding mmc_spi_wait_start_block
  mmc_spi_wait_start_block_lem n zero ignore_status s enough gap token = absurd (omega arith)
  mmc_spi_wait_start_block_lem zero (suc fuel) ignore_status s enough gap token =
      let first = mmc_read_byte_lem s in
      record {
        after = first.after;
        returns = rw (first.returns, token) refl;
        moves = first.moves;
        kept = first.kept;
      }
  mmc_spi_wait_start_block_lem (suc n) (suc fuel) ignore_status s enough gap token =
      let first = mmc_read_byte_lem s in
      let at : coming first.after n ≡ coming s (suc n) =
        first.moves n ∙ ap (coming s) (omega arith) in
      let no_token : (coming s 0 == 0xFE) ≡ false = ground (arith, (gap 0 (omega arith)).0) in
      let no_error : (bit_and (coming s 0) 0xF0 == 0 && not ignore_status) ≡ false =
        ground (arith, (gap 0 (omega arith)).1) in
      let rest =
        mmc_spi_wait_start_block_lem n fuel ignore_status first.after (omega (arith, enough))
          (shift_hyp s first.after (GoesOn ignore_status) n first.moves gap) (at ∙ token) in
      record {
        after = rest.after;
        returns = rw (first.returns, no_error, no_token) rest.returns;
        moves = λ (i : ℕ). rest.moves i ∙ first.moves (i + (n + 1)) ∙ ap (coming s) (omega arith);
        kept = rest.kept ∙ first.kept;
      }

  -- mmc_read leaves out the bytes 0xFF in front, however many there are, and fills the buffer with those
  -- from the first other byte on.
  pub mmc_read_lem :
      (n fuel size : ℕ) (s : S)
      → n < fuel
      → size < 2 ^ 31
      → ((i : ℕ) → i < n → coming s i ≡ 0xFF)
      → coming s n ≢ 0xFF
      → Reads sent coming s
          (n + 1 + (size - 1))
          (coming s n ∷ cells (size - 1) (coming s) (n + 1))
          (mmc_read port fuel size s)
  unfolding mmc_read mmc_spi_wait_unbusy
  mmc_read_lem n fuel size s enough small idle other =
      let first = skip_idle_lem n fuel s enough idle other in
      let rest = bus.receives (size - 1) first.after (omega (arith, small)) in
      let same : cells (size - 1) (coming first.after) 0 ≡ cells (size - 1) (coming s) (n + 1) =
        cells_move (coming s) (coming first.after) (size - 1) 0 (n + 1)
          (λ (i : ℕ). first.moves (0 + i) ∙ ap (coming s) (omega arith)) in
      record {
        after = rest.after;
        returns = rw (first.returns, rest.returns, same) refl;
        moves =
            λ (i : ℕ). rest.moves i ∙ first.moves (i + (size - 1)) ∙ ap (coming s) (omega arith);
        kept = rest.kept ∙ first.kept;
      }
