-- ===== src/Drivers/Mmc/Sector/Blocks.antt =====
-- What a sector read and a sector write exchange with the card.
use pascal_scheduler.Prelude.{
  ℕ, zero, suc, ◌+◌, ◌-◌, ◌*◌, ◌%◌, ◌^◌, ◌<◌, ◌≤◌, ltb, ◌≡◌, ◌≢◌, refl, sym, ap, ◌∙◌, false, List,
  [], ◌∷◌, ◌++◌, cells, cells_move, take, length, Option, some, arith, append_assoc,
}
use mathlib.Core.Path.{subst}
use pascal_scheduler.Drivers.Spi.Port.{Port, Conducts}
use pascal_scheduler.Drivers.Mmc.{Verdict, mmc_ok, Info}
use pascal_scheduler.Drivers.Mmc.Commands.{
  mmc_send, mmc_send_cmd, mmc_cmd17, mmc_cmd24, with_crc, command,
}
use pascal_scheduler.Drivers.Mmc.Commands.Frame.{mmc_send_cmd_lem}
use pascal_scheduler.Drivers.Mmc.Replies.{
  mmc_spi_read_status, mmc_spi_wait_start_block, mmc_read, skip_idle,
}
use pascal_scheduler.Drivers.Mmc.Replies.Stream.{
  GoesOn, skip_idle_lem, mmc_spi_wait_start_block_lem, mmc_read_lem,
}
use pascal_scheduler.Drivers.Mmc.Sector.{
  Block, block, read_block, mmc_read_sector, mmc_write_sector, send_array,
}

-- A buffer filled by a first byte and a read of the others.
block_cells :
    (size : ℕ) (f g : ℕ → ℕ) (c y : ℕ)
    → 0 < size
    → ((i : ℕ) → g i ≡ f (y + i))
    → g c ∷ cells (size - 1) g (c + 1) ≡ cells size f (y + c)
block_cells zero f g c y pos same = absurd (omega arith)
block_cells (suc k) f g c y pos same = λ j.
    same c j
    ∷ (ap (λ (n : ℕ). cells n g (c + 1)) {x = suc k - 1} {y = k} (omega arith)
          ∙ cells_move f g k (c + 1) (y + c + 1) later)
        j
  where
    later : (i : ℕ) → g (c + 1 + i) ≡ f (y + c + 1 + i)
    later i = same (c + 1 + i) ∙ ap f (omega arith)

module _ {S : Type 0} (port : Port S) (sent : S → List ℕ) (coming : S → ℕ → ℕ)
    (bus : Conducts port sent coming) where
  -- The card answers a read command: `a` bytes 0xFF, the status 0, `b` bytes that start no block and tell
  -- no error, the start of a block, `c` bytes 0xFF, and another byte. If c is not 0, these are bytes of the
  -- block.
  pub record Answers (s : S) (a b c : ℕ) : Type 0 where
    pub idle : (i : ℕ) → i < a → coming s i ≡ 0xFF
    pub status : coming s a ≡ 0
    pub gap : (i : ℕ) → i < b → GoesOn port sent coming bus false (coming s (a + 1 + i))
    pub token : coming s (a + 1 + b) ≡ 0xFE
    pub lost : (i : ℕ) → i < c → coming s (a + b + 2 + i) ≡ 0xFF
    pub other : coming s (a + b + 2 + c) ≢ 0xFF

  -- mmc_read_sector behind its command.
  pub record SectorRead (info : Info) (sector : ℕ) (s : S) (bytes : List ℕ)
      (result : Option (Block × S)) : Type 0 where
    pub after : S
    pub returns : result ≡ some (block bytes, after)
    pub sends :
        sent after
        ≡ sent s ++ (0xFF ∷ with_crc (command mmc_cmd17 (sector * info.read_block_size % 2 ^ 32)))

  -- What has been sent in the state behind a command.
  sent_after :
      (cmd arg : ℕ) (s s1 : S)
      → mmc_send_cmd port cmd arg s ≡ some s1
      → sent s1 ≡ sent s ++ (0xFF ∷ with_crc (command cmd arg))
  sent_after cmd arg s s1 e =
      let m = mmc_send_cmd_lem port sent coming bus cmd arg s in
      let same : s1 ≡ m.after = cc (m.returns, e) in ap sent same ∙ m.sends

  sector_run :
      (fuel : ℕ) (info : Info) (sector : ℕ) (s : S) {s1 s2 s3 s4 : S} {bytes : List ℕ}
      → mmc_send_cmd port mmc_cmd17 (sector * info.read_block_size % 2 ^ 32) s ≡ some s1
      → skip_idle port fuel s1 ≡ some (0, s2)
      → mmc_spi_wait_start_block port fuel false s2 ≡ some (mmc_ok, s3)
      → mmc_read port fuel info.read_block_size s3 ≡ some (bytes, s4)
      → mmc_read_sector port fuel info sector s ≡ some (block bytes, s4)
  unfolding mmc_read_sector mmc_spi_read_status read_block
  sector_run fuel info sector s e1 e2 e3 e4 = rw (e1, e2, e3, e4) refl

  -- A sector read from a card that answers: the driver has sent the read command for the sector's address,
  -- and the buffer holds the bytes from the first one on that is not 0xFF. So it holds the block exactly if
  -- the block does not begin with 0xFF.
  pub mmc_read_sector_lem :
      (fuel : ℕ) (info : Info) (sector a b c : ℕ) (s s1 : S)
      → mmc_send_cmd port mmc_cmd17 (sector * info.read_block_size % 2 ^ 32) s ≡ some s1
      → Answers s1 a b c
      → a < fuel
      → b < fuel
      → c < fuel
      → 0 < info.read_block_size
      → info.read_block_size < 2 ^ 31
      → SectorRead info sector s
          (cells info.read_block_size (coming s1) (a + b + 2 + c))
          (mmc_read_sector port fuel info sector s)
  mmc_read_sector_lem fuel info sector a b c s s1 e1 answers fa fb fc pos small =
      let st =
        skip_idle_lem port sent coming bus a fuel s1 fa answers.idle
          (λ e. absurd (omega (arith, e, answers.status))) in
      let wait =
        mmc_spi_wait_start_block_lem port sent coming bus b fuel false st.after fb
          (λ (i : ℕ) h.
            subst (GoesOn port sent coming bus false)
              (sym (st.moves i ∙ ap (coming s1) (omega arith))) (answers.gap i h))
          (st.moves b ∙ ap (coming s1) (omega arith) ∙ answers.token) in
      let at = λ (i : ℕ).
        wait.moves i
        ∙ st.moves (i + (b + 1))
        ∙ ap (coming s1) {x = i + (b + 1) + (a + 1)} {y = a + b + 2 + i} (omega arith) in
      let read =
        mmc_read_lem port sent coming bus c fuel info.read_block_size wait.after fc small
          (λ (i : ℕ) h. at i ∙ answers.lost i h) (λ e. answers.other (sym (at c) ∙ e)) in
      record {
        after = read.after;
        returns =
            sector_run fuel info sector s e1
              (st.returns ∙ ap (λ (v : ℕ). some (v, st.after)) answers.status) wait.returns
              (read.returns
                ∙ ap (λ (l : List ℕ). some (l, read.after))
                    (block_cells info.read_block_size (coming s1) (coming wait.after) c (a + b + 2)
                      pos at));
        sends =
            read.kept
            ∙ wait.kept
            ∙ st.kept
            ∙ sent_after mmc_cmd17 (sector * info.read_block_size % 2 ^ 32) s s1 e1;
      }

  -- The exchange of a sector write.
  pub record SectorWritten (info : Info) (sector : ℕ) (buf : List ℕ) (s : S)
      (result : Option (Verdict × S)) : Type 0 where
    pub after : S
    pub returns : result ≡ some (mmc_ok, after)
    pub sends :
        sent after
        ≡ sent s
          ++ ((0xFF ∷ with_crc (command mmc_cmd24 (sector * info.write_block_size % 2 ^ 32)))
              ++ (0xFF ∷ 0xFE ∷ take info.write_block_size buf))

  written_run :
      (fuel : ℕ) (info : Info) (sector : ℕ) (buf : List ℕ) (s : S) {s1 s2 s3 s4 : S}
      → mmc_send_cmd port mmc_cmd24 (sector * info.write_block_size % 2 ^ 32) s ≡ some s1
      → skip_idle port fuel s1 ≡ some (0, s2)
      → port.send (0xFF ∷ 0xFE ∷ []) s2 ≡ some s3
      → ltb (length buf) info.write_block_size ≡ false
      → port.send (take info.write_block_size buf) s3 ≡ some s4
      → mmc_write_sector port fuel info buf sector s ≡ some (mmc_ok, s4)
  unfolding mmc_write_sector mmc_spi_read_status mmc_send send_array
  written_run fuel info sector buf s e1 e2 e3 e e4 = rw (e1, e2, e3, e, e4) refl

  -- mmc_write_sector of at least as many bytes as the card's blocks for writes have, to a card that answers with
  -- the status 0 behind `a` bytes 0xFF: it sends the write command for the sector's address, 0xFF and the start of a
  -- block, and the block, and answers MMC_OK.
  pub mmc_write_sector_lem :
      (fuel : ℕ) (info : Info) (sector a : ℕ) (buf : List ℕ) (s s1 : S)
      → mmc_send_cmd port mmc_cmd24 (sector * info.write_block_size % 2 ^ 32) s ≡ some s1
      → ((i : ℕ) → i < a → coming s1 i ≡ 0xFF)
      → coming s1 a ≡ 0
      → a < fuel
      → info.write_block_size ≤ length buf
      → length (take info.write_block_size buf) < 2 ^ 31
      → SectorWritten info sector buf s (mmc_write_sector port fuel info buf sector s)
  mmc_write_sector_lem fuel info sector a buf s s1 e1 idle status fa full small =
      let st =
        skip_idle_lem port sent coming bus a fuel s1 fa idle
          (λ e. absurd (omega (arith, e, status))) in
      let head = bus.sends (0xFF ∷ 0xFE ∷ []) st.after (omega arith) in
      let body = bus.sends (take info.write_block_size buf) head.after small in
      let frame = 0xFF ∷ with_crc (command mmc_cmd24 (sector * info.write_block_size % 2 ^ 32)) in
      record {
        after = body.after;
        returns =
            written_run fuel info sector buf s e1
              (st.returns ∙ ap (λ (v : ℕ). some (v, st.after)) status) head.returns
              (ground (arith, full)) body.returns;
        sends =
            body.sends
            ∙ ap (λ (l : List ℕ). l ++ take info.write_block_size buf)
                (head.sends
                  ∙ ap (λ (l : List ℕ). l ++ (0xFF ∷ 0xFE ∷ []))
                      (st.kept
                        ∙ sent_after mmc_cmd24 (sector * info.write_block_size % 2 ^ 32) s s1 e1))
            ∙ append_assoc (sent s ++ frame) (0xFF ∷ 0xFE ∷ []) (take info.write_block_size buf)
            ∙ append_assoc (sent s) frame (0xFF ∷ 0xFE ∷ take info.write_block_size buf);
      }
