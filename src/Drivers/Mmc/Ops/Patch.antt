-- ===== src/Drivers/Mmc/Ops/Patch.antt =====
-- Writes of a part of a block.
use pascal_scheduler.Prelude.{
  ℕ, zero, suc, ◌+◌, ◌-◌, ◌*◌, ◌/◌, ◌%◌, ◌^◌, ◌<◌, ◌≤◌, ◌≡◌, refl, sym, ap, ◌∙◌, false, List, [],
  ◌∷◌, ◌++◌, append_assoc, cells, take, drop, set, length, take-set, drop-set, take-append_drop,
  length-set, take_all, Option, some, ◌==◌, ltb, arith,
}
use pascal_scheduler.Dev.{Vnode, Uio, uio_write, Machine, rounds}
use pascal_scheduler.Drivers.Loops.Uios.{rounds_small}
use pascal_scheduler.Drivers.Spi.Port.{Port, Conducts}
use pascal_scheduler.Drivers.Mmc.{Info, mmc_ok}
use pascal_scheduler.Drivers.Mmc.Commands.{mmc_send_cmd, mmc_cmd17, mmc_cmd24, with_crc, command}
use pascal_scheduler.Drivers.Mmc.Sector.{block, mmc_read_sector, mmc_write_sector}
use pascal_scheduler.Drivers.Mmc.Sector.Blocks.{Answers, mmc_read_sector_lem, mmc_write_sector_lem}
use pascal_scheduler.Drivers.Mmc.Ops.{
  copy_in, is_read, leaves_block, read_into_array, write_back, answer, mmc_spi_write,
}

-- The loop has put the bytes from `ptr` on in the place of the elements from `i` on.
copy_in_lem :
    (n i ptr : ℕ) (memory : ℕ → ℕ) (buf : List ℕ)
    → i + n ≤ length buf
    → copy_in n i ptr memory buf ≡ take i buf ++ (cells n memory ptr ++ drop (i + n) buf)
unfolding copy_in
copy_in_lem zero i ptr memory buf h =
    sym (take-append_drop buf i) ∙ ap (λ (j : ℕ). take i buf ++ drop j buf) (omega arith)
copy_in_lem (suc n) i ptr memory buf h =
    ap (λ (j : ℕ). copy_in n j (ptr + 1) memory (set buf i (memory ptr))) {x = i + 1} {y = suc i}
      (omega arith)
    ∙ copy_in_lem n (suc i) (ptr + 1) memory (set buf i (memory ptr))
        (omega (arith, h, length-set buf i (memory ptr)))
    ∙ rw
        (
          take-set buf i (memory ptr) (omega (arith, h)),
          drop-set buf i (suc i + n) (memory ptr) (omega arith),
        )
        (append_assoc (take i buf) (memory ptr ∷ [])
            (cells n memory (ptr + 1) ++ drop (suc i + n) buf)
          ∙ ap (λ (j : ℕ). take i buf ++ (memory ptr ∷ (cells n memory (ptr + 1) ++ drop j buf)))
              (omega arith))

-- A part of a block has been written.
pub record PartWritten {H : Type 0} (sent : Machine H → List ℕ) (uio : Uio) (m : Machine H)
    (bytes : List ℕ) (result : Option (ℕ × Uio × Machine H)) : Type 0 where
  pub after : Machine H
  pub returns : result ≡ some (0, record uio { uio_resid = 0 }, after)
  pub sends : sent after ≡ sent m ++ bytes

length-copy_in :
    (n i ptr : ℕ) (memory : ℕ → ℕ) (buf : List ℕ) → length (copy_in n i ptr memory buf) ≡ length buf
unfolding copy_in
length-copy_in zero i ptr memory buf = refl
length-copy_in (suc n) i ptr memory buf =
    length-copy_in n (i + 1) (ptr + 1) memory (set buf i (memory ptr))
    ∙ length-set buf i (memory ptr)

length-cells : (n : ℕ) (f : ℕ → ℕ) (a : ℕ) → length (cells n f a) ≡ n
length-cells zero f a = refl
length-cells (suc n) f a = ap suc (length-cells n f (a + 1))

-- The block with a part of it replaced.
abbrev pub patched : List ℕ → ℕ → List ℕ → List ℕ
patched buf at bytes = take at buf ++ (bytes ++ drop (at + length bytes) buf)

written_behind :
    {all before : List ℕ} (frame cmd new old : List ℕ)
    → all ≡ before ++ (cmd ++ new)
    → before ≡ old ++ frame
    → all ≡ old ++ (frame ++ (cmd ++ new))
written_behind frame cmd new old e1 e2 =
    e1 ∙ ap (λ (l : List ℕ). l ++ (cmd ++ new)) e2 ∙ append_assoc old frame (cmd ++ new)

module _ {H : Type 0} (port : Port (Machine H)) (sent : Machine H → List ℕ)
    (coming : Machine H → ℕ → ℕ) (bus : Conducts port sent coming) where
  write_run :
      (fuel : ℕ) (info : Info) (vnode : Vnode) (uio : Uio) (m : Machine H) {t t2 : Machine H}
      {buf : List ℕ}
      → is_read uio.uio_rw ≡ false
      → (info.read_block_size == 0) ≡ false
      → leaves_block info vnode uio ≡ false
      → ltb 512 info.read_block_size ≡ false
      → rounds uio.uio_resid ≡ uio.uio_resid
      → mmc_read_sector port fuel info (vnode.offset / info.read_block_size) m ≡ some (block buf, t)
      → mmc_write_sector port fuel info
          (copy_in uio.uio_resid (vnode.offset % info.read_block_size) uio.iov_base t.memory buf)
          (vnode.offset / info.read_block_size)
          t
        ≡ some (mmc_ok, t2)
      → mmc_spi_write port fuel (some info) vnode uio m
        ≡ some (0, record uio { uio_resid = uio.uio_resid - uio.uio_resid }, t2)
  unfolding mmc_spi_write read_into_array write_back answer
  write_run fuel info vnode uio m e1 e0 e2 e3 e4 e5 e6 = rw (e1, e0, e2, e3, e5, e4, e6) refl

  -- A write of a part of one block of at most 512 bytes, on a card whose blocks are as large for writes as for
  -- reads, where s1, t and t1 are the states behind the read command, the read of the block, and the write
  -- command: if the card answers the first one with a block that does not begin with 0xFF and the second one with
  -- the status 0, then mmc_spi_write returns 0 with nothing left to write, and it has sent the read command, and
  -- the write command with the block in which the bytes at the offset are those of the request.
  pub mmc_spi_write_lem :
      (fuel : ℕ) (info : Info) (vnode : Vnode) (uio : Uio) (a b d : ℕ) (m s1 t t1 : Machine H)
      → mmc_send_cmd port mmc_cmd17
          (vnode.offset / info.read_block_size * info.read_block_size % 2 ^ 32)
          m
        ≡ some s1
      → Answers port sent coming bus s1 a b 0
      → mmc_read_sector port fuel info (vnode.offset / info.read_block_size) m
        ≡ some (block (cells info.read_block_size (coming s1) (a + b + 2 + 0)), t)
      → mmc_send_cmd port mmc_cmd24
          (vnode.offset / info.read_block_size * info.write_block_size % 2 ^ 32)
          t
        ≡ some t1
      → ((i : ℕ) → i < d → coming t1 i ≡ 0xFF)
      → coming t1 d ≡ 0
      → a < fuel
      → b < fuel
      → d < fuel
      → 0 < info.read_block_size
      → info.read_block_size ≤ 512
      → info.write_block_size ≡ info.read_block_size
      → uio.uio_rw ≡ uio_write
      → uio.uio_resid + vnode.offset % info.read_block_size ≤ info.read_block_size
      → PartWritten sent uio m
          ((0xFF
              ∷ with_crc (
                  command mmc_cmd17
                    (vnode.offset / info.read_block_size * info.read_block_size % 2 ^ 32)))
            ++ ((0xFF
                  ∷ with_crc (
                      command mmc_cmd24
                        (vnode.offset / info.read_block_size * info.write_block_size % 2 ^ 32)))
                ++ (0xFF
                    ∷ 0xFE
                    ∷ patched
                        (cells info.read_block_size (coming s1) (a + b + 2 + 0))
                        (vnode.offset % info.read_block_size)
                        (cells uio.uio_resid t.memory uio.iov_base))))
          (mmc_spi_write port fuel (some info) vnode uio m)
  mmc_spi_write_lem fuel info vnode uio a b d m s1 t t1 e1 answers e2 e3 idle status fa fb fd pos
        small same writing inside =
      let r =
        mmc_read_sector_lem port sent coming bus fuel info (vnode.offset / info.read_block_size) a b
          0 m s1 e1 answers fa fb (omega (arith, fa)) pos (omega (arith, small)) in
      let back : t ≡ r.after = cc (r.returns, e2) in
      let w =
        mmc_write_sector_lem port sent coming bus fuel info (vnode.offset / info.read_block_size) d
          new t t1 e3 idle status fd (omega (arith, size, same))
          (rw whole (omega (arith, size, small))) in
      record {
        after = w.after;
        returns =
            write_run fuel info vnode uio m (unfold is_read in ap is_read writing)
              (ground (arith, pos)) stays (ground (arith, small))
              (rounds_small uio.uio_resid (omega (arith, inside, small))) e2 w.returns
            ∙ ap (λ (n : ℕ). some (0, record uio { uio_resid = n }, w.after)) (omega arith);
        sends =
            written_behind read_frame write_frame (0xFF ∷ 0xFE ∷ take info.write_block_size new)
              (sent m) w.sends (ap sent back ∙ r.sends)
            ∙ ap (λ (l : List ℕ). sent m ++ (read_frame ++ (write_frame ++ (0xFF ∷ 0xFE ∷ l))))
                (whole ∙ filled);
      }
    where
      buf : List ℕ
      buf = cells info.read_block_size (coming s1) (a + b + 2 + 0)

      read_frame : List ℕ
      read_frame =
          0xFF
          ∷ with_crc (
              command mmc_cmd17
                (vnode.offset / info.read_block_size * info.read_block_size % 2 ^ 32))

      write_frame : List ℕ
      write_frame =
          0xFF
          ∷ with_crc (
              command mmc_cmd24
                (vnode.offset / info.read_block_size * info.write_block_size % 2 ^ 32))

      new : List ℕ
      new = copy_in uio.uio_resid (vnode.offset % info.read_block_size) uio.iov_base t.memory buf

      size : length new ≡ info.read_block_size
      size =
          length-copy_in uio.uio_resid (vnode.offset % info.read_block_size) uio.iov_base t.memory
            buf
          ∙ length-cells info.read_block_size (coming s1) (a + b + 2 + 0)

      whole : take info.write_block_size new ≡ new
      whole = take_all new info.write_block_size (size ∙ sym same)

      stays : leaves_block info vnode uio ≡ false
      stays = unfold leaves_block in ground (arith, inside, small)

      filled :
          new
          ≡ patched buf
              (vnode.offset % info.read_block_size)
              (cells uio.uio_resid t.memory uio.iov_base)
      filled =
          copy_in_lem uio.uio_resid (vnode.offset % info.read_block_size) uio.iov_base t.memory buf
            (omega (arith, inside, length-cells info.read_block_size (coming s1) (a + b + 2 + 0)))
          ∙ ap
              (λ (n : ℕ).
                take (vnode.offset % info.read_block_size) buf
                ++ (cells uio.uio_resid t.memory uio.iov_base ++ drop n buf))
              (omega (arith, length-cells uio.uio_resid t.memory uio.iov_base))
