-- ===== src/Drivers/Mmc/Ops/Partial.antt =====
-- Reads and writes of a part of a block.
use pascal_scheduler.Prelude.{
  ℕ, zero, suc, ◌+◌, ◌-◌, ◌*◌, ◌/◌, ◌%◌, ◌^◌, ◌<◌, ◌≤◌, ◌≡◌, refl, ap, ◌∙◌, true, false, List, ◌∷◌,
  cells, get_or, store, Option, some, ◌==◌, ltb, arith,
}
use pascal_scheduler.Dev.{Vnode, Uio, uio_read, Machine, rounds}
use pascal_scheduler.Drivers.Loops.Uios.{rounds_small}
use pascal_scheduler.Drivers.Spi.Port.{Port, Conducts}
use pascal_scheduler.Drivers.Mmc.{Info}
use pascal_scheduler.Drivers.Mmc.Commands.{mmc_send_cmd, mmc_cmd17}
use pascal_scheduler.Drivers.Mmc.Sector.{block, mmc_read_sector}
use pascal_scheduler.Drivers.Mmc.Sector.Blocks.{Answers, mmc_read_sector_lem}
use pascal_scheduler.Drivers.Mmc.Ops.{
  copy_out, is_read, leaves_block, read_into_array, read_out, mmc_spi_read,
}

copy_out_below :
    (n i ptr : ℕ) (buf : List ℕ) (memory : ℕ → ℕ) (a : ℕ)
    → a < ptr
    → copy_out n i ptr buf memory a ≡ memory a
unfolding copy_out store
copy_out_below zero i ptr buf memory a h = refl
copy_out_below (suc n) i ptr buf memory a h =
    copy_out_below n (i + 1) (ptr + 1) buf (store ptr (get_or buf i 0) memory) a (omega (arith, h))
    ∙ ground (arith, h)

-- The loop has copied the elements from `i` on.
cells-copy_out :
    (n i ptr : ℕ) (buf : List ℕ) (memory : ℕ → ℕ)
    → cells n (copy_out n i ptr buf memory) ptr ≡ cells n (λ j. get_or buf j 0) i
unfolding copy_out
cells-copy_out zero i ptr buf memory = refl
cells-copy_out (suc n) i ptr buf memory = λ j.
    (copy_out_below n (i + 1) (ptr + 1) buf (store ptr (get_or buf i 0) memory) ptr (omega arith)
        ∙ at)
      j
    ∷ cells-copy_out n (i + 1) (ptr + 1) buf (store ptr (get_or buf i 0) memory) j
  where
    at : store ptr (get_or buf i 0) memory ptr ≡ get_or buf i 0
    at = unfold store in ground arith

get_or-cells : (n : ℕ) (f : ℕ → ℕ) (y i : ℕ) → i < n → get_or (cells n f y) i 0 ≡ f (y + i)
get_or-cells zero f y i h = absurd (omega (arith, h))
get_or-cells (suc n) f y zero h = ap f (omega arith)
get_or-cells (suc n) f y (suc i) h =
    get_or-cells n f (y + 1) i (omega (arith, h)) ∙ ap f (omega arith)

-- Elements of a buffer that holds cells are cells.
cells-get_or :
    (k n : ℕ) (f : ℕ → ℕ) (y i : ℕ)
    → i + k ≤ n
    → cells k (λ j. get_or (cells n f y) j 0) i ≡ cells k f (y + i)
cells-get_or zero n f y i h = refl
cells-get_or (suc k) n f y i h = λ j.
    get_or-cells n f y i (omega (arith, h)) j
    ∷ (cells-get_or k n f y (i + 1) (omega (arith, h))
          ∙ ap (cells k f) {x = y + (i + 1)} {y = y + i + 1} (omega arith))
        j

-- A part of a block has been read.
pub record PartRead {H : Type 0} (uio : Uio) (m : Machine H) (bytes : List ℕ)
    (result : Option (ℕ × Uio × Machine H)) : Type 0 where
  pub after : Machine H
  pub returns : result ≡ some (0, record uio { uio_resid = 0 }, after)
  pub fills : cells uio.uio_resid after.memory uio.iov_base ≡ bytes

module _ {H : Type 0} (port : Port (Machine H)) (sent : Machine H → List ℕ)
    (coming : Machine H → ℕ → ℕ) (bus : Conducts port sent coming) where
  read_run :
      (fuel : ℕ) (info : Info) (vnode : Vnode) (uio : Uio) (m : Machine H) {m' : Machine H}
      {buf : List ℕ}
      → is_read uio.uio_rw ≡ true
      → (info.read_block_size == 0) ≡ false
      → leaves_block info vnode uio ≡ false
      → ltb 512 info.read_block_size ≡ false
      → rounds uio.uio_resid ≡ uio.uio_resid
      → mmc_read_sector port fuel info (vnode.offset / info.read_block_size) m
        ≡ some (block buf, m')
      → mmc_spi_read port fuel (some info) vnode uio m
        ≡ some (
          0,
          record uio { uio_resid = uio.uio_resid - uio.uio_resid },
          record m' {
            memory =
                copy_out uio.uio_resid
                  (vnode.offset % info.read_block_size)
                  uio.iov_base
                  buf
                  m'.memory;
          },
        )
  unfolding mmc_spi_read read_into_array read_out
  read_run fuel info vnode uio m e1 e0 e2 e3 e4 e5 = rw (e1, e0, e2, e3, e5, e4) refl

  -- A read of a part of one block of at most 512 bytes, from a card that answers with a block that does not
  -- begin with 0xFF: mmc_spi_read returns 0 with nothing left to read, and the buffer holds the bytes of
  -- the block from the offset in it on.
  pub mmc_spi_read_lem :
      (fuel : ℕ) (info : Info) (vnode : Vnode) (uio : Uio) (a b : ℕ) (m s1 : Machine H)
      → mmc_send_cmd port mmc_cmd17
          (vnode.offset / info.read_block_size * info.read_block_size % 2 ^ 32)
          m
        ≡ some s1
      → Answers port sent coming bus s1 a b 0
      → a < fuel
      → b < fuel
      → 0 < info.read_block_size
      → info.read_block_size ≤ 512
      → uio.uio_rw ≡ uio_read
      → uio.uio_resid + vnode.offset % info.read_block_size ≤ info.read_block_size
      → PartRead uio m
          (cells uio.uio_resid (coming s1) (a + b + 2 + vnode.offset % info.read_block_size))
          (mmc_spi_read port fuel (some info) vnode uio m)
  mmc_spi_read_lem fuel info vnode uio a b m s1 e1 answers fa fb pos small reading inside =
      let sector =
        mmc_read_sector_lem port sent coming bus fuel info (vnode.offset / info.read_block_size) a b
          0 m s1 e1 answers fa fb (omega (arith, fa)) pos (omega (arith, small)) in
      record {
        after = record sector.after {
          memory =
              copy_out uio.uio_resid (vnode.offset % info.read_block_size) uio.iov_base buf
                sector.after.memory;
        };
        returns =
            read_run fuel info vnode uio m (unfold is_read in ap is_read reading)
              (ground (arith, pos)) stays (ground (arith, small))
              (rounds_small uio.uio_resid (omega (arith, inside, small))) sector.returns
            ∙ ap
                (λ (r : ℕ). some (
                  0,
                  record uio { uio_resid = r },
                  record sector.after {
                    memory =
                        copy_out uio.uio_resid (vnode.offset % info.read_block_size) uio.iov_base
                          buf sector.after.memory;
                  },
                ))
                (omega arith);
        fills =
            cells-copy_out uio.uio_resid (vnode.offset % info.read_block_size) uio.iov_base buf
              sector.after.memory
            ∙ cells-get_or uio.uio_resid info.read_block_size (coming s1) (a + b + 2 + 0)
                (vnode.offset % info.read_block_size) (omega (arith, inside))
            ∙ ap (cells uio.uio_resid (coming s1)) (omega arith);
      }
    where
      buf : List ℕ
      buf = cells info.read_block_size (coming s1) (a + b + 2 + 0)

      stays : leaves_block info vnode uio ≡ false
      stays = unfold leaves_block in ground (arith, inside, small)
