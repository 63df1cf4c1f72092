-- ===== src/Tests/Patches.antt =====
-- A write of a part of a block of eight bytes.
use pascal_scheduler.Prelude.{ℕ, zero, suc, ◌≡◌, refl, some, arith, ◌∷◌, ◌++◌, cells}
use pascal_scheduler.Dev.{Vnode, Uio, uio_write, Machine}
use pascal_scheduler.Drivers.Mmc.{Info}
use pascal_scheduler.Drivers.Mmc.Commands.{
  mmc_send, mmc_send_cmd, mmc_cmd17, mmc_cmd24, with_crc, command,
}
use pascal_scheduler.Drivers.Mmc.Replies.{
  mmc_spi_read_status, mmc_spi_wait_start_block, mmc_read, skip_idle, mmc_read_byte,
  mmc_spi_wait_unbusy,
}
use pascal_scheduler.Drivers.Mmc.Sector.{block, read_block, mmc_read_sector}
use pascal_scheduler.Drivers.Mmc.Sector.Blocks.{Answers}
use pascal_scheduler.Drivers.Mmc.Ops.{mmc_spi_write}
use pascal_scheduler.Drivers.Mmc.Ops.Patch.{patched, PartWritten, mmc_spi_write_lem}
use pascal_scheduler.Tests.Cards.{Wire, port, sent, coming, port-Conducts, machine, card}
use pascal_scheduler.Tests.Blocks.{node}

-- A card that answers at once, and holds zeros.
empty : ℕ → ℕ
empty (suc zero) = 0xFE
empty i = 0

abbrev small : Info
small = record card { read_block_size = 8; write_block_size = 8 }

-- Two bytes at the offset 3 of the third block.
abbrev part : Vnode
part = record node { offset = 19 }

abbrev two_bytes : Uio
two_bytes = record { iov_base = 40; uio_resid = 2; uio_rw = uio_write }

abbrev asked : Machine Wire
asked = record machine {
  hardware = record { out = 0xFF ∷ with_crc (command mmc_cmd17 16); at = 0 };
}

abbrev held : Machine Wire
held = record asked { hardware = record { out = 0xFF ∷ with_crc (command mmc_cmd17 16); at = 10 } }

abbrev told : Machine Wire
told = record held {
  hardware = record {
    out = (0xFF ∷ with_crc (command mmc_cmd17 16)) ++ (0xFF ∷ with_crc (command mmc_cmd24 16));
    at = 10;
  };
}

empty-Answers : Answers (port empty) sent (coming empty) (port-Conducts empty) asked 0 0 0
unfolding empty
empty-Answers = record {
  idle = λ (i : ℕ) h. absurd (omega (arith, h));
  status = refl;
  gap = λ (i : ℕ) h. absurd (omega (arith, h));
  token = refl;
  lost = λ (i : ℕ) h. absurd (omega (arith, h));
  other = omega arith;
}

reads :
    mmc_read_sector (port empty) 10 small 2 machine
    ≡ some (block (cells 8 (coming empty asked) 2), held)
unfolding mmc_read_sector read_block mmc_send_cmd mmc_send mmc_spi_read_status
    mmc_spi_wait_start_block mmc_read skip_idle mmc_read_byte mmc_spi_wait_unbusy empty
reads = refl

tells : mmc_send_cmd (port empty) mmc_cmd24 16 held ≡ some told
unfolding mmc_send_cmd mmc_send
tells = refl

mmc_spi_write_lem_example :
    PartWritten sent two_bytes machine
      ((0xFF ∷ with_crc (command mmc_cmd17 16))
        ++ ((0xFF ∷ with_crc (command mmc_cmd24 16))
            ++ (0xFF
                ∷ 0xFE
                ∷ patched (cells 8 (coming empty asked) 2) 3 (cells 2 machine.memory 40))))
      (mmc_spi_write (port empty) 10 (some small) part two_bytes machine)
mmc_spi_write_lem_example =
    mmc_spi_write_lem (port empty) sent (coming empty) (port-Conducts empty) 10 small part two_bytes
      0 0 0 machine asked held told (unfold mmc_send_cmd mmc_send in refl) empty-Answers reads tells
      (λ (i : ℕ) h. absurd (omega (arith, h))) (unfold empty in refl) (omega arith) (omega arith)
      (omega arith) (omega arith) (omega arith) refl refl (omega arith)
