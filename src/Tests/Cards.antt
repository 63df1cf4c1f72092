-- ===== src/Tests/Cards.antt =====
-- A bus whose transfers end at once, and a card on it.
use pascal_scheduler.Prelude.{
  ℕ, zero, suc, ◌+◌, ◌-◌, ◌*◌, ◌/◌, ◌%◌, ◌^◌, ◌<◌, ◌≡◌, inl, refl, ap, false, some, arith, List, [],
  ◌∷◌, ◌++◌, cells,
}
use pascal_scheduler.Prelude.Word.{has_flag}
use pascal_scheduler.Dev.{Machine}
use pascal_scheduler.Drivers.Spi.Port.{Port, Conducts}
use pascal_scheduler.Drivers.Mmc.{Info}
use pascal_scheduler.Drivers.Mmc.Fields.{unstuff_bits}
use pascal_scheduler.Drivers.Mmc.Fields.Register.{number, unstuff_bits_lem}
use pascal_scheduler.Drivers.Mmc.Crc.{crc_bit, crc_bits, crc_bytes, mmc_crc7}
use pascal_scheduler.Drivers.Mmc.Crc.Division.{remainder, coefficients, seven_zeros, mmc_crc7_lem}
use pascal_scheduler.Drivers.Mmc.Commands.{
  mmc_send, mmc_send_cmd, mmc_cmd17, mmc_cmd24, with_crc, command,
}
use pascal_scheduler.Drivers.Mmc.Commands.Frame.{Understood, mmc_send_cmd-Understood}
use pascal_scheduler.Drivers.Mmc.Replies.Stream.{GoesOn}
use pascal_scheduler.Drivers.Mmc.Sector.{mmc_read_sector, mmc_write_sector}
use pascal_scheduler.Drivers.Mmc.Sector.Blocks.{
  Answers, SectorRead, mmc_read_sector_lem, SectorWritten, mmc_write_sector_lem,
}
use pascal_scheduler.Drivers.Mmc.Decode.{sd_decode_csd}
use pascal_scheduler.Drivers.Mmc.Decode.Registers.{Decoded, sd_decode_csd_lem}
use pascal_scheduler.Drivers.Mmc.Startup.{mmc_to_idle}
use pascal_scheduler.Drivers.Mmc.Startup.Idle.{ToIdle, mmc_to_idle_lem}

pub record Wire : Type 0 where
  pub out : List ℕ
  pub at : ℕ

-- What a card answers to a read command: a byte 0xFF, the status, a byte 0xFF, the start of a block, and the
-- block.
pub answers : ℕ → ℕ
answers zero = 0xFF
answers (suc zero) = 0
answers (suc (suc zero)) = 0xFF
answers (suc (suc (suc zero))) = 0xFE
answers (suc (suc (suc (suc i)))) = i % 255

-- A card that holds a block that begins with 0xFF.
lossy : ℕ → ℕ
lossy zero = 0
lossy (suc zero) = 0xFE
lossy (suc (suc zero)) = 0xFF
lossy (suc (suc (suc i))) = i % 255

abbrev pub coming : (ℕ → ℕ) → Machine Wire → ℕ → ℕ
coming stream m i = stream (m.hardware.at + i)

abbrev pub sent : Machine Wire → List ℕ
sent m = m.hardware.out

abbrev pub port : (ℕ → ℕ) → Port (Machine Wire)
port stream = record {
  send =
      λ bytes m. some (record m { hardware = record m.hardware { out = m.hardware.out ++ bytes } });
  receive = λ n m. some (
    cells n (coming stream m) 0,
    record m { hardware = record m.hardware { at = n + m.hardware.at } },
  );
  enable_slave = λ slave m. some m;
  disable_slave = λ m. some m;
}

pub port-Conducts : (stream : ℕ → ℕ) → Conducts (port stream) sent (coming stream)
port-Conducts stream = record {
  sends = λ bytes m small. record {
    after = record m { hardware = record m.hardware { out = m.hardware.out ++ bytes } };
    returns = refl;
    sends = refl;
  };
  receives = λ n m small. record {
    after = record m { hardware = record m.hardware { at = n + m.hardware.at } };
    returns = refl;
    moves = λ (i : ℕ). ap stream (omega arith);
    kept = refl;
  };
}

abbrev pub machine : Machine Wire
machine = record { memory = λ a. a % 256; hardware = record { out = []; at = 0 } }

abbrev pub commanded : ℕ → ℕ → Machine Wire
commanded cmd arg = record machine {
  hardware = record { out = 0xFF ∷ with_crc (command cmd arg); at = 0 };
}

pub commanded_lem :
    (stream : ℕ → ℕ) (cmd arg : ℕ)
    → mmc_send_cmd (port stream) cmd arg machine ≡ some (commanded cmd arg)
unfolding mmc_send_cmd mmc_send
commanded_lem stream cmd arg = refl

abbrev pub card : Info
card = record {
  csd = record { c_size = 0; c_mult = 0; read_bl_len = 9; write_bl_len = 9; c_structure = 0 };
  cid = record {
    psn = 0;
    pnm = [];
    mdt_year = 0;
    oid = [];
    mdt_month = 0;
    crc7 = 0;
    prv = 0;
    mid = 0;
  };
  spi_channel = 0;
  mem_size = 0;
  read_block_size = 512;
  write_block_size = 4;
  flags = 0;
}

unstuff_bits_lem_example :
    unstuff_bits (0x400E0032 ∷ 0x5B590000 ∷ 0x3B377F80 ∷ 0x0A404055 ∷ []) 60 12
    ≡ number (0x400E0032 ∷ 0x5B590000 ∷ 0x3B377F80 ∷ 0x0A404055 ∷ []) / 2 ^ 60 % 2 ^ 12
unstuff_bits_lem_example =
    unstuff_bits_lem 0x400E0032 0x5B590000 0x3B377F80 0x0A404055 60 12
      (omega arith, omega arith, omega arith, omega arith) (omega arith) (omega arith) (omega arith)

mmc_crc7_lem_example :
    mmc_crc7 (0x40 ∷ 0 ∷ 0 ∷ 0 ∷ 0 ∷ [])
    ≡ remainder (coefficients (0x40 ∷ 0 ∷ 0 ∷ 0 ∷ 0 ∷ []) ++ seven_zeros) 0 * 2 + 1
mmc_crc7_lem_example =
    mmc_crc7_lem (0x40 ∷ 0 ∷ 0 ∷ 0 ∷ 0 ∷ [])
      (omega arith, (omega arith, (omega arith, (omega arith, (omega arith, tt)))))

-- The checksum of CMD0 that the specification of the cards gives.
crc_of_cmd0 : mmc_crc7 (0x40 ∷ 0 ∷ 0 ∷ 0 ∷ 0 ∷ []) ≡ 0x95
crc_of_cmd0 = unfold mmc_crc7 crc_bytes crc_bits crc_bit has_flag in refl

mmc_send_cmd-Understood_example :
    Understood sent
      (mmc_cmd17 - 64)
      1024
      machine
      (mmc_send_cmd (port answers) mmc_cmd17 1024 machine)
mmc_send_cmd-Understood_example =
    mmc_send_cmd-Understood (port answers) sent (coming answers) (port-Conducts answers) mmc_cmd17
      1024 machine (omega arith) (omega arith) (omega arith)

loses-Answers :
    Answers (port lossy) sent (coming lossy) (port-Conducts lossy) (commanded mmc_cmd17 1024) 0 0 1
unfolding lossy
loses-Answers = record {
  idle = λ (i : ℕ) h. absurd (omega (arith, h));
  status = refl;
  gap = λ (i : ℕ) h. absurd (omega (arith, h));
  token = refl;
  lost = at_first;
  other = omega arith;
}
  where
    at_first : (i : ℕ) → i < 1 → coming lossy (commanded mmc_cmd17 1024) (0 + 0 + 2 + i) ≡ 0xFF
    at_first zero h = refl
    at_first (suc i) h = absurd (omega (arith, h))

pub gives-Answers :
    Answers
      (port answers)
      sent
      (coming answers)
      (port-Conducts answers)
      (commanded mmc_cmd17 1024)
      1
      1
      0
unfolding answers
gives-Answers = record {
  idle = at_first;
  status = refl;
  gap = in_gap;
  token = refl;
  lost = λ (i : ℕ) h. absurd (omega (arith, h));
  other = omega arith;
}
  where
    at_first : (i : ℕ) → i < 1 → coming answers (commanded mmc_cmd17 1024) i ≡ 0xFF
    at_first zero h = refl
    at_first (suc i) h = absurd (omega (arith, h))

    in_gap :
        (i : ℕ)
        → i < 1
        → GoesOn
            (port answers)
            sent
            (coming answers)
            (port-Conducts answers)
            false
            (coming answers (commanded mmc_cmd17 1024) (1 + 1 + i))
    in_gap zero h = (omega arith, inl (omega arith))
    in_gap (suc i) h = absurd (omega (arith, h))

mmc_read_sector_lem_example :
    SectorRead
      (port lossy)
      sent
      (coming lossy)
      (port-Conducts lossy)
      card
      2
      machine
      (cells 512 (coming lossy (commanded mmc_cmd17 1024)) 3)
      (mmc_read_sector (port lossy) 10 card 2 machine)
mmc_read_sector_lem_example =
    mmc_read_sector_lem (port lossy) sent (coming lossy) (port-Conducts lossy) 10 card 2 0 0 1
      machine (commanded mmc_cmd17 1024) (commanded_lem lossy mmc_cmd17 1024) loses-Answers
      (omega arith) (omega arith) (omega arith) (omega arith) (omega arith)

first_waits : (i : ℕ) → i < 1 → coming answers (commanded mmc_cmd24 8) i ≡ 0xFF
unfolding answers
first_waits zero h = refl
first_waits (suc i) h = absurd (omega (arith, h))

mmc_write_sector_lem_example :
    SectorWritten
      (port answers)
      sent
      (coming answers)
      (port-Conducts answers)
      card
      2
      (1 ∷ 2 ∷ 3 ∷ 4 ∷ [])
      machine
      (mmc_write_sector (port answers) 10 card (1 ∷ 2 ∷ 3 ∷ 4 ∷ []) 2 machine)
mmc_write_sector_lem_example =
    mmc_write_sector_lem (port answers) sent (coming answers) (port-Conducts answers) 10 card 2 1
      (1 ∷ 2 ∷ 3 ∷ 4 ∷ []) machine (commanded mmc_cmd24 8) (commanded_lem answers mmc_cmd24 8)
      first_waits (unfold answers in refl) (omega arith) (omega arith) (omega arith)

sd_decode_csd_lem_example :
    Decoded
      (number (0x00260032 ∷ 0x5F5983C8 ∷ 0xBEFBCFFF ∷ 0x924040CB ∷ []))
      card
      (sd_decode_csd (0x00260032 ∷ 0x5F5983C8 ∷ 0xBEFBCFFF ∷ 0x924040CB ∷ []) card)
sd_decode_csd_lem_example =
    sd_decode_csd_lem 0x00260032 0x5F5983C8 0xBEFBCFFF 0x924040CB card
      (omega arith, omega arith, omega arith, omega arith) (omega arith)

mmc_to_idle_lem_example :
    ToIdle
      (port answers)
      sent
      (coming answers)
      (port-Conducts answers)
      machine
      (mmc_to_idle (port answers) machine)
mmc_to_idle_lem_example =
    mmc_to_idle_lem (port answers) sent (coming answers) (port-Conducts answers) machine
