-- ===== src/Tests/Blocks.antt =====
-- Requests for a part of a block, and the SPI driver below.
use pascal_scheduler.Prelude.{ℕ, suc, ◌+◌, ◌%◌, refl, ap, some, arith, [], ◌∷◌, ◌++◌, cells}
use pascal_scheduler.Prelude.Word.{has_flag}
use pascal_scheduler.Dev.{Vnode, Uio, uio_read, DevOps, mmc_type}
use pascal_scheduler.Drivers.Usic.{poll}
use pascal_scheduler.Drivers.Spi.{Channel, spi, shifting}
use pascal_scheduler.Drivers.Spi.Transfer.{Bus}
use pascal_scheduler.Drivers.Spi.Port.{Conducts, spi_port}
use pascal_scheduler.Drivers.Spi.Port.Laws.{spi_port-Conducts}
use pascal_scheduler.Drivers.Mmc.Commands.{mmc_cmd17}
use pascal_scheduler.Drivers.Mmc.Ops.{mmc_spi_read}
use pascal_scheduler.Drivers.Mmc.Ops.Partial.{PartRead, mmc_spi_read_lem}
use pascal_scheduler.Tests.Cards.{
  Wire, answers, coming, sent, port, port-Conducts, machine, commanded, commanded_lem, card,
  gives-Answers,
}

abbrev pub node : Vnode
node = record { dev_type = mmc_type; dev_id = 5; endpt = 0; offset = 1124; data_ptr = 0 }

abbrev request : Uio
request = record { iov_base = 5000; uio_resid = 50; uio_rw = uio_read }

mmc_spi_read_lem_example :
    PartRead request machine
      (cells 50 (coming answers (commanded mmc_cmd17 1024)) 104)
      (mmc_spi_read (port answers) 10 (some card) node request machine)
mmc_spi_read_lem_example =
    mmc_spi_read_lem (port answers) sent (coming answers) (port-Conducts answers) 10 card node
      request 1 1 machine (commanded mmc_cmd17 1024) (commanded_lem answers mmc_cmd17 1024)
      gives-Answers (omega arith) (omega arith) (omega arith) (omega arith) refl (omega arith)

abbrev channel : Channel Wire
channel = record {
  set_up = λ call h. h;
  enable_slave_select = λ slave h. h;
  disable_slave_select = λ h. h;
  set_output_low = λ h. h;
  set_output_high = λ h. h;
  transmit = λ b h. record h { out = h.out ++ (b ∷ []) };
  get_status_flag = λ h. (1, h);
  clear_status_flag = λ f h. h;
  receive = λ h. h;
  get_received_data = λ h. (h.at % 256, record h { at = suc h.at });
  transmit_shift_indication = 1;
}

channel-Bus : Bus channel 2 (λ h. h.out) (λ h i. (h.at + i) % 256)
unfolding shifting poll has_flag
channel-Bus = record {
  shifts = λ h. record { after = h; ends = refl; kept = refl };
  transmits = λ b h. refl;
  clears = λ f h. refl;
  receives = λ h. (omega arith, (λ (i : ℕ). ap (λ (n : ℕ). n % 256) (omega arith)), refl);
}

abbrev devices : ℕ → DevOps Wire
devices id = spi channel 2 1000

spi_port-Conducts_example :
    Conducts (spi_port devices node 700) (λ m. m.hardware.out) (λ m i. (m.hardware.at + i) % 256)
spi_port-Conducts_example =
    spi_port-Conducts channel 2 (λ h. h.out) (λ h i. (h.at + i) % 256) channel-Bus devices node 700
      1000 refl (omega arith)
