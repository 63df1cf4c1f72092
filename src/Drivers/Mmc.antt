-- ===== src/Drivers/Mmc.antt =====
-- dev/mmc/mmc_spi.c and dev/mmc/mmc.h: memory cards on the SPI bus. A C array is the list of its elements,
-- and the SPI driver is a port.
pub mod Fields
pub mod Crc
pub mod Commands
pub mod Replies
pub mod Sector
pub mod Decode
pub mod Startup
pub mod Ops
use pascal_scheduler.Prelude.{ℕ, List, Option, if◌then◌else◌}
use pascal_scheduler.Drivers.Spi.Port.{Port}

-- MMC_OK and MMC_ERROR.
pub data Verdict : Type 0 where
  mmc_ok : Verdict
  mmc_error : Verdict

-- `struct mmc_csd`
pub record Csd : Type 0 where
  pub c_size : ℕ
  pub c_mult : ℕ
  pub read_bl_len : ℕ
  pub write_bl_len : ℕ
  pub c_structure : ℕ

-- `struct mmc_cid`
pub record Cid : Type 0 where
  pub psn : ℕ
  pub pnm : List ℕ
  pub mdt_year : ℕ
  pub oid : List ℕ
  pub mdt_month : ℕ
  pub crc7 : ℕ
  pub prv : ℕ
  pub mid : ℕ

-- `struct mmc_info`
pub record Info : Type 0 where
  pub csd : Csd
  pub cid : Cid
  pub spi_channel : ℕ
  pub mem_size : ℕ
  pub read_block_size : ℕ
  pub write_block_size : ℕ
  pub flags : ℕ

-- `enum mmc_flag`
abbrev pub mmc_disabled : ℕ
mmc_disabled = 1

abbrev pub mmc_v1 : ℕ
mmc_v1 = 2

abbrev pub mmc_v2 : ℕ
mmc_v2 = 4

abbrev pub sd_sdhc : ℕ
sd_sdhc = 8

abbrev pub max_block_length : ℕ
max_block_length = 512

-- The calls of printf, one constructor for each format.
pub data Message : Type 0 where
  sd_option : Message
  no_power_up : Message
  card_is_sdhc : Message
  new_card : List ℕ → List ℕ → Message
  size_is : ℕ → Message
  version_1 : Message
  version_2 : Message
  failed : Message
  init_failed : Message
