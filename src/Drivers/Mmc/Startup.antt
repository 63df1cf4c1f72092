-- ===== src/Drivers/Mmc/Startup.antt =====
-- mmc_get_info, mmc_init and mmc_to_idle.
pub mod Idle
use pascal_scheduler.Prelude.{
  ℕ, zero, suc, ◌+◌, ◌*◌, ◌/◌, ◌%◌, ◌^◌, List, [], ◌∷◌, get_or, not, Option, none, some, ◌>>=◌,
  ◌==◌, if◌then◌else◌, bit_or,
}
use pascal_scheduler.Prelude.Word.{has_flag}
use pascal_scheduler.Drivers.Spi.Port.{Port}
use pascal_scheduler.Drivers.Mmc.{
  Verdict, mmc_ok, mmc_error, Info, mmc_v1, mmc_v2, sd_sdhc, Message, no_power_up, card_is_sdhc,
  new_card, size_is, version_1, version_2,
}
use pascal_scheduler.Drivers.Mmc.Commands.{
  mmc_send, mmc_send_cmd, mmc_send_acmd, mmc_cmd01, mmc_cmd08, mmc_cmd41, mmc_cmd58,
}
use pascal_scheduler.Drivers.Mmc.Replies.{mmc_read_byte, mmc_read}
use pascal_scheduler.Drivers.Mmc.Decode.{mmc_read_csd, mmc_read_cid}

-- TIMEOUT
abbrev pub timeout : ℕ
timeout = 128

-- The frame of the first command: CMD0.
abbrev pub go_idle : List ℕ
go_idle = 0x40 ∷ 0 ∷ 0 ∷ 0 ∷ 0 ∷ 0x95 ∷ []

module _ {S : Type 0} (port : Port S) where
  -- The loop of mmc_to_idle, with that many reads left before `i > TIMEOUT`.
  unfoldable pub await_idle : ℕ → S → Option (Verdict × S)
  await_idle zero s = some (mmc_error, s)
  await_idle (suc reads) s = do
    (status, s') ← mmc_read_byte port s
    let rest = await_idle reads s'
    if status == 0x01 then some (mmc_ok, s') else rest

  unfoldable pub mmc_to_idle : S → Option (Verdict × S)
  mmc_to_idle s = do s' ← mmc_send port go_idle s; await_idle (timeout + 1) s'

  module _ (print : Message → S → Option S) (fuel : ℕ) where
    -- The OCR register from the last four bytes of the answer.
    unfoldable pub ocr_of : List ℕ → ℕ
    ocr_of buf =
        bit_or (bit_or (bit_or (get_or buf 4 0) (get_or buf 3 0 * 2 ^ 8)) (get_or buf 2 0 * 2 ^ 16))
          (get_or buf 1 0 * 2 ^ 24)

    -- From the test of bit 30 on.
    unfoldable pub note_capacity : ℕ → Info → S → Option (Info × S)
    note_capacity ocr info s = if ocr / 2 ^ 30 % 2 == 0 then some (info, s) else (do
      s' ← print card_is_sdhc s
      some (record info { flags = bit_or info.flags sd_sdhc }, s'))

    unfoldable pub announce : Info → S → Verdict → Option (Verdict × Info × S)
    announce info s mmc_error = some (mmc_error, info, s)
    announce info s mmc_ok = do
      s' ← print (new_card info.cid.oid info.cid.pnm) s
      s'' ← print (size_is info.mem_size) s'
      some (mmc_ok, info, s'')

    unfoldable pub cid_after_csd : Info → S → Verdict → Option (Verdict × Info × S)
    cid_after_csd info s mmc_error = some (mmc_error, info, s)
    cid_after_csd info s mmc_ok = do
      (verdict, info', s') ← mmc_read_cid port print fuel info s
      announce info' s' verdict

    unfoldable pub mmc_get_info : Info → S → Option (Verdict × Info × S)
    mmc_get_info info s = do
      s' ← mmc_send_cmd port mmc_cmd58 0 s
      (buf, s'') ← mmc_read port fuel 5 s'
      if not (get_or buf 0 0 == 0)
          then some (mmc_error, info, s'')
          else if ocr_of buf / 2 ^ 31 % 2 == 0
          then (do s''' ← print no_power_up s''; some (mmc_error, info, s'''))
          else (do
            (info', s''') ← note_capacity (ocr_of buf) info s''
            (verdict, info'', s'''') ← mmc_read_csd port print fuel info' s'''
            cid_after_csd info'' s'''' verdict)

    -- `do { send; mmc_read_r1(buf); } while (buf[0] != 0)`, with at most that many rounds.
    unfoldable pub until_ready : (S → Option S) → ℕ → S → Option S
    until_ready send zero s = none
    until_ready send (suc rounds) s = do
      s' ← send s
      (buf, s'') ← mmc_read port fuel 1 s'
      let rest = until_ready send rounds s''
      if get_or buf 0 0 == 0 then some s'' else rest

    -- The command MMC_CMD08 has the argument MMC_VOLTAGE_27_36 | 0xAA, MMC_CMD41 has
    -- MMC_OCR_VOLTAGE_30_31 | MMC_OCR_HCS, and the flag is STATUS_ILLEGAL_CMD.
    unfoldable pub mmc_init : Info → S → Option (Verdict × Info × S)
    mmc_init info s = do
      s1 ← mmc_send port (0xFF ∷ 0xFF ∷ []) s
      s2 ← mmc_send_cmd port mmc_cmd08 0x1AA s1
      (buf, s3) ← mmc_read port fuel 5 s2
      if has_flag (get_or buf 0 0) 4
          then (do
            s4 ← print version_1 s3
            s5 ← until_ready (mmc_send_cmd port mmc_cmd01 0) fuel s4
            mmc_get_info (record info { flags = bit_or info.flags mmc_v1 }) s5)
          else (do
            s4 ← print version_2 s3
            s5 ← until_ready (mmc_send_acmd port mmc_cmd41 0x40040000) fuel s4
            mmc_get_info (record info { flags = bit_or info.flags mmc_v2 }) s5)
