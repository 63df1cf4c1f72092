-- ===== src/Drivers/Mmc/Commands/Frame.antt =====
-- A card understands the commands that the driver sends.
use pascal_scheduler.Prelude.{
  ℕ, ◌+◌, ◌-◌, ◌*◌, ◌/◌, ◌%◌, ◌^◌, ◌<◌, ◌≤◌, ◌≡◌, ◌&&◌, List, [], ◌∷◌, ◌++◌, Option, none, some,
  ◌==◌, if◌then◌else◌, arith,
}
use pascal_scheduler.Drivers.Loops.Transfer.{Sent}
use pascal_scheduler.Drivers.Spi.Port.{Port, Conducts}
use pascal_scheduler.Drivers.Mmc.Crc.Division.{remainder, coefficients, seven_zeros, mmc_crc7_lem}
use pascal_scheduler.Drivers.Mmc.Commands.{command, with_crc, mmc_send, mmc_send_cmd}

-- How a card reads six bytes: the start bits 01, the index in six bits, the argument, the checksum and an
-- end bit. The result is the index and the argument.
pub accept : List ℕ → Option (ℕ × ℕ)
accept (c ∷ a ∷ b ∷ d ∷ e ∷ f ∷ []) =
    if c / 64 == 1
      && f == remainder (coefficients (c ∷ a ∷ b ∷ d ∷ e ∷ []) ++ seven_zeros) 0 * 2 + 1
    then some (c % 64, a * 2 ^ 24 + b * 2 ^ 16 + d * 2 ^ 8 + e)
    else none
accept other = none

pub accept-with_crc :
    (cmd arg : ℕ)
    → 64 ≤ cmd
    → cmd < 128
    → arg < 2 ^ 32
    → accept (with_crc (command cmd arg)) ≡ some (cmd - 64, arg)
unfolding accept with_crc command
accept-with_crc cmd arg low high small = ground (
  arith,
  mmc_crc7_lem (cmd ∷ arg / 2 ^ 24 % 256 ∷ arg / 2 ^ 16 % 256 ∷ arg / 2 ^ 8 % 256 ∷ arg % 256 ∷ [])
      (omega (arith, high), (omega arith, (omega arith, (omega arith, (omega arith, tt))))),
)

-- mmc_send_cmd has sent a byte 0xFF and a frame that a card accepts.
pub record Understood {S : Type 0} (sent : S → List ℕ) (index arg : ℕ) (s : S) (result : Option S)
    : Type 0 where
  pub after : S
  pub frame : List ℕ
  pub returns : result ≡ some after
  pub sends : sent after ≡ sent s ++ (0xFF ∷ frame)
  pub accepted : accept frame ≡ some (index, arg)

module _ {S : Type 0} (port : Port S) (sent : S → List ℕ) (coming : S → ℕ → ℕ)
    (bus : Conducts port sent coming) where
  pub mmc_send_cmd_lem :
      (cmd arg : ℕ) (s : S)
      → Sent sent s (mmc_send_cmd port cmd arg s) (0xFF ∷ with_crc (command cmd arg))
  unfolding mmc_send_cmd mmc_send
  mmc_send_cmd_lem cmd arg s =
      bus.sends (0xFF ∷ with_crc (command cmd arg)) s (unfold with_crc command in omega arith)

  -- On a port that conducts, mmc_send_cmd with a command code and a 32-bit argument ends and sends 0xFF and
  -- a frame that a card accepts as the command's index with this argument.
  pub mmc_send_cmd-Understood :
      (cmd arg : ℕ) (s : S)
      → 64 ≤ cmd
      → cmd < 128
      → arg < 2 ^ 32
      → Understood sent (cmd - 64) arg s (mmc_send_cmd port cmd arg s)
  mmc_send_cmd-Understood cmd arg s low high small =
      let m = mmc_send_cmd_lem cmd arg s in
      record {
        after = m.after;
        frame = with_crc (command cmd arg);
        returns = m.returns;
        sends = m.sends;
        accepted = accept-with_crc cmd arg low high small;
      }
