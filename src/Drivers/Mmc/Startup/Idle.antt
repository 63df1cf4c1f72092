-- ===== src/Drivers/Mmc/Startup/Idle.antt =====
-- The first command ends, whatever the card answers.
use pascal_scheduler.Prelude.{
  ℕ, zero, suc, ◌+◌, ◌<◌, ◌≡◌, ◌≢◌, refl, sym, ap, ◌∙◌, false, List, ◌++◌, Option, some, ◌==◌,
  arith, ℕ_discrete,
}
use pascal_scheduler.Drivers.Spi.Port.{Port, Conducts}
use pascal_scheduler.Drivers.Mmc.{Verdict, mmc_ok, mmc_error}
use pascal_scheduler.Drivers.Mmc.Commands.{mmc_send}
use pascal_scheduler.Drivers.Mmc.Replies.Stream.{mmc_read_byte_lem}
use pascal_scheduler.Drivers.Mmc.Startup.{go_idle, await_idle, mmc_to_idle}

-- How the wait ends: at the first byte 0x01 among the next `n`, with the bytes up to this one read, or with an error
-- if there is none, with the `n` bytes read.
pub data Awaited {S : Type 0} (sent : S → List ℕ) (coming : S → ℕ → ℕ) (s : S) (n : ℕ)
    (result : Option (Verdict × S)) : Type 0 where
  idle_at :
      (i : ℕ) (s' : S)
      → i < n
      → coming s i ≡ 0x01
      → ((j : ℕ) → j < i → coming s j ≢ 0x01)
      → sent s' ≡ sent s
      → ((j : ℕ) → coming s' j ≡ coming s (suc i + j))
      → result ≡ some (mmc_ok, s')
      → Awaited sent coming s n result
  never :
      (s' : S)
      → ((j : ℕ) → j < n → coming s j ≢ 0x01)
      → sent s' ≡ sent s
      → ((j : ℕ) → coming s' j ≡ coming s (n + j))
      → result ≡ some (mmc_error, s')
      → Awaited sent coming s n result

module _ {S : Type 0} (port : Port S) (sent : S → List ℕ) (coming : S → ℕ → ℕ)
    (bus : Conducts port sent coming) where
  not_before :
      (s s' : S) (n : ℕ)
      → coming s 0 ≢ 0x01
      → ((i : ℕ) → coming s' i ≡ coming s (i + 1))
      → ((j : ℕ) → j < n → coming s' j ≢ 0x01)
      → (j : ℕ) → j < suc n
      → coming s j ≢ 0x01
  not_before s s' n first moves later zero h = first
  not_before s s' n first moves later (suc j) h =
      λ e. later j (omega (arith, h)) (moves j ∙ ap (coming s) (omega arith) ∙ e)

  await_idle-goes_on :
      (s s' : S) (n : ℕ) {result : Option (Verdict × S)}
      → coming s 0 ≢ 0x01
      → ((i : ℕ) → coming s' i ≡ coming s (i + 1))
      → sent s' ≡ sent s
      → Awaited sent coming s' n result
      → Awaited sent coming s (suc n) result
  await_idle-goes_on s s' n first moves kept (idle_at i s'' h one before kept' read e) =
      idle_at (suc i) s'' (omega (arith, h)) (ap (coming s) (omega arith) ∙ sym (moves i) ∙ one)
        (not_before s s' i first moves before) (kept' ∙ kept)
        (λ (j : ℕ). read j ∙ moves (suc i + j) ∙ ap (coming s) (omega arith)) e
  await_idle-goes_on s s' n first moves kept (never s'' before kept' read e) =
      never s'' (not_before s s' n first moves before) (kept' ∙ kept)
        (λ (j : ℕ). read j ∙ moves (n + j) ∙ ap (coming s) (omega arith)) e

  await_idle_lem : (n : ℕ) (s : S) → Awaited sent coming s n (await_idle port n s)
  unfolding await_idle
  await_idle_lem zero s =
      never s (λ (j : ℕ) h. absurd (omega (arith, h))) refl (λ (j : ℕ). ap (coming s) (omega arith))
        refl
  await_idle_lem (suc n) s =
      let first = mmc_read_byte_lem port sent coming bus s in
      elim (ℕ_discrete (coming s 0) 0x01) [
        | yes one ↦
            idle_at 0 first.after (omega arith) one (λ (j : ℕ) h. absurd (omega (arith, h)))
              first.kept (λ (j : ℕ). first.moves j ∙ ap (coming s) (omega arith))
              (rw (first.returns, one) refl)
        | no other ↦
            let on : (coming s 0 == 0x01) ≡ false = ground (arith, other) in
            rw (first.returns, on)
              (await_idle-goes_on s first.after n other first.moves first.kept
                (await_idle_lem n first.after))
      ]

  -- How mmc_to_idle ends.
  pub record ToIdle (s : S) (result : Option (Verdict × S)) : Type 0 where
    pub commanded : S
    pub commands : port.send go_idle s ≡ some commanded
    pub sends : sent commanded ≡ sent s ++ go_idle
    pub awaits : Awaited sent coming commanded 129 result

  -- mmc_to_idle ends on every bus that conducts, whatever the card sends: it sends the frame of CMD0, and reads
  -- the next bytes up to the first 0x01, which it answers with MMC_OK, or 129 bytes if none of them is 0x01, which it
  -- answers with an error.
  pub mmc_to_idle_lem : (s : S) → ToIdle s (mmc_to_idle port s)
  unfolding mmc_to_idle mmc_send
  mmc_to_idle_lem s =
      let c = bus.sends go_idle s (omega arith) in
      record {
        commanded = c.after;
        commands = c.returns;
        sends = c.sends;
        awaits = rw c.returns (await_idle_lem 129 c.after);
      }
