-- ===== src/Main/Interleaving.antt =====
-- The tasks together: their steps and the timer interrupts in any order.
pub mod Moves
use pascal_scheduler.Prelude.{
  ℕ, suc, ◌≤◌, ◌≡◌, ◌≢◌, refl, sym, ap, ◌∙◌, Bool, true, false, ◌||◌, ◌&&◌, not, Option, some, ◌==◌,
  if◌then◌else◌, arith, ℕ_discrete,
}
use mathlib.Core.Path.{subst}
use pascal_scheduler.Scheduler.State.{Kernel}
use pascal_scheduler.Scheduler.Pick.Handoff.{waits}
use pascal_scheduler.Scheduler.Ops.{scheduler, k_mutex_unlock}
use pascal_scheduler.Scheduler.Ops.Dispatch.{IsValid}
use pascal_scheduler.Isr.{
  svc_dispatch, svc_sleep, svc_yield, svc_mutex_lock, svc_mutex_unlock, sys_sleep, sys_yield,
  mutex_lock, mutex_unlock,
}
use pascal_scheduler.System.{systick, svc, step, Section, acquire, sections, Reach, here, next}
use pascal_scheduler.System.Exclusion.{Exclusive, mutual_exclusion, running-waits}
use pascal_scheduler.System.Exclusion.Waiting.{
  engaged, scheduler-Steady, k_task_sleep-Steady, k_task_yield-Steady, k_mutex_lock-Engages,
}
use pascal_scheduler.Main.{
  Step, set_rtc, sleep, lock, rtc_update, rtc_print, unlock, yield, Program,
}
use pascal_scheduler.Main.Brackets.{held_after, allowed, call_at, holds}
pub use pascal_scheduler.Main.Interleaving.Moves.{Interleaved, begin, interrupt, advances}
unfoldable pub use pascal_scheduler.Main.Interleaving.Moves.{perform, advance}
use pascal_scheduler.Main.Interleaving.Moves.{Moved, unlocked, perform-Moved}

next_tick :
    {k l l' : Kernel} {s : Section}
    → Reach k l s
    → scheduler l ≡ some l'
    → Reach k l' (acquire l l' s)
unfolding step sections
next_tick r e = next systick r tt e

-- The sections of a system that runs its programs.
record Follows (programs : ℕ → Program) (k l : Kernel) (count : ℕ → ℕ) : Type 0 where
  section : Section
  reach : Reach k l section
  held : (j : ℕ) → holds (programs j) (count j) ≡ engaged l section j

-- The task has locked the mutex, or been handed it, and has not unlocked it.
unfoldable pub inside : (ℕ → Program) → Kernel → (ℕ → ℕ) → ℕ → Bool
inside programs l count j = holds (programs j) (count j) && not (waits l j)

-- Every program uses the mutex in brackets.
abbrev pub AllBracketed : (ℕ → Program) → Type 0
AllBracketed programs = (j n : ℕ) → allowed (call_at (programs j) n) (holds (programs j) n) ≡ true

module _ (programs : ℕ → Program) (brackets : AllBracketed programs) {k : Kernel} (v : IsValid k)
    (free : k.mutex ≡ 0) (calm : (j : ℕ) → waits k j ≡ false) where
  held_by_step :
      {l l' : Kernel} (count : ℕ → ℕ) {s : Section}
      → ((j : ℕ) → holds (programs j) (count j) ≡ engaged l s j)
      → (m : Moved k l l' s (call_at (programs l.current_tid) (count l.current_tid))) → (j : ℕ)
      → holds (programs j) (advance l.current_tid count j) ≡ engaged l' m.after j
  unfolding advance holds
  held_by_step {l} {l'} count {s} held m j = elim (ℕ_discrete j l.current_tid) [
    | yes e ↦
        let at : (l.current_tid == l.current_tid) ≡ true = ground arith in
        rw (e, at)
          (ap (held_after (call_at (programs l.current_tid) (count l.current_tid)))
              (held l.current_tid)
            ∙ sym m.own)
    | no ne ↦
        let other : (j == l.current_tid) ≡ false = ground (arith, ne) in
        rw other (held j ∙ sym (m.rest j ne))
  ]

  follow_step :
      {l l' : Kernel} {count : ℕ → ℕ}
      → 1 ≤ l.current_tid
      → perform (call_at (programs l.current_tid) (count l.current_tid)) l ≡ some l'
      → Follows programs k l count
      → Follows programs k l' (advance l.current_tid count)
  follow_step {l} {l'} {count} c1 e f =
      let c = call_at (programs l.current_tid) (count l.current_tid) in
      let m =
        perform-Moved f.reach (mutual_exclusion v free (calm 0) f.reach) c1 c
          (ap (allowed c) (sym (f.held l.current_tid))
            ∙ brackets l.current_tid (count l.current_tid))
          e in
      record { section = m.after; reach = m.reach; held = held_by_step count f.held m }

  Follows-Interleaved :
      {l : Kernel} {count : ℕ → ℕ} → Interleaved programs k l count → Follows programs k l count
  Follows-Interleaved begin = record {
    section = λ j. false;
    reach = here;
    held = λ j. unfold holds in sym (calm j);
  }
  Follows-Interleaved (interrupt {l = l} {l' = l'} i e) =
      let f = Follows-Interleaved i in
      record {
        section = acquire l l' f.section;
        reach = next_tick f.reach e;
        held =
            λ j. f.held j ∙ sym (scheduler-Steady (mutual_exclusion v free (calm 0) f.reach) e j);
      }
  Follows-Interleaved (advances i c1 e) = follow_step c1 e (Follows-Interleaved i)

  pub Interleaved-IsValid :
      {l : Kernel} {count : ℕ → ℕ} → Interleaved programs k l count → IsValid l
  Interleaved-IsValid i = (mutual_exclusion v free (calm 0) (Follows-Interleaved i).reach).valid

  -- In whatever order the steps of such programs and the timer interrupts come, two tasks are never inside
  -- together.
  pub tasks_exclude :
      {l : Kernel} {count : ℕ → ℕ}
      → Interleaved programs k l count
      → (i j : ℕ) → inside programs l count i ≡ true
      → inside programs l count j ≡ true
      → i ≡ j
  unfolding inside
  tasks_exclude i0 i j hi hj =
      let f = Follows-Interleaved i0 in
      let x = mutual_exclusion v free (calm 0) f.reach in
      x.alone i j (ground (arith, hi, f.held i)) (ground (arith, hj, f.held j))
