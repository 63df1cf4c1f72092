-- ===== src/Main/Interleaving/Moves.antt =====
-- The steps of the tasks together, and what one of them does to the sections.
use pascal_scheduler.Prelude.{
  ℕ, suc, ◌≤◌, ◌≡◌, ◌≢◌, refl, sym, ◌∙◌, true, false, ◌||◌, ◌&&◌, not, Option, some, ◌==◌,
  if◌then◌else◌, arith,
}
use mathlib.Core.Path.{subst}
use pascal_scheduler.Scheduler.State.{Kernel}
use pascal_scheduler.Scheduler.Ops.{scheduler, k_mutex_unlock}
use pascal_scheduler.Scheduler.Ops.Dispatch.{IsValid}
use pascal_scheduler.Isr.{
  svc_dispatch, svc_sleep, svc_yield, svc_mutex_lock, svc_mutex_unlock, sys_sleep, sys_yield,
  mutex_lock, mutex_unlock,
}
use pascal_scheduler.System.{svc, step, Section, acquire, sections, Reach, next}
use pascal_scheduler.System.Exclusion.{Exclusive, running-waits}
use pascal_scheduler.System.Exclusion.Waiting.{
  engaged, k_task_sleep-Steady, k_task_yield-Steady, k_mutex_lock-Engages,
}
use pascal_scheduler.Main.{
  Step, set_rtc, sleep, lock, rtc_update, rtc_print, unlock, yield, Program,
}
use pascal_scheduler.Main.Brackets.{held_after, allowed, call_at}

-- What a step does to the kernel. The driver of the clock and printf leave its variables alone.
unfoldable pub perform : Step → Kernel → Option Kernel
perform set_rtc k = some k
perform (sleep ms) k = sys_sleep ms k
perform lock k = mutex_lock k
perform rtc_update k = some k
perform rtc_print k = some k
perform unlock k = mutex_unlock k
perform yield k = sys_yield k

-- One more step of the task.
unfoldable pub advance : ℕ → (ℕ → ℕ) → ℕ → ℕ
advance tid count j = if j == tid then suc (count j) else count j

-- What the system of these programs reaches from `k`, with the number of steps that each task has taken: any task
-- that is the current one takes its next step, or the timer interrupts it.
pub data Interleaved (programs : ℕ → Program) (k : Kernel) : Kernel → (ℕ → ℕ) → Type 0 where
  begin : Interleaved programs k k (λ j. 0)
  interrupt :
      {l l' : Kernel} {count : ℕ → ℕ}
      → Interleaved programs k l count
      → scheduler l ≡ some l'
      → Interleaved programs k l' count
  advances :
      {l l' : Kernel} {count : ℕ → ℕ}
      → Interleaved programs k l count
      → 1 ≤ l.current_tid
      → perform (call_at (programs l.current_tid) (count l.current_tid)) l ≡ some l'
      → Interleaved programs k l' (advance l.current_tid count)

-- The sections behind an event of the current task.
pub record Moved (k l l' : Kernel) (s : Section) (c : Step) : Type 0 where
  pub after : Section
  pub reach : Reach k l' after
  pub own : engaged l' after l.current_tid ≡ held_after c (engaged l s l.current_tid)
  pub rest : (j : ℕ) → j ≢ l.current_tid → engaged l' after j ≡ engaged l s j

-- The sections without the current task.
pub unlocked : Kernel → Section → Section
unlocked l s j = not (j == l.current_tid) && s j

unlock-engaged :
    (l : Kernel) (s : Section) (j : ℕ)
    → j ≢ l.current_tid
    → engaged (k_mutex_unlock l) (unlocked l s) j ≡ engaged l s j
unfolding unlocked k_mutex_unlock
unlock-engaged l s j ne =
    let other : (j == l.current_tid) ≡ false = ground (arith, ne) in rw other refl

unlock-own :
    (l : Kernel) (s : Section)
    → IsValid l
    → engaged (k_mutex_unlock l) (unlocked l s) l.current_tid ≡ false
unfolding unlocked k_mutex_unlock
unlock-own l s v = rw (running-waits v) (ground arith)

module _ {k l l' : Kernel} {s : Section} (r : Reach k l s) (x : Exclusive l s)
    (c1 : 1 ≤ l.current_tid) where
  at_once :
      (c : Step)
      → held_after c (engaged l s l.current_tid) ≡ engaged l s l.current_tid
      → some l ≡ some l'
      → Moved k l l' s c
  at_once c e h =
      let same : l ≡ l' = cc (h) in
      record {
        after = s;
        reach = subst (λ (u : Kernel). Reach k u s) same r;
        own =
            subst (λ (u : Kernel). engaged u s l.current_tid ≡ engaged l s l.current_tid) same refl
            ∙ sym e;
        rest = λ j ne. subst (λ (u : Kernel). engaged u s j ≡ engaged l s j) same refl;
      }

  sleep-Moved : (ms : ℕ) → sys_sleep ms l ≡ some l' → Moved k l l' s (sleep ms)
  unfolding sys_sleep step svc_dispatch sections held_after
  sleep-Moved ms e = record {
    after = acquire l l' s;
    reach =
        next (svc svc_sleep ms) r
          (c1, (λ h. absurd (omega (arith, h))), (λ h. absurd (omega (arith, h)))) e;
    own = k_task_sleep-Steady ms x e l.current_tid;
    rest = λ j ne. k_task_sleep-Steady ms x e j;
  }

  yield-Moved : sys_yield l ≡ some l' → Moved k l l' s yield
  unfolding sys_yield step svc_dispatch sections held_after
  yield-Moved e = record {
    after = acquire l l' s;
    reach =
        next (svc svc_yield 0) r
          (c1, (λ h. absurd (omega (arith, h))), (λ h. absurd (omega (arith, h)))) e;
    own = k_task_yield-Steady x e l.current_tid;
    rest = λ j ne. k_task_yield-Steady x e j;
  }

  lock-Moved : engaged l s l.current_tid ≡ false → mutex_lock l ≡ some l' → Moved k l l' s lock
  unfolding mutex_lock step svc_dispatch sections held_after
  lock-Moved a e =
      let g = k_mutex_lock-Engages x c1 e in
      record {
        after = if l.mutex == 0 then (λ j. (j == l.current_tid) || s j) else acquire l l' s;
        reach =
            next (svc svc_mutex_lock 0) r
              (c1, (λ h. ground (arith, a)), (λ h. absurd (omega (arith, h)))) e;
        own = g.own;
        rest = g.rest;
      }

  unlock-Moved : engaged l s l.current_tid ≡ true → mutex_unlock l ≡ some l' → Moved k l l' s unlock
  unfolding mutex_unlock step svc_dispatch sections held_after unlocked
  unlock-Moved a e =
      let same : k_mutex_unlock l ≡ l' = cc (e) in
      record {
        after = unlocked l s;
        reach =
            next (svc svc_mutex_unlock 0) r
              (
                c1,
                (λ h. absurd (omega (arith, h))),
                (λ h. ground (arith, a, running-waits x.valid)),
              )
              e;
        own =
            subst (λ (u : Kernel). engaged u (unlocked l s) l.current_tid ≡ false) same
              (unlock-own l s x.valid);
        rest = λ j ne.
            subst (λ (u : Kernel). engaged u (unlocked l s) j ≡ engaged l s j) same
              (unlock-engaged l s j ne);
      }

  pub perform-Moved :
      (c : Step)
      → allowed c (engaged l s l.current_tid) ≡ true
      → perform c l ≡ some l'
      → Moved k l l' s c
  unfolding perform held_after allowed
  perform-Moved set_rtc a e = at_once set_rtc refl e
  perform-Moved rtc_update a e = at_once rtc_update refl e
  perform-Moved rtc_print a e = at_once rtc_print refl e
  perform-Moved (sleep ms) a e = sleep-Moved ms e
  perform-Moved yield a e = yield-Moved e
  perform-Moved lock a e = lock-Moved (ground (arith, a)) e
  perform-Moved unlock a e = unlock-Moved a e
