-- ===== src/Scheduler/Pick/Update.antt =====
-- What k_task_update_state does to each task.
use pascal_scheduler.Prelude.{
  ℕ, zero, suc, ◌+◌, ◌-◌, ◌<◌, ◌≤◌, ◌≡◌, ◌≢◌, ◌⊎◌, inl, inr, refl, ◌∙◌, length, arith, ℕ_discrete,
}
use Prim.Native.Nat.add
use native.Mathlib.Nat.{add-zero, suc-add}
use pascal_scheduler.Scheduler.State.{Task, Kernel, task_ready, task_at}
use pascal_scheduler.Scheduler.State.Table.{
  task_at-set_task_self, task_at-set_task_ne, SameFrame, SameFrame-refl, SameFrame-trans,
  SameFrame-set_task,
}
use pascal_scheduler.Scheduler.Pick.{wake, grant, update_from}

SameFrame-wake : (i : ℕ) (k : Kernel) → SameFrame k (wake i k)
unfolding wake
SameFrame-wake i k =
    ground (
      arith,
      SameFrame-refl k,
      SameFrame-set_task k i (record (task_at k i) { state = task_ready }),
    )

SameFrame-grant : (i : ℕ) (k : Kernel) → SameFrame k (grant i k)
unfolding grant
SameFrame-grant i k =
    ground (
      arith,
      SameFrame-refl k,
      SameFrame-set_task k i (record (task_at k i) { state = task_ready }),
    )

task_at-wake_ne : (i j : ℕ) (k : Kernel) → i ≢ j → task_at (wake i k) j ≡ task_at k j
unfolding wake
task_at-wake_ne i j k h =
    ground (arith, task_at-set_task_ne k i j (record (task_at k i) { state = task_ready }) h)

task_at-grant_ne : (i j : ℕ) (k : Kernel) → i ≢ j → task_at (grant i k) j ≡ task_at k j
unfolding grant
task_at-grant_ne i j k h =
    ground (arith, task_at-set_task_ne k i j (record (task_at k i) { state = task_ready }) h)

-- A task comes out of either step as it was, or ready.
abbrev pub Woken : Task → Task → Type 0
Woken t u = (u ≡ t) ⊎ (u ≡ record t { state = task_ready })

Woken-wake : (i : ℕ) (k : Kernel) → i < length k.tasks → Woken (task_at k i) (task_at (wake i k) i)
unfolding wake
Woken-wake i k h =
    ground (arith, task_at-set_task_self k i (record (task_at k i) { state = task_ready }) h)

Woken-grant :
    (i : ℕ) (k : Kernel) → i < length k.tasks → Woken (task_at k i) (task_at (grant i k) i)
unfolding grant
Woken-grant i k h =
    ground (arith, task_at-set_task_self k i (record (task_at k i) { state = task_ready }) h)

-- One round of the loop.
unfoldable pub round : ℕ → Kernel → Kernel
round i k = grant i (wake i k)

pub SameFrame-round : (i : ℕ) (k : Kernel) → SameFrame k (round i k)
unfolding round
SameFrame-round i k = SameFrame-trans (SameFrame-wake i k) (SameFrame-grant i (wake i k))

pub task_at-round_ne : (i j : ℕ) (k : Kernel) → i ≢ j → task_at (round i k) j ≡ task_at k j
unfolding round
task_at-round_ne i j k h = task_at-grant_ne i j (wake i k) h ∙ task_at-wake_ne i j k h

Woken-trans : (t u v : Task) → Woken t u → Woken u v → Woken t v
Woken-trans t u v a b = ground arith

pub Woken-round :
    (i : ℕ) (k : Kernel) → i < length k.tasks → Woken (task_at k i) (task_at (round i k) i)
unfolding round
Woken-round i k h =
    Woken-trans _ _ _ (Woken-wake i k h)
      (Woken-grant i (wake i k) (omega (arith, (SameFrame-wake i k).size)))

pub SameFrame-update_from : (rounds i : ℕ) (k : Kernel) → SameFrame k (update_from rounds i k)
unfolding update_from round
SameFrame-update_from zero i k = SameFrame-refl k
SameFrame-update_from (suc rounds) i k =
    SameFrame-trans (SameFrame-round i k) (SameFrame-update_from rounds (i + 1) (round i k))

-- The rounds before and behind an index leave its task alone.
pub task_at-update_from_out :
    (rounds i j : ℕ) (k : Kernel)
    → (j < i) ⊎ (i + rounds ≤ j)
    → task_at (update_from rounds i k) j ≡ task_at k j
unfolding update_from round
task_at-update_from_out zero i j k h = refl
task_at-update_from_out (suc rounds) i j k h =
    task_at-update_from_out rounds (i + 1) j (round i k) (omega arith)
    ∙ task_at-round_ne i j k (omega arith)

pub Woken-update_from :
    (rounds i j : ℕ) (k : Kernel)
    → j < length k.tasks
    → Woken (task_at k j) (task_at (update_from rounds i k) j)
unfolding update_from round
Woken-update_from zero i j k h = inl refl
Woken-update_from (suc rounds) i j k h = elim (ℕ_discrete i j) [
  | yes e ↦
      rw (task_at-update_from_out rounds (i + 1) j (round i k) (inl (omega arith)), ← e)
        (Woken-round i k (omega arith))
  | no ne ↦
      rw (← task_at-round_ne i j k ne)
        (Woken-update_from rounds (i + 1) j (round i k) (omega (arith, (SameFrame-round i k).size)))
]

update_from-split :
    (a b i j : ℕ) (k : Kernel)
    → i + a ≡ j
    → update_from (a + b) i k ≡ update_from b j (update_from a i k)
unfolding update_from
update_from-split zero b i j k e = rw (add.zero, ← e, add-zero)
update_from-split (suc a) b i j k e =
    rw suc-add (update_from-split a b (i + 1) j (grant i (wake i k)) (omega arith))

-- The kernel as the round of index `j` finds it.
pub before_round : ℕ → ℕ → Kernel → Kernel
before_round i j k = update_from (j - i) i k

-- The round of its index decides on a task, and it finds the task as the loop did.
pub task_at-update_from :
    (rounds i j : ℕ) (k : Kernel)
    → i ≤ j
    → j < i + rounds
    → (task_at (before_round i j k) j ≡ task_at k j)
      × SameFrame k (before_round i j k)
      × (task_at (update_from rounds i k) j ≡ task_at (round j (before_round i j k)) j)
unfolding before_round update_from round
task_at-update_from rounds i j k p q = (
  task_at-update_from_out (j - i) i j k (inr (omega arith)),
  SameFrame-update_from (j - i) i k,
  rw (parts, update_from-split (j - i) (suc (rounds - suc (j - i))) i j k (omega arith))
      (rest (update_from (j - i) i k)),
)
  where
    parts : rounds ≡ (j - i) + suc (rounds - suc (j - i))
    parts = omega arith

    rest :
        (l : Kernel)
        → task_at (update_from (suc (rounds - suc (j - i))) j l) j ≡ task_at (round j l) j
    rest l =
        task_at-update_from_out (rounds - suc (j - i)) (j + 1) j (round j l) (inl (omega arith))
