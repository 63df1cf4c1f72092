-- ===== src/Scheduler/Pick/Handoff.antt =====
-- k_task_update_state and the mutex: to whom it hands a free mutex.
use pascal_scheduler.Prelude.{
  ℕ, zero, suc, ◌+◌, ◌<◌, ◌≤◌, ◌≡◌, ◌≢◌, ◌⊎◌, inl, inr, refl, ◌∙◌, Bool, true, false, length, arith,
  ap, sym, ℕ_discrete, Bool-cases,
}
use pascal_scheduler.Prelude.Word.{has_flag}
use pascal_scheduler.Scheduler.State.{
  Task, Kernel, task_ready, task_blocked, task_mutex_blocked, task_at, state_of,
}
use pascal_scheduler.Scheduler.State.Table.{task_at-set_task_self}
use pascal_scheduler.Scheduler.Pick.{wake, grant, update_from}
use pascal_scheduler.Scheduler.Pick.Update.{
  Woken-round, Woken-update_from, round, SameFrame-round, task_at-round_ne,
}

-- The task waits for the mutex.
abbrev pub waits : Kernel → ℕ → Bool
waits k j = has_flag (state_of k j) task_mutex_blocked

-- No task waits for the mutex and for a time at once.
abbrev pub WaitsAlone : Kernel → Type 0
WaitsAlone k = (j : ℕ) → waits k j ≡ true → has_flag (state_of k j) task_blocked ≡ false

-- What a pass over the `n` tasks from index `i` may do with the mutex and with those who wait.
pub data Handoff (k k' : Kernel) (i n : ℕ) : Type 0 where
  kept :
      k'.mutex ≡ k.mutex
      → ((j : ℕ) → waits k j ≡ true → state_of k' j ≡ state_of k j)
      → (k.mutex ≡ 0 → (j : ℕ) → i ≤ j → j < i + n → waits k j ≡ false)
      → Handoff k k' i n
  handed :
      (j : ℕ)
      → i ≤ j
      → j < i + n
      → k.mutex ≡ 0
      → k'.mutex ≡ 1
      → waits k j ≡ true
      → state_of k' j ≡ task_ready
      → ((l : ℕ) → l ≢ j → waits k l ≡ true → state_of k' l ≡ state_of k l)
      → Handoff k k' i n

state_of-round_waiter :
    (i : ℕ) (k : Kernel)
    → i < length k.tasks
    → waits k i ≡ true
    → has_flag (state_of k i) task_blocked ≡ false
    → ((k.mutex ≡ 0) × ((round i k).mutex ≡ 1) × (state_of (round i k) i ≡ task_ready))
      ⊎ ((k.mutex ≢ 0) × ((round i k).mutex ≡ k.mutex) × (state_of (round i k) i ≡ state_of k i))
unfolding round wake grant
state_of-round_waiter i k h w b =
    ground (arith, task_at-set_task_self k i (record (task_at k i) { state = task_ready }) h)

mutex-round_idle :
    (i : ℕ) (k : Kernel) → i < length k.tasks → waits k i ≡ false → (round i k).mutex ≡ k.mutex
unfolding round wake grant has_flag
mutex-round_idle i k h w =
    ground (arith, task_at-set_task_self k i (record (task_at k i) { state = task_ready }) h)

state_of-round_ne : (i j : ℕ) (k : Kernel) → i ≢ j → state_of (round i k) j ≡ state_of k j
state_of-round_ne i j k h = ap (λ (t : Task). t.state) (task_at-round_ne i j k h)

Handoff-round : (i : ℕ) (k : Kernel) → i < length k.tasks → WaitsAlone k → Handoff k (round i k) i 1
Handoff-round i k h alone = elim (Bool-cases (waits k i)) [
  | inr idle ↦
      kept (mutex-round_idle i k h idle)
        (λ j w. elim (ℕ_discrete i j) [ yes e ↦ cc | no ne ↦ state_of-round_ne i j k ne ])
        (λ e j p q. let at : j ≡ i = omega arith in rw at idle)
  | inl w ↦ elim (state_of-round_waiter i k h w (alone i w)) [
    | inl (free, taken, ready) ↦
        handed i (omega arith) (omega arith) free taken w ready
          (λ l ne wl. state_of-round_ne i l k (λ e. ne (sym e)))
    | inr (busy, same, still) ↦
        kept same
          (λ j wj. elim (ℕ_discrete i j) [ yes e ↦ cc | no ne ↦ state_of-round_ne i j k ne ])
          (λ e. absurd (busy e))
  ]
]

waits-round :
    (i j : ℕ) (k : Kernel)
    → i < length k.tasks
    → waits (round i k) j ≡ true
    → state_of (round i k) j ≡ state_of k j
unfolding has_flag
waits-round i j k h w = elim (ℕ_discrete i j) [
  | yes e ↦ ground (arith, Woken-round i k h)
  | no ne ↦ state_of-round_ne i j k ne
]

WaitsAlone-round : (i : ℕ) (k : Kernel) → i < length k.tasks → WaitsAlone k → WaitsAlone (round i k)
WaitsAlone-round i k h alone j w =
    let same = waits-round i j k h w in rw same (alone j (rw (← same) w))

waits-same :
    (k l : Kernel) (j : ℕ) {b : Bool} → state_of l j ≡ state_of k j → waits k j ≡ b → waits l j ≡ b
waits-same k l j e w = rw e w

-- Two passes in a row: the first leaves other indices alone, and a task that it has made ready
-- stays ready in the second.
Handoff-trans :
    (k l m : Kernel) (i n : ℕ)
    → ((j : ℕ) → i ≢ j → state_of l j ≡ state_of k j)
    → ((j : ℕ) → i ≤ j → j < i + 1 → state_of l j ≡ task_ready → state_of m j ≡ task_ready)
    → Handoff k l i 1
    → Handoff l m (i + 1) n
    → Handoff k m i (suc n)
Handoff-trans k l m i n apart stays (kept e same none) (kept e' same' none') =
    kept (e' ∙ e) (λ j w. same' j (waits-same k l j (same j w) w) ∙ same j w)
      (λ z j p q. elim (ℕ_discrete i j) [
        | yes at ↦ none z j p (omega arith)
        | no ne ↦ waits-same l k j (sym (apart j ne)) (none' (e ∙ z) j (omega arith) (omega arith))
      ])
Handoff-trans k l m i n apart stays (kept e same none) (handed j p q free taken w ready others) =
    handed j (omega arith) (omega arith) (sym e ∙ free) taken
      (waits-same l k j (sym (apart j (omega arith))) w) ready
      (λ x ne wx. others x ne (waits-same k l x (same x wx) wx) ∙ same x wx)
Handoff-trans k l m i n apart stays (handed j p q free taken w ready others) (kept e same none) =
    handed j p (omega arith) free (e ∙ taken) w (stays j p q ready)
      (λ x ne wx. same x (waits-same k l x (others x ne wx) wx) ∙ others x ne wx)
Handoff-trans k l m i n apart stays (handed j p q free taken w ready others)
      (handed _ _ _ z _ _ _ _) =
    absurd (omega arith)

stays-ready :
    (rounds i j : ℕ) (k : Kernel)
    → j < length k.tasks
    → state_of k j ≡ task_ready
    → state_of (update_from rounds i k) j ≡ task_ready
stays-ready rounds i j k h e = ground (arith, Woken-update_from rounds i j k h)

-- A pass hands a free mutex to one waiting task, if there is one, and a taken mutex to none.
pub Handoff-update_from :
    (rounds i : ℕ) (k : Kernel)
    → i + rounds ≤ length k.tasks
    → WaitsAlone k
    → Handoff k (update_from rounds i k) i rounds
unfolding update_from round
Handoff-update_from zero i k h alone = kept refl (λ j w. refl) (λ e j p q. absurd (omega arith))
Handoff-update_from (suc rounds) i k h alone =
    Handoff-trans k (round i k) (update_from rounds (i + 1) (round i k)) i rounds
      (λ j ne. state_of-round_ne i j k ne)
      (λ j p q r.
        stays-ready rounds (i + 1) j (round i k) (omega (arith, (SameFrame-round i k).size)) r)
      (Handoff-round i k (omega arith) alone)
      (Handoff-update_from rounds (i + 1) (round i k) (omega (arith, (SameFrame-round i k).size))
        (WaitsAlone-round i k (omega arith) alone))
