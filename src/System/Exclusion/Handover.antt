-- ===== src/System/Exclusion/Handover.antt =====
-- A switch of tasks, and the mutex: who waits for it and who gets it.
use pascal_scheduler.Prelude.{
  ℕ, ◌≤◌, ◌≡◌, ◌≢◌, inl, inr, refl, ◌∙◌, true, false, some, arith, ap, sym, dec_lt, ℕ_discrete,
  Bool-cases,
}
use pascal_scheduler.Prelude.Word.{has_flag}
use pascal_scheduler.Scheduler.State.{
  Task, Kernel, task_ready, task_mutex_blocked, state_of, task_at,
}
use pascal_scheduler.Scheduler.Pick.{is_ready, Scan, idle, task, k_task_update_state}
use pascal_scheduler.Scheduler.Pick.Handoff.{waits, Handoff, kept, handed}
use pascal_scheduler.Scheduler.Pick.Search.{Found, first}
use pascal_scheduler.Scheduler.Ops.{dispatch}
use pascal_scheduler.Scheduler.Ops.Dispatch.{
  IsParked, IsValid, AllParked, Switched, dispatch_lem, tid_of, frame_update, Handoff-update,
  IsParked-update, state_of-update_unused,
}
use pascal_scheduler.Scheduler.Pick.Update.{Woken, Woken-update_from}
use pascal_scheduler.System.{Section, acquire}
use pascal_scheduler.System.Valid.{Parks, AllParked-Parks}

-- The mutex is taken if and only if a task is in its section, and then by that task alone.
pub record Exclusive (k : Kernel) (s : Section) : Type 0 where
  pub valid : IsValid k
  pub idle_free : waits k 0 ≡ false
  pub free : k.mutex ≡ 0 → (j : ℕ) → s j ≡ false
  pub taken : k.mutex ≡ 1 → (j : ℕ) × (s j ≡ true)
  pub alone : (i j : ℕ) → s i ≡ true → s j ≡ true → i ≡ j
  pub outside : (j : ℕ) → s j ≡ true → waits k j ≡ false

pub running-waits : {k : Kernel} → IsValid k → waits k k.current_tid ≡ false
unfolding has_flag
running-waits v = rw v.running

-- A ready task does not wait for the mutex.
waits-ready :
    (u : Kernel) (t : ℕ) → IsParked (state_of u t) → is_ready u t ≡ true → waits u t ≡ false
unfolding is_ready has_flag
waits-ready u t p r = ground arith

waits-Found :
    (l : Kernel) (t : Scan)
    → AllParked l
    → Found (k_task_update_state l) l.current_tid t
    → waits (k_task_update_state l) 0 ≡ false
    → waits (k_task_update_state l) (tid_of t) ≡ false
waits-Found l idle a f z = z
waits-Found l (task t) a (first x o r before) z =
    waits-ready (k_task_update_state l) t
      (IsParked-update l t (omega (arith, a.size, a.room, le)) (a.parked t le)) r
  where
    le : t ≤ l.registered_tasks
    le = omega (arith, o.1, (frame_update l).registered)

-- Whoever waits behind a switch, waited before its search, and the other way round.
pub waits-Switched :
    {l k' : Kernel} (j : ℕ)
    → AllParked l
    → Switched l k'
    → IsValid k'
    → waits (k_task_update_state l) 0 ≡ false
    → waits k' j ≡ waits (k_task_update_state l) j
waits-Switched {l} {k'} j a s v z = elim (ℕ_discrete j k'.current_tid) [
  | yes e ↦ rw e (running-waits v ∙ sym (rw s.chosen (waits-Found l s.target a s.found z)))
  | no ne ↦ ap (λ (t : Task). has_flag t.state task_mutex_blocked) (s.rest j ne)
]

-- Before the search the current task may have begun to wait, and nobody else.
pub waits-Parks : {k l : Kernel} (j : ℕ) → Parks k l → j ≢ k.current_tid → waits l j ≡ waits k j
waits-Parks j p ne = ap (λ (t : Task). has_flag t.state task_mutex_blocked) (p.rest j ne)

-- The update lets nobody begin to wait.
pub waits-update :
    (l : Kernel) (j : ℕ) → AllParked l → waits l j ≡ false → waits (k_task_update_state l) j ≡ false
waits-update l j a w = elim (dec_lt l.registered_tasks j) [
  | yes lt ↦ rw (state_of-update_unused l j lt, state_of) w
  | no le ↦ woken (
      unfold k_task_update_state in
      Woken-update_from l.registered_tasks 1 j l (omega (arith, a.size, a.room)))
]
  where
    woken :
        Woken (task_at l j) (task_at (k_task_update_state l) j)
        → waits (k_task_update_state l) j ≡ false
    woken (inl e) = rw (e, state_of) w
    woken (inr e) = rw (e, state_of) (unfold has_flag in refl)

pub acquire-none :
    (k k' : Kernel) (s : Section) (j : ℕ)
    → (waits k j ≡ true → waits k' j ≡ true)
    → acquire k k' s j ≡ s j
unfolding acquire
acquire-none k k' s j h = elim (Bool-cases (waits k j)) [
  | inl w ↦ rw (w, h w) (ground arith)
  | inr w ↦ rw w (ground arith)
]

acquire-one :
    (k k' : Kernel) (s : Section) (j : ℕ)
    → waits k j ≡ true
    → waits k' j ≡ false
    → acquire k k' s j ≡ true
unfolding acquire
acquire-one k k' s j w n = rw (w, n) (ground arith)

module _ {k l k' : Kernel} {s : Section} (x : Exclusive k s) (p : Parks k l) (a : AllParked l)
    (w : Switched l k') (v' : IsValid k') (zero_free : waits l 0 ≡ false)
    (own : waits l k.current_tid ≡ true → (k.mutex ≢ 0) × (s k.current_tid ≡ false)) where
  not_own : (j : ℕ) → waits k j ≡ true → j ≢ k.current_tid
  not_own j wk e = cc (running-waits x.valid)

  -- Whoever is in its section does not begin to wait.
  not_waiting : (j : ℕ) → s j ≡ true → waits l j ≡ false
  not_waiting j h = elim (ℕ_discrete j k.current_tid) [
    | no ne ↦ waits-Parks j p ne ∙ x.outside j h
    | yes e ↦ elim (Bool-cases (waits l j)) [ inr n ↦ n | inl wl ↦ cc (own (rw (← e) wl)).1 ]
  ]

  -- A switch at which nobody gets the mutex.
  Exclusive-kept :
      (k_task_update_state l).mutex ≡ l.mutex
      → ((j : ℕ) → waits l j ≡ true → state_of (k_task_update_state l) j ≡ state_of l j)
      → waits (k_task_update_state l) 0 ≡ false
      → Exclusive k' (acquire k k' s)
  Exclusive-kept e same z = record {
    valid = v';
    idle_free = waits-Switched 0 a w v' z ∙ z;
    free = λ f j. unchanged j ∙ x.free (sym mutex ∙ f) j;
    taken = λ f. let (j, h) = x.taken (sym mutex ∙ f) in (j, unchanged j ∙ h);
    alone = λ i j hi hj. x.alone i j (sym (unchanged i) ∙ hi) (sym (unchanged j) ∙ hj);
    outside = λ j h.
        waits-Switched j a w v' z ∙ waits-update l j a (not_waiting j (sym (unchanged j) ∙ h));
  }
    where
      mutex : k'.mutex ≡ k.mutex
      mutex = w.mutex ∙ e ∙ p.mutex

      keeps : (j : ℕ) → waits k j ≡ true → waits k' j ≡ true
      keeps j wk =
          let wl = waits-Parks j p (not_own j wk) ∙ wk in
          waits-Switched j a w v' z ∙ ap (λ (n : ℕ). has_flag n task_mutex_blocked) (same j wl) ∙ wl

      unchanged : (j : ℕ) → acquire k k' s j ≡ s j
      unchanged j = acquire-none k k' s j (keeps j)

  -- A switch at which the task `t` gets the mutex.
  Exclusive-handed :
      (t : ℕ)
      → 1 ≤ t
      → l.mutex ≡ 0
      → (k_task_update_state l).mutex ≡ 1
      → waits l t ≡ true
      → state_of (k_task_update_state l) t ≡ task_ready
      → ((j : ℕ) → j ≢ t → waits l j ≡ true → state_of (k_task_update_state l) j ≡ state_of l j)
      → waits (k_task_update_state l) 0 ≡ false
      → Exclusive k' (acquire k k' s)
  Exclusive-handed t t1 e e' wt ready others z = record {
    valid = v';
    idle_free = waits-Switched 0 a w v' z ∙ z;
    free = λ f. absurd (omega (arith, w.mutex));
    taken = λ f. (t, acquire-one k k' s t before after);
    alone = λ i j hi hj. only i hi ∙ sym (only j hj);
    outside = λ j h. rw (only j h) after;
  }
    where
      none_inside : (j : ℕ) → s j ≡ false
      none_inside = x.free (sym p.mutex ∙ e)

      not_self : t ≢ k.current_tid
      not_self q = (own (rw (← q) wt)).0 (sym p.mutex ∙ e)

      before : waits k t ≡ true
      before = sym (waits-Parks t p not_self) ∙ wt

      after : waits k' t ≡ false
      after = waits-Switched t a w v' z ∙ rw (ready, state_of) (unfold has_flag in refl)

      only : (j : ℕ) → acquire k k' s j ≡ true → j ≡ t
      only j h = elim (ℕ_discrete j t) [
        | yes q ↦ q
        | no ne ↦ cc (
          h,
          none_inside j,
          acquire-none k k' s j (λ wk.
              let wl = waits-Parks j p (not_own j wk) ∙ wk in
              waits-Switched j a w v' z
              ∙ ap (λ (n : ℕ). has_flag n task_mutex_blocked) (others j ne wl)
              ∙ wl),
        )
      ]

  Exclusive-Switched : Exclusive k' (acquire k k' s)
  Exclusive-Switched = given (Handoff-update a)
    where
      z : waits (k_task_update_state l) 0 ≡ false
      z = waits-update l 0 a zero_free

      given : Handoff l (k_task_update_state l) 1 l.registered_tasks → Exclusive k' (acquire k k' s)
      given (kept e same _) = Exclusive-kept e same z
      given (handed t t1 tn e e' wt ready others) = Exclusive-handed t t1 e e' wt ready others z

-- A switching operation: the current task parks, and it waits for the mutex only if that is taken.
pub dispatch-Exclusive :
    {k l : Kernel} {s : Section}
    → Exclusive k s
    → Parks k l
    → waits l 0 ≡ false
    → (waits l k.current_tid ≡ true → (k.mutex ≢ 0) × (s k.current_tid ≡ false))
    → (k' : Kernel) × (dispatch l ≡ some k') × Exclusive k' (acquire k k' s)
dispatch-Exclusive x p zero_free own =
    let a = AllParked-Parks x.valid p in
    let (k', e, v', w) = dispatch_lem a in (k', e, Exclusive-Switched x p a w v' zero_free own)
