-- ===== src/Scheduler/Ops/Dispatch.antt =====
-- The switch to the next task: it ends, and the system is well formed behind it.
pub mod Switching
use pascal_scheduler.Prelude.{
  ℕ, ◌<◌, ◌≤◌, ◌≡◌, ◌≢◌, ◌⊎◌, inr, refl, ◌∙◌, true, false, ◌==◌, some, length, arith, ap, sym,
  dec_lt, ℕ_discrete, length-set, get_or,
}
use pascal_scheduler.Prelude.Word.{has_flag}
use pascal_scheduler.Scheduler.State.{
  Task, Kernel, max_tasks, blank_task, task_ready, task_running, task_blocked, task_mutex_blocked,
  state_of, task_at, set_state,
}
use pascal_scheduler.Scheduler.State.Table.{SameFrame, task_at-set_task_self, task_at-set_task_ne}
use pascal_scheduler.Scheduler.Pick.{
  Scan, idle, task, scan, pick, k_task_update_state, k_task_peek_next, update_from,
}
use pascal_scheduler.Scheduler.Pick.Update.{
  Woken-update_from, SameFrame-update_from, task_at-update_from_out,
}
use pascal_scheduler.Scheduler.Pick.Handoff.{WaitsAlone, Handoff, Handoff-update_from, kept, handed}
use pascal_scheduler.Scheduler.Pick.Search.{Found, scan_lem, nobody, first}
use pascal_scheduler.Scheduler.Ops.{dispatch}
pub use pascal_scheduler.Scheduler.Ops.Dispatch.Switching.{
  IsParked, IsValid, AllParked, tid_of, Switched, frame_update, IsParked-update,
}
use pascal_scheduler.Scheduler.Ops.Dispatch.Switching.{tid_of-le, switch_to, Switched-switch_to}

-- With no task registered the idle task goes on.
dispatch_alone : (k : Kernel) → k.registered_tasks ≡ 0 → dispatch k ≡ some (switch_to k idle)
unfolding dispatch k_task_peek_next switch_to pick
dispatch_alone k e =
    let none_there : (k.registered_tasks == 0) ≡ true = ground arith in rw none_there

dispatch_among :
    (k : Kernel) (s : Scan)
    → k.registered_tasks ≢ 0
    → scan k.current_tid (k_task_update_state k) ≡ some s
    → dispatch k ≡ some (switch_to (k_task_update_state k) s)
unfolding dispatch k_task_peek_next switch_to pick
dispatch_among k idle ne e =
    let some_there : (k.registered_tasks == 0) ≡ false = ground arith in rw (some_there, e)
dispatch_among k (task t) ne e =
    let some_there : (k.registered_tasks == 0) ≡ false = ground arith in rw (some_there, e)

WaitsAlone-AllParked : {k : Kernel} → AllParked k → WaitsAlone k
unfolding has_flag
WaitsAlone-AllParked {k} a j w = elim (dec_lt k.registered_tasks j) [
  | yes p ↦ ground (arith, a.unused j p)
  | no p ↦ ground (arith, a.parked j (omega arith))
]

-- Who waits for the mutex, and who gets it, when a switch begins at `k`.
pub Handoff-update :
    {k : Kernel} → AllParked k → Handoff k (k_task_update_state k) 1 k.registered_tasks
unfolding k_task_update_state
Handoff-update {k} a =
    Handoff-update_from k.registered_tasks 1 k (omega arith) (WaitsAlone-AllParked a)

mutex-Handoff : {k k' : Kernel} {i n : ℕ} → Handoff k k' i n → k.mutex ≤ 1 → k'.mutex ≤ 1
mutex-Handoff (kept e _ _) h = omega arith
mutex-Handoff (handed _ _ _ _ e _ _ _) h = omega arith

pub state_of-update_unused :
    (k : Kernel) (i : ℕ)
    → k.registered_tasks < i
    → state_of (k_task_update_state k) i ≡ state_of k i
unfolding k_task_update_state
state_of-update_unused k i h =
    ap (λ (t : Task). t.state)
      (task_at-update_from_out k.registered_tasks 1 i k (inr (omega arith)))

IsValid-Switched : {k k' : Kernel} → AllParked k → Switched k k' → IsValid k'
IsValid-Switched {k} {k'} a s = record {
  size = s.size ∙ a.size;
  room = omega (arith, a.room, s.registered);
  current = current;
  bit = omega (arith, s.mutex, mutex-Handoff (Handoff-update a) a.bit);
  unused = λ i h.
      ap (λ (t : Task). t.state) (s.rest i (omega (arith, current)))
      ∙ state_of-update_unused k i (omega arith)
      ∙ a.unused i (omega arith);
  running = s.runs;
  others = λ i h ne.
      rw (s.rest i ne, state_of) (IsParked-update k i (omega arith) (a.parked i (omega arith)));
}
  where
    current : k'.current_tid ≤ k'.registered_tasks
    current = omega (
      arith,
      tid_of-le (k_task_update_state k) k.current_tid s.target s.found,
      (frame_update k).registered,
    )

update_alone : (k : Kernel) → k.registered_tasks ≡ 0 → k_task_update_state k ≡ k
unfolding k_task_update_state update_from
update_alone k e = ap (λ n. update_from n 1 k) e

nobody_alone :
    (k : Kernel) → k.registered_tasks ≡ 0 → Found (k_task_update_state k) k.current_tid idle
nobody_alone k e = nobody (λ j o. absurd (omega (arith, o.0, o.1, (frame_update k).registered)))

-- A switch ends and leaves a valid system.
pub dispatch_lem :
    {k : Kernel} → AllParked k → (k' : Kernel) × (dispatch k ≡ some k') × IsValid k' × Switched k k'
dispatch_lem {k} a = elim (ℕ_discrete k.registered_tasks 0) [
  | yes e ↦
      let sw = Switched-switch_to k idle (omega (arith, a.size)) (nobody_alone k e) in
      (
        switch_to (k_task_update_state k) idle,
        dispatch_alone k e ∙ ap (λ u. some (switch_to u idle)) (sym (update_alone k e)),
        IsValid-Switched a sw,
        sw,
      )
  | no ne ↦
      let (s, e, f) =
        scan_lem k.current_tid (k_task_update_state k) (omega (arith, (frame_update k).registered))
          (omega (arith, (frame_update k).registered)) in
      let sw : Switched k (switch_to (k_task_update_state k) s) =
        Switched-switch_to k s
          (omega (
            arith,
            tid_of-le (k_task_update_state k) k.current_tid s f,
            (frame_update k).registered,
          ))
          f in
      (_, dispatch_among k s ne e, IsValid-Switched a sw, sw)
]
