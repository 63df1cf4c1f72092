-- ===== src/Scheduler/Pick/Search.antt =====
-- The loops of k_task_peek_next end, and find the ready task that comes first in round-robin order.
use pascal_scheduler.Prelude.{
  ℕ, zero, suc, ◌+◌, ◌-◌, ◌<◌, ◌≤◌, ◌≡◌, ◌≢◌, ◌⊎◌, inl, inr, refl, true, false, ◌==◌, Option, some,
  if◌then◌else◌, arith, ℕ_discrete, Bool-cases, ltb, ==_iff,
}
use pascal_scheduler.Scheduler.State.{Kernel}
use pascal_scheduler.Scheduler.Pick.{
  is_ready, Scan, idle, task, scan_idle, round_robin, scan_task, scan,
}

-- How many steps of the round lead from `c` to `j`, among `n` tasks.
abbrev pub distance : ℕ → ℕ → ℕ → ℕ
distance n c j = if ltb c j then j - c else j + n - c

-- A task of the table other than `c`.
abbrev pub IsOther : Kernel → ℕ → ℕ → Type 0
IsOther k c j = (1 ≤ j) × (j ≤ k.registered_tasks) × (j ≢ c)

-- What the search from `c` may answer.
pub data Found (k : Kernel) (c : ℕ) : Scan → Type 0 where
  nobody : ((j : ℕ) → IsOther k c j → is_ready k j ≡ false) → Found k c idle
  first :
      (t : ℕ)
      → IsOther k c t
      → is_ready k t ≡ true
      → ((j : ℕ)
          → IsOther k c j
          → distance k.registered_tasks c j < distance k.registered_tasks c t
          → is_ready k j ≡ false)
      → Found k c (task t)

abbrev pub Finds : Kernel → ℕ → Option Scan → Type 0
Finds k c r = (s : Scan) × (r ≡ some s) × Found k c s

scan_idle_lem :
    (fuel tid : ℕ) (k : Kernel)
    → tid ≤ k.registered_tasks
    → k.registered_tasks < fuel + tid
    → ((j : ℕ) → 1 ≤ j → j ≤ tid → is_ready k j ≡ false)
    → Finds k 0 (scan_idle fuel tid k)
unfolding scan_idle
scan_idle_lem zero tid k le enough seen = absurd (omega arith)
scan_idle_lem (suc fuel) tid k le enough seen =
    elim (Bool-cases (ltb k.registered_tasks (tid + 1))) [
      | inl last ↦ rw last (idle, refl, nobody (λ j o. seen j o.0 (ground arith)))
      | inr more ↦ elim (Bool-cases (is_ready k (tid + 1))) [
        | inl ready ↦
            rw (more, ready)
              (
                task (tid + 1),
                refl,
                first (tid + 1) (ground arith) ready (λ j o d. seen j o.0 (ground arith)),
              )
        | inr busy ↦
            rw (more, busy)
              (scan_idle_lem fuel (tid + 1) k (ground arith) (omega arith) (λ j p q.
                elim (ℕ_discrete j (tid + 1)) [
                  | yes e ↦ rw e busy
                  | no ne ↦ seen j p (omega arith)
                ]))
      ]
    ]

-- `tid` is `d` steps behind `c` in a round of `n`.
abbrev Behind : ℕ → ℕ → ℕ → ℕ → Type 0
Behind n c d tid = (tid ≡ c + d) ⊎ ((tid + n ≡ c + d) × (1 ≤ tid))

module _ (n c d tid : ℕ) (c1 : 1 ≤ c) (cn : c ≤ n) (dn : d < n) (le : tid ≤ n)
    (at : Behind n c d tid) where
  round_robin_range : (1 ≤ round_robin n tid) × (round_robin n tid ≤ n)
  unfolding round_robin
  round_robin_range = ground arith

  Behind-round_robin : Behind n c (d + 1) (round_robin n tid)
  unfolding round_robin
  Behind-round_robin = ground arith

  round_robin_back : round_robin n tid ≡ c → d + 1 ≡ n
  unfolding round_robin
  round_robin_back e = ground arith

  distance-round_robin : round_robin n tid ≢ c → distance n c (round_robin n tid) ≡ d + 1
  distance-round_robin ne = ground (arith, Behind-round_robin, round_robin_range)

  round_robin_last :
      (j : ℕ)
      → 1 ≤ j
      → j ≤ n
      → j ≢ c
      → j ≢ round_robin n tid
      → distance n c j ≤ d + 1
      → distance n c j ≤ d
  round_robin_last j p q ne nr h = ground (arith, Behind-round_robin, round_robin_range)

distance-lt : (n c j : ℕ) → 1 ≤ c → c ≤ n → j ≤ n → j ≢ c → distance n c j < n
distance-lt n c j h h' p ne = ground arith

scan_task_lem :
    (fuel d tid c : ℕ) (k : Kernel)
    → 1 ≤ c
    → c ≤ k.registered_tasks
    → d < k.registered_tasks
    → k.registered_tasks ≤ fuel + d
    → tid ≤ k.registered_tasks
    → Behind k.registered_tasks c d tid
    → ((j : ℕ) → IsOther k c j → distance k.registered_tasks c j ≤ d → is_ready k j ≡ false)
    → Finds k c (scan_task fuel c tid k)
unfolding scan_task
scan_task_lem zero d tid c k c1 cn dn enough le at seen = absurd (omega arith)
scan_task_lem (suc fuel) d tid c k c1 cn dn enough le at seen = elim (Bool-cases (next == c)) [
  | inl back ↦ rw back (
    idle,
    refl,
    nobody (λ j o. seen j o (
        omega (
          arith,
          round_robin_back n c d tid c1 cn dn le at ((==_iff next c).0 back),
          distance-lt n c j c1 cn o.1 o.2,
        ))),
  )
  | inr on ↦ elim (Bool-cases (is_ready k next)) [
    | inl ready ↦
        rw (on, ready)
          (
            task next,
            refl,
            first next (range.0, range.1, ne_of on) ready
                (λ j o l.
                  seen j o
                    (omega (arith, distance-round_robin n c d tid c1 cn dn le at (ne_of on)))),
          )
    | inr busy ↦
        rw (on, busy)
          (scan_task_lem fuel (d + 1) next c k c1 cn (more on) (omega arith) range.1
            (Behind-round_robin n c d tid c1 cn dn le at)
            (λ j o l. elim (ℕ_discrete j next) [
              | yes e ↦ rw e busy
              | no ne ↦ seen j o (round_robin_last n c d tid c1 cn dn le at j o.0 o.1 o.2 ne l)
            ]))
  ]
]
  where
    n : ℕ
    n = k.registered_tasks

    next : ℕ
    next = round_robin n tid

    range : (1 ≤ next) × (next ≤ n)
    range = round_robin_range n c d tid c1 cn dn le at

    ne_of : (next == c) ≡ false → next ≢ c
    ne_of h e = ground arith

    more : (next == c) ≡ false → d + 1 < n
    more h = omega (
      arith,
      ne_of h,
      distance-round_robin n c d tid c1 cn dn le at (ne_of h),
      distance-lt n c next c1 cn range.1 (ne_of h),
    )

-- From any task of the table the search answers.
pub scan_lem :
    (c : ℕ) (k : Kernel) → 1 ≤ k.registered_tasks → c ≤ k.registered_tasks → Finds k c (scan c k)
unfolding scan
scan_lem zero k n1 cn =
    scan_idle_lem (k.registered_tasks + 1) 0 k (omega arith) (omega arith)
      (λ j p q. absurd (omega arith))
scan_lem (suc c) k n1 cn =
    let busy : (suc c == 0) ≡ false = ground arith in
    rw busy (
      scan_task_lem (k.registered_tasks + 1) 0 (suc c) (suc c) k (omega arith) cn n1 (omega arith)
        cn (inl (omega arith)) (λ j o h. absurd (ground (arith, o.2))))
