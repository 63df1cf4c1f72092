-- ===== src/Main/Brackets.antt =====
-- The tasks use the mutex in brackets.
use pascal_scheduler.Prelude.{
  ℕ, zero, suc, ◌<◌, ◌≡◌, refl, sym, ap, ◌∙◌, Bool, true, false, ◌&&◌, not, List, [], ◌∷◌, length,
  get_or, ltb, arith,
}
use pascal_scheduler.Prelude.Tables.{all_below, all_below-holds}
use pascal_scheduler.Main.{
  Step, lock, rtc_update, rtc_print, unlock, yield, Program, uart_task, mutex_task, next_place,
  place_after,
}

-- Does the task hold the mutex behind the call? It held it before if `b`.
unfoldable pub held_after : Step → Bool → Bool
held_after lock b = true
held_after unlock b = false
held_after other b = b

-- A task locks only what it does not hold, and unlocks only what it holds; it reads and prints the clock while it
-- holds the mutex, and yields while it does not.
unfoldable pub allowed : Step → Bool → Bool
allowed lock b = not b
allowed unlock b = b
allowed rtc_update b = b
allowed rtc_print b = b
allowed yield b = not b
allowed other b = true

-- The `n`-th call of a task, and whether it holds the mutex before it.
unfoldable pub call_at : Program → ℕ → Step
call_at t n = get_or t.calls (place_after t n) yield

unfoldable pub holds : Program → ℕ → Bool
holds t zero = false
holds t (suc n) = held_after (call_at t n) (holds t n)

same : Bool → Bool → Bool
same true b = b
same false b = not b

same-equal : (a b : Bool) → same a b ≡ true → a ≡ b
unfolding same
same-equal a b e = ground (arith, e)

-- A table that says for each place whether the task holds the mutex there.
place_ok : Program → List Bool → ℕ → Bool
place_ok t table i =
    allowed (get_or t.calls i yield) (get_or table i false)
    && (ltb (next_place t i) (length t.calls)
        && same (get_or table (next_place t i) false)
            (held_after (get_or t.calls i yield) (get_or table i false)))

-- What an entry of the table says.
record Fine (t : Program) (table : List Bool) (i : ℕ) : Type 0 where
  may : allowed (get_or t.calls i yield) (get_or table i false) ≡ true
  stays : next_place t i < length t.calls
  moves :
      get_or table (next_place t i) false
      ≡ held_after (get_or t.calls i yield) (get_or table i false)

Fine-place_ok :
    (t : Program) (table : List Bool) (i : ℕ) → place_ok t table i ≡ true → Fine t table i
unfolding place_ok
Fine-place_ok t table i e = record {
  may = ground (arith, e);
  stays = ground (arith, e);
  moves =
      same-equal (get_or table (next_place t i) false)
        (held_after (get_or t.calls i yield) (get_or table i false)) (ground (arith, e));
}

-- The table is right at the place after `n` calls.
record Fits (t : Program) (table : List Bool) (n : ℕ) : Type 0 where
  inside : place_after t n < length t.calls
  held : get_or table (place_after t n) false ≡ holds t n

module _ (t : Program) (table : List Bool) (start : get_or table 0 false ≡ false)
    (some_call : 0 < length t.calls)
    (ok : all_below (length t.calls) (place_ok t table) ≡ true) where
  place_after-Fine : (n : ℕ) → Fits t table n → Fine t table (place_after t n)
  place_after-Fine n f =
      Fine-place_ok t table (place_after t n)
        (all_below-holds (length t.calls) (place_ok t table) (place_after t n) ok f.inside)

  Fits-next_place : (n : ℕ) → Fits t table n → Fits t table (suc n)
  unfolding place_after holds call_at
  Fits-next_place n f = record {
    inside = (place_after-Fine n f).stays;
    held =
        (place_after-Fine n f).moves
        ∙ ap (held_after (get_or t.calls (place_after t n) yield)) f.held;
  }

  Fits-all : (n : ℕ) → Fits t table n
  Fits-all zero = record {
    inside = unfold place_after in some_call;
    held = unfold place_after holds in start;
  }
  Fits-all (suc n) = Fits-next_place n (Fits-all n)

  allowed-call_at : (n : ℕ) → allowed (call_at t n) (holds t n) ≡ true
  unfolding call_at
  allowed-call_at n =
      ap (allowed (get_or t.calls (place_after t n) yield)) (sym (Fits-all n).held)
      ∙ (place_after-Fine n (Fits-all n)).may

-- Both tasks use the mutex in brackets, however long they run.
pub tasks-allowed :
    (n : ℕ)
    → (allowed (call_at uart_task n) (holds uart_task n) ≡ true)
      × (allowed (call_at mutex_task n) (holds mutex_task n) ≡ true)
unfolding all_below place_ok allowed held_after same next_place
tasks-allowed n = (
  allowed-call_at uart_task (false ∷ false ∷ false ∷ true ∷ true ∷ true ∷ false ∷ []) refl
      (omega arith) refl n,
  allowed-call_at mutex_task (false ∷ true ∷ true ∷ false ∷ []) refl (omega arith) refl n,
)
