-- ===== src/Prelude/Memory.antt =====
-- Memory as a function from addresses; a cell holds what one store writes.
use Prim.Native.Nat.{ℕ, zero, suc, ◌+◌, ◌<◌}
use mathlib.Core.Path.{◌≡◌, refl, ap, ◌∙◌}
use native.Mathlib.Omega.{arith}
use mathlib.Core.List.{List, [], ◌∷◌}
use pascal_scheduler.Prelude.Tests.{◌==◌, if◌then◌else◌}

unfoldable pub store : ℕ → ℕ → (ℕ → ℕ) → ℕ → ℕ
store address word memory a = if a == address then word else memory a

-- The `n` cells from an address on.
abbrev pub cells : ℕ → (ℕ → ℕ) → ℕ → List ℕ
cells zero memory a = []
cells (suc n) memory a = memory a ∷ cells n memory (a + 1)

-- The stores of a list of values, one after the other.
unfoldable pub store_all : List ℕ → ℕ → (ℕ → ℕ) → ℕ → ℕ
store_all [] a memory = memory
store_all (c ∷ cs) a memory = store_all cs (a + 1) (store a c memory)

-- The same cells of a function that agrees with another one on them.
pub cells_agree :
    (f g : ℕ → ℕ) (n a b : ℕ)
    → ((i : ℕ) → i < n → g (a + i) ≡ f (b + i))
    → cells n g a ≡ cells n f b
cells_agree f g zero a b same = refl
cells_agree f g (suc n) a b same = λ j. at j ∷ cells_agree f g n (a + 1) (b + 1) later j
  where
    at : g a ≡ f b
    at = ap g (omega arith) ∙ same 0 (omega arith) ∙ ap f (omega arith)

    later : (i : ℕ) → i < n → g (a + 1 + i) ≡ f (b + 1 + i)
    later i h = ap g (omega arith) ∙ same (suc i) (omega (arith, h)) ∙ ap f (omega arith)

-- The same cells of a function that is moved.
pub cells_move :
    (f g : ℕ → ℕ) (n a b : ℕ) → ((i : ℕ) → g (a + i) ≡ f (b + i)) → cells n g a ≡ cells n f b
cells_move f g n a b same = cells_agree f g n a b (λ i h. same i)
