-- ===== src/Tests/Strings.antt =====
-- Copies of a string of two characters.
use pascal_scheduler.Prelude.{
  ℕ, zero, suc, ◌+◌, ◌<◌, ◌≡◌, ◌≢◌, inr, refl, ◌==◌, if◌then◌else◌, cells, arith, [], ◌∷◌,
}
use pascal_scheduler.Libc.Strings.{strcpy, strncpy, copy_up_to, pad}
use pascal_scheduler.Libc.Strings.Copies.{padded, Copied, strncpy_lem, strcpy_lem}
use pascal_scheduler.Prelude.{store}

-- "Hi" at the address 100.
abbrev text : ℕ → ℕ
text a = if a == 100 then 72 else if a == 101 then 105 else if a == 102 then 0 else 7

hi : cells 5 (strncpy 200 100 4 text) 200 ≡ 72 ∷ 105 ∷ 0 ∷ 0 ∷ 7 ∷ []
unfolding strncpy copy_up_to pad store
hi = refl

strncpy_lem_example :
    (cells 4 (strncpy 200 100 4 text) 200 ≡ padded 4 text 100)
    × (strncpy 200 100 4 text 204 ≡ text 204)
strncpy_lem_example = strncpy_lem 200 100 4 204 text (inr (omega arith)) (inr (omega arith))

no_zero : (i : ℕ) → i < 2 → text (100 + i) ≢ 0
no_zero zero h = omega arith
no_zero (suc zero) h = omega arith
no_zero (suc (suc i)) h = absurd (omega (arith, h))

strcpy_lem_example : Copied text 200 100 2 (strcpy 10 200 100 text)
strcpy_lem_example = strcpy_lem 2 10 200 100 text (omega arith) (inr (omega arith)) no_zero refl
