-- ===== src/Libc/Strings/Copies.antt =====
-- What strcpy and strncpy leave in memory.
use pascal_scheduler.Prelude.{
  ℕ, zero, suc, ◌+◌, ◌<◌, ◌≤◌, ◌≡◌, ◌≢◌, ◌⊎◌, inl, inr, refl, sym, ap, ◌∙◌, true, false, List, [],
  ◌∷◌, cells, cells_agree, store, Option, some, ◌==◌, if◌then◌else◌, arith, Bool-cases, ==_iff,
}
use pascal_scheduler.Libc.Strings.{copy_from, strcpy, pad, copy_up_to, strncpy}

-- Copies from `ds` to `dp` do not meet.
abbrev pub Apart : ℕ → ℕ → ℕ → Type 0
Apart dp ds n = (dp + n ≤ ds) ⊎ (ds + n ≤ dp)

abbrev zeros : ℕ → List ℕ
zeros zero = []
zeros (suc n) = 0 ∷ zeros n

-- What strncpy is documented to write: the characters up to a zero, at most `n`, and zeros up to `n`.
unfoldable pub padded : ℕ → (ℕ → ℕ) → ℕ → List ℕ
padded zero memory a = []
padded (suc n) memory a =
    if memory a == 0 then zeros (suc n) else memory a ∷ padded n memory (a + 1)

padded_same :
    (n : ℕ) (f g : ℕ → ℕ) (a : ℕ)
    → ((i : ℕ) → i < n → g (a + i) ≡ f (a + i))
    → padded n g a ≡ padded n f a
unfolding padded
padded_same zero f g a same = refl
padded_same (suc n) f g a same = rw (at, padded_same n f g (a + 1) later) refl
  where
    at : g a ≡ f a
    at = ap g (omega arith) ∙ same 0 (omega arith) ∙ ap f (omega arith)

    later : (i : ℕ) → i < n → g (a + 1 + i) ≡ f (a + 1 + i)
    later i h = ap g (omega arith) ∙ same (suc i) (omega (arith, h)) ∙ ap f (omega arith)

-- A cell behind or before those that a function writes.
abbrev Outside : ℕ → ℕ → ℕ → Type 0
Outside dp n a = (a < dp) ⊎ (dp + n ≤ a)

pad_beyond : (n dp : ℕ) (memory : ℕ → ℕ) (a : ℕ) → Outside dp n a → pad n dp memory a ≡ memory a
unfolding pad store
pad_beyond zero dp memory a h = refl
pad_beyond (suc n) dp memory a h =
    pad_beyond n (dp + 1) (store dp 0 memory) a (ground (arith, h)) ∙ ground (arith, h)

cells-pad : (n dp : ℕ) (memory : ℕ → ℕ) → cells n (pad n dp memory) dp ≡ zeros n
unfolding pad
cells-pad zero dp memory = refl
cells-pad (suc n) dp memory = λ j. at j ∷ cells-pad n (dp + 1) (store dp 0 memory) j
  where
    at : pad n (dp + 1) (store dp 0 memory) dp ≡ 0
    at = pad_beyond n (dp + 1) (store dp 0 memory) dp (ground arith) ∙ unfold store in ground arith

copy_beyond :
    (n dp ds : ℕ) (memory : ℕ → ℕ) (a : ℕ) → Outside dp n a → copy_up_to n dp ds memory a ≡ memory a
unfolding copy_up_to store
copy_beyond zero dp ds memory a h = refl
copy_beyond (suc n) dp ds memory a h = elim (Bool-cases (memory ds == 0)) [
  | inl e ↦ rw e (pad_beyond (suc n) dp memory a h)
  | inr e ↦ rw e (
      copy_beyond n (dp + 1) (ds + 1) (store dp (memory ds) memory) a (ground (arith, h))
      ∙ ground (arith, h))
]

cells-copy_up_to :
    (n dp ds : ℕ) (memory : ℕ → ℕ)
    → Apart dp ds n
    → cells n (copy_up_to n dp ds memory) dp ≡ padded n memory ds
unfolding copy_up_to padded
cells-copy_up_to zero dp ds memory apart = refl
cells-copy_up_to (suc n) dp ds memory apart = elim (Bool-cases (memory ds == 0)) [
  | inl e ↦ rw e (cells-pad (suc n) dp memory)
  | inr e ↦ rw e (λ j.
      at j
      ∷ (cells-copy_up_to n (dp + 1) (ds + 1) (store dp (memory ds) memory) (ground (arith, apart))
            ∙ padded_same n memory (store dp (memory ds) memory) (ds + 1) kept)
          j)
]
  where
    at : copy_up_to n (dp + 1) (ds + 1) (store dp (memory ds) memory) dp ≡ memory ds
    at =
        copy_beyond n (dp + 1) (ds + 1) (store dp (memory ds) memory) dp (ground arith)
        ∙ unfold store in ground arith

    kept : (i : ℕ) → i < n → store dp (memory ds) memory (ds + 1 + i) ≡ memory (ds + 1 + i)
    kept i h = unfold store in ground (arith, apart, h)

-- If the two areas of `num` cells do not meet, strncpy writes what it is documented to write, and changes no
-- cell outside of its area.
pub strncpy_lem :
    (destination source num a : ℕ) (memory : ℕ → ℕ)
    → Apart destination source num
    → (a < destination) ⊎ (destination + num ≤ a)
    → (cells num (strncpy destination source num memory) destination ≡ padded num memory source)
      × (strncpy destination source num memory a ≡ memory a)
unfolding strncpy
strncpy_lem destination source num a memory apart outside = (
  cells-copy_up_to num destination source memory apart,
  copy_beyond num destination source memory a outside,
)

-- A copy of `n` characters has ended.
pub record Copied (memory : ℕ → ℕ) (dp ds n : ℕ) (result : Option (ℕ → ℕ)) : Type 0 where
  pub after : ℕ → ℕ
  pub returns : result ≡ some after
  pub fills : cells n after dp ≡ cells n memory ds
  pub outside : (a : ℕ) → (a < dp) ⊎ (dp + n ≤ a) → after a ≡ memory a

Copied-suc :
    (n dp ds : ℕ) (memory : ℕ → ℕ) (result : Option (ℕ → ℕ))
    → Apart dp ds (suc n)
    → Copied (store dp (memory ds) memory) (dp + 1) (ds + 1) n result
    → Copied memory dp ds (suc n) result
Copied-suc n dp ds memory result apart c = record {
  after = c.after;
  returns = c.returns;
  fills = λ j.
      (c.outside dp (ground arith) ∙ stored) j
      ∷ (c.fills ∙ cells_agree memory (store dp (memory ds) memory) n (ds + 1) (ds + 1) kept) j;
  outside = λ (a : ℕ) h. c.outside a (ground (arith, h)) ∙ unfold store in ground (arith, h);
}
  where
    stored : store dp (memory ds) memory dp ≡ memory ds
    stored = unfold store in ground arith

    kept : (i : ℕ) → i < n → store dp (memory ds) memory (ds + 1 + i) ≡ memory (ds + 1 + i)
    kept i h = unfold store in ground (arith, apart, h)

copy_from_lem :
    (n fuel dp ds : ℕ) (memory : ℕ → ℕ)
    → n < fuel
    → Apart dp ds (n + 1)
    → ((i : ℕ) → i < n → memory (ds + i) ≢ 0)
    → memory (ds + n) ≡ 0
    → Copied memory dp ds n (copy_from fuel dp ds memory)
unfolding copy_from
copy_from_lem n zero dp ds memory enough apart text ends = absurd (omega arith)
copy_from_lem zero (suc fuel) dp ds memory enough apart text ends =
    let stop : (memory ds == 0) ≡ true = (==_iff _ _).1 (ap memory (omega arith) ∙ ends) in
    rw stop (record { after = memory; returns = refl; fills = refl; outside = λ (a : ℕ) h. refl })
copy_from_lem (suc n) (suc fuel) dp ds memory enough apart text ends =
    let go_on : (memory ds == 0) ≡ false =
      ground (arith, text 0 (omega arith), ap memory {x = ds + 0} {y = ds} (omega arith)) in
    rw go_on (
      Copied-suc n dp ds memory (copy_from fuel (dp + 1) (ds + 1) (store dp (memory ds) memory))
        (ground (arith, apart))
        (copy_from_lem n fuel (dp + 1) (ds + 1) (store dp (memory ds) memory)
          (omega (arith, enough)) (ground (arith, apart))
          (λ i h e.
            text (suc i) (omega (arith, h))
              (ap memory (omega arith) ∙ sym (elsewhere i (omega (arith, h))) ∙ e))
          (elsewhere n (omega arith) ∙ ap memory (omega arith) ∙ ends)))
  where
    elsewhere : (i : ℕ) → i ≤ n → store dp (memory ds) memory (ds + 1 + i) ≡ memory (ds + 1 + i)
    elsewhere i h = unfold store in ground (arith, apart, h)

-- If the two areas, the zero counted, do not meet, strcpy of a string of `n` characters ends, copies the characters, and changes no
-- other cell: the zero behind them is not copied.
pub strcpy_lem :
    (n fuel destination source : ℕ) (memory : ℕ → ℕ)
    → n < fuel
    → Apart destination source (n + 1)
    → ((i : ℕ) → i < n → memory (source + i) ≢ 0)
    → memory (source + n) ≡ 0
    → Copied memory destination source n (strcpy fuel destination source memory)
unfolding strcpy
strcpy_lem n fuel destination source memory = copy_from_lem n fuel destination source memory
