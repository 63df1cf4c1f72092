-- ===== src/Drivers/Mmc/Fields/Register.antt =====
-- UNSTUFF_BITS is a bit field of the 128-bit number.
use pascal_scheduler.Prelude.{
  true, false, ℕ_discrete, ℕ, ◌+◌, ◌-◌, ◌*◌, ◌/◌, ◌%◌, ◌^◌, ◌<◌, ◌≤◌, ◌≡◌, ◌≢◌, ◌⊎◌, inl, inr, refl,
  sym, ap, ◌∙◌, List, [], ◌∷◌, get_or, ltb, bit_or, arith, Bool-cases, length,
}
use pascal_scheduler.Prelude.Bits.{bit_or_disjoint, bit_and_mask, pow_split}
use native.Mathlib.Nat.{
  mul_assoc, mul_comm, mul-add-div_right, mul-add-mod_self_right, div-add-mod', one-le-pow,
  pow-le-pow_right, mod-lt, div-lt_iff_lt-mul, mul-lt-mul_of_pos_right, add-mul, div-div-eq-div-mul,
}
use pascal_scheduler.Drivers.Mmc.Fields.{mask, shifted, unstuff_bits}

-- The number in the words, the highest first.
abbrev pub number : List ℕ → ℕ
number [] = 0
number (w ∷ ws) = w * 2 ^ (32 * length ws) + number ws

mask_lem : (size : ℕ) → size ≤ 32 → mask size + 1 ≡ 2 ^ size
unfolding mask
mask_lem size h = elim (Bool-cases (ltb size 32)) [
  | inl e ↦ rw e (
      omega (
        arith,
        one-le-pow size 2 (omega arith),
        pow-le-pow_right {n = 2} (omega arith) {i = size} {j = 31} (ground (arith, e)),
      ))
  | inr e ↦ let whole : size ≡ 32 = ground (arith, e, h) in rw whole refl
]

module _ (hi lo s : ℕ) (in_word : s < 32) (word : lo < 2 ^ 32) where
  pos : (k : ℕ) → 0 < 2 ^ k
  pos k = one-le-pow k 2 (omega arith)

  halves : hi * 2 ^ 32 ≡ hi * 2 ^ (32 - s) * 2 ^ s
  halves =
      ap (λ (t : ℕ). hi * t)
        (sym (pow_split s 32 (omega (arith, in_word))) ∙ mul_comm (2 ^ s) (2 ^ (32 - s)))
      ∙ sym (mul_assoc hi (2 ^ (32 - s)) (2 ^ s))

  -- A shift of the two words together.
  both_shifted : (hi * 2 ^ 32 + lo) / 2 ^ s ≡ hi * 2 ^ (32 - s) + lo / 2 ^ s
  both_shifted =
      ap (λ (t : ℕ). (t + lo) / 2 ^ s) halves ∙ mul-add-div_right (pos s) (hi * 2 ^ (32 - s)) lo

  -- What the second word gives.
  rest_of_high : hi * 2 ^ (32 - s) ≡ hi / 2 ^ s * 2 ^ 32 + hi % 2 ^ s * 2 ^ (32 - s)
  rest_of_high =
      ap (λ (t : ℕ). t * 2 ^ (32 - s)) (sym (div-add-mod' hi (2 ^ s)))
      ∙ add-mul (hi / 2 ^ s * 2 ^ s) (hi % 2 ^ s) (2 ^ (32 - s))
      ∙ ap (λ (t : ℕ). t + hi % 2 ^ s * 2 ^ (32 - s))
          (mul_assoc (hi / 2 ^ s) (2 ^ s) (2 ^ (32 - s))
            ∙ ap (λ (t : ℕ). hi / 2 ^ s * t) (pow_split s 32 (omega (arith, in_word))))

  -- The lower word shifted down.
  low_fits : lo / 2 ^ s < 2 ^ (32 - s)
  low_fits =
      (div-lt_iff_lt-mul (pos s)).1
        (rw (mul_comm (2 ^ (32 - s)) (2 ^ s), pow_split s 32 (omega (arith, in_word))) word)

  high_fits : hi % 2 ^ s * 2 ^ (32 - s) < 2 ^ 32
  high_fits =
      rw (sym (pow_split s 32 (omega (arith, in_word))))
        (mul-lt-mul_of_pos_right (mod-lt hi (pos s)) (pos (32 - s)))

  -- A field that lies in the lower word.
  field_low :
      (size : ℕ) → s + size ≤ 32 → (hi * 2 ^ 32 + lo) / 2 ^ s % 2 ^ size ≡ lo / 2 ^ s % 2 ^ size
  field_low size h =
      ap (λ (t : ℕ). t % 2 ^ size) (both_shifted ∙ ap (λ (t : ℕ). t + lo / 2 ^ s) whole)
      ∙ mul-add-mod_self_right (hi * 2 ^ (32 - s - size)) (2 ^ size) (lo / 2 ^ s)
    where
      whole : hi * 2 ^ (32 - s) ≡ hi * 2 ^ (32 - s - size) * 2 ^ size
      whole =
          ap (λ (t : ℕ). hi * t)
            (sym (pow_split size (32 - s) (omega (arith, h)))
              ∙ mul_comm (2 ^ size) (2 ^ (32 - s - size)))
          ∙ sym (mul_assoc hi (2 ^ (32 - s - size)) (2 ^ size))

  -- A field that goes on in the higher word.
  field_both :
      (size : ℕ)
      → size ≤ 32
      → bit_or (lo / 2 ^ s) (hi * 2 ^ (32 - s) % 2 ^ 32) % 2 ^ size
        ≡ (hi * 2 ^ 32 + lo) / 2 ^ s % 2 ^ size
  field_both size h =
      ap (λ (t : ℕ). bit_or (lo / 2 ^ s) t % 2 ^ size) cut
      ∙ ap (λ (t : ℕ). t % 2 ^ size) (bit_or_disjoint (32 - s) (hi % 2 ^ s) (lo / 2 ^ s) low_fits)
      ∙ sym (
          ap (λ (t : ℕ). t % 2 ^ size)
            (both_shifted ∙ ap (λ (t : ℕ). t + lo / 2 ^ s) rest_of_high ∙ regroup)
          ∙ mul-add-mod_self_right (hi / 2 ^ s * 2 ^ (32 - size)) (2 ^ size)
              (hi % 2 ^ s * 2 ^ (32 - s) + lo / 2 ^ s))
    where
      cut : hi * 2 ^ (32 - s) % 2 ^ 32 ≡ hi % 2 ^ s * 2 ^ (32 - s)
      cut = ap (λ (t : ℕ). t % 2 ^ 32) rest_of_high ∙ omega (arith, high_fits)

      upper : hi / 2 ^ s * 2 ^ 32 ≡ hi / 2 ^ s * 2 ^ (32 - size) * 2 ^ size
      upper =
          ap (λ (t : ℕ). hi / 2 ^ s * t)
            (sym (pow_split size 32 h) ∙ mul_comm (2 ^ size) (2 ^ (32 - size)))
          ∙ sym (mul_assoc (hi / 2 ^ s) (2 ^ (32 - size)) (2 ^ size))

      regroup :
          hi / 2 ^ s * 2 ^ 32 + hi % 2 ^ s * 2 ^ (32 - s) + lo / 2 ^ s
          ≡ hi / 2 ^ s * 2 ^ (32 - size) * 2 ^ size + (hi % 2 ^ s * 2 ^ (32 - s) + lo / 2 ^ s)
      regroup = omega (arith, upper)

-- Only the lowest word of the higher part counts.
one_word : (g c q : ℕ) → (g * 2 ^ 32 + c) * q % 2 ^ 32 ≡ c * q % 2 ^ 32
one_word g c q =
    ap (λ (t : ℕ). t % 2 ^ 32) (add-mul (g * 2 ^ 32) c q ∙ ap (λ (t : ℕ). t + c * q) turned)
    ∙ mul-add-mod_self_right (g * q) (2 ^ 32) (c * q)
  where
    turned : g * 2 ^ 32 * q ≡ g * q * 2 ^ 32
    turned =
        mul_assoc g (2 ^ 32) q
        ∙ ap (λ (t : ℕ). g * t) (mul_comm (2 ^ 32) q)
        ∙ sym (mul_assoc g q (2 ^ 32))

module _ (resp : List ℕ) (start size g c lo : ℕ) (n : ℕ) where
  -- The field, from the two words that the code reads and the number shifted down to the lower of them.
  unstuff_word :
      get_or resp (3 - start / 32) 0 ≡ lo
      → (get_or resp (3 - start / 32 - 1) 0 ≡ c) ⊎ (start % 32 + size ≤ 32)
      → lo < 2 ^ 32
      → size ≤ 32
      → n / 2 ^ (32 * (start / 32)) ≡ (g * 2 ^ 32 + c) * 2 ^ 32 + lo
      → unstuff_bits resp start size ≡ n / 2 ^ start % 2 ^ size
  unfolding unstuff_bits shifted
  unstuff_word at_lo at_c word small aligned =
      bit_and_mask size (shifted resp start size) (mask size) (mask_lem size small)
      ∙ split (Bool-cases (ltb 32 (size + start % 32)))
      ∙ ap (λ (t : ℕ). t % 2 ^ size) (sym whole)
    where
      s : ℕ
      s = start % 32

      whole : n / 2 ^ start ≡ ((g * 2 ^ 32 + c) * 2 ^ 32 + lo) / 2 ^ s
      whole =
          ap (λ (t : ℕ). n / t) (sym (pow_split (32 * (start / 32)) start (omega arith)))
          ∙ sym (div-div-eq-div-mul n (2 ^ (32 * (start / 32))) (2 ^ (start - 32 * (start / 32))))
          ∙ ap (λ (t : ℕ). t / 2 ^ (start - 32 * (start / 32))) aligned
          ∙ ap (λ (e : ℕ). ((g * 2 ^ 32 + c) * 2 ^ 32 + lo) / 2 ^ e) (omega arith)

      two_words : ltb 32 (size + s) ≡ true → get_or resp (3 - start / 32 - 1) 0 ≡ c
      two_words e = elim at_c [ inl same ↦ same | inr one ↦ absurd (ground (arith, e, one)) ]

      inner : ltb 32 (size + s) ≡ true → (32 - s) % 32 ≡ 32 - s
      inner e = ground (arith, e, small)

      split :
          ((ltb 32 (size + s) ≡ true) ⊎ (ltb 32 (size + s) ≡ false))
          → shifted resp start size % 2 ^ size ≡ ((g * 2 ^ 32 + c) * 2 ^ 32 + lo) / 2 ^ s % 2 ^ size
      split (inl e) =
          rw (e, at_lo, two_words e, inner e)
            (ap (λ (t : ℕ). bit_or (lo / 2 ^ s) t % 2 ^ size) (sym (one_word g c (2 ^ (32 - s))))
              ∙ field_both (g * 2 ^ 32 + c) lo s (omega arith) word size small)
      split (inr e) =
          rw (e, at_lo)
            (sym (field_low (g * 2 ^ 32 + c) lo s (omega arith) word size (ground (arith, e))))

-- For four 32-bit words and a field of at most 32 bits inside the 128, UNSTUFF_BITS gives the bits from
-- `start` on of the 128-bit number in the words.
pub unstuff_bits_lem :
    (a b c d start size : ℕ)
    → (a < 2 ^ 32) × (b < 2 ^ 32) × (c < 2 ^ 32) × (d < 2 ^ 32)
    → start + size ≤ 128
    → size ≤ 32
    → 0 < size
    → unstuff_bits (a ∷ b ∷ c ∷ d ∷ []) start size
      ≡ number (a ∷ b ∷ c ∷ d ∷ []) / 2 ^ start % 2 ^ size
unstuff_bits_lem a b c d start size words inside small some_bits =
    elim (ℕ_discrete (start / 32) 0) [
      | yes e ↦
          unstuff_word resp start size (a * 2 ^ 32 + b) c d n (rw e refl) (inl (rw e refl)) words.3
            small (rw e (omega arith))
      | no n0 ↦ elim (ℕ_discrete (start / 32) 1) [
        | yes e ↦
            unstuff_word resp start size a b c n (rw e refl) (inl (rw e refl)) words.2 small
              (rw e (omega (arith, words)))
        | no n1 ↦ elim (ℕ_discrete (start / 32) 2) [
          | yes e ↦
              unstuff_word resp start size 0 a b n (rw e refl) (inl (rw e refl)) words.1 small
                (rw e (omega (arith, words)))
          | no n2 ↦
              unstuff_word resp start size 0 0 a n (rw (last n0 n1 n2) refl)
                (inr (omega (arith, inside, last n0 n1 n2))) words.0 small
                (rw (last n0 n1 n2) (omega (arith, words)))
        ]
      ]
    ]
  where
    resp : List ℕ
    resp = a ∷ b ∷ c ∷ d ∷ []

    n : ℕ
    n = number (a ∷ b ∷ c ∷ d ∷ [])

    last : start / 32 ≢ 0 → start / 32 ≢ 1 → start / 32 ≢ 2 → start / 32 ≡ 3
    last n0 n1 n2 = omega (arith, n0, n1, n2, inside, some_bits)
