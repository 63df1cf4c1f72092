-- ===== src/Libc/Digits/Value.antt =====
-- The second loop of ui2a: the digits that it writes denote the number.
use pascal_scheduler.Prelude.{
  ℕ, zero, suc, ◌+◌, ◌*◌, ◌/◌, ◌%◌, ◌^◌, ◌-◌, ◌<◌, ◌≤◌, ◌≡◌, ◌≢◌, ◌⊎◌, inl, refl, ◌∙◌, ap, sym,
  true, false, not, ◌||◌, Option, some, List, [], ◌∷◌, length, ltb, ◌==◌, if◌then◌else◌, arith,
}
use pascal_scheduler.Prelude.Word.{add32, long_lt}
use native.Mathlib.Nat.{
  pow-suc, pow-zero, div-eq_of_lt, mod-le, mul_comm, mul-div_cancel, div-add-mod', mod-lt,
  div-lt_iff_lt-mul, one-le-pow,
}
use pascal_scheduler.Libc.Digits.{take_digit, digit, emit}

abbrev digit_value : ℕ → ℕ
digit_value c = if ltb c 58 then c - 48 else c - 55

-- The number that a string of digits denotes.
abbrev pub value : ℕ → List ℕ → ℕ
value base [] = 0
value base (c ∷ s) = digit_value c * base ^ length s + value base s

-- Characters from '0' to '9' and 'A' to 'F', of digits below the base.
abbrev pub AllDigits : ℕ → List ℕ → Type 0
AllDigits base [] = Unit
AllDigits base (c ∷ s) = (48 ≤ c) × (c ≤ 70) × (digit_value c < base) × AllDigits base s

-- The result is a string of `k + 1` digits that denotes `num`.
pub record Digits (base k num : ℕ) (result : Option (List ℕ)) : Type 0 where
  pub chars : List ℕ
  pub returns : result ≡ some chars
  pub size : length chars ≡ suc k
  pub denotes : value base chars ≡ num
  pub digits : AllDigits base chars

take_digit_lem :
    (num d : ℕ) → num < 2 ^ 32 → num / d < 16 → take_digit num (num / d % 2 ^ 32) d ≡ num % d
unfolding take_digit
take_digit_lem num d h small = rw whole (omega (arith, div-add-mod' num d))
  where
    whole : num / d % 2 ^ 32 ≡ num / d
    whole = omega (arith, small)

digit-value :
    (dgt : ℕ) → dgt < 16 → (digit_value (digit dgt) ≡ dgt) × (48 ≤ digit dgt) × (digit dgt ≤ 70)
unfolding digit
digit-value dgt h = (ground arith, ground arith, ground arith)

pow-div : (base k : ℕ) → 2 ≤ base → base ^ suc k / base ≡ base ^ k
pow-div base k h = rw (pow-suc base k) (mul-div_cancel (base ^ k) (omega (arith, h)))

pub pow-pos : (base k : ℕ) → 2 ≤ base → 0 < base ^ k
pow-pos base k two = one-le-pow k base (omega (arith, two))

emit_last : (fuel n d r base : ℕ) → d ≡ 0 → emit (suc fuel) n d r base ≡ some []
unfolding emit
emit_last fuel n d r base e = rw e refl

-- One round that writes its digit.
emit_one :
    (fuel n d num base : ℕ) (chars : List ℕ)
    → d ≢ 0
    → num < 2 ^ 32
    → num / d < 16
    → (n ≢ 0) ⊎ ((0 < num / d) ⊎ (d / base ≡ 0))
    → emit fuel (add32 n 1) (d / base) (num % d) base ≡ some chars
    → emit (suc fuel) n d num base ≡ some (digit (num / d) ∷ chars)
unfolding emit
emit_one fuel n d num base chars pos h small why rest =
    rw (shown, not_over, take_digit_lem num d h small, rest, whole) refl
  where
    whole : num / d % 2 ^ 32 ≡ num / d
    whole = omega (arith, small)

    shown : (not (n == 0) || long_lt 0 (num / d % 2 ^ 32) || (d / base == 0)) ≡ true
    shown = ground (arith, why, small)

    not_over : (d == 0) ≡ false
    not_over = ground (arith, pos)

one_more :
    (base k num d : ℕ) (chars : List ℕ) (result : Option (List ℕ))
    → d ≡ base ^ k
    → length chars ≡ k
    → value base chars ≡ num % d
    → AllDigits base chars
    → num / d < base
    → base ≤ 16
    → result ≡ some (digit (num / d) ∷ chars)
    → Digits base k num result
one_more base k num d chars result hd size den all small b returns = record {
  chars = digit (num / d) ∷ chars;
  returns = returns;
  size = ap suc size;
  denotes =
      rw ((digit-value (num / d) (omega (arith, small, b))).0, size, sym hd, den)
        (div-add-mod' num d);
  digits = (
    (digit-value (num / d) (omega (arith, small, b))).1,
    (digit-value (num / d) (omega (arith, small, b))).2,
    rw ((digit-value (num / d) (omega (arith, small, b))).0) small,
    all,
  );
}

-- With the divisor base ^ k and a number below base ^ (k + 1), `k + 2` rounds write k + 1 digits.
pub emit_lem :
    (k fuel n d num base : ℕ)
    → 2 ≤ base
    → base ≤ 16
    → num < 2 ^ 32
    → d ≡ base ^ k
    → num / d < base
    → k + 2 ≤ fuel
    → n + k ≤ 1000
    → (n ≢ 0) ⊎ ((0 < num / d) ⊎ (d / base ≡ 0))
    → Digits base k num (emit fuel n d num base)
emit_lem k zero n d num base two b h hd small enough bound why = absurd (omega arith)
emit_lem zero (suc zero) n d num base two b h hd small enough bound why = absurd (omega arith)
emit_lem zero (suc (suc fuel)) n d num base two b h hd small enough bound why =
    one_more base 0 num d [] (emit (suc (suc fuel)) n d num base) hd refl (rw one_d (omega arith))
      tt small b
      (emit_one (suc fuel) n d num base [] (omega (arith, one_d)) h (omega (arith, small, b)) why
        (emit_last fuel (add32 n 1) (d / base) (num % d) base (rw one_d (div-eq_of_lt two))))
  where
    one_d : d ≡ 1
    one_d = hd ∙ pow-zero base
emit_lem (suc k) (suc fuel) n d num base two b h hd small enough bound why =
    let rest =
      emit_lem k fuel (add32 n 1) (d / base) (num % d) base two b (omega (arith, mod-le num d)) less
        below (omega (arith, enough)) (omega (arith, bound)) (inl (omega (arith, bound))) in
    one_more base (suc k) num d rest.chars (emit (suc fuel) n d num base) hd rest.size rest.denotes
      rest.digits small b
      (emit_one fuel n d num base rest.chars (omega (arith, pos)) h (omega (arith, small, b)) why
        rest.returns)
  where
    less : d / base ≡ base ^ k
    less = rw hd (pow-div base k two)

    pos : 0 < d
    pos = rw hd (pow-pos base (suc k) two)

    below : num % d / (d / base) < base
    below =
        rw (less, hd)
          ((div-lt_iff_lt-mul (pow-pos base k two)).1 (
            rw (mul_comm base (base ^ k), sym (pow-suc base k))
              (mod-lt num (pow-pos base (suc k) two))))
