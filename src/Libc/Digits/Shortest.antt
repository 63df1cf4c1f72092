-- ===== src/Libc/Digits/Shortest.antt =====
-- The string that ui2a and i2a write.
pub mod Growing
use pascal_scheduler.Prelude.{
  dec_lt, length-append, ℕ, zero, suc, ◌+◌, ◌*◌, ◌/◌, ◌%◌, ◌^◌, ◌-◌, ◌<◌, ◌≤◌, ◌≡◌, ◌⊎◌, inl, inr,
  refl, ◌∙◌, ap, sym, Bool, true, false, Option, some, List, [], ◌∷◌, ◌++◌, length, ltb, leb,
  if◌then◌else◌, arith, Bool-cases,
}
use native.Mathlib.Nat.{
  pow-le-pow_right, pow-suc, pow-succ', mul-le-mul_left, pow-zero, div-eq_of_lt, mul_comm,
  mul-le-mul_right, le-div_iff_mul-le, mul_assoc,
}
use pascal_scheduler.Libc.Digits.{grow, emit, ui2a, i2a}
use pascal_scheduler.Libc.Digits.Value.{value, AllDigits, Digits, emit_lem, pow-pos}
use pascal_scheduler.Libc.Digits.Shortest.Growing.{Grown, grow_lem}

-- What ui2a has written: the shortest string of digits below the base that denotes the number, and a
-- terminating zero byte.
pub record Written (base num : ℕ) (result : Option (List ℕ)) : Type 0 where
  pub chars : List ℕ
  pub returns : result ≡ some (chars ++ (0 ∷ []))
  pub denotes : value base chars ≡ num
  pub digits : AllDigits base chars
  pub leading : (base ^ (length chars - 1) ≤ num) ⊎ (length chars ≡ 1)
  pub written : 1 ≤ length chars

-- For a base from 2 to 16 and a 32-bit number, the loops of ui2a end, and what it writes is the shortest
-- string of digits below the base that denotes the number, and a terminating zero byte.
pub ui2a_lem :
    (num base : ℕ) → 2 ≤ base → base ≤ 16 → num < 2 ^ 32 → Written base num (ui2a num base)
unfolding ui2a
ui2a_lem num base two b h = record {
  chars = ds.chars;
  returns = rw (g.returns, ds.returns) refl;
  denotes = ds.denotes;
  digits = ds.digits;
  leading = elim g.reached [
    | inl p ↦ inl (rw (last, sym g.power) (omega (arith, (le-div_iff_mul-le pos).0 p)))
    | inr z ↦ inr (ds.size ∙ ap suc z)
  ];
  written = omega (arith, ds.size);
}
  where
    g : Grown base num (grow 33 num base 1)
    g =
        grow_lem 32 0 num base 1 two h (sym (pow-zero base)) (omega (arith, h)) (inr refl)
          (omega arith)

    begins : (0 < num / g.divisor) ⊎ (g.divisor / base ≡ 0)
    begins = elim g.reached [
      | inl p ↦ inl p
      | inr z ↦ inr (rw (g.power, z, pow-zero base) (div-eq_of_lt two))
    ]

    pos : 0 < g.divisor
    pos = rw g.power (pow-pos base g.k two)

    ds : Digits base g.k num (emit 34 0 g.divisor num base)
    ds =
        emit_lem g.k 34 0 g.divisor num base two b h g.power g.fits (omega (arith, g.small))
          (omega (arith, g.small)) (inr begins)

    last : length ds.chars - 1 ≡ g.k
    last = omega (arith, ds.size)

-- What i2a writes for a value: the string of ui2a for its absolute value, behind a '-' if it is negative.
-- In base 10 it fits the 12 bytes of cnprintf's buffer.
pub record Signed (base magnitude : ℕ) (negative : Bool) (result : Option (List ℕ)) : Type 0 where
  pub string : List ℕ
  pub returns : result ≡ some ((if negative then 45 ∷ [] else []) ++ string)
  pub shortest : Written base magnitude (some string)
  pub fits : base ≡ 10 → length ((if negative then 45 ∷ [] else []) ++ string) ≤ 12

decimal_length : (n k : ℕ) → 10 ^ k ≤ n → n < 2 ^ 32 → k ≤ 9
decimal_length n k h small = elim (dec_lt 9 k) [
  | yes more ↦ absurd (
      omega (
        arith,
        small,
        h,
        pow-le-pow_right {n = 10} (omega arith) {i = 10} {j = k} (omega (arith, more)),
      ))
  | no less ↦ omega (arith, less)
]

fits_decimal :
    (num base : ℕ) (result : Option (List ℕ)) (w : Written base num result)
    → num < 2 ^ 32
    → base ≡ 10
    → length (w.chars ++ (0 ∷ [])) ≤ 11
fits_decimal num base result w small e =
    rw (length-append w.chars (0 ∷ [])) (omega (arith, shorter e w))
  where
    shorter : base ≡ 10 → (v : Written base num result) → length v.chars ≤ 10
    shorter e v = elim v.leading [
      | inl p ↦
          omega (arith, decimal_length num (length v.chars - 1) (rw (sym e) p) small, v.written)
      | inr one ↦ omega (arith, one)
    ]

-- For an int with the given sign and absolute value, as a long long int, and a base from 2 to 16, i2a ends
-- and writes the shortest string of digits of the absolute value, behind a '-' exactly if the int is
-- negative; in base 10 all of it, the terminating zero included, fits 12 bytes.
pub i2a_lem :
    (negative : Bool) (magnitude base : ℕ)
    → 2 ≤ base
    → base ≤ 16
    → magnitude ≤ 2 ^ 31
    → Signed base magnitude negative (i2a (if negative then 2 ^ 64 - magnitude else magnitude) base)
unfolding i2a
i2a_lem true magnitude base two b h = record {
  string = w.chars ++ (0 ∷ []);
  returns = rw (below, back, w.returns) refl;
  shortest = record {
    chars = w.chars;
    returns = refl;
    denotes = w.denotes;
    digits = w.digits;
    leading = w.leading;
    written = w.written;
  };
  fits =
      λ e. omega (arith, fits_decimal magnitude base (ui2a magnitude base) w (omega (arith, h)) e);
}
  where
    w : Written base magnitude (ui2a magnitude base)
    w = ui2a_lem magnitude base two b (omega (arith, h))

    below : ltb (2 ^ 64 - magnitude) (2 ^ 63) ≡ false
    below = ground (arith, h)

    back : 2 ^ 64 - (2 ^ 64 - magnitude) ≡ magnitude
    back = omega (arith, h)
i2a_lem false magnitude base two b h = record {
  string = w.chars ++ (0 ∷ []);
  returns = rw (below, w.returns) refl;
  shortest = record {
    chars = w.chars;
    returns = refl;
    denotes = w.denotes;
    digits = w.digits;
    leading = w.leading;
    written = w.written;
  };
  fits =
      λ e. omega (arith, fits_decimal magnitude base (ui2a magnitude base) w (omega (arith, h)) e);
}
  where
    w : Written base magnitude (ui2a magnitude base)
    w = ui2a_lem magnitude base two b (omega (arith, h))

    below : ltb magnitude (2 ^ 63) ≡ true
    below = ground (arith, h)
