-- ===== src/Libc/Digits/Shortest/Growing.antt =====
-- The loop of ui2a that looks for the largest power of the base.
use pascal_scheduler.Prelude.{
  ℕ, zero, suc, ◌+◌, ◌*◌, ◌/◌, ◌%◌, ◌^◌, ◌<◌, ◌≤◌, ◌≡◌, ◌⊎◌, inl, inr, refl, sym, true, false,
  Option, some, leb, arith, Bool-cases,
}
use native.Mathlib.Nat.{
  pow-suc, pow-succ', mul-le-mul_left, div-eq_of_lt, mul_comm, mul-le-mul_right, le-div_iff_mul-le,
  mul_assoc,
}
use pascal_scheduler.Libc.Digits.{grow}
use pascal_scheduler.Libc.Digits.Value.{pow-pos}

-- The first loop has found the power of the base with which the digits begin.
pub record Grown (base num : ℕ) (result : Option ℕ) : Type 0 where
  pub k : ℕ
  pub divisor : ℕ
  pub returns : result ≡ some divisor
  pub power : divisor ≡ base ^ k
  pub fits : num / divisor < base
  pub reached : (0 < num / divisor) ⊎ (k ≡ 0)
  pub small : k ≤ 32

doubled : (num d base f : ℕ) → 2 ≤ base → num < d * 2 ^ suc f → num < d * base * 2 ^ f
doubled num d base f two h = omega (arith, h, more)
  where
    more : d * 2 ^ suc f ≤ d * base * 2 ^ f
    more =
        rw (pow-succ' 2 f, sym (mul_assoc d 2 (2 ^ f)))
          (mul-le-mul_right (2 ^ f) (mul-le-mul_left d two))

pub grow_lem :
    (fuel j num base d : ℕ)
    → 2 ≤ base
    → num < 2 ^ 32
    → d ≡ base ^ j
    → num < d * 2 ^ fuel
    → (0 < num / d) ⊎ (j ≡ 0)
    → j + fuel ≤ 32
    → Grown base num (grow (suc fuel) num base d)
unfolding grow
grow_lem zero j num base d two h hd bound reached rounds = rw stop (record {
  k = j;
  divisor = d;
  returns = refl;
  power = hd;
  fits = rw zero_left (omega (arith, two));
  reached = reached;
  small = omega (arith, rounds);
})
  where
    zero_left : num / d ≡ 0
    zero_left = div-eq_of_lt (omega (arith, bound))

    stop : leb base (num / d) ≡ false
    stop = rw zero_left (ground (arith, two))
grow_lem (suc fuel) j num base d two h hd bound reached rounds =
    elim (Bool-cases (leb base (num / d))) [
      | inr e ↦ record {
        k = j;
        divisor = d;
        returns = rw e refl;
        power = hd;
        fits = ground (arith, e);
        reached = reached;
        small = omega (arith, rounds);
      }
      | inl e ↦
          rw (e, exact e)
            (grow_lem fuel (suc j) num base (d * base) two h (rw (hd, pow-suc base j) refl)
              (doubled num d base fuel two bound) (inl (more e)) (omega (arith, rounds)))
    ]
  where
    fits_in : leb base (num / d) ≡ true → d * base ≤ num
    fits_in e =
        rw (mul_comm d base)
          ((le-div_iff_mul-le (rw hd (pow-pos base j two))).0 (ground (arith, e)))

    exact : leb base (num / d) ≡ true → d * base % 2 ^ 32 ≡ d * base
    exact e = omega (arith, fits_in e)

    more : leb base (num / d) ≡ true → 0 < num / (d * base)
    more e =
        (le-div_iff_mul-le (rw (hd, sym (pow-suc base j)) (pow-pos base (suc j) two))).1
          (omega (arith, fits_in e))
