-- ===== src/Prelude/Bits.antt =====
-- `|` of disjoint bit fields is their sum, and `&` with a mask of ones a remainder.
use Prim.Native.Nat.{
  ℕ, zero, suc, ◌+◌, ◌-◌, ◌*◌, ◌/◌, ◌%◌, ◌^◌, ◌≤◌, ◌<◌, min, max, bit_and, bit_or, digits,
  bit_and-bitwise, bit_or-bitwise,
}
use mathlib.Core.Path.{◌≡◌, refl, sym, ap, ◌∙◌}
use native.Mathlib.Nat.{
  pow-suc, pow-succ', mul_assoc, zero-mod, one-le-pow, mod-lt, div-add-mod, add-mul-mod_self_left,
  mod-eq_of_lt, div-div-eq-div-mul, zero-div,
}
use native.Mathlib.Omega.{arith}

abbrev or_digits : ℕ → ℕ → ℕ → ℕ
or_digits n a b = digits (λ b. b) max n a b

doubled : (q k : ℕ) → q * 2 ^ suc k ≡ q * 2 ^ k * 2
doubled q k = omega (arith, ap (λ (t : ℕ). q * t) (pow-suc 2 k))

-- `n` digits are enough for the field in the lowest `k` bits.
or_digits-sum : (n k q r b : ℕ) → r ≤ n → b ≡ q * 2 ^ k → r < 2 ^ k → or_digits n r b ≡ b + r
or_digits-sum zero k q zero b le e h = omega arith
or_digits-sum zero k q (suc r) b le e h = absurd (omega arith)
or_digits-sum (suc n) k q zero b le e h = omega arith
or_digits-sum (suc n) zero q (suc r) b le e h = absurd (omega arith)
or_digits-sum (suc n) (suc k) q (suc r) b le e h = ground (
  arith,
  doubled q k,
  pow-suc 2 k,
  or_digits-sum n k q (suc r / 2) (b / 2) (omega arith) (omega (arith, doubled q k))
      (omega (arith, pow-suc 2 k)),
)

pub bit_or_disjoint : (k q r : ℕ) → r < 2 ^ k → bit_or r (q * 2 ^ k) ≡ q * 2 ^ k + r
bit_or_disjoint k q r h =
    bit_or-bitwise r (q * 2 ^ k) ∙ or_digits-sum r k q r (q * 2 ^ k) (omega arith) refl h

-- The remainder by `2 ^ (k + 1)`, from the remainder of the half.
halved : (a k : ℕ) → a % 2 ^ suc k ≡ a / 2 % 2 ^ k * 2 + a % 2
halved a k =
    ap (λ (x : ℕ). x % 2 ^ suc k) parts
    ∙ add-mul-mod_self_left (a / 2 % 2 ^ k * 2 + a % 2) (2 ^ suc k) (a / 2 / 2 ^ k)
    ∙ mod-eq_of_lt below
  where
    twice : 2 ^ suc k * (a / 2 / 2 ^ k) ≡ 2 * (2 ^ k * (a / 2 / 2 ^ k))
    twice =
        ap (λ (t : ℕ). t * (a / 2 / 2 ^ k)) (pow-succ' 2 k) ∙ mul_assoc 2 (2 ^ k) (a / 2 / 2 ^ k)

    parts : a ≡ (a / 2 % 2 ^ k * 2 + a % 2) + 2 ^ suc k * (a / 2 / 2 ^ k)
    parts = omega (arith, twice, div-add-mod (a / 2) (2 ^ k))

    below : a / 2 % 2 ^ k * 2 + a % 2 < 2 ^ suc k
    below = omega (arith, pow-suc 2 k, mod-lt (a / 2) (one-le-pow k 2 (omega arith)))

abbrev and_digits : ℕ → ℕ → ℕ → ℕ
and_digits n a b = digits (λ b. 0) min n a b

and_digits-mod : (n k a b : ℕ) → a ≤ n → b + 1 ≡ 2 ^ k → and_digits n a b ≡ a % 2 ^ k
and_digits-mod zero k zero b le e = omega (arith, zero-mod (2 ^ k))
and_digits-mod zero k (suc a) b le e = absurd (omega arith)
and_digits-mod (suc n) k zero b le e = omega (arith, zero-mod (2 ^ k))
and_digits-mod (suc n) zero (suc a) b le e =
    ground (arith, and_digits-mod n zero (suc a / 2) 0 (omega arith) (omega arith))
and_digits-mod (suc n) (suc k) (suc a) b le e = ground (
  arith,
  pow-suc 2 k,
  halved (suc a) k,
  and_digits-mod n k (suc a / 2) (b / 2) (omega arith) (omega (arith, pow-suc 2 k)),
)

-- A mask of `k` ones is the remainder by `2 ^ k`.
pub bit_and_mask : (k a b : ℕ) → b + 1 ≡ 2 ^ k → bit_and a b ≡ a % 2 ^ k
bit_and_mask k a b e = bit_and-bitwise a b ∙ and_digits-mod a k a b (omega arith) e

-- A field of `j` ones from bit `k` on.
and_digits-field :
    (n k j a b : ℕ) → a ≤ n → b + 1 ≡ 2 ^ j → and_digits n a (b * 2 ^ k) ≡ a / 2 ^ k % 2 ^ j * 2 ^ k
and_digits-field n zero j a b le e =
    ap (and_digits n a) (omega arith)
    ∙ and_digits-mod n j a b le e
    ∙ (let whole : a / 1 ≡ a = omega arith in rw whole (omega arith))
and_digits-field zero (suc k) j zero b le e =
    rw (zero-div (2 ^ suc k), zero-mod (2 ^ j)) (omega arith)
and_digits-field zero (suc k) j (suc a) b le e = absurd (omega arith)
and_digits-field (suc n) (suc k) j zero b le e =
    rw (zero-div (2 ^ suc k), zero-mod (2 ^ j)) (omega arith)
and_digits-field (suc n) (suc k) j (suc a) b le e =
    rw (half, even, and_digits-field n k j (suc a / 2) b (omega arith) e, quotient)
      (omega (arith, doubled (suc a / 2 / 2 ^ k % 2 ^ j) k))
  where
    half : b * 2 ^ suc k / 2 ≡ b * 2 ^ k
    half = omega (arith, doubled b k)

    even : b * 2 ^ suc k % 2 ≡ 0
    even = omega (arith, doubled b k)

    quotient : suc a / 2 ^ suc k ≡ suc a / 2 / 2 ^ k
    quotient =
        ap (λ (t : ℕ). suc a / t) (pow-succ' 2 k) ∙ sym (div-div-eq-div-mul (suc a) 2 (2 ^ k))

-- A mask of `j` ones from bit `k` on gives a field, at its place.
pub bit_and_field :
    (k j a b : ℕ) → b + 1 ≡ 2 ^ j → bit_and a (b * 2 ^ k) ≡ a / 2 ^ k % 2 ^ j * 2 ^ k
bit_and_field k j a b e = bit_and-bitwise a (b * 2 ^ k) ∙ and_digits-field a k j a b (omega arith) e

-- A power of two as a product.
pub pow_split : (s k : ℕ) → s ≤ k → 2 ^ s * 2 ^ (k - s) ≡ 2 ^ k
pow_split zero k h = let all : k - 0 ≡ k = omega arith in rw all (omega arith)
pow_split (suc s) zero h = absurd (omega arith)
pow_split (suc s) (suc k) h =
    ap (λ (t : ℕ). t * 2 ^ (suc k - suc s)) (pow-succ' 2 s)
    ∙ mul_assoc 2 (2 ^ s) (2 ^ (suc k - suc s))
    ∙ ap (λ (e : ℕ). 2 * (2 ^ s * 2 ^ e)) (omega arith)
    ∙ ap (λ (t : ℕ). 2 * t) (pow_split s k (omega (arith, h)))
    ∙ sym (pow-succ' 2 k)
