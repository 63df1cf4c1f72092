-- ===== src/Libc/Digits.antt =====
-- ui2a and i2a of lib/libc/stdio/printf.c: what they write at `bf`.
pub mod Value
pub mod Shortest
use pascal_scheduler.Prelude.{
  ℕ, zero, suc, ◌+◌, ◌*◌, ◌/◌, ◌%◌, ◌^◌, ◌-◌, Bool, not, ◌||◌, Option, none, some, List, [], ◌∷◌,
  ◌++◌, ltb, leb, ◌==◌, if◌then◌else◌, ◌>>=◌,
}
use pascal_scheduler.Prelude.Word.{add32, long_lt}

-- `num -= dgt*d`, where `num` has 64 bits and the product 32.
unfoldable pub take_digit : ℕ → ℕ → ℕ → ℕ
take_digit num dgt d = (num + (2 ^ 64 - dgt * d % 2 ^ 32)) % 2 ^ 64

-- `while (num/d >= base) d*=base`, on fuel.
unfoldable pub grow : ℕ → ℕ → ℕ → ℕ → Option ℕ
grow zero num base d = none
grow (suc fuel) num base d =
    let rest = grow fuel num base (d * base % 2 ^ 32) in if leb base (num / d) then rest else some d

-- dgt+(dgt<10 ? '0' : 'A'-10), as a char.
unfoldable pub digit : ℕ → ℕ
digit dgt = (if long_lt dgt 10 then dgt + 48 else dgt + 55) % 256

-- `while (d!=0)`, on fuel: the characters that it writes.
unfoldable pub emit : ℕ → ℕ → ℕ → ℕ → ℕ → Option (List ℕ)
emit zero n d num base = none
emit (suc fuel) n d num base =
    let dgt = num / d % 2 ^ 32 in
    let d' = d / base in
    let shown = not (n == 0) || long_lt 0 dgt || (d' == 0) in
    let rest =
      emit fuel (if shown then add32 n 1 else n) d' (take_digit num (num / d % 2 ^ 32) d) base in
    if d == 0 then some [] else (do chars ← rest; some (if shown then digit dgt ∷ chars else chars))

-- 33 rounds are enough for either loop.
unfoldable pub ui2a : ℕ → ℕ → Option (List ℕ)
ui2a num base = do d ← grow 33 num base 1; chars ← emit 34 0 d num base; some (chars ++ (0 ∷ []))

-- `num` is a long long int, as a pattern.
unfoldable pub i2a : ℕ → ℕ → Option (List ℕ)
i2a num base =
    if ltb num (2 ^ 63)
    then ui2a num base
    else (do chars ← ui2a (2 ^ 64 - num) base; some (45 ∷ chars))
