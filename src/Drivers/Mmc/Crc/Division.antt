-- ===== src/Drivers/Mmc/Crc/Division.antt =====
-- mmc_crc7 is the remainder of a division of polynomials.
use pascal_scheduler.Prelude.{
  ℕ, zero, suc, ◌+◌, ◌*◌, ◌/◌, ◌%◌, ◌<◌, ◌≡◌, refl, sym, ◌∙◌, Bool, true, ◌&&◌, not, ◌==◌, ltb, leb,
  List, [], ◌∷◌, ◌++◌, if◌then◌else◌, bit_and, bit_or, bit_xor, arith,
}
use pascal_scheduler.Prelude.Word.{has_flag}
use pascal_scheduler.Prelude.Bits.{bit_and_mask}
use pascal_scheduler.Prelude.Tables.{all_below, all_below-holds}
use pascal_scheduler.Drivers.Mmc.Crc.{crc_bit, crc_bits, crc_bytes, mmc_crc7}

top_ok : ℕ → ℕ → Bool
top_ok c x = if has_flag (bit_xor c x) 0x80 then not (c / 128 == x / 128) else c / 128 == x / 128

top_table : all_below 256 (λ c. all_below 256 (top_ok c)) ≡ true
unfolding all_below top_ok has_flag
top_table = refl

-- Schoolbook division by x ^ 7 + x ^ 3 + 1: the next coefficient comes down, and the divisor is subtracted
-- if the degree is 7.
divide_step : ℕ → ℕ → ℕ
divide_step t b = let u = t * 2 + b in if leb 128 u then bit_xor u 0x89 else u

-- The remainder of the polynomial with these coefficients behind the remainder `t`.
pub remainder : List ℕ → ℕ → ℕ
remainder [] t = t
remainder (b ∷ bs) t = remainder bs (divide_step t b)

abbrev pub seven_zeros : List ℕ
seven_zeros = 0 ∷ 0 ∷ 0 ∷ 0 ∷ 0 ∷ 0 ∷ 0 ∷ []

-- The coefficients of the bytes, the highest bit first.
abbrev pub coefficients : List ℕ → List ℕ
coefficients [] = []
coefficients (c ∷ cs) =
    c / 128
    ∷ c / 64 % 2
    ∷ c / 32 % 2
    ∷ c / 16 % 2
    ∷ c / 8 % 2
    ∷ c / 4 % 2
    ∷ c / 2 % 2
    ∷ c % 2
    ∷ coefficients cs

flush : ℕ → ℕ
unfolding remainder divide_step
flush t = remainder seven_zeros t

flush_lem : (t : ℕ) → remainder seven_zeros t ≡ flush t
unfolding flush
flush_lem t = refl

-- The register of the code, below its highest bit, is the remainder of what has been read times x ^ 7.
step_ok : ℕ → ℕ → ℕ → Bool
step_ok b j t =
    crc_bit (flush t + j * 128) (b * 128) % 128 == flush (divide_step t b)
    && ltb (crc_bit (flush t + j * 128) (b * 128)) 256
    && ltb (divide_step t b) 128

step_table : all_below 2 (λ b. all_below 2 (λ j. all_below 128 (step_ok b j))) ≡ true
unfolding all_below step_ok flush divide_step crc_bit has_flag
step_table = refl

step_holds : (b j t : ℕ) → b < 2 → j < 2 → t < 128 → step_ok b j t ≡ true
step_holds b j t hb hj ht =
    all_below-holds 128 (step_ok b j) t
      (all_below-holds 2 (λ j. all_below 128 (step_ok b j)) j
        (all_below-holds 2 (λ b. all_below 2 (λ j. all_below 128 (step_ok b j))) b step_table hb)
        hj)
      ht

top_holds : (c x : ℕ) → c < 256 → x < 256 → top_ok c x ≡ true
top_holds c x hc hx =
    all_below-holds 256 (top_ok c) x
      (all_below-holds 256 (λ c. all_below 256 (top_ok c)) c top_table hc) hx

-- A round looks only at the highest bit of the byte.
only_top : (crc c : ℕ) → c < 256 → crc_bit crc c ≡ crc_bit crc (c / 128 * 128)
unfolding crc_bit top_ok
only_top crc c h = ground (
  arith,
  top_holds c (crc * 2 % 256) h (omega arith),
  top_holds (c / 128 * 128) (crc * 2 % 256) (omega (arith, h)) (omega arith),
)

-- The register and the remainder belong together.
record Agree (crc t : ℕ) : Type 0 where
  byte : crc < 256
  small : t < 128
  same : crc % 128 ≡ flush t

Agree-crc_bit :
    (crc t c : ℕ) → Agree crc t → c < 256 → Agree (crc_bit crc c) (divide_step t (c / 128))
unfolding step_ok
Agree-crc_bit crc t c a h =
    rw (only_top crc c h, split)
      (record {
        byte = ground (arith, holds);
        small = ground (arith, holds);
        same = ground (arith, holds);
      })
  where
    split : crc ≡ flush t + crc / 128 * 128
    split = omega (arith, a.same)

    holds : step_ok (c / 128) (crc / 128) t ≡ true
    holds = step_holds (c / 128) (crc / 128) t (omega (arith, h)) (omega (arith, a.byte)) a.small

-- The bits in the order in which the code shifts them out.
top_bits : ℕ → ℕ → List ℕ
top_bits zero c = []
top_bits (suc n) c = c / 128 ∷ top_bits n (c * 2 % 256)

Agree-crc_bits :
    (n crc t c : ℕ) → Agree crc t → c < 256 → Agree (crc_bits n crc c) (remainder (top_bits n c) t)
unfolding crc_bits remainder top_bits
Agree-crc_bits zero crc t c a h = a
Agree-crc_bits (suc n) crc t c a h =
    Agree-crc_bits n (crc_bit crc c) (divide_step t (c / 128)) (c * 2 % 256)
      (Agree-crc_bit crc t c a h) (omega arith)

top_bits-coefficients : (c : ℕ) → c < 256 → top_bits 8 c ≡ coefficients (c ∷ [])
unfolding top_bits
top_bits-coefficients c h = ground arith

remainder-append : (xs ys : List ℕ) (t : ℕ) → remainder (xs ++ ys) t ≡ remainder ys (remainder xs t)
unfolding remainder
remainder-append [] ys t = refl
remainder-append (x ∷ xs) ys t = remainder-append xs ys (divide_step t x)

-- Every element is a byte.
abbrev pub AllBytes : List ℕ → Type 0
AllBytes [] = Unit
AllBytes (c ∷ cs) = (c < 256) × AllBytes cs

Agree-masked : (crc t : ℕ) → Agree crc t → Agree (bit_and crc 0x7F) t
Agree-masked crc t a =
    rw (bit_and_mask 7 crc 127 refl)
      (record { byte = omega arith; small = a.small; same = omega (arith, a.same) })

Agree-crc_bytes :
    (cs : List ℕ) (crc t : ℕ)
    → AllBytes cs
    → crc < 128
    → Agree crc t
    → Agree (crc_bytes cs crc) (remainder (coefficients cs) t) × (crc_bytes cs crc < 128)
unfolding crc_bytes
Agree-crc_bytes [] crc t bytes small a = (unfold remainder in a, small)
Agree-crc_bytes (c ∷ cs) crc t bytes small a =
    rw (remainder-append (coefficients (c ∷ [])) (coefficients cs) t) (
      Agree-crc_bytes cs (bit_and (crc_bits 8 crc c) 0x7F) (remainder (coefficients (c ∷ [])) t)
        bytes.1 (rw (bit_and_mask 7 (crc_bits 8 crc c) 127 refl) (omega arith))
        (Agree-masked (crc_bits 8 crc c) (remainder (coefficients (c ∷ [])) t)
          (rw (sym (top_bits-coefficients c bytes.0)) (Agree-crc_bits 8 crc t c a bytes.0))))

end_ok : ℕ → Bool
end_ok s = bit_or (s * 2 % 256) 1 == s * 2 + 1

end_table : all_below 128 end_ok ≡ true
unfolding all_below end_ok
end_table = refl

nothing_read : Agree 0 0
unfolding flush
nothing_read = record { byte = omega arith; small = omega arith; same = refl }

-- The checksum of a list of bytes is the remainder of their polynomial times x ^ 7, divided by
-- x ^ 7 + x ^ 3 + 1, in the upper seven bits of a byte whose lowest bit is 1.
pub mmc_crc7_lem :
    (cs : List ℕ) → AllBytes cs → mmc_crc7 cs ≡ remainder (coefficients cs ++ seven_zeros) 0 * 2 + 1
unfolding mmc_crc7 end_ok
mmc_crc7_lem cs bytes =
    ground (arith, all_below-holds 128 end_ok (crc_bytes cs 0) end_table agree.1, value)
  where
    agree : Agree (crc_bytes cs 0) (remainder (coefficients cs) 0) × (crc_bytes cs 0 < 128)
    agree = Agree-crc_bytes cs 0 0 bytes (omega arith) nothing_read

    value : remainder (coefficients cs ++ seven_zeros) 0 ≡ crc_bytes cs 0
    value =
        remainder-append (coefficients cs) seven_zeros 0
        ∙ flush_lem (remainder (coefficients cs) 0)
        ∙ omega (arith, agree.0.same, agree.1)
