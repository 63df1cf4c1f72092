-- ===== src/Drivers/Lcd/Words.antt =====
-- What the display receives.
use pascal_scheduler.Prelude.{
  inl, inr, Bool-cases, ℕ, ◌+◌, ◌*◌, ◌/◌, ◌%◌, ◌<◌, ◌≡◌, refl, ap, ◌∙◌, Bool, true, false, ◌&&◌,
  not, List, [], ◌∷◌, ◌++◌, ◌==◌, if◌then◌else◌, bit_and, arith,
}
use pascal_scheduler.Prelude.Word.{has_flag}
use pascal_scheduler.Prelude.Tables.{all_below, all_below-holds}
use pascal_scheduler.Drivers.Lcd.{bus_code, left_out}

-- How a display with four data lines reads what is put on the bus: when E (bit 4) falls, it takes RS (bit 5)
-- and the four data lines, as they were while E was high.
unfoldable pub latched : ℕ → List ℕ → List ℕ
latched before [] = []
latched before (c ∷ cs) =
    if has_flag before 16 && not (has_flag c 16)
    then (before / 32 % 2 * 16 + before % 16) ∷ latched c cs
    else latched c cs

-- Two halves are a word: RS, and a byte.
unfoldable pub words : List ℕ → List ℕ
words (a ∷ b ∷ rest) = (a * 16 + b % 16) ∷ words rest
words other = []

-- The codes of hd44780_send_4.
unfoldable pub four_codes : ℕ → ℕ → List ℕ
unfolding bus_code
four_codes byte rs =
    bus_code (bit_and byte 0xF0 / 16) rs 1
    ∷ bus_code (bit_and byte 0xF0 / 16) rs 0
    ∷ bus_code (bit_and byte 0x0F) rs 1
    ∷ bus_code (bit_and byte 0x0F) 0 0
    ∷ []

is_pair : ℕ → List ℕ → Bool
is_pair w [] = false
is_pair w (a ∷ []) = false
is_pair w (a ∷ b ∷ []) = a * 16 + b % 16 == w
is_pair w (a ∷ b ∷ c ∷ rest) = false

words-after_pair :
    (w : ℕ) (l rest : List ℕ) → is_pair w l ≡ true → words (l ++ rest) ≡ w ∷ words rest
unfolding is_pair words
words-after_pair w [] rest e = absurd (ground (arith, e))
words-after_pair w (a ∷ []) rest e = absurd (ground (arith, e))
words-after_pair w (a ∷ b ∷ []) rest e = ap (λ (n : ℕ). n ∷ words rest) (ground (arith, e))
words-after_pair w (a ∷ b ∷ c ∷ more) rest e = absurd (ground (arith, e))

-- The two halves that four codes give, and that E is low at the end.
word_ok : ℕ → ℕ → Bool
word_ok rs byte =
    is_pair (rs * 256 + byte) (latched 0 (four_codes byte rs))
    && not (has_flag (bus_code (bit_and byte 0x0F) 0 0) 16)

word_table : all_below 2 (λ rs. all_below 256 (word_ok rs)) ≡ true
unfolding all_below word_ok is_pair latched four_codes has_flag bus_code
word_table = refl

word_holds : (rs byte : ℕ) → rs < 2 → byte < 256 → word_ok rs byte ≡ true
word_holds rs byte hr hb =
    all_below-holds 256 (word_ok rs) byte
      (all_below-holds 2 (λ rs. all_below 256 (word_ok rs)) rs word_table hr) hb

-- The last of some codes.
ends_with : ℕ → List ℕ → ℕ
ends_with c [] = c
ends_with c (d ∷ ds) = ends_with d ds

latched-append :
    (before : ℕ) (cs ds : List ℕ)
    → latched before (cs ++ ds) ≡ latched before cs ++ latched (ends_with before cs) ds
unfolding latched ends_with
latched-append before [] ds = refl
latched-append before (c ∷ cs) ds = elim (Bool-cases (has_flag before 16 && not (has_flag c 16))) [
  | inl e ↦ rw (e, latched-append c cs ds) refl
  | inr e ↦ rw (e, latched-append c cs ds) refl
]

-- With E low, what comes next counts alone.
latched_low : (c : ℕ) (cs : List ℕ) → has_flag c 16 ≡ false → latched c cs ≡ latched 0 cs
unfolding latched
latched_low c [] low = refl
latched_low c (d ∷ ds) low = rw low (unfold has_flag in refl)

words-four_codes :
    (rs byte : ℕ) (rest : List ℕ)
    → rs < 2
    → byte < 256
    → words (latched 0 (four_codes byte rs ++ rest)) ≡ (rs * 256 + byte) ∷ words (latched 0 rest)
words-four_codes rs byte rest hr hb =
    ap words (
      latched-append 0 (four_codes byte rs) rest
      ∙ ap (λ (l : List ℕ). latched 0 (four_codes byte rs) ++ l) after_low)
    ∙ words-after_pair (rs * 256 + byte) (latched 0 (four_codes byte rs)) (latched 0 rest) pair
  where
    ok : word_ok rs byte ≡ true
    ok = word_holds rs byte hr hb

    low : has_flag (bus_code (bit_and byte 0x0F) 0 0) 16 ≡ false
    low = unfold word_ok in ground (arith, ok)

    after_low : latched (ends_with 0 (four_codes byte rs)) rest ≡ latched 0 rest
    after_low =
        unfold ends_with four_codes in latched_low (bus_code (bit_and byte 0x0F) 0 0) rest low

    pair : is_pair (rs * 256 + byte) (latched 0 (four_codes byte rs)) ≡ true
    pair = unfold word_ok in ground (arith, ok)

is_only : ℕ → List ℕ → Bool
is_only w [] = false
is_only w (x ∷ []) = x == w
is_only w (x ∷ y ∷ rest) = false

is_only-equal : (w : ℕ) (l : List ℕ) → is_only w l ≡ true → l ≡ w ∷ []
unfolding is_only
is_only-equal w [] e = absurd (ground (arith, e))
is_only-equal w (x ∷ []) e = ap (λ (n : ℕ). n ∷ []) (ground (arith, e))
is_only-equal w (x ∷ y ∷ rest) e = absurd (ground (arith, e))

half_ok : ℕ → ℕ → Bool
half_ok rs byte =
    is_only (rs * 16 + byte % 16) (latched 0 (bus_code byte rs 1 ∷ bus_code byte rs 0 ∷ []))

half_table : all_below 2 (λ rs. all_below 256 (half_ok rs)) ≡ true
unfolding all_below half_ok is_only latched has_flag bus_code
half_table = refl

-- The codes of hd44780_send_8.
pub two_codes_lem :
    (rs byte : ℕ)
    → rs < 2
    → byte < 256
    → latched 0 (bus_code byte rs 1 ∷ bus_code byte rs 0 ∷ []) ≡ (rs * 16 + byte % 16) ∷ []
unfolding half_ok
two_codes_lem rs byte hr hb =
    is_only-equal (rs * 16 + byte % 16) (latched 0 (bus_code byte rs 1 ∷ bus_code byte rs 0 ∷ [])) (
      all_below-holds 256 (half_ok rs) byte
        (all_below-holds 2 (λ rs. all_below 256 (half_ok rs)) rs half_table hr) hb)

-- The words that a display has to receive for some calls of hd44780_send_4: RS and the byte.
unfoldable pub received : List (ℕ × ℕ) → List ℕ
received [] = []
received ((byte, rs) ∷ calls) =
    if left_out byte rs then received calls else ((rs * 256 + byte) ∷ received calls)

-- The codes of some calls.
unfoldable pub all_codes : List (ℕ × ℕ) → List ℕ
all_codes [] = []
all_codes ((byte, rs) ∷ calls) =
    if left_out byte rs then all_codes calls else four_codes byte rs ++ all_codes calls

-- Bytes, with RS.
abbrev pub AllWords : List (ℕ × ℕ) → Type 0
AllWords [] = Unit
AllWords ((byte, rs) ∷ calls) = ((byte < 256) × (rs < 2)) × AllWords calls

pub words-all_codes :
    (calls : List (ℕ × ℕ)) → AllWords calls → words (latched 0 (all_codes calls)) ≡ received calls
unfolding received all_codes
words-all_codes [] h = unfold words latched in refl
words-all_codes ((byte, rs) ∷ calls) h = elim (Bool-cases (left_out byte rs)) [
  | inl e ↦ rw e (words-all_codes calls h.1)
  | inr e ↦ rw e (
      words-four_codes rs byte (all_codes calls) h.0.1 h.0.0
      ∙ ap (λ (l : List ℕ). (rs * 256 + byte) ∷ l) (words-all_codes calls h.1))
]
