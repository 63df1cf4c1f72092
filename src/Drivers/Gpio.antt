-- ===== src/Drivers/Gpio.antt =====
-- dev/gpio/ifx_gpio.h.
use pascal_scheduler.Prelude.{
  ℕ, ◌*◌, ◌/◌, ◌%◌, ◌^◌, ◌<◌, ◌≤◌, ◌≡◌, ap, refl, ◌∙◌, bit_and, bit_or, arith,
}
use pascal_scheduler.Prelude.Bits.{bit_and_field, bit_or_disjoint}
use native.Mathlib.Nat.{mod-eq_of_lt, mul-le-mul, pow-le-pow_right, one-le-pow}

-- `n << GPIO_SHIFT`: GPIO_INPUT_INV is 4, the input functions NO, PD and PU are 0 to 2, GPIO_OUTPUT_PP is 0x10,
-- GPIO_OUTPUT_OD is 0x18, and GPIO_OUTPUT_ALT0 to GPIO_OUTPUT_ALT7 are 0 to 7.
abbrev gpio_shifted : ℕ → ℕ
gpio_shifted n = n * 2 ^ 3

abbrev pub gpio_output_pp : ℕ
gpio_output_pp = gpio_shifted 0x10

abbrev pub gpio_output_alt : ℕ → ℕ
gpio_output_alt n = gpio_shifted n

-- GPIO_PI0 to GPIO_PI15: the place of a pin in the register of its four pins.
abbrev pub gpio_pi : ℕ → ℕ
gpio_pi n = n % 4 * 8

le_lt : {a b c : ℕ} → a ≤ b → b < c → a < c
le_lt h l = omega (arith, h, l)

-- A field of eight bits stays inside the word.
in_word : (x n : ℕ) → x < 256 → x * 2 ^ gpio_pi n % 2 ^ 32 ≡ x * 2 ^ gpio_pi n
in_word x n h =
    let place : 2 ^ gpio_pi n ≤ 2 ^ 24 =
      pow-le-pow_right {n = 2} (omega arith) {i = gpio_pi n} {j = 24} (omega arith) in
    let small : x * 2 ^ gpio_pi n ≤ 255 * 2 ^ 24 =
      mul-le-mul {n₁ = x} {m₁ = 2 ^ gpio_pi n} {n₂ = 255} {m₂ = 2 ^ 24} (omega (arith, h)) place in
    mod-eq_of_lt (le_lt small (omega arith))

module _ {H : Type 0} (read : H → ℕ) (write : ℕ → H → H) where
  -- GPIO_PIN_MUX, on a register that is read and written twice.
  unfoldable pub gpio_pin_mux : ℕ → ℕ → H → H
  gpio_pin_mux conf pin h =
      let masked = write (bit_and (read h) (0xFF * 2 ^ pin % 2 ^ 32)) h in
      write (bit_or (read masked) (conf * 2 ^ pin % 2 ^ 32)) masked

  -- On a register that keeps what is written to it, a pin whose eight bits are 0 gets its configuration, and the bits
  -- of all other pins become 0.
  pub gpio_pin_mux_lem :
      (conf n : ℕ) (h : H)
      → ((word : ℕ) (h : H) → read (write word h) ≡ word)
      → conf < 256
      → read h / 2 ^ gpio_pi n % 2 ^ 8 ≡ 0
      → read (gpio_pin_mux conf (gpio_pi n) h) ≡ conf * 2 ^ gpio_pi n
  unfolding gpio_pin_mux
  gpio_pin_mux_lem conf n h keeps small clear =
      keeps _ _
      ∙ rw (in_word 255 n (omega arith), in_word conf n small)
          (ap (λ (w : ℕ). bit_or w (conf * 2 ^ gpio_pi n))
              (keeps (bit_and (read h) (255 * 2 ^ gpio_pi n)) h
                ∙ bit_and_field (gpio_pi n) 8 (read h) 255 refl
                ∙ ap (λ (t : ℕ). t * 2 ^ gpio_pi n) clear
                ∙ omega arith)
            ∙ bit_or_disjoint (gpio_pi n) conf 0 (one-le-pow (gpio_pi n) 2 (omega arith))
            ∙ omega arith)
