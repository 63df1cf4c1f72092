-- ===== src/Drivers/Lcd/Sends.antt =====
-- What a display reads off the bytes that the driver writes.
use pascal_scheduler.Prelude.{
  inl, inr, Bool-cases, ℕ, ◌+◌, ◌*◌, ◌%◌, ◌<◌, ◌≡◌, refl, ap, ◌∙◌, true, false, List, [], ◌∷◌, ◌++◌,
}
use pascal_scheduler.Drivers.Lcd.{
  Call, sys_sleep, dev_write, ioctl_set_peer, dev_open, left_out, hd44780_check_busy,
  hd44780_write_bus, hd44780_send_4, hd44780_send_8, send_all,
}
use pascal_scheduler.Drivers.Lcd.Words.{
  latched, words, four_codes, all_codes, AllWords, received, words-all_codes, two_codes_lem,
}

-- The bytes at which the calls of dev_write point, in order.
unfoldable pub codes : List Call → List ℕ
codes [] = []
codes (sys_sleep ms ∷ calls) = codes calls
codes (dev_write code a b ∷ calls) = code ∷ codes calls
codes (ioctl_set_peer address ∷ calls) = codes calls
codes (dev_open ∷ calls) = codes calls

codes-append : (a b : List Call) → codes (a ++ b) ≡ codes a ++ codes b
unfolding codes
codes-append [] b = refl
codes-append (sys_sleep ms ∷ a) b = codes-append a b
codes-append (dev_write code x y ∷ a) b = ap (λ (l : List ℕ). code ∷ l) (codes-append a b)
codes-append (ioctl_set_peer address ∷ a) b = codes-append a b
codes-append (dev_open ∷ a) b = codes-append a b

codes-send_4 :
    (byte rs : ℕ) → left_out byte rs ≡ false → codes (hd44780_send_4 byte rs) ≡ four_codes byte rs
unfolding codes hd44780_send_4 hd44780_check_busy hd44780_write_bus four_codes
codes-send_4 byte rs shown = rw shown refl

send_4_left_out : (byte rs : ℕ) → left_out byte rs ≡ true → hd44780_send_4 byte rs ≡ []
unfolding hd44780_send_4
send_4_left_out byte rs e = rw e refl

codes-nil : codes [] ≡ []
unfolding codes
codes-nil = refl

codes-send_all : (calls : List (ℕ × ℕ)) → codes (send_all calls) ≡ all_codes calls
unfolding send_all all_codes
codes-send_all [] = codes-nil
codes-send_all ((byte, rs) ∷ more) =
    codes-append (hd44780_send_4 byte rs) (send_all more) ∙ elim (Bool-cases (left_out byte rs)) [
      | inl e ↦ rw (e, send_4_left_out byte rs e, codes-nil) (codes-send_all more)
      | inr e ↦ rw (e, codes-send_4 byte rs e, codes-send_all more) refl
    ]

-- From the bytes that calls of hd44780_send_4, with bytes and RS 0 or 1, hand to dev_write, a display with four data
-- lines reads exactly these bytes, each with its RS, in order, without the characters that are left out.
pub send_all-received :
    (calls : List (ℕ × ℕ))
    → AllWords calls
    → words (latched 0 (codes (send_all calls))) ≡ received calls
send_all-received calls h =
    ap (λ (l : List ℕ). words (latched 0 l)) (codes-send_all calls) ∙ words-all_codes calls h

-- From the bytes that hd44780_send_8, with a byte and RS 0 or 1, hands to dev_write, the display latches RS and the
-- lower half of the byte, whatever the upper half is.
pub hd44780_send_8_lem :
    (byte rs : ℕ)
    → byte < 256
    → rs < 2
    → latched 0 (codes (hd44780_send_8 byte rs)) ≡ (rs * 16 + byte % 16) ∷ []
unfolding codes hd44780_send_8 hd44780_check_busy hd44780_write_bus
hd44780_send_8_lem byte rs hb hr = two_codes_lem rs byte hr hb
