-- ===== src/Drivers/Loops/Transfer.antt =====
-- What the loops transfer, if the driver's function for one byte does so.
use pascal_scheduler.Prelude.{
  ◌>>=◌, ◌≤◌, ℕ, zero, suc, ◌+◌, ◌<◌, ◌≡◌, List, [], ◌∷◌, ◌++◌, cells, store, Option, some, refl,
  sym, ap, ◌∙◌, arith, append_assoc, append-nil,
}
use pascal_scheduler.Dev.{Machine}
use pascal_scheduler.Drivers.Loops.{send_from, read_to}

-- A send has ended, with the bytes sent.
pub record Sent {H : Type 0} (sent : H → List ℕ) (h : H) (result : Option H) (bytes : List ℕ)
    : Type 0 where
  pub after : H
  pub returns : result ≡ some after
  pub sends : sent after ≡ sent h ++ bytes

-- A read of one byte has ended, with the byte taken from the line.
pub record Got {H : Type 0} (taken : H → List ℕ) (h : H) (result : Option (ℕ × H)) : Type 0 where
  pub byte : ℕ
  pub after : H
  pub returns : result ≡ some (byte, after)
  pub gets : taken after ≡ taken h ++ (byte ∷ [])

module _ {H : Type 0} (sent : H → List ℕ) (send : ℕ → H → Option H)
    (one : (byte : ℕ) (h : H) → Sent sent h (send byte h) (byte ∷ [])) where
  -- One byte is sent, and then the others.
  send_rest :
      (byte : ℕ) (h : H) (then_send : H → Option H) (bytes : List ℕ)
      → ((h' : H) → Sent sent h' (then_send h') bytes)
      → Sent sent h (do h' ← send byte h; then_send h') (byte ∷ bytes)
  send_rest byte h then_send bytes next = record {
    after = (next first.after).after;
    returns = rw first.returns (next first.after).returns;
    sends =
        (next first.after).sends
        ∙ ap (λ (l : List ℕ). l ++ bytes) first.sends
        ∙ append_assoc (sent h) (byte ∷ []) bytes;
  }
    where
      first : Sent sent h (send byte h) (byte ∷ [])
      first = one byte h

  pub send_from_lem :
      (n ptr : ℕ) (memory : ℕ → ℕ) (h : H)
      → Sent sent h (send_from send n ptr memory h) (cells n memory ptr)
  unfolding send_from
  send_from_lem zero ptr memory h = record {
    after = h;
    returns = refl;
    sends = sym (append-nil (sent h));
  }
  send_from_lem (suc n) ptr memory h =
      send_rest (memory ptr) h (send_from send n (ptr + 1) memory) (cells n memory (ptr + 1))
        (send_from_lem n (ptr + 1) memory)

-- A loop of reads has ended: the bytes that were taken are in memory, from `ptr` on, and no other cell
-- has changed.
pub record Taken {H : Type 0} (taken : H → List ℕ) (m : Machine H) (n ptr : ℕ)
    (result : Option (Machine H)) : Type 0 where
  pub after : Machine H
  pub returns : result ≡ some after
  pub takes : taken after.hardware ≡ taken m.hardware ++ cells n after.memory ptr
  pub below : (a : ℕ) → a < ptr → after.memory a ≡ m.memory a
  pub above : (a : ℕ) → ptr + n ≤ a → after.memory a ≡ m.memory a

module _ {H : Type 0} (taken : H → List ℕ) (read : H → Option (ℕ × H))
    (one : (h : H) → Got taken h (read h)) where
  -- One byte is read, and then the others.
  taken_next :
      (m : Machine H) (n ptr : ℕ)
      → ((m' : Machine H) → Taken taken m' n (ptr + 1) (read_to read n (ptr + 1) m'))
      → Taken taken m (suc n) ptr (read_to read (suc n) ptr m)
  unfolding read_to store
  taken_next m n ptr next = record {
    after = rest.after;
    returns = rw first.returns rest.returns;
    takes =
        rest.takes
        ∙ ap (λ (l : List ℕ). l ++ cells n rest.after.memory (ptr + 1)) first.gets
        ∙ append_assoc (taken m.hardware) (first.byte ∷ []) (cells n rest.after.memory (ptr + 1))
        ∙ ap (λ (b : ℕ). taken m.hardware ++ (b ∷ cells n rest.after.memory (ptr + 1)))
            (sym stored);
    below = λ (a : ℕ) h. rest.below a (omega (arith, h)) ∙ ground (arith, h);
    above = λ (a : ℕ) h. rest.above a (omega (arith, h)) ∙ ground (arith, h);
  }
    where
      first : Got taken m.hardware (read m.hardware)
      first = one m.hardware

      m' : Machine H
      m' = record { memory = store ptr first.byte m.memory; hardware = first.after }

      rest : Taken taken m' n (ptr + 1) (read_to read n (ptr + 1) m')
      rest = next m'

      stored : rest.after.memory ptr ≡ first.byte
      stored = rest.below ptr (omega arith) ∙ ground arith

  pub read_to_lem : (n ptr : ℕ) (m : Machine H) → Taken taken m n ptr (read_to read n ptr m)
  read_to_lem zero ptr m =
      unfold read_to in
      record {
        after = m;
        returns = refl;
        takes = sym (append-nil (taken m.hardware));
        below = λ (a : ℕ) h. refl;
        above = λ (a : ℕ) h. refl;
      }
  read_to_lem (suc n) ptr m = taken_next m n ptr (read_to_lem n (ptr + 1))
