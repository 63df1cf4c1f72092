-- ===== src/Tests/Buffers.antt =====
-- A circular buffer of three elements.
use pascal_scheduler.Prelude.{◌≡◌, ◌⊎◌, refl, true, false, arith, [], ◌∷◌, ◌++◌}
use pascal_scheduler.Prelude.Word.{add32}
use pascal_scheduler.CircularBuffer.{Buffer, readable, cbuff_read, cbuff_write, cbuff_is_full}
use pascal_scheduler.CircularBuffer.Fifo.{IsValid, contents, cbuff_write-appends, cbuff_read_lem}
use pascal_scheduler.CircularBuffer.Overflow.{cbuff_write-overflow}

-- Two elements are in it, round the end.
abbrev two_inside : Buffer
two_inside = record {
  buffer = 6 ∷ 9 ∷ 5 ∷ [];
  writes = 4;
  reads = 2;
  overflows = 0;
  start_valid = 2;
  end_valid = 1;
  size = 3;
}

abbrev three_inside : Buffer
three_inside = record two_inside { writes = 5; end_valid = 2 }

two_inside-IsValid : IsValid two_inside
unfolding readable
two_inside-IsValid = record {
  storage = refl;
  small = omega arith;
  start_in = omega arith;
  words = (omega arith, omega arith, omega arith);
  bounded = omega arith;
  end_at = refl;
}

three_inside-IsValid : IsValid three_inside
unfolding readable
three_inside-IsValid = record {
  storage = refl;
  small = omega arith;
  start_in = omega arith;
  words = (omega arith, omega arith, omega arith);
  bounded = omega arith;
  end_at = refl;
}

two_inside-has_room : cbuff_is_full two_inside ≡ false
unfolding cbuff_is_full readable
two_inside-has_room = refl

three_inside-is_full : cbuff_is_full three_inside ≡ true
unfolding cbuff_is_full readable
three_inside-is_full = refl

cbuff_write-appends_example :
    let cb' = cbuff_write two_inside 7 in
    IsValid cb' × (contents cb' ≡ contents two_inside ++ (7 ∷ [])) × (cb'.overflows ≡ 0)
cbuff_write-appends_example =
    cbuff_write-appends two_inside 7 two_inside-IsValid two_inside-has_room

cbuff_read_lem_example :
    let (r, cb') = cbuff_read two_inside in
    ((contents two_inside ≡ []) × (r.error ≡ 1) × (cb' ≡ two_inside))
    ⊎ ((contents two_inside ≡ r.value ∷ contents cb') × (r.error ≡ 0) × IsValid cb')
cbuff_read_lem_example = cbuff_read_lem two_inside two_inside-IsValid

cbuff_write-overflow_example :
    let cb' = cbuff_write three_inside 7 in
    (readable cb' ≡ readable three_inside)
    × (cb'.overflows ≡ add32 0 1)
    × ((cbuff_read cb').0 ≡ record { value = 7; error = 0 })
cbuff_write-overflow_example =
    cbuff_write-overflow three_inside 7 three_inside-IsValid three_inside-is_full
