-- ===== src/CircularBuffer/Overflow.antt =====
-- What cbuff_write does to a buffer that is full.
use pascal_scheduler.Prelude.{
  ℕ, ◌<◌, ◌^◌, ◌≡◌, refl, true, false, get_or, set, get_or-set_self, arith, ◌==◌, ==_iff,
}
use pascal_scheduler.Prelude.Word.{add32, sub32}
use pascal_scheduler.CircularBuffer.{
  Buffer, readable, cbuff_read, cbuff_write, cbuff_is_full, advance,
}
use pascal_scheduler.CircularBuffer.Fifo.{IsValid}

end_at_start : (cb : Buffer) → IsValid cb → readable cb ≡ cb.size → cb.end_valid ≡ cb.start_valid
end_at_start cb v full = ground (arith, v.end_at, v.start_in)

readable-overflow :
    (w r o : ℕ)
    → w < 2 ^ 32
    → r < 2 ^ 32
    → o < 2 ^ 32
    → sub32 (sub32 (add32 w 1) r) (add32 o 1) ≡ sub32 (sub32 w r) o
readable-overflow w r o hw hr ho = omega arith

-- A write into a full buffer overwrites the oldest element, and leaves the read index on it: the next
-- read gives the newest element, in front of all the older ones that are still stored.
pub cbuff_write-overflow :
    (cb : Buffer) (el : ℕ)
    → IsValid cb
    → cbuff_is_full cb ≡ true
    → let cb' = cbuff_write cb el in
      (readable cb' ≡ readable cb)
      × (cb'.overflows ≡ add32 cb.overflows 1)
      × ((cbuff_read cb').0 ≡ record { value = el; error = 0 })
unfolding cbuff_write cbuff_is_full cbuff_read
cbuff_write-overflow cb el v full =
    rw full (same, refl, rw (same, some_left, end_at) (λ i. record { value = newest i; error = 0 }))
  where
    is_full : readable cb ≡ cb.size
    is_full = (==_iff _ _).0 full

    end_at : cb.end_valid ≡ cb.start_valid
    end_at = end_at_start cb v is_full

    after : Buffer
    after = record cb {
      overflows = add32 cb.overflows 1;
      buffer = set cb.buffer cb.end_valid el;
      writes = add32 cb.writes 1;
      end_valid = advance cb.size cb.end_valid;
    }

    same : readable after ≡ readable cb
    same =
        unfold readable in
        readable-overflow cb.writes cb.reads cb.overflows v.words.0 v.words.1 v.words.2

    some_left : (readable cb == 0) ≡ false
    some_left = ground (arith, is_full, v.start_in)

    newest : get_or (set cb.buffer cb.start_valid el) cb.start_valid 0 ≡ el
    newest = get_or-set_self cb.buffer cb.start_valid el 0 (omega (arith, v.storage, v.start_in))
