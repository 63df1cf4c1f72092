-- ===== src/CircularBuffer.antt =====
-- circular_buffer.c. An element is the 4 bytes of the union, as a word; a buffer that sys_sbrk has
-- returned is a list of elements.
pub mod Fifo
pub mod Overflow
use pascal_scheduler.Prelude.{ℕ, ◌+◌, ◌-◌, ◌%◌, ◌^◌, Bool, List, get_or, set, if◌then◌else◌, ◌==◌}
use pascal_scheduler.Prelude.Word.{add32, sub32}

-- `struct circular_buffer`.
pub record Buffer : Type 0 where
  pub buffer : List ℕ
  pub writes : ℕ
  pub reads : ℕ
  pub overflows : ℕ
  pub start_valid : ℕ
  pub end_valid : ℕ
  pub size : ℕ

-- `struct cb_read`.
pub record Read : Type 0 where
  pub value : ℕ
  pub error : ℕ

-- _readable
unfoldable pub readable : Buffer → ℕ
readable cb = sub32 (sub32 cb.writes cb.reads) cb.overflows

-- `storage` is what sys_sbrk has returned for `size` elements.
unfoldable pub cbuff_init : List ℕ → ℕ → Buffer
cbuff_init storage size = record {
  buffer = storage;
  writes = 0;
  reads = 0;
  overflows = 0;
  start_valid = 0;
  end_valid = 0;
  size = size;
}

unfoldable pub cbuff_is_full : Buffer → Bool
cbuff_is_full cb = readable cb == cb.size

unfoldable pub cbuff_is_overflowed : Buffer → ℕ
cbuff_is_overflowed cb = cb.overflows

-- An index of type unsigned short after `index++` and the test against the size.
unfoldable pub advance : ℕ → ℕ → ℕ
advance size index = let next = (index + 1) % 2 ^ 16 in if next == size then 0 else next

unfoldable pub cbuff_read : Buffer → Read × Buffer
cbuff_read cb = if readable cb == 0 then (record { value = 0; error = 1 }, cb) else (
  record { value = get_or cb.buffer cb.start_valid 0; error = 0 },
  record cb { start_valid = advance cb.size cb.start_valid; reads = add32 cb.reads 1 },
)

unfoldable pub cbuff_write : Buffer → ℕ → Buffer
cbuff_write cb el = record cb {
  overflows = if readable cb == cb.size then add32 cb.overflows 1 else cb.overflows;
  buffer = set cb.buffer cb.end_valid el;
  writes = add32 cb.writes 1;
  end_valid = advance cb.size cb.end_valid;
}

-- The constructors of the union: an int or a float fills the word; a char writes its low byte, and
-- the other bytes of the word are whatever was on the stack.
unfoldable pub cb_element_int : ℕ → ℕ
cb_element_int t = t

unfoldable pub cb_element_float : ℕ → ℕ
cb_element_float t = t

unfoldable pub cb_element_char : ℕ → ℕ → ℕ
cb_element_char garbage t = (garbage - garbage % 256) + t % 256
