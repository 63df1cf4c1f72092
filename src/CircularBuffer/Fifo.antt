-- ===== src/CircularBuffer/Fifo.antt =====
-- A buffer that is not written when it is full is a bounded queue.
use pascal_scheduler.Prelude.{
  ℕ, zero, suc, ◌+◌, ◌-◌, ◌<◌, ◌≤◌, ◌^◌, ◌≡◌, ◌≢◌, ◌⊎◌, inl, inr, refl, ◌∙◌, ap, true, false, List,
  [], ◌∷◌, ◌++◌, length, get_or, set, get_or-set_self, get_or-set_ne, length-set, arith, ◌==◌,
  if◌then◌else◌, ltb, ℕ_discrete,
}
use native.Mathlib.Numerals.{add-one}
use pascal_scheduler.Prelude.Word.{add32, sub32}
use pascal_scheduler.CircularBuffer.{
  Buffer, readable, cbuff_read, cbuff_write, cbuff_is_full, advance,
}

-- The buffer's indices and counters fit together.
pub record IsValid (cb : Buffer) : Type 0 where
  pub storage : length cb.buffer ≡ cb.size
  pub small : cb.size < 2 ^ 16
  pub start_in : cb.start_valid < cb.size
  pub words : (cb.writes < 2 ^ 32) × (cb.reads < 2 ^ 32) × (cb.overflows < 2 ^ 32)
  pub bounded : readable cb ≤ cb.size
  pub end_at : cb.end_valid ≡ (
      if ltb (cb.start_valid + readable cb) cb.size
      then cb.start_valid + readable cb
      else cb.start_valid + readable cb - cb.size)

module _ (buf : List ℕ) (size : ℕ) where
  -- The `n` elements from index `i` on, going round at the end.
  abbrev pub round_from : ℕ → ℕ → List ℕ
  round_from i zero = []
  round_from i (suc n) = get_or buf i 0 ∷ round_from (if i + 1 == size then 0 else i + 1) n

-- The elements that are yet to be read, the oldest first.
abbrev pub contents : Buffer → List ℕ
contents cb = round_from cb.buffer cb.size cb.start_valid (readable cb)

advance_lem :
    (size i : ℕ) → i < size → size < 2 ^ 16 → advance size i ≡ (if i + 1 == size then 0 else i + 1)
unfolding advance
advance_lem size i h s = ground arith

-- Where the index stands after `n` steps round the end.
abbrev offset : ℕ → ℕ → ℕ → ℕ
offset size i n = if ltb (i + n) size then i + n else i + n - size

-- A write just behind `n` elements extends them by the new one.
round_from-set :
    (buf : List ℕ) (size el n i e : ℕ)
    → length buf ≡ size
    → i < size
    → n < size
    → e ≡ offset size i n
    → round_from (set buf e el) size i (suc n) ≡ round_from buf size i n ++ (el ∷ [])
round_from-set buf size el zero i e hb hi hn he =
    let at : e ≡ i = ground arith in
    ap (λ (x : ℕ). x ∷ [])
      (ap (λ (j : ℕ). get_or (set buf j el) i 0) at ∙ get_or-set_self buf i el 0 (omega arith))
round_from-set buf size el (suc n) i e hb hi hn he = λ j.
    get_or-set_ne buf e i el 0 apart j
    ∷ round_from-set buf size el n (if i + 1 == size then 0 else i + 1) e hb (ground arith)
        (omega arith) (ground arith) j
  where
    apart : e ≢ i
    apart q = ground arith

readable-lt : (cb : Buffer) → readable cb < 2 ^ 32
unfolding readable
readable-lt cb = omega arith

-- The counters of a write and of a read, modulo 2 ^ 32.
readable-write :
    (w r o : ℕ)
    → w < 2 ^ 32
    → r < 2 ^ 32
    → o < 2 ^ 32
    → sub32 (sub32 w r) o + 1 < 2 ^ 32
    → sub32 (sub32 (add32 w 1) r) o ≡ sub32 (sub32 w r) o + 1
readable-write w r o hw hr ho h = omega arith

readable-read :
    (w r o : ℕ)
    → w < 2 ^ 32
    → r < 2 ^ 32
    → o < 2 ^ 32
    → sub32 (sub32 w r) o ≢ 0
    → sub32 (sub32 w (add32 r 1)) o + 1 ≡ sub32 (sub32 w r) o
readable-read w r o hw hr ho h = omega arith

offset-advance :
    (size i n : ℕ)
    → i < size
    → n < size
    → (if offset size i n + 1 == size then 0 else offset size i n + 1) ≡ offset size i (n + 1)
offset-advance size i n hi hn = ground arith

offset-lt : (size i n : ℕ) → i < size → n ≤ size → offset size i n < size
offset-lt size i n hi hn = ground arith

-- A write into a buffer that is not full keeps it well formed, counts no overflow, and appends the
-- element to the queue of those to be read.
pub cbuff_write-appends :
    (cb : Buffer) (el : ℕ)
    → IsValid cb
    → cbuff_is_full cb ≡ false
    → let cb' = cbuff_write cb el in
      IsValid cb' × (contents cb' ≡ contents cb ++ (el ∷ [])) × (cb'.overflows ≡ cb.overflows)
unfolding cbuff_write cbuff_is_full
cbuff_write-appends cb el v room = rw room (
  record {
    storage = length-set cb.buffer cb.end_valid el ∙ v.storage;
    small = v.small;
    start_in = v.start_in;
    words = (omega arith, v.words.1, v.words.2);
    bounded = rw grown (omega (arith, less));
    end_at = rw (grown, advanced) (v' ∙ offset-advance size start n v.start_in less);
  },
  rw (grown, add-one n)
      (round_from-set cb.buffer size el n start cb.end_valid v.storage v.start_in less v.end_at),
  refl,
)
  where
    size : ℕ
    size = cb.size

    start : ℕ
    start = cb.start_valid

    n : ℕ
    n = readable cb

    less : n < size
    less = ground (arith, v.bounded)

    room32 : readable cb + 1 < 2 ^ 32
    room32 = omega (arith, less, v.small)

    after : Buffer
    after = record cb {
      buffer = set cb.buffer cb.end_valid el;
      writes = add32 cb.writes 1;
      end_valid = advance cb.size cb.end_valid;
    }

    grown : readable after ≡ n + 1
    grown =
        unfold readable in
        readable-write cb.writes cb.reads cb.overflows v.words.0 v.words.1 v.words.2 room32

    advanced :
        advance size cb.end_valid ≡ (if cb.end_valid + 1 == size then 0 else cb.end_valid + 1)
    advanced =
        advance_lem size cb.end_valid (rw v.end_at (offset-lt size start n v.start_in v.bounded))
          v.small

    v' :
        (if cb.end_valid + 1 == size then 0 else cb.end_valid + 1)
        ≡ (if offset size start n + 1 == size then 0 else offset size start n + 1)
    v' = ap (λ (e : ℕ). if e + 1 == size then 0 else e + 1) v.end_at

-- `round_from` matches on `suc`, and the code tests for 0.
round_from_of_ne_zero :
    (buf : List ℕ) (size i n : ℕ)
    → n ≢ 0
    → round_from buf size i n
      ≡ get_or buf i 0 ∷ round_from buf size (if i + 1 == size then 0 else i + 1) (n - 1)
round_from_of_ne_zero buf size i zero h = absurd (h refl)
round_from_of_ne_zero buf size i (suc n) h =
    ap (λ (m : ℕ). round_from buf size i (suc m)) (omega arith)

offset-step :
    (size i n : ℕ)
    → i < size
    → n ≤ size
    → n ≢ 0
    → offset size i n ≡ offset size (if i + 1 == size then 0 else i + 1) (n - 1)
offset-step size i n hi hn h = ground arith

readable-advance :
    (cb : Buffer)
    → IsValid cb
    → readable cb ≢ 0
    → readable
        (record cb { start_valid = advance cb.size cb.start_valid; reads = add32 cb.reads 1 })
      ≡ readable cb - 1
unfolding readable
readable-advance cb v ne =
    omega (arith, readable-read cb.writes cb.reads cb.overflows v.words.0 v.words.1 v.words.2 ne)

-- A read from a well-formed buffer: an empty one reports an error and stays as it is; any other gives
-- the oldest element, takes it from the queue, and stays well formed.
pub cbuff_read_lem :
    (cb : Buffer)
    → IsValid cb
    → let (r, cb') = cbuff_read cb in
      ((contents cb ≡ []) × (r.error ≡ 1) × (cb' ≡ cb))
      ⊎ ((contents cb ≡ r.value ∷ contents cb') × (r.error ≡ 0) × IsValid cb')
unfolding cbuff_read
cbuff_read_lem cb v = elim (ℕ_discrete (readable cb) 0) [
  | yes e ↦
      let none_left : (readable cb == 0) ≡ true = ground arith in
      rw none_left (inl (ap (round_from cb.buffer cb.size cb.start_valid) e, refl, refl))
  | no ne ↦
      let some_left : (readable cb == 0) ≡ false = ground arith in
      rw some_left (
        inr (
          rw (rest ne, forward) (round_from_of_ne_zero cb.buffer size start (readable cb) ne),
          refl,
          record {
            storage = v.storage;
            small = v.small;
            start_in = rw forward (ground (arith, v.start_in));
            words = (v.words.0, omega arith, v.words.2);
            bounded = rw (rest ne) (omega (arith, v.bounded));
            end_at =
                rw (rest ne, forward)
                  (v.end_at ∙ offset-step size start (readable cb) v.start_in v.bounded ne);
          },
        ))
]
  where
    size : ℕ
    size = cb.size

    start : ℕ
    start = cb.start_valid

    after : Buffer
    after = record cb { start_valid = advance cb.size cb.start_valid; reads = add32 cb.reads 1 }

    forward : advance size start ≡ (if start + 1 == size then 0 else start + 1)
    forward = advance_lem size start v.start_in v.small

    rest : readable cb ≢ 0 → readable after ≡ readable cb - 1
    rest ne = readable-advance cb v ne
