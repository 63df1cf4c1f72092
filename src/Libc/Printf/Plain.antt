-- ===== src/Libc/Printf/Plain.antt =====
-- What printf puts out for a format without conversions.
use pascal_scheduler.Prelude.{
  ℕ, zero, suc, ◌+◌, ◌-◌, ◌<◌, ◌≤◌, ◌≡◌, ◌≢◌, ◌⊎◌, inl, inr, refl, sym, ap, ◌∙◌, true, false, ◌||◌,
  Option, none, some, List, [], ◌∷◌, ◌++◌, cells, store, leb, ◌==◌, if◌then◌else◌, ◌>>=◌, arith,
}
use pascal_scheduler.Dev.{Machine, DevOps, Vnode, dev_uart}
use pascal_scheduler.Drivers.Usic.{Usic, Transmits}
use pascal_scheduler.Drivers.Uart.{Call, uart}
use pascal_scheduler.Prelude.{append_assoc, append-nil}
use pascal_scheduler.Syscall.Io.{sys_write_lem}
use pascal_scheduler.Libc.Printf.{Layout, cnprintf, format_from, cb_printf, printf}

-- A run that ends has put out `bytes` and changed at most the memory cell `scratch`.
pub record Puts {H : Type 0} (log : H → List ℕ) (scratch : ℕ) (m : Machine H) (bytes : List ℕ)
    (result : Option (Machine H)) : Type 0 where
  pub after : Machine H
  pub returns : result ≡ some after
  pub logs : log after.hardware ≡ log m.hardware ++ bytes
  pub keeps : (a : ℕ) → a ≢ scratch → after.memory a ≡ m.memory a

-- `n` characters from `p` on, none of them zero or '%', away from the cell `scratch`.
pub record Text (memory : ℕ → ℕ) (scratch p n : ℕ) : Type 0 where
  pub nonzero : (i : ℕ) → i < n → memory (p + i) ≢ 0
  pub no_percent : (i : ℕ) → i < n → memory (p + i) ≢ 37
  pub apart : (i : ℕ) → i ≤ n → p + i ≢ scratch

module _ {H : Type 0} (log : H → List ℕ) (scratch : ℕ) where
  -- The rest of a text, in a memory that differs at most at `scratch`.
  behind_first :
      (m m' : ℕ → ℕ) (p n : ℕ)
      → Text m scratch p (suc n)
      → ((a : ℕ) → a ≢ scratch → m' a ≡ m a)
      → Text m' scratch (p + 1) n
  behind_first m m' p n t same = record {
    nonzero = λ (i : ℕ) h.
        rw (moved i, same (p + suc i) (t.apart (suc i) (omega (arith, h))))
          (t.nonzero (suc i) (omega (arith, h)));
    no_percent = λ (i : ℕ) h.
        rw (moved i, same (p + suc i) (t.apart (suc i) (omega (arith, h))))
          (t.no_percent (suc i) (omega (arith, h)));
    apart = λ (i : ℕ) h. rw (moved i) (t.apart (suc i) (omega (arith, h)));
  }
    where
      moved : (i : ℕ) → p + 1 + i ≡ p + suc i
      moved i = omega arith

  cells_same :
      (m m' : ℕ → ℕ) (n p : ℕ)
      → ((i : ℕ) → i < n → p + i ≢ scratch)
      → ((a : ℕ) → a ≢ scratch → m' a ≡ m a)
      → cells n m' p ≡ cells n m p
  cells_same m m' zero p apart same = refl
  cells_same m m' (suc n) p apart same =
      λ j. same p (first apart) j ∷ cells_same m m' n (p + 1) (later apart) same j
    where
      first : ((i : ℕ) → i < suc n → p + i ≢ scratch) → p ≢ scratch
      first away e = away 0 (omega arith) (omega (arith, e))

      later : ((i : ℕ) → i < suc n → p + i ≢ scratch) → (i : ℕ) → i < n → p + 1 + i ≢ scratch
      later away i h e = away (suc i) (omega (arith, h)) (omega (arith, e))

  go_on_after :
      (c : ℕ) (m : Machine H) (rest : List ℕ) (cb : ℕ → Machine H → Option (Machine H))
      (go_on : Machine H → Option (Machine H)) (first : Puts log scratch m (c ∷ []) (cb c m))
      → Puts log scratch first.after rest (go_on first.after)
      → Puts log scratch m (c ∷ rest) (do m' ← cb c m; go_on m')
  go_on_after c m rest cb go_on first next = record {
    after = next.after;
    returns = rw first.returns next.returns;
    logs =
        next.logs
        ∙ ap (λ (l : List ℕ). l ++ rest) first.logs
        ∙ append_assoc (log m.hardware) (c ∷ []) rest;
    keeps = λ (a : ℕ) h. next.keeps a h ∙ first.keeps a h;
  }

  plain_lem :
      (n fuel : ℕ) (layout : Layout) (size fmt p : ℕ) (args : List ℕ) (m : Machine H)
      (cb : ℕ → Machine H → Option (Machine H))
      → ((c : ℕ) (m' : Machine H) → Puts log scratch m' (c ∷ []) (cb c m'))
      → n < fuel
      → Text m.memory scratch p n
      → fmt ≤ p
      → p + n ≤ fmt + size
      → (m.memory (p + n) ≡ 0) ⊎ (size ≤ p + n - fmt)
      → Puts log scratch m (cells n m.memory p) (format_from cb fuel layout size fmt p args m)
  unfolding format_from
  plain_lem n zero layout size fmt p args m cb law enough t from fits stops = absurd (omega arith)
  plain_lem zero (suc fuel) layout size fmt p args m cb law enough t from fits stops =
      rw stop (record {
        after = m;
        returns = refl;
        logs = sym (append-nil (log m.hardware));
        keeps = λ (a : ℕ) h. refl;
      })
    where
      at_end : p + 0 ≡ p
      at_end = omega arith

      stop : ((m.memory p == 0) || leb size (p - fmt)) ≡ true
      stop = ground (arith, (rw at_end at stops))
  plain_lem (suc n) (suc fuel) layout size fmt p args m cb law enough t from fits stops =
      let first = law (m.memory p) m in
      rw (go_on, plain)
        (go_on_after (m.memory p) m (cells n m.memory (p + 1)) cb
          (format_from cb fuel layout size fmt (p + 1) args) first
          (rw (sym (cells_same m.memory first.after.memory n (p + 1) away first.keeps)) (
            plain_lem n fuel layout size fmt (p + 1) args first.after cb law (omega (arith, enough))
              (behind_first m.memory first.after.memory p n t first.keeps) (omega (arith, from))
              (omega (arith, fits))
              (rw (moved, first.keeps (p + suc n) (t.apart (suc n) (omega arith))) stops))))
    where
      moved : p + 1 + n ≡ p + suc n
      moved = omega arith

      away : (i : ℕ) → i < n → p + 1 + i ≢ scratch
      away i h e = t.apart (suc i) (omega (arith, h)) (omega (arith, e))

      start : p + 0 ≡ p
      start = omega arith

      c_ne_zero : m.memory p ≢ 0
      c_ne_zero = rw start at (t.nonzero 0 (omega arith))

      c_ne_percent : m.memory p ≢ 37
      c_ne_percent = rw start at (t.no_percent 0 (omega arith))

      go_on : ((m.memory p == 0) || leb size (p - fmt)) ≡ false
      go_on = ground (arith, c_ne_zero, from, fits)

      plain : (m.memory p == 37) ≡ false
      plain = ground (arith, c_ne_percent)

module _ {H : Type 0} (devices : ℕ → DevOps H) (garbage : Vnode) (usic : Usic H) (polls : ℕ)
    (vendor : Call → H → H) (config : ℕ) (mapped : devices dev_uart ≡ uart usic polls vendor config)
    (sent : H → List ℕ) (line : Transmits usic polls sent) where
  cb_printf-Puts :
      (scratch errno c : ℕ) (m : Machine H)
      → Puts sent scratch m (c ∷ []) (cb_printf devices garbage scratch errno c m)
  unfolding cb_printf store
  cb_printf-Puts scratch errno c m =
      elim (sys_write_lem devices garbage usic polls vendor config mapped sent 1 scratch 1 errno
        (record m { memory = store scratch c m.memory }) line (omega arith)) [
          | inl (file, w) ↦ record {
            after = record { memory = store scratch c m.memory; hardware = w.after };
            returns = rw w.returns refl;
            logs = w.sends ∙ ap (λ (b : ℕ). sent m.hardware ++ (b ∷ [])) (ground arith);
            keeps = λ (a : ℕ) h. ground (arith, h);
          }
          | inr (no_one, no_two, r) ↦ absurd (no_one refl)
        ]

  -- On a UART line that drains, printf with a format of `n` characters without '%' before its zero byte, at
  -- most 128, returns 0 and sends exactly these characters, in order; no memory changes but the parameter
  -- of cb_printf.
  pub printf-sends_all :
      (layout : Layout) (n fuel c errno fmt : ℕ) (va : List ℕ) (m : Machine H)
      → n < fuel
      → n ≤ 128
      → Text m.memory c fmt n
      → m.memory (fmt + n) ≡ 0
      → Puts sent c m (cells n m.memory fmt) (do
        (ret, m') ← printf devices garbage fuel layout c errno fmt va m
        if ret == 0 then some m' else none)
  unfolding printf cnprintf
  printf-sends_all layout n fuel c errno fmt va m enough short t ends = record {
    after = p.after;
    returns = rw p.returns refl;
    logs = p.logs;
    keeps = p.keeps;
  }
    where
      p :
          Puts sent c m
            (cells n m.memory fmt)
            (format_from (cb_printf devices garbage c errno) fuel layout 128 fmt fmt va m)
      p =
          plain_lem sent c n fuel layout 128 fmt fmt va m (cb_printf devices garbage c errno)
            (λ (char : ℕ) m'. cb_printf-Puts c errno char m') enough t (omega arith)
            (omega (arith, short)) (inl ends)
