-- ===== src/Libc/Printf.antt =====
-- cnprintf and printf of lib/libc/stdio/printf.c, and getchar. The buffer `bf`, the format, the strings
-- and the literals lie in memory; `none` means that fuel has run out, or that an output does not end.
pub mod Plain
use pascal_scheduler.Prelude.{
  store_all, ℕ, zero, suc, ◌+◌, ◌*◌, ◌-◌, ◌^◌, ◌%◌, Bool, ◌&&◌, ◌||◌, Option, none, some, List, [],
  ◌∷◌, ltb, leb, ◌==◌, if◌then◌else◌, ◌>>=◌, bit_or, store,
}
use pascal_scheduler.Prelude.Word.{add32, long_lt}
use pascal_scheduler.Dev.{Machine, DevOps, Vnode}
use pascal_scheduler.Syscall.{Outcome, sys_write, sys_read}
use pascal_scheduler.Libc.Strings.{strcpy}
use pascal_scheduler.Libc.Digits.{ui2a, i2a}

-- `struct s_fmt`. The flags, lengths and specifiers are the numbers of the FMT_ constants.
pub record Fmt : Type 0 where
  pub p : ℕ
  pub flags : ℕ
  pub width : ℕ
  pub length : ℕ
  pub specifier : ℕ

-- A case that sets a flag and goes on to the next character.
unfoldable pub flag : ℕ → Fmt → Fmt
flag bit fmt = record fmt { flags = bit_or fmt.flags bit; p = fmt.p + 1 }

-- The characters are '+', '-', ' ', '#' and '0'.
unfoldable pub fmt_flags : (ℕ → ℕ) → Fmt → Fmt
fmt_flags memory fmt =
    let c = memory fmt.p in
    if c == 43
    then flag 1 fmt
    else if c == 45
    then flag 2 fmt
    else if c == 32
    then flag 4 fmt
    else if c == 35
    then flag 8 fmt
    else if c == 48
    then flag 16 fmt
    else fmt

-- The loop of fmt_width, on fuel, over the characters from '0' to '9'.
unfoldable pub width_from : ℕ → (ℕ → ℕ) → Fmt → Option Fmt
width_from zero memory fmt = none
width_from (suc fuel) memory fmt =
    let c = memory fmt.p in
    let rest =
      width_from fuel memory
        (record fmt { width = add32 (fmt.width * 10 % 2 ^ 32) (c - 48); p = fmt.p + 1 }) in
    if leb c 57 && leb 48 c then rest else some fmt

unfoldable pub fmt_width : ℕ → (ℕ → ℕ) → Fmt → Option Fmt
fmt_width fuel memory fmt = width_from fuel memory (record fmt { width = 0 })

unfoldable pub lengthen : ℕ → ℕ → Fmt → Fmt
lengthen bit steps fmt = record fmt { length = bit_or fmt.length bit; p = fmt.p + steps }

-- The characters are 'h' and 'l'.
unfoldable pub fmt_length : (ℕ → ℕ) → Fmt → Fmt
fmt_length memory fmt =
    if memory fmt.p == 104
    then (if memory (fmt.p + 1) == 104 then lengthen 1 2 fmt else lengthen 2 1 fmt)
    else if memory fmt.p == 108
    then (if memory (fmt.p + 1) == 108 then lengthen 8 2 fmt else lengthen 4 1 fmt)
    else fmt

unfoldable pub specify : ℕ → Fmt → Fmt
specify bit fmt = record fmt { specifier = bit_or fmt.specifier bit; p = fmt.p + 1 }

-- The characters are 'i', 'd', 'u', 'c', 's' and 'x'.
unfoldable pub fmt_specifier : (ℕ → ℕ) → Fmt → Fmt
fmt_specifier memory fmt =
    let c = memory fmt.p in
    if (c == 105) || (c == 100)
    then specify 1 fmt
    else if c == 117
    then specify 2 fmt
    else if c == 99
    then specify 4 fmt
    else if c == 115
    then specify 8 fmt
    else if c == 120
    then specify 16 fmt
    else fmt

-- One conversion behind the '%', from its flags to its specifier.
unfoldable pub parse : ℕ → (ℕ → ℕ) → ℕ → Option Fmt
parse fuel memory p = do
  fmt ←
      fmt_width fuel memory
        (fmt_flags memory (record { p = p; flags = 0; width = 0; length = 0; specifier = 0 }))
  some (fmt_specifier memory (fmt_length memory fmt))

-- An int argument as a long long int.
unfoldable pub extend : ℕ → ℕ
extend arg = if ltb arg (2 ^ 31) then arg else arg + (2 ^ 64 - 2 ^ 32)

-- va_arg: the next word of the arguments. A call with too few of them is undefined.
unfoldable pub next_arg : List ℕ → Option (ℕ × List ℕ)
next_arg [] = none
next_arg (arg ∷ args) = some (arg, args)

-- The addresses of `bf` and of the literals "NaN" and "0x".
pub record Layout : Type 0 where
  pub bf : ℕ
  pub nan : ℕ
  pub hex : ℕ

-- How an integer is converted: a length up to `h` or of `l` takes an argument, `ll` copies "NaN"; no
-- other length occurs.
unfoldable pub convert :
    (ℕ → Option (List ℕ)) → ℕ → Layout → ℕ → ℕ → List ℕ → (ℕ → ℕ) → Option (List ℕ × (ℕ → ℕ))
convert print fuel layout length at args memory =
    if leb length 2 || (length == 4)
    then (do
      (arg, args') ← next_arg args
      chars ← print arg
      some (args', store_all chars at memory))
    else if length == 8
    then (do memory' ← strcpy fuel layout.bf layout.nan memory; some (args, memory'))
    else some (args, memory)

module _ {H : Type 0} (cb : ℕ → Machine H → Option (Machine H)) where
  -- `while (*b != '\0') { cb(*b); b++; }`, on fuel.
  unfoldable pub output : ℕ → ℕ → Machine H → Option (Machine H)
  output zero b m = none
  output (suc fuel) b m =
      if m.memory b == 0 then some m else (do m' ← cb (m.memory b) m; output fuel (b + 1) m')

  -- The `switch` on the specifier.
  unfoldable pub fill : ℕ → Layout → Fmt → List ℕ → Machine H → Option (List ℕ × Machine H)
  fill fuel layout fmt args m =
      if fmt.specifier == 1
      then (do
        (args', memory) ←
            convert (λ a. i2a (extend a) 10) fuel layout fmt.length layout.bf args m.memory
        some (args', record m { memory = memory }))
      else if fmt.specifier == 2
      then (do
        (args', memory) ← convert (λ a. ui2a a 10) fuel layout fmt.length layout.bf args m.memory
        some (args', record m { memory = memory }))
      else if fmt.specifier == 4
      then (do
        (arg, args') ← next_arg args
        some (args', record m { memory = store_all (arg % 256 ∷ 0 ∷ []) layout.bf m.memory }))
      else if fmt.specifier == 8
      then (do
        (arg, args') ← next_arg args
        m' ← output fuel arg (record m { memory = store layout.bf 0 m.memory })
        some (args', m'))
      else if fmt.specifier == 16
      then (do
        memory ← strcpy fuel layout.bf layout.hex m.memory
        (args', memory') ←
            convert (λ a. i2a (extend a) 16) fuel layout fmt.length (layout.bf + 2) args memory
        some (args', record m { memory = memory' }))
      else some (args, m)

  -- One conversion behind the '%', with its output.
  unfoldable pub conversion : ℕ → Layout → ℕ → List ℕ → Machine H → Option (ℕ × List ℕ × Machine H)
  conversion fuel layout p args m = do
    fmt ← parse fuel m.memory p
    (args', m') ← fill fuel layout fmt args m
    m'' ← output fuel layout.bf m'
    some (fmt.p, args', m'')

  -- The loop of cnprintf, on fuel; `fmt` is the start of the format and `p` where it stands.
  unfoldable pub format_from : ℕ → Layout → ℕ → ℕ → ℕ → List ℕ → Machine H → Option (Machine H)
  format_from zero layout size fmt p args m = none
  format_from (suc fuel) layout size fmt p args m =
      if (m.memory p == 0) || leb size (p - fmt)
      then some m
      else if m.memory p == 37
      then (do
        (p', args', m') ← conversion fuel layout (p + 1) args m
        format_from fuel layout size fmt p' args' m')
      else (do m' ← cb (m.memory p) m; format_from fuel layout size fmt (p + 1) args m')

  unfoldable pub cnprintf : ℕ → Layout → ℕ → ℕ → List ℕ → Machine H → Option (Machine H)
  cnprintf fuel layout size fmt va m = format_from fuel layout size fmt fmt va m

module _ {H : Type 0} (devices : ℕ → DevOps H) (garbage : Vnode) where
  -- `c` is the address of the parameter, and `errno` stays as it is, since the file is 1.
  unfoldable pub cb_printf : ℕ → ℕ → ℕ → Machine H → Option (Machine H)
  cb_printf c errno char m = do
    o ← sys_write devices garbage 1 c 1 errno (record m { memory = store c char m.memory })
    some o.machine

  -- The size is 128, and the answer of the source is always 0.
  unfoldable pub printf : ℕ → Layout → ℕ → ℕ → ℕ → List ℕ → Machine H → Option (ℕ × Machine H)
  printf fuel layout c errno fmt va m = do
    m' ← cnprintf (cb_printf c errno) fuel layout 128 fmt va m
    some (0, m')

  -- getchar: what has been read into the local variable at `c`.
  unfoldable pub getchar : ℕ → ℕ → ℕ → Machine H → Option (ℕ × Machine H)
  getchar fuel c errno m = do
    o ← sys_read devices garbage fuel 0 c 1 errno m
    some (o.machine.memory c, o.machine)
