-- ===== src/Libc.antt =====
-- lib/libc: the string functions, getchar and printf.
pub mod Strings
pub mod Digits
pub mod Printf
