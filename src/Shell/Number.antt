-- ===== src/Shell/Number.antt =====
-- cli_parse_u32 of shell/core/cli_parse.c: a decimal or 0x-prefixed number of 32 bits. Addresses,
-- memory and fuel are as in Shell.Token; an outer `none` is no fuel, an inner one the result -1.
pub mod Value
pub mod Numeral
mod Tests
use wio_lite_ai.Base.{
  ℕ, zero, suc, ◌+◌, ◌-◌, ◌*◌, ◌/◌, ◌%◌, ◌^◌, ◌&&◌, ◌||◌, Bool, true, false, Option, none, some,
  ◌==◌, leb, ltb, if◌then◌else◌, Mem,
}

abbrev pub between : ℕ → ℕ → ℕ → Bool
between lo hi c = leb lo c && leb c hi

-- The value of a digit in base 10 or 16.
unfoldable pub digit : ℕ → ℕ → Option ℕ
digit base c =
    if between b'0' b'9' c
    then some (c - b'0')
    else if base == 16 && between b'a' b'f' c
    then some (c - b'a' + 10)
    else if base == 16 && between b'A' b'F' c
    then some (c - b'A' + 10)
    else none

-- `for (; *p != '\0'; p++)`
unfoldable pub u32_loop : ℕ → ℕ → Mem → ℕ → ℕ → Option (Option ℕ)
u32_loop zero base m p val = none
u32_loop (suc f) base m p val = elim (m p == 0) [
  | true ↦ some (some val)
  | false ↦ elim (digit base (m p)) [
    | none ↦ some none
    | some d ↦ elim (ltb ((0xFFFFFFFF - d) / base) val) [
      | true ↦ some none
      | false ↦ u32_loop f base m (p + 1) ((val * base + d) % 2 ^ 32)
    ]
  ]
]

unfoldable pub is_hex : Mem → ℕ → Bool
is_hex m p = m p == b'0' && (m (p + 1) == b'x' || m (p + 1) == b'X')

-- The digits from `p` on, of which there must be one.
unfoldable pub u32_digits : ℕ → ℕ → Mem → ℕ → Option (Option ℕ)
u32_digits f base m p = if m p == 0 then some none else u32_loop f base m p 0

-- `none` for `p` is NULL.
unfoldable pub parse_u32 : ℕ → Mem → Option ℕ → Option (Option ℕ)
unfolding is_hex u32_digits
parse_u32 f m none = some none
parse_u32 f m (some p) =
    if m p == 0
    then some none
    else if is_hex m p
    then u32_digits f 16 m (p + 2)
    else u32_digits f 10 m p
