-- ===== src/Fmt/Tests.antt =====
-- svc/fmt.c at concrete formats and arguments.
use wio_lite_ai.Base.{
  ℕ, ◌+◌, true, store, write, ◌≡◌, ◌≤◌, inr, refl, arith, some, List, [], ◌∷◌, length, codes, Mem,
  CStr,
}
use wio_lite_ai.Shell.Number.{parse_u32}
use wio_lite_ai.Fmt.{
  Arg, word, string, done, vformat, vsnformat, convert, directive, flags, field_width,
  length_modifier, utoa, utoa_loop, body_size,
}
use wio_lite_ai.Shell.Number.Value.{value_of}
use wio_lite_ai.Fmt.Digits.{utoa_lem}
use wio_lite_ai.Fmt.Render.{rendered}
use wio_lite_ai.Fmt.Buffer.{vsnformat_lem, vsnformat-CStr}
use wio_lite_ai.Fmt.RoundTrip.{lower_hex, format_of, parse_u32-vsnformat}

abbrev zeros : Mem
zeros q = 0

-- "%-4s|%05d" of "ab" and -7.
abbrev columns : List Arg
columns = string (some (codes "ab")) ∷ word (4294967289) ∷ []

columns_shown : rendered 20 (codes "%-4s|%05d") columns ≡ done (codes "ab  |-0007")
unfolding rendered vformat convert directive flags field_width length_modifier utoa utoa_loop
columns_shown = refl

-- A sink that counts.
abbrev count : ℕ → ℕ → ℕ
count n c = n + 1

abbrev digits_fmt : List ℕ
digits_fmt = codes "%d!"

digits_shown : rendered 6 digits_fmt (word 42 ∷ []) ≡ done (codes "42!")
unfolding rendered vformat convert directive flags field_width length_modifier utoa utoa_loop
digits_shown = refl

-- A buffer of three bytes, at 100.
vsnformat_lem_example :
    vsnformat 6 zeros 100 3 digits_fmt (word 42 ∷ [])
    ≡ done (2, store (write zeros 100 (codes "42")) 102 0)
vsnformat_lem_example =
    vsnformat_lem 6 zeros 100 3 digits_fmt (word 42 ∷ []) (codes "42!") (omega arith) digits_shown

vsnformat-CStr_example :
    (m' : Mem) × (vsnformat 6 zeros 100 3 digits_fmt (word 42 ∷ []) ≡ done (2, m'))
    × CStr m' 100 (codes "42")
vsnformat-CStr_example =
    vsnformat-CStr 6 zeros 100 3 digits_fmt (word 42 ∷ []) (codes "42!") (omega arith) digits_shown
      ((λ z. omega (arith, z)), ((λ z. omega (arith, z)), tt))

parse_u32-vsnformat_example :
    (len : ℕ) × (m' : Mem) × (vsnformat 5 zeros 100 32 (format_of lower_hex) (word 0xBEEF ∷ [])
      ≡ done (len, m'))
    × (parse_u32 23 m' (some 100) ≡ some (some 0xBEEF))
parse_u32-vsnformat_example =
    parse_u32-vsnformat lower_hex 0xBEEF 100 32 23 zeros (omega arith) (omega arith) (omega arith)

utoa_lem_example :
    (l : List ℕ) × (utoa 0xBEEF 16 true ≡ some l)
    × (value_of 16 l ≡ some 0xBEEF)
    × (length l ≤ body_size)
utoa_lem_example = utoa_lem 0xBEEF 16 true (inr refl) (omega arith)
