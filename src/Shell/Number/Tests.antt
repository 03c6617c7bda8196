-- ===== src/Shell/Number/Tests.antt =====
-- cli_parse_u32 at concrete strings.
use wio_lite_ai.Base.{◌≡◌, refl, arith, none, some, CStr, codes, load}
use wio_lite_ai.Shell.Number.{parse_u32, is_hex, u32_digits, u32_loop, digit}
use wio_lite_ai.Shell.Number.Numeral.{parse_u32-denoted}

largest : parse_u32 20 (load "4294967295") (some 0) ≡ some (some 4294967295)
unfolding parse_u32 is_hex u32_digits u32_loop digit
largest = refl

too_many_bits : parse_u32 20 (load "0x100000000") (some 0) ≡ some none
unfolding parse_u32 is_hex u32_digits u32_loop digit
too_many_bits = refl

hex-CStr : CStr (load "0xFf") 0 (codes "0xFf")
hex-CStr = omega arith

parse_u32-denoted_example : parse_u32 9 (load "0xFf") (some 0) ≡ some (some 255)
parse_u32-denoted_example =
    parse_u32-denoted 9 (load "0xFf") 0 (codes "0xFf") hex-CStr (omega arith)
