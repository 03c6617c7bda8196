-- ===== src/Shell/Address/Tests.antt =====
-- The address parsers at "10.0.2.15", "10.0.2.15/24" and strings that are refused.
use wio_lite_ai.Base.{
  ℕ, ◌≡◌, ◌≤◌, ◌<◌, ◌-◌, ◌*◌, ◌+◌, ◌^◌, refl, arith, none, some, Mem, CStr, codes, load,
}
use wio_lite_ai.Shell.Number.{digit, parse_u32, is_hex, u32_digits, u32_loop}
use wio_lite_ai.Shell.Number.Value.{value}
use wio_lite_ai.Shell.Address.{
  parse_ipv4, parse_ipv4_cidr, ipv4_loop, octet_loop, joined, cidr_loop, with_copy, with_address,
  with_bits, mask_of, mask_bits,
}
use wio_lite_ai.Shell.Address.Dotted.{Field, parse_ipv4_lem}
use wio_lite_ai.Shell.Address.Prefix.{mask_bits_lem, mask_bits-mask_of}

too_many_fields : parse_ipv4 20 (load "1.2.3.4.5") (some 0) ≡ some none
unfolding parse_ipv4 ipv4_loop octet_loop joined
too_many_fields = refl

large_octet : parse_ipv4 20 (load "1.2.256.4") (some 0) ≡ some none
unfolding parse_ipv4 ipv4_loop octet_loop joined
large_octet = refl

abbrev zeros : Mem
zeros q = 0

with_prefix :
    parse_ipv4_cidr 20 (load "10.0.2.15/24") zeros (some 0) ≡ some (some (0x0A00020F, 0xFFFFFF00))
unfolding parse_ipv4_cidr with_copy cidr_loop with_address with_bits parse_ipv4 ipv4_loop octet_loop
    joined mask_of parse_u32 is_hex u32_digits u32_loop digit
with_prefix = refl

abbrev ten : Field
ten = record { numeral = codes "10"; octet = 10 }

abbrev nought : Field
nought = record { numeral = codes "0"; octet = 0 }

abbrev two : Field
two = record { numeral = codes "2"; octet = 2 }

abbrev fifteen : Field
fifteen = record { numeral = codes "15"; octet = 15 }

host-CStr : CStr (load "10.0.2.15") 0 (codes "10.0.2.15")
host-CStr = omega arith

parse_ipv4_lem_example :
    parse_ipv4 10 (load "10.0.2.15") (some 0)
    ≡ some (some (10 * 2 ^ 24 + 0 * 2 ^ 16 + 2 * 2 ^ 8 + 15))
unfolding value digit
parse_ipv4_lem_example =
    parse_ipv4_lem 10 (load "10.0.2.15") 0 ten nought two fifteen host-CStr
      (refl, omega arith, (refl, omega arith, (refl, omega arith, (refl, omega arith, tt))))
      (omega arith)

mask_bits_lem_example :
    (k : ℕ) × (mask_bits 0xFFFF0000 ≡ some k)
    × ((2 ^ 32 - 0xFFFF0000) * 2 ^ k ≤ 2 ^ 32)
    × (2 ^ 32 < (2 ^ 32 - 0xFFFF0000) * 2 ^ (k + 1))
mask_bits_lem_example = mask_bits_lem 0xFFFF0000 (omega arith)

mask_bits-mask_of_example : mask_bits (mask_of 24) ≡ some 24
mask_bits-mask_of_example = mask_bits-mask_of 24 (omega arith)
