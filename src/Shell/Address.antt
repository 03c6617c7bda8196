-- ===== src/Shell/Address.antt =====
-- The address parsers at the end of shell/core/cli_parse.c. Addresses, memory, fuel and results are
-- as in Shell.Number. The octets are at most 255 where they are put together, so that `|` of the
-- shifted ones is their sum.
pub mod Dotted
pub mod Prefix
mod Tests
use wio_lite_ai.Base.{
  ℕ, zero, suc, ◌+◌, ◌-◌, ◌*◌, ◌%◌, ◌^◌, ◌||◌, not, Bool, true, false, Option, none, some, List, [],
  ◌∷◌, ◌++◌, ◌==◌, leb, ltb, if◌then◌else◌, length, Mem, store,
}
use wio_lite_ai.Shell.Number.{between, parse_u32}

-- `while (*p >= '0' && *p <= '9')`: the value, the number of digits and where they end, or -1.
unfoldable pub octet_loop : ℕ → Mem → ℕ → ℕ → ℕ → Option (Option (ℕ × ℕ × ℕ))
octet_loop zero m p v digits = none
octet_loop (suc f) m p v digits = elim (between b'0' b'9' (m p)) [
  | false ↦ some (some (v, digits, p))
  | true ↦
      let w = (v * 10 + (m p - b'0')) % 2 ^ 32 in
      elim (ltb 255 w) [ true ↦ some none | false ↦ octet_loop f m (p + 1) w (digits + 1) ]
]

-- `for (;;)` with `b` up to `i`; -1, or the octets.
unfoldable pub ipv4_loop : ℕ → Mem → ℕ → List ℕ → Option (Option (List ℕ))
unfolding octet_loop
ipv4_loop zero m p b = none
ipv4_loop (suc f) m p b = elim (octet_loop (suc f) m p 0 0) [
  | none ↦ none
  | some none ↦ some none
  | some (some (v, digits, q)) ↦ elim (digits == 0 || ltb 3 (length b)) [
    | true ↦ some none
    | false ↦ elim (m q == 0) [
      | true ↦ some (some (b ++ v ∷ []))
      | false ↦ elim (m q == b'.') [
        | false ↦ some none
        | true ↦ ipv4_loop f m (q + 1) (b ++ v ∷ [])
      ]
    ]
  ]
]

abbrev pub join_octets : List ℕ → Option ℕ
join_octets (b0 ∷ b1 ∷ b2 ∷ b3 ∷ []) = some (b0 * 2 ^ 24 + b1 * 2 ^ 16 + b2 * 2 ^ 8 + b3)
join_octets b = none

unfoldable pub joined : Option (Option (List ℕ)) → Option (Option ℕ)
joined none = none
joined (some none) = some none
joined (some (some b)) = some (join_octets b)

-- `cli_parse_ipv4`; `none` for `s` is NULL.
unfoldable pub parse_ipv4 : ℕ → Mem → Option ℕ → Option (Option ℕ)
unfolding ipv4_loop joined
parse_ipv4 f m none = some none
parse_ipv4 f m (some p) = joined (ipv4_loop f m p [])

abbrev pub cidr_room : ℕ
cidr_room = 20

-- The copy into `buf`, `n` bytes of it so far: -1, or the buffer and `slash`.
unfoldable pub cidr_loop : ℕ → Mem → ℕ → Mem → ℕ → Option (Option (Mem × Option ℕ))
cidr_loop zero m p buf n = none
cidr_loop (suc f) m p buf n = elim (m p == 0) [
  | true ↦ some (some (store buf n 0, none))
  | false ↦ elim (m p == b'/') [
    | true ↦ some (some (store buf n 0, some (p + 1)))
    | false ↦ elim (leb (cidr_room - 1) n) [
      | true ↦ some none
      | false ↦ cidr_loop f m (p + 1) (store buf n (m p)) (n + 1)
    ]
  ]
]

unfoldable pub mask_of : ℕ → ℕ
mask_of bits = if bits == 0 then 0 else 0xFFFFFFFF * 2 ^ (32 - bits) % 2 ^ 32

unfoldable pub with_bits : ℕ → Option (Option ℕ) → Option (Option (ℕ × ℕ))
unfolding mask_of
with_bits ip none = none
with_bits ip (some none) = some none
with_bits ip (some (some bits)) = if ltb 32 bits then some none else some (some (ip, mask_of bits))

unfoldable pub with_address : ℕ → Mem → ℕ → Option (Option ℕ) → Option (Option (ℕ × ℕ))
unfolding with_bits
with_address f m slash none = none
with_address f m slash (some none) = some none
with_address f m slash (some (some ip)) = with_bits ip (parse_u32 f m (some slash))

unfoldable pub with_copy : ℕ → Mem → Option (Option (Mem × Option ℕ)) → Option (Option (ℕ × ℕ))
unfolding with_address
with_copy f m none = none
with_copy f m (some none) = some none
with_copy f m (some (some (buf, none))) = some none
with_copy f m (some (some (buf, some slash))) = with_address f m slash (parse_ipv4 f buf (some 0))

-- `cli_parse_ipv4_cidr`, the address and the mask. `buf` has what was on the stack.
unfoldable pub parse_ipv4_cidr : ℕ → Mem → Mem → Option ℕ → Option (Option (ℕ × ℕ))
unfolding cidr_loop with_copy
parse_ipv4_cidr f m buf none = some none
parse_ipv4_cidr f m buf (some p) = with_copy f m (cidr_loop f m p buf 0)

-- `cli_ipv4_mask_bits`, one unit of fuel a shift.
unfoldable pub mask_bits_loop : ℕ → ℕ → ℕ → Option ℕ
mask_bits_loop zero mask n = none
mask_bits_loop (suc f) mask n = elim (leb (2 ^ 31) mask) [
  | false ↦ some n
  | true ↦ mask_bits_loop f (mask * 2 % 2 ^ 32) (n + 1)
]

unfoldable pub mask_bits : ℕ → Option ℕ
unfolding mask_bits_loop
mask_bits mask = mask_bits_loop 33 mask 0
