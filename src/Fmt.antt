-- ===== src/Fmt.antt =====
-- svc/fmt.c: the formatter behind the shell's output and the log. A sink is a function `put` from a
-- state and a byte to a state. A format, and a string argument, is the list of its bytes; `*p` at
-- its end is NUL. An argument is a word of 32 bits (int, unsigned, long, size_t, a pointer to void),
-- a long long, or a string, which may be NULL, as on the Cortex-M7, where size_t is unsigned int.
-- Reading an argument that is missing, or of another kind, is undefined in C.
pub mod Sink
pub mod Digits
pub mod Render
pub mod Kinds
pub mod Arguments
pub mod Buffer
pub mod RoundTrip
mod Tests
use wio_lite_ai.Base.{
  ℕ, zero, suc, ◌+◌, ◌-◌, ◌*◌, ◌/◌, ◌%◌, ◌^◌, ◌&&◌, ◌||◌, not, Bool, true, false, Option, none,
  some, List, [], ◌∷◌, ◌++◌, ◌==◌, leb, ltb, if◌then◌else◌, length, get_or, codes, replicate, Mem,
  store,
}
use wio_lite_ai.Shell.Number.{between}

-- `enum len_mod`
pub data LenMod : Type 0 where
  int long llong size : LenMod

pub data Arg : Type 0 where
  word dword : ℕ → Arg
  string : Option (List ℕ) → Arg

-- What a run of the formatter leaves.
pub data Outcome (S : Type 0) : Type 0 where
  done : S → Outcome S
  undefined_argument out_of_fuel : Outcome S

-- `fmt_utoa`: the digits of `mag`, the last one first put in `tmp`, which has room for `room` more;
-- `none` is a write beyond it. `acc` has what `tmp` holds, un-reversed.
abbrev pub digit_char : Bool → ℕ → ℕ
digit_char upper d =
    get_or (if upper then codes "0123456789ABCDEF" else codes "0123456789abcdef") d 0

unfoldable pub utoa_loop : ℕ → ℕ → ℕ → Bool → List ℕ → Option (List ℕ)
utoa_loop zero mag base upper acc = none
utoa_loop (suc room) mag base upper acc = elim (mag / base == 0) [
  | true ↦ some (digit_char upper (mag % base) ∷ acc)
  | false ↦ utoa_loop room (mag / base) base upper (digit_char upper (mag % base) ∷ acc)
]

abbrev pub body_size : ℕ
body_size = 20

unfoldable pub utoa : ℕ → ℕ → Bool → Option (List ℕ)
unfolding utoa_loop
utoa mag base upper = utoa_loop body_size mag base upper []

-- The flags, the field width and the length modifier behind a `%`, and what is behind them.
unfoldable pub flags : List ℕ → Bool → Bool → Bool × Bool × List ℕ
flags [] left zeros = (left, zeros, [])
flags (c ∷ cs) left zeros = elim (c == b'-') [
  | true ↦ flags cs true zeros
  | false ↦ elim (c == b'0') [ true ↦ flags cs left true | false ↦ (left, zeros, c ∷ cs) ]
]

abbrev pub max_width : ℕ
max_width = 4096

unfoldable pub field_width : List ℕ → ℕ → ℕ × List ℕ
field_width [] width = (width, [])
field_width (c ∷ cs) width = elim (between b'0' b'9' c) [
  | true ↦
      let w = width * 10 + (c - b'0') in field_width cs (if ltb max_width w then max_width else w)
  | false ↦ (width, c ∷ cs)
]

unfoldable pub length_modifier : List ℕ → LenMod × List ℕ
length_modifier [] = (int, [])
length_modifier (c ∷ []) =
    if c == b'l' then (long, []) else if c == b'z' then (size, []) else (int, c ∷ [])
length_modifier (c ∷ d ∷ cs) =
    if c == b'l'
    then (if d == b'l' then (llong, cs) else (long, d ∷ cs))
    else if c == b'z'
    then (size, d ∷ cs)
    else (int, c ∷ d ∷ cs)

pub record Directive : Type 0 where
  pub left : Bool
  pub zeros : Bool
  pub width : ℕ
  pub modifier : LenMod
  pub behind : List ℕ

unfoldable pub directive : List ℕ → Directive
unfolding flags field_width length_modifier
directive cs =
    let (left, zeros, cs') = flags cs false false in
    let (width, cs'') = field_width cs' 0 in
    let (modifier, behind) = length_modifier cs'' in
    record { left = left; zeros = zeros; width = width; modifier = modifier; behind = behind }

-- GET_UNSIGNED
unfoldable pub get_unsigned : LenMod → List Arg → Option (ℕ × List Arg)
get_unsigned llong (dword v ∷ args) = some (v % 2 ^ 64, args)
get_unsigned int (word v ∷ args) = some (v % 2 ^ 32, args)
get_unsigned long (word v ∷ args) = some (v % 2 ^ 32, args)
get_unsigned size (word v ∷ args) = some (v % 2 ^ 32, args)
get_unsigned lm args = none

-- GET_SIGNED with the sign and the magnitude of the value in two's complement: the bits `v`, of
-- `2 ^ w` in all, are below zero from `half` on, and then `-(v + 1)`, and 1 added.
abbrev pub sign_magnitude : ℕ → ℕ → Bool × ℕ
sign_magnitude half v = if leb half v then (true, half + half - v - 1 + 1) else (false, v)

unfoldable pub get_signed : LenMod → List Arg → Option ((Bool × ℕ) × List Arg)
unfolding get_unsigned
get_signed lm args = elim (get_unsigned lm args) [
  | none ↦ none
  | some (v, rest) ↦
      some (elim lm [ llong ↦ sign_magnitude (2 ^ 63) v | _ ↦ sign_magnitude (2 ^ 31) v ], rest)
]

module _ {S : Type 0} (put : S → ℕ → S) where
  -- `out_str`, and the loops over `body`.
  unfoldable pub out_str : List ℕ → S → S
  out_str [] s = s
  out_str (c ∷ cs) s = out_str cs (put s c)

  -- `while (pad-- > 0) put(ctx, c)`
  unfoldable pub pad_out : ℕ → ℕ → S → S
  pad_out c zero s = s
  pad_out c (suc n) s = pad_out c n (put s c)

  unfoldable pub fmt_padded : List ℕ → List ℕ → ℕ → Bool → Bool → S → S
  unfolding out_str pad_out
  fmt_padded prefix body width zeros left s =
      let pad = width - (length prefix + length body) in
      if left
      then pad_out b' ' pad (out_str body (out_str prefix s))
      else if zeros
      then out_str body (pad_out b'0' pad (out_str prefix s))
      else out_str body (out_str prefix (pad_out b' ' pad s))

  -- A number, its digits in `body`.
  unfoldable pub number :
      List ℕ → Option (List ℕ) → Directive → List Arg → S → Option (S × List Arg)
  unfolding fmt_padded
  number prefix none d args s = none
  number prefix (some body) d args s = some (fmt_padded prefix body d.width d.zeros d.left s, args)

  unfoldable pub unsigned : ℕ → Bool → Directive → Option (ℕ × List Arg) → S → Option (S × List Arg)
  unfolding number utoa
  unsigned base upper d none s = none
  unsigned base upper d (some (v, args)) s = number [] (utoa v base upper) d args s

  unfoldable pub signed : Directive → Option ((Bool × ℕ) × List Arg) → S → Option (S × List Arg)
  unfolding number utoa
  signed d none s = none
  signed d (some ((negative, mag), args)) s =
      number (if negative then b'-' ∷ [] else []) (utoa mag 10 false) d args s

  unfoldable pub character : Directive → List Arg → S → Option (S × List Arg)
  unfolding fmt_padded
  character d (word v ∷ args) s = some (fmt_padded [] (v % 2 ^ 8 ∷ []) d.width false d.left s, args)
  character d args s = none

  unfoldable pub text : Directive → List Arg → S → Option (S × List Arg)
  unfolding fmt_padded
  text d (string none ∷ args) s = some (fmt_padded [] (codes "(null)") d.width false d.left s, args)
  text d (string (some t) ∷ args) s = some (fmt_padded [] t d.width false d.left s, args)
  text d args s = none

  unfoldable pub pointer : Directive → List Arg → S → Option (S × List Arg)
  unfolding number utoa
  pointer d (word v ∷ args) s = number (codes "0x") (utoa (v % 2 ^ 32) 16 false) d args s
  pointer d args s = none

  -- `switch (*p)`, less its NUL.
  unfoldable pub convert : ℕ → Directive → List Arg → S → Option (S × List Arg)
  unfolding character text signed unsigned pointer get_signed get_unsigned
  convert c d args s =
      if c == b'%'
      then some (put s b'%', args)
      else if c == b'c'
      then character d args s
      else if c == b's'
      then text d args s
      else if c == b'd' || c == b'i'
      then signed d (get_signed d.modifier args) s
      else if c == b'u'
      then unsigned 10 false d (get_unsigned d.modifier args) s
      else if c == b'x'
      then unsigned 16 false d (get_unsigned d.modifier args) s
      else if c == b'X'
      then unsigned 16 true d (get_unsigned d.modifier args) s
      else if c == b'p'
      then pointer d args s
      else some (put (put s b'%') c, args)

  -- `fmt_vformat`, one unit of fuel a round.
  unfoldable pub vformat : ℕ → List ℕ → List Arg → S → Outcome S
  unfolding directive convert
  vformat zero fmt args s = out_of_fuel
  vformat (suc f) [] args s = done s
  vformat (suc f) (c ∷ cs) args s =
      let d = directive cs in
      elim (c == b'%') [
        | false ↦ vformat f cs args (put s c)
        | true ↦ elim d.behind [
          | [] ↦ done (put s b'%')
          | (e ∷ rest) ↦ elim (convert e d args s) [
            | none ↦ undefined_argument
            | some (s', args') ↦ vformat f rest args' s'
          ]
        ]
      ]

-- `struct fmt_snbuf`, with the memory that `buf` is in.
pub record Snbuf : Type 0 where
  pub mem : Mem
  pub pos : ℕ

-- `snbuf_putc`
unfoldable pub snbuf_putc : ℕ → ℕ → Snbuf → ℕ → Snbuf
snbuf_putc buf cap s c =
    if ltb (s.pos + 1) cap then record { mem = store s.mem (buf + s.pos) c; pos = s.pos + 1 } else s

unfoldable pub terminated : ℕ → Outcome Snbuf → Outcome (ℕ × Mem)
terminated buf (done s) = done (s.pos, store s.mem (buf + s.pos) 0)
terminated buf undefined_argument = undefined_argument
terminated buf out_of_fuel = out_of_fuel

-- `fmt_vsnformat`, its result and the memory.
unfoldable pub vsnformat : ℕ → Mem → ℕ → ℕ → List ℕ → List Arg → Outcome (ℕ × Mem)
unfolding vformat snbuf_putc terminated
vsnformat f m buf cap fmt args =
    if cap == 0
    then done (0, m)
    else terminated buf (vformat (snbuf_putc buf cap) f fmt args (record { mem = m; pos = 0 }))
