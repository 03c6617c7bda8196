-- ===== src/Fmt/RoundTrip.antt =====
-- A number that the formatter prints into a buffer is read back by cli_parse_u32.
use wio_lite_ai.Base.{
  ℕ, suc, ◌+◌, ◌-◌, ◌*◌, ◌%◌, ◌^◌, ◌≤◌, ◌<◌, ◌≡◌, ◌⊎◌, inl, inr, refl, sym, subst, ap, ◌∙◌, arith,
  Bool, true, false, Bool-cases, Option, some, Option-cases, List, [], ◌∷◌, ◌++◌, append_assoc,
  append-nil, take, take_all, ◌==◌, ◌||◌, ◌&&◌, if◌then◌else◌, length, codes, Mem, CStr, NonNul,
}
use wio_lite_ai.Shell.Number.{between, digit, parse_u32}
use wio_lite_ai.Shell.Number.Value.{value, value_of, numeral, in_u32, parse_u32_lem}
use wio_lite_ai.Fmt.{
  word, done, Directive, int, directive, utoa, body_size, out_str, pad_out, fmt_padded, number,
  convert, vformat, vsnformat,
}
use wio_lite_ai.Fmt.Sink.{vformat-plain, vformat-directive}
use wio_lite_ai.Fmt.Digits.{utoa_lem}
use wio_lite_ai.Fmt.Render.{append_byte, rendered}
use wio_lite_ai.Fmt.Buffer.{vsnformat-CStr}

-- The formats of one number that cli_parse_u32 can read.
pub data Radix : Type 0 where
  decimal lower_hex upper_hex address : Radix

abbrev pub format_of : Radix → List ℕ
format_of decimal = codes "%u"
format_of lower_hex = codes "0x%x"
format_of upper_hex = codes "0x%X"
format_of address = codes "%p"

abbrev prefix_of : Radix → List ℕ
prefix_of decimal = []
prefix_of r = codes "0x"

abbrev base_of : Radix → ℕ
base_of decimal = 10
base_of r = 16

abbrev upper_of : Radix → Bool
upper_of upper_hex = true
upper_of r = false

out_str-list : (xs s : List ℕ) → out_str append_byte xs s ≡ s ++ xs
unfolding out_str
out_str-list [] s = sym (append-nil s)
out_str-list (x ∷ xs) s = out_str-list xs (s ++ x ∷ []) ∙ append_assoc s (x ∷ []) xs

-- With no flags and no width, the prefix and the digits.
abbrev plain : ℕ → Directive
plain c = record { left = false; zeros = false; width = 0; modifier = int; behind = c ∷ [] }

not_padded :
    (pre body s : List ℕ) → fmt_padded append_byte pre body 0 false false s ≡ s ++ pre ++ body
unfolding fmt_padded pad_out
not_padded pre body s =
    let none_left : 0 - (length pre + length body) ≡ 0 = omega arith in
    ap (λ k. out_str append_byte body (out_str append_byte pre (pad_out append_byte b' ' k s)))
      none_left
    ∙ out_str-list body (out_str append_byte pre s)
    ∙ ap (λ t. t ++ body) (out_str-list pre s)

-- One conversion of a number, at the end of a format, when the bytes `front` are out.
last_number :
    (f e n : ℕ) (front pre l : List ℕ) (o : Option (List ℕ))
    → o ≡ some l
    → (directive (e ∷ [])) ≡ plain e
    → convert append_byte e (plain e) (word n ∷ []) front
      ≡ number append_byte pre o (plain e) [] front
    → vformat append_byte (suc (suc f)) (b'%' ∷ e ∷ []) (word n ∷ []) front
      ≡ done (front ++ pre ++ l)
unfolding vformat number
last_number f e n front pre l o k d h =
    vformat-directive append_byte (suc f) b'%' (e ∷ []) (word n ∷ []) front e []
      (fmt_padded append_byte pre l 0 false false front) [] refl (ap (λ x. x.behind) d)
      (ap (λ x. convert append_byte e x (word n ∷ []) front) d
        ∙ h
        ∙ ap (λ x. number append_byte pre x (plain e) [] front) k)
    ∙ ap done (not_padded pre l front)

pub rendered-number :
    (r : Radix) (n : ℕ) (l : List ℕ)
    → utoa (n % 2 ^ 32) (base_of r) (upper_of r) ≡ some l
    → rendered 5 (format_of r) (word n ∷ []) ≡ done (prefix_of r ++ l)
unfolding rendered convert directive
rendered-number decimal n l e =
    last_number 3 b'u' n [] [] l (utoa (n % 2 ^ 32) 10 false) e refl refl
rendered-number lower_hex n l e =
    vformat-plain append_byte 4 b'0' (codes "x%x") (word n ∷ []) [] refl
    ∙ vformat-plain append_byte 3 b'x' (codes "%x") (word n ∷ []) (codes "0") refl
    ∙ last_number 1 b'x' n (codes "0x") [] l (utoa (n % 2 ^ 32) 16 false) e refl refl
rendered-number upper_hex n l e =
    vformat-plain append_byte 4 b'0' (codes "x%X") (word n ∷ []) [] refl
    ∙ vformat-plain append_byte 3 b'x' (codes "%X") (word n ∷ []) (codes "0") refl
    ∙ last_number 1 b'X' n (codes "0x") [] l (utoa (n % 2 ^ 32) 16 true) e refl refl
rendered-number address n l e =
    last_number 3 b'p' n [] (codes "0x") l (utoa (n % 2 ^ 32) 16 false) e refl refl

value-NonNul : (base : ℕ) (l : List ℕ) (acc v : ℕ) → value base l acc ≡ some v → NonNul l
unfolding value digit
value-NonNul base [] acc v e = tt
value-NonNul base (c ∷ cs) acc v e = elim (Option-cases (digit base c)) [
  | inl n ↦ absurd (ground (arith, n, e))
  | inr (d, n) ↦
      ((λ z. ground (arith, z, n)), value-NonNul base cs (acc * base + d) v (ground (arith, n, e)))
]

-- A decimal numeral does not begin like a hexadecimal one.
first_digit : (c : ℕ) (cs : List ℕ) (acc v : ℕ) → value 10 (c ∷ cs) acc ≡ some v → c ≤ b'9'
unfolding value digit
first_digit c cs acc v e = elim (Bool-cases (between b'0' b'9' c)) [
  | inl y ↦ ground (arith, y)
  | inr n ↦ absurd (ground (arith, n, e))
]

second_digit : (c d : ℕ) (cs : List ℕ) (v : ℕ) → value 10 (c ∷ d ∷ cs) 0 ≡ some v → d ≤ b'9'
unfolding value
second_digit c d cs v e = elim (Option-cases (digit 10 c)) [
  | inl n ↦ absurd (ground (arith, n, e))
  | inr (a, n) ↦ first_digit d cs (0 * 10 + a) v (ground (arith, n, e))
]

numeral-decimal : (l : List ℕ) (v : ℕ) → value_of 10 l ≡ some v → numeral l ≡ some v
numeral-decimal [] v e = ground (arith, e)
numeral-decimal (c ∷ []) v e = e
numeral-decimal (c ∷ d ∷ cs) v e =
    let small = second_digit c d cs v e in
    let test : (c == b'0' && (d == b'x' || d == b'X')) ≡ false = ground (arith, small) in
    ap (λ b. if b then value_of 16 cs else value_of 10 (c ∷ d ∷ cs)) test ∙ e

-- The bytes printed are a numeral of the number, short, and with no NUL.
record Printed (r : Radix) (n : ℕ) : Type 0 where
  pub bytes : List ℕ
  pub written : rendered 5 (format_of r) (word n ∷ []) ≡ done bytes
  pub denotes : numeral bytes ≡ some n
  pub no_nul : NonNul bytes
  pub long : length bytes ≤ body_size + 2

value_of-NonNul : (base : ℕ) (l : List ℕ) (v : ℕ) → value_of base l ≡ some v → NonNul l
value_of-NonNul base [] v e = tt
value_of-NonNul base (c ∷ cs) v e = value-NonNul base (c ∷ cs) 0 v e

printed : (r : Radix) (n : ℕ) → n < 2 ^ 32 → Printed r n
printed r n h =
    let base : (base_of r ≡ 10) ⊎ (base_of r ≡ 16) = known r in
    let (l, u, e, k) = utoa_lem (n % 2 ^ 32) (base_of r) (upper_of r) base (omega arith) in
    let e' : value_of (base_of r) l ≡ some n = e ∙ ap some (omega (arith, h)) in
    record {
      bytes = prefix_of r ++ l;
      written = rendered-number r n l u;
      denotes = read r l e';
      no_nul = front r l (value_of-NonNul (base_of r) l n e');
      long = short r l k;
    }
  where
    known : (r : Radix) → (base_of r ≡ 10) ⊎ (base_of r ≡ 16)
    known decimal = inl refl
    known lower_hex = inr refl
    known upper_hex = inr refl
    known address = inr refl

    read :
        (r : Radix) (l : List ℕ)
        → value_of (base_of r) l ≡ some n
        → numeral (prefix_of r ++ l) ≡ some n
    read decimal l e = numeral-decimal l n e
    read lower_hex l e = e
    read upper_hex l e = e
    read address l e = e

    front : (r : Radix) (l : List ℕ) → NonNul l → NonNul (prefix_of r ++ l)
    front decimal l z = z
    front lower_hex l z = ((λ x. omega (arith, x)), ((λ x. omega (arith, x)), z))
    front upper_hex l z = ((λ x. omega (arith, x)), ((λ x. omega (arith, x)), z))
    front address l z = ((λ x. omega (arith, x)), ((λ x. omega (arith, x)), z))

    short :
        (r : Radix) (l : List ℕ) → length l ≤ body_size → length (prefix_of r ++ l) ≤ body_size + 2
    short decimal l k = omega (arith, k)
    short lower_hex l k = omega (arith, k)
    short upper_hex l k = omega (arith, k)
    short address l k = omega (arith, k)

-- A number of 32 bits that `fmt_vsnformat` prints, in decimal, in hexadecimal of either case behind
-- `0x`, or as an address, into a buffer of more than 22 bytes, is the number that cli_parse_u32, with fuel
-- for what was printed, reads back from the buffer.
pub parse_u32-vsnformat :
    (r : Radix) (n buf cap f : ℕ) (m : Mem)
    → n < 2 ^ 32
    → body_size + 2 < cap
    → body_size + 2 < f
    → (len : ℕ) × (m' : Mem) × (vsnformat 5 m buf cap (format_of r) (word n ∷ []) ≡ done (len, m'))
      × (parse_u32 f m' (some buf) ≡ some (some n))
parse_u32-vsnformat r n buf cap f m h c g =
    let p = printed r n h in
    let whole : take (cap - 1) p.bytes ≡ p.bytes =
      take_all (cap - 1) p.bytes (omega (arith, p.long, c)) in
    let (m', run, s) =
      vsnformat-CStr 5 m buf cap (format_of r) (word n ∷ []) p.bytes (omega (arith, c)) p.written
        (subst NonNul (sym whole) p.no_nul) in
    (
      length (take (cap - 1) p.bytes),
      m',
      run,
      parse_u32_lem f m' buf p.bytes (subst (CStr m' buf) whole s) (omega (arith, p.long, g))
          ∙ ap (λ o. some (in_u32 o)) p.denotes
          ∙ ap some (in_range n h),
    )
  where
    in_range : (k : ℕ) → k < 2 ^ 32 → in_u32 (some k) ≡ some k
    in_range k lt = ground (arith, lt)
