-- ===== src/Shell/Number/Numeral.antt =====
-- Numerals by their alphabets: a digit's value is its place among the digits.
use wio_lite_ai.Base.{
  ℕ, suc, ◌+◌, ◌*◌, ◌≤◌, ◌<◌, ◌≡◌, inl, inr, refl, ◌∙◌, sym, subst, ap, ap₂, arith, Bool, true,
  false, Bool-cases, Option, none, some, List, [], ◌∷◌, codes, ◌==◌, ltb, ◌&&◌, ◌||◌, if◌then◌else◌,
  length, Mem, CStr, all_below-true,
}
use wio_lite_ai.Shell.Number.{digit, parse_u32}
use wio_lite_ai.Shell.Number.Value.{value, value_of, numeral, in_u32, parse_u32_lem}

abbrev pub one_on : Option ℕ → Option ℕ
one_on none = none
one_on (some i) = some (suc i)

-- The place of a character in an alphabet.
abbrev pub place : List ℕ → ℕ → Option ℕ
place [] c = none
place (x ∷ xs) c = if x == c then some 0 else one_on (place xs c)

-- A decimal digit, and a hexadecimal one with either case of its letters.
abbrev pub decimal_digit : ℕ → Option ℕ
decimal_digit c = place (codes "0123456789") c

abbrev pub either : Option ℕ → Option ℕ → Option ℕ
either (some d) o = some d
either none o = o

abbrev pub hex_digit : ℕ → Option ℕ
hex_digit c = either (place (codes "0123456789abcdef") c) (place (codes "0123456789ABCDEF") c)

-- The value of a string of digits behind digits of value `acc`, in positional notation.
abbrev pub positional : ℕ → (ℕ → Option ℕ) → List ℕ → ℕ → Option ℕ
positional base digit_of [] acc = some acc
positional base digit_of (c ∷ cs) acc = elim (digit_of c) [
  | none ↦ none
  | some d ↦ positional base digit_of cs (acc * base + d)
]

-- At least one digit.
abbrev pub decimal : List ℕ → Option ℕ
decimal [] = none
decimal (c ∷ cs) = positional 10 decimal_digit (c ∷ cs) 0

abbrev pub hexadecimal : List ℕ → Option ℕ
hexadecimal [] = none
hexadecimal (c ∷ cs) = positional 16 hex_digit (c ∷ cs) 0

-- The number that a string denotes: in base 16 behind `0x` or `0X`, else in base 10.
abbrev pub denoted : List ℕ → Option ℕ
denoted [] = none
denoted (c ∷ []) = decimal (c ∷ [])
denoted (c ∷ d ∷ cs) =
    if c == b'0' && (d == b'x' || d == b'X') then hexadecimal cs else decimal (c ∷ d ∷ cs)

abbrev all_small : List ℕ → Bool
all_small [] = true
all_small (x ∷ xs) = ltb x 128 && all_small xs

place-none : (xs : List ℕ) (c : ℕ) → all_small xs ≡ true → 128 ≤ c → place xs c ≡ none
place-none [] c h k = refl
place-none (x ∷ xs) c h k = ground (arith, h, place-none xs c)

abbrev same : Option ℕ → Option ℕ → Bool
same none none = true
same (some a) (some b) = a == b
same _ _ = false

same-eq : (o p : Option ℕ) → same o p ≡ true → o ≡ p
same-eq none none h = refl
same-eq none (some b) h = cc
same-eq (some a) none h = cc
same-eq (some a) (some b) h = ap some (ground (arith, h))

digit-decimal : (c : ℕ) → digit 10 c ≡ decimal_digit c
unfolding digit
digit-decimal c = elim (Bool-cases (ltb c 128)) [
  | inl y ↦
      same-eq (digit 10 c) (decimal_digit c)
        (all_below-true 128 (λ d. same (digit 10 d) (decimal_digit d)) c refl (ground (arith, y)))
  | inr n ↦
      let big : 128 ≤ c = ground (arith, n) in
      let none_there : decimal_digit c ≡ none = place-none (codes "0123456789") c refl big in
      let not_digit : digit 10 c ≡ none = ground (arith, big) in not_digit ∙ sym none_there
]

digit-hex : (c : ℕ) → digit 16 c ≡ hex_digit c
unfolding digit
digit-hex c = elim (Bool-cases (ltb c 128)) [
  | inl y ↦
      same-eq (digit 16 c) (hex_digit c)
        (all_below-true 128 (λ d. same (digit 16 d) (hex_digit d)) c refl (ground (arith, y)))
  | inr n ↦
      let big : 128 ≤ c = ground (arith, n) in
      let not_lower = place-none (codes "0123456789abcdef") c refl big in
      let not_upper = place-none (codes "0123456789ABCDEF") c refl big in
      let none_there : hex_digit c ≡ none = ap₂ either not_lower not_upper in
      let not_digit : digit 16 c ≡ none = ground (arith, big) in not_digit ∙ sym none_there
]

by_digit :
    (base : ℕ) (digit_of : ℕ → Option ℕ) (cs : List ℕ) (acc : ℕ) (o : Option ℕ)
    → ((d : ℕ) → value base cs (acc * base + d) ≡ positional base digit_of cs (acc * base + d))
    → elim o as (λ x. Option ℕ) [ none ↦ none | some d ↦ value base cs (acc * base + d) ]
      ≡ elim o as (λ x. Option ℕ) [
        | none ↦ none
        | some d ↦ positional base digit_of cs (acc * base + d)
      ]
by_digit base digit_of cs acc none h = refl
by_digit base digit_of cs acc (some d) h = h d

value-positional :
    (base : ℕ) (digit_of : ℕ → Option ℕ)
    → ((c : ℕ) → digit base c ≡ digit_of c)
    → (l : List ℕ) (acc : ℕ) → value base l acc ≡ positional base digit_of l acc
unfolding value
value-positional base digit_of e [] acc = refl
value-positional base digit_of e (c ∷ cs) acc =
    subst
      (λ o.
        value base (c ∷ cs) acc
        ≡ elim o [ none ↦ none | some d ↦ positional base digit_of cs (acc * base + d) ])
      (e c)
      (by_digit base digit_of cs acc (digit base c)
        (λ d. value-positional base digit_of e cs (acc * base + d)))

value_of-decimal : (l : List ℕ) → value_of 10 l ≡ decimal l
value_of-decimal [] = refl
value_of-decimal (c ∷ cs) = value-positional 10 decimal_digit digit-decimal (c ∷ cs) 0

value_of-hexadecimal : (l : List ℕ) → value_of 16 l ≡ hexadecimal l
value_of-hexadecimal [] = refl
value_of-hexadecimal (c ∷ cs) = value-positional 16 hex_digit digit-hex (c ∷ cs) 0

numeral-denoted : (l : List ℕ) → numeral l ≡ denoted l
numeral-denoted [] = refl
numeral-denoted (c ∷ []) = value_of-decimal (c ∷ [])
numeral-denoted (c ∷ d ∷ cs) = rw (value_of-decimal (c ∷ d ∷ cs), value_of-hexadecimal cs) refl

-- For a string in memory and fuel for its length, `cli_parse_u32` returns the number that the string
-- denotes, in base 10, or in base 16 behind `0x` or `0X`, if it is a numeral of that base and the
-- number has 32 bits, and -1 otherwise; the digits are those of the alphabets 0 to 9, a to f and A to
-- F, the letters in base 16 only.
pub parse_u32-denoted :
    (f : ℕ) (m : Mem) (p : ℕ) (l : List ℕ)
    → CStr m p l
    → length l < f
    → parse_u32 f m (some p) ≡ some (in_u32 (denoted l))
parse_u32-denoted f m p l s k =
    parse_u32_lem f m p l s k ∙ ap (λ o. some (in_u32 o)) (numeral-denoted l)
