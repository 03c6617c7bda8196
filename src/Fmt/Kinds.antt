-- ===== src/Fmt/Kinds.antt =====
-- The argument that each conversion asks for, and takes.
use wio_lite_ai.Base.{
  ℕ, ◌%◌, ◌^◌, ◌≤◌, ◌<◌, ◌≡◌, ◌⊎◌, inl, inr, refl, sym, ap, ◌∙◌, arith, Bool, true, false, ◌||◌,
  Option, none, some, List, [], ◌∷◌, ◌==◌, if◌then◌else◌, if_both, codes,
}
use wio_lite_ai.Fmt.{
  LenMod, int, long, llong, size, Arg, word, dword, string, Directive, utoa, get_unsigned,
  get_signed, sign_magnitude, number, unsigned, signed, character, text, pointer, convert,
}
use wio_lite_ai.Fmt.Digits.{utoa_lem}

pub data Kind : Type 0 where
  a_word a_dword a_string : Kind

abbrev pub is_of : Kind → Arg → Bool
is_of a_word (word v) = true
is_of a_dword (dword v) = true
is_of a_string (string t) = true
is_of k a = false

-- The argument of an integer conversion.
abbrev pub integer : LenMod → Kind
integer llong = a_dword
integer lm = a_word

-- The argument that a conversion asks for, if it asks for one.
abbrev pub asks : ℕ → LenMod → Option Kind
asks c lm =
    if c == b'%'
    then none
    else if c == b'c'
    then some a_word
    else if c == b's'
    then some a_string
    else if c == b'd' || c == b'i'
    then some (integer lm)
    else if c == b'u'
    then some (integer lm)
    else if c == b'x'
    then some (integer lm)
    else if c == b'X'
    then some (integer lm)
    else if c == b'p'
    then some a_word
    else none

-- The arguments behind the one that is asked for.
abbrev pub taken : Option Kind → List Arg → Option (List Arg)
taken none args = some args
taken (some k) [] = none
taken (some k) (a ∷ args) = if is_of k a then some args else none

abbrev pub rest_of : {S : Type 0} → Option (S × List Arg) → Option (List Arg)
rest_of none = none
rest_of (some (s, args)) = some args

-- GET_UNSIGNED takes such an argument or none, and its value has 64 bits.
data Got (lm : LenMod) (args : List Arg) : Type 0 where
  got :
      (v : ℕ) (rest : List Arg)
      → get_unsigned lm args ≡ some (v, rest)
      → v < 2 ^ 64
      → taken (some (integer lm)) args ≡ some rest
      → Got lm args
  missing : get_unsigned lm args ≡ none → taken (some (integer lm)) args ≡ none → Got lm args

get_unsigned-Got : (lm : LenMod) (args : List Arg) → Got lm args
unfolding get_unsigned
get_unsigned-Got int [] = missing refl refl
get_unsigned-Got long [] = missing refl refl
get_unsigned-Got llong [] = missing refl refl
get_unsigned-Got size [] = missing refl refl
get_unsigned-Got int (word v ∷ args) = got (v % 2 ^ 32) args refl (omega arith) refl
get_unsigned-Got long (word v ∷ args) = got (v % 2 ^ 32) args refl (omega arith) refl
get_unsigned-Got size (word v ∷ args) = got (v % 2 ^ 32) args refl (omega arith) refl
get_unsigned-Got llong (word v ∷ args) = missing refl refl
get_unsigned-Got int (dword v ∷ args) = missing refl refl
get_unsigned-Got long (dword v ∷ args) = missing refl refl
get_unsigned-Got size (dword v ∷ args) = missing refl refl
get_unsigned-Got llong (dword v ∷ args) = got (v % 2 ^ 64) args refl (omega arith) refl
get_unsigned-Got int (string t ∷ args) = missing refl refl
get_unsigned-Got long (string t ∷ args) = missing refl refl
get_unsigned-Got size (string t ∷ args) = missing refl refl
get_unsigned-Got llong (string t ∷ args) = missing refl refl

sign_magnitude-small :
    (half v : ℕ) → half ≤ 2 ^ 63 → v < 2 ^ 64 → (sign_magnitude half v).1 < 2 ^ 64
sign_magnitude-small half v h k = ground (arith, h, k)

abbrev value_in : LenMod → ℕ → Bool × ℕ
value_in lm v = elim lm [ llong ↦ sign_magnitude (2 ^ 63) v | _ ↦ sign_magnitude (2 ^ 31) v ]

value_in-small : (lm : LenMod) (v : ℕ) → v < 2 ^ 64 → (value_in lm v).1 < 2 ^ 64
value_in-small int v h = sign_magnitude-small (2 ^ 31) v (omega arith) h
value_in-small long v h = sign_magnitude-small (2 ^ 31) v (omega arith) h
value_in-small llong v h = sign_magnitude-small (2 ^ 63) v (omega arith) h
value_in-small size v h = sign_magnitude-small (2 ^ 31) v (omega arith) h

get_signed-some :
    (lm : LenMod) (args : List Arg) (v : ℕ) (rest : List Arg)
    → get_unsigned lm args ≡ some (v, rest)
    → get_signed lm args ≡ some (value_in lm v, rest)
unfolding get_signed
get_signed-some lm args v rest e = rw (e, get_signed) refl

get_signed-none :
    (lm : LenMod) (args : List Arg) → get_unsigned lm args ≡ none → get_signed lm args ≡ none
unfolding get_signed
get_signed-none lm args e = rw (e, get_signed) refl

module _ {S : Type 0} (put : S → ℕ → S) where
  -- The digits of 64 bits fit, so a number is always put.
  number-rest :
      (prefix : List ℕ) (mag base : ℕ) (upper : Bool) (d : Directive) (args : List Arg) (s : S)
      → (base ≡ 10) ⊎ (base ≡ 16)
      → mag < 2 ^ 64
      → rest_of (number put prefix (utoa mag base upper) d args s) ≡ some args
  unfolding number
  number-rest prefix mag base upper d args s b h =
      let (l, e, x, y) = utoa_lem mag base upper b h in
      ap (λ o. rest_of (number put prefix o d args s)) e

  unsigned-rest :
      (base : ℕ) (upper : Bool) (d : Directive) (args : List Arg) (s : S)
      → (base ≡ 10) ⊎ (base ≡ 16)
      → rest_of (unsigned put base upper d (get_unsigned d.modifier args) s)
        ≡ taken (some (integer d.modifier)) args
  unfolding unsigned
  unsigned-rest base upper d args s b = by (get_unsigned-Got d.modifier args)
    where
      by :
          Got d.modifier args
          → rest_of (unsigned put base upper d (get_unsigned d.modifier args) s)
            ≡ taken (some (integer d.modifier)) args
      by (got v rest e h k) =
          ap (λ o. rest_of (unsigned put base upper d o s)) e
          ∙ number-rest [] v base upper d rest s b h
          ∙ sym k
      by (missing e k) = ap (λ o. rest_of (unsigned put base upper d o s)) e ∙ sym k

  signed-pair :
      (d : Directive) (p : Bool × ℕ) (rest : List Arg) (s : S)
      → p.1 < 2 ^ 64
      → rest_of (signed put d (some (p, rest)) s) ≡ some rest
  unfolding signed
  signed-pair d (negative, mag) rest s h =
      number-rest (if negative then b'-' ∷ [] else []) mag 10 false d rest s (inl refl) h

  signed-rest :
      (d : Directive) (args : List Arg) (s : S)
      → rest_of (signed put d (get_signed d.modifier args) s)
        ≡ taken (some (integer d.modifier)) args
  unfolding signed
  signed-rest d args s = by (get_unsigned-Got d.modifier args)
    where
      by :
          Got d.modifier args
          → rest_of (signed put d (get_signed d.modifier args) s)
            ≡ taken (some (integer d.modifier)) args
      by (got v rest e h k) =
          ap (λ o. rest_of (signed put d o s)) (get_signed-some d.modifier args v rest e)
          ∙ signed-pair d (value_in d.modifier v) rest s (value_in-small d.modifier v h)
          ∙ sym k
      by (missing e k) =
          ap (λ o. rest_of (signed put d o s)) (get_signed-none d.modifier args e) ∙ sym k

  character-rest :
      (d : Directive) (args : List Arg) (s : S)
      → rest_of (character put d args s) ≡ taken (some a_word) args
  unfolding character
  character-rest d [] s = refl
  character-rest d (word v ∷ args) s = refl
  character-rest d (dword v ∷ args) s = refl
  character-rest d (string t ∷ args) s = refl

  text-rest :
      (d : Directive) (args : List Arg) (s : S)
      → rest_of (text put d args s) ≡ taken (some a_string) args
  unfolding text
  text-rest d [] s = refl
  text-rest d (word v ∷ args) s = refl
  text-rest d (dword v ∷ args) s = refl
  text-rest d (string none ∷ args) s = refl
  text-rest d (string (some t) ∷ args) s = refl

  pointer-rest :
      (d : Directive) (args : List Arg) (s : S)
      → rest_of (pointer put d args s) ≡ taken (some a_word) args
  unfolding pointer
  pointer-rest d [] s = refl
  pointer-rest d (word v ∷ args) s =
      number-rest (codes "0x") (v % 2 ^ 32) 16 false d args s (inr refl) (omega arith)
  pointer-rest d (dword v ∷ args) s = refl
  pointer-rest d (string t ∷ args) s = refl

  pub convert-rest :
      (c : ℕ) (d : Directive) (args : List Arg) (s : S)
      → rest_of (convert put c d args s) ≡ taken (asks c d.modifier) args
  unfolding convert
  convert-rest c d args s =
      let R = λ (x : Option (S × List Arg)) (k : Option Kind). rest_of x ≡ taken k args in
      if_both R (c == b'%') (λ _. refl)
        (if_both R (c == b'c') (λ _. character-rest d args s)
          (if_both R (c == b's') (λ _. text-rest d args s)
            (if_both R (c == b'd' || c == b'i') (λ _. signed-rest d args s)
              (if_both R (c == b'u') (λ _. unsigned-rest 10 false d args s (inl refl))
                (if_both R (c == b'x') (λ _. unsigned-rest 16 false d args s (inr refl))
                  (if_both R (c == b'X') (λ _. unsigned-rest 16 true d args s (inr refl))
                    (if_both R (c == b'p') (λ _. pointer-rest d args s) refl)))))))
