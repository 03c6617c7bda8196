-- ===== src/Shell/Number/Value.antt =====
-- The number that a numeral denotes, with no bound on it, and that cli_parse_u32 returns it
-- whenever it has 32 bits.
use wio_lite_ai.Base.{
  ℕ, zero, suc, ◌+◌, ◌-◌, ◌*◌, ◌/◌, ◌%◌, ◌^◌, ◌≤◌, ◌<◌, ◌≡◌, ◌⊎◌, inl, inr, refl, sym, ◌∙◌, ap,
  arith, Bool-cases, Option, none, some, Option-cases, List, [], ◌∷◌, ◌==◌, leb, ltb, ◌&&◌, ◌||◌,
  if◌then◌else◌, length, Mem, CStr, CStr-at,
}
use wio_lite_ai.Shell.Number.{digit, u32_loop, is_hex, u32_digits, parse_u32}

-- The value of a string of digits, behind digits of value `acc`.
unfoldable pub value : ℕ → List ℕ → ℕ → Option ℕ
value base [] acc = some acc
value base (c ∷ cs) acc = elim (digit base c) [
  | none ↦ none
  | some d ↦ value base cs (acc * base + d)
]

abbrev pub value_of : ℕ → List ℕ → Option ℕ
value_of base [] = none
value_of base (c ∷ cs) = value base (c ∷ cs) 0

-- A numeral: at least one digit, behind `0x` or `0X` if in base 16.
abbrev pub numeral : List ℕ → Option ℕ
numeral [] = none
numeral (c ∷ []) = value_of 10 (c ∷ [])
numeral (c ∷ d ∷ cs) =
    if c == b'0' && (d == b'x' || d == b'X') then value_of 16 cs else value_of 10 (c ∷ d ∷ cs)

-- A value of at most 32 bits.
abbrev pub in_u32 : Option ℕ → Option ℕ
in_u32 none = none
in_u32 (some v) = if ltb v (2 ^ 32) then some v else none

-- Digits never make a value smaller.
pub value-ge :
    (base : ℕ) (l : List ℕ) (acc v : ℕ)
    → (base ≡ 10) ⊎ (base ≡ 16)
    → value base l acc ≡ some v
    → acc ≤ v
unfolding value
value-ge base [] acc v b e = ground (arith, e)
value-ge base (c ∷ cs) acc v b e = elim (Option-cases (digit base c)) [
  | inl n ↦ ground (arith, n, e)
  | inr (d, n) ↦
      let e' : value base cs (acc * base + d) ≡ some v = ground (arith, n, e) in
      let k = value-ge base cs (acc * base + d) v b e' in
      elim b [
        | inl ten ↦ omega (arith, ap (λ x. acc * x) ten, k)
        | inr sixteen ↦ omega (arith, ap (λ x. acc * x) sixteen, k)
      ]
]

too_large : (o : Option ℕ) → ((v : ℕ) → o ≡ some v → 2 ^ 32 ≤ v) → in_u32 o ≡ none
too_large none h = refl
too_large (some v) h = ground (arith, h v refl)

digit-small : (base c d : ℕ) → digit base c ≡ some d → d < 16
unfolding digit
digit-small base c d e = ground (arith, e)

-- The test before a digit is exactly the bound on the new value.
overflows :
    (base val d : ℕ)
    → (base ≡ 10) ⊎ (base ≡ 16)
    → d < 16
    → ltb ((0xFFFFFFFF - d) / base) val ≡ leb (2 ^ 32) (val * base + d)
overflows base val d (inl ten) h = rw ten (ground arith)
overflows base val d (inr sixteen) h = rw sixteen (ground arith)

u32_loop_lem :
    (f base : ℕ) (m : Mem) (p : ℕ) (l : List ℕ) (val : ℕ)
    → (base ≡ 10) ⊎ (base ≡ 16)
    → CStr m p l
    → length l < f
    → val < 2 ^ 32
    → u32_loop f base m p val ≡ some (in_u32 (value base l val))
unfolding u32_loop value
u32_loop_lem zero base m p l val b s lt h = absurd (omega arith)
u32_loop_lem (suc f) base m p [] val b s lt h = ground (arith, s, h)
u32_loop_lem (suc f) base m p (c ∷ cs) val b s lt h = elim (Option-cases (digit base c)) [
  | inl n ↦ ground (arith, n, s.0, s.1)
  | inr (d, n) ↦
      let small = digit-small base c d n in
      let test = overflows base val d b small in
      let read : digit base (m p) ≡ some d = ap (digit base) s.0 ∙ n in
      elim (Bool-cases (leb (2 ^ 32) (val * base + d))) [
        | inl over ↦
            let steps : u32_loop (suc f) base m p val ≡ some none =
              ground (arith, s.0, s.1, read, test, over) in
            let none_fits : in_u32 (value base cs (val * base + d)) ≡ none =
              too_large (value base cs (val * base + d))
                (λ v e. ground (arith, value-ge base cs (val * base + d) v b e, over)) in
            let unfolded : value base (c ∷ cs) val ≡ value base cs (val * base + d) =
              ground (arith, n) in
            steps ∙ ap some (sym none_fits ∙ ap in_u32 (sym unfolded))
        | inr under ↦
            let wraps_not : (val * base + d) % 2 ^ 32 ≡ val * base + d = ground (arith, under) in
            let steps : u32_loop (suc f) base m p val ≡ u32_loop f base m (p + 1) (val * base + d) =
              ground (arith, s.0, s.1, read, test, under, wraps_not) in
            let unfolded : value base (c ∷ cs) val ≡ value base cs (val * base + d) =
              ground (arith, n) in
            steps
            ∙ u32_loop_lem f base m (p + 1) cs (val * base + d) b s.2 (omega arith)
                (ground (arith, under))
            ∙ ap (λ o. some (in_u32 o)) (sym unfolded)
      ]
]

u32_digits_lem :
    (f base : ℕ) (m : Mem) (p : ℕ) (l : List ℕ)
    → (base ≡ 10) ⊎ (base ≡ 16)
    → CStr m p l
    → length l < f
    → u32_digits f base m p ≡ some (in_u32 (value_of base l))
unfolding u32_digits
u32_digits_lem f base m p [] b s lt = ground (arith, s)
u32_digits_lem f base m p (c ∷ cs) b s lt =
    ground (arith, s.0, s.1, u32_loop_lem f base m p (c ∷ cs) 0 b s lt (omega arith))

-- For a string in memory and fuel for its length, `cli_parse_u32` returns the value of the numeral
-- that the string is, in base 10, or in base 16 behind `0x` or `0X`, if it is one and its value has
-- 32 bits, and -1 otherwise.
pub parse_u32_lem :
    (f : ℕ) (m : Mem) (p : ℕ) (l : List ℕ)
    → CStr m p l
    → length l < f
    → parse_u32 f m (some p) ≡ some (in_u32 (numeral l))
unfolding parse_u32 is_hex
parse_u32_lem f m p [] s lt = ground (arith, s)
parse_u32_lem f m p (c ∷ []) s lt =
    ground (arith, s.0, s.1, s.2, u32_digits_lem f 10 m p (c ∷ []) (inl refl) s lt)
parse_u32_lem f m p (c ∷ d ∷ cs) s lt =
    let two : CStr m (p + 2) cs = CStr-at m cs (omega arith) s.2.2 in
    ground (
      arith,
      s.0,
      s.1,
      s.2.0,
      u32_digits_lem f 10 m p (c ∷ d ∷ cs) (inl refl) s lt,
      u32_digits_lem f 16 m (p + 2) cs (inr refl) two (omega arith),
    )
