-- ===== src/Fmt/Digits.antt =====
-- `fmt_utoa` writes a numeral that cli_parse_u32 reads back.
use wio_lite_ai.Base.{
  all_below-true, is_some, is_some-eq, ℕ, zero, suc, ◌+◌, ◌*◌, ◌/◌, ◌%◌, ◌^◌, ◌≤◌, ◌<◌, ◌≡◌, ◌≢◌,
  ◌⊎◌, inl, inr, refl, sym, subst, ap, ◌∙◌, arith, Bool, true, false, Bool-cases, Option, some,
  Option-cases, List, [], ◌∷◌, ◌++◌, append_assoc, append-nil, ◌==◌, length, length-append,
}
use native.Mathlib.Nat.{pow-zero}
use wio_lite_ai.Shell.Number.{digit}
use wio_lite_ai.Shell.Number.Value.{value, value_of}
use wio_lite_ai.Fmt.{digit_char, utoa_loop, utoa, body_size}

-- One digit, of either case, is read back.
digit-digit_char :
    (base d : ℕ) (upper : Bool)
    → (base ≡ 10) ⊎ (base ≡ 16)
    → d < base
    → digit base (digit_char upper d) ≡ some d
unfolding digit
digit-digit_char base d upper b h =
    is_some-eq d (digit base (digit_char upper d)) (read base upper b h)
  where
    read :
        (base : ℕ) (upper : Bool)
        → (base ≡ 10) ⊎ (base ≡ 16)
        → d < base
        → is_some d (digit base (digit_char upper d)) ≡ true
    read base true (inl e) h = rw e (
        all_below-true 10 (λ i. is_some i (digit 10 (digit_char true i))) d refl (omega (arith, e)))
    read base false (inl e) h = rw e (
        all_below-true 10 (λ i. is_some i (digit 10 (digit_char false i))) d refl
          (omega (arith, e)))
    read base true (inr e) h = rw e (
        all_below-true 16 (λ i. is_some i (digit 16 (digit_char true i))) d refl (omega (arith, e)))
    read base false (inr e) h = rw e (
        all_below-true 16 (λ i. is_some i (digit 16 (digit_char false i))) d refl
          (omega (arith, e)))

value-snoc :
    (base : ℕ) (xs : List ℕ) (acc v c d : ℕ)
    → value base xs acc ≡ some v
    → digit base c ≡ some d
    → value base (xs ++ c ∷ []) acc ≡ some (v * base + d)
unfolding value
value-snoc base [] acc v c d e k = ground (arith, k, e)
value-snoc base (x ∷ xs) acc v c d e k = elim (Option-cases (digit base x)) [
  | inl n ↦ ground (arith, n, e)
  | inr (a, n) ↦
      let e' : value base xs (acc * base + a) ≡ some v = ground (arith, n, e) in
      let ih = value-snoc base xs (acc * base + a) v c d e' k in ground (arith, n, ih)
]

split : (base mag : ℕ) → (base ≡ 10) ⊎ (base ≡ 16) → mag / base * base + mag % base ≡ mag
split base mag (inl e) = rw e (omega arith)
split base mag (inr e) = rw e (omega arith)

small : (base mag : ℕ) → (base ≡ 10) ⊎ (base ≡ 16) → mag % base < base
small base mag (inl e) = rw e (omega arith)
small base mag (inr e) = rw e (omega arith)

fewer :
    (base mag room : ℕ)
    → (base ≡ 10) ⊎ (base ≡ 16)
    → mag < base ^ suc room
    → mag / base < base ^ room
fewer base mag room (inl e) h =
    subst (λ b. mag / b < b ^ room) (sym e) (omega (arith, subst (λ b. mag < b ^ suc room) e h))
fewer base mag room (inr e) h =
    subst (λ b. mag / b < b ^ room) (sym e) (omega (arith, subst (λ b. mag < b ^ suc room) e h))

some_room : (base q room : ℕ) → q ≢ 0 → q < base ^ room → 0 < room
some_room base q zero n h = absurd (n (omega (arith, pow-zero base)))
some_room base q (suc room) n h = omega arith

-- The digits that are written, and their value.
pub record Written (base mag room : ℕ) (acc : List ℕ) (o : Option (List ℕ)) : Type 0 where
  pub digits : List ℕ
  pub is : o ≡ some (digits ++ acc)
  pub denotes : value_of base digits ≡ some mag
  pub long : length digits ≤ room

value_of-value :
    (base : ℕ) (xs : List ℕ) (v : ℕ) → value_of base xs ≡ some v → value base xs 0 ≡ some v
value_of-value base [] v e = ground (arith, e)
value_of-value base (x ∷ xs) v e = e

value_of-snoc :
    (base : ℕ) (xs : List ℕ) (c v : ℕ)
    → value base (xs ++ c ∷ []) 0 ≡ some v
    → value_of base (xs ++ c ∷ []) ≡ some v
value_of-snoc base [] c v e = e
value_of-snoc base (x ∷ xs) c v e = e

pub utoa_loop-Written :
    (room mag base : ℕ) (upper : Bool) (acc : List ℕ)
    → (base ≡ 10) ⊎ (base ≡ 16)
    → mag < base ^ room
    → 0 < room
    → Written base mag room acc (utoa_loop room mag base upper acc)
unfolding utoa_loop value
utoa_loop-Written zero mag base upper acc b h p = absurd (omega arith)
utoa_loop-Written (suc room) mag base upper acc b h p =
    let d = mag % base in
    let c = digit_char upper d in
    let k = digit-digit_char base d upper b (small base mag b) in
    elim (Bool-cases (mag / base == 0)) [
      | inl y ↦
          let only : mag % base ≡ mag =
            let none_left : mag / base ≡ 0 = ground (arith, y) in
            omega (arith, split base mag b, ap (λ q. q * base + mag % base) none_left) in
          record {
            digits = c ∷ [];
            is = ground (arith, y);
            denotes = ground (arith, k, only);
            long = omega arith;
          }
      | inr n ↦
          let steps : utoa_loop (suc room) mag base upper acc
              ≡ utoa_loop room (mag / base) base upper (c ∷ acc) =
            ground (arith, n) in
          let w =
            utoa_loop-Written room (mag / base) base upper (c ∷ acc) b (fewer base mag room b h)
              (some_room base (mag / base) room (ground (arith, n)) (fewer base mag room b h)) in
          record {
            digits = w.digits ++ c ∷ [];
            is = steps ∙ w.is ∙ ap some (sym (append_assoc w.digits (c ∷ []) acc));
            denotes = value_of-snoc base w.digits c mag (
                value-snoc base w.digits 0 (mag / base) c d
                  (value_of-value base w.digits (mag / base) w.denotes) k
                ∙ ap some (split base mag b));
            long = omega (arith, w.long, length-append w.digits (c ∷ []));
          }
    ]

-- In base 10 or 16 and for a number of 64 bits, `fmt_utoa` stays within its 20 characters and writes
-- a numeral of that base whose value is the number.
pub utoa_lem :
    (mag base : ℕ) (upper : Bool)
    → (base ≡ 10) ⊎ (base ≡ 16)
    → mag < 2 ^ 64
    → (l : List ℕ) × (utoa mag base upper ≡ some l)
      × (value_of base l ≡ some mag)
      × (length l ≤ body_size)
unfolding utoa
utoa_lem mag base upper b h =
    let w = utoa_loop-Written body_size mag base upper [] b (enough b) (omega arith) in
    (w.digits, w.is ∙ ap some (append-nil w.digits), w.denotes, w.long)
  where
    enough : (base ≡ 10) ⊎ (base ≡ 16) → mag < base ^ body_size
    enough (inl e) = subst (λ k. mag < k ^ 20) (sym e) (omega arith)
    enough (inr e) = subst (λ k. mag < k ^ 20) (sym e) (omega arith)
