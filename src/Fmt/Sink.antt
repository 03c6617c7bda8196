-- ===== src/Fmt/Sink.antt =====
-- The sink sees bytes one after the other and nothing else: where a map takes the states of a sink to
-- those of another, step by step, it takes a run of the formatter to a run.
use wio_lite_ai.Base.{
  ℕ, zero, suc, ◌+◌, ◌-◌, ◌%◌, ◌^◌, ◌≡◌, refl, sym, ap, ◌∙◌, arith, Bool, true, false, ◌||◌,
  Bool-cases, inl, inr, Option, none, some, Option-cases, List-cases, List, [], ◌∷◌, ◌==◌,
  if◌then◌else◌, if_both, length, codes,
}
use wio_lite_ai.Fmt.{
  Arg, word, dword, string, Outcome, done, undefined_argument, out_of_fuel, Directive, directive,
  utoa, get_unsigned, get_signed, out_str, pad_out, fmt_padded, number, unsigned, signed, character,
  text, pointer, convert, vformat,
}

module _ {S : Type 0} (put : S → ℕ → S) (f c : ℕ) (cs : List ℕ) (args : List Arg) (s : S) where
  pub vformat-plain :
      (c == b'%') ≡ false → vformat put (suc f) (c ∷ cs) args s ≡ vformat put f cs args (put s c)
  unfolding vformat
  vformat-plain n = ground (arith, n)

  pub vformat-last :
      (c == b'%') ≡ true
      → (directive cs).behind ≡ []
      → vformat put (suc f) (c ∷ cs) args s ≡ done (put s b'%')
  unfolding vformat
  vformat-last y e = ground (arith, y, e)

  pub vformat-bad :
      (e : ℕ) (rest : List ℕ)
      → (c == b'%') ≡ true
      → (directive cs).behind ≡ e ∷ rest
      → convert put e (directive cs) args s ≡ none
      → vformat put (suc f) (c ∷ cs) args s ≡ undefined_argument
  unfolding vformat
  vformat-bad e rest y h k = ground (arith, y, h, k)

  pub vformat-directive :
      (e : ℕ) (rest : List ℕ) (s' : S) (args' : List Arg)
      → (c == b'%') ≡ true
      → (directive cs).behind ≡ e ∷ rest
      → convert put e (directive cs) args s ≡ some (s', args')
      → vformat put (suc f) (c ∷ cs) args s ≡ vformat put f rest args' s'
  unfolding vformat
  vformat-directive e rest s' args' y h k = ground (arith, y, h, k)

abbrev pub map_state : {S T : Type 0} → (S → T) → Option (S × List Arg) → Option (T × List Arg)
map_state h none = none
map_state h (some (s, args)) = some (h s, args)

abbrev pub map_outcome : {S T : Type 0} → (S → T) → Outcome S → Outcome T
map_outcome h (done s) = done (h s)
map_outcome h undefined_argument = undefined_argument
map_outcome h out_of_fuel = out_of_fuel

module _ {S T : Type 0} (put : S → ℕ → S) (put' : T → ℕ → T) (h : S → T)
    (hom : (s : S) (c : ℕ) → h (put s c) ≡ put' (h s) c) where
  pub out_str-hom : (cs : List ℕ) (s : S) → h (out_str put cs s) ≡ out_str put' cs (h s)
  unfolding out_str
  out_str-hom [] s = refl
  out_str-hom (c ∷ cs) s = out_str-hom cs (put s c) ∙ ap (out_str put' cs) (hom s c)

  pad_out-hom : (c n : ℕ) (s : S) → h (pad_out put c n s) ≡ pad_out put' c n (h s)
  unfolding pad_out
  pad_out-hom c zero s = refl
  pad_out-hom c (suc n) s = pad_out-hom c n (put s c) ∙ ap (pad_out put' c n) (hom s c)

  fmt_padded-hom :
      (prefix body : List ℕ) (width : ℕ) (zeros left : Bool) (s : S)
      → h (fmt_padded put prefix body width zeros left s)
        ≡ fmt_padded put' prefix body width zeros left (h s)
  unfolding fmt_padded
  fmt_padded-hom prefix body width zeros left s =
      let pad = width - (length prefix + length body) in
      let plain =
        out_str-hom body (out_str put prefix s) ∙ ap (out_str put' body) (out_str-hom prefix s) in
      if_both (λ x y. h x ≡ y) left
        (λ _.
          pad_out-hom b' ' pad (out_str put body (out_str put prefix s))
          ∙ ap (pad_out put' b' ' pad) plain)
        (if_both (λ x y. h x ≡ y) zeros
          (λ _.
            out_str-hom body (pad_out put b'0' pad (out_str put prefix s))
            ∙ ap (out_str put' body) (
                pad_out-hom b'0' pad (out_str put prefix s)
                ∙ ap (pad_out put' b'0' pad) (out_str-hom prefix s)))
          (out_str-hom body (out_str put prefix (pad_out put b' ' pad s))
            ∙ ap (out_str put' body) (
                out_str-hom prefix (pad_out put b' ' pad s)
                ∙ ap (out_str put' prefix) (pad_out-hom b' ' pad s))))

  abbrev Same : Option (S × List Arg) → Option (T × List Arg) → Type 0
  Same x y = map_state h x ≡ y

  number-hom :
      (prefix : List ℕ) (body : Option (List ℕ)) (d : Directive) (args : List Arg) (s : S)
      → Same (number put prefix body d args s) (number put' prefix body d args (h s))
  unfolding number
  number-hom prefix none d args s = refl
  number-hom prefix (some body) d args s =
      ap (λ x. some (x, args)) (fmt_padded-hom prefix body d.width d.zeros d.left s)

  unsigned-hom :
      (base : ℕ) (upper : Bool) (d : Directive) (o : Option (ℕ × List Arg)) (s : S)
      → Same (unsigned put base upper d o s) (unsigned put' base upper d o (h s))
  unfolding unsigned
  unsigned-hom base upper d none s = refl
  unsigned-hom base upper d (some (v, args)) s = number-hom [] (utoa v base upper) d args s

  signed-hom :
      (d : Directive) (o : Option ((Bool × ℕ) × List Arg)) (s : S)
      → Same (signed put d o s) (signed put' d o (h s))
  unfolding signed
  signed-hom d none s = refl
  signed-hom d (some ((negative, mag), args)) s =
      number-hom (if negative then b'-' ∷ [] else []) (utoa mag 10 false) d args s

  character-hom :
      (d : Directive) (args : List Arg) (s : S)
      → Same (character put d args s) (character put' d args (h s))
  unfolding character
  character-hom d [] s = refl
  character-hom d (word v ∷ args) s =
      ap (λ x. some (x, args)) (fmt_padded-hom [] (v % 2 ^ 8 ∷ []) d.width false d.left s)
  character-hom d (dword v ∷ args) s = refl
  character-hom d (string t ∷ args) s = refl

  text-hom :
      (d : Directive) (args : List Arg) (s : S) → Same (text put d args s) (text put' d args (h s))
  unfolding text
  text-hom d [] s = refl
  text-hom d (string none ∷ args) s =
      ap (λ x. some (x, args)) (fmt_padded-hom [] (codes "(null)") d.width false d.left s)
  text-hom d (string (some t) ∷ args) s =
      ap (λ x. some (x, args)) (fmt_padded-hom [] t d.width false d.left s)
  text-hom d (word v ∷ args) s = refl
  text-hom d (dword v ∷ args) s = refl

  pointer-hom :
      (d : Directive) (args : List Arg) (s : S)
      → Same (pointer put d args s) (pointer put' d args (h s))
  unfolding pointer
  pointer-hom d [] s = refl
  pointer-hom d (word v ∷ args) s = number-hom (codes "0x") (utoa (v % 2 ^ 32) 16 false) d args s
  pointer-hom d (dword v ∷ args) s = refl
  pointer-hom d (string t ∷ args) s = refl

  convert-hom :
      (c : ℕ) (d : Directive) (args : List Arg) (s : S)
      → Same (convert put c d args s) (convert put' c d args (h s))
  unfolding convert
  convert-hom c d args s =
      if_both Same (c == b'%') (λ _. ap (λ x. some (x, args)) (hom s b'%'))
        (if_both Same (c == b'c') (λ _. character-hom d args s)
          (if_both Same (c == b's') (λ _. text-hom d args s)
            (if_both Same (c == b'd' || c == b'i')
              (λ _. signed-hom d (get_signed d.modifier args) s)
              (if_both Same (c == b'u')
                (λ _. unsigned-hom 10 false d (get_unsigned d.modifier args) s)
                (if_both Same (c == b'x')
                  (λ _. unsigned-hom 16 false d (get_unsigned d.modifier args) s)
                  (if_both Same (c == b'X')
                    (λ _. unsigned-hom 16 true d (get_unsigned d.modifier args) s)
                    (if_both Same (c == b'p') (λ _. pointer-hom d args s)
                      (ap (λ x. some (x, args))
                        (hom (put s b'%') c ∙ ap (λ t. put' t c) (hom s b'%'))))))))))

  -- A run of the formatter for the one sink goes with a run for the other.
  pub vformat-hom :
      (f : ℕ) (fmt : List ℕ) (args : List Arg) (s : S)
      → map_outcome h (vformat put f fmt args s) ≡ vformat put' f fmt args (h s)
  unfolding vformat
  vformat-hom zero fmt args s = refl
  vformat-hom (suc f) [] args s = refl
  vformat-hom (suc f) (c ∷ cs) args s = elim (Bool-cases (c == b'%')) [
    | inr n ↦
        ap (map_outcome h) (vformat-plain put f c cs args s n)
        ∙ vformat-hom f cs args (put s c)
        ∙ ap (vformat put' f cs args) (hom s c)
        ∙ sym (vformat-plain put' f c cs args (h s) n)
    | inl y ↦ elim (List-cases (directive cs).behind) [
      | inl e ↦
          ap (map_outcome h) (vformat-last put f c cs args s y e)
          ∙ ap done (hom s b'%')
          ∙ sym (vformat-last put' f c cs args (h s) y e)
      | inr (e, rest, b) ↦
          let both = convert-hom e (directive cs) args s in
          elim (Option-cases (convert put e (directive cs) args s)) [
            | inl k ↦
                ap (map_outcome h) (vformat-bad put f c cs args s e rest y b k)
                ∙ sym
                    (vformat-bad put' f c cs args (h s) e rest y b (sym both ∙ ap (map_state h) k))
            | inr ((s', args'), k) ↦
                ap (map_outcome h) (vformat-directive put f c cs args s e rest s' args' y b k)
                ∙ vformat-hom f rest args' s'
                ∙ sym (
                    vformat-directive put' f c cs args (h s) e rest (h s') args' y b
                      (sym both ∙ ap (map_state h) k))
          ]
    ]
  ]
