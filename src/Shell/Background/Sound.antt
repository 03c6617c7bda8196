-- ===== src/Shell/Background/Sound.antt =====
-- The loop of cli_segment_is_background ends with such an '&' or with none.
use wio_lite_ai.Base.{
  ℕ, zero, suc, ◌+◌, ◌<◌, ◌≡◌, arith, Bool, true, false, Option, none, some, ◌&&◌, ◌||◌, subst₂,
  ap₂, List, [], ◌∷◌, ◌==◌, length, Mem, CStr, CStr-at, refl, ◌≢◌, Bool-cases, inl, inr, sym, subst,
  ◌∙◌, ap,
}
use wio_lite_ai.Shell.Token.{is_space}
use wio_lite_ai.Shell.Token.Lexer.{Mode, plain, double, single, plain_escape, double_escape, effect}
use wio_lite_ai.Shell.Segment.Modes.{is_plain, next_mode}
use wio_lite_ai.Shell.Background.{
  Amp, background_loop, background_round, plain_round, double_round, single_round,
}
use wio_lite_ai.Shell.Background.Candidate.{
  is_nil, is_ignored, Mark, marks, onto, is_amp, before, candidate,
}

abbrev pub is_stable : Mode → Bool
is_stable plain_escape = false
is_stable double_escape = false
is_stable _ = true

-- The loop's variables in a mode, with no candidate.
abbrev pub quote_of : Mode → ℕ
quote_of double = b'"'
quote_of single = b'\''
quote_of _ = 0

abbrev Quoted : Mode → Amp → Type 0
Quoted mode s = (s.quote ≡ quote_of mode) × (s.amp ≡ none) × (s.prev_sig_amp ≡ false)

-- What a round does outside quotes, but for an escape.
data Round (s : Amp) (m : Mem) (i c : ℕ) : Type 0 where
  space :
      is_space c ≡ true
      → ((f : ℕ) → background_loop (suc f) s m i ≡ background_loop f s m (i + 1))
      → Round s m i c
  ampersand :
      (s' : Amp)
      → c ≡ b'&'
      → s'.quote ≡ 0
      → s'.amp ≡ some i
      → s'.amp_after_amp ≡ s.prev_sig_amp
      → s'.prev_sig_amp ≡ true
      → ((f : ℕ) → background_loop (suc f) s m i ≡ background_loop f s' m (i + 1))
      → Round s m i c
  resets :
      (s' : Amp) (mode : Mode)
      → is_space c ≡ false
      → (c == b'\\') ≡ false
      → (c == b'&') ≡ false
      → next_mode plain c ≡ mode
      → is_stable mode ≡ true
      → Quoted mode s'
      → ((f : ℕ) → background_loop (suc f) s m i ≡ background_loop f s' m (i + 1))
      → Round s m i c
  escape : c ≡ b'\\' → Round s m i c

round_plain : (s : Amp) (m : Mem) (i c : ℕ) → s.quote ≡ 0 → m i ≡ c → c ≢ 0 → Round s m i c
unfolding background_loop background_round plain_round is_space next_mode effect
round_plain s m i c q e nz = elim (Bool-cases (is_space c)) [
  | inl sp ↦ space sp (λ f. ground (arith, q, e, nz, sp))
  | inr not_space ↦ elim (Bool-cases (c == b'\\')) [
    | inl back ↦ escape (ground (arith, back))
    | inr not_back ↦ elim (Bool-cases (c == b'&')) [
      | inl amp ↦
          ampersand (record s { amp = some i; amp_after_amp = s.prev_sig_amp; prev_sig_amp = true })
            (ground (arith, amp)) q refl refl refl (λ f. ground (arith, q, e, amp))
      | inr not_amp ↦ elim (Bool-cases (c == b'"')) [
        | inl dq ↦
            resets (record s { quote = c; amp = none; prev_sig_amp = false }) double not_space
              not_back not_amp (ground (arith, dq)) refl (ground (arith, dq), refl, refl)
              (λ f. ground (arith, q, e, dq))
        | inr not_dq ↦ elim (Bool-cases (c == b'\'')) [
          | inl sq ↦
              resets (record s { quote = c; amp = none; prev_sig_amp = false }) single not_space
                not_back not_amp (ground (arith, sq)) refl (ground (arith, sq), refl, refl)
                (λ f. ground (arith, q, e, sq))
          | inr not_sq ↦
              resets (record s { amp = none; prev_sig_amp = false }) plain not_space not_back
                not_amp (ground (arith, not_space, not_back, not_dq, not_sq)) refl (q, refl, refl)
                (λ f. ground (arith, q, e, nz, not_space, not_back, not_amp, not_dq, not_sq))
        ]
      ]
    ]
  ]
]

abbrev clear : Amp → Amp
clear s = record s { amp = none; prev_sig_amp = false }

-- The rounds inside quotes.
data Inside (mode : Mode) (s : Amp) (m : Mem) (i c : ℕ) (cs : List ℕ) : Type 0 where
  one :
      (s' : Amp)
      → is_stable (next_mode mode c) ≡ true
      → Quoted (next_mode mode c) s'
      → ((f : ℕ) → background_loop (suc f) s m i ≡ background_loop f s' m (i + 1))
      → Inside mode s m i c cs
  two :
      (s' : Amp) (d : ℕ) (ds : List ℕ)
      → cs ≡ d ∷ ds
      → is_plain (next_mode mode c) ≡ false
      → next_mode (next_mode mode c) d ≡ double
      → Quoted double s'
      → ((f : ℕ) → background_loop (suc f) s m i ≡ background_loop f s' m (i + 2))
      → Inside mode s m i c cs
  last :
      (s' : Amp)
      → cs ≡ []
      → s'.amp ≡ none
      → s'.prev_sig_amp ≡ false
      → ((f : ℕ) → background_loop (suc (suc f)) s m i ≡ some s')
      → Inside mode s m i c cs

Inside-single :
    (s : Amp) (m : Mem) (i c : ℕ) (cs : List ℕ)
    → s.quote ≡ b'\''
    → CStr m i (c ∷ cs)
    → Inside single s m i c cs
unfolding background_loop background_round single_round next_mode effect
Inside-single s m i c cs q k = elim (Bool-cases (c == b'\'')) [
  | inl e ↦
      one (record (clear s) { quote = 0 }) (ground (arith, e)) (ground (arith, e), refl, refl)
        (λ f. ground (arith, q, k.0, k.1, e))
  | inr e ↦
      one (clear s) (ground (arith, e)) (ground (arith, q, e), refl, refl)
        (λ f. ground (arith, q, k.0, k.1, e))
]

Inside-double :
    (s : Amp) (m : Mem) (i c : ℕ) (cs : List ℕ)
    → s.quote ≡ b'"'
    → CStr m i (c ∷ cs)
    → Inside double s m i c cs
unfolding background_loop background_round double_round next_mode effect
Inside-double s m i c cs q k = elim (Bool-cases (c == b'"')) [
  | inl e ↦
      one (record (clear s) { quote = 0 }) (ground (arith, e)) (ground (arith, e), refl, refl)
        (λ f. ground (arith, q, k.0, k.1, e))
  | inr e ↦ elim (Bool-cases (c == b'\\')) [
    | inr n ↦
        one (clear s) (ground (arith, e, n)) (ground (arith, q, e, n), refl, refl)
          (λ f. ground (arith, q, k.0, k.1, e, n))
    | inl back ↦ behind cs k back
  ]
]
  where
    behind : (cs : List ℕ) → CStr m i (c ∷ cs) → (c == b'\\') ≡ true → Inside double s m i c cs
    behind [] k back = last (clear s) refl refl refl (λ f. ground (arith, q, k.0, k.1, k.2, back))
    behind (d ∷ ds) k back =
        two (clear s) d ds refl (ground (arith, back)) (ground (arith, back)) (q, refl, refl)
          (λ f. ground (arith, q, k.0, k.1, k.2.0, k.2.1, back))

escape_end :
    (f : ℕ) (s : Amp) (m : Mem) (i : ℕ)
    → s.quote ≡ 0
    → CStr m i (b'\\' ∷ [])
    → background_loop (suc f) s m i ≡ some s
unfolding background_loop background_round plain_round is_space
escape_end f s m i q k = ground (arith, q, k.0, k.2)

escape_two :
    (f : ℕ) (s : Amp) (m : Mem) (i d : ℕ)
    → s.quote ≡ 0
    → m i ≡ b'\\'
    → m (i + 1) ≡ d
    → d ≢ 0
    → background_loop (suc f) s m i ≡ background_loop f (clear s) m (i + 2)
unfolding background_loop background_round plain_round is_space
escape_two f s m i d q a b n = ground (arith, q, a, b, n)

next_escape : (c : ℕ) → c ≡ b'\\' → next_mode plain c ≡ plain_escape
unfolding next_mode effect is_space
next_escape c b = ground (arith, b)

after_escape : (d : ℕ) → next_mode plain_escape d ≡ plain
unfolding next_mode effect
after_escape d = refl

-- The variables tell of the bytes seen whether the last is an '&', where, and what is before it.
abbrev pub Tells : List Mark → Amp → Type 0
Tells seen s =
    (s.prev_sig_amp ≡ is_amp seen)
    × (s.amp ≡ candidate seen)
    × (is_amp seen ≡ true → s.amp_after_amp ≡ is_amp (before seen))

Tells-reset :
    (i : ℕ) (seen : List Mark) (s : Amp)
    → s.amp ≡ none
    → s.prev_sig_amp ≡ false
    → Tells ((i, false) ∷ seen) s
Tells-reset i seen s a p = (p, a, λ z. cc z)

marks-ignored :
    (mode : Mode) (c : ℕ) (cs : List ℕ) (i : ℕ)
    → is_ignored mode c cs ≡ true
    → marks mode (c ∷ cs) i ≡ marks (next_mode mode c) cs (i + 1)
unfolding marks
marks-ignored mode c cs i h = rw h refl

marks-counted :
    (mode : Mode) (c : ℕ) (cs : List ℕ) (i : ℕ) (b : Bool)
    → is_ignored mode c cs ≡ false
    → (is_plain mode && c == b'&') ≡ b
    → marks mode (c ∷ cs) i ≡ (i, b) ∷ marks (next_mode mode c) cs (i + 1)
unfolding marks
marks-counted mode c cs i b h k = rw (h, k) refl

-- The loop ends, and its variables tell of the whole segment.
abbrev Good : List Mark → Option Amp → Type 0
Good seen o = (s : Amp) × (o ≡ some s) × Tells seen s

abbrev Below : ℕ → Type 0
Below f =
    (mode : Mode) (l : List ℕ) (s : Amp) (m : Mem) (i : ℕ) (seen : List Mark)
    → is_stable mode ≡ true
    → s.quote ≡ quote_of mode
    → Tells seen s
    → CStr m i l
    → length l < f
    → Good (onto (marks mode l i) seen) (background_loop f s m i)

-- A round that goes on, to a state that tells of the bytes seen then.
goes_on :
    (f j : ℕ) (mode mode' : Mode) (l cs : List ℕ) (s s' : Amp) (m : Mem) (i : ℕ)
    (seen seen' : List Mark)
    → Below f
    → onto (marks mode l i) seen ≡ onto (marks mode' cs j) seen'
    → is_stable mode' ≡ true
    → s'.quote ≡ quote_of mode'
    → Tells seen' s'
    → CStr m j cs
    → length cs < f
    → background_loop (suc f) s m i ≡ background_loop f s' m j
    → Good (onto (marks mode l i) seen) (background_loop (suc f) s m i)
goes_on f j mode mode' l cs s s' m i seen seen' ih e st q t k lt steps =
    subst₂ Good (sym e) (sym steps) (ih mode' cs s' m j seen' st q t k lt)

-- Two bytes that count, neither of them an '&'.
marks-two :
    (mode mode' : Mode) (c d : ℕ) (ds : List ℕ) (i : ℕ) (seen : List Mark)
    → is_ignored mode c (d ∷ ds) ≡ false
    → (is_plain mode && c == b'&') ≡ false
    → is_plain (next_mode mode c) ≡ false
    → next_mode (next_mode mode c) d ≡ mode'
    → onto (marks mode (c ∷ d ∷ ds) i) seen
      ≡ onto (marks mode' ds (i + 2)) ((i + 1, false) ∷ (i, false) ∷ seen)
marks-two mode mode' c d ds i seen g h p n =
    ap (λ l. onto l seen)
      (marks-counted mode c (d ∷ ds) i false g h
        ∙ ap (λ l. (i, false) ∷ l)
            (marks-counted (next_mode mode c) d ds (i + 1) false (rw p refl) (rw p refl)))
    ∙ ap (λ md. onto (marks md ds (i + 1 + 1)) ((i + 1, false) ∷ (i, false) ∷ seen)) n
    ∙ ap (λ j. onto (marks mode' ds j) ((i + 1, false) ∷ (i, false) ∷ seen)) (omega arith)

marks-nil : (mode : Mode) (i : ℕ) → marks mode [] i ≡ []
unfolding marks
marks-nil mode i = refl

space-ignored : (c : ℕ) (cs : List ℕ) → is_space c ≡ true → is_ignored plain c cs ≡ true
space-ignored c cs h = rw h refl

next-space : (c : ℕ) → is_space c ≡ true → next_mode plain c ≡ plain
unfolding next_mode effect
next-space c h = rw h refl

and-counted : (c : ℕ) (cs : List ℕ) → c ≡ b'&' → is_ignored plain c cs ≡ false
unfolding is_space
and-counted c cs h = ap (λ x. is_ignored plain x cs) h

next-and : (c : ℕ) → c ≡ b'&' → next_mode plain c ≡ plain
unfolding next_mode effect is_space
next-and c h = ap (next_mode plain) h

escape-counted :
    (c : ℕ) (cs : List ℕ) → is_nil cs ≡ false → c ≡ b'\\' → is_ignored plain c cs ≡ false
unfolding is_space
escape-counted c cs e h = ap₂ (λ x y. is_space x || (x == b'\\' && y)) h e

last-ignored : (c : ℕ) → c ≡ b'\\' → is_ignored plain c [] ≡ true
unfolding is_space
last-ignored c h = ap (λ x. is_ignored plain x []) h

plain_lem :
    (f : ℕ)
    → Below f
    → (c : ℕ) (cs : List ℕ) (s : Amp) (m : Mem) (i : ℕ) (seen : List Mark) → CStr m i (c ∷ cs)
    → length cs < f
    → s.quote ≡ 0
    → Tells seen s
    → Round s m i c
    → Good (onto (marks plain (c ∷ cs) i) seen) (background_loop (suc f) s m i)
plain_lem f ih c cs s m i seen k lt z t (space sp e) =
    goes_on f (i + 1) plain plain (c ∷ cs) cs s s m i seen seen ih
      (ap (λ l. onto l seen)
        (marks-ignored plain c cs i (space-ignored c cs sp)
          ∙ ap (λ md. marks md cs (i + 1)) (next-space c sp)))
      refl z t k.2 lt (e f)
plain_lem f ih c cs s m i seen k lt z t (ampersand s' is_and q a b p e) =
    goes_on f (i + 1) plain plain (c ∷ cs) cs s s' m i seen ((i, true) ∷ seen) ih
      (ap (λ l. onto l seen)
        (marks-counted plain c cs i true (and-counted c cs is_and) (ground (arith, is_and))
          ∙ ap (λ md. (i, true) ∷ marks md cs (i + 1)) (next-and c is_and)))
      refl q (p, a, λ _. b ∙ t.0) k.2 lt (e f)
plain_lem f ih c cs s m i seen k lt z t (resets s' mode x y w n st q e) =
    goes_on f (i + 1) plain mode (c ∷ cs) cs s s' m i seen ((i, false) ∷ seen) ih
      (ap (λ l. onto l seen)
        (marks-counted plain c cs i false (rw (x, y) refl) w
          ∙ ap (λ md. (i, false) ∷ marks md cs (i + 1)) n))
      st q.0 (Tells-reset i seen s' q.1 q.2) k.2 lt (e f)
plain_lem f ih c [] s m i seen k lt z t (escape b) = (
  s,
  escape_end f s m i z (subst (λ x. CStr m i (x ∷ [])) b k),
  subst (λ l. Tells (onto l seen) s)
      (sym (marks-ignored plain c [] i (last-ignored c b) ∙ marks-nil (next_mode plain c) (i + 1)))
      t,
)
plain_lem f ih c (d ∷ ds) s m i seen k lt z t (escape b) =
    goes_on f (i + 2) plain plain (c ∷ d ∷ ds) ds s (clear s) m i seen
      ((i + 1, false) ∷ (i, false) ∷ seen) ih
      (marks-two plain plain c d ds i seen (escape-counted c (d ∷ ds) refl b) (ground (arith, b))
        (ap is_plain (next_escape c b))
        (ap (λ md. next_mode md d) (next_escape c b) ∙ after_escape d))
      refl z (Tells-reset (i + 1) ((i, false) ∷ seen) (clear s) refl refl)
      (CStr-at m ds (omega arith) k.2.2) (omega arith)
      (escape_two f s m i d z (k.0 ∙ b) k.2.0 k.2.1)

inside_lem :
    (f : ℕ)
    → Below f
    → (mode : Mode) (c : ℕ) (cs : List ℕ) (s : Amp) (m : Mem) (i : ℕ) (seen : List Mark)
    → CStr m i (c ∷ cs)
    → length cs < f
    → is_plain mode ≡ false
    → Inside mode s m i c cs
    → Good (onto (marks mode (c ∷ cs) i) seen) (background_loop (suc f) s m i)
inside_lem f ih mode c cs s m i seen k lt np (one s' st q e) =
    goes_on f (i + 1) mode (next_mode mode c) (c ∷ cs) cs s s' m i seen ((i, false) ∷ seen) ih
      (ap (λ l. onto l seen) (marks-counted mode c cs i false (rw np refl) (rw np refl))) st q.0
      (Tells-reset i seen s' q.1 q.2) k.2 lt (e f)
inside_lem f ih mode c [] s m i seen k lt np (two s' d ds e0 still n q e) = cc
inside_lem f ih mode c (d' ∷ ds') s m i seen k lt np (two s' d ds e0 still n q e) =
    let same : d' ≡ d = cc in
    goes_on f (i + 2) mode double (c ∷ d' ∷ ds') ds' s s' m i seen
      ((i + 1, false) ∷ (i, false) ∷ seen) ih
      (marks-two mode double c d' ds' i seen (rw np refl) (rw np refl) still
        (ap (next_mode (next_mode mode c)) same ∙ n))
      refl q.0 (Tells-reset (i + 1) ((i, false) ∷ seen) s' q.1 q.2)
      (CStr-at m ds' (omega arith) k.2.2) (omega arith) (e f)
inside_lem zero ih mode c cs s m i seen k lt np (last s' e0 a p e) = absurd (omega arith)
inside_lem (suc f) ih mode c cs s m i seen k lt np (last s' e0 a p e) = (
  s',
  e f,
  subst (λ ds. Tells (onto (marks mode (c ∷ ds) i) seen) s') (sym e0)
      (subst (λ l. Tells (onto l seen) s')
        (sym (
          marks-counted mode c [] i false (rw np refl) (rw np refl)
          ∙ ap (λ l. (i, false) ∷ l) (marks-nil (next_mode mode c) (i + 1))))
        (Tells-reset i seen s' a p)),
)

pub loop_lem :
    (f : ℕ) (mode : Mode) (l : List ℕ) (s : Amp) (m : Mem) (i : ℕ) (seen : List Mark)
    → is_stable mode ≡ true
    → s.quote ≡ quote_of mode
    → Tells seen s
    → CStr m i l
    → length l < f
    → Good (onto (marks mode l i) seen) (background_loop f s m i)
unfolding marks background_loop
loop_lem zero mode l s m i seen st q t k lt = absurd (omega arith)
loop_lem (suc f) mode [] s m i seen st q t k lt = (s, ground (arith, k), t)
loop_lem (suc f) plain (c ∷ cs) s m i seen st q t k lt =
    plain_lem f (loop_lem f) c cs s m i seen k (omega arith) q t (round_plain s m i c q k.0 k.1)
loop_lem (suc f) double (c ∷ cs) s m i seen st q t k lt =
    inside_lem f (loop_lem f) double c cs s m i seen k (omega arith) refl
      (Inside-double s m i c cs q k)
loop_lem (suc f) single (c ∷ cs) s m i seen st q t k lt =
    inside_lem f (loop_lem f) single c cs s m i seen k (omega arith) refl
      (Inside-single s m i c cs q k)
loop_lem (suc f) plain_escape (c ∷ cs) s m i seen st q t k lt = cc st
loop_lem (suc f) double_escape (c ∷ cs) s m i seen st q t k lt = cc st
