-- ===== src/Shell/Complete/Scan.antt =====
-- What the scan of the candidates finds: how many there are, the first, and how far all agree behind
-- the prefix.
use wio_lite_ai.Base.{
  ℕ, zero, suc, ◌+◌, ◌≤◌, ◌≡◌, refl, sym, subst, subst₂, ap, ◌∙◌, arith, not, Bool-cases, inl, inr,
  List, [], ◌∷◌, ◌++◌, length, take, drop, get_or, append-nil, append_assoc, length-append, Mem,
  if◌then◌else◌, ◌==◌,
}
use wio_lite_ai.Shell.Complete.{Found, agree, starts_with, scan_loop, scan_candidates, matching}

-- `xs` begins with the first `n` of `ys`.
abbrev pub Agrees : ℕ → List ℕ → List ℕ → Type 0
Agrees n xs ys = take n xs ≡ take n ys

-- All the lists agree with `ys` up to `n`.
abbrev pub AllAgree : ℕ → List ℕ → List (List ℕ) → Type 0
AllAgree n ys [] = Unit {0}
AllAgree n ys (xs ∷ rest) = Agrees n xs ys × AllAgree n ys rest

abbrev pub behind : ℕ → List (List ℕ) → List (List ℕ)
behind plen [] = []
behind plen (s ∷ names) = drop plen s ∷ behind plen names

-- The lists agree up to `n` and no further: a longer front that is whole in all is not the same.
pub record Longest (n : ℕ) (ys : List ℕ) (rest : List (List ℕ)) : Type 0 where
  pub within : n ≤ length ys
  pub agrees : AllAgree n ys rest
  pub no_more : (k : ℕ) → k ≤ length ys → AllAgree k ys rest → k ≤ n

agree-Agrees :
    (n : ℕ) (xs ys : List ℕ) → n ≤ length ys → (agree n xs ys ≤ n) × Agrees (agree n xs ys) xs ys
unfolding agree
agree-Agrees zero xs ys h = (omega arith, refl)
agree-Agrees (suc n) [] ys h = (omega arith, refl)
agree-Agrees (suc n) (x ∷ xs) [] h = absurd (omega arith)
agree-Agrees (suc n) (x ∷ xs) (y ∷ ys) h =
    let (le, e) = agree-Agrees n xs ys (omega arith) in
    elim (Bool-cases (x == y)) [
      | inl q ↦
          let here : x ≡ y = ground (arith, q) in
          rw q (omega (arith, le), ap (λ c. c ∷ take (agree n xs ys) xs) here ∙ ap (λ l. y ∷ l) e)
      | inr q ↦ rw q (omega arith, refl)
    ]

agree-most : (n k : ℕ) (xs ys : List ℕ) → k ≤ n → n ≤ length ys → Agrees k xs ys → k ≤ agree n xs ys
unfolding agree
agree-most n zero xs ys h w e = omega arith
agree-most zero (suc k) xs ys h w e = absurd (omega arith)
agree-most (suc n) (suc k) xs [] h w e = absurd (omega arith)
agree-most (suc n) (suc k) [] (y ∷ ys) h w e = absurd (omega (arith, ap length e))
agree-most (suc n) (suc k) (x ∷ xs) (y ∷ ys) h w e =
    let here : x ≡ y = ap (λ l. get_or l 0 0) e in
    let rest = agree-most n k xs ys (omega arith) (omega arith) (ap (drop 1) e) in
    ground (arith, here, rest)

take-take : (i j : ℕ) (xs : List ℕ) → i ≤ j → take i (take j xs) ≡ take i xs
take-take zero j xs h = refl
take-take (suc i) zero xs h = absurd (omega arith)
take-take (suc i) (suc j) [] h = refl
take-take (suc i) (suc j) (x ∷ xs) h = ap (λ l. x ∷ l) (take-take i j xs (omega arith))

Agrees-le : (i j : ℕ) (xs ys : List ℕ) → i ≤ j → Agrees j xs ys → Agrees i xs ys
Agrees-le i j xs ys h e = sym (take-take i j xs h) ∙ ap (take i) e ∙ take-take i j ys h

AllAgree-le :
    (i j : ℕ) (ys : List ℕ) (rest : List (List ℕ)) → i ≤ j → AllAgree j ys rest → AllAgree i ys rest
AllAgree-le i j ys [] h a = tt
AllAgree-le i j ys (xs ∷ rest) h a = (Agrees-le i j xs ys h a.0, AllAgree-le i j ys rest h a.1)

AllAgree-snoc :
    (n : ℕ) (ys : List ℕ) (rest : List (List ℕ)) (xs : List ℕ)
    → AllAgree n ys rest
    → Agrees n xs ys
    → AllAgree n ys (rest ++ xs ∷ [])
AllAgree-snoc n ys [] xs a e = (e, tt)
AllAgree-snoc n ys (zs ∷ rest) xs a e = (a.0, AllAgree-snoc n ys rest xs a.1 e)

AllAgree-parts :
    (n : ℕ) (ys : List ℕ) (rest : List (List ℕ)) (xs : List ℕ)
    → AllAgree n ys (rest ++ xs ∷ [])
    → AllAgree n ys rest × Agrees n xs ys
AllAgree-parts n ys [] xs a = (tt, a.0)
AllAgree-parts n ys (zs ∷ rest) xs a = let (b, e) = AllAgree-parts n ys rest xs a.1 in ((a.0, b), e)

Longest-snoc :
    (n : ℕ) (ys : List ℕ) (rest : List (List ℕ)) (xs : List ℕ)
    → Longest n ys rest
    → Longest (agree n xs ys) ys (rest ++ xs ∷ [])
Longest-snoc n ys rest xs l =
    let (le, e) = agree-Agrees n xs ys l.within in
    record {
      within = omega (arith, le, l.within);
      agrees =
          AllAgree-snoc (agree n xs ys) ys rest xs
            (AllAgree-le (agree n xs ys) n ys rest le l.agrees) e;
      no_more = λ k w a.
          let (b, here) = AllAgree-parts k ys rest xs a in
          agree-most n k xs ys (l.no_more k w b) l.within here;
    }

behind-snoc :
    (plen : ℕ) (names : List (List ℕ)) (s : List ℕ)
    → behind plen (names ++ s ∷ []) ≡ behind plen names ++ drop plen s ∷ []
behind-snoc plen [] s = refl
behind-snoc plen (n ∷ names) s = ap (λ l. drop plen n ∷ l) (behind-snoc plen names s)

-- The result of a scan over these candidates.
abbrev pub IsScan : ℕ → Found → List (List ℕ) → Type 0
IsScan plen f [] = (f.count ≡ 0)
IsScan plen f (s ∷ rest) =
    (f.count ≡ length rest + 1) × (f.tail ≡ drop plen s) × Longest f.lcp f.tail (behind plen rest)

-- What one more candidate does.
abbrev step : ℕ → Found → List ℕ → Found
step plen f s =
    if f.count == 0
    then record { count = 1; tail = drop plen s; lcp = length (drop plen s) }
    else record { count = f.count + 1; tail = f.tail; lcp = agree f.lcp (drop plen s) f.tail }

step-IsScan :
    (plen : ℕ) (f : Found) (seen : List (List ℕ)) (s : List ℕ)
    → IsScan plen f seen
    → IsScan plen (step plen f s) (seen ++ s ∷ [])
step-IsScan plen f [] s h =
    let first : step plen f s
        ≡ record { count = 1; tail = drop plen s; lcp = length (drop plen s) } =
      ground (arith, h) in
    subst (λ g. IsScan plen g (s ∷ [])) (sym first)
      (refl, refl, record { within = omega arith; agrees = tt; no_more = λ k w a. w })
step-IsScan plen f (n ∷ rest) s (c, t, l) =
    let next : Found = record {
      count = f.count + 1;
      tail = f.tail;
      lcp = agree f.lcp (drop plen s) f.tail;
    } in
    let more : step plen f s ≡ next = ground (arith, c) in
    subst (λ g. IsScan plen g (n ∷ (rest ++ s ∷ []))) (sym more)
      (
        omega (arith, c, length-append rest (s ∷ [])),
        t,
        subst (Longest next.lcp f.tail) (sym (behind-snoc plen rest s))
            (Longest-snoc f.lcp f.tail (behind plen rest) (drop plen s) l),
      )

scan_loop-IsScan :
    (m : Mem) (p plen : ℕ) (f : Found) (names seen : List (List ℕ))
    → IsScan plen f seen
    → IsScan plen (scan_loop m p plen f names) (seen ++ matching m p plen names)
unfolding scan_loop matching
scan_loop-IsScan m p plen f [] seen h = subst (IsScan plen f) (sym (append-nil seen)) h
scan_loop-IsScan m p plen f (s ∷ names) seen h = elim (Bool-cases (starts_with m s p plen)) [
  | inr n ↦ rw n (scan_loop-IsScan m p plen f names seen h)
  | inl y ↦
      let go : scan_loop m p plen f (s ∷ names) ≡ scan_loop m p plen (step plen f s) names =
        ap (λ b. scan_loop m p plen (if not b then f else step plen f s) names) y in
      let all : matching m p plen (s ∷ names) ≡ s ∷ matching m p plen names = ground (arith, y) in
      subst₂ (IsScan plen) (sym go)
        (append_assoc seen (s ∷ []) (matching m p plen names) ∙ ap (λ l. seen ++ l) (sym all))
        (scan_loop-IsScan m p plen (step plen f s) names (seen ++ s ∷ [])
          (step-IsScan plen f seen s h))
]

-- For any names and any prefix in the line, `scan_candidates` counts the names that begin with the
-- prefix; where there is one, it has the rest of the first, behind the prefix, and a length up to which
-- the rests of all of them are the same, and there is no greater such length.
pub scan_candidates_lem :
    (m : Mem) (p plen : ℕ) (names : List (List ℕ))
    → IsScan plen (scan_candidates m p plen names) (matching m p plen names)
unfolding scan_candidates
scan_candidates_lem m p plen names =
    scan_loop-IsScan m p plen (record { count = 0; tail = []; lcp = 0 }) names [] refl
