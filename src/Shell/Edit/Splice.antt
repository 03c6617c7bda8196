-- ===== src/Shell/Edit/Splice.antt =====
-- Strings that are cut, joined and moved within a buffer.
use wio_lite_ai.Base.{
  ℕ, ◌+◌, ◌-◌, ◌≤◌, ◌<◌, ◌≡◌, ◌≢◌, refl, sym, subst, ap, arith, List, [], ◌∷◌, ◌++◌, length, take,
  drop, take-append-drop, length-take, length-drop, Mem, store, CStr, CStr-append, CStr-agree,
  CStr-prefix, CStr-at,
}
use wio_lite_ai.Shell.History.{copy}

-- The bytes of `xs` at `p`, and a string behind them.
pub CStr-glue :
    (m : Mem) (p : ℕ) (xs ys : List ℕ)
    → CStr (store m (p + length xs) 0) p xs
    → CStr m (p + length xs) ys
    → CStr m p (xs ++ ys)
CStr-glue m p [] ys a b = CStr-at m ys (omega arith) b
CStr-glue m p (x ∷ xs) ys a b = (
  ground (arith, a.0),
  a.1,
  CStr-glue m (p + 1) xs ys (subst (λ q. CStr (store m q 0) (p + 1) xs) (omega arith) a.2)
      (CStr-at m ys (omega arith) b),
)

-- A string that is moved without its NUL, which is put behind it.
pub copy-terminated :
    (to from : Mem) (dst src n p q : ℕ) (w : List ℕ)
    → CStr from q w
    → dst ≤ p
    → p + length w ≤ dst + n
    → q + dst ≡ src + p
    → CStr (store (copy to dst from src n) (p + length w) 0) p w
copy-terminated to from dst src n p q [] s a b e = ground arith
copy-terminated to from dst src n p q (c ∷ cs) s a b e = (
  ground (arith, ap from at, s.0),
  s.1,
  subst (λ j. CStr (store (copy to dst from src n) j 0) (p + 1) cs) (omega arith)
      (copy-terminated to from dst src n (p + 1) (q + 1) cs s.2 (omega arith) (omega arith)
        (omega arith)),
)
  where
    at : src + (p - dst) ≡ q
    at = omega arith

module _ (m : Mem) (t : List ℕ) (s : CStr m 0 t) where
  -- The front of a string, in any memory with the same bytes there.
  pub front :
      (i : ℕ) (m' : Mem)
      → i ≤ length t
      → ((q : ℕ) → q < i → m' q ≡ m q)
      → CStr (store m' (0 + length (take i t)) 0) 0 (take i t)
  front i m' h same =
      let n : length (take i t) ≡ i = omega (arith, length-take i t) in
      let cut : CStr (store m (0 + length (take i t)) 0) 0 (take i t) =
        CStr-prefix m 0 (take i t) (drop i t) (subst (CStr m 0) (sym (take-append-drop i t)) s) in
      CStr-agree _ _ 0 (take i t) (λ q a b. ground (arith, n, same q)) cut

  pub back : (i : ℕ) → i ≤ length t → CStr m i (drop i t)
  back i h =
      CStr-at m (drop i t) (omega (arith, length-take i t))
        (CStr-append m 0 (take i t) (drop i t) (subst (CStr m 0) (sym (take-append-drop i t)) s))

  -- What is between `i` and `j` is taken out.
  pub splice :
      (i j n : ℕ)
      → i ≤ j
      → j ≤ length t
      → n ≡ length t - j
      → CStr (store (copy m i m j n) (i + n) 0) 0 (take i t ++ drop j t)
  splice i j n h k e =
      let m' = store (copy m i m j n) (i + n) 0 in
      let len : length (take i t) ≡ i = omega (arith, length-take i t) in
      let moved : CStr m' i (drop j t) =
        subst (λ x. CStr (store (copy m i m j n) x 0) i (drop j t)) (omega (arith, length-drop j t))
          (copy-terminated m m i j n i j (drop j t) (back j k) (omega arith)
            (omega (arith, length-drop j t)) (omega arith)) in
      CStr-glue m' 0 (take i t) (drop j t) (front i m' (omega arith) (λ q lt. ground arith))
        (CStr-at m' (drop j t) (omega (arith, len)) moved)

  -- A byte is put in front of what is behind `i`.
  pub insertion :
      (i c n : ℕ)
      → i ≤ length t
      → c ≢ 0
      → n ≡ length t - i
      → CStr (store (store (copy m (i + 1) m i n) i c) (i + n + 1) 0) 0 (take i t ++ c ∷ drop i t)
  insertion i c n h z e =
      let m1 = copy m (i + 1) m i n in
      let m' = store (store m1 i c) (i + n + 1) 0 in
      let len : length (take i t) ≡ i = omega (arith, length-take i t) in
      let moved : CStr (store m1 (i + 1 + length (drop i t)) 0) (i + 1) (drop i t) =
        copy-terminated m m (i + 1) i n (i + 1) i (drop i t) (back i h) (omega arith)
          (omega (arith, length-drop i t)) (omega arith) in
      let behind : CStr m' (i + 1) (drop i t) =
        CStr-agree _ m' (i + 1) (drop i t) (λ q a b. ground (arith, length-drop i t, e)) moved in
      CStr-glue m' 0 (take i t) (c ∷ drop i t) (front i m' h (λ q lt. ground arith))
        (CStr-at m' (c ∷ drop i t) (omega (arith, len)) (ground arith, z, behind))

  -- The string is cut at `i`.
  pub cut_at_index : (i : ℕ) → i ≤ length t → CStr (store m i 0) 0 (take i t)
  cut_at_index i h =
      subst (λ j. CStr (store m j 0) 0 (take i t)) (omega (arith, length-take i t))
        (front i m h (λ q lt. refl))
