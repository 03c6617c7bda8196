-- ===== src/Shell/Edit/Text.antt =====
-- The line as a list of characters with a cursor, and the buffer operations as operations on it.
use wio_lite_ai.Base.{
  ℕ, suc, ◌+◌, ◌-◌, ◌%◌, ◌^◌, ◌≤◌, ◌<◌, ◌≡◌, ◌≢◌, refl, sym, subst, ◌∙◌, arith, List, [], ◌∷◌, ◌++◌,
  length, take, drop, length-take, length-drop, length-append, append-nil, nil_of_length, store,
  CStr, CStr-at, CStr-store,
}
use wio_lite_ai.Shell.History.{History, line_size, copy}
use wio_lite_ai.Shell.Edit.Buffer.{overwrite_char, append_char, insert_char, set_len}
use wio_lite_ai.Shell.Edit.Splice.{CStr-glue, front, back, splice, insertion, cut_at_index}

pub record Text : Type 0 where
  pub chars : List ℕ
  pub at : ℕ

-- The line buffer holds the text, with room for its NUL, and the cursor is in it.
pub record IsText (h : History) (t : Text) : Type 0 where
  pub string : CStr h.line 0 t.chars
  pub len_is : h.len ≡ length t.chars
  pub cur_is : h.cur ≡ t.at
  pub within : t.at ≤ length t.chars
  pub room : length t.chars < line_size

-- A character in front of the cursor, or in place of the one behind it.
abbrev pub type_char : ℕ → Text → Text
type_char c t = record { chars = take t.at t.chars ++ c ∷ drop t.at t.chars; at = t.at + 1 }

abbrev pub replace_char : ℕ → Text → Text
replace_char c t = record {
  chars = take t.at t.chars ++ c ∷ drop (suc t.at) t.chars;
  at = t.at + 1;
}

-- The characters from `i` to `j` go, and the cursor is at `k`.
abbrev pub cut : ℕ → ℕ → ℕ → Text → Text
cut i j k t = record { chars = take i t.chars ++ drop j t.chars; at = k }

length-cut :
    (i j : ℕ) (t : List ℕ)
    → i ≤ j
    → j ≤ length t
    → length (take i t ++ drop j t) ≡ i + (length t - j)
length-cut i j t h k =
    omega (arith, length-append (take i t) (drop j t), length-take i t, length-drop j t)

drop_all : (t : List ℕ) (n : ℕ) → length t ≤ n → drop n t ≡ []
drop_all t n h = nil_of_length (drop n t) (omega (arith, length-drop n t))

pub overwrite-IsText :
    (c : ℕ) (h : History) (t : Text)
    → c ≢ 0
    → t.at < length t.chars
    → IsText h t
    → IsText (overwrite_char c h) (replace_char c t)
unfolding overwrite_char
overwrite-IsText c h t z lt v =
    let m = store h.line h.cur c in
    let n : length (take t.at t.chars) ≡ t.at = omega (arith, length-take t.at t.chars) in
    let long : length (take t.at t.chars ++ c ∷ drop (suc t.at) t.chars) ≡ length t.chars = omega (
      arith,
      n,
      length-append (take t.at t.chars) (c ∷ drop (suc t.at) t.chars),
      length-drop (suc t.at) t.chars,
    ) in
    record {
      string =
          CStr-glue m 0 (take t.at t.chars) (c ∷ drop (suc t.at) t.chars)
            (front h.line t.chars v.string t.at m (omega arith) (λ q x. ground (arith, v.cur_is)))
            (CStr-at m (c ∷ drop (suc t.at) t.chars) (omega (arith, n)) (
              ground (arith, v.cur_is),
              z,
              CStr-store h.line h.cur c (t.at + 1) (drop (suc t.at) t.chars)
                  (omega (arith, v.cur_is))
                  (CStr-at h.line (drop (suc t.at) t.chars) (omega arith)
                    (back h.line t.chars v.string (suc t.at) (omega arith))),
            ));
      len_is = v.len_is ∙ sym long;
      cur_is = omega (arith, v.cur_is, v.room);
      within = omega (arith, long);
      room = omega (arith, long, v.room);
    }

length-typed :
    (c : ℕ) (t : Text) → t.at ≤ length t.chars → length (type_char c t).chars ≡ length t.chars + 1
length-typed c t h = omega (
  arith,
  length-append (take t.at t.chars) (c ∷ drop t.at t.chars),
  length-take t.at t.chars,
  length-drop t.at t.chars,
)

pub insert-IsText :
    (c : ℕ) (h : History) (t : Text)
    → c ≢ 0
    → length t.chars + 1 < line_size
    → IsText h t
    → IsText (insert_char c h) (type_char c t)
unfolding insert_char
insert-IsText c h t z lt v =
    let long = length-typed c t v.within in
    let n : (h.len + 1) % 2 ^ 16 ≡ length t.chars + 1 = omega (arith, v.len_is, v.room) in
    let k = h.cur in
    let put =
      insertion h.line t.chars v.string h.cur c (h.len - h.cur) (omega (arith, v.cur_is, v.within))
        z (omega (arith, v.len_is)) in
    let same : h.cur + (h.len - h.cur) + 1 ≡ (h.len + 1) % 2 ^ 16 =
      omega (arith, n, v.len_is, v.cur_is, v.within) in
    record {
      string =
          subst (λ i. CStr (insert_char c h).line 0 (take i t.chars ++ c ∷ drop i t.chars)) v.cur_is
            (subst
              (λ i.
                CStr
                  (store (store (copy h.line (h.cur + 1) h.line h.cur (h.len - h.cur)) h.cur c) i 0)
                  0 (take h.cur t.chars ++ c ∷ drop h.cur t.chars))
              same put);
      len_is = n ∙ sym long;
      cur_is = omega (arith, v.cur_is, v.within, v.room);
      within = omega (arith, long, v.within);
      room = omega (arith, long, lt);
    }

pub append-IsText :
    (c : ℕ) (h : History) (t : Text)
    → c ≢ 0
    → length t.chars + 1 < line_size
    → h.cur ≡ h.len
    → IsText h t
    → IsText (append_char c h) (type_char c t)
unfolding append_char
append-IsText c h t z lt end v =
    let long = length-typed c t v.within in
    let at_end : t.at ≡ length t.chars = sym v.cur_is ∙ end ∙ v.len_is in
    let n : (h.len + 1) % 2 ^ 16 ≡ length t.chars + 1 = omega (arith, v.len_is, v.room) in
    let m = store (store h.line h.len c) ((h.len + 1) % 2 ^ 16) 0 in
    let i : length (take t.at t.chars) ≡ t.at = omega (arith, length-take t.at t.chars, at_end) in
    let rest : drop t.at t.chars ≡ [] = drop_all t.chars t.at (omega (arith, at_end)) in
    record {
      string =
          CStr-glue m 0 (take t.at t.chars) (c ∷ drop t.at t.chars)
            (front h.line t.chars v.string t.at m (omega (arith, at_end))
              (λ q x. ground (arith, n, v.len_is, at_end)))
            (subst (λ l. CStr m (0 + length (take t.at t.chars)) (c ∷ l)) (sym rest)
              (ground (arith, i, at_end, v.len_is, n), z, ground (arith, i, at_end, v.len_is, n)));
      len_is = n ∙ sym long;
      cur_is = omega (arith, n, at_end);
      within = omega (arith, long, v.within);
      room = omega (arith, long, lt);
    }

-- The bytes from `i` to `j` are taken out, with the bytes behind them moved and the NUL put.
pub splice-IsText :
    (h : History) (t : Text) (i j k n e : ℕ)
    → IsText h t
    → i ≤ j
    → j ≤ length t.chars
    → k ≤ i + n
    → n ≡ length t.chars - j
    → e ≡ i + n
    → IsText (set_len e (record h { line = copy h.line i h.line j n; cur = k })) (cut i j k t)
unfolding set_len
splice-IsText h t i j k n e v a b c d f =
    let long = length-cut i j t.chars a b in
    record {
      string =
          subst
            (λ x. CStr (store (copy h.line i h.line j n) x 0) 0 (take i t.chars ++ drop j t.chars))
            (sym f) (splice h.line t.chars v.string i j n a b d);
      len_is = omega (arith, long, d, f);
      cur_is = refl;
      within = omega (arith, long, d);
      room = omega (arith, long, v.room);
    }

pub cut_tail-IsText :
    (h : History) (t : Text) (i : ℕ)
    → IsText h t
    → i ≤ length t.chars
    → IsText (set_len i (record h { cur = i })) (cut i (length t.chars) i t)
unfolding set_len
cut_tail-IsText h t i v a =
    let long = length-cut i (length t.chars) t.chars a (omega arith) in
    let none_left : drop (length t.chars) t.chars ≡ [] =
      drop_all t.chars (length t.chars) (omega arith) in
    record {
      string =
          subst (λ l. CStr (store h.line i 0) 0 (take i t.chars ++ l)) (sym none_left)
            (subst (CStr (store h.line i 0) 0) (sym (append-nil (take i t.chars)))
              (cut_at_index h.line t.chars v.string i a));
      len_is = omega (arith, long);
      cur_is = refl;
      within = omega (arith, long);
      room = omega (arith, long, v.room);
    }
