-- ===== src/Shell/Complete/Insert.antt =====
-- Bytes put into the line at the cursor.
use wio_lite_ai.Base.{
  ℕ, ◌+◌, ◌-◌, ◌%◌, ◌^◌, ◌≤◌, ◌<◌, ◌≡◌, refl, sym, subst, ap, ◌∙◌, arith, Bool, true, false,
  Bool-cases, inl, inr, List, ◌++◌, length, take, drop, length-take, length-drop, length-append,
  store, write, write-below, write-above, NonNul, CStr, CStr-at, CStr-agree, CStr-terminated, ltb,
  if◌then◌else◌, ◌==◌, not, nil_of_length, take-append-drop,
}
use wio_lite_ai.Shell.History.{History, copy, line_size}
use wio_lite_ai.Shell.Output.{Tx}
use wio_lite_ai.Shell.Edit.State.{Editor}
use wio_lite_ai.Shell.Edit.Ops.{set_shell, say}
use wio_lite_ai.Shell.Edit.Text.{Text, IsText}
use wio_lite_ai.Shell.Edit.Splice.{CStr-glue, copy-terminated, front, back}
use wio_lite_ai.Shell.Edit.Refine.{Edited, Turns, unmoved}
use wio_lite_ai.Shell.Complete.{bel, open_gap, insert_at_cursor}

-- The text with `bs` in front of the cursor.
abbrev pub insert_text : List ℕ → Text → Text
insert_text bs t = record {
  chars = take t.at t.chars ++ (bs ++ drop t.at t.chars);
  at = t.at + length bs;
}

pub open_gap-Edited :
    (bs : List ℕ) (h : History) (t : Text)
    → NonNul bs
    → length t.chars + length bs < line_size
    → IsText h t
    → Edited h (open_gap bs h) (insert_text bs t)
unfolding open_gap
open_gap-Edited bs h t z lt v =
    let i = h.cur in
    let n = length bs in
    let gap = copy h.line (i + n) h.line i (h.len - i) in
    let end = (h.len + n) % 2 ^ 16 in
    let m' = store (write gap i bs) end 0 in
    let e : end ≡ h.len + n = omega (arith, v.len_is, lt) in
    let at : i ≤ length t.chars = omega (arith, v.cur_is, v.within) in
    let f : length (take i t.chars) ≡ i = omega (arith, length-take i t.chars, at) in
    let d : length (drop i t.chars) ≡ h.len - i = omega (arith, length-drop i t.chars, v.len_is) in
    let moved : CStr (store gap (i + n + length (drop i t.chars)) 0) (i + n) (drop i t.chars) =
      copy-terminated h.line h.line (i + n) i (h.len - i) (i + n) i (drop i t.chars)
        (back h.line t.chars v.string i at) (omega arith) (omega (arith, d)) (omega arith) in
    let rest : CStr m' (i + n) (drop i t.chars) =
      CStr-agree (store gap (i + n + length (drop i t.chars)) 0) m' (i + n) (drop i t.chars)
        (λ q a b. ground (arith, write-above gap i bs q a, e, d)) moved in
    let word : CStr m' i (bs ++ drop i t.chars) =
      CStr-glue m' i bs (drop i t.chars)
        (CStr-agree (store (write gap i bs) (i + n) 0) (store m' (i + n) 0) i bs
          (λ q a b. ground (arith, e)) (CStr-terminated gap i (i + n) bs refl z))
        rest in
    let line : CStr m' 0 (take i t.chars ++ (bs ++ drop i t.chars)) =
      CStr-glue m' 0 (take i t.chars) (bs ++ drop i t.chars)
        (front h.line t.chars v.string i m' at (λ q b. ground (arith, write-below gap i bs q b, e)))
        (CStr-at m' (bs ++ drop i t.chars) (omega (arith, f)) word) in
    let long : length (take t.at t.chars ++ (bs ++ drop t.at t.chars)) ≡ length t.chars + n =
      omega (
        arith,
        length-append (take t.at t.chars) (bs ++ drop t.at t.chars),
        length-append bs (drop t.at t.chars),
        length-take t.at t.chars,
        length-drop t.at t.chars,
        v.within,
      ) in
    record {
      text = record {
        string = subst (λ k. CStr m' 0 (take k t.chars ++ (bs ++ drop k t.chars))) v.cur_is line;
        len_is = omega (arith, e, long, v.len_is);
        cur_is = omega (arith, v.cur_is, v.within, lt);
        within = omega (arith, long, v.within);
        room = omega (arith, long, lt);
      };
      kept = (refl, refl, refl, refl);
    }

-- What is inserted: the bytes, where they fit, and else nothing.
abbrev pub fitted : List ℕ → Text → Text
fitted bs t = if ltb (line_size - 1) (length t.chars + length bs) then t else insert_text bs t

pub insert_text-nil : (bs : List ℕ) (t : Text) → length bs ≡ 0 → insert_text bs t ≡ t
insert_text-nil bs t e =
    ap (λ l. insert_text l t) (nil_of_length bs (omega (arith, e)))
    ∙ ap (λ l. record { chars = l; at = t.at + 0 }) (take-append-drop t.at t.chars)
    ∙ ap (λ k. record { chars = t.chars; at = k }) (omega arith)

pub fitted-nil :
    (bs : List ℕ) (t : Text) → length bs ≡ 0 → length t.chars < line_size → fitted bs t ≡ t
fitted-nil bs t e h =
    let fits : ltb (line_size - 1) (length t.chars + length bs) ≡ false = ground (arith, e, h) in
    ap (λ b. if b then t else insert_text bs t) fits ∙ insert_text-nil bs t e

pub bel-Turns : (tx : Tx) (e : Editor) (t : Text) → IsText e.shell t → Turns e (bel tx e) t
unfolding bel say
bel-Turns tx e t v = unmoved e t v

abbrev pub Puts : List ℕ → Editor → Text → Bool × Editor → Type 0
Puts bs e t r =
    (r.0 ≡ not (ltb (line_size - 1) (length t.chars + length bs))) × Turns e r.1 (fitted bs t)

-- `insert_at_cursor` puts the bytes into the line where they fit with the NUL, and says so.
pub insert_at_cursor-Puts :
    (tx : Tx) (bs : List ℕ) (e : Editor) (t : Text)
    → NonNul bs
    → IsText e.shell t
    → Puts bs e t (insert_at_cursor tx bs e)
unfolding insert_at_cursor
insert_at_cursor-Puts tx bs e t z v = elim (Bool-cases (length bs == 0)) [
  | inl y ↦
      let none_put : length bs ≡ 0 = ground (arith, y) in
      let steps : insert_at_cursor tx bs e ≡ (true, e) = ground (arith, y) in
      let fits : ltb (line_size - 1) (length t.chars + length bs) ≡ false =
        ground (arith, none_put, v.room) in
      let u = fitted-nil bs t none_put v.room in
      subst (Puts bs e t) (sym steps) (sym (ap not fits), subst (Turns e e) (sym u) (unmoved e t v))
  | inr n ↦ elim (Bool-cases (ltb (line_size - 1) (length t.chars + length bs))) [
    | inl full ↦
        let steps : insert_at_cursor tx bs e ≡ (false, bel tx e) =
          ground (arith, n, full, v.len_is) in
        let u : fitted bs t ≡ t = ap (λ b. if b then t else insert_text bs t) full in
        subst (Puts bs e t) (sym steps)
          (sym (ap not full), subst (Turns e (bel tx e)) (sym u) (bel-Turns tx e t v))
    | inr fits ↦
        let d = set_shell e (open_gap bs e.shell) in
        let steps : insert_at_cursor tx bs e ≡ (true, d) = ground (arith, n, fits, v.len_is) in
        let u : fitted bs t ≡ insert_text bs t = ap (λ b. if b then t else insert_text bs t) fits in
        subst (Puts bs e t) (sym steps) (
          sym (ap not fits),
          subst (Turns e d) (sym u) (open_gap-Edited bs e.shell t z (ground (arith, fits)) v, refl),
        )
  ]
]
