-- ===== src/Shell/Edit/Keymap.antt =====
-- What the editing keys do to a line of text with a cursor, by positions in a list of characters.
use wio_lite_ai.Base.{
  ℕ, ◌+◌, ◌-◌, ◌≡◌, refl, sym, ap, ◌∙◌, min, Bool, true, false, ◌&&◌, ◌||◌, Option, none, some, [],
  length, take, drop, take-append-drop, ltb, leb, ◌==◌, if◌then◌else◌,
}
use wio_lite_ai.Shell.History.{line_size}
use wio_lite_ai.Shell.Number.{between}
use wio_lite_ai.Shell.Edit.Text.{Text, type_char, replace_char, cut}
use wio_lite_ai.Shell.Edit.Words.{skip, back_to_front}

abbrev pub typed : Bool → ℕ → Text → Text
typed overwrite c t =
    if overwrite && ltb t.at (length t.chars)
    then replace_char c t
    else if leb (line_size - 1) (length t.chars)
    then t
    else type_char c t

abbrev pub rub_out : Text → Text
rub_out t = cut (t.at - 1) t.at (t.at - 1) t

abbrev pub delete : Text → Text
delete t = cut t.at (min (t.at + 1) (length t.chars)) t.at t

abbrev pub kill_to_end : Text → Text
kill_to_end t = cut t.at (length t.chars) t.at t

abbrev pub kill_to_start : Text → Text
kill_to_start t = cut 0 t.at 0 t

-- In front of the last word that begins before the cursor, and behind the next one that ends.
unfoldable pub word_left : Text → ℕ
unfolding skip
word_left t = length (skip false (skip true (back_to_front (take t.at t.chars) [])))

unfoldable pub word_right : Text → ℕ
unfolding skip
word_right t = length t.chars - length (skip false (skip true (drop t.at t.chars)))

abbrev pub kill_word : Text → Text
kill_word t = cut (word_left t) t.at (word_left t) t

abbrev pub move : ℕ → Text → Text
move k t = record t { at = k }

-- The text after a key below 0x80, and `none` for a key that is not for the text alone.
unfoldable pub text_key : ℕ → Bool → Bool → Text → Option Text
unfolding word_left word_right
text_key b overwrite bs_swap t =
    if b == 0x1B
    then some t
    else if b == 0x01
    then some (move 0 t)
    else if b == 0x02
    then some (move (t.at - 1) t)
    else if b == 0x04
    then some (delete t)
    else if b == 0x05
    then some (move (length t.chars) t)
    else if b == 0x06
    then some (move (min (t.at + 1) (length t.chars)) t)
    else if b == 0x0B
    then some (kill_to_end t)
    else if b == 0x0C
    then some t
    else if b == 0x0E
    then none
    else if b == 0x10
    then none
    else if b == 0x15
    then some (kill_to_start t)
    else if b == 0x17
    then some (kill_word t)
    else if b == 0x09
    then none
    else if b == 0x08
    then some (rub_out t)
    else if b == 0x7F
    then (if bs_swap then some (delete t) else some (rub_out t))
    else if between 0x20 0x7E b
    then some (typed overwrite b t)
    else some t

-- A line ending, Ctrl+C, the history and Tab are not for the text alone. The rest of the bytes from
-- 0x80 on does nothing.
unfoldable pub edit_key : ℕ → Bool → Bool → Text → Option Text
unfolding text_key
edit_key b overwrite bs_swap t =
    if b == 0x03 || b == b'\r' || b == b'\n'
    then none
    else if leb 0x80 b
    then some t
    else text_key b overwrite bs_swap t

pub cut-congr :
    (t : Text) (i j k i' j' k' : ℕ) → i ≡ i' → j ≡ j' → k ≡ k' → cut i j k t ≡ cut i' j' k' t
cut-congr t i j k i' j' k' a b c =
    ap (λ x. cut x j k t) a ∙ ap (λ x. cut i' x k t) b ∙ ap (λ x. cut i' j' x t) c

pub cut_none : (t : Text) (i j k : ℕ) → i ≡ j → k ≡ t.at → cut i j k t ≡ t
cut_none t i j k e e' =
    cut-congr t i j k i i t.at refl (sym e) e'
    ∙ ap (λ l. record { chars = l; at = t.at }) (take-append-drop i t.chars)

pub move_none : (t : Text) (k : ℕ) → k ≡ t.at → move k t ≡ t
move_none t k e = ap (λ n. move n t) e
