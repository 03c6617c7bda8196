-- ===== src/Shell/Edit/Buffer.antt =====
-- What the operations do to the line buffer, its length and the cursor.
use wio_lite_ai.Base.{
  ℕ, zero, suc, ◌+◌, ◌-◌, ◌%◌, ◌^◌, Bool, true, false, ◌==◌, if◌then◌else◌, Mem, store,
}
use wio_lite_ai.Shell.History.{History, copy}

-- `line[cur++] = c`
unfoldable pub overwrite_char : ℕ → History → History
overwrite_char c h = record h { line = store h.line h.cur c; cur = (h.cur + 1) % 2 ^ 16 }

-- `line[len++] = c; line[len] = '\0'; cur = len`
unfoldable pub append_char : ℕ → History → History
append_char c h =
    let n = (h.len + 1) % 2 ^ 16 in
    record h { line = store (store h.line h.len c) n 0; len = n; cur = n }

-- The gap opened in the middle.
unfoldable pub insert_char : ℕ → History → History
insert_char c h =
    let m = copy h.line (h.cur + 1) h.line h.cur (h.len - h.cur) in
    let n = (h.len + 1) % 2 ^ 16 in
    record h { line = store (store m h.cur c) n 0; len = n; cur = (h.cur + 1) % 2 ^ 16 }

-- `line[len] = '\0'` after `len` has changed.
unfoldable pub set_len : ℕ → History → History
set_len n h = record h { line = store h.line n 0; len = n }

-- `memmove(&line[cur - 1], &line[cur], len - cur); cur--; len--`
unfoldable pub erase_before : History → History
unfolding set_len
erase_before h = set_len ((h.len + 2 ^ 16 - 1) % 2 ^ 16) (record h {
  line = copy h.line (h.cur - 1) h.line h.cur (h.len - h.cur);
  cur = (h.cur + 2 ^ 16 - 1) % 2 ^ 16;
})

-- The fast path of it: `len--; cur = len`.
unfoldable pub erase_last : History → History
unfolding set_len
erase_last h = let n = (h.len + 2 ^ 16 - 1) % 2 ^ 16 in set_len n (record h { cur = n })

unfoldable pub erase_at : History → History
unfolding set_len
erase_at h =
    set_len ((h.len + 2 ^ 16 - 1) % 2 ^ 16)
      (record h { line = copy h.line h.cur h.line (h.cur + 1) (h.len - h.cur - 1) })

unfoldable pub cut_tail : History → History
unfolding set_len
cut_tail h = set_len h.cur h

unfoldable pub cut_head : History → History
unfolding set_len
cut_head h =
    set_len ((h.len - h.cur) % 2 ^ 16)
      (record h { line = copy h.line 0 h.line h.cur (h.len - h.cur); cur = 0 })

-- `while (i > 0 && (line[i - 1] == ' ') == blank) i--`
unfoldable pub back_while : Bool → Mem → ℕ → ℕ
back_while blank m zero = zero
back_while true m (suc i) = let rest = back_while true m i in if m i == b' ' then rest else suc i
back_while false m (suc i) = let rest = back_while false m i in if m i == b' ' then suc i else rest

unfoldable pub word_start : History → ℕ → ℕ
unfolding back_while
word_start h from = back_while false h.line (back_while true h.line from)

-- `while (i < len && (line[i] == ' ') == blank) i++`, with `n` bytes left up to `len`.
unfoldable pub on_while : Bool → ℕ → Mem → ℕ → ℕ
on_while blank zero m i = i
on_while true (suc n) m i = let rest = on_while true n m (i + 1) in if m i == b' ' then rest else i
on_while false (suc n) m i =
    let rest = on_while false n m (i + 1) in if m i == b' ' then i else rest

unfoldable pub word_end : History → ℕ → ℕ
unfolding on_while
word_end h from =
    let i = on_while true (h.len - from) h.line from in on_while false (h.len - i) h.line i

-- `memmove(&line[i], &line[cur], len - cur); len -= cur - i; cur = i`
unfoldable pub cut_word : ℕ → History → History
unfolding set_len
cut_word i h =
    set_len ((h.len - (h.cur - i)) % 2 ^ 16)
      (record h { line = copy h.line i h.line h.cur (h.len - h.cur); cur = i % 2 ^ 16 })
