-- ===== src/Fmt/Buffer.antt =====
-- `fmt_vsnformat` stores the front of what the formatter writes, and a NUL, within its buffer.
use wio_lite_ai.Base.{
  ℕ, zero, suc, ◌+◌, ◌-◌, ◌<◌, ◌≡◌, refl, sym, ap, ◌∙◌, arith, min, List, [], ◌∷◌, length, take,
  take-nil, length-take, NonNul, CStr, CStr-terminated, Mem, store, write,
}
use wio_lite_ai.Fmt.{Arg, done, Snbuf, snbuf_putc, terminated, out_str, vformat, vsnformat}
use wio_lite_ai.Fmt.Sink.{map_outcome}
use wio_lite_ai.Fmt.Render.{rendered, vformat-rendered}

snbuf_congr :
    {m m' : Mem} {p p' : ℕ}
    → m ≡ m'
    → p ≡ p'
    → ◌≡◌ {A = Snbuf} (record { mem = m; pos = p }) (record { mem = m'; pos = p' })
snbuf_congr a b = λ i. record { mem = a i; pos = b i }

-- Bytes put behind `pos`: as many as there is room for in front of the NUL.
stored :
    (buf cap : ℕ) (l : List ℕ) (m : Mem) (pos room : ℕ)
    → pos + room + 1 ≡ cap
    → out_str (snbuf_putc buf cap) l (record { mem = m; pos = pos })
      ≡ record { mem = write m (buf + pos) (take room l); pos = pos + min room (length l) }
unfolding out_str snbuf_putc
stored buf cap [] m pos room h =
    snbuf_congr (ap (write m (buf + pos)) (sym (take-nil room))) (omega arith)
stored buf cap (c ∷ cs) m pos zero h =
    let full : snbuf_putc buf cap (record { mem = m; pos = pos }) c
        ≡ record { mem = m; pos = pos } =
      ground (arith, h) in
    ap (out_str (snbuf_putc buf cap) cs) full
    ∙ stored buf cap cs m pos zero h
    ∙ snbuf_congr refl (omega arith)
stored buf cap (c ∷ cs) m pos (suc room) h =
    let put : snbuf_putc buf cap (record { mem = m; pos = pos }) c
        ≡ record { mem = store m (buf + pos) c; pos = pos + 1 } =
      ground (arith, h) in
    ap (out_str (snbuf_putc buf cap) cs) put
    ∙ stored buf cap cs (store m (buf + pos) c) (pos + 1) room (omega (arith, h))
    ∙ snbuf_congr (ap (λ p. write (store m (buf + pos) c) p (take room cs)) (omega arith))
        (omega arith)

-- Where the formatter writes the bytes `l`, `fmt_vsnformat` with a buffer of `cap` bytes, not 0, at
-- `buf` returns how many of them it stored, all or the first `cap - 1`, and stores these from `buf`
-- on and a NUL behind them, and nothing else.
pub vsnformat_lem :
    (f : ℕ) (m : Mem) (buf cap : ℕ) (fmt : List ℕ) (args : List Arg) (l : List ℕ)
    → 0 < cap
    → rendered f fmt args ≡ done l
    → vsnformat f m buf cap fmt args
      ≡ done (
        min (cap - 1) (length l),
        store (write m buf (take (cap - 1) l)) (buf + min (cap - 1) (length l)) 0,
      )
unfolding vsnformat terminated
vsnformat_lem f m buf cap fmt args l h e =
    let run : vformat (snbuf_putc buf cap) f fmt args (record { mem = m; pos = 0 })
        ≡ done (record { mem = write m buf (take (cap - 1) l); pos = min (cap - 1) (length l) }) =
      vformat-rendered (snbuf_putc buf cap) f fmt args (record { mem = m; pos = 0 })
      ∙ ap (map_outcome (λ t. out_str (snbuf_putc buf cap) t (record { mem = m; pos = 0 }))) e
      ∙ ap done (
          stored buf cap l m 0 (cap - 1) (omega arith)
          ∙ snbuf_congr (ap (λ p. write m p (take (cap - 1) l)) (omega arith)) (omega arith)) in
    let steps : vsnformat f m buf cap fmt args
        ≡ terminated buf (vformat (snbuf_putc buf cap) f fmt args (record { mem = m; pos = 0 })) =
      ground (arith, h) in
    steps ∙ ap (terminated buf) run

-- Where the formatter writes the bytes `l`, and those of them that there is room for are not NUL,
-- `fmt_vsnformat` with a buffer of `cap` bytes, not 0, at `buf` leaves them as a string there.
pub vsnformat-CStr :
    (f : ℕ) (m : Mem) (buf cap : ℕ) (fmt : List ℕ) (args : List Arg) (l : List ℕ)
    → 0 < cap
    → rendered f fmt args ≡ done l
    → NonNul (take (cap - 1) l)
    → (m' : Mem) × (vsnformat f m buf cap fmt args ≡ done (length (take (cap - 1) l), m'))
      × CStr m' buf (take (cap - 1) l)
vsnformat-CStr f m buf cap fmt args l h e z =
    let t = take (cap - 1) l in
    let n = min (cap - 1) (length l) in
    let long : n ≡ length t = sym (length-take (cap - 1) l) in
    (
      store (write m buf t) (buf + n) 0,
      vsnformat_lem f m buf cap fmt args l h e
          ∙ ap (λ k. done (k, store (write m buf t) (buf + n) 0)) long,
      CStr-terminated m buf (buf + n) t (omega (arith, long)) z,
    )
