-- ===== src/Shell/Print/Whole.antt =====
-- A formatted call is cli_write of the colour, the formatted bytes and the end of the colour.
use wio_lite_ai.Base.{
  ℕ, ◌≡◌, refl, sym, ap, ◌∙◌, Bool, true, false, List, [], ◌∷◌, ◌++◌, if◌then◌else◌,
}
use wio_lite_ai.Shell.Output.{Tx, Console, putc, puts, out_begin, write_bytes}
use wio_lite_ai.Shell.Print.{reset, if_colored, finish, emitted, vemit}
use wio_lite_ai.Fmt.{Arg, done, out_str, vformat}
use wio_lite_ai.Fmt.Sink.{map_outcome}
use wio_lite_ai.Fmt.Render.{rendered, vformat-rendered}

puts-append :
    (tx : Tx) (xs ys : List ℕ) (c : Console) → puts tx c (xs ++ ys) ≡ puts tx (puts tx c xs) ys
unfolding puts
puts-append tx [] ys c = refl
puts-append tx (x ∷ xs) ys c = puts-append tx xs ys (putc tx c x)

puts-out_str : (tx : Tx) (xs : List ℕ) (c : Console) → out_str (putc tx) xs c ≡ puts tx c xs
unfolding puts out_str
puts-out_str tx [] c = refl
puts-out_str tx (x ∷ xs) c = puts-out_str tx xs (putc tx c x)

-- What a call prints: the formatted bytes, in their colour if there is one.
abbrev pub colored : List ℕ → List ℕ → List ℕ
colored [] l = l
colored (x ∷ color) l = (x ∷ color) ++ (l ++ reset)

module _ (f : ℕ) (tx : Tx) (fmt : List ℕ) (args : List Arg) (l : List ℕ)
    (e : rendered f fmt args ≡ done l) where
  run : (c : Console) → vformat (putc tx) f fmt args c ≡ done (puts tx c l)
  run c =
      vformat-rendered (putc tx) f fmt args c
      ∙ ap (map_outcome (λ t. out_str (putc tx) t c)) e
      ∙ ap done (puts-out_str tx l c)

  body_lem :
      (color : List ℕ) (c : Console)
      → emitted tx color (vformat (putc tx) f fmt args (if_colored tx color color c))
        ≡ done (finish tx (puts tx c (colored color l)))
  unfolding emitted if_colored finish
  body_lem [] c = ap (emitted tx []) (run c)
  body_lem (x ∷ color) c =
      ap (emitted tx (x ∷ color)) (run (puts tx c (x ∷ color)))
      ∙ ap (λ d. done (finish tx d))
          (sym (puts-append tx l reset (puts tx c (x ∷ color)))
            ∙ sym (puts-append tx (x ∷ color) (l ++ reset) c))

-- Where the formatter writes the bytes `l`, `vemit`, which cli_print, cli_error, cli_warn and
-- cli_info are with a colour, leaves the console as one `cli_write` of the colour, `l` and the end of the
-- colour leaves it, or of `l` alone where there is no colour, and returns the same.
pub vemit-write_bytes :
    (f : ℕ) (tx : Tx) (fmt : List ℕ) (args : List Arg) (l : List ℕ) (color : List ℕ) (c : Console)
    → rendered f fmt args ≡ done l
    → vemit f tx color fmt args c ≡ done (write_bytes tx c (colored color l))
unfolding vemit write_bytes finish
vemit-write_bytes f tx fmt args l color c e =
    let (ok, c') = out_begin tx c in
    ap (λ o. if ok then o else done (false, c')) (body_lem f tx fmt args l e color c')
    ∙ either ok (finish tx (puts tx c' (colored color l))) (false, c')
  where
    either :
        (b : Bool) (x y : Bool × Console)
        → (if b then done x else done y) ≡ done (if b then x else y)
    either true x y = refl
    either false x y = refl
