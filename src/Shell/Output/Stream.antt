-- ===== src/Shell/Output/Stream.antt =====
-- The staging buffer never overflows, and loses or reorders nothing until a send fails.
use wio_lite_ai.Base.{
  ℕ, ◌+◌, ◌<◌, ◌≡◌, ◌⊎◌, inl, inr, refl, sym, subst, ap, ◌∙◌, arith, not, true, false, Bool-cases,
  ◌≢◌, List, [], ◌∷◌, ◌++◌, append-nil, append_assoc, ◌==◌, leb, length, length-append,
  nil_of_length,
}
use wio_lite_ai.Shell.Output.{
  Tx, Console, out_size, flush, putc, puts, take_lock, out_begin, write_bytes,
}

-- All that was put since, in order: what the transport has, and then what is staged.
abbrev pub stream : Console → List ℕ
stream c = c.sent ++ c.staged

-- There is room for a byte, and if no send has failed then the stream has grown by `bs`.
pub record Grown (c d : Console) (bs : List ℕ) : Type 0 where
  pub room : length d.staged < out_size
  pub complete :
      (d.tx_failed ≡ true)
      ⊎ ((d.tx_failed ≡ false) × (c.tx_failed ≡ false) × (stream d ≡ stream c ++ bs))

pub Grown-refl : (c : Console) → length c.staged < out_size → Grown c c []
Grown-refl c h = record {
  room = h;
  complete = elim (Bool-cases c.tx_failed) [
    | inl e ↦ inl e
    | inr e ↦ inr (e, e, sym (append-nil (stream c)))
  ];
}

pub Grown-trans :
    {c d e : Console} {xs ys : List ℕ} → Grown c d xs → Grown d e ys → Grown c e (xs ++ ys)
Grown-trans {c} {xs = xs} {ys = ys} a b = record {
  room = b.room;
  complete = elim b.complete [
    | inl f ↦ inl f
    | inr (still, ok, more) ↦ elim a.complete [
      | inl f ↦ absurd (true≢false (sym f ∙ ok))
      | inr (same, ok', s) ↦
          inr (still, ok', more ∙ ap (λ t. t ++ ys) s ∙ append_assoc (stream c) xs ys)
    ]
  ];
}
  where
    true≢false : true ≢ false
    true≢false x = cc x

pub flush-Grown :
    (tx : Tx) (c : Console) → Grown c (flush tx c) [] × (length (flush tx c).staged ≡ 0)
unfolding flush
flush-Grown tx c = elim (Bool-cases (length c.staged == 0)) [
  | inl e ↦ rw (e, flush) (Grown-refl c (ground (arith, e)), ground (arith, e))
  | inr e ↦ elim (Bool-cases c.tx_failed) [
    | inl f ↦
        let steps : flush tx c ≡ record c { staged = [] } = ground (arith, e, f) in
        subst (λ d. Grown c d [] × (length d.staged ≡ 0)) (sym steps)
          (record { room = omega arith; complete = inl f }, refl)
    | inr f ↦ elim (Bool-cases (tx.send_ok c.asked c.staged)) [
      | inl s ↦
          let steps : flush tx c
              ≡ record c { staged = []; asked = c.asked + 1; sent = c.sent ++ c.staged } =
            ground (arith, e, f, s) in
          subst (λ d. Grown c d [] × (length d.staged ≡ 0)) (sym steps)
            (record { room = omega arith; complete = inr (f, f, refl) }, refl)
      | inr s ↦
          let steps : flush tx c ≡ record c { staged = []; asked = c.asked + 1; tx_failed = true } =
            ground (arith, e, f, s) in
          subst (λ d. Grown c d [] × (length d.staged ≡ 0)) (sym steps)
            (record { room = omega arith; complete = inl refl }, refl)
    ]
  ]
]

putc-Grown :
    (tx : Tx) (c : Console) (b : ℕ) → length c.staged < out_size → Grown c (putc tx c b) (b ∷ [])
unfolding putc
putc-Grown tx c b h =
    let d = record c { staged = c.staged ++ b ∷ [] } in
    let long : length d.staged ≡ length c.staged + 1 = length-append c.staged (b ∷ []) in
    elim (Bool-cases c.tx_failed) [
      | inl f ↦
          let steps : putc tx c b ≡ c = ground (arith, f) in
          subst (λ e. Grown c e (b ∷ [])) (sym steps) (record { room = h; complete = inl f })
      | inr f ↦
          let more : stream d ≡ stream c ++ b ∷ [] = sym (append_assoc c.sent c.staged (b ∷ [])) in
          elim (Bool-cases (leb out_size (length c.staged + 1))) [
            | inl full ↦
                let (g, e) = flush-Grown tx d in
                subst (λ e. Grown c e (b ∷ [])) (sym (to_flush f full))
                  (record {
                    room = g.room;
                    complete = elim g.complete [
                      | inl x ↦ inl x
                      | inr (still, ok, same) ↦ inr (still, f, same ∙ append-nil (stream d) ∙ more)
                    ];
                  })
            | inr room ↦
                subst (λ e. Grown c e (b ∷ [])) (sym (to_stage f room))
                  (record { room = ground (arith, long, room); complete = inr (f, f, more) })
          ]
    ]
  where
    to_flush :
        c.tx_failed ≡ false
        → leb out_size (length c.staged + 1) ≡ true
        → putc tx c b ≡ flush tx (record c { staged = c.staged ++ b ∷ [] })
    to_flush f full = ground (arith, f, full)

    to_stage :
        c.tx_failed ≡ false
        → leb out_size (length c.staged + 1) ≡ false
        → putc tx c b ≡ record c { staged = c.staged ++ b ∷ [] }
    to_stage f room = ground (arith, f, room)

pub puts-Grown :
    (tx : Tx) (bs : List ℕ) (c : Console) → length c.staged < out_size → Grown c (puts tx c bs) bs
unfolding puts
puts-Grown tx [] c h = Grown-refl c h
puts-Grown tx (b ∷ bs) c h =
    let one = putc-Grown tx c b h in Grown-trans one (puts-Grown tx bs (putc tx c b) one.room)

-- For a console with room in its staging buffer: `cli_write` leaves room in it. It fails, and the
-- flag is set, or it succeeds, and then nothing is staged, no send had failed before, and what the
-- transport has is what it had, then what was staged, then the bytes.
pub write_bytes_lem :
    (tx : Tx) (c : Console) (bs : List ℕ)
    → length c.staged < out_size
    → let (ok, d) = write_bytes tx c bs in
      (length d.staged < out_size)
      × (((ok ≡ false) × (d.tx_failed ≡ true))
          ⊎ ((ok ≡ true)
              × (d.staged ≡ [])
              × (c.tx_failed ≡ false)
              × (d.sent ≡ (c.sent ++ c.staged) ++ bs)))
unfolding write_bytes out_begin take_lock
write_bytes_lem tx c bs h =
    let c' = record c { asked = c.asked + 1 } in
    let p = puts-Grown tx bs c' h in
    let (g, e) = flush-Grown tx (puts tx c' bs) in
    let all = Grown-trans p g in
    let d = flush tx (puts tx c' bs) in
    let empty : d.staged ≡ [] = nil_of_length d.staged (omega (arith, e)) in
    elim (Bool-cases (tx.lock_ok c.asked)) [
      | inr no_lock ↦ rw (no_lock, out_begin) (h, inl (refl, refl))
      | inl locked ↦
          rw (locked, out_begin)
            (
              g.room,
              elim all.complete [
                | inl f ↦ inl (ap not f, f)
                | inr (still, ok, s) ↦ inr (
                  ap not still,
                  empty,
                  ok,
                  sym (append-nil d.sent)
                      ∙ ap (λ t. d.sent ++ t) (sym empty)
                      ∙ s
                      ∙ ap (λ t. (c.sent ++ c.staged) ++ t) (append-nil bs),
                )
              ],
            )
    ]
