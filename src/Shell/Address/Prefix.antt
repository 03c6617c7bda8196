-- ===== src/Shell/Address/Prefix.antt =====
-- The length of a prefix and its mask.
use wio_lite_ai.Base.{
  ℕ, zero, suc, ◌+◌, ◌-◌, ◌*◌, ◌%◌, ◌^◌, ◌≤◌, ◌<◌, ◌≡◌, refl, sym, subst, ap, ◌∙◌, arith,
  Bool-cases, all_below-true, is_some, is_some-eq, inl, inr, some, leb,
}
use wio_lite_ai.Shell.Address.{mask_of, mask_bits_loop, mask_bits}

-- `g` doubled `n` times.
unfoldable doubled : ℕ → ℕ → ℕ
doubled zero g = g
doubled (suc n) g = doubled n (g + g)

mask_bits_loop_lem :
    (f mask n : ℕ)
    → mask < 2 ^ 32
    → 2 ^ 32 < doubled f (2 ^ 32 - mask)
    → (k : ℕ) × (mask_bits_loop f mask n ≡ some (n + k))
      × (doubled k (2 ^ 32 - mask) ≤ 2 ^ 32)
      × (2 ^ 32 < doubled (suc k) (2 ^ 32 - mask))
unfolding mask_bits_loop doubled
mask_bits_loop_lem zero mask n h g = absurd (omega arith)
mask_bits_loop_lem (suc f) mask n h g = elim (Bool-cases (leb (2 ^ 31) mask)) [
  | inr q ↦
      let low : mask < 2 ^ 31 = ground (arith, q) in
      (0, ground (arith, q), omega arith, omega (arith, low))
  | inl y ↦
      let high : 2 ^ 31 ≤ mask = ground (arith, y) in
      let twice : 2 ^ 32 - mask * 2 % 2 ^ 32 ≡ (2 ^ 32 - mask) + (2 ^ 32 - mask) =
        omega (arith, high) in
      let (k, e, le, gt) =
        mask_bits_loop_lem f (mask * 2 % 2 ^ 32) (n + 1) (omega arith)
          (subst (λ x. 2 ^ 32 < doubled f x) (sym twice) g) in
      let steps : mask_bits_loop (suc f) mask n ≡ mask_bits_loop f (mask * 2 % 2 ^ 32) (n + 1) =
        ground (arith, y) in
      (
        suc k,
        steps ∙ e ∙ ap some (omega arith),
        subst (λ x. doubled k x ≤ 2 ^ 32) twice le,
        subst (λ x. 2 ^ 32 < doubled (suc k) x) twice gt,
      )
]

doubled-mul : (n g : ℕ) → doubled n g ≡ g * 2 ^ n
unfolding doubled
doubled-mul zero g = omega arith
doubled-mul (suc n) g =
    doubled-mul n (g + g) ∙ two_powers g (2 ^ n) ∙ ap (λ x. g * x) (sym (pow_two n))
  where
    pow_two : (n : ℕ) → 2 ^ suc n ≡ 2 * 2 ^ n
    pow_two n = omega arith

    two_powers : (g p : ℕ) → (g + g) * p ≡ g * (2 * p)
    two_powers g p = grind arith

-- For a mask of 32 bits, `cli_ipv4_mask_bits` returns, after at most 32 shifts, and its result is the
-- number `k` of ones at the top of the mask: what the mask lacks to `2 ^ 32`, `2 ^ k` times, is at most
-- `2 ^ 32`, and twice that is more.
pub mask_bits_lem :
    (mask : ℕ)
    → mask < 2 ^ 32
    → (k : ℕ) × (mask_bits mask ≡ some k)
      × ((2 ^ 32 - mask) * 2 ^ k ≤ 2 ^ 32)
      × (2 ^ 32 < (2 ^ 32 - mask) * 2 ^ (k + 1))
unfolding mask_bits
mask_bits_lem mask h =
    let g = 2 ^ 32 - mask in
    let enough : 2 ^ 32 < doubled 33 g =
      subst (λ x. 2 ^ 32 < x) (sym (doubled-mul 33 g)) (omega (arith, h)) in
    let (k, e, le, gt) = mask_bits_loop_lem 33 mask 0 h enough in
    (
      k,
      e ∙ ap some (omega arith),
      subst (λ x. x ≤ 2 ^ 32) (doubled-mul k g) le,
      subst (λ x. 2 ^ 32 < x) (doubled-mul (suc k) g ∙ ap (λ n. g * 2 ^ n) (omega arith)) gt,
    )

-- A prefix length that `cli_parse_ipv4_cidr` can return, at most 32, is the one that `cli_ipv4_mask_bits`
-- gives back for its mask.
pub mask_bits-mask_of : (bits : ℕ) → bits ≤ 32 → mask_bits (mask_of bits) ≡ some bits
unfolding mask_bits mask_of
mask_bits-mask_of bits h =
    is_some-eq bits (mask_bits (mask_of bits))
      (all_below-true 33 (λ n. is_some n (mask_bits (mask_of n))) bits refl (omega arith))
