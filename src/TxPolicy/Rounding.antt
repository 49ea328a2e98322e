-- ===== src/TxPolicy/Rounding.antt =====
-- tools/zkmsg/core/src/txpolicy.rs: the two roundings to two significant figures.
use native.Mathlib.Nat.{
  div-div-eq-div-mul, div-mul-le_self, lt-div-mul-add, mul-le-mul_right, pow-suc, mod-eq_of_lt,
  add-mul, div-add-mod', mod-lt,
}
use stwo_starknet_verifier.Common.{
  ℕ, zero, suc, ◌+◌, ◌-◌, ◌*◌, ◌/◌, ◌%◌, ◌^◌, ◌<◌, ◌≤◌, ◌≡◌, ◌⊎◌, inl, inr, refl, ap, sym, ◌==◌,
  leb, Bool-cases, ==_iff, arith,
}
use stwo_starknet_verifier.TxPolicy.{
  mul_u128, div_ceil, scale_from, scale_rounds, scale_of, round_up_2sf, round_down_2sf,
}

-- The loop ends with less than 100 units of its scale, given a round for each factor 10.
scale_from-small :
    (rounds x scale : ℕ) → x / scale < 100 * 10 ^ rounds → x / scale_from rounds x scale < 100
unfolding scale_from
scale_from-small zero x scale h = omega arith
scale_from-small (suc rounds) x scale h = elim (Bool-cases (leb 100 (x / scale))) [
  | inl large ↦ rw large (
      scale_from-small rounds x (scale * 10)
        (rw (sym (div-div-eq-div-mul x scale 10)) (omega (arith, pow-suc 10 rounds))))
  | inr small ↦ rw small (ground arith)
]

-- A scale is 1, or at least 10 units of it fit.
abbrev IsScale : ℕ → ℕ → Type 0
IsScale x scale = (scale ≡ 1) ⊎ (10 ≤ x / scale)

scale_from-IsScale : (rounds x scale : ℕ) → IsScale x scale → IsScale x (scale_from rounds x scale)
unfolding scale_from
scale_from-IsScale zero x scale h = h
scale_from-IsScale (suc rounds) x scale h = elim (Bool-cases (leb 100 (x / scale))) [
  | inl large ↦ rw large (
      scale_from-IsScale rounds x (scale * 10)
        (inr (rw (sym (div-div-eq-div-mul x scale 10)) (ground arith))))
  | inr small ↦ rw small h
]

-- The scale is a power of ten.
scale_from-power : (rounds x k : ℕ) → (n : ℕ) × (scale_from rounds x (10 ^ k) ≡ 10 ^ n)
unfolding scale_from
scale_from-power zero x k = (k, refl)
scale_from-power (suc rounds) x k = elim (Bool-cases (leb 100 (x / 10 ^ k))) [
  | inl large ↦ rw large (rw (sym (pow-suc 10 k)) (scale_from-power rounds x (suc k)))
  | inr small ↦ rw small (k, refl)
]

power-positive : (n : ℕ) → 0 < 10 ^ n
power-positive zero = omega arith
power-positive (suc n) = omega (arith, pow-suc 10 n, power-positive n)

-- What the roundings need of the scale of a u128.
record HasScale (x : ℕ) : Type 0 where
  exponent : ℕ
  is_power : scale_of x ≡ 10 ^ exponent
  positive : 0 < scale_of x
  two_digits : x / scale_of x < 100
  is_scale : IsScale x (scale_of x)

scale_of_lem : (x : ℕ) → x < 2 ^ 128 → HasScale x
scale_of_lem x h =
    let power = scale_from-power scale_rounds x 0 in
    record {
      exponent = power.0;
      is_power = power.1;
      positive = rw power.1 (power-positive power.0);
      two_digits = scale_from-small scale_rounds x 1 (omega arith);
      is_scale = scale_from-IsScale scale_rounds x 1 (inl refl);
    }

-- A product that fits does not wrap.
pub mul_u128_small : (a b : ℕ) → a * b < 2 ^ 128 → mul_u128 a b ≡ a * b
unfolding mul_u128
mul_u128_small a b h = mod-eq_of_lt h

-- A tenth of a u128 bounds the scale, unless it is 1.
scale-tenth :
    (x : ℕ) → HasScale x → (scale_of x ≡ 1) ⊎ (10 * scale_of x ≤ x / scale_of x * scale_of x)
scale-tenth x s = elim s.is_scale [
  | inl one ↦ inl one
  | inr ten ↦ inr (mul-le-mul_right (scale_of x) ten)
]

-- Two significant figures, with this many zeros.
abbrev pub HasTwoFigures : ℕ → Type 0
HasTwoFigures r = (figures : ℕ) × (n : ℕ) × (figures ≤ 100) × (r ≡ figures * 10 ^ n)

-- What is left below the scale is at most a tenth.
remainder-tenth : (x : ℕ) → HasScale x → 10 * (x - x / scale_of x * scale_of x) ≤ x
remainder-tenth x s =
    let above = lt-div-mul-add {a = x} s.positive in
    elim (scale-tenth x s) [ inl one ↦ rw one (omega arith) | inr ten ↦ omega arith ]

-- Rounding down a u128 takes away at most a tenth of it, and leaves two significant figures.
pub round_down_2sf_lem :
    (x : ℕ)
    → x < 2 ^ 128
    → (round_down_2sf x ≤ x) × (10 * (x - round_down_2sf x) ≤ x) × HasTwoFigures (round_down_2sf x)
unfolding round_down_2sf
round_down_2sf_lem x h =
    let s = scale_of_lem x h in
    (
      div-mul-le_self x (scale_of x),
      remainder-tenth x s,
      (
        x / scale_of x,
        s.exponent,
        omega (arith, s.two_digits),
        ap (◌*◌ (x / scale_of x)) s.is_power,
      ),
    )

-- What the scale is taken times when rounding up.
div_ceil_lem :
    (x scale : ℕ)
    → 0 < scale
    → (x ≤ div_ceil x scale * scale)
      × (div_ceil x scale * scale < x + scale)
      × (div_ceil x scale ≤ x / scale + 1)
unfolding div_ceil
div_ceil_lem x scale h =
    let whole = div-add-mod' x scale in
    let rest = mod-lt x h in
    elim (Bool-cases (x % scale == 0)) [
      | inl even ↦
          let none_left = (==_iff (x % scale) 0).0 even in
          rw even (omega arith, omega arith, omega arith)
      | inr odd ↦ rw (odd, add-mul (x / scale) 1 scale) (ground arith, ground arith, omega arith)
    ]

-- Rounding up a u128 below 2 ^ 127 adds at most a tenth of it, and leaves two significant figures.
pub round_up_2sf_lem :
    (x : ℕ)
    → x < 2 ^ 127
    → (x ≤ round_up_2sf x) × (10 * (round_up_2sf x - x) ≤ x) × HasTwoFigures (round_up_2sf x)
unfolding round_up_2sf
round_up_2sf_lem x h =
    let s = scale_of_lem x (omega arith) in
    let c = div_ceil_lem x (scale_of x) s.positive in
    let fits : div_ceil x (scale_of x) * scale_of x < 2 ^ 128 = elim (scale-tenth x s) [
      | inl one ↦ omega (arith, c.1, one)
      | inr ten ↦ omega (arith, c.1, ten, div-mul-le_self x (scale_of x))
    ] in
    rw (mul_u128_small (div_ceil x (scale_of x)) (scale_of x) fits) (
      c.0,
      elim (scale-tenth x s) [
        | inl one ↦ omega (arith, c.1, one)
        | inr ten ↦ omega (arith, c.1, ten, div-mul-le_self x (scale_of x))
      ],
      (
        div_ceil x (scale_of x),
        s.exponent,
        omega (arith, c.2, s.two_digits),
        ap (◌*◌ (div_ceil x (scale_of x))) s.is_power,
      ),
    )
