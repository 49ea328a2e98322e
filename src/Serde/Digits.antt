-- ===== src/Serde/Digits.antt =====
-- A concrete instance of what tools/zkmsg/core/src/chain.rs and crypto.rs take from other crates:
-- felts as base-256 digits, and stand-ins for the hash and the hex texts. For tests and witnesses.
use mathlib.Core.List.{reverse, reverse-cons, reverse-reverse, reverse-append}
use native.Mathlib.Nat.{zero-add, suc-add, pow-suc}
use stwo_starknet_verifier.Common.{
  ℕ, zero, suc, ◌+◌, ◌-◌, ◌*◌, ◌/◌, ◌%◌, ◌^◌, ◌<◌, ◌≡◌, refl, sym, ap, ◌∙◌, Option, none, some,
  List, [], ◌∷◌, ◌++◌, length, take, drop, replicate, arith, length-append,
}
use stwo_starknet_verifier.Felts.{Felt, Text, Crates}
use stwo_starknet_verifier.Serde.{All256, IsBytesApi, le_value, be_value}

-- So many base-256 digits, the least significant first.
unfoldable pub le_digits : ℕ → ℕ → List ℕ
le_digits zero n = []
le_digits (suc k) n = (n % 256) ∷ le_digits k (n / 256)

le_digits-value : (bs : List ℕ) → All256 bs → le_digits (length bs) (le_value bs) ≡ bs
unfolding le_value le_digits
le_digits-value [] h = refl
le_digits-value (b ∷ bs) h =
    let low : (b + 256 * le_value bs) % 256 ≡ b = omega (arith, h.0) in
    let high : (b + 256 * le_value bs) / 256 ≡ le_value bs = omega (arith, h.0) in
    rw (low, high) (ap (◌∷◌ b) (le_digits-value bs h.1))

le_digits-zero : (m : ℕ) → le_digits m 0 ≡ replicate m 0
unfolding le_digits
le_digits-zero zero = refl
le_digits-zero (suc m) = ap (◌∷◌ 0) (le_digits-zero m)

-- Digits past the number's size are 0.
le_digits-add : (j m n : ℕ) → n < 256 ^ j → le_digits (j + m) n ≡ le_digits j n ++ replicate m 0
unfolding le_digits
le_digits-add zero m n h =
    let none_left : n ≡ 0 = omega arith in rw (none_left, zero-add) (le_digits-zero m)
le_digits-add (suc j) m n h =
    rw (suc-add, le_digits)
      (ap (◌∷◌ (n % 256)) (le_digits-add j m (n / 256) (omega (arith, pow-suc 256 j))))

value-le_digits : (j n : ℕ) → n < 256 ^ j → le_value (le_digits j n) ≡ n
unfolding le_digits le_value
value-le_digits zero n h = omega arith
value-le_digits (suc j) n h =
    omega (arith, value-le_digits j (n / 256) (omega (arith, pow-suc 256 j)))

reverse-zeros : (n : ℕ) → reverse {A = ℕ} (replicate n 0) ≡ replicate n 0
reverse-zeros zero = refl
reverse-zeros (suc n) =
    reverse-cons 0 (replicate n 0) ∙ ap (λ xs. xs ++ 0 ∷ []) (reverse-zeros n) ∙ zeros-snoc n
  where
    zeros-snoc : (m : ℕ) → replicate {A = ℕ} m 0 ++ 0 ∷ [] ≡ replicate (suc m) 0
    zeros-snoc zero = refl
    zeros-snoc (suc m) = ap (◌∷◌ 0) (zeros-snoc m)

abbrev pub sum_mix : List Felt → Felt
sum_mix [] = 11
sum_mix (x ∷ xs) = (3 * x + 5 * sum_mix xs + 7) % 1000003

abbrev pub single : Text → Option Felt
single [] = none
single (f ∷ []) = some f
single (f ∷ g ∷ rest) = none

abbrev pub crates : Crates
crates = record {
  poseidon_hash_many = sum_mix;
  from_bytes_be = be_value;
  from_bytes_be_slice = be_value;
  to_bytes_be = λ f. reverse (le_digits 32 f);
  from_hex = single;
  to_hex = λ f. f ∷ [];
  hex_decode = λ t. some t;
  hex_encode = λ bs. bs;
}

All256-append : (xs ys : List ℕ) → All256 xs → All256 ys → All256 (xs ++ ys)
All256-append [] ys h g = g
All256-append (x ∷ xs) ys h g = (h.0, All256-append xs ys h.1 g)

All256-reverse : (bs : List ℕ) → All256 bs → All256 (reverse bs)
All256-reverse [] h = tt
All256-reverse (b ∷ bs) h =
    rw (reverse-cons b bs) (All256-append (reverse bs) (b ∷ []) (All256-reverse bs h.1) (h.0, tt))

length-reverse : (bs : List ℕ) → length (reverse bs) ≡ length bs
length-reverse [] = refl
length-reverse (b ∷ bs) =
    omega
      (arith, ap length (reverse-cons b bs), length-append (reverse bs) (b ∷ []), length-reverse bs)

le_value-zeros : (n : ℕ) (bs : List ℕ) → le_value (bs ++ replicate n 0) ≡ le_value bs
unfolding le_value
le_value-zeros zero [] = refl
le_value-zeros (suc n) [] = omega (arith, le_value-zeros n [])
le_value-zeros n (b ∷ bs) = omega (arith, le_value-zeros n bs)

-- The 32 bytes of a `u64`.
bytes_of_u64 :
    (n : ℕ) → n < 2 ^ 64 → reverse (le_digits 32 n) ≡ replicate 24 0 ++ reverse (le_digits 8 n)
bytes_of_u64 n h =
    ap reverse (le_digits-add 8 24 n h)
    ∙ reverse-append (le_digits 8 n) (replicate 24 0)
    ∙ ap (λ xs. xs ++ reverse (le_digits 8 n)) (reverse-zeros 24)

bytes_of_31 :
    (bs : List ℕ) → length bs ≡ 31 → All256 bs → reverse (le_digits 32 (be_value (0 ∷ bs))) ≡ 0 ∷ bs
unfolding be_value
bytes_of_31 bs e h =
    let size : 32 ≡ length (reverse (0 ∷ bs)) = omega (arith, length-reverse (0 ∷ bs)) in
    ap (λ n. reverse (le_digits n (le_value (reverse (0 ∷ bs))))) size
    ∙ ap reverse (le_digits-value (reverse (0 ∷ bs)) (All256-reverse (0 ∷ bs) (omega arith, h)))
    ∙ reverse-reverse (0 ∷ bs)

low_u64 : (n : ℕ) → n < 2 ^ 64 → be_value (reverse (le_digits 8 n)) ≡ n
unfolding be_value
low_u64 n h = rw (reverse-reverse (le_digits 8 n)) (value-le_digits 8 n h)

padded_value : (bs : List ℕ) (n : ℕ) → be_value bs ≡ be_value (replicate n 0 ++ bs)
unfolding be_value
padded_value bs n = sym (
    ap le_value (reverse-append (replicate n 0) bs)
    ∙ ap (λ xs. le_value (reverse bs ++ xs)) (reverse-zeros n)
    ∙ le_value-zeros n (reverse bs))

pub crates-IsBytesApi : IsBytesApi crates
crates-IsBytesApi = record {
  to_bytes-from_bytes = bytes_of_31;
  high_bytes = λ n h. ap (take 24) (bytes_of_u64 n h);
  low_bytes = λ n h. ap (λ bs. be_value (drop 24 bs)) (bytes_of_u64 n h) ∙ low_u64 n h;
  from_slice = λ bs h. padded_value bs (32 - length bs);
  from-to_hex = λ f. refl;
}
