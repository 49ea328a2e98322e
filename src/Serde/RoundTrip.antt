-- ===== src/Serde/RoundTrip.antt =====
-- tools/zkmsg/core/src/chain.rs and crypto.rs: a byte array that is written as felts reads back.
use mathlib.Core.List.{append_assoc}
use mathlib.Core.Path.{ap₂}
use native.Mathlib.Nat.{zero-add, suc-add}
use stwo_starknet_verifier.Common.{
  ℕ, zero, suc, ◌+◌, ◌-◌, ◌*◌, ◌/◌, ◌^◌, ◌≤◌, ◌<◌, ◌≡◌, refl, sym, ap, ◌∙◌, true, false, List, [],
  ◌∷◌, ◌++◌, map, length, get_or, take, drop, replicate, ltb, lt→ltb, ok, err, arith, length-append,
  length-take, length-drop, length-replicate, take-append-drop, drop-append_eq,
}
use stwo_starknet_verifier.Felts.{Felt, Crates}
use stwo_starknet_verifier.Serde.{
  IsBytesApi, panics, All256, any_nonzero, felt_to_u64, felt_from_be_bytes, full_words,
  bytearray_felts, bytearray_calldata, word_bytes, decode_pending, bytearray_decode,
}

pub any_nonzero-zeros : (n : ℕ) → any_nonzero (replicate n 0) ≡ false
unfolding any_nonzero
any_nonzero-zeros zero = refl
any_nonzero-zeros (suc n) = any_nonzero-zeros n

All256-take : (n : ℕ) (bs : List ℕ) → All256 bs → All256 (take n bs)
All256-take zero bs h = tt
All256-take (suc n) [] h = tt
All256-take (suc n) (b ∷ bs) h = (h.0, All256-take n bs h.1)

All256-drop : (n : ℕ) (bs : List ℕ) → All256 bs → All256 (drop n bs)
All256-drop zero bs h = h
All256-drop (suc n) [] h = tt
All256-drop (suc n) (b ∷ bs) h = All256-drop n bs h.1

All256-append : (xs ys : List ℕ) → All256 xs → All256 ys → All256 (xs ++ ys)
All256-append [] ys h g = g
All256-append (x ∷ xs) ys h g = (h.0, All256-append xs ys h.1 g)

All256-zeros : (n : ℕ) → All256 (replicate n 0)
All256-zeros zero = tt
All256-zeros (suc n) = (omega arith, All256-zeros n)

take-add {ℓ} :
    {A : Type ℓ} (m n : ℕ) (xs : List A) → take (m + n) xs ≡ take m xs ++ take n (drop m xs)
take-add zero n xs = rw zero-add
take-add (suc m) zero [] = rw suc-add
take-add (suc m) (suc n) [] = rw suc-add
take-add (suc m) n (x ∷ xs) = rw suc-add (ap (◌∷◌ x) (take-add m n xs))

get_or-append_right {ℓ} :
    {A : Type ℓ} (xs ys : List A) (n : ℕ) (d : A)
    → get_or (xs ++ ys) (length xs + n) d ≡ get_or ys n d
get_or-append_right [] ys n d = rw zero-add
get_or-append_right (x ∷ xs) ys n d = rw suc-add (get_or-append_right xs ys n d)

pub length-full_words :
    (read : List ℕ → Felt) (n : ℕ) (bs : List ℕ) → length (full_words read n bs) ≡ n
unfolding full_words
length-full_words read zero bs = refl
length-full_words read (suc n) bs = ap suc (length-full_words read n (drop 31 bs))

module _ (k : Crates) (api : IsBytesApi k) where
  -- A number below 2 ^ 64 passes through a felt.
  pub felt_to_u64_small : (n : ℕ) → n < 2 ^ 64 → felt_to_u64 k n ≡ ok n
  unfolding felt_to_u64
  felt_to_u64_small n h = rw (api.high_bytes n h, any_nonzero-zeros 24, api.low_bytes n h)

  -- At most 31 bytes pass through a felt, behind zeros.
  slice_bytes :
      (bs : List ℕ)
      → length bs ≤ 31
      → All256 bs
      → k.to_bytes_be (k.from_bytes_be_slice bs) ≡ replicate (32 - length bs) 0 ++ bs
  slice_bytes bs h a =
      let one_more : 32 - length bs ≡ suc (31 - length bs) = omega arith in
      let size : length (replicate (31 - length bs) 0 ++ bs) ≡ 31 = omega (
        arith,
        length-append (replicate (31 - length bs) 0) bs,
        length-replicate {A = ℕ} (31 - length bs) 0,
      ) in
      rw (api.from_slice bs (omega arith), one_more)
        (api.to_bytes-from_bytes (replicate (31 - length bs) 0 ++ bs) size
          (All256-append (replicate (31 - length bs) 0) bs (All256-zeros (31 - length bs)) a))

  word_bytes-full_words :
      (n : ℕ) (bs : List ℕ) (rest : List Felt)
      → n * 31 ≤ length bs
      → All256 bs
      → word_bytes k n (full_words k.from_bytes_be_slice n bs ++ rest) ≡ take (n * 31) bs
  unfolding word_bytes full_words
  word_bytes-full_words zero bs rest h a = refl
  word_bytes-full_words (suc n) bs rest h a =
      let size : length (take 31 bs) ≡ 31 = omega (arith, length-take 31 bs) in
      let word = slice_bytes (take 31 bs) (omega arith) (All256-take 31 bs a) in
      let rest_words =
        word_bytes-full_words n (drop 31 bs) rest (omega (arith, length-drop 31 bs))
          (All256-drop 31 bs a) in
      let all : suc n * 31 ≡ 31 + n * 31 = omega arith in
      rw (all, take-add 31 (n * 31) bs) (ap₂ ◌++◌ (ap (drop 1) word ∙ rw size) rest_words)

  pending_bytes :
      (bs : List ℕ)
      → length bs ≤ 31
      → All256 bs
      → drop (32 - length bs) (k.to_bytes_be (k.from_bytes_be_slice bs)) ≡ bs
  pending_bytes bs h a =
      ap (drop (32 - length bs)) (slice_bytes bs h a)
      ∙ drop-append_eq (32 - length bs) (replicate (32 - length bs) 0) bs
          (length-replicate (32 - length bs) 0)

  decode_pending_lem :
      (n : ℕ) (bs : List ℕ) (words rest : List Felt)
      → length bs ≤ 31
      → All256 bs
      → length words ≡ n
      → decode_pending k n (n ∷ words ++ (k.from_bytes_be_slice bs ∷ length bs ∷ rest))
        ≡ ok (
          word_bytes k n (words ++ (k.from_bytes_be_slice bs ∷ length bs ∷ rest)) ++ bs,
          1 + n + 2,
        )
  unfolding decode_pending
  decode_pending_lem n bs words rest h a e =
      let last : 1 + n + 1 ≡ suc (length words + 1) = omega arith in
      let before : 1 + n ≡ suc (length words + 0) = omega arith in
      let short : ltb 32 (length bs) ≡ false = ground arith in
      rw (
        last,
        before,
        get_or-append_right words (k.from_bytes_be_slice bs ∷ length bs ∷ rest) 1 0,
        get_or-append_right words (k.from_bytes_be_slice bs ∷ length bs ∷ rest) 0 0,
        felt_to_u64_small (length bs) (omega arith),
        short,
        pending_bytes bs h a,
      )

  -- Whatever follows it, a byte array of fewer than 2 ^ 64 bytes decodes to itself, and the felts
  -- of its layout are used up.
  pub bytearray_decode-felts :
      (bs : List ℕ) (rest : List Felt)
      → length bs < 2 ^ 64
      → All256 bs
      → bytearray_decode k (bytearray_felts k bs ++ rest) ≡ ok (bs, length bs / 31 + 3)
  unfolding bytearray_decode bytearray_felts
  bytearray_decode-felts bs rest h a =
      let n = length bs / 31 in
      let words = full_words k.from_bytes_be_slice n bs in
      let pending = drop (n * 31) bs in
      let tail = k.from_bytes_be_slice pending ∷ length pending ∷ rest in
      let size : length words ≡ n = length-full_words k.from_bytes_be_slice n bs in
      let fits : ltb (n + 3) (2 ^ 64) ≡ true = lt→ltb _ _ (omega arith) in
      let long : ltb (suc (length (words ++ tail))) (n + 3) ≡ false =
        ground (arith, length-append words tail, size) in
      let count : 1 + n + 2 ≡ n + 3 = omega arith in
      let left : length pending ≤ 31 = omega (arith, length-drop (n * 31) bs) in
      let together =
        decode_pending_lem n pending words rest left (All256-drop (n * 31) bs a) size in
      let read = word_bytes-full_words n bs tail (omega arith) a in
      rw
        (
          felt_to_u64_small n (omega arith),
          append_assoc words (k.from_bytes_be_slice pending ∷ length pending ∷ []) rest,
          fits,
          long,
        )
        (together
          ∙ ap₂ (λ xs c. ok (xs, c)) (ap (λ xs. xs ++ pending) read ∙ take-append-drop (n * 31) bs)
              count)

  full_words-same :
      (n : ℕ) (bs : List ℕ)
      → full_words k.from_bytes_be_slice n bs ≡ full_words (felt_from_be_bytes k) n bs
  unfolding full_words felt_from_be_bytes
  full_words-same zero bs = refl
  full_words-same (suc n) bs =
      ap₂ ◌∷◌ (api.from_slice (take 31 bs) (omega (arith, length-take 31 bs)))
        (full_words-same n (drop 31 bs))

  -- The hex texts of `bytearray_calldata` are those of the felts of `bytearray_felts`: the two
  -- encoders of the program agree on every byte array.
  pub bytearray_calldata-felts :
      (bs : List ℕ) → bytearray_calldata k bs ≡ map k.to_hex (bytearray_felts k bs)
  unfolding bytearray_calldata bytearray_felts felt_from_be_bytes
  bytearray_calldata-felts bs =
      let n = length bs / 31 in
      let pending = drop (n * 31) bs in
      let left : length pending ≤ 32 = omega (arith, length-drop (n * 31) bs) in
      ap₂ (λ words p. map k.to_hex ((n ∷ words) ++ (p ∷ length pending ∷ [])))
        (sym (full_words-same n bs)) (sym (api.from_slice pending left))

  -- A last felt between 33 and 2 ^ 64 - 1, where the length of the pending word should be, makes
  -- `bytearray_decode` panic, whatever the words are: nothing checks it before `32 - pending_len`.
  pub bytearray_decode-panics :
      (words rest : List Felt) (pending pending_len : ℕ)
      → length words + 3 < 2 ^ 64
      → 32 < pending_len
      → pending_len < 2 ^ 64
      → bytearray_decode k (length words ∷ words ++ (pending ∷ pending_len ∷ rest)) ≡ err panics
  unfolding bytearray_decode decode_pending
  bytearray_decode-panics words rest pending pending_len fit big small =
      let tail = pending ∷ pending_len ∷ rest in
      let last : 1 + length words + 1 ≡ suc (length words + 1) = omega arith in
      let fits : ltb (length words + 3) (2 ^ 64) ≡ true = lt→ltb _ _ fit in
      let long : ltb (suc (length (words ++ tail))) (length words + 3) ≡ false =
        ground (arith, length-append words tail) in
      let over : ltb 32 pending_len ≡ true = lt→ltb _ _ big in
      rw (
        felt_to_u64_small (length words) (omega arith),
        fits,
        long,
        last,
        get_or-append_right words tail 1 0,
        felt_to_u64_small pending_len small,
        over,
      )
