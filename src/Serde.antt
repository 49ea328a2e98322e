-- ===== src/Serde.antt =====
-- tools/zkmsg/core/src/chain.rs and crypto.rs: how felts, numbers and byte arrays are written as
-- calldata and read back.
pub mod RoundTrip
pub mod Digits
mod Tests
use mathlib.Core.List.{reverse}
use stwo_starknet_verifier.Common.{
  ℕ, zero, suc, ◌+◌, ◌-◌, ◌*◌, ◌/◌, ◌%◌, ◌^◌, ◌≤◌, ◌<◌, ◌≡◌, Bool, true, false, not, ◌||◌, Option,
  none, some, List, [], ◌∷◌, ◌++◌, map, length, get_or, take, drop, replicate, ltb, ◌==◌,
  if◌then◌else◌, Result, ok, err, ◌>>=◌, ◌>>◌, ensure,
}
use stwo_starknet_verifier.Felts.{Felt, Text, Crates}

pub data Error : Type 0 where
  -- "empty bytearray data"
  empty_data : Error
  -- "bytearray data too short"
  too_short : Error
  -- "felt does not fit in u64"
  not_u64 : Error
  -- the program panics: an index or a subtraction out of range
  panics : Error

-- The number of these bytes, the least significant first.
unfoldable pub le_value : List ℕ → ℕ
le_value [] = 0
le_value (b ∷ bs) = b + 256 * le_value bs

-- `u64::from_be_bytes`
unfoldable pub be_value : List ℕ → ℕ
be_value bs = le_value (reverse bs)

-- `.iter().any(|b| *b != 0)`
unfoldable pub any_nonzero : List ℕ → Bool
any_nonzero [] = false
any_nonzero (b ∷ bs) = not (b == 0) || any_nonzero bs

-- Every entry is a byte.
abbrev pub All256 : List ℕ → Type 0
All256 [] = Unit
All256 (b ∷ bs) = (b < 256) × All256 bs

-- The full 31-byte words, `bytes[..full_words * 31].chunks(31)`.
unfoldable pub full_words : (List ℕ → Felt) → ℕ → List ℕ → List Felt
full_words read zero bs = []
full_words read (suc n) bs = read (take 31 bs) ∷ full_words read n (drop 31 bs)

module _ (k : Crates) where
  -- `felt_to_u64`
  unfoldable pub felt_to_u64 : Felt → Result Error ℕ
  felt_to_u64 f = do
    let digits = k.to_bytes_be f
    ensure (not (any_nonzero (take 24 digits))) not_u64
    ok (be_value (drop 24 digits))

  -- `felt_from_be_bytes`: the bytes at the end of a buffer of 32.
  unfoldable pub felt_from_be_bytes : List ℕ → Felt
  felt_from_be_bytes bs = k.from_bytes_be (replicate (32 - length bs) 0 ++ bs)

  -- `bytearray_felts` of crypto.rs
  unfoldable pub bytearray_felts : List ℕ → List Felt
  bytearray_felts bs =
      let full = length bs / 31 in
      let pending = drop (full * 31) bs in
      full ∷ full_words k.from_bytes_be_slice full bs
      ++ (k.from_bytes_be_slice pending ∷ length pending ∷ [])

  -- `bytearray_calldata` of chain.rs: the same layout as hex texts, with its own reading of a word.
  unfoldable pub bytearray_calldata : List ℕ → List Text
  bytearray_calldata bs =
      let full = length bs / 31 in
      let pending = drop (full * 31) bs in
      map k.to_hex (
        full ∷ full_words felt_from_be_bytes full bs
        ++ (felt_from_be_bytes pending ∷ length pending ∷ []))

  -- The bytes of the words: the low 31 of each.
  unfoldable pub word_bytes : ℕ → List Felt → List ℕ
  word_bytes zero data_words = []
  word_bytes (suc n) [] = []
  word_bytes (suc n) (w ∷ ws) = drop 1 (k.to_bytes_be w) ++ word_bytes n ws

  -- The end of `bytearray_decode`, after the length check.
  unfoldable pub decode_pending : ℕ → List Felt → Result Error (List ℕ × ℕ)
  decode_pending n_words input = do
    pending_len ← felt_to_u64 (get_or input (1 + n_words + 1) 0)
    ensure (not (ltb 32 pending_len)) panics
    ok (
      word_bytes n_words (drop 1 input)
          ++ drop (32 - pending_len) (k.to_bytes_be (get_or input (1 + n_words) 0)),
      1 + n_words + 2,
    )

  -- `bytearray_decode`. Where `n_words + 3` leaves the 64-bit range, the sum or the slice after it
  -- panics; so does `32 - pending_len` where that is negative.
  unfoldable pub bytearray_decode : List Felt → Result Error (List ℕ × ℕ)
  bytearray_decode [] = err empty_data
  bytearray_decode (first ∷ rest) = do
    n_words ← felt_to_u64 first
    ensure (ltb (n_words + 3) (2 ^ 64)) panics
    ensure (not (ltb (length (first ∷ rest)) (n_words + 3))) too_short
    decode_pending n_words (first ∷ rest)

-- What the code relies on of felts as bytes.
pub record IsBytesApi (k : Crates) : Type 0 where
  -- 31 bytes behind a zero are below the prime, and come back.
  pub to_bytes-from_bytes :
      (bs : List ℕ) → length bs ≡ 31 → All256 bs → k.to_bytes_be (k.from_bytes_be (0 ∷ bs)) ≡ 0 ∷ bs
  -- A `u64` fills the last eight bytes.
  pub high_bytes : (n : ℕ) → n < 2 ^ 64 → take 24 (k.to_bytes_be n) ≡ replicate 24 0
  pub low_bytes : (n : ℕ) → n < 2 ^ 64 → be_value (drop 24 (k.to_bytes_be n)) ≡ n
  -- A slice is read as the bytes at the end of 32.
  pub from_slice :
      (bs : List ℕ)
      → length bs ≤ 32
      → k.from_bytes_be_slice bs ≡ k.from_bytes_be (replicate (32 - length bs) 0 ++ bs)
  pub from-to_hex : (f : Felt) → k.from_hex (k.to_hex f) ≡ some f
