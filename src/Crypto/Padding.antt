-- ===== src/Crypto/Padding.antt =====
-- tools/zkmsg/core/src/crypto.rs: `unpad_v4` undoes `pad_v4`.
use stwo_starknet_verifier.Common.{
  ℕ, suc, ◌+◌, ◌-◌, ◌/◌, ◌%◌, ◌^◌, ◌≤◌, ◌<◌, ◌≡◌, ◌⊎◌, inl, inr, refl, true, false, none, some,
  List, ◌∷◌, ◌++◌, length, take, replicate, ltb, leb, ok, err, arith, length-append,
  length-replicate, Bool-cases, take-append_eq, drop-append_eq,
}
use stwo_starknet_verifier.Serde.{be_value, le_value}
use stwo_starknet_verifier.Serde.RoundTrip.{any_nonzero-zeros}
use stwo_starknet_verifier.Crypto.{
  message_too_long, pad_buckets, find_bucket, pad_v4, is_bucket, unpad_v4,
}

-- The bucket is the least of the three that has room, and there is one up to 4094 bytes.
abbrev pub Fits : ℕ → ℕ → Type 0
Fits len bucket =
    ((bucket ≡ 256) × (len ≤ 254))
    ⊎ ((bucket ≡ 1024) × (254 < len) × (len ≤ 1022))
    ⊎ ((bucket ≡ 4096) × (1022 < len) × (len ≤ 4094))

find_bucket-Fits :
    (len : ℕ)
    → len ≤ 4094
    → (bucket : ℕ) × (find_bucket len pad_buckets ≡ some bucket) × Fits len bucket
unfolding find_bucket
find_bucket-Fits len h = elim (Bool-cases (leb (len + 2) 256)) [
  | inl a ↦ (256, rw a, inl (refl, ground arith))
  | inr a ↦ elim (Bool-cases (leb (len + 2) 1024)) [
    | inl b ↦ (1024, rw (a, b), inr (inl (refl, ground arith, ground arith)))
    | inr b ↦ (4096, ground arith, inr (inr (refl, ground arith, h)))
  ]
]

-- The bytes of a padded message.
abbrev padded_bytes : List ℕ → ℕ → List ℕ
padded_bytes plaintext bucket =
    (length plaintext % 2 ^ 16 / 256)
    ∷ (length plaintext % 2 ^ 16 % 256)
    ∷ (plaintext ++ replicate (bucket - (length plaintext + 2)) 0)

length-padded_bytes :
    (plaintext : List ℕ) (bucket : ℕ)
    → Fits (length plaintext) bucket
    → length (padded_bytes plaintext bucket) ≡ bucket
length-padded_bytes plaintext bucket fits = ground (
  arith,
  length-append plaintext (replicate (bucket - (length plaintext + 2)) 0),
  length-replicate {A = ℕ} (bucket - (length plaintext + 2)) 0,
)

unpad_v4-padded :
    (plaintext : List ℕ) (bucket : ℕ)
    → Fits (length plaintext) bucket
    → unpad_v4 (padded_bytes plaintext bucket) ≡ ok plaintext
unfolding unpad_v4 be_value le_value is_bucket
unpad_v4-padded plaintext bucket fits =
    let size = length-padded_bytes plaintext bucket fits in
    let len : be_value (take 2 (padded_bytes plaintext bucket)) ≡ length plaintext = ground arith in
    let known : is_bucket bucket pad_buckets ≡ true = ground arith in
    let room : ltb (bucket - 2) (length plaintext) ≡ false = ground arith in
    let zeros : List ℕ = replicate (bucket - (length plaintext + 2)) 0 in
    let over : 2 + length plaintext ≡ suc (suc (length plaintext)) = omega arith in
    rw (
      size,
      known,
      len,
      room,
      over,
      drop-append_eq (length plaintext) plaintext zeros refl,
      any_nonzero-zeros (bucket - (length plaintext + 2)),
      take-append_eq (length plaintext) plaintext zeros refl,
    )

find_bucket-none : (len : ℕ) → 4094 < len → find_bucket len pad_buckets ≡ none
unfolding find_bucket
find_bucket-none len h = ground arith

-- A message of at most 4094 bytes is padded to 256, 1024 or 4096 bytes, the least of these that is
-- two more than its length or larger, and `unpad_v4` gives the message back.
pub pad_v4_short :
    (plaintext : List ℕ)
    → length plaintext ≤ 4094
    → (padded : List ℕ) × (pad_v4 plaintext ≡ ok padded)
      × Fits (length plaintext) (length padded)
      × (unpad_v4 padded ≡ ok plaintext)
unfolding pad_v4
pad_v4_short plaintext h =
    let (bucket, found, fits) = find_bucket-Fits (length plaintext) h in
    (
      padded_bytes plaintext bucket,
      rw found,
      rw (length-padded_bytes plaintext bucket fits) fits,
      unpad_v4-padded plaintext bucket fits,
    )

-- A longer message is refused.
pub pad_v4_long :
    (plaintext : List ℕ) → 4094 < length plaintext → pad_v4 plaintext ≡ err message_too_long
unfolding pad_v4
pad_v4_long plaintext h = rw (find_bucket-none (length plaintext) h)
