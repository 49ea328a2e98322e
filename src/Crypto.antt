-- ===== src/Crypto.antt =====
-- tools/zkmsg/core/src/crypto.rs: the hashes that a send is made of, the form of secrets, and the
-- padding of a v4 message.
pub mod Padding
mod Tests
use Prim.Native.Nat.{bit_and}
use stwo_starknet_verifier.Common.{
  ℕ, ◌+◌, ◌-◌, ◌/◌, ◌%◌, ◌^◌, ◌≤◌, ◌≡◌, Bool, true, false, not, ◌&&◌, ◌||◌, Option, none, some,
  List, [], ◌∷◌, ◌++◌, length, get_or, take, drop, replicate, ltb, leb, ◌==◌, if◌then◌else◌, Result,
  ok, err, ◌>>=◌, ◌>>◌, ensure, context,
}
use stwo_starknet_verifier.Felts.{Felt, Text, Crates, bytes}
use stwo_starknet_verifier.Serde.{any_nonzero, be_value}

pub data Error : Type 0 where
  -- "member secret must be 32 bytes"
  secret_length : Error
  -- "member secret is not below 2^251"
  secret_too_large : Error
  -- "member secret is zero"
  secret_zero : Error
  -- "message is … bytes; at most 4094 fit"
  message_too_long : Error
  -- "padded plaintext is … bytes, not a bucket size"
  not_a_bucket : Error
  -- "padding length overruns the bucket"
  length_overruns : Error
  -- "padding is not all zero"
  padding_not_zero : Error

module _ (k : Crates) where
  -- `hash_pair`
  abbrev pub hash_pair : Felt → Felt → Felt
  hash_pair l r = k.poseidon_hash_many (l ∷ r ∷ [])

  -- `member_commit`
  unfoldable pub member_commit : Felt → Felt
  member_commit m = k.poseidon_hash_many (k.from_bytes_be_slice (bytes "zkmsg-member-v3") ∷ m ∷ [])

  -- `leaf_v3`
  unfoldable pub leaf_v3 : Felt → Felt → Felt → Felt
  leaf_v3 scan_pub kem_digest m_commit =
      k.poseidon_hash_many
        (k.from_bytes_be_slice (bytes "zkmsg-leaf-v3") ∷ scan_pub ∷ kem_digest ∷ m_commit ∷ [])

  -- `nullifier_v4`
  unfoldable pub nullifier_v4 : Felt → Felt → ℕ → ℕ → Felt
  nullifier_v4 store m epoch slot =
      k.poseidon_hash_many
        (k.from_bytes_be_slice (bytes "zkmsg-nullifier-v4") ∷ store ∷ m ∷ epoch ∷ slot ∷ [])

  -- `ticket_leaf`
  unfoldable pub ticket_leaf : Felt → Felt
  ticket_leaf t = k.poseidon_hash_many (k.from_bytes_be_slice (bytes "zkmsg-ticket-v4") ∷ t ∷ [])

  -- `ticket_nullifier`
  unfoldable pub ticket_nullifier : Felt → Felt → Felt
  ticket_nullifier store t =
      k.poseidon_hash_many (k.from_bytes_be_slice (bytes "zkmsg-ticket-null-v4") ∷ store ∷ t ∷ [])

  -- `member_secret_felt`: 32 bytes, the top five bits clear, not all zero.
  unfoldable pub member_secret_felt : List ℕ → Result Error Felt
  member_secret_felt m = do
    ensure (length m == 32) secret_length
    ensure (bit_and (get_or m 0 0) 0xf8 == 0) secret_too_large
    ensure (any_nonzero m) secret_zero
    ok (k.from_bytes_be m)

-- `PAD_BUCKETS`
abbrev pub pad_buckets : List ℕ
pad_buckets = 256 ∷ 1024 ∷ 4096 ∷ []

-- `.find(|b| len + 2 <= *b)`
unfoldable pub find_bucket : ℕ → List ℕ → Option ℕ
find_bucket len [] = none
find_bucket len (b ∷ bs) = if leb (len + 2) b then some b else find_bucket len bs

-- `pad_v4`: the length as two bytes, the plaintext, and zeros up to the bucket's size.
unfoldable pub pad_v4 : List ℕ → Result Error (List ℕ)
pad_v4 plaintext = do
  bucket ← context (find_bucket (length plaintext) pad_buckets) message_too_long
  let len = length plaintext % 2 ^ 16
  ok ((len / 256) ∷ (len % 256) ∷ (plaintext ++ replicate (bucket - (length plaintext + 2)) 0))

unfoldable pub is_bucket : ℕ → List ℕ → Bool
is_bucket n [] = false
is_bucket n (b ∷ bs) = (n == b) || is_bucket n bs

-- `unpad_v4`
unfoldable pub unpad_v4 : List ℕ → Result Error (List ℕ)
unpad_v4 padded = do
  ensure (is_bucket (length padded) pad_buckets) not_a_bucket
  let len = be_value (take 2 padded)
  ensure (not (ltb (length padded - 2) len)) length_overruns
  ensure (not (any_nonzero (drop (2 + len) padded))) padding_not_zero
  ok (take len (drop 2 padded))
