-- ===== src/Felts.antt =====
-- Field elements and text, and the functions of third-party crates that the core calls.
-- A felt is the number that it stands for, below the field's prime; a text is its UTF-8 bytes.
use Prim.Native.Char.{code}
use Prim.Native.String.{String}
use stwo_starknet_verifier.Common.{
  ℕ, Bool, true, false, Option, none, some, List, [], ◌∷◌, ◌==◌, if◌then◌else◌, ◌&&◌, ◌≡◌, refl,
  arith,
}

abbrev pub Felt : Type 0
Felt = ℕ

abbrev pub Text : Type 0
Text = List ℕ

-- The bytes of a literal of the source.
abbrev pub bytes : String → Text
bytes String.[] = []
bytes (String.◌∷◌ c s) = code c ∷ bytes s

-- What the core takes from `starknet_crypto`, `starknet_types_core` and `hex`.
pub record Crates : Type 0 where
  -- `starknet_crypto::poseidon_hash_many`
  pub poseidon_hash_many : List Felt → Felt
  -- `Felt::from_bytes_be`, on 32 bytes
  pub from_bytes_be : List ℕ → Felt
  -- `Felt::from_bytes_be_slice`
  pub from_bytes_be_slice : List ℕ → Felt
  -- `Felt::to_bytes_be`
  pub to_bytes_be : Felt → List ℕ
  -- `Felt::from_hex`
  pub from_hex : Text → Option Felt
  -- `format!("{f:#x}")`
  pub to_hex : Felt → Text
  -- `hex::decode`
  pub hex_decode : Text → Option (List ℕ)
  -- `hex::encode`
  pub hex_encode : List ℕ → Text

-- Equality of texts.
abbrev pub text_eq : Text → Text → Bool
text_eq [] [] = true
text_eq [] (y ∷ ys) = false
text_eq (x ∷ xs) [] = false
text_eq (x ∷ xs) (y ∷ ys) = (x == y) && text_eq xs ys

-- It is reflexive, and tells different texts apart.
pub text_eq_refl : (a : Text) → text_eq a a ≡ true
text_eq_refl [] = refl
text_eq_refl (x ∷ xs) = let rest = text_eq_refl xs in ground arith

pub text_eq→eq : (a b : Text) → text_eq a b ≡ true → a ≡ b
text_eq→eq [] [] h = refl
text_eq→eq [] (y ∷ ys) h = cc
text_eq→eq (x ∷ xs) [] h = cc
text_eq→eq (x ∷ xs) (y ∷ ys) h =
    let rest = text_eq→eq xs ys in
    let tail : xs ≡ ys = ground arith in let heads : x ≡ y = ground arith in cc

-- `s.trim_start_matches("0x")`: every leading "0x" goes.
unfoldable pub trim_0x : Text → Text
trim_0x [] = []
trim_0x (a ∷ []) = a ∷ []
trim_0x (a ∷ b ∷ rest) =
    let trimmed = trim_0x rest in if (a == b'0') && (b == b'x') then trimmed else a ∷ b ∷ rest

-- `same_address` of config.rs: equality as felts, and false for what is no felt.
module _ (k : Crates) where
  unfoldable pub same_address : Text → Text → Bool
  same_address a b = elim (k.from_hex a) [
    | none ↦ false
    | some x ↦ elim (k.from_hex b) [ none ↦ false | some y ↦ x == y ]
  ]
