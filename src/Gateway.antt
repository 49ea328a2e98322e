-- ===== src/Gateway.antt =====
-- tools/zkmsg/core/src/sequencer.rs: what a rejection of the gateway says, a transaction's status,
-- and the publishing transaction. `Wire` sends it and polls for it.
pub mod Wire
pub mod Polling
use stwo_starknet_verifier.Common.{
  ℕ, ◌+◌, ◌-◌, ◌*◌, ◌^◌, Bool, true, false, ◌&&◌, ◌||◌, Option, none, some, List, [], ◌∷◌, ltb, leb,
  ◌==◌, if◌then◌else◌,
}
use stwo_starknet_verifier.Common.Texts.{
  after_prefix, starts_with, behind, contains, is_digit, is_hexdigit, take_while,
}
use stwo_starknet_verifier.Felts.{Felt, Text, Crates, bytes, text_eq}
use stwo_starknet_verifier.TxPolicy.{Bounds}
use stwo_starknet_verifier.Invoke.{Call, InvokeV3, execute_calldata, hash}

pub data GatewayError : Type 0 where
  rejected : (code message : Text) → GatewayError
  hash_mismatch : (signed echoed : Text) → GatewayError
  reverted : (tx_hash reason : Text) → GatewayError

-- `trim_start`, of the white space of ASCII
abbrev pub is_space : ℕ → Bool
is_space c = (leb 9 c && leb c 13) || (c == 32)

unfoldable pub trim_start : Text → Text
trim_start [] = []
trim_start (c ∷ cs) = let rest = trim_start cs in if is_space c then rest else c ∷ cs

-- The value of a digit that `is_hexdigit` accepts.
unfoldable pub digit_value : ℕ → ℕ
digit_value c = if leb b'a' c then c - 87 else (if leb b'A' c then c - 55 else c - 48)

unfoldable pub digits_value : ℕ → ℕ → Text → ℕ
digits_value base acc [] = acc
digits_value base acc (c ∷ cs) = digits_value base (acc * base + digit_value c) cs

-- `u64::from_str_radix(…).ok()` and `parse().ok()`, of digits
unfoldable pub parse_u64 : ℕ → Text → Option ℕ
parse_u64 base [] = none
parse_u64 base (c ∷ cs) =
    let value = digits_value base 0 (c ∷ cs) in if ltb value (2 ^ 64) then some value else none

-- The number behind "Expected: ", in hex or decimal.
unfoldable pub read_expected : Text → Option ℕ
read_expected rest = elim (after_prefix (bytes "0x") rest) [
  | some digits ↦ parse_u64 16 (take_while is_hexdigit digits)
  | none ↦ parse_u64 10 (take_while is_digit rest)
]

unfoldable pub expected_in : Text → Option ℕ
expected_in message = elim (behind (bytes "Expected: ") message) [
  | none ↦ none
  | some rest ↦ read_expected (trim_start rest)
]

-- `GatewayError::expected_nonce`
unfoldable pub expected_nonce : GatewayError → Option ℕ
expected_nonce (rejected code message) =
    if contains (bytes "INVALID_TRANSACTION_NONCE") code then expected_in message else none
expected_nonce (hash_mismatch _ _) = none
expected_nonce (reverted _ _) = none

-- `GatewayError::too_recent`
unfoldable pub too_recent : GatewayError → Bool
too_recent (rejected code message) = contains (bytes "too recent") message
too_recent (hash_mismatch _ _) = false
too_recent (reverted _ _) = false

pub record TxStatus : Type 0 where
  pub finality : Text
  pub execution : Text
  pub revert_reason : Option Text

-- `TxStatus::is_accepted`
unfoldable pub is_accepted : TxStatus → Bool
is_accepted s = starts_with (bytes "ACCEPTED") s.finality

-- `TxStatus::is_reverted`
unfoldable pub is_reverted : TxStatus → Bool
is_reverted s = text_eq s.execution (bytes "REVERTED")

-- `TxStatus::is_dropped`
unfoldable pub is_dropped : TxStatus → Bool
is_dropped s = text_eq s.finality (bytes "NOT_RECEIVED") || text_eq s.finality (bytes "REJECTED")

pub record ProofAttachment : Type 0 where
  pub proof : Text
  pub proof_facts : List Felt

-- `SignedInvoke`: the hash, and what both JSON bodies spell. The signature is empty.
pub record SignedInvoke : Type 0 where
  pub tx_hash : Felt
  pub invoke : InvokeV3
  pub proof : Option Text

pub record Gateway : Type 0 where
  pub chain_id : Felt
  pub rpc_url : Option Text

abbrev pub facts_of : Option ProofAttachment → List Felt
facts_of none = []
facts_of (some a) = a.proof_facts

abbrev pub proof_of : Option ProofAttachment → Option Text
proof_of none = none
proof_of (some a) = some a.proof

module _ (k : Crates) where
  -- `GatewayError::refused_with`
  unfoldable pub refused_with : GatewayError → Text → Bool
  refused_with (rejected code message) reason =
      contains reason message || contains (k.hex_encode reason) message
  refused_with (hash_mismatch _ _) reason = false
  refused_with (reverted _ _) reason = false

  -- `Gateway::unsigned_invoke` and `invoke`
  unfoldable pub unsigned_invoke :
      Gateway → Felt → List Call → Felt → Bounds → ℕ → Option ProofAttachment → SignedInvoke
  unsigned_invoke g sender calls nonce bounds tip attachment =
      let tx : InvokeV3 = record {
        sender = sender;
        calldata = execute_calldata calls;
        chain_id = g.chain_id;
        nonce = nonce;
        tip = tip;
        bounds = bounds;
        proof_facts = facts_of attachment;
      } in
      record { tx_hash = hash k tx; invoke = tx; proof = proof_of attachment }
