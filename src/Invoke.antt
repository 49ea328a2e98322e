-- ===== src/Invoke.antt =====
-- tools/zkmsg/core/src/invoke_v3.rs: the calldata of a multicall and the hash of an INVOKE v3.
-- `ResourceBounds` and `Bounds` are those of `TxPolicy`.
pub mod Calls
mod Tests
use stwo_starknet_verifier.Common.{
  ℕ, zero, suc, ◌+◌, ◌-◌, ◌/◌, ◌%◌, List, [], ◌∷◌, ◌++◌, length, replicate,
}
use stwo_starknet_verifier.Felts.{Felt, Text, Crates, bytes}
use stwo_starknet_verifier.TxPolicy.{ResourceBounds, Bounds}

pub record Call : Type 0 where
  pub to : Felt
  pub selector : Felt
  pub calldata : List Felt

-- The loop of `execute_calldata`.
unfoldable pub call_felts : List Call → List Felt
call_felts [] = []
call_felts (c ∷ cs) = c.to ∷ c.selector ∷ length c.calldata ∷ (c.calldata ++ call_felts cs)

-- `execute_calldata`
unfoldable pub execute_calldata : List Call → List Felt
execute_calldata calls = length calls ∷ call_felts calls

-- `to_be_bytes` of a number of so many bytes
unfoldable pub be_bytes : ℕ → ℕ → List ℕ
be_bytes zero n = []
be_bytes (suc width) n = be_bytes width (n / 256) ++ n % 256 ∷ []

-- `InvokeV3`
pub record InvokeV3 : Type 0 where
  pub sender : Felt
  pub calldata : List Felt
  pub chain_id : Felt
  pub nonce : Felt
  pub tip : ℕ
  pub bounds : Bounds
  pub proof_facts : List Felt

module _ (k : Crates) where
  -- `short_string`, of a text of at most 31 ASCII bytes
  unfoldable pub short_string : Text → Felt
  short_string text = k.from_bytes_be (replicate (32 - length text) 0 ++ text)

  -- `ResourceBounds::packed`
  unfoldable pub packed : Text → ResourceBounds → Felt
  packed name b = k.from_bytes_be (
      replicate (8 - length name) 0
      ++ (name ++ (be_bytes 8 b.max_amount ++ be_bytes 16 b.max_price_per_unit)))

  -- The last field of the hash, where there are facts.
  unfoldable pub facts_field : List Felt → List Felt
  facts_field [] = []
  facts_field (f ∷ fs) = k.poseidon_hash_many (f ∷ fs) ∷ []

  -- `InvokeV3::hash`
  unfoldable pub hash : InvokeV3 → Felt
  hash tx =
      let fee_hash = k.poseidon_hash_many (
        tx.tip
        ∷ packed (bytes "L1_GAS") tx.bounds.l1_gas
        ∷ packed (bytes "L2_GAS") tx.bounds.l2_gas
        ∷ packed (bytes "L1_DATA") tx.bounds.l1_data_gas
        ∷ []) in
      k.poseidon_hash_many (
        (short_string (bytes "invoke")
          ∷ 3
          ∷ tx.sender
          ∷ fee_hash
          ∷ k.poseidon_hash_many []
          ∷ tx.chain_id
          ∷ tx.nonce
          ∷ 0
          ∷ k.poseidon_hash_many []
          ∷ k.poseidon_hash_many tx.calldata
          ∷ [])
        ++ facts_field tx.proof_facts)
