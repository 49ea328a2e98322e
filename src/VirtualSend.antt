-- ===== src/VirtualSend.antt =====
-- tools/zkmsg/core/src/virtual_send.rs: the encodings that the contracts must agree with, and the
-- decisions of the executor. The children model the executor, and prove the properties.
pub mod World
pub mod Finish
pub mod Publish
pub mod Log
pub mod Quiet
pub mod Reads
pub mod Schedule
pub mod Submitted
pub mod Invariant
pub mod Gone
pub mod Attempts
pub mod Answers
pub mod Settled
pub mod Ready
pub mod Safety
pub mod Redact
pub mod Encodings
pub mod Witness
pub mod Prepare
pub mod Paths
pub mod Plans
pub mod Send
pub mod Resume
mod Tests
mod PrepareTests
mod ResumeTests
use stwo_starknet_verifier.Common.{
  ℕ, zero, suc, ◌+◌, ◌*◌, ◌%◌, ◌^◌, Bool, true, false, ◌&&◌, ◌||◌, not, Option, none, some, List,
  [], ◌∷◌, ◌++◌, ◌==◌, ltb, leb, if◌then◌else◌, length, get_or, take, drop, Result, ok, err, ◌>>=◌,
  ◌>>◌, ensure, context,
}
use stwo_starknet_verifier.Common.Texts.{
  starts_with, contains, is_hexdigit, take_while, to_ascii_lowercase,
}
use stwo_starknet_verifier.Felts.{Felt, Text, Crates, bytes, trim_0x}
use stwo_starknet_verifier.Serde.{any_nonzero, be_value, felt_to_u64, bytearray_calldata}
use stwo_starknet_verifier.TxPolicy.{Bounds, ResourceBounds, Prices, publish_bounds}
use stwo_starknet_verifier.TxPolicy as TxPolicy
use stwo_starknet_verifier.Registry as Registry
use stwo_starknet_verifier.Tickets as Tickets
use stwo_starknet_verifier.Tickets.Tree as Tree
use stwo_starknet_verifier.Tickets.Quota as Quota
use stwo_starknet_verifier.Invoke.{Call, InvokeV3, execute_calldata}
use stwo_starknet_verifier.Sends.{SendState, V4Binding}
use stwo_starknet_verifier.Gateway.{GatewayError, rejected, hash_mismatch, reverted}
use stwo_starknet_verifier.Gateway.Wire.{Failure}

pub record VirtualRoute : Type 0 where
  pub store : Felt
  pub prover : Felt
  pub virtual_sender : Felt
  pub route_chain_id : Felt

pub record PublicV4 : Type 0 where
  pub store : Felt
  pub commitment : Felt
  pub ephemeral : Felt
  pub root : Felt
  pub content_hash : Felt
  pub nullifier : Felt
  pub epoch : ℕ
  pub quota : ℕ
  pub ticket_root : Felt
  pub ticket_nullifier : Felt

-- `WitnessV4`
pub record WitnessV4 : Type 0 where
  pub scan_pub : Felt
  pub kem_digest : Felt
  pub member_secret : Felt
  pub slot : ℕ
  pub leaf_index : ℕ
  pub path : List Felt
  pub ticket_secret : Felt
  pub ticket_index : ℕ
  pub ticket_path : List Felt

pub record VirtualProof : Type 0 where
  pub proof : Text
  pub proof_facts : List Text

pub data FactsError : Type 0 where
  wrong_length other_block other_count other_message : FactsError

pub data SendError : Type 0 where
  -- a request to the gateway or the feeder
  wire : Failure → SendError
  -- a read of the node failed, or its answer has not the form that is expected
  bad_read : SendError
  no_publish_step bad_hex no_binding bad_felt panics : SendError
  path_length slot_over_quota : SendError
  facts_refused : FactsError → SendError
  bad_fee_policy : SendError
  bad_bounds : TxPolicy.Error → SendError
  no_proof no_base_block not_saved not_retired : SendError
  -- the sends that are over: the ticket is spent, or the proof can never land
  publish_reverted ticket_spent stale_root proof_refused : SendError
  retries_exhausted nothing_to_resume : SendError
  -- what stops Prepare
  not_registered message_too_long bad_keys other_keys bad_sender_path : SendError
  registry : Registry.Error → SendError
  tickets : Tickets.Error → SendError
  ticket_tree : Tree.Error → SendError
  quota_log : Quota.Error → SendError
  bad_wallet no_ticket_index bad_ticket_path bad_rate_limit trees_disagree seal_failed : SendError
  prover_failed : SendError
  -- the rounds of the model's wait for the schedule are used up
  out_of_rounds : SendError

-- `PublicV4::payload`
unfoldable pub payload : PublicV4 → List Felt
payload p =
    p.store ∷ p.commitment ∷ p.ephemeral ∷ p.root ∷ p.content_hash ∷ p.nullifier ∷ p.epoch ∷ p.quota
    ∷ p.ticket_root ∷ p.ticket_nullifier ∷ []

-- `prove_send_calldata_v4`
unfoldable pub prove_send_calldata_v4 : PublicV4 → WitnessV4 → Result SendError (List Felt)
prove_send_calldata_v4 p w = do
  ensure (length w.path == 20) path_length
  ensure (length w.ticket_path == 20) path_length
  ensure (ltb w.slot p.quota) slot_over_quota
  ok (
      p.store
      ∷ p.content_hash
      ∷ p.commitment
      ∷ p.ephemeral
      ∷ p.root
      ∷ p.epoch
      ∷ p.quota
      ∷ p.ticket_root
      ∷ w.scan_pub
      ∷ w.kem_digest
      ∷ w.member_secret
      ∷ w.slot
      ∷ w.leaf_index
      ∷ 20
      ∷ (w.path ++ (w.ticket_secret ∷ w.ticket_index ∷ 20 ∷ w.ticket_path)))

-- `check_facts`
unfoldable pub check_facts : List Felt → Felt → ℕ → Result SendError (Unit {0})
check_facts facts expected block = do
  ensure (length facts == 9) (facts_refused wrong_length)
  ensure (get_or facts 4 0 == block) (facts_refused other_block)
  ensure (get_or facts 7 0 == 1) (facts_refused other_count)
  ensure (get_or facts 8 0 == expected) (facts_refused other_message)
  ok tt

pub record PoolFeePolicy : Type 0 where
  pub max_fee : ℕ
  pub max_tip : ℕ
  pub min_l2_gas : ℕ

-- `PoolFeePolicy::bounds`
unfoldable pub policy_bounds : PoolFeePolicy → Prices → Result SendError Bounds
policy_bounds p prices = elim (publish_bounds prices p.max_fee p.max_tip p.min_l2_gas) [
  | ok b ↦ ok b
  | err e ↦ err (bad_bounds e)
]

-- `is_nonce_rejection`
unfoldable pub is_nonce_rejection : GatewayError → Bool
is_nonce_rejection (rejected code message) =
    contains (bytes "NONCE") code || contains (bytes "nonce") (to_ascii_lowercase message)
is_nonce_rejection (hash_mismatch _ _) = false
is_nonce_rejection (reverted _ _) = false

-- The prime of the field of felts, in which `refused + Felt::ONE` is.
abbrev pub felt_prime : ℕ
felt_prime = 2 ^ 251 + 17 * 2 ^ 192 + 1

-- `next_nonce`
unfoldable pub next_nonce : Felt → Option ℕ → Felt → Felt
next_nonce refused (some expected) chain =
    if ltb refused expected then expected else (refused + 1) % felt_prime
next_nonce refused none chain = if ltb refused chain then chain else (refused + 1) % felt_prime

-- "0x…", in UTF-8
abbrev pub mask : Text
mask = b'0' ∷ b'x' ∷ 0xe2 ∷ 0x80 ∷ 0xa6 ∷ []

-- What `redact_felts` writes for "0x" and these digits.
abbrev pub masked : Text → Text
masked digits = if leb 16 (length digits) then mask else b'0' ∷ b'x' ∷ digits

-- `redact_felts`, with so many bytes left that stand behind a "0x" and are done with.
unfoldable pub redact_from : ℕ → Text → Text
redact_from done [] = []
redact_from (suc done) (c ∷ cs) = redact_from done cs
redact_from zero (c ∷ cs) =
    let digits = take_while is_hexdigit (drop 1 cs) in
    let plain = redact_from 0 cs in
    let behind = redact_from (suc (length digits)) cs in
    if starts_with (bytes "0x") (c ∷ cs) then masked digits ++ behind else c ∷ plain

unfoldable pub redact_felts : Text → Text
redact_felts line = redact_from 0 line

module _ (k : Crates) where
  -- `PublicV4::message_hash`
  unfoldable pub message_hash : PublicV4 → Felt → Felt
  message_hash p prover = k.poseidon_hash_many (prover ∷ 0 ∷ 10 ∷ payload p)

  -- `PublicV4::binding`
  unfoldable pub binding_of : PublicV4 → V4Binding
  binding_of p = record {
    nullifier = k.to_hex p.nullifier;
    epoch = p.epoch;
    quota = p.quota;
    ticket_root = k.to_hex p.ticket_root;
    ticket_nullifier = k.to_hex p.ticket_nullifier;
  }

  -- `Felt::from_hex` of every text
  unfoldable pub felts_of : List Text → Option (List Felt)
  felts_of [] = some []
  felts_of (t ∷ ts) = elim (k.from_hex t) [
    | none ↦ none
    | some f ↦ elim (felts_of ts) [ none ↦ none | some fs ↦ some (f ∷ fs) ]
  ]

  -- `content_hash`; `none` is the panic of its `expect`.
  unfoldable pub hash_of_content : List ℕ → Option Felt
  hash_of_content content = elim (felts_of (bytearray_calldata k content)) [
    | none ↦ none
    | some fs ↦ some (k.poseidon_hash_many fs)
  ]

  -- `PublicV4::from_state`
  unfoldable pub from_state : Felt → SendState → List ℕ → Result SendError PublicV4
  from_state store s content = do
    b ← context s.binding no_binding
    commitment ← context (k.from_hex s.expected_commitment) bad_felt
    ephemeral ← context (k.from_hex s.expected_ephemeral_pubkey) bad_felt
    root ← context (k.from_hex s.expected_merkle_root) bad_felt
    content_hash ← context (hash_of_content content) panics
    nullifier ← context (k.from_hex b.nullifier) bad_felt
    ticket_root ← context (k.from_hex b.ticket_root) bad_felt
    ticket_nullifier ← context (k.from_hex b.ticket_nullifier) bad_felt
    ok (record {
      store = store;
      commitment = commitment;
      ephemeral = ephemeral;
      root = root;
      content_hash = content_hash;
      nullifier = nullifier;
      epoch = b.epoch;
      quota = b.quota;
      ticket_root = ticket_root;
      ticket_nullifier = ticket_nullifier;
    })

  -- `send_message_calldata_v4`
  unfoldable pub send_message_calldata_v4 : PublicV4 → List ℕ → Result SendError (List Felt)
  send_message_calldata_v4 p content = do
    fs ← context (felts_of (bytearray_calldata k content)) bad_felt
    ok (p.commitment ∷ p.ephemeral ∷ p.root ∷ p.nullifier ∷ p.ticket_root ∷ p.ticket_nullifier ∷ fs)

  -- `u128_of` of `from_felts`
  unfoldable pub u128_of : Felt → Result SendError ℕ
  u128_of f = do
    ensure (not (any_nonzero (take 16 (k.to_bytes_be f)))) bad_fee_policy
    ok (be_value (drop 16 (k.to_bytes_be f)))

  -- `felt_to_u64(…)?`
  unfoldable pub u64_of : Felt → Result SendError ℕ
  u64_of f = elim (felt_to_u64 k f) [ ok n ↦ ok n | err e ↦ err bad_fee_policy ]

  -- `PoolFeePolicy::from_felts`
  unfoldable pub from_felts : List Felt → Result SendError PoolFeePolicy
  from_felts felts = do
    ensure (length felts == 3) bad_fee_policy
    fee ← u128_of (get_or felts 0 0)
    cap ← u128_of (get_or felts 1 0)
    gas ← u64_of (get_or felts 2 0)
    ok (record { max_fee = fee; max_tip = cap; min_l2_gas = gas })

  -- `send_id`
  unfoldable pub send_id : Felt → Text
  send_id commitment = take 10 (trim_0x (k.to_hex commitment))

  -- The texts of the pool after which a proof can never land, `FINAL_REFUSALS`.
  abbrev pub final_refusals : List Text
  final_refusals =
      bytes "nullifier spent"
      ∷ bytes "envelope consumed"
      ∷ bytes "stale epoch"
      ∷ bytes "unknown merkle root"
      ∷ []
