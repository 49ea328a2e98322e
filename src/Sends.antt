-- ===== src/Sends.antt =====
-- tools/zkmsg/core/src/state.rs: the checkpoint of a send and its steps. `none` is the panic of an
-- index out of range. Reading and writing the file are left out.
use stwo_starknet_verifier.Common.{
  ℕ, ◌+◌, Bool, true, false, Option, none, some, List, [], ◌∷◌, get_elem?, set,
}
use stwo_starknet_verifier.Felts.{Text}
use stwo_starknet_verifier.TxPolicy.{Bounds}

pub data StepKind : Type 0 where
  prepare prove publish : StepKind

pub record StepRecord : Type 0 where
  pub kind : StepKind
  pub is_done : Bool
  pub tx_hash : Option Text
  pub note : Option Text

pub record V4Binding : Type 0 where
  pub nullifier : Text
  pub epoch : ℕ
  pub quota : ℕ
  pub ticket_root : Text
  pub ticket_nullifier : Text

pub record SendState : Type 0 where
  pub id : Text
  pub recipient_handle : Text
  pub ciphertext_hex : Text
  pub expected_commitment : Text
  pub expected_ephemeral_pubkey : Text
  pub expected_merkle_root : Text
  pub steps : List StepRecord
  pub base_block : Option ℕ
  pub publish_nonce : Option Text
  pub publish_bounds : Option Bounds
  pub binding : Option V4Binding
  pub publish_after_block : Option ℕ

-- A step of a new plan.
abbrev pub todo : StepKind → StepRecord
todo kind = record { kind = kind; is_done = false; tx_hash = none; note = none }

-- `SendState::new_virtual_plan`
unfoldable pub new_virtual_plan : Text → Text → Text → Text × Text × Text → ℕ → SendState
new_virtual_plan id recipient_handle ciphertext_hex expected base_block = record {
  id = id;
  recipient_handle = recipient_handle;
  ciphertext_hex = ciphertext_hex;
  expected_commitment = expected.0;
  expected_ephemeral_pubkey = expected.1;
  expected_merkle_root = expected.2;
  steps = todo prepare ∷ todo prove ∷ todo publish ∷ [];
  base_block = some base_block;
  publish_nonce = none;
  publish_bounds = none;
  binding = none;
  publish_after_block = none;
}

-- `steps.iter().position(|s| !s.done)`, counted from `i`
unfoldable pub pending_from : ℕ → List StepRecord → Option ℕ
pending_from i [] = none
pending_from i (s ∷ ss) = elim s.is_done [ true ↦ pending_from (i + 1) ss | false ↦ some i ]

-- `SendState::next_pending`
unfoldable pub next_pending : SendState → Option ℕ
next_pending s = pending_from 0 s.steps

-- `SendState::mark_done`
unfoldable pub mark_done : ℕ → Option Text → Option Text → SendState → Option SendState
mark_done index tx_hash note s = elim (get_elem? s.steps index) [
  | none ↦ none
  | some step ↦ some (record s {
    steps = set s.steps index (record step { is_done = true; tx_hash = tx_hash; note = note });
  })
]

-- `SendState::record_submission`
unfoldable pub record_submission : ℕ → Text → SendState → Option SendState
record_submission index tx_hash s = elim (get_elem? s.steps index) [
  | none ↦ none
  | some step ↦
      some (record s { steps = set s.steps index (record step { tx_hash = some tx_hash }) })
]

-- Whether a publish was submitted: `st.kind == Publish && st.tx_hash.is_some()`, of any step.
abbrev pub is_submitted_publish : StepRecord → Bool
is_submitted_publish s = elim s.kind [
  | publish ↦ elim s.tx_hash [ some h ↦ true | none ↦ false ]
  | _ ↦ false
]

unfoldable pub any_submitted : List StepRecord → Bool
any_submitted [] = false
any_submitted (s ∷ ss) =
    let later = any_submitted ss in elim (is_submitted_publish s) [ true ↦ true | false ↦ later ]
