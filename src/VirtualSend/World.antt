-- ===== src/VirtualSend/World.antt =====
-- tools/zkmsg/core/src/virtual_send.rs: what a running send reads and changes. The node behind the
-- prover's RPC is a parameter, as the servers of `Gateway.Wire` are; a write may fail at any time.
-- The log is no part of the program: it keeps what the servers were asked and answered.
use stwo_starknet_verifier.Common.{
  ℕ, ◌+◌, Bool, true, false, Option, none, some, List, [], ◌∷◌, if◌then◌else◌, Result, ok, err,
}
use stwo_starknet_verifier.Common.Effects.{Effect, ◌>>=◌, ◌>>◌, pure, fail, lift, modify}
use stwo_starknet_verifier.Common.Texts.{contains}
use stwo_starknet_verifier.Felts.{Felt, Text, Crates, bytes, text_eq}
use stwo_starknet_verifier.TxPolicy.{Prices}
use stwo_starknet_verifier.Tickets.{Wallet, mark_spent, release}
use stwo_starknet_verifier.Tickets.Quota.{QuotaFile}
use stwo_starknet_verifier.Sends.{SendState, StepKind}
use stwo_starknet_verifier.Gateway.{Gateway, TxStatus, SignedInvoke}
use stwo_starknet_verifier.Gateway.Wire.{Servers, Wire, Failure, Talk, request, status}
use stwo_starknet_verifier.VirtualSend.{
  PublicV4, VirtualProof, SendError, wire, bad_read, not_saved, not_retired,
}

-- `PipelineEvent`
pub data PipelineEvent : Type 0 where
  step_started : (index total : ℕ) → StepKind → PipelineEvent
  tx_submitted : StepKind → Text → PipelineEvent
  step_completed : StepKind → Option Text → PipelineEvent
  completed : PipelineEvent
  checkpointed : Text → PipelineEvent
  waiting : (until_block blocks_left : ℕ) → PipelineEvent

pub data Event : Type 0 where
  shown : PipelineEvent → Event
  head_said : ℕ → Event
  -- the answer of the store to `is_known_root`
  root_said : (root answer : Felt) → Event
  -- a transaction goes out, with the send's file on disk at that moment
  posted : SignedInvoke → Option SendState → Event
  -- the gateway refused it
  refused : SignedInvoke → Event
  feeder_said : Felt → TxStatus → Event
  -- whether the node says that it does not have a transaction
  node_said : Felt → Bool → Event
  -- the feeder's status of the transaction became an accepted one
  accepted : Felt → Event
  -- the ticket was handed back to the wallet
  freed : Event

pub record World : Type 0 where
  pub net : Wire
  -- the number of writes so far
  pub writes : ℕ
  -- the send in memory, and its file
  pub state : SendState
  pub saved : Option SendState
  pub retired : Bool
  -- the wallet's file, where it can be read
  pub wallet : Option Wallet
  -- quota.json
  pub quota : QuotaFile
  -- virtual_proof.json, where it can be read
  pub proof_file : Option VirtualProof
  pub log : List Event

-- The node's answer, or the text of its error.
pub data NodeReply (A : Type 0) : Type 0 where
  answers : A → NodeReply A
  -- an error of the node, or of the request
  refuses : Text → NodeReply A

pub record Node : Type 0 where
  -- `starknet_blockNumber`
  pub block_number : ℕ → NodeReply ℕ
  -- `starknet_call` of the store, its felts parsed
  pub store_call : ℕ → Text → List Felt → Option ℕ → NodeReply (List Felt)
  -- `starknet_getNonce` of a contract
  pub nonce_of : ℕ → Felt → Option ℕ → NodeReply Felt
  -- the prices of the latest block
  pub gas_prices : ℕ → NodeReply Prices
  -- the `finality_status` of `starknet_getTransactionStatus`
  pub tx_status : ℕ → Felt → NodeReply (Option Text)
  -- whether write number n works
  pub writable : ℕ → Bool

abbrev pub Act : Type 0 → Type 0
Act A = Effect World SendError A

unfoldable pub note : Event → Act (Unit {0})
note e = modify (λ w. record w { log = e ∷ w.log })

-- `sink`
abbrev pub sink : PipelineEvent → Act (Unit {0})
sink e = note (shown e)

-- A call that catches the error.
abbrev pub attempt : {A : Type 0} → Talk A → Act (Result Failure A)
attempt m w = let (net, result) = m w.net in (record w { net = net }, ok result)

-- The same with `?`.
abbrev pub or_wire : {A : Type 0} → Result Failure A → Result SendError A
or_wire (ok a) = ok a
or_wire (err e) = err (wire e)

abbrev pub or_bad : {A : Type 0} → NodeReply A → Result SendError A
or_bad (answers a) = ok a
or_bad (refuses text) = err bad_read

-- `vec.first()`
abbrev pub first_of : List Felt → Result SendError Felt
first_of [] = err bad_read
first_of (f ∷ fs) = ok f

-- What `rpc_agrees_dropped` makes of the answer. The error 29 is "transaction hash not found".
unfoldable pub says_dropped : NodeReply (Option Text) → Bool
says_dropped (answers (some s)) = text_eq s (bytes "REJECTED")
says_dropped (answers none) = false
says_dropped (refuses text) = contains (bytes "\"code\":29") text

module _ (k : Crates) (servers : Servers) (node : Node) where
  -- A request to the node, answered by what `f` gives for its number.
  unfoldable pub ask : {A : Type 0} → (ℕ → A) → Act A
  ask f w = (record w { net = (request k servers f w.net).0 }, ok (f w.net.requests))

  -- `Gateway::status`, and the log of its answer
  unfoldable pub note_status : Felt → Result Failure TxStatus → Act TxStatus
  note_status h (ok s) = note (feeder_said h s) >> pure s
  note_status h (err e) = fail (wire e)

  unfoldable pub ask_status : Gateway → Felt → Act TxStatus
  ask_status g h = attempt (status k servers g h) >>= note_status h

  -- `rpc_agrees_dropped`
  unfoldable pub note_dropped : Felt → NodeReply (Option Text) → Act Bool
  note_dropped h reply = note (node_said h (says_dropped reply)) >> pure (says_dropped reply)

  unfoldable pub rpc_agrees_dropped : Felt → Act Bool
  rpc_agrees_dropped h = ask (λ n. node.tx_status n h) >>= note_dropped h

  -- `block_number`
  unfoldable pub note_head : NodeReply ℕ → Act ℕ
  note_head (answers head) = note (head_said head) >> pure head
  note_head (refuses text) = fail bad_read

  unfoldable pub block_number : Act ℕ
  block_number = ask node.block_number >>= note_head

  -- `store_call`
  unfoldable pub store_call : Text → List Felt → Option ℕ → Act (List Felt)
  store_call entrypoint calldata block =
      ask (λ n. node.store_call n entrypoint calldata block) >>= λ reply. lift (or_bad reply)

  -- `store_felt`
  unfoldable pub store_felt : Text → List Felt → Option ℕ → Act Felt
  store_felt entrypoint calldata block =
      store_call entrypoint calldata block >>= λ felts. lift (first_of felts)

  -- `nonce_of`
  unfoldable pub nonce_of : Felt → Option ℕ → Act Felt
  nonce_of address block = ask (λ n. node.nonce_of n address block) >>= λ reply. lift (or_bad reply)

  -- `SendState::save`
  unfoldable pub save : Act (Unit {0})
  save w =
      if node.writable w.writes
      then (record w { writes = w.writes + 1; saved = some w.state }, ok tt)
      else (record w { writes = w.writes + 1 }, err not_saved)

  -- `retire`: the file, where it is there, gets another name.
  unfoldable pub retire_file : Option SendState → Act (Unit {0})
  retire_file none w = (record w { writes = w.writes + 1 }, err not_retired)
  retire_file (some s) w =
      if node.writable w.writes
      then (record w { writes = w.writes + 1; saved = none; retired = true }, ok tt)
      else (record w { writes = w.writes + 1 }, err not_retired)

  unfoldable pub retire : Act (Unit {0})
  retire w = retire_file w.saved w

  -- `wallet.save`, best effort, where the wallet changed.
  unfoldable pub keep_wallet : Wallet × Bool → World → World
  keep_wallet (wallet, false) w = w
  keep_wallet (wallet, true) w =
      if node.writable w.writes
      then record w { writes = w.writes + 1; wallet = some wallet }
      else record w { writes = w.writes + 1 }

  -- `spend_ticket`
  unfoldable pub spend_in : PublicV4 → Option Text → Option Wallet → Act (Unit {0})
  spend_in p tx none w = (w, ok tt)
  spend_in p tx (some wallet) w =
      (keep_wallet (mark_spent k p.store p.ticket_nullifier tx wallet) w, ok tt)

  unfoldable pub spend_ticket : PublicV4 → Option Text → Act (Unit {0})
  spend_ticket p tx w = spend_in p tx w.wallet w

  -- `release_ticket`
  unfoldable pub release_in : PublicV4 → Option Wallet → Act (Unit {0})
  release_in p none w = (w, ok tt)
  release_in p (some wallet) w =
      (keep_wallet (release k p.store p.ticket_nullifier wallet) w, ok tt)

  unfoldable pub release_ticket : PublicV4 → Act (Unit {0})
  release_ticket p = note freed >> λ w. release_in p w.wallet w
