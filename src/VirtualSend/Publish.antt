-- ===== src/VirtualSend/Publish.antt =====
-- tools/zkmsg/core/src/virtual_send.rs: `publish` and `resume`.
use stwo_starknet_verifier.Common.{
  ℕ, zero, suc, Bool, true, false, not, ◌&&◌, Option, none, some, List, [], ◌∷◌, ◌==◌,
  if◌then◌else◌, length, get_elem?, Result, ok, err, context,
}
use stwo_starknet_verifier.Common.Effects.{◌>>=◌, ◌>>◌, pure, fail, lift}
use stwo_starknet_verifier.Felts.{Felt, Text, Crates, bytes}
use stwo_starknet_verifier.TxPolicy.{Bounds, tip}
use stwo_starknet_verifier.Invoke.{Call}
use stwo_starknet_verifier.Sends.{SendState, publish, next_pending}
use stwo_starknet_verifier.Gateway.{
  Gateway, GatewayError, rejected, TxStatus, ProofAttachment, SignedInvoke, unsigned_invoke,
  too_recent, refused_with, expected_nonce,
}
use stwo_starknet_verifier.Gateway.Wire.{Servers, Failure, typed, sleep, submit}
use stwo_starknet_verifier.VirtualSend.{
  VirtualRoute, PublicV4, VirtualProof, SendError, wire, bad_hex, bad_felt, panics, no_publish_step,
  no_proof, no_base_block, ticket_spent, stale_root, proof_refused, retries_exhausted,
  nothing_to_resume, check_facts, from_felts, policy_bounds, is_nonce_rejection, next_nonce,
  message_hash, from_state, send_message_calldata_v4, felts_of, final_refusals,
}
use stwo_starknet_verifier.VirtualSend.World.{
  step_started, tx_submitted, completed, posted, refused, root_said, Node, Act, note, sink, attempt,
  or_bad, ask, ask_status, store_call, store_felt, nonce_of, save, retire, spend_ticket,
  release_ticket,
}
use stwo_starknet_verifier.VirtualSend.Finish.{
  is_publish, publish_index, hash_at, recorded, change_to, too_recent_wait, publish_attempts,
  wait_for_schedule, await_and_finish, is_gone, settle_saved,
}

module _ (k : Crates) (servers : Servers) (node : Node) (g : Gateway) (route : VirtualRoute) where
  -- `publish_inputs`
  unfoldable pub publish_inputs : Act (Felt × Bounds)
  publish_inputs = store_call k servers node (bytes "fee_policy") [] none >>= λ felts.
      lift (from_felts k felts) >>= λ policy. nonce_of k servers node route.store none >>= λ nonce.
      ask k servers node node.gas_prices >>= λ reply. lift (or_bad reply) >>= λ prices.
      lift (policy_bounds policy prices) >>= λ bounds. pure (nonce, bounds)

  -- The nonce and bounds of an earlier attempt, or new ones.
  unfoldable pub inputs_of : SendState → Act (Felt × Bounds)
  inputs_of s = elim s.publish_nonce [
    | none ↦ publish_inputs
    | some text ↦ elim s.publish_bounds [
      | none ↦ publish_inputs
      | some bounds ↦ lift (context (k.from_hex text) bad_felt) >>= λ nonce. pure (nonce, bounds)
    ]
  ]

  -- Whether the refusal has one of the final reasons.
  unfoldable pub is_final : GatewayError → List Text → Bool
  is_final e [] = false
  is_final e (reason ∷ reasons) =
      let others = is_final e reasons in if refused_with k e reason then true else others

  -- The POST of a transaction, with the log of what is on disk.
  unfoldable pub post_tx : SignedInvoke → Act (Result Failure (Unit {0}))
  post_tx tx w = (note (posted tx w.saved) >> attempt (submit k servers g tx)) w

  -- A transaction is recorded, saved, and then posted.
  unfoldable pub post_as : Option SendState → SignedInvoke → Act (Result Failure (Unit {0}))
  post_as state tx = change_to state >> save k servers node >> post_tx tx

  unfoldable pub post_recorded : ℕ → SignedInvoke → Act (Result Failure (Unit {0}))
  post_recorded index tx w =
      post_as
        (recorded index (k.to_hex tx.tx_hash) (k.to_hex tx.invoke.nonce) tx.invoke.bounds w.state)
        tx w

  -- The next nonce of the same proof, where neither the gateway nor the node has the transaction.
  unfoldable pub retry_or_finish :
      ℕ → PublicV4 → (Felt → Act (Unit {0})) → SignedInvoke → GatewayError → Bool → Act (Unit {0})
  retry_or_finish index p again tx e true = nonce_of k servers node route.store none >>= λ chain.
      again (next_nonce tx.invoke.nonce (expected_nonce e) chain)
  retry_or_finish index p again tx e false = await_and_finish k servers node g index p tx.tx_hash

  unfoldable pub try_next :
      ℕ
      → PublicV4
      → (Felt → Act (Unit {0}))
      → SignedInvoke
      → GatewayError
      → TxStatus
      → Act (Unit {0})
  try_next index p again tx e s =
      is_gone k servers node g tx.tx_hash s >>= retry_or_finish index p again tx e

  -- What `publish` does with a rejection, in the order of its tests; `again` is the next attempt.
  unfoldable pub on_rejected :
      Bool → ℕ → PublicV4 → (Felt → Act (Unit {0})) → SignedInvoke → GatewayError → Act (Unit {0})
  on_rejected last index p again tx e =
      if not last && too_recent e
      then (attempt (sleep too_recent_wait) >>= λ slept. again tx.invoke.nonce)
      else (if refused_with k e (bytes "ticket spent")
          then (spend_ticket k servers node p none >> retire k servers node >> fail ticket_spent)
          else (if is_final e (final_refusals k)
              then (release_ticket k servers node p >> retire k servers node >> fail proof_refused)
              else (if not last && is_nonce_rejection e
                  then (ask_status k servers node g tx.tx_hash >>= try_next index p again tx e)
                  else fail (wire (typed e)))))

  -- What `publish` does with the result of a POST.
  unfoldable pub on_posted :
      Bool
      → ℕ
      → PublicV4
      → (Felt → Act (Unit {0}))
      → SignedInvoke
      → Result Failure (Unit {0})
      → Act (Unit {0})
  on_posted last index p again tx (ok u) =
      sink (tx_submitted publish (k.to_hex tx.tx_hash))
      >> await_and_finish k servers node g index p tx.tx_hash
  on_posted last index p again tx (err (typed (rejected code message))) =
      note (refused tx) >> on_rejected last index p again tx (rejected code message)
  on_posted last index p again tx (err e) = fail (wire e)

  -- The transaction of an attempt.
  abbrev pub attempt_tx : Call → ProofAttachment → Bounds → Felt → SignedInvoke
  attempt_tx call attachment bounds nonce =
      unsigned_invoke k g route.store (call ∷ []) nonce bounds tip (some attachment)

  abbrev pub call_of : Felt → List Felt → Call
  call_of send_selector calldata = record {
    to = route.store;
    selector = send_selector;
    calldata = calldata;
  }

  -- The loop of `publish`, with so many attempts left.
  unfoldable pub attempts : ℕ → ℕ → PublicV4 → (Felt → SignedInvoke) → Felt → Act (Unit {0})
  attempts zero index p tx_of nonce = fail retries_exhausted
  attempts (suc left) index p tx_of nonce =
      post_recorded index (tx_of nonce)
      >>= on_posted (left == 0) index p (attempts left index p tx_of) (tx_of nonce)

  -- The saved proof, checked against this send, and its facts.
  unfoldable pub proof_of_send :
      PublicV4 → SendState → Option VirtualProof → Result SendError ProofAttachment
  proof_of_send p s none = err no_proof
  proof_of_send p s (some v) = elim (felts_of k v.proof_facts) [
    | none ↦ err bad_felt
    | some facts ↦ elim s.base_block [
      | none ↦ err no_base_block
      | some block ↦ elim (check_facts facts (message_hash k p route.prover) block) [
        | err e ↦ err e
        | ok u ↦ ok (record { proof = v.proof; proof_facts = facts })
      ]
    ]
  ]

  -- The transaction of each nonce, and the first nonce.
  unfoldable pub prepared_tx : Felt → PublicV4 → List ℕ → Act ((Felt → SignedInvoke) × Felt)
  prepared_tx send_selector p content w =
      (lift (proof_of_send p w.state w.proof_file) >>= λ attachment.
      lift (send_message_calldata_v4 k p content) >>= λ calldata.
      inputs_of w.state >>= λ (nonce, bounds).
      pure (attempt_tx (call_of send_selector calldata) attachment bounds, nonce))
        w

  unfoldable pub publish_ready : Felt → ℕ → PublicV4 → List ℕ → Act (Unit {0})
  publish_ready send_selector index p content =
      prepared_tx send_selector p content >>= λ (tx_of, nonce).
      attempts publish_attempts index p tx_of nonce

  -- A send whose root is known goes on; where it is forgotten the send is over.
  unfoldable pub publish_known : Felt → ℕ → PublicV4 → List ℕ → Felt → Act (Unit {0})
  publish_known send_selector index p content known =
      if known == 1
      then publish_ready send_selector index p content
      else (release_ticket k servers node p >> retire k servers node >> fail stale_root)

  unfoldable pub publish_answered : Felt → ℕ → PublicV4 → List ℕ → Felt → Act (Unit {0})
  publish_answered send_selector index p content known =
      note (root_said p.root known) >> publish_known send_selector index p content known

  -- `is_known_root`, and what follows
  unfoldable pub publish_on_time : Felt → ℕ → PublicV4 → List ℕ → Act (Unit {0})
  publish_on_time send_selector index p content =
      store_felt k servers node (bytes "is_known_root") (p.root ∷ []) none
      >>= publish_answered send_selector index p content

  -- The part of `publish` that sends a transaction, after an earlier hash is settled.
  unfoldable pub publish_anew : Felt → ℕ → ℕ → PublicV4 → List ℕ → Act (Unit {0})
  publish_anew send_selector rounds index p content w =
      (wait_for_schedule k servers node g rounds w.state.publish_after_block
          >> publish_on_time send_selector index p content)
        w

  -- What the send proves, from its state.
  unfoldable pub read_public : SendState → Result SendError (List ℕ × PublicV4)
  read_public s = elim (k.hex_decode s.ciphertext_hex) [
    | none ↦ err bad_hex
    | some content ↦ elim (from_state k route.store s content) [
      | err e ↦ err e
      | ok p ↦ ok (content, p)
    ]
  ]

  unfoldable pub unless_done : Act (Unit {0}) → Bool → Act (Unit {0})
  unless_done rest true = pure tt
  unless_done rest false = rest

  unfoldable pub publish_from : Felt → ℕ → ℕ → List ℕ × PublicV4 → Act (Unit {0})
  publish_from send_selector rounds index (content, p) w =
      (settle_saved k servers node g index p (hash_at index w.state)
          >>= unless_done (publish_anew send_selector rounds index p content))
        w

  -- `publish`, by the index of its step
  unfoldable pub publish_step : Felt → ℕ → Option ℕ → Act (Unit {0})
  publish_step send_selector rounds none w = (w, err no_publish_step)
  publish_step send_selector rounds (some index) w =
      (sink (step_started index (length w.state.steps) publish) >> λ v.
      (lift (read_public w.state) >>= publish_from send_selector rounds index) v)
        w

  -- `publish`, with so many rounds for the wait for the schedule. The selector is
  -- `snkeccak("send_message")`.
  unfoldable pub publish_send : Felt → ℕ → Act (Unit {0})
  publish_send send_selector rounds w =
      publish_step send_selector rounds (publish_index w.state.steps) w

  -- `resume`
  unfoldable pub resume : Felt → ℕ → Act (Unit {0})
  resume send_selector rounds w = elim (next_pending w.state) [
    | none ↦ sink completed w
    | some i ↦ elim (get_elem? w.state.steps i) [
      | none ↦ (w, err panics)
      | some step ↦
          if is_publish step
          then publish_send send_selector rounds w
          else (w, err nothing_to_resume)
    ]
  ]
