-- ===== src/VirtualSend/Send.antt =====
-- tools/zkmsg/core/src/virtual_send.rs: `send` and `prove_and_save`. The prover is a process: what
-- `run_prover` returns for a prepared send is a parameter. The notes of the steps are texts for the
-- reader, and the block's jitter is an argument.
use stwo_starknet_verifier.Common.{
  ℕ, zero, suc, ◌+◌, true, Option, none, some, List, [], ◌∷◌, Result, ok, err, context,
  if◌then◌else◌,
}
use stwo_starknet_verifier.Common.Effects.{◌>>=◌, ◌>>◌, fail, lift}
use stwo_starknet_verifier.Felts.{Felt, Text, Crates}
use stwo_starknet_verifier.TxPolicy.{publish_after}
use stwo_starknet_verifier.Registry.{Registration}
use stwo_starknet_verifier.Tickets.{not_in_tree_yet}
use stwo_starknet_verifier.Sends.{
  SendState, prepare, prove, publish, new_virtual_plan, mark_done, todo,
}
use stwo_starknet_verifier.Gateway.{Gateway}
use stwo_starknet_verifier.Gateway.Wire.{Servers, sleep}
use stwo_starknet_verifier.VirtualSend.{
  VirtualRoute, VirtualProof, SendError, tickets, not_saved, bad_felt, prover_failed, binding_of,
  felts_of, check_facts, message_hash,
}
use stwo_starknet_verifier.VirtualSend.World.{
  step_started, step_completed, checkpointed, World, Node, Act, sink, attempt, save, release_ticket,
}
use stwo_starknet_verifier.VirtualSend.Finish.{change_to, schedule_poll}
use stwo_starknet_verifier.VirtualSend.Publish.{publish_send}
use stwo_starknet_verifier.VirtualSend.Witness.{Member}
use stwo_starknet_verifier.VirtualSend.Prepare.{Events, SealedV2, Prepared}
use stwo_starknet_verifier.VirtualSend.Prepare as Prepare

-- `TICKET_WAIT_TRIES`
abbrev pub ticket_wait_tries : ℕ
ticket_wait_tries = 20

-- A ticket younger than the base block is waited for; other errors are passed on.
unfoldable pub unless_young :
    Act Prepared → World × Result SendError Prepared → World × Result SendError Prepared
unless_young again (w, ok p) = (w, ok p)
unless_young again (w, err (tickets (not_in_tree_yet n))) = again w
unless_young again (w, err e) = (w, err e)

-- The state that `send` makes of what was prepared, its first step done.
unfoldable pub planned : Crates → Prepared → Text → ℕ → Text → SendState
planned k p handle jitter text =
    let plan =
      new_virtual_plan p.id handle (k.hex_encode p.content)
        (k.to_hex p.public.commitment, k.to_hex p.public.ephemeral, k.to_hex p.public.root)
        p.block in
    record plan {
      steps =
          record { kind = prepare; is_done = true; tx_hash = none; note = some text }
          ∷ todo prove
          ∷ todo publish
          ∷ [];
      binding = some (binding_of k p.public);
      publish_after_block = some (publish_after p.block jitter);
    }

module _ (k : Crates) (servers : Servers) (node : Node) (events : Events)
    (route : VirtualRoute) where
  -- The loop of `send` around `prepare`, with so many tries left.
  unfoldable pub prepare_waiting :
      ℕ → (Registration → List ℕ → Option SealedV2) → Member → Text → List ℕ → Act Prepared
  prepare_waiting zero seal member handle text w =
      Prepare.prepare k servers node events route seal member handle text w
  prepare_waiting (suc left) seal member handle text w =
      unless_young
        (attempt (sleep schedule_poll) >>= λ slept. prepare_waiting left seal member handle text)
        (Prepare.prepare k servers node events route seal member handle text w)

  -- `fs::write` of the proof
  unfoldable pub write_proof : VirtualProof → Act (Unit {0})
  write_proof proof w =
      if node.writable w.writes
      then (record w { writes = w.writes + 1; proof_file = some proof }, ok tt)
      else (record w { writes = w.writes + 1 }, err not_saved)

  -- The proof attests the send, on its block.
  unfoldable pub check_proof : Prepared → VirtualProof → Result SendError (Unit {0})
  check_proof p proof = elim (felts_of k proof.proof_facts) [
    | none ↦ err bad_felt
    | some facts ↦ check_facts facts (message_hash k p.public route.prover) p.block
  ]

  -- The second step done, and the state saved.
  unfoldable pub save_proven : Text → Act (Unit {0})
  save_proven text w = (change_to (mark_done 1 none (some text) w.state) >> save k servers node) w

  -- `prove_and_save`, on what the prover returned: `none` too where its directory cannot be made.
  unfoldable pub prove_and_save : Option VirtualProof → Text → Prepared → Act (Unit {0})
  prove_and_save proven text p = lift (context proven prover_failed) >>= λ proof.
      lift (check_proof p proof) >> write_proof proof >> save_proven text

  -- A failure hands the ticket back.
  unfoldable pub or_release :
      Prepared → World × Result SendError (Unit {0}) → World × Result SendError (Unit {0})
  or_release p (w, ok u) = (w, ok u)
  or_release p (w, err e) = (release_ticket k servers node p.public >> fail e) w

  -- `send` after Prepare: Prove and Publish
  unfoldable pub send_prepared :
      Gateway
      → Felt
      → ℕ
      → (Prepared → Option VirtualProof)
      → Text
      → ℕ
      → Text
      → Text
      → Prepared
      → Act (Unit {0})
  send_prepared g send_selector rounds prover handle jitter text text' p =
      change_to (some (planned k p handle jitter text))
      >> sink (step_completed prepare none)
      >> sink (step_started 1 3 prove)
      >> (λ w. or_release p (prove_and_save (prover p) text' p w))
      >> sink (checkpointed p.id)
      >> sink (step_completed prove none)
      >> publish_send k servers node g route send_selector rounds

  -- `send`
  unfoldable pub send :
      Gateway
      → Felt
      → ℕ
      → (Prepared → Option VirtualProof)
      → (Registration → List ℕ → Option SealedV2)
      → Member
      → Text
      → List ℕ
      → ℕ
      → Text
      → Text
      → Act (Unit {0})
  send g send_selector rounds prover seal member handle text jitter note note' =
      sink (step_started 0 3 prepare)
      >> prepare_waiting ticket_wait_tries seal member handle text
      >>= send_prepared g send_selector rounds prover handle jitter note note'
