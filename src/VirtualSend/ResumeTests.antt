-- ===== src/VirtualSend/ResumeTests.antt =====
-- Prove and Publish after a prepared send, and the log lines of a prover, for
-- tools/zkmsg/core/src/virtual_send.rs.
use stwo_starknet_verifier.Common.{◌⊎◌, ◌≤◌, ◌≡◌, ◌<◌, refl, some, [], ◌∷◌, ◌++◌, Result, ok, arith}
use stwo_starknet_verifier.Felts.{bytes}
use stwo_starknet_verifier.Gateway.{ProofAttachment}
use stwo_starknet_verifier.VirtualSend.{VirtualProof, SendError, mask, redact_felts, next_nonce}
use stwo_starknet_verifier.VirtualSend.World.{World}
use stwo_starknet_verifier.VirtualSend.Publish.{read_public, proof_of_send}
use stwo_starknet_verifier.VirtualSend.Send.{planned, prove_and_save}
use stwo_starknet_verifier.VirtualSend.Tests.{accepting, gateway, a_route, a_world}
use stwo_starknet_verifier.VirtualSend.PrepareTests.{flat_crates, a_node, some_events, a_prepared}
use stwo_starknet_verifier.VirtualSend.Resume.{read_public-planned, prove_and_save-proof_of_send}
use stwo_starknet_verifier.VirtualSend.Redact.{redact_felts-masks, redact_felts-leaks}
use stwo_starknet_verifier.VirtualSend.Encodings.{named_nonce, next_nonce_past}

next_nonce_past_example :
    (7 < next_nonce 7 (some 9) 5)
    × (((7 < named_nonce (some 9) 5) × (next_nonce 7 (some 9) 5 ≡ named_nonce (some 9) 5))
        ⊎ ((named_nonce (some 9) 5 ≤ 7) × (next_nonce 7 (some 9) 5 ≡ 8)))
next_nonce_past_example = next_nonce_past 7 5 (some 9) (omega arith)

redact_felts-masks_example :
    redact_felts (bytes "at " ++ (bytes "0x" ++ (bytes "0123456789abcdef" ++ bytes ", gone")))
    ≡ bytes "at " ++ (mask ++ redact_felts (bytes ", gone"))
redact_felts-masks_example =
    redact_felts-masks (bytes "at ") (bytes "0123456789abcdef") (bytes ", gone")
      (λ e. omega arith, (λ e. omega arith, (λ e. omega arith, tt)))
      (
        refl,
        (
          refl,
          (
            refl,
            (
              refl,
              (
                refl,
                (
                  refl,
                  (
                    refl,
                    (refl, (refl, (refl, (refl, (refl, (refl, (refl, (refl, (refl, tt))))))))),
                  ),
                ),
              ),
            ),
          ),
        ),
      )
      refl (omega arith)

redact_felts-leaks_example :
    redact_felts (
      bytes "at "
      ++ (bytes "0x" ++ (bytes "1" ++ (bytes "0x" ++ (bytes "00c0ffee" ++ bytes ", gone")))))
    ≡ bytes "at "
      ++ (bytes "0x"
          ++ (bytes "1" ++ (bytes "0x" ++ (bytes "00c0ffee" ++ redact_felts (bytes ", gone")))))
redact_felts-leaks_example =
    redact_felts-leaks (bytes "at ") (bytes "1") (bytes "00c0ffee") (bytes ", gone")
      (λ e. omega arith, (λ e. omega arith, (λ e. omega arith, tt))) (refl, tt) (omega arith)
      (refl, (refl, (refl, (refl, (refl, (refl, (refl, (refl, tt)))))))) (λ e. omega arith)

read_public-planned_example :
    read_public flat_crates accepting a_node gateway a_route
      (planned flat_crates a_prepared (bytes "a") 3 (bytes "block 160"))
    ≡ ok (a_prepared.content, a_prepared.public)
unfolding stwo_starknet_verifier.VirtualSend.hash_of_content
    stwo_starknet_verifier.VirtualSend.felts_of stwo_starknet_verifier.Serde.bytearray_calldata
    stwo_starknet_verifier.Serde.bytearray_felts stwo_starknet_verifier.Serde.full_words
read_public-planned_example =
    read_public-planned flat_crates accepting a_node gateway some_events a_route a_prepared
      (bytes "a") 3 (bytes "block 160") (λ f. refl) (λ bs. refl) refl refl

-- The facts name the base block and the hash of the stand-in.
abbrev a_proof : VirtualProof
a_proof = record {
  proof = bytes "proof";
  proof_facts =
      (1 ∷ [])
      ∷ (1 ∷ [])
      ∷ (1 ∷ [])
      ∷ (1 ∷ [])
      ∷ (160 ∷ [])
      ∷ (1 ∷ [])
      ∷ (1 ∷ [])
      ∷ (1 ∷ [])
      ∷ (0 ∷ [])
      ∷ [];
}

abbrev before : World
before = record a_world { state = planned flat_crates a_prepared (bytes "a") 3 (bytes "block 160") }

abbrev outcome : World × Result SendError (Unit {0})
outcome =
    prove_and_save flat_crates accepting a_node some_events a_route (some a_proof)
      (bytes "facts verified") a_prepared before

outcome-proven : outcome ≡ (outcome.0, ok tt)
unfolding prove_and_save planned stwo_starknet_verifier.VirtualSend.Send.write_proof
    stwo_starknet_verifier.VirtualSend.Send.check_proof
    stwo_starknet_verifier.VirtualSend.Send.save_proven
    stwo_starknet_verifier.VirtualSend.World.save stwo_starknet_verifier.VirtualSend.felts_of
    stwo_starknet_verifier.VirtualSend.check_facts stwo_starknet_verifier.VirtualSend.message_hash
    stwo_starknet_verifier.Sends.mark_done
outcome-proven = refl

before-base_block : before.state.base_block ≡ some a_prepared.block
unfolding planned stwo_starknet_verifier.Sends.new_virtual_plan
before-base_block = refl

prove_and_save-proof_of_send_example :
    (outcome.0.saved ≡ some outcome.0.state)
    × (a : ProofAttachment) × (proof_of_send flat_crates accepting a_node gateway a_route
          a_prepared.public outcome.0.state outcome.0.proof_file
        ≡ ok a)
prove_and_save-proof_of_send_example =
    prove_and_save-proof_of_send flat_crates accepting a_node gateway some_events a_route
      (some a_proof) (bytes "facts verified") a_prepared before outcome.0 tt before-base_block
      outcome-proven
