-- ===== src/VirtualSend/Resume.antt =====
-- tools/zkmsg/core/src/virtual_send.rs: what Prepare and Prove leave behind is what Publish reads.
use stwo_starknet_verifier.Common.{
  ℕ, ◌≡◌, inl, inr, refl, sym, ap, subst, ◌∙◌, true, Option, none, some, List, ok, context,
  Option-cases, Bool-cases, arith, get_elem?, set,
}
use stwo_starknet_verifier.Common.Effects.{after, after-eq-ok, lift}
use stwo_starknet_verifier.Felts.{Felt, Text, Crates}
use stwo_starknet_verifier.Sends.{SendState, StepRecord, mark_done, new_virtual_plan}
use stwo_starknet_verifier.Gateway.{Gateway, ProofAttachment}
use stwo_starknet_verifier.Gateway.Wire.{Servers}
use stwo_starknet_verifier.VirtualSend.{
  VirtualRoute, VirtualProof, from_state, binding_of, hash_of_content, felts_of, check_facts,
  message_hash, prover_failed,
}
use stwo_starknet_verifier.VirtualSend.World.{World, Node, save}
use stwo_starknet_verifier.VirtualSend.Finish.{change_to}
use stwo_starknet_verifier.VirtualSend.Publish.{read_public, proof_of_send}
use stwo_starknet_verifier.VirtualSend.Prepare.{Events, Prepared}
use stwo_starknet_verifier.VirtualSend.Send.{
  planned, prove_and_save, check_proof, write_proof, save_proven,
}

module _ (k : Crates) (servers : Servers) (node : Node) (g : Gateway) (events : Events)
    (route : VirtualRoute) where
  from_state-planned :
      (p : Prepared) (handle : Text) (jitter : ℕ) (text : Text)
      → ((f : Felt) → k.from_hex (k.to_hex f) ≡ some f)
      → hash_of_content k p.content ≡ some p.public.content_hash
      → from_state k p.public.store (planned k p handle jitter text) p.content ≡ ok p.public
  unfolding planned new_virtual_plan from_state binding_of
  from_state-planned p handle jitter text hex hash =
      rw
        (
          hex p.public.commitment,
          hex p.public.ephemeral,
          hex p.public.root,
          hash,
          hex p.public.nullifier,
          hex p.public.ticket_root,
          hex p.public.ticket_nullifier,
        )
        refl

  -- Publish reads from the state that `send` makes of a prepared send, its content and its public
  -- tuple, where the tuple names the route's store and has the hash of the content.
  pub read_public-planned :
      (p : Prepared) (handle : Text) (jitter : ℕ) (text : Text)
      → ((f : Felt) → k.from_hex (k.to_hex f) ≡ some f)
      → ((bs : List ℕ) → k.hex_decode (k.hex_encode bs) ≡ some bs)
      → p.public.store ≡ route.store
      → hash_of_content k p.content ≡ some p.public.content_hash
      → read_public k servers node g route (planned k p handle jitter text)
        ≡ ok (p.content, p.public)
  unfolding read_public planned new_virtual_plan
  read_public-planned p handle jitter text hex bin store hash =
      let fs : from_state k route.store (planned k p handle jitter text) p.content ≡ ok p.public =
        subst (λ x. from_state k x (planned k p handle jitter text) p.content ≡ ok p.public) store
          (from_state-planned p handle jitter text hex hash) in
      rw (bin p.content, fs, read_public) refl

  check_proof-proof_of_send :
      (p : Prepared) (proof : VirtualProof) (s : SendState)
      → check_proof k servers node events route p proof ≡ ok tt
      → s.base_block ≡ some p.block
      → (a : ProofAttachment) × (a.proof ≡ proof.proof)
        × (proof_of_send k servers node g route p.public s (some proof) ≡ ok a)
  unfolding check_proof proof_of_send
  check_proof-proof_of_send p proof s e base = elim (Option-cases (felts_of k proof.proof_facts)) [
    | inl bad ↦ absurd (cc (rw (bad, check_proof) at e))
    | inr (facts, read) ↦
        let checked : check_facts facts (message_hash k p.public route.prover) p.block ≡ ok tt =
          rw (read, check_proof) at e in
        (
          record { proof = proof.proof; proof_facts = facts },
          refl,
          rw (read, base, checked, proof_of_send) refl,
        )
  ]

  write_proof-written :
      (proof : VirtualProof) (w w' : World) (u : Unit {0})
      → write_proof k servers node events route proof w ≡ (w', ok u)
      → (w'.state ≡ w.state) × (w'.proof_file ≡ some proof)
  unfolding write_proof
  write_proof-written proof w w' u e = elim (Bool-cases (node.writable w.writes)) [
    | inl t ↦
        let same = rw (t, write_proof) at e in
        (sym (ap (λ x. x.0.state) same), sym (ap (λ x. x.0.proof_file) same))
    | inr f ↦ absurd (cc (rw (f, write_proof) at e))
  ]

  save-saved :
      (w w' : World) (u : Unit {0})
      → save k servers node w ≡ (w', ok u)
      → (w'.saved ≡ some w'.state) × (w'.state ≡ w.state) × (w'.proof_file ≡ w.proof_file)
  unfolding save
  save-saved w w' u e = elim (Bool-cases (node.writable w.writes)) [
    | inl t ↦
        let same = rw (t, save) at e in
        (
          sym (ap (λ x. x.0.saved) same) ∙ ap some (ap (λ x. x.0.state) same),
          sym (ap (λ x. x.0.state) same),
          sym (ap (λ x. x.0.proof_file) same),
        )
    | inr f ↦ absurd (cc (rw (f, save) at e))
  ]

  save_as-saved :
      (state : Option SendState) (block : ℕ) (w w' : World) (u : Unit {0})
      → ((s : SendState) → state ≡ some s → s.base_block ≡ some block)
      → after (change_to state w) (λ x. save k servers node) ≡ (w', ok u)
      → (w'.saved ≡ some w'.state)
        × (w'.state.base_block ≡ some block)
        × (w'.proof_file ≡ w.proof_file)
  save_as-saved none block w w' u base e = cc
  save_as-saved (some s) block w w' u base e =
      let (saved, state, file) = save-saved (record w { state = s }) w' u e in
      (saved, ap (λ x. x.base_block) state ∙ base s refl, file)

  mark_done-base_block :
      (i : ℕ) (hash text : Option Text) (s s' : SendState)
      → mark_done i hash text s ≡ some s'
      → s'.base_block ≡ s.base_block
  unfolding mark_done
  mark_done-base_block i hash text s s' e = elim (Option-cases (get_elem? s.steps i)) [
    | inl none_there ↦ cc (rw (none_there, mark_done) at e)
    | inr (step, there) ↦
        let step' : StepRecord = record step { is_done = true; tx_hash = hash; note = text } in
        let result : record s { steps = set s.steps i step' } ≡ s' = ground arith in
        sym (ap (λ x. x.base_block) result)
  ]

  -- A proof that Prove saved is one that Publish takes: after `prove_and_save` the file of the send
  -- is its state, and the saved proof passes the checks of `publish` for the public tuple of
  -- what was prepared, where the state names the block of Prepare.
  pub prove_and_save-proof_of_send :
      (proven : Option VirtualProof) (text : Text) (p : Prepared) (w w' : World) (u : Unit {0})
      → w.state.base_block ≡ some p.block
      → prove_and_save k servers node events route proven text p w ≡ (w', ok u)
      → (w'.saved ≡ some w'.state)
        × (a : ProofAttachment) × (proof_of_send k servers node g route p.public w'.state
              w'.proof_file
            ≡ ok a)
  unfolding prove_and_save save_proven
  prove_and_save-proof_of_send proven text p w w' u base e =
      let (v, proof, e1, h1) = after-eq-ok (lift (context proven prover_failed) w) _ e in
      let (v1, ok_proof, e2, h2) =
        after-eq-ok
          (after (lift (check_proof k servers node events route p proof) v)
            (λ x. write_proof k servers node events route proof))
          (λ x. save_proven k servers node events route text) h1 in
      let (v2, checked, e3, h3) =
        after-eq-ok (lift (check_proof k servers node events route p proof) v)
          (λ x. write_proof k servers node events route proof) e2 in
      let (state1, file1) = write_proof-written proof v2 v1 ok_proof h3 in
      let base1 : v1.state.base_block ≡ some p.block =
        ap (λ x. x.base_block) state1
        ∙ (sym (ap (λ x. x.0.state.base_block) e3)
            ∙ (sym (ap (λ x. x.0.state.base_block) e1) ∙ base)) in
      let (saved, base2, file2) =
        save_as-saved (mark_done 1 none (some text) v1.state) p.block v1 w' u
          (λ s done. mark_done-base_block 1 none (some text) v1.state s done ∙ base1) h2 in
      let (a, same, good) = check_proof-proof_of_send p proof w'.state (ap (λ x. x.1) e3) base2 in
      (
        saved,
        a,
        subst (λ f. proof_of_send k servers node g route p.public w'.state f ≡ ok a)
            (sym (file2 ∙ file1)) good,
      )
