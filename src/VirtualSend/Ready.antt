-- ===== src/VirtualSend/Ready.antt =====
-- tools/zkmsg/core/src/virtual_send.rs: `publish`, from the schedule on, keeps the invariant.
use stwo_starknet_verifier.Common.{
  ℕ, ◌≡◌, inl, inr, refl, sym, ap, subst, ◌∙◌, ◌==◌, none, some, List, [], ◌∷◌, Result, ok, context,
  Bool-cases, Option-cases, arith,
}
use stwo_starknet_verifier.Common.Effects.{lift, after-eq-ok}
use stwo_starknet_verifier.Felts.{Felt, Crates, bytes}
use stwo_starknet_verifier.Sends.{SendState}
use stwo_starknet_verifier.Gateway.{Gateway, SignedInvoke, unsigned_invoke}
use stwo_starknet_verifier.Gateway.Wire.{Servers}
use stwo_starknet_verifier.VirtualSend.{
  stale_root, send_message_calldata_v4, from_felts, policy_bounds, VirtualRoute, PublicV4,
  SendError,
}
use stwo_starknet_verifier.VirtualSend.World.{
  root_said, store_felt, or_bad, store_call, World, Node, note, ask, nonce_of,
}
use stwo_starknet_verifier.VirtualSend.Finish.{publish_attempts, wait_for_schedule, publish_index}
use stwo_starknet_verifier.VirtualSend.Publish.{
  attempt_tx, call_of, proof_of_send, publish_inputs, inputs_of, prepared_tx, publish_ready,
  publish_known, publish_answered, publish_on_time, publish_anew, attempts,
}
use stwo_starknet_verifier.VirtualSend.Log.{
  last_posted, since_post, IsGone, last_root, HeadReached, earlier, MayFollow, CanFree, GoodEvent,
  GoodLog,
}
use stwo_starknet_verifier.VirtualSend.Quiet.{Grows-IsGone, Grows-last_posted, Grows-HeadReached}
use stwo_starknet_verifier.VirtualSend.Reads.{
  store_felt-Reads, after-Reads, store_call-Reads, Reads, Reads-refl, Reads-trans, read_then,
  ask-Reads, nonce_of-Reads,
}
use stwo_starknet_verifier.VirtualSend.Invariant.{Inv, Between, Reads-Inv}
use stwo_starknet_verifier.VirtualSend.Attempts.{Sending, Reads-Sending}
use stwo_starknet_verifier.VirtualSend.{bad_felt}
use stwo_starknet_verifier.VirtualSend.Schedule.{wait_for_schedule-Reads, wait_for_schedule-reached}
use stwo_starknet_verifier.VirtualSend.Settled.{Clear}
use stwo_starknet_verifier.VirtualSend.Answers.{GoesOn, released-Inv, attempts-Inv}
use stwo_starknet_verifier.VirtualSend.Attempts.{Sending, Reads-Sending}

ok-first :
    {A B : Type 0} (a a' : A) (b b' : B) (v w : World)
    → ◌≡◌ {A = World × Result SendError (A × B)} (v, ok (a, b)) (w, ok (a', b'))
    → a ≡ a'
ok-first a a' b b' v w e = cc

module _ (k : Crates) (servers : Servers) (node : Node) (g : Gateway) (route : VirtualRoute) where
  publish_inputs-Reads : (w : World) → Reads w (publish_inputs k servers node g route w).0
  unfolding publish_inputs
  publish_inputs-Reads w =
      after-Reads w (store_call k servers node (bytes "fee_policy") [] none w) _
        (store_call-Reads k servers node (bytes "fee_policy") [] none w)
        (λ felts v. after-Reads v (lift (from_felts k felts) v) _ (Reads-refl v) (λ policy v1.
          after-Reads v1 (nonce_of k servers node route.store none v1) _
            (nonce_of-Reads k servers node route.store none v1)
            (λ nonce v2.
              after-Reads v2 (ask k servers node node.gas_prices v2) _
                (ask-Reads k servers node node.gas_prices v2)
                (λ reply v3. after-Reads v3 (lift (or_bad reply) v3) _ (Reads-refl v3) (λ prices v4.
                  after-Reads v4 (lift (policy_bounds policy prices) v4) _ (Reads-refl v4)
                    (λ bounds v5. Reads-refl v5))))))

  inputs_of-Reads : (s : SendState) (w : World) → Reads w (inputs_of k servers node g route s w).0
  unfolding inputs_of
  inputs_of-Reads s w = elim (Option-cases s.publish_nonce) [
    | inl e ↦ simp (e, inputs_of) (publish_inputs-Reads w)
    | inr (text, e) ↦ elim (Option-cases s.publish_bounds) [
      | inl e' ↦ simp (e, e', inputs_of) (publish_inputs-Reads w)
      | inr (bounds, e') ↦
          simp (e, e', inputs_of)
            (after-Reads w (lift (context (k.from_hex text) bad_felt) w) _ (Reads-refl w)
              (λ nonce v. Reads-refl v))
    ]
  ]

  prepared_tx-Reads :
      (send_selector : Felt) (p : PublicV4) (content : List ℕ) (w : World)
      → Reads w (prepared_tx k servers node g route send_selector p content w).0
  unfolding prepared_tx
  prepared_tx-Reads send_selector p content w =
      after-Reads w (lift (proof_of_send k servers node g route p w.state w.proof_file) w) _
        (Reads-refl w)
        (λ attachment v.
          after-Reads v (lift (send_message_calldata_v4 k p content) v) _ (Reads-refl v)
            (λ calldata v1.
              after-Reads v1 (inputs_of k servers node g route w.state v1) _
                (inputs_of-Reads w.state v1) (λ inputs v2. Reads-refl v2)))

  -- The transactions that are made ready differ by their nonce.
  prepared_tx-nonce :
      (send_selector : Felt) (p : PublicV4) (content : List ℕ) (w mid : World)
      (tx_of : Felt → SignedInvoke) (nonce : Felt)
      → prepared_tx k servers node g route send_selector p content w ≡ (mid, ok (tx_of, nonce))
      → (n : Felt) → (tx_of n).invoke.nonce ≡ n
  unfolding prepared_tx unsigned_invoke
  prepared_tx-nonce send_selector p content w mid tx_of nonce e n =
      let (v, attachment, e1, e') =
        after-eq-ok (lift (proof_of_send k servers node g route p w.state w.proof_file) w) _ e in
      let (v1, calldata, e2, e3) =
        after-eq-ok (lift (send_message_calldata_v4 k p content) v) _ e' in
      let (v2, inputs, e4, e5) = after-eq-ok (inputs_of k servers node g route w.state v1) _ e3 in
      subst (λ f. (f n).invoke.nonce ≡ n)
        (ok-first
          (attempt_tx k servers node g route (call_of k servers node g route send_selector calldata)
            attachment inputs.1)
          tx_of inputs.0 nonce v2 mid e5)
        refl

  publish_ready-Inv :
      (send_selector : Felt) (p : PublicV4) (index : ℕ) (content : List ℕ) (w : World)
      → Sending k p index w
      → Clear w
      → Inv k (publish_ready k servers node g route send_selector index p content w).0
  unfolding publish_ready GoesOn Clear MayFollow
  publish_ready-Inv send_selector p index content w s clear =
      read_then (Inv k) w (prepared_tx k servers node g route send_selector p content w)
        (λ x. attempts k servers node g route publish_attempts index p x.0 x.1)
        (prepared_tx-Reads send_selector p content w)
        (λ mid x e r.
          attempts-Inv k servers node g route publish_attempts index p x.0
            (prepared_tx-nonce send_selector p content w mid x.0 x.1 e) x.1 mid
            (Reads-Sending k p index w mid r s)
            (λ h last.
              inr (
                Grows-IsGone h r.log_grows (clear h (sym (Grows-last_posted r.log_grows) ∙ last)))))
        (λ mid r. Reads-Inv k w mid r s.inv)

  publish_known-Inv :
      (send_selector : Felt) (p : PublicV4) (index : ℕ) (content : List ℕ) (known : Felt)
      (w : World)
      → (known ≡ 1 → Sending k p index w)
      → Inv k w
      → Clear w
      → Inv k (publish_known k servers node g route send_selector index p content known w).0
  unfolding publish_known Clear CanFree
  publish_known-Inv send_selector p index content known w s i clear =
      elim (Bool-cases (known == 1)) [
        | inl t ↦ rw t (publish_ready-Inv send_selector p index content w (s (ground arith)) clear)
        | inr f ↦
            rw f
              (released-Inv k servers node g route p stale_root w i (λ h last. inl (clear h last)))
      ]

  -- The answer to `is_known_root` in the log.
  publish_answered-Inv :
      (send_selector : Felt) (p : PublicV4) (index : ℕ) (content : List ℕ) (known : Felt)
      (w : World)
      → Inv k w
      → publish_index w.state.steps ≡ some index
      → k.from_hex w.state.expected_merkle_root ≡ some p.root
      → ((target : ℕ) → w.state.publish_after_block ≡ some target → HeadReached target w.log)
      → Clear w
      → Inv k (publish_answered k servers node g route send_selector index p content known w).0
  unfolding publish_answered note Between GoodLog GoodEvent last_posted last_root IsGone since_post
      Clear
  publish_answered-Inv send_selector p index content known w i at root time clear =
      let v : World = record w { log = root_said p.root known ∷ w.log } in
      let v_inv : Inv k v = record {
        log_good = (tt, i.log_good);
        between = λ h last. i.between h last;
      } in
      publish_known-Inv send_selector p index content known v
        (λ yes. record {
          inv = v_inv;
          at = at;
          root = root;
          answer = ap (λ x. some (p.root, x)) yes;
          on_time = λ target e. earlier (time target e);
        })
        v_inv (λ h last. clear h last)

  pub publish_anew-Inv :
      (send_selector : Felt) (rounds : ℕ) (p : PublicV4) (index : ℕ) (content : List ℕ) (w : World)
      → Inv k w
      → publish_index w.state.steps ≡ some index
      → k.from_hex w.state.expected_merkle_root ≡ some p.root
      → Clear w
      → Inv k (publish_anew k servers node g route send_selector rounds index p content w).0
  unfolding publish_anew publish_on_time Clear
  publish_anew-Inv send_selector rounds p index content w i at root clear =
      read_then (Inv k) w (wait_for_schedule k servers node g rounds w.state.publish_after_block w)
        (λ u. publish_on_time k servers node g route send_selector index p content)
        (wait_for_schedule-Reads k servers node g rounds w.state.publish_after_block w)
        (λ mid u e r.
          read_then (Inv k) w
            (store_felt k servers node (bytes "is_known_root") (p.root ∷ []) none mid)
            (publish_answered k servers node g route send_selector index p content)
            (Reads-trans w mid _ r
              (store_felt-Reads k servers node (bytes "is_known_root") (p.root ∷ []) none mid))
            (λ v known asked r'.
              let reached : Reads mid v =
                subst (Reads mid) (ap (λ x. x.0) asked) (
                  store_felt-Reads k servers node (bytes "is_known_root") (p.root ∷ []) none mid) in
              publish_answered-Inv send_selector p index content known v (Reads-Inv k w v r' i)
                (subst (λ st. publish_index st.steps ≡ some index) (sym r'.state_same) at)
                (subst (λ st. k.from_hex st.expected_merkle_root ≡ some p.root) (sym r'.state_same)
                  root)
                (λ target e'. Grows-HeadReached target reached.log_grows (
                  wait_for_schedule-reached k servers node g rounds w.state.publish_after_block w
                    mid target e
                    (subst (λ st. st.publish_after_block ≡ some target) r'.state_same e')))
                (λ h last.
                  Grows-IsGone h r'.log_grows
                    (clear h (sym (Grows-last_posted r'.log_grows) ∙ last))))
            (λ v r'. Reads-Inv k w v r' i))
        (λ mid r. Reads-Inv k w mid r i)
