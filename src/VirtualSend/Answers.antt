-- ===== src/VirtualSend/Answers.antt =====
-- tools/zkmsg/core/src/virtual_send.rs: what `publish` does after a POST keeps the invariant.
use stwo_starknet_verifier.Common.{
  ℕ, zero, suc, ◌≡◌, inl, inr, refl, sym, ap, subst, ◌∙◌, Bool, true, false, not, ◌&&◌, ◌==◌, none,
  some, List, ◌∷◌, Result, ok, err, Bool-cases, arith,
}
use stwo_starknet_verifier.Common.Effects.{after, after-keeps, ◌>>◌, fail}
use stwo_starknet_verifier.Felts.{Felt, Crates, bytes}
use stwo_starknet_verifier.Sends.{publish}
use stwo_starknet_verifier.Gateway.{
  Gateway, TxStatus, is_dropped, GatewayError, rejected, hash_mismatch, reverted, SignedInvoke,
  too_recent, refused_with, expected_nonce,
}
use stwo_starknet_verifier.Gateway.Wire.{
  Servers, Failure, typed, failed_request, no_transaction_hash, dropped, not_accepted,
  out_of_rounds, sleep,
}
use stwo_starknet_verifier.VirtualSend.{
  VirtualRoute, PublicV4, SendError, ticket_spent, proof_refused, final_refusals,
  is_nonce_rejection, next_nonce,
}
use stwo_starknet_verifier.VirtualSend.World.{
  World, Node, Act, Event, refused, freed, tx_submitted, shown, note, attempt, retire,
  release_ticket, release_in, ask_status, nonce_of,
}
use stwo_starknet_verifier.VirtualSend.Finish.{recorded, too_recent_wait, is_gone}
use stwo_starknet_verifier.VirtualSend.Publish.{
  post_recorded, retry_or_finish, try_next, is_final, on_rejected, on_posted, attempts,
}
use stwo_starknet_verifier.VirtualSend.Log.{
  last_posted, since_post, feeder_drops, refuses_tx, IsGone, MayFollow, CanFree, GoodEvent, GoodLog,
}
use stwo_starknet_verifier.VirtualSend.Quiet.{Grows-last_posted, Grows-MayFollow}
use stwo_starknet_verifier.VirtualSend.Reads.{
  Reads, read_then, note-Reads, attempt-Reads, ask_status-Reads, nonce_of-Reads,
}
use stwo_starknet_verifier.VirtualSend.Invariant.{
  Inv, Between, Reads-Inv, retire-Inv, release_in-Reads, spent_and_retired-Inv,
  await_and_finish-Inv,
}
use stwo_starknet_verifier.VirtualSend.Gone.{
  ==_refl, ask_status-told, is_gone-Reads, is_gone-IsGone,
}
use stwo_starknet_verifier.VirtualSend.Attempts.{
  Sending, Reads-Sending, recorded-IsRecorded, post_as-then,
}

module _ (k : Crates) (servers : Servers) (node : Node) (g : Gateway) (route : VirtualRoute) where
  -- What the next attempt keeps, from any world where its transaction may go out.
  unfoldable pub GoesOn : PublicV4 → ℕ → (Felt → SignedInvoke) → (Felt → Act (Unit {0})) → Type 0
  GoesOn p index tx_of again =
      (n : Felt) (v : World)
      → Sending k p index v
      → MayFollow (tx_of n).tx_hash v.log
      → Inv k (again n v).0

  -- The transaction that was posted last may go out again, and where it is gone any may.
  newest-MayFollow : (h : Felt) (es : List Event) → last_posted es ≡ some h → MayFollow h es
  unfolding MayFollow
  newest-MayFollow h es newest h' last = inl (ground arith)

  gone-MayFollow :
      (h h' : Felt) (es : List Event) → last_posted es ≡ some h → IsGone h es → MayFollow h' es
  unfolding MayFollow
  gone-MayFollow h h' es newest gone h'' last =
      let same : h ≡ h'' = ground arith in inr (subst (λ x. IsGone x es) same gone)

  retry_or_finish-Inv :
      (p : PublicV4) (index : ℕ) (tx_of : Felt → SignedInvoke) (again : Felt → Act (Unit {0}))
      (tx : SignedInvoke) (e : GatewayError) (gone : Bool) (w : World)
      → GoesOn p index tx_of again
      → Sending k p index w
      → last_posted w.log ≡ some tx.tx_hash
      → (gone ≡ true → IsGone tx.tx_hash w.log)
      → Inv k (retry_or_finish k servers node g route index p again tx e gone w).0
  unfolding retry_or_finish GoesOn
  retry_or_finish-Inv p index tx_of again tx e true w on s newest gone =
      read_then (Inv k) w (nonce_of k servers node route.store none w)
        (λ chain. again (next_nonce tx.invoke.nonce (expected_nonce e) chain))
        (nonce_of-Reads k servers node route.store none w)
        (λ mid chain e' r.
          let n = next_nonce tx.invoke.nonce (expected_nonce e) chain in
          on n mid (Reads-Sending k p index w mid r s) (
            Grows-MayFollow (tx_of n).tx_hash r.log_grows
              (gone-MayFollow tx.tx_hash (tx_of n).tx_hash w.log newest (gone refl))))
        (λ mid r. Reads-Inv k w mid r s.inv)
  retry_or_finish-Inv p index tx_of again tx e false w on s newest gone =
      await_and_finish-Inv k servers node g index p tx.tx_hash w s.inv
        (newest-MayFollow tx.tx_hash w.log newest) s.at

  try_next-Inv :
      (p : PublicV4) (index : ℕ) (tx_of : Felt → SignedInvoke) (again : Felt → Act (Unit {0}))
      (tx : SignedInvoke) (e : GatewayError) (s : TxStatus) (w : World)
      → GoesOn p index tx_of again
      → Sending k p index w
      → last_posted w.log ≡ some tx.tx_hash
      → (is_dropped s ≡ true → since_post (feeder_drops tx.tx_hash) w.log ≡ true)
      → Inv k (try_next k servers node g route index p again tx e s w).0
  unfolding try_next
  try_next-Inv p index tx_of again tx e s w on sending newest told =
      read_then (Inv k) w (is_gone k servers node g tx.tx_hash s w)
        (retry_or_finish k servers node g route index p again tx e)
        (is_gone-Reads k servers node g tx.tx_hash s w)
        (λ mid gone e' r.
          retry_or_finish-Inv p index tx_of again tx e gone mid on
            (Reads-Sending k p index w mid r sending) (Grows-last_posted r.log_grows ∙ newest)
            (λ yes.
              is_gone-IsGone k servers node g tx.tx_hash s w mid told
                (e' ∙ ap (λ b. (mid, ok b)) yes)))
        (λ mid r. Reads-Inv k w mid r sending.inv)

  -- The ticket is handed back only where the log allows it.
  pub released-Inv :
      (p : PublicV4) (e : SendError) (w : World)
      → Inv k w
      → CanFree k w.log
      → Inv k
          ((release_ticket k servers node p >> retire k servers node >> fail {A = Unit {0}} e) w).0
  unfolding release_ticket note Between GoodLog GoodEvent last_posted IsGone since_post
  released-Inv p e w i free =
      let v = record w { log = freed ∷ w.log } in
      let freed_inv : Inv k v = record {
        log_good = (free, i.log_good);
        between = λ h last. i.between h last;
      } in
      after-keeps (Inv k) (after (release_ticket k servers node p w) (λ u. retire k servers node))
        (λ u. fail e)
        (after-keeps (Inv k) (release_ticket k servers node p w) (λ u. retire k servers node)
          (Reads-Inv k v (release_in k servers node p v.wallet v).0
            (release_in-Reads k servers node g p v.wallet v) freed_inv)
          (λ u. retire-Inv k servers node g))
        (λ u mid i'. i')

  on_rejected-Inv :
      (final_attempt : Bool) (p : PublicV4) (index : ℕ) (tx_of : Felt → SignedInvoke)
      (again : Felt → Act (Unit {0})) (tx : SignedInvoke) (e : GatewayError) (w : World)
      → GoesOn p index tx_of again
      → tx_of tx.invoke.nonce ≡ tx
      → Sending k p index w
      → last_posted w.log ≡ some tx.tx_hash
      → since_post (refuses_tx tx.tx_hash) w.log ≡ true
      → Inv k (on_rejected k servers node g route final_attempt index p again tx e w).0
  unfolding on_rejected CanFree GoesOn
  on_rejected-Inv final_attempt p index tx_of again tx e w on same_tx sending newest refused_ =
      elim (Bool-cases (not final_attempt && too_recent e)) [
        | inl t ↦
            let slept = attempt (sleep too_recent_wait) w in
            rw t (
              on tx.invoke.nonce slept.0
                (Reads-Sending k p index w slept.0 (attempt-Reads (sleep too_recent_wait) w)
                  sending)
                (subst (λ x. MayFollow x.tx_hash w.log) (sym same_tx)
                  (newest-MayFollow tx.tx_hash w.log newest)))
        | inr f ↦ elim (Bool-cases (refused_with k e (bytes "ticket spent"))) [
          | inl t ↦
              rw (f, t)
                (spent_and_retired-Inv k servers node g (Unit {0}) p none ticket_spent w
                  sending.inv)
          | inr f1 ↦ elim (Bool-cases (is_final k servers node g route e (final_refusals k))) [
            | inl t ↦
                rw (f, f1, t)
                  (released-Inv p proof_refused w sending.inv (λ h newest'.
                    let same : tx.tx_hash ≡ h = ground arith in
                    inr (subst (λ x. since_post (refuses_tx x) w.log ≡ true) same refused_)))
            | inr f2 ↦ elim (Bool-cases (not final_attempt && is_nonce_rejection e)) [
              | inl t ↦
                  rw (f, f1, f2, t)
                    (read_then (Inv k) w (ask_status k servers node g tx.tx_hash w)
                      (try_next k servers node g route index p again tx e)
                      (ask_status-Reads k servers node g tx.tx_hash w)
                      (λ mid s asked r.
                        try_next-Inv p index tx_of again tx e s mid on
                          (Reads-Sending k p index w mid r sending)
                          (Grows-last_posted r.log_grows ∙ newest)
                          (ask_status-told k servers node g tx.tx_hash w mid s asked))
                      (λ mid r. Reads-Inv k w mid r sending.inv))
              | inr f3 ↦ rw (f, f1, f2, f3) sending.inv
            ]
          ]
        ]
      ]

  pub on_posted-Inv :
      (final_attempt : Bool) (p : PublicV4) (index : ℕ) (tx_of : Felt → SignedInvoke)
      (again : Felt → Act (Unit {0})) (tx : SignedInvoke) (result : Result Failure (Unit {0}))
      (w : World)
      → GoesOn p index tx_of again
      → tx_of tx.invoke.nonce ≡ tx
      → Sending k p index w
      → last_posted w.log ≡ some tx.tx_hash
      → Inv k (on_posted k servers node g route final_attempt index p again tx result w).0
  unfolding on_posted note since_post
  on_posted-Inv final_attempt p index tx_of again tx (ok u) w on same_tx s newest =
      let e = shown (tx_submitted publish (k.to_hex tx.tx_hash)) in
      await_and_finish-Inv k servers node g index p tx.tx_hash (note e w).0
        (Reads-Inv k w (note e w).0 (note-Reads e w refl) s.inv)
        (Grows-MayFollow tx.tx_hash (note-Reads e w refl).log_grows
          (newest-MayFollow tx.tx_hash w.log newest))
        s.at
  on_posted-Inv final_attempt p index tx_of again tx (err (typed (rejected code message))) w on
        same_tx s newest =
      let r : Reads w (note (refused tx) w).0 = note-Reads (refused tx) w refl in
      on_rejected-Inv final_attempt p index tx_of again tx (rejected code message)
        (note (refused tx) w).0 on same_tx (Reads-Sending k p index w (note (refused tx) w).0 r s)
        (Grows-last_posted r.log_grows ∙ newest) (rw (==_refl tx.tx_hash) refl)
  on_posted-Inv final_attempt p index tx_of again tx (err (typed (hash_mismatch a b))) w on same_tx
        s newest =
      s.inv
  on_posted-Inv final_attempt p index tx_of again tx (err (typed (reverted a b))) w on same_tx s
        newest =
      s.inv
  on_posted-Inv final_attempt p index tx_of again tx (err failed_request) w on same_tx s newest =
      s.inv
  on_posted-Inv final_attempt p index tx_of again tx (err no_transaction_hash) w on same_tx s
        newest =
      s.inv
  on_posted-Inv final_attempt p index tx_of again tx (err dropped) w on same_tx s newest = s.inv
  on_posted-Inv final_attempt p index tx_of again tx (err not_accepted) w on same_tx s newest =
      s.inv
  on_posted-Inv final_attempt p index tx_of again tx (err out_of_rounds) w on same_tx s newest =
      s.inv

  -- Every attempt with a transaction that may go out keeps the invariant.
  pub attempts-Inv :
      (left index : ℕ) (p : PublicV4) (tx_of : Felt → SignedInvoke)
      → ((n : Felt) → (tx_of n).invoke.nonce ≡ n)
      → GoesOn p index tx_of (attempts k servers node g route left index p tx_of)
  unfolding attempts GoesOn post_recorded
  attempts-Inv zero index p tx_of nonces n w s may = s.inv
  attempts-Inv (suc left) index p tx_of nonces n w s may =
      let tx = tx_of n in
      post_as-then k servers node g route p index tx
        (recorded index (k.to_hex tx.tx_hash) (k.to_hex tx.invoke.nonce) tx.invoke.bounds w.state)
        (on_posted k servers node g route (left == 0) index p
          (attempts k servers node g route left index p tx_of) tx)
        w s may
        (λ s' done.
          recorded-IsRecorded k index (k.to_hex tx.tx_hash) (k.to_hex tx.invoke.nonce)
            tx.invoke.bounds w.state s' s.at done)
        (λ result v there newest.
          on_posted-Inv (left == 0) p index tx_of
            (attempts k servers node g route left index p tx_of) tx result v
            (attempts-Inv left index p tx_of nonces) (ap tx_of (nonces n)) there newest)
