-- ===== src/VirtualSend/Invariant.antt =====
-- tools/zkmsg/core/src/virtual_send.rs: what holds of the log and the file between two runs, and
-- that the ends of a send keep it.
use stwo_starknet_verifier.Common.{
  ℕ, ◌≡◌, ◌⊎◌, inl, inr, refl, sym, subst, ◌∙◌, Bool, true, false, Option, none, some, Result, ok,
  err, Bool-cases,
}
use stwo_starknet_verifier.Common.Effects.{fail, ◌>>◌, after, after-keeps}
use stwo_starknet_verifier.Felts.{Felt, Text, Crates, bytes}
use stwo_starknet_verifier.Tickets.{Wallet, mark_spent, release}
use stwo_starknet_verifier.Sends.{SendState, mark_done, publish}
use stwo_starknet_verifier.Gateway.{Gateway, TxStatus, rejected, hash_mismatch, reverted}
use stwo_starknet_verifier.Gateway.Wire.{
  Servers, Failure, typed, await_acceptance, failed_request, no_transaction_hash, dropped,
  not_accepted, out_of_rounds,
}
use stwo_starknet_verifier.VirtualSend.{PublicV4, SendError, wire}
use stwo_starknet_verifier.VirtualSend.World.{
  World, Node, retire_file, spend_in, release_in, accepted, completed, step_completed, shown, note,
  save, retire, keep_wallet, spend_ticket, attempt,
}
use stwo_starknet_verifier.VirtualSend.Finish.{
  publish_index, complete_as, complete, finish, await_and_finish, publish_poll, publish_timeout,
}
use stwo_starknet_verifier.VirtualSend.Log.{last_posted, IsGone, MayFollow, submitted, GoodLog}
use stwo_starknet_verifier.VirtualSend.Quiet.{
  same, Grows-last_posted, Grows-IsGone, Grows-MayFollow, Grows-GoodLog,
}
use stwo_starknet_verifier.VirtualSend.Reads.{
  read_then, Reads, Reads-refl, after-Reads, note-Reads, attempt-Reads,
}
use stwo_starknet_verifier.VirtualSend.Submitted.{mark_done-submitted}

module _ (k : Crates) where
  -- Unless the last posted transaction is gone or the send was retired, its hash is in the file.
  unfoldable pub Between : World → Type 0
  Between w =
      (h : Felt)
      → last_posted w.log ≡ some h
      → (IsGone h w.log ⊎ (w.saved ≡ none))
        ⊎ ((s : SendState) × (w.saved ≡ some s) × (submitted s ≡ some (k.to_hex h)))

  pub record Inv (w : World) : Type 0 where
    pub log_good : GoodLog k w.log
    pub between : Between w

  pub Reads-Inv : (w w' : World) → Reads w w' → Inv w → Inv w'
  unfolding Between
  Reads-Inv w w' r i = record {
    log_good = Grows-GoodLog k r.log_grows i.log_good;
    between = λ h last. elim (i.between h (sym (Grows-last_posted r.log_grows) ∙ last)) [
      | inl (inl gone) ↦ inl (inl (Grows-IsGone h r.log_grows gone))
      | inl (inr none_saved) ↦ inl (inr (r.saved_same ∙ none_saved))
      | inr (s, saved, at) ↦ inr (s, r.saved_same ∙ saved, at)
    ];
  }

module _ (k : Crates) (servers : Servers) (node : Node) (g : Gateway) where
  retire_file-Inv :
      (file : Option SendState) (w : World) → Inv k w → Inv k (retire_file k servers node file w).0
  unfolding retire_file Between
  retire_file-Inv none w i = record { log_good = i.log_good; between = λ h last. i.between h last }
  retire_file-Inv (some s) w i = elim (Bool-cases (node.writable w.writes)) [
    | inl t ↦
        rw (t, retire_file) (record { log_good = i.log_good; between = λ h last. inl (inr refl) })
    | inr f ↦
        rw (f, retire_file) (record { log_good = i.log_good; between = λ h last. i.between h last })
  ]

  pub retire-Inv : (w : World) → Inv k w → Inv k (retire k servers node w).0
  unfolding retire
  retire-Inv w i = retire_file-Inv w.saved w i

  keep_wallet-Reads :
      (changed : Wallet × Bool) (w : World) → Reads w (keep_wallet k servers node changed w)
  unfolding keep_wallet
  keep_wallet-Reads (wallet, false) w = Reads-refl w
  keep_wallet-Reads (wallet, true) w = elim (Bool-cases (node.writable w.writes)) [
    | inl t ↦ rw t record { state_same = refl; saved_same = refl; log_grows = same }
    | inr f ↦ rw f record { state_same = refl; saved_same = refl; log_grows = same }
  ]

  spend_in-Reads :
      (p : PublicV4) (tx : Option Text) (wallet : Option Wallet) (w : World)
      → Reads w (spend_in k servers node p tx wallet w).0
  unfolding spend_in
  spend_in-Reads p tx none w = Reads-refl w
  spend_in-Reads p tx (some wallet) w =
      keep_wallet-Reads (mark_spent k p.store p.ticket_nullifier tx wallet) w

  pub spend_ticket-Reads :
      (p : PublicV4) (tx : Option Text) (w : World) → Reads w (spend_ticket k servers node p tx w).0
  unfolding spend_ticket
  spend_ticket-Reads p tx w = spend_in-Reads p tx w.wallet w

  pub release_in-Reads :
      (p : PublicV4) (wallet : Option Wallet) (w : World)
      → Reads w (release_in k servers node p wallet w).0
  unfolding release_in
  release_in-Reads p none w = Reads-refl w
  release_in-Reads p (some wallet) w =
      keep_wallet-Reads (release k p.store p.ticket_nullifier wallet) w

  -- A send that is over: its ticket is spent, and its file retired.
  pub spent_and_retired-Inv :
      (A : Type 0) (p : PublicV4) (tx : Option Text) (e : SendError) (w : World)
      → Inv k w
      → Inv k ((spend_ticket k servers node p tx >> retire k servers node >> fail {A = A} e) w).0
  spent_and_retired-Inv A p tx e w i =
      after-keeps (Inv k) (after (spend_ticket k servers node p tx w) (λ u. retire k servers node))
        (λ u. fail e)
        (after-keeps (Inv k) (spend_ticket k servers node p tx w) (λ u. retire k servers node)
          (Reads-Inv k w (spend_ticket k servers node p tx w).0 (spend_ticket-Reads p tx w) i)
          (λ u. retire-Inv))
        (λ u mid i'. i')

  -- The state with the send done is saved under the hash that it was last posted with.
  saved-Inv :
      (h : Felt) (s : SendState) (w : World)
      → Inv k w
      → MayFollow h w.log
      → submitted s ≡ some (k.to_hex h)
      → Inv k (save k servers node (record w { state = s })).0
  unfolding save Between MayFollow
  saved-Inv h s w i may done = elim (Bool-cases (node.writable w.writes)) [
    | inl t ↦
        rw (t, save)
          (record {
            log_good = i.log_good;
            between = λ h' last. elim (may h' last) [
              | inl mine ↦ inr (s, refl, rw mine done)
              | inr gone ↦ inl (inl gone)
            ];
          })
    | inr f ↦
        rw (f, save) (record { log_good = i.log_good; between = λ h' last. i.between h' last })
  ]

  complete_as-Inv :
      (h : Felt) (state : Option SendState) (w : World)
      → Inv k w
      → MayFollow h w.log
      → ((s : SendState) → state ≡ some s → submitted s ≡ some (k.to_hex h))
      → Inv k (complete_as k servers node g h state w).0
  unfolding complete_as
  complete_as-Inv h none w i may done = i
  complete_as-Inv h (some s) w i may done =
      let v = record w { state = s } in
      let reported = shown (step_completed publish (some (k.to_hex h))) in
      after-keeps (Inv k) (after (save k servers node v) (λ u. note reported))
        (λ u. note (shown completed))
        (after-keeps (Inv k) (save k servers node v) (λ u. note reported)
          (saved-Inv h s w i may (done s refl))
          (λ u mid i'. Reads-Inv k mid (note reported mid).0 (note-Reads reported mid refl) i'))
        (λ u mid i'.
          Reads-Inv k mid (note (shown completed) mid).0 (note-Reads (shown completed) mid refl) i')

  complete-Inv :
      (index : ℕ) (h : Felt) (w : World)
      → Inv k w
      → MayFollow h w.log
      → publish_index w.state.steps ≡ some index
      → Inv k (complete k servers node g index h w).0
  unfolding complete
  complete-Inv index h w i may at =
      let text = some (bytes "message published by the pool") in
      complete_as-Inv h (mark_done index (some (k.to_hex h)) text w.state) w i may
        (λ s done. mark_done-submitted index (k.to_hex h) text w.state s at done)

  pub finish-Inv :
      (index : ℕ) (p : PublicV4) (h : Felt) (result : Result Failure TxStatus) (w : World)
      → Inv k w
      → MayFollow h w.log
      → publish_index w.state.steps ≡ some index
      → Inv k (finish k servers node g index p h result w).0
  unfolding finish
  finish-Inv index p h (ok s) w i may at =
      let spent =
        after (note (accepted h) w) (λ u. spend_ticket k servers node p (some (k.to_hex h))) in
      let read : Reads w spent.0 =
        after-Reads w (note (accepted h) w) (λ u. spend_ticket k servers node p (some (k.to_hex h)))
          (note-Reads (accepted h) w refl)
          (λ u mid. spend_ticket-Reads p (some (k.to_hex h)) mid) in
      read_then (Inv k) w spent (λ u. complete k servers node g index h) read
        (λ mid u e r.
          complete-Inv index h mid (Reads-Inv k w mid r i) (Grows-MayFollow h r.log_grows may)
            (subst (λ st. publish_index st.steps ≡ some index) (sym r.state_same) at))
        (λ mid r. Reads-Inv k w mid r i)
  finish-Inv index p h (err (typed (reverted tx reason))) w i may at =
      spent_and_retired-Inv (Unit {0}) p (some (k.to_hex h)) (wire (typed (reverted tx reason))) w i
  finish-Inv index p h (err (typed (rejected code message))) w i may at = i
  finish-Inv index p h (err (typed (hash_mismatch a b))) w i may at = i
  finish-Inv index p h (err failed_request) w i may at = i
  finish-Inv index p h (err no_transaction_hash) w i may at = i
  finish-Inv index p h (err dropped) w i may at = i
  finish-Inv index p h (err not_accepted) w i may at = i
  finish-Inv index p h (err out_of_rounds) w i may at = i

  pub await_and_finish-Inv :
      (index : ℕ) (p : PublicV4) (h : Felt) (w : World)
      → Inv k w
      → MayFollow h w.log
      → publish_index w.state.steps ≡ some index
      → Inv k (await_and_finish k servers node g index p h w).0
  unfolding await_and_finish
  await_and_finish-Inv index p h w i may at =
      let wait = attempt (await_acceptance k servers g h publish_poll publish_timeout) w in
      finish-Inv index p h _ wait.0
        (Reads-Inv k w wait.0
          (attempt-Reads (await_acceptance k servers g h publish_poll publish_timeout) w) i)
        may at
