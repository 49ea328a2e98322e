-- ===== src/VirtualSend/Gone.antt =====
-- tools/zkmsg/core/src/virtual_send.rs: a transaction counts as gone only where the feeder dropped
-- it and the node does not know it.
use stwo_starknet_verifier.Common.{
  ℕ, ◌≡◌, inl, inr, refl, ap, subst, ◌∙◌, true, ◌==◌, Option, ◌∷◌, Result, ok, err, Bool-cases,
  arith,
}
use stwo_starknet_verifier.Felts.{Felt, Text, Crates}
use stwo_starknet_verifier.Gateway.{Gateway, TxStatus, is_dropped}
use stwo_starknet_verifier.Gateway.Wire.{Servers, Failure, status}
use stwo_starknet_verifier.VirtualSend.World.{
  World, Node, feeder_said, node_said, note, attempt, ask, ask_status, note_status,
  rpc_agrees_dropped, NodeReply, note_dropped, says_dropped,
}
use stwo_starknet_verifier.VirtualSend.Finish.{is_gone}
use stwo_starknet_verifier.VirtualSend.Log.{since_post, feeder_drops, node_drops, IsGone}
use stwo_starknet_verifier.VirtualSend.Quiet.{Grows-since_post}
use stwo_starknet_verifier.VirtualSend.Reads.{Reads, Reads-refl, rpc_agrees_dropped-Reads}

pub ==_refl : (n : ℕ) → (n == n) ≡ true
==_refl n = ground arith

module _ (k : Crates) (servers : Servers) (node : Node) (g : Gateway) where
  note_status-told :
      (h : Felt) (reply : Result Failure TxStatus) (w mid : World) (s : TxStatus)
      → note_status k servers node h reply w ≡ (mid, ok s)
      → is_dropped s ≡ true
      → since_post (feeder_drops h) mid.log ≡ true
  unfolding note_status note since_post
  note_status-told h (ok s') w mid s e dropped_ =
      let log : feeder_said h s' ∷ w.log ≡ mid.log = ap (λ x. x.0.log) e in
      let same : s' ≡ s = cc in
      let gone : is_dropped s' ≡ true = ap is_dropped same ∙ dropped_ in
      subst (λ l. since_post (feeder_drops h) l ≡ true) log (rw (==_refl h, gone) refl)
  note_status-told h (err e') w mid s e dropped_ = cc

  pub ask_status-told :
      (h : Felt) (w mid : World) (s : TxStatus)
      → ask_status k servers node g h w ≡ (mid, ok s)
      → is_dropped s ≡ true
      → since_post (feeder_drops h) mid.log ≡ true
  unfolding ask_status
  ask_status-told h w mid s e dropped_ =
      let asked = attempt (status k servers g h) w in
      note_status-told h (status k servers g h w.net).1 asked.0 mid s e dropped_

  pub is_gone-Reads :
      (h : Felt) (s : TxStatus) (w : World) → Reads w (is_gone k servers node g h s w).0
  unfolding is_gone
  is_gone-Reads h s w = elim (Bool-cases (is_dropped s)) [
    | inl t ↦ rw t (rpc_agrees_dropped-Reads k servers node h w)
    | inr f ↦ rw f (Reads-refl w)
  ]

  note_dropped-told :
      (h : Felt) (reply : NodeReply (Option Text)) (w w' : World)
      → note_dropped k servers node h reply w ≡ (w', ok true)
      → since_post (node_drops h) w'.log ≡ true
  unfolding note_dropped note since_post
  note_dropped-told h reply w w' e =
      let log : node_said h (says_dropped reply) ∷ w.log ≡ w'.log = ap (λ x. x.0.log) e in
      let gone : says_dropped reply ≡ true = ground arith in
      subst (λ l. since_post (node_drops h) l ≡ true) log (rw (==_refl h, gone) refl)

  pub is_gone-IsGone :
      (h : Felt) (s : TxStatus) (w w' : World)
      → (is_dropped s ≡ true → since_post (feeder_drops h) w.log ≡ true)
      → is_gone k servers node g h s w ≡ (w', ok true)
      → IsGone h w'.log
  unfolding is_gone rpc_agrees_dropped IsGone ask
  is_gone-IsGone h s w w' told e = elim (Bool-cases (is_dropped s)) [
    | inr f ↦ cc (rw (f, is_gone) at e)
    | inl t ↦
        let e' : rpc_agrees_dropped k servers node h w ≡ (w', ok true) = rw (t, is_gone) at e in
        let grows : Reads w w' =
          subst (Reads w) (ap (λ x. x.0) e') (rpc_agrees_dropped-Reads k servers node h w) in
        (
          Grows-since_post (feeder_drops h) grows.log_grows (told t),
          note_dropped-told h (node.tx_status w.net.requests h)
              (ask k servers node (λ n. node.tx_status n h) w).0 w' e',
        )
  ]
