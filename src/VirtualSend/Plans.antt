-- ===== src/VirtualSend/Plans.antt =====
-- tools/zkmsg/core/src/virtual_send.rs: what `prepare` hands to the prover, and the ticket that it
-- reserves.
use stwo_starknet_verifier.Common.{
  ℕ, ◌/◌, ◌≡◌, inl, inr, refl, sym, ap, subst, true, Option, some, List, ◌==◌, get_elem?, Result,
  ok, context, Bool-cases, arith,
}
use stwo_starknet_verifier.Common.Effects.{after-eq-ok, lift}
use stwo_starknet_verifier.Felts.{Felt, Text, Crates}
use stwo_starknet_verifier.Crypto.{
  hash_pair, member_commit, leaf_v3, nullifier_v4, ticket_leaf, ticket_nullifier,
}
use stwo_starknet_verifier.Merkle.{fold_path}
use stwo_starknet_verifier.Registry.{Registration}
use stwo_starknet_verifier.Tickets.{Ticket, reserved, Wallet, set_state, has_nullifier, nullifier}
use stwo_starknet_verifier.Gateway.Wire.{Servers}
use stwo_starknet_verifier.VirtualSend.{
  VirtualRoute, SendError, prove_send_calldata_v4, send_id, seal_failed,
}
use stwo_starknet_verifier.VirtualSend.World.{World, Node, nonce_of}
use stwo_starknet_verifier.VirtualSend.Witness.{
  Member, Secrets, Pinned, Parties, TicketWitness, read_member, find_parties, find_ticket,
}
use stwo_starknet_verifier.VirtualSend.Prepare.{
  Events, SealedV2, Prepared, pinned_state, rate_limit, save_wallet, take_quota_slot, choose_ticket,
  public_of, witness_of, reserve, prepare_sealed, prepare_slot, prepare_ticket, prepare_pinned,
  prepare,
}
use stwo_starknet_verifier.VirtualSend.Paths.{
  PartiesFold, TicketFolds, find_parties-PartiesFold, find_ticket-TicketFolds,
}

ok-value :
    {A : Type 0} (a b : A) (v w : World)
    → ◌≡◌ {A = World × Result SendError A} (v, ok a) (w, ok b)
    → a ≡ b
ok-value a b v w e = cc

==_refl : (n : ℕ) → (n == n) ≡ true
==_refl n = ground arith

module _ (k : Crates) (servers : Servers) (node : Node) (events : Events)
    (route : VirtualRoute) where
  -- What the prover gets: the calldata is that of a witness whose two paths lead to the roots that
  -- the proof makes public, and whose secrets give the public nullifiers.
  pub record IsProvable (p : Prepared) : Type 0 where
    pub s : Secrets
    pub parties : Parties
    pub t : TicketWitness
    pub slot : ℕ
    pub calldata :
        prove_send_calldata_v4 p.public (witness_of k servers node events route s parties t slot)
        ≡ ok p.prove_calldata
    pub member_folds :
        fold_path
          (hash_pair k)
          (leaf_v3 k s.scan_pub s.own_digest (member_commit k s.member_secret))
          parties.leaf_index
          parties.path
        ≡ some p.public.root
    pub ticket_folds :
        fold_path (hash_pair k) (ticket_leaf k t.secret) t.index t.path ≡ some p.public.ticket_root
    pub member_nullifier :
        p.public.nullifier ≡ nullifier_v4 k p.public.store s.member_secret p.public.epoch slot
    pub its_nullifier : p.public.ticket_nullifier ≡ ticket_nullifier k p.public.store t.secret

  -- The wallet's file has the ticket of the public nullifier, reserved for the send.
  pub record IsReserved (p : Prepared) (w : World) : Type 0 where
    pub wallet : Wallet
    pub i : ℕ
    pub ticket : Ticket
    pub in_file :
        w.wallet ≡ some (record wallet { tickets = set_state wallet.tickets i (reserved p.id) })
    pub in_wallet : get_elem? wallet.tickets i ≡ some ticket
    pub has_null : has_nullifier k p.public.store p.public.ticket_nullifier ticket ≡ true

  save_wallet-saved :
      (wallet : Wallet) (w w' : World) (u : Unit {0})
      → save_wallet k servers node events route wallet w ≡ (w', ok u)
      → w'.wallet ≡ some wallet
  unfolding save_wallet
  save_wallet-saved wallet w w' u e = elim (Bool-cases (node.writable w.writes)) [
    | inl t ↦ sym (ap (λ x. x.0.wallet) (rw (t, save_wallet) at e))
    | inr f ↦ cc (rw (f, save_wallet) at e)
  ]

  prepare_sealed-ok :
      (p : Pinned) (s : Secrets) (parties : Parties) (picked : Wallet × ℕ) (t : TicketWitness)
      (nonce : Felt) (rate : ℕ × ℕ) (slot : ℕ) (sealed : SealedV2) (w w' : World) (out : Prepared)
      → PartiesFold k p s parties
      → TicketFolds k p.bought picked.0 picked.1 t
      → prepare_sealed k servers node events route p s parties picked t nonce rate slot sealed w
        ≡ (w', ok out)
      → IsProvable out × IsReserved out w'
  unfolding prepare_sealed reserve has_nullifier nullifier
  prepare_sealed-ok p s parties (wallet, i) t nonce (epoch, quota) slot sealed w w' out parties_fold
        ticket_folds e =
      let public = public_of k servers node events route p s t sealed epoch quota slot in
      let (v, calldata, e1, h1) =
        after-eq-ok
          (lift
            (prove_send_calldata_v4 public
              (witness_of k servers node events route s parties t slot))
            w)
          _ e in
      let (v1, u, e2, h2) =
        after-eq-ok (reserve k servers node events route wallet i (send_id k sealed.commitment) v) _
          h1 in
      let made : Prepared = record {
        id = send_id k sealed.commitment;
        block = p.block;
        nonce = nonce;
        public = public;
        content = sealed.content;
        prove_calldata = calldata;
      } in
      let result : made ≡ out = ok-value made out v1 w' h2 in
      let reserved_made : IsReserved made v1 = record {
        wallet = wallet;
        i = i;
        ticket = ticket_folds.ticket;
        in_file =
            save_wallet-saved
              (record wallet {
                tickets = set_state wallet.tickets i (reserved (send_id k sealed.commitment));
              })
              v v1 u e2;
        in_wallet = ticket_folds.in_wallet;
        has_null =
            rw (ticket_folds.its_secret, has_nullifier, nullifier)
              (==_refl (ticket_nullifier k route.store t.secret));
      } in
      (
        subst IsProvable result (record {
          s = s;
          parties = parties;
          t = t;
          slot = slot;
          calldata = ap (λ x. x.1) e1;
          member_folds = parties_fold.member_folds;
          ticket_folds = ticket_folds.ticket_folds;
          member_nullifier = refl;
          its_nullifier = refl;
        }),
        subst (λ x. IsReserved x w') result
            (subst (IsReserved made) (ap (λ x. x.0) h2) reserved_made),
      )

  prepare_slot-ok :
      (seal : Registration → List ℕ → Option SealedV2) (text : List ℕ) (p : Pinned) (s : Secrets)
      (parties : Parties) (picked : Wallet × ℕ) (t : TicketWitness) (rate : ℕ × ℕ) (nonce : Felt)
      (w w' : World) (out : Prepared)
      → PartiesFold k p s parties
      → TicketFolds k p.bought picked.0 picked.1 t
      → prepare_slot k servers node events route seal text p s parties picked t rate nonce w
        ≡ (w', ok out)
      → IsProvable out × IsReserved out w'
  unfolding prepare_slot
  prepare_slot-ok seal text p s parties picked t (epoch, quota) nonce w w' out pf tf e =
      let (v, slot, e1, h1) =
        after-eq-ok (take_quota_slot k servers node events route epoch quota w) _ e in
      let (v1, sealed, e2, h2) =
        after-eq-ok (lift (context (seal parties.recipient text) seal_failed) v)
          (prepare_sealed k servers node events route p s parties picked t nonce (epoch, quota)
            slot)
          h1 in
      prepare_sealed-ok p s parties picked t nonce (epoch, quota) slot sealed v1 w' out pf tf h2

  prepare_ticket-ok :
      (seal : Registration → List ℕ → Option SealedV2) (text : List ℕ) (p : Pinned) (s : Secrets)
      (parties : Parties) (picked : Wallet × ℕ) (t : TicketWitness) (w w' : World) (out : Prepared)
      → PartiesFold k p s parties
      → TicketFolds k p.bought picked.0 picked.1 t
      → prepare_ticket k servers node events route seal text p s parties picked t w ≡ (w', ok out)
      → IsProvable out × IsReserved out w'
  unfolding prepare_ticket
  prepare_ticket-ok seal text p s parties picked t w w' out pf tf e =
      let (v, rate, e1, h1) = after-eq-ok (rate_limit k servers node events route p.block w) _ e in
      let (v1, nonce, e2, h2) =
        after-eq-ok (nonce_of k servers node route.virtual_sender (some p.block) v)
          (prepare_slot k servers node events route seal text p s parties picked t
            (p.block / rate.0, rate.1))
          h1 in
      prepare_slot-ok seal text p s parties picked t (p.block / rate.0, rate.1) nonce v1 w' out pf
        tf h2

  prepare_pinned-ok :
      (seal : Registration → List ℕ → Option SealedV2) (handle : Text) (text : List ℕ) (s : Secrets)
      (p : Pinned) (w w' : World) (out : Prepared)
      → prepare_pinned k servers node events route seal handle text s p w ≡ (w', ok out)
      → IsProvable out × IsReserved out w'
  unfolding prepare_pinned
  prepare_pinned-ok seal handle text s p w w' out e =
      let (v, parties, e1, h1) = after-eq-ok (lift (find_parties k p s handle) w) _ e in
      let (v1, picked, e2, h2) =
        after-eq-ok (choose_ticket k servers node events route p.bought v) _ h1 in
      let (v2, t, e3, h3) =
        after-eq-ok (lift (find_ticket k p.bought picked.0 picked.1) v1)
          (prepare_ticket k servers node events route seal text p s parties picked) h2 in
      prepare_ticket-ok seal text p s parties picked t v2 w' out
        (find_parties-PartiesFold k p s handle parties (ap (λ x. x.1) e1))
        (find_ticket-TicketFolds k p.bought picked.0 picked.1 t (ap (λ x. x.1) e3)) h3

  -- What `prepare` returns can be proved: its calldata is that of a witness whose member path and
  -- ticket path lead to the member root and the ticket root that the proof makes public, and whose
  -- secrets give the public nullifiers. And the wallet's file on disk has a ticket with the
  -- public ticket nullifier, which it holds as reserved for this send.
  pub prepare-ok :
      (seal : Registration → List ℕ → Option SealedV2) (member : Member) (handle : Text)
      (text : List ℕ) (w w' : World) (out : Prepared)
      → prepare k servers node events route seal member handle text w ≡ (w', ok out)
      → IsProvable out × IsReserved out w'
  unfolding prepare
  prepare-ok seal member handle text w w' out e =
      let (v, s, e1, h1) = after-eq-ok (lift (read_member member text) w) _ e in
      let (v1, p, e2, h2) =
        after-eq-ok (pinned_state k servers node events route 2 v)
          (prepare_pinned k servers node events route seal handle text s) h1 in
      prepare_pinned-ok seal handle text s p v1 w' out h2
