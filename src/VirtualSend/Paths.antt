-- ===== src/VirtualSend/Paths.antt =====
-- tools/zkmsg/core/src/virtual_send.rs: the paths that `prepare` hands to the prover lead to the
-- roots.
use stwo_starknet_verifier.Common.{
  context-eq-ok, ℕ, ◌≡◌, ap, subst, ◌∙◌, some, ◌==◌, get_elem?, Result, ok, err, context, >>=-eq-ok,
  ensure-eq-ok, arith, ==_iff,
}
use stwo_starknet_verifier.Felts.{Text, Crates}
use stwo_starknet_verifier.Crypto.{hash_pair, member_commit, leaf_v3, ticket_leaf}
use stwo_starknet_verifier.Merkle.{root, fold_path}
use stwo_starknet_verifier.Registry.{get, path_of}
use stwo_starknet_verifier.Tickets.{Ticket, Wallet, secret_felt}
use stwo_starknet_verifier.Tickets.Tree.{TicketTree, tree_path}
use stwo_starknet_verifier.VirtualSend.{
  SendError, panics, registry, tickets, ticket_tree, no_ticket_index, bad_ticket_path, other_keys,
  bad_sender_path,
}
use stwo_starknet_verifier.VirtualSend.Witness.{
  Secrets, Pinned, Parties, TicketWitness, or_error, find_parties, find_ticket, has_keys,
}

or_error-eq-ok :
    {E A : Type 0} (f : E → SendError) (r : Result E A) {a : A} → or_error f r ≡ ok a → r ≡ ok a
or_error-eq-ok f (ok b) h = ground arith
or_error-eq-ok f (err e) h = cc

module _ (k : Crates) where
  -- The sender's path leads from its leaf to the root of the members.
  pub record PartiesFold (p : Pinned) (s : Secrets) (parties : Parties) : Type 0 where
    pub member_folds :
        fold_path
          (hash_pair k)
          (leaf_v3 k s.scan_pub s.own_digest (member_commit k s.member_secret))
          parties.leaf_index
          parties.path
        ≡ some p.member_root

  pub find_parties-PartiesFold :
      (p : Pinned) (s : Secrets) (handle : Text) (parties : Parties)
      → find_parties k p s handle ≡ ok parties
      → PartiesFold p s parties
  unfolding find_parties
  find_parties-PartiesFold p s handle parties e =
      let (recipient, e1, h1) = >>=-eq-ok (or_error registry (get k p.members handle)) _ e in
      let (sender, e2, h2) = >>=-eq-ok (or_error registry (get k p.members s.sender_handle)) _ h1 in
      let commit = member_commit k s.member_secret in
      let (same, h3) =
        ensure-eq-ok (has_keys sender s.scan_pub s.own_digest commit) other_keys h2 in
      let (path, e4, h4) =
        >>=-eq-ok (or_error registry (path_of p.members sender.leaf_index)) _ h3 in
      let leaf = leaf_v3 k s.scan_pub s.own_digest commit in
      let (folded, e5, h5) =
        >>=-eq-ok (context (fold_path (hash_pair k) leaf sender.leaf_index path) panics) _ h4 in
      let (good, h6) = ensure-eq-ok (folded == p.member_root) bad_sender_path h5 in
      let result : record { recipient = recipient; leaf_index = sender.leaf_index; path = path }
          ≡ parties =
        ground arith in
      subst (PartiesFold p s) result (record {
        member_folds =
            context-eq-ok (fold_path (hash_pair k) leaf sender.leaf_index path) panics e5
            ∙ ap some ((==_iff folded p.member_root).0 good);
      })

  -- The ticket is in the wallet, and its path leads from its leaf to the root of the tree.
  pub record TicketFolds (tree : TicketTree) (wallet : Wallet) (i : ℕ) (t : TicketWitness)
      : Type 0 where
    pub ticket : Ticket
    pub in_wallet : get_elem? wallet.tickets i ≡ some ticket
    pub its_secret : secret_felt k ticket ≡ ok t.secret
    pub ticket_folds :
        fold_path (hash_pair k) (ticket_leaf k t.secret) t.index t.path ≡ some (root tree.tree)

  pub find_ticket-TicketFolds :
      (tree : TicketTree) (wallet : Wallet) (i : ℕ) (t : TicketWitness)
      → find_ticket k tree wallet i ≡ ok t
      → TicketFolds tree wallet i t
  unfolding find_ticket
  find_ticket-TicketFolds tree wallet i t e =
      let (ticket, e1, h1) = >>=-eq-ok (context (get_elem? wallet.tickets i) panics) _ e in
      let (secret, e2, h2) = >>=-eq-ok (or_error tickets (secret_felt k ticket)) _ h1 in
      let (index, e3, h3) = >>=-eq-ok (context ticket.index no_ticket_index) _ h2 in
      let (path, e4, h4) = >>=-eq-ok (or_error ticket_tree (tree_path tree index)) _ h3 in
      let (folded, e5, h5) =
        >>=-eq-ok (context (fold_path (hash_pair k) (ticket_leaf k secret) index path) panics) _
          h4 in
      let (good, h6) = ensure-eq-ok (folded == root tree.tree) bad_ticket_path h5 in
      let result : record { secret = secret; index = index; path = path } ≡ t = ground arith in
      subst (TicketFolds tree wallet i) result (record {
        ticket = ticket;
        in_wallet = context-eq-ok (get_elem? wallet.tickets i) panics e1;
        its_secret = or_error-eq-ok tickets (secret_felt k ticket) e2;
        ticket_folds =
            context-eq-ok (fold_path (hash_pair k) (ticket_leaf k secret) index path) panics e5
            ∙ ap some ((==_iff folded (root tree.tree)).0 good);
      })
