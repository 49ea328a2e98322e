-- ===== src/VirtualSend/Witness.antt =====
-- tools/zkmsg/core/src/virtual_send.rs: the parts of `prepare` that compute on what was read. The
-- member's keys are given as the felts that `Keys` reads from them.
use stwo_starknet_verifier.Common.{
  ℕ, ◌^◌, Bool, not, ◌&&◌, Option, List, ◌==◌, ltb, length, get_elem?, get_or, Result, ok, err,
  context, ensure, ◌>>=◌, ◌>>◌,
}
use stwo_starknet_verifier.Felts.{Felt, Text, Crates}
use stwo_starknet_verifier.Crypto.{hash_pair, member_commit, leaf_v3, ticket_leaf, pad_v4}
use stwo_starknet_verifier.Merkle.{root, fold_path}
use stwo_starknet_verifier.Registry.{Registry, Registration, get, path_of}
use stwo_starknet_verifier.Tickets.{Wallet, secret_felt}
use stwo_starknet_verifier.Tickets.Tree.{TicketTree, tree_path}
use stwo_starknet_verifier.VirtualSend.{
  SendError, panics, not_registered, message_too_long, bad_keys, other_keys, bad_sender_path,
  registry, tickets, ticket_tree, no_ticket_index, bad_ticket_path, bad_rate_limit, u64_of,
}

-- What `prepare` takes from `Keys`; `none` where its method fails.
pub record Member : Type 0 where
  pub handle : Option Text
  pub scan_pub : Option Felt
  pub kem_digest : Option Felt
  pub member_secret : Option Felt

-- The keys, read.
pub record Secrets : Type 0 where
  pub sender_handle : Text
  pub scan_pub : Felt
  pub own_digest : Felt
  pub member_secret : Felt

-- What `pinned_state` returns.
pub record Pinned : Type 0 where
  pub block : ℕ
  pub members : Registry
  pub member_root : Felt
  pub bought : TicketTree

-- The sender's leaf index and path, and the recipient.
pub record Parties : Type 0 where
  pub recipient : Registration
  pub leaf_index : ℕ
  pub path : List Felt

-- A ticket's secret, index and path.
pub record TicketWitness : Type 0 where
  pub secret : Felt
  pub index : ℕ
  pub path : List Felt

-- `?` on a component's result
abbrev pub or_error : {E A : Type 0} → (E → SendError) → Result E A → Result SendError A
or_error f (ok a) = ok a
or_error f (err e) = err (f e)

-- The keys of the sender, after the check of the text's length.
unfoldable pub read_member : Member → List ℕ → Result SendError Secrets
read_member m text = do
  handle ← context m.handle not_registered
  padded ← or_error (λ e. message_too_long) (pad_v4 text)
  scan_pub ← context m.scan_pub bad_keys
  digest ← context m.kem_digest bad_keys
  secret ← context m.member_secret bad_keys
  ok (record {
    sender_handle = handle;
    scan_pub = scan_pub;
    own_digest = digest;
    member_secret = secret;
  })

-- The sender is registered to these keys.
abbrev pub has_keys : Registration → Felt → Felt → Felt → Bool
has_keys r scan_pub digest m_commit =
    (r.scan_pub == scan_pub) && ((r.kem_digest == digest) && (r.m_commit == m_commit))

module _ (k : Crates) where
  -- `recipient`, `sender` and `sender_path` of `prepare`, with their checks
  unfoldable pub find_parties : Pinned → Secrets → Text → Result SendError Parties
  find_parties p s handle = do
    recipient ← or_error registry (get k p.members handle)
    sender ← or_error registry (get k p.members s.sender_handle)
    let commit = member_commit k s.member_secret
    ensure (has_keys sender s.scan_pub s.own_digest commit) other_keys
    path ← or_error registry (path_of p.members sender.leaf_index)
    folded ←
        context
          (fold_path (hash_pair k) (leaf_v3 k s.scan_pub s.own_digest commit) sender.leaf_index
            path)
          panics
    ensure (folded == p.member_root) bad_sender_path
    ok (record { recipient = recipient; leaf_index = sender.leaf_index; path = path })

  -- `ticket_secret`, `ticket_index` and `ticket_path` of `prepare`, with their checks
  unfoldable pub find_ticket : TicketTree → Wallet → ℕ → Result SendError TicketWitness
  find_ticket tree wallet i = do
    ticket ← context (get_elem? wallet.tickets i) panics
    secret ← or_error tickets (secret_felt k ticket)
    index ← context ticket.index no_ticket_index
    path ← or_error ticket_tree (tree_path tree index)
    folded ← context (fold_path (hash_pair k) (ticket_leaf k secret) index path) panics
    ensure (folded == root tree.tree) bad_ticket_path
    ok (record { secret = secret; index = index; path = path })

  -- `rate_limit()` returned three felts, with an epoch of at least one block.
  unfoldable pub read_rate : List Felt → Result SendError (ℕ × ℕ)
  read_rate felts = do
    ensure (length felts == 3) bad_rate_limit
    epoch_blocks ← u64_of k (get_or felts 0 0)
    ensure (not (epoch_blocks == 0)) bad_rate_limit
    lag ← u64_of k (get_or felts 1 0)
    quota ← u64_of k (get_or felts 2 0)
    ensure (ltb quota (2 ^ 32)) bad_rate_limit
    ok (epoch_blocks, quota)
