-- ===== src/VirtualSend/Prepare.antt =====
-- tools/zkmsg/core/src/virtual_send.rs: `prepare` and `pinned_state`. The member's keys are given as
-- the felts that `Keys` reads from them, and `send_v4` with its random values as a function.
use stwo_starknet_verifier.Common.{
  ℕ, zero, suc, ◌+◌, ◌/◌, ◌&&◌, Option, none, some, List, [], ◌==◌, ltb, if◌then◌else◌, Result, ok,
  err, context,
}
use stwo_starknet_verifier.Common.Effects.{◌>>=◌, ◌>>◌, pure, fail, lift}
use stwo_starknet_verifier.Felts.{Felt, Text, Crates, bytes}
use stwo_starknet_verifier.Crypto.{nullifier_v4, ticket_nullifier}
use stwo_starknet_verifier.Merkle.{root}
use stwo_starknet_verifier.TxPolicy.{base_block}
use stwo_starknet_verifier.Registry.{Registry, Registration, get, path_of}
use stwo_starknet_verifier.Registry as Registry
use stwo_starknet_verifier.Tickets.{
  Ticket, TicketState, reserved, Wallet, secret_felt, settle, pick, counts, set_state,
}
use stwo_starknet_verifier.Tickets.Tree.{TicketTree, tree_path}
use stwo_starknet_verifier.Tickets as Tickets
use stwo_starknet_verifier.Tickets.Tree as Tree
use stwo_starknet_verifier.Tickets.Quota.{QuotaLog, stored, take_slot}
use stwo_starknet_verifier.Gateway.Wire.{Servers}
use stwo_starknet_verifier.VirtualSend.{
  VirtualRoute, PublicV4, WitnessV4, not_saved, registry, tickets, ticket_tree, quota_log,
  bad_wallet, trees_disagree, seal_failed, prove_send_calldata_v4, send_id,
}
use stwo_starknet_verifier.VirtualSend.Witness.{
  Member, Secrets, Pinned, Parties, TicketWitness, or_error, read_member, find_parties, find_ticket,
  read_rate,
}
use stwo_starknet_verifier.VirtualSend.World.{
  Node, NodeReply, Act, or_bad, ask, block_number, store_call, store_felt, nonce_of,
}

-- The events of the store, up to a block or the latest one, as (keys, data).
pub record Events : Type 0 where
  pub registered : ℕ → Option ℕ → NodeReply (List (List Text × List Text))
  pub bought : ℕ → Option ℕ → NodeReply (List (List Text × List Text))

-- The result of `send_v4`.
pub record SealedV2 : Type 0 where
  pub commitment : Felt
  pub ephemeral_pub : Felt
  pub content_hash : Felt
  pub content : List ℕ

-- `Prepared`
pub record Prepared : Type 0 where
  pub id : Text
  pub block : ℕ
  pub nonce : Felt
  pub public : PublicV4
  pub content : List ℕ
  pub prove_calldata : List Felt

module _ (k : Crates) (servers : Servers) (node : Node) (events : Events)
    (route : VirtualRoute) where
  -- `Registry::fetch`
  unfoldable pub fetch_registry : Option ℕ → Act Registry
  fetch_registry block = ask k servers node (λ n. events.registered n block) >>= λ reply.
      lift (or_bad reply) >>= λ evs. lift (or_error registry (Registry.from_events k evs))

  -- `TicketTree::fetch`
  unfoldable pub fetch_tickets : Option ℕ → Act TicketTree
  fetch_tickets block = ask k servers node (λ n. events.bought n block) >>= λ reply.
      lift (or_bad reply) >>= λ evs. lift (or_error ticket_tree (Tree.from_events k evs))

  -- The end of a round of `pinned_state`: both roots agree, or the next round.
  unfoldable pub if_agreed : Act Pinned → Pinned → Felt → Act Pinned
  if_agreed again p ticket_root =
      if (root p.members.tree == p.member_root) && (root p.bought.tree == ticket_root)
      then pure p
      else again

  -- `pinned_state`, with so many rounds left.
  unfoldable pub pinned_state : ℕ → Act Pinned
  pinned_state zero = fail trees_disagree
  pinned_state (suc left) = block_number k servers node >>= λ head.
      fetch_registry (some (base_block head)) >>= λ members.
      store_felt k servers node (bytes "get_merkle_root") [] (some (base_block head))
      >>= λ member_root. fetch_tickets (some (base_block head)) >>= λ bought.
          store_felt k servers node (bytes "get_ticket_root") [] (some (base_block head))
          >>= if_agreed (pinned_state left) (record {
            block = base_block head;
            members = members;
            member_root = member_root;
            bought = bought;
          })

  -- `rate_limit`
  unfoldable pub rate_limit : ℕ → Act (ℕ × ℕ)
  rate_limit block = store_call k servers node (bytes "rate_limit") [] (some block) >>= λ felts.
      lift (read_rate k felts)

  -- `wallet.save`
  unfoldable pub save_wallet : Wallet → Act (Unit {0})
  save_wallet wallet w =
      if node.writable w.writes
      then (record w { writes = w.writes + 1; wallet = some wallet }, ok tt)
      else (record w { writes = w.writes + 1 }, err not_saved)

  -- `if wallet.settle(…)? > 0 { wallet.save(…)? }`
  unfoldable pub settle_saved_wallet : TicketTree → Wallet → Act Wallet
  settle_saved_wallet tree wallet =
      lift (or_error tickets (settle k tree wallet)) >>= λ (settled, n).
      (if ltb 0 n then save_wallet settled else pure tt) >> pure settled

  -- `QuotaLog::take_slot`: the log is written before the slot is returned.
  unfoldable pub write_slot : ℕ × QuotaLog → Act ℕ
  write_slot (slot, log) w =
      if node.writable w.writes
      then (record w { writes = w.writes + 1; quota = stored log }, ok slot)
      else (record w { writes = w.writes + 1 }, err not_saved)

  unfoldable pub take_quota_slot : ℕ → ℕ → Act ℕ
  take_quota_slot epoch quota w =
      (lift (or_error quota_log (take_slot k w.quota (k.to_hex route.store) epoch quota))
          >>= write_slot)
        w

  -- `wallet.pick`, and the pending branch: the wallet is settled against the latest tree, and the
  -- ticket is picked from the pinned one.
  unfoldable pub on_pick : TicketTree → Wallet → Result Tickets.Error ℕ → Act (Wallet × ℕ)
  on_pick tree wallet (ok i) = pure (wallet, i)
  on_pick tree wallet (err e) =
      if ltb 0 (counts wallet.tickets).n_pending
      then (fetch_tickets none >>= λ latest. settle_saved_wallet latest wallet >>= λ settled.
          lift (or_error tickets (pick k tree settled)) >>= λ i. pure (settled, i))
      else fail (tickets e)

  -- `Wallet::load`, where the file can be read
  unfoldable pub load_wallet : Act Wallet
  load_wallet w = (w, context w.wallet bad_wallet)

  unfoldable pub choose_ticket : TicketTree → Act (Wallet × ℕ)
  choose_ticket tree = load_wallet >>= settle_saved_wallet tree >>= λ wallet.
      on_pick tree wallet (pick k tree wallet)

  -- The public tuple of a send.
  abbrev pub public_of : Pinned → Secrets → TicketWitness → SealedV2 → ℕ → ℕ → ℕ → PublicV4
  public_of p s t sealed epoch quota slot = record {
    store = route.store;
    commitment = sealed.commitment;
    ephemeral = sealed.ephemeral_pub;
    root = p.member_root;
    content_hash = sealed.content_hash;
    nullifier = nullifier_v4 k route.store s.member_secret epoch slot;
    epoch = epoch;
    quota = quota;
    ticket_root = root p.bought.tree;
    ticket_nullifier = ticket_nullifier k route.store t.secret;
  }

  abbrev pub witness_of : Secrets → Parties → TicketWitness → ℕ → WitnessV4
  witness_of s parties t slot = record {
    scan_pub = s.scan_pub;
    kem_digest = s.own_digest;
    member_secret = s.member_secret;
    slot = slot;
    leaf_index = parties.leaf_index;
    path = parties.path;
    ticket_secret = t.secret;
    ticket_index = t.index;
    ticket_path = t.path;
  }

  -- The end of `prepare`: the ticket is reserved, and the wallet saved.
  unfoldable pub reserve : Wallet → ℕ → Text → Act (Unit {0})
  reserve wallet i id =
      save_wallet (record wallet { tickets = set_state wallet.tickets i (reserved id) })

  -- `prepare` from the sealed message on
  unfoldable pub prepare_sealed :
      Pinned
      → Secrets
      → Parties
      → Wallet × ℕ
      → TicketWitness
      → Felt
      → ℕ × ℕ
      → ℕ
      → SealedV2
      → Act Prepared
  prepare_sealed p s parties (wallet, i) t nonce (epoch, quota) slot sealed =
      let public = public_of p s t sealed epoch quota slot in
      lift (prove_send_calldata_v4 public (witness_of s parties t slot)) >>= λ calldata.
      reserve wallet i (send_id k sealed.commitment)
      >> pure (record {
        id = send_id k sealed.commitment;
        block = p.block;
        nonce = nonce;
        public = public;
        content = sealed.content;
        prove_calldata = calldata;
      })

  -- The slot of an epoch, and the message
  unfoldable pub prepare_slot :
      (Registration → List ℕ → Option SealedV2)
      → List ℕ
      → Pinned
      → Secrets
      → Parties
      → Wallet × ℕ
      → TicketWitness
      → ℕ × ℕ
      → Felt
      → Act Prepared
  prepare_slot seal text p s parties picked t (epoch, quota) nonce =
      take_quota_slot epoch quota >>= λ slot.
      lift (context (seal parties.recipient text) seal_failed)
      >>= prepare_sealed p s parties picked t nonce (epoch, quota) slot

  -- `prepare` from the picked ticket on: the rate limit, the nonce, the slot, and the message.
  unfoldable pub prepare_ticket :
      (Registration → List ℕ → Option SealedV2)
      → List ℕ
      → Pinned
      → Secrets
      → Parties
      → Wallet × ℕ
      → TicketWitness
      → Act Prepared
  prepare_ticket seal text p s parties picked t = rate_limit p.block >>= λ (epoch_blocks, quota).
      nonce_of k servers node route.virtual_sender (some p.block)
      >>= prepare_slot seal text p s parties picked t (p.block / epoch_blocks, quota)

  unfoldable pub prepare_pinned :
      (Registration → List ℕ → Option SealedV2) → Text → List ℕ → Secrets → Pinned → Act Prepared
  prepare_pinned seal handle text s p = lift (find_parties k p s handle) >>= λ parties.
      choose_ticket p.bought >>= λ picked.
      lift (find_ticket k p.bought picked.0 picked.1)
      >>= prepare_ticket seal text p s parties picked

  -- `prepare`
  unfoldable pub prepare :
      (Registration → List ℕ → Option SealedV2) → Member → Text → List ℕ → Act Prepared
  prepare seal member handle text =
      lift (read_member member text) >>= λ s. pinned_state 2 >>= prepare_pinned seal handle text s
