-- ===== src/VirtualSend/PrepareTests.antt =====
-- A prepared send for tools/zkmsg/core/src/virtual_send.rs: one member, who writes to herself, and
-- one ticket. The hash of the stand-in is constant.
use stwo_starknet_verifier.Common.{
  ℕ, ◌+◌, ◌≡◌, refl, true, Option, none, some, List, [], ◌∷◌, ◌++◌, Result, ok, err, replicate,
  if◌then◌else◌,
}
use stwo_starknet_verifier.Felts.{Felt, Text, Crates, bytes, text_eq}
use stwo_starknet_verifier.Serde.Digits.{crates}
use stwo_starknet_verifier.Registry.{Registration}
use stwo_starknet_verifier.Tickets.{pending}
use stwo_starknet_verifier.Tickets.Quota.{absent}
use stwo_starknet_verifier.VirtualSend.{VirtualRoute, SendError, PublicV4}
use stwo_starknet_verifier.VirtualSend.World.{World, Node, answers, refuses}
use stwo_starknet_verifier.VirtualSend.Witness.{Member}
use stwo_starknet_verifier.VirtualSend.Prepare.{Events, SealedV2, Prepared, prepare}
use stwo_starknet_verifier.VirtualSend.Plans.{IsProvable, IsReserved, prepare-ok}
use stwo_starknet_verifier.VirtualSend.Tests.{accepting, a_route, a_world}

abbrev pub flat_crates : Crates
flat_crates = record crates { poseidon_hash_many = λ xs. 0 }

abbrev pub a_node : Node
a_node = record {
  block_number = λ n. answers 200;
  store_call = λ n name calldata block.
      if text_eq name (bytes "rate_limit") then answers (100 ∷ 1 ∷ 2 ∷ []) else answers (0 ∷ []);
  nonce_of = λ n address block. answers 0;
  gas_prices = λ n. refuses [];
  tx_status = λ n h. answers none;
  writable = λ n. true;
}

-- The handle "a" is registered to the scan key 13, at the leaf 0; one ticket was bought.
abbrev pub some_events : Events
some_events = record {
  registered = λ n block. answers (
      (
        (1 ∷ []) ∷ (9 ∷ []) ∷ [],
        (97 ∷ []) ∷ (13 ∷ []) ∷ (0 ∷ []) ∷ (0 ∷ []) ∷ (0 ∷ []) ∷ (258 ∷ []) ∷ (2 ∷ []) ∷ [],
      )
      ∷ []);
  bought = λ n block. answers (((1 ∷ []) ∷ [], (0 ∷ []) ∷ (0 ∷ []) ∷ []) ∷ []);
}

abbrev a_member : Member
a_member = record {
  handle = some (bytes "a");
  scan_pub = some 13;
  kem_digest = some 0;
  member_secret = some 5;
}

abbrev a_desk : World
a_desk = record a_world {
  wallet = some (record {
    store = 3 ∷ [];
    tickets =
        record { secret = replicate 31 0 ++ 7 ∷ []; index = none; buy_tx = none; state = pending }
        ∷ [];
  });
}

abbrev seal_a : Registration → List ℕ → Option SealedV2
seal_a r text =
    some (record { commitment = 11; ephemeral_pub = 12; content_hash = 0; content = 1 ∷ 2 ∷ [] })

abbrev outcome : World × Result SendError Prepared
outcome =
    prepare flat_crates accepting a_node some_events a_route seal_a a_member (bytes "a")
      (bytes "hi") a_desk

abbrev a_public : PublicV4
a_public = record {
  store = 3;
  commitment = 11;
  ephemeral = 12;
  root = 0;
  content_hash = 0;
  nullifier = 0;
  epoch = 1;
  quota = 2;
  ticket_root = 0;
  ticket_nullifier = 0;
}

-- The base block of the head 200, and a path of zeros for the member and for the ticket.
abbrev pub a_prepared : Prepared
a_prepared = record {
  id = 11 ∷ [];
  block = 160;
  nonce = 0;
  public = a_public;
  content = 1 ∷ 2 ∷ [];
  prove_calldata =
      3
      ∷ 0
      ∷ 11
      ∷ 12
      ∷ 0
      ∷ 1
      ∷ 2
      ∷ 0
      ∷ 13
      ∷ 0
      ∷ 5
      ∷ 0
      ∷ 0
      ∷ 20
      ∷ (replicate 20 0 ++ (7 ∷ 0 ∷ 20 ∷ replicate 20 0));
}

outcome-prepared : outcome ≡ (outcome.0, ok a_prepared)
unfolding stwo_starknet_verifier.VirtualSend.Prepare.fetch_registry
    stwo_starknet_verifier.VirtualSend.Prepare.fetch_tickets
    stwo_starknet_verifier.VirtualSend.Prepare.if_agreed
    stwo_starknet_verifier.VirtualSend.Prepare.pinned_state
    stwo_starknet_verifier.VirtualSend.Prepare.rate_limit
    stwo_starknet_verifier.VirtualSend.Prepare.save_wallet
    stwo_starknet_verifier.VirtualSend.Prepare.settle_saved_wallet
    stwo_starknet_verifier.VirtualSend.Prepare.write_slot
    stwo_starknet_verifier.VirtualSend.Prepare.take_quota_slot
    stwo_starknet_verifier.VirtualSend.Prepare.on_pick
    stwo_starknet_verifier.VirtualSend.Prepare.load_wallet
    stwo_starknet_verifier.VirtualSend.Prepare.choose_ticket
    stwo_starknet_verifier.VirtualSend.Prepare.reserve
    stwo_starknet_verifier.VirtualSend.Prepare.prepare_sealed
    stwo_starknet_verifier.VirtualSend.Prepare.prepare_slot
    stwo_starknet_verifier.VirtualSend.Prepare.prepare_ticket
    stwo_starknet_verifier.VirtualSend.Prepare.prepare_pinned
    stwo_starknet_verifier.VirtualSend.Prepare.prepare
    stwo_starknet_verifier.VirtualSend.Witness.read_member
    stwo_starknet_verifier.VirtualSend.Witness.find_parties
    stwo_starknet_verifier.VirtualSend.Witness.find_ticket
    stwo_starknet_verifier.VirtualSend.Witness.read_rate
    stwo_starknet_verifier.VirtualSend.World.note stwo_starknet_verifier.VirtualSend.World.ask
    stwo_starknet_verifier.VirtualSend.World.note_head
    stwo_starknet_verifier.VirtualSend.World.block_number
    stwo_starknet_verifier.VirtualSend.World.store_call
    stwo_starknet_verifier.VirtualSend.World.store_felt
    stwo_starknet_verifier.VirtualSend.World.nonce_of
    stwo_starknet_verifier.VirtualSend.prove_send_calldata_v4
    stwo_starknet_verifier.VirtualSend.u64_of stwo_starknet_verifier.VirtualSend.send_id
    stwo_starknet_verifier.Gateway.Wire.request stwo_starknet_verifier.Registry.find_handle
    stwo_starknet_verifier.Registry.is_new stwo_starknet_verifier.Registry.all_felts
    stwo_starknet_verifier.Registry.bytearray_hash stwo_starknet_verifier.Registry.digest_of
    stwo_starknet_verifier.Registry.leaf_of stwo_starknet_verifier.Registry.index_of_felt
    stwo_starknet_verifier.Registry.decode_kem stwo_starknet_verifier.Registry.from_felts
    stwo_starknet_verifier.Registry.owner_of stwo_starknet_verifier.Registry.from_event
    stwo_starknet_verifier.Registry.register stwo_starknet_verifier.Registry.from_registrations
    stwo_starknet_verifier.Registry.all_events stwo_starknet_verifier.Registry.from_events
    stwo_starknet_verifier.Registry.short_string_felt stwo_starknet_verifier.Registry.get_felt
    stwo_starknet_verifier.Registry.get stwo_starknet_verifier.Registry.path_of
    stwo_starknet_verifier.Serde.le_value stwo_starknet_verifier.Serde.be_value
    stwo_starknet_verifier.Serde.any_nonzero stwo_starknet_verifier.Serde.full_words
    stwo_starknet_verifier.Serde.felt_to_u64 stwo_starknet_verifier.Serde.felt_from_be_bytes
    stwo_starknet_verifier.Serde.bytearray_felts stwo_starknet_verifier.Serde.word_bytes
    stwo_starknet_verifier.Serde.decode_pending stwo_starknet_verifier.Serde.bytearray_decode
    stwo_starknet_verifier.Crypto.member_commit stwo_starknet_verifier.Crypto.leaf_v3
    stwo_starknet_verifier.Crypto.nullifier_v4 stwo_starknet_verifier.Crypto.ticket_leaf
    stwo_starknet_verifier.Crypto.ticket_nullifier stwo_starknet_verifier.Crypto.member_secret_felt
    stwo_starknet_verifier.Crypto.find_bucket stwo_starknet_verifier.Crypto.pad_v4
    stwo_starknet_verifier.Merkle.node stwo_starknet_verifier.Merkle.root
    stwo_starknet_verifier.Merkle.path_from stwo_starknet_verifier.Merkle.path
    stwo_starknet_verifier.Merkle.zeros_from stwo_starknet_verifier.Merkle.new
    stwo_starknet_verifier.Merkle.walk stwo_starknet_verifier.Merkle.store_leaf
    stwo_starknet_verifier.Merkle.insert stwo_starknet_verifier.Merkle.fold_from
    stwo_starknet_verifier.Merkle.fold_path stwo_starknet_verifier.Tickets.count_state
    stwo_starknet_verifier.Tickets.counts stwo_starknet_verifier.Tickets.set_state
    stwo_starknet_verifier.Tickets.secret_felt stwo_starknet_verifier.Tickets.leaf
    stwo_starknet_verifier.Tickets.settle_ticket stwo_starknet_verifier.Tickets.settle_tickets
    stwo_starknet_verifier.Tickets.settle stwo_starknet_verifier.Tickets.is_usable
    stwo_starknet_verifier.Tickets.pick_from stwo_starknet_verifier.Tickets.pick
    stwo_starknet_verifier.Tickets.Tree.decode_event
    stwo_starknet_verifier.Tickets.Tree.decode_events stwo_starknet_verifier.Tickets.Tree.rebuild
    stwo_starknet_verifier.Tickets.Tree.from_bought stwo_starknet_verifier.Tickets.Tree.from_events
    stwo_starknet_verifier.Tickets.Tree.index_from stwo_starknet_verifier.Tickets.Tree.tree_path
    stwo_starknet_verifier.Tickets.Quota.current_log stwo_starknet_verifier.Tickets.Quota.take_slot
    stwo_starknet_verifier.TxPolicy.base_block stwo_starknet_verifier.Felts.trim_0x
    stwo_starknet_verifier.Common.Sort.insert_by_key stwo_starknet_verifier.Common.Sort.sort_by_key
    stwo_starknet_verifier.Serde.Digits.le_digits
outcome-prepared = refl

prepare-ok_example :
    IsProvable flat_crates accepting a_node some_events a_route a_prepared
    × IsReserved flat_crates accepting a_node some_events a_route a_prepared outcome.0
prepare-ok_example =
    prepare-ok flat_crates accepting a_node some_events a_route seal_a a_member (bytes "a")
      (bytes "hi") a_desk outcome.0 a_prepared outcome-prepared
