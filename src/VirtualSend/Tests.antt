-- ===== src/VirtualSend/Tests.antt =====
-- A send for tools/zkmsg/core/src/virtual_send.rs, with servers and a node that take it.
use stwo_starknet_verifier.Common.{◌+◌, ◌≢◌, refl, true, false, none, some, [], ◌∷◌, err, arith}
use stwo_starknet_verifier.Felts.{bytes}
use stwo_starknet_verifier.Serde.Digits.{crates}
use stwo_starknet_verifier.TxPolicy.{Bounds, ResourceBounds}
use stwo_starknet_verifier.Tickets.Quota.{absent}
use stwo_starknet_verifier.Sends.{SendState, publish, todo}
use stwo_starknet_verifier.Gateway.{Gateway}
use stwo_starknet_verifier.Gateway.Wire.{Servers, body, no_reply, await_acceptance, out_of_rounds}
use stwo_starknet_verifier.Gateway.Polling.{await_acceptance_ends}
use stwo_starknet_verifier.VirtualSend.{
  VirtualRoute, PublicV4, VirtualProof, message_hash, payload, out_of_rounds,
}
use stwo_starknet_verifier.VirtualSend as VirtualSend
use stwo_starknet_verifier.VirtualSend.World.{World, Node, answers, refuses}
use stwo_starknet_verifier.VirtualSend.Finish.{wait_for_head}
use stwo_starknet_verifier.VirtualSend.Publish.{publish_send}
use stwo_starknet_verifier.VirtualSend.Schedule.{wait_for_head-ends}
use stwo_starknet_verifier.VirtualSend.Log.{GoodLog}
use stwo_starknet_verifier.VirtualSend.Safety.{start, then_publish, Runs-GoodLog}

abbrev pub gateway : Gateway
gateway = record { chain_id = 7; rpc_url = none }

abbrev pub accepting : Servers
accepting = record {
  latency = λ n. 100;
  feeder_status = λ n h. body (
      some (record {
        finality_status = some (bytes "ACCEPTED_ON_L2");
        tx_status = none;
        execution_status = some (bytes "SUCCEEDED");
        revert_reason = none;
      }));
  add_transaction = λ n tx. body (some (tx.tx_hash ∷ []));
  rpc_status = λ n url h. no_reply;
  rpc_add = λ n url tx. no_reply;
}

-- The chain is at block 200, and the root is known.
abbrev pub ready : Node
ready = record {
  block_number = λ n. answers (n + 200);
  store_call = λ n name calldata block. answers (1 ∷ []);
  nonce_of = λ n address block. answers 0;
  gas_prices = λ n. refuses [];
  tx_status = λ n h. answers none;
  writable = λ n. true;
}

abbrev pub a_route : VirtualRoute
a_route = record { store = 3; prover = 4; virtual_sender = 5; route_chain_id = 7 }

abbrev pub free_gas : ResourceBounds
free_gas = record { max_amount = 1; max_price_per_unit = 1 }

abbrev pub small_bounds : Bounds
small_bounds = record { l1_gas = free_gas; l2_gas = free_gas; l1_data_gas = free_gas }

abbrev pub proven : SendState
proven = record {
  id = bytes "v1";
  recipient_handle = bytes "bob";
  ciphertext_hex = 1 ∷ 2 ∷ [];
  expected_commitment = 11 ∷ [];
  expected_ephemeral_pubkey = 12 ∷ [];
  expected_merkle_root = 13 ∷ [];
  steps = todo publish ∷ [];
  base_block = some 96;
  publish_nonce = some (6 ∷ []);
  publish_bounds = some small_bounds;
  binding = some (record {
    nullifier = 14 ∷ [];
    epoch = 1;
    quota = 2;
    ticket_root = 15 ∷ [];
    ticket_nullifier = 16 ∷ [];
  });
  publish_after_block = some 190;
}

abbrev pub a_public : PublicV4
a_public = record {
  store = 3;
  commitment = 11;
  ephemeral = 12;
  root = 13;
  content_hash = crates.poseidon_hash_many (0 ∷ 258 ∷ 2 ∷ []);
  nullifier = 14;
  epoch = 1;
  quota = 2;
  ticket_root = 15;
  ticket_nullifier = 16;
}

-- The facts of its proof, as hex texts.
abbrev pub a_proof : VirtualProof
unfolding message_hash payload
a_proof = record {
  proof = bytes "proof";
  proof_facts =
      (1 ∷ [])
      ∷ (1 ∷ [])
      ∷ (1 ∷ [])
      ∷ (1 ∷ [])
      ∷ (96 ∷ [])
      ∷ (1 ∷ [])
      ∷ (1 ∷ [])
      ∷ (1 ∷ [])
      ∷ (message_hash crates a_public 4 ∷ [])
      ∷ [];
}

abbrev pub a_world : World
a_world = record {
  net = record { requests = 0; time = 0 };
  writes = 0;
  state = proven;
  saved = some proven;
  retired = false;
  wallet = none;
  quota = absent;
  proof_file = some a_proof;
  log = [];
}

Runs-GoodLog_example :
    GoodLog crates (publish_send crates accepting ready gateway a_route 9 5 a_world).0.log
Runs-GoodLog_example =
    Runs-GoodLog crates 9 a_world
      (publish_send crates accepting ready gateway a_route 9 5 a_world).0 (λ f. refl) refl
      (then_publish accepting ready gateway a_route 5 start refl)

await_acceptance_ends_example :
    (await_acceptance crates accepting gateway 8 5000 1800000 (record { requests = 0; time = 0 })).1
    ≢ err out_of_rounds
await_acceptance_ends_example =
    await_acceptance_ends crates accepting gateway 8 5000 1800000
      (record { requests = 0; time = 0 }) (omega arith)

wait_for_head-ends_example :
    (wait_for_head crates accepting ready gateway 4 false 203 a_world).1
    ≢ err VirtualSend.out_of_rounds
wait_for_head-ends_example =
    wait_for_head-ends crates accepting ready gateway 3 3 false 203 a_world
      (λ m head le e. ground arith) (omega arith)
