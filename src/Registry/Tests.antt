-- ===== src/Registry/Tests.antt =====
-- A registry of one member for tools/zkmsg/core/src/registry.rs, with the stand-ins of
-- `Serde.Digits` for the hash and the hex texts.
use stwo_starknet_verifier.Common.{◌≡◌, refl, some, [], ◌∷◌, map, ok, arith, get_elem?}
use stwo_starknet_verifier.Common.Sort.{sort_by_key, insert_by_key}
use stwo_starknet_verifier.Serde.{bytearray_calldata}
use stwo_starknet_verifier.Serde.Digits.{crates, crates-IsBytesApi}
use stwo_starknet_verifier.Crypto.{hash_pair}
use stwo_starknet_verifier.Merkle.{new, store_leaf, insert}
use stwo_starknet_verifier.Merkle.Invariant.{Holds}
use stwo_starknet_verifier.Registry.{
  Registration, Registry, leaf_of, from_registrations, register, is_new, find_handle, get_felt,
  from_event, digest_of,
}
use stwo_starknet_verifier.Registry.Lookup.{get_felt-registered, get_felt_sound}
use stwo_starknet_verifier.Registry.Events.{from_event-registered}

abbrev alice : Registration
alice = record {
  owner = 11;
  handle = 12;
  scan_pub = 13;
  leaf_index = 0;
  m_commit = 14;
  kem_pubkey = 1 ∷ 2 ∷ [];
  kem_digest = 15;
}

abbrev small_registry : Registry
small_registry = record {
  registrations = alice ∷ [];
  by_handle = (12, 0) ∷ [];
  tree = store_leaf (hash_pair crates) (new (hash_pair crates)) (leaf_of crates alice);
}

small_registry-built : from_registrations crates (alice ∷ []) ≡ ok small_registry
unfolding from_registrations register is_new find_handle insert sort_by_key insert_by_key new
small_registry-built = refl

alice-found : get_felt crates small_registry 12 ≡ ok alice
unfolding get_felt find_handle
alice-found = refl

get_felt-registered_example :
    (alice.leaf_index ≡ 0)
    × (get_felt crates small_registry 12 ≡ ok alice)
    × Holds (hash_pair crates) (map (leaf_of crates) (alice ∷ [])) small_registry.tree
get_felt-registered_example =
    get_felt-registered crates (alice ∷ []) small_registry 0 alice small_registry-built refl

get_felt_sound_example : (alice.handle ≡ 12) × (get_elem? (alice ∷ []) 0 ≡ some alice)
get_felt_sound_example =
    get_felt_sound crates (alice ∷ []) small_registry 12 alice small_registry-built alice-found

from_event-registered_example :
    from_event crates (
      crates.to_hex 1 ∷ crates.to_hex 11 ∷ [],
      crates.to_hex 12
          ∷ crates.to_hex 13
          ∷ crates.to_hex 0
          ∷ crates.to_hex 14
          ∷ bytearray_calldata crates (1 ∷ 2 ∷ []),
    )
    ≡ ok (record {
      owner = 11;
      handle = 12;
      scan_pub = 13;
      leaf_index = 0;
      m_commit = 14;
      kem_pubkey = 1 ∷ 2 ∷ [];
      kem_digest = digest_of crates (1 ∷ 2 ∷ []);
    })
from_event-registered_example =
    from_event-registered crates crates-IsBytesApi 1 11 12 13 0 14 (1 ∷ 2 ∷ []) (omega arith)
      (omega arith, (omega arith, tt)) (omega arith)
