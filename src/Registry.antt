-- ===== src/Registry.antt =====
-- tools/zkmsg/core/src/registry.rs: the registrations of the store, rebuilt from its events, and
-- the lookups by handle. `by_handle` is an association list.
pub mod Loop
pub mod Lookup
pub mod Events
mod Tests
use stwo_starknet_verifier.Common.{
  ℕ, ◌+◌, ◌-◌, ◌*◌, ◌^◌, Bool, true, false, ◌&&◌, Option, none, some, List, [], ◌∷◌, ◌++◌, Result,
  ok, err, ◌>>=◌, ◌>>◌, ensure, context, if◌then◌else◌, ◌==◌, leb, ltb, length, get_elem?, drop,
  replicate,
}
use stwo_starknet_verifier.Common.Sort.{sort_by_key}
use stwo_starknet_verifier.Serde
use stwo_starknet_verifier.Felts.{Felt, Text, Crates}
use stwo_starknet_verifier.Serde.{felt_to_u64, bytearray_felts, bytearray_decode}
use stwo_starknet_verifier.Crypto.{hash_pair, leaf_v3}
use stwo_starknet_verifier.Merkle.{MerkleTree, new, insert, path, root}

pub record Registration : Type 0 where
  pub owner : Felt
  pub handle : Felt
  pub scan_pub : Felt
  pub leaf_index : ℕ
  pub m_commit : Felt
  pub kem_pubkey : List ℕ
  pub kem_digest : Felt

pub record Registry : Type 0 where
  pub registrations : List Registration
  pub by_handle : List (Felt × ℕ)
  pub tree : MerkleTree

pub data Error : Type 0 where
  wrong_keys : Error
  wrong_data : Error
  not_felt : Error
  bad_kem_key : Serde.Error → Error
  trailing_data : Error
  bad_leaf_index : Error
  not_contiguous : Error
  registered_twice : Error
  tree_full_panics : Error
  bad_handle : Error
  not_registered : Error
  not_in_tree : Error
  out_of_range_panics : Error

-- `HashMap::get`
unfoldable pub find_handle : Felt → List (Felt × ℕ) → Option ℕ
find_handle h [] = none
find_handle h ((key, i) ∷ rest) =
    let later = find_handle h rest in if key == h then some i else later

-- `ensure!(by_handle.insert(…).is_none(), …)`
unfoldable pub is_new : Felt → List (Felt × ℕ) → Result Error (Unit {0})
is_new h by_handle = elim (find_handle h by_handle) [ some _ ↦ err registered_twice | none ↦ ok tt ]

-- The closure `felt`, over the data of an event.
unfoldable pub all_felts : (Text → Option Felt) → List Text → Result Error (List Felt)
all_felts from_hex [] = ok []
all_felts from_hex (t ∷ ts) = do
  f ← context (from_hex t) not_felt
  fs ← all_felts from_hex ts
  ok (f ∷ fs)

abbrev pub is_ascii : Text → Bool
is_ascii [] = true
is_ascii (c ∷ cs) = ltb c 128 && is_ascii cs

module _ (k : Crates) where
  -- `bytearray_hash` and `kem_digest` of crypto.rs
  unfoldable pub bytearray_hash : List ℕ → Felt
  bytearray_hash contents = k.poseidon_hash_many (bytearray_felts k contents)

  unfoldable pub digest_of : List ℕ → Felt
  digest_of ek = bytearray_hash ek

  -- `Registration::leaf`
  unfoldable pub leaf_of : Registration → Felt
  leaf_of r = leaf_v3 k r.scan_pub r.kem_digest r.m_commit

  -- `u32::try_from(felt_to_u64(…)?)`
  unfoldable pub index_of_felt : Felt → Result Error ℕ
  index_of_felt f = elim (felt_to_u64 k f) [
    | err _ ↦ err bad_leaf_index
    | ok n ↦ if ltb n (2 ^ 32) then ok n else err bad_leaf_index
  ]

  -- `bytearray_decode`, with its errors and its panic passed on.
  unfoldable pub decode_kem : List Felt → Result Error (List ℕ × ℕ)
  decode_kem rest = elim (bytearray_decode k rest) [ ok d ↦ ok d | err e ↦ err (bad_kem_key e) ]

  -- An event whose data are felts; the owner is read after them.
  unfoldable pub from_felts : Result Error Felt → List Felt → Result Error Registration
  from_felts owner (handle ∷ scan_pub ∷ index ∷ m_commit ∷ rest) = do
    (kem_pubkey, used) ← decode_kem rest
    ensure (4 + used == 4 + length rest) trailing_data
    owner_felt ← owner
    leaf_index ← index_of_felt index
    ok (record {
      owner = owner_felt;
      handle = handle;
      scan_pub = scan_pub;
      leaf_index = leaf_index;
      m_commit = m_commit;
      kem_pubkey = kem_pubkey;
      kem_digest = digest_of kem_pubkey;
    })
  from_felts owner other = err wrong_data

  -- `keys[1]` as a felt
  unfoldable pub owner_of : List Text → Result Error Felt
  owner_of keys = do
    text ← context (get_elem? keys 1) wrong_keys
    context (k.from_hex text) not_felt

  -- `Registration::from_event`
  unfoldable pub from_event : List Text × List Text → Result Error Registration
  from_event (keys, fields) = do
    ensure (length keys == 2) wrong_keys
    ensure (ltb 4 (length fields)) wrong_data
    felts ← all_felts k.from_hex fields
    from_felts (owner_of keys) felts

  -- The loop of `from_registrations`, over the registrations from the `i`-th on.
  unfoldable pub register :
      ℕ
      → List (Felt × ℕ)
      → MerkleTree
      → List Registration
      → Result Error (List (Felt × ℕ) × MerkleTree)
  register i by_handle tree [] = ok (by_handle, tree)
  register i by_handle tree (r ∷ rest) = do
    ensure (r.leaf_index == i) not_contiguous
    elim (find_handle r.handle by_handle) [ some _ ↦ err registered_twice | none ↦ ok tt ]
    (tree', _) ← context (insert (hash_pair k) tree (leaf_of r)) tree_full_panics
    register (i + 1) ((r.handle, i) ∷ by_handle) tree' rest

  -- `Registry::from_registrations`
  unfoldable pub from_registrations : List Registration → Result Error Registry
  from_registrations registrations = do
    let sorted = sort_by_key (λ r. r.leaf_index) registrations
    (by_handle, tree) ← register 0 [] (new (hash_pair k)) sorted
    ok (record { registrations = sorted; by_handle = by_handle; tree = tree })

  unfoldable pub all_events : List (List Text × List Text) → Result Error (List Registration)
  all_events [] = ok []
  all_events (e ∷ es) = do r ← from_event e; rs ← all_events es; ok (r ∷ rs)

  -- `Registry::from_events`
  unfoldable pub from_events : List (List Text × List Text) → Result Error Registry
  from_events events = do registrations ← all_events events; from_registrations registrations

  -- `short_string_felt` of app.rs
  unfoldable pub short_string_felt : Text → Result Error Felt
  short_string_felt s =
      if leb (length s) 31 && is_ascii s
      then ok (k.from_bytes_be (replicate (32 - length s) 0 ++ s))
      else err bad_handle

  -- `Registry::get`, of the felt of a handle and of its text
  unfoldable pub get_felt : Registry → Felt → Result Error Registration
  get_felt g h = do
    i ← context (find_handle h g.by_handle) not_registered
    context (get_elem? g.registrations i) out_of_range_panics

  unfoldable pub get : Registry → Text → Result Error Registration
  get g handle = do h ← short_string_felt handle; get_felt g h

-- `Registry::path`
unfoldable pub path_of : Registry → ℕ → Result Error (List Felt)
path_of g leaf_index = do
  ensure (ltb leaf_index (length g.registrations)) not_in_tree
  ok (path g.tree leaf_index)
