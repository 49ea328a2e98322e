-- ===== src/Tickets/Tree.antt =====
-- tools/zkmsg/core/src/tickets.rs, `TicketTree`: the pool's ticket tree, rebuilt from its
-- `TicketBought` events.
pub mod Rebuild
use stwo_starknet_verifier.Common.{
  ℕ, ◌+◌, ◌^◌, Option, none, some, List, [], ◌∷◌, ◌++◌, length, get_elem?, ltb, ◌==◌, if◌then◌else◌,
  Result, ok, err, ◌>>=◌, ◌>>◌, ensure, context,
}
use stwo_starknet_verifier.Common.Sort.{sort_by_key}
use stwo_starknet_verifier.Felts.{Felt, Text, Crates}
use stwo_starknet_verifier.Serde.{felt_to_u64}
use stwo_starknet_verifier.Crypto.{hash_pair}
use stwo_starknet_verifier.Merkle.{MerkleTree, new, insert, path}

pub record TicketTree : Type 0 where
  pub leaves : List Felt
  pub tree : MerkleTree

pub data Error : Type 0 where
  -- "TicketBought has … keys, expected 1"
  wrong_keys : Error
  -- "TicketBought has … data felts, expected 2"
  wrong_data : Error
  -- a leaf or an index that is no felt, or an index that is no `u32`
  not_felt not_u32 : Error
  -- "ticket events are not contiguous"
  not_contiguous : Error
  -- "ticket … is not in the tree"
  not_in_tree : Error
  -- the program panics: the tree is full
  panics : Error

-- `|(index, _)| *index`
abbrev pub by_index : ℕ × Felt → ℕ
by_index b = b.0

module _ (k : Crates) where
  -- The closure of `from_events`: the index and the leaf of one event.
  unfoldable pub decode_event : List Text × List Text → Result Error (ℕ × Felt)
  decode_event (keys, fields) = do
    ensure (length keys == 1) wrong_keys
    ensure (length fields == 2) wrong_data
    leaf_text ← context (get_elem? fields 0) wrong_data
    leaf ← context (k.from_hex leaf_text) not_felt
    index_text ← context (get_elem? fields 1) wrong_data
    index_felt ← context (k.from_hex index_text) not_felt
    elim (felt_to_u64 k index_felt) [
      | err _ ↦ err not_u32
      | ok index ↦ if ltb index (2 ^ 32) then ok (index, leaf) else err not_u32
    ]

  unfoldable pub decode_events : List (List Text × List Text) → Result Error (List (ℕ × Felt))
  decode_events [] = ok []
  decode_events (e ∷ es) = do b ← decode_event e; bs ← decode_events es; ok (b ∷ bs)

  -- The loop of `from_events`: the leaves go in while the indices count up from `i`.
  unfoldable pub rebuild : ℕ → TicketTree → List (ℕ × Felt) → Result Error TicketTree
  rebuild i acc [] = ok acc
  rebuild i acc ((index, leaf) ∷ rest) = do
    ensure (index == i) not_contiguous
    (tree, at) ← context (insert (hash_pair k) acc.tree leaf) panics
    rebuild (i + 1) (record { leaves = acc.leaves ++ leaf ∷ []; tree = tree }) rest

  -- `from_events` after the decoding: sorted by index, then rebuilt from the new tree.
  unfoldable pub from_bought : List (ℕ × Felt) → Result Error TicketTree
  from_bought bought =
      rebuild 0 (record { leaves = []; tree = new (hash_pair k) }) (sort_by_key by_index bought)

  -- `TicketTree::from_events`
  unfoldable pub from_events : List (List Text × List Text) → Result Error TicketTree
  from_events events = do bought ← decode_events events; from_bought bought

-- `TicketTree::leaf`
abbrev pub leaf_at : TicketTree → ℕ → Option Felt
leaf_at t index = get_elem? t.leaves index

-- `TicketTree::index_of`: the first position of a leaf, counted from `i`.
unfoldable pub index_from : ℕ → Felt → List Felt → Option ℕ
index_from i leaf [] = none
index_from i leaf (l ∷ ls) =
    let rest = index_from (i + 1) leaf ls in if l == leaf then some i else rest

abbrev pub index_of : Felt → List Felt → Option ℕ
index_of leaf leaves = index_from 0 leaf leaves

-- `TicketTree::path`
unfoldable pub tree_path : TicketTree → ℕ → Result Error (List Felt)
tree_path t index = do ensure (ltb index (length t.leaves)) not_in_tree; ok (path t.tree index)
