-- ===== src/Merkle.antt =====
-- tools/zkmsg/core/src/tree.rs: the depth-20 incremental Merkle tree. `hash_pair` is a parameter.
pub mod Invariant
pub mod Paths
mod Tests
use stwo_starknet_verifier.Felts.{Felt}
use stwo_starknet_verifier.Common.{
  ℕ, zero, suc, ◌+◌, ◌-◌, ◌*◌, ◌/◌, ◌%◌, ◌^◌, Option, none, some, List, [], ◌∷◌, length, ltb, ◌==◌,
  if◌then◌else◌, get_or,
}

-- `TREE_DEPTH`
abbrev pub tree_depth : ℕ
tree_depth = 20

-- `nodes: HashMap<(u32, u32), Felt>` is the function that looks a key up.
pub record MerkleTree : Type 0 where
  pub nodes : ℕ → ℕ → Option Felt
  pub next_leaf : ℕ
  pub zeros : List Felt

-- `self.nodes.insert((level, index), value)`
abbrev pub put : MerkleTree → ℕ → ℕ → Felt → MerkleTree
put t level index value = record t {
  nodes =
      λ l i. if l == level then (if i == index then some value else t.nodes l i) else t.nodes l i;
}

-- `node`: a stored node, or the zero hash of its level (there is one for each level up to 20).
unfoldable pub node : MerkleTree → ℕ → ℕ → Felt
node t level index = elim (t.nodes level index) [ some v ↦ v | none ↦ get_or t.zeros level 0 ]

abbrev pub sibling_index : ℕ → ℕ
sibling_index index = if index % 2 == 0 then index + 1 else index - 1

-- `root`
unfoldable pub root : MerkleTree → Felt
unfolding node
root t = node t tree_depth 0

-- the body of the loop of `path`, for the levels that are left
unfoldable pub path_from : ℕ → MerkleTree → ℕ → ℕ → List Felt
path_from zero t level index = []
path_from (suc rounds) t level index =
    node t level (sibling_index index) ∷ path_from rounds t (level + 1) (index / 2)

-- `path`
unfoldable pub path : MerkleTree → ℕ → List Felt
path t leaf_index = path_from tree_depth t 0 leaf_index

module _ (hash_pair : Felt → Felt → Felt) where
  -- The entries of `zeros` from one level on: each is the hash of the one before with itself.
  unfoldable pub zeros_from : ℕ → Felt → List Felt
  zeros_from zero prev = prev ∷ []
  zeros_from (suc rounds) prev = prev ∷ zeros_from rounds (hash_pair prev prev)

  -- `new`
  unfoldable pub new : MerkleTree
  new = record { nodes = λ l i. none; next_leaf = 0; zeros = zeros_from tree_depth 0 }

  -- One level up: the hash of a node and its sibling, in their order.
  abbrev pub parent : ℕ → Felt → Felt → Felt
  parent index current sibling =
      if index % 2 == 0 then hash_pair current sibling else hash_pair sibling current

  -- The loop of `insert`, for the levels that are left.
  unfoldable pub walk : ℕ → MerkleTree → ℕ → ℕ → Felt → MerkleTree
  walk zero t level index current = t
  walk (suc rounds) t level index current =
      let next = parent index current (node t level (sibling_index index)) in
      walk rounds (put t (level + 1) (index / 2) next) (level + 1) (index / 2) next

  -- The stores of `insert`: the leaf, the nodes over it, and the count.
  unfoldable pub store_leaf : MerkleTree → Felt → MerkleTree
  store_leaf t leaf = record (walk tree_depth (put t 0 t.next_leaf leaf) 0 t.next_leaf leaf) {
    next_leaf = t.next_leaf + 1;
  }

  -- `insert`: `none` is the panic of the assertion "tree is full".
  unfoldable pub insert : MerkleTree → Felt → Option (MerkleTree × ℕ)
  insert t leaf =
      if ltb t.next_leaf (2 ^ tree_depth) then some (store_leaf t leaf, t.next_leaf) else none

  -- The loop of `fold_path`.
  unfoldable pub fold_from : Felt → ℕ → List Felt → Felt
  fold_from current index [] = current
  fold_from current index (sibling ∷ rest) =
      fold_from (parent index current sibling) (index / 2) rest

  -- `fold_path`: `none` is the panic of the assertion on the path's length.
  unfoldable pub fold_path : Felt → ℕ → List Felt → Option Felt
  fold_path leaf leaf_index path =
      if length path == tree_depth then some (fold_from leaf leaf_index path) else none

  -- The tree after the insertion of these leaves in turn.
  unfoldable pub insert_all : List Felt → MerkleTree → Option MerkleTree
  insert_all [] t = some t
  insert_all (leaf ∷ rest) t = elim (insert t leaf) [
    | none ↦ none
    | some (t', index) ↦ insert_all rest t'
  ]

  -- The value that the tree over these leaves has at a level and an index, written as the balanced
  -- tree that it is: every leaf that is not there is 0.
  unfoldable pub subtree : List Felt → ℕ → ℕ → Felt
  subtree leaves zero i = get_or leaves i 0
  subtree leaves (suc level) i =
      hash_pair (subtree leaves level (2 * i)) (subtree leaves level (2 * i + 1))
