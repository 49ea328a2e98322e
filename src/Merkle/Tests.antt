-- ===== src/Merkle/Tests.antt =====
-- Runs of tools/zkmsg/core/src/tree.rs with a stand-in for the hash, and the theorems at them.
use stwo_starknet_verifier.Felts.{Felt}
use stwo_starknet_verifier.Common.{◌+◌, ◌*◌, ◌%◌, ◌≡◌, refl, some, [], ◌∷◌, arith}
use stwo_starknet_verifier.Merkle.{
  MerkleTree, tree_depth, path_from, walk, fold_from, root, path, new, store_leaf, fold_path,
  insert_all, subtree,
}
use stwo_starknet_verifier.Merkle.Invariant.{Holds, new-Holds, store_leaf-Holds}
use stwo_starknet_verifier.Merkle.Paths.{fold_path-path, root-subtree, insert_all-Holds}

-- Not commutative, and it does not keep 0.
abbrev mix : Felt → Felt → Felt
mix a b = (3 * a + 5 * b + 7) % 1000003

abbrev two_leaves : MerkleTree
two_leaves = store_leaf mix (store_leaf mix (new mix) 42) 99

two_leaves-Holds : Holds mix (42 ∷ 99 ∷ []) two_leaves
two_leaves-Holds =
    store_leaf-Holds mix (42 ∷ []) (store_leaf mix (new mix) 42) 99
      (store_leaf-Holds mix [] (new mix) 42 (new-Holds mix))

fold_path-path_example : fold_path mix 99 1 (path two_leaves 1) ≡ some (root two_leaves)
fold_path-path_example =
    fold_path-path mix (42 ∷ 99 ∷ []) two_leaves 1 two_leaves-Holds (omega arith)

root-subtree_example : root two_leaves ≡ subtree mix (42 ∷ 99 ∷ []) tree_depth 0
root-subtree_example = root-subtree mix (42 ∷ 99 ∷ []) two_leaves two_leaves-Holds

insert_all-Holds_example :
    (t : MerkleTree) × (insert_all mix (42 ∷ 99 ∷ []) (new mix) ≡ some t)
    × Holds mix (42 ∷ 99 ∷ []) t
insert_all-Holds_example = insert_all-Holds mix (42 ∷ 99 ∷ []) (omega arith)

fold_path_runs : fold_path mix 42 0 (path two_leaves 0) ≡ some (root two_leaves)
unfolding fold_path path root store_leaf new path_from walk fold_from
fold_path_runs = refl
