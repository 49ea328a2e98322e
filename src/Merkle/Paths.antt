-- ===== src/Merkle/Paths.antt =====
-- tools/zkmsg/core/src/tree.rs: the paths that `path` gives out, and the root.
use mathlib.Core.List.{append_assoc, append-nil}
use native.Mathlib.Nat.{pow-suc}
use stwo_starknet_verifier.Felts.{Felt}
use stwo_starknet_verifier.Common.{
  ℕ, zero, suc, ◌+◌, ◌/◌, ◌^◌, ◌≤◌, ◌<◌, ◌≡◌, refl, sym, ap, ◌∙◌, some, List, [], ◌∷◌, ◌++◌, arith,
  length, get_or, length-append,
}
use stwo_starknet_verifier.Merkle.{
  MerkleTree, tree_depth, node, root, sibling_index, path, path_from, new, parent, store_leaf,
  fold_from, fold_path, insert_all, subtree,
}
use stwo_starknet_verifier.Merkle.Invariant.{
  Holds, new-Holds, store_leaf-Holds, insert_room, parent_lem, node-subtree,
}

length-path_from :
    (rounds : ℕ) (t : MerkleTree) (level index : ℕ)
    → length (path_from rounds t level index) ≡ rounds
unfolding path_from
length-path_from zero t level index = refl
length-path_from (suc rounds) t level index =
    ap suc (length-path_from rounds t (level + 1) (index / 2))

-- A path has one sibling for each level.
pub length-path : (t : MerkleTree) (leaf_index : ℕ) → length (path t leaf_index) ≡ tree_depth
unfolding path
length-path t leaf_index = length-path_from tree_depth t 0 leaf_index

module _ (hash_pair : Felt → Felt → Felt) where
  fold-path_from :
      (leaves : List Felt) (t : MerkleTree)
      → Holds hash_pair leaves t
      → (rounds level index : ℕ) → level + rounds ≤ tree_depth
      → index < 2 ^ rounds
      → fold_from hash_pair (node t level index) index (path_from rounds t level index)
        ≡ node t (level + rounds) 0
  unfolding fold_from path_from
  fold-path_from leaves t h zero level index room small =
      let here : index ≡ 0 = omega arith in
      let same : level + 0 ≡ level = omega arith in rw (here, same)
  fold-path_from leaves t h (suc rounds) level index room small =
      let up : parent hash_pair index (node t level index) (node t level (sibling_index index))
          ≡ node t (level + 1) (index / 2) =
        parent_lem hash_pair t level index ∙ sym (h.consistent level (index / 2) (omega arith)) in
      let above : level + 1 + rounds ≡ level + suc rounds = omega arith in
      let rest =
        fold-path_from leaves t h rounds (level + 1) (index / 2) (omega arith)
          (omega (arith, pow-suc 2 rounds)) in
      ap (λ x. fold_from hash_pair x (index / 2) (path_from rounds t (level + 1) (index / 2))) up
      ∙ rest
      ∙ ap (λ l. node t l 0) above

  -- Over a tree that holds the leaves, the path of every index below 2 ^ 20 folds from the leaf
  -- there (0 where no leaf is yet) to the root.
  pub fold_path-path :
      (leaves : List Felt) (t : MerkleTree) (i : ℕ)
      → Holds hash_pair leaves t
      → i < 2 ^ tree_depth
      → fold_path hash_pair (get_or leaves i 0) i (path t i) ≡ some (root t)
  unfolding fold_path path root
  fold_path-path leaves t i h small =
      rw (length-path_from tree_depth t 0 i, sym (h.at_leaves i))
        (ap some (fold-path_from leaves t h tree_depth 0 i (omega arith) small))

  -- The root is that of the balanced tree over the leaves.
  pub root-subtree :
      (leaves : List Felt) (t : MerkleTree)
      → Holds hash_pair leaves t
      → root t ≡ subtree hash_pair leaves tree_depth 0
  unfolding root
  root-subtree leaves t h = node-subtree hash_pair leaves t h tree_depth 0 (omega arith)

  insert_all-from :
      (before leaves : List Felt) (t : MerkleTree)
      → Holds hash_pair before t
      → length before + length leaves ≤ 2 ^ tree_depth
      → (t' : MerkleTree) × (insert_all hash_pair leaves t ≡ some t')
        × Holds hash_pair (before ++ leaves) t'
  unfolding insert_all
  insert_all-from before [] t h room = (t, refl, rw append-nil h)
  insert_all-from before (leaf ∷ rest) t h room =
      let step = insert_room hash_pair before t leaf h (omega arith) in
      let held = store_leaf-Holds hash_pair before t leaf h in
      let more =
        insert_all-from (before ++ leaf ∷ []) rest (store_leaf hash_pair t leaf) held
          (omega (arith, length-append before (leaf ∷ []))) in
      (more.0, rw (step, insert_all) (more.1), rw append_assoc at more.2)

  -- From the new tree up to 2 ^ 20 leaves go in, none refused, and the tree then holds them in
  -- their order.
  pub insert_all-Holds :
      (leaves : List Felt)
      → length leaves ≤ 2 ^ tree_depth
      → (t : MerkleTree) × (insert_all hash_pair leaves (new hash_pair) ≡ some t)
        × Holds hash_pair leaves t
  insert_all-Holds leaves room =
      insert_all-from [] leaves (new hash_pair) (new-Holds hash_pair) (omega arith)
