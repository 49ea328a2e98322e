-- ===== src/Merkle/Invariant.antt =====
-- tools/zkmsg/core/src/tree.rs: what `insert` keeps.
use mathlib.Core.Path.{ap₂}
use native.Mathlib.Numerals.{add-one}
use native.Mathlib.Decide.{ℕ_discrete}
use stwo_starknet_verifier.Felts.{Felt}
use stwo_starknet_verifier.Common.{
  ℕ, zero, suc, ◌+◌, ◌-◌, ◌*◌, ◌/◌, ◌%◌, ◌^◌, ◌≤◌, ◌<◌, ◌≡◌, ◌≢◌, ◌⊎◌, inl, inr, refl, sym, ◌∙◌, ap,
  some, List, [], ◌∷◌, ◌++◌, arith, ◌==◌, if◌then◌else◌, get_or, length, lt→ltb, length-append,
  Bool-cases,
}
use stwo_starknet_verifier.Merkle.{
  MerkleTree, tree_depth, put, node, sibling_index, zeros_from, new, parent, walk, store_leaf,
  insert, subtree,
}

node-put :
    (t : MerkleTree) (a b : ℕ) (v : Felt) (l i : ℕ)
    → node (put t a b v) l i ≡ (if l == a then (if i == b then v else node t l i) else node t l i)
unfolding node
node-put t a b v l i = ground arith

node-put_self : (t : MerkleTree) (a b : ℕ) (v : Felt) → node (put t a b v) a b ≡ v
node-put_self t a b v = ground (arith, node-put t a b v a b)

node-put_below :
    (t : MerkleTree) (a b : ℕ) (v : Felt) (l i : ℕ) → l < a → node (put t a b v) l i ≡ node t l i
node-put_below t a b v l i h = ground (arith, node-put t a b v l i)

get_or-append :
    (xs : List Felt) (v : Felt) (i : ℕ)
    → get_or (xs ++ v ∷ []) i 0 ≡ (if i == length xs then v else get_or xs i 0)
get_or-append [] v zero = refl
get_or-append [] v (suc i) = ground arith
get_or-append (x ∷ xs) v zero = ground arith
get_or-append (x ∷ xs) v (suc i) = ground (arith, get_or-append xs v i)

module _ (hash_pair : Felt → Felt → Felt) where
  -- A node is the hash of its children.
  abbrev pub IsParent : MerkleTree → ℕ → ℕ → Type 0
  IsParent t l i = node t (l + 1) i ≡ hash_pair (node t l (2 * i)) (node t l (2 * i + 1))

  abbrev pub IsConsistent : MerkleTree → Type 0
  IsConsistent t = (l i : ℕ) → l < tree_depth → IsParent t l i

  -- The tree holds these leaves, and zeros behind them.
  pub record Holds (leaves : List Felt) (t : MerkleTree) : Type 0 where
    pub counted : t.next_leaf ≡ length leaves
    pub at_leaves : (i : ℕ) → node t 0 i ≡ get_or leaves i 0
    pub consistent : IsConsistent t

  get_or-zeros_from :
      (r l : ℕ) (p : Felt)
      → l < r
      → get_or (zeros_from hash_pair r p) (suc l) 0
        ≡ hash_pair (get_or (zeros_from hash_pair r p) l 0) (get_or (zeros_from hash_pair r p) l 0)
  unfolding zeros_from
  get_or-zeros_from zero l p h = elim h [ ]
  get_or-zeros_from (suc zero) zero p h = refl
  get_or-zeros_from (suc (suc r)) zero p h = refl
  get_or-zeros_from (suc r) (suc l) p h = get_or-zeros_from r l (hash_pair p p) (omega arith)

  get_or-zeros_from_zero : (r : ℕ) (p : Felt) → get_or (zeros_from hash_pair r p) 0 0 ≡ p
  unfolding zeros_from
  get_or-zeros_from_zero zero p = refl
  get_or-zeros_from_zero (suc r) p = refl

  pub new-Holds : Holds [] (new hash_pair)
  unfolding new node
  new-Holds = record {
    counted = refl;
    at_leaves = λ i. rw get_or-zeros_from_zero;
    consistent = λ l i h. rw add-one (get_or-zeros_from tree_depth l 0 h);
  }

  pub parent_lem :
      (t : MerkleTree) (level index : ℕ)
      → parent hash_pair index (node t level index) (node t level (sibling_index index))
        ≡ hash_pair (node t level (2 * (index / 2))) (node t level (2 * (index / 2) + 1))
  parent_lem t level index = elim (Bool-cases (index % 2 == 0)) [
    | inl e ↦
        let own : index ≡ 2 * (index / 2) = ground arith in
        let sibling : index + 1 ≡ 2 * (index / 2) + 1 = ground arith in
        rw e (ap₂ hash_pair (ap (node t level) own) (ap (node t level) sibling))
    | inr e ↦
        let own : index ≡ 2 * (index / 2) + 1 = ground arith in
        let sibling : index - 1 ≡ 2 * (index / 2) = ground arith in
        rw e (ap₂ hash_pair (ap (node t level) sibling) (ap (node t level) own))
  ]

  -- Every parent but that of one node is right.
  abbrev ConsistentBut : MerkleTree → ℕ → ℕ → Type 0
  ConsistentBut t level index =
      (l i : ℕ) → l < tree_depth → (l ≢ level) ⊎ (i ≢ index / 2) → IsParent t l i

  -- One round of `walk` sets the node over the current one right, whatever else is right already.
  put-consistent :
      (level up : ℕ) (t : MerkleTree) (next : Felt)
      → next ≡ hash_pair (node t level (2 * up)) (node t level (2 * up + 1))
      → ((l i : ℕ) → l < tree_depth → (l ≢ level) ⊎ (i ≢ up) → IsParent t l i)
      → ConsistentBut (put t (level + 1) up next) (level + 1) up
  put-consistent level up t next h c l i lt side =
      let above = node-put t (level + 1) up next (l + 1) i in
      let left = node-put t (level + 1) up next l (2 * i) in
      let right = node-put t (level + 1) up next l (2 * i + 1) in
      elim (ℕ_discrete l level) [
        | yes e ↦ elim (ℕ_discrete i up) [
          | yes f ↦ ground (arith, above, left, right)
          | no n ↦ ground (arith, above, left, right, c l i lt (inr n))
        ]
        | no n ↦ ground (arith, above, left, right, c l i lt (inl n))
      ]

  walk-IsConsistent :
      (rounds level index : ℕ) (t : MerkleTree) (current : Felt)
      → level + rounds ≡ tree_depth
      → node t level index ≡ current
      → ConsistentBut t level index
      → IsConsistent (walk hash_pair rounds t level index current)
  unfolding walk
  walk-IsConsistent zero level index t current e h c = λ l i lt. c l i lt (inl (omega arith))
  walk-IsConsistent (suc rounds) level index t current e h c =
      walk-IsConsistent rounds (level + 1) (index / 2) _ _ (omega arith) (node-put_self _ _ _ _) (
        put-consistent level (index / 2) t _
          (ap (λ x. parent hash_pair index x (node t level (sibling_index index))) (sym h)
            ∙ parent_lem t level index)
          c)

  node-walk :
      (rounds level index : ℕ) (t : MerkleTree) (current : Felt) (l i : ℕ)
      → l ≤ level
      → node (walk hash_pair rounds t level index current) l i ≡ node t l i
  unfolding walk
  node-walk zero level index t current l i h = refl
  node-walk (suc rounds) level index t current l i h =
      node-walk rounds (level + 1) (index / 2) _ _ l i (omega arith)
      ∙ node-put_below t (level + 1) (index / 2) _ l i (omega arith)

  put_leaf-ConsistentBut :
      (t : MerkleTree) (i : ℕ) (leaf : Felt) → IsConsistent t → ConsistentBut (put t 0 i leaf) 0 i
  put_leaf-ConsistentBut t i leaf c l j lt side =
      let above = node-put t 0 i leaf (l + 1) j in
      let left = node-put t 0 i leaf l (2 * j) in
      let right = node-put t 0 i leaf l (2 * j + 1) in ground (arith, above, left, right, c l j lt)

  store_leaf-IsConsistent :
      (t : MerkleTree) (leaf : Felt) → IsConsistent t → IsConsistent (store_leaf hash_pair t leaf)
  unfolding store_leaf node
  store_leaf-IsConsistent t leaf c =
      walk-IsConsistent tree_depth 0 t.next_leaf (put t 0 t.next_leaf leaf) leaf refl
        (node-put_self t 0 t.next_leaf leaf) (put_leaf-ConsistentBut t t.next_leaf leaf c)

  node-store_leaf :
      (t : MerkleTree) (leaf : Felt) (i : ℕ)
      → node (store_leaf hash_pair t leaf) 0 i ≡ (if i == t.next_leaf then leaf else node t 0 i)
  unfolding store_leaf node
  node-store_leaf t leaf i =
      node-walk tree_depth 0 t.next_leaf (put t 0 t.next_leaf leaf) leaf 0 i (omega arith)
      ∙ node-put t 0 t.next_leaf leaf 0 i

  pub store_leaf-Holds :
      (leaves : List Felt) (t : MerkleTree) (leaf : Felt)
      → Holds leaves t
      → Holds (leaves ++ leaf ∷ []) (store_leaf hash_pair t leaf)
  unfolding store_leaf
  store_leaf-Holds leaves t leaf h = record {
    counted = omega (arith, h.counted, length-append leaves (leaf ∷ []));
    at_leaves = λ i.
        node-store_leaf t leaf i
        ∙ ground (arith, h.counted, h.at_leaves i, get_or-append leaves leaf i);
    consistent = store_leaf-IsConsistent t leaf h.consistent;
  }

  pub insert_room :
      (leaves : List Felt) (t : MerkleTree) (leaf : Felt)
      → Holds leaves t
      → length leaves < 2 ^ tree_depth
      → insert hash_pair t leaf ≡ some (store_leaf hash_pair t leaf, length leaves)
  unfolding insert
  insert_room leaves t leaf h room = rw (h.counted, lt→ltb _ _ room)

  pub insert_stored :
      (t : MerkleTree) (leaf : Felt) (stored : MerkleTree × ℕ)
      → insert hash_pair t leaf ≡ some stored
      → stored.0 ≡ store_leaf hash_pair t leaf
  unfolding insert
  insert_stored t leaf stored e = ground arith

  -- Every stored node is the one of the balanced tree over the leaves.
  pub node-subtree :
      (leaves : List Felt) (t : MerkleTree)
      → Holds leaves t
      → (level i : ℕ) → level ≤ tree_depth
      → node t level i ≡ subtree hash_pair leaves level i
  unfolding subtree
  node-subtree leaves t h zero i lt = h.at_leaves i
  node-subtree leaves t h (suc level) i lt =
      (rw (add-one level) at (h.consistent level i lt))
      ∙ ap₂ hash_pair (node-subtree leaves t h level (2 * i) (omega arith))
          (node-subtree leaves t h level (2 * i + 1) (omega arith))
