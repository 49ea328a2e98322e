-- ===== src/Tickets/Tree/Rebuild.antt =====
-- tools/zkmsg/core/src/tickets.rs: the rebuilt tree holds the purchases in index order, whatever
-- order the events came in.
use mathlib.Core.List.{append_assoc, append-nil, Perm}
use mathlib.Core.List.Perm
use mathlib.Core.Path.{ap₂}
use stwo_starknet_verifier.Common.{
  ℕ, ◌+◌, ◌^◌, ◌≤◌, ◌<◌, ◌≡◌, refl, sym, ap, subst, ◌∙◌, true, some, List, [], ◌∷◌, ◌++◌, length,
  get_or, ◌==◌, ok, arith, length-append, lt→ltb, Bool-cases, inl, inr, Option-cases,
}
use stwo_starknet_verifier.Common.Sort.{
  sort_by_key, Ascending, sort_by_key-Ascending, sort_by_key-perm, Ascending-Distinct,
}
use stwo_starknet_verifier.Felts.{Felt, Crates}
use stwo_starknet_verifier.Crypto.{hash_pair}
use stwo_starknet_verifier.Merkle.{tree_depth, new, insert, store_leaf, root, fold_path, path}
use stwo_starknet_verifier.Merkle.Invariant.{
  Holds, new-Holds, store_leaf-Holds, insert_room, insert_stored,
}
use stwo_starknet_verifier.Merkle.Paths.{fold_path-path}
use stwo_starknet_verifier.Tickets.Tree.{TicketTree, rebuild, from_bought, tree_path, by_index}

-- The purchases of these leaves, the first under index `i`.
abbrev pub enumerate : ℕ → List Felt → List (ℕ × Felt)
enumerate i [] = []
enumerate i (l ∷ ls) = (i, l) ∷ enumerate (i + 1) ls

enumerate-Ascending : (i : ℕ) (ls : List Felt) → Ascending by_index i (enumerate i ls)
enumerate-Ascending i [] = tt
enumerate-Ascending i (l ∷ ls) = (omega arith, enumerate-Ascending (i + 1) ls)

module _ (k : Crates) where
  -- The tree of the loop holds the leaves so far, and those are its leaves.
  pub record IsBuilt (t : TicketTree) : Type 0 where
    pub held : Holds (hash_pair k) t.leaves t.tree

  rebuild-enumerate :
      (i : ℕ) (acc : TicketTree) (ls : List Felt)
      → IsBuilt acc
      → length acc.leaves + length ls ≤ 2 ^ tree_depth
      → (t : TicketTree) × (rebuild k i acc (enumerate i ls) ≡ ok t)
        × (t.leaves ≡ acc.leaves ++ ls)
        × IsBuilt t
  unfolding rebuild
  rebuild-enumerate i acc [] h room = (acc, refl, sym (append-nil acc.leaves), h)
  rebuild-enumerate i acc (l ∷ ls) h room =
      let next : TicketTree = record {
        leaves = acc.leaves ++ l ∷ [];
        tree = store_leaf (hash_pair k) acc.tree l;
      } in
      let step = insert_room (hash_pair k) acc.leaves acc.tree l h.held (omega arith) in
      let built : IsBuilt next = record {
        held = store_leaf-Holds (hash_pair k) acc.leaves acc.tree l h.held;
      } in
      let (t, run, leaves, done) =
        rebuild-enumerate (i + 1) next ls built
          (omega (arith, length-append acc.leaves (l ∷ []))) in
      let same : (i == i) ≡ true = ground arith in
      (t, rw (same, step) run, leaves ∙ append_assoc acc.leaves (l ∷ []) ls, done)

  -- What `rebuild` accepts counts up from `i`, and its leaves are added in that order.
  rebuild-ok :
      (i : ℕ) (acc t : TicketTree) (bs : List (ℕ × Felt))
      → IsBuilt acc
      → rebuild k i acc bs ≡ ok t
      → (ls : List Felt) × (bs ≡ enumerate i ls) × (t.leaves ≡ acc.leaves ++ ls) × IsBuilt t
  unfolding rebuild
  rebuild-ok i acc t [] h e =
      let same : acc ≡ t = cc in
      ([], refl, sym (ap (λ u. u.leaves) same) ∙ sym (append-nil acc.leaves), subst IsBuilt same h)
  rebuild-ok i acc t ((index, l) ∷ bs) h e = elim (Bool-cases (index == i)) [
    | inr no_match ↦ cc (rw (no_match, rebuild) at e)
    | inl match ↦ elim (Option-cases (insert (hash_pair k) acc.tree l)) [
      | inl full ↦ cc (rw (match, full, rebuild) at e)
      | inr (stored, found) ↦
          let next : TicketTree = record { leaves = acc.leaves ++ l ∷ []; tree = stored.0 } in
          let built : IsBuilt next = record {
            held =
                subst (Holds (hash_pair k) (acc.leaves ++ l ∷ []))
                  (sym (insert_stored (hash_pair k) acc.tree l stored found))
                  (store_leaf-Holds (hash_pair k) acc.leaves acc.tree l h.held);
          } in
          let (ls, shape, leaves, done) =
            rebuild-ok (i + 1) next t bs built (rw (match, found, rebuild) at e) in
          let first : index ≡ i = ground arith in
          (
            l ∷ ls,
            ap₂ (λ n rest. (n, l) ∷ rest) first shape,
            leaves ∙ append_assoc acc.leaves (l ∷ []) ls,
            done,
          )
    ]
  ]

  new-IsBuilt : IsBuilt (record { leaves = []; tree = new (hash_pair k) })
  new-IsBuilt = record { held = new-Holds (hash_pair k) }

  -- Up to 2 ^ 20 purchases, in any order, rebuild a tree with their leaves by index.
  pub from_bought-perm :
      (ls : List Felt) (bought : List (ℕ × Felt))
      → length ls ≤ 2 ^ tree_depth
      → Perm bought (enumerate 0 ls)
      → (t : TicketTree) × (from_bought k bought ≡ ok t)
        × (t.leaves ≡ ls)
        × Holds (hash_pair k) ls t.tree
  unfolding from_bought
  from_bought-perm ls bought room p =
      let order = enumerate-Ascending 0 ls in
      let distinct = Ascending-Distinct by_index 0 (enumerate 0 ls) order in
      let events_set : IsSet (List (ℕ × Felt)) = hlevel in
      let sorted =
        sym (sort_by_key-perm by_index events_set (Perm.symm p) distinct)
        ∙ sort_by_key-Ascending by_index 0 (enumerate 0 ls) order in
      let (t, run, leaves, done) = rebuild-enumerate 0 _ ls new-IsBuilt (omega arith) in
      (t, rw sorted run, leaves, subst (λ xs. Holds (hash_pair k) xs t.tree) leaves done.held)

  -- What is accepted is the purchases 0, 1, 2, … once each, and the tree holds exactly them.
  pub from_bought-ok :
      (bought : List (ℕ × Felt)) (t : TicketTree)
      → from_bought k bought ≡ ok t
      → (sort_by_key by_index bought ≡ enumerate 0 t.leaves) × Holds (hash_pair k) t.leaves t.tree
  unfolding from_bought
  from_bought-ok bought t e =
      let (ls, shape, leaves, done) = rebuild-ok 0 _ t _ new-IsBuilt e in
      (shape ∙ ap (enumerate 0) (sym leaves), done.held)

  -- The path of every ticket of a rebuilt tree folds from its leaf to the tree's root.
  pub tree_path-folds :
      (bought : List (ℕ × Felt)) (t : TicketTree) (index : ℕ)
      → from_bought k bought ≡ ok t
      → index < length t.leaves
      → length t.leaves ≤ 2 ^ tree_depth
      → (siblings : List Felt) × (tree_path t index ≡ ok siblings)
        × (fold_path (hash_pair k) (get_or t.leaves index 0) index siblings ≡ some (root t.tree))
  unfolding tree_path
  tree_path-folds bought t index e small room = (
    path t.tree index,
    rw (lt→ltb _ _ small),
    fold_path-path (hash_pair k) t.leaves t.tree index (from_bought-ok bought t e).1 (omega arith),
  )
