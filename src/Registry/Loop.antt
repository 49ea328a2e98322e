-- ===== src/Registry/Loop.antt =====
-- tools/zkmsg/core/src/registry.rs: the loop of `from_registrations`.
use stwo_starknet_verifier.Common.{
  ℕ, zero, suc, ◌+◌, ◌≡◌, ◌⊎◌, inl, inr, refl, sym, ap, ◌∙◌, subst, true, false, none, some, List,
  [], ◌∷◌, ◌++◌, map, ok, ◌==◌, get_elem?, arith, Bool-cases, Option-cases, >>=-eq-ok, ==_iff,
}
use mathlib.Core.List.{append_assoc, append-nil}
use stwo_starknet_verifier.Common.Sort.{sort_by_key}
use stwo_starknet_verifier.Felts.{Felt, Crates}
use stwo_starknet_verifier.Crypto.{hash_pair}
use stwo_starknet_verifier.Merkle.{MerkleTree, new, insert, store_leaf}
use stwo_starknet_verifier.Merkle.Invariant.{Holds, store_leaf-Holds, insert_stored}
use stwo_starknet_verifier.Registry.{
  Registration, Registry, find_handle, is_new, leaf_of, register, from_registrations,
}

-- A new handle hides none that is there, and is found itself.
find_handle-cons :
    (new_handle handle : Felt) (i n : ℕ) (by_handle : List (Felt × ℕ))
    → find_handle new_handle by_handle ≡ none
    → find_handle handle by_handle ≡ some n
    → find_handle handle ((new_handle, i) ∷ by_handle) ≡ some n
unfolding find_handle
find_handle-cons new_handle handle i n by_handle unknown found =
    elim (Bool-cases (new_handle == handle)) [
      | inr other ↦ rw other found
      | inl same ↦ let equal : new_handle ≡ handle = (==_iff new_handle handle).0 same in cc
    ]

pub find_handle-nil : (handle n : ℕ) → find_handle handle [] ≡ some n → ⊥
unfolding find_handle
find_handle-nil handle n h = cc

find_handle-head :
    (handle : Felt) (i : ℕ) (by_handle : List (Felt × ℕ))
    → find_handle handle ((handle, i) ∷ by_handle) ≡ some i
unfolding find_handle
find_handle-head handle i by_handle =
    let same : (handle == handle) ≡ true = ground arith in rw same refl

find_handle-tail :
    (new_handle handle : Felt) (i n : ℕ) (by_handle : List (Felt × ℕ))
    → (new_handle == handle) ≡ false
    → find_handle handle ((new_handle, i) ∷ by_handle) ≡ some n
    → find_handle handle by_handle ≡ some n
unfolding find_handle
find_handle-tail new_handle handle i n by_handle other found = rw (other, find_handle) at found

find_handle-first :
    (new_handle handle : Felt) (i n : ℕ) (by_handle : List (Felt × ℕ))
    → (new_handle == handle) ≡ true
    → find_handle handle ((new_handle, i) ∷ by_handle) ≡ some n
    → n ≡ i + 0
unfolding find_handle
find_handle-first new_handle handle i n by_handle same found =
    let found_here : some i ≡ some n = rw (same, find_handle) at found in
    let equal : i ≡ n = cc in omega (arith, equal)

module _ (k : Crates) where
  -- A round of the loop that did not fail.
  round-ok :
      (i : ℕ) (by_handle : List (Felt × ℕ)) (tree : MerkleTree) (r : Registration)
      (rest : List Registration) (end : List (Felt × ℕ) × MerkleTree)
      → register k i by_handle tree (r ∷ rest) ≡ ok end
      → (r.leaf_index ≡ i)
        × (find_handle r.handle by_handle ≡ none)
        × (register k
              (i + 1)
              ((r.handle, i) ∷ by_handle)
              (store_leaf (hash_pair k) tree (leaf_of k r))
              rest
            ≡ ok end)
  unfolding register is_new
  round-ok i by_handle tree r rest end h = elim (Bool-cases (r.leaf_index == i)) [
    | inr gap ↦ cc (rw (gap, register) at h)
    | inl here ↦ elim (Option-cases (find_handle r.handle by_handle)) [
      | inr (j, known) ↦ cc (rw (here, known, register) at h)
      | inl unknown ↦ elim (Option-cases (insert (hash_pair k) tree (leaf_of k r))) [
        | inl full ↦ cc (rw (here, unknown, full, register) at h)
        | inr (next, stored) ↦
            let kept = insert_stored (hash_pair k) tree (leaf_of k r) next stored in
            (
              (==_iff r.leaf_index i).0 here,
              unknown,
              subst (λ t. register k (i + 1) ((r.handle, i) ∷ by_handle) t rest ≡ ok end) kept
                  (rw (here, unknown, stored, register) at h),
            )
      ]
    ]
  ]

  pub register-Holds :
      (i : ℕ) (by_handle : List (Felt × ℕ)) (before : List Felt) (tree : MerkleTree)
      (rs : List Registration) (end : List (Felt × ℕ) × MerkleTree)
      → Holds (hash_pair k) before tree
      → register k i by_handle tree rs ≡ ok end
      → Holds (hash_pair k) (before ++ map (leaf_of k) rs) end.1
  unfolding register
  register-Holds i by_handle before tree [] end held h =
      let same : tree ≡ end.1 = cc in rw append-nil (subst (Holds (hash_pair k) before) same held)
  register-Holds i by_handle before tree (r ∷ rs) end held h =
      let round = round-ok i by_handle tree r rs end h in
      let next = store_leaf-Holds (hash_pair k) before tree (leaf_of k r) held in
      rw append_assoc at (
        register-Holds (i + 1) ((r.handle, i) ∷ by_handle) (before ++ leaf_of k r ∷ [])
          (store_leaf (hash_pair k) tree (leaf_of k r)) rs end next round.2)

  -- A handle that is there stays, at its index.
  register-keeps :
      (i : ℕ) (by_handle : List (Felt × ℕ)) (tree : MerkleTree) (rs : List Registration)
      (end : List (Felt × ℕ) × MerkleTree) (handle : Felt) (n : ℕ)
      → register k i by_handle tree rs ≡ ok end
      → find_handle handle by_handle ≡ some n
      → find_handle handle end.0 ≡ some n
  unfolding register
  register-keeps i by_handle tree [] end handle n h found =
      let same : by_handle ≡ end.0 = cc in rw (sym same) found
  register-keeps i by_handle tree (r ∷ rs) end handle n h found =
      let round = round-ok i by_handle tree r rs end h in
      register-keeps (i + 1) ((r.handle, i) ∷ by_handle)
        (store_leaf (hash_pair k) tree (leaf_of k r)) rs end handle n round.2
        (find_handle-cons r.handle handle i n by_handle round.1 found)

  -- Every registration of the list has its index and is found by its handle.
  pub register-finds :
      (i : ℕ) (by_handle : List (Felt × ℕ)) (tree : MerkleTree) (rs : List Registration)
      (end : List (Felt × ℕ) × MerkleTree) (j : ℕ) (r : Registration)
      → register k i by_handle tree rs ≡ ok end
      → get_elem? rs j ≡ some r
      → (r.leaf_index ≡ i + j) × (find_handle r.handle end.0 ≡ some (i + j))
  register-finds i by_handle tree [] end j r h at_j = cc
  register-finds i by_handle tree (first ∷ rs) end zero r h at_j =
      let round = round-ok i by_handle tree first rs end h in
      let same : first ≡ r = cc in
      let here : i + 0 ≡ i = omega arith in
      rw (here, sym same)
        (
          round.0,
          register-keeps (i + 1) ((first.handle, i) ∷ by_handle)
              (store_leaf (hash_pair k) tree (leaf_of k first)) rs end first.handle i round.2
              (find_handle-head first.handle i by_handle),
        )
  register-finds i by_handle tree (first ∷ rs) end (suc j) r h at_j =
      let round = round-ok i by_handle tree first rs end h in
      let rest =
        register-finds (i + 1) ((first.handle, i) ∷ by_handle)
          (store_leaf (hash_pair k) tree (leaf_of k first)) rs end j r round.2 at_j in
      let index : i + 1 + j ≡ i + suc j = omega arith in (rest.0 ∙ index, rest.1 ∙ ap some index)

  -- What is found by a handle was there before, or is a registration with this handle.
  pub register_sound :
      (i : ℕ) (by_handle : List (Felt × ℕ)) (tree : MerkleTree) (rs : List Registration)
      (end : List (Felt × ℕ) × MerkleTree) (handle : Felt) (n : ℕ)
      → register k i by_handle tree rs ≡ ok end
      → find_handle handle end.0 ≡ some n
      → (find_handle handle by_handle ≡ some n)
        ⊎ ((j : ℕ) × (r : Registration) × (n ≡ i + j)
            × (get_elem? rs j ≡ some r)
            × (r.handle ≡ handle))
  unfolding register
  register_sound i by_handle tree [] end handle n h found =
      let same : by_handle ≡ end.0 = cc in inl (rw same found)
  register_sound i by_handle tree (first ∷ rs) end handle n h found =
      let round = round-ok i by_handle tree first rs end h in
      elim (register_sound (i + 1) ((first.handle, i) ∷ by_handle)
        (store_leaf (hash_pair k) tree (leaf_of k first)) rs end handle n round.2 found) [
          | inr (j, r, index, at_j, its) ↦ inr (suc j, r, omega (arith, index), at_j, its)
          | inl added ↦ elim (Bool-cases (first.handle == handle)) [
            | inr other ↦ inl (find_handle-tail first.handle handle i n by_handle other added)
            | inl same ↦ inr (
              zero,
              first,
              find_handle-first first.handle handle i n by_handle same added,
              refl,
              (==_iff first.handle handle).0 same,
            )
          ]
        ]

  -- What a successful `from_registrations` went through.
  pub from_registrations-register :
      (rs : List Registration) (g : Registry)
      → from_registrations k rs ≡ ok g
      → register k 0 [] (new (hash_pair k)) g.registrations ≡ ok (g.by_handle, g.tree)
  unfolding from_registrations
  from_registrations-register rs g h =
      let (end, run, built) =
        >>=-eq-ok (register k 0 [] (new (hash_pair k)) (sort_by_key (λ r. r.leaf_index) rs)) _ h in
      let built_as : Registry = record {
        registrations = sort_by_key (λ r. r.leaf_index) rs;
        by_handle = end.0;
        tree = end.1;
      } in
      let same : built_as ≡ g = cc in
      subst (λ x. register k 0 [] (new (hash_pair k)) x.registrations ≡ ok (x.by_handle, x.tree))
        same run
