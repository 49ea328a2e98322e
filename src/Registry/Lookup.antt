-- ===== src/Registry/Lookup.antt =====
-- tools/zkmsg/core/src/registry.rs: what `from_registrations` builds.
use stwo_starknet_verifier.Common.{
  ℕ, ◌+◌, ◌≡◌, inl, inr, refl, ap, ◌∙◌, subst, some, List, [], map, ok, get_elem?, arith,
  Option-cases,
}
use stwo_starknet_verifier.Felts.{Felt, Crates}
use stwo_starknet_verifier.Crypto.{hash_pair}
use stwo_starknet_verifier.Merkle.{new}
use stwo_starknet_verifier.Merkle.Invariant.{Holds, new-Holds}
use stwo_starknet_verifier.Registry.{
  Registration, Registry, find_handle, leaf_of, from_registrations, get_felt,
}
use stwo_starknet_verifier.Registry.Loop.{
  find_handle-nil, register-Holds, register-finds, register_sound, from_registrations-register,
}

module _ (k : Crates) where
  -- Each registration of a rebuilt registry stands at its leaf index, and the lookup of its handle
  -- gives it: no handle is registered twice. The tree holds their leaves in this order.
  pub get_felt-registered :
      (rs : List Registration) (g : Registry) (j : ℕ) (r : Registration)
      → from_registrations k rs ≡ ok g
      → get_elem? g.registrations j ≡ some r
      → (r.leaf_index ≡ j)
        × (get_felt k g r.handle ≡ ok r)
        × Holds (hash_pair k) (map (leaf_of k) g.registrations) g.tree
  unfolding get_felt
  get_felt-registered rs g j r h at_j =
      let run = from_registrations-register k rs g h in
      let found =
        register-finds k 0 [] (new (hash_pair k)) g.registrations (g.by_handle, g.tree) j r run
          at_j in
      let index : 0 + j ≡ j = omega arith in
      (
        found.0 ∙ index,
        rw (found.1, index, at_j) refl,
        register-Holds k 0 [] [] (new (hash_pair k)) g.registrations (g.by_handle, g.tree)
            (new-Holds (hash_pair k)) run,
      )

  -- A lookup gives only a registration of the registry that has this handle.
  pub get_felt_sound :
      (rs : List Registration) (g : Registry) (handle : Felt) (r : Registration)
      → from_registrations k rs ≡ ok g
      → get_felt k g handle ≡ ok r
      → (r.handle ≡ handle) × (get_elem? g.registrations r.leaf_index ≡ some r)
  unfolding get_felt
  get_felt_sound rs g handle r h got = elim (Option-cases (find_handle handle g.by_handle)) [
    | inl missing ↦ cc (rw (missing, get_felt) at got)
    | inr (n, found) ↦
        let run = from_registrations-register k rs g h in
        elim (register_sound k 0 [] (new (hash_pair k)) g.registrations (g.by_handle, g.tree) handle
          n run found) [
            | inl before ↦ absurd (find_handle-nil handle n before)
            | inr (j, r', index, at_j, its) ↦
                let equal : n ≡ j = omega (arith, index) in
                let gives : ok r' ≡ ok r = rw (found, equal, at_j, get_felt) at got in
                let same : r' ≡ r = cc in
                let placed =
                  register-finds k 0 [] (new (hash_pair k)) g.registrations (g.by_handle, g.tree) j
                    r' run at_j in
                let here : r'.leaf_index ≡ j = omega (arith, placed.0) in
                subst (λ x. (x.handle ≡ handle) × (get_elem? g.registrations x.leaf_index ≡ some x))
                  same (its, ap (get_elem? g.registrations) here ∙ at_j)
          ]
  ]
