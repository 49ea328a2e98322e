-- ===== src/Vault/Keeps.antt =====
-- tools/zkmsg/core/src/vault.rs: what `key_put`, `key_get` and `rewrap` leave alone.
use stwo_starknet_verifier.Common.{
  ◌≡◌, inl, inr, refl, ◌∙◌, Bool, true, false, none, some, Result, ok, err, Bool-cases,
  Result-cases, Option-cases,
}
use stwo_starknet_verifier.Felts.{Text}
use stwo_starknet_verifier.Device.{
  Bytes, Device, Error, Act, after, master_key_if_set, lookup, remove, put,
}
use stwo_starknet_verifier.Vault.{
  Ciphers, check_id, stored_form, key_put, key_get, upgrade, unwrap_key, rewrap,
}

-- The lock and the master key are the same.
abbrev pub Keeps : Device → Device → Type 0
Keeps d d' = (d'.lock_item ≡ d.lock_item) × (d'.master ≡ d.master)

pub Keeps-trans : (d mid d' : Device) → Keeps d mid → Keeps mid d' → Keeps d d'
Keeps-trans d mid d' h h' = (h'.0 ∙ h.0, h'.1 ∙ h.1)

pub after-Keeps :
    {A B : Type 0} (d : Device) (m : Device × Result Error A) (next : A → Act B)
    → Keeps d m.0
    → ((a : A) → (mid : Device) → Keeps d mid → Keeps d (next a mid).0)
    → Keeps d (after m next).0
after-Keeps d (mid, ok a) next h each = each a mid h
after-Keeps d (mid, err e) next h each = h

module _ (c : Ciphers) where
  pub key_put-Keeps :
      (nonce : Bytes) (id : Text) (key : Bytes) (d : Device) → Keeps d (key_put c nonce id key d).0
  unfolding key_put
  key_put-Keeps nonce id key d = elim (Bool-cases (check_id id)) [
    | inr bad ↦ rw bad (refl, refl)
    | inl good ↦ elim (Result-cases (stored_form c nonce id key d)) [
      | inl (e, failed) ↦ rw (good, failed) (refl, refl)
      | inr (form, formed) ↦ elim (Bool-cases (d.keychain d.calls)) [
        | inl works ↦ rw (good, formed, works) (refl, refl)
        | inr shut ↦ rw (good, formed, shut) (refl, refl)
      ]
    ]
  ]

  pub upgrade-Keeps :
      (nonce : Bytes) (id : Text) (key : Bytes) (bare : Bool) (d : Device)
      → Keeps d (upgrade c nonce id key bare d).0
  unfolding upgrade
  upgrade-Keeps nonce id key false d = (refl, refl)
  upgrade-Keeps nonce id key true d = elim (Result-cases (master_key_if_set d)) [
    | inl (e, failed) ↦ rw (upgrade, failed) (refl, refl)
    | inr (none, unset) ↦ rw (upgrade, unset) (refl, refl)
    | inr (some mk, held) ↦ rw (upgrade, held) (key_put-Keeps nonce id key d)
  ]

  pub key_get-Keeps : (nonce : Bytes) (id : Text) (d : Device) → Keeps d (key_get c nonce id d).0
  unfolding key_get
  key_get-Keeps nonce id d = elim (Bool-cases (check_id id)) [
    | inr bad ↦ rw bad (refl, refl)
    | inl good ↦ elim (Option-cases (lookup d.open_keys id)) [
      | inr (key, held) ↦ rw (good, held) (refl, refl)
      | inl unread ↦ elim (Option-cases (lookup d.profile_keys id)) [
        | inl missing ↦ rw (good, unread, missing) (refl, refl)
        | inr (form, found) ↦ elim (Result-cases (unwrap_key c id form d)) [
          | inl (e, failed) ↦ rw (good, unread, found, failed) (refl, refl)
          | inr ((key, bare), opened) ↦
              rw (good, unread, found, opened)
                (after-Keeps d (upgrade c nonce id key bare d)
                  (λ _ d'. (record d' { open_keys = put d'.open_keys id key }, ok (some key)))
                  (upgrade-Keeps nonce id key bare d) (λ u mid h. h))
        ]
      ]
    ]
  ]

  pub rewrap-Keeps :
      (nonce nonce' : Bytes) (id : Text) (d : Device) → Keeps d (rewrap c nonce nonce' id d).0
  unfolding rewrap
  rewrap-Keeps nonce nonce' id d =
      after-Keeps d (key_get c nonce id (record d { open_keys = remove d.open_keys id })) _
        (key_get-Keeps nonce id (record d { open_keys = remove d.open_keys id }))
        (λ found mid h. elim (Option-cases found) [
          | inl missing ↦ rw missing h
          | inr (key, there) ↦ rw there (
              after-Keeps d (key_put c nonce' id key mid) _
                (Keeps-trans d mid (key_put c nonce' id key mid).0 h
                  (key_put-Keeps nonce' id key mid))
                (λ u d' h'. h'))
        ])
