-- ===== src/Vault.antt =====
-- tools/zkmsg/core/src/vault.rs: the profile keys of the Keychain. AES-256-GCM and Argon2 are
-- parameters; a nonce that the code draws at random is an argument.
pub mod Keeps
use stwo_starknet_verifier.Common.{
  ℕ, zero, suc, ◌+◌, Bool, true, false, ◌&&◌, ◌||◌, Option, none, some, List, [], ◌∷◌, ◌++◌, Result,
  ok, err, if◌then◌else◌, ◌==◌, leb, ltb, length, take, drop,
}
use stwo_starknet_verifier.Felts.{Text, Crates, bytes, text_eq}
use stwo_starknet_verifier.Folders.{Entry, VaultFile, no_vault, bad_vault, names_key}
use stwo_starknet_verifier.Device.{
  Bytes, Device, refused, Error, keychain_refused, wrap_failed, bad_key_id, bad_profile_key,
  bad_sealed_key, bad_vault_file, Act, after, lookup, remove, put, forget_keys, master_key,
  master_key_if_set,
}

-- The functions of `aes_gcm` and `argon2`.
pub record Ciphers : Type 0 where
  -- AES-256-GCM: the key, the nonce, the associated data and the text
  pub encrypt : Bytes → Bytes → Bytes → Bytes → Option Bytes
  pub decrypt : Bytes → Bytes → Bytes → Bytes → Option Bytes
  -- Argon2id of a text, given by its characters, under a salt and the costs (m, t, p)
  pub argon2 : List ℕ → Bytes → ℕ × ℕ × ℕ → Option Bytes

-- `MAGIC`, `WRAPPED`, `NONCE_LEN` and `KEY_LEN`
abbrev pub magic : Bytes
magic = bytes "zkv1" ++ (0 ∷ [])

abbrev pub wrapped_tag : Bytes
wrapped_tag = bytes "zkk1"

abbrev pub nonce_len : ℕ
nonce_len = 12

abbrev pub key_len : ℕ
key_len = 32

-- `wrap_aad`
abbrev pub wrap_aad : Text → Bytes
wrap_aad id = bytes "zkmsg.profile-key/" ++ id

-- `check_id`
abbrev pub is_id_char : ℕ → Bool
is_id_char c = (leb b'0' c && leb c b'9') || (leb b'a' c && leb c b'f')

abbrev pub all_id_chars : Text → Bool
all_id_chars [] = true
all_id_chars (c ∷ cs) = is_id_char c && all_id_chars cs

unfoldable pub check_id : Text → Bool
check_id id = (length id == 32) && all_id_chars id

-- `strip_prefix`
abbrev pub strip_prefix : Bytes → Bytes → Option Bytes
strip_prefix [] text = some text
strip_prefix (p ∷ ps) [] = none
strip_prefix (p ∷ ps) (c ∷ cs) = let rest = strip_prefix ps cs in if p == c then rest else none

-- `is_sealed`
unfoldable pub is_sealed : Bytes → Bool
is_sealed contents = elim (strip_prefix magic contents) [ some rest ↦ true | none ↦ false ]

module _ (c : Ciphers) where
  -- `seal`
  unfoldable pub seal : Bytes → Bytes → Bytes → Bytes → Result Error Bytes
  seal nonce key aad plaintext = elim (c.encrypt key nonce aad plaintext) [
    | some ct ↦ ok (magic ++ (nonce ++ ct))
    | none ↦ err wrap_failed
  ]

  -- `open`
  unfoldable pub open_sealed : Bytes → Bytes → Bytes → Result Error Bytes
  open_sealed key aad sealed =
      let body = drop (length magic) sealed in
      let opened = c.decrypt key (take nonce_len body) aad (drop nonce_len body) in
      if leb (length magic + nonce_len + 16) (length sealed)
      then elim opened [ some plaintext ↦ ok plaintext | none ↦ err bad_sealed_key ]
      else err bad_sealed_key

  -- `stored_form`
  unfoldable pub stored_form : Bytes → Text → Bytes → Device → Result Error Bytes
  stored_form nonce id key d = elim (master_key_if_set d) [
    | err e ↦ err e
    | ok none ↦ ok key
    | ok (some mk) ↦ elim (seal nonce mk (wrap_aad id) key) [
      | err e ↦ err e
      | ok sealed ↦ ok (wrapped_tag ++ drop (length magic) sealed)
    ]
  ]

  -- `key_put`
  unfoldable pub key_put : Bytes → Text → Bytes → Act (Unit {0})
  key_put nonce id key d =
      if check_id id
      then elim (stored_form nonce id key d) [
        | err e ↦ (d, err e)
        | ok form ↦
            if d.keychain d.calls
            then (
              record d {
                calls = suc d.calls;
                profile_keys = put d.profile_keys id form;
                open_keys = put d.open_keys id key;
              },
              ok tt,
            )
            else (refused d, err keychain_refused)
      ]
      else (d, err bad_key_id)

  -- The key of an item of the Keychain, a wrapped one or a bare one.
  unfoldable pub unwrap_key : Text → Bytes → Device → Result Error (Bytes × Bool)
  unwrap_key id form d = elim (strip_prefix wrapped_tag form) [
    | none ↦ if length form == key_len then ok (form, true) else err bad_profile_key
    | some body ↦ elim (master_key d) [
      | err e ↦ err e
      | ok mk ↦ elim (open_sealed mk (wrap_aad id) (magic ++ body)) [
        | err e ↦ err e
        | ok key ↦ if length key == key_len then ok (key, false) else err bad_profile_key
      ]
    ]
  ]

  -- A bare key is wrapped once there is a master key.
  unfoldable pub upgrade : Bytes → Text → Bytes → Bool → Act (Unit {0})
  upgrade nonce id key false d = (d, ok tt)
  upgrade nonce id key true d = elim (master_key_if_set d) [
    | err e ↦ (d, err e)
    | ok none ↦ (d, ok tt)
    | ok (some mk) ↦ key_put nonce id key d
  ]

  -- `key_get`
  unfoldable pub key_get : Bytes → Text → Act (Option Bytes)
  key_get nonce id d =
      if check_id id
      then elim (lookup d.open_keys id) [
        | some key ↦ (d, ok (some key))
        | none ↦ elim (lookup d.profile_keys id) [
          | none ↦ (d, ok none)
          | some form ↦ elim (unwrap_key id form d) [
            | err e ↦ (d, err e)
            | ok (key, bare) ↦
                after (upgrade nonce id key bare d)
                  (λ _ d'. (record d' { open_keys = put d'.open_keys id key }, ok (some key)))
          ]
        ]
      ]
      else (d, err bad_key_id)

  -- `rewrap`
  unfoldable pub rewrap : Bytes → Bytes → Text → Act Bool
  rewrap nonce nonce' id d =
      after (key_get nonce id (record d { open_keys = remove d.open_keys id })) (λ found d'.
        elim found [
          | none ↦ (d', ok false)
          | some key ↦ after (key_put nonce' id key d') (λ _ d''. (d'', ok true))
        ])

-- `DELETE_ALL_LIMIT` of keychain.rs
abbrev pub delete_all_limit : ℕ
delete_all_limit = 10000

-- `delete_all` of keychain.rs, with so many rounds left: one deletion after the other, and a last one
-- that finds no item. A refused one leaves the items behind it.
unfoldable pub delete_all : ℕ → List (Text × Bytes) → Act (Unit {0})
delete_all zero items d = (d, err keychain_refused)
delete_all (suc left) [] d =
    if d.keychain d.calls
    then (record d { calls = suc d.calls; profile_keys = [] }, ok tt)
    else (refused d, err keychain_refused)
delete_all (suc left) (item ∷ items) d =
    let rest = delete_all left items (record d { calls = suc d.calls; profile_keys = items }) in
    if d.keychain d.calls then rest else (refused d, err keychain_refused)

-- `shred_all`: this process makes no vault afterwards, whether the deletion succeeds or not.
unfoldable pub shred_all : Act ℕ
shred_all d =
    after (delete_all delete_all_limit d.profile_keys (forget_keys (record d { wiped = true })))
      (λ _ d'. (d', ok (length d.profile_keys)))

-- `profile_key_id`
unfoldable pub profile_key_id : Entry → Result Error (Option Text)
profile_key_id p = elim p.vault [
  | no_vault ↦ ok none
  | bad_vault ↦ err bad_vault_file
  | names_key id ↦ if check_id id then ok (some id) else err bad_key_id
]
