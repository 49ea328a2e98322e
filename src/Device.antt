-- ===== src/Device.antt =====
-- What tools/zkmsg/core/src/applock.rs, vault.rs and wipe.rs share: the login Keychain, what the
-- process holds in memory, and the directories and accounts on disk. Every write to the Keychain and
-- every deletion from it may be refused by itself. An operation maps the device to
-- the device after it and a result, so that a failed one keeps the writes before the failure.
use stwo_starknet_verifier.Common.{
  ℕ, suc, Bool, Option, none, some, List, [], ◌∷◌, Result, ok, err, if◌then◌else◌,
}
use stwo_starknet_verifier.Common.Effects.{Effect}
pub use stwo_starknet_verifier.Common.Effects.{after, after-eq-ok}
use stwo_starknet_verifier.Felts.{Text, text_eq}
use stwo_starknet_verifier.Folders.{Folder}

-- Bytes of a key, a nonce, a salt or a sealed value.
abbrev pub Bytes : Type 0
Bytes = List ℕ

-- `LockBlob` of applock.rs
pub record LockBlob : Type 0 where
  pub salt : Text
  pub kdf : ℕ × ℕ × ℕ
  pub nonce : Text
  pub wrapped : Text
  -- consecutive failed attempts
  pub fails : ℕ
  -- Unix seconds before which no attempt is checked
  pub not_before : ℕ

-- The Keychain item of the app lock, as `load` finds it.
pub data LockItem : Type 0 where
  absent unreadable : LockItem
  stored : LockBlob → LockItem

-- The accounts file of sncast: its Sepolia section, where there is a file.
pub data AccountsFile : Type 0 where
  no_home bad_file : AccountsFile
  sepolia : List Text → AccountsFile

pub record Device : Type 0 where
  pub lock_item : LockItem
  -- the profile keys of the Keychain, by id
  pub profile_keys : List (Text × Bytes)
  -- whether the Keychain accepts its n-th write or deletion, and how many it was asked for
  pub keychain : ℕ → Bool
  pub calls : ℕ
  -- MK while unlocked, and the profile keys read so far
  pub master : Option Bytes
  pub open_keys : List (Text × Bytes)
  pub wiped : Bool
  -- the root of the profiles, but for the archive, and the archive
  pub root : Folder
  pub archive : Folder
  pub accounts : AccountsFile
  -- whether the accounts file can be written without this account
  pub can_drop : Text → Bool

pub data Error : Type 0 where
  keychain_refused : Error
  bad_lock : Error
  no_pin_set : Error
  pin_already_set : Error
  pin_too_short : Error
  pin_too_long : Error
  pin_has_controls : Error
  kdf_failed : Error
  bad_hex : Error
  nonce_panics : Error
  wrap_failed : Error
  bad_master_key : Error
  lock_not_saved : Error
  no_read_back : Error
  locked : Error
  pin_gone : Error
  bad_key_id : Error
  bad_profile_key : Error
  bad_sealed_key : Error
  bad_vault_file : Error
  no_home_dir : Error
  bad_accounts_file : Error
  not_removed : Error

abbrev pub Act : Type 0 → Type 0
Act A = Effect Device Error A

-- An association list as the Keychain's items of one service.
abbrev pub lookup : {A : Type 0} → List (Text × A) → Text → Option A
lookup [] id = none
lookup ((key, a) ∷ rest) id = if text_eq key id then some a else lookup rest id

abbrev pub remove : {A : Type 0} → List (Text × A) → Text → List (Text × A)
remove [] id = []
remove ((key, a) ∷ rest) id =
    let others = remove rest id in if text_eq key id then others else (key, a) ∷ others

abbrev pub put : {A : Type 0} → List (Text × A) → Text → A → List (Text × A)
put items id a = (id, a) ∷ remove items id

-- `applock::load`
unfoldable pub load_lock : Device → Result Error (Option LockBlob)
load_lock d = elim d.lock_item [
  | absent ↦ ok none
  | unreadable ↦ err bad_lock
  | stored b ↦ ok (some b)
]

-- A write or deletion that the Keychain refused
abbrev pub refused : Device → Device
refused d = record d { calls = suc d.calls }

-- A lock that is saved
abbrev pub with_saved : Device → LockBlob → Device
with_saved d b = record d { calls = suc d.calls; lock_item = stored b }

-- `applock::save`
unfoldable pub save_lock : LockBlob → Act (Unit {0})
save_lock b d =
    if d.keychain d.calls then (with_saved d b, ok tt) else (refused d, err keychain_refused)

-- `vault::forget_keys`
unfoldable pub forget_keys : Device → Device
forget_keys d = record d { open_keys = [] }

-- `applock::lock`
unfoldable pub lock : Device → Device
unfolding forget_keys
lock d = forget_keys (record d { master = none })

-- `applock::destroy`
unfoldable pub destroy : Act (Unit {0})
unfolding lock
destroy d =
    let locked_device = lock d in
    if d.keychain d.calls
    then (record locked_device { calls = suc d.calls; lock_item = absent }, ok tt)
    else (refused locked_device, err keychain_refused)

-- `applock::master_key`
unfoldable pub master_key : Device → Result Error Bytes
master_key d = elim d.master [
  | some mk ↦ ok mk
  | none ↦ elim (load_lock d) [ err e ↦ err e | ok none ↦ err pin_gone | ok (some b) ↦ err locked ]
]

-- `applock::master_key_if_set`
unfoldable pub master_key_if_set : Device → Result Error (Option Bytes)
master_key_if_set d = elim d.master [
  | some mk ↦ ok (some mk)
  | none ↦ elim (load_lock d) [ err e ↦ err e | ok none ↦ ok none | ok (some b) ↦ err locked ]
]
