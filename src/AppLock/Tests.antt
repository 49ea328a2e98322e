-- ===== src/AppLock/Tests.antt =====
-- Runs of tools/zkmsg/core/src/applock.rs and wipe.rs on a small device. The ciphers stand for
-- AES-GCM and Argon2: a text is opened by the key that closed it, and a key is the PIN itself.
use stwo_starknet_verifier.Common.{
  ℕ, ◌<◌, ◌≡◌, refl, false, Option, none, some, List, [], ◌∷◌, ◌++◌, ok, arith, if◌then◌else◌,
  replicate,
}
use stwo_starknet_verifier.Felts.{bytes, text_eq}
use stwo_starknet_verifier.Serde.Digits.{crates}
use stwo_starknet_verifier.Folders.{filter_entries, sort_entries, all_profile_dirs}
use stwo_starknet_verifier.Device.{
  Bytes, LockBlob, absent, stored, Device, Error, lock, load_lock, save_lock, master_key,
}
use stwo_starknet_verifier.Vault.{Ciphers}
use stwo_starknet_verifier.Wipe.Tests.{fresh_device}
use stwo_starknet_verifier.AppLock.{
  unlocked, wrong, was_wiped, unlock, unwrap, kek, wrap, raised, attempt, settle_attempt,
  wait_after, decrypt_master, set_pin, change_pin, validate_pin, save_wrap, read_back,
  wrap_profile_keys, rewrap_master, after_old, kdf_costs,
}
use stwo_starknet_verifier.AppLock.Guesses.{
  with_lock, no_guess, wrong_guess, Guesses-counted, unlock-wipes, unlock-unlocked,
}
use stwo_starknet_verifier.AppLock.SetPin.{unlock-set_pin}
use stwo_starknet_verifier.AppLock.ChangePin.{unlock-change_pin}

-- The key stands before the text that it closes.
abbrev open_with : Bytes → Bytes → Option Bytes
open_with [] sealed = some sealed
open_with (b ∷ key) [] = none
open_with (b ∷ key) (c ∷ sealed) =
    let rest = open_with key sealed in if text_eq (b ∷ []) (c ∷ []) then rest else none

abbrev ciphers : Ciphers
ciphers = record {
  encrypt = λ key nonce aad msg. some (key ++ msg);
  decrypt = λ key nonce aad sealed. open_with key sealed;
  argon2 = λ pin salt costs. some pin;
}

abbrev master_bytes : Bytes
master_bytes = replicate 32 7

-- The lock of the PIN "123456".
abbrev lock_blob : LockBlob
lock_blob = record {
  salt = crates.hex_encode (replicate 16 1);
  kdf = kdf_costs;
  nonce = crates.hex_encode (replicate 12 2);
  wrapped = crates.hex_encode (bytes "123456" ++ master_bytes);
  fails = 0;
  not_before = 0;
}

abbrev locked_device : Device
locked_device = record fresh_device { lock_item = stored lock_blob }

right_opens : unwrap crates ciphers (bytes "123456") lock_blob ≡ ok (some master_bytes)
unfolding unwrap kek decrypt_master
right_opens = refl

wrong_fails : unwrap crates ciphers (bytes "000000") lock_blob ≡ ok none
unfolding unwrap kek decrypt_master
wrong_fails = refl

unlock-unlocked_example : unlock crates ciphers (bytes "123456") 5 6 locked_device ≡ (
  record locked_device {
    lock_item = stored (record lock_blob { fails = 0; not_before = 0 });
    master = some master_bytes;
    calls = 2;
  },
  ok unlocked,
)
unlock-unlocked_example =
    unlock-unlocked crates ciphers (bytes "123456") 5 6 locked_device lock_blob master_bytes refl
      refl refl (omega arith) right_opens

-- The lock after nine wrong PINs.
abbrev nine_failed : LockBlob
nine_failed = record lock_blob { fails = 9; not_before = 100 }

unlock-wipes_example :
    (d' : Device) × (errors : List Error) × (unlock crates ciphers
        (bytes "000000")
        100
        100
        (record fresh_device { lock_item = stored nine_failed })
      ≡ (d', ok (was_wiped errors)))
    × (d'.lock_item ≡ absent)
    × (d'.profile_keys ≡ [])
    × (d'.master ≡ none)
    × (d'.open_keys ≡ [])
unfolding unwrap
unlock-wipes_example =
    unlock-wipes crates ciphers (bytes "000000") 100 100
      (record fresh_device { lock_item = stored nine_failed }) nine_failed refl (λ i. refl)
      (omega arith) (omega arith) (omega arith) (omega arith) wrong_fails

abbrev once_failed : Device
once_failed = with_lock crates ciphers locked_device lock_blob 1 6 1

first_wrong :
    unlock crates ciphers (bytes "000000") 5 6 locked_device ≡ (once_failed, ok (wrong 9 0))
unfolding unlock load_lock attempt save_lock settle_attempt unwrap kek decrypt_master raised
    wait_after
first_wrong = refl

Guesses-counted_example :
    (1 < 10)
    × ((not_before calls : ℕ) × (with_lock crates ciphers locked_device lock_blob 1 not_before calls
          ≡ once_failed))
Guesses-counted_example =
    Guesses-counted crates ciphers locked_device lock_blob refl refl
      (wrong_guess 0 locked_device once_failed (bytes "000000") 5 6 9 0 no_guess first_wrong)

abbrev no_draws : ℕ → Bytes × Bytes
no_draws i = (replicate 12 3, replicate 12 4)

abbrev set_device : Device
set_device = record locked_device { master = some master_bytes; wiped = false; calls = 1 }

pin_set :
    set_pin crates ciphers
      (replicate 16 1)
      (replicate 12 2)
      master_bytes
      no_draws
      (bytes "123456")
      fresh_device
    ≡ (set_device, ok 0)
unfolding set_pin validate_pin load_lock save_wrap wrap kek save_lock read_back unwrap
    decrypt_master wrap_profile_keys all_profile_dirs sort_entries filter_entries
pin_set = refl

unlock-set_pin_example :
    ((unlock crates ciphers (bytes "123456") 5 6 (lock set_device)).1 ≡ ok unlocked)
    × ((unlock crates ciphers (bytes "123456") 5 6 (lock set_device)).0.master ≡ some master_bytes)
unlock-set_pin_example =
    unlock-set_pin crates ciphers (replicate 16 1) (replicate 12 2) master_bytes no_draws
      (bytes "123456") fresh_device set_device 0 5 6 pin_set refl refl

abbrev changed_device : Device
changed_device = record set_device {
  calls = 3;
  lock_item =
      stored (record lock_blob { wrapped = crates.hex_encode (bytes "abcdef" ++ master_bytes) });
}

pin_changed :
    change_pin crates ciphers
      (replicate 16 1)
      (replicate 12 2)
      (bytes "123456")
      (bytes "abcdef")
      5
      6
      locked_device
    ≡ (changed_device, ok unlocked)
unfolding change_pin validate_pin unlock attempt raised settle_attempt wait_after after_old
    rewrap_master master_key load_lock save_wrap wrap kek save_lock read_back unwrap decrypt_master
pin_changed = refl

unlock-change_pin_example :
    (mk : Bytes) × ((unlock crates ciphers (bytes "123456") 5 6 locked_device).0.master ≡ some mk)
    × ((unlock crates ciphers (bytes "123456") 5 6 locked_device).1 ≡ ok unlocked)
    × ((unlock crates ciphers (bytes "abcdef") 7 8 (lock changed_device)).1 ≡ ok unlocked)
    × ((unlock crates ciphers (bytes "abcdef") 7 8 (lock changed_device)).0.master ≡ some mk)
unlock-change_pin_example =
    unlock-change_pin crates ciphers (replicate 16 1) (replicate 12 2) (bytes "123456")
      (bytes "abcdef") 5 6 locked_device changed_device 7 8 pin_changed refl refl
