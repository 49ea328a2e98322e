-- ===== src/Wipe/Tests.antt =====
-- Panic wipes of tools/zkmsg/core/src/wipe.rs on small devices.
use stwo_starknet_verifier.Common.{◌≡◌, refl, true, false, none, some, [], ◌∷◌}
use stwo_starknet_verifier.Felts.{bytes}
use stwo_starknet_verifier.Folders.{
  Entry, file, directory, no_vault, text_lt, is_owned, is_profile_dir, named_in, has_config,
  is_ticket_file, filter_entries, insert_entry, sort_entries, all_profile_dirs,
}
use stwo_starknet_verifier.Device.{absent, Device, sepolia, lock, forget_keys, destroy}
use stwo_starknet_verifier.Vault.{delete_all, shred_all}
use stwo_starknet_verifier.Wipe.{
  panic_wipe, profile_accounts, sweep, drop_ds_store, wipe_accounts, remove_accounts, drop_account,
  has_account, error_of, count_of, insert_name,
}
use stwo_starknet_verifier.Wipe.Complete.{HasNone, NoneLeft, panic_wipe_complete}

abbrev pub fresh_device : Device
fresh_device = record {
  lock_item = absent;
  profile_keys = [];
  keychain = λ i. true;
  calls = 0;
  master = none;
  open_keys = [];
  wiped = false;
  root = record { readable = true; entries = [] };
  archive = record { readable = true; entries = [] };
  accounts = sepolia [];
  can_drop = λ name. true;
}

abbrev an_entry : Entry
an_entry = record {
  name = bytes "notes.txt";
  is_utf8 = true;
  kind = file;
  listed = true;
  removable = true;
  vault = no_vault;
  account = none;
}

abbrev carol : Entry
carol = record an_entry {
  name = bytes ".zkmsg-carol";
  kind = directory;
  account = some (bytes "zkmsg-carol");
}

-- Two profiles, one of them in the archive, the file `current` and one that is not the program's.
abbrev used_device : Device
used_device = record fresh_device {
  profile_keys = (bytes "k", 1 ∷ []) ∷ [];
  root = record {
    readable = true;
    entries = carol ∷ an_entry ∷ record an_entry { name = bytes "current" } ∷ [];
  };
  archive = record { readable = true; entries = carol ∷ [] };
  accounts = sepolia (bytes "keep" ∷ bytes "zkmsg-carol" ∷ []);
}

panic_wipe-clean : (panic_wipe used_device).1.errors ≡ []
unfolding panic_wipe profile_accounts insert_name text_lt sweep wipe_accounts remove_accounts
    drop_account has_account error_of count_of delete_all shred_all destroy lock forget_keys
    is_owned is_profile_dir named_in has_config is_ticket_file filter_entries insert_entry
    sort_entries all_profile_dirs
panic_wipe-clean = refl

panic_wipe_complete_example :
    ((panic_wipe used_device).0.lock_item ≡ absent)
    × ((panic_wipe used_device).0.profile_keys ≡ [])
    × ((panic_wipe used_device).0.master ≡ none)
    × ((panic_wipe used_device).0.open_keys ≡ [])
    × NoneLeft (is_owned used_device.root) (panic_wipe used_device).0.root.entries
    × NoneLeft (is_profile_dir used_device.archive) (panic_wipe used_device).0.archive.entries
    × HasNone
        (panic_wipe used_device).0.accounts
        (profile_accounts (all_profile_dirs used_device.root used_device.archive))
panic_wipe_complete_example = panic_wipe_complete used_device panic_wipe-clean

-- The same device, with an archive that cannot be read.
abbrev blind_device : Device
blind_device = record used_device { archive = record { readable = false; entries = carol ∷ [] } }

-- The wipe reports no error, and the archived profile is left.
blind-clean :
    ((panic_wipe blind_device).1.errors ≡ [])
    × ((panic_wipe blind_device).0.archive.entries ≡ carol ∷ [])
unfolding panic_wipe profile_accounts insert_name text_lt sweep drop_ds_store wipe_accounts
    remove_accounts drop_account has_account error_of count_of delete_all shred_all destroy lock
    forget_keys is_owned is_profile_dir named_in has_config is_ticket_file filter_entries
    insert_entry sort_entries all_profile_dirs
blind-clean = (refl, refl)
