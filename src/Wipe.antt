-- ===== src/Wipe.antt =====
-- tools/zkmsg/core/src/wipe.rs: `panic_wipe`. What it removes under the root is what `Folders` finds
-- there: an entry that cannot be removed is reported, one that cannot be listed is passed over.
pub mod Complete
pub mod Tests
pub mod Moves
use stwo_starknet_verifier.Common.{
  ℕ, Bool, not, ◌&&◌, true, false, Option, none, some, List, [], ◌∷◌, ◌++◌, Result, ok, err,
  if◌then◌else◌, length, ltb, ◌==◌,
}
use stwo_starknet_verifier.Felts.{Text, bytes, text_eq}
use stwo_starknet_verifier.Folders.{
  Entry, Folder, text_lt, is_profile_dir, filter_entries, all_profile_dirs, name_is, is_owned,
}
use stwo_starknet_verifier.Device.{
  Device, AccountsFile, no_home, bad_file, sepolia, Error, no_home_dir, bad_accounts_file,
  not_removed, Act, destroy,
}
use stwo_starknet_verifier.Vault.{shred_all}

-- `PanicReport`
pub record PanicReport : Type 0 where
  pub n_profiles : ℕ
  pub keys_shredded : ℕ
  pub account_keys_removed : List Text
  pub errors : List Error

-- `sort` with `dedup`, as insertion that skips what is there.
unfoldable pub insert_name : Text → List Text → List Text
insert_name name [] = name ∷ []
insert_name name (n ∷ ns) =
    let later = insert_name name ns in
    if text_eq name n then n ∷ ns else (if text_lt name n then name ∷ n ∷ ns else n ∷ later)

-- The accounts of profile directories, sorted, each once.
unfoldable pub profile_accounts : List Entry → List Text
profile_accounts [] = []
profile_accounts (p ∷ ps) = elim p.account [
  | some name ↦ insert_name name (profile_accounts ps)
  | none ↦ profile_accounts ps
]

-- `accounts.remove(account).is_some()`, on the Sepolia section
unfoldable pub has_account : List Text → Text → Bool
has_account [] name = false
has_account (a ∷ rest) name =
    let later = has_account rest name in if text_eq a name then true else later

unfoldable pub drop_account : List Text → Text → List Text
drop_account [] name = []
drop_account (a ∷ rest) name =
    let others = drop_account rest name in if text_eq a name then others else a ∷ others

-- `remove_sncast_account` for each account: what is left of the section, the accounts that were
-- removed, and an error for each write that failed.
unfoldable pub remove_accounts :
    (Text → Bool) → List Text → List Text → List Text × List Text × List Error
remove_accounts can_drop section [] = (section, [], [])
remove_accounts can_drop section (name ∷ names) =
    let gone = remove_accounts can_drop (drop_account section name) names in
    let kept = remove_accounts can_drop section names in
    if has_account section name
    then (if can_drop name
        then (gone.0, name ∷ gone.1, gone.2)
        else (kept.0, kept.1, bad_accounts_file ∷ kept.2))
    else kept

-- One error for each account, as the file is read once for each.
unfoldable pub bad_reads : List Text → List Error
bad_reads [] = []
bad_reads (name ∷ names) = bad_accounts_file ∷ bad_reads names

-- The removal of the entries that pass the test: what is left, and an error for each failure.
unfoldable pub sweep : (Entry → Bool) → List Entry → List Entry × List Error
sweep test [] = ([], [])
sweep test (e ∷ es) =
    let rest = sweep test es in
    if test e
    then (if e.removable then rest else (e ∷ rest.0, not_removed ∷ rest.1))
    else (e ∷ rest.0, rest.1)

-- The removal of ".DS_Store", whose failure is ignored.
unfoldable pub drop_ds_store : Folder → Folder
drop_ds_store f = record f {
  entries = filter_entries (λ e. not (name_is (bytes ".DS_Store") e && e.removable)) f.entries;
}

-- The errors of an outcome, for the report.
unfoldable pub error_of : {A : Type 0} → Result Error A → List Error
error_of (ok a) = []
error_of (err e) = e ∷ []

unfoldable pub count_of : Result Error ℕ → ℕ
count_of (ok n) = n
count_of (err e) = 0

-- The accounts file after the wipe, the keys removed, and the errors.
unfoldable pub wipe_accounts :
    (Text → Bool) → AccountsFile → List Text → AccountsFile × List Text × List Error
wipe_accounts can_drop no_home names = (no_home, [], no_home_dir ∷ [])
wipe_accounts can_drop bad_file names = (bad_file, [], bad_reads names)
wipe_accounts can_drop (sepolia section) names =
    let r = remove_accounts can_drop section names in (sepolia r.0, r.1, r.2)

-- `panic_wipe`: it never fails, and goes on past every failed step. That the root and the
-- archive are removed where nothing is left in them is left out.
unfoldable pub panic_wipe : Device → Device × PanicReport
panic_wipe d =
    let dirs = all_profile_dirs d.root d.archive in
    let shredded = shred_all d in
    let destroyed = destroy shredded.0 in
    let a = wipe_accounts d.can_drop d.accounts (profile_accounts dirs) in
    let live = sweep (is_owned d.root) d.root.entries in
    let archived = sweep (is_profile_dir d.archive) d.archive.entries in
    (
      record destroyed.0 {
        accounts = a.0;
        root = drop_ds_store (record d.root { entries = live.0 });
        archive = drop_ds_store (record d.archive { entries = archived.0 });
      },
      record {
        n_profiles = length dirs;
        keys_shredded = count_of shredded.1;
        account_keys_removed = a.1;
        errors = error_of shredded.1 ++ (error_of destroyed.1 ++ (a.2 ++ (live.1 ++ archived.1)));
      },
    )
