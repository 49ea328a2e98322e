-- ===== src/Folders.antt =====
-- tools/zkmsg/core/src/wipe.rs: which entries under the root of the profiles are profile
-- directories, and which are the program's own.
use stwo_starknet_verifier.Common.{
  ◌-◌, Bool, true, false, ◌&&◌, ◌||◌, Option, List, [], ◌∷◌, ◌++◌, if◌then◌else◌, length, drop, ltb,
  leb, ◌==◌,
}
use stwo_starknet_verifier.Common.Texts.{starts_with}
use stwo_starknet_verifier.Felts.{Text, bytes, text_eq}

-- What vault.json of a profile says of its key.
pub data VaultFile : Type 0 where
  no_vault bad_vault : VaultFile
  names_key : Text → VaultFile

-- What `is_dir` and `is_file` say of a path.
pub data Kind : Type 0 where
  file directory neither : Kind

-- An entry of a directory.
pub record Entry : Type 0 where
  -- the name as `to_string_lossy` gives it, and whether it is UTF-8
  pub name : Text
  pub is_utf8 : Bool
  pub kind : Kind
  -- `flatten` passes over an entry that `read_dir` cannot read
  pub listed : Bool
  -- whether removing it works
  pub removable : Bool
  -- of a profile: its vault, and the account of its configuration
  pub vault : VaultFile
  pub account : Option Text

-- A directory, and whether `read_dir` works on it.
pub record Folder : Type 0 where
  pub readable : Bool
  pub entries : List Entry

abbrev pub profile_prefix : Text
profile_prefix = bytes ".zkmsg-"

abbrev pub is_directory : Kind → Bool
is_directory file = false
is_directory directory = true
is_directory neither = false

abbrev pub is_file : Kind → Bool
is_file file = true
is_file directory = false
is_file neither = false

-- The order of texts
unfoldable pub text_lt : Text → Text → Bool
text_lt a [] = false
text_lt [] (y ∷ ys) = true
text_lt (x ∷ xs) (y ∷ ys) =
    let later = text_lt xs ys in if ltb x y then true else (if x == y then later else false)

-- A directory with the name of a profile, which `read_dir` lists.
unfoldable pub is_profile_dir : Folder → Entry → Bool
is_profile_dir f e =
    (f.readable && e.listed)
    && ((e.is_utf8
          && (ltb (length profile_prefix) (length e.name) && starts_with profile_prefix e.name))
        && is_directory e.kind)

unfoldable pub filter_entries : (Entry → Bool) → List Entry → List Entry
filter_entries test [] = []
filter_entries test (e ∷ es) =
    let rest = filter_entries test es in if test e then e ∷ rest else rest

unfoldable pub insert_entry : Entry → List Entry → List Entry
insert_entry e [] = e ∷ []
insert_entry e (x ∷ xs) =
    let later = insert_entry e xs in if text_lt x.name e.name then x ∷ later else e ∷ x ∷ xs

unfoldable pub sort_entries : List Entry → List Entry
sort_entries [] = []
sort_entries (e ∷ es) = insert_entry e (sort_entries es)

-- `all_profile_dirs`: in the order of the paths a live profile is before the archived ones, since
-- ".zkmsg-" is before "archive".
unfoldable pub all_profile_dirs : Folder → Folder → List Entry
all_profile_dirs root archive =
    sort_entries (filter_entries (is_profile_dir root) root.entries)
    ++ sort_entries (filter_entries (is_profile_dir archive) archive.entries)

-- The entry at this name.
abbrev pub name_is : Text → Entry → Bool
name_is name e = e.is_utf8 && text_eq name e.name

unfoldable pub named_in : List Text → Entry → Bool
named_in [] e = false
named_in (name ∷ names) e = name_is name e || named_in names e

-- `TOR_DIR` and `SETTINGS_FILE` of net.rs
abbrev pub net_names : List Text
net_names = bytes "tor" ∷ bytes "network.json" ∷ []

-- `LEGACY`
abbrev pub legacy : List Text
legacy =
    bytes "config.json"
    ∷ bytes "keys.json"
    ∷ bytes "sends"
    ∷ bytes "inbox.json"
    ∷ bytes "proofs"
    ∷ bytes "vault.json"
    ∷ bytes "tickets.json"
    ∷ bytes "quota.json"
    ∷ bytes "setup.json"
    ∷ bytes "daemon-token"
    ∷ bytes "sync-cache.json"
    ∷ bytes "registrations.json"
    ∷ bytes "inbox-cache.json"
    ∷ []

-- `root.join("config.json").is_file()`
unfoldable pub has_config : List Entry → Bool
has_config [] = false
has_config (e ∷ es) = (name_is (bytes "config.json") e && is_file e.kind) || has_config es

abbrev pub ends_with : Text → Text → Bool
ends_with suffix text =
    leb (length suffix) (length text) && text_eq suffix (drop (length text - length suffix) text)

unfoldable pub is_ticket_file : Folder → Entry → Bool
is_ticket_file f e =
    (f.readable && e.listed)
    && (starts_with (bytes "tickets-") e.name && ends_with (bytes ".json") e.name)

-- Whether `owned_entries` has this entry of the root; of the archive it has the profiles.
unfoldable pub is_owned : Folder → Entry → Bool
is_owned root e =
    is_profile_dir root e
    || ((name_is (bytes "current") e && is_file e.kind)
        || (named_in net_names e
            || (has_config root.entries && (named_in legacy e || is_ticket_file root e))))
