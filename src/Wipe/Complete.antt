-- ===== src/Wipe/Complete.antt =====
-- tools/zkmsg/core/src/wipe.rs, `panic_wipe`: what a report without errors means.
use stwo_starknet_verifier.Common.{
  zero, ◌<◌, ℕ, suc, sym, subst, ◌≡◌, inl, inr, refl, ap, ◌∙◌, Bool, true, false, none, List, [],
  ◌∷◌, ◌++◌, length, Bool-cases, arith, Result, ok, err,
}
use stwo_starknet_verifier.Felts.{Text, text_eq}
use stwo_starknet_verifier.Folders.{
  Entry, is_profile_dir, is_owned, filter_entries, all_profile_dirs,
}
use stwo_starknet_verifier.Device.{
  Bytes, absent, Device, Error, after, AccountsFile, no_home, bad_file, sepolia, destroy, lock,
  forget_keys,
}
use stwo_starknet_verifier.Vault.{delete_all, delete_all_limit, shred_all}
use stwo_starknet_verifier.Wipe.{
  panic_wipe, profile_accounts, sweep, drop_ds_store, wipe_accounts, remove_accounts, drop_account,
  has_account, bad_reads, error_of,
}

append-nil : {A : Type 0} (xs ys : List A) → xs ++ ys ≡ [] → (xs ≡ []) × (ys ≡ [])
append-nil [] ys h = (refl, h)
append-nil (x ∷ xs) ys h = cc

-- A `delete_all` that succeeds leaves no key.
delete_all-done :
    (left : ℕ) (items : List (Text × Bytes)) (d : Device) (u : Unit {0})
    → (delete_all left items d).1 ≡ ok u
    → (delete_all left items d).0.profile_keys ≡ []
unfolding delete_all
delete_all-done zero items d u h = cc
delete_all-done (suc left) [] d u h = elim (Bool-cases (d.keychain d.calls)) [
  | inl taken ↦ rw taken refl
  | inr shut ↦ cc (rw (shut, delete_all) at h)
]
delete_all-done (suc left) (item ∷ items) d u h = elim (Bool-cases (d.keychain d.calls)) [
  | inl taken ↦ rw taken (
      delete_all-done left items (record d { calls = suc d.calls; profile_keys = items }) u
        (rw (taken, delete_all) at h))
  | inr shut ↦ cc (rw (shut, delete_all) at h)
]

-- It succeeds on a Keychain that refuses nothing, with more rounds than items.
delete_all-taken :
    (left : ℕ) (items : List (Text × Bytes)) (d : Device)
    → ((i : ℕ) → d.keychain i ≡ true)
    → length items < left
    → ((delete_all left items d).1 ≡ ok tt) × ((delete_all left items d).0.keychain ≡ d.keychain)
unfolding delete_all
delete_all-taken zero items d all few = absurd (omega (arith, few))
delete_all-taken (suc left) [] d all few = rw (all d.calls) (refl, refl)
delete_all-taken (suc left) (item ∷ items) d all few = rw (all d.calls) (
    delete_all-taken left items (record d { calls = suc d.calls; profile_keys = items }) all
      (omega (arith, few)))

after-count :
    (n : ℕ) (m : Device × Result Error (Unit {0})) → (after m (λ _ d'. (d', ok n))).0 ≡ m.0
after-count n (d, ok u) = refl
after-count n (d, err e) = refl

after-count_ok :
    (n : ℕ) (m : Device × Result Error (Unit {0}))
    → error_of (after m (λ _ d'. (d', ok n))).1 ≡ []
    → m.1 ≡ ok tt
unfolding error_of
after-count_ok n (d, ok u) h = refl
after-count_ok n (d, err e) h = cc

shred_all-done : (d : Device) → error_of (shred_all d).1 ≡ [] → (shred_all d).0.profile_keys ≡ []
unfolding shred_all
shred_all-done d h =
    let start = forget_keys (record d { wiped = true }) in
    let m = delete_all delete_all_limit d.profile_keys start in
    ap (λ x. x.profile_keys) (after-count (length d.profile_keys) m)
    ∙ delete_all-done delete_all_limit d.profile_keys start tt
        (after-count_ok (length d.profile_keys) m h)

-- `destroy` closes the app, and where it succeeds the Keychain has no lock.
destroy-closed :
    (d : Device)
    → ((destroy d).0.master ≡ none)
      × ((destroy d).0.open_keys ≡ [])
      × ((destroy d).0.profile_keys ≡ d.profile_keys)
unfolding destroy lock forget_keys
destroy-closed d = elim (Bool-cases (d.keychain d.calls)) [
  | inl taken ↦ rw taken (refl, refl, refl)
  | inr shut ↦ rw shut (refl, refl, refl)
]

destroy-done : (d : Device) → error_of (destroy d).1 ≡ [] → (destroy d).0.lock_item ≡ absent
unfolding destroy lock error_of
destroy-done d h = elim (Bool-cases (d.keychain d.calls)) [
  | inl taken ↦ rw taken refl
  | inr shut ↦ cc (rw (shut, destroy) at h)
]

destroy-taken : (d : Device) → ((i : ℕ) → d.keychain i ≡ true) → error_of (destroy d).1 ≡ []
unfolding destroy lock error_of
destroy-taken d all = rw (all d.calls) refl

-- What the Keychain and the process have after a wipe of the keys without an error.
keys_gone :
    (d : Device)
    → error_of (shred_all d).1 ≡ []
    → error_of (destroy (shred_all d).0).1 ≡ []
    → ((panic_wipe d).0.lock_item ≡ absent)
      × ((panic_wipe d).0.profile_keys ≡ [])
      × ((panic_wipe d).0.master ≡ none)
      × ((panic_wipe d).0.open_keys ≡ [])
unfolding panic_wipe
keys_gone d shredded destroyed =
    let mid = (shred_all d).0 in
    let closed = destroy-closed mid in
    (destroy-done mid destroyed, closed.2 ∙ shred_all-done d shredded, closed.0, closed.1)

shred_all-taken :
    (d : Device)
    → ((i : ℕ) → d.keychain i ≡ true)
    → length d.profile_keys < delete_all_limit
    → (error_of (shred_all d).1 ≡ []) × ((shred_all d).0.keychain ≡ d.keychain)
unfolding shred_all forget_keys error_of
shred_all-taken d all few =
    let start = forget_keys (record d { wiped = true }) in
    let done = delete_all-taken delete_all_limit d.profile_keys start all few in
    let m = delete_all delete_all_limit d.profile_keys start in
    (
      no_error (length d.profile_keys) m done.0,
      ap (λ x. x.keychain) (after-count (length d.profile_keys) m) ∙ done.1,
    )
  where
    no_error :
        (n : ℕ) (m : Device × Result Error (Unit {0}))
        → m.1 ≡ ok tt
        → error_of (after m (λ _ d'. (d', ok n))).1 ≡ []
    no_error n (d', ok u) h = refl
    no_error n (d', err e) h = cc

-- On a Keychain that refuses nothing and has fewer than 10,000 keys the wipe leaves no lock and no key there, and none in memory,
-- whatever else fails.
pub panic_wipe-keys :
    (d : Device)
    → ((i : ℕ) → d.keychain i ≡ true)
    → length d.profile_keys < delete_all_limit
    → ((panic_wipe d).0.lock_item ≡ absent)
      × ((panic_wipe d).0.profile_keys ≡ [])
      × ((panic_wipe d).0.master ≡ none)
      × ((panic_wipe d).0.open_keys ≡ [])
panic_wipe-keys d all few =
    let shredded = shred_all-taken d all few in
    keys_gone d shredded.0 (destroy-taken (shred_all d).0 (λ i. ap (λ f. f i) shredded.1 ∙ all i))

-- No entry passes the test.
abbrev pub NoneLeft : (Entry → Bool) → List Entry → Type 0
NoneLeft test [] = Unit {0}
NoneLeft test (e ∷ es) = (test e ≡ false) × NoneLeft test es

sweep-NoneLeft :
    (test : Entry → Bool) (es : List Entry)
    → (sweep test es).1 ≡ []
    → NoneLeft test (sweep test es).0
unfolding sweep
sweep-NoneLeft test [] h = tt
sweep-NoneLeft test (e ∷ es) h = elim (Bool-cases (test e)) [
  | inr other ↦ rw other (other, sweep-NoneLeft test es (rw (other, sweep) at h))
  | inl owned ↦ elim (Bool-cases e.removable) [
    | inl gone ↦ rw (owned, gone) (sweep-NoneLeft test es (rw (owned, gone, sweep) at h))
    | inr stuck ↦ cc (rw (owned, stuck, sweep) at h)
  ]
]

filter_entries-NoneLeft :
    (test kept : Entry → Bool) (es : List Entry)
    → NoneLeft test es
    → NoneLeft test (filter_entries kept es)
unfolding filter_entries
filter_entries-NoneLeft test kept [] h = tt
filter_entries-NoneLeft test kept (e ∷ es) h = elim (Bool-cases (kept e)) [
  | inl stays ↦ rw stays (h.0, filter_entries-NoneLeft test kept es h.1)
  | inr goes ↦ rw goes (filter_entries-NoneLeft test kept es h.1)
]

-- No account of the list is left in the section.
abbrev pub IsGone : List Text → List Text → Type 0
IsGone section [] = Unit {0}
IsGone section (name ∷ names) = (has_account section name ≡ false) × IsGone section names

-- A dropped name is not there, and what is not there does not come back.
has_account-drop_account :
    (section : List Text) (name : Text) → has_account (drop_account section name) name ≡ false
unfolding has_account drop_account
has_account-drop_account [] name = refl
has_account-drop_account (a ∷ rest) name =
    let later = has_account-drop_account rest name in
    elim (Bool-cases (text_eq a name)) [
      | inl same ↦ rw same later
      | inr other ↦ rw other (rw other later)
    ]

drop_account-keeps :
    (section : List Text) (gone name : Text)
    → has_account section gone ≡ false
    → has_account (drop_account section name) gone ≡ false
unfolding has_account drop_account
drop_account-keeps [] gone name h = refl
drop_account-keeps (a ∷ rest) gone name h =
    let later = drop_account-keeps rest gone name in ground arith

remove_accounts-keeps :
    (can_drop : Text → Bool) (names section : List Text) (gone : Text)
    → has_account section gone ≡ false
    → has_account (remove_accounts can_drop section names).0 gone ≡ false
unfolding remove_accounts
remove_accounts-keeps can_drop [] section gone h = h
remove_accounts-keeps can_drop (name ∷ names) section gone h =
    let dropped =
      remove_accounts-keeps can_drop names (drop_account section name) gone
        (drop_account-keeps section gone name h) in
    let kept = remove_accounts-keeps can_drop names section gone h in
    elim (Bool-cases (has_account section name)) [
      | inr missing ↦ rw missing kept
      | inl here ↦ elim (Bool-cases (can_drop name)) [
        | inl written ↦ rw (here, written) dropped
        | inr failed ↦ rw (here, failed) kept
      ]
    ]

remove_accounts-written :
    (can_drop : Text → Bool) (names section : List Text) (name : Text)
    → has_account section name ≡ true
    → can_drop name ≡ true
    → (remove_accounts can_drop section (name ∷ names)).0
      ≡ (remove_accounts can_drop (drop_account section name) names).0
unfolding remove_accounts
remove_accounts-written can_drop names section name here written = rw (here, written) refl

remove_accounts-missing :
    (can_drop : Text → Bool) (names section : List Text) (name : Text)
    → has_account section name ≡ false
    → (remove_accounts can_drop section (name ∷ names)).0
      ≡ (remove_accounts can_drop section names).0
unfolding remove_accounts
remove_accounts-missing can_drop names section name missing = rw missing refl

remove_accounts-IsGone :
    (can_drop : Text → Bool) (names section : List Text)
    → (remove_accounts can_drop section names).2 ≡ []
    → IsGone (remove_accounts can_drop section names).0 names
unfolding remove_accounts
remove_accounts-IsGone can_drop [] section h = tt
remove_accounts-IsGone can_drop (name ∷ names) section h =
    elim (Bool-cases (has_account section name)) [
      | inr missing ↦
          subst (λ x. IsGone x (name ∷ names))
            (sym (remove_accounts-missing can_drop names section name missing))
            (
              remove_accounts-keeps can_drop names section name missing,
              remove_accounts-IsGone can_drop names section (rw (missing, remove_accounts) at h),
            )
      | inl here ↦ elim (Bool-cases (can_drop name)) [
        | inl written ↦
            subst (λ x. IsGone x (name ∷ names))
              (sym (remove_accounts-written can_drop names section name here written))
              (
                remove_accounts-keeps can_drop names (drop_account section name) name
                    (has_account-drop_account section name),
                remove_accounts-IsGone can_drop names (drop_account section name)
                    (rw (here, written, remove_accounts) at h),
              )
        | inr failed ↦ cc (rw (here, failed, remove_accounts) at h)
      ]
    ]

-- The accounts file, after a wipe that reports no error, for the accounts of the profiles.
abbrev pub HasNone : AccountsFile → List Text → Type 0
HasNone no_home names = ⊥
HasNone bad_file names = names ≡ []
HasNone (sepolia section) names = IsGone section names

wipe_accounts-HasNone :
    (can_drop : Text → Bool) (accounts : AccountsFile) (names : List Text)
    → (wipe_accounts can_drop accounts names).2 ≡ []
    → HasNone (wipe_accounts can_drop accounts names).0 names
unfolding wipe_accounts bad_reads
wipe_accounts-HasNone can_drop no_home names h = cc
wipe_accounts-HasNone can_drop bad_file [] h = refl
wipe_accounts-HasNone can_drop bad_file (name ∷ names) h = cc
wipe_accounts-HasNone can_drop (sepolia section) names h =
    remove_accounts-IsGone can_drop names section h

-- If `panic_wipe` reports no error, then the Keychain has no app lock and no profile key and the
-- process holds no key; of the entries of the root that `owned_entries` found, and of the profile
-- directories that it found in the archive, none is left; and the accounts file has none of the
-- accounts that the profile directories it found named. What cannot be listed it does not find.
pub panic_wipe_complete :
    (d : Device)
    → (panic_wipe d).1.errors ≡ []
    → ((panic_wipe d).0.lock_item ≡ absent)
      × ((panic_wipe d).0.profile_keys ≡ [])
      × ((panic_wipe d).0.master ≡ none)
      × ((panic_wipe d).0.open_keys ≡ [])
      × NoneLeft (is_owned d.root) (panic_wipe d).0.root.entries
      × NoneLeft (is_profile_dir d.archive) (panic_wipe d).0.archive.entries
      × HasNone (panic_wipe d).0.accounts (profile_accounts (all_profile_dirs d.root d.archive))
unfolding panic_wipe drop_ds_store
panic_wipe_complete d h =
    let names = profile_accounts (all_profile_dirs d.root d.archive) in
    let live = sweep (is_owned d.root) d.root.entries in
    let archived = sweep (is_profile_dir d.archive) d.archive.entries in
    let first = append-nil (error_of (shred_all d).1) _ h in
    let second = append-nil (error_of (destroy (shred_all d).0).1) _ first.1 in
    let third = append-nil (wipe_accounts d.can_drop d.accounts names).2 _ second.1 in
    let fourth = append-nil live.1 _ third.1 in
    let keys = keys_gone d first.0 second.0 in
    (
      keys.0,
      keys.1,
      keys.2,
      keys.3,
      filter_entries-NoneLeft (is_owned d.root) _ live.0
          (sweep-NoneLeft (is_owned d.root) d.root.entries fourth.0),
      filter_entries-NoneLeft (is_profile_dir d.archive) _ archived.0
          (sweep-NoneLeft (is_profile_dir d.archive) d.archive.entries fourth.1),
      wipe_accounts-HasNone d.can_drop d.accounts names third.0,
    )
