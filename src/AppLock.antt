-- ===== src/AppLock.antt =====
-- tools/zkmsg/core/src/applock.rs: the app PIN and its attempts. `now` and random values are
-- arguments; the attempt lock makes calls of `unlock` one after the other.
pub mod Attempts
pub mod Guesses
pub mod SetPin
pub mod ChangePin
mod Tests
use stwo_starknet_verifier.Common.{
  ℕ, zero, suc, ◌+◌, ◌-◌, ◌%◌, ◌^◌, Bool, true, false, ◌&&◌, ◌||◌, not, Option, none, some, List,
  [], ◌∷◌, Result, ok, err, if◌then◌else◌, ◌==◌, leb, ltb, length, min, get_or, context,
}
use stwo_starknet_verifier.Felts.{Text, Crates, bytes, text_eq}
use stwo_starknet_verifier.Folders.{Entry, all_profile_dirs}
use stwo_starknet_verifier.Device.{
  Bytes, LockBlob, LockItem, absent, unreadable, stored, Device, Error, no_pin_set, pin_already_set,
  pin_too_short, pin_too_long, pin_has_controls, kdf_failed, bad_hex, nonce_panics, wrap_failed,
  bad_master_key, lock_not_saved, no_read_back, Act, after, load_lock, save_lock, master_key,
}
use stwo_starknet_verifier.Vault.{Ciphers, rewrap, profile_key_id, nonce_len}
use stwo_starknet_verifier.Wipe.{PanicReport, panic_wipe}

-- `MAX_ATTEMPTS`, `FREE_ATTEMPTS`, `WAITS` and the lengths of a PIN
abbrev pub max_attempts : ℕ
max_attempts = 10

abbrev pub free_attempts : ℕ
free_attempts = 4

abbrev pub waits : List ℕ
waits = 30 ∷ 60 ∷ 300 ∷ 900 ∷ 3600 ∷ []

abbrev pub min_pin_len : ℕ
min_pin_len = 6

abbrev pub max_pin_len : ℕ
max_pin_len = 64

abbrev pub lock_aad : Bytes
lock_aad = bytes "zkmsg app-lock v1"

-- `KDF`
abbrev pub kdf_costs : ℕ × ℕ × ℕ
kdf_costs = (262144, 3, 1)

pub data LockState : Type 0 where
  not_set : LockState
  is_locked : ℕ → ℕ → LockState
  is_unlocked : LockState

pub data Unlock : Type 0 where
  unlocked : Unlock
  -- attempts left, seconds to wait
  wrong : ℕ → ℕ → Unlock
  wait_for : ℕ → Unlock
  was_wiped : List Error → Unlock

-- `wait_after`
unfoldable pub wait_after : ℕ → ℕ
wait_after fails =
    if leb fails free_attempts then 0 else get_or waits (min (fails - free_attempts - 1) 4) 0

-- `state`
unfoldable pub state : ℕ → Device → Result Error LockState
state now d = elim d.master [
  | some mk ↦ ok is_unlocked
  | none ↦ elim (load_lock d) [
    | err e ↦ err e
    | ok none ↦ ok not_set
    | ok (some b) ↦ ok (is_locked b.fails (b.not_before - now))
  ]
]

-- `char::is_control`
abbrev pub is_control : ℕ → Bool
is_control c = ltb c 32 || (leb 127 c && ltb c 160)

abbrev pub any_control : List ℕ → Bool
any_control [] = false
any_control (c ∷ cs) = is_control c || any_control cs

-- `validate_pin`, of the characters of the PIN
unfoldable pub validate_pin : List ℕ → Result Error (Unit {0})
validate_pin pin =
    if leb min_pin_len (length pin)
    then (if leb (length pin) max_pin_len
        then (if any_control pin then err pin_has_controls else ok tt)
        else err pin_too_long)
    else err pin_too_short

module _ (k : Crates) (c : Ciphers) where
  -- `kek`
  unfoldable pub kek : List ℕ → Bytes → ℕ × ℕ × ℕ → Result Error Bytes
  kek pin salt costs = context (c.argon2 pin salt costs) kdf_failed

  -- `wrap`
  unfoldable pub wrap : Bytes → Bytes → List ℕ → Bytes → Result Error LockBlob
  wrap salt nonce pin mk = elim (kek pin salt kdf_costs) [
    | err e ↦ err e
    | ok key ↦ elim (c.encrypt key nonce lock_aad mk) [
      | none ↦ err wrap_failed
      | some wrapped ↦ ok (record {
        salt = k.hex_encode salt;
        kdf = kdf_costs;
        nonce = k.hex_encode nonce;
        wrapped = k.hex_encode wrapped;
        fails = 0;
        not_before = 0;
      })
    ]
  ]

  -- The decryption of `unwrap`; a nonce of another length than 12 panics.
  unfoldable pub decrypt_master : Bytes → Bytes → Bytes → Result Error (Option Bytes)
  decrypt_master key nonce wrapped =
      if length nonce == nonce_len
      then elim (c.decrypt key nonce lock_aad wrapped) [
        | none ↦ ok none
        | some mk ↦ if length mk == 32 then ok (some mk) else err bad_master_key
      ]
      else err nonce_panics

  -- `unwrap`
  unfoldable pub unwrap : List ℕ → LockBlob → Result Error (Option Bytes)
  unwrap pin b = elim (k.hex_decode b.salt) [
    | none ↦ err bad_hex
    | some salt ↦ elim (kek pin salt b.kdf) [
      | err e ↦ err e
      | ok key ↦ elim (k.hex_decode b.nonce) [
        | none ↦ err bad_hex
        | some nonce ↦ elim (k.hex_decode b.wrapped) [
          | none ↦ err bad_hex
          | some wrapped ↦ decrypt_master key nonce wrapped
        ]
      ]
    ]
  ]

  -- The blob with the attempt counted, as `unlock` saves it before the check.
  unfoldable pub raised : ℕ → LockBlob → LockBlob
  raised now b =
      let fails = (b.fails + 1) % 2 ^ 32 in
      record b { fails = fails; not_before = (now + wait_after fails) % 2 ^ 64 }

  -- What `unlock` does after the check of a counted attempt.
  unfoldable pub settle_attempt : LockBlob → Option Bytes → Act Unlock
  settle_attempt b (some mk) d =
      after (save_lock (record b { fails = 0; not_before = 0 }) d)
        (λ _ d'. (record d' { master = some mk }, ok unlocked))
  settle_attempt b none d =
      let wiped = panic_wipe d in
      if leb max_attempts b.fails
      then (wiped.0, ok (was_wiped wiped.1.errors))
      else (d, ok (wrong (max_attempts - b.fails) (wait_after b.fails)))

  -- A counted attempt, from the save on.
  unfoldable pub attempt : List ℕ → LockBlob → Act Unlock
  attempt pin b d =
      after (save_lock b d)
        (λ _ d'. elim (unwrap pin b) [ err e ↦ (d', err e) | ok found ↦ settle_attempt b found d' ])

  -- `unlock`: the clock is read for the wait and again for the next one.
  unfoldable pub unlock : List ℕ → ℕ → ℕ → Act Unlock
  unlock pin now later d = elim (load_lock d) [
    | err e ↦ (d, err e)
    | ok none ↦ (d, err no_pin_set)
    | ok (some b) ↦
        let tried = attempt pin (raised later b) d in
        if ltb 0 (b.not_before - now) then (d, ok (wait_for (b.not_before - now))) else tried
  ]

  -- The check that the lock which was saved opens with the PIN.
  unfoldable pub read_back : List ℕ → Bytes → Act (Unit {0})
  read_back pin mk d = elim (load_lock d) [
    | err e ↦ (d, err e)
    | ok none ↦ (d, err lock_not_saved)
    | ok (some b) ↦ elim (unwrap pin b) [
      | err e ↦ (d, err e)
      | ok none ↦ (d, err no_read_back)
      | ok (some found) ↦ if text_eq found mk then (d, ok tt) else (d, err no_read_back)
    ]
  ]

  -- The new wrap is saved and read back.
  unfoldable pub save_wrap : Bytes → Bytes → List ℕ → Bytes → Act (Unit {0})
  save_wrap salt nonce pin mk d = elim (wrap salt nonce pin mk) [
    | err e ↦ (d, err e)
    | ok b ↦ after (save_lock b d) (λ _ d'. read_back pin mk d')
  ]

  -- `wrap_profile_keys`, over the profile directories from the `i`-th; each may draw two nonces.
  unfoldable pub wrap_profile_keys : (ℕ → Bytes × Bytes) → ℕ → List Entry → Act ℕ
  wrap_profile_keys draw i [] d = (d, ok 0)
  wrap_profile_keys draw i (p ∷ ps) d = elim (profile_key_id p) [
    | err e ↦ (d, err e)
    | ok none ↦ wrap_profile_keys draw (i + 1) ps d
    | ok (some id) ↦ after (rewrap c (draw i).0 (draw i).1 id d) (λ done d'.
        after (wrap_profile_keys draw (i + 1) ps d')
          (λ n d''. (d'', ok (if done then n + 1 else n))))
  ]

  -- `set_pin`
  unfoldable pub set_pin : Bytes → Bytes → Bytes → (ℕ → Bytes × Bytes) → List ℕ → Act ℕ
  set_pin salt nonce mk draw pin d = elim (validate_pin pin) [
    | err e ↦ (d, err e)
    | ok u ↦ elim (load_lock d) [
      | err e ↦ (d, err e)
      | ok (some b) ↦ (d, err pin_already_set)
      | ok none ↦ after (save_wrap salt nonce pin mk d) (λ _ d'.
          wrap_profile_keys draw 0 (all_profile_dirs d'.root d'.archive)
            (record d' { master = some mk; wiped = false }))
    ]
  ]

  -- What `change_pin` does after a successful `unlock`.
  unfoldable pub rewrap_master : Bytes → Bytes → List ℕ → Act Unlock
  rewrap_master salt nonce new d = elim (master_key d) [
    | err e ↦ (d, err e)
    | ok mk ↦ after (save_wrap salt nonce new mk d) (λ _ d'. (d', ok unlocked))
  ]

  -- What `change_pin` makes of the outcome of the attempt with the old PIN.
  unfoldable pub after_old : Bytes → Bytes → List ℕ → Unlock → Act Unlock
  after_old salt nonce new unlocked d = rewrap_master salt nonce new d
  after_old salt nonce new (wrong left secs) d = (d, ok (wrong left secs))
  after_old salt nonce new (wait_for secs) d = (d, ok (wait_for secs))
  after_old salt nonce new (was_wiped errors) d = (d, ok (was_wiped errors))

  -- `change_pin`
  unfoldable pub change_pin : Bytes → Bytes → List ℕ → List ℕ → ℕ → ℕ → Act Unlock
  change_pin salt nonce old new now later d = elim (validate_pin new) [
    | err e ↦ (d, err e)
    | ok u ↦ after (unlock old now later d) (after_old salt nonce new)
  ]

-- `PanicAttempt` and `panic_wipe_with_pin` of wipe.rs
pub data PanicAttempt : Type 0 where
  everything_wiped : PanicReport → PanicAttempt
  wrong_pin : ℕ → ℕ → PanicAttempt
  too_soon : ℕ → PanicAttempt

unfoldable pub wipe_now : Act PanicAttempt
wipe_now d = let wiped = panic_wipe d in (wiped.0, ok (everything_wiped wiped.1))

module _ (k : Crates) (c : Ciphers) where
  -- The attempt of `panic_wipe_with_pin`, and what its outcome becomes.
  unfoldable pub wipe_if_pin : List ℕ → ℕ → ℕ → Act PanicAttempt
  wipe_if_pin pin now later d = after (unlock k c pin now later d) (λ outcome d'. elim outcome [
    | unlocked ↦ wipe_now d'
    | was_wiped errors ↦ (
      d',
      ok (
          everything_wiped (record {
            n_profiles = 0;
            keys_shredded = 0;
            account_keys_removed = [];
            errors = errors;
          })),
    )
    | wrong left secs ↦ (d', ok (wrong_pin left secs))
    | wait_for secs ↦ (d', ok (too_soon secs))
  ])

  unfoldable pub panic_wipe_with_pin : List ℕ → ℕ → ℕ → Act PanicAttempt
  panic_wipe_with_pin pin now later d = elim (state now d) [
    | err e ↦ (d, err e)
    | ok not_set ↦ wipe_now d
    | ok (is_locked fails secs) ↦ wipe_if_pin pin now later d
    | ok is_unlocked ↦ wipe_if_pin pin now later d
  ]
