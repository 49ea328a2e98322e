-- ===== src/AppLock/Guesses.antt =====
-- tools/zkmsg/core/src/applock.rs: how many wrong PINs `unlock` answers, when it wipes, and the
-- right PIN.
use stwo_starknet_verifier.Common.{
  ℕ, length, suc, ◌+◌, ◌%◌, ◌^◌, ◌<◌, ◌≤◌, ◌≡◌, refl, sym, ap, ◌∙◌, true, none, some, List, [], ok,
  arith,
}
use stwo_starknet_verifier.Felts.{Crates}
use stwo_starknet_verifier.Device.{Bytes, LockBlob, absent, stored, Device, with_saved, Error}
use stwo_starknet_verifier.Vault.{Ciphers, delete_all_limit}
use stwo_starknet_verifier.Wipe.{panic_wipe}
use stwo_starknet_verifier.AppLock.{unlocked, wrong, wait_for, was_wiped, unlock, unwrap, raised}
use stwo_starknet_verifier.Wipe.Complete.{panic_wipe-keys}
use stwo_starknet_verifier.AppLock.Attempts.{
  unlock-attempt, attempt-saved, settle_attempt-some, settle_attempt-last, unlock-wrong,
  unlock-wait,
}

module _ (k : Crates) (c : Ciphers) where
  -- A lock with this many failures counted and this earliest next attempt, after so many calls of
  -- the Keychain.
  abbrev pub with_lock : Device → LockBlob → ℕ → ℕ → ℕ → Device
  with_lock d b fails not_before calls = record d {
    lock_item = stored (record b { fails = fails; not_before = not_before });
    calls = calls;
  }

  -- Completed calls of `unlock` with any PINs at any times, of which this many answered that the
  -- PIN is wrong and the others that it is too early.
  pub data Guesses (d : Device) : ℕ → Device → Type 0 where
    no_guess : Guesses d 0 d
    wrong_guess :
        (n : ℕ) (mid next : Device) (pin : List ℕ) (now later left secs : ℕ)
        → Guesses d n mid
        → unlock k c pin now later mid ≡ (next, ok (wrong left secs))
        → Guesses d (n + 1) next
    early_guess :
        (n : ℕ) (mid next : Device) (pin : List ℕ) (now later secs : ℕ)
        → Guesses d n mid
        → unlock k c pin now later mid ≡ (next, ok (wait_for secs))
        → Guesses d n next

  -- From a lock with no failure counted, completed calls of `unlock` that answer wrong or too early
  -- have at most nine wrong ones, whatever the PINs and times; and they change nothing but the
  -- failures counted, which are the wrong answers, the time of the next attempt, and the number of
  -- the Keychain's calls.
  pub Guesses-counted :
      (d : Device) {d' : Device} (b : LockBlob) {n : ℕ}
      → d.lock_item ≡ stored b
      → b.fails ≡ 0
      → Guesses d n d'
      → (n < 10) × ((not_before calls : ℕ) × (with_lock d b n not_before calls ≡ d'))
  unfolding raised
  Guesses-counted d b e start no_guess = (
    omega arith,
    (
      b.not_before,
      d.calls,
      ap (λ x. record d { lock_item = x })
          (ap (λ f. stored (record b { fails = f; not_before = b.not_before })) (sym start)
            ∙ sym e),
    ),
  )
  Guesses-counted d b e start (wrong_guess n mid next pin now later left secs r h) =
      let (few, (time, calls, before)) = Guesses-counted d b e start r in
      let counted : LockBlob = record b { fails = n; not_before = time } in
      let here : mid.lock_item ≡ stored counted = sym (ap (λ x. x.lock_item) before) in
      let answer = unlock-wrong k c pin now later mid next counted left secs here h in
      let fails : n + 1 ≡ (n + 1) % 2 ^ 32 = omega (arith, few) in
      let again = raised k c later counted in
      (
        omega (arith, answer.1, fails),
        (
          again.not_before,
          suc calls,
          ap (λ f. with_lock d b f again.not_before (suc calls)) fails
              ∙ ap {A = Device} (λ x. with_saved x again) before
              ∙ answer.0,
        ),
      )
  Guesses-counted d b e start (early_guess n mid next pin now later secs r h) =
      let (few, (time, calls, before)) = Guesses-counted d b e start r in
      let counted : LockBlob = record b { fails = n; not_before = time } in
      let here : mid.lock_item ≡ stored counted = sym (ap (λ x. x.lock_item) before) in
      let same = unlock-wait k c pin now later mid next counted secs here h in
      (few, (time, calls, before ∙ same))

  -- The blob that `unlock` saves opens with the same PINs.
  unwrap-raised :
      (pin : List ℕ) (later : ℕ) (b : LockBlob)
      → unwrap k c pin (raised k c later b) ≡ unwrap k c pin b
  unfolding unwrap raised
  unwrap-raised pin later b = refl

  -- With nine failures counted or more (and fewer than 2 ^ 32 - 1), on a Keychain that refuses
  -- nothing and has fewer than 10,000 profile keys, a wrong PIN that is not too early wipes: `unlock` says so, and after it the Keychain has
  -- no lock and no profile key, and the process holds none.
  pub unlock-wipes :
      (pin : List ℕ) (now later : ℕ) (d : Device) (b : LockBlob)
      → d.lock_item ≡ stored b
      → ((i : ℕ) → d.keychain i ≡ true)
      → length d.profile_keys < delete_all_limit
      → b.not_before ≤ now
      → 9 ≤ b.fails
      → b.fails + 1 < 2 ^ 32
      → unwrap k c pin b ≡ ok none
      → (d' : Device) × (errors : List Error) × (unlock k c pin now later d
          ≡ (d', ok (was_wiped errors)))
        × (d'.lock_item ≡ absent)
        × (d'.profile_keys ≡ [])
        × (d'.master ≡ none)
        × (d'.open_keys ≡ [])
  unfolding raised
  unlock-wipes pin now later d b e works few due nine small bad =
      let saved : Device = with_saved d (raised k c later b) in
      let gone = panic_wipe-keys saved works few in
      (
        (panic_wipe saved).0,
        (panic_wipe saved).1.errors,
        unlock-attempt k c pin now later d b e due
            ∙ attempt-saved k c pin (raised k c later b) d none (works d.calls)
                (unwrap-raised pin later b ∙ bad)
            ∙ settle_attempt-last k c (raised k c later b) saved (omega arith),
        gone.0,
        gone.1,
        gone.2,
        gone.3,
      )

  -- On a Keychain that takes its two writes the right PIN, not too early, unlocks and resets the
  -- failures, however many are counted, ten and more included.
  pub unlock-unlocked :
      (pin : List ℕ) (now later : ℕ) (d : Device) (b : LockBlob) (mk : Bytes)
      → d.lock_item ≡ stored b
      → d.keychain d.calls ≡ true
      → d.keychain (suc d.calls) ≡ true
      → b.not_before ≤ now
      → unwrap k c pin b ≡ ok (some mk)
      → unlock k c pin now later d ≡ (
        record d {
          lock_item = stored (record b { fails = 0; not_before = 0 });
          master = some mk;
          calls = suc (suc d.calls);
        },
        ok unlocked,
      )
  unfolding raised
  unlock-unlocked pin now later d b mk e first second due good =
      unlock-attempt k c pin now later d b e due
      ∙ attempt-saved k c pin (raised k c later b) d (some mk) first
          (unwrap-raised pin later b ∙ good)
      ∙ settle_attempt-some k c (raised k c later b) mk (with_saved d (raised k c later b)) second
