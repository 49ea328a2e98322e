-- ===== src/AppLock/Attempts.antt =====
-- tools/zkmsg/core/src/applock.rs, `unlock`: what one attempt answers, and what it leaves.
use stwo_starknet_verifier.Common.{
  ℕ, ◌-◌, ◌<◌, ◌≤◌, ◌≡◌, inl, inr, refl, sym, ◌∙◌, true, false, Option, none, some, List, ok, err,
  ltb, arith, Bool-cases, Result-cases, ltb→lt,
}
use stwo_starknet_verifier.Felts.{Crates}
use stwo_starknet_verifier.Device.{
  Bytes, LockBlob, stored, Device, refused, with_saved, Error, load_lock, save_lock,
  keychain_refused,
}
use stwo_starknet_verifier.Vault.{Ciphers}
use stwo_starknet_verifier.Wipe.{panic_wipe}
use stwo_starknet_verifier.AppLock.{
  Unlock, unlocked, wrong, wait_for, was_wiped, unlock, unwrap, raised, attempt, settle_attempt,
  wait_after,
}

module _ (k : Crates) (c : Ciphers) where
  -- The answer to a call that is not too early: the attempt.
  pub unlock-attempt :
      (pin : List ℕ) (now later : ℕ) (d : Device) (b : LockBlob)
      → d.lock_item ≡ stored b
      → b.not_before ≤ now
      → unlock k c pin now later d ≡ attempt k c pin (raised k c later b) d
  unfolding unlock load_lock
  unlock-attempt pin now later d b e h = rw e (ground arith)

  -- Before the time that the last failure set, `unlock` answers with the seconds that are left,
  -- whatever the PIN, and nothing changes.
  pub unlock-early :
      (pin : List ℕ) (now later : ℕ) (d : Device) (b : LockBlob)
      → d.lock_item ≡ stored b
      → now < b.not_before
      → unlock k c pin now later d ≡ (d, ok (wait_for (b.not_before - now)))
  unfolding unlock load_lock
  unlock-early pin now later d b e h = rw e (ground arith)

  -- From a Keychain that takes writes, the counted blob is saved before the check.
  pub attempt-saved :
      (pin : List ℕ) (b : LockBlob) (d : Device) (found : Option Bytes)
      → d.keychain d.calls ≡ true
      → unwrap k c pin b ≡ ok found
      → attempt k c pin b d ≡ settle_attempt k c b found (with_saved d b)
  unfolding attempt save_lock
  attempt-saved pin b d found works e = rw (works, e) refl

  attempt-refused :
      (pin : List ℕ) (b : LockBlob) (d : Device)
      → d.keychain d.calls ≡ false
      → attempt k c pin b d ≡ (refused d, err keychain_refused)
  unfolding attempt save_lock
  attempt-refused pin b d shut = rw shut refl

  attempt-failed :
      (pin : List ℕ) (b : LockBlob) (d : Device) (e : Error)
      → d.keychain d.calls ≡ true
      → unwrap k c pin b ≡ err e
      → attempt k c pin b d ≡ (with_saved d b, err e)
  unfolding attempt save_lock
  attempt-failed pin b d e works failed = rw (works, failed) refl

  -- A found master key: the counter is reset and the key is held.
  pub settle_attempt-some :
      (b : LockBlob) (mk : Bytes) (d : Device)
      → d.keychain d.calls ≡ true
      → settle_attempt k c b (some mk) d ≡ (
        record (with_saved d (record b { fails = 0; not_before = 0 })) { master = some mk },
        ok unlocked,
      )
  unfolding settle_attempt save_lock
  settle_attempt-some b mk d works = rw works refl

  settle_attempt-refused :
      (b : LockBlob) (mk : Bytes) (d : Device)
      → d.keychain d.calls ≡ false
      → settle_attempt k c b (some mk) d ≡ (refused d, err keychain_refused)
  unfolding settle_attempt save_lock
  settle_attempt-refused b mk d shut = rw shut refl

  -- With the right PIN the answer is that, or an error of the Keychain.
  settle_attempt-found :
      (b : LockBlob) (mk : Bytes) (d d' : Device) (answer : Unlock)
      → settle_attempt k c b (some mk) d ≡ (d', ok answer)
      → answer ≡ unlocked
  settle_attempt-found b mk d d' answer h = elim (Bool-cases (d.keychain d.calls)) [
    | inl works ↦ let same = settle_attempt-some b mk d works in cc
    | inr shut ↦ let same = settle_attempt-refused b mk d shut in cc
  ]

  settle_attempt-none :
      (b : LockBlob) (d : Device)
      → b.fails < 10
      → settle_attempt k c b none d ≡ (d, ok (wrong (10 - b.fails) (wait_after b.fails)))
  unfolding settle_attempt
  settle_attempt-none b d h = ground arith

  pub settle_attempt-last :
      (b : LockBlob) (d : Device)
      → 10 ≤ b.fails
      → settle_attempt k c b none d ≡ ((panic_wipe d).0, ok (was_wiped (panic_wipe d).1.errors))
  unfolding settle_attempt
  settle_attempt-last b d h = ground arith

  -- A wrong answer: the device differs in the counted blob and the number of calls, and less
  -- than ten are counted.
  attempt-wrong :
      (pin : List ℕ) (b : LockBlob) (d d' : Device) (left secs : ℕ)
      → attempt k c pin b d ≡ (d', ok (wrong left secs))
      → (with_saved d b ≡ d') × (b.fails < 10) × (left ≡ 10 - b.fails) × (secs ≡ wait_after b.fails)
  attempt-wrong pin b d d' left secs h = elim (Bool-cases (d.keychain d.calls)) [
    | inr shut ↦ absurd (let same = attempt-refused pin b d shut in cc)
    | inl works ↦ elim (Result-cases (unwrap k c pin b)) [
      | inl (e, failed) ↦ absurd (let same = attempt-failed pin b d e works failed in cc)
      | inr (some mk, found) ↦ absurd (
          let same = attempt-saved pin b d (some mk) works found in
          let answer =
            settle_attempt-found b mk (with_saved d b) d' (wrong left secs) (sym same ∙ h) in
          cc)
      | inr (none, found) ↦ elim (Bool-cases (ltb b.fails 10)) [
        | inl few ↦
            let same = attempt-saved pin b d none works found in
            let answer = settle_attempt-none b (with_saved d b) (ltb→lt b.fails 10 few) in
            (cc, ltb→lt b.fails 10 few, cc, cc)
        | inr many ↦ absurd (
            let same = attempt-saved pin b d none works found in
            let answer = settle_attempt-last b (with_saved d b) (ground arith) in cc)
      ]
    ]
  ]

  pub unlock-wrong :
      (pin : List ℕ) (now later : ℕ) (d d' : Device) (b : LockBlob) (left secs : ℕ)
      → d.lock_item ≡ stored b
      → unlock k c pin now later d ≡ (d', ok (wrong left secs))
      → (with_saved d (raised k c later b) ≡ d') × ((raised k c later b).fails < 10)
  unlock-wrong pin now later d d' b left secs e h = elim (Bool-cases (ltb now b.not_before)) [
    | inl early ↦
        absurd (let same = unlock-early pin now later d b e (ltb→lt now b.not_before early) in cc)
    | inr due ↦
        let same = unlock-attempt pin now later d b e (ground arith) in
        let answer = attempt-wrong pin (raised k c later b) d d' left secs (sym same ∙ h) in
        (answer.0, answer.1)
  ]

  attempt-never_waits :
      (pin : List ℕ) (b : LockBlob) (d d' : Device) (secs : ℕ)
      → attempt k c pin b d ≡ (d', ok (wait_for secs))
      → ⊥
  attempt-never_waits pin b d d' secs h = elim (Bool-cases (d.keychain d.calls)) [
    | inr shut ↦ let same = attempt-refused pin b d shut in cc
    | inl works ↦ elim (Result-cases (unwrap k c pin b)) [
      | inl (e, failed) ↦ let same = attempt-failed pin b d e works failed in cc
      | inr (some mk, found) ↦
          let same = attempt-saved pin b d (some mk) works found in
          let answer =
            settle_attempt-found b mk (with_saved d b) d' (wait_for secs) (sym same ∙ h) in
          cc
      | inr (none, found) ↦
          let same = attempt-saved pin b d none works found in
          elim (Bool-cases (ltb b.fails 10)) [
            | inl few ↦
                let answer = settle_attempt-none b (with_saved d b) (ltb→lt b.fails 10 few) in cc
            | inr many ↦ let answer = settle_attempt-last b (with_saved d b) (ground arith) in cc
          ]
    ]
  ]

  pub unlock-wait :
      (pin : List ℕ) (now later : ℕ) (d d' : Device) (b : LockBlob) (secs : ℕ)
      → d.lock_item ≡ stored b
      → unlock k c pin now later d ≡ (d', ok (wait_for secs))
      → d ≡ d'
  unlock-wait pin now later d d' b secs e h = elim (Bool-cases (ltb now b.not_before)) [
    | inl early ↦ let same = unlock-early pin now later d b e (ltb→lt now b.not_before early) in cc
    | inr due ↦ absurd (
        attempt-never_waits pin (raised k c later b) d d' secs
          (sym (unlock-attempt pin now later d b e (ground arith)) ∙ h))
  ]
