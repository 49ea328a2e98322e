-- ===== src/AppLock/SetPin.antt =====
-- tools/zkmsg/core/src/applock.rs: `unlock` after `set_pin`.
use stwo_starknet_verifier.Common.{
  ℕ, suc, ◌+◌, ◌≡◌, inl, inr, refl, sym, ap, ◌∙◌, true, false, none, some, List, [], ◌∷◌, ok, err,
  arith, Bool-cases, Result-cases,
}
use stwo_starknet_verifier.Felts.{Crates, text_eq, text_eq→eq}
use stwo_starknet_verifier.Folders.{Entry, all_profile_dirs}
use stwo_starknet_verifier.Device.{
  Bytes, LockBlob, stored, Device, refused, with_saved, Act, after, after-eq-ok, pin_already_set,
  load_lock, save_lock, keychain_refused, lock, forget_keys, no_read_back,
}
use stwo_starknet_verifier.Vault.{Ciphers, rewrap, profile_key_id}
use stwo_starknet_verifier.AppLock.{
  unlocked, unlock, unwrap, wrap, save_wrap, read_back, set_pin, wrap_profile_keys, validate_pin,
}
use stwo_starknet_verifier.AppLock.Guesses.{unlock-unlocked}
use stwo_starknet_verifier.Vault.Keeps.{Keeps, Keeps-trans, after-Keeps, rewrap-Keeps}

module _ (k : Crates) (c : Ciphers) where
  wrap_profile_keys-Keeps :
      (draw : ℕ → Bytes × Bytes) (i : ℕ) (ps : List Entry) (d : Device)
      → Keeps d (wrap_profile_keys k c draw i ps d).0
  unfolding wrap_profile_keys
  wrap_profile_keys-Keeps draw i [] d = (refl, refl)
  wrap_profile_keys-Keeps draw i (p ∷ ps) d = elim (Result-cases (profile_key_id p)) [
    | inl (e, failed) ↦ rw (wrap_profile_keys, failed) (refl, refl)
    | inr (none, bare) ↦ rw (wrap_profile_keys, bare) (wrap_profile_keys-Keeps draw (i + 1) ps d)
    | inr (some id, named) ↦
        rw (wrap_profile_keys, named)
          (after-Keeps d (rewrap c (draw i).0 (draw i).1 id d) _
            (rewrap-Keeps c (draw i).0 (draw i).1 id d)
            (λ done mid h.
              after-Keeps d (wrap_profile_keys k c draw (i + 1) ps mid) _
                (Keeps-trans d mid (wrap_profile_keys k c draw (i + 1) ps mid).0 h
                  (wrap_profile_keys-Keeps draw (i + 1) ps mid))
                (λ n d' h'. h')))
  ]

  wrap-fresh :
      (salt nonce : Bytes) (pin : List ℕ) (mk : Bytes) (b : LockBlob)
      → wrap k c salt nonce pin mk ≡ ok b
      → b.not_before ≡ 0
  unfolding wrap
  wrap-fresh salt nonce pin mk b h = ground arith

  load_lock-stored :
      (d : Device) (b : LockBlob) → d.lock_item ≡ stored b → load_lock d ≡ ok (some b)
  unfolding load_lock
  load_lock-stored d b e = rw e refl

  read_back-ok :
      (pin : List ℕ) (mk : Bytes) (d d' : Device) (b : LockBlob)
      → d.lock_item ≡ stored b
      → read_back k c pin mk d ≡ (d', ok tt)
      → (d ≡ d') × (unwrap k c pin b ≡ ok (some mk))
  unfolding read_back
  read_back-ok pin mk d d' b e h = elim (Result-cases (unwrap k c pin b)) [
    | inl (x, failed) ↦ absurd (
        let same : read_back k c pin mk d ≡ (d, err x) =
          rw (read_back, load_lock-stored d b e, failed) refl in
        cc)
    | inr (none, failed) ↦ absurd (
        let same : read_back k c pin mk d ≡ (d, err no_read_back) =
          rw (read_back, load_lock-stored d b e, failed) refl in
        cc)
    | inr (some found, opened) ↦ elim (Bool-cases (text_eq found mk)) [
      | inr other ↦ absurd (
          let same : read_back k c pin mk d ≡ (d, err no_read_back) =
            rw (read_back, load_lock-stored d b e, opened, other) refl in
          cc)
      | inl equal ↦
          let same : read_back k c pin mk d ≡ (d, ok tt) =
            rw (read_back, load_lock-stored d b e, opened, equal) refl in
          let found_it = text_eq→eq found mk equal in (cc, rw (sym found_it) opened)
    ]
  ]

  -- A saved wrap is the lock, opens with its PIN, and can be tried at once.
  pub save_wrap-ok :
      (salt nonce : Bytes) (pin : List ℕ) (mk : Bytes) (d d' : Device)
      → save_wrap k c salt nonce pin mk d ≡ (d', ok tt)
      → (b : LockBlob) × (with_saved d b ≡ d')
        × (unwrap k c pin b ≡ ok (some mk))
        × (b.not_before ≡ 0)
  unfolding save_wrap save_lock load_lock
  save_wrap-ok salt nonce pin mk d d' h = elim (Result-cases (wrap k c salt nonce pin mk)) [
    | inl (e, failed) ↦ absurd (
        let same : save_wrap k c salt nonce pin mk d ≡ (d, err e) = rw (save_wrap, failed) refl in
        cc)
    | inr (b, done) ↦ elim (Bool-cases (d.keychain d.calls)) [
      | inr shut ↦ absurd (
          let same : save_wrap k c salt nonce pin mk d ≡ (refused d, err keychain_refused) =
            rw (save_wrap, done, shut) refl in
          cc)
      | inl works ↦
          let saved : Device = with_saved d b in
          let same : save_wrap k c salt nonce pin mk d ≡ read_back k c pin mk saved =
            rw (save_wrap, done, works) refl in
          let r = read_back-ok pin mk saved d' b refl (sym same ∙ h) in
          (b, r.0, r.1, wrap-fresh salt nonce pin mk b done)
    ]
  ]

  -- A locked device whose blob opens with the PIN and has no wait.
  pub unlock-lock :
      (pin : List ℕ) (now later : ℕ) (d : Device) (b : LockBlob) (mk : Bytes)
      → d.lock_item ≡ stored b
      → d.keychain d.calls ≡ true
      → d.keychain (suc d.calls) ≡ true
      → b.not_before ≡ 0
      → unwrap k c pin b ≡ ok (some mk)
      → ((unlock k c pin now later (lock d)).1 ≡ ok unlocked)
        × ((unlock k c pin now later (lock d)).0.master ≡ some mk)
  unfolding lock forget_keys
  unlock-lock pin now later d b mk e first second fresh opens =
      let done =
        unlock-unlocked k c pin now later (lock d) b mk e first second (omega arith) opens in
      (ap (λ r. r.1) done, ap (λ r. r.0.master) done)

  -- What a successful `set_pin` went through.
  set_pin-ok :
      (salt nonce mk : Bytes) (draw : ℕ → Bytes × Bytes) (pin : List ℕ) (d d' : Device) (n : ℕ)
      → set_pin k c salt nonce mk draw pin d ≡ (d', ok n)
      → (mid : Device) × (save_wrap k c salt nonce pin mk d ≡ (mid, ok tt))
        × ((wrap_profile_keys k c draw 0
              (all_profile_dirs mid.root mid.archive)
              (record mid { master = some mk; wiped = false })).0
            ≡ d')
  unfolding set_pin
  set_pin-ok salt nonce mk draw pin d d' n h = elim (Result-cases (validate_pin pin)) [
    | inl (e, bad) ↦ absurd (
        let same : set_pin k c salt nonce mk draw pin d ≡ (d, err e) = rw (set_pin, bad) refl in cc)
    | inr (u, good) ↦ elim (Result-cases (load_lock d)) [
      | inl (e, bad) ↦ absurd (
          let same : set_pin k c salt nonce mk draw pin d ≡ (d, err e) =
            rw (set_pin, good, bad) refl in
          cc)
      | inr (some b, there) ↦ absurd (
          let same : set_pin k c salt nonce mk draw pin d ≡ (d, err pin_already_set) =
            rw (set_pin, good, there) refl in
          cc)
      | inr (none, free) ↦
          let next : Unit {0} → Act ℕ = λ _ m.
            wrap_profile_keys k c draw 0 (all_profile_dirs m.root m.archive)
              (record m { master = some mk; wiped = false }) in
          let same : set_pin k c salt nonce mk draw pin d
              ≡ after (save_wrap k c salt nonce pin mk d) next =
            rw (set_pin, good, free) refl in
          let r = after-eq-ok (save_wrap k c salt nonce pin mk d) next (sym same ∙ h) in
          (r.0, r.2, ap (λ x. x.0) r.3)
    ]
  ]

  -- After a successful `set_pin`, and once the app is locked, the same PIN unlocks at any time where
  -- the Keychain takes the two writes of this `unlock`, and gives the master key that was set.
  pub unlock-set_pin :
      (salt nonce mk : Bytes) (draw : ℕ → Bytes × Bytes) (pin : List ℕ) (d d' : Device) (n : ℕ)
      (now later : ℕ)
      → set_pin k c salt nonce mk draw pin d ≡ (d', ok n)
      → d'.keychain d'.calls ≡ true
      → d'.keychain (suc d'.calls) ≡ true
      → ((unlock k c pin now later (lock d')).1 ≡ ok unlocked)
        × ((unlock k c pin now later (lock d')).0.master ≡ some mk)
  unlock-set_pin salt nonce mk draw pin d d' n now later h first second =
      let s = set_pin-ok salt nonce mk draw pin d d' n h in
      let w = save_wrap-ok salt nonce pin mk d s.0 s.1 in
      let start : Device = record s.0 { master = some mk; wiped = false } in
      let kept = wrap_profile_keys-Keeps draw 0 (all_profile_dirs s.0.root s.0.archive) start in
      let held = ap (λ x. x.lock_item) s.2 in
      unlock-lock pin now later d' w.0 mk (sym held ∙ kept.0 ∙ sym (ap (λ x. x.lock_item) w.1))
        first second w.3 w.2
