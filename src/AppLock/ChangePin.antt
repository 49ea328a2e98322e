-- ===== src/AppLock/ChangePin.antt =====
-- tools/zkmsg/core/src/applock.rs: `unlock` after `change_pin`.
use stwo_starknet_verifier.Common.{
  true, ℕ, suc, ◌≡◌, inl, inr, refl, sym, ap, ◌∙◌, none, some, List, ok, err, Result-cases,
  Option-cases,
}
use stwo_starknet_verifier.Felts.{Crates}
use stwo_starknet_verifier.Device.{
  Bytes, Device, Act, after, pin_gone, locked, after-eq-ok, load_lock, lock, master_key,
}
use stwo_starknet_verifier.Vault.{Ciphers}
use stwo_starknet_verifier.AppLock.{
  after_old, Unlock, unlocked, wrong, wait_for, was_wiped, unlock, save_wrap, change_pin,
  rewrap_master, validate_pin,
}
use stwo_starknet_verifier.AppLock.SetPin.{save_wrap-ok, unlock-lock}

master_key-ok : (d : Device) (mk : Bytes) → master_key d ≡ ok mk → d.master ≡ some mk
unfolding master_key
master_key-ok d mk h = elim (Option-cases d.master) [
  | inr (held, is_held) ↦ let same : master_key d ≡ ok held = rw (master_key, is_held) refl in cc
  | inl shut ↦ elim (Result-cases (load_lock d)) [
    | inl (e, bad) ↦
        absurd (let same : master_key d ≡ err e = rw (master_key, shut, bad) refl in cc)
    | inr (none, missing) ↦
        absurd (let same : master_key d ≡ err pin_gone = rw (master_key, shut, missing) refl in cc)
    | inr (some b, there) ↦
        absurd (let same : master_key d ≡ err locked = rw (master_key, shut, there) refl in cc)
  ]
]

module _ (k : Crates) (c : Ciphers) where
  after_old-unlocked :
      (salt nonce : Bytes) (new : List ℕ) (outcome : Unlock) (d d' : Device)
      → after_old k c salt nonce new outcome d ≡ (d', ok unlocked)
      → (outcome ≡ unlocked) × (rewrap_master k c salt nonce new d ≡ (d', ok unlocked))
  unfolding after_old
  after_old-unlocked salt nonce new unlocked d d' h = (refl, h)
  after_old-unlocked salt nonce new (wrong left secs) d d' h = cc
  after_old-unlocked salt nonce new (wait_for secs) d d' h = cc
  after_old-unlocked salt nonce new (was_wiped errors) d d' h = cc

  -- What a successful `change_pin` went through.
  change_pin-ok :
      (salt nonce : Bytes) (old new : List ℕ) (now later : ℕ) (d d' : Device)
      → change_pin k c salt nonce old new now later d ≡ (d', ok unlocked)
      → (mid : Device) × (unlock k c old now later d ≡ (mid, ok unlocked))
        × (rewrap_master k c salt nonce new mid ≡ (d', ok unlocked))
  unfolding change_pin
  change_pin-ok salt nonce old new now later d d' h = elim (Result-cases (validate_pin new)) [
    | inl (e, bad) ↦ absurd (
        let same : change_pin k c salt nonce old new now later d ≡ (d, err e) =
          rw (change_pin, bad) refl in
        cc)
    | inr (u, good) ↦
        let same : change_pin k c salt nonce old new now later d
            ≡ after (unlock k c old now later d) (after_old k c salt nonce new) =
          rw (change_pin, good) refl in
        let r =
          after-eq-ok (unlock k c old now later d) (after_old k c salt nonce new) (sym same ∙ h) in
        let a = after_old-unlocked salt nonce new r.1 r.0 d' r.3 in
        (r.0, r.2 ∙ ap (λ x. (r.0, ok x)) a.0, a.1)
  ]

  -- A successful rewrap stores a lock for the master key that is held.
  rewrap_master-ok :
      (salt nonce : Bytes) (new : List ℕ) (d d' : Device)
      → rewrap_master k c salt nonce new d ≡ (d', ok unlocked)
      → (mk : Bytes) × (d.master ≡ some mk) × (save_wrap k c salt nonce new mk d ≡ (d', ok tt))
  unfolding rewrap_master
  rewrap_master-ok salt nonce new d d' h = elim (Result-cases (master_key d)) [
    | inl (e, bad) ↦ absurd (
        let same : rewrap_master k c salt nonce new d ≡ (d, err e) = rw (rewrap_master, bad) refl in
        cc)
    | inr (mk, held) ↦
        let done : Unit {0} → Act Unlock = λ _ m. (m, ok unlocked) in
        let same : rewrap_master k c salt nonce new d
            ≡ after (save_wrap k c salt nonce new mk d) done =
          rw (rewrap_master, held) refl in
        let r = after-eq-ok (save_wrap k c salt nonce new mk d) done (sym same ∙ h) in
        let end : r.0 ≡ d' = ap (λ x. x.0) r.3 in
        (mk, master_key-ok d mk held, r.2 ∙ ap (λ x. (x, ok tt)) end)
  ]

  -- After a `change_pin` that says unlocked, the old PIN had unlocked a master key; and once the
  -- app is locked, the new PIN unlocks at any time where the Keychain takes the two writes of this
  -- `unlock`, and gives that same master key.
  pub unlock-change_pin :
      (salt nonce : Bytes) (old new : List ℕ) (now later : ℕ) (d d' : Device) (now' later' : ℕ)
      → change_pin k c salt nonce old new now later d ≡ (d', ok unlocked)
      → d'.keychain d'.calls ≡ true
      → d'.keychain (suc d'.calls) ≡ true
      → (mk : Bytes) × ((unlock k c old now later d).0.master ≡ some mk)
        × ((unlock k c old now later d).1 ≡ ok unlocked)
        × ((unlock k c new now' later' (lock d')).1 ≡ ok unlocked)
        × ((unlock k c new now' later' (lock d')).0.master ≡ some mk)
  unlock-change_pin salt nonce old new now later d d' now' later' h first second =
      let s = change_pin-ok salt nonce old new now later d d' h in
      let r = rewrap_master-ok salt nonce new s.0 d' s.2 in
      let w = save_wrap-ok k c salt nonce new r.0 s.0 d' r.2 in
      let opened =
        unlock-lock k c new now' later' d' w.0 r.0 (sym (ap (λ x. x.lock_item) w.1)) first second
          w.3 w.2 in
      (r.0, ap (λ x. x.0.master) s.1 ∙ r.1, ap (λ x. x.1) s.1, opened.0, opened.1)
