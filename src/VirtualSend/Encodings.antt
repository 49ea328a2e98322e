-- ===== src/VirtualSend/Encodings.antt =====
-- tools/zkmsg/core/src/virtual_send.rs: the nonce of the next attempt to publish.
use stwo_starknet_verifier.Common.{
  ◌⊎◌, refl, ◌≤◌, ℕ, ◌+◌, ◌<◌, ◌≡◌, inl, inr, Option, none, some, ◌%◌, ltb, ltb→lt, Bool-cases,
  arith,
}
use native.Mathlib.Nat.{mod-eq_of_lt}
use stwo_starknet_verifier.Felts.{Felt}
use stwo_starknet_verifier.VirtualSend.{felt_prime, next_nonce}

-- The nonce that the gateway expects, or else the chain's.
abbrev pub named_nonce : Option ℕ → Felt → Felt
named_nonce (some expected) chain = expected
named_nonce none chain = chain

-- Where the refused nonce is not the last felt: `next_nonce` is the nonce that the gateway expects,
-- or else the chain's, if that one is past the refused nonce, and the one after the refused nonce if
-- it is not. In both cases it is past the refused one.
pub next_nonce_past :
    (refused chain : Felt) (expected : Option ℕ)
    → refused + 1 < felt_prime
    → (refused < next_nonce refused expected chain)
      × (((refused < named_nonce expected chain)
            × (next_nonce refused expected chain ≡ named_nonce expected chain))
          ⊎ ((named_nonce expected chain ≤ refused)
              × (next_nonce refused expected chain ≡ refused + 1)))
unfolding next_nonce
next_nonce_past refused chain none h =
    let wrap : (refused + 1) % felt_prime ≡ refused + 1 = mod-eq_of_lt h in
    elim (Bool-cases (ltb refused chain)) [
      | inl t ↦ rw t (ltb→lt refused chain t, inl (ltb→lt refused chain t, refl))
      | inr f ↦ rw (f, wrap) (omega arith, inr (ground arith, refl))
    ]
next_nonce_past refused chain (some e) h =
    let wrap : (refused + 1) % felt_prime ≡ refused + 1 = mod-eq_of_lt h in
    elim (Bool-cases (ltb refused e)) [
      | inl t ↦ rw t (ltb→lt refused e t, inl (ltb→lt refused e t, refl))
      | inr f ↦ rw (f, wrap) (omega arith, inr (ground arith, refl))
    ]
