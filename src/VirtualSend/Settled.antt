-- ===== src/VirtualSend/Settled.antt =====
-- tools/zkmsg/core/src/virtual_send.rs: what `publish` does about a hash that an earlier attempt
-- saved.
use stwo_starknet_verifier.Common.{
  ℕ, ◌≡◌, ◌⊎◌, inl, inr, refl, sym, ap, subst, ◌∙◌, Bool, true, false, Option, none, some, Result,
  ok, Bool-cases, Option-cases, arith,
}
use stwo_starknet_verifier.Common.Effects.{
  after, after-keeps, after-ends, Outcome-cases, pure, ◌>>◌, fail,
}
use stwo_starknet_verifier.Felts.{Felt, Text, Crates}
use stwo_starknet_verifier.Sends.{SendState}
use stwo_starknet_verifier.Gateway.{Gateway, TxStatus, is_dropped, is_reverted}
use stwo_starknet_verifier.Gateway.Wire.{Servers}
use stwo_starknet_verifier.VirtualSend.{PublicV4, SendError}
use stwo_starknet_verifier.VirtualSend.World.{World, Node, retire, spend_ticket, ask_status}
use stwo_starknet_verifier.VirtualSend.Finish.{publish_index, await_and_finish, is_gone}
use stwo_starknet_verifier.VirtualSend.Log.{
  hash_in, submitted, last_posted, since_post, feeder_drops, IsGone, MayFollow,
}
use stwo_starknet_verifier.VirtualSend.Quiet.{Grows-MayFollow}
use stwo_starknet_verifier.VirtualSend.Reads.{Reads, Reads-refl, Reads-trans, ask_status-Reads}
use stwo_starknet_verifier.VirtualSend.Invariant.{
  Inv, Between, Reads-Inv, spent_and_retired-Inv, await_and_finish-Inv,
}
use stwo_starknet_verifier.VirtualSend.Gone.{ask_status-told, is_gone-Reads, is_gone-IsGone}
use stwo_starknet_verifier.VirtualSend.{publish_reverted}
use stwo_starknet_verifier.VirtualSend.Finish.{unless_gone, settle_status, settle_saved, hash_at}

-- The transaction that was posted last, where there is one, is gone.
unfoldable pub Clear : World → Type 0
Clear w = (h : Felt) → last_posted w.log ≡ some h → IsGone h w.log

submitted-hash_at :
    (s : SendState) (index : ℕ) → publish_index s.steps ≡ some index → submitted s ≡ hash_at index s
unfolding hash_in hash_at
submitted-hash_at s index at = rw (at, hash_in) refl

module _ (k : Crates) where
  -- The invariant holds, and a send that is not finished has only read.
  pub record Settled (w : World) (out : World × Result SendError Bool) : Type 0 where
    pub inv : Inv k out.0
    pub clear : out.1 ≡ ok false → Reads w out.0 × Clear out.0

  -- The hash in the file of a send that can be resumed.
  pub record CanResume (index : ℕ) (w : World) : Type 0 where
    pub inv : Inv k w
    pub saved : w.saved ≡ some w.state
    pub at : publish_index w.state.steps ≡ some index

module _ (k : Crates) (servers : Servers) (node : Node) (g : Gateway) where
  -- The last posted transaction is gone, or its hash is that of the file.
  last-hash_at :
      (index : ℕ) (w : World) (h : Felt)
      → CanResume k index w
      → last_posted w.log ≡ some h
      → IsGone h w.log ⊎ (hash_at index w.state ≡ some (k.to_hex h))
  unfolding Between
  last-hash_at index w h c last = elim (c.inv.between h last) [
    | inl (inl gone) ↦ inl gone
    | inl (inr unsaved) ↦ absurd (cc (sym unsaved ∙ c.saved))
    | inr (s, saved, at) ↦
        let both : some s ≡ some w.state = sym saved ∙ c.saved in
        let same : s ≡ w.state = ground arith in
        inr (sym (submitted-hash_at w.state index c.at) ∙ (ap submitted (sym same) ∙ at))
  ]

  no_hash-Clear :
      (index : ℕ) (w : World) → CanResume k index w → hash_at index w.state ≡ none → Clear w
  unfolding Clear
  no_hash-Clear index w c e h last = elim (last-hash_at index w h c last) [
    | inl gone ↦ gone
    | inr at ↦ absurd (cc (sym e ∙ at))
  ]

  hash-MayFollow :
      (index : ℕ) (w : World) (h : Felt) (text : Text)
      → ((f : Felt) → k.from_hex (k.to_hex f) ≡ some f)
      → CanResume k index w
      → hash_at index w.state ≡ some text
      → k.from_hex text ≡ some h
      → MayFollow h w.log
  unfolding MayFollow
  hash-MayFollow index w h text hex c e read h' last = elim (last-hash_at index w h' c last) [
    | inl gone ↦ inr gone
    | inr at ↦
        let both : some text ≡ some (k.to_hex h') = sym e ∙ at in
        let same : text ≡ k.to_hex h' = ground arith in
        let found : some h' ≡ some h = sym (hex h') ∙ (ap k.from_hex (sym same) ∙ read) in
        inl (ground arith)
  ]

  unless_gone-Settled :
      (index : ℕ) (p : PublicV4) (h : Felt) (gone : Bool) (w v : World)
      → Reads w v
      → Inv k v
      → MayFollow h v.log
      → publish_index v.state.steps ≡ some index
      → (gone ≡ true → IsGone h v.log)
      → Settled k w (unless_gone k servers node g index p h gone v)
  unfolding unless_gone Clear MayFollow
  unless_gone-Settled index p h true w v r i may at gone = record {
    inv = i;
    clear = λ e. (
      r,
      λ h' last. elim (may h' last) [
        | inl mine ↦ subst (λ x. IsGone x v.log) (sym mine) (gone refl)
        | inr other ↦ other
      ],
    );
  }
  unless_gone-Settled index p h false w v r i may at gone = record {
    inv =
        after-keeps (Inv k) (await_and_finish k servers node g index p h v) (λ u. pure true)
          (await_and_finish-Inv k servers node g index p h v i may at) (λ u mid i'. i');
    clear = λ e. elim (Outcome-cases (await_and_finish k servers node g index p h v)) [
      | inl (s, e', failed) ↦ absurd (cc (rw failed at e))
      | inr (s, u, done) ↦ absurd (cc (rw done at e))
    ];
  }

  over-Settled :
      (p : PublicV4) (tx : Option Text) (e : SendError) (w v : World)
      → Inv k v
      → Settled k w
          ((spend_ticket k servers node p tx >> retire k servers node >> fail {A = Bool} e) v)
  over-Settled p tx e w v i = record {
    inv = spent_and_retired-Inv k servers node g Bool p tx e v i;
    clear = λ ended.
        elim (Outcome-cases
          (after (spend_ticket k servers node p tx v) (λ u. retire k servers node))) [
            | inl (s, e', failed) ↦ absurd (cc (rw failed at ended))
            | inr (s, u, done) ↦ absurd (cc (rw done at ended))
          ];
  }

  settle_status-Settled :
      (index : ℕ) (p : PublicV4) (text : Text) (h : Felt) (s : TxStatus) (w v : World)
      → Reads w v
      → Inv k v
      → MayFollow h v.log
      → publish_index v.state.steps ≡ some index
      → (is_dropped s ≡ true → since_post (feeder_drops h) v.log ≡ true)
      → Settled k w (settle_status k servers node g index p text h s v)
  unfolding settle_status
  settle_status-Settled index p text h s w v r i may at told = elim (Bool-cases (is_reverted s)) [
    | inl t ↦ rw t (over-Settled p (some text) publish_reverted w v i)
    | inr f ↦ rw f (
        after-ends (Settled k w) (is_gone k servers node g h s v)
          (unless_gone k servers node g index p h)
          (λ mid gone e.
            let r' : Reads v mid =
              subst (Reads v) (ap (λ x. x.0) e) (is_gone-Reads k servers node g h s v) in
            unless_gone-Settled index p h gone w mid (Reads-trans w v mid r r')
              (Reads-Inv k v mid r' i) (Grows-MayFollow h r'.log_grows may)
              (subst (λ st. publish_index st.steps ≡ some index) (sym r'.state_same) at)
              (λ yes.
                is_gone-IsGone k servers node g h s v mid told (e ∙ ap (λ b. (mid, ok b)) yes)))
          (λ mid e' e.
            let r' : Reads v mid =
              subst (Reads v) (ap (λ x. x.0) e) (is_gone-Reads k servers node g h s v) in
            record { inv = Reads-Inv k v mid r' i; clear = λ u. absurd (cc u) }))
  ]

  -- A send that can be resumed is settled.
  pub settle_saved-Settled :
      (index : ℕ) (p : PublicV4) (found : Option Text) (w : World)
      → ((f : Felt) → k.from_hex (k.to_hex f) ≡ some f)
      → CanResume k index w
      → hash_at index w.state ≡ found
      → Settled k w (settle_saved k servers node g index p found w)
  unfolding settle_saved
  settle_saved-Settled index p none w hex c e = record {
    inv = c.inv;
    clear = λ u. (Reads-refl w, no_hash-Clear index w c e);
  }
  settle_saved-Settled index p (some text) w hex c e = elim (Option-cases (k.from_hex text)) [
    | inl bad ↦ rw bad (record { inv = c.inv; clear = λ u. absurd (cc u) })
    | inr (h, read) ↦ rw read (
        after-ends (Settled k w) (ask_status k servers node g h w)
          (settle_status k servers node g index p text h)
          (λ mid s asked.
            let r : Reads w mid =
              subst (Reads w) (ap (λ x. x.0) asked) (ask_status-Reads k servers node g h w) in
            settle_status-Settled index p text h s w mid r (Reads-Inv k w mid r c.inv)
              (Grows-MayFollow h r.log_grows (hash-MayFollow index w h text hex c e read))
              (subst (λ st. publish_index st.steps ≡ some index) (sym r.state_same) c.at)
              (ask_status-told k servers node g h w mid s asked))
          (λ mid e' asked.
            let r : Reads w mid =
              subst (Reads w) (ap (λ x. x.0) asked) (ask_status-Reads k servers node g h w) in
            record { inv = Reads-Inv k w mid r c.inv; clear = λ u. absurd (cc u) }))
  ]
