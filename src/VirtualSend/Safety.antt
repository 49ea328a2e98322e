-- ===== src/VirtualSend/Safety.antt =====
-- tools/zkmsg/core/src/virtual_send.rs: every run of `publish` keeps the invariant.
use stwo_starknet_verifier.Common.{
  context-eq-ok, ℕ, ◌≡◌, inl, inr, refl, sym, ap, subst, ◌∙◌, Bool, true, false, Option, none, some,
  List, [], get_elem?, Result, ok, context, >>=-eq-ok, Result-cases, length, Bool-cases,
  Option-cases,
}
use stwo_starknet_verifier.Common.Effects.{lift, after-ends}
use stwo_starknet_verifier.Felts.{Felt, Crates}
use stwo_starknet_verifier.Sends.{next_pending, SendState, publish}
use stwo_starknet_verifier.Gateway.{Gateway}
use stwo_starknet_verifier.Gateway.Wire.{Servers}
use stwo_starknet_verifier.VirtualSend.{
  no_binding, hash_of_content, from_state, VirtualRoute, PublicV4, SendError, panics,
}
use stwo_starknet_verifier.VirtualSend.World.{completed, step_started, World, Node, shown, note}
use stwo_starknet_verifier.VirtualSend.Finish.{is_publish, publish_index}
use stwo_starknet_verifier.VirtualSend.Publish.{
  resume, publish_step, publish_anew, publish_from, publish_send, read_public, unless_done,
}
use stwo_starknet_verifier.VirtualSend.Log.{last_posted, GoodLog}
use stwo_starknet_verifier.VirtualSend.Reads.{Reads, note-Reads}
use stwo_starknet_verifier.VirtualSend.Invariant.{Inv, Between, Reads-Inv}
use stwo_starknet_verifier.VirtualSend.{bad_felt}
use stwo_starknet_verifier.VirtualSend.Finish.{settle_saved, hash_at}
use stwo_starknet_verifier.VirtualSend.Settled.{Clear, Settled, CanResume, settle_saved-Settled}
use stwo_starknet_verifier.VirtualSend.Ready.{publish_anew-Inv}

public-root :
    {c c' : List ℕ} {p q : PublicV4}
    → ◌≡◌ {A = Result SendError (List ℕ × PublicV4)} (ok (c, p)) (ok (c', q))
    → p.root ≡ q.root
public-root h = cc

root-eq_ok : {p q : PublicV4} → ◌≡◌ {A = Result SendError PublicV4} (ok p) (ok q) → p.root ≡ q.root
root-eq_ok h = cc

module _ (k : Crates) (servers : Servers) (node : Node) (g : Gateway) (route : VirtualRoute) where
  unless_done-Inv :
      (send_selector : Felt) (rounds : ℕ) (p : PublicV4) (index : ℕ) (content : List ℕ)
      (w v : World) (done : Bool)
      → CanResume k index w
      → k.from_hex w.state.expected_merkle_root ≡ some p.root
      → Inv k v
      → (done ≡ false → Reads w v × Clear v)
      → Inv k
          (unless_done k servers node g route
            (publish_anew k servers node g route send_selector rounds index p content)
            done
            v).0
  unfolding unless_done
  unless_done-Inv send_selector rounds p index content w v true c root i settled = i
  unless_done-Inv send_selector rounds p index content w v false c root i settled =
      let (r, clear) = settled refl in
      publish_anew-Inv k servers node g route send_selector rounds p index content v i
        (subst (λ st. publish_index st.steps ≡ some index) (sym r.state_same) c.at)
        (subst (λ st. k.from_hex st.expected_merkle_root ≡ some p.root) (sym r.state_same) root)
        clear

  publish_from-Inv :
      (send_selector : Felt) (rounds : ℕ) (p : PublicV4) (index : ℕ) (content : List ℕ) (w : World)
      → ((f : Felt) → k.from_hex (k.to_hex f) ≡ some f)
      → CanResume k index w
      → k.from_hex w.state.expected_merkle_root ≡ some p.root
      → Inv k (publish_from k servers node g route send_selector rounds index (content, p) w).0
  unfolding publish_from
  publish_from-Inv send_selector rounds p index content w hex c root =
      let settled =
        settle_saved-Settled k servers node g index p (hash_at index w.state) w hex c refl in
      after-ends (λ out. Inv k out.0)
        (settle_saved k servers node g index p (hash_at index w.state) w)
        (unless_done k servers node g route
          (publish_anew k servers node g route send_selector rounds index p content))
        (λ v done e.
          let there = subst (Settled k w) e settled in
          unless_done-Inv send_selector rounds p index content w v done c root there.inv
            (λ no. there.clear (ap ok no)))
        (λ v e' e. (subst (Settled k w) e settled).inv)

  from_state-root :
      (store : Felt) (s : SendState) (content : List ℕ) (p : PublicV4)
      → from_state k store s content ≡ ok p
      → k.from_hex s.expected_merkle_root ≡ some p.root
  unfolding from_state
  from_state-root store s content p e =
      let (b, e0, h0) = >>=-eq-ok (context s.binding no_binding) _ e in
      let (commitment, e1, h1) =
        >>=-eq-ok (context (k.from_hex s.expected_commitment) bad_felt) _ h0 in
      let (ephemeral, e2, h2) =
        >>=-eq-ok (context (k.from_hex s.expected_ephemeral_pubkey) bad_felt) _ h1 in
      let (root, e3, h3) = >>=-eq-ok (context (k.from_hex s.expected_merkle_root) bad_felt) _ h2 in
      let (hash, e4, h4) = >>=-eq-ok (context (hash_of_content k content) panics) _ h3 in
      let (nullifier, e5, h5) = >>=-eq-ok (context (k.from_hex b.nullifier) bad_felt) _ h4 in
      let (ticket_root, e6, h6) = >>=-eq-ok (context (k.from_hex b.ticket_root) bad_felt) _ h5 in
      let (ticket_nullifier, e7, h7) =
        >>=-eq-ok (context (k.from_hex b.ticket_nullifier) bad_felt) _ h6 in
      context-eq-ok (k.from_hex s.expected_merkle_root) bad_felt e3 ∙ ap some (root-eq_ok h7)

  read_public-root :
      (s : SendState) (content : List ℕ) (p : PublicV4)
      → read_public k servers node g route s ≡ ok (content, p)
      → k.from_hex s.expected_merkle_root ≡ some p.root
  unfolding read_public
  read_public-root s content p e = elim (Option-cases (k.hex_decode s.ciphertext_hex)) [
    | inl none_there ↦ cc (rw (none_there, read_public) at e)
    | inr (c, decoded) ↦ elim (Result-cases (from_state k route.store s c)) [
      | inl (e', failed) ↦ cc (rw (decoded, failed, read_public) at e)
      | inr (q, good) ↦
          from_state-root route.store s c q good
          ∙ ap some (public-root (rw (decoded, good, read_public) at e))
    ]
  ]

  publish_step-Inv :
      (send_selector : Felt) (rounds : ℕ) (found : Option ℕ) (w : World)
      → ((f : Felt) → k.from_hex (k.to_hex f) ≡ some f)
      → Inv k w
      → w.saved ≡ some w.state
      → publish_index w.state.steps ≡ found
      → Inv k (publish_step k servers node g route send_selector rounds found w).0
  unfolding publish_step note
  publish_step-Inv send_selector rounds none w hex i saved at = i
  publish_step-Inv send_selector rounds (some index) w hex i saved at =
      let e = shown (step_started index (length w.state.steps) publish) in
      let v = (note e w).0 in
      let r : Reads w v = note-Reads e w refl in
      let c : CanResume k index v = record {
        inv = Reads-Inv k w v r i;
        saved = r.saved_same ∙ (saved ∙ ap some (sym r.state_same));
        at = subst (λ st. publish_index st.steps ≡ some index) (sym r.state_same) at;
      } in
      after-ends (λ out. Inv k out.0) (lift (read_public k servers node g route w.state) v)
        (publish_from k servers node g route send_selector rounds index)
        (λ s x e'.
          let root = read_public-root w.state x.0 x.1 (ap (λ y. y.1) e') in
          subst (λ y. Inv k (publish_from k servers node g route send_selector rounds index x y).0)
            (ap (λ y. y.0) e') (publish_from-Inv send_selector rounds x.1 index x.0 v hex c root))
        (λ s e' e''. subst (Inv k) (ap (λ y. y.0) e'') c.inv)

  publish_send-Inv :
      (send_selector : Felt) (rounds : ℕ) (w : World)
      → ((f : Felt) → k.from_hex (k.to_hex f) ≡ some f)
      → Inv k w
      → w.saved ≡ some w.state
      → Inv k (publish_send k servers node g route send_selector rounds w).0
  unfolding publish_send
  publish_send-Inv send_selector rounds w hex i saved =
      publish_step-Inv send_selector rounds (publish_index w.state.steps) w hex i saved refl

  resume-Inv :
      (send_selector : Felt) (rounds : ℕ) (w : World)
      → ((f : Felt) → k.from_hex (k.to_hex f) ≡ some f)
      → Inv k w
      → w.saved ≡ some w.state
      → Inv k (resume k servers node g route send_selector rounds w).0
  unfolding resume
  resume-Inv send_selector rounds w hex i saved = elim (Option-cases (next_pending w.state)) [
    | inl e ↦
        rw (e, resume)
          (Reads-Inv k w (note (shown completed) w).0 (note-Reads (shown completed) w refl) i)
    | inr (j, e) ↦ elim (Option-cases (get_elem? w.state.steps j)) [
      | inl e' ↦ rw (e, e', resume) i
      | inr (step, e') ↦ elim (Bool-cases (is_publish step)) [
        | inl t ↦ rw (e, e', t, resume) (publish_send-Inv send_selector rounds w hex i saved)
        | inr f ↦ rw (e, e', f, resume) i
      ]
    ]
  ]

-- The runs of a send: `publish` after its proof is saved, and then `resume`, each from the file that
-- the one before left, with servers and a node of its own.
pub data Runs (k : Crates) (send_selector : Felt) (w : World) : World → Type 0 where
  start : Runs k send_selector w w
  then_publish :
      (servers : Servers) (node : Node) (g : Gateway) (route : VirtualRoute) (rounds : ℕ)
      {v : World}
      → Runs k send_selector w v
      → v.saved ≡ some v.state
      → Runs k send_selector w (publish_send k servers node g route send_selector rounds v).0
  then_resume :
      (servers : Servers) (node : Node) (g : Gateway) (route : VirtualRoute) (rounds : ℕ)
      {v : World} (s : SendState)
      → Runs k send_selector w v
      → v.saved ≡ some s
      → Runs k send_selector w
          (resume k servers node g route send_selector rounds (record v { state = s })).0

Runs-Inv :
    (k : Crates) (send_selector : Felt) (w v : World)
    → ((f : Felt) → k.from_hex (k.to_hex f) ≡ some f)
    → Inv k w
    → Runs k send_selector w v
    → Inv k v
unfolding Between
Runs-Inv k send_selector w v hex i start = i
Runs-Inv k send_selector w v hex i (then_publish servers node g route rounds {v = u} r saved) =
    publish_send-Inv k servers node g route send_selector rounds u hex
      (Runs-Inv k send_selector w u hex i r) saved
Runs-Inv k send_selector w v hex i (then_resume servers node g route rounds {v = u} s r saved) =
    let before = Runs-Inv k send_selector w u hex i r in
    let loaded : Inv k (record u { state = s }) = record {
      log_good = before.log_good;
      between = λ h last. before.between h last;
    } in
    resume-Inv k servers node g route send_selector rounds (record u { state = s }) hex loaded saved

-- However often a send is published and resumed, from a world in which nothing was posted: every
-- transaction that was posted had its hash, nonce and bounds in the send's file on disk before the
-- POST; the node had answered with a block of the send's schedule or a later one, where it has a
-- schedule; the store's newest answer to `is_known_root` was that the root of the file is known;
-- and a transaction that was posted before it and has another hash had since been reported as
-- dropped by the feeder, with the node not knowing it either. And the ticket was handed back only
-- where the transaction posted last was so gone or had been refused by the gateway.
pub Runs-GoodLog :
    (k : Crates) (send_selector : Felt) (w v : World)
    → ((f : Felt) → k.from_hex (k.to_hex f) ≡ some f)
    → w.log ≡ []
    → Runs k send_selector w v
    → GoodLog k v.log
unfolding GoodLog Between last_posted
Runs-GoodLog k send_selector w v hex empty r =
    let fresh : Inv k w = record {
      log_good = subst (GoodLog k) (sym empty) tt;
      between = λ h last. absurd (cc (subst (λ l. last_posted l ≡ some h) empty last));
    } in
    (Runs-Inv k send_selector w v hex fresh r).log_good
