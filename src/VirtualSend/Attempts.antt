-- ===== src/VirtualSend/Attempts.antt =====
-- tools/zkmsg/core/src/virtual_send.rs: every attempt of `publish` keeps the invariant.
use stwo_starknet_verifier.Common.{
  ℕ, ◌+◌, ◌≡◌, inl, inr, refl, sym, ap, subst, ◌∙◌, Option, none, some, ◌∷◌, get_elem?, set, Result,
  Bool-cases, Option-cases, arith,
}
use stwo_starknet_verifier.Common.Effects.{after}
use stwo_starknet_verifier.Felts.{Text, Crates}
use stwo_starknet_verifier.TxPolicy.{Bounds}
use stwo_starknet_verifier.Sends.{SendState, StepRecord, record_submission}
use stwo_starknet_verifier.Gateway.{Gateway, SignedInvoke}
use stwo_starknet_verifier.Gateway.Wire.{Servers, Failure, submit}
use stwo_starknet_verifier.VirtualSend.{VirtualRoute, PublicV4}
use stwo_starknet_verifier.VirtualSend.World.{World, Node, Act, posted, note, save}
use stwo_starknet_verifier.VirtualSend.Finish.{publish_index, recorded}
use stwo_starknet_verifier.VirtualSend.Publish.{post_tx, post_as}
use stwo_starknet_verifier.VirtualSend.Log.{
  submitted, last_posted, last_root, HeadReached, earlier, MayFollow, CanPost, GoodEvent, GoodLog,
}
use stwo_starknet_verifier.VirtualSend.Quiet.{Grows-last_root, Grows-HeadReached}
use stwo_starknet_verifier.VirtualSend.Reads.{Reads}
use stwo_starknet_verifier.VirtualSend.Invariant.{Inv, Between, Reads-Inv}
use stwo_starknet_verifier.VirtualSend.Submitted.{publish_index-set, set-hash_in}

module _ (k : Crates) where
  -- A world in which a transaction of this send may go out, if it follows the one before.
  pub record Sending (p : PublicV4) (index : ℕ) (w : World) : Type 0 where
    pub inv : Inv k w
    pub at : publish_index w.state.steps ≡ some index
    pub root : k.from_hex w.state.expected_merkle_root ≡ some p.root
    pub answer : last_root w.log ≡ some (p.root, 1)
    pub on_time :
        (target : ℕ) → w.state.publish_after_block ≡ some target → HeadReached target w.log

  pub Reads-Sending :
      (p : PublicV4) (index : ℕ) (w w' : World)
      → Reads w w'
      → Sending p index w
      → Sending p index w'
  Reads-Sending p index w w' r s = record {
    inv = Reads-Inv k w w' r s.inv;
    at = subst (λ st. publish_index st.steps ≡ some index) (sym r.state_same) s.at;
    root = subst (λ st. k.from_hex st.expected_merkle_root ≡ some p.root) (sym r.state_same) s.root;
    answer = Grows-last_root r.log_grows ∙ s.answer;
    on_time = λ target e.
        Grows-HeadReached target r.log_grows
          (s.on_time target (subst (λ st. st.publish_after_block ≡ some target) r.state_same e));
  }

  -- What `recorded` makes of a state.
  pub record IsRecorded (index : ℕ) (hash nonce : Text) (b : Bounds) (s s' : SendState)
      : Type 0 where
    pub still_at : publish_index s'.steps ≡ some index
    pub has_hash : submitted s' ≡ some hash
    pub has_nonce : s'.publish_nonce ≡ some nonce
    pub has_bounds : s'.publish_bounds ≡ some b
    pub same_root : s'.expected_merkle_root ≡ s.expected_merkle_root
    pub same_schedule : s'.publish_after_block ≡ s.publish_after_block

  pub recorded-IsRecorded :
      (index : ℕ) (hash nonce : Text) (b : Bounds) (s s' : SendState)
      → publish_index s.steps ≡ some index
      → recorded index hash nonce b s ≡ some s'
      → IsRecorded index hash nonce b s s'
  unfolding recorded record_submission
  recorded-IsRecorded index hash nonce b s s' at done =
      elim (Option-cases (get_elem? s.steps index)) [
        | inl missing ↦ cc (rw (missing, recorded) at done)
        | inr (step, there) ↦
            let step' : StepRecord = record step { tx_hash = some hash } in
            let result : record s {
              steps = set s.steps index step';
              publish_nonce = some nonce;
              publish_bounds = some b;
            }
                ≡ s' =
              ground arith in
            subst (IsRecorded index hash nonce b s) result (record {
              still_at = publish_index-set s.steps index step step' at there refl;
              has_hash = set-hash_in s.steps index step step' hash at there refl refl;
              has_nonce = refl;
              has_bounds = refl;
              same_root = refl;
              same_schedule = refl;
            })
      ]

-- The hash, nonce and bounds of a transaction are what a state has of its submission.
abbrev pub Records : Crates → ℕ → SignedInvoke → SendState → SendState → Type 0
Records k index tx s s' =
    IsRecorded k index (k.to_hex tx.tx_hash) (k.to_hex tx.invoke.nonce) tx.invoke.bounds s s'

module _ (k : Crates) (servers : Servers) (node : Node) (g : Gateway) (route : VirtualRoute) where
  -- The state that `recorded` made, with a transaction that may go out.
  recorded-CanPost :
      (p : PublicV4) (index : ℕ) (tx : SignedInvoke) (s : SendState) (w : World)
      → Sending k p index w
      → MayFollow tx.tx_hash w.log
      → Records k index tx w.state s
      → CanPost k tx s w.log
  recorded-CanPost p index tx s w sending may r = record {
    has_hash = r.has_hash;
    has_nonce = r.has_nonce;
    has_bounds = r.has_bounds;
    on_time = λ target e. sending.on_time target (sym r.same_schedule ∙ e);
    root_known = (p.root, ap k.from_hex r.same_root ∙ sending.root, sending.answer);
    follows = may;
  }

  -- After the POST of a transaction it is the one that was posted last.
  posted-Sending :
      (p : PublicV4) (index : ℕ) (tx : SignedInvoke) (s : SendState) (w v : World)
      → Sending k p index w
      → MayFollow tx.tx_hash w.log
      → Records k index tx w.state s
      → v.state ≡ s
      → v.saved ≡ some s
      → v.log ≡ posted tx (some s) ∷ w.log
      → Sending k p index v × (last_posted v.log ≡ some tx.tx_hash)
  unfolding last_posted last_root GoodLog GoodEvent Between
  posted-Sending p index tx s w v sending may r state saved log = (
    record {
      inv = record {
        log_good =
            rw log ((s, refl, recorded-CanPost p index tx s w sending may r), sending.inv.log_good);
        between = λ h last.
            let newest : some tx.tx_hash ≡ some h = subst (λ l. last_posted l ≡ some h) log last in
            let same : tx.tx_hash ≡ h = ground arith in
            inr (s, saved, r.has_hash ∙ ap (λ x. some (k.to_hex x)) same);
      };
      at = rw state r.still_at;
      root = ap k.from_hex (ap (λ x. x.expected_merkle_root) state ∙ r.same_root) ∙ sending.root;
      answer = rw log sending.answer;
      on_time = λ target e. subst (HeadReached target) (sym log) (
          earlier (
            sending.on_time target
              (sym r.same_schedule ∙ (sym (ap (λ x. x.publish_after_block) state) ∙ e))));
    },
    rw log refl,
  )

  -- A transaction that may go out is posted, or an error comes before.
  pub post_as-then :
      (p : PublicV4) (index : ℕ) (tx : SignedInvoke) (state : Option SendState)
      (next : Result Failure (Unit {0}) → Act (Unit {0})) (w : World)
      → Sending k p index w
      → MayFollow tx.tx_hash w.log
      → ((s : SendState) → state ≡ some s → Records k index tx w.state s)
      → ((result : Result Failure (Unit {0})) (v : World)
          → Sending k p index v
          → last_posted v.log ≡ some tx.tx_hash
          → Inv k (next result v).0)
      → Inv k (after (post_as k servers node g route state tx w) next).0
  unfolding post_as post_tx note save Between
  post_as-then p index tx none next w sending may records rest = sending.inv
  post_as-then p index tx (some s) next w sending may records rest =
      elim (Bool-cases (node.writable w.writes)) [
        | inl t ↦
            let v : World = record w {
              writes = w.writes + 1;
              state = s;
              saved = some s;
              log = posted tx (some s) ∷ w.log;
            } in
            let (net, result) = submit k servers g tx w.net in
            let (there, newest) =
              posted-Sending p index tx s w (record v { net = net }) sending may (records s refl)
                refl refl refl in
            rw (t, save) (rest result (record v { net = net }) there newest)
        | inr f ↦
            rw (f, save)
              (record {
                log_good = sending.inv.log_good;
                between = λ h last. sending.inv.between h last;
              })
      ]
