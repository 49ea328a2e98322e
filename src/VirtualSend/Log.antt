-- ===== src/VirtualSend/Log.antt =====
-- tools/zkmsg/core/src/virtual_send.rs: what the log of a send says, and when a transaction may go
-- out and a ticket may be handed back.
use stwo_starknet_verifier.Common.{
  ℕ, ◌≤◌, ◌≡◌, ◌⊎◌, Bool, true, false, ◌&&◌, ◌||◌, Option, none, get_elem?, some, List, [], ◌∷◌,
  ◌==◌,
}
use stwo_starknet_verifier.Felts.{Felt, Text, Crates}
use stwo_starknet_verifier.Sends.{SendState, StepRecord}
use stwo_starknet_verifier.Gateway.{SignedInvoke, is_dropped}
use stwo_starknet_verifier.VirtualSend.World.{
  Event, shown, head_said, root_said, posted, refused, feeder_said, node_said, accepted, freed,
}
use stwo_starknet_verifier.VirtualSend.Finish.{publish_index}

abbrev pub posted_hash : Event → Option Felt
posted_hash e = elim e [ posted tx disk ↦ some tx.tx_hash | _ ↦ none ]

-- The hash of the transaction that was posted last; the newest event comes first.
unfoldable pub last_posted : List Event → Option Felt
last_posted [] = none
last_posted (e ∷ es) =
    let older = last_posted es in elim (posted_hash e) [ some h ↦ some h | none ↦ older ]

-- Whether an event since the last POST passes a test.
unfoldable pub since_post : (Event → Bool) → List Event → Bool
since_post test [] = false
since_post test (e ∷ es) =
    let older = since_post test es in
    elim (posted_hash e) [ some h ↦ false | none ↦ test e || older ]

abbrev pub feeder_drops : Felt → Event → Bool
feeder_drops h e = elim e [ feeder_said h' s ↦ (h == h') && is_dropped s | _ ↦ false ]

abbrev pub node_drops : Felt → Event → Bool
node_drops h e = elim e [ node_said h' gone ↦ (h == h') && gone | _ ↦ false ]

abbrev pub refuses_tx : Felt → Event → Bool
refuses_tx h e = elim e [ refused tx ↦ h == tx.tx_hash | _ ↦ false ]

-- Since the last POST the feeder reported it as dropped, and the node did not know it either.
unfoldable pub IsGone : Felt → List Event → Type 0
IsGone h es = (since_post (feeder_drops h) es ≡ true) × (since_post (node_drops h) es ≡ true)

-- The newest answer to `is_known_root`, with its root.
abbrev pub root_answer : Event → Option (Felt × Felt)
root_answer e = elim e [ root_said root answer ↦ some (root, answer) | _ ↦ none ]

unfoldable pub last_root : List Event → Option (Felt × Felt)
last_root [] = none
last_root (e ∷ es) =
    let older = last_root es in elim (root_answer e) [ some r ↦ some r | none ↦ older ]

-- Some answer of the node to `starknet_blockNumber` was this block or a later one.
pub data HeadReached (target : ℕ) : List Event → Type 0 where
  here : {head : ℕ} {es : List Event} → target ≤ head → HeadReached target (head_said head ∷ es)
  earlier : {e : Event} {es : List Event} → HeadReached target es → HeadReached target (e ∷ es)

-- A transaction other than the last posted one goes out only once that one is gone.
unfoldable pub MayFollow : Felt → List Event → Type 0
MayFollow h es = (h' : Felt) → last_posted es ≡ some h' → (h' ≡ h) ⊎ IsGone h' es

-- The hash of the publish step.
unfoldable pub hash_in : List StepRecord → Option Text
hash_in ss = elim (publish_index ss) [
  | none ↦ none
  | some i ↦ elim (get_elem? ss i) [ none ↦ none | some step ↦ step.tx_hash ]
]

abbrev pub submitted : SendState → Option Text
submitted s = hash_in s.steps

module _ (k : Crates) where
  -- What a POST of `tx` rests on, with the log before it: its hash, nonce and bounds are in the file
  -- on disk; the schedule's block is reached; the newest answer of the store is that the root of
  -- the send is known; an earlier, different transaction is gone.
  pub record CanPost (tx : SignedInvoke) (s : SendState) (es : List Event) : Type 0 where
    pub has_hash : submitted s ≡ some (k.to_hex tx.tx_hash)
    pub has_nonce : s.publish_nonce ≡ some (k.to_hex tx.invoke.nonce)
    pub has_bounds : s.publish_bounds ≡ some tx.invoke.bounds
    pub on_time : (target : ℕ) → s.publish_after_block ≡ some target → HeadReached target es
    pub root_known :
        (root : Felt) × (k.from_hex s.expected_merkle_root ≡ some root)
        × (last_root es ≡ some (root, 1))
    pub follows : MayFollow tx.tx_hash es

  -- What handing back the ticket rests on: the last posted transaction is gone, or was refused.
  unfoldable pub CanFree : List Event → Type 0
  CanFree es =
      (h : Felt) → last_posted es ≡ some h → IsGone h es ⊎ (since_post (refuses_tx h) es ≡ true)

  unfoldable pub GoodEvent : Event → List Event → Type 0
  GoodEvent (posted tx disk) es = (s : SendState) × (disk ≡ some s) × CanPost tx s es
  GoodEvent freed es = CanFree es
  GoodEvent (shown _) es = Unit
  GoodEvent (head_said _) es = Unit
  GoodEvent (root_said _ _) es = Unit
  GoodEvent (refused _) es = Unit
  GoodEvent (feeder_said _ _) es = Unit
  GoodEvent (node_said _ _) es = Unit
  GoodEvent (accepted _) es = Unit

  unfoldable pub GoodLog : List Event → Type 0
  GoodLog [] = Unit
  GoodLog (e ∷ es) = GoodEvent e es × GoodLog es
