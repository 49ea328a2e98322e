-- ===== src/VirtualSend/Reads.antt =====
-- tools/zkmsg/core/src/virtual_send.rs: the parts of a send that only read.
use stwo_starknet_verifier.Common.{ℕ, ◌≡◌, refl, ◌∙◌, true, Option, List, Result, ok, err}
use stwo_starknet_verifier.Common.Effects.{after, after-keeps}
use stwo_starknet_verifier.Felts.{Felt, Text, Crates}
use stwo_starknet_verifier.Gateway.{Gateway, TxStatus}
use stwo_starknet_verifier.Gateway.Wire.{Servers, Talk, Failure, status}
use stwo_starknet_verifier.VirtualSend.{SendError}
use stwo_starknet_verifier.VirtualSend.World.{
  Event, head_said, feeder_said, node_said, World, Node, Act, note, attempt, ask, ask_status,
  rpc_agrees_dropped, block_number, store_call, store_felt, nonce_of, answers, refuses, NodeReply,
  note_head, note_dropped, note_status, says_dropped,
}
use stwo_starknet_verifier.VirtualSend.Quiet.{is_quiet, Grows, same, adds, Grows-trans}

-- The send in memory and its file are as they were, and the log grew by quiet events.
pub record Reads (w w' : World) : Type 0 where
  pub state_same : w'.state ≡ w.state
  pub saved_same : w'.saved ≡ w.saved
  pub log_grows : Grows w.log w'.log

pub Reads-refl : (w : World) → Reads w w
Reads-refl w = record { state_same = refl; saved_same = refl; log_grows = same }

pub Reads-trans : (w mid w' : World) → Reads w mid → Reads mid w' → Reads w w'
Reads-trans w mid w' a b = record {
  state_same = b.state_same ∙ a.state_same;
  saved_same = b.saved_same ∙ a.saved_same;
  log_grows = Grows-trans a.log_grows b.log_grows;
}

pub after-Reads :
    {A B : Type 0} (w : World) (m : World × Result SendError A) (next : A → Act B)
    → Reads w m.0
    → ((a : A) (mid : World) → Reads mid (next a mid).0)
    → Reads w (after m next).0
after-Reads w m next h each =
    after-keeps (Reads w) m next h (λ a mid r. Reads-trans w mid (next a mid).0 r (each a mid))

-- What holds after a chain whose first operation reads.
pub read_then :
    {A B : Type 0} (Q : World → Type 0) (w : World) (m : World × Result SendError A)
    (next : A → Act B)
    → Reads w m.0
    → ((mid : World) (a : A) → m ≡ (mid, ok a) → Reads w mid → Q (next a mid).0)
    → ((mid : World) → Reads w mid → Q mid)
    → Q (after m next).0
read_then Q w (mid, ok a) next r good bad = good mid a refl r
read_then Q w (mid, err e) next r good bad = bad mid r

pub note-Reads : (e : Event) (w : World) → is_quiet e ≡ true → Reads w (note e w).0
unfolding note
note-Reads e w q = record { state_same = refl; saved_same = refl; log_grows = adds same q }

pub attempt-Reads : {A : Type 0} (m : Talk A) (w : World) → Reads w (attempt m w).0
attempt-Reads m w = record { state_same = refl; saved_same = refl; log_grows = same }

module _ (k : Crates) (servers : Servers) (node : Node) where
  pub ask-Reads : {A : Type 0} (f : ℕ → A) (w : World) → Reads w (ask k servers node f w).0
  unfolding ask
  ask-Reads f w = record { state_same = refl; saved_same = refl; log_grows = same }

  note_status-Reads :
      (h : Felt) (reply : Result Failure TxStatus) (w : World)
      → Reads w (note_status k servers node h reply w).0
  unfolding note_status note
  note_status-Reads h (ok s) w = note-Reads (feeder_said h s) w refl
  note_status-Reads h (err e) w = Reads-refl w

  pub ask_status-Reads :
      (g : Gateway) (h : Felt) (w : World) → Reads w (ask_status k servers node g h w).0
  unfolding ask_status
  ask_status-Reads g h w =
      after-Reads w (attempt (status k servers g h) w) (note_status k servers node h)
        (attempt-Reads (status k servers g h) w) (note_status-Reads h)

  pub rpc_agrees_dropped-Reads :
      (h : Felt) (w : World) → Reads w (rpc_agrees_dropped k servers node h w).0
  unfolding rpc_agrees_dropped note_dropped note
  rpc_agrees_dropped-Reads h w =
      after-Reads w (ask k servers node (λ n. node.tx_status n h) w) (note_dropped k servers node h)
        (ask-Reads (λ n. node.tx_status n h) w)
        (λ reply mid. note-Reads (node_said h (says_dropped reply)) mid refl)

  note_head-Reads : (reply : NodeReply ℕ) (w : World) → Reads w (note_head k servers node reply w).0
  unfolding note_head note
  note_head-Reads (answers head) w = note-Reads (head_said head) w refl
  note_head-Reads (refuses text) w = Reads-refl w

  pub block_number-Reads : (w : World) → Reads w (block_number k servers node w).0
  unfolding block_number
  block_number-Reads w =
      after-Reads w (ask k servers node node.block_number w) (note_head k servers node)
        (ask-Reads node.block_number w) note_head-Reads

  pub store_call-Reads :
      (entrypoint : Text) (calldata : List Felt) (block : Option ℕ) (w : World)
      → Reads w (store_call k servers node entrypoint calldata block w).0
  unfolding store_call
  store_call-Reads entrypoint calldata block w =
      after-Reads w (ask k servers node (λ n. node.store_call n entrypoint calldata block) w) _
        (ask-Reads (λ n. node.store_call n entrypoint calldata block) w)
        (λ reply mid. Reads-refl mid)

  pub store_felt-Reads :
      (entrypoint : Text) (calldata : List Felt) (block : Option ℕ) (w : World)
      → Reads w (store_felt k servers node entrypoint calldata block w).0
  unfolding store_felt
  store_felt-Reads entrypoint calldata block w =
      after-Reads w (store_call k servers node entrypoint calldata block w) _
        (store_call-Reads entrypoint calldata block w) (λ reply mid. Reads-refl mid)

  pub nonce_of-Reads :
      (address : Felt) (block : Option ℕ) (w : World)
      → Reads w (nonce_of k servers node address block w).0
  unfolding nonce_of
  nonce_of-Reads address block w =
      after-Reads w (ask k servers node (λ n. node.nonce_of n address block) w) _
        (ask-Reads (λ n. node.nonce_of n address block) w) (λ reply mid. Reads-refl mid)
