-- ===== src/VirtualSend/Finish.antt =====
-- tools/zkmsg/core/src/virtual_send.rs: the wait for the schedule, the end of a send, and what
-- `publish` does about a hash that an earlier attempt saved.
use stwo_starknet_verifier.Common.{
  ℕ, zero, suc, ◌-◌, Bool, true, false, Option, none, some, List, [], ◌∷◌, leb, if◌then◌else◌,
  get_elem?, Result, ok, err, context,
}
use stwo_starknet_verifier.Common.Effects.{◌>>=◌, ◌>>◌, pure, fail, lift}
use stwo_starknet_verifier.Felts.{Felt, Text, Crates, bytes}
use stwo_starknet_verifier.TxPolicy.{Bounds}
use stwo_starknet_verifier.Sends.{SendState, StepRecord, publish, mark_done, record_submission}
use stwo_starknet_verifier.Gateway.{Gateway, reverted, TxStatus, is_dropped, is_reverted}
use stwo_starknet_verifier.Gateway.Wire.{Servers, Failure, typed, sleep, await_acceptance}
use stwo_starknet_verifier.VirtualSend.{
  PublicV4, wire, bad_felt, panics, publish_reverted, out_of_rounds,
}
use stwo_starknet_verifier.VirtualSend.World.{
  step_completed, completed, waiting, accepted, Node, Act, note, sink, attempt, ask_status,
  rpc_agrees_dropped, block_number, save, retire, spend_ticket,
}

-- `s.kind == StepKind::Publish`
abbrev pub is_publish : StepRecord → Bool
is_publish s = elim s.kind [ publish ↦ true | _ ↦ false ]

-- `steps.iter().position(|s| s.kind == StepKind::Publish)`
unfoldable pub publish_index : List StepRecord → Option ℕ
publish_index [] = none
publish_index (s ∷ ss) =
    let later = publish_index ss in
    if is_publish s then some 0 else (elim later [ none ↦ none | some i ↦ some (suc i) ])

-- `state.steps[index].tx_hash.clone()`
unfoldable pub hash_at : ℕ → SendState → Option Text
hash_at index s = elim (get_elem? s.steps index) [ none ↦ none | some step ↦ step.tx_hash ]

-- The state with the transaction that goes out next.
unfoldable pub recorded : ℕ → Text → Text → Bounds → SendState → Option SendState
recorded index tx_hash nonce bounds s = elim (record_submission index tx_hash s) [
  | none ↦ none
  | some s' ↦ some (record s' { publish_nonce = some nonce; publish_bounds = some bounds })
]

-- A change of the state, which panics where it is `none`.
abbrev pub change_to : Option SendState → Act (Unit {0})
change_to none w = (w, err panics)
change_to (some s) w = (record w { state = s }, ok tt)

-- `PUBLISH_POLL`, `SCHEDULE_POLL`, `PUBLISH_TIMEOUT`, `TOO_RECENT_WAIT` in milliseconds
abbrev pub publish_poll : ℕ
publish_poll = 5000

abbrev pub schedule_poll : ℕ
schedule_poll = 6000

abbrev pub publish_timeout : ℕ
publish_timeout = 1800000

abbrev pub too_recent_wait : ℕ
too_recent_wait = 10000

abbrev pub publish_attempts : ℕ
publish_attempts = 12

module _ (k : Crates) (servers : Servers) (node : Node) (g : Gateway) where
  unfoldable pub report_wait : Bool → ℕ → ℕ → Act (Unit {0})
  report_wait true target head = pure tt
  report_wait false target head = sink (waiting target (target - head))

  -- What `wait_for_head` does with a head, in a round of its loop.
  unfoldable pub on_head : Bool → ℕ → Act (Unit {0}) → ℕ → Act (Unit {0})
  on_head reported target again head =
      if leb target head
      then pure tt
      else (report_wait reported target head >> attempt (sleep schedule_poll) >>= λ slept. again)

  -- `wait_for_head`, for so many rounds at most: `reported` is whether the wait was shown.
  unfoldable pub wait_for_head : ℕ → Bool → ℕ → Act (Unit {0})
  wait_for_head zero reported target = fail out_of_rounds
  wait_for_head (suc left) reported target =
      block_number k servers node >>= on_head reported target (wait_for_head left true target)

  -- The schedule of a send: none, or until its block.
  unfoldable pub wait_for_schedule : ℕ → Option ℕ → Act (Unit {0})
  wait_for_schedule rounds none = pure tt
  wait_for_schedule rounds (some target) = wait_for_head rounds false target

  -- The end of a published send, with the state to save.
  unfoldable pub complete_as : Felt → Option SendState → Act (Unit {0})
  complete_as h done =
      change_to done
      >> save k servers node
      >> sink (step_completed publish (some (k.to_hex h)))
      >> sink completed

  unfoldable pub complete : ℕ → Felt → Act (Unit {0})
  complete index h w =
      complete_as h
        (mark_done index (some (k.to_hex h)) (some (bytes "message published by the pool")) w.state)
        w

  -- The end of `await_and_finish`, by what `await_acceptance` returned.
  unfoldable pub finish : ℕ → PublicV4 → Felt → Result Failure TxStatus → Act (Unit {0})
  finish index p h (ok s) =
      note (accepted h) >> spend_ticket k servers node p (some (k.to_hex h)) >> complete index h
  finish index p h (err (typed (reverted tx reason))) =
      spend_ticket k servers node p (some (k.to_hex h))
      >> retire k servers node
      >> fail (wire (typed (reverted tx reason)))
  finish index p h (err e) = fail (wire e)

  -- `await_and_finish`
  unfoldable pub await_and_finish : ℕ → PublicV4 → Felt → Act (Unit {0})
  await_and_finish index p h =
      attempt (await_acceptance k servers g h publish_poll publish_timeout) >>= finish index p h

  -- `!status.is_dropped() || !self.rpc_agrees_dropped(&hash)`, negated: whether neither has it.
  unfoldable pub is_gone : Felt → TxStatus → Act Bool
  is_gone h s = if is_dropped s then rpc_agrees_dropped k servers node h else pure false

  unfoldable pub unless_gone : ℕ → PublicV4 → Felt → Bool → Act Bool
  unless_gone index p h true = pure false
  unless_gone index p h false = await_and_finish index p h >> pure true

  -- The part of `publish` on a hash that an earlier attempt saved: whether the send is finished.
  unfoldable pub settle_status : ℕ → PublicV4 → Text → Felt → TxStatus → Act Bool
  settle_status index p text h s =
      if is_reverted s
      then (spend_ticket k servers node p (some text)
          >> retire k servers node
          >> fail publish_reverted)
      else (is_gone h s >>= unless_gone index p h)

  unfoldable pub settle_saved : ℕ → PublicV4 → Option Text → Act Bool
  settle_saved index p none = pure false
  settle_saved index p (some text) = lift (context (k.from_hex text) bad_felt) >>= λ h.
      ask_status k servers node g h >>= settle_status index p text h
