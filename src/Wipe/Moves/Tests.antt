-- ===== src/Wipe/Moves/Tests.antt =====
-- Two wallets of one pool for `move_tickets` of tools/zkmsg/core/src/wipe.rs.
use stwo_starknet_verifier.Common.{
  ℕ, ◌+◌, ◌≡◌, refl, true, false, Option, none, some, [], ◌∷◌, ok, length,
}
use stwo_starknet_verifier.Felts.{Felt, Text, same_address}
use stwo_starknet_verifier.Serde.Digits.{crates}
use stwo_starknet_verifier.Sends.{SendState}
use stwo_starknet_verifier.Tickets.{Ticket, TicketState, unspent, reserved, spent, pending, Wallet}
use stwo_starknet_verifier.Wipe.Moves.{
  TicketMove, classify, classify_from, is_submitted, freed_state, placed, counted, has_secret,
  move_loop, move_tickets,
}
use stwo_starknet_verifier.Wipe.Moves.Rescue.{move_tickets-CanMove}

abbrev with_secret : ℕ → TicketState → Ticket
with_secret n state = record { secret = n ∷ []; index = none; buy_tx = none; state = state }

abbrev no_sends : Text → Option SendState
no_sends id = none

abbrev leaving : Wallet
leaving = record {
  store = 9 ∷ [];
  tickets =
      with_secret 5 (reserved (1 ∷ [])) ∷ with_secret 6 (spent none) ∷ with_secret 7 pending ∷ [];
}

abbrev staying : Wallet
staying = record { store = 9 ∷ []; tickets = with_secret 7 unspent ∷ [] }

abbrev joined : Wallet
joined = record { store = 9 ∷ []; tickets = with_secret 7 unspent ∷ with_secret 5 unspent ∷ [] }

abbrev move_report : TicketMove
move_report = record { moved = 1; already_there = 1; left_in_flight = 0 }

tickets_moved : move_tickets crates no_sends false leaving staying ≡ ok (joined, move_report)
unfolding move_tickets same_address classify_from classify is_submitted freed_state placed counted
    has_secret move_loop
tickets_moved = refl

move_tickets-CanMove_example :
    (s : Felt) × (crates.from_hex (5 ∷ []) ≡ some s)
    × (has_secret crates s joined.tickets ≡ true)
    × (length joined.tickets ≡ length staying.tickets + 1)
unfolding is_submitted
move_tickets-CanMove_example =
    move_tickets-CanMove crates no_sends false leaving staying joined move_report 0
      (with_secret 5 (reserved (1 ∷ []))) tickets_moved refl refl
