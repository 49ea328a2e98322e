-- ===== src/Wipe/Moves.antt =====
-- tools/zkmsg/core/src/wipe.rs, `classify_tickets` and `move_tickets`: a profile's tickets move to
-- another one before it is deleted. The send files are a function from a send's id to its state.
pub mod Kept
pub mod Rescue
mod Tests
use stwo_starknet_verifier.Common.{
  ℕ, zero, suc, ◌+◌, ◌≡◌, Bool, true, false, not, Option, none, some, List, [], ◌∷◌, ◌++◌, Result,
  ok, err, ◌>>=◌, ◌>>◌, ensure, context, get_elem?, ◌==◌, if◌then◌else◌,
}
use stwo_starknet_verifier.Felts.{Felt, Text, Crates, same_address}
use stwo_starknet_verifier.Sends.{SendState, any_submitted}
use stwo_starknet_verifier.Tickets.{Ticket, TicketState, pending, unspent, reserved, spent, Wallet}

pub record TicketMove : Type 0 where
  pub moved : ℕ
  pub already_there : ℕ
  pub left_in_flight : ℕ

pub data Error : Type 0 where
  other_pool : Error
  same_profile : Error
  bad_secret : Error
  out_of_range_panics : Error

-- Whether the send of a reserved ticket has a publish submitted.
unfoldable pub is_submitted : Option SendState → Bool
is_submitted none = false
is_submitted (some s) = any_submitted s.steps

-- The arms of `classify_tickets` for the ticket at `i`.
unfoldable pub classify : (Text → Option SendState) → ℕ → TicketState → List ℕ × ℕ → List ℕ × ℕ
classify sends i unspent rest = (i ∷ rest.0, rest.1)
classify sends i pending rest = (i ∷ rest.0, rest.1)
classify sends i (reserved id) rest = elim (is_submitted (sends id)) [
  | true ↦ (rest.0, rest.1 + 1)
  | false ↦ (i ∷ rest.0, rest.1)
]
classify sends i (spent tx) rest = rest

-- `classify_tickets`, of the tickets from the `i`-th on: the indices that can move, and how many
-- are in flight.
unfoldable pub classify_from : (Text → Option SendState) → ℕ → List Ticket → List ℕ × ℕ
classify_from sends i [] = ([], 0)
classify_from sends i (t ∷ ts) = classify sends i t.state (classify_from sends (i + 1) ts)

-- A reservation ends with the move.
unfoldable pub freed_state : TicketState → TicketState
freed_state (reserved id) = unspent
freed_state pending = pending
freed_state unspent = unspent
freed_state (spent tx) = spent tx

abbrev pub freed : Ticket → Ticket
freed t = record t { state = freed_state t.state }

-- The target after one ticket, which may be there already, and the report.
unfoldable pub placed : Bool → Ticket → List Ticket → List Ticket
placed true t target = target
placed false t target = target ++ freed t ∷ []

unfoldable pub counted : Bool → TicketMove → TicketMove
counted true report = record report { already_there = report.already_there + 1 }
counted false report = record report { moved = report.moved + 1 }

module _ (k : Crates) where
  -- `target.tickets.iter().any(…)`
  unfoldable pub has_secret : Felt → List Ticket → Bool
  has_secret s [] = false
  has_secret s (t ∷ ts) =
      let later = has_secret s ts in
      elim (k.from_hex t.secret) [ none ↦ later | some x ↦ if x == s then true else later ]

  -- The loop of `move_tickets`.
  unfoldable pub move_loop :
      List Ticket → List ℕ → List Ticket → TicketMove → Result Error (List Ticket × TicketMove)
  move_loop source [] target report = ok (target, report)
  move_loop source (i ∷ rest) target report = do
    t ← context (get_elem? source i) out_of_range_panics
    secret ← context (k.from_hex t.secret) bad_secret
    move_loop source rest (placed (has_secret secret target) t target)
        (counted (has_secret secret target) report)

  -- `move_tickets`: the target's wallet after the move, and the report.
  unfoldable pub move_tickets :
      (Text → Option SendState) → Bool → Wallet → Wallet → Result Error (Wallet × TicketMove)
  move_tickets sends same_dir from to = do
    ensure (same_address k from.store to.store) other_pool
    ensure (not same_dir) same_profile
    let (movable, in_flight) = classify_from sends 0 from.tickets
    (tickets, report) ←
        move_loop from.tickets movable to.tickets
          (record { moved = 0; already_there = 0; left_in_flight = in_flight })
    ok (record to { tickets = tickets }, report)
