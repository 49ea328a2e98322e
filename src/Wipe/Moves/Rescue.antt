-- ===== src/Wipe/Moves/Rescue.antt =====
-- tools/zkmsg/core/src/wipe.rs, `move_tickets`: every ticket that can move is in the target.
use stwo_starknet_verifier.Common.{
  ℕ, zero, suc, ◌+◌, ◌≡◌, inl, inr, refl, sym, ap, ◌∙◌, subst, Bool, true, false, not, Option, some,
  List, [], ◌∷◌, ok, get_elem?, length, arith, Bool-cases, >>=-eq-ok, ensure-eq-ok,
}
use stwo_starknet_verifier.Felts.{Felt, Text, Crates, same_address}
use stwo_starknet_verifier.Sends.{SendState}
use stwo_starknet_verifier.Tickets.{Ticket, TicketState, pending, unspent, reserved, spent, Wallet}
use stwo_starknet_verifier.Wipe.Moves.{
  TicketMove, other_pool, same_profile, has_secret, move_loop, move_tickets, classify,
  classify_from, is_submitted,
}
use stwo_starknet_verifier.Wipe.Moves.Kept.{move_loop-arrives, move_loop-counts}

-- A ticket that is unspent, pending, or reserved by a send that submitted no publish.
abbrev pub CanMove : (Text → Option SendState) → TicketState → Type 0
CanMove sends unspent = Unit {0}
CanMove sends pending = Unit {0}
CanMove sends (reserved id) = is_submitted (sends id) ≡ false
CanMove sends (spent tx) = ⊥

-- An index that can move stays in the list, and that of a ticket which can move comes into it.
classify-tail :
    (sends : Text → Option SendState) (i : ℕ) (state : TicketState) (rest : List ℕ × ℕ) (n j : ℕ)
    → get_elem? rest.0 n ≡ some j
    → (m : ℕ) × (get_elem? (classify sends i state rest).0 m ≡ some j)
unfolding classify
classify-tail sends i unspent rest n j h = (suc n, h)
classify-tail sends i pending rest n j h = (suc n, h)
classify-tail sends i (spent tx) rest n j h = (n, h)
classify-tail sends i (reserved id) rest n j h = elim (Bool-cases (is_submitted (sends id))) [
  | inl submitted ↦ (n, rw (submitted, classify) h)
  | inr free ↦ (suc n, rw (free, classify) h)
]

classify-head :
    (sends : Text → Option SendState) (i : ℕ) (state : TicketState) (rest : List ℕ × ℕ)
    → CanMove sends state
    → get_elem? (classify sends i state rest).0 0 ≡ some i
unfolding classify
classify-head sends i unspent rest h = refl
classify-head sends i pending rest h = refl
classify-head sends i (spent tx) rest h = absurd h
classify-head sends i (reserved id) rest h = rw (h, classify) refl

classify_from-CanMove :
    (sends : Text → Option SendState) (i : ℕ) (ts : List Ticket) (j : ℕ) (t : Ticket)
    → get_elem? ts j ≡ some t
    → CanMove sends t.state
    → (n : ℕ) × (get_elem? (classify_from sends i ts).0 n ≡ some (i + j))
unfolding classify_from
classify_from-CanMove sends i [] j t at_j can = cc
classify_from-CanMove sends i (u ∷ ts) zero t at_j can =
    let same : t ≡ u = cc in
    let here : i + 0 ≡ i = omega arith in
    (
      0,
      classify-head sends i u.state (classify_from sends (i + 1) ts)
            (subst (λ x. CanMove sends x.state) same can)
          ∙ ap some (sym here),
    )
classify_from-CanMove sends i (u ∷ ts) (suc j) t at_j can =
    let (n, found) = classify_from-CanMove sends (i + 1) ts j t at_j can in
    let index : i + 1 + j ≡ i + suc j = omega arith in
    let (m, there) =
      classify-tail sends i u.state (classify_from sends (i + 1) ts) n (i + 1 + j) found in
    (m, there ∙ ap some index)

module _ (k : Crates) where
  -- What a successful `move_tickets` went through.
  move_tickets-loop :
      (sends : Text → Option SendState) (same_dir : Bool) (from to to' : Wallet)
      (report : TicketMove)
      → move_tickets k sends same_dir from to ≡ ok (to', report)
      → move_loop k from.tickets (classify_from sends 0 from.tickets).0 to.tickets (record {
        moved = 0;
        already_there = 0;
        left_in_flight = (classify_from sends 0 from.tickets).1;
      })
        ≡ ok (to'.tickets, report)
  unfolding move_tickets
  move_tickets-loop sends same_dir from to to' report h =
      let e1 = ensure-eq-ok (same_address k from.store to.store) other_pool h in
      let e2 = ensure-eq-ok (not same_dir) same_profile e1.1 in
      let (end, run, built) =
        >>=-eq-ok (move_loop k from.tickets (classify_from sends 0 from.tickets).0 to.tickets _) _
          e2.1 in
      let moved : Wallet × TicketMove = (record to { tickets = end.0 }, end.1) in
      let pair : moved ≡ (to', report) = cc in run ∙ ap (λ x. ok (x.0.tickets, x.1)) pair

  -- After a successful move every ticket of the source that is unspent, pending or reserved by a
  -- send that submitted no publish has its secret in the target, whose wallet grew by the number
  -- of moved tickets.
  pub move_tickets-CanMove :
      (sends : Text → Option SendState) (same_dir : Bool) (from to to' : Wallet)
      (report : TicketMove) (i : ℕ) (t : Ticket)
      → move_tickets k sends same_dir from to ≡ ok (to', report)
      → get_elem? from.tickets i ≡ some t
      → CanMove sends t.state
      → (s : Felt) × (k.from_hex t.secret ≡ some s)
        × (has_secret k s to'.tickets ≡ true)
        × (length to'.tickets ≡ length to.tickets + report.moved)
  move_tickets-CanMove sends same_dir from to to' report i t h at_i can =
      let run = move_tickets-loop sends same_dir from to to' report h in
      let (n, listed) = classify_from-CanMove sends 0 from.tickets i t at_i can in
      let here : 0 + i ≡ i = omega arith in
      let a =
        move_loop-arrives k from.tickets (classify_from sends 0 from.tickets).0 to.tickets _
          (to'.tickets, report) n i t run (listed ∙ ap some here) at_i in
      let c =
        move_loop-counts k from.tickets (classify_from sends 0 from.tickets).0 to.tickets _
          (to'.tickets, report) run in
      (a.0, a.1, a.2, omega (arith, c.0))
