-- ===== src/Tickets/Settle.antt =====
-- tools/zkmsg/core/src/tickets.rs, `settle`: what becomes of the pending tickets.
use stwo_starknet_verifier.Common.{ℕ, ◌+◌, ◌≡◌, ◌⊎◌, List, [], ◌∷◌, Result, ok, >>=-eq-ok, arith}
use stwo_starknet_verifier.Felts.{Crates}
use stwo_starknet_verifier.Tickets.Tree.{TicketTree}
use stwo_starknet_verifier.Tickets.{
  Error, Ticket, TicketState, Wallet, TicketCounts, pending, unspent, count_state, counts,
  settle_ticket, settle_tickets, settle,
}

-- The counts after `n` pending tickets became unspent.
abbrev pub SettledBy : ℕ → TicketCounts → TicketCounts → Type 0
SettledBy n before after =
    (after.n_pending + n ≡ before.n_pending)
    × (after.n_unspent ≡ before.n_unspent + n)
    × (after.n_reserved ≡ before.n_reserved)
    × (after.n_spent ≡ before.n_spent)

module _ (k : Crates) where
  settle_ticket-cases :
      (tree : TicketTree) (t t' : Ticket) (n : ℕ)
      → settle_ticket k tree t ≡ ok (t', n)
      → ((n ≡ 0) × (t'.state ≡ t.state)) ⊎ ((n ≡ 1) × (t.state ≡ pending) × (t'.state ≡ unspent))
  unfolding settle_ticket
  settle_ticket-cases tree t t' n e = ground arith

  settle_ticket-again :
      (tree : TicketTree) (t t' : Ticket) (n : ℕ)
      → settle_ticket k tree t ≡ ok (t', n)
      → settle_ticket k tree t' ≡ ok (t', 0)
  unfolding settle_ticket
  settle_ticket-again tree t t' n e = ground arith

  count_state_settled :
      (s s' : TicketState) (n m : ℕ) (c c' : TicketCounts)
      → ((n ≡ 0) × (s' ≡ s)) ⊎ ((n ≡ 1) × (s ≡ pending) × (s' ≡ unspent))
      → SettledBy m c c'
      → SettledBy (n + m) (count_state s c) (count_state s' c')
  unfolding count_state
  count_state_settled s s' n m c c' h g = ground arith

  settle_cons :
      (tree : TicketTree) (t : Ticket) (ts ts' : List Ticket) (n : ℕ) (t' : Ticket) (one : ℕ)
      (rest : List Ticket) (more : ℕ)
      → settle_ticket k tree t ≡ ok (t', one)
      → settle_tickets k tree ts ≡ ok (rest, more)
      → ◌≡◌ {A = Result Error (List Ticket × ℕ)} (ok (t' ∷ rest, one + more)) (ok (ts', n))
      → SettledBy more (counts ts) (counts rest) × (settle_tickets k tree rest ≡ ok (rest, 0))
      → SettledBy n (counts (t ∷ ts)) (counts ts') × (settle_tickets k tree ts' ≡ ok (ts', 0))
  unfolding settle_tickets counts
  settle_cons tree t ts ts' n t' one rest more first second e ih =
      let step =
        count_state_settled t.state t'.state one more (counts ts) (counts rest)
          (settle_ticket-cases tree t t' one first) ih.0 in
      let again = settle_ticket-again tree t t' one first in ground (arith, step, again)

  settle_tickets-counts :
      (tree : TicketTree) (ts ts' : List Ticket) (n : ℕ)
      → settle_tickets k tree ts ≡ ok (ts', n)
      → SettledBy n (counts ts) (counts ts') × (settle_tickets k tree ts' ≡ ok (ts', 0))
  unfolding settle_tickets counts
  settle_tickets-counts tree [] ts' n e = ground arith
  settle_tickets-counts tree (t ∷ ts) ts' n e =
      let (a, first, e') = >>=-eq-ok (settle_ticket k tree t) _ e in
      let (b, second, e'') = >>=-eq-ok (settle_tickets k tree ts) _ e' in
      settle_cons tree t ts ts' n a.0 a.1 b.0 b.1 first second e''
        (settle_tickets-counts tree ts b.0 b.1 second)

  -- Settling takes the number that it returns from the count of pending tickets to that of unspent
  -- ones, keeps the other counts and the store, and done again against the same tree it returns 0
  -- and changes nothing.
  pub settle-counts :
      (tree : TicketTree) (w w' : Wallet) (n : ℕ)
      → settle k tree w ≡ ok (w', n)
      → SettledBy n (counts w.tickets) (counts w'.tickets)
        × (w'.store ≡ w.store)
        × (settle k tree w' ≡ ok (w', 0))
  unfolding settle
  settle-counts tree w w' n e =
      let (a, run, e') = >>=-eq-ok (settle_tickets k tree w.tickets) _ e in
      ground (arith, settle_tickets-counts tree w.tickets a.0 a.1 run)
