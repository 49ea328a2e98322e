-- ===== src/Tickets.antt =====
-- tools/zkmsg/core/src/tickets.rs: the fee tickets of a profile (`Wallet`). The children model the
-- pool's ticket tree and the quota log of the same file, and prove the properties.
pub mod Tree
pub mod Quota
pub mod Settle
pub mod Pick
pub mod Spend
mod Tests
use stwo_starknet_verifier.Common.{
  ℕ, zero, suc, ◌+◌, ◌≡◌, Bool, true, false, Option, none, some, List, [], ◌∷◌, ◌++◌, get_elem?,
  set, ◌==◌, if◌then◌else◌, Result, ok, err, ◌>>=◌, ◌>>◌, ensure, context, ltb,
}
use stwo_starknet_verifier.Felts.{Felt, Text, Crates, trim_0x, bytes}
use stwo_starknet_verifier.Crypto.{member_secret_felt, ticket_leaf, ticket_nullifier}
use stwo_starknet_verifier.Tickets.Tree.{TicketTree, index_of, leaf_at}

pub data TicketState : Type 0 where
  pending : TicketState
  unspent : TicketState
  reserved : (send_id : Text) → TicketState
  spent : (tx : Option Text) → TicketState

pub record Ticket : Type 0 where
  pub secret : Text
  pub index : Option ℕ
  pub buy_tx : Option Text
  pub state : TicketState

pub record Wallet : Type 0 where
  pub store : Text
  pub tickets : List Ticket

pub record TicketCounts : Type 0 where
  pub n_unspent : ℕ
  pub n_reserved : ℕ
  pub n_spent : ℕ
  pub n_pending : ℕ

pub data Error : Type 0 where
  -- the secret is no hex text, or not the form of a secret
  bad_secret : Error
  -- `TicketNotInTreeYet`, with the number of unspent tickets
  not_in_tree_yet : ℕ → Error
  -- "no unspent ticket: purchase(s) not seen on chain"
  purchases_pending : TicketCounts → Error
  -- "no unspent ticket"
  no_ticket : TicketCounts → Error

-- One more of a state.
unfoldable pub count_state : TicketState → TicketCounts → TicketCounts
count_state pending c = record c { n_pending = c.n_pending + 1 }
count_state unspent c = record c { n_unspent = c.n_unspent + 1 }
count_state (reserved _) c = record c { n_reserved = c.n_reserved + 1 }
count_state (spent _) c = record c { n_spent = c.n_spent + 1 }

-- `Wallet::counts`
unfoldable pub counts : List Ticket → TicketCounts
counts [] = record { n_unspent = 0; n_reserved = 0; n_spent = 0; n_pending = 0 }
counts (t ∷ ts) = count_state t.state (counts ts)

-- `matches!(state, TicketState::Reserved { .. })`, and the comparisons with the other states.
abbrev pub is_reserved : TicketState → Bool
is_reserved (reserved _) = true
is_reserved _ = false

abbrev pub is_pending : TicketState → Bool
is_pending pending = true
is_pending _ = false

abbrev pub is_unspent : TicketState → Bool
is_unspent unspent = true
is_unspent _ = false

-- `tickets[i].state = state`
unfoldable pub set_state : List Ticket → ℕ → TicketState → List Ticket
set_state [] i state = []
set_state (t ∷ ts) zero state = record t { state = state } ∷ ts
set_state (t ∷ ts) (suc i) state = t ∷ set_state ts i state

-- A pending ticket whose leaf the tree has, or has not.
abbrev pub settle_at : Ticket → Option ℕ → Ticket × ℕ
settle_at t none = (t, 0)
settle_at t (some i) = (record t { index = some i; state = unspent }, 1)

-- `tree.leaf(index) == Some(leaf)`
abbrev pub is_at : TicketTree → ℕ → Felt → Bool
is_at tree i l = elim (leaf_at tree i) [ none ↦ false | some found ↦ found == l ]

module _ (k : Crates) where
  -- The ticket that `mint` makes of a secret.
  abbrev pub fresh_ticket : List ℕ → Ticket
  fresh_ticket m = record {
    secret = bytes "0x" ++ k.hex_encode m;
    index = none;
    buy_tx = none;
    state = pending;
  }

  -- `Ticket::secret_felt`
  unfoldable pub secret_felt : Ticket → Result Error Felt
  secret_felt t = do
    m ← context (k.hex_decode (trim_0x t.secret)) bad_secret
    elim (member_secret_felt k m) [ ok f ↦ ok f | err _ ↦ err bad_secret ]

  -- `Ticket::leaf`
  unfoldable pub leaf : Ticket → Result Error Felt
  leaf t = do f ← secret_felt t; ok (ticket_leaf k f)

  -- `Ticket::nullifier`
  unfoldable pub nullifier : Felt → Ticket → Result Error Felt
  nullifier store t = do f ← secret_felt t; ok (ticket_nullifier k store f)

  -- The new pending tickets of `mint`, for the secrets that the generator gave.
  unfoldable pub mint_tickets : List (List ℕ) → Result Error (List Ticket × List Felt)
  mint_tickets [] = ok ([], [])
  mint_tickets (m ∷ ms) = do
    let t = fresh_ticket m
    l ← leaf t
    (ts, ls) ← mint_tickets ms
    ok (t ∷ ts, l ∷ ls)

  -- `Wallet::mint`. On an error the source leaves the tickets minted so far in a wallet that its
  -- caller then drops unsaved; so here and in `settle` there is no wallet.
  unfoldable pub mint : List (List ℕ) → Wallet → Result Error (Wallet × List Felt)
  mint secrets w = do
    (ts, ls) ← mint_tickets secrets
    ok (record w { tickets = w.tickets ++ ts }, ls)

  -- The body of the loop of `settle`, and how many it settled.
  unfoldable pub settle_ticket : TicketTree → Ticket → Result Error (Ticket × ℕ)
  settle_ticket tree t =
      if is_pending t.state
      then (leaf t >>= λ l. ok (settle_at t (index_of l tree.leaves)))
      else ok (t, 0)

  unfoldable pub settle_tickets : TicketTree → List Ticket → Result Error (List Ticket × ℕ)
  settle_tickets tree [] = ok ([], 0)
  settle_tickets tree (t ∷ ts) = do
    (t', one) ← settle_ticket tree t
    (ts', more) ← settle_tickets tree ts
    ok (t' ∷ ts', one + more)

  -- `Wallet::settle`
  unfoldable pub settle : TicketTree → Wallet → Result Error (Wallet × ℕ)
  settle tree w = do (ts, n) ← settle_tickets tree w.tickets; ok (record w { tickets = ts }, n)

  -- The test of the loop of `pick`.
  unfoldable pub is_usable : TicketTree → Ticket → Result Error Bool
  is_usable tree t =
      if is_unspent t.state
      then elim t.index [ none ↦ ok false | some i ↦ leaf t >>= λ l. ok (is_at tree i l) ]
      else ok false

  -- The loop of `pick`, from the ticket at `i`.
  unfoldable pub pick_from : TicketTree → ℕ → List Ticket → Result Error (Option ℕ)
  pick_from tree i [] = ok none
  pick_from tree i (t ∷ ts) = do
    usable ← is_usable tree t
    let rest = pick_from tree (i + 1) ts
    if usable then ok (some i) else rest

  -- `Wallet::pick`
  unfoldable pub pick : TicketTree → Wallet → Result Error ℕ
  pick tree w = do
    found ← pick_from tree 0 w.tickets
    let c = counts w.tickets
    elim found [
      | some i ↦ ok i
      | none ↦
          if ltb 0 c.n_unspent
          then err (not_in_tree_yet c.n_unspent)
          else (if ltb 0 c.n_pending then err (purchases_pending c) else err (no_ticket c))
    ]

  -- `t.nullifier(store).ok().as_ref() == Some(nullifier)`
  unfoldable pub has_nullifier : Felt → Felt → Ticket → Bool
  has_nullifier store n t = elim (nullifier store t) [ ok m ↦ m == n | err _ ↦ false ]

  -- `Wallet::position_by_nullifier`, from the ticket at `i`.
  unfoldable pub position_from : ℕ → Felt → Felt → List Ticket → Option ℕ
  position_from i store n [] = none
  position_from i store n (t ∷ ts) =
      let rest = position_from (i + 1) store n ts in
      if has_nullifier store n t then some i else rest

  -- `Wallet::mark_spent`
  unfoldable pub mark_spent : Felt → Felt → Option Text → Wallet → Wallet × Bool
  mark_spent store n tx w = elim (position_from 0 store n w.tickets) [
    | none ↦ (w, false)
    | some i ↦ (record w { tickets = set_state w.tickets i (spent tx) }, true)
  ]

  -- `Wallet::release`
  unfoldable pub release : Felt → Felt → Wallet → Wallet × Bool
  release store n w = elim (position_from 0 store n w.tickets) [
    | none ↦ (w, false)
    | some i ↦ elim (get_elem? w.tickets i) [
      | none ↦ (w, false)
      | some t ↦
          if is_reserved t.state
          then (record w { tickets = set_state w.tickets i unspent }, true)
          else (w, false)
    ]
  ]
