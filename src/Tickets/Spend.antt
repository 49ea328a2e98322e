-- ===== src/Tickets/Spend.antt =====
-- tools/zkmsg/core/src/tickets.rs: a spent ticket stays spent, whatever the wallet goes through.
use native.Mathlib.Decide.{ℕ_discrete}
use stwo_starknet_verifier.Common.{
  ℕ, zero, suc, ◌≡◌, ◌≢◌, inl, inr, refl, sym, ap, subst, ◌∙◌, Bool, true, false, Option, some,
  List, [], ◌∷◌, ◌++◌, get_elem?, ok, >>=-eq-ok, arith, Option-cases, Bool-cases,
}
use stwo_starknet_verifier.Felts.{Felt, Text, Crates}
use stwo_starknet_verifier.Tickets.Tree.{TicketTree}
use stwo_starknet_verifier.Tickets.{
  Ticket, TicketState, Wallet, unspent, reserved, spent, is_reserved, set_state, mint_tickets, mint,
  settle_ticket, settle_tickets, settle, pick, position_from, mark_spent, release,
}
use stwo_starknet_verifier.Tickets.Pick.{pick-ok}

abbrev pub is_spent : TicketState → Bool
is_spent (spent _) = true
is_spent _ = false

-- The ticket at `i` has this secret and is spent.
abbrev pub HasSpent : ℕ → Text → Wallet → Type 0
HasSpent i secret w =
    (t : Ticket) × (get_elem? w.tickets i ≡ some t)
    × (t.secret ≡ secret)
    × (is_spent t.state ≡ true)

get_elem?-set_state_ne :
    (ts : List Ticket) (i j : ℕ) (s : TicketState)
    → i ≢ j
    → get_elem? (set_state ts i s) j ≡ get_elem? ts j
unfolding set_state
get_elem?-set_state_ne [] i j s n = refl
get_elem?-set_state_ne (t ∷ ts) zero zero s n = absurd (n refl)
get_elem?-set_state_ne (t ∷ ts) zero (suc j) s n = refl
get_elem?-set_state_ne (t ∷ ts) (suc i) zero s n = refl
get_elem?-set_state_ne (t ∷ ts) (suc i) (suc j) s n =
    get_elem?-set_state_ne ts i j s (λ e. n (ap suc e))

get_elem?-set_state_self :
    (ts : List Ticket) (i : ℕ) (s : TicketState) (t : Ticket)
    → get_elem? ts i ≡ some t
    → get_elem? (set_state ts i s) i ≡ some (record t { state = s })
unfolding set_state
get_elem?-set_state_self [] i s t e = cc
get_elem?-set_state_self (u ∷ ts) zero s t e = ground arith
get_elem?-set_state_self (u ∷ ts) (suc i) s t e = get_elem?-set_state_self ts i s t e

get_elem?-append_left :
    (ts us : List Ticket) (i : ℕ) (t : Ticket)
    → get_elem? ts i ≡ some t
    → get_elem? (ts ++ us) i ≡ some t
get_elem?-append_left [] us i t e = cc
get_elem?-append_left (u ∷ ts) us zero t e = e
get_elem?-append_left (u ∷ ts) us (suc i) t e = get_elem?-append_left ts us i t e

reserved-free : (s : TicketState) → is_reserved s ≡ true → is_spent s ≡ false
reserved-free s h = ground arith

clash :
    {o : Option Ticket} {t u : Ticket}
    → o ≡ some u
    → o ≡ some t
    → is_spent u.state ≡ false
    → is_spent t.state ≡ true
    → ⊥
clash {t = t} {u = u} a b free done =
    let same : u ≡ t = cc in cc (sym free ∙ ap (λ x. is_spent x.state) same ∙ done)

module _ (k : Crates) where
  -- What the program does to a wallet. A reservation follows a `pick`.
  pub data Step (w : Wallet) : Wallet → Type 0 where
    mints :
        (secrets : List (List ℕ)) (ls : List Felt) {v : Wallet}
        → mint k secrets w ≡ ok (v, ls)
        → Step w v
    settles : (tree : TicketTree) (n : ℕ) {v : Wallet} → settle k tree w ≡ ok (v, n) → Step w v
    reserves :
        (tree : TicketTree) (i : ℕ) (send_id : Text)
        → pick k tree w ≡ ok i
        → Step w (record w { tickets = set_state w.tickets i (reserved send_id) })
    spends : (store n : Felt) (tx : Option Text) → Step w (mark_spent k store n tx w).0
    releases : (store n : Felt) → Step w (release k store n w).0

  pub data Steps (w : Wallet) : Wallet → Type 0 where
    start : Steps w w
    then_step : {u v : Wallet} → Steps w u → Step u v → Steps w v

  settle_ticket-spent :
      (tree : TicketTree) (t t' : Ticket) (n : ℕ)
      → is_spent t.state ≡ true
      → settle_ticket k tree t ≡ ok (t', n)
      → t' ≡ t
  unfolding settle_ticket
  settle_ticket-spent tree t t' n s e = ground arith

  settle_cons :
      (u u' : Ticket) (ts ts' rest : List Ticket) (i : ℕ) (t : Ticket)
      → ts' ≡ u' ∷ rest
      → (is_spent u.state ≡ true → u' ≡ u)
      → ((j : ℕ) → get_elem? ts j ≡ some t → get_elem? rest j ≡ some t)
      → get_elem? (u ∷ ts) i ≡ some t
      → is_spent t.state ≡ true
      → get_elem? ts' i ≡ some t
  settle_cons u u' ts ts' rest zero t e first later at s =
      let same : u ≡ t = cc in rw e (ap some (first (ap (λ x. is_spent x.state) same ∙ s) ∙ same))
  settle_cons u u' ts ts' rest (suc i) t e first later at s = rw e (later i at)

  settle_tickets-spent :
      (tree : TicketTree) (ts ts' : List Ticket) (n i : ℕ) (t : Ticket)
      → settle_tickets k tree ts ≡ ok (ts', n)
      → get_elem? ts i ≡ some t
      → is_spent t.state ≡ true
      → get_elem? ts' i ≡ some t
  unfolding settle_tickets
  settle_tickets-spent tree [] ts' n i t e at s = cc
  settle_tickets-spent tree (u ∷ ts) ts' n i t e at s =
      let (a, first, e') = >>=-eq-ok (settle_ticket k tree u) _ e in
      let (b, second, e'') = >>=-eq-ok (settle_tickets k tree ts) _ e' in
      settle_cons u a.0 ts ts' b.0 i t (ground arith)
        (λ sp. settle_ticket-spent tree u a.0 a.1 sp first)
        (λ j at'. settle_tickets-spent tree ts b.0 b.1 j t second at' s) at s

  -- Setting the state of a ticket that is not spent leaves the spent ones.
  set_state-HasSpent :
      (w : Wallet) (i j : ℕ) (secret : Text) (s : TicketState) (u : Ticket)
      → get_elem? w.tickets j ≡ some u
      → is_spent u.state ≡ false
      → HasSpent i secret w
      → HasSpent i secret (record w { tickets = set_state w.tickets j s })
  set_state-HasSpent w i j secret s u at free (t, here, same, done) = (
    t,
    get_elem?-set_state_ne w.tickets j i s
          (λ e. clash (subst (λ m. get_elem? w.tickets m ≡ some u) e at) here free done)
        ∙ here,
    same,
    done,
  )

  -- `mark_spent` on the ticket itself, or on another.
  set_spent-HasSpent :
      (w : Wallet) (i j : ℕ) (secret : Text) (tx : Option Text)
      → HasSpent i secret w
      → HasSpent i secret (record w { tickets = set_state w.tickets j (spent tx) })
  set_spent-HasSpent w i j secret tx (t, here, same, done) = elim (ℕ_discrete j i) [
    | no other ↦ (t, get_elem?-set_state_ne w.tickets j i (spent tx) other ∙ here, same, done)
    | yes e ↦ (
      record t { state = spent tx },
      rw e (get_elem?-set_state_self w.tickets i (spent tx) t here),
      same,
      refl,
    )
  ]

  mark_spent-HasSpent :
      (w : Wallet) (i : ℕ) (secret : Text) (store n : Felt) (tx : Option Text)
      → HasSpent i secret w
      → HasSpent i secret (mark_spent k store n tx w).0
  unfolding mark_spent
  mark_spent-HasSpent w i secret store n tx h =
      elim (Option-cases (position_from k 0 store n w.tickets)) [
        | inl e ↦ rw (e, mark_spent) h
        | inr (j, e) ↦ rw (e, mark_spent) (set_spent-HasSpent w i j secret tx h)
      ]

  release-HasSpent :
      (w : Wallet) (i : ℕ) (secret : Text) (store n : Felt)
      → HasSpent i secret w
      → HasSpent i secret (release k store n w).0
  unfolding release
  release-HasSpent w i secret store n h =
      elim (Option-cases (position_from k 0 store n w.tickets)) [
        | inl e ↦ rw (e, release) h
        | inr (j, e) ↦ elim (Option-cases (get_elem? w.tickets j)) [
          | inl gone ↦ rw (e, gone, release) h
          | inr (u, at) ↦ elim (Bool-cases (is_reserved u.state)) [
            | inl held ↦
                rw (e, at, held, release)
                  (set_state-HasSpent w i j secret unspent u at (reserved-free u.state held) h)
            | inr free ↦ rw (e, at, free, release) h
          ]
        ]
      ]

  Step-HasSpent :
      (i : ℕ) (secret : Text) {w v : Wallet} → Step w v → HasSpent i secret w → HasSpent i secret v
  unfolding mint settle
  Step-HasSpent i secret {w} {v} (mints secrets ls e) (t, here, same, done) =
      let (a, run, e') = >>=-eq-ok (mint_tickets k secrets) _ e in
      let appended : v.tickets ≡ w.tickets ++ a.0 = ground arith in
      (t, rw appended (get_elem?-append_left w.tickets a.0 i t here), same, done)
  Step-HasSpent i secret {w} {v} (settles tree n e) (t, here, same, done) =
      let (a, run, e') = >>=-eq-ok (settle_tickets k tree w.tickets) _ e in
      let settled : v.tickets ≡ a.0 = ground arith in
      (t, rw settled (settle_tickets-spent tree w.tickets a.0 a.1 i t run here done), same, done)
  Step-HasSpent i secret {w} (reserves tree j send_id e) h =
      let (u, at, good) = pick-ok k tree w j e in
      set_state-HasSpent w i j secret (reserved send_id) u at (rw good.is_free) h
  Step-HasSpent i secret {w} (spends store n tx) h = mark_spent-HasSpent w i secret store n tx h
  Step-HasSpent i secret {w} (releases store n) h = release-HasSpent w i secret store n h

  -- A spent ticket is still there and still spent after any steps,
  Steps-HasSpent :
      (i : ℕ) (secret : Text) {w v : Wallet} → Steps w v → HasSpent i secret w → HasSpent i secret v
  Steps-HasSpent i secret start h = h
  Steps-HasSpent i secret (then_step r s) h = Step-HasSpent i secret s (Steps-HasSpent i secret r h)

  -- A ticket that is spent stays in the wallet and stays spent, whatever is minted, settled,
  -- reserved, spent or released after that, and no later `pick` returns it.
  pub spent_forever :
      (i : ℕ) (secret : Text) (tree : TicketTree) {w v : Wallet}
      → HasSpent i secret w
      → Steps w v
      → HasSpent i secret v × (pick k tree v ≢ ok i)
  spent_forever i secret tree {w} {v} h r =
      let kept = Steps-HasSpent i secret r h in
      (
        kept,
        λ e.
            let (u, at, good) = pick-ok k tree v i e in
            clash at (kept.1) (rw good.is_free) (kept.3),
      )
