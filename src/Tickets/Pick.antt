-- ===== src/Tickets/Pick.antt =====
-- tools/zkmsg/core/src/tickets.rs, `pick`: which ticket a send takes, and when there is none.
use stwo_starknet_verifier.Common.{
  ℕ, zero, suc, ◌+◌, ◌-◌, ◌<◌, ◌≡◌, ◌⊎◌, inl, inr, refl, sym, ap, subst, ◌∙◌, true, false, none,
  some, List, [], ◌∷◌, get_elem?, Result, ok, err, >>=-eq-ok, arith, Option-cases, Result-cases,
  Bool-cases, if◌then◌else◌, ltb,
}
use stwo_starknet_verifier.Felts.{Felt, Crates}
use stwo_starknet_verifier.Tickets.Tree.{TicketTree, leaf_at}
use stwo_starknet_verifier.Tickets.{
  TicketCounts, Error, not_in_tree_yet, purchases_pending, no_ticket, Ticket, Wallet, unspent,
  counts, is_unspent, is_at, leaf, is_usable, pick_from, pick,
}

-- Which error says what of the counts.
abbrev pub Refuses : TicketCounts → Error → Type 0
Refuses c e =
    ((0 < c.n_unspent) × (e ≡ not_in_tree_yet c.n_unspent))
    ⊎ ((c.n_unspent ≡ 0) × (0 < c.n_pending) × (e ≡ purchases_pending c))
    ⊎ ((c.n_unspent ≡ 0) × (c.n_pending ≡ 0) × (e ≡ no_ticket c))

-- The error that `pick` makes of the counts.
abbrev refusal : TicketCounts → Result Error ℕ
refusal c =
    if ltb 0 c.n_unspent
    then err (not_in_tree_yet c.n_unspent)
    else (if ltb 0 c.n_pending then err (purchases_pending c) else err (no_ticket c))

Refusal-ne-ok : (c : TicketCounts) (i : ℕ) → refusal c ≡ ok i → ⊥
Refusal-ne-ok c i e = ground arith

Refusal-Refuses : (c : TicketCounts) (e : Error) → refusal c ≡ err e → Refuses c e
Refusal-Refuses c e h = elim (Bool-cases (ltb 0 c.n_unspent)) [
  | inl some_unspent ↦ inl (ground arith, ground arith)
  | inr none_unspent ↦ elim (Bool-cases (ltb 0 c.n_pending)) [
    | inl some_pending ↦ inr (inl (ground arith, ground arith, ground arith))
    | inr none_pending ↦ inr (inr (ground arith, ground arith, ground arith))
  ]
]

ok-injective : {a b : ℕ} → ◌≡◌ {A = Result Error ℕ} (ok a) (ok b) → a ≡ b
ok-injective e = cc

err-injective : {a b : Error} → ◌≡◌ {A = Result Error ℕ} (err a) (err b) → a ≡ b
err-injective e = cc

module _ (k : Crates) where
  -- An unspent ticket whose leaf the tree holds at its index.
  pub record IsSpendable (tree : TicketTree) (t : Ticket) : Type 0 where
    pub is_free : t.state ≡ unspent
    pub index : ℕ
    pub at_index : t.index ≡ some index
    pub felt : Felt
    pub its_leaf : leaf k t ≡ ok felt
    pub in_tree : leaf_at tree index ≡ some felt

  is_at-leaf_at :
      (tree : TicketTree) (i : ℕ) (l : Felt) → is_at tree i l ≡ true → leaf_at tree i ≡ some l
  is_at-leaf_at tree i l e = ground arith

  is_usable-IsSpendable :
      (tree : TicketTree) (t : Ticket) → is_usable k tree t ≡ ok true → IsSpendable tree t
  unfolding is_usable
  is_usable-IsSpendable tree t e = elim (Bool-cases (is_unspent t.state)) [
    | inr taken ↦ cc (rw (taken, is_usable) at e)
    | inl free ↦ elim (Option-cases t.index) [
      | inl nowhere ↦ cc (rw (free, nowhere, is_usable) at e)
      | inr (i, at) ↦
          let (l, its, e') = >>=-eq-ok (leaf k t) _ (rw (free, at, is_usable) at e) in
          let there : is_at tree i l ≡ true = ground arith in
          record {
            is_free = ground arith;
            index = i;
            at_index = at;
            felt = l;
            its_leaf = its;
            in_tree = is_at-leaf_at tree i l there;
          }
    ]
  ]

  pick_from-ok :
      (tree : TicketTree) (i j : ℕ) (ts : List Ticket)
      → pick_from k tree i ts ≡ ok (some j)
      → (d : ℕ) × (j ≡ i + d) × (t : Ticket) × (get_elem? ts d ≡ some t) × IsSpendable tree t
  unfolding pick_from
  pick_from-ok tree i j [] e = cc
  pick_from-ok tree i j (t ∷ ts) e =
      let (usable, test, e') = >>=-eq-ok (is_usable k tree t) _ e in
      elim (Bool-cases usable) [
        | inl hit ↦
            let here : j ≡ i + 0 = ground arith in
            (0, here, t, refl, is_usable-IsSpendable tree t (test ∙ ap ok hit))
        | inr miss ↦
            let later : pick_from k tree (i + 1) ts ≡ ok (some j) = rw miss at e' in
            let (d, place, u, at, good) = pick_from-ok tree (i + 1) j ts later in
            (suc d, omega arith, u, at, good)
      ]

  pick_from-none :
      (tree : TicketTree) (i j : ℕ) (ts : List Ticket) (t : Ticket)
      → pick_from k tree i ts ≡ ok none
      → get_elem? ts j ≡ some t
      → is_usable k tree t ≡ ok false
  unfolding pick_from
  pick_from-none tree i j [] t e at = cc
  pick_from-none tree i j (t ∷ ts) u e at =
      let (usable, test, e') = >>=-eq-ok (is_usable k tree t) _ e in
      elim (Bool-cases usable) [
        | inl hit ↦ cc (rw hit at e')
        | inr miss ↦
            none_at j at (test ∙ ap ok miss)
              (pick_from-none tree (i + 1) (j - 1) ts u (rw miss at e'))
      ]
    where
      none_at :
          (n : ℕ)
          → get_elem? (t ∷ ts) n ≡ some u
          → is_usable k tree t ≡ ok false
          → (get_elem? ts (n - 1) ≡ some u → is_usable k tree u ≡ ok false)
          → is_usable k tree u ≡ ok false
      none_at zero a first later = let same : t ≡ u = cc in ap (is_usable k tree) (sym same) ∙ first
      none_at (suc n) a first later = later (subst (λ m. get_elem? ts m ≡ some u) (omega arith) a)

  -- The ticket that `pick` returns is unspent, and the tree holds its leaf at its index.
  pub pick-ok :
      (tree : TicketTree) (w : Wallet) (i : ℕ)
      → pick k tree w ≡ ok i
      → (t : Ticket) × (get_elem? w.tickets i ≡ some t) × IsSpendable tree t
  unfolding pick
  pick-ok tree w i e =
      let (found, run, e') = >>=-eq-ok (pick_from k tree 0 w.tickets) _ e in
      elim (Option-cases found) [
        | inl nothing ↦ absurd (Refusal-ne-ok (counts w.tickets) i (rw nothing at e'))
        | inr (j, hit) ↦
            let at : j ≡ i = ok-injective (rw hit at e') in
            let (d, place, t, here, good) = pick_from-ok tree 0 j w.tickets (run ∙ ap ok hit) in
            (t, subst (λ n. get_elem? w.tickets n ≡ some t) (omega arith) here, good)
      ]

  -- The tickets whose leaf `pick` looks for have readable secrets.
  abbrev pub AllReadable : Wallet → Type 0
  AllReadable w =
      (j : ℕ) (t : Ticket) (index : ℕ)
      → get_elem? w.tickets j ≡ some t
      → t.state ≡ unspent
      → t.index ≡ some index
      → (felt : Felt) × (leaf k t ≡ ok felt)

  is_unspent-unspent : (t : Ticket) → t.state ≡ unspent → is_unspent t.state ≡ true
  is_unspent-unspent t e = rw e refl

  -- A ticket that can be read is usable or not.
  is_usable-ne-err :
      (tree : TicketTree) (t : Ticket) (e : Error)
      → ((index : ℕ)
          → t.state ≡ unspent
          → t.index ≡ some index
          → (felt : Felt) × (leaf k t ≡ ok felt))
      → is_usable k tree t ≡ err e
      → ⊥
  unfolding is_usable
  is_usable-ne-err tree t e readable h = elim (Bool-cases (is_unspent t.state)) [
    | inr taken ↦ cc (rw (taken, is_usable) at h)
    | inl free ↦ elim (Option-cases t.index) [
      | inl nowhere ↦ cc (rw (free, nowhere, is_usable) at h)
      | inr (i, at) ↦
          let (l, its) = readable i (ground arith) at in cc (rw (free, at, its, is_usable) at h)
    ]
  ]

  pick_from-ne-err :
      (tree : TicketTree) (i : ℕ) (ts : List Ticket) (e : Error)
      → ((j : ℕ) (t : Ticket) (index : ℕ)
          → get_elem? ts j ≡ some t
          → t.state ≡ unspent
          → t.index ≡ some index
          → (felt : Felt) × (leaf k t ≡ ok felt))
      → pick_from k tree i ts ≡ err e
      → ⊥
  unfolding pick_from
  pick_from-ne-err tree i [] e readable h = cc
  pick_from-ne-err tree i (t ∷ ts) e readable h = elim (Result-cases (is_usable k tree t)) [
    | inl (e', failed) ↦
        is_usable-ne-err tree t e' (λ index free at. readable 0 t index refl free at) failed
    | inr (true, hit) ↦ cc (rw (hit, pick_from) at h)
    | inr (false, miss) ↦
        pick_from-ne-err tree (i + 1) ts e (λ j u index at. readable (suc j) u index at)
          (rw (miss, pick_from) at h)
  ]

  -- A ticket that can be spent is usable.
  IsSpendable-is_usable :
      (tree : TicketTree) (t : Ticket) → IsSpendable tree t → is_usable k tree t ≡ ok true
  unfolding is_usable
  IsSpendable-is_usable tree t s =
      let there : is_at tree s.index s.felt ≡ true = rw (is_at, s.in_tree) (ground arith) in
      rw (s.is_free, s.at_index, s.its_leaf, there) refl

  -- Where the secret of every unspent ticket with an index is readable, `pick` fails only if no
  -- ticket of the wallet can be spent against this tree; and the error says whether to wait for the
  -- tree (some are unspent), for a purchase (none is, and some are pending) or to buy, with the
  -- counts.
  pub pick-err :
      (tree : TicketTree) (w : Wallet) (e : Error)
      → AllReadable w
      → pick k tree w ≡ err e
      → Refuses (counts w.tickets) e
        × ((j : ℕ) (t : Ticket) → get_elem? w.tickets j ≡ some t → IsSpendable tree t → ⊥)
  unfolding pick
  pick-err tree w e readable h = elim (Result-cases (pick_from k tree 0 w.tickets)) [
    | inl (e', failed) ↦ absurd (pick_from-ne-err tree 0 w.tickets e' readable failed)
    | inr (none, run) ↦ (
      Refusal-Refuses (counts w.tickets) e (rw (run, pick) at h),
      λ j t at s.
          (let unusable = pick_from-none tree 0 j w.tickets t run at in
            let usable = IsSpendable-is_usable tree t s in cc),
    )
    | inr (some j, run) ↦ cc (rw (run, pick) at h)
  ]
