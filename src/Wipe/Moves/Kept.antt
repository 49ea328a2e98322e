-- ===== src/Wipe/Moves/Kept.antt =====
-- tools/zkmsg/core/src/wipe.rs, `move_tickets`: the loop of the move and the wallet of the target.
use stwo_starknet_verifier.Common.{
  ℕ, zero, suc, ◌+◌, ◌≡◌, ◌⊎◌, inl, inr, refl, sym, true, some, List, [], ◌∷◌, ◌++◌, ok, get_elem?,
  length, arith, Bool-cases, Option-cases, subst, ◌==◌, length-append,
}
use stwo_starknet_verifier.Felts.{Felt, Crates}
use stwo_starknet_verifier.Tickets.{Ticket}
use stwo_starknet_verifier.Wipe.Moves.{TicketMove, freed, placed, counted, has_secret, move_loop}

module _ (k : Crates) where
  -- What is in a wallet stays when one is added, and what is added is there.
  has_secret-append :
      (s : Felt) (ts us : List Ticket) → has_secret k s ts ≡ true → has_secret k s (ts ++ us) ≡ true
  unfolding has_secret
  has_secret-append s [] us h = cc
  has_secret-append s (t ∷ ts) us h = let later = has_secret-append s ts us in ground arith

  has_secret-last :
      (s : Felt) (ts : List Ticket) (t : Ticket)
      → k.from_hex t.secret ≡ some s
      → has_secret k s (ts ++ t ∷ []) ≡ true
  unfolding has_secret
  has_secret-last s [] t h = let same : (s == s) ≡ true = ground arith in rw (h, same) refl
  has_secret-last s (u ∷ ts) t h = let later = has_secret-last s ts t h in ground arith

  -- One round of the loop that did not fail.
  move_loop-round :
      (source : List Ticket) (i : ℕ) (rest : List ℕ) (target : List Ticket) (report : TicketMove)
      (end : List Ticket × TicketMove)
      → move_loop k source (i ∷ rest) target report ≡ ok end
      → (t : Ticket) × (secret : Felt) × (get_elem? source i ≡ some t)
        × (k.from_hex t.secret ≡ some secret)
        × (((has_secret k secret target ≡ true)
              × (move_loop k source rest target
                    (record report { already_there = report.already_there + 1 })
                  ≡ ok end))
            ⊎ (move_loop k source rest
                  (target ++ freed t ∷ [])
                  (record report { moved = report.moved + 1 })
                ≡ ok end))
  unfolding move_loop placed counted
  move_loop-round source i rest target report end h = elim (Option-cases (get_elem? source i)) [
    | inl out ↦ cc (rw (out, move_loop) at h)
    | inr (t, at_i) ↦ elim (Option-cases (k.from_hex t.secret)) [
      | inl bad ↦ cc (rw (at_i, bad, move_loop) at h)
      | inr (secret, read) ↦
          let next = rw (at_i, read, move_loop) at h in
          elim (Bool-cases (has_secret k secret target)) [
            | inl there ↦ (t, secret, at_i, read, inl (there, rw (there, placed, counted) at next))
            | inr missing ↦ (t, secret, at_i, read, inr (rw (missing, placed, counted) at next))
          ]
    ]
  ]

  -- A secret that is in the target stays there.
  move_loop-keeps :
      (source : List Ticket) (is : List ℕ) (target : List Ticket) (report : TicketMove)
      (end : List Ticket × TicketMove) (s : Felt)
      → move_loop k source is target report ≡ ok end
      → has_secret k s target ≡ true
      → has_secret k s end.0 ≡ true
  unfolding move_loop
  move_loop-keeps source [] target report end s h there =
      let same : target ≡ end.0 = cc in rw (sym same) there
  move_loop-keeps source (i ∷ rest) target report end s h there =
      let (t, secret, at_i, read, went) = move_loop-round source i rest target report end h in
      elim went [
        | inl (known, next) ↦ move_loop-keeps source rest target _ end s next there
        | inr next ↦
            move_loop-keeps source rest (target ++ freed t ∷ []) _ end s next
              (has_secret-append s target (freed t ∷ []) there)
      ]

  -- Every ticket of the list has its secret in the target afterwards.
  pub move_loop-arrives :
      (source : List Ticket) (is : List ℕ) (target : List Ticket) (report : TicketMove)
      (end : List Ticket × TicketMove) (n i : ℕ) (t : Ticket)
      → move_loop k source is target report ≡ ok end
      → get_elem? is n ≡ some i
      → get_elem? source i ≡ some t
      → (s : Felt) × (k.from_hex t.secret ≡ some s) × (has_secret k s end.0 ≡ true)
  move_loop-arrives source [] target report end n i t h at_n at_i = cc
  move_loop-arrives source (j ∷ rest) target report end zero i t h at_n at_i =
      let (t', secret, at_j, read, went) = move_loop-round source j rest target report end h in
      let index : j ≡ i = cc in
      let same : t' ≡ t = cc in
      (
        secret,
        rw (sym same) read,
        elim went [
          | inl (known, next) ↦ move_loop-keeps source rest target _ end secret next known
          | inr next ↦
              move_loop-keeps source rest (target ++ freed t' ∷ []) _ end secret next
                (has_secret-last secret target (freed t') read)
        ],
      )
  move_loop-arrives source (j ∷ rest) target report end (suc n) i t h at_n at_i =
      let (t', secret, at_j, read, went) = move_loop-round source j rest target report end h in
      elim went [
        | inl (known, next) ↦ move_loop-arrives source rest target _ end n i t next at_n at_i
        | inr next ↦
            move_loop-arrives source rest (target ++ freed t' ∷ []) _ end n i t next at_n at_i
      ]

  -- The report counts the tickets that were added, and all of the list.
  pub move_loop-counts :
      (source : List Ticket) (is : List ℕ) (target : List Ticket) (report : TicketMove)
      (end : List Ticket × TicketMove)
      → move_loop k source is target report ≡ ok end
      → (length end.0 + report.moved ≡ length target + end.1.moved)
        × (end.1.moved + end.1.already_there ≡ report.moved + report.already_there + length is)
        × (end.1.left_in_flight ≡ report.left_in_flight)
  unfolding move_loop
  move_loop-counts source [] target report end h =
      let same : (target, report) ≡ end = cc in
      subst
        (λ e.
          (length e.0 + report.moved ≡ length target + e.1.moved)
          × (e.1.moved + e.1.already_there ≡ report.moved + report.already_there + 0)
          × (e.1.left_in_flight ≡ report.left_in_flight))
        same (refl, omega arith, refl)
  move_loop-counts source (i ∷ rest) target report end h =
      let (t, secret, at_i, read, went) = move_loop-round source i rest target report end h in
      elim went [
        | inl (known, next) ↦
            let c = move_loop-counts source rest target _ end next in (c.0, omega (arith, c.1), c.2)
        | inr next ↦
            let c = move_loop-counts source rest (target ++ freed t ∷ []) _ end next in
            (omega (arith, c.0, length-append target (freed t ∷ [])), omega (arith, c.1), c.2)
      ]
