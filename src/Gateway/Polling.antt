-- ===== src/Gateway/Polling.antt =====
-- tools/zkmsg/core/src/sequencer.rs: `await_acceptance` comes to an end.
use stwo_starknet_verifier.Common.{
  ℕ, zero, suc, min, ◌==◌, leb, ◌||◌, ◌^◌, ◌+◌, ◌*◌, ◌/◌, ◌%◌, ◌<◌, ◌≤◌, ◌≡◌, ◌≢◌, inl, inr, refl,
  subst, Option, none, some, Result, ok, err, Bool-cases, Option-cases, arith,
}
use native.Mathlib.Nat.{div-add-mod, mod-lt}
use stwo_starknet_verifier.Common.Effects.{Effect, after, Outcome-cases, ◌>>◌}
use stwo_starknet_verifier.Felts.{Felt, Crates}
use stwo_starknet_verifier.Gateway.{Gateway, TxStatus, reverted, rejected, hash_mismatch}
use stwo_starknet_verifier.Gateway.Wire.{
  Servers, Wire, HttpReply, body, http_error, no_reply, RpcReply, not_json, rpc_result, rpc_error,
  StatusReply, Failure, typed, failed_request, no_transaction_hash, dropped, not_accepted,
  out_of_rounds, verdict, status, sleep, request, or_again, Talk, result_of_rpc, or_poll,
  with_retries, rpc_call, status_of_rpc, status_of_feeder, await_rounds, await_acceptance,
}

-- A run from `w`: the clock did not go back, and the rounds sufficed.
abbrev pub Runs : {A : Type 0} → Wire → Wire × Result Failure A → Type 0
Runs w out = (w.time ≤ out.0.time) × (out.1 ≢ err out_of_rounds)

pub Runs-after :
    {A B : Type 0} (w : Wire) (m : Wire × Result Failure A) (next : A → Effect Wire Failure B)
    → Runs w m
    → ((a : A) (mid : Wire) → Runs mid (next a mid))
    → Runs w (after m next)
Runs-after w (mid, ok a) next h each =
    let (later, good) = each a mid in let (before, fine) = h in (omega arith, good)
Runs-after w (mid, err e) next h each = (h.0, λ e'. h.1 (cc))

module _ (k : Crates) (net : Servers) where
  request-Runs : {A : Type 0} (f : ℕ → A) (w : Wire) → Runs w (request k net f w)
  unfolding request
  request-Runs f w = (omega arith, λ e. cc)

  sleep-Runs : (ms : ℕ) (w : Wire) → Runs w (sleep ms w)
  unfolding sleep
  sleep-Runs ms w = (omega arith, λ e. cc)

  or_again-Runs :
      {A : Type 0} (again : Talk A) (reply : HttpReply A (Unit {0}))
      → ((w : Wire) → Runs w (again w))
      → (w : Wire) → Runs w (or_again k net again reply w)
  unfolding or_again
  or_again-Runs again (body a) each w = (omega arith, λ e. cc)
  or_again-Runs again (http_error code e) each w =
      elim (Bool-cases ((code == 429) || leb 500 code)) [
        | inl t ↦ rw t (each w)
        | inr f ↦ rw f (omega arith, λ e'. cc)
      ]
  or_again-Runs again no_reply each w = each w

  with_retries-Runs :
      {A : Type 0} (left made : ℕ) (f : ℕ → HttpReply A (Unit {0})) (w : Wire)
      → Runs w (with_retries k net left made f w)
  unfolding with_retries
  with_retries-Runs zero made f w = (omega arith, λ e. cc)
  with_retries-Runs {A} (suc left) made f w =
      let rest : Unit {0} → Talk A = λ u. with_retries k net left (made + 1) f in
      let pause = 250 * 2 ^ min made 4 in
      Runs-after w (request k net f w) (or_again k net (sleep pause >> rest tt)) (request-Runs f w)
        (λ reply. or_again-Runs (sleep pause >> rest tt) reply (λ v.
          Runs-after v (sleep pause v) rest (sleep-Runs pause v)
            (λ u mid. with_retries-Runs left (made + 1) f mid)))

  result_of_rpc-good :
      {A : Type 0} (reply : HttpReply (RpcReply A) (Unit {0}))
      → result_of_rpc k net reply ≢ err out_of_rounds
  unfolding result_of_rpc
  result_of_rpc-good (body (rpc_error code message)) e = ground arith
  result_of_rpc-good (body (rpc_result a)) e = cc
  result_of_rpc-good (body not_json) e = cc
  result_of_rpc-good (http_error code u) e = cc
  result_of_rpc-good no_reply e = cc

  status_of_rpc-good :
      (r : Result Failure StatusReply)
      → r ≢ err out_of_rounds
      → status_of_rpc k net r ≢ err out_of_rounds
  unfolding status_of_rpc
  status_of_rpc-good (ok r) h e = cc
  status_of_rpc-good (err (typed (rejected code message))) h e = ground arith
  status_of_rpc-good (err (typed (hash_mismatch a b))) h e = cc
  status_of_rpc-good (err (typed (reverted a b))) h e = cc
  status_of_rpc-good (err failed_request) h e = cc
  status_of_rpc-good (err no_transaction_hash) h e = cc
  status_of_rpc-good (err dropped) h e = cc
  status_of_rpc-good (err not_accepted) h e = cc
  status_of_rpc-good (err out_of_rounds) h e = h refl

  status_of_feeder-good : (r : Option StatusReply) → status_of_feeder k net r ≢ err out_of_rounds
  unfolding status_of_feeder
  status_of_feeder-good none e = cc
  status_of_feeder-good (some r) e = cc

  pub status-Runs : (g : Gateway) (h : Felt) (w : Wire) → Runs w (status k net g h w)
  unfolding status rpc_call request
  status-Runs g h w = elim (Option-cases g.rpc_url) [
    | inr (url, e) ↦ rw e (
      omega arith,
      status_of_rpc-good (result_of_rpc k net (net.rpc_status w.requests url h))
          (result_of_rpc-good (net.rpc_status w.requests url h)),
    )
    | inl e ↦ rw e (
        Runs-after w (with_retries k net 6 0 (λ n. net.feeder_status n h) w)
          (λ reply v. (v, status_of_feeder k net reply))
          (with_retries-Runs 6 0 (λ n. net.feeder_status n h) w)
          (λ reply mid. (omega arith, status_of_feeder-good reply)))
  ]

  verdict-none :
      (h : Felt) (started timeout time : ℕ) (s : TxStatus)
      → verdict k net h started timeout time s ≡ none
      → time ≤ started + timeout
  unfolding verdict
  verdict-none h started timeout time s e = ground arith

  verdict-good :
      (h : Felt) (started timeout time : ℕ) (s : TxStatus) (r : Result Failure TxStatus)
      → verdict k net h started timeout time s ≡ some r
      → r ≢ err out_of_rounds
  unfolding verdict
  verdict-good h started timeout time s r e bad = ground arith

  -- A round ends the polling, or goes on within the time and after a pause.
  await_round-ends :
      (left : ℕ) (g : Gateway) (h : Felt) (started poll timeout : ℕ) (w : Wire)
      → ((v : Wire)
          → w.time ≤ started + timeout
          → w.time + poll ≤ v.time
          → (await_rounds k net left g h started poll timeout v).1 ≢ err out_of_rounds)
      → (await_rounds k net (suc left) g h started poll timeout w).1 ≢ err out_of_rounds
  unfolding await_rounds sleep or_poll
  await_round-ends left g h started poll timeout w rest bad =
      let (later, fine) = status-Runs g h w in
      elim (Outcome-cases (status k net g h w)) [
        | inl (w', e, failed) ↦ fine (cc (rw (failed, await_rounds) at bad))
        | inr (w', s, told) ↦ elim (Option-cases (verdict k net h started timeout w'.time s)) [
          | inr (r, done) ↦ verdict-good h started timeout w'.time s r done (rw (told, done) at bad)
          | inl on ↦
              let time : w.time ≤ w'.time = rw told at later in
              let early = verdict-none h started timeout w'.time s on in
              rest (record w' { time = w'.time + poll }) (omega arith) (omega arith)
                (rw (told, on) at bad)
        ]
      ]

  await_rounds-ends :
      (left : ℕ) (g : Gateway) (h : Felt) (started poll timeout : ℕ) (w : Wire)
      → started + timeout < w.time + left * poll
      → (await_rounds k net (suc left) g h started poll timeout w).1 ≢ err out_of_rounds
  await_rounds-ends zero g h started poll timeout w enough =
      await_round-ends zero g h started poll timeout w (λ v early later. absurd (omega arith))
  await_rounds-ends (suc left) g h started poll timeout w enough =
      await_round-ends (suc left) g h started poll timeout w
        (λ v early later. await_rounds-ends left g h started poll timeout v (omega arith))

  -- With a pause of at least a millisecond between its polls, `await_acceptance` comes to an end
  -- for whatever the servers answer: its result is never that the rounds of the model's loop,
  -- `timeout / poll + 2`, were used up.
  pub await_acceptance_ends :
      (g : Gateway) (h : Felt) (poll timeout : ℕ) (w : Wire)
      → 1 ≤ poll
      → (await_acceptance k net g h poll timeout w).1 ≢ err out_of_rounds
  unfolding await_acceptance
  await_acceptance_ends g h poll timeout w positive bad =
      let parts : poll * (timeout / poll) + timeout % poll ≡ timeout = div-add-mod timeout poll in
      let small : timeout % poll < poll = mod-lt timeout positive in
      let same : timeout / poll + 2 ≡ suc (timeout / poll + 1) = omega arith in
      await_rounds-ends (timeout / poll + 1) g h w.time poll timeout w (omega (arith, parts, small))
        (subst (λ n. (await_rounds k net n g h w.time poll timeout w).1 ≡ err out_of_rounds) same
          bad)
