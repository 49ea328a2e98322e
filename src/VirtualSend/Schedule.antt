-- ===== src/VirtualSend/Schedule.antt =====
-- tools/zkmsg/core/src/virtual_send.rs: the wait for the schedule reads only, and ends once the
-- chain is there.
use stwo_starknet_verifier.Common.{
  ℕ, zero, suc, ◌+◌, ◌-◌, ◌≤◌, ◌<◌, ◌≡◌, ◌≢◌, inl, inr, refl, sym, ap, subst, leb→le, Bool, true,
  false, Option, none, some, ◌∷◌, ok, err, leb, arith, Bool-cases,
}
use stwo_starknet_verifier.Common.Effects.{after, after-eq-ok}
use stwo_starknet_verifier.Felts.{Crates}
use stwo_starknet_verifier.Gateway.{Gateway}
use stwo_starknet_verifier.Gateway.Wire.{Servers, sleep, request}
use stwo_starknet_verifier.VirtualSend.{out_of_rounds}
use stwo_starknet_verifier.VirtualSend.World.{
  World, Node, NodeReply, answers, refuses, Act, note, attempt, waiting, shown, head_said,
  block_number, note_head, ask,
}
use stwo_starknet_verifier.VirtualSend.Finish.{
  report_wait, on_head, wait_for_head, wait_for_schedule, schedule_poll,
}
use stwo_starknet_verifier.VirtualSend.Log.{HeadReached, here}
use stwo_starknet_verifier.VirtualSend.Reads.{
  Reads, Reads-refl, after-Reads, note-Reads, attempt-Reads, block_number-Reads,
}

module _ (k : Crates) (servers : Servers) (node : Node) (g : Gateway) where
  report_wait-Reads :
      (reported : Bool) (target head : ℕ) (w : World)
      → Reads w (report_wait k servers node g reported target head w).0
  unfolding report_wait
  report_wait-Reads true target head w = Reads-refl w
  report_wait-Reads false target head w = note-Reads (shown (waiting target (target - head))) w refl

  on_head-Reads :
      (reported : Bool) (target : ℕ) (again : Act (Unit {0})) (head : ℕ)
      → ((w : World) → Reads w (again w).0)
      → (w : World) → Reads w (on_head k servers node g reported target again head w).0
  unfolding on_head
  on_head-Reads reported target again head each w = elim (Bool-cases (leb target head)) [
    | inl late ↦ rw late (Reads-refl w)
    | inr early ↦ rw early (
        after-Reads w
          (after (report_wait k servers node g reported target head w)
            (λ u. attempt (sleep schedule_poll)))
          (λ slept. again)
          (after-Reads w (report_wait k servers node g reported target head w)
            (λ u. attempt (sleep schedule_poll)) (report_wait-Reads reported target head w)
            (λ u mid. attempt-Reads (sleep schedule_poll) mid))
          (λ slept. each))
  ]

  pub wait_for_head-Reads :
      (left : ℕ) (reported : Bool) (target : ℕ) (w : World)
      → Reads w (wait_for_head k servers node g left reported target w).0
  unfolding wait_for_head
  wait_for_head-Reads zero reported target w = Reads-refl w
  wait_for_head-Reads (suc left) reported target w =
      after-Reads w (block_number k servers node w)
        (on_head k servers node g reported target (wait_for_head k servers node g left true target))
        (block_number-Reads k servers node w)
        (λ head. on_head-Reads reported target _ head (wait_for_head-Reads left true target))

  note_head-said :
      (target head : ℕ) (reply : NodeReply ℕ) (w w' : World)
      → note_head k servers node reply w ≡ (w', ok head)
      → target ≤ head
      → HeadReached target w'.log
  unfolding note_head note
  note_head-said target head (answers h) w w' e le =
      let log : head_said h ∷ w.log ≡ w'.log = ap (λ p. p.0.log) e in
      let same : h ≡ head = cc in
      subst (HeadReached target) log (here (subst (λ n. target ≤ n) (sym same) le))
  note_head-said target head (refuses text) w w' e le = cc

  -- An answer of the loop that ends the wait is in the log.
  on_head-reached :
      (reported : Bool) (target : ℕ) (again : Act (Unit {0})) (head : ℕ) (w w' : World)
      → (target ≤ head → HeadReached target w.log)
      → ((v v' : World) → again v ≡ (v', ok tt) → HeadReached target v'.log)
      → on_head k servers node g reported target again head w ≡ (w', ok tt)
      → HeadReached target w'.log
  unfolding on_head
  on_head-reached reported target again head w w' now later e =
      elim (Bool-cases (leb target head)) [
        | inl late ↦
            let same : w ≡ w' = ap (λ p. p.0) (rw (late, on_head) at e) in
            subst (λ v. HeadReached target v.log) same (now (leb→le target head late))
        | inr early ↦
            let paused =
              after (report_wait k servers node g reported target head w)
                (λ u. attempt (sleep schedule_poll)) in
            let (mid, slept, ran, e') =
              after-eq-ok paused (λ r. again) (rw (early, on_head) at e) in
            later mid w' e'
      ]

  pub wait_for_head-reached :
      (left : ℕ) (reported : Bool) (target : ℕ) (w w' : World)
      → wait_for_head k servers node g left reported target w ≡ (w', ok tt)
      → HeadReached target w'.log
  unfolding wait_for_head block_number
  wait_for_head-reached zero reported target w w' e = cc
  wait_for_head-reached (suc left) reported target w w' e =
      let (mid, head, asked, e') =
        after-eq-ok (block_number k servers node w)
          (on_head k servers node g reported target
            (wait_for_head k servers node g left true target))
          e in
      let (v, reply, got, e'') =
        after-eq-ok (ask k servers node node.block_number w) (note_head k servers node) asked in
      on_head-reached reported target (wait_for_head k servers node g left true target) head mid w'
        (note_head-said target head reply v mid e'') (wait_for_head-reached left true target) e'

  -- The wait before a POST, and what it waited for.
  pub wait_for_schedule-Reads :
      (rounds : ℕ) (schedule : Option ℕ) (w : World)
      → Reads w (wait_for_schedule k servers node g rounds schedule w).0
  unfolding wait_for_schedule
  wait_for_schedule-Reads rounds none w = Reads-refl w
  wait_for_schedule-Reads rounds (some target) w = wait_for_head-Reads rounds false target w

  pub wait_for_schedule-reached :
      (rounds : ℕ) (schedule : Option ℕ) (w w' : World) (target : ℕ)
      → wait_for_schedule k servers node g rounds schedule w ≡ (w', ok tt)
      → schedule ≡ some target
      → HeadReached target w'.log
  unfolding wait_for_schedule
  wait_for_schedule-reached rounds none w w' target e s = cc
  wait_for_schedule-reached rounds (some t) w w' target e s =
      let same : t ≡ target = cc in
      subst (λ n. HeadReached n w'.log) same (wait_for_head-reached rounds false t w w' e)

  -- A round that goes on was told of a head below the target.
  round-ends :
      (left : ℕ) (reported : Bool) (target : ℕ) (reply : NodeReply ℕ) (w : World)
      → ((v : World) (head : ℕ)
          → reply ≡ answers head
          → head < target
          → v.net.requests ≡ w.net.requests
          → (wait_for_head k servers node g left true target v).1 ≢ err out_of_rounds)
      → (after (note_head k servers node reply w) (
          on_head k servers node g reported target
            (wait_for_head k servers node g left true target))).1
        ≢ err out_of_rounds
  unfolding note_head note on_head report_wait sleep
  round-ends left reported target (refuses text) w rest bad = cc
  round-ends left reported target (answers head) w rest bad = elim (Bool-cases (leb target head)) [
    | inl late ↦ cc (rw (late, on_head) at bad)
    | inr early ↦ elim (Bool-cases reported) [
      | inl t ↦
          rest (attempt (sleep schedule_poll) (note (head_said head) w).0).0 head refl
            (ground arith) refl (rw (early, t, on_head) at bad)
      | inr f ↦
          rest
            (attempt (sleep schedule_poll)
              (note (shown (waiting target (target - head))) (note (head_said head) w).0).0).0
            head refl (ground arith) refl (rw (early, f, on_head) at bad)
    ]
  ]

  -- The wait for the schedule comes to an end once the chain is there: if from request number n on
  -- the node never answers with a head below the target, then a wait that starts at request number
  -- m does not use up `left + 1` rounds of the model's loop, where n is at most m + left.
  pub wait_for_head-ends :
      (n left : ℕ) (reported : Bool) (target : ℕ) (w : World)
      → ((m head : ℕ) → n ≤ m → node.block_number m ≡ answers head → target ≤ head)
      → n ≤ w.net.requests + left
      → (wait_for_head k servers node g (suc left) reported target w).1 ≢ err out_of_rounds
  unfolding wait_for_head block_number ask request
  wait_for_head-ends n zero reported target w reaches enough =
      round-ends zero reported target (node.block_number w.net.requests)
        (ask k servers node node.block_number w).0
        (λ v head e early count.
          let late = reaches w.net.requests head (omega arith) e in absurd (omega arith))
  wait_for_head-ends n (suc left) reported target w reaches enough =
      round-ends (suc left) reported target (node.block_number w.net.requests)
        (ask k servers node node.block_number w).0
        (λ v head e early count.
          let one : v.net.requests ≡ w.net.requests + 1 = count in
          wait_for_head-ends n left true target v reaches (omega arith))
