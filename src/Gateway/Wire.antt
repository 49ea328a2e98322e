-- ===== src/Gateway/Wire.antt =====
-- tools/zkmsg/core/src/sequencer.rs: `submit`, `status` and `await_acceptance`. The servers are a
-- parameter: what they answer to the request number n, and how long the answer takes. `sleep` adds
-- its time; what it oversleeps counts with the next request. Times are milliseconds.
use stwo_starknet_verifier.Common.{
  ℕ, zero, suc, ◌+◌, ◌*◌, ◌^◌, ◌/◌, min, ◌&&◌, ◌||◌, Option, none, some, [], ◌++◌, ◌==◌, ltb, leb,
  if◌then◌else◌, Result, ok, err,
}
use stwo_starknet_verifier.Common.Effects.{Effect, ◌>>=◌, ◌>>◌, pure, fail, lift, modify}
use stwo_starknet_verifier.Felts.{Felt, Text, Crates, bytes, text_eq}
use stwo_starknet_verifier.Gateway.{
  Gateway, GatewayError, rejected, hash_mismatch, reverted, TxStatus, is_accepted, is_reverted,
  is_dropped, SignedInvoke,
}

-- The fields of a JSON object that the code reads as strings.
pub record StatusReply : Type 0 where
  pub finality_status : Option Text
  pub tx_status : Option Text
  pub execution_status : Option Text
  -- `tx_revert_reason` of the feeder, `failure_reason` of the RPC
  pub revert_reason : Option Text

-- What comes back of an HTTP request: a body, an error status with what its body parses to, or
-- nothing (a transport error).
pub data HttpReply (Body ErrorBody : Type 0) : Type 0 where
  body : Body → HttpReply Body ErrorBody
  http_error : ℕ → ErrorBody → HttpReply Body ErrorBody
  no_reply : HttpReply Body ErrorBody

-- The `error` or the `result` of a JSON-RPC reply, or neither JSON. The error's code is given by
-- its digits, its message together with its data.
pub data RpcReply (Out : Type 0) : Type 0 where
  rpc_error : (code message : Text) → RpcReply Out
  rpc_result : Out → RpcReply Out
  not_json : RpcReply Out

-- The servers behind the gateway, the feeder and the RPC of the publish role.
pub record Servers : Type 0 where
  -- how long request n takes
  pub latency : ℕ → ℕ
  -- `get_transaction_status` of the feeder, where the body is JSON
  pub feeder_status : ℕ → Felt → HttpReply (Option StatusReply) (Unit {0})
  -- `add_transaction` of the gateway: `transaction_hash`, or `code` and `message`
  pub add_transaction : ℕ → SignedInvoke → HttpReply (Option Text) (Option (Text × Text))
  -- `starknet_getTransactionStatus` and `starknet_addInvokeTransaction`
  pub rpc_status : ℕ → Text → Felt → HttpReply (RpcReply StatusReply) (Unit {0})
  pub rpc_add : ℕ → Text → SignedInvoke → HttpReply (RpcReply (Option Text)) (Unit {0})

-- The number of requests made, and the time.
pub record Wire : Type 0 where
  pub requests : ℕ
  pub time : ℕ

pub data Failure : Type 0 where
  -- a `GatewayError`
  typed : GatewayError → Failure
  -- an HTTP status, a transport error, or a body that is no JSON
  failed_request : Failure
  -- "no transaction_hash in gateway reply"
  no_transaction_hash : Failure
  -- "tx … was dropped by the gateway"
  dropped : Failure
  -- "tx …: not accepted after …"
  not_accepted : Failure
  -- The rounds of the model's loop are used up.
  out_of_rounds : Failure

abbrev pub Talk : Type 0 → Type 0
Talk A = Effect Wire Failure A

-- `thread::sleep`
unfoldable pub sleep : ℕ → Talk (Unit {0})
sleep ms = modify (λ w. record w { time = w.time + ms })

-- `Instant::now()`
abbrev pub now : Talk ℕ
now w = (w, ok w.time)

abbrev pub or_text : Option Text → Text → Text
or_text (some t) d = t
or_text none d = d

abbrev pub or_option : Option Text → Option Text → Option Text
or_option (some t) d = some t
or_option none d = d

-- `DROP_GRACE`
abbrev pub drop_grace : ℕ
drop_grace = 90000

module _ (k : Crates) (net : Servers) where
  -- One request, answered by what `f` gives for its number.
  unfoldable pub request : {A : Type 0} → (ℕ → A) → Talk A
  request f w = (
    record { requests = w.requests + 1; time = w.time + net.latency w.requests },
    ok (f w.requests),
  )

  -- What `with_retries` does with a reply: transport errors, 429 and 5xx are tried again.
  unfoldable pub or_again : {A : Type 0} → Talk A → HttpReply A (Unit {0}) → Talk A
  or_again again (body a) = pure a
  or_again again (http_error code e) =
      if (code == 429) || leb 500 code then again else fail failed_request
  or_again again no_reply = again

  -- `with_retries`, with so many attempts left and so many made.
  unfoldable pub with_retries : {A : Type 0} → ℕ → ℕ → (ℕ → HttpReply A (Unit {0})) → Talk A
  with_retries zero made f = fail failed_request
  with_retries (suc left) made f =
      request f >>= or_again (sleep (250 * 2 ^ min made 4) >> with_retries left (made + 1) f)

  -- An error of the RPC is a rejection, spelled like the gateway's for code 52.
  unfoldable pub result_of_rpc : {A : Type 0} → HttpReply (RpcReply A) (Unit {0}) → Result Failure A
  result_of_rpc no_reply = err failed_request
  result_of_rpc (http_error code e) = err failed_request
  result_of_rpc (body not_json) = err failed_request
  result_of_rpc (body (rpc_result a)) = ok a
  result_of_rpc (body (rpc_error code message)) =
      if text_eq code (bytes "52")
      then err (typed (rejected (bytes "RPC.INVALID_TRANSACTION_NONCE") message))
      else err (typed (rejected (bytes "RPC." ++ code) message))

  -- `rpc_call`
  unfoldable pub rpc_call : {A : Type 0} → (ℕ → HttpReply (RpcReply A) (Unit {0})) → Talk A
  rpc_call f = request f >>= λ reply. lift (result_of_rpc reply)

  -- `rpc_status`: an unknown hash reads as not received.
  unfoldable pub status_of_rpc : Result Failure StatusReply → Result Failure TxStatus
  status_of_rpc (ok r) = ok (record {
    finality = or_text r.finality_status (bytes "UNKNOWN");
    execution = or_text r.execution_status [];
    revert_reason = r.revert_reason;
  })
  status_of_rpc (err (typed (rejected code message))) =
      if text_eq code (bytes "RPC.29")
      then ok (record { finality = bytes "NOT_RECEIVED"; execution = []; revert_reason = none })
      else err (typed (rejected code message))
  status_of_rpc (err e) = err e

  abbrev pub caught :
      (Result Failure StatusReply → Result Failure TxStatus)
      → Wire × Result Failure StatusReply
      → Wire × Result Failure TxStatus
  caught f (w, result) = (w, f result)

  unfoldable pub status_of_feeder : Option StatusReply → Result Failure TxStatus
  status_of_feeder none = err failed_request
  status_of_feeder (some r) = ok (record {
    finality = or_text (or_option r.finality_status r.tx_status) (bytes "UNKNOWN");
    execution = or_text r.execution_status [];
    revert_reason = r.revert_reason;
  })

  -- `Gateway::status`
  unfoldable pub status : Gateway → Felt → Talk TxStatus
  status g h w = elim g.rpc_url [
    | some url ↦
        let (w', reply) = rpc_call (λ n. net.rpc_status n url h) w in (w', status_of_rpc reply)
    | none ↦
        (with_retries 6 0 (λ n. net.feeder_status n h) >>= λ reply. lift (status_of_feeder reply)) w
  ]

  -- Only a body with a `code` is a typed rejection.
  unfoldable pub result_of_post :
      HttpReply (Option Text) (Option (Text × Text)) → Result Failure (Option Text)
  result_of_post (body echoed) = ok echoed
  result_of_post (http_error status (some (code, message))) = err (typed (rejected code message))
  result_of_post (http_error status none) = err failed_request
  result_of_post no_reply = err failed_request

  -- `post`
  unfoldable pub post : SignedInvoke → Talk (Option Text)
  post tx = request (λ n. net.add_transaction n tx) >>= λ reply. lift (result_of_post reply)

  -- The end of `submit`: `Felt::from_hex(echoed).ok() != Some(signed.hash)`
  unfoldable pub check_echo : SignedInvoke → Option Text → Result Failure (Unit {0})
  check_echo tx none = err no_transaction_hash
  check_echo tx (some echoed) =
      let mismatch = typed (hash_mismatch (k.to_hex tx.tx_hash) echoed) in
      elim (k.from_hex echoed) [
        | none ↦ err mismatch
        | some h ↦ if h == tx.tx_hash then ok tt else err mismatch
      ]

  -- `Gateway::submit`
  unfoldable pub submit : Gateway → SignedInvoke → Talk (Unit {0})
  submit g tx = elim g.rpc_url [
    | some url ↦ rpc_call (λ n. net.rpc_add n url tx) >>= λ echoed. lift (check_echo tx echoed)
    | none ↦ post tx >>= λ echoed. lift (check_echo tx echoed)
  ]

  -- What `await_acceptance` makes of a status at a time, in the order of its tests; `none` polls on.
  unfoldable pub verdict : Felt → ℕ → ℕ → ℕ → TxStatus → Option (Result Failure TxStatus)
  verdict h started timeout time s =
      if is_dropped s && ltb (started + drop_grace) time
      then some (err dropped)
      else (if is_reverted s
          then some (err (typed (reverted (k.to_hex h) (or_text s.revert_reason s.execution))))
          else (if is_accepted s
              then some (ok s)
              else (if ltb (started + timeout) time then some (err not_accepted) else none)))

  unfoldable pub or_poll : Talk TxStatus → Option (Result Failure TxStatus) → Talk TxStatus
  or_poll again (some result) = lift result
  or_poll again none = again

  -- The loop of `await_acceptance`, for so many rounds at most.
  unfoldable pub await_rounds : ℕ → Gateway → Felt → ℕ → ℕ → ℕ → Talk TxStatus
  await_rounds zero g h started poll timeout = fail out_of_rounds
  await_rounds (suc left) g h started poll timeout = status g h >>= λ s. now >>= λ time.
      or_poll (sleep poll >> await_rounds left g h started poll timeout)
        (verdict h started timeout time s)

  -- `Gateway::await_acceptance`: each round but the last sleeps for `poll`.
  unfoldable pub await_acceptance : Gateway → Felt → ℕ → ℕ → Talk TxStatus
  await_acceptance g h poll timeout =
      now >>= λ started. await_rounds (timeout / poll + 2) g h started poll timeout
