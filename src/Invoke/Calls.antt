-- ===== src/Invoke/Calls.antt =====
-- tools/zkmsg/core/src/invoke_v3.rs, `execute_calldata`: the account reads the calls back.
use stwo_starknet_verifier.Common.{
  ℕ, zero, suc, ◌≡◌, refl, ap, Option, none, some, List, [], ◌∷◌, length, take, drop,
  take-append_eq, drop-append_eq,
}
use stwo_starknet_verifier.Felts.{Felt}
use stwo_starknet_verifier.Invoke.{Call, call_felts, execute_calldata}

-- What an account reads from the calldata of a multicall: so many calls, then nothing.
unfoldable pub read_calls : ℕ → List Felt → Option (List Call)
read_calls zero [] = some []
read_calls zero (f ∷ fs) = none
read_calls (suc n) (to ∷ selector ∷ len ∷ rest) = elim (read_calls n (drop len rest)) [
  | none ↦ none
  | some calls ↦ some (record { to = to; selector = selector; calldata = take len rest } ∷ calls)
]
read_calls (suc n) other = none

unfoldable pub read_calldata : List Felt → Option (List Call)
read_calldata [] = none
read_calldata (n ∷ rest) = read_calls n rest

read_calls-call_felts :
    (calls : List Call) → read_calls (length calls) (call_felts calls) ≡ some calls
unfolding read_calls call_felts
read_calls-call_felts [] = refl
read_calls-call_felts (c ∷ cs) =
    rw
      (drop-append_eq (length c.calldata) c.calldata (call_felts cs) refl, read_calls-call_felts cs)
      (ap (λ x. some (record c { calldata = x } ∷ cs))
        (take-append_eq (length c.calldata) c.calldata (call_felts cs) refl))

-- The calldata of any calls reads back as exactly these calls, in their order, and nothing is left
-- over.
pub read_calldata-execute_calldata :
    (calls : List Call) → read_calldata (execute_calldata calls) ≡ some calls
unfolding read_calldata execute_calldata
read_calldata-execute_calldata calls = read_calls-call_felts calls
