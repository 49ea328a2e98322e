-- ===== src/Invoke/Tests.antt =====
-- A multicall for tools/zkmsg/core/src/invoke_v3.rs.
use stwo_starknet_verifier.Common.{◌≡◌, some, [], ◌∷◌}
use stwo_starknet_verifier.Invoke.{Call, execute_calldata}
use stwo_starknet_verifier.Invoke.Calls.{read_calldata, read_calldata-execute_calldata}

abbrev approve : Call
approve = record { to = 1; selector = 2; calldata = 3 ∷ 4 ∷ [] }

abbrev buy_tickets : Call
buy_tickets = record { to = 5; selector = 6; calldata = [] }

read_calldata-execute_calldata_example :
    read_calldata (execute_calldata (approve ∷ buy_tickets ∷ []))
    ≡ some (approve ∷ buy_tickets ∷ [])
read_calldata-execute_calldata_example = read_calldata-execute_calldata (approve ∷ buy_tickets ∷ [])
