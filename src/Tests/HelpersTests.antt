-- ===== src/Tests/HelpersTests.antt =====
-- The inputs of the unit tests of crates/core/src/client/helpers.rs: what those tests assert holds of
-- the model.
use kakarot_rpc_adapter.Prelude.{ℕ, ◌≡◌, refl, List, [], ◌∷◌, ◌++◌, map, replicate}
use kakarot_rpc_adapter.Outcome.{ok, map_ok}
use kakarot_rpc_adapter.Client.Calls.{try_from_calldata, calls_loop, u32_of_felt, bytes_to_felt_vec}
use kakarot_rpc_adapter.Client.Decode.{
  felt, felt_array, array_loop, push_last, next, decode_eth_send_transaction_return,
}
use kakarot_rpc_adapter.Tests.Sample.{sample}

abbrev calls_calldata : List ℕ
calls_calldata =
    3 ∷ 3128705613458789528390290414851240119798030609140020478847448250529902814694
    ∷ 198949459316227719715886153176031658389738410566798821093023615114117547760 ∷ 0 ∷ 10
    ∷ 3128705613458789528390290414851240119798030609140020478847448250529902814694
    ∷ 198949459316227719715886153176031658389738410566798821093023615114117547760 ∷ 10 ∷ 5
    ∷ 3128705613458789528390290414851240119798030609140020478847448250529902814694
    ∷ 198949459316227719715886153176031658389738410566798821093023615114117547760 ∷ 15 ∷ 5 ∷ 20 ∷ 0
    ∷ 1 ∷ 2 ∷ 3 ∷ 4 ∷ 5 ∷ 6 ∷ 7 ∷ 8 ∷ 9 ∷ 10 ∷ 11 ∷ 12 ∷ 13 ∷ 14 ∷ 15 ∷ 16 ∷ 17 ∷ 18 ∷ 19 ∷ []

-- `test_try_from_calls`: the calldata of three calls.
test_try_from_calls :
    map_ok (map (λ c. c.calldata)) (try_from_calldata calls_calldata)
    ≡ ok (
        (0 ∷ 1 ∷ 2 ∷ 3 ∷ 4 ∷ 5 ∷ 6 ∷ 7 ∷ 8 ∷ 9 ∷ [])
        ∷ (10 ∷ 11 ∷ 12 ∷ 13 ∷ 14 ∷ [])
        ∷ (15 ∷ 16 ∷ 17 ∷ 18 ∷ 19 ∷ [])
        ∷ [])
unfolding try_from_calldata calls_loop u32_of_felt
test_try_from_calls = refl

abbrev ten_bytes : List ℕ
ten_bytes = 1 ∷ 2 ∷ 3 ∷ 4 ∷ 5 ∷ 6 ∷ 7 ∷ 8 ∷ 9 ∷ 10 ∷ []

test_bytes_to_felt_vec : bytes_to_felt_vec ten_bytes ≡ ten_bytes
unfolding bytes_to_felt_vec
test_bytes_to_felt_vec = refl

abbrev send_transaction_return : List ℕ
send_transaction_return =
    2 ∷ 1 ∷ 2 ∷ 9 ∷ 1 ∷ 107354813 ∷ 7 ∷ 981189583729811790682342238579427221265550639987
    ∷ 2785597718578306275896662102058544587903720974324162755223119893247824986995 ∷ 32 ∷ 0 ∷ 0 ∷ 0
    ∷ 0 ∷ 0 ∷ 0 ∷ 0 ∷ 0 ∷ 0 ∷ 0 ∷ 0 ∷ 0 ∷ 0 ∷ 0 ∷ 0 ∷ 0 ∷ 0 ∷ 0 ∷ 0 ∷ 0 ∷ 0 ∷ 0 ∷ 0 ∷ 0 ∷ 0 ∷ 0 ∷ 0
    ∷ 0 ∷ 0 ∷ 0 ∷ 0 ∷ 2 ∷ 1048575 ∷ []

-- `test_decode_eth_send_transaction_return`: eight segments, the one but last of 32 elements.
test_decode_eth_send_transaction_return :
    decode_eth_send_transaction_return send_transaction_return
    ≡ ok (
        felt_array (1 ∷ 2 ∷ [])
        ∷ felt 9
        ∷ felt_array (107354813 ∷ [])
        ∷ felt 7
        ∷ felt 981189583729811790682342238579427221265550639987
        ∷ felt 2785597718578306275896662102058544587903720974324162755223119893247824986995
        ∷ felt_array (replicate 31 0 ++ 2 ∷ [])
        ∷ felt 1048575
        ∷ [])
unfolding decode_eth_send_transaction_return array_loop push_last next
test_decode_eth_send_transaction_return = refl
