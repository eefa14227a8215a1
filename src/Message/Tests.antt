-- ===== src/Message/Tests.antt =====
-- Requests packed and read back on concrete inputs, and the witnesses.
use mq_cplusplus.Base.{◌≡◌, ◌⊎◌, ◌<◌, ◌≤◌, true, false, some, [], ◌∷◌, arith, take}
use mq_cplusplus.Message.Request.{Request, publish, cmd_id}
use mq_cplusplus.Message.Pack.{
  get_message_pack, Buffer, success, any_too_long, name_too_long, buf_too_small,
}
use mq_cplusplus.Message.Read.{request, parse}
use mq_cplusplus.Message.Packet.{zeros}
use mq_cplusplus.Message.Fields.{names}
use mq_cplusplus.Message.Packing.{get_message_pack-answers}
use mq_cplusplus.Message.RoundTrip.{request_round_trip}

-- To the exchange "e", with the key "k", the body 1 2 3, acknowledged one by one.
abbrev hello : Request
hello = publish (101 ∷ []) (107 ∷ []) (1 ∷ 2 ∷ 3 ∷ []) 1 false 7 1

request_round_trip_example :
    (b : Buffer) × (get_message_pack 5 (record { bytes = zeros 90; len = 90 }) hello ≡ (success, b))
    × (parse (take b.len b.bytes)
        ≡ some (request (record { pack_len = 83; client_index = 5; cmd = 4 }) hello))
unfolding cmd_id
request_round_trip_example =
    request_round_trip 5 90 hello (omega arith)
      (
        ((omega arith, tt), omega arith),
        ((omega arith, tt), omega arith),
        omega arith,
        omega arith,
        omega arith,
      )
      (omega arith) (omega arith)

get_message_pack-answers_example :
    (any_too_long (names hello) ≡ true
      × get_message_pack 5 (record { bytes = zeros 40; len = 40 }) hello
        ≡ (name_too_long, record { bytes = zeros 40; len = 40 }))
    ⊎ ((any_too_long (names hello) ≡ false)
        × (40 < 83)
        × (get_message_pack 5 (record { bytes = zeros 40; len = 40 }) hello
            ≡ (buf_too_small, record { bytes = zeros 40; len = 40 })))
    ⊎ ((any_too_long (names hello) ≡ false)
        × (83 ≤ 40)
        × ((get_message_pack 5 (record { bytes = zeros 40; len = 40 }) hello).0 ≡ success)
        × ((get_message_pack 5 (record { bytes = zeros 40; len = 40 }) hello).1.len ≡ 83))
get_message_pack-answers_example =
    get_message_pack-answers 5 (record { bytes = zeros 40; len = 40 }) hello (omega arith)
