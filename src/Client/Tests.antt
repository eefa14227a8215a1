-- ===== src/Client/Tests.antt =====
-- Tests of client/client.cpp, and concrete inputs for the theorems about it.
use mq_cplusplus.Base.{
  take, length-take, ◌≡◌, refl, true, some, List, [], ◌∷◌, map, ◌++◌, concat, arith, Bytes, false,
  Option, sym, ap, ap₂, ◌<◌, length, ℕ,
}
use mq_cplusplus.Message.Request.{publish}
use mq_cplusplus.Client.Producer.{Unacked, Producer, recv_server_ack}
use mq_cplusplus.Client.Acknowledged.{acks, ack_bytes-pack}
use mq_cplusplus.Connect.Events.{got}
use mq_cplusplus.Client.Bounds.{IsSized, Bounded, recv_one_pack-Bounded}
use mq_cplusplus.Client.Settled.{filter, waits, recv_server_ack-settles}
use mq_cplusplus.Message.Server.{Stored, new_stored}
use mq_cplusplus.Client.Consumer.{Consumer, consume_message}
use mq_cplusplus.Client.Delivered.{Takes, stored_bytes-pack, consume_message-delivers}
use mq_cplusplus.Client.Receive.{Connection, Wake, ready, Sending, nothing_wrong, recv_one_pack}
use mq_cplusplus.Client.Arriving.{holds, arriving}
use mq_cplusplus.Client.Taking.{recv_one_pack-next}

abbrev connected : Connection
connected = record { build = true; confirm_level = 0; err_msg = nothing_wrong; pending = 0 ∷ [] }

-- A reply in three parts, the first byte of which is there, and a byte of the next packet.
abbrev parts : List Bytes
parts = (10 ∷ 0 ∷ 0 ∷ []) ∷ (0 ∷ 5 ∷ 2 ∷ 8 ∷ 1 ∷ []) ∷ (97 ∷ 0 ∷ []) ∷ (7 ∷ []) ∷ []

recv_one_pack-next_example :
    (left : List Bytes) × (pending : Bytes) × (recv_one_pack (map arriving parts) connected
      ≡ some (some (1 ∷ 97 ∷ [], 520), map arriving left, record connected { pending = pending }))
    × (pending ++ concat left ≡ 0 ∷ 7 ∷ [])
recv_one_pack-next_example =
    recv_one_pack-next 5 520 (1 ∷ 97 ∷ []) (0 ∷ 7 ∷ []) parts connected refl (omega arith)
      (omega arith) (omega arith) (omega arith, (omega arith, (omega arith, (omega arith, tt))))
      refl

-- The logic server's packet of a message that is acknowledged by hand, and the first byte of another.
abbrev delivered : Stored
delivered = record (new_stored (97 ∷ 98 ∷ []) 0 false) {
  index = 3;
  cmd = 11;
  confirm_level = 2;
  msg_seq = 6;
}

abbrev delivered_parts : List Bytes
delivered_parts = (0 ∷ 0 ∷ 0 ∷ 3 ∷ 0 ∷ 11 ∷ []) ∷ (2 ∷ 0 ∷ 0 ∷ 0 ∷ 6 ∷ 97 ∷ []) ∷ (98 ∷ 0 ∷ []) ∷ []

abbrev consumer : Consumer
consumer = record {
  connection = record connected { pending = 0 ∷ 15 ∷ [] };
  seq_set = 4 ∷ [];
  ack_seq = 4;
}

abbrev silent : Sending
silent = record { polls = []; sends = [] }

consume_message-delivers_example :
    (left : List Bytes) × (body : Option Bytes) × (c' : Consumer) × (consume_message silent
        (map arriving delivered_parts)
        consumer
      ≡ some (body, [], map arriving left, c'))
    × Takes delivered consumer body c'
    × (c'.connection.pending ++ concat left ≡ 0 ∷ [])
consume_message-delivers_example =
    consume_message-delivers silent delivered (0 ∷ []) delivered_parts consumer refl (omega arith)
      (omega arith) (omega arith) (λ e. absurd (omega arith)) (omega arith)
      (omega arith, (omega arith, (omega arith, tt)))
      (sym (ap (λ z. z ++ 0 ∷ []) (stored_bytes-pack delivered (omega arith))))

-- Two acknowledgements, of which the first 14 bytes have come, and three messages that wait.
abbrev acknowledged_parts : List Bytes
acknowledged_parts =
    (0 ∷ 5 ∷ 0 ∷ 14 ∷ 0 ∷ 0 ∷ 0 ∷ 3 ∷ 0 ∷ [])
    ∷ (12 ∷ 0 ∷ 0 ∷ 0 ∷ 5 ∷ 0 ∷ 14 ∷ 0 ∷ 0 ∷ 0 ∷ 4 ∷ [])
    ∷ []

abbrev unacked : ℕ → Unacked
unacked seq = record {
  message = publish (101 ∷ []) (107 ∷ []) (97 ∷ []) 0 false seq 1;
  msg_seq = seq;
  save_time = 0;
}

abbrev producer : Producer
producer = record {
  connection = record connected { confirm_level = 1; pending = 0 ∷ 12 ∷ 0 ∷ 0 ∷ [] };
  msg_seq = 6;
  need_ack = unacked 3 ∷ unacked 4 ∷ unacked 5 ∷ [];
}

recv_server_ack-settles_example :
    (front : List ℕ) × (back : List ℕ) × (left : List Bytes) × (pending : Bytes) × (recv_server_ack
        (map arriving acknowledged_parts)
        producer
      ≡ some (
        true,
        map arriving left,
        record producer {
          connection = holds pending producer.connection;
          need_ack = filter (waits 1 front) producer.need_ack;
        },
      ))
    × (front ++ back ≡ 3 ∷ 4 ∷ [])
    × (0 < length front)
    × (pending ++ concat left ≡ acks 5 back)
recv_server_ack-settles_example =
    recv_server_ack-settles 5 3 (4 ∷ []) acknowledged_parts producer
      (omega arith, (omega arith, tt)) (omega arith, (omega arith, tt))
      (sym (ap₂ (λ a b. a ++ (b ++ [])) (ack_bytes-pack 5 3) (ack_bytes-pack 5 4)))

-- The parts of a reply, of which recv takes what there is room for.
abbrev sized : Bytes → Wake
sized part = record { polls = ready ∷ []; received = λ room. got (take room part) }

sized-IsSized : (part : Bytes) → IsSized (sized part)
sized-IsSized part room = omega (arith, length-take room part)

recv_one_pack-Bounded_example : Bounded (map sized parts) connected
recv_one_pack-Bounded_example =
    recv_one_pack-Bounded (map sized parts) connected
      (sized-IsSized _, (sized-IsSized _, (sized-IsSized _, (sized-IsSized _, tt)))) (omega arith)
