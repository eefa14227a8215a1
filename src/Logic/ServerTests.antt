-- ===== src/Logic/ServerTests.antt =====
-- A logic server with one exchange, one queue and one consumer, over shared-memory queues, and the
-- witnesses.
use mq_cplusplus.Base.{
  ◌^◌, ◌-◌, ℕ, ◌≡◌, ◌≢◌, refl, ◌⊎◌, inl, inr, Bool, true, false, Option, none, some, List, [], ◌∷◌,
  ◌++◌, ◌==◌, if◌then◌else◌, All, arith, sym, ap, ◌∙◌, Bool-cases, name_eq, find, take, name_eq_iff,
  Bytes,
}
use mq_cplusplus.ShmQueue.{ShmQueue, init_fresh}
use mq_cplusplus.Message.Request.{recv}
use mq_cplusplus.Message.Pack.{Buffer, get_message_pack, PackStatus}
use mq_cplusplus.Message.Packet.{zeros}
use mq_cplusplus.Message.Server.{Stored, new_stored}
use mq_cplusplus.Logic.Queue.{MessageQueue, new_queue, add_message}
use mq_cplusplus.Logic.Delivery.{waiting}
use mq_cplusplus.Logic.Exchange.{find_binding_queue}
use mq_cplusplus.Logic.Server.{Outcome, Server, done, queue_at, put_queue, has_name}
use mq_cplusplus.Logic.Shared.{shm_channel}
use mq_cplusplus.Logic.Publish.{
  deliver, numbered, publish_to, acknowledge, deliver_all, on_publish_message, send_multi_ack,
}
use mq_cplusplus.Logic.Consume.{on_recv_message, on_create_subscribe, on_client_ack, push_queue}
use mq_cplusplus.Logic.Remove.{on_delete_queue, on_cancel_subscribe}
use mq_cplusplus.Logic.Resend.{
  stamp, stamp_all, is_due, wait_time, due_prefix, after_prefix, send_each, resend, resend_msg,
  resend_msg-settles,
}
use mq_cplusplus.Logic.Cancelled.{on_cancel_subscribe-IsSound}
use mq_cplusplus.Logic.Declare.{on_create_queue}
use mq_cplusplus.Logic.Registry.{some-injective, none-some}
use mq_cplusplus.Logic.Sound.{
  IsSound, on_create_queue-IsSound, on_recv_message-IsSound, on_create_subscribe-IsSound,
  on_delete_queue-IsSound,
}
use mq_cplusplus.Logic.Process.{process_recv_data}
use mq_cplusplus.Logic.Once.{send_multi_ack-endless}
use mq_cplusplus.Logic.Acks.{acked_packet, on_client_ack-cases}
use mq_cplusplus.Logic.Lost.{publish_again-unanswered}
use mq_cplusplus.Connect.Client.{find_client, new_manager}
use mq_cplusplus.Connect.Events.{exit_packet}
use mq_cplusplus.Connect.Send.{Line, Round, dispatch}
use mq_cplusplus.Logic.Entry.{Reached, body_sent, process_recv_data-packed}
use mq_cplusplus.Logic.Pushing.{push_queue-empties}

abbrev old : Stored
old = record (new_stored (5 ∷ []) 0 false) { index = 7; msg_seq = 3; queue_name = 113 ∷ [] }

abbrev waiting_queue : MessageQueue
waiting_queue = record (new_queue (113 ∷ []) 0 false false) {
  messages = old ∷ [];
  consumers = 7 ∷ [];
}

-- The exchange "e" is direct, its key "k" leads to the queue "q".
abbrev server : Server ShmQueue
server = record {
  exchanges =
      (
        101 ∷ [],
        record {
          name = 101 ∷ [];
          exchange_type = 2;
          durable = false;
          auto_del = true;
          bindings = (107 ∷ [], 0 ∷ []) ∷ [];
        },
      )
      ∷ [];
  queues = (0, waiting_queue) ∷ [];
  next_queue = 1;
  unsubscribed = [];
  subscribed = (113 ∷ [], 0) ∷ [];
  need_ack = old ∷ [];
  ack_seq = 4;
  producer_seqs = [];
  producer_last = (9, 1) ∷ [];
  to_connect = init_fresh 200;
  to_persis = init_fresh 200;
}

send_multi_ack-endless_example : send_multi_ack shm_channel 100 server ≡ none
send_multi_ack-endless_example = send_multi_ack-endless shm_channel 100 server (λ e. cc)

on_client_ack-cases_example :
    ((on_client_ack shm_channel server 1 3 ≡ (done, none, server))
      × All (λ m. m.msg_seq ≢ 3) server.need_ack)
    ⊎ ((m : Stored) × (before after : List Stored) × (server.need_ack ≡ before ++ m ∷ after)
        × (m.msg_seq ≡ 3)
        × All (λ x. x.msg_seq ≢ 3) before
        × (((m.durable ≡ true)
              × (on_client_ack shm_channel server 1 3 ≡ (
                done,
                none,
                record server {
                  need_ack = before ++ after;
                  to_persis = (shm_channel.send server.to_persis (acked_packet m)).1;
                },
              )))
            ⊎ ((m.durable ≡ false)
                × (on_client_ack shm_channel server 1 3
                    ≡ (done, none, record server { need_ack = before ++ after })))))
on_client_ack-cases_example = on_client_ack-cases shm_channel server 1 3 (omega arith, tt)

process_recv_data-packed_example :
    (b : Buffer) × (get_message_pack 7 (record { bytes = zeros 41; len = 41 }) (recv (113 ∷ []) 0)
      ≡ (PackStatus.success, b))
    × Reached shm_channel 0 server 7
        (body_sent 41 (recv (113 ∷ []) 0))
        (recv (113 ∷ []) 0)
        (process_recv_data shm_channel 0 server (take b.len b.bytes))
process_recv_data-packed_example =
    process_recv_data-packed shm_channel 0 server 7 41 (recv (113 ∷ []) 0) (omega arith)
      (((omega arith, tt), omega arith), omega arith) (omega arith) (omega arith)

push_queue-empties_example :
    (s' : Server ShmQueue) × (q' : MessageQueue) × (push_queue shm_channel 1 0 server ≡ some s')
    × (queue_at s' 0 ≡ some q')
    × (waiting q' ≡ [])
    × (q'.consumers ≡ 7 ∷ [])
    × ((o : ℕ) → (0 == o) ≡ false → queue_at s' o ≡ queue_at server o)
unfolding queue_at find
push_queue-empties_example =
    push_queue-empties shm_channel 1 0 server waiting_queue refl (omega arith) refl

-- The server after client 9 has published the body 6, as its message 1.
abbrev published : Server ShmQueue
published =
    acknowledge shm_channel 9 1 1
      (put_queue server 0 (add_message waiting_queue (new_stored (6 ∷ []) 0 false)))

-- A connection server without clients.
abbrev nobody_there : Round ShmQueue
nobody_there = record {
  server = record {
    manager = new_manager;
    listen_fd = 3;
    to_logic = init_fresh 200;
    recv_count = 0;
    send_count = 0;
  };
  out = [];
  clients = [];
}

abbrev line : Line
line = record { polls = []; sends = []; now = 0 }

publish_again-unanswered_example :
    (ack : Bytes) × (on_publish_message shm_channel published 9
        (101 ∷ [])
        (107 ∷ [])
        (6 ∷ [])
        0
        false
        1
        1
      ≡ some (
        done,
        none,
        record published { to_connect = (shm_channel.send published.to_connect ack).1 },
      ))
    × (dispatch shm_channel line ack nobody_there
        ≡ some (
          false,
          record nobody_there {
            server = record (nobody_there.server) {
              to_logic =
                  (shm_channel.send nobody_there.server.to_logic (exit_packet (2 ^ 32 - 1))).1;
            };
          },
        ))
unfolding on_publish_message publish_to deliver_all deliver numbered find_binding_queue find name_eq
    has_name queue_at find_client new_manager
publish_again-unanswered_example =
    publish_again-unanswered shm_channel server published none 9 1 1 (101 ∷ []) (107 ∷ []) (6 ∷ [])
      0 false (101 ∷ []) (107 ∷ []) (6 ∷ []) 0 false line nobody_there (inl refl) refl refl

server-IsSound : IsSound server
unfolding find
server-IsSound = record {
  unsubscribed_live = λ k o e. absurd (none-some e);
  subscribed_live = λ k o e. elim (Bool-cases (name_eq (113 ∷ []) k)) [
    | inl h ↦ (
      waiting_queue,
      ap (λ z. find ◌==◌ z server.queues) (sym (some-injective (sym (after k h) ∙ e))),
      (name_eq_iff (113 ∷ []) k).0 h,
    )
    | inr h ↦ absurd (none-some (sym (after k h) ∙ e))
  ];
  apart = λ k o e. absurd (none-some e);
  fresh = λ p q e. elim (Bool-cases (0 == p)) [
    | inl h ↦ ground (arith, h)
    | inr h ↦ absurd (none-some (sym (ap (λ c. if c then some waiting_queue else none) h) ∙ e))
  ];
}
  where
    after :
        (k : Bytes) {c : Bool}
        → name_eq (113 ∷ []) k ≡ c
        → find name_eq k server.subscribed ≡ if◌then◌else◌ {A = Option ℕ} c (some 0) none
    after k h = ap (λ c. if◌then◌else◌ {A = Option ℕ} c (some 0) none) h

on_create_queue-IsSound_example :
    IsSound (on_create_queue shm_channel server [] (114 ∷ []) 0 false true).2
on_create_queue-IsSound_example =
    on_create_queue-IsSound shm_channel server [] (114 ∷ []) 0 false true server-IsSound

on_recv_message-IsSound_example :
    (o : Outcome ShmQueue) × (on_recv_message shm_channel 0 server 7 (113 ∷ []) 1 ≡ some o)
    × IsSound o.2
on_recv_message-IsSound_example =
    on_recv_message-IsSound shm_channel 0 server 7 (113 ∷ []) 1 server-IsSound

on_create_subscribe-IsSound_example :
    (o : Outcome ShmQueue) × (on_create_subscribe shm_channel server 8 (113 ∷ []) 1 ≡ some o)
    × IsSound o.2
on_create_subscribe-IsSound_example =
    on_create_subscribe-IsSound shm_channel server 8 (113 ∷ []) 1 server-IsSound

on_delete_queue-IsSound_example :
    (o : Outcome ShmQueue) × (on_delete_queue shm_channel server [] (113 ∷ []) ≡ some o)
    × IsSound o.2
on_delete_queue-IsSound_example =
    on_delete_queue-IsSound shm_channel server [] (113 ∷ []) server-IsSound

on_cancel_subscribe-IsSound_example :
    (o : Outcome ShmQueue) × (on_cancel_subscribe shm_channel server 7 (113 ∷ []) ≡ some o)
    × IsSound o.2
on_cancel_subscribe-IsSound_example =
    on_cancel_subscribe-IsSound shm_channel server 7 (113 ∷ []) server-IsSound

-- A message that was saved at 0 and one that was saved just now.
abbrev two_waiting : Server ShmQueue
two_waiting = record server { need_ack = old ∷ stamp 3000000000 old ∷ [] }

resend_msg-settles_example :
    (resend_msg shm_channel 3000000000 two_waiting
      ≡ record (send_each shm_channel (old ∷ []) two_waiting) {
        need_ack = stamp 3000000000 old ∷ stamp 3000000000 old ∷ [];
      })
    × (resend shm_channel 5 3000000000 two_waiting ≡ resend_msg shm_channel 3000000000 two_waiting)
unfolding due_prefix after_prefix stamp_all is_due wait_time
resend_msg-settles_example = resend_msg-settles shm_channel 5 3000000000 two_waiting (omega arith)
