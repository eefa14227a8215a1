-- ===== src/Logic/Lost.antt =====
-- logicServer/logicServer.cpp, OnPublishMessage, and connectServer/connectServer.cpp: the acknowledgement of a
-- message that is sent again.
use mq_cplusplus.Base.{
  ℕ, ◌+◌, ◌-◌, ◌^◌, ◌<◌, ◌≡◌, refl, ap, ◌∙◌, ◌⊎◌, Bool, false, none, some, ◌++◌, ◌∷◌, [], Bytes,
  arith, length, le→ltb,
}
use mq_cplusplus.Message.Wire.{int, short_bytes, int_bytes}
use mq_cplusplus.Message.Request.{cmd_server_ack_message, head_len}
use mq_cplusplus.Message.Packet.{packet, read_short-padded, read_int-padded}
use mq_cplusplus.Message.Server.{minus_one}
use mq_cplusplus.Logic.Server.{Server, done, Note, ack_bytes, send_connect}
use mq_cplusplus.Logic.Publish.{producer_single_ack, producer_multi_ack, on_publish_message}
use mq_cplusplus.Logic.Once.{publish_again}
use mq_cplusplus.ShmQueue.Channel.{Channel}
use mq_cplusplus.Connect.Client.{find_client}
use mq_cplusplus.Connect.Events.{exit_packet}
use mq_cplusplus.Connect.Send.{Line, Round, dispatch}
use mq_cplusplus.Client.Acknowledged.{ack_bytes-pack}
use mq_cplusplus.Client.Arriving.{server_pack}

module _ {S : Type 0} (channel : Channel S) where
  -- A packet for a client that is not there.
  dispatch-nobody :
      (line : Line) (index cmd : ℕ) (body : Bytes) (r : Round S)
      → index < 2 ^ 32
      → cmd < 2 ^ 16
      → head_len + length body < 2 ^ 16
      → find_client index r.server.manager ≡ none
      → dispatch channel line (server_pack index cmd body) r
        ≡ some (
          false,
          record r {
            server = record (r.server) {
              to_logic = (channel.send r.server.to_logic (exit_packet index)).1;
            };
          },
        )
  unfolding dispatch
  dispatch-nobody line index cmd body r i c small nobody =
      rw
        (
          dispatch,
          le→ltb (length (server_pack index cmd body)) head_len (omega arith),
          read_short-padded (int_bytes index ++ (short_bytes cmd ++ body)) (head_len + length body)
              small,
          read_int-padded (short_bytes cmd ++ body) index i,
          read_short-padded body cmd c,
          nobody,
        )
        refl

  -- A producer that wants acknowledgements sends a message, and sends it again after it was taken. The
  -- second time the logic server only hands the connection server an acknowledgement, which has the
  -- client index -1: a connection server that knows no client of that index sends it to nobody, and
  -- reports to the logic server that this client has left.
  pub publish_again-unanswered :
      (s s' : Server S) (text : Note) (client seq level : ℕ) (exchange key body : Bytes)
      (priority : ℕ) (durable : Bool) (exchange' key' body' : Bytes) (priority' : ℕ)
      (durable' : Bool) (line : Line) (r : Round S)
      → (level ≡ producer_single_ack) ⊎ (level ≡ producer_multi_ack)
      → on_publish_message channel s client exchange key body priority durable seq level
        ≡ some (done, text, s')
      → find_client (2 ^ 32 - 1) r.server.manager ≡ none
      → (ack : Bytes) × (on_publish_message channel s' client exchange' key' body' priority'
            durable' seq level
          ≡ some (done, none, record s' { to_connect = (channel.send s'.to_connect ack).1 }))
        × (dispatch channel line ack r
            ≡ some (
              false,
              record r {
                server = record (r.server) {
                  to_logic = (channel.send r.server.to_logic (exit_packet (2 ^ 32 - 1))).1;
                };
              },
            ))
  unfolding send_connect
  publish_again-unanswered s s' text client seq level exchange key body priority durable exchange'
        key' body' priority' durable' line r l e nobody =
      (
        ack_bytes minus_one seq,
        publish_again channel s s' text client seq level exchange key body priority durable
            exchange' key' body' priority' durable' l e,
        ap (λ b. dispatch channel line b r) (ack_bytes-pack minus_one seq)
            ∙ dispatch-nobody line minus_one cmd_server_ack_message (packet (int seq ∷ [])) r
                (omega arith) (omega arith) (omega arith) nobody,
      )
