-- ===== src/Connect/Receive.antt =====
-- connectServer/connectServer.cpp, the cutting of what a client sent into packets:
-- GetClientPackageFromBuff and the loop of ProcessEpollData over the receive buffer.
use mq_cplusplus.Base.{
  ℕ, zero, suc, ◌+◌, ◌-◌, Option, none, some, ltb, if◌then◌else◌, drop, span, put_at, Bytes,
}
use mq_cplusplus.ShmQueue.Channel.{Channel}
use mq_cplusplus.Message.Wire.{int_bytes, read_short}
use mq_cplusplus.Message.Request.{head_len}

-- GetClientPackageFromBuff on the `len` bytes from `i` on: the buffer with the client's index
-- written into the header, and the length of the packet. `none` is an error.
unfoldable pub get_client_package : Bytes → ℕ → ℕ → ℕ → Option (Bytes × ℕ)
get_client_package buff i len index =
    if ltb len head_len then none else elim (read_short (drop i buff)) [
      | none ↦ none
      | some (pack_len, rest) ↦
          if ltb len pack_len
          then none
          else if ltb pack_len head_len
          then none
          else some (put_at (i + 2) (int_bytes index) buff, pack_len)
    ]

-- The receive buffer and its head and tail, as offsets in it.
pub record Receiving : Type 0 where
  pub buff : Bytes
  pub head : ℕ
  pub tail : ℕ

-- What is between head and tail moves to the front of the buffer.
unfoldable pub move_front : Receiving → Receiving
move_front r = record {
  buff = put_at 0 (span r.head (r.tail - r.head) r.buff) r.buff;
  head = 0;
  tail = r.tail - r.head;
}

module _ {S : Type 0} (channel : Channel S) where
  -- A packet goes into the queue to the logic server, which is waited for while it is full.
  unfoldable pub forward_packet : Bytes → S → S
  forward_packet packet s = (channel.send (channel.room s packet) packet).1

  -- The loop, for at most `fuel` packets: `pCurPack` is the head throughout, and `len` is `buffLen`.
  -- With the rest comes the count of the packets.
  unfoldable pub cut_packets : ℕ → ℕ → ℕ → Receiving → S → Receiving × ℕ × S
  cut_packets index zero len r s = (r, 0, s)
  cut_packets index (suc fuel) len r s = elim (get_client_package r.buff r.head len index) [
    | none ↦ (move_front r, 0, s)
    | some (buff, pack_len) ↦
        let s' = forward_packet (span r.head pack_len buff) s in
        let next : Receiving = record r { buff = buff; head = r.head + pack_len } in
        let (r', count, s'') = cut_packets index fuel (len - pack_len) next s' in
        if ltb pack_len len
        then (r', count + 1, s'')
        else (record next { head = 0; tail = 0 }, 1, s')
  ]
