-- ===== src/Connect/Stream.antt =====
-- connectServer/connectServer.cpp, ProcessEpollData, over all that a client sends: however the bytes
-- are handed out, the logic server gets the client's packets.
use mq_cplusplus.Base.{
  ℕ, ◌+◌, ◌-◌, ◌^◌, ◌≤◌, ◌<◌, ◌≡◌, refl, ap, ap₂, ◌∙◌, Option, none, some, true, false, List, [],
  ◌∷◌, ◌++◌, arith, length, take, drop, All, concat, Bytes, min, append_assoc, ◌==◌, length-append,
  All-split, subst, take-append-drop, length-take, length-drop, ◌>>=◌,
}
use mq_cplusplus.ShmQueue.Channel.{Channel}
use mq_cplusplus.Connect.Client.{server_buffer_size}
use mq_cplusplus.Connect.Packets.{IsPacket, Begins}
use mq_cplusplus.Connect.Events.{
  ConnectServer, got, Event, recv_room, take_bytes, receive, process_event,
}
use mq_cplusplus.Connect.Arrivals.{
  Waits, Arrived, take_bytes-Arrived, Arrived-start, Arrived-append,
}

no_more : (stream : Bytes) → length stream ≤ 0 → stream ≡ []
no_more [] h = refl
no_more (b ∷ bs) h = absurd (omega arith)

module _ {S : Type 0} (channel : Channel S) where
  receive-got :
      (e : Event) (p : ℕ) (s : ConnectServer S) (room : ℕ) (x : Bytes)
      → recv_room (s.manager.connects p) ≡ some room
      → e.received room ≡ got x
      → 0 < length x
      → receive channel e p s ≡ some (take_bytes channel p x e.now s)
  unfolding receive
  receive-got e p s room [] h r pos = absurd (omega arith)
  receive-got e p s room (b ∷ x) h r pos = rw (receive, h, r) refl

  -- The connection is readable, and recv hands out `n` bytes at most of those that are on their way.
  abbrev pub readable_event : ℕ → ℕ → ℕ → Bytes → Event
  readable_event n p now stream = record {
    readable = true;
    pointer = some p;
    accepted = none;
    received = λ room. got (take (min n room) stream);
    now = now;
  }

  -- A client's bytes on their way, and for each event how many bytes recv hands out at most: one at
  -- least. What is left at the end is still on its way.
  pub receive_stream : List ℕ → ℕ → ℕ → Bytes → ConnectServer S → Option (ConnectServer S × Bytes)
  receive_stream [] p now stream s = some (s, stream)
  receive_stream (k ∷ ks) p now [] s = some (s, [])
  receive_stream (k ∷ ks) p now (b ∷ bs) s = do
    room ← recv_room (s.manager.connects p)
    s' ← process_event channel (readable_event (k + 1) p now (b ∷ bs)) s
    receive_stream ks p now (drop (min (k + 1) room) (b ∷ bs)) s'

  -- The room that a waiting beginning leaves.
  room_left :
      (ps : List Bytes) (q stream : Bytes)
      → All IsPacket ps
      → Begins ps q
      → q ++ stream ≡ concat ps
      → 0 < length stream
      → length q < 2 ^ 16
  room_left [] q stream k b e pos = absurd (omega (arith, ap length e, length-append q stream))
  room_left (p ∷ ps) q stream k b e pos = omega (arith, k.0.short)

  event_taken :
      (k p now b : ℕ) (q bs : Bytes) (s : ConnectServer S)
      → Waits (s.manager.connects p) q
      → ((s.manager.connects p).sockfd == s.listen_fd) ≡ false
      → length q < 2 ^ 16
      → let room = server_buffer_size - length q in
        (recv_room (s.manager.connects p) ≡ some room)
        × (process_event channel (readable_event (k + 1) p now (b ∷ bs)) s
            ≡ some (take_bytes channel p (take (min (k + 1) room) (b ∷ bs)) now s))
  unfolding recv_room process_event
  event_taken k p now b q bs s w fd small = (
    room,
    rw (process_event, fd)
        (receive-got (readable_event (k + 1) p now (b ∷ bs)) p s _ _ room refl
          (omega (arith, length-take (min (k + 1) (server_buffer_size - length q)) (b ∷ bs)))),
  )
    where
      room : recv_room (s.manager.connects p) ≡ some (server_buffer_size - length q)
      room = rw w.own (ap (λ n. some (server_buffer_size - n)) w.behind_it)

  -- A client's packets are on their way, in front of them what waits already, and the events come one
  -- by one. Nothing faults, and what has arrived is, in order, whole packets, each with the client's
  -- index in its header, and the beginning of the next one; once there were as many events as bytes,
  -- all packets have arrived.
  pub receive_stream-packets :
      (ks : List ℕ) (ps : List Bytes) (p now : ℕ) (q stream : Bytes) (s : ConnectServer S)
      → All IsPacket ps
      → Waits (s.manager.connects p) q
      → Begins ps q
      → q ++ stream ≡ concat ps
      → ((s.manager.connects p).sockfd == s.listen_fd) ≡ false
      → (s' : ConnectServer S) × (rest : Bytes) × (receive_stream ks p now stream s
          ≡ some (s', rest))
        × Arrived channel ps s s' p rest
        × (length stream ≤ length ks → rest ≡ [])
  unfolding receive_stream
  receive_stream-packets [] ps p now q stream s k w b e fd =
      (s, stream, refl, Arrived-start channel ps p q stream s w b e, λ h. no_more stream h)
  receive_stream-packets (n ∷ ks) ps p now q [] s k w b e fd =
      (s, [], refl, Arrived-start channel ps p q [] s w b e, λ h. refl)
  receive_stream-packets (n ∷ ks) ps p now q (c ∷ bs) s k w b e fd =
      let stream : Bytes = c ∷ bs in
      let small = room_left ps q stream k b e (omega arith) in
      let room = server_buffer_size - length q in
      let m = min (n + 1) room in
      let (asked, taken) = event_taken n p now c q bs s w fd small in
      let a =
        take_bytes-Arrived channel ps s p now q (take m stream) (drop m stream) k w
          (append_assoc q (take m stream) (drop m stream)
            ∙ ap (◌++◌ q) (take-append-drop m stream)
            ∙ e)
          (omega (arith, length-take m stream)) (omega (arith, length-take m stream)) in
      let (kq, kr) = All-split IsPacket a.passed a.to_come (subst (All IsPacket) a.whole k) in
      let (s', rest, run, a', all) =
        receive_stream-packets ks a.to_come p now a.waiting (drop m stream)
          (take_bytes channel p (take m stream) now s) kr a.waits a.begins a.rest_of
          (ap₂ ◌==◌ a.same_fd a.same_listen ∙ fd) in
      (
        s',
        rest,
        rw (asked, taken) run,
        Arrived-append channel {s' = s'} a a',
        λ h. all (omega (arith, h, length-drop m stream)),
      )
