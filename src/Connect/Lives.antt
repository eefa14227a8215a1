-- ===== src/Connect/Lives.antt =====
-- connectServer/connectServer.cpp, ProcessEpollData: what the events make of the pool, and of a
-- connection whose client has left.
use mq_cplusplus.Base.{
  ℕ, ◌≡◌, refl, sym, ap, subst, ◌∙◌, ◌⊎◌, inl, inr, true, Option, none, some, List, [], ◌∷◌, ◌==◌,
  Bool-cases, Option-cases, Bytes, ◌-◌, Option,
}
use mq_cplusplus.ShmQueue.Channel.{Channel}
use mq_cplusplus.Connect.Client.{
  Area, recv_area, send_area, ClientConnect, Manager, put_connect, server_buffer_size,
}
use mq_cplusplus.Connect.Events.{
  ConnectServer, Received, again, failed, got, Event, recv_room, cut_connect, end_client,
  place_client, accept_client, take_bytes, receive, process_event,
}
use mq_cplusplus.Connect.Pool.{
  IsPool, put-IsPool, handed_out-IsPool, exit-IsPool, online-IsPool, connects-put,
  get_one_free_connect-none, get_one_free_connect-some,
}

List-cases : (xs : List ℕ) → (xs ≡ []) ⊎ ((x : ℕ) × (rest : List ℕ) × (xs ≡ x ∷ rest))
List-cases [] = inl refl
List-cases (x ∷ xs) = inr (x, xs, refl)

pub accept_client-IsPool :
    {S : Type 0} (fd addr now : ℕ) (s : ConnectServer S)
    → IsPool s.manager
    → IsPool (accept_client fd addr now s).manager
unfolding accept_client place_client
accept_client-IsPool fd addr now s v = elim (List-cases s.manager.free) [
  | inl f ↦
      subst (λ x. IsPool (place_client fd addr now x s).manager)
        (sym (get_one_free_connect-none s.manager f)) v
  | inr (p, rest, f) ↦
      let (handed, inside) = handed_out-IsPool s.manager p rest v f in
      let m : Manager =
        put_connect p (record (s.manager.connects p) { used = true })
          (record s.manager { free = rest }) in
      let c : ClientConnect = record (m.connects p) {
        sockfd = fd;
        client_addr = addr;
        last_recv_time = now;
        in_map = true;
      } in
      subst (λ x. IsPool (place_client fd addr now x s).manager)
        (sym (get_one_free_connect-some s.manager p rest f inside))
        (online-IsPool (put_connect p c m) p (put-IsPool m p c handed refl refl (λ i. refl))
          (ap (λ z. z.used) (connects-put p c m) ∙ ap (λ z. z.used) (connects-put p _ _))
          (ap (λ z. z.in_map) (connects-put p c m)))
]

area_cases : (a : Area) → (a ≡ recv_area) ⊎ (a ≡ send_area)
area_cases recv_area = inl refl
area_cases send_area = inr refl

module _ {S : Type 0} (channel : Channel S) where
  take_bytes-IsPool :
      (p now : ℕ) (x : Bytes) (s : ConnectServer S)
      → IsPool s.manager
      → IsPool (take_bytes channel p x now s).manager
  unfolding take_bytes cut_connect
  take_bytes-IsPool p now x s v = put-IsPool s.manager p _ v refl refl (λ i. i)

  -- The event reads through a pointer into another buffer.
  abbrev pub Faults : Event → ConnectServer S → Type 0
  Faults e s =
      (p : ℕ) × (e.pointer ≡ some p)
      × (e.readable ≡ true)
      × ((s.manager.connects p).recv_tail.area ≡ send_area)

  -- What an event comes to.
  pub data Comes (e : Event) (s : ConnectServer S) : Option (ConnectServer S) → Type 0 where
    nothing : Comes e s (some s)
    ended : (p : ℕ) → e.pointer ≡ some p → Comes e s (some (end_client channel p s))
    connected :
        (fd addr : ℕ)
        → e.accepted ≡ some (fd, addr)
        → Comes e s (some (accept_client fd addr e.now s))
    taken :
        (p : ℕ) (x : Bytes)
        → (s.manager.connects p).recv_tail.area ≡ recv_area
        → Comes e s (some (take_bytes channel p x e.now s))
    faulted : Faults e s → Comes e s none

  received_Comes :
      (e : Event) (x : Received) (p : ℕ) (s : ConnectServer S)
      → e.pointer ≡ some p
      → (s.manager.connects p).recv_tail.area ≡ recv_area
      → Comes e s (elim x [
        | again ↦ some s
        | failed ↦ some (end_client channel p s)
        | got bytes ↦ elim bytes [
          | [] ↦ some (end_client channel p s)
          | b ∷ bs ↦ some (take_bytes channel p (b ∷ bs) e.now s)
        ]
      ])
  received_Comes e again p s at own = nothing
  received_Comes e failed p s at own = ended p at
  received_Comes e (got []) p s at own = ended p at
  received_Comes e (got (b ∷ bs)) p s at own = taken p (b ∷ bs) own

  receive_Comes :
      (e : Event) (p : ℕ) (s : ConnectServer S)
      → e.pointer ≡ some p
      → e.readable ≡ true
      → Comes e s (receive channel e p s)
  unfolding receive recv_room
  receive_Comes e p s at readable = elim (area_cases (s.manager.connects p).recv_tail.area) [
    | inl own ↦ rw own (
        received_Comes e (e.received (server_buffer_size - (s.manager.connects p).recv_tail.offset))
          p s at own)
    | inr stale ↦ rw stale (faulted (p, at, readable, stale))
  ]

  pub process_event_cases :
      (e : Event) (s : ConnectServer S) → Comes e s (process_event channel e s)
  unfolding process_event receive
  process_event_cases e s = elim (Option-cases e.pointer) [
    | inl nowhere ↦ subst (Comes e s) (sym (rw (process_event, nowhere) refl)) nothing
    | inr (p, at) ↦ elim (Bool-cases e.readable) [
      | inr other ↦ subst (Comes e s) (sym (rw (process_event, at, other) refl)) (ended p at)
      | inl readable ↦ elim (Bool-cases ((s.manager.connects p).sockfd == s.listen_fd)) [
        | inr client ↦
            subst (Comes e s) (sym (rw (process_event, at, readable, client) refl))
              (receive_Comes e p s at readable)
        | inl listen ↦ elim (Option-cases e.accepted) [
          | inl refused ↦
              subst (Comes e s) (sym (rw (process_event, at, readable, listen, refused) refl))
                nothing
          | inr ((fd, addr), got_one) ↦
              subst (Comes e s) (sym (rw (process_event, at, readable, listen, got_one) refl))
                (connected fd addr got_one)
        ]
      ]
    ]
  ]

  Comes-IsPool :
      (e : Event) (s : ConnectServer S) (o : Option (ConnectServer S))
      → Comes e s o
      → IsPool s.manager
      → ((s' : ConnectServer S) × (o ≡ some s') × IsPool s'.manager) ⊎ ((o ≡ none) × Faults e s)
  unfolding end_client
  Comes-IsPool e s _ nothing v = inl (s, refl, v)
  Comes-IsPool e s _ (ended p at) v = inl (end_client channel p s, refl, exit-IsPool s.manager p v)
  Comes-IsPool e s _ (connected fd addr got_one) v =
      inl (accept_client fd addr e.now s, refl, accept_client-IsPool fd addr e.now s v)
  Comes-IsPool e s _ (taken p x own) v =
      inl (take_bytes channel p x e.now s, refl, take_bytes-IsPool p e.now x s v)
  Comes-IsPool e s _ (faulted f) v = inr (refl, f)

  -- From a pool in order, ProcessEpollData comes through an event with the pool in order, except for an
  -- event whose connection has its receive pointers in the send buffer: there it reads the difference
  -- of two buffers.
  pub process_event-IsPool :
      (e : Event) (s : ConnectServer S)
      → IsPool s.manager
      → ((s' : ConnectServer S) × (process_event channel e s ≡ some s') × IsPool s'.manager)
        ⊎ ((process_event channel e s ≡ none) × Faults e s)
  process_event-IsPool e s v = Comes-IsPool e s _ (process_event_cases e s) v
