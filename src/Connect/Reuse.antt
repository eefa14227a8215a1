-- ===== src/Connect/Reuse.antt =====
-- connectServer/clientConnect.cpp, ClientExit, and the next client on the same connection: the receive
-- pointers stand in the send buffer, and the send pointers where the last client left them.
use mq_cplusplus.Base.{
  ℕ, ◌≡◌, refl, sym, ap, subst, ◌∙◌, inl, inr, true, false, Option, none, some, List, [], ◌∷◌, ◌==◌,
  ==_iff, Bool-cases, arith, ◌>>=◌,
}
use mq_cplusplus.ShmQueue.Channel.{Channel}
use mq_cplusplus.Connect.Client.{
  recv_area, send_area, Manager, put_connect, get_one_free_connect, left_connect, client_exit,
  add_online_client, is_addr_valid,
}
use mq_cplusplus.Connect.Lives.{
  Comes, nothing, ended, connected, taken, faulted, process_event_cases,
}
use mq_cplusplus.Connect.Events.{
  ConnectServer, Event, recv_room, end_client, place_client, accept_client, take_bytes, receive,
  process_event, process_epoll_data,
}

-- The receive pointers of a connection stand in its send buffer.
abbrev pub IsStale : ℕ → Manager → Type 0
IsStale p m = (m.connects p).recv_tail.area ≡ send_area

exit-IsStale : (p q : ℕ) (m : Manager) → IsStale p m → IsStale p (client_exit q m)
unfolding client_exit put_connect left_connect
exit-IsStale p q m h = ground arith

exit_used-IsStale : (p : ℕ) (m : Manager) → (m.connects p).used ≡ true → IsStale p (client_exit p m)
unfolding client_exit put_connect left_connect
exit_used-IsStale p m u = ground arith

get-IsStale : (p : ℕ) (m : Manager) → IsStale p m → IsStale p (get_one_free_connect m).1
unfolding get_one_free_connect put_connect is_addr_valid
get-IsStale p m h = ground arith

place-IsStale :
    {S : Type 0} (p fd addr now : ℕ) (x : Option ℕ × Manager) (s : ConnectServer S)
    → IsStale p x.1
    → IsStale p (place_client fd addr now x s).manager
unfolding place_client put_connect add_online_client
place-IsStale p fd addr now (none, m) s h = h
place-IsStale p fd addr now (some q, m) s h = ground arith

module _ {S : Type 0} (channel : Channel S) where
  -- What an event comes to, if it comes to anything.
  abbrev Kept : (ConnectServer S → Type 0) → Option (ConnectServer S) → Type 0
  Kept P none = Unit
  Kept P (some s) = P s

  Kept-bind :
      (P : ConnectServer S → Type 0) (o : Option (ConnectServer S))
      (f : ConnectServer S → Option (ConnectServer S))
      → Kept P o
      → ((s : ConnectServer S) → P s → Kept P (f s))
      → Kept P (do s ← o; f s)
  Kept-bind P none f k g = tt
  Kept-bind P (some s) f k g = g s k

  take_bytes-IsStale :
      (p q now : ℕ) (x : List ℕ) (s : ConnectServer S)
      → IsStale p s.manager
      → (s.manager.connects q).recv_tail.area ≡ recv_area
      → IsStale p (take_bytes channel q x now s).manager
  unfolding take_bytes put_connect
  take_bytes-IsStale p q now x s h own = elim (Bool-cases (q == p)) [
    | inl same ↦ absurd (
        apart (sym own ∙ ap (λ z. (s.manager.connects z).recv_tail.area) ((==_iff q p).0 same) ∙ h))
    | inr ne ↦ rw ne h
  ]
    where
      apart : recv_area ≡ send_area → ⊥
      apart e = cc

  Comes-IsStale :
      (p : ℕ) (e : Event) (s : ConnectServer S) (o : Option (ConnectServer S))
      → Comes channel e s o
      → IsStale p s.manager
      → Kept (λ s'. IsStale p s'.manager) o
  unfolding end_client accept_client
  Comes-IsStale p e s _ nothing h = h
  Comes-IsStale p e s _ (ended q at) h = exit-IsStale p q s.manager h
  Comes-IsStale p e s _ (connected fd addr got_one) h =
      place-IsStale p fd addr e.now (get_one_free_connect s.manager) s (get-IsStale p s.manager h)
  Comes-IsStale p e s _ (taken q x own) h = take_bytes-IsStale p q e.now x s h own
  Comes-IsStale p e s _ (faulted f) h = tt

  events-IsStale :
      (p : ℕ) (es : List Event) (s : ConnectServer S)
      → IsStale p s.manager
      → Kept (λ s'. IsStale p s'.manager) (process_epoll_data channel es s)
  unfolding process_epoll_data
  events-IsStale p [] s h = h
  events-IsStale p (e ∷ es) s h =
      Kept-bind (λ s'. IsStale p s'.manager) (process_event channel e s)
        (process_epoll_data channel es) (Comes-IsStale p e s _ (process_event_cases channel e s) h)
        (events-IsStale p es)

  -- A client leaves, events follow, a next client among them, and then bytes come on the connection: it
  -- has its receive pointers in its send buffer still, and the room for them is a difference of pointers
  -- into two buffers.
  pub left_client-faults :
      (p : ℕ) (es : List Event) (e : Event) (s s' : ConnectServer S)
      → (s.manager.connects p).used ≡ true
      → process_epoll_data channel es (end_client channel p s) ≡ some s'
      → e.pointer ≡ some p
      → e.readable ≡ true
      → ((s'.manager.connects p).sockfd == s'.listen_fd) ≡ false
      → process_event channel e s' ≡ none
  unfolding process_event receive recv_room end_client
  left_client-faults p es e s s' used run at readable client =
      rw (process_event, at, readable, client, stale) refl
    where
      stale : IsStale p s'.manager
      stale =
          subst (Kept (λ t. IsStale p t.manager)) run
            (events-IsStale p es (end_client channel p s) (exit_used-IsStale p s.manager used))
