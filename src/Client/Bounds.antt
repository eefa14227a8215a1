-- ===== src/Client/Bounds.antt =====
-- client/client.cpp, RecvPack and RecvOnePack: the sizes of what they write to their buffers.
use mq_cplusplus.Base.{
  ◌*◌, ◌<◌, ltb→lt, if_true, if_false, take, drop, Option-cases, if◌then◌else◌, ℕ, ◌+◌, ◌-◌, ◌≤◌,
  ◌≡◌, refl, subst, ◌⊎◌, inl, inr, Bool, true, false, Option, none, some, List, [], ◌∷◌, ◌++◌,
  arith, length, ltb, ltb→le, Bool-cases, Bytes, All, length-append, length-take, length-drop,
  Every, Every-bind, Every-of, Every-if,
}
use mq_cplusplus.Message.Wire.{read_short, read_int}
use mq_cplusplus.Message.Request.{head_len, max_client_package}
use mq_cplusplus.Connect.Events.{Received, again, failed, got}
use mq_cplusplus.Client.Receive.{
  Connection, Wake, RecvStatus, server_closed, incomplete, complete, wait_server_reply, has_pack,
  recv_more, wait_pack, not_built, too_long, take_pack, recv_one_pack, sock_recv_buff_size,
}

-- recv writes no more than the room that it is given.
abbrev pub Sized : Received → ℕ → Type 0
Sized again room = Unit
Sized failed room = Unit
Sized (got bytes) room = length bytes ≤ room

abbrev pub IsSized : Wake → Type 0
IsSized w = (room : ℕ) → Sized (w.received room) room

-- What is in the receive buffer fits into it.
abbrev pub Holds : Connection → Type 0
Holds c = length c.pending ≤ sock_recv_buff_size

-- What recv may return.
Received-cases :
    (r : Received)
    → (r ≡ again) ⊎ (r ≡ failed) ⊎ (r ≡ got []) ⊎ ((b : ℕ) × (bs : Bytes) × (r ≡ got (b ∷ bs)))
Received-cases again = inl refl
Received-cases failed = inr (inl refl)
Received-cases (got []) = inr (inr (inl refl))
Received-cases (got (b ∷ bs)) = inr (inr (inr (b, bs, refl)))

has_pack-whole : (pending : Bytes) → has_pack pending ≡ some true → head_len < length pending
unfolding has_pack
has_pack-whole pending e = elim (Bool-cases (ltb head_len (length pending))) [
  | inl more ↦ ltb→lt _ _ more
  | inr few ↦ absurd (different (rw few at e))
]
  where
    different : some false ≡ some true → ⊥
    different e = cc

-- There is more than a header where a packet is complete.
abbrev More : RecvStatus × Connection → Type 0
More (complete, c) = Holds c × (head_len < length c.pending)
More (_, c) = Holds c

abbrev Kept : Bool × List Wake × Connection → Type 0
Kept (true, ws, c) = Holds c × (head_len < length c.pending)
Kept (false, ws, c) = Holds c

recv_more-More : (w : Wake) (c : Connection) → IsSized w → Holds c → Every More (recv_more w c)
unfolding recv_more
recv_more-More w c sized h = Every-bind More (wait_server_reply w.polls) _ (λ waited e.
    Every-if More waited _ _
      (elim (Received-cases (w.received (sock_recv_buff_size - length c.pending))) [
        | inl e ↦ rw e h
        | inr (inl e) ↦ rw e h
        | inr (inr (inl e)) ↦ rw e h
        | inr (inr (inr (b, bs, e))) ↦
            let few : length (b ∷ bs) ≤ sock_recv_buff_size - length c.pending =
              subst (λ r. Sized r (sock_recv_buff_size - length c.pending)) e
                (sized (sock_recv_buff_size - length c.pending)) in
            let fits : length (c.pending ++ b ∷ bs) ≤ sock_recv_buff_size =
              omega (arith, few, h, length-append c.pending (b ∷ bs)) in
            rw e (
              Every-bind More (has_pack (c.pending ++ b ∷ bs)) _
                (λ whole e. by_whole whole (record c { pending = c.pending ++ b ∷ bs }) fits e))
      ])
      h)
  where
    by_whole :
        (whole : Bool) (c : Connection)
        → Holds c
        → has_pack c.pending ≡ some whole
        → More (if whole then complete else incomplete, c)
    by_whole true c fits e = (fits, has_pack-whole c.pending e)
    by_whole false c fits e = fits

there_already :
    (whole : Bool) (ws : List Wake) (c : Connection) (o : Option (Bool × List Wake × Connection))
    → Holds c
    → has_pack c.pending ≡ some whole
    → Every Kept o
    → Every Kept (if whole then some (true, ws, c) else o)
there_already true ws c o h e k = (h, has_pack-whole c.pending e)
there_already false ws c o h e k = k

wait_pack-Kept :
    (ws : List Wake) (c : Connection) → All IsSized ws → Holds c → Every Kept (wait_pack ws c)
unfolding wait_pack
wait_pack-Kept [] c k h =
    Every-bind _ (has_pack c.pending) _ (λ whole e. there_already whole [] c none h e tt)
wait_pack-Kept (w ∷ ws) c (sized, k) h = Every-bind _ (has_pack c.pending) _ (λ whole e.
    there_already whole (w ∷ ws) c _ h e (
      Every-bind _ (recv_more w c) _ (λ r e.
        after_more r.0 r.1 (Every-of More (recv_more w c) r (recv_more-More w c sized h) e)
          (λ h. wait_pack-Kept ws r.1 k h))))
  where
    after_more :
        (status : RecvStatus) (c : Connection)
        → More (status, c)
        → (Holds c → Every Kept (wait_pack ws c))
        → Every Kept (elim status [
          | server_closed ↦ some (false, ws, c)
          | incomplete ↦ wait_pack ws c
          | complete ↦ some (true, ws, c)
        ])
    after_more server_closed c h rest = h
    after_more incomplete c h rest = rest h
    after_more complete c h rest = h

-- A body that is given out fits into the caller's buffer, behind a header.
pub Fits : Option (Bytes × ℕ) → Type 0
Fits none = Unit
Fits (some (body, cmd)) = head_len + length body ≤ max_client_package - head_len

abbrev pub Safe : Option (Bytes × ℕ) × List Wake × Connection → Type 0
Safe (reply, ws, c) = Fits reply × Holds c

read_short-some :
    (bs : Bytes)
    → 2 ≤ length bs
    → (n : ℕ) × (r : Bytes) × (read_short bs ≡ some (n, r)) × (length bs ≡ 2 + length r)
unfolding read_short
read_short-some [] h = absurd (omega arith)
read_short-some (a ∷ []) h = absurd (omega arith)
read_short-some (a ∷ b ∷ r) h = (a * 256 + b, r, refl, omega arith)

read_int-some :
    (bs : Bytes)
    → 4 ≤ length bs
    → (n : ℕ) × (r : Bytes) × (read_int bs ≡ some (n, r)) × (length bs ≡ 4 + length r)
unfolding read_int
read_int-some [] h = absurd (omega arith)
read_int-some (a ∷ []) h = absurd (omega arith)
read_int-some (a ∷ b ∷ []) h = absurd (omega arith)
read_int-some (a ∷ b ∷ c ∷ []) h = absurd (omega arith)
read_int-some (a ∷ b ∷ c ∷ d ∷ r) h = (a * 16777216 + b * 65536 + c * 256 + d, r, refl, omega arith)

-- The header has a length that is shorter than the header.
abbrev pub TooShort : Bytes → Type 0
TooShort pending = (n : ℕ) × (rest : Bytes) × (read_short pending ≡ some (n, rest)) × (n < head_len)

take_pack-cases :
    (ws : List Wake) (c : Connection)
    → Holds c
    → head_len < length c.pending
    → ((r : Option (Bytes × ℕ) × List Wake × Connection) × (take_pack ws c ≡ some r) × Safe r)
      ⊎ (TooShort c.pending × (take_pack ws c ≡ none))
unfolding take_pack Fits
take_pack-cases ws c h more =
    let (n, r, reads, l) = read_short-some c.pending (omega (arith, more)) in
    let (i, r', reads', l') = read_int-some r (omega (arith, more, l)) in
    let (cmd, r'', reads'', l'') = read_short-some r' (omega (arith, more, l, l')) in
    elim (Bool-cases (ltb (max_client_package - head_len) n)) [
      | inl long ↦ inl (
        (none, ws, record c { err_msg = too_long }),
        rw (take_pack, reads, reads', reads'', long) refl,
        (tt, h),
      )
      | inr fits ↦ elim (Bool-cases (ltb n head_len)) [
        | inl short ↦ inr (
          (n, r, reads, ltb→lt _ _ short),
          rw (take_pack, reads, reads', reads'', fits, short) refl,
        )
        | inr whole ↦ inl (
          (some (take (n - head_len) r'', cmd), ws, record c { pending = drop n c.pending }),
          rw (take_pack, reads, reads', reads'', fits, whole) refl,
          (
            omega (arith, ltb→le _ _ fits, ltb→le _ _ whole, length-take (n - head_len) r''),
            omega (arith, h, length-drop n c.pending),
          ),
        )
      ]
    ]

-- What RecvOnePack comes to.
pub Bounded : List Wake → Connection → Type 0
Bounded ws c =
    ((r : Option (Bytes × ℕ) × List Wake × Connection) × (recv_one_pack ws c ≡ some r) × Safe r)
    ⊎ ((recv_one_pack ws c ≡ none) × (wait_pack ws c ≡ none))
    ⊎ ((recv_one_pack ws c ≡ none)
        × ((ws' : List Wake) × (c' : Connection) × (wait_pack ws c ≡ some (true, ws', c'))
            × TooShort c'.pending))

waited-Bounded :
    (ws : List Wake) (c : Connection) (there : Bool) (ws' : List Wake) (c' : Connection)
    → c.build ≡ true
    → wait_pack ws c ≡ some (there, ws', c')
    → Kept (there, ws', c')
    → Bounded ws c
unfolding Bounded recv_one_pack Fits
waited-Bounded ws c false ws' c' up w h =
    inl ((none, ws', c'), rw (recv_one_pack, w) (if_true _ _ up), (tt, h))
waited-Bounded ws c true ws' c' up w (h, more) = elim (take_pack-cases ws' c' h more) [
  | inl (r, e, safe) ↦ inl (r, rw (recv_one_pack, w, e) (if_true _ _ up), safe)
  | inr (short, e) ↦ inr (inr (rw (recv_one_pack, w, e) (if_true _ _ up), (ws', c', w, short)))
]

-- Where recv writes no more than the room that it is given and the receive buffer holds no more than its
-- size, RecvOnePack has three outcomes. It returns: the receive buffer holds no more than its size, and a
-- body that it gives out is, with two headers, no longer than MAX_CLINT_PACKAGE_LENGTH. Or it still waits for
-- bytes. Or a header has come whose length is shorter than the header, and then it returns nothing: it copies a
-- negative number of bytes.
pub recv_one_pack-Bounded :
    (ws : List Wake) (c : Connection) → All IsSized ws → Holds c → Bounded ws c
unfolding Bounded recv_one_pack Fits
recv_one_pack-Bounded ws c k h = elim (Bool-cases c.build) [
  | inr down ↦ inl ((none, ws, record c { err_msg = not_built }), if_false _ _ down, (tt, h))
  | inl up ↦ elim (Option-cases (wait_pack ws c)) [
    | inl n ↦ inr (inl (rw (recv_one_pack, n) (if_true _ _ up), n))
    | inr ((there, ws', c'), w) ↦
        waited-Bounded ws c there ws' c' up w
          (Every-of Kept (wait_pack ws c) (there, ws', c') (wait_pack-Kept ws c k h) w)
  ]
]
