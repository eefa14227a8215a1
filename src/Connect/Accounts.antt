-- ===== src/Connect/Accounts.antt =====
-- connectServer/connectServer.cpp, Run: what a connection was sent and what waits for it, when its send
-- buffer is filled and when it is emptied.
use mq_cplusplus.Base.{
  ℕ, ◌+◌, ◌-◌, ◌≤◌, ◌≡◌, refl, sym, ap, ap₂, subst, ◌∙◌, inl, inr, true, false, some, List, [], ◌∷◌,
  ◌++◌, arith, ◌==◌, ==_iff, if◌then◌else◌, length, take, drop, span, put_at, Bytes, Bool-cases,
  append_assoc, append-nil, length-append, take-append, put_at-append_add, length-put_at,
}
use mq_cplusplus.ShmQueue.Channel.{Channel}
use mq_cplusplus.Socket.{sendn}
use mq_cplusplus.Connect.Client.{ClientConnect, Manager, server_buffer_size, put_connect}
use mq_cplusplus.Connect.Pool.{connects-put}
use mq_cplusplus.Connect.Send.{
  Line, wait_writable, send_data_to_client, to_send, buffered, put_packet, Round, set_connect,
  flush_client,
}

-- A connection whose send buffer holds `pending`.
pub record Serves (c : ClientConnect) (pending : Bytes) : Type 0 where
  pub connected : (c.sockfd == 0) ≡ false
  pub at_front : c.send_head ≡ 0
  pub behind_it : c.send_tail ≡ length pending
  pub held : (behind : Bytes) × (c.send_buff ≡ pending ++ behind)
  pub size : length c.send_buff ≡ server_buffer_size

-- The socket becomes writable, and send takes what it is given.
pub record IsUp (line : Line) : Type 0 where
  pub ready : wait_writable line.polls ≡ some true
  pub sends : (bs : Bytes) → length bs ≤ server_buffer_size → sendn line.sends bs ≡ some (true, bs)

pub to_send-pending : (c : ClientConnect) (pending : Bytes) → Serves c pending → to_send c ≡ pending
unfolding to_send
to_send-pending c pending v =
    let (behind, held) = v.held in
    ap₂ (λ i n. span i (n - i) c.send_buff) v.at_front v.behind_it
    ∙ ap (take (length pending - 0)) held
    ∙ take-append pending behind (length pending - 0) (omega arith)

pub pending-le-size :
    (c : ClientConnect) (pending : Bytes) → Serves c pending → length pending ≤ server_buffer_size
pending-le-size c pending v =
    let (behind, held) = v.held in
    omega (arith, v.size, ap length held, length-append pending behind)

-- A packet goes behind what waits.
buffered-Serves :
    (c : ClientConnect) (pending packet : Bytes)
    → Serves c pending
    → length pending + length packet ≤ server_buffer_size
    → Serves (buffered packet c) (pending ++ packet)
unfolding buffered
buffered-Serves c pending packet v h =
    let (behind, held) = v.held in
    record {
      connected = v.connected;
      at_front = v.at_front;
      behind_it = omega (arith, v.behind_it, length-append pending packet);
      held = (
        drop (0 + length packet) behind,
        ap₂ (λ i b. put_at i packet b) v.behind_it held
            ∙ put_at-append_add pending behind packet 0 (length pending) (omega arith)
            ∙ sym (append_assoc pending packet (drop (0 + length packet) behind)),
      );
      size =
          length-put_at packet c.send_buff c.send_tail (omega (arith, v.size, v.behind_it))
          ∙ v.size;
    }

-- What went out to a connection.
unfoldable pub sent_to : ℕ → List (ℕ × Bytes) → Bytes
sent_to p [] = []
sent_to p ((q, bytes) ∷ out) = let rest = sent_to p out in if q == p then bytes ++ rest else rest

pub sent_to-append :
    (p : ℕ) (xs ys : List (ℕ × Bytes)) → sent_to p (xs ++ ys) ≡ sent_to p xs ++ sent_to p ys
unfolding sent_to
sent_to-append p [] ys = refl
sent_to-append p ((q, bytes) ∷ xs) ys = elim (Bool-cases (q == p)) [
  | inl e ↦ rw (e, sent_to-append p xs ys, append_assoc bytes) refl
  | inr e ↦ rw (e, sent_to-append p xs ys) refl
]

module _ {S : Type 0} (channel : Channel S) where
  -- What waits for `p` is sent, and nothing else changes.
  pub flush_client-lem :
      (line : Line) (p : ℕ) (pending : Bytes) (r : Round S)
      → IsUp line
      → Serves (r.server.manager.connects p) pending
      → (c : ClientConnect) × (flush_client channel line p r
          ≡ some (true, set_connect p c (record r { out = r.out ++ (p, pending) ∷ [] })))
        × Serves c []
  unfolding flush_client send_data_to_client
  flush_client-lem line p pending r up v = (
    record c { last_recv_time = line.now; send_tail = 0 },
    rw
        (
          flush_client,
          to_send-pending c pending v,
          v.connected,
          up.ready,
          up.sends pending (pending-le-size c pending v),
        )
        refl,
    record {
      connected = v.connected;
      at_front = v.at_front;
      behind_it = refl;
      held = (c.send_buff, refl);
      size = v.size;
    },
  )
    where
      c : ClientConnect
      c = r.server.manager.connects p

-- What a connection was sent, and what waits in its send buffer, is `total`.
abbrev pub Accounts : {S : Type 0} → Round S → ℕ → Bytes → Type 0
Accounts r p total =
    (pending : Bytes) × Serves (r.server.manager.connects p) pending
    × (sent_to p r.out ++ pending ≡ total)

pub connects-put_ne :
    (p q : ℕ) (c : ClientConnect) (m : Manager)
    → (q == p) ≡ false
    → (put_connect q c m).connects p ≡ m.connects p
unfolding put_connect
connects-put_ne p q c m ne = rw ne refl

-- What is for `p` of a packet for `q`.
abbrev pub share : ℕ → ℕ → Bytes → Bytes
share p q packet = if q == p then packet else []

sent_to-one : (p q : ℕ) (bytes : Bytes) → sent_to p ((q, bytes) ∷ []) ≡ share p q bytes
unfolding sent_to
sent_to-one p q bytes = ap (λ b. if q == p then b else []) (append-nil bytes)

pub share_self : (q : ℕ) (bytes : Bytes) → share q q bytes ≡ bytes
share_self q bytes = rw ((==_iff q q).1 refl) refl

pub share_ne : (p q : ℕ) (bytes : Bytes) → (q == p) ≡ false → share p q bytes ≡ []
share_ne p q bytes ne = rw ne refl

-- What holds at `q` holds at a number that is the same.
pub at_same : (P : ℕ → Type 0) (p q : ℕ) → (q == p) ≡ true → P q → P p
at_same P p q same h = subst P ((==_iff q p).0 same) h

module _ {S : Type 0} (r : Round S) (q : ℕ) where
  -- What went out to the others is as before, and all that was for `q` went out.
  pub sent_to-ne :
      (pending : Bytes) (p : ℕ)
      → (q == p) ≡ false
      → sent_to p (r.out ++ (q, pending) ∷ []) ≡ sent_to p r.out
  sent_to-ne pending p ne =
      sent_to-append p r.out ((q, pending) ∷ [])
      ∙ ap (◌++◌ (sent_to p r.out)) (sent_to-one p q pending ∙ share_ne p q pending ne)
      ∙ append-nil (sent_to p r.out)

  pub sent_to-all :
      (pending total : Bytes)
      → Serves (r.server.manager.connects q) pending
      → Accounts r q total
      → sent_to q (r.out ++ (q, pending) ∷ []) ≡ total
  sent_to-all pending total v (waits, w, e) =
      sent_to-append q r.out ((q, pending) ∷ [])
      ∙ ap (◌++◌ (sent_to q r.out)) (
          sent_to-one q q pending
          ∙ share_self q pending
          ∙ sym (to_send-pending (r.server.manager.connects q) pending v)
          ∙ to_send-pending (r.server.manager.connects q) waits w)
      ∙ e

  pub sent-Accounts :
      (c : ClientConnect) (pending : Bytes)
      → Serves (r.server.manager.connects q) pending
      → Serves c []
      → (p : ℕ) (total : Bytes) → Accounts r p total
      → Accounts (set_connect q c (record r { out = r.out ++ (q, pending) ∷ [] })) p total
  unfolding set_connect
  sent-Accounts c pending v empty p total h = elim (Bool-cases (q == p)) [
    | inr ne ↦
        let (waits, w, e) = h in
        (
          waits,
          subst (λ z. Serves z waits) (sym (connects-put_ne p q c r.server.manager ne)) w,
          ap (λ z. z ++ waits) (sent_to-ne pending p ne) ∙ e,
        )
    | inl same ↦ at_same (λ z. Accounts r z total → Accounts after z total) p q same own h
  ]
    where
      after : Round S
      after = set_connect q c (record r { out = r.out ++ (q, pending) ∷ [] })

      own : Accounts r q total → Accounts after q total
      own h = (
        [],
        subst (λ z. Serves z []) (sym (connects-put q c r.server.manager)) empty,
        append-nil (sent_to q (r.out ++ (q, pending) ∷ [])) ∙ sent_to-all pending total v h,
      )

  -- A packet is put behind what waits.
  pub put-Accounts :
      (packet : Bytes)
      → (r.server.manager.connects q).send_tail + length packet ≤ server_buffer_size
      → (p : ℕ) (total : Bytes) → Accounts r p total
      → Accounts (put_packet q packet r) p (total ++ share p q packet)
  unfolding put_packet set_connect
  put-Accounts packet room p total h = elim (Bool-cases (q == p)) [
    | inr ne ↦
        let (waits, w, e) = h in
        (
          waits,
          subst (λ z. Serves z waits) (sym (connects-put_ne p q _ r.server.manager ne)) w,
          e ∙ sym (append-nil total) ∙ ap (◌++◌ total) (sym (share_ne p q packet ne)),
        )
    | inl same ↦
        at_same
          (λ z. Accounts r z total → Accounts (put_packet q packet r) z (total ++ share z q packet))
          p q same own h
  ]
    where
      own : Accounts r q total → Accounts (put_packet q packet r) q (total ++ share q q packet)
      own (waits, w, e) = (
        waits ++ packet,
        subst (λ z. Serves z (waits ++ packet)) (sym (connects-put q _ r.server.manager))
            (buffered-Serves (r.server.manager.connects q) waits packet w
              (omega (arith, room, w.behind_it))),
        sym (append_assoc (sent_to q r.out) waits packet) ∙ ap₂ ◌++◌ e (sym (share_self q packet)),
      )
