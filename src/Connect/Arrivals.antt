-- ===== src/Connect/Arrivals.antt =====
-- connectServer/connectServer.cpp, ProcessEpollData, on the bytes that one recv hands out: what of the
-- packets goes to the logic server, and what waits.
use mq_cplusplus.Base.{
  ℕ, ◌+◌, ◌-◌, ◌≤◌, ◌<◌, ◌≡◌, refl, sym, ap, ap₂, ◌∙◌, List, [], ◌∷◌, ◌++◌, arith, length, take,
  drop, put_at, All, concat, Bytes, append_assoc, length-append, put_at-append_add, length-put_at,
  All-split, subst, take-append-drop, append-injective, dec_lt, length-take,
}
use mq_cplusplus.ShmQueue.Channel.{Channel}
use mq_cplusplus.Connect.Client.{recv_area, ClientConnect, put_connect, server_buffer_size}
use mq_cplusplus.Connect.Receive.{Receiving, cut_packets}
use mq_cplusplus.Connect.Pool.{connects-put}
use mq_cplusplus.Connect.Packets.{IsPacket, Begins}
use mq_cplusplus.Connect.Cutting.{Holding, forward_all, forward_all-append, cut_packets-lem}
use mq_cplusplus.Connect.Events.{ConnectServer, received_into, cut_connect, take_bytes}

no_bytes : (x y : Bytes) → x ++ y ≡ [] → x ≡ []
no_bytes [] y e = refl
no_bytes (b ∷ x) y e = absurd (omega (arith, ap length e))

-- The first part of a sequence of packets: whole packets, and the beginning of the next.
split_stream :
    (ps : List Bytes) (x y : Bytes)
    → x ++ y ≡ concat ps
    → (qs : List Bytes) × (rs : List Bytes) × (q : Bytes) × (ps ≡ qs ++ rs)
      × (x ≡ concat qs ++ q)
      × (q ++ y ≡ concat rs)
      × Begins rs q
split_stream [] x y e = ([], [], x, refl, refl, e, no_bytes x y e)
split_stream (p ∷ ps) x y e = elim (dec_lt (length x) (length p)) [
  | yes few ↦ ([], p ∷ ps, x, refl, refl, e, few)
  | no enough ↦
      let (front, back) =
        append-injective (take (length p) x) (drop (length p) x ++ y) p (concat ps)
          (omega (arith, length-take (length p) x))
          (sym (append_assoc (take (length p) x) (drop (length p) x) y)
            ∙ ap (λ z. z ++ y) (take-append-drop (length p) x)
            ∙ e) in
      let (qs, rs, q, whole, left, rest, b) = split_stream ps (drop (length p) x) y back in
      (
        p ∷ qs,
        rs,
        q,
        ap (◌∷◌ p) whole,
        sym (take-append-drop (length p) x)
            ∙ ap₂ ◌++◌ front left
            ∙ sym (append_assoc p (concat qs) q),
        rest,
        b,
      )
]

-- A connection of a client whose bytes `q` wait at the front of its receive buffer.
pub record Waits (c : ClientConnect) (q : Bytes) : Type 0 where
  pub own : c.recv_tail.area ≡ recv_area
  pub at_front : c.recv_head.offset ≡ 0
  pub behind_it : c.recv_tail.offset ≡ length q
  pub held : (behind : Bytes) × (c.recv_buff ≡ q ++ behind)
  pub size : length c.recv_buff ≡ server_buffer_size

received_into-Holding :
    (c : ClientConnect) (q x : Bytes)
    → Waits c q
    → length x + length q ≤ server_buffer_size
    → (behind : Bytes) × Holding (received_into c x) [] (q ++ x) behind
      × (length (received_into c x).buff ≡ server_buffer_size)
unfolding received_into
received_into-Holding c q x w room =
    let (behind, held) = w.held in
    (
      drop (0 + length x) behind,
      record {
        buff =
            ap₂ (λ i b. put_at i x b) w.behind_it held
            ∙ put_at-append_add q behind x 0 (length q) (omega arith)
            ∙ sym (append_assoc q x (drop (0 + length x) behind));
        head = w.at_front;
        tail = omega (arith, w.behind_it, length-append q x);
      },
      length-put_at x c.recv_buff c.recv_tail.offset (omega (arith, w.size, w.behind_it)) ∙ w.size,
    )

module _ {S : Type 0} (channel : Channel S) where
  -- What arrived of a stream of packets: `qs` are with the logic server, and the rest is to come.
  pub record Arrived (ps : List Bytes) (s s' : ConnectServer S) (p : ℕ) (rest : Bytes)
      : Type 0 where
    pub passed : List Bytes
    pub to_come : List Bytes
    pub waiting : Bytes
    pub whole : ps ≡ passed ++ to_come
    pub sent : s'.to_logic ≡ forward_all channel (s.manager.connects p).index passed s.to_logic
    pub waits : Waits (s'.manager.connects p) waiting
    pub rest_of : waiting ++ rest ≡ concat to_come
    pub begins : Begins to_come waiting
    pub same_index : (s'.manager.connects p).index ≡ (s.manager.connects p).index
    pub same_fd : (s'.manager.connects p).sockfd ≡ (s.manager.connects p).sockfd
    pub same_listen : s'.listen_fd ≡ s.listen_fd

  pub take_bytes-Arrived :
      (ps : List Bytes) (s : ConnectServer S) (p now : ℕ) (q x y : Bytes)
      → All IsPacket ps
      → Waits (s.manager.connects p) q
      → (q ++ x) ++ y ≡ concat ps
      → 0 < length x
      → length x + length q ≤ server_buffer_size
      → Arrived ps s (take_bytes channel p x now s) p y
  unfolding take_bytes cut_connect
  take_bytes-Arrived ps s p now q x y k w e pos room =
      let (behind, h, size) = received_into-Holding c q x w room in
      let (qs, rs, q', whole, left, rest, b) = split_stream ps (q ++ x) y e in
      let (kq, kr) = All-split IsPacket qs rs (subst (All IsPacket) whole k) in
      let (behind', path, size') =
        cut_packets-lem channel c.index qs rs q' y [] behind r len len s.to_logic
          (subst (λ z. Holding r [] z behind) left h) kq kr rest b
          (omega (arith, h.head, h.tail, ap length left))
          (omega (arith, h.head, h.tail, length-append q x)) (omega arith) in
      record {
        passed = qs;
        to_come = rs;
        waiting = q';
        whole = whole;
        sent = ap (λ t. t.2) path;
        waits =
            subst (λ z. Waits z q') (sym self)
              (record {
                own = refl;
                at_front = ap (λ t. t.0.head) path;
                behind_it = ap (λ t. t.0.tail) path;
                held = (behind', ap (λ t. t.0.buff) path);
                size = ap (λ t. length t.0.buff) path ∙ size' ∙ size;
              });
        rest_of = rest;
        begins = b;
        same_index = ap (λ z. z.index) self;
        same_fd = ap (λ z. z.sockfd) self;
        same_listen = refl;
      }
    where
      c : ClientConnect
      c = s.manager.connects p

      r : Receiving
      r = received_into c x

      len : ℕ
      len = r.tail - r.head

      cut : ClientConnect
      cut = cut_connect now (cut_packets channel c.index len len r s.to_logic).0 c

      self : (put_connect p cut s.manager).connects p ≡ cut
      self = connects-put p cut s.manager

  pub Arrived-start :
      (ps : List Bytes) (p : ℕ) (q stream : Bytes) (s : ConnectServer S)
      → Waits (s.manager.connects p) q
      → Begins ps q
      → q ++ stream ≡ concat ps
      → Arrived ps s s p stream
  unfolding forward_all
  Arrived-start ps p q stream s w b e = record {
    passed = [];
    to_come = ps;
    waiting = q;
    whole = refl;
    sent = refl;
    waits = w;
    rest_of = e;
    begins = b;
    same_index = refl;
    same_fd = refl;
    same_listen = refl;
  }

  -- What arrives after what has arrived.
  pub Arrived-append :
      {ps : List Bytes} {s s₁ s' : ConnectServer S} {p : ℕ} {y rest : Bytes}
      (a : Arrived ps s s₁ p y)
      → Arrived a.to_come s₁ s' p rest
      → Arrived ps s s' p rest
  Arrived-append {ps} {s} {s₁} {s'} {p} {y} {rest} a b = record {
    passed = a.passed ++ b.passed;
    to_come = b.to_come;
    waiting = b.waiting;
    whole = a.whole ∙ ap (◌++◌ a.passed) b.whole ∙ sym (append_assoc a.passed b.passed b.to_come);
    sent =
        b.sent
        ∙ ap₂ (λ i t. forward_all channel i b.passed t) a.same_index a.sent
        ∙ sym
            (forward_all-append channel (s.manager.connects p).index a.passed b.passed s.to_logic);
    waits = b.waits;
    rest_of = b.rest_of;
    begins = b.begins;
    same_index = b.same_index ∙ a.same_index;
    same_fd = b.same_fd ∙ a.same_fd;
    same_listen = b.same_listen ∙ a.same_listen;
  }
