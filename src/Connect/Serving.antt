-- ===== src/Connect/Serving.antt =====
-- connectServer/connectServer.cpp, Run: the online clients while packets are put into their send buffers
-- and taken out of them.
use mq_cplusplus.Base.{
  ℕ, ◌+◌, ◌-◌, ◌≤◌, ◌≡◌, refl, sym, ap, subst, ◌∙◌, ◌⊎◌, inl, inr, true, some, List, [], ◌∷◌, ◌++◌,
  arith, leb, ◌==◌, length, Bytes, Bool-cases, append-nil, All, leb→le, find,
}
use mq_cplusplus.ShmQueue.Channel.{Channel}
use mq_cplusplus.Connect.Client.{server_buffer_size, put_connect}
use mq_cplusplus.Connect.Pool.{connects-put}
use mq_cplusplus.Connect.Send.{
  Line, Round, set_connect, flush_client, buffer_packet, max_server_package, put_packet,
}
use mq_cplusplus.Connect.Accounts.{
  Serves, IsUp, Accounts, share, share_ne, sent_to, sent_to-ne, sent_to-all, flush_client-lem,
  pending-le-size, sent-Accounts, put-Accounts, at_same,
}

-- A number in a list.
unfoldable pub Among : ℕ → List ℕ → Type 0
Among p [] = ⊥
Among p (q ∷ qs) = (q ≡ p) ⊎ Among p qs

Among-append : (p : ℕ) (qs rs : List ℕ) → Among p qs → Among p (qs ++ rs)
unfolding Among
Among-append p [] rs h = absurd h
Among-append p (q ∷ qs) rs (inl e) = inl e
Among-append p (q ∷ qs) rs (inr h) = inr (Among-append p qs rs h)

Among-last : (p : ℕ) (qs : List ℕ) → Among p (qs ++ p ∷ [])
unfolding Among
Among-last p [] = inl refl
Among-last p (q ∷ qs) = inr (Among-last p qs)

All-last : (P : ℕ → Type 0) (qs : List ℕ) (q : ℕ) → All P qs → P q → All P (qs ++ q ∷ [])
All-last P [] q h x = (x, tt)
All-last P (p ∷ qs) q (y, h) x = (y, All-last P qs q h x)

-- The connection of a client that is online.
abbrev pub Online : List (ℕ × ℕ) → ℕ → Type 0
Online online p = (index : ℕ) × (find ◌==◌ index online ≡ some p)

-- `totals` is what was for each online client so far: what it has not been sent waits in its send
-- buffer, and then it is one of `ps`.
pub record Serving {S : Type 0} (online : List (ℕ × ℕ)) (r : Round S) (ps : List ℕ)
    (totals : ℕ → Bytes) : Type 0 where
  pub same : r.server.manager.online ≡ online
  pub listed : All (Online online) ps
  pub accounts : (p : ℕ) → Online online p → Accounts r p (totals p)
  pub noted : (p : ℕ) → Online online p → Among p ps ⊎ (sent_to p r.out ≡ totals p)

module _ {S : Type 0} (online : List (ℕ × ℕ)) (q : ℕ) (r : Round S) where
  pub put_packet-Serving :
      (packet : Bytes) (totals : ℕ → Bytes)
      → Online online q
      → (r.server.manager.connects q).send_tail + length packet ≤ server_buffer_size
      → Serving online r r.clients totals
      → Serving online
          (put_packet q packet r)
          (put_packet q packet r).clients
          (λ p. totals p ++ share p q packet)
  unfolding put_packet set_connect put_connect
  put_packet-Serving packet totals o room s = record {
    same = s.same;
    listed = All-last (Online online) r.clients q s.listed o;
    accounts = λ p i. put-Accounts r q packet room p (totals p) (s.accounts p i);
    noted = λ p i. elim (Bool-cases (q == p)) [
      | inl same ↦
          at_same
            (λ z. Among z (r.clients ++ q ∷ []) ⊎ (sent_to z r.out ≡ totals z ++ share z q packet))
            p q same (inl (Among-last q r.clients))
      | inr ne ↦ elim (s.noted p i) [
        | inl h ↦ inl (Among-append p r.clients (q ∷ []) h)
        | inr e ↦
            inr (
              e ∙ sym (append-nil (totals p)) ∙ ap (◌++◌ (totals p)) (sym (share_ne p q packet ne)))
      ]
    ];
  }

module _ {S : Type 0} (channel : Channel S) (online : List (ℕ × ℕ)) (q : ℕ) (r : Round S) where
  -- What waits for `q` is sent.
  pub flush_client-Serving :
      (line : Line) (ps : List ℕ) (totals : ℕ → Bytes)
      → IsUp line
      → Online online q
      → Serving online r ps totals
      → (r' : Round S) × (flush_client channel line q r ≡ some (true, r'))
        × Serving online r' ps totals
        × (sent_to q r'.out ≡ totals q)
        × Serves (r'.server.manager.connects q) []
        × (r'.clients ≡ r.clients)
  unfolding set_connect put_connect
  flush_client-Serving line ps totals up o s =
      let (pending, v, e) = s.accounts q o in
      let (c, sends, empty) = flush_client-lem channel line q pending r up v in
      let all = sent_to-all r q pending (totals q) v (s.accounts q o) in
      (
        set_connect q c (record r { out = r.out ++ (q, pending) ∷ [] }),
        sends,
        record {
          same = s.same;
          listed = s.listed;
          accounts = λ p i. sent-Accounts r q c pending v empty p (totals p) (s.accounts p i);
          noted = λ p i. elim (Bool-cases (q == p)) [
            | inl same ↦
                at_same (λ z. Among z ps ⊎ (sent_to z (r.out ++ (q, pending) ∷ []) ≡ totals z)) p q
                  same (inr all)
            | inr ne ↦ elim (s.noted p i) [
              | inl h ↦ inl h
              | inr e ↦ inr (sent_to-ne r q pending p ne ∙ e)
            ]
          ];
        },
        all,
        subst (λ z. Serves z []) (sym (connects-put q c r.server.manager)) empty,
        refl,
      )

  pub buffer_packet-Serving :
      (line : Line) (packet : Bytes) (totals : ℕ → Bytes)
      → IsUp line
      → length packet ≤ max_server_package
      → Online online q
      → Serving online r r.clients totals
      → (r' : Round S) × (buffer_packet channel line q packet r ≡ some r')
        × Serving online r' r'.clients (λ p. totals p ++ share p q packet)
  unfolding buffer_packet
  buffer_packet-Serving line packet totals up fits o s =
      elim (Bool-cases
        (leb (length packet) (server_buffer_size - (r.server.manager.connects q).send_tail))) [
          | inl room ↦
              let (pending, v, e) = s.accounts q o in
              (
                put_packet q packet r,
                rw room refl,
                put_packet-Serving online q r packet totals o
                    (omega (arith, v.behind_it, pending-le-size _ pending v, leb→le _ _ room)) s,
              )
          | inr full ↦
              let (r', sends, s', all, empty, same) =
                flush_client-Serving line r.clients totals up o s in
              (
                put_packet q packet r',
                rw (full, sends) refl,
                put_packet-Serving online q r' packet totals o
                    (omega (arith, empty.behind_it, fits))
                    (subst (λ z. Serving online r' z totals) (sym same) s'),
              )
        ]
