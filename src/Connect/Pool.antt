-- ===== src/Connect/Pool.antt =====
-- connectServer/clientConnect.cpp: the connections that are handed out, those that are free, and the
-- map of the clients that are online.
use mq_cplusplus.Base.{
  ℕ, zero, suc, ◌+◌, ◌≤◌, ◌<◌, ◌≡◌, refl, sym, ap, ◌∙◌, inl, inr, true, false, ◌&&◌, none, some,
  List, [], ◌∷◌, ◌++◌, arith, leb, ◌==◌, ==_iff, if◌then◌else◌, Bool-cases, find, insert, erase,
  find-insert_self, find-insert_ne, find-erase_self, find-erase_ne, le→leb,
}
use mq_cplusplus.Connect.Client.{
  ClientConnect, Manager, client_epoll_count, new_connect, new_manager, numbers, put_connect,
  is_addr_valid, get_one_free_connect, left_connect, client_exit, add_online_client,
}

some-injective : {a b : ℕ} → some a ≡ some b → a ≡ b
some-injective e = cc

none-some : {a : ℕ} → none ≡ some a → ⊥
none-some e = cc

-- How often a connection stands in the list of the free ones.
unfoldable pub occurs : ℕ → List ℕ → ℕ
occurs p [] = 0
occurs p (x ∷ xs) = let rest = occurs p xs in if x == p then rest + 1 else rest

-- The free list has each connection once that is not used, and no other; the map has the connections
-- of the clients under their index, and each is used.
pub record IsPool (m : Manager) : Type 0 where
  pub indexed : (p : ℕ) → (m.connects p).index ≡ p
  pub listed :
      (p : ℕ) → p < client_epoll_count → occurs p m.free ≡ (if (m.connects p).used then 0 else 1)
  pub inside :
      (p : ℕ) → client_epoll_count ≤ p → (occurs p m.free ≡ 0) × ((m.connects p).used ≡ false)
  pub online_used :
      (k p : ℕ)
      → find ◌==◌ k m.online ≡ some p
      → (p ≡ k) × ((m.connects p).used ≡ true) × ((m.connects p).in_map ≡ true)

occurs-numbers :
    (i n p : ℕ) → occurs p (numbers i n) ≡ (if leb i p && leb (p + 1) (i + n) then 1 else 0)
unfolding occurs numbers
occurs-numbers i zero p = ground arith
occurs-numbers i (suc n) p = ground (arith, occurs-numbers (i + 1) n p)

occurs-append : (p : ℕ) (xs ys : List ℕ) → occurs p (xs ++ ys) ≡ occurs p xs + occurs p ys
unfolding occurs
occurs-append p [] ys = omega arith
occurs-append p (x ∷ xs) ys = ground (arith, occurs-append p xs ys)

-- The pool as the constructor leaves it.
pub new_manager-IsPool : IsPool new_manager
unfolding new_manager new_connect find
new_manager-IsPool = record {
  indexed = λ p. refl;
  listed = λ p h. ground (arith, occurs-numbers 0 client_epoll_count p);
  inside = λ p h. (ground (arith, occurs-numbers 0 client_epoll_count p), refl);
  online_used = λ k p e. cc;
}

pub connects-put : (p : ℕ) (c : ClientConnect) (m : Manager) → (put_connect p c m).connects p ≡ c
unfolding put_connect
connects-put p c m = rw ((==_iff p p).1 refl) refl

-- A connection changes, but neither its index nor its use, and it is not taken off the map.
pub put-IsPool :
    (m : Manager) (p : ℕ) (c : ClientConnect)
    → IsPool m
    → c.index ≡ (m.connects p).index
    → c.used ≡ (m.connects p).used
    → ((m.connects p).in_map ≡ true → c.in_map ≡ true)
    → IsPool (put_connect p c m)
unfolding put_connect
put-IsPool m p c v i u j = record {
  indexed = λ o. ground (arith, v.indexed o);
  listed = λ o h. ground (arith, v.listed o h);
  inside = λ o h. ground (arith, v.inside o h);
  online_used = λ k o e. let old = v.online_used k o e in ground (arith, old, mapped old);
}
  where
    mapped :
        {k o : ℕ}
        → (o ≡ k) × ((m.connects o).used ≡ true) × ((m.connects o).in_map ≡ true)
        → (p ≡ o → c.in_map ≡ true)
    mapped old = λ here. j (ap (λ z. (m.connects z).in_map) here ∙ old.2)

-- A free connection is handed out: it was not used, and is now.
pub handed_out-IsPool :
    (m : Manager) (p : ℕ) (rest : List ℕ)
    → IsPool m
    → m.free ≡ p ∷ rest
    → IsPool (put_connect p (record (m.connects p) { used = true }) (record m { free = rest }))
      × (p < client_epoll_count)
unfolding put_connect occurs
handed_out-IsPool m p rest v f = (
  record {
    indexed = λ o. ground (arith, v.indexed o);
    listed = λ o h. ground (arith, v.listed o h, v.listed p lt, counts o, counts p);
    inside = λ o h. ground (arith, v.inside o h, counts o);
    online_used = λ k o e. ground (arith, v.online_used k o e);
  },
  lt,
)
  where
    counts : (o : ℕ) → occurs o m.free ≡ occurs o (p ∷ rest)
    counts o = ap (occurs o) f

    lt : p < client_epoll_count
    lt = ground (arith, v.inside p, counts p)

pub exit-IsPool : (m : Manager) (p : ℕ) → IsPool m → IsPool (client_exit p m)
unfolding client_exit put_connect left_connect occurs
exit-IsPool m p v = elim (Bool-cases (m.connects p).used) [
  | inr unused ↦ rw (client_exit, unused) v
  | inl used ↦
      rw (client_exit, used)
        (record {
          indexed = λ o. ground (arith, v.indexed o);
          listed = λ o h. ground (arith, v.listed o h, occurs-append o m.free (p ∷ []));
          inside = λ o h. ground (arith, v.inside o h, occurs-append o m.free (p ∷ []));
          online_used = λ k o e. elim (Bool-cases ((m.connects p).index == k)) [
            | inl same ↦ absurd (
                none-some (
                  sym (find-erase_self ◌==◌ ==_iff (m.connects p).index m.online)
                  ∙ ap (λ z. find ◌==◌ z (erase ◌==◌ (m.connects p).index m.online))
                      ((==_iff (m.connects p).index k).0 same)
                  ∙ e))
            | inr ne ↦
                let old =
                  v.online_used k o
                    (sym (find-erase_ne ◌==◌ ==_iff (m.connects p).index k m.online ne) ∙ e) in
                ground (arith, ne, old, v.indexed p)
          ];
        })
]

pub online-IsPool :
    (m : Manager) (p : ℕ)
    → IsPool m
    → (m.connects p).used ≡ true
    → (m.connects p).in_map ≡ true
    → IsPool (add_online_client p m)
unfolding add_online_client
online-IsPool m p v u i = record {
  indexed = v.indexed;
  listed = v.listed;
  inside = v.inside;
  online_used = λ k o e. elim (Bool-cases ((m.connects p).index == k)) [
    | inl same ↦
        let key : (m.connects p).index ≡ k = (==_iff (m.connects p).index k).0 same in
        let here : p ≡ o = some-injective (
          sym (find-insert_self ◌==◌ ==_iff (m.connects p).index p m.online)
          ∙ ap (λ z. find ◌==◌ z (insert ◌==◌ (m.connects p).index p m.online)) key
          ∙ e) in
        (
          sym here ∙ sym (v.indexed p) ∙ key,
          ap (λ z. (m.connects z).used) (sym here) ∙ u,
          ap (λ z. (m.connects z).in_map) (sym here) ∙ i,
        )
    | inr ne ↦
        v.online_used k o
          (sym (find-insert_ne ◌==◌ ==_iff (m.connects p).index k p m.online ne) ∙ e)
  ];
}

-- GetOneFreeConnect on an empty list, and on one that has a connection of the array in front.
pub get_one_free_connect-none : (m : Manager) → m.free ≡ [] → get_one_free_connect m ≡ (none, m)
unfolding get_one_free_connect
get_one_free_connect-none m f = ground arith

pub get_one_free_connect-some :
    (m : Manager) (p : ℕ) (rest : List ℕ)
    → m.free ≡ p ∷ rest
    → p < client_epoll_count
    → get_one_free_connect m
      ≡ (some p, put_connect p (record (m.connects p) { used = true }) (record m { free = rest }))
unfolding get_one_free_connect is_addr_valid
get_one_free_connect-some m p rest f h =
    rw (get_one_free_connect, f, le→leb p client_epoll_count (omega arith)) refl
