-- ===== src/Logic/Consumers.antt =====
-- logicServer/logicServer.cpp, MessageQueue: the consumers that have subscribed, and whose turn it is.
use mq_cplusplus.Base.{
  ℕ, ◌≡◌, ◌≢◌, refl, ap, ◌∙◌, ◌⊎◌, inl, inr, true, false, ◌||◌, List, [], ◌∷◌, ◌++◌, arith, ◌==◌,
  if◌then◌else◌, Bool-cases, ℕ_discrete,
}
use mq_cplusplus.Logic.Queue.{
  MessageQueue, has, add_subscribe, erase_consumer, cancel_subscribe, is_empty_list,
}

-- No consumer stands twice.
abbrev pub IsDistinct : List ℕ → Type 0
IsDistinct [] = Unit
IsDistinct (x ∷ xs) = (has x xs ≡ false) × IsDistinct xs

has-append_one : (c x : ℕ) (xs : List ℕ) → has c (xs ++ x ∷ []) ≡ has c xs || (x == c)
unfolding has
has-append_one c x [] = ground arith
has-append_one c x (y ∷ xs) = ground (arith, has-append_one c x xs)

append_one-IsDistinct :
    (c : ℕ) (xs : List ℕ) → has c xs ≡ false → IsDistinct xs → IsDistinct (xs ++ c ∷ [])
unfolding has
append_one-IsDistinct c [] h d = (refl, tt)
append_one-IsDistinct c (x ∷ xs) h (new, d) = (
  has-append_one x c xs ∙ ground (arith, h, new),
  append_one-IsDistinct c xs (ground (arith, h)) d,
)

-- Erasing a consumer that stands once at most leaves the others, in their order.
erase_consumer-has :
    (c k : ℕ) (xs : List ℕ)
    → IsDistinct xs
    → has k (erase_consumer c xs) ≡ (if k == c then false else has k xs)
unfolding has erase_consumer
erase_consumer-has c k [] d = ground arith
erase_consumer-has c k (x ∷ []) d = ground arith
erase_consumer-has c k (x ∷ y ∷ ys) (new, d) =
    ground (arith, new, erase_consumer-has c k ys d.1, erase_consumer-has c k (y ∷ ys) d)

erase_consumer-IsDistinct : (c : ℕ) (xs : List ℕ) → IsDistinct xs → IsDistinct (erase_consumer c xs)
unfolding has erase_consumer
erase_consumer-IsDistinct c [] d = tt
erase_consumer-IsDistinct c (x ∷ []) d = elim (Bool-cases (x == c)) [
  | inl e ↦ rw e tt
  | inr e ↦ rw e (refl, tt)
]
erase_consumer-IsDistinct c (x ∷ y ∷ ys) (new, d) = elim (Bool-cases (x == c)) [
  | inl e ↦
      rw e (erase_consumer-has c y ys d.1 ∙ ground (arith, d.0), erase_consumer-IsDistinct c ys d.1)
  | inr e ↦ rw e (
    erase_consumer-has c x (y ∷ ys) d ∙ ground (arith, new),
    erase_consumer-IsDistinct c (y ∷ ys) d,
  )
]

add-has :
    (c k : ℕ) (xs : List ℕ) → has k (if has c xs then xs else xs ++ c ∷ []) ≡ (k == c) || has k xs
add-has c k xs = elim (Bool-cases (has c xs)) [
  | inl e ↦ rw e (member e)
  | inr e ↦ rw (e, has-append_one k c xs) (ground arith)
]
  where
    member : has c xs ≡ true → has k xs ≡ (k == c) || has k xs
    member e = elim (ℕ_discrete k c) [
      | yes p ↦ ground (arith, ap (λ z. has z xs) p ∙ e, p)
      | no n ↦ ground (arith, n)
    ]

-- Subscribing keeps the consumers distinct, and afterwards the consumers are the ones before and
-- the client, with the level that the client asked for.
pub add_subscribe-has :
    (client level : ℕ) (q : MessageQueue)
    → IsDistinct q.consumers
    → IsDistinct (add_subscribe client level q).consumers
      × ((k : ℕ)
          → has k (add_subscribe client level q).consumers ≡ (k == client) || has k q.consumers)
      × ((add_subscribe client level q).confirm_level ≡ level)
unfolding add_subscribe
add_subscribe-has client level q d = (
  elim (Bool-cases (has client q.consumers)) [
    | inl e ↦ rw e d
    | inr e ↦ rw e (append_one-IsDistinct client q.consumers e d)
  ],
  λ k. add-has client k q.consumers,
  refl,
)

-- Cancelling keeps them distinct, and afterwards the consumers are the ones before without the
-- client; the level is 0 if none is left, and as before if one is.
pub cancel_subscribe-has :
    (client : ℕ) (q : MessageQueue)
    → IsDistinct q.consumers
    → IsDistinct (cancel_subscribe client q).consumers
      × ((k : ℕ)
          → has k (cancel_subscribe client q).consumers
            ≡ (if k == client then false else has k q.consumers))
      × (((cancel_subscribe client q).consumers ≡ [])
            × ((cancel_subscribe client q).confirm_level ≡ 0)
          ⊎ ((cancel_subscribe client q).consumers ≢ [])
            × ((cancel_subscribe client q).confirm_level ≡ q.confirm_level))
unfolding cancel_subscribe is_empty_list
cancel_subscribe-has client q d = (
  erase_consumer-IsDistinct client q.consumers d,
  λ k. erase_consumer-has client k q.consumers d,
  level (erase_consumer client q.consumers),
)
  where
    level :
        (xs : List ℕ)
        → ((xs ≡ []) × ((if is_empty_list xs then 0 else q.confirm_level) ≡ 0))
          ⊎ ((xs ≢ []) × ((if is_empty_list xs then 0 else q.confirm_level) ≡ q.confirm_level))
    level [] = inl (refl, refl)
    level (x ∷ xs) = inr (λ e. cc, refl)
