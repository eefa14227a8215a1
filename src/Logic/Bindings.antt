-- ===== src/Logic/Bindings.antt =====
-- logicServer/logicServer.cpp, Exchange::CreateBinding and DeleteBindingQueue: what binding and
-- deleting change of where the keys lead.
use mq_cplusplus.Base.{
  ℕ, ◌≡◌, ◌≢◌, refl, sym, ◌∙◌, ◌⊎◌, inl, inr, false, none, some, List, [], ◌∷◌, Bytes, subst,
  name_eq_sym, Bool-cases, Option-cases, name_eq, name_eq_iff, find, insert, find-insert_ne,
}
use mq_cplusplus.Logic.Queue.{is_empty_list}
use mq_cplusplus.Logic.Exchange.{
  Exchange, Bindings, create_binding, without, delete_queue_from, delete_binding_queue,
}
use mq_cplusplus.Logic.Picked.{IsKeyed, IsSingle}
use mq_cplusplus.Logic.Keys.{
  create-free, create-taken, find_skip, find_here, delete_queue_from-new, delete_queue_from-Deleted,
}

-- DeleteBindingQueue, where every key leads to one queue: a key that led to the queue is gone, and
-- every other key leads where it led.
pub delete_binding_queue-find :
    (queue : ℕ) (key : Bytes) (e : Exchange)
    → IsKeyed e.bindings
    → IsSingle e.bindings
    → ((find name_eq key e.bindings ≡ some (queue ∷ []))
        × (find name_eq key (delete_binding_queue queue e).bindings ≡ none))
      ⊎ ((find name_eq key e.bindings ≢ some (queue ∷ []))
          × (find name_eq key (delete_binding_queue queue e).bindings
              ≡ find name_eq key e.bindings))
unfolding delete_binding_queue
delete_binding_queue-find queue key e keyed single =
    delete_queue_from-Deleted queue key e.bindings keyed single

insert-new :
    (key other : Bytes) (qs : List ℕ) (bs : Bindings)
    → name_eq key other ≡ false
    → find name_eq other bs ≡ none
    → find name_eq other (insert name_eq key qs bs) ≡ none
insert-new key other qs bs h n = find-insert_ne name_eq name_eq_iff key other qs bs h ∙ n

insert-kept :
    (key : Bytes) (queue : ℕ) (bs : Bindings)
    → find name_eq key bs ≡ none
    → IsKeyed bs
    → IsSingle bs
    → IsKeyed (insert name_eq key (queue ∷ []) bs) × IsSingle (insert name_eq key (queue ∷ []) bs)
unfolding insert find
insert-kept key queue [] n keyed single = ((refl, tt), ((queue, refl), tt))
insert-kept key queue ((k, qs) ∷ bs) n (new, keyed) (one, single) =
    elim (Bool-cases (name_eq k key)) [
      | inl e ↦ absurd (cc (sym (find_here k key qs bs e) ∙ n))
      | inr e ↦
          let (keyed', single') =
            insert-kept key queue bs (sym (find_skip k key qs bs e) ∙ n) keyed single in
          rw e
            ((insert-new key k (queue ∷ []) bs (name_eq_sym key k ∙ e) new, keyed'), (one, single'))
    ]

delete-kept :
    (queue : ℕ) (bs : Bindings)
    → IsKeyed bs
    → IsSingle bs
    → IsKeyed (delete_queue_from queue bs) × IsSingle (delete_queue_from queue bs)
unfolding delete_queue_from
delete-kept queue [] keyed single = (tt, tt)
delete-kept queue ((k, qs) ∷ bs) (new, keyed) (one, single) =
    let (keyed', single') = delete-kept queue bs keyed single in
    elim (Bool-cases (is_empty_list (without queue qs))) [
      | inl e ↦ rw e (keyed', single')
      | inr e ↦ rw e ((delete_queue_from-new queue k bs new, keyed'), (one, single'))
    ]

-- Binding and deleting keep what holds of a new exchange: no key stands twice, and a key leads to
-- one queue.
pub bindings_kept :
    (key : Bytes) (queue : ℕ) (e : Exchange)
    → IsKeyed e.bindings
    → IsSingle e.bindings
    → (IsKeyed (create_binding key queue e).bindings
        × IsSingle (create_binding key queue e).bindings)
      × (IsKeyed (delete_binding_queue queue e).bindings
          × IsSingle (delete_binding_queue queue e).bindings)
unfolding delete_binding_queue
bindings_kept key queue e keyed single = (
  elim (Option-cases (find name_eq key e.bindings)) [
    | inl n ↦
        subst (λ x. IsKeyed x.bindings × IsSingle x.bindings) (sym (create-free key queue e n))
          (insert-kept key queue e.bindings n keyed single)
    | inr (queues, f) ↦
        subst (λ x. IsKeyed x.bindings × IsSingle x.bindings)
          (sym (create-taken key queue e queues f)) (keyed, single)
  ],
  delete-kept queue e.bindings keyed single,
)
