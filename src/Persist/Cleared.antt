-- ===== src/Persist/Cleared.antt =====
-- PersistenceServer/PersistenceServer.cpp, ClearUpFile: where its iterator comes to stand.
use mq_cplusplus.Base.{
  ℕ, ◌≡◌, ◌≢◌, refl, ap, ◌∙◌, Bool, Option, none, some, List, [], ◌∷◌, Bytes, ◌>>=◌,
}
use mq_cplusplus.Persist.Server.{PersistenceServer}
use mq_cplusplus.Persist.Merge.{clear_pair, clear_groups, clear_queues, clear_up_file}

-- An even number of groups, none with an empty name.
unfoldable pub IsEven : List Bytes → Type 0
IsEven [] = Unit
IsEven (x ∷ []) = ⊥
IsEven (x ∷ y ∷ groups) = (x ≢ []) × (y ≢ []) × IsEven groups

bind-none :
    {A B : Type 0} (o : Option A) (f : A → Option B)
    → ((a : A) → f a ≡ none)
    → (do a ← o; f a) ≡ none
bind-none none f h = refl
bind-none (some a) f h = h a

clear_groups-even :
    (opens : Bytes → Bool) (name : Bytes) (prev x : Bytes) (groups : List Bytes)
    (s : ℕ × PersistenceServer)
    → prev ≢ []
    → IsEven groups
    → clear_groups opens name prev (x ∷ groups) s ≡ none
unfolding clear_groups IsEven
clear_groups-even opens name [] x groups s ne h = absurd (ne refl)
clear_groups-even opens name (a ∷ prev) x [] s ne h = refl
clear_groups-even opens name (a ∷ prev) x (y ∷ []) s ne h = absurd h
clear_groups-even opens name (a ∷ prev) x (y ∷ z ∷ groups) s ne (y_ne, z_ne, h) =
    bind-none (clear_pair opens name (a ∷ prev) x s) (clear_groups opens name y (z ∷ groups))
      (λ s'. clear_groups-even opens name y z groups s' y_ne h)

-- If the first queue of the map has an even number of groups, at least two, and none with an empty name,
-- then ClearUpFile reads the element behind the last one, whatever was consumed.
pub clear_up_file-faults :
    (opens : Bytes → Bool) (name first second : Bytes) (groups : List Bytes)
    (queues : List (Bytes × List Bytes)) (s : PersistenceServer)
    → s.queue_list ≡ (name, first ∷ second ∷ groups) ∷ queues
    → IsEven (first ∷ second ∷ groups)
    → clear_up_file opens s ≡ none
unfolding clear_up_file clear_queues clear_groups IsEven
clear_up_file-faults opens name first second groups queues s here (first_ne, second_ne, even) =
    ap (λ queues. clear_queues opens queues (0, s)) here
    ∙ ap (λ o. do s' ← o; clear_queues opens queues s')
        (clear_groups-even opens name first second groups (0, s) first_ne even)
