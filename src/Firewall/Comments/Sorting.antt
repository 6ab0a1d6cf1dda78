-- ===== src/Firewall/Comments/Sorting.antt =====
-- The order of the deletions: a list that ascends is turned round.
use go_resolver.Base.{ℕ, ◌<◌, ◌≡◌, refl, arith, List, [], ◌∷◌, ◌++◌, All, if_ind, ltb}
use go_resolver.Firewall.Comments.{insert_down, sort_down}

insert_down_least : (n : ℕ) (ms : List ℕ) → All (λ m. n < m) ms → insert_down n ms ≡ ms ++ n ∷ []
unfolding insert_down
insert_down_least n [] h = refl
insert_down_least n (m ∷ ms) (less, h) = ground (arith, insert_down_least n ms h)

All-insert_down :
    (n m : ℕ) (ms : List ℕ) → n < m → All (λ k. n < k) ms → All (λ k. n < k) (insert_down m ms)
unfolding insert_down
All-insert_down n m [] h k = (h, tt)
All-insert_down n m (x ∷ ms) h (d, k) =
    if_ind (All (λ k. n < k)) (ltb x m) _ _ (λ _. (h, (d, k)))
      (λ _. (d, All-insert_down n m ms h k))

All-sort_down : (n : ℕ) (ms : List ℕ) → All (λ m. n < m) ms → All (λ m. n < m) (sort_down ms)
unfolding sort_down
All-sort_down n [] h = tt
All-sort_down n (m ∷ ms) (less, h) = All-insert_down n m (sort_down ms) less (All-sort_down n ms h)

-- The least of the numbers is the last one.
pub sort_down-least :
    (n : ℕ) (ms : List ℕ) → All (λ m. n < m) ms → sort_down (n ∷ ms) ≡ sort_down ms ++ n ∷ []
unfolding sort_down
sort_down-least n ms h = insert_down_least n (sort_down ms) (All-sort_down n ms h)
