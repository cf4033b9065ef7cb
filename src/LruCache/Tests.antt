-- ===== src/LruCache/Tests.antt =====
-- Runs of the cache with numbers as keys.
use ob_preliminary.Common.{ℕ, ◌≡◌, refl, true, none, some, List, [], ◌∷◌, ◌==◌, ==_iff, ltb}
use mathlib.Core.List.{reverse}
use ob_preliminary.LruCache.{
  ListNode, foreach, foreach_reverse, foreach_loop, find, lru_push, link_front, set_next, set_prev,
  lru_touch, skip_back, skip_on, set_value, lru_remove, erase, points_at,
}
use ob_preliminary.LruCache.Spec.{visited}
use ob_preliminary.LruCache.Refine.{Holds}
use ob_preliminary.LruCache.Calls.{
  LruOp, get_key, put_key, remove_key, empty, calls, promised, calls_lem,
}
use ob_preliminary.LruCache.Walk.{foreach_lem}

abbrev memory : ℕ → ListNode ℕ ℕ
memory a = record { key = 0; value = 0; prev = none; next = none }

abbrev script : List (LruOp ℕ ℕ)
script =
    put_key 1 10
    ∷ put_key 2 20
    ∷ put_key 3 30
    ∷ get_key 1
    ∷ put_key 2 21
    ∷ remove_key 3
    ∷ get_key 3
    ∷ []

calls_lem_example :
    Holds (calls ◌==◌ (empty memory) script).0 (promised ◌==◌ [] script).0
    × ((calls ◌==◌ (empty memory) script).1 ≡ (promised ◌==◌ [] script).1)
calls_lem_example = calls_lem ◌==◌ ==_iff memory script

seen : (calls ◌==◌ (empty memory) script).1 ≡ some 10 ∷ none ∷ []
unfolding calls find lru_push link_front set_next set_prev lru_touch skip_back skip_on set_value
    lru_remove erase points_at
seen = refl

-- Key 2 was written last, key 1 before.
walked : foreach (calls ◌==◌ (empty memory) script).0 (λ k v. true) ≡ (2, 21) ∷ (1, 10) ∷ []
unfolding calls foreach foreach_loop find lru_push link_front set_next set_prev lru_touch skip_back
    skip_on set_value lru_remove erase points_at
walked = refl

foreach_lem_example :
    (foreach (calls ◌==◌ (empty memory) script).0 (λ k v. ltb k 2)
      ≡ visited (λ k v. ltb k 2) (promised ◌==◌ [] script).0)
    × (foreach_reverse (calls ◌==◌ (empty memory) script).0 (λ k v. ltb k 2)
        ≡ visited (λ k v. ltb k 2) (reverse (promised ◌==◌ [] script).0))
foreach_lem_example =
    foreach_lem (calls ◌==◌ (empty memory) script).0 (promised ◌==◌ [] script).0 (λ k v. ltb k 2)
      (calls_lem ◌==◌ ==_iff memory script).0
