-- ===== src/LruCache/Calls.antt =====
-- Any sequence of calls to an empty cache against the list of entries.
use ob_preliminary.Common.{
  ℕ, ◌≡◌, ◌↔◌, refl, ap₂, Bool, true, false≢true, Option, none, List, [], ◌∷◌,
}
use ob_preliminary.LruCache.{ListNode, LruCache, get, put, remove}
use ob_preliminary.LruCache.Spec.{lookup, without, used, looked_up}
use ob_preliminary.LruCache.Refine.{Holds, get_lem, put_lem, remove_lem}

-- The calls of a client.
pub data LruOp {ℓ} (K V : Type ℓ) : Type ℓ where
  get_key : K → LruOp K V
  put_key : K → V → LruOp K V
  remove_key : K → LruOp K V

-- A new cache; the memory is what it is.
abbrev pub empty {ℓ} : {K V : Type ℓ} → (ℕ → ListNode K V) → LruCache K V
empty nodes = record { nodes = nodes; fresh = 0; searcher = []; lru_front = none; lru_tail = none }

module _ {ℓ} {K V : Type ℓ} (pred : K → K → Bool) where
  -- The cache after the calls, with what each get gave.
  unfoldable pub calls : LruCache K V → List (LruOp K V) → LruCache K V × List (Option V)
  unfolding get put remove
  calls c [] = (c, [])
  calls c (get_key k ∷ ops) =
      let (c', o) = get pred c k in let (end, seen) = calls c' ops in (end, o ∷ seen)
  calls c (put_key k v ∷ ops) = calls (put pred c k v) ops
  calls c (remove_key k ∷ ops) = calls (remove pred c k) ops

  -- The same on a list of entries.
  unfoldable pub promised : List (K × V) → List (LruOp K V) → List (K × V) × List (Option V)
  unfolding lookup without used looked_up
  promised es [] = (es, [])
  promised es (get_key k ∷ ops) =
      let (end, seen) = promised (looked_up pred k es) ops in (end, lookup pred k es ∷ seen)
  promised es (put_key k v ∷ ops) = promised (used pred k v es) ops
  promised es (remove_key k ∷ ops) = promised (without pred k es) ops

  module _ (pred_iff : (a b : K) → (pred a b ≡ true) ↔ (a ≡ b)) where
    calls-Holds :
        (c : LruCache K V) (es : List (K × V)) (ops : List (LruOp K V))
        → Holds c es
        → Holds (calls c ops).0 (promised es ops).0 × ((calls c ops).1 ≡ (promised es ops).1)
    unfolding calls promised
    calls-Holds c es [] h = (h, refl)
    calls-Holds c es (get_key k ∷ ops) h =
        let (h', o) = get_lem pred pred_iff c es k h in
        let (end, seen) = calls-Holds (get pred c k).0 (looked_up pred k es) ops h' in
        (end, ap₂ (◌∷◌) o seen)
    calls-Holds c es (put_key k v ∷ ops) h =
        calls-Holds (put pred c k v) (used pred k v es) ops (put_lem pred pred_iff c es k v h)
    calls-Holds c es (remove_key k ∷ ops) h =
        calls-Holds (remove pred c k) (without pred k es) ops (remove_lem pred pred_iff c es k h)

    -- From an empty cache, after any sequence of gets, puts and removals, every get has answered what a list of
    -- entries answers that keeps one entry for a key and moves it to the front at each use, and the doubly linked list and
    -- the hash set of the cache hold exactly the entries of that list, in its order.
    pub calls_lem :
        (nodes : ℕ → ListNode K V) (ops : List (LruOp K V))
        → Holds (calls (empty nodes) ops).0 (promised [] ops).0
          × ((calls (empty nodes) ops).1 ≡ (promised [] ops).1)
    calls_lem nodes ops = calls-Holds (empty nodes) [] ops (record {
      order = [];
      ring = record {
        front = refl;
        tail = refl;
        chain = tt;
        distinct = tt;
        found = λ a. refl;
        searched = tt;
        number = refl;
        old = λ a h. absurd (false≢true h);
        keys = λ a b h. absurd (false≢true h);
      };
      shown = refl;
    })
