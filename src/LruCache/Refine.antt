-- ===== src/LruCache/Refine.antt =====
-- get, put and remove against the list of entries.
use ob_preliminary.Common.{
  ℕ, ◌+◌, ◌<◌, ◌≡◌, ◌≢◌, ◌↔◌, refl, sym, ap, ap₂, subst, ◌∙◌, inl, inr, Bool, true, false, none,
  some, List, ◌∷◌, ◌++◌, ◌==◌, arith, Option-cases, not_true, false≢true,
}
use ob_preliminary.LruCache.{
  ListNode, LruCache, store, set_value, lru_touch, lru_push, lru_remove, find, get, put, remove,
}
use ob_preliminary.LruCache.Chain.{has, has-append, Distinct-apart, Distinct-middle}
use ob_preliminary.LruCache.Invariant.{IsLru, touch-IsLru}
use ob_preliminary.LruCache.Changes.{
  remove-IsLru, push-IsLru, new-IsLru, set_value_key, set_value-IsLru,
}
use ob_preliminary.LruCache.Spec.{lookup, without, used, looked_up}
use ob_preliminary.LruCache.Entries.{
  split_at, entries, entries-same, entries-store, find-some, find-none, Others, lookup-at,
  without-at, lookup-none, without-none,
}

apart_of_lt : (a b : ℕ) → a < b → (a == b) ≡ false
apart_of_lt a b h = ground arith

-- A cache holds these entries, in this order.
pub record Holds {ℓ} {K V : Type ℓ} (c : LruCache K V) (es : List (K × V)) : Type ℓ where
  pub order : List ℕ
  pub ring : IsLru c order
  pub shown : entries c.nodes order ≡ es

module _ {ℓ} {K V : Type ℓ} (pred : K → K → Bool)
    (pred_iff : (a b : K) → (pred a b ≡ true) ↔ (a ≡ b)) where
  -- Before the node with the key there is no other.
  before :
      (c : LruCache K V) (l : List ℕ) (a : ℕ) (r : List ℕ) (k : K)
      → IsLru c (l ++ a ∷ r)
      → pred (c.nodes a).key k ≡ true
      → Others pred c.nodes k l
  before c l a r k v t b h = not_true λ e.
      let same : (c.nodes b).key ≡ (c.nodes a).key =
        (pred_iff (c.nodes b).key k).0 e ∙ sym ((pred_iff (c.nodes a).key k).0 t) in
      let here : (a == a) ≡ true = ground arith in
      let one : b ≡ a =
        v.keys b a (ground (arith, has-append b l (a ∷ r))) (ground (arith, has-append a l (a ∷ r)))
          same in
      ground (arith, Distinct-apart b l (a ∷ r) v.distinct h)

  -- Where the search ends: at a node in its place, or nowhere.
  data IsFound (c : LruCache K V) (xs : List ℕ) (k : K) : Type ℓ where
    at :
        (l : List ℕ) (a : ℕ) (r : List ℕ)
        → find pred c.nodes c.searcher k ≡ some a
        → xs ≡ l ++ a ∷ r
        → (c.nodes a).key ≡ k
        → IsFound c xs k
    nowhere : find pred c.nodes c.searcher k ≡ none → Others pred c.nodes k xs → IsFound c xs k

  find-IsFound : (c : LruCache K V) (xs : List ℕ) (k : K) → IsLru c xs → IsFound c xs k
  find-IsFound c xs k v = elim (Option-cases (find pred c.nodes c.searcher k)) [
    | inl e ↦ nowhere e (λ b h. find-none pred c.nodes c.searcher k e b (v.found b ∙ h))
    | inr (a, e) ↦
        let (inside, t) = find-some pred c.nodes c.searcher k a e in
        let (l, r, q) = split_at a xs (sym (v.found a) ∙ inside) in
        at l a r e q ((pred_iff (c.nodes a).key k).0 t)
  ]

  module _ (c : LruCache K V) (l : List ℕ) (a : ℕ) (r : List ℕ) (k : K) (v : IsLru c (l ++ a ∷ r))
      (t : (c.nodes a).key ≡ k) where
    looked_at : lookup pred k (entries c.nodes (l ++ a ∷ r)) ≡ some (c.nodes a).value
    looked_at =
        let hit = (pred_iff (c.nodes a).key k).1 t in
        lookup-at pred c.nodes k l a r (before c l a r k v hit) hit

    rest_of : without pred k (entries c.nodes (l ++ a ∷ r)) ≡ entries c.nodes (l ++ r)
    rest_of =
        let hit = (pred_iff (c.nodes a).key k).1 t in
        without-at pred c.nodes k l a r (before c l a r k v hit) hit

    -- Touching the node uses its entry.
    touched : Holds (lru_touch c a) (used pred k (c.nodes a).value (entries c.nodes (l ++ a ∷ r)))
    unfolding used
    touched =
        let (ring, same) = touch-IsLru c l a r v in
        record {
          order = a ∷ l ++ r;
          ring = ring;
          shown =
              entries-same c.nodes (lru_touch c a).nodes (a ∷ l ++ r) same
              ∙ ap₂ (λ j es. (j, (c.nodes a).value) ∷ es) t (sym rest_of);
        }

    get_at :
        find pred c.nodes c.searcher k ≡ some a
        → Holds (get pred c k).0 (looked_up pred k (entries c.nodes (l ++ a ∷ r)))
          × ((get pred c k).1 ≡ lookup pred k (entries c.nodes (l ++ a ∷ r)))
    unfolding get looked_up
    get_at e =
        let (ring, same) = touch-IsLru c l a r v in
        rw (get, e, looked_up, looked_at) (touched, ap some (same a).1)

    remove_at :
        find pred c.nodes c.searcher k ≡ some a
        → Holds (remove pred c k) (without pred k (entries c.nodes (l ++ a ∷ r)))
    unfolding remove
    remove_at e =
        let (ring, same) = remove-IsLru c l a r v in
        rw (remove, e)
          (record {
            order = l ++ r;
            ring = ring;
            shown = entries-same c.nodes (lru_remove c a).nodes (l ++ r) same ∙ sym rest_of;
          })

  -- The value is written before the node is touched.
  put_at :
      (c : LruCache K V) (l : List ℕ) (a : ℕ) (r : List ℕ) (k : K) (w : V)
      → IsLru c (l ++ a ∷ r)
      → (c.nodes a).key ≡ k
      → find pred c.nodes c.searcher k ≡ some a
      → Holds (put pred c k w) (used pred k w (entries c.nodes (l ++ a ∷ r)))
  unfolding put used set_value store
  put_at c l a r k w v t e =
      let written : LruCache K V = record c { nodes = set_value c.nodes a w } in
      let ring = set_value-IsLru c a w (l ++ a ∷ r) v in
      let here : (a == a) ≡ true = ground arith in
      let key : (written.nodes a).key ≡ k = set_value_key c a w a ∙ t in
      let value : (written.nodes a).value ≡ w = rw here refl in
      let out = (Distinct-middle l a r v.distinct).0 in
      let entries_rest : without pred k (entries written.nodes (l ++ a ∷ r))
          ≡ without pred k (entries c.nodes (l ++ a ∷ r)) =
        rest_of written l a r k ring key
        ∙ entries-store c.nodes a _ (l ++ r) out
        ∙ sym (rest_of c l a r k v t) in
      rw (put, e)
        (subst (Holds (lru_touch written a)) (ap₂ (λ j es. (k, j) ∷ es) value entries_rest)
          (touched written l a r k ring key))

  put_new :
      (c : LruCache K V) (xs : List ℕ) (k : K) (w : V)
      → IsLru c xs
      → find pred c.nodes c.searcher k ≡ none
      → Others pred c.nodes k xs
      → Holds (put pred c k w) (used pred k w (entries c.nodes xs))
  unfolding put used store
  put_new c xs k w v e o =
      let node : ListNode K V = record { key = k; value = w; prev = none; next = none } in
      let made : LruCache K V = record c {
        nodes = store c.nodes c.fresh node;
        fresh = c.fresh + 1;
      } in
      let (ring, out) = new-IsLru c xs node v in
      let here : (c.fresh == c.fresh) ≡ true = ground arith in
      let key : (made.nodes c.fresh).key ≡ k = rw here refl in
      let value : (made.nodes c.fresh).value ≡ w = rw here refl in
      let new : (b : ℕ) → has b xs ≡ true → (made.nodes b).key ≢ (made.nodes c.fresh).key = λ b h q.
        let below = v.old b h in
        let apart : (b == c.fresh) ≡ false = apart_of_lt b c.fresh below in
        let kept : (c.nodes b).key ≡ (made.nodes b).key = rw apart refl in
        false≢true (sym (o b h) ∙ (pred_iff (c.nodes b).key k).1 (kept ∙ q ∙ key)) in
      let (pushed, same) = push-IsLru made c.fresh xs ring out (omega arith) new in
      rw (put, e)
        (record {
          order = c.fresh ∷ xs;
          ring = pushed;
          shown =
              entries-same made.nodes (lru_push made c.fresh).nodes (c.fresh ∷ xs) same
              ∙ ap₂ (◌∷◌) (ap₂ (λ (j : K) (u : V). (j, u)) key value) (
                  entries-store c.nodes c.fresh node xs out
                  ∙ sym (without-none pred c.nodes k xs o));
        })

  pub get_lem :
      (c : LruCache K V) (es : List (K × V)) (k : K)
      → Holds c es
      → Holds (get pred c k).0 (looked_up pred k es) × ((get pred c k).1 ≡ lookup pred k es)
  unfolding get looked_up
  get_lem c es k h = elim (find-IsFound c h.order k h.ring) [
    | at l a r e q t ↦
        subst
          (λ es.
            Holds (get pred c k).0 (looked_up pred k es) × ((get pred c k).1 ≡ lookup pred k es))
          (ap (entries c.nodes) (sym q) ∙ h.shown) (get_at c l a r k (subst (IsLru c) q h.ring) t e)
    | nowhere e o ↦
        let none_here : lookup pred k es ≡ none =
          ap (lookup pred k) (sym h.shown) ∙ lookup-none pred c.nodes k h.order o in
        let stay : looked_up pred k es ≡ es = rw (looked_up, none_here) in
        rw (get, e, none_here, stay) (h, refl)
  ]

  pub remove_lem :
      (c : LruCache K V) (es : List (K × V)) (k : K)
      → Holds c es
      → Holds (remove pred c k) (without pred k es)
  unfolding remove
  remove_lem c es k h = elim (find-IsFound c h.order k h.ring) [
    | at l a r e q t ↦
        subst (λ es. Holds (remove pred c k) (without pred k es))
          (ap (entries c.nodes) (sym q) ∙ h.shown)
          (remove_at c l a r k (subst (IsLru c) q h.ring) t e)
    | nowhere e o ↦
        let all_stay : without pred k es ≡ es =
          ap (without pred k) (sym h.shown) ∙ without-none pred c.nodes k h.order o ∙ h.shown in
        rw (remove, e, all_stay) h
  ]

  pub put_lem :
      (c : LruCache K V) (es : List (K × V)) (k : K) (w : V)
      → Holds c es
      → Holds (put pred c k w) (used pred k w es)
  unfolding put
  put_lem c es k w h = elim (find-IsFound c h.order k h.ring) [
    | at l a r e q t ↦
        subst (λ es. Holds (put pred c k w) (used pred k w es))
          (ap (entries c.nodes) (sym q) ∙ h.shown)
          (put_at c l a r k w (subst (IsLru c) q h.ring) t e)
    | nowhere e o ↦
        subst (λ es. Holds (put pred c k w) (used pred k w es)) h.shown
          (put_new c h.order k w h.ring e o)
  ]
