-- ===== src/LruCache/Invariant.antt =====
-- When a cache holds the nodes `xs` in this order, and what touch, push and remove make of the order.
use ob_preliminary.Common.{
  ℕ, ◌<◌, ◌≡◌, refl, sym, subst, ◌∙◌, true, Option, none, some, List, [], ◌∷◌, ◌++◌, append-nil,
  length, length-append, arith,
}
use ob_preliminary.LruCache.{ListNode, LruCache, skip_back, skip_on, link_front, lru_touch}
use ob_preliminary.LruCache.Chain.{
  has, Distinct, head_or, last_or, has-append, Distinct-middle, IsChain, IsChain-right,
}
use ob_preliminary.LruCache.Links.{
  SameEntries, SameEntries-trans, last_some, unlink-IsUnlinked, unlink-SameEntries,
  link_front-IsChain, link_front-SameEntries,
}

pub record IsLru {ℓ} {K V : Type ℓ} (c : LruCache K V) (xs : List ℕ) : Type ℓ where
  pub front : c.lru_front ≡ head_or xs none
  pub tail : c.lru_tail ≡ last_or xs none
  pub chain : IsChain c.nodes none xs none
  pub distinct : Distinct xs
  pub found : (a : ℕ) → has a c.searcher ≡ has a xs
  pub searched : Distinct c.searcher
  pub number : length c.searcher ≡ length xs
  pub old : (a : ℕ) → has a xs ≡ true → a < c.fresh
  pub keys :
      (a b : ℕ) → has a xs ≡ true → has b xs ≡ true → (c.nodes a).key ≡ (c.nodes b).key → a ≡ b

pub last_or-append :
    (xs ys : List ℕ) (o : Option ℕ) → last_or (xs ++ ys) o ≡ last_or ys (last_or xs o)
last_or-append [] ys o = refl
last_or-append (x ∷ xs) ys o = last_or-append xs ys (some x)

pub has-middle : (b : ℕ) (l : List ℕ) (a : ℕ) (r : List ℕ) → has b (l ++ a ∷ r) ≡ has b (a ∷ l ++ r)
has-middle b l a r = ground (arith, has-append b l (a ∷ r), has-append b l r)

-- Every node of `ys` is one of `xs`, so their keys are told apart as before.
module _ {ℓ} {K V : Type ℓ} (c : LruCache K V) (n : ℕ → ListNode K V)
    (same : SameEntries c.nodes n) where
  pub keys-same :
      (xs ys : List ℕ)
      → ((a b : ℕ) → has a xs ≡ true → has b xs ≡ true → (c.nodes a).key ≡ (c.nodes b).key → a ≡ b)
      → ((a : ℕ) → has a ys ≡ true → has a xs ≡ true)
      → (a b : ℕ) → has a ys ≡ true
      → has b ys ≡ true
      → (n a).key ≡ (n b).key
      → a ≡ b
  keys-same xs ys keys into a b h k e =
      keys a b (into a h) (into b k) (sym (same a).0 ∙ e ∙ (same b).0)

touch_tail :
    (y : ℕ) (ys : List ℕ) (a : ℕ) (r : List ℕ) (next prev tail : Option ℕ)
    → next ≡ head_or r none
    → prev ≡ last_or (y ∷ ys) none
    → tail ≡ last_or (y ∷ ys ++ a ∷ r) none
    → elim next [ none ↦ prev | some x ↦ tail ] ≡ last_or (a ∷ y ∷ ys ++ r) none
touch_tail y ys a [] next prev tail e f g = rw (e, f, append-nil)
touch_tail y ys a (x ∷ r) next prev tail e f g =
    rw (e, g, last_or-append ys (a ∷ x ∷ r) (some y), last_or-append ys (x ∷ r) (some y))

module _ {ℓ} {K V : Type ℓ} (c : LruCache K V) where
  touch_front : (a : ℕ) → (c.nodes a).prev ≡ none → lru_touch c a ≡ c
  unfolding lru_touch
  touch_front a e = rw (lru_touch, e)

  touch_behind :
      (a p : ℕ)
      → (c.nodes a).prev ≡ some p
      → lru_touch c a ≡ (record c {
        nodes = link_front (skip_back (skip_on c.nodes a) a) a c.lru_front;
        lru_front = some a;
        lru_tail = elim ((skip_on c.nodes a a).next) [
          | none ↦ (skip_on c.nodes a a).prev
          | some x ↦ c.lru_tail
        ];
      })
  unfolding lru_touch
  touch_behind a p e = rw (lru_touch, e)

  pub touch-IsLru :
      (l : List ℕ) (a : ℕ) (r : List ℕ)
      → IsLru c (l ++ a ∷ r)
      → IsLru (lru_touch c a) (a ∷ l ++ r) × SameEntries c.nodes (lru_touch c a).nodes
  touch-IsLru [] a r v =
      subst (λ (t : LruCache K V). IsLru t (a ∷ r) × SameEntries c.nodes t.nodes)
        (sym (touch_front a v.chain.0)) (v, λ b. (refl, refl))
  touch-IsLru (y ∷ ys) a r v =
      let u = unlink-IsUnlinked c.nodes (y ∷ ys) a r v.distinct v.chain in
      let (q, last) = last_some y ys none in
      let own = IsChain-right c.nodes none (y ∷ ys) (a ∷ r) none v.chain in
      let unlinked = skip_back (skip_on c.nodes a) a in
      let linked = link_front unlinked a c.lru_front in
      let same : SameEntries c.nodes linked =
        SameEntries-trans c.nodes unlinked linked (unlink-SameEntries c.nodes a)
          (link_front-SameEntries unlinked a c.lru_front) in
      let moved = λ (b : ℕ). has-middle b (y ∷ ys) a r in
      subst (λ (t : LruCache K V). IsLru t (a ∷ y ∷ ys ++ r) × SameEntries c.nodes t.nodes)
        (sym (touch_behind a q (own.0 ∙ last)))
        (
          record {
            front = refl;
            tail =
                touch_tail y ys a r (skip_on c.nodes a a).next (skip_on c.nodes a a).prev c.lru_tail
                  u.next_on u.prev_on v.tail;
            chain =
                subst (λ o. IsChain (link_front unlinked a o) none (a ∷ y ∷ ys ++ r) none)
                  (sym v.front)
                  (link_front-IsChain unlinked a (y ∷ ys ++ r)
                    (Distinct-middle (y ∷ ys) a r v.distinct) u.rest);
            distinct = Distinct-middle (y ∷ ys) a r v.distinct;
            found = λ b. v.found b ∙ moved b;
            searched = v.searched;
            number = omega (arith, v.number, length-append ys (a ∷ r), length-append ys r);
            old = λ b h. v.old b (moved b ∙ h);
            keys =
                keys-same c linked same (y ∷ ys ++ a ∷ r) (a ∷ y ∷ ys ++ r) v.keys
                  (λ b h. moved b ∙ h);
          },
          same,
        )
