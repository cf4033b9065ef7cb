-- ===== src/LruCache/Changes.antt =====
-- What push and remove make of the order of the nodes.
use ob_preliminary.Common.{
  ℕ, suc, ◌+◌, ◌<◌, ◌≡◌, ◌≢◌, refl, sym, ap, subst, ◌∙◌, inl, inr, true, false, ◌||◌, Option, none,
  some, List, [], ◌∷◌, ◌++◌, append-nil, ◌==◌, if◌then◌else◌, length, length-append, arith,
  Bool-cases, not_true,
}
use ob_preliminary.LruCache.{
  ListNode, LruCache, store, set_value, skip_back, skip_on, link_front, lru_push, lru_remove, erase,
  points_at,
}
use ob_preliminary.LruCache.Chain.{
  has, Distinct, head_or, last_or, has-last, has-append, Distinct-right, Distinct-middle, IsChain,
  IsChain-store, IsChain-set_value,
}
use ob_preliminary.LruCache.Links.{
  SameEntries, last_some, unlink-IsUnlinked, unlink-SameEntries, link_front-IsChain,
  link_front-SameEntries,
}
use ob_preliminary.LruCache.Invariant.{IsLru, has-middle, last_or-append, keys-same}

has-erase :
    (s : List ℕ) (a b : ℕ) → Distinct s → has b (erase s a) ≡ (if a == b then false else has b s)
unfolding erase
has-erase [] a b d = ground arith
has-erase (x ∷ s) a b d = elim (Bool-cases (x == a)) [
  | inl e ↦
      let same : x ≡ a = ground arith in
      elim (Bool-cases (a == b)) [
        | inl f ↦
            let here : a ≡ b = ground arith in
            rw (e, f) (subst (λ k. has k s ≡ false) (same ∙ here) d.0)
        | inr f ↦ rw (e, f) (ground arith)
      ]
  | inr e ↦ rw e (ground (arith, has-erase s a b d.1))
]

Distinct-erase : (s : List ℕ) (a : ℕ) → Distinct s → Distinct (erase s a)
unfolding erase
Distinct-erase [] a d = tt
Distinct-erase (x ∷ s) a d = elim (Bool-cases (x == a)) [
  | inl e ↦ rw e d.1
  | inr e ↦ rw e (ground (arith, has-erase s a x d.1), Distinct-erase s a d.1)
]

length-erase : (s : List ℕ) (a : ℕ) → has a s ≡ true → length s ≡ suc (length (erase s a))
unfolding erase
length-erase [] a h = ground arith
length-erase (x ∷ s) a h = elim (Bool-cases (x == a)) [
  | inl e ↦ rw e refl
  | inr e ↦ rw e (ap suc (length-erase s a (ground arith)))
]

removed_front :
    (l : List ℕ) (a : ℕ) (r : List ℕ) (front next : Option ℕ)
    → Distinct (l ++ a ∷ r)
    → front ≡ head_or (l ++ a ∷ r) none
    → next ≡ head_or r none
    → (if points_at front a then next else front) ≡ head_or (l ++ r) none
unfolding points_at
removed_front [] a r front next d e f = let here : (a == a) ≡ true = ground arith in rw (e, here, f)
removed_front (y ∷ ys) a r front next d e f =
    let apart : (y == a) ≡ false = ground (arith, has-append y ys (a ∷ r), d.0) in rw (e, apart)

removed_tail :
    (l : List ℕ) (a : ℕ) (r : List ℕ) (tail prev : Option ℕ)
    → Distinct (l ++ a ∷ r)
    → tail ≡ last_or (l ++ a ∷ r) none
    → prev ≡ last_or l none
    → (if points_at tail a then prev else tail) ≡ last_or (l ++ r) none
unfolding points_at
removed_tail l a [] tail prev d e f =
    let here : (a == a) ≡ true = ground arith in
    rw (e, last_or-append l (a ∷ []) none, here, f, append-nil)
removed_tail l a (x ∷ r) tail prev d e f =
    let (t, last) = last_some x r (some a) in
    let inside = has-last t x r (some a) last in
    let around = Distinct-right l (a ∷ x ∷ r) d in
    let apart : (t == a) ≡ false = not_true λ h.
      let same : t ≡ a = ground arith in
      sym around.0 ∙ subst (λ k. has k (x ∷ r) ≡ true) same inside in
    let at_t : tail ≡ some t = e ∙ last_or-append l (a ∷ x ∷ r) none ∙ last in
    let end_t : last_or (l ++ x ∷ r) none ≡ some t = last_or-append l (x ∷ r) none ∙ last in
    rw (at_t, apart, end_t)

pushed_tail :
    (xs : List ℕ) (a : ℕ) (tail : Option ℕ)
    → tail ≡ last_or xs none
    → elim tail [ none ↦ some a | some t ↦ some t ] ≡ last_or xs (some a)
pushed_tail [] a tail e = rw e
pushed_tail (x ∷ xs) a tail e =
    let (q, last) = last_some x xs none in let at_q : tail ≡ some q = e ∙ last in rw at_q (sym last)

module _ {ℓ} {K V : Type ℓ} (c : LruCache K V) where
  pub remove-IsLru :
      (l : List ℕ) (a : ℕ) (r : List ℕ)
      → IsLru c (l ++ a ∷ r)
      → IsLru (lru_remove c a) (l ++ r) × SameEntries c.nodes (lru_remove c a).nodes
  unfolding lru_remove
  remove-IsLru l a r v =
      let u = unlink-IsUnlinked c.nodes l a r v.distinct v.chain in
      let same = unlink-SameEntries c.nodes a in
      let apart = Distinct-middle l a r v.distinct in
      let moved = λ (b : ℕ). has-middle b l a r in
      let here : (a == a) ≡ true = ground arith in
      let inside : has a c.searcher ≡ true = v.found a ∙ moved a ∙ rw here in
      (
        record {
          front =
              removed_front l a r c.lru_front (skip_back (skip_on c.nodes a) a a).next v.distinct
                v.front u.next_back;
          tail =
              removed_tail l a r c.lru_tail (skip_back (skip_on c.nodes a) a a).prev v.distinct
                v.tail u.prev_back;
          chain = u.rest;
          distinct = apart.1;
          found =
              λ b. ground (arith, has-erase c.searcher a b v.searched, v.found b, moved b, apart.0);
          searched = Distinct-erase c.searcher a v.searched;
          number = omega (
            arith,
            length-erase c.searcher a inside,
            v.number,
            length-append l (a ∷ r),
            length-append l r,
          );
          old = λ b h. v.old b (ground (arith, moved b));
          keys =
              keys-same c (skip_back (skip_on c.nodes a) a) same (l ++ a ∷ r) (l ++ r) v.keys
                (λ b h. ground (arith, moved b));
        },
        same,
      )

  pushed_keys :
      (a b d : ℕ) (xs : List ℕ)
      → ((b d : ℕ) → has b xs ≡ true → has d xs ≡ true → (c.nodes b).key ≡ (c.nodes d).key → b ≡ d)
      → ((b : ℕ) → has b xs ≡ true → (c.nodes b).key ≢ (c.nodes a).key)
      → has b (a ∷ xs) ≡ true
      → has d (a ∷ xs) ≡ true
      → (c.nodes b).key ≡ (c.nodes d).key
      → b ≡ d
  pushed_keys a b d xs keys new h k e = elim (Bool-cases (a == b)) [
    | inl x ↦ elim (Bool-cases (a == d)) [
      | inl y ↦ ground arith
      | inr y ↦
          let same : a ≡ b = ground arith in
          absurd (new d (ground arith) (sym e ∙ ap (λ t. (c.nodes t).key) (sym same)))
    ]
    | inr x ↦ elim (Bool-cases (a == d)) [
      | inl y ↦
          let same : a ≡ d = ground arith in
          absurd (new b (ground arith) (e ∙ ap (λ t. (c.nodes t).key) (sym same)))
      | inr y ↦ keys b d (ground arith) (ground arith) e
    ]
  ]

  -- A node that is not in the list yet, with a key of its own.
  pub push-IsLru :
      (a : ℕ) (xs : List ℕ)
      → IsLru c xs
      → has a xs ≡ false
      → a < c.fresh
      → ((b : ℕ) → has b xs ≡ true → (c.nodes b).key ≢ (c.nodes a).key)
      → IsLru (lru_push c a) (a ∷ xs) × SameEntries c.nodes (lru_push c a).nodes
  unfolding lru_push
  push-IsLru a xs v out below new =
      let linked = link_front c.nodes a c.lru_front in
      let same = link_front-SameEntries c.nodes a c.lru_front in
      (
        record {
          front = refl;
          tail = pushed_tail xs a c.lru_tail v.tail;
          chain =
              subst (λ o. IsChain (link_front c.nodes a o) none (a ∷ xs) none) (sym v.front)
                (link_front-IsChain c.nodes a xs (out, v.distinct) v.chain);
          distinct = (out, v.distinct);
          found = λ b. ap (λ t. (a == b) || t) (v.found b);
          searched = (v.found a ∙ out, v.searched);
          number = ap suc v.number;
          old = λ b h. elim (Bool-cases (a == b)) [
            | inl e ↦ ground arith
            | inr e ↦ v.old b (ground arith)
          ];
          keys = λ b d h k e. pushed_keys a b d xs v.keys new h k (sym (same b).0 ∙ e ∙ (same d).0);
        },
        same,
      )

  -- A new node, before it is linked in.
  pub new-IsLru :
      (xs : List ℕ) (node : ListNode K V)
      → IsLru c xs
      → IsLru (record c { nodes = store c.nodes c.fresh node; fresh = c.fresh + 1 }) xs
        × (has c.fresh xs ≡ false)
  unfolding store
  new-IsLru xs node v = (
    record {
      front = v.front;
      tail = v.tail;
      chain = IsChain-store c.nodes c.fresh node none xs none out v.chain;
      distinct = v.distinct;
      found = v.found;
      searched = v.searched;
      number = v.number;
      old = λ b h. let below = v.old b h in omega arith;
      keys = λ b d h k e. v.keys b d h k (sym (kept b h) ∙ e ∙ kept d k);
    },
    out,
  )
    where
      out : has c.fresh xs ≡ false
      out = not_true (λ h. let below = v.old c.fresh h in absurd (omega arith))

      kept :
          (b : ℕ)
          → has b xs ≡ true
          → (if b == c.fresh then node else c.nodes b).key ≡ (c.nodes b).key
      kept b h =
          let below = v.old b h in
          let apart : (b == c.fresh) ≡ false = ground arith in rw apart refl

  pub set_value_key : (a : ℕ) (w : V) (b : ℕ) → (set_value c.nodes a w b).key ≡ (c.nodes b).key
  unfolding set_value store
  set_value_key a w b = ground arith

  pub set_value-IsLru :
      (a : ℕ) (w : V) (xs : List ℕ)
      → IsLru c xs
      → IsLru (record c { nodes = set_value c.nodes a w }) xs
  set_value-IsLru a w xs v = record {
    front = v.front;
    tail = v.tail;
    chain = IsChain-set_value c.nodes a w none xs none v.chain;
    distinct = v.distinct;
    found = v.found;
    searched = v.searched;
    number = v.number;
    old = v.old;
    keys = λ b d h k e. v.keys b d h k (sym (set_value_key a w b) ∙ e ∙ set_value_key a w d);
  }
