-- ===== src/LruCache/Links.antt =====
-- Unlinking a node and linking it in before the front: what is left of the chain, and that no entry changes.
use ob_preliminary.Common.{
  ℕ, ◌≡◌, refl, sym, subst, ◌∙◌, inl, inr, false, Option, none, some, List, [], ◌∷◌, ◌++◌, ◌==◌,
  arith, Option-cases, not_true,
}
use ob_preliminary.LruCache.{ListNode, store, set_prev, set_next, skip_back, skip_on, link_front}
use ob_preliminary.LruCache.Chain.{
  has, Distinct, head_or, last_or, has-last, Distinct-left, Distinct-right, Distinct-apart, IsChain,
  IsChain-append, IsChain-left, IsChain-right, IsChain-store, IsChain-set_prev, IsChain-set_next,
}

-- Every node keeps its key and its value.
abbrev pub SameEntries {ℓ} : {K V : Type ℓ} → (ℕ → ListNode K V) → (ℕ → ListNode K V) → Type ℓ
SameEntries n n' = (b : ℕ) → ((n' b).key ≡ (n b).key) × ((n' b).value ≡ (n b).value)

pub last_some : (x : ℕ) (xs : List ℕ) (o : Option ℕ) → (q : ℕ) × (last_or (x ∷ xs) o ≡ some q)
last_some x [] o = (x, refl)
last_some x (y ∷ xs) o = last_some y xs (some x)

module _ {ℓ} {K V : Type ℓ} where
  set_prev-SameEntries :
      (n : ℕ → ListNode K V) (a : ℕ) (o : Option ℕ) → SameEntries n (set_prev n a o)
  unfolding set_prev store
  set_prev-SameEntries n a o b = (ground arith, ground arith)

  set_next-SameEntries :
      (n : ℕ → ListNode K V) (a : ℕ) (o : Option ℕ) → SameEntries n (set_next n a o)
  unfolding set_next store
  set_next-SameEntries n a o b = (ground arith, ground arith)

  pub SameEntries-trans :
      (n m k : ℕ → ListNode K V) → SameEntries n m → SameEntries m k → SameEntries n k
  SameEntries-trans n m k f g b = ((g b).0 ∙ (f b).0, (g b).1 ∙ (f b).1)

  skip_on-SameEntries : (n : ℕ → ListNode K V) (a : ℕ) → SameEntries n (skip_on n a)
  unfolding skip_on
  skip_on-SameEntries n a = elim (Option-cases (n a).prev) [
    | inl e ↦ rw (skip_on, e) (λ b. (refl, refl))
    | inr (p, e) ↦ rw (skip_on, e) (set_next-SameEntries n p (n a).next)
  ]

  skip_back-SameEntries : (n : ℕ → ListNode K V) (a : ℕ) → SameEntries n (skip_back n a)
  unfolding skip_back
  skip_back-SameEntries n a = elim (Option-cases (n a).next) [
    | inl e ↦ rw (skip_back, e) (λ b. (refl, refl))
    | inr (x, e) ↦ rw (skip_back, e) (set_prev-SameEntries n x (n a).prev)
  ]

  pub unlink-SameEntries :
      (n : ℕ → ListNode K V) (a : ℕ) → SameEntries n (skip_back (skip_on n a) a)
  unlink-SameEntries n a b =
      let back = skip_back-SameEntries (skip_on n a) a b in
      let on = skip_on-SameEntries n a b in (back.0 ∙ on.0, back.1 ∙ on.1)

  pub link_front-SameEntries :
      (n : ℕ → ListNode K V) (a : ℕ) (front : Option ℕ) → SameEntries n (link_front n a front)
  unfolding link_front
  link_front-SameEntries n a none b =
      let one = set_prev-SameEntries n a none b in
      let two = set_next-SameEntries (set_prev n a none) a none b in (two.0 ∙ one.0, two.1 ∙ one.1)
  link_front-SameEntries n a (some f) b =
      let one = set_prev-SameEntries n a none b in
      let two = set_next-SameEntries (set_prev n a none) a (some f) b in
      let three = set_prev-SameEntries (set_next (set_prev n a none) a (some f)) f (some a) b in
      (three.0 ∙ two.0 ∙ one.0, three.1 ∙ two.1 ∙ one.1)

  -- Linking a node in before a chain.
  pub link_front-IsChain :
      (n : ℕ → ListNode K V) (a : ℕ) (xs : List ℕ)
      → Distinct (a ∷ xs)
      → IsChain n none xs none
      → IsChain (link_front n a (head_or xs none)) none (a ∷ xs) none
  unfolding link_front set_prev set_next store
  link_front-IsChain n a [] d f = (ground arith, ground arith, tt)
  link_front-IsChain n a (x ∷ xs) d f =
      let apart : (a == x) ≡ false = ground arith in
      (
        ground arith,
        ground arith,
        IsChain-set_prev (set_next (set_prev n a none) a (some x)) x none (some a) xs none d.1 (
            IsChain-store (set_prev n a none) a _ none (x ∷ xs) none d.0
              (IsChain-store n a _ none (x ∷ xs) none d.0 f)),
      )

  -- What unlinking node `a` does to the chain around it, and to its own pointers.
  pub record IsUnlinked (n : ℕ → ListNode K V) (l : List ℕ) (a : ℕ) (r : List ℕ) : Type 0 where
    pub rest : IsChain (skip_back (skip_on n a) a) none (l ++ r) none
    pub next_on : ((skip_on n a) a).next ≡ head_or r none
    pub prev_on : ((skip_on n a) a).prev ≡ last_or l none
    pub next_back : ((skip_back (skip_on n a) a) a).next ≡ head_or r none
    pub prev_back : ((skip_back (skip_on n a) a) a).prev ≡ last_or l none

  module _ (n : ℕ → ListNode K V) (a : ℕ) where
    skip_on-none : (n a).prev ≡ none → skip_on n a ≡ n
    unfolding skip_on
    skip_on-none e = rw (skip_on, e)

    skip_on-some : (q : ℕ) → (n a).prev ≡ some q → skip_on n a ≡ set_next n q (n a).next
    unfolding skip_on
    skip_on-some q e = rw (skip_on, e)

    skip_back-none : (n a).next ≡ none → skip_back n a ≡ n
    unfolding skip_back
    skip_back-none e = rw (skip_back, e)

    skip_back-some : (x : ℕ) → (n a).next ≡ some x → skip_back n a ≡ set_prev n x (n a).prev
    unfolding skip_back
    skip_back-some x e = rw (skip_back, e)

  -- The chain is cut at the node, whose own pointers still show its place.
  abbrev IsCut : (ℕ → ListNode K V) → List ℕ → ℕ → List ℕ → Type 0
  IsCut m l a r =
      IsChain m none l (head_or r none)
      × IsChain m (some a) r none
      × ((m a).next ≡ head_or r none)
      × ((m a).prev ≡ last_or l none)

  set_next-IsCut :
      (n : ℕ → ListNode K V) (l : List ℕ) (a : ℕ) (r : List ℕ) (q : ℕ)
      → Distinct (l ++ a ∷ r)
      → IsChain n none (l ++ a ∷ r) none
      → last_or l none ≡ some q
      → has q (a ∷ r) ≡ false
      → IsCut (set_next n q (n a).next) l a r
  unfolding set_next store
  set_next-IsCut n l a r q d f last past =
      let right = IsChain-right n none l (a ∷ r) none f in
      let left = IsChain-left n none l (a ∷ r) none f in
      let apart : (a == q) ≡ false = ground arith in
      (
        rw right.1 (
            IsChain-set_next n q none l (some a) (head_or r none) (Distinct-left l (a ∷ r) d) last
              left),
        IsChain-store n q _ (some a) r none (ground arith) right.2,
        rw apart right.1,
        rw apart right.0,
      )

  -- The first half: the predecessor, if any, points past the node.
  skip_on-IsCut :
      (n : ℕ → ListNode K V) (l : List ℕ) (a : ℕ) (r : List ℕ)
      → Distinct (l ++ a ∷ r)
      → IsChain n none (l ++ a ∷ r) none
      → IsCut (skip_on n a) l a r
  skip_on-IsCut n [] a r d f =
      subst (λ m. IsCut m [] a r) (sym (skip_on-none n a f.0)) (tt, f.2, f.1, f.0)
  skip_on-IsCut n (y ∷ ys) a r d f =
      let (q, last) = last_some y ys none in
      let right = IsChain-right n none (y ∷ ys) (a ∷ r) none f in
      let before : (n a).prev ≡ some q = right.0 ∙ last in
      let past : has q (a ∷ r) ≡ false =
        Distinct-apart q (y ∷ ys) (a ∷ r) d (has-last q y ys none last) in
      subst (λ m. IsCut m (y ∷ ys) a r) (sym (skip_on-some n a q before))
        (set_next-IsCut n (y ∷ ys) a r q d f last past)

  set_prev-IsChain :
      (n : ℕ → ListNode K V) (x : ℕ) (o p : Option ℕ) (l : List ℕ) (e : Option ℕ)
      → has x l ≡ false
      → IsChain n p l e
      → IsChain (set_prev n x o) p l e
  unfolding set_prev
  set_prev-IsChain n x o p l e h f = IsChain-store n x _ p l e h f

  set_prev_ne :
      (n : ℕ → ListNode K V) (x a : ℕ) (o : Option ℕ) {e p : Option ℕ}
      → (a == x) ≡ false
      → (n a).next ≡ e
      → (n a).prev ≡ p
      → ((set_prev n x o a).next ≡ e) × ((set_prev n x o a).prev ≡ p)
  unfolding set_prev store
  set_prev_ne n x a o h f g = (rw h f, rw h g)

  -- The second half: the successor, if any, points back past the node.
  skip_back_lem :
      (m : ℕ → ListNode K V) (l : List ℕ) (a : ℕ) (r : List ℕ)
      → Distinct (l ++ a ∷ r)
      → IsCut m l a r
      → IsChain (skip_back m a) none (l ++ r) none
        × (((skip_back m a) a).next ≡ head_or r none)
        × (((skip_back m a) a).prev ≡ last_or l none)
  skip_back_lem m l a [] d c =
      subst
        (λ k. IsChain k none (l ++ []) none × ((k a).next ≡ none) × ((k a).prev ≡ last_or l none))
        (sym (skip_back-none m a c.2)) (IsChain-append m none l [] none c.0 tt, c.2, c.3)
  skip_back_lem m l a (x ∷ r) d c =
      let before : has x l ≡ false =
        not_true λ h. let out = Distinct-apart x l (a ∷ x ∷ r) d h in ground arith in
      let around = Distinct-right l (a ∷ x ∷ r) d in
      let apart : (a == x) ≡ false = ground arith in
      let own = set_prev_ne m x a (m a).prev apart c.2 c.3 in
      subst
        (λ k.
          IsChain k none (l ++ x ∷ r) none × ((k a).next ≡ some x) × ((k a).prev ≡ last_or l none))
        (sym (skip_back-some m a x c.2))
        (
          IsChain-append (set_prev m x (m a).prev) none l (x ∷ r) none
              (set_prev-IsChain m x (m a).prev none l (some x) before c.0)
              (subst (λ p. IsChain (set_prev m x (m a).prev) p (x ∷ r) none) c.3
                (IsChain-set_prev m x (some a) (m a).prev r none around.1 c.1)),
          own.0,
          own.1,
        )

  pub unlink-IsUnlinked :
      (n : ℕ → ListNode K V) (l : List ℕ) (a : ℕ) (r : List ℕ)
      → Distinct (l ++ a ∷ r)
      → IsChain n none (l ++ a ∷ r) none
      → IsUnlinked n l a r
  unlink-IsUnlinked n l a r d f =
      let cut = skip_on-IsCut n l a r d f in
      let back = skip_back_lem (skip_on n a) l a r d cut in
      record {
        rest = back.0;
        next_on = cut.2;
        prev_on = cut.3;
        next_back = back.1;
        prev_back = back.2;
      }
