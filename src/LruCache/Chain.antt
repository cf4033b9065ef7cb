-- ===== src/LruCache/Chain.antt =====
-- Stretches of the doubly linked list, and what the pointer writes make of them.
use ob_preliminary.Common.{
  ℕ, ◌≡◌, refl, subst, inl, inr, Bool, true, false, ◌||◌, Option, none, some, List, [], ◌∷◌, ◌++◌,
  ◌==◌, arith, Bool-cases,
}
use ob_preliminary.LruCache.{ListNode, store, set_prev, set_next, set_value}

abbrev pub has : ℕ → List ℕ → Bool
has a [] = false
has a (x ∷ xs) = (x == a) || has a xs

abbrev pub Distinct : List ℕ → Type 0
Distinct [] = Unit {0}
Distinct (x ∷ xs) = (has x xs ≡ false) × Distinct xs

pub has-append : (a : ℕ) (xs ys : List ℕ) → has a (xs ++ ys) ≡ (has a xs || has a ys)
has-append a [] ys = refl
has-append a (x ∷ xs) ys = ground (arith, has-append a xs ys)

pub Distinct-left : (xs ys : List ℕ) → Distinct (xs ++ ys) → Distinct xs
Distinct-left [] ys d = tt
Distinct-left (x ∷ xs) ys d = (ground (arith, has-append x xs ys), Distinct-left xs ys d.1)

pub Distinct-right : (xs ys : List ℕ) → Distinct (xs ++ ys) → Distinct ys
Distinct-right [] ys d = d
Distinct-right (x ∷ xs) ys d = Distinct-right xs ys d.1

pub Distinct-apart :
    (b : ℕ) (xs ys : List ℕ) → Distinct (xs ++ ys) → has b xs ≡ true → has b ys ≡ false
Distinct-apart b [] ys d h = cc
Distinct-apart b (x ∷ xs) ys d h = elim (Bool-cases (x == b)) [
  | inl e ↦ let same : x ≡ b = ground arith in ground (arith, has-append b xs ys, d.0)
  | inr e ↦ Distinct-apart b xs ys d.1 (ground arith)
]

pub Distinct-middle :
    (xs : List ℕ) (a : ℕ) (ys : List ℕ) → Distinct (xs ++ a ∷ ys) → Distinct (a ∷ xs ++ ys)
Distinct-middle [] a ys d = d
Distinct-middle (x ∷ xs) a ys d =
    let rest = Distinct-middle xs a ys d.1 in
    (
      ground (arith, has-append x xs (a ∷ ys), rest.0),
      (ground (arith, has-append x xs (a ∷ ys), has-append x xs ys, d.0), rest.1),
    )

-- The first of a list, and the last, with what follows or comes before an empty one.
abbrev pub head_or : List ℕ → Option ℕ → Option ℕ
head_or [] o = o
head_or (x ∷ xs) o = some x

abbrev pub last_or : List ℕ → Option ℕ → Option ℕ
last_or [] o = o
last_or (x ∷ xs) o = last_or xs (some x)

pub has-last :
    (q x : ℕ) (xs : List ℕ) (o : Option ℕ) → last_or (x ∷ xs) o ≡ some q → has q (x ∷ xs) ≡ true
has-last q x [] o l = ground arith
has-last q x (y ∷ xs) o l = ground (arith, has-last q y xs (some x))

module _ {ℓ} {K V : Type ℓ} where
  -- The nodes `xs` are linked in both directions, between `p` and `e`.
  abbrev pub IsChain : (ℕ → ListNode K V) → Option ℕ → List ℕ → Option ℕ → Type 0
  IsChain n p [] e = Unit {0}
  IsChain n p (x ∷ xs) e = ((n x).prev ≡ p) × ((n x).next ≡ head_or xs e) × IsChain n (some x) xs e

  pub IsChain-append :
      (n : ℕ → ListNode K V) (p : Option ℕ) (xs ys : List ℕ) (e : Option ℕ)
      → IsChain n p xs (head_or ys e)
      → IsChain n (last_or xs p) ys e
      → IsChain n p (xs ++ ys) e
  IsChain-append n p [] ys e f g = g
  IsChain-append n p (x ∷ []) ys e f g = (f.0, f.1, g)
  IsChain-append n p (x ∷ y ∷ xs) ys e f g =
      (f.0, f.1, IsChain-append n (some x) (y ∷ xs) ys e f.2 g)

  pub IsChain-left :
      (n : ℕ → ListNode K V) (p : Option ℕ) (xs ys : List ℕ) (e : Option ℕ)
      → IsChain n p (xs ++ ys) e
      → IsChain n p xs (head_or ys e)
  IsChain-left n p [] ys e f = tt
  IsChain-left n p (x ∷ []) ys e f = (f.0, f.1, tt)
  IsChain-left n p (x ∷ y ∷ xs) ys e f = (f.0, f.1, IsChain-left n (some x) (y ∷ xs) ys e f.2)

  pub IsChain-right :
      (n : ℕ → ListNode K V) (p : Option ℕ) (xs ys : List ℕ) (e : Option ℕ)
      → IsChain n p (xs ++ ys) e
      → IsChain n (last_or xs p) ys e
  IsChain-right n p [] ys e f = f
  IsChain-right n p (x ∷ xs) ys e f = IsChain-right n (some x) xs ys e f.2

  -- A write elsewhere.
  pub IsChain-store :
      (n : ℕ → ListNode K V) (b : ℕ) (v : ListNode K V) (p : Option ℕ) (xs : List ℕ) (e : Option ℕ)
      → has b xs ≡ false
      → IsChain n p xs e
      → IsChain (store n b v) p xs e
  unfolding store
  IsChain-store n b v p [] e h f = tt
  IsChain-store n b v p (x ∷ xs) e h f =
      let apart : (x == b) ≡ false = ground arith in
      (rw apart f.0, rw apart f.1, IsChain-store n b v (some x) xs e (ground arith) f.2)

  -- The first node gets another predecessor.
  pub IsChain-set_prev :
      (n : ℕ → ListNode K V) (x : ℕ) (p p' : Option ℕ) (xs : List ℕ) (e : Option ℕ)
      → Distinct (x ∷ xs)
      → IsChain n p (x ∷ xs) e
      → IsChain (set_prev n x p') p' (x ∷ xs) e
  unfolding set_prev store
  IsChain-set_prev n x p p' xs e d f =
      let here : (x == x) ≡ true = ground arith in
      (rw here refl, rw here f.1, IsChain-store n x _ (some x) xs e d.0 f.2)

  -- The last node gets another successor.
  pub IsChain-set_next :
      (n : ℕ → ListNode K V) (q : ℕ) (p : Option ℕ) (xs : List ℕ) (e e' : Option ℕ)
      → Distinct xs
      → last_or xs none ≡ some q
      → IsChain n p xs e
      → IsChain (set_next n q e') p xs e'
  unfolding set_next store
  IsChain-set_next n q p [] e e' d l f = tt
  IsChain-set_next n q p (x ∷ []) e e' d l f =
      let here : (x == q) ≡ true = ground arith in
      let same : x ≡ q = ground arith in
      (rw here (subst (λ k. (n k).prev ≡ p) same f.0), rw here refl, tt)
  IsChain-set_next n q p (x ∷ y ∷ xs) e e' d l f =
      let later : has q (y ∷ xs) ≡ true = has-last q y xs none l in
      let apart : (x == q) ≡ false = ground arith in
      (rw apart f.0, rw apart f.1, IsChain-set_next n q (some x) (y ∷ xs) e e' d.1 l f.2)

  pub IsChain-set_value :
      (n : ℕ → ListNode K V) (b : ℕ) (v : V) (p : Option ℕ) (xs : List ℕ) (e : Option ℕ)
      → IsChain n p xs e
      → IsChain (set_value n b v) p xs e
  unfolding set_value store
  IsChain-set_value n b v p [] e f = tt
  IsChain-set_value n b v p (x ∷ xs) e f =
      (ground arith, ground arith, IsChain-set_value n b v (some x) xs e f.2)
