-- ===== src/LruCache/Entries.antt =====
-- The entries that the nodes hold, and what a search by key finds in them.
use ob_preliminary.Common.{
  ℕ, ◌≡◌, refl, sym, ap, ap₂, subst, ◌∙◌, inl, inr, Bool, true, false, none, some, List, [], ◌∷◌,
  ◌++◌, append-nil, ◌==◌, if◌then◌else◌, arith, Bool-cases, false≢true,
}
use ob_preliminary.LruCache.{ListNode, store, find}
use ob_preliminary.LruCache.Chain.{has}
use ob_preliminary.LruCache.Links.{SameEntries}
use ob_preliminary.LruCache.Spec.{lookup, without}

-- A list at a member.
pub split_at :
    (a : ℕ) (xs : List ℕ) → has a xs ≡ true → (l : List ℕ) × (r : List ℕ) × (xs ≡ l ++ a ∷ r)
split_at a [] h = absurd (false≢true h)
split_at a (x ∷ xs) h = elim (Bool-cases (x == a)) [
  | inl e ↦ ([], xs, ap (λ t. t ∷ xs) (ground arith))
  | inr e ↦ let (l, r, q) = split_at a xs (ground arith) in (x ∷ l, r, ap (◌∷◌ x) q)
]

some_inj : {a b : ℕ} → some a ≡ some b → a ≡ b
some_inj e = cc

some_ne : {a : ℕ} → some a ≡ none → ⊥
some_ne e = cc

module _ {ℓ} {K V : Type ℓ} where
  -- What the nodes `xs` hold.
  abbrev pub entries : (ℕ → ListNode K V) → List ℕ → List (K × V)
  entries n [] = []
  entries n (x ∷ xs) = ((n x).key, (n x).value) ∷ entries n xs

  pub entries-append :
      (n : ℕ → ListNode K V) (xs ys : List ℕ) → entries n (xs ++ ys) ≡ entries n xs ++ entries n ys
  entries-append n [] ys = refl
  entries-append n (x ∷ xs) ys = ap (◌∷◌ ((n x).key, (n x).value)) (entries-append n xs ys)

  -- A write to a node that is not among them.
  pub entries-store :
      (n : ℕ → ListNode K V) (b : ℕ) (v : ListNode K V) (xs : List ℕ)
      → has b xs ≡ false
      → entries (store n b v) xs ≡ entries n xs
  unfolding store
  entries-store n b v [] h = refl
  entries-store n b v (x ∷ xs) h =
      let apart : (x == b) ≡ false = ground arith in
      rw apart (ap (◌∷◌ ((n x).key, (n x).value)) (entries-store n b v xs (ground arith)))

  pub entries-same :
      (n m : ℕ → ListNode K V) (xs : List ℕ) → SameEntries n m → entries m xs ≡ entries n xs
  entries-same n m [] same = refl
  entries-same n m (x ∷ xs) same =
      ap₂ (◌∷◌) (ap₂ (λ k v. (k, v)) (same x).0 (same x).1) (entries-same n m xs same)

module _ {ℓ} {K V : Type ℓ} (pred : K → K → Bool) where
  pub find-some :
      (n : ℕ → ListNode K V) (s : List ℕ) (k : K) (a : ℕ)
      → find pred n s k ≡ some a
      → (has a s ≡ true) × (pred (n a).key k ≡ true)
  unfolding find
  find-some n [] k a e = cc
  find-some n (x ∷ s) k a e = elim (Bool-cases (pred (n x).key k)) [
    | inl t ↦
        let same : x ≡ a = some_inj (sym (ap (λ b. if b then some x else find pred n s k) t) ∙ e) in
        (ground arith, subst (λ b. pred (n b).key k ≡ true) same t)
    | inr f ↦
        let rest =
          find-some n s k a (sym (ap (λ b. if b then some x else find pred n s k) f) ∙ e) in
        (ground (arith, rest.0), rest.1)
  ]

  pub find-none :
      (n : ℕ → ListNode K V) (s : List ℕ) (k : K)
      → find pred n s k ≡ none
      → (a : ℕ) → has a s ≡ true
      → pred (n a).key k ≡ false
  unfolding find
  find-none n [] k e a h = absurd (false≢true h)
  find-none n (x ∷ s) k e a h = elim (Bool-cases (pred (n x).key k)) [
    | inl t ↦ absurd (some_ne (sym (ap (λ b. if b then some x else find pred n s k) t) ∙ e))
    | inr f ↦ elim (Bool-cases (x == a)) [
      | inl q ↦ let same : x ≡ a = ground arith in subst (λ b. pred (n b).key k ≡ false) same f
      | inr q ↦
          find-none n s k (sym (ap (λ b. if b then some x else find pred n s k) f) ∙ e) a
            (ground arith)
    ]
  ]

  -- Nodes whose keys differ from `k` are passed over.
  module _ (n : ℕ → ListNode K V) (k : K) where
    abbrev pub Others : List ℕ → Type 0
    Others l = (b : ℕ) → has b l ≡ true → pred (n b).key k ≡ false

    Others-tail : (x : ℕ) (l : List ℕ) → Others (x ∷ l) → (pred (n x).key k ≡ false) × Others l
    Others-tail x l o = (o x (ground arith), λ b h. o b (ground arith))

    lookup-Others :
        (l m : List ℕ) → Others l → lookup pred k (entries n (l ++ m)) ≡ lookup pred k (entries n m)
    unfolding lookup
    lookup-Others [] m o = refl
    lookup-Others (x ∷ l) m o = let (f, rest) = Others-tail x l o in rw f (lookup-Others l m rest)

    without-Others :
        (l m : List ℕ)
        → Others l
        → without pred k (entries n (l ++ m)) ≡ entries n l ++ without pred k (entries n m)
    unfolding without
    without-Others [] m o = refl
    without-Others (x ∷ l) m o =
        let (f, rest) = Others-tail x l o in
        rw f (ap (◌∷◌ ((n x).key, (n x).value)) (without-Others l m rest))

    pub lookup-at :
        (l : List ℕ) (a : ℕ) (r : List ℕ)
        → Others l
        → pred (n a).key k ≡ true
        → lookup pred k (entries n (l ++ a ∷ r)) ≡ some (n a).value
    unfolding lookup
    lookup-at l a r o t = lookup-Others l (a ∷ r) o ∙ rw t refl

    pub without-at :
        (l : List ℕ) (a : ℕ) (r : List ℕ)
        → Others l
        → pred (n a).key k ≡ true
        → without pred k (entries n (l ++ a ∷ r)) ≡ entries n (l ++ r)
    unfolding without
    without-at l a r o t = without-Others l (a ∷ r) o ∙ rw t (sym (entries-append n l r))

    pub lookup-none : (l : List ℕ) → Others l → lookup pred k (entries n l) ≡ none
    unfolding lookup
    lookup-none l o =
        ap (λ t. lookup pred k (entries n t)) (sym (append-nil l)) ∙ lookup-Others l [] o

    pub without-none : (l : List ℕ) → Others l → without pred k (entries n l) ≡ entries n l
    unfolding without
    without-none [] o = refl
    without-none (x ∷ l) o =
        let (f, rest) = Others-tail x l o in
        rw f (ap (◌∷◌ ((n x).key, (n x).value)) (without-none l rest))
