-- ===== src/LruCache/Walk.antt =====
-- foreach and foreach_reverse against the list of entries.
use ob_preliminary.Common.{
  ℕ, zero, suc, ◌≤◌, ◌≡◌, refl, sym, ap, subst, ◌∙◌, Bool, Option, none, some, List, [], ◌∷◌, ◌++◌,
  length, length-append, arith,
}
use mathlib.Core.List.{reverse, reverse-cons, reverse-reverse}
use ob_preliminary.LruCache.{
  ListNode, LruCache, foreach_loop, foreach, foreach_reverse_loop, foreach_reverse,
}
use ob_preliminary.LruCache.Chain.{head_or, last_or, IsChain, IsChain-left, IsChain-right}
use ob_preliminary.LruCache.Invariant.{last_or-append}
use ob_preliminary.LruCache.Spec.{visited}
use ob_preliminary.LruCache.Entries.{entries, entries-append}
use ob_preliminary.LruCache.Refine.{Holds}

length-reverse : (xs : List ℕ) → length (reverse xs) ≡ length xs
length-reverse [] = refl
length-reverse (x ∷ xs) =
    ap length (reverse-cons x xs)
    ∙ length-append (reverse xs) (x ∷ [])
    ∙ omega (arith, length-reverse xs)

module _ {ℓ} {K V : Type ℓ} (n : ℕ → ListNode K V) (func : K → V → Bool) where
  walk :
      (fuel : ℕ) (p : Option ℕ) (xs : List ℕ)
      → length xs ≤ fuel
      → IsChain n p xs none
      → foreach_loop fuel n func (head_or xs none) ≡ visited func (entries n xs)
  unfolding foreach_loop visited
  walk zero p [] h f = refl
  walk (suc fuel) p [] h f = refl
  walk zero p (x ∷ xs) h f = absurd (omega arith)
  walk (suc fuel) p (x ∷ xs) h f = rw (f.1, walk fuel (some x) xs (omega arith) f.2)

  -- The nodes are given from the last one on.
  walk_back :
      (fuel : ℕ) (xs : List ℕ) (e : Option ℕ)
      → length xs ≤ fuel
      → IsChain n none (reverse xs) e
      → foreach_reverse_loop fuel n func (last_or (reverse xs) none) ≡ visited func (entries n xs)
  unfolding foreach_reverse_loop visited
  walk_back zero [] e h f = refl
  walk_back (suc fuel) [] e h f = refl
  walk_back zero (x ∷ xs) e h f = absurd (omega arith)
  walk_back (suc fuel) (x ∷ xs) e h f =
      let chain = subst (λ t. IsChain n none t e) (reverse-cons x xs) f in
      let right = IsChain-right n none (reverse xs) (x ∷ []) e chain in
      let rest =
        walk_back fuel xs (some x) (omega arith)
          (IsChain-left n none (reverse xs) (x ∷ []) e chain) in
      let start : last_or (reverse (x ∷ xs)) none ≡ some x =
        ap (λ t. last_or t none) (reverse-cons x xs) ∙ last_or-append (reverse xs) (x ∷ []) none in
      rw (start, right.0, rest)

module _ {ℓ} {K V : Type ℓ} (n : ℕ → ListNode K V) where
  entries-reverse : (xs : List ℕ) → entries n (reverse xs) ≡ reverse (entries n xs)
  entries-reverse [] = refl
  entries-reverse (x ∷ xs) =
      ap (entries n) (reverse-cons x xs)
      ∙ entries-append n (reverse xs) (x ∷ [])
      ∙ ap (λ t. t ++ ((n x).key, (n x).value) ∷ []) (entries-reverse xs)
      ∙ sym (reverse-cons ((n x).key, (n x).value) (entries n xs))

-- foreach calls the function on the entries of the cache in order, from the last one used on, until it returns
-- false, and foreach_reverse does so from the other end.
pub foreach_lem {ℓ} :
    {K V : Type ℓ} (c : LruCache K V) (es : List (K × V)) (func : K → V → Bool)
    → Holds c es
    → (foreach c func ≡ visited func es) × (foreach_reverse c func ≡ visited func (reverse es))
unfolding foreach foreach_reverse
foreach_lem c es func h =
    let v = h.ring in
    let fuel = length c.searcher in
    let enough : length (reverse h.order) ≤ fuel =
      omega (arith, length-reverse h.order, v.number) in
    let back =
      walk_back c.nodes func fuel (reverse h.order) none enough
        (subst (λ t. IsChain c.nodes none t none) (sym (reverse-reverse h.order)) v.chain) in
    let at_tail : last_or (reverse (reverse h.order)) none ≡ c.lru_tail =
      ap (λ t. last_or t none) (reverse-reverse h.order) ∙ sym v.tail in
    (
      ap (foreach_loop fuel c.nodes func) v.front
          ∙ walk c.nodes func fuel none h.order (omega (arith, v.number)) v.chain
          ∙ ap (visited func) h.shown,
      ap (foreach_reverse_loop fuel c.nodes func) (sym at_tail)
          ∙ back
          ∙ ap (visited func) (entries-reverse c.nodes h.order ∙ ap reverse h.shown),
    )
