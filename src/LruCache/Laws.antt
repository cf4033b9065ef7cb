-- ===== src/LruCache/Laws.antt =====
-- Lookups in the list of entries after it is used, searched or cut.
use ob_preliminary.Common.{
  ◌≡◌, ◌↔◌, refl, sym, ap, ◌∙◌, inl, inr, Bool, true, false, none, some, List, [], ◌∷◌,
  if◌then◌else◌, Bool-cases, Option-cases, not_true,
}
use ob_preliminary.LruCache.Spec.{lookup, without, used, looked_up}

module _ {ℓ} {K V : Type ℓ} (pred : K → K → Bool) where
  -- No key has two entries.
  abbrev pub IsUnique : List (K × V) → Type ℓ
  IsUnique [] = Unit
  IsUnique ((k, v) ∷ es) = (lookup pred k es ≡ none) × IsUnique es

module _ {ℓ} {K V : Type ℓ} (pred : K → K → Bool)
    (pred_iff : (a b : K) → (pred a b ≡ true) ↔ (a ≡ b)) where
  pub lookup-without_ne :
      (k j : K) (es : List (K × V))
      → pred k j ≡ false
      → lookup pred j (without pred k es) ≡ lookup pred j es
  unfolding lookup without
  lookup-without_ne k j [] f = refl
  lookup-without_ne k j ((i, v) ∷ es) f = elim (Bool-cases (pred i k)) [
    | inl t ↦
        let other : pred i j ≡ false =
          not_true λ u. sym f ∙ (pred_iff k j).1 (sym ((pred_iff i k).0 t) ∙ (pred_iff i j).0 u) in
        rw (t, other)
    | inr g ↦ rw (g, lookup-without_ne k j es f)
  ]

  pub lookup-used :
      (k j : K) (v : V) (es : List (K × V))
      → lookup pred j (used pred k v es) ≡ (if pred k j then some v else lookup pred j es)
  unfolding lookup used
  lookup-used k j v es = elim (Bool-cases (pred k j)) [
    | inl t ↦ rw t
    | inr f ↦ rw (f, lookup-without_ne k j es f)
  ]

  pub lookup-looked_up :
      (k j : K) (es : List (K × V)) → lookup pred j (looked_up pred k es) ≡ lookup pred j es
  unfolding looked_up
  lookup-looked_up k j es = elim (Option-cases (lookup pred k es)) [
    | inl e ↦ rw (looked_up, e)
    | inr (v, e) ↦ elim (Bool-cases (pred k j)) [
      | inl t ↦
          let same : lookup pred j es ≡ some v =
            ap (λ i. lookup pred i es) (sym ((pred_iff k j).0 t)) ∙ e in
          rw (looked_up, e) (lookup-used k j v es ∙ rw (t, same))
      | inr f ↦ rw (looked_up, e) (lookup-used k j v es ∙ rw f)
    ]
  ]

  pub lookup-without_self :
      (k : K) (es : List (K × V)) → IsUnique pred es → lookup pred k (without pred k es) ≡ none
  unfolding lookup without
  lookup-without_self k [] u = refl
  lookup-without_self k ((i, v) ∷ es) u = elim (Bool-cases (pred i k)) [
    | inl t ↦ rw t (ap (λ j. lookup pred j es) (sym ((pred_iff i k).0 t)) ∙ u.0)
    | inr f ↦ rw f (rw f (lookup-without_self k es u.1))
  ]

  pub without-IsUnique :
      (k : K) (es : List (K × V)) → IsUnique pred es → IsUnique pred (without pred k es)
  unfolding without
  without-IsUnique k [] u = u
  without-IsUnique k ((i, v) ∷ es) u = elim (Bool-cases (pred i k)) [
    | inl t ↦ rw t u.1
    | inr f ↦
        let other : pred k i ≡ false =
          not_true λ t. sym f ∙ (pred_iff i k).1 (sym ((pred_iff k i).0 t)) in
        rw f (lookup-without_ne k i es other ∙ u.0, without-IsUnique k es u.1)
  ]

  pub used-IsUnique :
      (k : K) (v : V) (es : List (K × V)) → IsUnique pred es → IsUnique pred (used pred k v es)
  unfolding used
  used-IsUnique k v es u = (lookup-without_self k es u, without-IsUnique k es u)

  pub looked_up-IsUnique :
      (k : K) (es : List (K × V)) → IsUnique pred es → IsUnique pred (looked_up pred k es)
  unfolding looked_up
  looked_up-IsUnique k es u = elim (Option-cases (lookup pred k es)) [
    | inl e ↦ rw (looked_up, e) u
    | inr (v, e) ↦ rw (looked_up, e) (used-IsUnique k v es u)
  ]
