-- ===== src/LruCache/Spec.antt =====
-- What a cache promises: its entries, from the most recently used one on.
use ob_preliminary.Common.{Bool, Option, none, some, List, [], ◌∷◌, if◌then◌else◌}

module _ {ℓ} {K V : Type ℓ} (pred : K → K → Bool) where
  unfoldable pub lookup : K → List (K × V) → Option V
  lookup k [] = none
  lookup k ((j, v) ∷ es) = if pred j k then some v else lookup k es

  -- The entries without the first one for the key.
  unfoldable pub without : K → List (K × V) → List (K × V)
  without k [] = []
  without k ((j, v) ∷ es) = if pred j k then es else (j, v) ∷ without k es

  -- The entry for a key is used: it comes to the front.
  unfoldable pub used : K → V → List (K × V) → List (K × V)
  unfolding without
  used k v es = (k, v) ∷ without k es

  -- A key that is found is used.
  unfoldable pub looked_up : K → List (K × V) → List (K × V)
  looked_up k es = elim (lookup k es) [ none ↦ es | some v ↦ used k v es ]

-- The entries that a walk visits: up to the first at which the function returns false.
unfoldable pub visited {ℓ} : {K V : Type ℓ} → (K → V → Bool) → List (K × V) → List (K × V)
visited func [] = []
visited func ((k, v) ∷ es) = (k, v) ∷ (if func k v then visited func es else [])
