-- ===== src/Common/First.antt =====
-- The result of a search over an index range: the first index at which a test has a given value.
use ob_preliminary.Common.{
  ℕ, ◌+◌, ◌-◌, ◌≤◌, ◌<◌, ◌≡◌, ◌∙◌, ◌⊎◌, inl, inr, Bool, true, false, Option, none, some, arith,
}

-- `o` is the first index of [lo, hi) at which `p` gives `want`, and `none` if there is no such index.
abbrev pub FirstAt : (ℕ → Bool) → Bool → ℕ → ℕ → Option ℕ → Type 0
FirstAt p want lo hi none =
    (j : ℕ) → lo ≤ j → j < hi → p j ≡ elim want [ true ↦ false | false ↦ true ]
FirstAt p want lo hi (some k) =
    (lo ≤ k)
    × (k < hi)
    × (p k ≡ want)
    × ((j : ℕ) → lo ≤ j → j < k → p j ≡ elim want [ true ↦ false | false ↦ true ])

abbrev flip : Bool → Bool
flip want = elim want [ true ↦ false | false ↦ true ]

module _ (p : ℕ → Bool) (want : Bool) where
  pub FirstAt-here : (lo hi : ℕ) → lo < hi → p lo ≡ want → FirstAt p want lo hi (some lo)
  FirstAt-here lo hi h e = (omega arith, h, e, λ j a b. absurd (omega arith))

  -- A range that was searched in vain, followed by another.
  pub FirstAt-append :
      (lo mid hi : ℕ) (o : Option ℕ)
      → lo ≤ mid
      → FirstAt p want lo mid none
      → FirstAt p want mid hi o
      → FirstAt p want lo hi o
  FirstAt-append lo mid hi none l f g =
      λ j a b. elim (split j) [ inl c ↦ f j a c | inr c ↦ g j c b ]
    where
      split : (j : ℕ) → (j < mid) ⊎ (mid ≤ j)
      split j = omega arith
  FirstAt-append lo mid hi (some k) l f (a, b, e, g) =
      (omega arith, b, e, λ j c d. elim (split j) [ inl h ↦ f j c h | inr h ↦ g j h d ])
    where
      split : (j : ℕ) → (j < mid) ⊎ (mid ≤ j)
      split j = omega arith

  pub FirstAt-widen :
      (lo mid hi k : ℕ) → mid ≤ hi → FirstAt p want lo mid (some k) → FirstAt p want lo hi (some k)
  FirstAt-widen lo mid hi k h (a, b, e, g) = (a, omega arith, e, g)

  -- A hit at or past `hi` says that [lo, hi) has none.
  pub FirstAt-cut :
      (lo hi big k : ℕ) → hi ≤ k → FirstAt p want lo big (some k) → FirstAt p want lo hi none
  FirstAt-cut lo hi big k h (a, b, e, g) = λ j c d. g j c (omega arith)

  pub FirstAt-shorten :
      (lo hi big : ℕ) → hi ≤ big → FirstAt p want lo big none → FirstAt p want lo hi none
  FirstAt-shorten lo hi big h g = λ j c d. g j c (omega arith)

  pub FirstAt-empty : (lo hi : ℕ) → hi ≤ lo → FirstAt p want lo hi none
  FirstAt-empty lo hi h = λ j a b. absurd (omega arith)

-- The same search under a test that agrees with `p`, read at an offset.
pub FirstAt-shift :
    (p q : ℕ → Bool) (want : Bool) (base lo hi : ℕ) (o : Option ℕ)
    → ((j : ℕ) → j < hi → q (base + j) ≡ p j)
    → FirstAt p want lo hi o
    → FirstAt q want (base + lo) (base + hi) (elim o [ none ↦ none | some k ↦ some (base + k) ])
FirstAt-shift p q want base lo hi none same f = λ j a b. go j a b
  where
    open_at : (j d : ℕ) → j ≡ base + d → d < hi → lo ≤ d → q j ≡ flip want
    open_at j d e l m = rw e (same d l ∙ f d m l)

    go : (j : ℕ) → base + lo ≤ j → j < base + hi → q j ≡ flip want
    go j a b = open_at j (j - base) (omega arith) (omega arith) (omega arith)
FirstAt-shift p q want base lo hi (some k) same (a, b, e, g) =
    (omega arith, omega arith, same k b ∙ e, go)
  where
    open_at : (j d : ℕ) → j ≡ base + d → d < k → lo ≤ d → q j ≡ flip want
    open_at j d h l m = rw h (same d (omega arith) ∙ g d m l)

    go : (j : ℕ) → base + lo ≤ j → j < base + k → q j ≡ flip want
    go j c d = open_at j (j - base) (omega arith) (omega arith) (omega arith)
