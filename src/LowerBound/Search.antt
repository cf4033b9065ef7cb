-- ===== src/LowerBound/Search.antt =====
-- The position that lower_bound returns, against its description.
use ob_preliminary.Common.{
  ℕ, zero, suc, ◌+◌, ◌-◌, ◌/◌, ◌≤◌, ◌<◌, ◌≡◌, ◌∙◌, sym, ◌⊎◌, inl, inr, Bool, true, false, leb,
  false≢true, arith, Bool-cases, not_true,
}
use ob_preliminary.Common.Int.{ℤ, pos, ltb_ℤ, eqb_ℤ}
use ob_preliminary.LowerBound.{lower_bound_loop, lower_bound}

-- The elements up to `last` are in strictly increasing order, as far as their comparisons `c` with the value show.
pub record IsSorted (c : ℕ → ℤ) (last : ℕ) : Type 0 where
  pub less : (i j : ℕ) → i < j → j < last → ltb_ℤ (c j) (pos 0) ≡ true → ltb_ℤ (c i) (pos 0) ≡ true
  pub equal : (i j : ℕ) → i < j → j < last → eqb_ℤ (pos 0) (c j) ≡ true → ltb_ℤ (c i) (pos 0) ≡ true

-- `p` splits the positions from `first` to `last`: those before it hold smaller elements, the others do not; and
-- the flag says whether the value is there.
pub record IsLowerBound (c : ℕ → ℤ) (first last : ℕ) (p : ℕ × Bool) : Type 0 where
  pub above : first ≤ p.0
  pub below : p.0 ≤ last
  pub smaller : (i : ℕ) → first ≤ i → i < p.0 → ltb_ℤ (c i) (pos 0) ≡ true
  pub others : (i : ℕ) → p.0 ≤ i → i < last → ltb_ℤ (c i) (pos 0) ≡ false
  pub found : p.1 ≡ true → (p.0 < last) × (eqb_ℤ (pos 0) (c p.0) ≡ true)
  pub missing : p.1 ≡ false → (i : ℕ) → first ≤ i → i < last → eqb_ℤ (pos 0) (c i) ≡ false

order : (i j : ℕ) → (i < j) ⊎ ((i ≡ j) ⊎ (j < i))
order i j = omega arith

-- A number is not both 0 and negative.
zero_not_negative : (x : ℤ) → eqb_ℤ (pos 0) x ≡ true → ltb_ℤ x (pos 0) ≡ false
zero_not_negative x e = ground arith

negative_not_zero : (x : ℤ) → ltb_ℤ x (pos 0) ≡ true → eqb_ℤ (pos 0) x ≡ false
negative_not_zero x l = ground arith

module _ (c : ℕ → ℤ) where
  empty-IsLowerBound : (first last : ℕ) → last ≡ first → IsLowerBound c first last (first, false)
  empty-IsLowerBound first last e = record {
    above = omega arith;
    below = omega arith;
    smaller = λ i a b. absurd (omega arith);
    others = λ i a b. absurd (omega arith);
    found = λ e. ground arith;
    missing = λ f i a b. absurd (omega arith);
  }

  part-IsSorted : (last iter : ℕ) → IsSorted c last → iter ≤ last → IsSorted c iter
  part-IsSorted last iter s h = record {
    less = λ i j a b. s.less i j a (omega arith);
    equal = λ i j a b. s.equal i j a (omega arith);
  }

  up_to :
      (last iter i : ℕ)
      → IsSorted c last
      → i ≤ iter
      → iter < last
      → ltb_ℤ (c iter) (pos 0) ≡ true
      → ltb_ℤ (c i) (pos 0) ≡ true
  up_to last iter i s a b l = elim (order i iter) [
    | inl h ↦ s.less i iter h b l
    | inr (inl h) ↦ rw (h, l)
    | inr (inr h) ↦ absurd (omega arith)
  ]

  from :
      (last iter i : ℕ)
      → IsSorted c last
      → iter ≤ i
      → i < last
      → ltb_ℤ (c iter) (pos 0) ≡ false
      → ltb_ℤ (c i) (pos 0) ≡ false
  from last iter i s a b l = not_true (λ t. sym l ∙ up_to last i iter s a b t)

  -- The middle element is the value.
  middle-IsLowerBound :
      (first last iter : ℕ)
      → IsSorted c last
      → first ≤ iter
      → iter < last
      → eqb_ℤ (pos 0) (c iter) ≡ true
      → IsLowerBound c first last (iter, true)
  middle-IsLowerBound first last iter s a b e = record {
    above = a;
    below = omega arith;
    smaller = λ i h k. s.equal i iter k b e;
    others = λ i h k. from last iter i s h k (zero_not_negative (c iter) e);
    found = λ t. (b, e);
    missing = λ f. absurd (false≢true (sym f));
  }

  -- The middle element is smaller: what holds of the right part holds of the whole.
  right-IsLowerBound :
      (first last iter : ℕ) (p : ℕ × Bool)
      → IsSorted c last
      → first ≤ iter
      → iter < last
      → ltb_ℤ (c iter) (pos 0) ≡ true
      → IsLowerBound c (iter + 1) last p
      → IsLowerBound c first last p
  right-IsLowerBound first last iter p s a b l r = record {
    above = omega (arith, r.above);
    below = r.below;
    smaller = λ i h k. elim (order i (iter + 1)) [
      | inl m ↦ up_to last iter i s (omega arith) b l
      | inr (inl m) ↦ r.smaller i (omega arith) k
      | inr (inr m) ↦ r.smaller i (omega arith) k
    ];
    others = r.others;
    found = r.found;
    missing = λ f i h k. elim (order i (iter + 1)) [
      | inl m ↦ negative_not_zero (c i) (up_to last iter i s (omega arith) b l)
      | inr (inl m) ↦ r.missing f i (omega arith) k
      | inr (inr m) ↦ r.missing f i (omega arith) k
    ];
  }

  -- The middle element is larger: what holds of the left part holds of the whole.
  left-IsLowerBound :
      (first last iter : ℕ) (p : ℕ × Bool)
      → IsSorted c last
      → first ≤ iter
      → iter < last
      → eqb_ℤ (pos 0) (c iter) ≡ false
      → ltb_ℤ (c iter) (pos 0) ≡ false
      → IsLowerBound c first iter p
      → IsLowerBound c first last p
  left-IsLowerBound first last iter p s a b n l r = record {
    above = r.above;
    below = omega (arith, r.below);
    smaller = r.smaller;
    others = λ i h k. elim (order i iter) [
      | inl m ↦ r.others i h m
      | inr (inl m) ↦ from last iter i s (omega arith) k l
      | inr (inr m) ↦ from last iter i s (omega arith) k l
    ];
    found = λ t. (omega (arith, (r.found t).0), (r.found t).1);
    missing = λ f i h k. elim (order i iter) [
      | inl m ↦ r.missing f i h m
      | inr (inl m) ↦ rw (m, n)
      | inr (inr m) ↦ not_true (λ t. sym l ∙ s.equal iter i m k t)
    ];
  }

lower_bound_loop-IsLowerBound {ℓ} :
    {T : Type ℓ} (at : ℕ → T) (val : T) (comp : T → T → ℤ) (fuel first last : ℕ)
    → IsSorted (λ i. comp (at i) val) last
    → first ≤ last
    → last - first ≤ fuel
    → IsLowerBound
        (λ i. comp (at i) val)
        first
        last
        (lower_bound_loop at val comp fuel first (last - first))
unfolding lower_bound_loop
lower_bound_loop-IsLowerBound at val comp zero first last s a f =
    empty-IsLowerBound _ first last (omega arith)
lower_bound_loop-IsLowerBound at val comp (suc fuel) first last s a f =
    let c : ℕ → ℤ = λ i. comp (at i) val in
    let iter : ℕ = first + (last - first) / 2 in
    elim (Bool-cases (leb (last - first) 0)) [
      | inl e ↦ rw (lower_bound_loop, e) (empty-IsLowerBound c first last (ground arith))
      | inr e ↦
          let inside : iter < last = ground arith in
          elim (Bool-cases (eqb_ℤ (pos 0) (c iter))) [
            | inl q ↦
                rw (lower_bound_loop, e, q)
                  (middle-IsLowerBound c first last iter s (omega arith) inside q)
            | inr q ↦ elim (Bool-cases (ltb_ℤ (c iter) (pos 0))) [
              | inl l ↦
                  let rest : (last - first) - ((last - first) / 2 + 1) ≡ last - (iter + 1) =
                    omega arith in
                  rw (lower_bound_loop, e, q, l, rest)
                    (right-IsLowerBound c first last iter _ s (omega arith) inside l (
                      lower_bound_loop-IsLowerBound at val comp fuel (iter + 1) last s (omega arith)
                        (omega arith)))
              | inr l ↦
                  let rest : (last - first) / 2 ≡ iter - first = omega arith in
                  rw (lower_bound_loop, e, q, l, rest)
                    (left-IsLowerBound c first last iter _ s (omega arith) inside q l (
                      lower_bound_loop-IsLowerBound at val comp fuel first iter
                        (part-IsSorted c last iter s (omega arith)) (omega arith) (omega arith)))
            ]
          ]
    ]

-- If the elements before last are in strictly increasing order for the comparison with the value, and first is not
-- behind last, lower_bound returns the position that splits the range: the elements before it are smaller, the others
-- are not; with the flag the element there compares equal, without it no element of the range does.
pub lower_bound_lem {ℓ} :
    {T : Type ℓ} (at : ℕ → T) (first last : ℕ) (val : T) (comp : T → T → ℤ)
    → IsSorted (λ i. comp (at i) val) last
    → first ≤ last
    → IsLowerBound (λ i. comp (at i) val) first last (lower_bound at first last val comp)
unfolding lower_bound
lower_bound_lem at first last val comp s a =
    lower_bound_loop-IsLowerBound at val comp (last - first) first last s a (omega arith)
