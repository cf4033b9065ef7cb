-- ===== src/Frames/Members.antt =====
-- The addresses of the pool's two lists.
use ob_preliminary.Common.{
  ℕ, ◌≡◌, ◌⊎◌, refl, sym, subst, ◌∙◌, inl, inr, true, false, false≢true, List, [], ◌∷◌, ◌++◌, ◌==◌,
  arith, Bool-cases, not_true,
}
use ob_preliminary.Frames.{member, drop_one}
use ob_preliminary.Frames.Inv.{Once}

-- Two addresses of which one is in a list and one is not.
pub ne_of_member :
    (b a : ℕ) (xs : List ℕ)
    → member a xs ≡ false
    → member b xs ≡ true
    → ((b == a) ≡ false) × ((a == b) ≡ false)
ne_of_member b a xs n l =
    let ne : (a == b) ≡ false =
      not_true
        λ t. let same : b ≡ a = ground arith in sym n ∙ subst (λ c. member c xs ≡ true) same l in
    (ground arith, ne)

pub member-drop_one :
    (b a : ℕ) (xs : List ℕ) → (b == a) ≡ false → member b (drop_one a xs) ≡ member b xs
unfolding drop_one
member-drop_one b a [] n = refl
member-drop_one b a (x ∷ xs) n = elim (Bool-cases (x == a)) [
  | inl t ↦ let other : (x == b) ≡ false = ground arith in rw (t, other) refl
  | inr f ↦ rw (f, member-drop_one b a xs n) refl
]

pub drop_one_self : (a : ℕ) (xs : List ℕ) → Once xs → member a (drop_one a xs) ≡ false
unfolding drop_one
drop_one_self a [] o = refl
drop_one_self a (x ∷ xs) o = elim (Bool-cases (x == a)) [
  | inl t ↦ let same : x ≡ a = ground arith in rw t (subst (λ c. member c xs ≡ false) same o.0)
  | inr f ↦ rw f (rw f (drop_one_self a xs o.1))
]

pub drop_one-Once : (a : ℕ) (xs : List ℕ) → Once xs → Once (drop_one a xs)
unfolding drop_one
drop_one-Once a [] o = tt
drop_one-Once a (x ∷ xs) o = elim (Bool-cases (x == a)) [
  | inl t ↦ rw t o.1
  | inr f ↦ rw f (member-drop_one x a xs f ∙ o.0, drop_one-Once a xs o.1)
]

pub member_last :
    (b a : ℕ) (xs : List ℕ) → member b (xs ++ a ∷ []) ≡ true → (member b xs ≡ true) ⊎ (b ≡ a)
member_last b a [] l = elim (Bool-cases (a == b)) [
  | inl t ↦ inr (ground arith)
  | inr f ↦ absurd (false≢true (sym (rw f refl) ∙ l))
]
member_last b a (x ∷ xs) l = elim (Bool-cases (x == b)) [
  | inl t ↦ inl (rw t refl)
  | inr f ↦ elim (member_last b a xs (sym (rw f refl) ∙ l)) [ inl h ↦ inl (rw f h) | inr e ↦ inr e ]
]

pub last_out :
    (b a : ℕ) (xs : List ℕ)
    → member b xs ≡ false
    → (a == b) ≡ false
    → member b (xs ++ a ∷ []) ≡ false
last_out b a xs n f =
    not_true λ t. elim (member_last b a xs t) [ inl h ↦ sym n ∙ h | inr e ↦ ground arith ]

pub last-Once : (a : ℕ) (xs : List ℕ) → Once xs → member a xs ≡ false → Once (xs ++ a ∷ [])
last-Once a [] o n = (refl, tt)
last-Once a (x ∷ xs) o n = elim (Bool-cases (x == a)) [
  | inl t ↦ absurd (false≢true (sym n ∙ rw t refl))
  | inr f ↦ (last_out x a xs o.0 (ground arith), last-Once a xs o.1 (sym (rw f refl) ∙ n))
]
