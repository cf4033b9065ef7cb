-- ===== src/Frames/Held.antt =====
-- A purge finds a frame where one is not pinned.
use ob_preliminary.Common.{
  ℕ, suc, ◌≡◌, ◌⊎◌, refl, sym, ap, ◌∙◌, inl, inr, Bool, true, false, false≢true, some, List, [],
  ◌∷◌, ◌==◌, leb, length, if◌then◌else◌, arith, Bool-cases, not_true,
}
use mathlib.Core.List.{reverse, reverse_aux}
use ob_preliminary.LruCache.Spec.{lookup}
use ob_preliminary.Frames.{FrameId, equal_to, BpFrameManager, can_purge, find_purgeable}
use ob_preliminary.Frames.Inv.{frame_of}

-- Whether a frame is among the entries.
held : ℕ → List (FrameId × ℕ) → Bool
held b [] = false
held b ((id, a) ∷ es) = if a == b then true else held b es

lookup-held :
    (j : FrameId) (b : ℕ) (es : List (FrameId × ℕ))
    → lookup equal_to j es ≡ some b
    → held b es ≡ true
unfolding lookup held
lookup-held j b [] l = absurd cc
lookup-held j b ((id, a) ∷ es) l = elim (Bool-cases (equal_to id j)) [
  | inl t ↦
      let same : some a ≡ some b = sym (rw t refl) ∙ l in
      let at : a ≡ b = cc in let here : (a == b) ≡ true = ground arith in rw here refl
  | inr f ↦ elim (Bool-cases (a == b)) [
    | inl h ↦ rw h refl
    | inr h ↦ rw h (lookup-held j b es (sym (rw f refl) ∙ l))
  ]
]

held-reverse_aux :
    (b : ℕ) (es acc : List (FrameId × ℕ))
    → ((held b es ≡ true) ⊎ (held b acc ≡ true))
    → held b (reverse_aux es acc) ≡ true
unfolding held
held-reverse_aux b [] acc (inl h) = absurd (false≢true h)
held-reverse_aux b [] acc (inr h) = h
held-reverse_aux b ((id, a) ∷ es) acc (inr h) =
    held-reverse_aux b es ((id, a) ∷ acc)
      (inr (elim (Bool-cases (a == b)) [ inl t ↦ rw t refl | inr f ↦ rw f h ]))
held-reverse_aux b ((id, a) ∷ es) acc (inl h) = elim (Bool-cases (a == b)) [
  | inl t ↦ held-reverse_aux b es ((id, a) ∷ acc) (inr (rw t refl))
  | inr f ↦ held-reverse_aux b es ((id, a) ∷ acc) (inl (sym (rw f refl) ∙ h))
]

find_some :
    (n b : ℕ) (es : List (FrameId × ℕ)) (m : BpFrameManager)
    → held b es ≡ true
    → can_purge (m.memory b) ≡ true
    → leb 1 (length (find_purgeable (suc n) es m).1) ≡ true
unfolding held find_purgeable
find_some n b [] m h p = absurd (false≢true h)
find_some n b ((id, a) ∷ es) m h p = elim (Bool-cases (can_purge (m.memory a))) [
  | inl t ↦ rw (find_purgeable, t) (ground arith)
  | inr f ↦
      let other : (a == b) ≡ false =
        not_true λ t.
          let same : a ≡ b = ground arith in sym f ∙ ap (λ c. can_purge (m.memory c)) same ∙ p in
      rw (find_purgeable, f) (find_some n b es m (sym (rw other refl) ∙ h) p)
]

pub finds_unpinned :
    (m : BpFrameManager) (j : FrameId) (b : ℕ)
    → frame_of m j ≡ some b
    → can_purge (m.memory b) ≡ true
    → leb 1 (length (find_purgeable 1 (reverse m.frames) m).1) ≡ true
finds_unpinned m j b l p =
    find_some 0 b (reverse m.frames) m
      (held-reverse_aux b m.frames [] (inl (lookup-held j b m.frames l))) p
