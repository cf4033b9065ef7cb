-- ===== src/Dblwr/Slots.antt =====
-- The slots of the pages in the buffer's file, and the lookups of pages.
use ob_preliminary.Common.{
  ℕ, suc, ◌+◌, ◌≡◌, ◌↔◌, refl, sym, ap, ap₂, subst, ◌∙◌, inl, inr, true, false, Option, none, some,
  List, [], ◌∷◌, ◌++◌, length, if◌then◌else◌, arith, Bool-cases, not_true,
}
use ob_preliminary.Common.Int.{ℤ, eqb_ℤ→eq, eqb_ℤ-refl}
use ob_preliminary.Common.Rc.{Rc}
use ob_preliminary.Frames.{Page}
use ob_preliminary.Dblwr.{
  DoubleWritePageKey, same_key, Entry, DiskDoubleWriteBuffer, find_page, store_page, read_page,
}

pub same_key_iff : (a b : DoubleWritePageKey) → (same_key a b ≡ true) ↔ (a ≡ b)
same_key_iff a b = (there, back)
  where
    there : same_key a b ≡ true → a ≡ b
    there h =
        let pool : a.buffer_pool_id ≡ b.buffer_pool_id =
          eqb_ℤ→eq a.buffer_pool_id b.buffer_pool_id (ground arith) in
        let page : a.page_num ≡ b.page_num = eqb_ℤ→eq a.page_num b.page_num (ground arith) in
        ap₂
          (λ (x y : ℤ).
            let f : DoubleWritePageKey = record { buffer_pool_id = x; page_num = y } in f)
          pool page

    back : a ≡ b → same_key a b ≡ true
    back e =
        subst (λ c. same_key a c ≡ true) e (rw (eqb_ℤ-refl a.buffer_pool_id, eqb_ℤ-refl a.page_num))

-- The pages are in the slots from `n` on, one after the other, and none is deleted.
abbrev pub Slots : ℕ → List Entry → Type 0
Slots n [] = Unit {0}
Slots n (x ∷ xs) = (x.dblwr_page.page_index ≡ n) × (x.deleted ≡ false) × Slots (suc n) xs

pub store_page-Slots :
    (n : ℕ) (key : DoubleWritePageKey) (page : Page) (xs : List Entry)
    → Slots n xs
    → Slots n (store_page key page xs)
unfolding store_page
store_page-Slots n key page [] s = tt
store_page-Slots n key page (x ∷ xs) (i, d, s) = elim (Bool-cases (same_key x.dblwr_page.key key)) [
  | inl t ↦ rw t (i, d, s)
  | inr f ↦ rw f (i, d, store_page-Slots (suc n) key page xs s)
]

pub last-Slots :
    (n : ℕ) (x : Entry) (xs : List Entry)
    → Slots n xs
    → x.dblwr_page.page_index ≡ n + length xs
    → x.deleted ≡ false
    → Slots n (xs ++ x ∷ [])
last-Slots n x [] s i d = (ground arith, d, tt)
last-Slots n x (y ∷ ys) (j, e, s) i d = (j, e, last-Slots (suc n) x ys s (ground arith) d)

pub find_page-Slots :
    (n : ℕ) (key : DoubleWritePageKey) (x : Entry) (xs : List Entry)
    → Slots n xs
    → find_page key xs ≡ some x
    → x.deleted ≡ false
unfolding find_page
find_page-Slots n key x [] s e = absurd cc
find_page-Slots n key x (y ∷ ys) (i, d, s) e = elim (Bool-cases (same_key y.dblwr_page.key key)) [
  | inl t ↦
      let here : some y ≡ some x = sym (rw t refl) ∙ e in
      let same : y ≡ x = cc in ap (λ (z : Entry). z.deleted) (sym same) ∙ d
  | inr f ↦ find_page-Slots (suc n) key x ys s (sym (rw f refl) ∙ e)
]

-- The content of a page.
abbrev pub page_of : DoubleWritePageKey → List Entry → Option Page
page_of key [] = none
page_of key (x ∷ xs) =
    if same_key x.dblwr_page.key key then some x.dblwr_page.page else page_of key xs

pub find_page-page_of :
    (n : ℕ) (key : DoubleWritePageKey) (page : Page) (xs : List Entry)
    → Slots n xs
    → page_of key xs ≡ some page
    → (x : Entry) × (find_page key xs ≡ some x) × (x.deleted ≡ false) × (x.dblwr_page.page ≡ page)
unfolding find_page
find_page-page_of n key page [] s e = absurd cc
find_page-page_of n key page (y ∷ ys) (i, d, s) e =
    elim (Bool-cases (same_key y.dblwr_page.key key)) [
      | inl t ↦
          let here : some y.dblwr_page.page ≡ some page = sym (rw t refl) ∙ e in
          (y, rw t refl, d, cc)
      | inr f ↦
          let (x, found, live, same) =
            find_page-page_of (suc n) key page ys s (sym (rw f refl) ∙ e) in
          (x, rw f found, live, same)
    ]

pub find_page-last :
    (key k : DoubleWritePageKey) (x : Entry) (xs : List Entry)
    → x.dblwr_page.key ≡ key
    → find_page key xs ≡ none
    → page_of k (xs ++ x ∷ []) ≡ (if same_key key k then some x.dblwr_page.page else page_of k xs)
unfolding find_page
find_page-last key k x [] n out =
    let like : same_key x.dblwr_page.key k ≡ same_key key k = ap (λ c. same_key c k) n in
    elim (Bool-cases (same_key key k)) [
      | inl u ↦ let t = like ∙ u in rw (t, u) refl
      | inr g ↦ let f = like ∙ g in rw (f, g) refl
    ]
find_page-last key k x (y ∷ ys) n out = elim (Bool-cases (same_key y.dblwr_page.key key)) [
  | inl t ↦ absurd (let gone : some y ≡ none = sym (rw t refl) ∙ out in cc)
  | inr f ↦ elim (Bool-cases (same_key y.dblwr_page.key k)) [
    | inl u ↦
        let apart : same_key key k ≡ false = not_true λ t.
          sym f
          ∙ (same_key_iff y.dblwr_page.key key).1
              ((same_key_iff y.dblwr_page.key k).0 u ∙ sym ((same_key_iff key k).0 t)) in
        rw (u, apart) refl
    | inr g ↦ rw g (find_page-last key k x ys n (sym (rw f refl) ∙ out))
  ]
]

pub find_page-store_page :
    (key k : DoubleWritePageKey) (page : Page) (x : Entry) (xs : List Entry)
    → find_page key xs ≡ some x
    → page_of k (store_page key page xs) ≡ (if same_key key k then some page else page_of k xs)
unfolding find_page store_page
find_page-store_page key k page x [] e = absurd cc
find_page-store_page key k page x (y ∷ ys) e = elim (Bool-cases (same_key y.dblwr_page.key key)) [
  | inl t ↦
      let same : y.dblwr_page.key ≡ key = (same_key_iff y.dblwr_page.key key).0 t in
      let like : same_key y.dblwr_page.key k ≡ same_key key k = ap (λ c. same_key c k) same in
      elim (Bool-cases (same_key key k)) [
        | inl u ↦ let v = like ∙ u in rw t (rw (v, u) refl)
        | inr g ↦ let w = like ∙ g in rw t (rw (w, g) refl)
      ]
  | inr f ↦ elim (Bool-cases (same_key y.dblwr_page.key k)) [
    | inl u ↦
        let apart : same_key key k ≡ false = not_true λ t.
          sym f
          ∙ (same_key_iff y.dblwr_page.key key).1
              ((same_key_iff y.dblwr_page.key k).0 u ∙ sym ((same_key_iff key k).0 t)) in
        rw (f, u, apart) refl
    | inr g ↦ rw (f, g) (find_page-store_page key k page x ys (sym (rw f refl) ∙ e))
  ]
]

pub read_back :
    (b : DiskDoubleWriteBuffer) (key : DoubleWritePageKey) (page : Page)
    → Slots 0 b.dblwr_pages
    → page_of key b.dblwr_pages ≡ some page
    → read_page b key ≡ some (Rc.success, some page)
unfolding read_page
read_back b key page s e =
    let (x, found, live, same) = find_page-page_of 0 key page b.dblwr_pages s e in
    let run : read_page b key ≡ some (Rc.success, some x.dblwr_page.page) =
      simp (read_page, found, live) in
    run ∙ ap (λ (p : Page). some (Rc.success, some p)) same
