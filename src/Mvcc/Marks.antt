-- ===== src/Mvcc/Marks.antt =====
-- The operations of a transaction, and the marks that they leave on the rows of the store.
use mathlib.Core.List.{reverse, reverse-cons}
use ob_preliminary.Common.{
  ℕ, ◌≡◌, refl, sym, ap, ◌∙◌, subst, inl, inr, Option, Bool, true, false, ◌||◌, List, [], ◌∷◌, ◌++◌,
  none, some, ◌==◌, arith, Bool-cases,
}
use ob_preliminary.Common.Int.{pos, neg, ltb_ℤ}
use ob_preliminary.Common.Rc.{Rc, ob_succ, is_success}
use ob_preliminary.Mvcc.Store.{Row, RecordStore}
use ob_preliminary.Mvcc.{
  read_write, visit_record, new_row, Operation, insert_op, delete_op, insert_record_log,
  delete_record_log, World, MvccTrx, insert_record, delete_record,
}

abbrev pub same_op : Operation → Operation → Bool
same_op (insert_op i) (insert_op j) = i == j
same_op (delete_op i) (delete_op j) = i == j
same_op (insert_op i) (delete_op j) = false
same_op (delete_op i) (insert_op j) = false

abbrev pub has : Operation → List Operation → Bool
has op [] = false
has op (x ∷ xs) = same_op op x || has op xs

-- No operation twice: the transaction deletes no row a second time.
abbrev pub NoRepeat : List Operation → Type 0
NoRepeat [] = Unit {0}
NoRepeat (x ∷ xs) = (has x xs ≡ false) × NoRepeat xs

pub has-append :
    (op : Operation) (xs ys : List Operation) → has op (xs ++ ys) ≡ (has op xs || has op ys)
has-append op [] ys = refl
has-append op (x ∷ xs) ys = ground (arith, has-append op xs ys)

pub has-reverse : (op : Operation) (xs : List Operation) → has op (reverse xs) ≡ has op xs
has-reverse op [] = refl
has-reverse op (x ∷ xs) =
    ap (has op) (reverse-cons x xs)
    ∙ has-append op (reverse xs) (x ∷ [])
    ∙ ground (arith, has-reverse op xs)

same_op_refl : (op : Operation) → same_op op op ≡ true
same_op_refl (insert_op i) = ground arith
same_op_refl (delete_op i) = ground arith

same_op-sym : (a b : Operation) → same_op a b ≡ same_op b a
same_op-sym (insert_op i) (insert_op j) = ground arith
same_op-sym (delete_op i) (delete_op j) = ground arith
same_op-sym (insert_op i) (delete_op j) = refl
same_op-sym (delete_op i) (insert_op j) = refl

pub NoRepeat-snoc :
    (xs : List Operation) (x : Operation) → NoRepeat xs → has x xs ≡ false → NoRepeat (xs ++ x ∷ [])
NoRepeat-snoc [] x n h = (refl, tt)
NoRepeat-snoc (y ∷ xs) x n h = (
  has-append y xs (x ∷ []) ∙ ground (arith, same_op-sym x y),
  NoRepeat-snoc xs x n.1 (ground arith),
)

pub NoRepeat-init :
    (xs : List Operation) (x : Operation)
    → NoRepeat (xs ++ x ∷ [])
    → NoRepeat xs × (has x xs ≡ false)
NoRepeat-init [] x n = (tt, refl)
NoRepeat-init (y ∷ xs) x n =
    let rest = NoRepeat-init xs x n.1 in
    (
      (ground (arith, has-append y xs (x ∷ [])), rest.0),
      ground (arith, has-append y xs (x ∷ []), same_op-sym x y),
    )

pub NoRepeat-reverse : (xs : List Operation) → NoRepeat xs → NoRepeat (reverse xs)
NoRepeat-reverse [] n = tt
NoRepeat-reverse (x ∷ xs) n =
    subst NoRepeat (sym (reverse-cons x xs))
      (NoRepeat-snoc (reverse xs) x (NoRepeat-reverse xs n.1) (has-reverse x xs ∙ n.0))

-- What a call of a transaction with a positive id does when it is let through.
module _ (st : RecordStore) (w : World st) (trx : MvccTrx)
    (real : ltb_ℤ (pos 0) trx.trx_id ≡ true) where
  abbrev pub after_delete : ℕ → Row → World st
  after_delete rid r = record w {
    table = st.modify w.table rid (record r { end_xid = neg trx.trx_id });
    log = w.log ++ delete_record_log trx.trx_id rid ∷ [];
  }

  abbrev pub after_insert : ℕ → RecordStore.State st → World st
  after_insert rid table' = record w {
    table = table';
    log = w.log ++ insert_record_log trx.trx_id rid ∷ [];
  }

  abbrev pub did : Operation → MvccTrx
  did op = record trx { operations = trx.operations ++ op ∷ [] }

  pub delete_runs :
      (rid : ℕ) (r : Row)
      → st.lookup w.table rid ≡ some r
      → visit_record trx.trx_id r read_write ≡ Rc.success
      → delete_record st w trx rid Rc.success
        ≡ some (Rc.success, after_delete rid r, did (delete_op rid))
  unfolding delete_record
  delete_runs rid r found ok = rw (found, delete_record) (rw (ok, real))

  pub insert_runs :
      (payload : List ℕ) (rid : ℕ) (table' : RecordStore.State st)
      → st.insert w.table (new_row trx.trx_id payload) ≡ some (rid, table')
      → insert_record st w trx payload Rc.success
        ≡ some (Rc.success, after_insert rid table', did (insert_op rid))
  unfolding insert_record
  insert_runs payload rid table' e = rw (e, insert_record) (rw real)

  -- A call that is let through ends with SUCCESS, or at an ASSERT where the log refuses its entry.
  pub delete_ends :
      (P : Option (Rc × World st × MvccTrx) → Type 0) (rid : ℕ) (r : Row) (log_rc : Rc)
      → st.lookup w.table rid ≡ some r
      → visit_record trx.trx_id r read_write ≡ Rc.success
      → P none
      → P (some (Rc.success, after_delete rid r, did (delete_op rid)))
      → P (delete_record st w trx rid log_rc)
  unfolding delete_record
  delete_ends P rid r log_rc found ok stopped ran = elim (Bool-cases (ob_succ log_rc)) [
    | inl good ↦
        subst (λ c. P (delete_record st w trx rid c)) (sym (is_success log_rc good))
          (subst P (sym (delete_runs rid r found ok)) ran)
    | inr bad ↦
        let stops : delete_record st w trx rid log_rc ≡ none =
          rw (found, delete_record) (rw (ok, real, bad)) in
        subst P (sym stops) stopped
  ]

  pub insert_ends :
      (P : Option (Rc × World st × MvccTrx) → Type 0) (payload : List ℕ) (rid : ℕ)
      (table' : RecordStore.State st) (log_rc : Rc)
      → st.insert w.table (new_row trx.trx_id payload) ≡ some (rid, table')
      → P none
      → P (some (Rc.success, after_insert rid table', did (insert_op rid)))
      → P (insert_record st w trx payload log_rc)
  unfolding insert_record
  insert_ends P payload rid table' log_rc e stopped ran = elim (Bool-cases (ob_succ log_rc)) [
    | inl good ↦
        subst (λ c. P (insert_record st w trx payload c)) (sym (is_success log_rc good))
          (subst P (sym (insert_runs payload rid table' e)) ran)
    | inr bad ↦
        let stops : insert_record st w trx payload log_rc ≡ none =
          rw (e, insert_record) (rw (real, bad)) in
        subst P (sym stops) stopped
  ]
