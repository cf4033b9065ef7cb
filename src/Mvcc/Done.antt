-- ===== src/Mvcc/Done.antt =====
-- What the calls of a transaction inserted and deleted, by what they were given and what they returned.
use ob_preliminary.Common.{
  ℕ, ◌≡◌, ◌∙◌, inl, inr, Bool, true, false, List, [], ◌∷◌, Option, none, some, ◌==◌, if◌then◌else◌,
  arith, Bool-cases, Option-cases, not_true,
}
use ob_preliminary.Common.Int.{pos, ltb_ℤ}
use ob_preliminary.Common.Rc.{Rc, ob_succ}
use ob_preliminary.Mvcc.Store.{RecordStore}
use ob_preliminary.Mvcc.{
  insert_op, delete_op, read_write, visit_record, new_row, World, MvccTrx, insert_record,
  delete_record,
}
use ob_preliminary.Mvcc.Marks.{has, has-append, insert_ends, delete_ends}
use ob_preliminary.Mvcc.Script.{Run, start, inserted, deleted, success-only}

-- The table gave one of the inserted rows the address `j`.
unfoldable pub did_insert :
    (st : RecordStore) {w0 : World st} {trx0 : MvccTrx} {w : World st} {trx : MvccTrx}
    → Run st w0 trx0 w trx
    → ℕ
    → Bool
did_insert st start j = false
did_insert st (inserted {w = w} {trx = trx} rc payload log_rc run e) j =
    let before = did_insert st run j in
    elim (st.insert w.table (new_row trx.trx_id payload)) [
      | none ↦ before
      | some (rid, table') ↦ if j == rid then true else before
    ]
did_insert st (deleted rc rid log_rc run alive e) j = did_insert st run j

-- A deletion of the row at `j` returned SUCCESS.
unfoldable pub did_delete :
    (st : RecordStore) {w0 : World st} {trx0 : MvccTrx} {w : World st} {trx : MvccTrx}
    → Run st w0 trx0 w trx
    → ℕ
    → Bool
did_delete st start j = false
did_delete st (inserted rc payload log_rc run e) j = did_delete st run j
did_delete st (deleted rc rid log_rc run alive e) j =
    let before = did_delete st run j in
    if ob_succ rc then if j == rid then true else before else before

module _ (st : RecordStore) (j : ℕ) (was_inserted was_deleted : Bool) where
  -- The operations that a call leaves tell whether row `j` was inserted and deleted.
  unfoldable pub InsertTells : Bool → Option (Rc × World st × MvccTrx) → Type 0
  InsertTells now none = Unit {0}
  InsertTells now (some (rc, w, trx)) =
      (has (insert_op j) trx.operations ≡ now) × (has (delete_op j) trx.operations ≡ was_deleted)

  unfoldable pub DeleteTells : ℕ → Option (Rc × World st × MvccTrx) → Type 0
  DeleteTells rid none = Unit {0}
  DeleteTells rid (some (rc, w, trx)) =
      (has (insert_op j) trx.operations ≡ was_inserted)
      × (has (delete_op j) trx.operations
          ≡ (if ob_succ rc then if j == rid then true else was_deleted else was_deleted))

  module _ (w : World st) (trx : MvccTrx) (real : ltb_ℤ (pos 0) trx.trx_id ≡ true)
      (i : has (insert_op j) trx.operations ≡ was_inserted)
      (d : has (delete_op j) trx.operations ≡ was_deleted) where
    pub insert-Tells :
        (payload : List ℕ) (log_rc : Rc)
        → InsertTells
            (elim (st.insert w.table (new_row trx.trx_id payload)) as (λ x. Bool) [
              | none ↦ was_inserted
              | some (rid, table') ↦ if j == rid then true else was_inserted
            ])
            (insert_record st w trx payload log_rc)
    unfolding InsertTells insert_record
    insert-Tells payload log_rc =
        elim (Option-cases (st.insert w.table (new_row trx.trx_id payload))) [
          | inl f ↦ rw (f, insert_record) (i, d)
          | inr ((rid, table'), f) ↦ rw f (
              insert_ends st w trx real (InsertTells (if j == rid then true else was_inserted))
                payload rid table' log_rc f tt
                (
                  has-append (insert_op j) trx.operations (insert_op rid ∷ []) ∙ ground (arith, i),
                  has-append (delete_op j) trx.operations (insert_op rid ∷ []) ∙ ground (arith, d),
                ))
        ]

    pub delete-Tells : (rid : ℕ) (log_rc : Rc) → DeleteTells rid (delete_record st w trx rid log_rc)
    unfolding DeleteTells delete_record
    delete-Tells rid log_rc = elim (Option-cases (st.lookup w.table rid)) [
      | inl f ↦
          let failed : ob_succ (st.missing_code w.table rid) ≡ false = not_true λ t.
            absurd
              (st.missing_code-fails w.table rid (success-only (st.missing_code w.table rid) t)) in
          rw (f, delete_record) (i, rw failed d)
      | inr (r, f) ↦ elim (Bool-cases (ob_succ (visit_record trx.trx_id r read_write))) [
        | inr refused ↦ rw (f, delete_record) (rw refused (i, rw refused d))
        | inl ok ↦
            delete_ends st w trx real (DeleteTells rid) rid r log_rc f
              (success-only (visit_record trx.trx_id r read_write) ok) tt
              (
                has-append (insert_op j) trx.operations (delete_op rid ∷ []) ∙ ground (arith, i),
                has-append (delete_op j) trx.operations (delete_op rid ∷ []) ∙ ground (arith, d),
              )
      ]
    ]
