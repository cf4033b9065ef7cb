-- ===== src/Mvcc/Script.antt =====
-- The calls of one transaction in a row, and their rollback.
use cubical.Cubical.Foundations.Prelude.{fun_ext}
use mathlib.Core.List.{reverse, reverse-cons}
use ob_preliminary.Common.{
  ℕ, ◌≡◌, refl, sym, ap, ◌∙◌, subst, inl, inr, true, false, List, [], ◌∷◌, ◌++◌, Option, none, some,
  ◌==◌, if◌then◌else◌, arith, Bool-cases, Option-cases,
}
use ob_preliminary.Common.Int.{ℤ, pos, neg, ltb_ℤ, eqb_ℤ-refl}
use ob_preliminary.Common.Rc.{Rc, ob_succ}
use ob_preliminary.Mvcc.Store.{Row, RecordStore}
use ob_preliminary.Mvcc.{
  Operation, insert_op, delete_op, max_trx_id, read_write, visit_record, new_row, World, MvccTrx,
  insert_record, delete_record, rollback,
}
use ob_preliminary.Mvcc.Marks.{insert_ends, delete_ends}
use ob_preliminary.Mvcc.Rollback.{
  View, put, undo_op, undo_insert, undo_delete, and_then, undo_ops, rollback_undoes,
}

-- The worlds that a transaction reaches by calls of `insert_record` and `delete_record`, refused ones
-- included; the calls that delete are on rows that nobody has deleted.
pub data Run (st : RecordStore) (w0 : World st) (trx0 : MvccTrx) : World st → MvccTrx → Type 0 where
  start : Run st w0 trx0 w0 trx0
  inserted :
      {w w' : World st} {trx trx' : MvccTrx} (rc : Rc) (payload : List ℕ) (log_rc : Rc)
      → Run st w0 trx0 w trx
      → insert_record st w trx payload log_rc ≡ some (rc, w', trx')
      → Run st w0 trx0 w' trx'
  deleted :
      {w w' : World st} {trx trx' : MvccTrx} (rc : Rc) (rid : ℕ) (log_rc : Rc)
      → Run st w0 trx0 w trx
      → ((r : Row) → st.lookup w.table rid ≡ some r → r.end_xid ≡ max_trx_id)
      → delete_record st w trx rid log_rc ≡ some (rc, w', trx')
      → Run st w0 trx0 w' trx'

reverse-snoc : (xs : List Operation) (y : Operation) → reverse (xs ++ y ∷ []) ≡ y ∷ reverse xs
reverse-snoc [] y = refl
reverse-snoc (x ∷ xs) y =
    reverse-cons x (xs ++ y ∷ [])
    ∙ ap (λ ys. ys ++ x ∷ []) (reverse-snoc xs y)
    ∙ ap (◌∷◌ y) (sym (reverse-cons x xs))

pub success-only : (rc : Rc) → ob_succ rc ≡ true → rc ≡ Rc.success
success-only rc h = ground arith

-- The last operation undone first.
undone_snoc :
    (t : ℤ) (v0 v v1 : View) (op : Operation) (ops : List Operation)
    → undo_op t v1 op ≡ some v
    → undo_ops t v (reverse ops) ≡ some v0
    → undo_ops t v1 (reverse (ops ++ op ∷ [])) ≡ some v0
undone_snoc t v0 v v1 op ops e h =
    ap (undo_ops t v1) (reverse-snoc ops op)
    ∙ ap (λ o. and_then o (λ v'. undo_ops t v' (reverse ops))) e
    ∙ h

put_self : (v v1 : View) (i : ℕ) (o : Option Row) → ((j : ℕ) → v1 j ≡ put v i o j) → v1 i ≡ o
put_self v v1 i o step = step i ∙ ground arith

put_back :
    (v v1 : View) (i : ℕ) (o : Option Row)
    → ((j : ℕ) → v1 j ≡ put v i o j)
    → (o' : Option Row) → v i ≡ o'
    → put v1 i o' ≡ v
put_back v v1 i o step o' e = fun_ext (λ j. elim (Bool-cases (j == i)) [
  | inl t ↦ let h : j ≡ i = ground arith in rw (t, h) (sym e)
  | inr f ↦ rw (f, step j, f) refl
])

undo-insert :
    (t : ℤ) (v v1 : View) (i : ℕ) (r : Row)
    → ((j : ℕ) → v1 j ≡ put v i (some r) j)
    → v i ≡ none
    → undo_op t v1 (insert_op i) ≡ some v
undo-insert t v v1 i r step free =
    ap (undo_insert v1 i) (put_self v v1 i (some r) step)
    ∙ ap some (put_back v v1 i (some r) step none free)

undo-delete :
    (t : ℤ) (v v1 : View) (i : ℕ) (r : Row)
    → ((j : ℕ) → v1 j ≡ put v i (some (record r { end_xid = neg t })) j)
    → v i ≡ some r
    → r.end_xid ≡ max_trx_id
    → undo_op t v1 (delete_op i) ≡ some v
undo-delete t v v1 i r step found alive =
    let mine : Row = record r { end_xid = neg t } in
    let again : Row = record r { end_xid = max_trx_id } in
    ap (undo_delete t v1 i) (put_self v v1 i (some mine) step)
    ∙ ap (λ b. if b then some (put v1 i (some again)) else none) (eqb_ℤ-refl (neg t))
    ∙ ap some (
        put_back v v1 i (some mine) step (some again)
          (found ∙ ap (λ e. some (record r { end_xid = e })) alive))

module _ (st : RecordStore) (w0 : World st) where
  -- The operations undone, from the last, give the rows back as they were.
  record Undone (w : World st) (trx : MvccTrx) : Type 0 where
    real : ltb_ℤ (pos 0) trx.trx_id ≡ true
    live : trx.recovering ≡ false
    undo :
        undo_ops trx.trx_id (st.lookup w.table) (reverse trx.operations) ≡ some (st.lookup w0.table)

  abbrev UndoneAfter : Option (Rc × World st × MvccTrx) → Type 0
  UndoneAfter none = Unit {0}
  UndoneAfter (some (rc, w, trx)) = Undone w trx

  insert-Undone :
      (w : World st) (trx : MvccTrx) (payload : List ℕ) (log_rc : Rc)
      → Undone w trx
      → UndoneAfter (insert_record st w trx payload log_rc)
  unfolding insert_record
  insert-Undone w trx payload log_rc u =
      elim (Option-cases (st.insert w.table (new_row trx.trx_id payload))) [
        | inl f ↦ rw (f, insert_record) u
        | inr ((rid, table'), f) ↦
            insert_ends st w trx u.real UndoneAfter payload rid table' log_rc f tt (record {
              real = u.real;
              live = u.live;
              undo =
                  undone_snoc trx.trx_id (st.lookup w0.table) (st.lookup w.table) (st.lookup table')
                    (insert_op rid) trx.operations
                    (undo-insert trx.trx_id (st.lookup w.table) (st.lookup table') rid
                      (new_row trx.trx_id payload)
                      (λ j. st.lookup-insert w.table (new_row trx.trx_id payload) rid table' j f)
                      (st.insert-fresh w.table (new_row trx.trx_id payload) rid table' f))
                    u.undo;
            })
      ]

  delete-Undone :
      (w : World st) (trx : MvccTrx) (rid : ℕ) (log_rc : Rc)
      → Undone w trx
      → ((r : Row) → st.lookup w.table rid ≡ some r → r.end_xid ≡ max_trx_id)
      → UndoneAfter (delete_record st w trx rid log_rc)
  unfolding delete_record
  delete-Undone w trx rid log_rc u alive = elim (Option-cases (st.lookup w.table rid)) [
    | inl f ↦ rw (f, delete_record) u
    | inr (r, f) ↦ elim (Bool-cases (ob_succ (visit_record trx.trx_id r read_write))) [
      | inl ok ↦
          let r' : Row = record r { end_xid = neg trx.trx_id } in
          let table' = st.modify w.table rid r' in
          delete_ends st w trx u.real UndoneAfter rid r log_rc f
            (success-only (visit_record trx.trx_id r read_write) ok) tt
            (record {
              real = u.real;
              live = u.live;
              undo =
                  undone_snoc trx.trx_id (st.lookup w0.table) (st.lookup w.table) (st.lookup table')
                    (delete_op rid) trx.operations
                    (undo-delete trx.trx_id (st.lookup w.table) (st.lookup table') rid r
                      (λ j. st.lookup-modify w.table rid r' r j f) f (alive r f))
                    u.undo;
            })
      | inr refused ↦ rw (f, delete_record) (rw refused u)
    ]
  ]

  run-Undone :
      {trx0 : MvccTrx} (w : World st) (trx : MvccTrx)
      → Undone w0 trx0
      → Run st w0 trx0 w trx
      → Undone w trx
  run-Undone w trx u start = u
  run-Undone w trx u (inserted {w = w1} {trx = trx1} rc payload log_rc run e) =
      subst UndoneAfter e (insert-Undone w1 trx1 payload log_rc (run-Undone w1 trx1 u run))
  run-Undone w trx u (deleted {w = w1} {trx = trx1} rc rid log_rc run alive e) =
      subst UndoneAfter e (delete-Undone w1 trx1 rid log_rc (run-Undone w1 trx1 u run) alive)

-- Let a transaction with a positive id that is not recovering and has no operations yet insert rows, and
-- delete rows that nobody has deleted, whatever comes of each call that returns. Its rollback then fails
-- no ASSERT and returns what the log gives for its entry; whatever that is, every address holds again
-- what it held before the first call, and the operations are forgotten.
pub rollback_restores :
    (st : RecordStore) (w0 w : World st) (trx0 trx : MvccTrx) (log_rc : Rc)
    → ltb_ℤ (pos 0) trx0.trx_id ≡ true
    → trx0.recovering ≡ false
    → trx0.operations ≡ []
    → Run st w0 trx0 w trx
    → (w' : World st) × (trx' : MvccTrx) × (rollback st w trx log_rc ≡ some (log_rc, w', trx'))
      × ((j : ℕ) → st.lookup w'.table j ≡ st.lookup w0.table j)
      × (trx'.operations ≡ [])
rollback_restores st w0 w trx0 trx log_rc real live none_yet run =
    let before : Undone st w0 w0 trx0 = record {
      real = real;
      live = live;
      undo = ap (λ ops. undo_ops trx0.trx_id (st.lookup w0.table) (reverse ops)) none_yet;
    } in
    let after = run-Undone st w0 w trx before run in
    let (w', trx', runs, view, empty, _, _) =
      rollback_undoes st w trx log_rc (st.lookup w0.table) after.live after.real after.undo in
    (w', trx', runs, λ j. ap (λ v. v j) view, empty)
