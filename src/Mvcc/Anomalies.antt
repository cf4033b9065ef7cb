-- ===== src/Mvcc/Anomalies.antt =====
-- Rows that `visit_record` lets through although the transaction does not see them, and what follows.
use ob_preliminary.Common.{
  ℕ, ◌-◌, ◌^◌, ◌≤◌, ◌<◌, ◌≡◌, ◌≢◌, inl, inr, refl, true, false, List, [], ◌∷◌, none, some, arith,
  if◌then◌else◌, ◌∙◌, ap,
}
use ob_preliminary.Common.Int.{pos, neg, ltb_ℤ, eqb_ℤ-refl}
use ob_preliminary.Common.Rc.{Rc}
use ob_preliminary.Mvcc.Store.{Row, RecordStore}
use ob_preliminary.Mvcc.{
  ReadWriteMode, read_only, read_write, visit_record, new_row, max_trx_id, World, MvccTrx,
  delete_record, delete_op, rollback,
}
use ob_preliminary.Mvcc.Visibility.{Sees}
use ob_preliminary.Mvcc.Marks.{after_delete, did, delete_runs}
use ob_preliminary.Mvcc.Rollback.{put, undo_ops, undo_delete, and_then, rollback_undoes}

-- A row that the transaction inserted and deleted itself is still let through, in both modes, though the
-- transaction does not see it any more.
pub own_deleted_row_visible :
    (t : ℕ) (payload : List ℕ) (mode : ReadWriteMode)
    → 0 < t
    → let r = record (new_row (pos t) payload) { end_xid = neg (pos t) } in
      (visit_record (pos t) r mode ≡ Rc.success) × ¬ Sees (pos t) r
unfolding visit_record
own_deleted_row_visible t payload mode h =
    (ground arith, λ s. elim (s.alive) [ inl a ↦ absurd (ground arith) | inr a ↦ a.1 refl ])

-- While the deletion of a row is pending, every other reader is let through, also one that is older
-- than the row's creation and so does not see it; with no deletion pending that reader was refused.
pub later_row_visible_during_delete :
    (t b u : ℕ) (payload : List ℕ)
    → 0 < t
    → t ≤ 2 ^ 31 - 1
    → t < b
    → 0 < u
    → u ≢ t
    → let r : Row = record { begin_xid = pos b; end_xid = max_trx_id; payload = payload } in
      let deleting = record r { end_xid = neg (pos u) } in
      (visit_record (pos t) r read_only ≡ Rc.record_invisible)
      × (visit_record (pos t) deleting read_only ≡ Rc.success)
      × ¬ Sees (pos t) deleting
unfolding visit_record
later_row_visible_during_delete t b u payload h big hb hu ne = (
  ground arith,
  ground arith,
  λ s. elim (s.created) [ inl a ↦ absurd (ground arith) | inr a ↦ absurd (omega arith) ],
)

-- Where the log takes the entries, a row that another transaction deleted with a commit after this one
-- started can be deleted here once more; if this transaction then rolls back, the row is alive again for
-- good, with the largest id as its end.
pub deleted_row_revived :
    (st : RecordStore) (w : World st) (t b e rid : ℕ) (r : Row)
    → RecordStore.lookup st w.table rid ≡ some r
    → r.begin_xid ≡ pos b
    → r.end_xid ≡ pos e
    → 0 < b
    → b ≤ t
    → t < e
    → let trx : MvccTrx = record {
      trx_id = pos t;
      started = true;
      recovering = false;
      operations = [];
    } in
      (w' : World st) × (trx' : MvccTrx) × (w'' : World st) × (trx'' : MvccTrx) × (delete_record st
          w trx rid Rc.success
        ≡ some (Rc.success, w', trx'))
      × (rollback st w' trx' Rc.success ≡ some (Rc.success, w'', trx''))
      × (RecordStore.lookup st w''.table rid ≡ some (record r { end_xid = max_trx_id }))
unfolding visit_record
deleted_row_revived st w t b e rid r found hb he p q l =
    let trx : MvccTrx = record {
      trx_id = pos t;
      started = true;
      recovering = false;
      operations = [];
    } in
    let mine : Row = record r { end_xid = neg (pos t) } in
    let ok : visit_record (pos t) r read_write ≡ Rc.success = ground arith in
    let real : ltb_ℤ (pos 0) (pos t) ≡ true = ground arith in
    let w' = after_delete st w trx real rid r in
    let trx' = did st w trx real (delete_op rid) in
    let there : st.lookup w'.table rid ≡ some mine =
      st.lookup-modify w.table rid mine r rid found ∙ ground arith in
    let alive : Row = record r { end_xid = max_trx_id } in
    let v = put (st.lookup w'.table) rid (some alive) in
    let undo : undo_ops (pos t) (st.lookup w'.table) (delete_op rid ∷ []) ≡ some v =
      ap (λ o. and_then (undo_delete (pos t) (st.lookup w'.table) rid o) (λ u. some u)) there
      ∙ ap (λ b. and_then (if b then some v else none) (λ u. some u)) (eqb_ℤ-refl (neg (pos t))) in
    let (w'', trx'', runs, view, _, _, _) =
      rollback_undoes st w' trx' Rc.success v refl real undo in
    (
      w',
      trx',
      w'',
      trx'',
      delete_runs st w trx real rid r found ok,
      runs,
      ap (λ u. u rid) view ∙ ground arith,
    )
