-- ===== src/Mvcc/Tests.antt =====
-- Runs of transactions over a store of a few rows.
mod Rows
mod Recovery
use ob_preliminary.Mvcc.Published.{commit_publishes}
use ob_preliminary.Mvcc.{commit}
use ob_preliminary.Mvcc.Tests.Rows.{find, put_row, add_row, store, row, world}
use ob_preliminary.Common.{
  ℕ, suc, ◌≤◌, ◌<◌, ◌≡◌, ◌≢◌, ◌↔◌, refl, true, false, List, [], ◌∷◌, Option, none, some, ◌==◌, ltb,
  if◌then◌else◌, arith, ap, sym, subst, false≢true,
}
use ob_preliminary.Common.Int.{ℤ, pos, negsuc, neg, ◌<ℤ◌, ◌≤ℤ◌}
use mathlib.Core.Option.{some-injective}
use ob_preliminary.Common.Rc.{Rc}
use ob_preliminary.Mvcc.Store.{Row, RecordStore}
use ob_preliminary.Mvcc.{
  start_if_need, TrxLog, read_only, read_write, max_trx_id, Operation, insert_op, delete_op,
  commit_log, delete_record_log, insert_record_log, new_row, visit_record, MvccTrx, World,
  insert_record, delete_record, commit_with_trx_id, rollback,
}
use ob_preliminary.Mvcc.Visibility.{
  Sees, IsDeleting, visit_record_read_only, visit_record_read_write, inserted_row_isolation,
}
use ob_preliminary.Mvcc.Anomalies.{
  own_deleted_row_visible, later_row_visible_during_delete, deleted_row_revived,
}
use ob_preliminary.Mvcc.Marks.{has}
use ob_preliminary.Mvcc.Commit.{Marked, publish, commit_with_trx_id_publishes}
use ob_preliminary.Mvcc.Done.{did_insert, did_delete}
use ob_preliminary.Mvcc.Script.{Run, start, inserted, deleted, rollback_restores}

abbrev trx : ℕ → List Operation → MvccTrx
trx t ops = record { trx_id = pos t; started = true; recovering = false; operations = ops }

visit_record_read_only_example :
    (visit_record (pos 3) (row (pos 1) (negsuc 4)) read_only ≡ Rc.success)
    ↔ Sees (pos 3) (row (pos 1) (negsuc 4))
visit_record_read_only_example =
    visit_record_read_only 3 (row (pos 1) (negsuc 4)) (omega arith) (omega arith)
      (ground arith, ground arith) (λ h. ground arith) (λ h. ground arith)

inserted_row_isolation_example :
    let mine = new_row (pos 3) (7 ∷ []) in
    let published = record mine { begin_xid = pos 5 } in
    (visit_record (pos 3) mine read_only ≡ Rc.success)
    × (◌≢◌ {A = ℕ} 4 3 → visit_record (pos 4) mine read_only ≡ Rc.record_invisible)
    × (5 ≤ 4 → visit_record (pos 4) published read_only ≡ Rc.success)
    × (4 < 5 → visit_record (pos 4) published read_only ≡ Rc.record_invisible)
inserted_row_isolation_example =
    inserted_row_isolation 3 4 5 (7 ∷ []) read_only (omega arith) (omega arith) (omega arith)
      (omega arith)

own_deleted_row_visible_example :
    let r = record (new_row (pos 3) (7 ∷ [])) { end_xid = neg (pos 3) } in
    (visit_record (pos 3) r read_write ≡ Rc.success) × ¬ Sees (pos 3) r
own_deleted_row_visible_example = own_deleted_row_visible 3 (7 ∷ []) read_write (omega arith)

later_row_visible_during_delete_example :
    let r = row (pos 5) max_trx_id in
    let deleting = record r { end_xid = neg (pos 6) } in
    (visit_record (pos 3) r read_only ≡ Rc.record_invisible)
    × (visit_record (pos 3) deleting read_only ≡ Rc.success)
    × ¬ Sees (pos 3) deleting
later_row_visible_during_delete_example =
    later_row_visible_during_delete 3 5 6 (7 ∷ []) (omega arith) (omega arith) (omega arith)
      (omega arith) (omega arith)

deleted_row_revived_example :
    (w' : World store) × (trx' : MvccTrx) × (w'' : World store) × (trx'' : MvccTrx) × (delete_record
        store
        (world (row (pos 1) (pos 5)))
        (trx 3 [])
        0
        Rc.success
      ≡ some (Rc.success, w', trx'))
    × (rollback store w' trx' Rc.success ≡ some (Rc.success, w'', trx''))
    × (find w''.table 0 ≡ some (row (pos 1) max_trx_id))
deleted_row_revived_example =
    deleted_row_revived store (world (row (pos 1) (pos 5))) 3 1 5 0 (row (pos 1) (pos 5)) refl refl
      refl (omega arith) (omega arith) (omega arith)

mark-Marked :
    Marked store
      (trx 3 (insert_op 0 ∷ []))
      (world (new_row (pos 3) (7 ∷ []))).table
      (insert_op 0 ∷ [])
mark-Marked = record {
  inserted = λ j h. mine j (ground arith);
  deleted = λ j h. absurd (false≢true h);
}
  where
    mine :
        (j : ℕ)
        → j ≡ 0
        → (r : Row) × (find (world (new_row (pos 3) (7 ∷ []))).table j ≡ some r)
          × (r.begin_xid ≡ neg (pos 3))
    mine j e = (new_row (pos 3) (7 ∷ []), ground arith, refl)

-- Transaction 3 deletes the row at 0 and inserts another.
abbrev after_one : World store
after_one = record (world (row (pos 1) max_trx_id)) {
  table = put_row (world (row (pos 1) max_trx_id)).table 0 (some (row (pos 1) (neg (pos 3))));
  log = delete_record_log (pos 3) 0 ∷ [];
}

abbrev after_two : World store
after_two = record after_one {
  table = add_row after_one.table (new_row (pos 3) (8 ∷ []));
  log = delete_record_log (pos 3) 0 ∷ insert_record_log (pos 3) 1 ∷ [];
}

first_call :
    delete_record store (world (row (pos 1) max_trx_id)) (trx 3 []) 0 Rc.success
    ≡ some (Rc.success, after_one, trx 3 (delete_op 0 ∷ []))
unfolding delete_record visit_record
first_call = refl

second_call :
    insert_record store after_one (trx 3 (delete_op 0 ∷ [])) (8 ∷ []) Rc.success
    ≡ some (Rc.success, after_two, trx 3 (delete_op 0 ∷ insert_op 1 ∷ []))
unfolding insert_record
second_call = refl

alive_before :
    (r : Row) → find (world (row (pos 1) max_trx_id)).table 0 ≡ some r → r.end_xid ≡ max_trx_id
alive_before r f = ap (λ x. x.end_xid) (sym (some-injective (row (pos 1) max_trx_id) r f))

rollback_restores_example :
    (w' : World store) × (trx' : MvccTrx) × (rollback store after_two
        (trx 3 (delete_op 0 ∷ insert_op 1 ∷ []))
        Rc.success
      ≡ some (Rc.success, w', trx'))
    × ((j : ℕ) → find w'.table j ≡ find (world (row (pos 1) max_trx_id)).table j)
    × (trx'.operations ≡ [])
rollback_restores_example =
    rollback_restores store (world (row (pos 1) max_trx_id)) after_two (trx 3 [])
      (trx 3 (delete_op 0 ∷ insert_op 1 ∷ [])) Rc.success refl refl refl
      (inserted Rc.success (8 ∷ []) Rc.success
        (deleted Rc.success 0 Rc.success start alive_before first_call) second_call)

-- The two calls in a row.
both_calls :
    Run store
      (world (row (pos 1) max_trx_id))
      (trx 3 [])
      after_two
      (trx 3 (delete_op 0 ∷ insert_op 1 ∷ []))
both_calls =
    inserted Rc.success (8 ∷ []) Rc.success
      (deleted Rc.success 0 Rc.success start alive_before first_call) second_call

commit_publishes_example :
    (w' : World store) × (trx' : MvccTrx) × (commit store after_two
        (trx 3 (delete_op 0 ∷ insert_op 1 ∷ []))
        Rc.success
      ≡ some (Rc.success, w', trx'))
    × ((j : ℕ)
        → did_insert store both_calls j ≡ true
        → (r : Row) × (find w'.table j ≡ some r) × (r.begin_xid ≡ pos 10))
    × ((j : ℕ)
        → did_delete store both_calls j ≡ true
        → (r : Row) × (find w'.table j ≡ some r) × (r.end_xid ≡ pos 10))
    × ((j : ℕ)
        → find w'.table j
          ≡ publish
              (pos 10)
              (did_insert store both_calls j)
              (did_delete store both_calls j)
              (find after_two.table j))
    × (trx'.operations ≡ [])
commit_publishes_example =
    commit_publishes store (world (row (pos 1) max_trx_id)) after_two (trx 3 [])
      (trx 3 (delete_op 0 ∷ insert_op 1 ∷ [])) Rc.success refl refl refl both_calls refl

inserted_by_calls : did_insert store both_calls 1 ≡ true
unfolding did_insert both_calls
inserted_by_calls = refl

deleted_by_calls : did_delete store both_calls 0 ≡ true
unfolding did_delete both_calls
deleted_by_calls = refl
