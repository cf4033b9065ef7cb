-- ===== src/Mvcc/Published.antt =====
-- The calls of one transaction in a row, and their commit.
use ob_preliminary.Common.{
  ℕ, ◌≡◌, refl, sym, ap, ◌∙◌, subst, Bool, true, false, false≢true, [], Option, none, some, ◌==◌,
  if◌then◌else◌,
}
use ob_preliminary.Common.Int.{ℤ, pos, ltb_ℤ}
use ob_preliminary.Common.Rc.{Rc}
use ob_preliminary.Mvcc.Store.{Row, RecordStore}
use ob_preliminary.Mvcc.{insert_op, delete_op, incr32, new_row, World, MvccTrx, commit}
use ob_preliminary.Mvcc.Marks.{has, NoRepeat}
use ob_preliminary.Mvcc.Commit.{Marked, publish, commit_with_trx_id_publishes}
use ob_preliminary.Mvcc.Done.{
  did_insert, did_delete, InsertTells, DeleteTells, insert-Tells, delete-Tells,
}
use ob_preliminary.Mvcc.Script.{Run, start, inserted, deleted}
use ob_preliminary.Mvcc.Ready.{Ready, run-Ready}

-- The operations that are remembered are what the calls did.
run_tells :
    (st : RecordStore) {w0 : World st} {trx0 : MvccTrx} {w : World st} {trx : MvccTrx}
    → Ready st w0 trx0
    → trx0.operations ≡ []
    → (run : Run st w0 trx0 w trx) (j : ℕ)
    → (has (insert_op j) trx.operations ≡ did_insert st run j)
      × (has (delete_op j) trx.operations ≡ did_delete st run j)
unfolding did_insert did_delete InsertTells DeleteTells
run_tells st u none_yet start j = (ap (has (insert_op j)) none_yet, ap (has (delete_op j)) none_yet)
run_tells st u none_yet (inserted {w = w1} {trx = trx1} rc payload log_rc run e) j =
    let (i, d) = run_tells st u none_yet run j in
    let b = did_insert st run j in
    let now = elim (st.insert w1.table (new_row trx1.trx_id payload)) as (λ x. Bool) [
      | none ↦ b
      | some (rid, table') ↦ if j == rid then true else b
    ] in
    subst (InsertTells st j b (did_delete st run j) now) e (
      insert-Tells st j b (did_delete st run j) w1 trx1 (run-Ready st w1 trx1 u run).real i d
        payload log_rc)
run_tells st u none_yet (deleted {w = w1} {trx = trx1} rc rid log_rc run alive e) j =
    let (i, d) = run_tells st u none_yet run j in
    subst (DeleteTells st j (did_insert st run j) (did_delete st run j) rid) e (
      delete-Tells st j (did_insert st run j) (did_delete st run j) w1 trx1
        (run-Ready st w1 trx1 u run).real i d rid log_rc)

-- A row that the commit under `c` reaches, and what its begin and end are then.
published_row :
    (c : ℤ) (i d : Bool) (o o' : Option Row) (r : Row)
    → o ≡ some r
    → o' ≡ publish c i d o
    → (q : Row) × (o' ≡ some q) × (i ≡ true → q.begin_xid ≡ c) × (d ≡ true → q.end_xid ≡ c)
published_row c i d o o' r e h =
    let q : Row = record r {
      begin_xid = if i then c else r.begin_xid;
      end_xid = if d then c else r.end_xid;
    } in
    (q, h ∙ ap (publish c i d) e, (λ t. rw t refl), (λ t. rw t refl))

-- Let a transaction with a positive id that is not recovering and has no operations yet insert rows, and delete rows
-- that nobody has deleted, whatever comes of each call. If the next id is larger than its own, its commit does not
-- fail an ASSERT: every row that one of the calls inserted is there and begins at that id, every row whose deletion
-- returned SUCCESS is there and ends at it, and every other row and field is as the calls left it.
pub commit_publishes :
    (st : RecordStore) (w0 w : World st) (trx0 trx : MvccTrx) (wait_rc : Rc)
    → ltb_ℤ (pos 0) trx0.trx_id ≡ true
    → trx0.recovering ≡ false
    → trx0.operations ≡ []
    → (run : Run st w0 trx0 w trx) → ltb_ℤ trx.trx_id (incr32 w.current_trx_id) ≡ true
    → let c = incr32 w.current_trx_id in
      (w' : World st) × (trx' : MvccTrx) × (commit st w trx wait_rc ≡ some (wait_rc, w', trx'))
      × ((j : ℕ)
          → did_insert st run j ≡ true
          → (r : Row) × (st.lookup w'.table j ≡ some r) × (r.begin_xid ≡ c))
      × ((j : ℕ)
          → did_delete st run j ≡ true
          → (r : Row) × (st.lookup w'.table j ≡ some r) × (r.end_xid ≡ c))
      × ((j : ℕ)
          → st.lookup w'.table j
            ≡ publish c (did_insert st run j) (did_delete st run j) (st.lookup w.table j))
      × (trx'.operations ≡ [])
unfolding commit
commit_publishes st w0 w trx0 trx wait_rc real live none_yet run later =
    let c = incr32 w.current_trx_id in
    let before : Ready st w0 trx0 = record {
      real = real;
      live = live;
      once = subst NoRepeat (sym none_yet) tt;
      marks = subst (Marked st trx0 w0.table) (sym none_yet) (record {
        inserted = λ j h. absurd (false≢true h);
        deleted = λ j h. absurd (false≢true h);
      });
    } in
    let u = run-Ready st w trx before run in
    let (w', trx', runs, view, empty, _, _) =
      commit_with_trx_id_publishes st (record w { current_trx_id = c }) trx c wait_rc u.live u.once
        u.marks u.real later in
    let i = did_insert st run in
    let d = did_delete st run in
    let tells = λ (j : ℕ). run_tells st before none_yet run j in
    let seen : (j : ℕ) → st.lookup w'.table j ≡ publish c (i j) (d j) (st.lookup w.table j) = λ j.
      view j
      ∙ ap (λ b. publish c b (has (delete_op j) trx.operations) (st.lookup w.table j)) (tells j).0
      ∙ ap (λ b. publish c (i j) b (st.lookup w.table j)) (tells j).1 in
    (
      w',
      trx',
      runs,
      (λ j h.
          let (r, f, mark) = u.marks.inserted j ((tells j).0 ∙ h) in
          let (q, g, begins, ends) =
            published_row c (i j) (d j) (st.lookup w.table j) (st.lookup w'.table j) r f (seen j) in
          (q, g, begins h)),
      (λ j h.
          let (r, f, mark) = u.marks.deleted j ((tells j).1 ∙ h) in
          let (q, g, begins, ends) =
            published_row c (i j) (d j) (st.lookup w.table j) (st.lookup w'.table j) r f (seen j) in
          (q, g, ends h)),
      seen,
      empty,
    )
