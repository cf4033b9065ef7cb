-- ===== src/Mvcc/Visibility.antt =====
-- Which rows a transaction sees: `visit_record` against the meaning of the two fields of a row.
use ob_preliminary.Common.{ℕ, ◌-◌, ◌^◌, ◌≤◌, ◌<◌, ◌≡◌, ◌≢◌, ◌↔◌, ◌⊎◌, List, arith}
use ob_preliminary.Common.Int.{ℤ, pos, neg, ◌≤ℤ◌, ◌<ℤ◌}
use ob_preliminary.Common.Rc.{Rc}
use ob_preliminary.Mvcc.Store.{Row}
use ob_preliminary.Mvcc.{ReadWriteMode, read_only, read_write, visit_record, new_row, max_trx_id}

-- Transaction `t` sees a row whose creator is `t` itself or committed at or before `t`, and that nobody
-- deleted before `t`: its deletion is pending in another transaction, or was committed at `t` or later (a row
-- that is not deleted has the largest id there).
pub record Sees (t : ℤ) (r : Row) : Type 0 where
  pub created : (r.begin_xid ≡ neg t) ⊎ ((pos 0 <ℤ r.begin_xid) × (r.begin_xid ≤ℤ t))
  pub alive :
      ((pos 0 <ℤ r.end_xid) × (t ≤ℤ r.end_xid)) ⊎ ((r.end_xid <ℤ pos 0) × (r.end_xid ≢ neg t))

-- The two fields of a row that `insert_record`, `delete_record` and `commit` write are never zero.
abbrev pub HasIds : Row → Type 0
HasIds r = (r.begin_xid ≢ pos 0) × (r.end_xid ≢ pos 0)

abbrev pub IsDeleting : Row → Type 0
IsDeleting r = r.end_xid <ℤ pos 0

-- The test on `int32_t` values that a reader in the transaction `t` meets.
module _ (t : ℕ) (r : Row) (ids : HasIds r) (range : t ≤ 2 ^ 31 - 1)
    (undeleted : r.begin_xid <ℤ pos 0 → r.end_xid ≡ max_trx_id)
    (known : IsDeleting r → r.begin_xid ≤ℤ pos t) (real : 0 < t) where
  visit-Sees : visit_record (pos t) r read_only ≡ Rc.success → Sees (pos t) r
  unfolding visit_record
  visit-Sees h = record { created = ground arith; alive = ground arith }

  Sees-visit : Sees (pos t) r → visit_record (pos t) r read_only ≡ Rc.success
  unfolding visit_record
  Sees-visit h = ground arith

-- A reader `t` may read a row exactly if it sees it, in a row with both fields set, provided that a row whose
-- creation is pending is not being deleted too, and that a row whose deletion is pending was created at or
-- before `t`. (`Anomalies` shows what happens in the two other cases.)
pub visit_record_read_only :
    (t : ℕ) (r : Row)
    → 0 < t
    → t ≤ 2 ^ 31 - 1
    → HasIds r
    → (r.begin_xid <ℤ pos 0 → r.end_xid ≡ max_trx_id)
    → (IsDeleting r → r.begin_xid ≤ℤ pos t)
    → (visit_record (pos t) r read_only ≡ Rc.success) ↔ Sees (pos t) r
visit_record_read_only t r real range ids undeleted known =
    (visit-Sees t r ids range undeleted known real, Sees-visit t r ids range undeleted known real)

-- A writer that is let through could read the row too; and if the deletion of a committed row is pending in
-- another transaction, a reader is let through and a writer gets the conflict code.
pub visit_record_read_write :
    (t : ℕ) (r : Row)
    → (visit_record (pos t) r read_write ≡ Rc.success
        → visit_record (pos t) r read_only ≡ Rc.success)
      × (pos 0 <ℤ r.begin_xid
          → IsDeleting r
          → r.end_xid ≢ neg (pos t)
          → (visit_record (pos t) r read_only ≡ Rc.success)
            × (visit_record (pos t) r read_write ≡ Rc.locked_concurrency_conflict))
unfolding visit_record
visit_record_read_write t r = (λ h. ground arith, λ b d n. (ground arith, ground arith))

-- The row that a transaction inserts is seen by that transaction alone; once its creation is committed
-- under the id `c`, it is seen by the transactions from `c` on and by no earlier one, for reading and for
-- writing alike.
pub inserted_row_isolation :
    (t u c : ℕ) (payload : List ℕ) (mode : ReadWriteMode)
    → 0 < t
    → 0 < u
    → u ≤ 2 ^ 31 - 1
    → 0 < c
    → let mine = new_row (pos t) payload in
      let published = record mine { begin_xid = pos c } in
      (visit_record (pos t) mine mode ≡ Rc.success)
      × (u ≢ t → visit_record (pos u) mine mode ≡ Rc.record_invisible)
      × (c ≤ u → visit_record (pos u) published mode ≡ Rc.success)
      × (u < c → visit_record (pos u) published mode ≡ Rc.record_invisible)
unfolding visit_record
inserted_row_isolation t u c payload mode ht hu big hc =
    (ground arith, λ ne. ground arith, λ h. ground arith, λ h. ground arith)
