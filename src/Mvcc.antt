-- ===== src/Mvcc.antt =====
-- src/observer/storage/trx/mvcc_trx.cpp and mvcc_trx_log.cpp: multi-version transactions over a
-- store of rows. A transaction id and the two fields of a row are `int32_t`. A failed ASSERT is
-- `none`. The mutex of the kit and the fields' offsets are not modelled. What the log gives for the entry of a call is an
-- argument of the call.
pub mod Store
pub mod Visibility
pub mod Anomalies
pub mod Marks
pub mod Commit
pub mod Rollback
pub mod Script
pub mod Replay
pub mod Done
pub mod Ready
pub mod Published
mod Tests
use ob_preliminary.Common.{
  ℕ, suc, ◌-◌, ◌^◌, Bool, true, false, ◌&&◌, ◌||◌, not, Option, none, some, List, [], ◌∷◌, ◌++◌,
  if◌then◌else◌, leb, ◌==◌,
}
use mathlib.Core.List.{reverse}
use ob_preliminary.Common.Int.{ℤ, pos, negsuc, ◌+ℤ◌, neg, ltb_ℤ, leb_ℤ, eqb_ℤ}
use ob_preliminary.Common.Rc.{Rc, ob_succ}
use Store.{RecordStore, Row}

pub data ReadWriteMode : Type 0 where
  read_only : ReadWriteMode
  read_write : ReadWriteMode

abbrev pub max_trx_id : ℤ
max_trx_id = pos (2 ^ 31 - 1)

-- `++x` on an `int32_t` atomic, which wraps.
abbrev pub incr32 : ℤ → ℤ
incr32 x = if eqb_ℤ x max_trx_id then negsuc (2 ^ 31 - 1) else x +ℤ pos 1

pub data Operation : Type 0 where
  insert_op : ℕ → Operation
  delete_op : ℕ → Operation

-- An entry of the transaction log.
pub data TrxLog : Type 0 where
  insert_record_log : ℤ → ℕ → TrxLog
  delete_record_log : ℤ → ℕ → TrxLog
  commit_log : ℤ → ℤ → TrxLog
  rollback_log : ℤ → TrxLog

pub record MvccTrx : Type 0 where
  pub trx_id : ℤ
  pub started : Bool
  pub recovering : Bool
  pub operations : List Operation

-- The constructors: for a session, and for the recovery of transaction `id`.
unfoldable pub new_trx : MvccTrx
new_trx = record { trx_id = negsuc 0; started = false; recovering = false; operations = [] }

unfoldable pub recovery_trx : ℤ → MvccTrx
recovery_trx id = record { trx_id = id; started = true; recovering = true; operations = [] }

-- `visit_record`: may the transaction see the row, or change it?
unfoldable pub visit_record : ℤ → Row → ReadWriteMode → Rc
visit_record trx_id r mode =
    if ltb_ℤ (pos 0) r.begin_xid && ltb_ℤ (pos 0) r.end_xid
    then (if leb_ℤ r.begin_xid trx_id && leb_ℤ trx_id r.end_xid
        then Rc.success
        else Rc.record_invisible)
    else if ltb_ℤ r.begin_xid (pos 0)
    then (if eqb_ℤ (neg r.begin_xid) trx_id then Rc.success else Rc.record_invisible)
    else if ltb_ℤ r.end_xid (pos 0)
    then elim mode [
      | read_only ↦ if eqb_ℤ (neg r.end_xid) trx_id then Rc.record_invisible else Rc.success
      | read_write ↦
          if eqb_ℤ (neg r.end_xid) trx_id
          then Rc.record_invisible
          else Rc.locked_concurrency_conflict
    ]
    else Rc.success

-- The row that `insert_record` writes.
abbrev pub new_row : ℤ → List ℕ → Row
new_row trx_id payload = record { begin_xid = neg trx_id; end_xid = max_trx_id; payload = payload }

module _ (st : RecordStore) where
  open st use {State, lookup, insert, insert_code, modify, remove, missing_code}

  pub record World : Type 0 where
    pub table : State
    pub current_trx_id : ℤ
    pub log : List TrxLog

  -- A transaction that starts while operations are left fails an ASSERT.
  unfoldable pub start_if_need : World → MvccTrx → Option (World × MvccTrx)
  start_if_need w trx = if trx.started then some (w, trx) else elim (trx.operations) [
    | [] ↦ some (
      record w { current_trx_id = incr32 w.current_trx_id },
      record trx { trx_id = incr32 w.current_trx_id; started = true },
    )
    | op ∷ ops ↦ none
  ]

  -- `log_rc` is what the append to the log gives, on which there is an ASSERT.
  unfoldable pub insert_record : World → MvccTrx → List ℕ → Rc → Option (Rc × World × MvccTrx)
  insert_record w trx payload log_rc = elim (insert w.table (new_row trx.trx_id payload)) [
    | none ↦ some (insert_code w.table, w, trx)
    | some (rid, table') ↦
        if ltb_ℤ (pos 0) trx.trx_id && ob_succ log_rc
        then some (
          log_rc,
          record w { table = table'; log = w.log ++ insert_record_log trx.trx_id rid ∷ [] },
          record trx { operations = trx.operations ++ insert_op rid ∷ [] },
        )
        else none
  ]

  unfoldable pub delete_record : World → MvccTrx → ℕ → Rc → Option (Rc × World × MvccTrx)
  delete_record w trx rid log_rc = elim (lookup w.table rid) [
    | none ↦ some (missing_code w.table rid, w, trx)
    | some r ↦
        let rc = visit_record trx.trx_id r read_write in
        if ob_succ rc
        then (if ltb_ℤ (pos 0) trx.trx_id && ob_succ log_rc
            then some (
              Rc.success,
              record w {
                table = modify w.table rid (record r { end_xid = neg trx.trx_id });
                log = w.log ++ delete_record_log trx.trx_id rid ∷ [];
              },
              record trx { operations = trx.operations ++ delete_op rid ∷ [] },
            )
            else none)
        else some (rc, w, trx)
  ]

  -- One round of the loop of `commit_with_trx_id`; `none` is a failed ASSERT.
  unfoldable pub commit_op : MvccTrx → ℤ → State → Operation → Option State
  commit_op trx commit_xid s (insert_op rid) = elim (lookup s rid) [
    | none ↦ none
    | some r ↦
        if eqb_ℤ r.begin_xid (neg trx.trx_id) && not trx.recovering
        then some (modify s rid (record r { begin_xid = commit_xid }))
        else none
  ]
  commit_op trx commit_xid s (delete_op rid) = elim (lookup s rid) [
    | none ↦ none
    | some r ↦
        if eqb_ℤ r.end_xid (neg trx.trx_id)
        then some (modify s rid (record r { end_xid = commit_xid }))
        else none
  ]

  unfoldable pub commit_ops : MvccTrx → ℤ → State → List Operation → Option State
  commit_ops trx commit_xid s [] = some s
  commit_ops trx commit_xid s (op ∷ ops) = elim (commit_op trx commit_xid s op) [
    | none ↦ none
    | some s' ↦ commit_ops trx commit_xid s' ops
  ]

  -- `wait_rc` is the result of waiting for the log to reach the disk; the append before it is taken to succeed.
  unfoldable pub commit_with_trx_id : World → MvccTrx → ℤ → Rc → Option (Rc × World × MvccTrx)
  commit_with_trx_id w trx commit_xid wait_rc =
      elim (commit_ops trx commit_xid w.table trx.operations) [
        | none ↦ none
        | some s ↦
            let trx' = record trx { started = false; operations = [] } in
            if trx.recovering
            then some (Rc.success, record w { table = s }, trx')
            else if ltb_ℤ (pos 0) trx.trx_id && ltb_ℤ trx.trx_id commit_xid
            then some (
              wait_rc,
              record w { table = s; log = w.log ++ commit_log trx.trx_id commit_xid ∷ [] },
              trx',
            )
            else none
      ]

  unfoldable pub commit : World → MvccTrx → Rc → Option (Rc × World × MvccTrx)
  unfolding commit_with_trx_id
  commit w trx wait_rc =
      let id = incr32 w.current_trx_id in
      commit_with_trx_id (record w { current_trx_id = id }) trx id wait_rc

  -- What a round of the loop of `rollback` comes to: the next round, an early return, or a failed
  -- ASSERT. The loop carries the code of its last call.
  pub data Round : Type 0 where
    go_on : Rc → State → Round
    return_early : Rc → State → Round
    aborted : Round

  unfoldable pub rollback_op : MvccTrx → Rc → State → Operation → Round
  rollback_op trx rc s (insert_op rid) =
      if trx.recovering
      then elim (lookup s rid) [
        | none ↦ elim (missing_code s rid) [
          | Rc.record_not_exist ↦ go_on Rc.record_not_exist s
          | code ↦ return_early code s
        ]
        | some r ↦
            if eqb_ℤ r.begin_xid (neg trx.trx_id)
            then go_on Rc.success (remove s rid)
            else go_on Rc.success s
      ]
      else elim (lookup s rid) [ none ↦ aborted | some r ↦ go_on Rc.success (remove s rid) ]
  rollback_op trx rc s (delete_op rid) =
      if ob_succ rc
      then elim (lookup s rid) [
        | none ↦ aborted
        | some r ↦
            if trx.recovering && not (eqb_ℤ r.end_xid (neg trx.trx_id))
            then go_on Rc.success s
            else if eqb_ℤ r.end_xid (neg trx.trx_id)
            then go_on Rc.success (modify s rid (record r { end_xid = max_trx_id }))
            else aborted
      ]
      else aborted

  unfoldable pub rollback_ops : MvccTrx → Rc → State → List Operation → Round
  rollback_ops trx rc s [] = go_on rc s
  rollback_ops trx rc s (op ∷ ops) = elim (rollback_op trx rc s op) [
    | go_on rc' s' ↦ rollback_ops trx rc' s' ops
    | return_early rc' s' ↦ return_early rc' s'
    | aborted ↦ aborted
  ]

  -- The code of the append to the log is returned; an entry that is refused is not in the log.
  unfoldable pub rollback : World → MvccTrx → Rc → Option (Rc × World × MvccTrx)
  rollback w trx log_rc = elim (rollback_ops trx Rc.success w.table (reverse trx.operations)) [
    | aborted ↦ none
    | return_early rc s ↦ some (rc, record w { table = s }, record trx { started = false })
    | go_on rc s ↦
        let trx' = record trx { started = false; operations = [] } in
        if trx.recovering
        then some (rc, record w { table = s }, trx')
        else if ltb_ℤ (pos 0) trx.trx_id
        then (let log = if ob_succ log_rc then w.log ++ rollback_log trx.trx_id ∷ [] else w.log in
            some (log_rc, record w { table = s; log = log }, trx'))
        else none
  ]
