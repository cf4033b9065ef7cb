-- ===== src/Mvcc/Replay.antt =====
-- src/observer/storage/trx/mvcc_trx_log.cpp, MvccTrxLogReplayer, with MvccTrx::redo and the creation of a
-- transaction for recovery. An entry too short for its header is `none`. `has_table` says whether
-- Db::find_table finds the table of an address. The kit's list of transactions is not modelled.
pub mod Recovery
use ob_preliminary.Common.{
  ℕ, suc, ◌+◌, ◌-◌, ◌^◌, ◌<◌, ◌≤◌, ◌≡◌, refl, ap, ap₂, ◌∙◌, Bool, true, false, List, [], ◌∷◌, ◌++◌,
  Option, none, some, if◌then◌else◌, arith, Bool-cases, inl, inr, ◌⊎◌, subst,
}
use ob_preliminary.Common.Int.{ℤ, pos, negsuc, eqb_ℤ, ltb_ℤ, ◌≤ℤ◌, ◌<ℤ◌, ◌+ℤ◌}
use ob_preliminary.Common.Rc.{Rc, ob_succ}
use ob_preliminary.Mvcc.Store.{Row, RecordStore}
use ob_preliminary.Mvcc.{
  ReadWriteMode, read_only, Operation, insert_op, delete_op, TrxLog, insert_record_log,
  delete_record_log, commit_log, rollback_log, MvccTrx, recovery_trx, World, rollback,
  start_if_need, visit_record, max_trx_id, incr32,
}

-- The transaction of an entry's header.
abbrev pub header_trx_id : TrxLog → ℤ
header_trx_id (insert_record_log t rid) = t
header_trx_id (delete_record_log t rid) = t
header_trx_id (commit_log t c) = t
header_trx_id (rollback_log t) = t

abbrev pub ends_trx : TrxLog → Bool
ends_trx (insert_record_log t rid) = false
ends_trx (delete_record_log t rid) = false
ends_trx (commit_log t c) = true
ends_trx (rollback_log t) = true

module _ (has_table : ℕ → Bool) where
  unfoldable pub redo : MvccTrx → TrxLog → Rc × MvccTrx
  redo trx (insert_record_log t rid) =
      if has_table rid
      then (Rc.success, record trx { operations = trx.operations ++ insert_op rid ∷ [] })
      else (Rc.schema_table_not_exist, trx)
  redo trx (delete_record_log t rid) =
      if has_table rid
      then (Rc.success, record trx { operations = trx.operations ++ delete_op rid ∷ [] })
      else (Rc.schema_table_not_exist, trx)
  redo trx (commit_log t c) = (Rc.success, trx)
  redo trx (rollback_log t) = (Rc.success, trx)

-- `trx_map_`, sorted by nothing that matters here.
abbrev pub TrxMap : Type 0
TrxMap = List (ℤ × MvccTrx)

unfoldable pub find_trx : TrxMap → ℤ → Option MvccTrx
find_trx [] id = none
find_trx ((k, trx) ∷ rest) id = if eqb_ℤ k id then some trx else find_trx rest id

unfoldable pub erase : TrxMap → ℤ → TrxMap
erase [] id = []
erase ((k, trx) ∷ rest) id = if eqb_ℤ k id then erase rest id else (k, trx) ∷ erase rest id

-- A change of the object behind a pointer that the map holds.
unfoldable pub change : TrxMap → ℤ → MvccTrx → TrxMap
change [] id trx = []
change ((k, old) ∷ rest) id trx =
    if eqb_ℤ k id then (k, trx) ∷ rest else (k, old) ∷ change rest id trx

pub record Replayer : Type 0 where
  pub trx_map : TrxMap
  pub current_trx_id : ℤ

-- `create_trx` for recovery raises the kit's id; the map is not told of the new transaction.
unfoldable pub replay : (ℕ → Bool) → Replayer → Option TrxLog → Rc × Replayer
unfolding redo find_trx erase change
replay has_table rp none = (Rc.log_entry_invalid, rp)
replay has_table rp (some entry) =
    let id = header_trx_id entry in
    elim (find_trx rp.trx_map id) [
      | none ↦
          let (rc, trx) = redo has_table (recovery_trx id) entry in
          (
            rc,
            record {
              trx_map = if ends_trx entry then erase rp.trx_map id else rp.trx_map;
              current_trx_id = if ltb_ℤ rp.current_trx_id id then id else rp.current_trx_id;
            },
          )
      | some trx ↦
          let (rc, trx') = redo has_table trx entry in
          (
            rc,
            record rp {
              trx_map = if ends_trx entry then erase rp.trx_map id else change rp.trx_map id trx';
            },
          )
    ]

-- The replayed entries, up to the first that fails.
unfoldable pub replay_all : (ℕ → Bool) → Replayer → List (Option TrxLog) → Rc × Replayer
replay_all has_table rp [] = (Rc.success, rp)
replay_all has_table rp (entry ∷ entries) =
    let rest = replay_all has_table (replay has_table rp entry).1 entries in
    if ob_succ (replay has_table rp entry).0 then rest else replay has_table rp entry

-- `on_done` rolls back what the map still holds; `none` is a failed ASSERT.
unfoldable pub rollback_map : (st : RecordStore) → World st → TrxMap → Option (World st)
rollback_map st w [] = some w
rollback_map st w ((k, trx) ∷ rest) = elim (rollback st w trx Rc.success) [
  | none ↦ none
  | some (rc, w', trx') ↦ rollback_map st w' rest
]

unfoldable pub on_done : (st : RecordStore) → World st → Replayer → Option (World st × Replayer)
unfolding rollback_map
on_done st w rp = elim (rollback_map st w rp.trx_map) [
  | none ↦ none
  | some w' ↦ some (w', record rp { trx_map = [] })
]
