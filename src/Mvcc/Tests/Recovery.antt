-- ===== src/Mvcc/Tests/Recovery.antt =====
-- Runs of the replay of a transaction log.
use ob_preliminary.Common.{ℕ, ◌≡◌, refl, Bool, true, false, List, [], ◌∷◌, Option, some, arith}
use ob_preliminary.Common.Int.{pos, negsuc, ◌≤ℤ◌}
use ob_preliminary.Common.Rc.{Rc}
use ob_preliminary.Mvcc.{
  start_if_need, TrxLog, insert_record_log, commit_log, MvccTrx, World, visit_record, read_only,
  max_trx_id,
}
use ob_preliminary.Mvcc.Replay.{Replayer, replay_all, on_done}
use ob_preliminary.Mvcc.Replay.Recovery.{IdsUpTo, replay_rolls_nothing_back, committed_row_lost}
use ob_preliminary.Mvcc.Tests.Rows.{store, world, row}

-- Transactions 1 and 2 insert a row each, and commit under the ids 4 and 3.
abbrev entries : List (Option TrxLog)
entries =
    some (insert_record_log (pos 1) 0)
    ∷ some (insert_record_log (pos 2) 1)
    ∷ some (commit_log (pos 2) (pos 3))
    ∷ some (commit_log (pos 1) (pos 4))
    ∷ []

abbrev blank : Replayer
blank = record { trx_map = []; current_trx_id = pos 0 }

abbrev every_table : ℕ → Bool
every_table i = true

entries-IdsUpTo : IdsUpTo (pos 2) entries
entries-IdsUpTo = (ground arith, (ground arith, (ground arith, (ground arith, tt))))

replay_rolls_nothing_back_example :
    let rp' = (replay_all every_table blank entries).1 in
    (on_done store (world (row (pos 1) max_trx_id)) rp'
      ≡ some (world (row (pos 1) max_trx_id), record rp' { trx_map = [] }))
    × (rp'.trx_map ≡ [])
replay_rolls_nothing_back_example =
    replay_rolls_nothing_back store (world (row (pos 1) max_trx_id)) every_table (pos 2) entries
      blank refl (ground arith) entries-IdsUpTo

abbrev fresh_trx : MvccTrx
fresh_trx = record { trx_id = negsuc 0; started = false; recovering = false; operations = [] }

committed_row_lost_example :
    let w = world (row (pos 4) max_trx_id) in
    let w0 = record w {
      current_trx_id = (replay_all every_table blank entries).1.current_trx_id;
    } in
    (w' : World store) × (trx' : MvccTrx) × (start_if_need store w0 fresh_trx ≡ some (w', trx'))
    × (trx'.trx_id ≤ℤ pos 3)
    × (visit_record trx'.trx_id (row (pos 4) max_trx_id) read_only ≡ Rc.record_invisible)
committed_row_lost_example =
    committed_row_lost store (world (row (pos 4) max_trx_id)) every_table 2 4 entries blank
      fresh_trx (row (pos 4) max_trx_id) refl (ground arith) entries-IdsUpTo (omega arith)
      (omega arith) refl refl refl refl
