-- ===== src/Mvcc/Replay/Recovery.antt =====
-- What the replay of the log leaves: no unfinished transaction, and an id for the next one.
use ob_preliminary.Common.{
  ℕ, ◌+◌, ◌-◌, ◌^◌, ◌<◌, ◌≤◌, ◌≡◌, refl, ap, ◌∙◌, Bool, true, false, List, [], ◌∷◌, Option, none,
  some, if◌then◌else◌, arith, Bool-cases, inl, inr,
}
use ob_preliminary.Common.Int.{ℤ, pos, ltb_ℤ, ◌≤ℤ◌}
use ob_preliminary.Common.Rc.{Rc, ob_succ}
use ob_preliminary.Mvcc.Store.{Row, RecordStore}
use ob_preliminary.Mvcc.{
  read_only, Operation, TrxLog, MvccTrx, World, start_if_need, visit_record, max_trx_id, incr32,
}
use ob_preliminary.Mvcc.Replay.{
  header_trx_id, ends_trx, find_trx, erase, Replayer, replay, replay_all, rollback_map, on_done,
}

-- The ids in the headers of the entries are at most `m`.
abbrev pub IdsUpTo : ℤ → List (Option TrxLog) → Type 0
IdsUpTo m [] = Unit {0}
IdsUpTo m (none ∷ entries) = IdsUpTo m entries
IdsUpTo m (some entry ∷ entries) = (header_trx_id entry ≤ℤ m) × IdsUpTo m entries

module _ (has_table : ℕ → Bool) where
  no_trx : (id : ℤ) → find_trx [] id ≡ none
  unfolding find_trx
  no_trx id = refl

  no_more : (id : ℤ) → erase [] id ≡ []
  unfolding erase
  no_more id = refl

  -- What a replay starts from and keeps: the map is empty and the kit's id is at most `m`.
  abbrev Blank : ℤ → Replayer → Type 0
  Blank m rp = (rp.trx_map ≡ []) × (rp.current_trx_id ≤ℤ m)

  replay-Blank :
      (m : ℤ) (rp : Replayer) (entry : Option TrxLog)
      → Blank m rp
      → IdsUpTo m (entry ∷ [])
      → Blank m (replay has_table rp entry).1
  unfolding replay
  replay-Blank m rp none b ids = b
  replay-Blank m rp (some entry) (e, l) ids =
      let id = header_trx_id entry in
      let fresh : find_trx rp.trx_map id ≡ none = ap (λ tm. find_trx tm id) e ∙ no_trx id in
      let erased : erase rp.trx_map id ≡ [] = ap (λ tm. erase tm id) e ∙ no_more id in
      rw (fresh, replay) (kept erased (ends_trx entry), raised (ltb_ℤ rp.current_trx_id id))
    where
      kept :
          erase rp.trx_map (header_trx_id entry) ≡ []
          → (b : Bool) → (if b then erase rp.trx_map (header_trx_id entry) else rp.trx_map) ≡ []
      kept erased true = erased
      kept erased false = e

      raised : (b : Bool) → (if b then header_trx_id entry else rp.current_trx_id) ≤ℤ m
      raised true = ids.0
      raised false = l

  replay_all-Blank :
      (m : ℤ) (entries : List (Option TrxLog)) (rp : Replayer)
      → Blank m rp
      → IdsUpTo m entries
      → Blank m (replay_all has_table rp entries).1
  unfolding replay_all
  replay_all-Blank m [] rp b ids = b
  replay_all-Blank m (entry ∷ entries) rp b ids =
      let next = replay-Blank m rp entry b (first entry ids) in
      elim (Bool-cases (ob_succ (replay has_table rp entry).0)) [
        | inl good ↦
            rw good
              (replay_all-Blank m entries (replay has_table rp entry).1 next (others entry ids))
        | inr bad ↦ rw bad next
      ]
    where
      first : (entry : Option TrxLog) → IdsUpTo m (entry ∷ entries) → IdsUpTo m (entry ∷ [])
      first none ids = tt
      first (some entry) ids = (ids.0, tt)

      others : (entry : Option TrxLog) → IdsUpTo m (entry ∷ entries) → IdsUpTo m entries
      others none ids = ids
      others (some entry) ids = ids.1

-- A replayer that starts with an empty map never learns of a transaction: whatever is replayed,
-- the map is empty at the end, and `on_done` rolls nothing back, so the rows that unfinished transactions
-- touched keep their marks.
pub replay_rolls_nothing_back :
    (st : RecordStore) (w : World st) (has_table : ℕ → Bool) (m : ℤ)
    (entries : List (Option TrxLog)) (rp : Replayer)
    → rp.trx_map ≡ []
    → rp.current_trx_id ≤ℤ m
    → IdsUpTo m entries
    → let rp' = (replay_all has_table rp entries).1 in
      (on_done st w rp' ≡ some (w, record rp' { trx_map = [] })) × (rp'.trx_map ≡ [])
unfolding on_done rollback_map
replay_rolls_nothing_back st w has_table m entries rp e l ids =
    let (e', l') = replay_all-Blank has_table m entries rp (e, l) ids in
    (rw (ap (rollback_map st w) e' ∙ nothing, on_done) refl, e')
  where
    nothing : rollback_map st w [] ≡ some w
    nothing = refl

-- If no header of the log, nor the kit before the replay, has an id above `m`, the first transaction after the
-- replay gets an id of at most m + 1; so a row that was committed under a later id (a commit id stands only in
-- the body of its entry) is invisible to it.
pub committed_row_lost :
    (st : RecordStore) (w : World st) (has_table : ℕ → Bool) (m c : ℕ)
    (entries : List (Option TrxLog)) (rp : Replayer) (trx : MvccTrx) (r : Row)
    → rp.trx_map ≡ []
    → rp.current_trx_id ≤ℤ pos m
    → IdsUpTo (pos m) entries
    → m + 1 < c
    → c ≤ 2 ^ 31 - 1
    → trx.started ≡ false
    → trx.operations ≡ []
    → r.begin_xid ≡ pos c
    → r.end_xid ≡ max_trx_id
    → let w0 = record w { current_trx_id = (replay_all has_table rp entries).1.current_trx_id } in
      (w' : World st) × (trx' : MvccTrx) × (start_if_need st w0 trx ≡ some (w', trx'))
      × (trx'.trx_id ≤ℤ pos (m + 1))
      × (visit_record trx'.trx_id r read_only ≡ Rc.record_invisible)
unfolding start_if_need visit_record
committed_row_lost st w has_table m c entries rp trx r e l ids later big idle none_left hb he =
    let (e', l') = replay_all-Blank has_table (pos m) entries rp (e, l) ids in
    let id = (replay_all has_table rp entries).1.current_trx_id in
    let next : incr32 id ≤ℤ pos (m + 1) = next_id id l' in
    (
      record w { current_trx_id = incr32 id },
      record trx { trx_id = incr32 id; started = true },
      starts id,
      next,
      unseen (incr32 id) next,
    )
  where
    next_id : (x : ℤ) → x ≤ℤ pos m → incr32 x ≤ℤ pos (m + 1)
    next_id x h = ground arith

    begin_with : Option (World st × MvccTrx) → List Operation → Option (World st × MvccTrx)
    begin_with o [] = o
    begin_with o (op ∷ ops) = none

    starts :
        (x : ℤ)
        → start_if_need st (record w { current_trx_id = x }) trx
          ≡ some (
            record w { current_trx_id = incr32 x },
            record trx { trx_id = incr32 x; started = true },
          )
    starts x = rw idle (
        ap
          (begin_with (
            some (
              record w { current_trx_id = incr32 x },
              record trx { trx_id = incr32 x; started = true },
            )))
          none_left)

    unseen : (x : ℤ) → x ≤ℤ pos (m + 1) → visit_record x r read_only ≡ Rc.record_invisible
    unseen x h = ground arith
