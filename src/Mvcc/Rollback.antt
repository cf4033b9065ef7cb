-- ===== src/Mvcc/Rollback.antt =====
-- `rollback` of a transaction that is not recovering, against its effect on the rows as a function of
-- the address.
use cubical.Cubical.Foundations.Prelude.{fun_ext}
use mathlib.Core.List.{reverse}
use ob_preliminary.Common.{
  ℕ, ◌≡◌, refl, subst, inl, inr, true, false, List, [], ◌∷◌, ◌++◌, Option, none, some, ◌==◌,
  if◌then◌else◌, Bool-cases, Option-cases,
}
use ob_preliminary.Common.Int.{ℤ, pos, neg, ltb_ℤ, eqb_ℤ}
use ob_preliminary.Common.Rc.{Rc, ob_succ}
use ob_preliminary.Mvcc.Store.{Row, RecordStore}
use ob_preliminary.Mvcc.{
  Operation, insert_op, delete_op, rollback_log, max_trx_id, World, MvccTrx, Round, go_on, aborted,
  rollback_op, rollback_ops, rollback,
}

abbrev pub View : Type 0
View = ℕ → Option Row

abbrev pub put : View → ℕ → Option Row → View
put v i o = λ j. if j == i then o else v j

-- What undoing an operation of the transaction `t` means: an inserted row goes, a deleted one, if it bears the
-- mark of `t`, is alive again.
abbrev pub undo_delete : ℤ → View → ℕ → Option Row → Option View
undo_delete t v i none = none
undo_delete t v i (some r) =
    if eqb_ℤ r.end_xid (neg t)
    then some (put v i (some (record r { end_xid = max_trx_id })))
    else none

abbrev pub undo_insert : View → ℕ → Option Row → Option View
undo_insert v i none = none
undo_insert v i (some r) = some (put v i none)

abbrev pub undo_op : ℤ → View → Operation → Option View
undo_op t v (insert_op i) = undo_insert v i (v i)
undo_op t v (delete_op i) = undo_delete t v i (v i)

abbrev pub and_then : Option View → (View → Option View) → Option View
and_then none f = none
and_then (some v) f = f v

abbrev pub undo_ops : ℤ → View → List Operation → Option View
undo_ops t v [] = some v
undo_ops t v (op ∷ ops) = and_then (undo_op t v op) (λ v'. undo_ops t v' ops)

-- A round, or a whole loop, of the rollback does what the view says: it runs through with that view, or an
-- ASSERT fails where undoing is not defined.
abbrev pub Undoes : (st : RecordStore) → Round st → Option View → Type 0
Undoes st r none = r ≡ aborted
Undoes st r (some v) = (s : RecordStore.State st) × (r ≡ go_on Rc.success s) × (st.lookup s ≡ v)

module _ (st : RecordStore) (trx : MvccTrx) (live : trx.recovering ≡ false) where
  lookup_remove_view : (s : st.State) (i : ℕ) → st.lookup (st.remove s i) ≡ put (st.lookup s) i none
  lookup_remove_view s i = fun_ext (λ j. st.lookup-remove s i j)

  lookup_modify_view :
      (s : st.State) (i : ℕ) (r q : Row)
      → st.lookup s i ≡ some q
      → st.lookup (st.modify s i r) ≡ put (st.lookup s) i (some r)
  lookup_modify_view s i r q f = fun_ext (λ j. st.lookup-modify s i r q j f)

  rollback_op_lem :
      (s : st.State) (op : Operation)
      → Undoes st (rollback_op st trx Rc.success s op) (undo_op trx.trx_id (st.lookup s) op)
  unfolding rollback_op
  rollback_op_lem s (insert_op i) = elim (Option-cases (st.lookup s i)) [
    | inl f ↦ rw f (rw live refl)
    | inr (r, f) ↦ rw f (rw live (st.remove s i, refl, lookup_remove_view s i))
  ]
  rollback_op_lem s (delete_op i) = elim (Option-cases (st.lookup s i)) [
    | inl f ↦ rw f refl
    | inr (r, f) ↦ elim (Bool-cases (eqb_ℤ r.end_xid (neg trx.trx_id))) [
      | inl own ↦
          let r' : Row = record r { end_xid = max_trx_id } in
          rw f (rw (live, own) (st.modify s i r', refl, lookup_modify_view s i r' r f))
      | inr other ↦ rw f (rw (live, other) refl)
    ]
  ]

  after_round :
      (s : st.State) (op : Operation) (ops : List Operation) (o : Option View)
      → Undoes st (rollback_op st trx Rc.success s op) o
      → ((s' : st.State)
          → Undoes st
              (rollback_ops st trx Rc.success s' ops)
              (undo_ops trx.trx_id (st.lookup s') ops))
      → Undoes st
          (rollback_ops st trx Rc.success s (op ∷ ops))
          (and_then o (λ v'. undo_ops trx.trx_id v' ops))
  unfolding rollback_ops
  after_round s op ops none e rest = rw (e, rollback_ops) refl
  after_round s op ops (some v) (s', e, view) rest =
      rw (e, rollback_ops)
        (subst
          (λ v'. Undoes st (rollback_ops st trx Rc.success s' ops) (undo_ops trx.trx_id v' ops))
          view (rest s'))

  -- A loop of the rollback undoes the operations in the order given.
  pub rollback_ops_lem :
      (ops : List Operation) (s : st.State)
      → Undoes st (rollback_ops st trx Rc.success s ops) (undo_ops trx.trx_id (st.lookup s) ops)
  unfolding rollback_ops
  rollback_ops_lem [] s = (s, refl, refl)
  rollback_ops_lem (op ∷ ops) s =
      after_round s op ops (undo_op trx.trx_id (st.lookup s) op) (rollback_op_lem s op)
        (rollback_ops_lem ops)

-- The rollback of a transaction that is not recovering undoes its operations, the last one first: if that is
-- defined, it returns what the log gives for its entry, which is the last one if the log takes it, forgets the operations
-- and leaves the rows undone.
pub rollback_undoes :
    (st : RecordStore) (w : World st) (trx : MvccTrx) (log_rc : Rc) (v : View)
    → trx.recovering ≡ false
    → ltb_ℤ (pos 0) trx.trx_id ≡ true
    → undo_ops trx.trx_id (st.lookup w.table) (reverse trx.operations) ≡ some v
    → (w' : World st) × (trx' : MvccTrx) × (rollback st w trx log_rc ≡ some (log_rc, w', trx'))
      × (st.lookup w'.table ≡ v)
      × (trx'.operations ≡ [])
      × (trx'.started ≡ false)
      × (w'.log ≡ (if ob_succ log_rc then w.log ++ rollback_log trx.trx_id ∷ [] else w.log))
unfolding rollback
rollback_undoes st w trx log_rc v live real undo =
    let (s', run, view) =
      subst (Undoes st (rollback_ops st trx Rc.success w.table (reverse trx.operations))) undo
        (rollback_ops_lem st trx live (reverse trx.operations) w.table) in
    (
      record w {
        table = s';
        log = if ob_succ log_rc then w.log ++ rollback_log trx.trx_id ∷ [] else w.log;
      },
      record trx { started = false; operations = [] },
      rw (run, rollback) (rw (live, real)),
      view,
      refl,
      refl,
      refl,
    )
