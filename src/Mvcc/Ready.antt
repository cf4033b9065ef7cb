-- ===== src/Mvcc/Ready.antt =====
-- What holds of a transaction between its calls: its operations are remembered once each, and the rows bear its marks.
use ob_preliminary.Common.{
  ℕ, ◌≡◌, refl, sym, ap, ◌∙◌, subst, ◌⊎◌, inl, inr, true, false, false≢true, List, [], ◌∷◌, ◌++◌,
  Option, none, some, ◌==◌, if◌then◌else◌, arith, Bool-cases, Option-cases,
}
use mathlib.Core.Option.{some-injective}
use ob_preliminary.Common.Int.{ℤ, pos, negsuc, neg, ltb_ℤ}
use ob_preliminary.Common.Rc.{Rc, ob_succ}
use ob_preliminary.Mvcc.Store.{Row, RecordStore}
use ob_preliminary.Mvcc.{
  Operation, insert_op, delete_op, max_trx_id, read_write, visit_record, new_row, World, MvccTrx,
  insert_record, delete_record,
}
use ob_preliminary.Mvcc.Marks.{has, has-append, NoRepeat, NoRepeat-snoc, insert_ends, delete_ends}
use ob_preliminary.Mvcc.Commit.{Marked}
use ob_preliminary.Mvcc.Script.{Run, start, inserted, deleted, success-only}

-- An operation is the last one, or one of those before.
has-snoc-cases :
    (op x : Operation) (ops : List Operation)
    → has op (ops ++ x ∷ []) ≡ true
    → (has op ops ≡ true) ⊎ (has op (x ∷ []) ≡ true)
has-snoc-cases op x ops h = elim (Bool-cases (has op ops)) [
  | inl before ↦ inl before
  | inr no_more ↦ inr (ground (arith, has-append op ops (x ∷ [])))
]

-- A row stays where it is when another gets a free place.
kept_row :
    {S : Type 0} (v : S → ℕ → Option Row) (s s' : S) (j rid : ℕ) (r q : Row)
    → v s j ≡ some q
    → ((i : ℕ) → v s' i ≡ (if i == rid then some r else v s i))
    → v s rid ≡ none
    → v s' j ≡ some q
kept_row v s s' j rid r q g step free = elim (Bool-cases (j == rid)) [
  | inl t ↦ let e : j ≡ rid = ground arith in absurd (apart (sym free ∙ ap (v s) (sym e) ∙ g))
  | inr t ↦ step j ∙ rw t g
]
  where
    apart : ¬ (none ≡ some q)
    apart e = cc

module _ (st : RecordStore) where
  pub record Ready (w : World st) (trx : MvccTrx) : Type 0 where
    pub real : ltb_ℤ (pos 0) trx.trx_id ≡ true
    pub live : trx.recovering ≡ false
    pub once : NoRepeat trx.operations
    pub marks : Marked st trx w.table trx.operations

  abbrev ReadyAfter : Option (Rc × World st × MvccTrx) → Type 0
  ReadyAfter none = Unit {0}
  ReadyAfter (some (rc, w, trx)) = Ready w trx

  -- A row that bears no mark of the transaction is in none of its operations.
  new_insert :
      (w : World st) (trx : MvccTrx) (rid : ℕ)
      → Ready w trx
      → st.lookup w.table rid ≡ none
      → has (insert_op rid) trx.operations ≡ false
  new_insert w trx rid u free = elim (Bool-cases (has (insert_op rid) trx.operations)) [
    | inr no_more ↦ no_more
    | inl there ↦ let (r, f, _) = u.marks.inserted rid there in absurd (apart r (sym free ∙ f))
  ]
    where
      apart : (r : Row) → ¬ (none ≡ some r)
      apart r e = cc

  new_delete :
      (w : World st) (trx : MvccTrx) (rid : ℕ) (r : Row)
      → Ready w trx
      → st.lookup w.table rid ≡ some r
      → r.end_xid ≡ max_trx_id
      → has (delete_op rid) trx.operations ≡ false
  new_delete w trx rid r u found alive = elim (Bool-cases (has (delete_op rid) trx.operations)) [
    | inr no_more ↦ no_more
    | inl there ↦
        let (q, f, mark) = u.marks.deleted rid there in
        let same : r ≡ q = some-injective r q (sym found ∙ f) in
        let marked : max_trx_id ≡ neg trx.trx_id = sym alive ∙ ap (λ x. x.end_xid) same ∙ mark in
        absurd (apart trx.trx_id u.real marked)
  ]
    where
      apart : (x : ℤ) → ltb_ℤ (pos 0) x ≡ true → ¬ (max_trx_id ≡ neg x)
      apart (pos n) h e = ground arith
      apart (negsuc n) h e = ground arith

  insert-Ready :
      (w : World st) (trx : MvccTrx) (payload : List ℕ) (log_rc : Rc)
      → Ready w trx
      → ReadyAfter (insert_record st w trx payload log_rc)
  unfolding insert_record
  insert-Ready w trx payload log_rc u =
      elim (Option-cases (st.insert w.table (new_row trx.trx_id payload))) [
        | inl f ↦ rw (f, insert_record) u
        | inr ((rid, table'), f) ↦
            let r = new_row trx.trx_id payload in
            let free = st.insert-fresh w.table r rid table' f in
            let step = λ (j : ℕ). st.lookup-insert w.table r rid table' j f in
            insert_ends st w trx u.real ReadyAfter payload rid table' log_rc f tt (record {
              real = u.real;
              live = u.live;
              once =
                  NoRepeat-snoc trx.operations (insert_op rid) u.once (new_insert w trx rid u free);
              marks = record {
                inserted = λ j h.
                    elim (has-snoc-cases (insert_op j) (insert_op rid) trx.operations h) [
                      | inl before ↦
                          let (q, g, mark) = u.marks.inserted j before in
                          (q, kept_row st.lookup w.table table' j rid r q g step free, mark)
                      | inr now ↦
                          let t : (j == rid) ≡ true = ground arith in (r, step j ∙ rw t, refl)
                    ];
                deleted = λ j h.
                    elim (has-snoc-cases (delete_op j) (insert_op rid) trx.operations h) [
                      | inl before ↦
                          let (q, g, mark) = u.marks.deleted j before in
                          (q, kept_row st.lookup w.table table' j rid r q g step free, mark)
                      | inr now ↦ absurd (false≢true now)
                    ];
              };
            })
      ]

  delete-Ready :
      (w : World st) (trx : MvccTrx) (rid : ℕ) (log_rc : Rc)
      → Ready w trx
      → ((r : Row) → st.lookup w.table rid ≡ some r → r.end_xid ≡ max_trx_id)
      → ReadyAfter (delete_record st w trx rid log_rc)
  unfolding delete_record
  delete-Ready w trx rid log_rc u alive = elim (Option-cases (st.lookup w.table rid)) [
    | inl f ↦ rw (f, delete_record) u
    | inr (r, f) ↦ elim (Bool-cases (ob_succ (visit_record trx.trx_id r read_write))) [
      | inr refused ↦ rw (f, delete_record) (rw refused u)
      | inl ok ↦
          let r' : Row = record r { end_xid = neg trx.trx_id } in
          let step = λ (j : ℕ). st.lookup-modify w.table rid r' r j f in
          delete_ends st w trx u.real ReadyAfter rid r log_rc f
            (success-only (visit_record trx.trx_id r read_write) ok) tt
            (record {
              real = u.real;
              live = u.live;
              once =
                  NoRepeat-snoc trx.operations (delete_op rid) u.once
                    (new_delete w trx rid r u f (alive r f));
              marks = record {
                inserted = λ j h.
                    elim (has-snoc-cases (insert_op j) (delete_op rid) trx.operations h) [
                      | inl before ↦
                          let (q, g, mark) = u.marks.inserted j before in
                          elim (Bool-cases (j == rid)) [
                            | inl t ↦
                                let e : j ≡ rid = ground arith in
                                let same : r ≡ q =
                                  some-injective r q (sym f ∙ ap (st.lookup w.table) (sym e) ∙ g) in
                                (r', step j ∙ rw t, ap (λ x. x.begin_xid) same ∙ mark)
                            | inr t ↦ (q, step j ∙ rw t g, mark)
                          ]
                      | inr now ↦ absurd (false≢true now)
                    ];
                deleted = λ j h.
                    elim (has-snoc-cases (delete_op j) (delete_op rid) trx.operations h) [
                      | inr now ↦
                          let t : (j == rid) ≡ true = ground arith in (r', step j ∙ rw t, refl)
                      | inl before ↦
                          let (q, g, mark) = u.marks.deleted j before in
                          elim (Bool-cases (j == rid)) [
                            | inl t ↦ (r', step j ∙ rw t, refl)
                            | inr t ↦ (q, step j ∙ rw t g, mark)
                          ]
                    ];
              };
            })
    ]
  ]

  pub run-Ready :
      {w0 : World st} {trx0 : MvccTrx} (w : World st) (trx : MvccTrx)
      → Ready w0 trx0
      → Run st w0 trx0 w trx
      → Ready w trx
  run-Ready w trx u start = u
  run-Ready w trx u (inserted {w = w1} {trx = trx1} rc payload log_rc run e) =
      subst ReadyAfter e (insert-Ready w1 trx1 payload log_rc (run-Ready w1 trx1 u run))
  run-Ready w trx u (deleted {w = w1} {trx = trx1} rc rid log_rc run alive e) =
      subst ReadyAfter e (delete-Ready w1 trx1 rid log_rc (run-Ready w1 trx1 u run) alive)
