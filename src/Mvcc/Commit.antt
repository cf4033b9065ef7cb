-- ===== src/Mvcc/Commit.antt =====
-- `commit_with_trx_id` over the rows that the transaction marked.
use ob_preliminary.Common.{
  ℕ, ◌≡◌, refl, sym, ap, ◌∙◌, subst, inl, inr, Bool, true, false, false≢true, ◌||◌, List, [], ◌∷◌,
  ◌++◌, Option, none, some, ◌==◌, if◌then◌else◌, arith, Bool-cases,
}
use mathlib.Core.Option.{some-injective}
use ob_preliminary.Common.Int.{ℤ, pos, neg, ltb_ℤ, eqb_ℤ, eqb_ℤ-refl}
use ob_preliminary.Common.Rc.{Rc}
use ob_preliminary.Mvcc.Store.{Row, RecordStore}
use ob_preliminary.Mvcc.{
  Operation, insert_op, delete_op, commit_log, World, MvccTrx, commit_op, commit_ops,
  commit_with_trx_id,
}
use ob_preliminary.Mvcc.Marks.{has, NoRepeat}

-- Each row that the operations name is in the store and bears the transaction's mark.
pub record Marked (st : RecordStore) (trx : MvccTrx) (s : RecordStore.State st)
    (ops : List Operation) : Type 0 where
  pub inserted :
      (j : ℕ)
      → has (insert_op j) ops ≡ true
      → (r : Row) × (st.lookup s j ≡ some r) × (r.begin_xid ≡ neg trx.trx_id)
  pub deleted :
      (j : ℕ)
      → has (delete_op j) ops ≡ true
      → (r : Row) × (st.lookup s j ≡ some r) × (r.end_xid ≡ neg trx.trx_id)

-- A row after the commit under `c`, for a row that was inserted, or deleted, or both.
abbrev pub publish : ℤ → Bool → Bool → Option Row → Option Row
publish c inserted deleted none = none
publish c inserted deleted (some r) = some (record r {
  begin_xid = if inserted then c else r.begin_xid;
  end_xid = if deleted then c else r.end_xid;
})

pub clash {ℓ} : {A : Type ℓ} {b : Bool} → b ≡ true → b ≡ false → A
clash h k = absurd (false≢true (sym k ∙ h))

pub has-head : (op : Operation) (ops : List Operation) → has op (op ∷ ops) ≡ true
has-head (insert_op i) ops = ground arith
has-head (delete_op i) ops = ground arith

publish_none : (c : ℤ) (o : Option Row) → o ≡ publish c false false o
publish_none c none = refl
publish_none c (some r) = refl

module _ (st : RecordStore) (trx : MvccTrx) (c : ℤ) (live : trx.recovering ≡ false) where
  commit_insert :
      (s : st.State) (i : ℕ) (r : Row)
      → st.lookup s i ≡ some r
      → r.begin_xid ≡ neg trx.trx_id
      → commit_op st trx c s (insert_op i) ≡ some (st.modify s i (record r { begin_xid = c }))
  unfolding commit_op
  commit_insert s i r found mark =
      let own : eqb_ℤ r.begin_xid (neg trx.trx_id) ≡ true =
        subst (λ x. eqb_ℤ x (neg trx.trx_id) ≡ true) (sym mark) (eqb_ℤ-refl (neg trx.trx_id)) in
      rw (found, commit_op) (rw (own, live))

  commit_delete :
      (s : st.State) (i : ℕ) (r : Row)
      → st.lookup s i ≡ some r
      → r.end_xid ≡ neg trx.trx_id
      → commit_op st trx c s (delete_op i) ≡ some (st.modify s i (record r { end_xid = c }))
  unfolding commit_op
  commit_delete s i r found mark =
      let own : eqb_ℤ r.end_xid (neg trx.trx_id) ≡ true =
        subst (λ x. eqb_ℤ x (neg trx.trx_id) ≡ true) (sym mark) (eqb_ℤ-refl (neg trx.trx_id)) in
      rw (found, commit_op) (rw own)

  published_insert :
      (s s1 : st.State) (i : ℕ) (r : Row) (rest : List Operation)
      → st.lookup s i ≡ some r
      → ((j : ℕ)
          → st.lookup s1 j ≡ (if j == i then some (record r { begin_xid = c }) else st.lookup s j))
      → has (insert_op i) rest ≡ false
      → (j : ℕ)
      → publish c (has (insert_op j) rest) (has (delete_op j) rest) (st.lookup s1 j)
        ≡ publish c (j == i || has (insert_op j) rest) (has (delete_op j) rest) (st.lookup s j)
  published_insert s s1 i r rest found step once j = elim (Bool-cases (j == i)) [
    | inl t ↦ let e : j ≡ i = ground arith in rw (step j, t, e, once, found)
    | inr t ↦ rw (step j, t)
  ]

  published_delete :
      (s s1 : st.State) (i : ℕ) (r : Row) (rest : List Operation)
      → st.lookup s i ≡ some r
      → ((j : ℕ)
          → st.lookup s1 j ≡ (if j == i then some (record r { end_xid = c }) else st.lookup s j))
      → has (delete_op i) rest ≡ false
      → (j : ℕ)
      → publish c (has (insert_op j) rest) (has (delete_op j) rest) (st.lookup s1 j)
        ≡ publish c (has (insert_op j) rest) (j == i || has (delete_op j) rest) (st.lookup s j)
  published_delete s s1 i r rest found step once j = elim (Bool-cases (j == i)) [
    | inl t ↦ let e : j ≡ i = ground arith in rw (step j, t, e, once, found)
    | inr t ↦ rw (step j, t)
  ]

  -- What is marked for the other operations stays so.
  still-Marked :
      (s s1 : st.State) (i : ℕ) (r r' : Row) (rest : List Operation)
      → Marked st trx s rest
      → st.lookup s i ≡ some r
      → ((j : ℕ) → st.lookup s1 j ≡ (if j == i then some r' else st.lookup s j))
      → (has (insert_op i) rest ≡ true → r'.begin_xid ≡ r.begin_xid)
      → (has (delete_op i) rest ≡ true → r'.end_xid ≡ r.end_xid)
      → Marked st trx s1 rest
  still-Marked s s1 i r r' rest m found step same_begin same_end = record {
    inserted = λ j h. elim (Bool-cases (j == i)) [
      | inl t ↦
          let e : j ≡ i = ground arith in
          let h' : has (insert_op i) rest ≡ true = subst (λ k. has (insert_op k) rest ≡ true) e h in
          let (q, f, g) = m.inserted i h' in
          (
            r',
            rw (step j, t),
            same_begin h' ∙ ap (λ x. x.begin_xid) (some-injective r q (sym found ∙ f)) ∙ g,
          )
      | inr t ↦ let (q, f, g) = m.inserted j h in (q, rw (step j, t) f, g)
    ];
    deleted = λ j h. elim (Bool-cases (j == i)) [
      | inl t ↦
          let e : j ≡ i = ground arith in
          let h' : has (delete_op i) rest ≡ true = subst (λ k. has (delete_op k) rest ≡ true) e h in
          let (q, f, g) = m.deleted i h' in
          (
            r',
            rw (step j, t),
            same_end h' ∙ ap (λ x. x.end_xid) (some-injective r q (sym found ∙ f)) ∙ g,
          )
      | inr t ↦ let (q, f, g) = m.deleted j h in (q, rw (step j, t) f, g)
    ];
  }

  pub tail-Marked :
      (s : st.State) (op : Operation) (rest : List Operation)
      → Marked st trx s (op ∷ rest)
      → Marked st trx s rest
  tail-Marked s op rest m = record {
    inserted = λ j h. m.inserted j (ground arith);
    deleted = λ j h. m.deleted j (ground arith);
  }

  commit_ops-publish :
      (ops : List Operation) (s : st.State)
      → NoRepeat ops
      → Marked st trx s ops
      → (s' : st.State) × (commit_ops st trx c s ops ≡ some s')
        × ((j : ℕ)
            → st.lookup s' j
              ≡ publish c (has (insert_op j) ops) (has (delete_op j) ops) (st.lookup s j))
  unfolding commit_ops
  commit_ops-publish [] s n m = (s, refl, λ j. publish_none c (st.lookup s j))
  commit_ops-publish (insert_op i ∷ rest) s n m =
      let (r, found, mark) = m.inserted i (has-head (insert_op i) rest) in
      let r' : Row = record r { begin_xid = c } in
      let s1 = st.modify s i r' in
      let step = λ (j : ℕ). st.lookup-modify s i r' r j found in
      let (s', run, view) = commit_ops-publish rest s1 n.1 (
        still-Marked s s1 i r r' rest (tail-Marked s (insert_op i) rest m) found step
          (λ h. clash h n.0) (λ h. refl)) in
      (
        s',
        rw (commit_insert s i r found mark, commit_ops) run,
        λ j. view j ∙ published_insert s s1 i r rest found step n.0 j,
      )
  commit_ops-publish (delete_op i ∷ rest) s n m =
      let (r, found, mark) = m.deleted i (has-head (delete_op i) rest) in
      let r' : Row = record r { end_xid = c } in
      let s1 = st.modify s i r' in
      let step = λ (j : ℕ). st.lookup-modify s i r' r j found in
      let (s', run, view) = commit_ops-publish rest s1 n.1 (
        still-Marked s s1 i r r' rest (tail-Marked s (delete_op i) rest m) found step (λ h. refl)
          (λ h. clash h n.0)) in
      (
        s',
        rw (commit_delete s i r found mark, commit_ops) run,
        λ j. view j ∙ published_delete s s1 i r rest found step n.0 j,
      )

-- A transaction that is not recovering and whose operations name each row once as inserted and
-- once as deleted, with the marks in the store, commits under a later id without a failed ASSERT: each row it
-- inserted begins at the commit id, each row it deleted ends there, every other row and every other field
-- is as before; the operations are forgotten and the commit is logged last.
pub commit_with_trx_id_publishes :
    (st : RecordStore) (w : World st) (trx : MvccTrx) (c : ℤ) (wait_rc : Rc)
    → trx.recovering ≡ false
    → NoRepeat trx.operations
    → Marked st trx w.table trx.operations
    → ltb_ℤ (pos 0) trx.trx_id ≡ true
    → ltb_ℤ trx.trx_id c ≡ true
    → (w' : World st) × (trx' : MvccTrx) × (commit_with_trx_id st w trx c wait_rc
        ≡ some (wait_rc, w', trx'))
      × ((j : ℕ)
          → st.lookup w'.table j
            ≡ publish c
                (has (insert_op j) trx.operations)
                (has (delete_op j) trx.operations)
                (st.lookup w.table j))
      × (trx'.operations ≡ [])
      × (trx'.started ≡ false)
      × (w'.log ≡ w.log ++ commit_log trx.trx_id c ∷ [])
unfolding commit_with_trx_id
commit_with_trx_id_publishes st w trx c wait_rc live n m real later =
    let (s', run, view) = commit_ops-publish st trx c live trx.operations w.table n m in
    (
      record w { table = s'; log = w.log ++ commit_log trx.trx_id c ∷ [] },
      record trx { started = false; operations = [] },
      rw (run, commit_with_trx_id) (rw (live, real, later)),
      view,
      refl,
      refl,
      refl,
    )
