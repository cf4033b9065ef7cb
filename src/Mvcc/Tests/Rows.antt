-- ===== src/Mvcc/Tests/Rows.antt =====
-- A small store of rows, and a world with one row.
use ob_preliminary.Common.{
  ℕ, suc, ◌≡◌, ◌≢◌, [], ◌∷◌, Option, none, some, ◌==◌, ltb, if◌then◌else◌, arith, ap, subst,
}
use ob_preliminary.Common.Int.{ℤ, pos}
use mathlib.Core.Option.{some-injective}
use ob_preliminary.Common.Rc.{Rc}
use ob_preliminary.Mvcc.Store.{Row, RecordStore}
use ob_preliminary.Mvcc.{World}

-- A store that hands out the addresses 0, 1, 2, …
pub record Rows : Type 0 where
  pub rows : ℕ → Option Row
  pub next : ℕ

abbrev pub find : Rows → ℕ → Option Row
find s i = if ltb i s.next then s.rows i else none

abbrev pub put_row : Rows → ℕ → Option Row → Rows
put_row s i o = record s { rows = λ j. if j == i then o else s.rows j }

abbrev pub add_row : Rows → Row → Rows
add_row s r = record { rows = λ j. if j == s.next then some r else s.rows j; next = suc s.next }

find-add_row :
    (s : Rows) (r : Row) (j : ℕ) → find (add_row s r) j ≡ (if j == s.next then some r else find s j)
find-add_row s r j = ground arith

pub find-put_row :
    (s : Rows) (i : ℕ) (r q : Row) (j : ℕ)
    → find s i ≡ some q
    → find (put_row s i (some r)) j ≡ (if j == i then some r else find s j)
find-put_row s i r q j f = ground arith

pub find-drop :
    (s : Rows) (i j : ℕ) → find (put_row s i none) j ≡ (if j == i then none else find s j)
find-drop s i j = ground arith

same_pair :
    (s : Rows) (r : Row) (i : ℕ) (s' : Rows)
    → ◌≡◌ {A = Option (ℕ × Rows)} (some (s.next, add_row s r)) (some (i, s'))
    → ◌≡◌ {A = ℕ × Rows} (s.next, add_row s r) (i, s')
same_pair s r i s' e = some-injective (s.next, add_row s r) (i, s') e

pub add-fresh :
    (s : Rows) (r : Row) (i : ℕ) (s' : Rows)
    → ◌≡◌ {A = Option (ℕ × Rows)} (some (s.next, add_row s r)) (some (i, s'))
    → find s i ≡ none
add-fresh s r i s' e = let same = ap (λ x. x.0) (same_pair s r i s' e) in ground arith

pub find-add :
    (s : Rows) (r : Row) (i : ℕ) (s' : Rows) (j : ℕ)
    → ◌≡◌ {A = Option (ℕ × Rows)} (some (s.next, add_row s r)) (some (i, s'))
    → find s' j ≡ (if j == i then some r else find s j)
find-add s r i s' j e =
    subst {A = ℕ × Rows} (λ x. find x.1 j ≡ (if j == x.0 then some r else find s j))
      (same_pair s r i s' e) (find-add_row s r j)

pub no_room : Rc.record_nomem ≢ Rc.success
no_room h = cc

pub no_row : Rc.record_not_exist ≢ Rc.success
no_row h = cc

abbrev pub store : RecordStore
store = record {
  State = Rows;
  lookup = find;
  insert = λ s r. some (s.next, add_row s r);
  insert_code = λ s. Rc.record_nomem;
  modify = λ s i r. put_row s i (some r);
  remove = λ s i. put_row s i none;
  missing_code = λ s i. Rc.record_not_exist;
  insert_code-fails = λ s. no_room;
  missing_code-fails = λ s i. no_row;
  insert-fresh = add-fresh;
  lookup-insert = find-add;
  lookup-modify = find-put_row;
  lookup-remove = find-drop;
}

abbrev pub row : ℤ → ℤ → Row
row b e = record { begin_xid = b; end_xid = e; payload = 7 ∷ [] }

-- One row at the address 0.
abbrev pub world : Row → World store
world r = record {
  table = record { rows = λ j. if j == 0 then some r else none; next = 1 };
  current_trx_id = pos 9;
  log = [];
}
