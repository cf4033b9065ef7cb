-- ===== src/Mvcc/Store.antt =====
-- What MVCC asks of the tables: rows that carry `__trx_xid_begin` and `__trx_xid_end`, reached by
-- an address (a number that stands for table, page and slot). `Table::insert_record`, `visit_record`,
-- `get_record` and `delete_record` of the record manager are the operations.
use ob_preliminary.Common.{ℕ, ◌≡◌, ◌≢◌, List, Option, none, some, ◌==◌, if◌then◌else◌}
use ob_preliminary.Common.Int.{ℤ}
use ob_preliminary.Common.Rc.{Rc}

pub record Row : Type 0 where
  pub begin_xid : ℤ
  pub end_xid : ℤ
  pub payload : List ℕ

-- The operations of a store of rows, and what they do to a lookup.
pub record RecordStore : Type 1 where
  pub State : Type 0
  pub lookup : State → ℕ → Option Row
  -- A new row, at an address that the store chooses; `none` with a code if there is no room.
  pub insert : State → Row → Option (ℕ × State)
  pub insert_code : State → Rc
  -- A row written in place through `visit_record`.
  pub modify : State → ℕ → Row → State
  pub remove : State → ℕ → State
  -- The code of a visit to an address that holds no row.
  pub missing_code : State → ℕ → Rc
  pub insert_code-fails : (s : State) → insert_code s ≢ Rc.success
  pub missing_code-fails : (s : State) (i : ℕ) → missing_code s i ≢ Rc.success
  pub insert-fresh :
      (s : State) (r : Row) (i : ℕ) (s' : State) → insert s r ≡ some (i, s') → lookup s i ≡ none
  pub lookup-insert :
      (s : State) (r : Row) (i : ℕ) (s' : State) (j : ℕ)
      → insert s r ≡ some (i, s')
      → lookup s' j ≡ (if j == i then some r else lookup s j)
  pub lookup-modify :
      (s : State) (i : ℕ) (r q : Row) (j : ℕ)
      → lookup s i ≡ some q
      → lookup (modify s i r) j ≡ (if j == i then some r else lookup s j)
  pub lookup-remove :
      (s : State) (i j : ℕ) → lookup (remove s i) j ≡ (if j == i then none else lookup s j)
