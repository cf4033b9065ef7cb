-- ===== src/Common/System.antt =====
-- What the code sees of the operating system: the results of ::write, and a call that need not return.
use Prim.Native.Nat.{ℕ, zero, suc}
use mathlib.Core.List.{List, [], ◌∷◌}

-- A return of ::write: a number of bytes (cut to the size asked for), -1 with EAGAIN or EINTR, or -1 with
-- another error.
pub data WriteResult : Type 0 where
  wrote : ℕ → WriteResult
  again : WriteResult
  fails : WriteResult

-- How many calls take a byte before one fails.
abbrev pub good : List WriteResult → ℕ
good [] = 0
good (again ∷ future) = good future
good (fails ∷ future) = 0
good (wrote zero ∷ future) = good future
good (wrote (suc k) ∷ future) = suc (good future)

-- A call returns, waits for something that has not happened, or stops at a failed ASSERT.
pub data Call {ℓ} (A : Type ℓ) : Type ℓ where
  returns : A → Call A
  waits : Call A
  stops : Call A
