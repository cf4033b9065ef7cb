-- ===== src/Common/Rc.antt =====
-- src/observer/common/rc.h: the return codes that the modelled functions give.
use mathlib.Core.Bool.{Bool, true, false}
use mathlib.Core.Path.{◌≡◌}
use native.Mathlib.Omega.{arith}

-- `enum class RC`, cut down to the codes that the modelled code names.
pub data Rc : Type 0 where
  success : Rc
  invalid_argument : Rc
  variable_not_valid : Rc
  internal : Rc
  ioerr_read : Rc
  ioerr_write : Rc
  file_not_opened : Rc
  log_file_full : Rc
  log_entry_invalid : Rc
  record_nomem : Rc
  record_not_exist : Rc
  record_invalid_rid : Rc
  record_invisible : Rc
  locked_concurrency_conflict : Rc
  schema_table_not_exist : Rc
  file_open : Rc
  ioerr_seek : Rc
  ioerr_access : Rc
  ioerr_close : Rc
  schema_db_exist : Rc
  bufferpool_open : Rc
  bufferpool_nobuf : Rc
  bufferpool_invalid_page_num : Rc
  locked_unlock : Rc

-- `OB_SUCC(rc)`
abbrev pub ob_succ : Rc → Bool
ob_succ Rc.success = true
ob_succ _ = false

pub is_success : (rc : Rc) → ob_succ rc ≡ true → rc ≡ Rc.success
is_success rc h = ground arith
