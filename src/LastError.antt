-- ===== src/LastError.antt =====
-- src/flow/supervisor/types.rs: the map of each flow's last error.
use gcit.Base.{String, Option}
use gcit.Base.Dict.{Dict, insert}
use gcit.State.Types.{DateTime}

pub record FlowLastError : Type 0 where
  pub at : DateTime
  pub kind : String
  pub message : String
  pub retry_at : Option DateTime

-- `now` is what the clock says when the entry is made.
unfoldable pub record_last_error :
    DateTime → String → String → String → Option DateTime → Dict FlowLastError → Dict FlowLastError
record_last_error now flow kind message retry_at =
    insert flow (record { at = now; kind = kind; message = message; retry_at = retry_at })
