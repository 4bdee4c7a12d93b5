-- ===== src/Rom/Logger.antt =====
-- distserve/rom_logger.py: the log of the RoM scheduler, as the list of the records that it is given.
use Prim.Native.String.{String}
use text.Mathlib.Text.{◌==◌ as str_eq}
use recompute_or_migrate.Base.{
  ℕ, Bool, true, false, ◌||◌, Option, none, some, List, [], ◌∷◌, ◌++◌, if◌then◌else◌, is_some,
  length, Error,
}
use recompute_or_migrate.Floats.{Floats}
use recompute_or_migrate.Rom.Decision.{Decision}

pub data Level : Type 0 where
  info warning : Level

-- The handlers of the one logger of the program: of the file, its path.
pub record PythonLogger : Type 0 where
  pub stream_handler : Bool
  pub file_handler : Option String

-- `if not logger.handlers`, then the file if it is asked for and none is attached.
abbrev pub with_stream : PythonLogger → PythonLogger
with_stream l =
    if l.stream_handler || is_some l.file_handler then l else record l { stream_handler = true }

abbrev pub attach_file : PythonLogger → Option String → PythonLogger
attach_file l none = l
attach_file l (some path) =
    if str_eq path "" || is_some l.file_handler then l else record l { file_handler = some path }

unfoldable pub get_python_logger : PythonLogger → Option String → PythonLogger
get_python_logger l log_file = attach_file (with_stream l) log_file

unfoldable pub reset_python_logger : PythonLogger → PythonLogger
reset_python_logger l = record { stream_handler = false; file_handler = none }

pub data RomEvent (F : Floats) : Type 0 where
  rom_decision :
      (ts : F.Carrier)
      → (request_id prompt_len : ℕ) → (bandwidth_mbps c_mig_s c_recomp_s : F.Carrier)
      → (decision : Decision) → (policy : String) → (failed_worker_id target_worker_id : Option ℕ)
      → RomEvent F
  rom_recovery :
      (ts : F.Carrier)
      → (request_id : ℕ) → (decision : Decision) → (success : Bool) → (latency_s : F.Carrier)
      → (error : Option Error) → RomEvent F
  decode_worker_failure :
      (ts : F.Carrier)
      → (worker_id affected_request_count : ℕ) → (affected_request_ids : List ℕ) → RomEvent F

module _ (F : Floats) where
  abbrev pub Log : Type 0
  Log = List (Level × RomEvent F)

  unfoldable pub log_decision :
      Log
      → (ts : F.Carrier) → (request_id prompt_len : ℕ) → (bandwidth_mbps c_mig c_recomp : F.Carrier)
      → Decision
      → String
      → (failed_worker_id target_worker_id : Option ℕ) → Log
  log_decision log ts request_id prompt_len bandwidth_mbps c_mig c_recomp decision policy failed
        target =
      log
      ++ (
        info,
        rom_decision ts request_id prompt_len (F.round bandwidth_mbps 3) (F.round c_mig 6)
            (F.round c_recomp 6) decision policy failed target,
      )
        ∷ []

  unfoldable pub log_recovery :
      Log
      → (ts : F.Carrier) → (request_id : ℕ) → Decision
      → (success : Bool) → (latency_s : F.Carrier) → Option Error
      → Log
  log_recovery log ts request_id decision success latency_s error =
      log
      ++ (
        if success then info else warning,
        rom_recovery ts request_id decision success (F.round latency_s 6) error,
      )
        ∷ []

  unfoldable pub log_worker_failure :
      Log → (ts : F.Carrier) → (worker_id : ℕ) → (affected_request_ids : List ℕ) → Log
  log_worker_failure log ts worker_id affected_request_ids =
      log
      ++ (
        warning,
        decode_worker_failure ts worker_id (length affected_request_ids) affected_request_ids,
      )
        ∷ []
