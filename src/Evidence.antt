-- ===== src/Evidence.antt =====
-- internal/evidence/evidence.go: statuses, reason codes, evidence and check results.
use savk.Base.{ℕ, Bool, true, false, List, Option}
use savk.Base.Int.{ℤ}
use savk.Text.{Text, codes}

-- A point in time, in nanoseconds after the zero time.
abbrev pub Time : Type 0
Time = ℕ

-- `EvalStatus` is a string type: `other` is a string that is none of the five constants.
pub data EvalStatus : Type 0 where
  pass fail not_applicable insufficient_data error : EvalStatus
  other : Text → EvalStatus

unfoldable pub status_text : EvalStatus → Text
status_text pass = codes "PASS"
status_text fail = codes "FAIL"
status_text not_applicable = codes "NOT_APPLICABLE"
status_text insufficient_data = codes "INSUFFICIENT_DATA"
status_text error = codes "ERROR"
status_text (other s) = s

-- `status == StatusPass`
unfoldable pub is_pass : EvalStatus → Bool
is_pass pass = true
is_pass _ = false

-- `reasonless` is `ReasonNone`, the empty string.
pub data ReasonCode : Type 0 where
  reasonless timeout permission_denied not_found parse_error : ReasonCode
  namespace_isolation internal_error prerequisite_failed : ReasonCode

unfoldable pub reason_text : ReasonCode → Text
reason_text reasonless = codes ""
reason_text timeout = codes "TIMEOUT"
reason_text permission_denied = codes "PERMISSION_DENIED"
reason_text not_found = codes "NOT_FOUND"
reason_text parse_error = codes "PARSE_ERROR"
reason_text namespace_isolation = codes "NAMESPACE_ISOLATION"
reason_text internal_error = codes "INTERNAL_ERROR"
reason_text prerequisite_failed = codes "PREREQUISITE_FAILED"

pub record Evidence : Type 0 where
  pub source : Text
  pub collector : Text
  pub collected_at : Time
  pub command : List Text
  pub exit_code : Option ℤ
  pub raw : Text
  pub redacted : Bool
  pub truncated : Bool

-- The values that `Expected any` and `Observed any` hold.
pub data Value : Type 0 where
  absent : Value
  truth : Bool → Value
  number : ℤ → Value
  text : Text → Value
  texts : List Text → Value

pub record CheckResult : Type 0 where
  pub check_id : Text
  pub domain : Text
  pub status : EvalStatus
  pub reason_code : ReasonCode
  pub expected : Value
  pub observed : Value
  pub evidence : Evidence
  pub duration_ms : ℤ
  pub message : Text
