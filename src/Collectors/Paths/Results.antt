-- ===== src/Collectors/Paths/Results.antt =====
-- internal/collectors/paths.go: the results of path checks.
use savk.Base.{false, List, [], ◌∷◌, ◌++◌, if◌then◌else◌, none}
use savk.Base.Int.{pos}
use savk.Text.{Text, text_eq, codes}
use savk.Evidence.{
  Time, EvalStatus, pass, fail, ReasonCode, reasonless, Evidence, Value, text, CheckResult,
}

-- The evidence of a check of the collector "paths" or "sockets".
abbrev pub file_evidence : Text → Text → Text → Time → Evidence
file_evidence collector source raw t = record {
  source = source;
  collector = collector;
  collected_at = t;
  command = [];
  exit_code = none;
  raw = raw;
  redacted = false;
  truncated = false;
}

-- A result that leaves the fields which the engine fills.
abbrev pub path_result : EvalStatus → ReasonCode → Value → Value → Evidence → Text → CheckResult
path_result status reason expected observed ev message = record {
  check_id = [];
  domain = [];
  status = status;
  reason_code = reason;
  expected = expected;
  observed = observed;
  evidence = ev;
  duration_ms = pos 0;
  message = message;
}

-- `name=value` pairs of `Raw`
abbrev pub raw_pairs : List (Text × Text) → Text
raw_pairs [] = []
raw_pairs ((k, v) ∷ []) = k ++ (codes "=" ++ v)
raw_pairs ((k, v) ∷ p ∷ ps) = k ++ (codes "=" ++ (v ++ (codes " " ++ raw_pairs (p ∷ ps))))

-- The evidence of a path check.
abbrev pub path_evidence : Text → Text → Time → Evidence
path_evidence source raw t = file_evidence (codes "paths") source raw t

-- The comparison at the end of four of the checks of a "path", and three of a "socket".
unfoldable pub compare_result : Text → Text → Text → Text → Evidence → CheckResult
compare_result noun what expected observed ev =
    if text_eq observed expected
    then path_result pass reasonless (text expected) (text observed) ev
        (noun ++ (codes " " ++ (what ++ (codes " matches " ++ expected))))
    else path_result fail reasonless (text expected) (text observed) ev (
        codes "expected "
        ++ (what ++ (codes " " ++ (expected ++ (codes ", observed " ++ observed)))))
