-- ===== src/Collectors/Services/Failures.antt =====
-- internal/collectors/services.go: the results of a check whose unit has an error.
use savk.Base.{false, List, [], ◌++◌, Option, none, some, if◌then◌else◌}
use savk.Base.Int.{ℤ}
use savk.Text.{Text, codes}
use savk.Evidence.{
  Time, fail, error, insufficient_data, ReasonCode, reasonless, timeout, permission_denied,
  not_found, parse_error, namespace_isolation, Evidence, absent, CheckResult,
}
use savk.Contract.Schema.{ServiceSpec}
use savk.Capabilities.{sort_canonical}
use savk.Collectors.Paths.Results.{path_result}
use savk.Collectors.Systemctl.{
  CollectorError, err_service_not_found, err_namespace_isolation, err_permission_denied,
  err_service_parse, err_command_unavailable, err_unexpected_command, error_text, is_context_error,
  describe_environment_error,
}
use savk.Collectors.Services.{ServiceUnit, unit_exit_code}

-- What the runtime panics with where a pointer is nil.
abbrev pub nil_dereference : Text
nil_dereference = codes "runtime error: invalid memory address or nil pointer dereference"

abbrev pub service_evidence : Text → Time → List Text → Option ℤ → Text → Evidence
service_evidence source t command exit_code raw = record {
  source = source;
  collector = codes "services";
  collected_at = t;
  command = command;
  exit_code = exit_code;
  raw = raw;
  redacted = false;
  truncated = false;
}

-- `serviceError`
unfoldable pub service_error : ReasonCode → Text → List Text → Option ℤ → Text → Time → CheckResult
service_error reason message command exit_code raw t =
    path_result error reason absent absent
      (service_evidence (codes "systemctl show") t command exit_code raw) message

-- `serviceInsufficientData`
unfoldable pub service_insufficient_data : Text → List Text → Option ℤ → Text → Time → CheckResult
service_insufficient_data message command exit_code raw t =
    path_result insufficient_data parse_error absent absent
      (service_evidence (codes "systemctl show+accountdb") t command exit_code raw) message

-- `serviceUnsupportedEnvironment`
unfoldable pub service_unsupported_environment : Text → Text → Time → CheckResult
service_unsupported_environment message raw t =
    path_result error reasonless absent absent
      (service_evidence (codes "systemctl lookup") t [] none raw) message

-- The `switch` of `Run` for the error of a unit.
unfoldable pub service_failure :
    List Text → Text → ServiceUnit → CollectorError → Time → CheckResult
unfolding service_error service_unsupported_environment unit_exit_code is_context_error error_text
    describe_environment_error
service_failure command name u e t =
    let failed : ReasonCode → Text → Text → CheckResult =
      λ reason message raw. service_error reason message command (unit_exit_code u) raw t in
    let unsupported =
      service_unsupported_environment
        (codes "unsupported observer-local environment for service "
          ++ (name ++ (codes ": " ++ describe_environment_error e)))
        u.raw t in
    if is_context_error e
    then failed timeout (codes "collector timed out while reading service " ++ name) u.raw
    else elim e [
      | err_service_not_found ↦
          path_result fail not_found absent absent
            (service_evidence (codes "systemctl show") t command (some u.exit_code) u.raw)
            (codes "expected service " ++ (name ++ codes " to exist"))
      | err_namespace_isolation ↦
          failed namespace_isolation
            (codes
                "service-backed checks are observer-local in v0.1.x; observer-local systemd is not reachable for service "
              ++ name)
            u.raw
      | err_permission_denied ↦
          failed permission_denied
            (codes "permission denied while reading observer-local service " ++ name) u.raw
      | err_command_unavailable cause ↦ unsupported
      | err_unexpected_command path ↦ unsupported
      | err_service_parse ↦
          failed parse_error (codes "unable to parse systemctl output for service " ++ name) u.raw
      | other ↦ failed parse_error (codes "failed to inspect service " ++ name) (error_text other)
    ]

-- The capabilities that a spec asks for; none if it has no list of them.
unfoldable pub expected_capabilities : ServiceSpec → List Text
unfolding sort_canonical
expected_capabilities spec = elim spec.capabilities [
  | none ↦ []
  | some values ↦ sort_canonical values
]
