-- ===== src/Lib.antt =====
-- savk checks a Linux host against a contract. `ParseBytes` reads a contract from a small subset of
-- YAML; collectors turn its domains into checks; the engine orders the checks by their
-- prerequisites and runs them; the reporters print the results, and the exit code sums them up.
--
-- The files and what they model:
--   Base: numbers, lists and results that all modules share.
--   Text: Go strings as lists of bytes, with what the program uses of `strings`, `strconv`,
--     `unicode/utf8`, `path/filepath` and `sort`; Text/Regex has the expressions that the patterns of
--     `regexp` are written in, matched by trying the alternatives in their order.
--   Evidence: internal/evidence/evidence.go. A time is a number of nanoseconds.
--   Engine: internal/engine/check.go and engine.go, `validateChecks` and `detectCycles`. Engine/Run:
--     `Run`, `runCheck` and what they call, and evaluator.go, over a world that checks, clock
--     and the `select` of `runCheck` read and change. The clock, the `select` and the printing of
--     durations are the parameter `Host`, of which nothing is assumed.
--   Capabilities: internal/capabilities/capabilities.go.
--   Contract: internal/contract. Lines is `tokenize`; Quote and Scalar read scalars and keys; Block
--     is `parseBlock`, `parseMap` and `parseList`; Field and Decode are the decoders; Schema is
--     schema.go; Distance is `levenshtein` and `nearestField`; Parse is `ParseBytes` with
--     `ValidateSemantics` of semantic.go. An error is a value with what its message says.
--   Collectors: internal/collectors. Naming, Build and Ranks are what the `Build...Checks` functions
--     share: the naming and the sorting of checks. Filesystem is filesystem.go and interfaces.go;
--     Accounts is accounts.go; Paths is paths.go; Sockets is sockets.go; Systemctl and Services are
--     services.go; Process and Identity are identity.go; Preflight is service_preflight.go. The files
--     of each collector are split into its data, the reader of its evidence, `Run` of its checks and
--     the building of checks.
--   CommandLine: cmd/savk/main.go: `selectedDomains` in CommandLine and Domains, `withPrerequisite` in
--     Behind, `buildServiceBackedChecks` and `buildChecksForDomains` in Build, with what they
--     make the collectors of in Tools; `runCheck`, with `normalizeHostRoot`, `runValidate` and `run` in
--     Command.
--   Reporters: internal/reporters. Report is json.go; Table is table.go; Redact and Sanitize are
--     evidence_sanitize.go.
--   Tests: runs at concrete data.
--
-- Fuel: the two searches of `validateChecks` take one unit more than there are IDs, `parseMap` one
-- more than there are lines. Running out is an error of its own, `out_of_fuel`. The repetition of an
-- expression and `ReplaceAllString` take as much fuel as there is text, of which each match that they
-- go on behind has used up some.
--
-- Go maps are lists of entries; the source sorts the keys wherever their order shows. `sort.Strings`
-- and `sort.Slice` are insertion sorts. A map, or the result of a `sync.Once`, that several checks
-- share is a cell of the world, which a reader is given back changed.
--
-- Parameters: the files of the host and its account database (`PathChecker`, `AccountHost`; the checks
-- themselves are over `PathHost` and `AccountFiles`, which these fill), the run of a process (`Exec`,
-- for a `CommandRunner`), the files of /proc (`ProcessFiles`, in `IdentityHost`), the namespace probe
-- (`ProbeHost`), what the command calls (`System`), `text/tabwriter` (`TableHost`), `strings.ToUpper`
-- and `strings.ToLower`.
--
-- Not modelled, since each is a sequence of library calls: the start of a process, the encoding of
-- JSON, the parsing of flags. Not modelled either: what cmd/savk prints beside the report, and the text
-- of the reader's and the engine's error messages.
pub mod Base
pub mod Text
pub mod Evidence
pub mod Engine
pub mod Capabilities
pub mod Contract
pub mod Collectors
pub mod Reporters
pub mod CommandLine
pub mod Tests
