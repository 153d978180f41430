-- ===== src/Tests/Choosing.antt =====
-- Selecting domains, and a guarded check.
use savk.Base.{
  ℕ, suc, ◌≡◌, refl, true, false, not, ◌&&◌, ◌||◌, is_empty, List, [], ◌∷◌, none, ok, map,
  if◌then◌else◌,
}
use savk.Base.Int.{pos}
use savk.Text.{Text, text_eq, codes}
use savk.Text.Order.{contains, text_leb, sort_strings, IsSorted}
use savk.Text.Space.{trim_space, skip_space, space_tail, is_space_byte}
use savk.Text.Ops.{split, split_first}
use savk.Evidence.{pass, is_pass, reasonless, absent, CheckResult}
use savk.Contract.Schema.{Contract}
use savk.Engine.{Context, Check, returned}
use savk.Text.Distinct.{IsDistinct}
use savk.Engine.Run.{Host, Engine, run_done, run, engine_evidence}
use savk.Engine.Run.Results.{result_of, has_passed}
use savk.CommandLine.{compact, with_prerequisite, filter_domains, selected_domains}
use savk.CommandLine.Domains.{selected_domains-IsSorted, contains-selected_domains}
use savk.CommandLine.Guarded.{around, run-with_prerequisite}

abbrev cfg : Contract
cfg = record {
  api_version = codes "savk/v1";
  kind = codes "ApplianceContract";
  metadata = record { name = codes "a"; target = codes "linux-systemd" };
  services = [];
  sockets = [];
  paths = (codes "/a", record { owner = []; group = []; mode = []; kind = [] }) ∷ [];
  identity = [];
}

abbrev filter : Text
filter = codes "sockets, paths,paths"

filter_selects : selected_domains cfg filter ≡ codes "paths" ∷ codes "sockets" ∷ []
unfolding selected_domains filter_domains split split_first trim_space skip_space space_tail
    is_space_byte text_eq contains codes sort_strings text_leb
filter_selects = refl

selected_domains-IsSorted_example :
    IsSorted (selected_domains cfg filter) × IsDistinct (selected_domains cfg filter)
selected_domains-IsSorted_example = selected_domains-IsSorted cfg filter

contains-selected_domains_example : contains (codes "sockets") (selected_domains cfg []) ≡ (
    if text_eq [] []
    then (text_eq (codes "sockets") (codes "paths") && not (is_empty cfg.paths))
      || ((text_eq (codes "sockets") (codes "services") && not (is_empty cfg.services))
          || ((text_eq (codes "sockets") (codes "sockets") && not (is_empty cfg.sockets))
              || (text_eq (codes "sockets") (codes "identity") && not (is_empty cfg.identity))))
    else not (text_eq (codes "sockets") [])
      && contains (codes "sockets") (map trim_space (split [] b',')))
contains-selected_domains_example = contains-selected_domains (codes "sockets") cfg []

abbrev check : Text → Check ℕ
check id = record {
  id = id;
  domain = [];
  prerequisites = [];
  run = λ ctx w. (
    returned (record {
      check_id = [];
      domain = [];
      status = pass;
      reason_code = reasonless;
      expected = absent;
      observed = absent;
      evidence = engine_evidence [] 7;
      duration_ms = pos 0;
      message = [];
    }),
    suc w,
  );
}

abbrev guard : Check ℕ
guard = check (b'n' ∷ [])

abbrev guarded : List (Check ℕ)
guarded = check (b'a' ∷ []) ∷ []

abbrev clock : Host ℕ
clock = record {
  now = λ w. (w, suc w);
  select = λ go w. let (outcome, w') = go w in (run_done outcome, w');
  duration_text = λ d. [];
}

abbrev engine : Engine
engine = record { collector_timeout = pos 5 }

abbrev background : Context
background = record { failure = none; has_deadline = false }

abbrev passed : Text → CheckResult
passed id = record {
  check_id = id;
  domain = [];
  status = pass;
  reason_code = reasonless;
  expected = absent;
  observed = absent;
  evidence = engine_evidence [] 7;
  duration_ms = pos 0;
  message = [];
}

abbrev results : List CheckResult
results = passed (b'n' ∷ []) ∷ passed (b'a' ∷ []) ∷ passed (b'm' ∷ []) ∷ passed (b'z' ∷ []) ∷ []

-- Checks of another domain stand before the guard and behind the guarded check.
abbrev before : List (Check ℕ)
before = check (b'm' ∷ []) ∷ guard ∷ []

abbrev after : List (Check ℕ)
after = check (b'z' ∷ []) ∷ []

guarded_run :
    run clock engine background (around before (b'n' ∷ []) guarded after) 0 ≡ ok (results, 12)
unfolding run text_leb with_prerequisite compact
guarded_run = refl

run-with_prerequisite_example : has_passed (result_of results (b'n' ∷ [])) ≡ true
unfolding contains text_eq result_of is_pass
run-with_prerequisite_example =
    run-with_prerequisite clock engine background before guarded after (b'n' ∷ []) (b'a' ∷ []) 0 12
      results guarded_run refl refl
