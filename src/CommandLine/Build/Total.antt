-- ===== src/CommandLine/Build/Total.antt =====
-- cmd/savk/main.go: `buildChecksForDomains` for a contract that has been parsed.
use savk.Base.{
  ◌≡◌, refl, ◌∙◌, Bool, true, false, ◌||◌, if◌then◌else◌, List, [], ◌∷◌, ◌++◌, every, Result, ok,
  err, arith, Bool-cases, inl, inr,
}
use savk.Text.{Text, text_eq, text_eq_refl, codes}
use savk.Text.Utf8.{is_valid_utf8}
use savk.Text.Order.{contains}
use savk.Contract.Node.{invalid_utf8}
use savk.Contract.Ensures.{good, then-Ensures, Ensures-ok}
use savk.Contract.Schema.{Contract}
use savk.Contract.Lines.{tokenize}
use savk.Contract.Decode.{require, decode_contract}
use savk.Contract.Parse.{parse_bytes, parse_root, check_identities, validate_semantics}
use savk.Contract.Parse.Distinct.{parse_bytes-HasDistinctKeys}
use savk.Engine.{Check, validate_checks}
use savk.Engine.Ordered.{validate_checks-IsOrdered}
use savk.Collectors.Ranks.{check_rank}
use savk.CommandLine.{selected_domains}
use savk.CommandLine.Domains.{selected_domains-IsSorted}
use savk.CommandLine.Paths.{path_checks}
use savk.CommandLine.Build.{
  Hosts, unsupported_domain, socket_checks, domain_checks, systemd_checks, build_checks_for_domains,
}
use savk.CommandLine.Build.Ordered.{build_checks_for_domains-IsOrdered}

-- A domain that has a case.
unfoldable pub is_supported : Text → Bool
is_supported d =
    text_eq d (codes "paths")
    || text_eq d (codes "sockets")
    || text_eq d (codes "identity")
    || text_eq d (codes "services")

with_unit : {E : Type 0} {r : Result E (Unit {0})} (u : Unit {0}) → r ≡ ok u → r ≡ ok tt
with_unit tt h = h

parse_bytes-validate_semantics :
    (upper : Text → Text) (input : Text) (c : Contract)
    → parse_bytes upper input ≡ ok c
    → validate_semantics c ≡ ok tt
unfolding parse_bytes validate_semantics
parse_bytes-validate_semantics upper input c =
    Ensures-ok {P = λ (c : Contract). check_identities c.services c.identity ≡ ok tt} c (
      then-Ensures (require (is_valid_utf8 input) invalid_utf8) λ _ _.
        then-Ensures (tokenize input) λ lines _. then-Ensures (parse_root lines) λ es _.
          then-Ensures (decode_contract upper es) λ d decoded.
            then-Ensures (check_identities d.services d.identity)
              λ u checked. good d (with_unit u checked))

module _ {W : Type 0} (hosts : Hosts W) (host_root : Text) (c : Contract) where
  -- The checks behind a round of the loop for a domain that is supported.
  added : Text → List (Check W) → List (Check W)
  added domain checks =
      if text_eq domain (codes "paths")
      then checks ++ path_checks hosts.path_host hosts.probe host_root c
      else if text_eq domain (codes "sockets")
      then checks ++ socket_checks hosts host_root c
      else checks

  domain_checks-cons :
      (domain : Text) (domains : List Text) (checks : List (Check W))
      → domain_checks hosts host_root c (domain ∷ domains) checks ≡ (
          if is_supported domain
          then domain_checks hosts host_root c domains (added domain checks)
          else err (unsupported_domain domain))
  unfolding domain_checks is_supported added
  domain_checks-cons domain domains checks = ground arith

  domain_checks-supported :
      (domains : List Text) (checks : List (Check W))
      → every is_supported domains ≡ true
      → (out : List (Check W)) × (domain_checks hosts host_root c domains checks ≡ ok out)
  unfolding domain_checks
  domain_checks-supported [] checks h = (checks, refl)
  domain_checks-supported (domain ∷ domains) checks h =
      let (out, built) = domain_checks-supported domains (added domain checks) (ground arith) in
      (out, domain_checks-cons domain domains checks ∙ ground arith)

  domain_checks-unsupported :
      (domains : List Text) (checks : List (Check W))
      → every is_supported domains ≡ false
      → (d : Text) × (contains d domains ≡ true)
        × (is_supported d ≡ false)
        × (domain_checks hosts host_root c domains checks ≡ err (unsupported_domain d))
  unfolding contains
  domain_checks-unsupported [] checks h = cc
  domain_checks-unsupported (domain ∷ domains) checks h = elim (Bool-cases (is_supported domain)) [
    | inl known ↦
        let (d, here, other, failed) =
          domain_checks-unsupported domains (added domain checks) (ground arith) in
        (d, ground arith, other, domain_checks-cons domain domains checks ∙ ground arith)
    | inr unknown ↦ (
      domain,
      ground (arith, text_eq_refl domain),
      unknown,
      domain_checks-cons domain domains checks ∙ ground arith,
    )
  ]

-- For every contract that `ParseBytes` returns and every filter: if each domain that is selected is
-- one of the four, `buildChecksForDomains` returns checks, which pass the engine's validation, with a
-- host root or without.
pub build_checks_for_domains-validate_checks :
    {W : Type 0} (hosts : Hosts W) (upper : Text → Text) (input filter host_root : Text)
    (c : Contract)
    → parse_bytes upper input ≡ ok c
    → every is_supported (selected_domains c filter) ≡ true
    → (checks : List (Check W)) × (ordered : List (Check W)) × (build_checks_for_domains hosts c
          (selected_domains c filter)
          host_root
        ≡ ok checks)
      × (validate_checks checks ≡ ok ordered)
unfolding build_checks_for_domains
build_checks_for_domains-validate_checks hosts upper input filter host_root c parsed supported =
    let domains = selected_domains c filter in
    let valid = parse_bytes-validate_semantics upper input c parsed in
    let (files, looped) = domain_checks-supported hosts host_root c domains [] supported in
    let out = files ++ systemd_checks hosts c domains in
    let built : build_checks_for_domains hosts c domains host_root ≡ ok out = ground arith in
    let (ordered, validated) = validate_checks-IsOrdered check_rank out (
      build_checks_for_domains-IsOrdered hosts host_root c domains out
        (parse_bytes-HasDistinctKeys upper input c parsed) ((selected_domains-IsSorted c filter).1)
        built) in
    (out, ordered, built, validated)

-- For every contract that `ParseBytes` returns and every filter: if some domain that is selected is
-- none of the four, `buildChecksForDomains` fails, and its error names such a domain.
pub build_checks_for_domains-unsupported :
    {W : Type 0} (hosts : Hosts W) (upper : Text → Text) (input filter host_root : Text)
    (c : Contract)
    → parse_bytes upper input ≡ ok c
    → every is_supported (selected_domains c filter) ≡ false
    → (d : Text) × (contains d (selected_domains c filter) ≡ true)
      × (is_supported d ≡ false)
      × (build_checks_for_domains hosts c (selected_domains c filter) host_root
          ≡ err (unsupported_domain d))
unfolding build_checks_for_domains
build_checks_for_domains-unsupported hosts upper input filter host_root c parsed unsupported =
    let valid = parse_bytes-validate_semantics upper input c parsed in
    let (d, here, other, failed) =
      domain_checks-unsupported hosts host_root c (selected_domains c filter) [] unsupported in
    (d, here, other, ground arith)
