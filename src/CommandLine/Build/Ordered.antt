-- ===== src/CommandLine/Build/Ordered.antt =====
-- cmd/savk/main.go: the checks that `buildChecksForDomains` makes can be ordered.
use savk.Base.{
  ◌≡◌, refl, sym, ◌∙◌, Bool, true, false, not, ◌||◌, List, [], ◌∷◌, ◌++◌, every, ok, arith,
  Result-cases, Bool-cases, inl, inr,
}
use savk.Text.{Text, text_eq, text_eq_iff, codes}
use savk.Text.Order.{contains}
use savk.Text.Ops.{has_prefix}
use savk.Text.Distinct.{IsDistinct}
use savk.Contract.Schema.{Contract, keys}
use savk.Contract.Parse.Distinct.{HasDistinctKeys}
use savk.Engine.{Check}
use savk.Engine.Closed.{names}
use savk.Engine.Known.{every-contains}
use savk.Engine.Ordered.{IsOrdered, IsOrdered-union, names-append, every-append}
use savk.Collectors.Naming.{differ, has_prefix-differ}
use savk.Collectors.Ranks.{check_rank}
use savk.CommandLine.Paths.{path_checks, path_checks-IsOrdered, has_prefix-path_checks}
use savk.CommandLine.Build.{
  Hosts, socket_checks, domain_checks, systemd_checks, build_checks_for_domains,
}
use savk.CommandLine.Build.Sockets.{socket_checks-IsOrdered, has_prefix-socket_checks}
use savk.CommandLine.Build.Services.{every-weaken}
use savk.CommandLine.Build.Systemd.{is_backed, every-systemd_checks, systemd_checks-IsOrdered}

-- Whether an ID is that of a path check, or of a socket check.
abbrev is_path : Text → Bool
is_path x = has_prefix x (codes "path.")

abbrev is_socket : Text → Bool
is_socket x = has_prefix x (codes "socket.")

abbrev is_file : Text → Bool
is_file x = is_path x || is_socket x

path_differs : (x y : Text) → is_path x ≡ true → is_socket y ≡ true → text_eq x y ≡ false
unfolding codes differ
path_differs x y hx hy = has_prefix-differ x y (codes "path.") (codes "socket.") refl hx hy

contains-apart :
    (a b : Text → Bool) (x : Text) (ys : List Text)
    → (b x ≡ true → a x ≡ false)
    → a x ≡ true
    → every b ys ≡ true
    → contains x ys ≡ false
contains-apart a b x ys h hx hys = elim (Bool-cases (contains x ys)) [
  | inl here ↦ ground (arith, every-contains b ys x hys here, h)
  | inr new ↦ new
]

-- Lists of IDs of different sorts.
every-apart_of :
    (a b : Text → Bool) (xs ys : List Text)
    → ((x : Text) → b x ≡ true → a x ≡ false)
    → every a xs ≡ true
    → every b ys ≡ true
    → every (λ x. not (contains x ys)) xs ≡ true
every-apart_of a b [] ys h hxs hys = refl
every-apart_of a b (x ∷ xs) ys h hxs hys =
    ground (arith, contains-apart a b x ys (h x), every-apart_of a b xs ys h)

prefixes_differ :
    (x p q : Text) → differ p q ≡ true → has_prefix x q ≡ true → has_prefix x p ≡ false
prefixes_differ x p q d h = ground (arith, has_prefix-differ x x p q d, text_eq_iff x x)

backed-not-file : (x : Text) → is_backed x ≡ true → is_file x ≡ false
unfolding codes differ
backed-not-file x h = ground (
  arith,
  prefixes_differ x (codes "path.") (codes "service.") refl,
  prefixes_differ x (codes "path.") (codes "identity.") refl,
  prefixes_differ x (codes "socket.") (codes "service.") refl,
  prefixes_differ x (codes "socket.") (codes "identity.") refl,
)

false-ne_true : false ≡ true → ⊥
false-ne_true h = cc

module _ {W : Type 0} (hosts : Hosts W) (host_root : Text) (c : Contract) where
  -- What holds of the checks that the loop has, with these domains still to come.
  record IsLoop (domains : List Text) (checks : List (Check W)) : Type 0 where
    ordered : IsOrdered check_rank checks
    files : every is_file (names checks) ≡ true
    sockets_only : contains (codes "paths") domains ≡ true → every is_socket (names checks) ≡ true
    paths_only : contains (codes "sockets") domains ≡ true → every is_path (names checks) ≡ true

  abbrev path_list : List (Check W)
  path_list = path_checks hosts.path_host hosts.probe host_root c

  abbrev socket_list : List (Check W)
  socket_list = socket_checks hosts host_root c

  all_paths : every is_path (names path_list) ≡ true
  all_paths = has_prefix-path_checks hosts.path_host hosts.probe host_root c

  all_sockets : every is_socket (names socket_list) ≡ true
  all_sockets = has_prefix-socket_checks hosts host_root c

  every-names-append :
      (q : Text → Bool) (xs ys : List (Check W))
      → every q (names xs) ≡ true
      → every q (names ys) ≡ true
      → every q (names (xs ++ ys)) ≡ true
  every-names-append q xs ys hx hy =
      rw names-append (every-append q (names xs) (names ys) ∙ ground arith)

  path_step :
      (domains : List Text) (checks : List (Check W))
      → IsDistinct (keys c.paths)
      → contains (codes "paths") domains ≡ false
      → IsLoop (codes "paths" ∷ domains) checks
      → IsLoop domains (checks ++ path_list)
  unfolding contains codes text_eq differ
  path_step domains checks d new l = record {
    ordered =
        IsOrdered-union check_rank checks path_list l.ordered
          (path_checks-IsOrdered hosts.path_host hosts.probe host_root c d)
          (every-apart_of is_socket is_path (names checks) (names path_list)
            (λ x h. prefixes_differ x (codes "socket.") (codes "path.") refl h)
            (l.sockets_only refl) all_paths);
    files =
        every-names-append is_file checks path_list l.files
          (every-weaken is_path is_file (names path_list) (λ x h. ground arith) all_paths);
    sockets_only = λ h. absurd (false-ne_true (sym new ∙ h));
    paths_only = λ h. every-names-append is_path checks path_list (l.paths_only h) all_paths;
  }

  socket_step :
      (domains : List Text) (checks : List (Check W))
      → IsDistinct (keys c.sockets)
      → contains (codes "sockets") domains ≡ false
      → IsLoop (codes "sockets" ∷ domains) checks
      → IsLoop domains (checks ++ socket_list)
  unfolding contains codes text_eq differ
  socket_step domains checks d new l = record {
    ordered =
        IsOrdered-union check_rank checks socket_list l.ordered
          (socket_checks-IsOrdered hosts host_root c d)
          (every-apart_of is_path is_socket (names checks) (names socket_list)
            (λ x h. prefixes_differ x (codes "path.") (codes "socket.") refl h) (l.paths_only refl)
            all_sockets);
    files =
        every-names-append is_file checks socket_list l.files
          (every-weaken is_socket is_file (names socket_list) (λ x h. ground arith) all_sockets);
    sockets_only =
        λ h. every-names-append is_socket checks socket_list (l.sockets_only h) all_sockets;
    paths_only = λ h. absurd (false-ne_true (sym new ∙ h));
  }

  other_step :
      (domain : Text) (domains : List Text) (checks : List (Check W))
      → IsLoop (domain ∷ domains) checks
      → IsLoop domains checks
  unfolding contains
  other_step domain domains checks l = record {
    ordered = l.ordered;
    files = l.files;
    sockets_only = λ h. l.sockets_only (ground arith);
    paths_only = λ h. l.paths_only (ground arith);
  }

  domain_checks-IsLoop :
      (domains : List Text) (checks out : List (Check W))
      → IsDistinct (keys c.paths)
      → IsDistinct (keys c.sockets)
      → IsDistinct domains
      → IsLoop domains checks
      → domain_checks hosts host_root c domains checks ≡ ok out
      → IsLoop [] out
  unfolding domain_checks
  domain_checks-IsLoop [] checks out dp ds d l h = let same : checks ≡ out = cc in rw (sym same) l
  domain_checks-IsLoop (domain ∷ domains) checks out dp ds d l h =
      let later = domain_checks-IsLoop domains in
      elim (Bool-cases (text_eq domain (codes "paths"))) [
        | inl same ↦
            let is_paths = (text_eq_iff domain (codes "paths")).0 same in
            later (checks ++ path_list) out dp ds d.1
              (path_step domains checks dp (rw is_paths at d.0) (rw is_paths at l)) (ground arith)
        | inr not_paths ↦ elim (Bool-cases (text_eq domain (codes "sockets"))) [
          | inl same ↦
              let is_sockets = (text_eq_iff domain (codes "sockets")).0 same in
              later (checks ++ socket_list) out dp ds d.1
                (socket_step domains checks ds (rw is_sockets at d.0) (rw is_sockets at l))
                (ground arith)
          | inr not_sockets ↦
              later checks out dp ds d.1 (other_step domain domains checks l) (ground arith)
        ]
      ]

  -- The checks for the domains that are selected of a contract.
  pub build_checks_for_domains-IsOrdered :
      (domains : List Text) (out : List (Check W))
      → HasDistinctKeys c
      → IsDistinct domains
      → build_checks_for_domains hosts c domains host_root ≡ ok out
      → IsOrdered check_rank out
  unfolding build_checks_for_domains contains
  build_checks_for_domains-IsOrdered domains out keys_distinct d h =
      let start : IsLoop domains [] = record {
        ordered = record { distinct = tt; named = refl; ranked = refl };
        files = refl;
        sockets_only = λ h. refl;
        paths_only = λ h. refl;
      } in
      elim (Result-cases (domain_checks hosts host_root c domains [])) [
        | inl (e, failed) ↦ absurd (ground arith)
        | inr (files, built) ↦
            let backed = systemd_checks hosts c domains in
            let l =
              domain_checks-IsLoop domains [] files keys_distinct.paths keys_distinct.sockets d
                start built in
            let same : files ++ backed ≡ out = ground arith in
            rw (sym same) (
              IsOrdered-union check_rank files backed l.ordered
                (systemd_checks-IsOrdered hosts c domains keys_distinct.services
                  keys_distinct.identity)
                (every-apart_of is_file is_backed (names files) (names backed) backed-not-file
                  l.files (every-systemd_checks hosts c domains)))
      ]
