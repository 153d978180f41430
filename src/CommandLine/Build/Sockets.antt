-- ===== src/CommandLine/Build/Sockets.antt =====
-- cmd/savk/main.go: the checks that `buildChecksForDomains` makes of the domain "sockets" can be
-- ordered.
use savk.Base.{◌≡◌, refl, Bool, true, false, [], ◌++◌, reverse, every, arith}
use savk.Text.{Text, text_eq, codes}
use savk.Text.Ops.{has_prefix}
use savk.Text.Distinct.{IsDistinct}
use savk.Contract.Schema.{Contract, keys}
use savk.Engine.Closed.{names}
use savk.Engine.Ordered.{IsOrdered, IsOrdered-if}
use savk.Collectors.Naming.{text_eq-other, differ}
use savk.Collectors.Ranks.{check_rank, rank_from_end}
use savk.Collectors.Sockets.{SocketKind, socket_kind_text, socket_id, build_socket_checks}
use savk.Collectors.Sockets.Ordered.{
  check_rank-socket_id, build_socket_checks-IsOrdered, every-build_socket_checks,
}
use savk.CommandLine.Behind.{
  behind_namespace, is_behind, behind_namespace-IsOrdered, every-behind_namespace,
}
use savk.CommandLine.Build.{Hosts, socket_namespace_id, socket_checks}

no_namespace_kind :
    (k : SocketKind)
    → differ (reverse (codes ".namespace")) (reverse (codes "." ++ socket_kind_text k)) ≡ true
unfolding socket_kind_text codes differ
no_namespace_kind k = ground arith

other_id : (p : Text) (k : SocketKind) → text_eq socket_namespace_id (socket_id p k) ≡ false
unfolding socket_namespace_id socket_id codes
other_id p k =
    text_eq-other (codes "socket.") (codes "__preflight__") p (codes ".namespace")
      (codes "." ++ socket_kind_text k) (no_namespace_kind k)

socket_id-is_behind :
    (p : Text) (k : SocketKind) → is_behind socket_namespace_id (socket_id p k) ≡ true
socket_id-is_behind p k = ground (arith, other_id p k, check_rank-socket_id p k)

module _ {W : Type 0} (hosts : Hosts W) (host_root : Text) (c : Contract) where
  pub socket_checks-IsOrdered :
      IsDistinct (keys c.sockets) → IsOrdered check_rank (socket_checks hosts host_root c)
  unfolding socket_checks socket_namespace_id codes text_eq check_rank rank_from_end has_prefix
  socket_checks-IsOrdered d =
      let checks = build_socket_checks hosts.socket_host c.sockets in
      let id = socket_namespace_id in
      let ordered = build_socket_checks-IsOrdered hosts.socket_host c.sockets d in
      let behind =
        every-build_socket_checks hosts.socket_host (is_behind id) c.sockets socket_id-is_behind in
      IsOrdered-if check_rank (text_eq host_root [])
        (behind_namespace hosts.probe (codes "sockets") id c.metadata.target checks) checks
        (behind_namespace-IsOrdered hosts.probe (codes "sockets") id c.metadata.target checks refl
          refl behind ordered)
        ordered

  pub has_prefix-socket_checks :
      every (λ x. has_prefix x (codes "socket.")) (names (socket_checks hosts host_root c)) ≡ true
  unfolding socket_checks socket_namespace_id codes has_prefix socket_id
  has_prefix-socket_checks =
      let checks = build_socket_checks hosts.socket_host c.sockets in
      let q : Text → Bool = λ x. has_prefix x (codes "socket.") in
      let below = every-build_socket_checks hosts.socket_host q c.sockets (λ p k. refl) in
      ground (
        arith,
        below,
        every-behind_namespace q hosts.probe (codes "sockets") socket_namespace_id c.metadata.target
            checks refl below,
      )
