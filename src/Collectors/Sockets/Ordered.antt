-- ===== src/Collectors/Sockets/Ordered.antt =====
-- internal/collectors/sockets.go: the socket checks can be ordered.
use savk.Base.{
  ◌≡◌, ◌↔◌, refl, Bool, true, false, List, [], ◌∷◌, ◌++◌, map, reverse, every, arith, if◌then◌else◌,
}
use savk.Text.{Text, text_eq, codes}
use savk.Text.Order.{contains}
use savk.Text.Ops.{has_prefix}
use savk.Text.Distinct.{IsDistinct}
use savk.Contract.Schema.{SocketSpec, keys}
use savk.Engine.Closed.{names}
use savk.Engine.Ordered.{IsOrdered, is_ranked}
use savk.Collectors.Naming.{Naming, ident, differ}
use savk.Collectors.Ranks.{check_rank, check_rank-ident, rank_from_end}
use savk.Collectors.Build.Named.{Family, has_kind, are_distinct, every-build}
use savk.Collectors.Build.Rooted.{Rooted, build-IsOrdered}
use savk.Collectors.Paths.{PathHost}
use savk.Collectors.Sockets.{
  SocketKind, exists, owner, group, mode, socket_kind_text, socket_id, socket_prerequisites,
  socket_block, build_socket_checks,
}

unfoldable pub same_socket_kind : SocketKind → SocketKind → Bool
same_socket_kind exists exists = true
same_socket_kind owner owner = true
same_socket_kind group group = true
same_socket_kind mode mode = true
same_socket_kind _ _ = false

same_socket_kind_iff : (k l : SocketKind) → (same_socket_kind k l ≡ true) ↔ (k ≡ l)
unfolding same_socket_kind
same_socket_kind_iff k l = ground arith

socket_kinds_apart :
    (k l : SocketKind)
    → same_socket_kind k l ≡ false
    → differ (reverse (codes "." ++ socket_kind_text k)) (reverse (codes "." ++ socket_kind_text l))
      ≡ true
unfolding same_socket_kind socket_kind_text codes differ
socket_kinds_apart k l h = ground arith

abbrev socket_naming : Naming SocketKind
socket_naming = record {
  prefix = codes "socket.";
  suffix = λ k. codes "." ++ socket_kind_text k;
  same = same_socket_kind;
  same_iff = same_socket_kind_iff;
  apart = socket_kinds_apart;
}

pub check_rank-socket_id :
    (name : Text) (k : SocketKind)
    → check_rank (socket_id name k) ≡ (if same_socket_kind k exists then 1 else 2)
unfolding socket_id ident same_socket_kind rank_from_end socket_kind_text codes has_prefix
check_rank-socket_id name exists = check_rank-ident socket_naming name exists
check_rank-socket_id name owner = check_rank-ident socket_naming name owner
check_rank-socket_id name group = check_rank-ident socket_naming name group
check_rank-socket_id name mode = check_rank-ident socket_naming name mode

-- A kind, where the spec sets its field.
abbrev if_asked : Text → SocketKind → List SocketKind
if_asked field k = if text_eq field [] then [] else k ∷ []

socket_kinds : SocketSpec → List SocketKind
socket_kinds spec =
    exists ∷ (if_asked spec.owner owner ++ (if_asked spec.group group ++ if_asked spec.mode mode))

socket_kinds_distinct :
    (spec : SocketSpec) → are_distinct same_socket_kind (socket_kinds spec) ≡ true
unfolding are_distinct has_kind same_socket_kind socket_kinds
socket_kinds_distinct spec = ground arith

module _ {W : Type 0} (host : PathHost W) where
  names-socket_block :
      (path : Text) (spec : SocketSpec)
      → names (socket_block host path spec) ≡ map (ident socket_naming path) (socket_kinds spec)
  unfolding socket_block ident socket_id socket_kinds
  names-socket_block path spec = ground arith

  socket_family : Family socket_naming (socket_block host)
  socket_family = record {
    kinds = socket_kinds;
    names_block = names-socket_block;
    kinds_distinct = socket_kinds_distinct;
  }

  socket_block-ranked :
      (known : List Text) (path : Text) (spec : SocketSpec)
      → contains (socket_id path exists) known ≡ true
      → every (is_ranked known check_rank) (socket_block host path spec) ≡ true
  unfolding socket_block is_ranked socket_prerequisites same_socket_kind
  socket_block-ranked known path spec h = ground (
    arith,
    check_rank-socket_id path exists,
    check_rank-socket_id path owner,
    check_rank-socket_id path group,
    check_rank-socket_id path mode,
  )

  socket-Rooted : Rooted socket_naming (socket_block host) check_rank
  unfolding socket_family ident has_kind same_socket_kind socket_kinds socket_id codes text_eq
  socket-Rooted = record {
    family = socket_family;
    root = exists;
    rooted = λ spec. refl;
    named = λ path k. refl;
    ranked = socket_block-ranked;
  }

  -- What holds of every ID of a socket check.
  pub every-build_socket_checks :
      (q : Text → Bool) (sockets : List (Text × SocketSpec))
      → ((path : Text) (k : SocketKind) → q (socket_id path k) ≡ true)
      → every q (names (build_socket_checks host sockets)) ≡ true
  unfolding socket_id ident build_socket_checks
  every-build_socket_checks q sockets h =
      every-build socket_naming (socket_block host) socket_family q sockets h

  pub build_socket_checks-IsOrdered :
      (sockets : List (Text × SocketSpec))
      → IsDistinct (keys sockets)
      → IsOrdered check_rank (build_socket_checks host sockets)
  unfolding build_socket_checks
  build_socket_checks-IsOrdered sockets d =
      build-IsOrdered socket_naming (socket_block host) check_rank socket-Rooted sockets d
