-- ===== src/Contract/Decode/Specs/Paths.antt =====
-- internal/contract/parser.go: the sockets and paths of a decoded contract.
use savk.Base.{◌≡◌, true, List, [], ◌∷◌, ok, arith}
use savk.Text.{Text, codes}
use savk.Text.Ops.{has_prefix}
use savk.Contract.Node.{Node}
use savk.Contract.Schema.{SocketSpec, PathSpec, valid_path_type}
use savk.Contract.Field.{
  below, expect_non_empty_string, optional_text, validate_absolute_path, is_octal_mode,
}
use savk.Contract.Decode.{expect_fields, decode_mode, decode_path_type, decode_socket, decode_path}
use savk.Contract.Ensures.{good, then-Ensures, Ensures-ok}
use savk.Contract.Decode.Sound.{decode_mode-ok, decode_path_type-ok, optional_text-IfSet}
use savk.Contract.Decode.Specs.{IsValidSocket, IsValidPath, optional_filled}

validate_absolute_path-ok :
    (value : Text) (path : List Text) (u : Unit {0})
    → validate_absolute_path value path ≡ ok u
    → has_prefix value (codes "/") ≡ true
unfolding validate_absolute_path
validate_absolute_path-ok value path u h = ground arith

pub decode_socket-IsValid :
    (name : Text) (n : Node) (s : SocketSpec) → decode_socket name n ≡ ok s → IsValidSocket name s
unfolding decode_socket
decode_socket-IsValid name n s =
    let path : List Text = codes "sockets" ∷ name ∷ [] in
    Ensures-ok {P = IsValidSocket name} s (
      then-Ensures (validate_absolute_path name (codes "sockets" ∷ [])) λ u absolute.
        then-Ensures (expect_fields n path (codes "owner" ∷ codes "group" ∷ codes "mode" ∷ []))
          λ es _.
            then-Ensures
              (optional_text es (codes "owner")
                (λ o. expect_non_empty_string o (below path (codes "owner"))))
              λ owner o.
                then-Ensures
                  (optional_text es (codes "group")
                    (λ g. expect_non_empty_string g (below path (codes "group"))))
                  λ group g.
                    then-Ensures (optional_text es (codes "mode") (decode_mode path)) λ mode m.
                      good (record { owner = owner; group = group; mode = mode })
                        (record {
                          absolute =
                              validate_absolute_path-ok name (codes "sockets" ∷ []) u absolute;
                          owner =
                              optional_filled es (codes "owner") (below path (codes "owner")) owner
                                o;
                          group =
                              optional_filled es (codes "group") (below path (codes "group")) group
                                g;
                          mode =
                              optional_text-IfSet is_octal_mode es (codes "mode") (decode_mode path)
                                mode (decode_mode-ok path) m;
                        }))

pub decode_path-IsValid :
    (name : Text) (n : Node) (s : PathSpec) → decode_path name n ≡ ok s → IsValidPath name s
unfolding decode_path
decode_path-IsValid name n s =
    let path : List Text = codes "paths" ∷ name ∷ [] in
    Ensures-ok {P = IsValidPath name} s (
      then-Ensures (validate_absolute_path name (codes "paths" ∷ [])) λ u absolute.
        then-Ensures
          (expect_fields n path (codes "owner" ∷ codes "group" ∷ codes "mode" ∷ codes "type" ∷ []))
          λ es _.
            then-Ensures
              (optional_text es (codes "owner")
                (λ o. expect_non_empty_string o (below path (codes "owner"))))
              λ owner o.
                then-Ensures
                  (optional_text es (codes "group")
                    (λ g. expect_non_empty_string g (below path (codes "group"))))
                  λ group g.
                    then-Ensures (optional_text es (codes "mode") (decode_mode path)) λ mode m.
                      then-Ensures (optional_text es (codes "type") (decode_path_type path))
                        λ kind k.
                          good (record { owner = owner; group = group; mode = mode; kind = kind })
                            (record {
                              absolute =
                                  validate_absolute_path-ok name (codes "paths" ∷ []) u absolute;
                              owner =
                                  optional_filled es (codes "owner") (below path (codes "owner"))
                                    owner o;
                              group =
                                  optional_filled es (codes "group") (below path (codes "group"))
                                    group g;
                              mode =
                                  optional_text-IfSet is_octal_mode es (codes "mode")
                                    (decode_mode path) mode (decode_mode-ok path) m;
                              kind =
                                  optional_text-IfSet valid_path_type es (codes "type")
                                    (decode_path_type path) kind (decode_path_type-ok path) k;
                            }))
