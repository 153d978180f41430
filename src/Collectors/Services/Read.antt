-- ===== src/Collectors/Services/Read.antt =====
-- internal/collectors/services.go: `Read` of the reader of units, which runs the command once for
-- each service.
use savk.Base.{
  ◌≡◌, refl, arith, List, [], ◌∷◌, Option, none, some, ok, err, if◌then◌else◌, Option-cases,
  Result-cases, inl, inr,
}
use savk.Base.Int.{pos, int_eq}
use savk.Text.{Text, text_eq_refl}
use savk.Engine.{Context}
use savk.Collectors.Systemctl.{
  CollectorError, CommandResult, find_cached, find_cached-cons, error_text, parse_systemctl_show,
  map_systemctl_failure, combined_output,
}
use savk.Collectors.Services.{ServiceUnit, ServiceHost, unit_command}
use savk.Collectors.Accounts.Once.{IsCell}

-- The unit where there is no command to run.
unfoldable pub unit_without_command : CollectorError → ServiceUnit
unfolding error_text
unit_without_command e = record {
  properties = [];
  exit_code = pos 0;
  raw = error_text e;
  failure = some e;
}

-- The unit of a command that has run.
unfoldable pub unit_of_command : (Text → Text) → CommandResult × Option CollectorError → ServiceUnit
unfolding map_systemctl_failure combined_output parse_systemctl_show
unit_of_command lower (result, some e) = record {
  properties = [];
  exit_code = result.exit_code;
  raw = combined_output result;
  failure = some e;
}
unit_of_command lower (result, none) =
    let raw = combined_output result in
    if int_eq result.exit_code (pos 0)
    then (elim (parse_systemctl_show result.stdout) [
      | ok ps ↦ record { properties = ps; exit_code = pos 0; raw = raw; failure = none }
      | err e ↦ record { properties = []; exit_code = pos 0; raw = raw; failure = some e }
    ])
    else record {
      properties = [];
      exit_code = result.exit_code;
      raw = raw;
      failure = some (map_systemctl_failure lower result);
    }

-- The map of units is kept by running a command, and holds what has been set.
pub record KeepsUnits {W : Type 0} (host : ServiceHost W) : Type 0 where
  pub cell : IsCell host.units
  pub runner :
      (ctx : Context) (command : List Text) (w : W)
      → host.units.get (host.runner ctx command w).1 ≡ host.units.get w

module _ {W : Type 0} (host : ServiceHost W) where
  -- `store`
  store_unit : Text → ServiceUnit → W → ServiceUnit × W
  store_unit name u w = (u, host.units.set ((name, u) ∷ host.units.get w) w)

  -- `Read`; the error that it returns is the one in the unit.
  unfoldable pub read_unit : Context → Text → W → ServiceUnit × W
  unfolding find_cached store_unit unit_command unit_of_command unit_without_command
  read_unit ctx name w = elim (find_cached name (host.units.get w)) [
    | some cached ↦ (cached, w)
    | none ↦ elim host.systemctl [
      | err e ↦ store_unit name (unit_without_command e) w
      | ok path ↦
          let (outcome, w') = host.runner ctx (unit_command host.systemctl name) w in
          store_unit name (unit_of_command host.lower outcome) w'
    ]
  ]

  find_cached-store_unit :
      (name : Text) (u : ServiceUnit) (w : W)
      → IsCell host.units
      → find_cached name (host.units.get (store_unit name u w).1) ≡ some u
  unfolding store_unit find_cached
  find_cached-store_unit name u w kept =
      rw (kept ((name, u) ∷ host.units.get w) w) (ground (arith, text_eq_refl name))

  find_cached-read_unit :
      (ctx : Context) (name : Text) (w : W)
      → IsCell host.units
      → find_cached name (host.units.get (read_unit ctx name w).1) ≡ some (read_unit ctx name w).0
  unfolding read_unit
  find_cached-read_unit ctx name w kept =
      elim (Option-cases (find_cached name (host.units.get w))) [
        | inr (u, found) ↦ ground arith
        | inl new ↦ elim (Result-cases host.systemctl) [
          | inl (e, missing) ↦
              ground (arith, find_cached-store_unit name (unit_without_command e) w kept)
          | inr (path, found) ↦
              let ran = host.runner ctx (unit_command host.systemctl name) w in
              ground (
                arith,
                find_cached-store_unit name (unit_of_command host.lower (ran.0)) (ran.1) kept,
              )
        ]
      ]

  -- What is cached of a service stays, whatever is stored of others.
  store_unit-keeps :
      (name other : Text) (u v : ServiceUnit) (w : W)
      → IsCell host.units
      → find_cached other (host.units.get w) ≡ none
      → find_cached name (host.units.get w) ≡ some u
      → find_cached name (host.units.get (store_unit other v w).1) ≡ some u
  unfolding store_unit
  store_unit-keeps name other u v w kept new here =
      rw (kept ((other, v) ∷ host.units.get w) w)
        (find_cached-cons name other u v (host.units.get w) new here)

  read_unit-keeps :
      (ctx : Context) (name other : Text) (u : ServiceUnit) (w : W)
      → KeepsUnits host
      → find_cached name (host.units.get w) ≡ some u
      → find_cached name (host.units.get (read_unit ctx other w).1) ≡ some u
  unfolding read_unit
  read_unit-keeps ctx name other u w keeps here =
      elim (Option-cases (find_cached other (host.units.get w))) [
        | inr (v, found) ↦ ground arith
        | inl new ↦ elim (Result-cases host.systemctl) [
          | inl (e, missing) ↦
              ground (
                arith,
                store_unit-keeps name other u (unit_without_command e) w keeps.cell new here,
              )
          | inr (path, found) ↦
              let command = unit_command host.systemctl other in
              let ran = host.runner ctx command w in
              let same = keeps.runner ctx command w in
              ground (
                arith,
                store_unit-keeps name other u (unit_of_command host.lower (ran.0)) (ran.1)
                    keeps.cell (rw same new) (rw same here),
              )
        ]
      ]

  -- The world behind reads of any services, one after the other.
  unfoldable pub read_units : List (Context × Text) → W → W
  read_units [] w = w
  read_units ((ctx, name) ∷ reads) w = read_units reads (read_unit ctx name w).1

  read_units-keeps :
      (reads : List (Context × Text)) (name : Text) (u : ServiceUnit) (w : W)
      → KeepsUnits host
      → find_cached name (host.units.get w) ≡ some u
      → find_cached name (host.units.get (read_units reads w)) ≡ some u
  unfolding read_units
  read_units-keeps [] name u w keeps here = here
  read_units-keeps ((ctx, other) ∷ reads) name u w keeps here =
      read_units-keeps reads name u (read_unit ctx other w).1 keeps
        (read_unit-keeps ctx name other u w keeps here)

  -- One command for each service: once a service has been read, and whatever services are read
  -- behind it, reading it again gives the same unit, whatever the context, and leaves the world as
  -- it is.
  -- It is asked that running a command keeps the map of units.
  pub read_unit-once :
      (ctx ctx' : Context) (name : Text) (reads : List (Context × Text)) (w : W)
      → KeepsUnits host
      → read_unit ctx' name (read_units reads (read_unit ctx name w).1)
        ≡ ((read_unit ctx name w).0, read_units reads (read_unit ctx name w).1)
  unfolding read_unit read_units
  read_unit-once ctx ctx' name reads w keeps =
      let (u, w1) = read_unit ctx name w in
      let cached =
        read_units-keeps reads name u w1 keeps (find_cached-read_unit ctx name w keeps.cell) in
      rw (cached, read_unit) refl
