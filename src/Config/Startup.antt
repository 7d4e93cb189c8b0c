-- ===== src/Config/Startup.antt =====
-- The start of a server: the configured commands are registered first (main.go, config/config.go),
-- and the builtin ones then (meeseeks/executor/executor.go, commands/builtins/builtins.go).
use meeseeks_box.Base.{
  ◌≡◌, ◌≢◌, refl, ap, ◌∙◌, sym, false, [], Option, none, some, Bytes, ◌==◌, arith, ok, err, Error,
  Result-cases, inl, inr, All, All-of, All-at, Option-cases,
}
use meeseeks_box.Base.Assoc.{Assoc, lookup, Distinct}
use meeseeks_box.Base.Trim.{trim_space}
use meeseeks_box.Model.{Command}
use meeseeks_box.Commands.{
  CommandHub, Registry, CommandRegistration, RegistrationArgs, kind_builtin_command, register,
  is_kind,
}
use meeseeks_box.Commands.Contents.{last_named, registered}
use meeseeks_box.Commands.Registration.{outcome, register_atomic}
use meeseeks_box.Commands.Ownership.{register_same_kind}
use meeseeks_box.Commands.Lookup.{last_named-Elem}
use meeseeks_box.Commands.Fresh.{IsFresh, register-fresh}
use meeseeks_box.Builtins.Table.{commands, registrations, builtin_registration, load_builtins}
use meeseeks_box.Builtins.Access.{last_named-registrations, commands-Distinct}

module _ (cancel kill : Command) where
  abbrev pub table : Assoc (Option Command)
  table = commands (some cancel) (some kill)

  -- Every command of the table has a name and is not nil.
  abbrev IsNamed : CommandRegistration → Type 0
  IsNamed c = (trim_space c.name == [] ≡ false) × (c.cmd ≢ none)

  table-IsNamed : All IsNamed (registrations table)
  unfolding commands registrations ◌==◌ trim_space
  table-IsNamed = ground arith

  named_in_table : (j : Bytes) → last_named (registrations table) j ≡ lookup j table
  named_in_table j = last_named-registrations table j (commands-Distinct (some cancel) (some kill))

  table-IsFresh :
      (r : Registry)
      → ((j : Bytes) → lookup j table ≢ none → lookup j r ≡ none)
      → All (IsFresh r) (registrations table)
  table-IsFresh r free = All-of (registrations table) (λ c l.
      let (named, is) = All-at IsNamed c (registrations table) l table-IsNamed in
      let (cmd, e) = last_named-Elem c (registrations table) l in
      (named, is, free c.name (λ missing. cc (named_in_table c.name, missing, e))))

  outcome-table :
      (o : Option (Option Command)) (before : Option CommandHub)
      → outcome (builtin_registration (some cancel) (some kill)) o before
        ≡ registered kind_builtin_command o before
  unfolding ◌==◌
  outcome-table o before = refl

  module _ (r : Registry) (once : Distinct r) where
    abbrev args : RegistrationArgs
    args = builtin_registration (some cancel) (some kill)

    -- Under a name of the table there is another kind of command: no builtin is loaded.
    pub load_builtins-shadowed :
        (j : Bytes) (hub : CommandHub)
        → lookup j table ≢ none
        → lookup j r ≡ some hub
        → hub.kind ≢ kind_builtin_command
        → (e : Error) × (load_builtins (some cancel) (some kill) r ≡ (err e, r))
    unfolding load_builtins
    load_builtins-shadowed j hub named there other = elim (Result-cases (register args r).0) [
      | inr (e, bad) ↦ (
        e,
        ap (λ x. (x, (register args r).1)) bad
            ∙ ap (λ x. (err e, x)) ((register_atomic args r once).0 e bad),
      )
      | inl (_, good) ↦ elim (Option-cases (lookup j table)) [
        | inl missing ↦ absurd (named missing)
        | inr (cmd, found) ↦
            let after : lookup j (register args r).1
                ≡ some (record { kind = kind_builtin_command; cmd = cmd }) =
              (register_atomic args r once).1 good j
              ∙ outcome-table (last_named (registrations table) j) (lookup j r)
              ∙ ap (λ n. registered kind_builtin_command n (lookup j r))
                  (named_in_table j ∙ found) in
            absurd (other (sym (register_same_kind args r once j hub there _ after)))
      ]
    ]

    -- Under no name of the table there is a command: all the builtins are loaded beside the others.
    pub load_builtins-free :
        ((j : Bytes) → lookup j table ≢ none → lookup j r ≡ none)
        → ((load_builtins (some cancel) (some kill) r).0 ≡ ok tt)
          × ((j : Bytes)
              → lookup j (load_builtins (some cancel) (some kill) r).1
                ≡ registered kind_builtin_command (lookup j table) (lookup j r))
    unfolding load_builtins
    load_builtins-free free =
        let good =
          register-fresh r kind_builtin_command (registrations table)
            (unfold trim_space ◌==◌ in refl) (unfold is_kind ◌==◌ in refl) (table-IsFresh r free) in
        (
          good,
          λ j.
              (register_atomic args r once).1 good j
              ∙ outcome-table (last_named (registrations table) j) (lookup j r)
              ∙ ap (λ n. registered kind_builtin_command n (lookup j r)) (named_in_table j),
        )
