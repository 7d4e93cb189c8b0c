-- ===== src/Config/Loading.antt =====
-- What a loading of a configuration leaves in each package, and what a failed one leaves alone.
use meeseeks_box.Base.{
  ◌≡◌, refl, ap, ◌∙◌, sym, [], ◌∷◌, Option, none, some, Bytes, ◌==◌, eq_iff, arith, Result, ok, err,
  Error, Result-cases, inl, inr, wrapf, ◌⊎◌, ◌≢◌, subst,
}
use meeseeks_box.Base.Assoc.{Assoc, lookup, Distinct}
use meeseeks_box.Auth
use meeseeks_box.Auth.{Auth}
use meeseeks_box.Formatter
use meeseeks_box.Formatter.{Formatter}
use meeseeks_box.Shell
use meeseeks_box.Model.{Command}
use meeseeks_box.Commands.{CommandHub, Registry, kind_local_command, register}
use meeseeks_box.Commands.Contents.{last_named, unless_local}
use meeseeks_box.Commands.Registration.{outcome, register_atomic}
use meeseeks_box.Commands.Ownership.{register_same_kind}
use meeseeks_box.Persistence.Opening.{DatabaseConfig, Database, unopened, opened, closed, close}
use meeseeks_box.Persistence.Opening
use meeseeks_box.Config.{
  CommandConfig, Config, World, shell_opts, registrations, local_registration, with_commands,
  with_database, load_configuration,
}

-- The command that a configuration gives a name.
abbrev pub configured : Option CommandConfig → Option (Option Command)
configured none = none
configured (some c) = some (some (Shell.new (shell_opts c)))

pub last_named-registrations :
    (commands : Assoc CommandConfig) (j : Bytes)
    → Distinct commands
    → last_named (registrations commands) j ≡ configured (lookup j commands)
unfolding registrations lookup
last_named-registrations [] j h = refl
last_named-registrations ((name, c) ∷ rest) j (fresh, h) =
    ground (arith, last_named-registrations rest j h, eq_iff name j)

-- What the registry holds under a name once a configuration was loaded: the configured command, and
-- otherwise what was there, unless it was a local command.
abbrev pub reloaded : Option CommandConfig → Option CommandHub → Option CommandHub
reloaded none before = unless_local before
reloaded (some c) before =
    some (record { kind = kind_local_command; cmd = some (Shell.new (shell_opts c)) })

outcome-local :
    (commands : Assoc CommandConfig) (o : Option CommandConfig) (before : Option CommandHub)
    → outcome (local_registration commands) (configured o) before ≡ reloaded o before
unfolding local_registration ◌==◌
outcome-local commands none before = refl
outcome-local commands (some c) before = refl

pub register-local :
    (commands : Assoc CommandConfig) (r : Registry)
    → Distinct commands
    → Distinct r
    → (register (local_registration commands) r).0 ≡ ok tt
    → (j : Bytes)
    → lookup j (register (local_registration commands) r).1
      ≡ reloaded (lookup j commands) (lookup j r)
unfolding local_registration
register-local commands r once once_r good j =
    (register_atomic (local_registration commands) r once_r).1 good j
    ∙ ap (λ n. outcome (local_registration commands) n (lookup j r))
        (last_named-registrations commands j once)
    ∙ outcome-local commands (lookup j commands) (lookup j r)

pub register-local_kind :
    (commands : Assoc CommandConfig) (r : Registry)
    → Distinct commands
    → Distinct r
    → (register (local_registration commands) r).0 ≡ ok tt
    → (j : Bytes) (c : CommandConfig) (hub : CommandHub) → lookup j commands ≡ some c
    → lookup j r ≡ some hub
    → hub.kind ≡ kind_local_command
register-local_kind commands r once once_r good j c hub named there = sym (
    register_same_kind (local_registration commands) r once_r j hub there _
      (register-local commands r once once_r good j ∙ ap (λ o. reloaded o (lookup j r)) named))

close-opened : {D : Type 0} (database : Database D) (d : D) → close database ≢ opened d
unfolding close
close-opened unopened d e = cc e
close-opened (opened c) d e = cc e
close-opened closed d e = cc e

module _ {D : Type 0} (open_file : DatabaseConfig → Result D) (cnf : Config) where
  -- What is the same behind a failed loading.
  abbrev pub IsKept : World D → World D → Type 0
  IsKept w w' = (w'.registry ≡ w.registry) × (w'.auth ≡ w.auth) × (w'.formatter ≡ w.formatter)

  abbrev pub IsLoaded : World D → World D → Type 0
  IsLoaded w w' =
      (w'.auth ≡ Auth.configure cnf.groups)
      × (w'.formatter ≡ Formatter.configure cnf.format)
      × ((d : D) × (open_file cnf.database ≡ ok d) × (w'.database ≡ opened d))
      × ((j : Bytes)
          → lookup j w'.registry ≡ reloaded (lookup j cnf.commands) (lookup j w.registry))
      × ((j : Bytes) (c : CommandConfig) (hub : CommandHub)
          → lookup j cnf.commands ≡ some c
          → lookup j w.registry ≡ some hub
          → hub.kind ≡ kind_local_command)

  loads :
      (w : World D) (d : D)
      → open_file cnf.database ≡ ok d
      → load_configuration open_file cnf w
        ≡ with_commands open_file cnf
            (register (local_registration cnf.commands) w.registry)
            (record w { database = opened d })
  unfolding load_configuration Opening.configure
  loads w d h = ap (λ r. with_database open_file cnf (Opening.open_as r (close w.database)) w) h

  not_opened :
      (w : World D) (e : Error)
      → open_file cnf.database ≡ err e
      → load_configuration open_file cnf w ≡ (
        err (wrapf "could not configure database: %s" [] e),
        record w { database = close w.database },
      )
  unfolding load_configuration Opening.configure
  not_opened w e h =
      ap (λ r. with_database open_file cnf (Opening.open_as r (close w.database)) w) h

  with_commands-registry :
      (r : Result (Unit {0})) (registry : Registry) (w : World D)
      → (with_commands open_file cnf (r, registry) w).1.registry ≡ registry
  with_commands-registry (ok _) registry w = refl
  with_commands-registry (err e) registry w = refl

  -- The registry behind a loading is as it was, or what the registration leaves.
  pub load-registry :
      (P : Registry → Type 0) (w : World D)
      → P w.registry
      → P (register (local_registration cnf.commands) w.registry).1
      → P (load_configuration open_file cnf w).1.registry
  load-registry P w before after = elim (Result-cases (open_file cnf.database)) [
    | inr (e, h) ↦ subst (λ x. P x.1.registry) (sym (not_opened w e h)) before
    | inl (d, h) ↦
        let r = register (local_registration cnf.commands) w.registry in
        subst P
          (sym (
            ap (λ x. x.1.registry) (loads w d h)
            ∙ with_commands-registry r.0 r.1 (record w { database = opened d })))
          after
  ]

  -- How a loading ends: the error or none, and the variables.
  abbrev pub IsOutcome : World D → Result (Unit {0}) × World D → Type 0
  IsOutcome w (r, w') =
      ((r ≡ ok tt) × IsLoaded w w')
      ⊎ ((e : Error) × (r ≡ err e)
          × IsKept w w'
          × (((inner : Error) × (open_file cnf.database ≡ err inner)
                × ((d : D) → w'.database ≢ opened d))
              ⊎ ((d : D) × (open_file cnf.database ≡ ok d) × (w'.database ≡ opened d))))

  -- A configuration that is loaded replaces the database, the groups and the formatter, and makes
  -- the configured commands the local ones; none of their names was that of a command of another
  -- kind. If the loading fails, commands, groups and formatter stay as they were; but if the
  -- configured file cannot be opened, then no database is open any more, and if it can, then it is
  -- the database. The configuration and the registry have a name once.
  pub load_configuration-IsOutcome :
      (w : World D)
      → Distinct cnf.commands
      → Distinct w.registry
      → IsOutcome w (load_configuration open_file cnf w)
  load_configuration-IsOutcome w once once_r = elim (Result-cases (open_file cnf.database)) [
    | inr (e, h) ↦ subst (IsOutcome w) (sym (not_opened w e h)) (
        inr (
          wrapf "could not configure database: %s" [] e,
          refl,
          (refl, refl, refl),
          inl (e, h, close-opened w.database),
        ))
    | inl (d, h) ↦
        let r = register (local_registration cnf.commands) w.registry in
        let w₁ : World D = record w { database = opened d } in
        subst (IsOutcome w) (sym (loads w d h)) (elim (Result-cases r.0) [
          | inl (_, good) ↦
              subst (λ x. IsOutcome w (with_commands open_file cnf (x, r.1) w₁)) (sym good)
                (inl (
                  refl,
                  (
                    refl,
                    refl,
                    (d, h, refl),
                    register-local cnf.commands w.registry once once_r good,
                    register-local_kind cnf.commands w.registry once once_r good,
                  ),
                ))
          | inr (e, bad) ↦
              subst (λ x. IsOutcome w (with_commands open_file cnf (x, r.1) w₁)) (sym bad)
                (inr (
                  wrapf "could not load commands: %s" [] e,
                  refl,
                  (
                    (register_atomic (local_registration cnf.commands) w.registry once_r).0 e bad,
                    refl,
                    refl,
                  ),
                  inr (d, h, refl),
                ))
        ])
  ]
