-- ===== src/Main/Launching.antt =====
-- What a server starts with: the commands of its configuration, and the builtins or none of them.
use meeseeks_box.Base.{
  ◌≡◌, ◌≢◌, refl, ap, ◌∙◌, sym, [], none, some, Bytes, str, ◌==◌, Result, ok, err, inl, inr, subst,
  arith,
}
use meeseeks_box.Base.Assoc.{lookup, Distinct}
use meeseeks_box.Auth
use meeseeks_box.Formatter
use meeseeks_box.Commands.{Registry, kind_builtin_command, kind_local_command}
use meeseeks_box.Commands.Contents.{registered}
use meeseeks_box.Commands.Ownership.{IsWellFormed}
use meeseeks_box.Main.Signals.{load-IsWellFormed}
use meeseeks_box.Builtins.Table.{load_builtins, new_cancel_job_command, new_kill_job_command}
use meeseeks_box.Config.{CommandConfig, Config, World, load_configuration}
use meeseeks_box.Config.Loading.{reloaded, IsLoaded, load_configuration-IsOutcome}
use meeseeks_box.Config.Startup.{table, load_builtins-shadowed, load_builtins-free}
use meeseeks_box.Persistence.Opening.{DatabaseConfig, Database}
use meeseeks_box.Main.{launch, launch_with, started, flushed, with_builtins}

-- The names of the builtin commands.
abbrev pub IsBuiltin : Bytes → Type 0
IsBuiltin j = lookup j (table new_cancel_job_command new_kill_job_command) ≢ none

module _ {D : Type 0} (open_file : DatabaseConfig → Result D)
    (flush : Database D → Result (Unit {0}) × Database D) where
  -- What is in the packages behind a launch, once the configuration was loaded.
  abbrev IsLaunched : World D → World D → Type 0
  IsLaunched w w' =
      (w'.registry
        ≡ (load_builtins (some new_cancel_job_command) (some new_kill_job_command) w.registry).1)
      × (w'.auth ≡ w.auth)
      × (w'.formatter ≡ w.formatter)

  started-IsLaunched :
      (r : Result (Unit {0})) (database : Database D) (w w' : World D)
      → started open_file flush (flushed open_file flush (r, database) w) ≡ some w'
      → IsLaunched w w'
  started-IsLaunched (err e) database w w' h = cc
  started-IsLaunched (ok _) database w w' h =
      let made : with_builtins open_file flush (record w { database = database }) ≡ w' = cc h in
      (
        ap (λ x. x.registry) (sym made),
        ap (λ x. x.auth) (sym made),
        ap (λ x. x.formatter) (sym made),
      )

  launch_with-IsLaunched :
      (r : Result (Unit {0})) (w w' : World D)
      → launch_with open_file flush (str "server") (r, w) ≡ some w'
      → (r ≡ ok tt) × IsLaunched w w'
  unfolding ◌==◌
  launch_with-IsLaunched (err e) w w' h = cc
  launch_with-IsLaunched (ok _) w w' h =
      (refl, started-IsLaunched (flush w.database).0 (flush w.database).1 w w' h)

  launch-IsLaunched :
      (cnf : Config) (w w' : World D)
      → launch open_file flush (str "server") (ok cnf) w ≡ some w'
      → ((load_configuration open_file cnf w).0 ≡ ok tt)
        × IsLaunched (load_configuration open_file cnf w).1 w'
  unfolding launch
  launch-IsLaunched cnf w w' h =
      launch_with-IsLaunched (load_configuration open_file cnf w).0
        (load_configuration open_file cnf w).1 w' h

  loaded :
      (cnf : Config) (w : World D)
      → Distinct cnf.commands
      → Distinct w.registry
      → (load_configuration open_file cnf w).0 ≡ ok tt
      → IsLoaded open_file cnf w (load_configuration open_file cnf w).1
  loaded cnf w once once_r good = elim (load_configuration-IsOutcome open_file cnf w once once_r) [
    | inl (_, yes_) ↦ yes_
    | inr (e, bad, _, _) ↦ cc (good, bad)
  ]

local-builtin : kind_local_command ≢ kind_builtin_command
local-builtin h = ground arith

empty-IsWellFormed : IsWellFormed []
unfolding lookup
empty-IsWellFormed = record { distinct = tt; hubs = λ j hub h. cc h }

-- A server that starts, with nothing registered before, has the groups and the formatter of its
-- configuration. If no configured command has the name of a builtin one, then the configured and
-- the builtin commands are registered. But if any has, then no builtin command is there at all: only
-- the configured commands are. The configuration has a name once.
pub launch-builtins :
    {D : Type 0} (open_file : DatabaseConfig → Result D)
    (flush : Database D → Result (Unit {0}) × Database D) (cnf : Config) (w w' : World D)
    → Distinct cnf.commands
    → w.registry ≡ []
    → launch open_file flush (str "server") (ok cnf) w ≡ some w'
    → (w'.auth ≡ Auth.configure cnf.groups)
      × (w'.formatter ≡ Formatter.configure cnf.format)
      × (((j : Bytes) → IsBuiltin j → lookup j cnf.commands ≡ none)
          → (i : Bytes)
          → lookup i w'.registry
            ≡ registered kind_builtin_command
                (lookup i (table new_cancel_job_command new_kill_job_command))
                (reloaded (lookup i cnf.commands) none))
      × ((j : Bytes) (c : CommandConfig)
          → IsBuiltin j
          → lookup j cnf.commands ≡ some c
          → (i : Bytes) → lookup i w'.registry ≡ reloaded (lookup i cnf.commands) none)
launch-builtins open_file flush cnf w w' once empty h =
    let (good, (registry, auth, formatter)) = launch-IsLaunched open_file flush cnf w w' h in
    let once_w : Distinct w.registry = subst Distinct (sym empty) tt in
    let (auth', formatter', _, now, kinds) = loaded open_file flush cnf w once once_w good in
    let r : Registry = (load_configuration open_file cnf w).1.registry in
    let once_r : Distinct r =
      (load-IsWellFormed open_file flush cnf w
        (subst IsWellFormed (sym empty) empty-IsWellFormed)).distinct in
    let commands : (j : Bytes) → lookup j r ≡ reloaded (lookup j cnf.commands) none = λ j.
      now j
      ∙ ap (λ x. reloaded (lookup j cnf.commands) (lookup j x)) empty
      ∙ (unfold lookup in refl) in
    (
      auth ∙ auth',
      formatter ∙ formatter',
      λ free i.
          ap (lookup i) registry
          ∙ (load_builtins-free new_cancel_job_command new_kill_job_command r once_r
                (λ j builtin. commands j ∙ ap (λ o. reloaded o none) (free j builtin))).1
              i
          ∙ ap
              (registered kind_builtin_command
                (lookup i (table new_cancel_job_command new_kill_job_command)))
              (commands i),
      λ j c builtin named i.
          let (e, shadowed) =
            load_builtins-shadowed new_cancel_job_command new_kill_job_command r once_r j _ builtin
              (commands j ∙ ap (λ o. reloaded o none) named) local-builtin in
          ap (lookup i) (registry ∙ ap (λ x. x.1) shadowed) ∙ commands i,
    )
