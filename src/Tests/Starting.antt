-- ===== src/Tests/Starting.antt =====
-- A server that starts from a configuration, and reloads it (main.go, config/config.go).
use meeseeks_box.Base.{
  ◌≡◌, ◌≢◌, refl, ◌==◌, false, [], ◌∷◌, none, some, List, Bytes, str, ok, err, Result, fault,
}
use meeseeks_box.Base.Assoc.{lookup, Distinct, insert, remove}
use meeseeks_box.Base.Trim.{trim_space}
use meeseeks_box.Auth
use meeseeks_box.Formatter
use meeseeks_box.Formatter.{FormatConfig}
use meeseeks_box.Commands.{register, is_kind, kind_builtin_command, kind_local_command}
use meeseeks_box.Commands.Contents.{registered}
use meeseeks_box.Builtins.Table
use meeseeks_box.Shell
use meeseeks_box.Builtins.Table.{
  load_builtins, commands, new_cancel_job_command, new_kill_job_command,
}
use meeseeks_box.Config.{
  CommandConfig, Config, World, registrations, shell_opts, local_registration, load_configuration,
  default_config,
}
use meeseeks_box.Config.Loading.{reloaded, IsOutcome, load_configuration-IsOutcome}
use meeseeks_box.Config.Startup.{table}
use meeseeks_box.Persistence.Opening.{DatabaseConfig, Database, unopened, opened, close}
use meeseeks_box.Persistence.Opening
use meeseeks_box.Main.{Signal, sighup, sigusr1, sigterm, launch, Waiting, wait_for_signals}
use meeseeks_box.Main.Launching.{IsBuiltin, launch-builtins}
use meeseeks_box.Main.Signals.{wait_for_signals-keeps}
use meeseeks_box.Tests.Registering.{registry, registry-IsWellFormed, help_hub}

-- A configured command that has the name of a builtin.
abbrev jobs_command : CommandConfig
jobs_command = record {
  cmd = str "/bin/jobs";
  args = [];
  allowed_groups = [];
  auth_strategy = str "any";
  channel_strategy = [];
  allowed_channels = [];
  no_handshake = false;
  timeout = 10;
  help = record { summary = []; args = [] };
}

abbrev cnf : Config
cnf = record default_config {
  commands = (str "jobs", jobs_command) ∷ [];
  groups = (str "ops", str "eve" ∷ []) ∷ [];
}

cnf-Distinct : Distinct cnf.commands
unfolding lookup
cnf-Distinct = (refl, tt)

-- A file that is opened as its path.
abbrev open_file : DatabaseConfig → Result Bytes
open_file c = ok c.path

abbrev flush : Database Bytes → Result (Unit {0}) × Database Bytes
flush database = (ok tt, database)

abbrev world : World Bytes
world = record {
  database = unopened;
  registry = [];
  auth = Auth.configure [];
  formatter = Formatter.configure cnf.format;
}

load_configuration-IsOutcome_example :
    IsOutcome open_file cnf world (load_configuration open_file cnf world)
load_configuration-IsOutcome_example =
    load_configuration-IsOutcome open_file cnf world cnf-Distinct tt

abbrev running : Waiting open_file flush
running = record { world = record world { registry = registry }; debug = false; shut_down = false }

abbrev signals : List (Signal × Result Config)
signals =
    (sighup, ok cnf)
    ∷ (sigusr1, ok cnf)
    ∷ (sighup, err (fault (str "no file")))
    ∷ (sigterm, ok cnf)
    ∷ []

help_there : lookup (str "help") registry ≡ some help_hub
unfolding lookup ◌==◌
help_there = refl

help-other : help_hub.kind ≢ str "local"
help-other h = cc h

wait_for_signals-keeps_example :
    lookup (str "help") (wait_for_signals open_file flush signals running).world.registry
    ≡ some help_hub
wait_for_signals-keeps_example =
    wait_for_signals-keeps open_file flush (str "help") help_hub signals running help-other
      (cnf-Distinct, (cnf-Distinct, (tt, (cnf-Distinct, tt)))) registry-IsWellFormed help_there

abbrev launched_world : World Bytes
launched_world = record {
  database = opened (str "meeseeks.db");
  registry =
      (
        str "jobs",
        record { kind = kind_local_command; cmd = some (Shell.new (shell_opts jobs_command)) },
      )
      ∷ [];
  auth = Auth.configure cnf.groups;
  formatter = Formatter.configure cnf.format;
}

launched : launch open_file flush (str "server") (ok cnf) world ≡ some launched_world
unfolding launch load_configuration Opening.configure default_config local_registration
    registrations register load_builtins commands Table.registrations insert remove lookup
    trim_space is_kind ◌==◌
launched = refl

launch-builtins_example :
    (launched_world.auth ≡ Auth.configure cnf.groups)
    × (launched_world.formatter ≡ Formatter.configure cnf.format)
    × (((j : Bytes) → IsBuiltin j → lookup j cnf.commands ≡ none)
        → (i : Bytes)
        → lookup i launched_world.registry
          ≡ registered kind_builtin_command
              (lookup i (table new_cancel_job_command new_kill_job_command))
              (reloaded (lookup i cnf.commands) none))
    × ((j : Bytes) (c : CommandConfig)
        → IsBuiltin j
        → lookup j cnf.commands ≡ some c
        → (i : Bytes) → lookup i launched_world.registry ≡ reloaded (lookup i cnf.commands) none)
launch-builtins_example =
    launch-builtins open_file flush cnf world launched_world cnf-Distinct refl launched
