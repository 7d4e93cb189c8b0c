-- ===== src/Config.antt =====
-- config/config.go: what a configuration is, and how it is loaded into the other packages. Reading
-- the file and its YAML are arguments.
pub mod Loading
pub mod Startup
use meeseeks_box.Base.{
  ℕ, ◌*◌, ◌%◌, ◌^◌, ◌≡◌, Bool, not, false, List, [], ◌∷◌, Option, none, some, Bytes, str, Result,
  ok, err, or_wrap, wrapf, ◌>>=◌, Error,
}
use meeseeks_box.Base.Assoc.{Assoc}
use meeseeks_box.Model.{CommandOpts, CommandHelp, second}
use meeseeks_box.Auth
use meeseeks_box.Auth.{Auth}
use meeseeks_box.Formatter
use meeseeks_box.Formatter.{
  Formatter, FormatConfig, default_info_color_message, default_success_color_message,
  default_err_color_message,
}
use meeseeks_box.Commands.{
  Registry, CommandRegistration, RegistrationArgs, kind_local_command, action_register, register,
}
use meeseeks_box.Shell
use meeseeks_box.Persistence.Opening.{DatabaseConfig, Database}
use meeseeks_box.Persistence.Opening

-- A command of the configuration; its timeout is a number of seconds.
pub record CommandConfig : Type 0 where
  pub cmd : Bytes
  pub args : List Bytes
  pub allowed_groups : List Bytes
  pub auth_strategy : Bytes
  pub channel_strategy : Bytes
  pub allowed_channels : List Bytes
  pub no_handshake : Bool
  pub timeout : ℕ
  pub help : CommandHelp

pub record Config : Type 0 where
  pub database : DatabaseConfig
  pub commands : Assoc CommandConfig
  pub groups : Assoc (List Bytes)
  pub pool : ℕ
  pub format : FormatConfig

-- 0600 in octal
abbrev owner_only : ℕ
owner_only = 384

unfoldable pub default_config : Config
default_config = record {
  database = record { path = str "meeseeks.db"; mode = owner_only; timeout = 2 * second };
  format = record {
    colors = record {
      info = default_info_color_message;
      success = default_success_color_message;
      error = default_err_color_message;
    };
    reply_style = [];
    templates = [];
    messages = [];
  };
  commands = [];
  groups = [];
  pool = 20;
}

-- New, over what ReadAll gives; yaml.Unmarshal fills a configuration from a text.
unfoldable pub new : (Bytes → Config → Result Config) → Result Bytes → Result Config
new unmarshal read = do
  b ← or_wrap "could not read configuration: %s" [] read
  or_wrap "could not parse configuration: %s" [] (unmarshal b default_config)

-- ReadFile, over what os.Open and the reading of the file give
unfoldable pub read_file :
    (Bytes → Config → Result Config) → Bytes → Result (Result Bytes) → Result Config
read_file unmarshal filename opened = do
  contents ← or_wrap "could not open configuration file %s: %s" (filename ∷ []) opened
  or_wrap "configuration is invalid: %s" [] (new unmarshal contents)

-- The product of the timeout and time.Second wraps.
unfoldable pub shell_opts : CommandConfig → CommandOpts
shell_opts cmd = record {
  auth_strategy = cmd.auth_strategy;
  allowed_groups = cmd.allowed_groups;
  channel_strategy = cmd.channel_strategy;
  allowed_channels = cmd.allowed_channels;
  args = cmd.args;
  handshake = not cmd.no_handshake;
  cmd = cmd.cmd;
  help = cmd.help;
  timeout = cmd.timeout * second % 2 ^ 64;
}

-- the loop over the commands
unfoldable pub registrations : Assoc CommandConfig → List CommandRegistration
registrations [] = []
registrations ((name, cmd) ∷ rest) =
    record { name = name; cmd = some (Shell.new (shell_opts cmd)) } ∷ registrations rest

unfoldable pub local_registration : Assoc CommandConfig → RegistrationArgs
local_registration commands = record {
  kind = kind_local_command;
  action = action_register;
  commands = registrations commands;
}

-- The variables of the packages that a configuration is loaded into.
pub record World (D : Type 0) : Type 0 where
  pub database : Database D
  pub registry : Registry
  pub auth : Auth
  pub formatter : Formatter

module _ {D : Type 0} (open_file : DatabaseConfig → Result D) where
  abbrev pub with_commands :
      Config → Result (Unit {0}) × Registry → World D → Result (Unit {0}) × World D
  with_commands cnf (err e, registry) w =
      (err (wrapf "could not load commands: %s" [] e), record w { registry = registry })
  with_commands cnf (ok _, registry) w = (
    ok tt,
    record w {
      registry = registry;
      auth = Auth.configure cnf.groups;
      formatter = Formatter.configure cnf.format;
    },
  )

  abbrev pub with_database :
      Config → Result (Unit {0}) × Database D → World D → Result (Unit {0}) × World D
  with_database cnf (err e, database) w =
      (err (wrapf "could not configure database: %s" [] e), record w { database = database })
  with_database cnf (ok _, database) w =
      with_commands cnf (register (local_registration cnf.commands) w.registry)
        (record w { database = database })

  unfoldable pub load_configuration : Config → World D → Result (Unit {0}) × World D
  load_configuration cnf w =
      with_database cnf (Opening.configure open_file cnf.database w.database) w
