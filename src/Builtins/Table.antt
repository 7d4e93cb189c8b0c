-- ===== src/Builtins/Table.antt =====
-- The table of the builtin commands: who may run each, and where (the package's `Commands`).
use meeseeks_box.Base.{false, List, [], ◌∷◌, ◌++◌, Option, some, Bytes, str, Result}
use meeseeks_box.Base.Assoc.{Assoc}
use meeseeks_box.Model.{Command, CommandHelp, builtin, default_command_timeout}
use meeseeks_box.Auth.{
  auth_strategy_any, auth_strategy_allowed_group, channel_strategy_any, channel_strategy_im_only,
}
use meeseeks_box.Builtins.Types.{
  AccessTrait, allow_all, allow_admins, ChannelTrait, any_channel, im_only_channel, CommandType,
  version_command, help_command, cancel_job_command, kill_job_command, groups_command, jobs_command,
  audit_command, last_command, find_job_command, audit_job_command, audit_logs_command,
  tail_command, head_command, logs_command, new_api_token_command, revoke_api_token_command,
  list_api_tokens_command, new_alias_command, delete_alias_command, get_aliases_command,
}
use meeseeks_box.Commands.{
  CommandRegistration, RegistrationArgs, Registry, register, kind_builtin_command, action_register,
}

abbrev pub admin_group : Bytes
admin_group = str "admin"

abbrev pub access_strategy : AccessTrait → Bytes
access_strategy allow_all = auth_strategy_any
access_strategy allow_admins = auth_strategy_allowed_group

abbrev pub access_groups : AccessTrait → List Bytes
access_groups allow_all = []
access_groups allow_admins = admin_group ∷ []

abbrev pub channel_trait_strategy : ChannelTrait → Bytes
channel_trait_strategy any_channel = channel_strategy_any
channel_trait_strategy im_only_channel = channel_strategy_im_only

-- The first text is the type's own, which selects `Execute`, and the second its `cmd`.
abbrev pub builtin_command : Bytes → Bytes → CommandType → CommandHelp → Command
builtin_command name cmd type help = record {
  cmd = cmd;
  has_handshake = false;
  auth_strategy = access_strategy type.access;
  allowed_groups = access_groups type.access;
  channel_strategy = channel_trait_strategy type.channel;
  allowed_channels = [];
  args = [];
  timeout = default_command_timeout;
  help = help;
  must_record = false;
  runner = builtin name;
}

abbrev pub named : Bytes → CommandType → CommandHelp → Command
named name type help = builtin_command name name type help

abbrev pub new_help : Bytes → List Bytes → CommandHelp
new_help summary args = record { summary = summary; args = args }

-- `NewCancelJobCommand` and `NewKillJobCommand` leave `cmd` empty.
abbrev pub new_cancel_job_command : Command
new_cancel_job_command = builtin_command (str "cancel") [] cancel_job_command (
    new_help (str "sends a cancellation signal to a job owned by the current user")
      (str "job ID to send the signal to" ∷ []))

abbrev pub new_kill_job_command : Command
new_kill_job_command = builtin_command (str "kill") [] kill_job_command (
    new_help (str "sends a cancellation signal to a job, admin only")
      (str "job ID to send the signal to" ∷ []))

abbrev entry : Bytes → CommandType → Bytes → List Bytes → Bytes × Option Command
entry name type summary args = (name, some (named name type (new_help summary args)))

-- The commands on jobs and logs, and those on tokens, aliases and the bot itself.
abbrev job_commands : Assoc (Option Command)
job_commands =
    entry (str "jobs") jobs_command (str "shows the last executed jobs for the calling user")
      (str "-limit: how many jobs to show, 5 by default" ∷ [])
    ∷ entry (str "audit") audit_command
        (str "lists jobs from all users or a specific one (admin only)")
        (str "-user: user to filter for" ∷ str "-limit: how many jobs to show, 5 by default" ∷ [])
    ∷ entry (str "auditjob") audit_job_command
        (str "shows a command metadata by job ID (admin only)")
        (str "-user: user to filter for" ∷ str "job ID to look up for, mandatory" ∷ [])
    ∷ entry (str "auditlogs") audit_logs_command (str "shows the logs of a job by ID (admin only)")
        (str "job ID to look up for, mandatory" ∷ [])
    ∷ entry (str "last") last_command
        (str "shows the last job metadata executed by the current user") []
    ∷ entry (str "job") find_job_command (str "show metadata of one job by id")
        (str "job ID to look for, mandatory" ∷ [])
    ∷ entry (str "tail") tail_command
        (str "returns the last lines of the last executed job, or one selected by job ID")
        (str "-limit: how many lines to show"
          ∷ str
              "job ID to look for, optional, if not provided the last executed one will be looked up"
          ∷ [])
    ∷ entry (str "head") head_command
        (str "returns the top N log lines of a command output or error")
        (str "-limit: how many lines to show"
          ∷ str
              "job ID to look for, optional, if not provided the last executed one will be looked up"
          ∷ [])
    ∷ entry (str "logs") logs_command (str "returns the full output of the job passed as argument")
        (str "job ID to look for, mandatory" ∷ [])
    ∷ []

abbrev other_commands : Assoc (Option Command)
other_commands =
    entry (str "version") version_command (str "prints the running meeseeks version") []
    ∷ entry (str "groups") groups_command (str "prints the configured groups") []
    ∷ entry (str "token-new") new_api_token_command (str "creates a new API token") (
        str "user that will be impersonated by the api, mandatory"
        ∷ str "channel that will be used as the one in which the job was called"
        ∷ str "command the token will be calling"
        ∷ str "arguments to pass to the command"
        ∷ [])
    ∷ entry (str "tokens") list_api_tokens_command (str "lists the API tokens") []
    ∷ entry (str "token-revoke") revoke_api_token_command (str "revokes an API token")
        (str "api token to revoke, mandatory" ∷ [])
    ∷ entry (str "alias") new_alias_command (str "adds an alias for a command for the current user")
        (str "alias itself, mandatory"
          ∷ str "command to alias, mandatory"
          ∷ str "arguments to pass to the command when invoking the alias, optional"
          ∷ [])
    ∷ entry (str "unalias") delete_alias_command (str "deletes an alias")
        (str "alias to delete, mandatory" ∷ [])
    ∷ entry (str "aliases") get_aliases_command (str "list all the aliases for the current user") []
    ∷ entry (str "help") help_command (str "shows the help for all the commands, or a single one") (
        str "-all: includes the builtin commands in the list"
        ∷ str "command, optional, shows the extended help for a single command"
        ∷ [])
    ∷ []

-- The table, with the placeholders that `LoadBuiltins` fills. A nil command is `none`.
unfoldable pub commands : Option Command → Option Command → Assoc (Option Command)
commands cancel kill =
    (str "cancel", cancel) ∷ (str "kill", kill) ∷ (job_commands ++ other_commands)

unfoldable pub registrations : Assoc (Option Command) → List CommandRegistration
registrations [] = []
registrations ((name, cmd) ∷ rest) = record { name = name; cmd = cmd } ∷ registrations rest

abbrev pub builtin_registration : Option Command → Option Command → RegistrationArgs
builtin_registration cancel kill = record {
  kind = kind_builtin_command;
  action = action_register;
  commands = registrations (commands cancel kill);
}

unfoldable pub load_builtins :
    Option Command → Option Command → Registry → Result (Unit {0}) × Registry
load_builtins cancel kill registry = register (builtin_registration cancel kill) registry
