-- ===== src/Model.antt =====
-- meeseeks/meeseeks.go: requests, jobs, commands and the options that a command is built from.
-- A time.Duration is its int64 bit pattern, a number below 2 ^ 64; a nil slice is the empty list.
use meeseeks_box.Base.{
  ℕ, ◌*◌, ◌^◌, Bool, true, Option, none, some, List, [], Bytes, str, ◌==◌, eqb, if◌then◌else◌,
  Error, fault,
}

pub record Request : Type 0 where
  pub command : Bytes
  pub args : List Bytes
  pub username : Bytes
  pub user_id : Bytes
  pub user_link : Bytes
  pub channel : Bytes
  pub channel_id : Bytes
  pub channel_link : Bytes
  pub is_im : Bool

-- The times are the clock's readings; `end_time` is zero until the job ends.
pub record Job : Type 0 where
  pub id : ℕ
  pub request : Request
  pub start_time : ℕ
  pub end_time : ℕ
  pub status : Bytes

abbrev pub job_running_status : Bytes
job_running_status = str "Running"

abbrev pub job_failed_status : Bytes
job_failed_status = str "Failed"

abbrev pub job_killed_status : Bytes
job_killed_status = str "Killed"

abbrev pub job_success_status : Bytes
job_success_status = str "Successful"

pub record JobLog : Type 0 where
  pub error : Bytes
  pub output : Bytes

unfoldable pub get_error : JobLog → Option Error
get_error j = if j.error == [] then none else some (fault j.error)

pub record ApiToken : Type 0 where
  pub token_id : Bytes
  pub user_link : Bytes
  pub channel_link : Bytes
  pub text : Bytes
  pub created_on : ℕ

pub record Alias : Type 0 where
  pub alias : Bytes
  pub command : Bytes
  pub args : List Bytes

pub record JobFilter : Type 0 where
  pub limit : ℕ
  pub match : Job → Bool

pub record ApiTokenFilter : Type 0 where
  pub limit : ℕ
  pub match : ApiToken → Bool

pub record CommandHelp : Type 0 where
  pub summary : Bytes
  pub args : List Bytes

-- Which `Execute` a command has: a shell command, a builtin by its name, or a command of the
-- remote agent of that ID.
pub data Runner : Type 0 where
  shell : Runner
  builtin : Bytes → Runner
  remote : Bytes → Runner

-- The `Command` interface: a field for each getter.
pub record Command : Type 0 where
  pub cmd : Bytes
  pub has_handshake : Bool
  pub auth_strategy : Bytes
  pub allowed_groups : List Bytes
  pub channel_strategy : Bytes
  pub allowed_channels : List Bytes
  pub args : List Bytes
  pub timeout : ℕ
  pub help : CommandHelp
  pub must_record : Bool
  pub runner : Runner

pub record CommandOpts : Type 0 where
  pub cmd : Bytes
  pub args : List Bytes
  pub allowed_groups : List Bytes
  pub auth_strategy : Bytes
  pub allowed_channels : List Bytes
  pub channel_strategy : Bytes
  pub handshake : Bool
  pub timeout : ℕ
  pub help : CommandHelp

abbrev pub second : ℕ
second = 10 ^ 9

abbrev pub default_command_timeout : ℕ
default_command_timeout = 60 * second

unfoldable pub get_auth_strategy : CommandOpts → Bytes
get_auth_strategy o = if o.auth_strategy == [] then str "none" else o.auth_strategy

unfoldable pub get_channel_strategy : CommandOpts → Bytes
get_channel_strategy o = if o.channel_strategy == [] then str "any" else o.channel_strategy

unfoldable pub get_timeout : CommandOpts → ℕ
get_timeout o = if eqb o.timeout 0 then default_command_timeout else o.timeout

-- A type that embeds `CommandOpts` has its getters.
unfoldable pub with_opts : Runner → CommandOpts → Command
unfolding get_auth_strategy get_channel_strategy get_timeout
with_opts runner o = record {
  cmd = o.cmd;
  has_handshake = o.handshake;
  auth_strategy = get_auth_strategy o;
  allowed_groups = o.allowed_groups;
  channel_strategy = get_channel_strategy o;
  allowed_channels = o.allowed_channels;
  args = o.args;
  timeout = get_timeout o;
  help = o.help;
  must_record = true;
  runner = runner;
}
