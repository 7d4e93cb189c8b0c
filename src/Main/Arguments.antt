-- ===== src/Main/Arguments.antt =====
-- parseArgs of main.go: what the flags of the program give. The values that package flag leaves
-- are an argument, and so are the two variables of the environment.
use meeseeks_box.Base.{
  ◌≡◌, refl, Bool, false, ◌⊎◌, inl, inr, [], Option, none, some, Bytes, str, ◌++◌, ◌==◌,
  if◌then◌else◌, Bool-cases,
}
use meeseeks_box.Main.{execution_mode}

pub record FlagValues : Type 0 where
  pub config : Bytes
  pub debug : Bool
  pub debug_slack : Bool
  pub version : Bool
  pub http_address : Bytes
  pub api_path : Bytes
  pub metrics_path : Bytes
  pub stealth : Bool
  pub slack_token : Bytes
  pub agent_of : Bytes
  pub grpc_address : Bytes
  pub with_grpc_server : Bool
  pub grpc_security_mode : Bytes
  pub grpc_cert_path : Bytes
  pub grpc_key_path : Bytes

-- without an argument
unfoldable pub default_values : Bytes → Bytes → FlagValues
default_values home slack_token = record {
  config = home ++ str "/.meeseeks.yaml";
  debug = false;
  debug_slack = false;
  version = false;
  http_address = str ":9696";
  api_path = str "/message";
  metrics_path = str "/metrics";
  stealth = false;
  slack_token = slack_token;
  agent_of = [];
  grpc_address = str ":9697";
  with_grpc_server = false;
  grpc_security_mode = str "insecure";
  grpc_cert_path = [];
  grpc_key_path = [];
}

pub record Args : Type 0 where
  pub config_file : Bytes
  pub debug_mode : Bool
  pub stealth_mode : Bool
  pub debug_slack : Bool
  pub address : Bytes
  pub api_path : Bytes
  pub metrics_path : Bytes
  pub slack_token : Bytes
  pub execution_mode : Bytes
  pub agent_of : Bytes
  pub grpc_server_address : Bytes
  pub grpc_server_enabled : Bool
  pub grpc_security_mode : Bytes
  pub grpc_cert_path : Bytes
  pub grpc_key_path : Bytes

abbrev pub args_of : FlagValues → Args
args_of v = record {
  config_file = v.config;
  debug_mode = v.debug;
  stealth_mode = v.stealth;
  debug_slack = v.debug_slack;
  slack_token = v.slack_token;
  address = v.http_address;
  api_path = v.api_path;
  metrics_path = v.metrics_path;
  agent_of = v.agent_of;
  grpc_server_address = v.grpc_address;
  grpc_server_enabled = v.with_grpc_server;
  grpc_security_mode = v.grpc_security_mode;
  grpc_cert_path = v.grpc_cert_path;
  grpc_key_path = v.grpc_key_path;
  execution_mode = execution_mode v.agent_of;
}

-- `none` is the exit behind the printing of the version.
unfoldable pub parse_args : FlagValues → Option Args
parse_args v = if v.version then none else some (args_of v)

-- The program is started as a server or as an agent, so that launch always knows the mode.
pub execution_mode-known :
    (v : FlagValues)
    → ((args_of v).execution_mode ≡ str "server") ⊎ ((args_of v).execution_mode ≡ str "agent")
unfolding execution_mode
execution_mode-known v = elim (Bool-cases (v.agent_of == [])) [
  | inl alone ↦ inl (rw alone refl)
  | inr agent ↦ inr (rw agent refl)
]
