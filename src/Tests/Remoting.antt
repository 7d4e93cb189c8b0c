-- ===== src/Tests/Remoting.antt =====
-- An agent that comes, runs a job and leaves (remote/server/command_pipeline.go).
use meeseeks_box.Base.{some, ◌≡◌, refl, false, [], ◌∷◌, str}
use meeseeks_box.Remote.{
  RemoteCommandConfig, AgentConfiguration, Pipeline, CommandRequest, channel_of,
}
use meeseeks_box.Remote.Pipes.{sent_eof, of_open, fails, serve}
use meeseeks_box.Remote.Serving.{serve-failure, taken, IsServed}

abbrev config : RemoteCommandConfig
config = record {
  timeout = 60;
  auth_strategy = str "any";
  allowed_groups = [];
  channel_strategy = [];
  allowed_channels = [];
  has_handshake = false;
  help = record { summary = []; args = [] };
}

abbrev agent : AgentConfiguration
agent = record { agent_id = str "a1"; commands = (str "deploy", config) ∷ [] }

abbrev pub sent_job : CommandRequest
sent_job = record {
  job_id = 2;
  command = str "deploy";
  args = [];
  is_im = false;
  channel = str "ops";
  channel_id = str "C1";
  channel_link = str "<#C1|ops>";
  user_id = str "U2";
  user_link = str "<@U2>";
  username = str "eve";
}

abbrev pub pipeline : Pipeline
pipeline = record { running_jobs = (2, 0) ∷ []; next_channel = 1; sent = []; errors = [] }

two_waits : channel_of 2 pipeline.running_jobs ≡ some 0
unfolding channel_of
two_waits = refl

serve-failure_example :
    IsServed
      (str "a1")
      (sent_job ∷ [])
      sent_job
      sent_eof
      pipeline
      0
      (serve (str "a1") (taken (sent_job ∷ []) (fails sent_job sent_eof of_open)) pipeline)
serve-failure_example =
    serve-failure (str "a1") (sent_job ∷ []) sent_job sent_eof of_open pipeline 0 two_waits
