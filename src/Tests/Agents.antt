-- ===== src/Tests/Agents.antt =====
-- An agent that offers a command, receives a job, runs a shell and tells the server
-- (remote/agent, commands/shell/shell.go).
use meeseeks_box.Base.{
  ℕ, ◌+◌, ◌*◌, ◌%◌, ◌^◌, ◌≡◌, ◌≢◌, refl, ◌==◌, eqb, true, false, [], ◌∷◌, ◌++◌, none, some, str, ok,
  err, fault, arith, if◌then◌else◌, alias_not_found,
}
use meeseeks_box.Base.Assoc.{lookup, Distinct}
use meeseeks_box.Base.Trim.{trim_space}
use meeseeks_box.Model.{
  Request, Job, Command, CommandOpts, remote, second, default_command_timeout, shell, with_opts,
}
use meeseeks_box.Auth.{Auth, check}
use meeseeks_box.Commands.{
  all_commands, Registry, CommandHub, kind_local_command, kind_remote_command, register,
}
use meeseeks_box.Remote.{
  AgentConfiguration, register_agent, remote_registrations, CommandRequest, command_request,
  CommandFinish, start_job, finished_of, Pipeline, channel_of,
}
use meeseeks_box.Agent.{
  Backoff, BackoffLaws, command, unavailable, cancelled, stream, quits, waits, run,
  create_agent_configuration, create_remote_commands, remote_command, Machine, run_command, arrives,
  lost,
}
use meeseeks_box.Agent.Offering.{register_agent-offers}
use meeseeks_box.Agent.Loop.{run-stream, run-refusals, refusals, commands}
use meeseeks_box.Agent.Finishing.{run_command-finishes, IsTold}
use meeseeks_box.Tests.Registering.{registry, registry-Distinct, registry-IsWellFormed}
use meeseeks_box.Tests.Remoting.{pipeline, sent_job}

abbrev opts : CommandOpts
opts = record {
  cmd = str "/bin/deploy";
  args = str "-v" ∷ [];
  allowed_groups = [];
  auth_strategy = str "any";
  allowed_channels = [];
  channel_strategy = [];
  handshake = true;
  timeout = 60 * second;
  help = record { summary = []; args = [] };
}

abbrev deploy : Command
deploy = with_opts shell opts

abbrev deploy_hub : CommandHub
deploy_hub = record { kind = kind_local_command; cmd = some deploy }

abbrev own : Registry
own = (str "deploy", deploy_hub) ∷ []

abbrev offer : AgentConfiguration
offer = record { agent_id = str "a1"; commands = (str "deploy", remote_command deploy) ∷ [] }

own-Distinct : Distinct own
unfolding lookup
own-Distinct = (refl, tt)

offered : create_agent_configuration (str "a1") own ≡ some offer
unfolding create_agent_configuration create_remote_commands all_commands
offered = refl

accepted : (register_agent offer registry).0 ≡ ok tt
unfolding register_agent remote_registrations register lookup ◌==◌ trim_space
accepted = refl

has_deploy : lookup (str "deploy") own ≡ some deploy_hub
unfolding lookup ◌==◌
has_deploy = refl

register_agent-offers_example :
    (cmd : Command) × (there : Command) × (some deploy ≡ some cmd)
    × (lookup (str "deploy") (register_agent offer registry).1
        ≡ some (record { kind = kind_remote_command; cmd = some there }))
    × (there.runner ≡ remote (str "a1"))
    × (there.has_handshake ≡ false)
    × (there.timeout ≡ (
        if eqb (cmd.timeout * second % 2 ^ 64) 0
        then default_command_timeout
        else cmd.timeout * second % 2 ^ 64))
    × ((a : Auth) (req : Request) → check a req there ≡ check a req cmd)
register_agent-offers_example =
    register_agent-offers (str "a1") (str "deploy") own registry offer deploy_hub own-Distinct
      registry-Distinct offered accepted has_deploy

-- The count of a backoff's attempts.
abbrev counter : Backoff ℕ
counter = record { fresh = 0; attempt = λ n. n; duration = λ n. n + 1; reset = λ n. 0 }

counter-BackoffLaws : BackoffLaws counter
counter-BackoffLaws = record {
  attempt-fresh = refl;
  attempt-duration = λ s. refl;
  attempt-reset = λ s. refl;
}

run-stream_example :
    (run counter (stream (commands (sent_job ∷ []) (unavailable ∷ [])) ∷ [])
      ≡ ((sent_job ∷ []) ++ (run counter []).0, (run counter []).1))
    × (((c : CommandRequest) → cancelled ≢ command c)
        → cancelled ≢ unavailable
        → run counter (stream (commands (sent_job ∷ []) (cancelled ∷ [])) ∷ [])
          ≡ (sent_job ∷ [], quits))
run-stream_example = run-stream counter counter-BackoffLaws (sent_job ∷ []) cancelled [] []

run-refusals_example :
    (run counter (refusals 3 []) ≡ ([], waits))
    × (run counter (refusals 3 (stream (command sent_job ∷ []) ∷ []))
        ≡ run counter (stream (command sent_job ∷ []) ∷ []))
    × (run counter (refusals 12 []) ≡ ([], quits))
run-refusals_example =
    run-refusals counter counter-BackoffLaws 3 (command sent_job ∷ []) [] (omega arith)

abbrev job : Job
job = record {
  id = 3;
  request = record {
    command = str "help";
    args = str "-all" ∷ [];
    username = str "eve";
    user_id = str "U2";
    user_link = str "<@U2>";
    channel = str "ops";
    channel_id = str "C1";
    channel_link = str "<#C1|ops>";
    is_im = false;
  };
  start_time = 5;
  end_time = 0;
  status = str "Running";
}

abbrev machine : Machine
machine = record {
  execute = λ cmd j. (str "partly", some (fault (str "exit 1")));
  now = 7;
  alias = λ rq. err alias_not_found;
  error_text = λ e. str "exit 1";
}

run_command-finishes_example :
    let started = (start_job 3 pipeline).1 in
    ((fin : CommandFinish) × (q : Pipeline) × (run_command machine arrives
          (str "a1")
          registry
          (command_request job)
          started
        ≡ some q)
      × (q.sent ≡ pipeline.sent ++ ((start_job 3 pipeline).0, finished_of fin) ∷ [])
      × (channel_of 3 q.running_jobs ≡ none)
      × IsTold machine registry job fin)
    × (run_command machine lost (str "a1") registry (command_request job) started ≡ some started)
    × (channel_of 3 started.running_jobs ≡ some (start_job 3 pipeline).0)
run_command-finishes_example =
    run_command-finishes machine (str "a1") registry job alias_not_found pipeline
      registry-IsWellFormed refl
