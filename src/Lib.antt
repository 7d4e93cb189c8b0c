-- ===== src/Lib.antt =====
-- Meeseeks Box, a chat bot that runs commands for the users of a team.
--
-- A message in the chat becomes a request (Chat), whose text is split into arguments (Parser).
-- The executor looks the command up, under its name or the user's alias of it (Commands), and
-- asks the authorization whether the user may run it there (Auth). The task is recorded as a job
-- and runs beside the others until it ends or is cancelled (Executor, Persistence). The builtin
-- commands show and cancel jobs, and keep API tokens and aliases (Builtins); the configured ones
-- run a process (Shell), and those of a remote agent are sent to it (Remote, Agent). What comes of
-- a request is rendered (Formatter, Templates) and posted (Chat). A configuration is loaded at the
-- start and when a signal asks for it (Config, Main).
--
-- + Base: Boolean tests, lists and results, Go's strings as lists of bytes (`Bytes`), maps as
--   association lists, strings.TrimSpace, numbers in decimal.
-- + Model: meeseeks/meeseeks.go. A Command is a record of what its getters give. A
--   time.Duration is its bit pattern below 2 ^ 64.
-- + Parser: text/parser/parser.go. `Scan` holds the variables of Parse and `step` is the body of
--   its loop; escapes, quotes and blanks are handled in the order of the source.
-- + Auth: auth/auth.go. `Auth` holds the package's variables; `configure`, `check`,
--   `check_user_in_group`, `is_known_user` and `get_groups` are the functions of those names.
-- + Commands: commands/commands.go. `Registry` is the package's map, and `register` gives the
--   error and the map that it leaves. The mutex makes each call one step.
-- + Builtins: commands/builtins/builtins.go. Builtins.Table is the table of the commands and
--   LoadBuiltins; each Execute is a function over `Services`, an interface of the stores, in
--   Builtins.JobCommands, LogCommands and OtherCommands. A command answers with the name of a
--   page and what it is rendered with. Builtins.Flags parses its flags, as
--   the package flag of Go 1.12 does, and Builtins.Dispatch selects the Execute of a name.
-- + Executor: meeseeks/executor/executor.go. `admit` is the body of Run, `start` and `finish` are
--   the two ends of a goroutine of processTasks, and `Step` says in which orders they, and
--   cancellations and registrations, may come. Contexts are numbered.
--   Executor.Closing is Shutdown, beside them.
-- + Chat: slack/slack.go. `listen` is the body of Listen for one message. Chat.Links has the two
--   regular expressions of the links, and `client`, what the API asks of the chat.
-- + Api: api/api.go. `handle_post_token` is the handler of a post with a token.
-- + Remote: remote/server/command_pipeline.go. `register_agent` and `deregister_agent_commands`
--   are the two ends of an agent's connection, and `Pipeline` holds the jobs that are waited
--   for. Remote.Pipes has `serve`, the loop over the agent's pipe, a `Pipe` of what comes out of it,
--   with the closes of the pipe and their panics.
-- + Agent: remote/agent. The commands that an agent offers, `run`, the loop of Run over what its
--   calls of gRPC give, and `run_command`, whose call of Finish may be lost. Agent.Logs is its log
--   writer and the server's half of it, remote/server/log_writer.go: what was sent is on its way,
--   and is received in any order, or not, by `Delivery`.
-- + Shell: commands/shell/shell.go. `execute` is over a `Process`, what os/exec gives, and over
--   `LogWriter`, the interface of the logs; Shell.Recorded and Shell.Logged are over
--   the writer of Persistence.Logs.
-- + Templates, Formatter: text/template/template.go and text/formatter/formatter.go. What is read
--   of text/template is `Engine`. Executor.Replying makes the replies of the executor, and
--   `Chat.reply` posts them.
-- + Config: config/config.go. `World` holds the variables that a configuration is loaded into;
--   Persistence.Opening is the configuration of the database, in persistence/db/db.go.
-- + Main: main.go. `launch` gives what the packages hold behind it, and `wait_for_signals` is the
--   loop over the signals, each with what the configuration file reads as then. Main.Arguments is
--   parseArgs.
-- + Http: http/http.go, the services of the HTTP server and their shutdown.
-- + Persistence.Providers: persistence/persistence.go, the replacement of services, which
--   Agent.Connecting uses.
-- + Persistence.Bolt: what is used of bbolt, an interface with laws from its documentation, and
--   of JSON; Persistence.Bolt.Memory is an instance of both.
-- + Persistence.Db: persistence/db/db.go, the keys of numbered records and transactions.
-- + Persistence.Jobs: persistence/jobs/jobs.go. The state is the two buckets, each there or not.
--   The clock's readings are arguments, and so are the keys that a cursor gives while
--   `fail_running_jobs` deletes from its bucket, which bbolt leaves open.
-- + Persistence.Tokens: persistence/tokens/tokens.go. The random token is an argument.
-- + Persistence.Aliases: persistence/aliases/aliases.go, a bucket for each user.
-- + Persistence.Logs: persistence/logs/local/logs.go. A job's bucket is its lines and, within
--   it, the bucket of its error, for which a cursor gives nil.
-- + Tests: runs of these definitions on concrete inputs.
--
-- Loops are structural recursion on the lists that the source ranges over, or that the calls of a
-- library give, so that no fuel is needed. IDs and sequences wrap at 2 ^ 64, as the source's uint64
-- does. A limit that a user gives is a number: a negative one does what 0 does.
--
-- Not modelled: the rendering of the builtins' pages; the connections to the chat and to gRPC, and
-- the listening of the HTTP server, which are input and output of libraries; the metrics; the test
-- doubles; and the generated protocol.
pub mod Agent
pub mod Api
pub mod Auth
pub mod Base
pub mod Builtins
pub mod Chat
pub mod Commands
pub mod Config
pub mod Executor
pub mod Formatter
pub mod Http
pub mod Main
pub mod Model
pub mod Parser
pub mod Persistence
pub mod Remote
pub mod Shell
pub mod Templates
pub mod Tests
