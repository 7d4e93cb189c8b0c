-- ===== src/Tests/Builtins.antt =====
-- Builtin commands over a jobs store in memory (commands/builtins/builtins.go).
use meeseeks_box.Base.{
  true, ◌≡◌, refl, ◌==◌, ℕ, false, List, [], ◌∷◌, Bytes, str, Option, some, ok, Error, ◌⊎◌,
  contains,
}
use meeseeks_box.Base.Assoc.{Assoc, Distinct, lookup, insert}
use meeseeks_box.Base.Decimal.{decimal, parse_uint}
use meeseeks_box.Model.{Job}
use meeseeks_box.Auth.{configure, check, check_user_in_group}
use meeseeks_box.Auth.Decision.{InAllowedGroup}
use meeseeks_box.Base.Trim.{trim_space}
use meeseeks_box.Commands.{CommandHub, Registry, register, kind_builtin_command}
use meeseeks_box.Persistence.Bolt.{create_if_missing, put_pair}
use meeseeks_box.Persistence.Bolt.Memory.{plain}
use meeseeks_box.Persistence.Jobs.{create, get, find, fail}
use meeseeks_box.Persistence.Jobs.Search.{find-matches}
use meeseeks_box.Builtins.Services.{
  Services, FindLaws, answer, refuse, text, jobs_page, job_page, Flags, parse_job_id, is_user,
  is_job_id, multi_match, is_status_or_empty, title,
}
use meeseeks_box.Builtins.JobCommands.{cancel_job, jobs, find_job}
use meeseeks_box.Builtins.Ownership.{cancel_job-cases}
use meeseeks_box.Builtins.Table.{
  commands, registrations, load_builtins, new_cancel_job_command, new_kill_job_command, admin_group,
}
use meeseeks_box.Builtins.Access.{admin_commands-check}
use meeseeks_box.Tests.Access.{request}
use meeseeks_box.Tests.Recording.{jb, rb, Db, one, job}

abbrev pub services : Services (Option Db)
services = record {
  get_job = λ id w. get jb rb (plain Job) id w;
  find_jobs = λ f w. find jb rb (plain Job) f w;
  get_logs = λ id w. ok (record { error = []; output = str "done" });
  head_logs = λ id limit w. ok (record { error = []; output = [] });
  tail_logs = λ id limit w. ok (record { error = []; output = [] });
  create_token = λ user channel command w. (str "t1", ok tt, w);
  revoke_token = λ id w. (ok tt, w);
  find_tokens = λ f w. ok [];
  create_alias = λ user alias command args w. (ok tt, w);
  remove_alias = λ user alias w. (ok tt, w);
  list_aliases = λ user w. ok [];
  cancel = λ id w. (fail jb rb (plain Job) 30 id w).1;
}

pub services-FindLaws : FindLaws services
services-FindLaws = record {
  matches = λ f w js h. (find-matches jb rb (plain Job) f w js h).0;
  limited = λ f w js h. (find-matches jb rb (plain Job) f w js h).1;
}

abbrev pub asking : Job
asking = record job { id = 7; request = record request { args = str "1" ∷ [] } }

cancel_job-cases_example :
    ((e : Error) × (cancel_job services asking (some one) ≡ (refuse e, some one)))
    ⊎ ((id : ℕ) × (j : Job) × (parse_job_id asking.request.args ≡ ok id)
        × (services.get_job id (some one) ≡ ok j)
        × (j.request.username ≡ asking.request.username)
        × (cancel_job services asking (some one) ≡ (
          answer (text "Issued command cancellation to job %d" (decimal id ∷ [])),
          services.cancel id (some one),
        )))
cancel_job-cases_example = cancel_job-cases services asking (some one)

abbrev flags : Flags
flags = record {
  parsed = ok tt;
  args = [];
  all = false;
  limit = 5;
  status = str "running";
  user = [];
  channel = [];
  command = [];
}

jobs-run : jobs services flags asking (some one) ≡ ok (jobs_page (job ∷ []))
unfolding jobs find create create_if_missing put_pair multi_match is_user is_status_or_empty title
    ◌==◌
jobs-run = refl

find_job-run : find_job services asking (some one) ≡ ok (job_page job)
unfolding find_job find create create_if_missing put_pair multi_match is_user is_job_id parse_job_id
    parse_uint ◌==◌
find_job-run = refl

abbrev admins : Assoc (List Bytes)
admins = (str "admin", str "eve" ∷ []) ∷ []

admins-Distinct : Distinct admins
unfolding lookup
admins-Distinct = (refl, tt)

abbrev kill_hub : CommandHub
kill_hub = record { kind = kind_builtin_command; cmd = some new_kill_job_command }

-- What a configuration registered, before the builtins.
abbrev configured : Registry
configured = (str "deploy", kill_hub) ∷ []

configured-Distinct : Distinct configured
unfolding lookup
configured-Distinct = (refl, tt)

builtins-accepted :
    (load_builtins (some new_cancel_job_command) (some new_kill_job_command) configured).0 ≡ ok tt
unfolding load_builtins registrations register commands lookup ◌==◌ trim_space
builtins-accepted = refl

kill-loaded :
    lookup
      (str "kill")
      (load_builtins (some new_cancel_job_command) (some new_kill_job_command) configured).1
    ≡ some kill_hub
unfolding load_builtins registrations register commands lookup ◌==◌ trim_space insert
kill-loaded = refl

kill-allowed : check (configure admins) request new_kill_job_command ≡ ok tt
unfolding check configure ◌==◌ lookup check_user_in_group insert
kill-allowed = refl

admin_commands-check_example : InAllowedGroup admins request.username (admin_group ∷ [])
admin_commands-check_example =
    admin_commands-check admins request configured (str "kill") kill_hub new_kill_job_command
      admins-Distinct configured-Distinct (unfold contains ◌==◌ in refl) builtins-accepted
      kill-loaded refl kill-allowed

one-found :
    find jb rb (plain Job) (record { limit = 5; match = λ j. true }) (some one) ≡ ok (job ∷ [])
unfolding find create create_if_missing put_pair
one-found = refl
