-- ===== src/Builtins/Dispatch.antt =====
-- What each builtin command does with its job: the Execute of its type, with the flags that its
-- arguments hold, and what it reads of the other packages.
use meeseeks_box.Base.{List, [], ◌∷◌, Option, none, some, Bytes, str, Error}
use meeseeks_box.Base.Assoc.{Assoc, lookup}
use meeseeks_box.Model.{Job, Command}
use meeseeks_box.Builtins.Services.{Services, Output, text, Reply, answer, reply_of}
use meeseeks_box.Builtins.Flags.{
  help_flags, jobs_flags, audit_flags, tail_flags, head_flags, tokens_flags,
}
use meeseeks_box.Builtins.JobCommands.{cancel_job, kill_job, jobs, audit, last, find_job, audit_job}
use meeseeks_box.Builtins.LogCommands.{logs, audit_logs, tail, head}
use meeseeks_box.Builtins.OtherCommands.{
  new_api_token, revoke_api_token, list_api_tokens, new_alias, delete_alias, get_aliases, groups,
  help,
}

-- The variables of package version that the build sets, and the name.
pub record Version : Type 0 where
  pub version : Bytes
  pub commit : Bytes
  pub date : Bytes

-- What the commands read: auth.GetGroups, commands.All, the builtins, the version, and the text of
-- an error.
pub record Surroundings : Type 0 where
  pub groups : Assoc (List Bytes)
  pub registered : Assoc (Option Command)
  pub builtins : Assoc (Option Command)
  pub version : Version
  pub show : Error → Bytes

abbrev application_name : Bytes
application_name = str "meeseeks-box"

unfoldable pub version : Version → Output
version v =
    text "%s version %s, commit %s, built on %s"
      (application_name ∷ v.version ∷ v.commit ∷ v.date ∷ [])

module _ {S : Type 0} (s : Services S) (around : Surroundings) where
  abbrev pub Execute : Type 0
  Execute = Job → S → Reply × S

  -- A command that only reads.
  abbrev pub reads : (Job → S → Reply) → Execute
  reads show job w = (show job w, w)

  abbrev pub executes : Assoc Execute
  executes =
      (str "version", reads (λ job w. answer (version around.version)))
      ∷ (
        str "help",
        reads (λ job w.
            reply_of (help around.builtins around.registered (help_flags job.request.args))),
      )
      ∷ (str "groups", reads (λ job w. reply_of (groups around.groups)))
      ∷ (str "jobs", reads (λ job w. reply_of (jobs s (jobs_flags job.request.args) job w)))
      ∷ (str "job", reads (λ job w. reply_of (find_job s job w)))
      ∷ (str "audit", reads (λ job w. reply_of (audit s (audit_flags job.request.args) job w)))
      ∷ (str "auditjob", reads (λ job w. reply_of (audit_job s job w)))
      ∷ (str "auditlogs", reads (audit_logs s))
      ∷ (str "last", reads (λ job w. reply_of (last s job w)))
      ∷ (str "tail", reads (λ job w. tail s (tail_flags job.request.args) job w))
      ∷ (str "head", reads (λ job w. head s (head_flags job.request.args) job w))
      ∷ (str "logs", reads (logs s))
      ∷ (str "cancel", cancel_job s)
      ∷ (str "kill", kill_job s)
      ∷ (str "token-new", new_api_token s)
      ∷ (
        str "tokens",
        reads (λ job w. reply_of (list_api_tokens s (tokens_flags job.request.args) w)),
      )
      ∷ (str "token-revoke", revoke_api_token s)
      ∷ (str "alias", new_alias s around.show)
      ∷ (str "unalias", delete_alias s around.show)
      ∷ (str "aliases", reads (get_aliases s around.show))
      ∷ []

  abbrev pub executed : Option Execute → Job → S → Option (Reply × S)
  executed none job w = none
  executed (some run) job w = some (run job w)

  -- The Execute of the type that the name stands for; there is no other type.
  unfoldable pub execute : Bytes → Job → S → Option (Reply × S)
  execute name job w = executed (lookup name executes) job w
