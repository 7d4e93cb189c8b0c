-- ===== src/Builtins/Services.antt =====
-- What the builtin commands reach: the stores, and the executor's cancellation. A command's flags
-- are the variables that its FlagSet leaves.
use meeseeks_box.Base.{
  ℕ, ◌≤◌, ◌≡◌, String, not, Bool, true, false, List, [], ◌∷◌, Option, none, some, Bytes, ◌==◌, eqb,
  in_range, if◌then◌else◌, Result, ok, err, wrapf, Error, no_job_id_as_argument, ◌&&◌, ◌||◌, leb,
  ◌-◌, All, length,
}
use meeseeks_box.Base.Decimal.{parse_uint}
use meeseeks_box.Model.{
  Job, JobFilter, JobLog, get_error, ApiToken, ApiTokenFilter, Alias, CommandHelp, Command,
}

-- The services behind `persistence`, over their state, and the callback of cancel and kill.
pub record Services (S : Type 0) : Type 0 where
  pub get_job : ℕ → S → Result Job
  pub find_jobs : JobFilter → S → Result (List Job)
  pub get_logs : ℕ → S → Result JobLog
  pub head_logs : ℕ → ℕ → S → Result JobLog
  pub tail_logs : ℕ → ℕ → S → Result JobLog
  pub create_token : Bytes → Bytes → Bytes → S → Bytes × Result (Unit {0}) × S
  pub revoke_token : Bytes → S → Result (Unit {0}) × S
  pub find_tokens : ApiTokenFilter → S → Result (List ApiToken)
  pub create_alias : Bytes → Bytes → Bytes → List Bytes → S → Result (Unit {0}) × S
  pub remove_alias : Bytes → Bytes → S → Result (Unit {0}) × S
  pub list_aliases : Bytes → S → Result (List Alias)
  pub cancel : ℕ → S → S

-- Jobs().Find gives matches only, and no more than the limit.
pub record FindLaws {S : Type 0} (s : Services S) : Type 0 where
  pub matches :
      (f : JobFilter) (w : S) (jobs : List Job)
      → s.find_jobs f w ≡ ok jobs
      → All (λ j. f.match j ≡ true) jobs
  pub limited :
      (f : JobFilter) (w : S) (jobs : List Job) → s.find_jobs f w ≡ ok jobs → length jobs ≤ f.limit

-- The text that a command answers with: a template and what it is rendered with, or a text.
pub data Output : Type 0 where
  nothing : Output
  plain : Bytes → Output
  text : String → List Bytes → Output
  jobs_page : List Job → Output
  job_page : Job → Output
  tokens_page : List ApiToken → Output
  aliases_page : List Alias → Output
  groups_page : List (Bytes × List Bytes) → Output
  help_list : List (Bytes × Option Command) → Output
  help_page : Bytes → CommandHelp → Output

pub record Reply : Type 0 where
  pub output : Output
  pub error : Option Error

abbrev pub answer : Output → Reply
answer o = record { output = o; error = none }

abbrev pub refuse : Error → Reply
refuse e = record { output = nothing; error = some e }

-- `return "", err`, or the text and nil
abbrev pub reply_of : Result Output → Reply
reply_of (ok o) = answer o
reply_of (err e) = refuse e

-- `return jobLogs.Output, jobLogs.GetError()`
abbrev pub reply_logs : Result JobLog → Reply
reply_logs (err e) = refuse e
reply_logs (ok l) = record { output = plain l.output; error = get_error l }

-- The values of the flags that a command declares, `parsed` being what `Parse` returned and
-- `args` the arguments behind the flags. A negative limit does what 0 does.
pub record Flags : Type 0 where
  pub parsed : Result (Unit {0})
  pub args : List Bytes
  pub all : Bool
  pub limit : ℕ
  pub status : Bytes
  pub user : Bytes
  pub channel : Bytes
  pub command : Bytes

unfoldable pub parse_job_id : List Bytes → Result ℕ
parse_job_id [] = err no_job_id_as_argument
parse_job_id (arg ∷ rest) = elim (parse_uint arg) [
  | ok id ↦ ok id
  | err e ↦ err (wrapf "invalid job ID %s: %s" (arg ∷ []) e)
]

unfoldable pub is_user : Bytes → Job → Bool
is_user username j = j.request.username == username

unfoldable pub is_job_id : ℕ → Job → Bool
is_job_id id j = eqb j.id id

unfoldable pub is_status_or_empty : Bytes → Job → Bool
is_status_or_empty status j = if status == [] then true else j.status == status

-- `jobsMultiMatch`, `apiTokenMultiMatch`
unfoldable pub multi_match : {A : Type 0} → List (A → Bool) → A → Bool
multi_match [] a = true
multi_match (matcher ∷ matchers) a = if not (matcher a) then false else multi_match matchers a

-- A letter, a digit, an underscore or a byte outside ASCII does not end a word.
is_word_byte : ℕ → Bool
is_word_byte c = in_range 97 122 c || in_range 65 90 c || in_range 48 57 c || eqb c 95 || leb 128 c

title_from : Bool → Bytes → Bytes
unfolding is_word_byte
title_from inside [] = []
title_from inside (c ∷ s) =
    let rest = title_from (is_word_byte c) s in
    if not inside && in_range 97 122 c then (c - 32) ∷ rest else c ∷ rest

-- strings.Title of an ASCII text; its other bytes stay as they are.
unfoldable pub title : Bytes → Bytes
unfolding title_from
title s = title_from false s
