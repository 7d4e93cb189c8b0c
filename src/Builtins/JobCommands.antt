-- ===== src/Builtins/JobCommands.antt =====
-- The builtin commands on jobs: cancel, kill, jobs, audit, last, job and auditjob. The job that
-- a command is given is that of its own run.
use meeseeks_box.Base.{
  ℕ, Bool, true, not, List, [], ◌∷◌, Bytes, ◌==◌, if◌then◌else◌, Result, ok, err, errorf, Error,
  no_job_with_id, or_wrap, ◌>>=◌, ◌>>◌,
}
use meeseeks_box.Base.Decimal.{decimal}
use meeseeks_box.Model.{Job}
use meeseeks_box.Builtins.Services.{
  Services, Output, Reply, text, jobs_page, job_page, answer, refuse, Flags, parse_job_id, is_user,
  is_job_id, is_status_or_empty, multi_match, title,
}

-- `if len(jobs) == 0 { return "", missing }`, and `jobs[0]`
abbrev pub first_job : Error → List Job → Result Job
first_job missing [] = err missing
first_job missing (j ∷ _) = ok j

module _ {S : Type 0} (s : Services S) where
  -- The ID of the job that `cancel` may cancel: the user's own.
  abbrev pub cancel_target : Job → S → Result ℕ
  cancel_target job w = do
    id ← parse_job_id job.request.args
    j ← s.get_job id w
    if not (job.request.username == j.request.username) then err no_job_with_id else ok id

  abbrev pub kill_target : Job → S → Result ℕ
  kill_target job w = do id ← parse_job_id job.request.args; s.get_job id w; ok id

  -- Both end by calling the callback with the ID.
  abbrev pub signal : Result ℕ → S → Reply × S
  signal (err e) w = (refuse e, w)
  signal (ok id) w =
      (answer (text "Issued command cancellation to job %d" (decimal id ∷ [])), s.cancel id w)

  unfoldable pub cancel_job : Job → S → Reply × S
  cancel_job job w = signal (cancel_target job w) w

  unfoldable pub kill_job : Job → S → Reply × S
  kill_job job w = signal (kill_target job w) w

  unfoldable pub jobs : Flags → Job → S → Result Output
  jobs flags job w = do
    flags.parsed
    found ←
        s.find_jobs
          (record {
            limit = flags.limit;
            match =
                multi_match
                  (is_user job.request.username ∷ is_status_or_empty (title flags.status) ∷ []);
          })
          w
    ok (jobs_page found)

  abbrev pub is_user_or_empty : Bytes → Job → Bool
  is_user_or_empty user j = if user == [] then true else user == j.request.username

  unfoldable pub audit : Flags → Job → S → Result Output
  audit flags job w = do
    flags.parsed
    found ←
        s.find_jobs
          (record {
            limit = flags.limit;
            match =
                multi_match
                  (is_status_or_empty (title flags.status) ∷ is_user_or_empty flags.user ∷ []);
          })
          w
    ok (jobs_page found)

  unfoldable pub last : Job → S → Result Output
  last job w = do
    found ←
        or_wrap "failed to get the last job: %s" []
          (s.find_jobs (record { limit = 1; match = is_user job.request.username }) w)
    j ← first_job (errorf "no last command for current user" []) found
    ok (job_page j)

  unfoldable pub find_job : Job → S → Result Output
  find_job job w = do
    id ← parse_job_id job.request.args
    found ← or_wrap "failed to get the last job: %s" [] (
        s.find_jobs
          (record {
            limit = 1;
            match = multi_match (is_user job.request.username ∷ is_job_id id ∷ []);
          })
          w)
    j ← first_job (errorf "no last command for current user" []) found
    ok (job_page j)

  unfoldable pub audit_job : Job → S → Result Output
  audit_job job w = do
    id ← parse_job_id job.request.args
    found ←
        or_wrap "failed to get job %d: %s" (decimal job.id ∷ [])
          (s.find_jobs (record { limit = 1; match = is_job_id id }) w)
    j ← first_job (errorf "job not found" []) found
    ok (job_page j)

  unfoldable pub find_last_job_id_for_user : Bytes → S → Result ℕ
  find_last_job_id_for_user user w = do
    found ←
        or_wrap "failed to get the last job: %s" []
          (s.find_jobs (record { limit = 1; match = is_user user }) w)
    j ← first_job (errorf "no last command for current user" []) found
    ok j.id
