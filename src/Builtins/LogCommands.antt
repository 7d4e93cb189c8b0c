-- ===== src/Builtins/LogCommands.antt =====
-- The builtin commands on logs: logs, auditlogs, tail and head.
use meeseeks_box.Base.{
  ℕ, [], ◌∷◌, Bytes, Result, err, errorf, or_wrap, ◌>>=◌, no_job_id_as_argument,
}
use meeseeks_box.Base.Decimal.{decimal}
use meeseeks_box.Model.{Job, JobLog}
use meeseeks_box.Builtins.Services.{
  Services, Reply, reply_logs, Flags, parse_job_id, is_user, is_job_id, multi_match,
}
use meeseeks_box.Builtins.JobCommands.{first_job, find_last_job_id_for_user}

module _ {S : Type 0} (s : Services S) where
  abbrev pub own_logs : Job → S → Result JobLog
  own_logs job w = do
    id ← parse_job_id job.request.args
    found ← or_wrap "failed to find job with id %d: %s" (decimal id ∷ []) (
        s.find_jobs
          (record {
            limit = 1;
            match = multi_match (is_user job.request.username ∷ is_job_id id ∷ []);
          })
          w)
    j ←
        first_job (errorf "no job with id %d for user %s" (decimal id ∷ job.request.username ∷ []))
          found
    s.get_logs j.id w

  unfoldable pub logs : Job → S → Reply
  logs job w = reply_logs (own_logs job w)

  abbrev pub any_logs : Job → S → Result JobLog
  any_logs job w = do
    id ← parse_job_id job.request.args
    found ←
        or_wrap "failed to find job with id %d: %s" (decimal id ∷ [])
          (s.find_jobs (record { limit = 1; match = is_job_id id }) w)
    j ← first_job (errorf "there is no job %d" (decimal id ∷ [])) found
    s.get_logs j.id w

  unfoldable pub audit_logs : Job → S → Reply
  audit_logs job w = reply_logs (any_logs job w)

  -- `if err == errNoJobIDAsArgument`, the user's last job is looked up.
  abbrev pub or_last : Result ℕ → Bytes → S → Result ℕ
  or_last (err no_job_id_as_argument) user w = find_last_job_id_for_user s user w
  or_last r user w = r

  unfoldable pub tail : Flags → Job → S → Reply
  tail flags job w = reply_logs (do
    id ← or_last (parse_job_id flags.args) job.request.username w
    s.tail_logs id flags.limit w)

  unfoldable pub head : Flags → Job → S → Reply
  head flags job w = reply_logs (do
    id ← or_last (parse_job_id flags.args) job.request.username w
    s.head_logs id flags.limit w)
