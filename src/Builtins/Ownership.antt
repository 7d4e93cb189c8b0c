-- ===== src/Builtins/Ownership.antt =====
-- Users see and stop their own jobs: cancel, jobs, last, job and logs.
use meeseeks_box.Base.{
  ℕ, ◌≤◌, ◌≡◌, refl, sym, ◌∙◌, ap, Bool, true, List, [], ◌∷◌, Bytes, ◌==◌, eq_iff, arith, ok, Error,
  or_wrap-eq-ok, bind-eq-ok, All, length, ◌⊎◌, inl, inr, Result-cases, Bool-cases, eqb→eq,
}
use meeseeks_box.Base.Decimal.{decimal}
use meeseeks_box.Model.{Job}
use meeseeks_box.Builtins.Services.{
  Services, FindLaws, Output, text, jobs_page, job_page, answer, refuse, reply_logs, Flags,
  parse_job_id, is_user, is_job_id, multi_match,
}
use meeseeks_box.Builtins.JobCommands.{cancel_job, cancel_target, jobs, find_job, first_job}
use meeseeks_box.Builtins.LogCommands.{logs, own_logs}

first_job-eq-ok :
    (e : Error) (js : List Job) (j : Job)
    → first_job e js ≡ ok j
    → (rest : List Job) × (js ≡ j ∷ rest)
first_job-eq-ok e [] j h = cc
first_job-eq-ok e (i ∷ js) j h = (js, cc h)

is_user-eq : (u : Bytes) (j : Job) → is_user u j ≡ true → j.request.username ≡ u
unfolding is_user
is_user-eq u j h = (eq_iff j.request.username u).0 h

user_and-eq :
    (u : Bytes) (m : Job → Bool) (j : Job)
    → multi_match (is_user u ∷ m ∷ []) j ≡ true
    → (j.request.username ≡ u) × (m j ≡ true)
unfolding multi_match is_user
user_and-eq u m j h = ground (arith, eq_iff j.request.username u)

job_id-eq : (id : ℕ) (j : Job) → is_job_id id j ≡ true → j.id ≡ id
unfolding is_job_id
job_id-eq id j h = eqb→eq j.id id h

All-user :
    (u : Bytes) (m : Job → Bool) (js : List Job)
    → All (λ j. multi_match (is_user u ∷ m ∷ []) j ≡ true) js
    → All (λ j. j.request.username ≡ u) js
All-user u m [] h = tt
All-user u m (j ∷ js) (p, h) = ((user_and-eq u m j p).0, All-user u m js h)

module _ {S : Type 0} (s : Services S) where
  -- `cancel` is refused, with no effect, or it signals exactly the job of the given ID, which the
  -- user who asks started.
  pub cancel_job-cases :
      (job : Job) (w : S)
      → ((e : Error) × (cancel_job s job w ≡ (refuse e, w)))
        ⊎ ((id : ℕ) × (j : Job) × (parse_job_id job.request.args ≡ ok id)
            × (s.get_job id w ≡ ok j)
            × (j.request.username ≡ job.request.username)
            × (cancel_job s job w ≡ (
              answer (text "Issued command cancellation to job %d" (decimal id ∷ [])),
              s.cancel id w,
            )))
  unfolding cancel_job
  cancel_job-cases job w = elim (Result-cases (cancel_target s job w)) [
    | inr (e, refused) ↦ inl (e, rw refused refl)
    | inl (id, accepted) ↦
        let (n, parsed, h₁) = bind-eq-ok (parse_job_id job.request.args) _ accepted in
        let (j, found, h₂) = bind-eq-ok (s.get_job n w) _ h₁ in
        elim (Bool-cases (job.request.username == j.request.username)) [
          | inr other ↦ cc (rw other at h₂)
          | inl own ↦
              let same : n ≡ id = cc (rw own at h₂) in
              inr (
                id,
                j,
                rw same at parsed,
                rw same at found,
                sym ((eq_iff job.request.username j.request.username).0 own),
                rw accepted refl,
              )
        ]
  ]

module _ {S : Type 0} (s : Services S) (laws : FindLaws s) where
  -- `jobs` lists jobs of the user who asks, no more than the limit.
  pub jobs-own :
      (flags : Flags) (job : Job) (w : S) (o : Output)
      → jobs s flags job w ≡ ok o
      → (found : List Job) × (o ≡ jobs_page found)
        × All (λ j. j.request.username ≡ job.request.username) found
        × (length found ≤ flags.limit)
  unfolding jobs
  jobs-own flags job w o h =
      let (_, _, h₁) = bind-eq-ok flags.parsed _ h in
      let (found, searched, h₂) = bind-eq-ok _ _ h₁ in
      (
        found,
        cc h₂,
        All-user job.request.username _ found (laws.matches _ w found searched),
        laws.limited _ w found searched,
      )

  own_job :
      (job : Job) (w : S) (m : Job → Bool) (texts : List Bytes) (e : Error) (found : List Job)
      (j : Job)
      → s.find_jobs
          (record { limit = 1; match = multi_match (is_user job.request.username ∷ m ∷ []) })
          w
        ≡ ok found
      → first_job e found ≡ ok j
      → (j.request.username ≡ job.request.username) × (m j ≡ true)
  own_job job w m texts e found j searched first =
      let (rest, same) = first_job-eq-ok e found j first in
      let all = laws.matches _ w found searched in
      user_and-eq job.request.username m j (rw same at all).0

  -- `job` shows the job of the given ID, if it is one of the user's.
  pub find_job-own :
      (job : Job) (w : S) (o : Output)
      → find_job s job w ≡ ok o
      → (j : Job) × (o ≡ job_page j)
        × (parse_job_id job.request.args ≡ ok j.id)
        × (j.request.username ≡ job.request.username)
  unfolding find_job
  find_job-own job w o h =
      let (id, parsed, h₁) = bind-eq-ok _ _ h in
      let (found, searched, h₂) = bind-eq-ok _ _ h₁ in
      let (j, first, h₃) = bind-eq-ok _ _ h₂ in
      let (own, same) =
        own_job job w (is_job_id id) [] _ found j (or_wrap-eq-ok _ _ _ searched) first in
      (j, cc h₃, parsed ∙ ap (λ n. ok n) (sym (job_id-eq id j same)), own)

  -- `logs` answers with the logs of a job only if it is one of the user's and has the given ID;
  -- otherwise it is refused.
  pub logs-own :
      (job : Job) (w : S)
      → ((e : Error) × (logs s job w ≡ refuse e))
        ⊎ ((j : Job) × (parse_job_id job.request.args ≡ ok j.id)
            × (j.request.username ≡ job.request.username)
            × (logs s job w ≡ reply_logs (s.get_logs j.id w)))
  unfolding logs
  logs-own job w = elim (Result-cases (own_logs s job w)) [
    | inr (e, refused) ↦ inl (e, rw refused refl)
    | inl (l, shown) ↦
        let (id, parsed, h₁) = bind-eq-ok _ _ shown in
        let (found, searched, h₂) = bind-eq-ok _ _ h₁ in
        let (j, first, h₃) = bind-eq-ok _ _ h₂ in
        let (own, same) =
          own_job job w (is_job_id id) [] _ found j (or_wrap-eq-ok _ _ _ searched) first in
        inr (
          j,
          parsed ∙ ap (λ n. ok n) (sym (job_id-eq id j same)),
          own,
          ap reply_logs (shown ∙ sym h₃),
        )
  ]
