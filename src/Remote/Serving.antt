-- ===== src/Remote/Serving.antt =====
-- The loop of RegisterAgent: what happens to the jobs that are sent to an agent, and to its
-- commands when the loop ends.
use meeseeks_box.Base.{
  ◌≡◌, ◌≢◌, refl, ap, ◌∙◌, List, [], ◌∷◌, ◌++◌, none, some, Bytes, ℕ, Result, ok, err, ◌⊎◌, subst,
  sym, Error, eqb_refl,
}
use mathlib.Core.List.{append-nil}
use meeseeks_box.Remote.{Pipeline, FinishedJob, CommandRequest, channel_of, finish_job}
use meeseeks_box.Remote.Pipes.{
  SendError, sent_eof, sent_cancelled, sent_error, gone_message, serve, Close, of_open, of_blocked,
  of_closed, Pipe, takes, fails, End, closed_pipe, panicked, close_pipe, context_closes,
}
use meeseeks_box.Remote.RunningJobs.{finish-found, channel_of-without}

-- A pipe that gives requests that are sent, and goes on.
abbrev pub taken : List CommandRequest → Pipe → Pipe
taken [] rest = rest
taken (r ∷ reqs) rest = takes r (taken reqs rest)

abbrev pub gone : Bytes → CommandRequest → FinishedJob
gone agent req = record {
  job_id = req.job_id;
  agent_id = agent;
  content = [];
  err = gone_message agent;
}

serve-taken :
    (agent : Bytes) (reqs : List CommandRequest) (rest : Pipe) (p : Pipeline)
    → serve agent (taken reqs rest) p
      ≡ (reqs ++ (serve agent rest p).0, (serve agent rest p).1, (serve agent rest p).2)
unfolding serve
serve-taken agent [] rest p = refl
serve-taken agent (r ∷ reqs) rest p = ap (λ o. (r ∷ o.0, o.1, o.2)) (serve-taken agent reqs rest p)

gone-finished :
    (agent : Bytes) (req : CommandRequest) (p : Pipeline) (c : ℕ)
    → channel_of req.job_id p.running_jobs ≡ some c
    → ((finish_job (gone agent req) p).1.sent ≡ p.sent ++ (c, gone agent req) ∷ [])
      × (channel_of req.job_id (finish_job (gone agent req) p).1.running_jobs ≡ none)
gone-finished agent req p c waits =
    let done = finish-found (gone agent req) c p waits in
    (
      ap (λ o. o.1.sent) done,
      ap (λ o. channel_of req.job_id o.1.running_jobs) done
          ∙ channel_of-without req.job_id req.job_id p.running_jobs
          ∙ rw (eqb_refl req.job_id) refl,
    )

-- What a failed send leaves.
abbrev pub IsServed :
    Bytes
    → List CommandRequest
    → CommandRequest
    → SendError
    → Pipeline
    → ℕ
    → List CommandRequest × Pipeline × End
    → Type 0
IsServed agent reqs req s p c after =
    (after.0 ≡ reqs)
    × (s ≡ sent_eof
        → (after.1.sent ≡ p.sent ++ (c, gone agent req) ∷ [])
          × (channel_of req.job_id after.1.running_jobs ≡ none))
    × (s ≢ sent_eof → after.1 ≡ p)
    × (context_closes after.2 ≡ panicked)

closed-panicked : (close : Close) → context_closes (close_pipe close closed_pipe) ≡ panicked
unfolding context_closes close_pipe
closed-panicked of_open = refl
closed-panicked of_blocked = refl
closed-panicked of_closed = refl

failure :
    (agent : Bytes) (req : CommandRequest) (s : SendError) (close : Close) (p : Pipeline) (c : ℕ)
    → channel_of req.job_id p.running_jobs ≡ some c
    → IsServed agent [] req s p c (serve agent (fails req s close) p)
unfolding serve
failure agent req sent_eof close p c waits =
    (refl, λ e. gone-finished agent req p c waits, λ n. absurd (n refl), closed-panicked close)
failure agent req sent_cancelled close p c waits = (refl, λ e. cc, λ n. refl, closed-panicked close)
failure agent req sent_error close p c waits = (refl, λ e. cc, λ n. refl, closed-panicked close)

-- The requests before the first send that fails are sent, and no other. If that send gives EOF,
-- then the job of its request ends with an error on the channel that is waited on; if it fails in
-- another way, then no job is told. In every case the process panics then, at once or when the
-- goroutine of the agent's context closes the pipe again.
pub serve-failure :
    (agent : Bytes) (reqs : List CommandRequest) (req : CommandRequest) (s : SendError)
    (close : Close) (p : Pipeline) (c : ℕ)
    → channel_of req.job_id p.running_jobs ≡ some c
    → IsServed agent reqs req s p c (serve agent (taken reqs (fails req s close)) p)
serve-failure agent reqs req s close p c waits =
    let (sent, eof, other, ends) = failure agent req s close p c waits in
    subst (IsServed agent reqs req s p c) (sym (serve-taken agent reqs (fails req s close) p))
      (ap (λ l. reqs ++ l) sent ∙ append-nil reqs, eof, other, ends)

-- What RegisterAgent gives when it is over: an error, or the end of its loop.
abbrev pub IsOver : List CommandRequest → End → Result (List CommandRequest × End) → Type 0
IsOver reqs end r = ((e : Error) × (r ≡ err e)) ⊎ (r ≡ ok (reqs, end))

-- What was sent, and the end once the agent's context is done.
abbrev served : List CommandRequest × Pipeline × End → List CommandRequest × End
served (sent, p, end) = (sent, context_closes end)
