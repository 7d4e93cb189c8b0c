-- ===== src/Remote/Pipes.antt =====
-- The loop of RegisterAgent over its pipe, with the goroutine of the agent's context
-- (remote/server/command_pipeline.go).
use meeseeks_box.Base.{List, [], ◌∷◌, ◌++◌, Bytes, str, Result, ok, err, wrapf}
use meeseeks_box.Commands.{Registry}
use meeseeks_box.Remote.{
  AgentConfiguration, register_agent, deregister_agent_commands, CommandRequest, Pipeline,
  finish_job,
}

-- What a send of a request to the agent gives when it fails: io.EOF, or the error of a status.
pub data SendError : Type 0 where
  sent_eof sent_cancelled sent_error : SendError

-- A close of the pipe: it is open, a sender is blocked on it, or it is closed already.
pub data Close : Type 0 where
  of_open of_blocked of_closed : Close

-- What the loop of RegisterAgent sees of its pipe: a request that is sent to the agent, one whose
-- send fails, behind which the loop closes the pipe, the close by the goroutine of the agent's
-- context, or nothing more.
pub data Pipe : Type 0 where
  takes : CommandRequest → Pipe → Pipe
  fails : CommandRequest → SendError → Close → Pipe
  closes : Close → Pipe
  nothing : Pipe

-- How the loop ends: its pipe was closed for it, it closed the pipe itself, the process panics, or
-- it still waits.
pub data End : Type 0 where
  drained closed_pipe panicked waiting : End

abbrev pub gone_message : Bytes → Bytes
gone_message agent =
    str "remote agent " ++ (agent ++ str " erred out with EOF, it seems to be gone")

-- close panics on a closed channel, and so does a sender that is blocked on a channel that closes.
unfoldable pub close_pipe : Close → End → End
close_pipe of_open end = end
close_pipe of_blocked end = panicked
close_pipe of_closed end = panicked

-- The loop of RegisterAgent: the requests that were sent to the agent, the state, and its end.
unfoldable pub serve : Bytes → Pipe → Pipeline → List CommandRequest × Pipeline × End
unfolding close_pipe
serve agent (takes req rest) p = let (sent, p', end) = serve agent rest p in (req ∷ sent, p', end)
serve agent (fails req sent_eof close) p = (
  [],
  (finish_job
      (record { job_id = req.job_id; agent_id = agent; content = []; err = gone_message agent })
      p).1,
  close_pipe close closed_pipe,
)
serve agent (fails req sent_cancelled close) p = ([], p, close_pipe close closed_pipe)
serve agent (fails req sent_error close) p = ([], p, close_pipe close closed_pipe)
serve agent (closes close) p = ([], p, close_pipe close drained)
serve agent nothing p = ([], p, waiting)

-- The goroutine that closes the pipe when the agent's context is done, as it is at the latest when
-- RegisterAgent returned, by what gRPC documents: a pipe that the loop closed is closed again.
unfoldable pub context_closes : End → End
unfolding close_pipe
context_closes drained = drained
context_closes closed_pipe = close_pipe of_closed closed_pipe
context_closes panicked = panicked
context_closes waiting = waiting

-- The commands are removed when the loop ended, unless the process panicked in it.
abbrev pub behind_loop : AgentConfiguration → End → Registry → Registry
behind_loop agent drained registry = deregister_agent_commands agent registry
behind_loop agent closed_pipe registry = deregister_agent_commands agent registry
behind_loop agent panicked registry = registry
behind_loop agent waiting registry = registry

-- RegisterAgent, and the goroutine that it starts: the agent's commands are there while its pipe is
-- served.
unfoldable pub register_and_serve :
    AgentConfiguration
    → Pipe
    → Registry × Pipeline
    → Result (List CommandRequest × End) × Registry × Pipeline
register_and_serve agent pipe (registry, p) =
    let (r, registry') = register_agent agent registry in
    elim r [
      | err e ↦ (
        err (wrapf "failed to register remote agent %s: %s" (agent.agent_id ∷ []) e),
        registry',
        p,
      )
      | ok _ ↦
          let (sent, p', end) = serve agent.agent_id pipe p in
          (ok (sent, context_closes end), behind_loop agent end registry', p')
    ]
