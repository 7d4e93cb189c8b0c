-- ===== src/Remote/Agents.antt =====
-- An agent that leaves takes its commands with it.
use meeseeks_box.Base.{◌≡◌, refl, ap, false, [], ◌∷◌, none, some, Bytes, ok, or_wrap-eq-ok}
use meeseeks_box.Base.Assoc.{Assoc, Distinct, lookup}
use meeseeks_box.Model.{Command, CommandOpts, remote, with_opts}
use meeseeks_box.Commands.{CommandRegistration, Registry}
use meeseeks_box.Commands.Lookup.{renew, unregister-register}
use meeseeks_box.Remote.{
  RemoteCommandConfig, AgentConfiguration, remote_opts, remote_registrations, register_agent,
  deregister_agent_commands,
}

abbrev no_opts : CommandOpts
no_opts = record {
  cmd = [];
  args = [];
  allowed_groups = [];
  auth_strategy = [];
  allowed_channels = [];
  channel_strategy = [];
  handshake = false;
  timeout = 0;
  help = record { summary = []; args = [] };
}

abbrev without_agent : CommandRegistration → Command
without_agent c = elim c.cmd [
  | none ↦ with_opts (remote []) no_opts
  | some cmd ↦ record cmd { runner = remote [] }
]

renew-remote_registrations :
    (agent : Bytes) (cmds : Assoc RemoteCommandConfig)
    → renew without_agent (remote_registrations agent cmds) ≡ remote_registrations [] cmds
unfolding remote_registrations with_opts
renew-remote_registrations agent [] = refl
renew-remote_registrations agent ((name, cmd) ∷ cmds) =
    ap (λ l. record { name = name; cmd = some (with_opts (remote []) (remote_opts name cmd)) } ∷ l)
      (renew-remote_registrations agent cmds)

-- When an agent whose commands were registered leaves, and no other agent or configuration came
-- in between, every name is again what it was before the agent came. The registry has a name once.
pub deregister-register_agent :
    (agent : AgentConfiguration) (r : Registry)
    → Distinct r
    → (register_agent agent r).0 ≡ ok tt
    → (j : Bytes)
    → lookup j (deregister_agent_commands agent (register_agent agent r).1) ≡ lookup j r
unfolding register_agent deregister_agent_commands
deregister-register_agent agent r once h j =
    let back =
      (unregister-register without_agent (remote_registrations agent.agent_id agent.commands) r once
          (or_wrap-eq-ok _ _ _ h)).1
        j in
    rw (renew-remote_registrations agent.agent_id agent.commands) at back
