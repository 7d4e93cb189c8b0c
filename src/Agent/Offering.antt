-- ===== src/Agent/Offering.antt =====
-- An agent's commands on the server (remote/agent/agent_config.go and
-- remote/server/command_pipeline.go): who may run them, and for how long.
use meeseeks_box.Base.{
  ◌≡◌, refl, ap, ◌∙◌, sym, false, [], ◌∷◌, Option, none, some, Bytes, ◌*◌, ◌%◌, ◌^◌, ok, str, ◌==◌,
  eq_iff, eq-cases, inl, inr, arith, if◌then◌else◌, ◌>>◌, eqb, or_wrap-eq-ok, eq_refl, subst,
}
use meeseeks_box.Base.Assoc.{Assoc, lookup, Distinct}
use meeseeks_box.Model.{
  Request, Command, remote, with_opts, get_auth_strategy, get_channel_strategy, get_timeout,
  default_command_timeout, second,
}
use meeseeks_box.Auth.{Auth, check}
use meeseeks_box.Auth.Decision.{user_result, channel_result, check-eq}
use meeseeks_box.Commands.{Registry, CommandHub, kind_remote_command, all_commands}
use meeseeks_box.Commands.Contents.{last_named, registered}
use meeseeks_box.Commands.Registration.{register_atomic}
use meeseeks_box.Remote.{
  RemoteCommandConfig, AgentConfiguration, remote_opts, remote_registrations, register_agent,
}
use meeseeks_box.Agent.{
  remote_command, cons_command, remote_commands, create_remote_commands, configuration_of,
  create_agent_configuration,
}

-- What the server makes of an agent's command.
abbrev pub on_server : Bytes → Bytes → Command → Command
on_server agent name cmd = with_opts (remote agent) (remote_opts name (remote_command cmd))

-- A default that is none of the tested strategies does not change what a test says.
defaulted_test :
    (k d s : Bytes) → k == d ≡ false → k == [] ≡ false → k == (if s == [] then d else s) ≡ k == s
unfolding ◌==◌
defaulted_test k d [] other empty = other ∙ sym empty
defaulted_test k d (c ∷ s) other empty = refl

-- An agent's command is allowed on the server exactly as it would be allowed on the agent.
pub check-on_server :
    (a : Auth) (req : Request) (agent name : Bytes) (cmd : Command)
    → check a req (on_server agent name cmd) ≡ check a req cmd
unfolding with_opts remote_opts remote_command get_auth_strategy get_channel_strategy
check-on_server a req agent name cmd =
    let same : (user_result a req (on_server agent name cmd)
          >> channel_result req (on_server agent name cmd))
        ≡ (user_result a req cmd >> channel_result req cmd) =
      rw
        (
          defaulted_test (str "any") (str "none") cmd.auth_strategy (unfold ◌==◌ in refl)
              (unfold ◌==◌ in refl),
          defaulted_test (str "group") (str "none") cmd.auth_strategy (unfold ◌==◌ in refl)
              (unfold ◌==◌ in refl),
          defaulted_test (str "channel") (str "any") cmd.channel_strategy (unfold ◌==◌ in refl)
              (unfold ◌==◌ in refl),
          defaulted_test (str "im_only") (str "any") cmd.channel_strategy (unfold ◌==◌ in refl)
              (unfold ◌==◌ in refl),
        )
        refl in
    check-eq a req (on_server agent name cmd) ∙ same ∙ sym (check-eq a req cmd)

remote_commands-cons :
    (name : Bytes) (cmd : Option Command) (rest : Option (Assoc RemoteCommandConfig))
    {configs : Assoc RemoteCommandConfig}
    → cons_command name cmd rest ≡ some configs
    → (c : Command) × (r : Assoc RemoteCommandConfig) × (cmd ≡ some c)
      × (rest ≡ some r)
      × (configs ≡ (name, remote_command c) ∷ r)
remote_commands-cons name none rest h = cc
remote_commands-cons name (some cmd) none h = cc
remote_commands-cons name (some cmd) (some r) h = (cmd, r, refl, refl, ground arith)

last_named-missing :
    (agent name : Bytes) (own : Registry) (configs : Assoc RemoteCommandConfig)
    → remote_commands (all_commands own) ≡ some configs
    → lookup name own ≡ none
    → last_named (remote_registrations agent configs) name ≡ none
unfolding remote_commands all_commands lookup remote_registrations
last_named-missing agent name [] configs h e =
    let none_left : [] ≡ configs = ground arith in
    subst (λ c. last_named (remote_registrations agent c) name ≡ none) none_left refl
last_named-missing agent name ((j, hub) ∷ own) configs h e =
    let (c, r, cmd, rest, made) =
      remote_commands-cons j hub.cmd (remote_commands (all_commands own)) h in
    rw made (ground (arith, last_named-missing agent name own r rest (ground arith)))

last_named-offered :
    (agent name : Bytes) (own : Registry) (hub : CommandHub) (configs : Assoc RemoteCommandConfig)
    → Distinct own
    → remote_commands (all_commands own) ≡ some configs
    → lookup name own ≡ some hub
    → (cmd : Command) × (hub.cmd ≡ some cmd)
      × (last_named (remote_registrations agent configs) name
          ≡ some (some (on_server agent name cmd)))
unfolding remote_commands all_commands lookup remote_registrations
last_named-offered agent name [] hub configs once h e = cc
last_named-offered agent name ((j, first) ∷ own) hub configs (fresh, once) h e =
    let (c, r, cmd, rest, made) =
      remote_commands-cons j first.cmd (remote_commands (all_commands own)) h in
    elim (eq-cases j name) [
      | inl same ↦
          let fresh' : lookup name own ≡ none = subst (λ x. lookup x own ≡ none) same fresh in
          let missing = last_named-missing agent name own r rest fresh' in
          (
            c,
            ground (arith, eq_iff j name),
            rw (made, same) (ground (arith, missing, eq_refl name)),
          )
      | inr other ↦
          let (c', cmd', found) =
            last_named-offered agent name own hub r once rest (rw other at e) in
          (c', cmd', rw made (ground arith))
    ]

configuration_of-some :
    (agent : Bytes) (o : Option (Assoc RemoteCommandConfig)) {config : AgentConfiguration}
    → configuration_of agent o ≡ some config
    → (cs : Assoc RemoteCommandConfig) × (o ≡ some cs)
      × (record { agent_id = agent; commands = cs } ≡ config)
configuration_of-some agent none h = cc
configuration_of-some agent (some cs) h = (cs, refl, ground arith)

registered_on :
    (agent name : Bytes) (cs : Assoc RemoteCommandConfig) (r : Registry) (cmd : Option Command)
    → Distinct r
    → (register_agent (record { agent_id = agent; commands = cs }) r).0 ≡ ok tt
    → last_named (remote_registrations agent cs) name ≡ some cmd
    → lookup name (register_agent (record { agent_id = agent; commands = cs }) r).1
      ≡ some (record { kind = kind_remote_command; cmd = cmd })
unfolding register_agent ◌==◌
registered_on agent name cs r cmd once good named =
    (register_atomic _ r once).1 (or_wrap-eq-ok _ _ _ good) name
    ∙ ap (λ n. registered kind_remote_command n (lookup name r)) named

-- Once an agent's commands are registered, each of them is on the server under its name, as a
-- command of that agent that is allowed exactly when it would be allowed on the agent. It has no
-- handshake, whatever the agent's has, and its timeout is the agent's, in nanoseconds, taken for
-- seconds: multiplied by 10 ^ 9 and wrapped, or 60 seconds if that gives zero.
pub register_agent-offers :
    (agent name : Bytes) (own r : Registry) (config : AgentConfiguration) (hub : CommandHub)
    → Distinct own
    → Distinct r
    → create_agent_configuration agent own ≡ some config
    → (register_agent config r).0 ≡ ok tt
    → lookup name own ≡ some hub
    → (cmd : Command) × (there : Command) × (hub.cmd ≡ some cmd)
      × (lookup name (register_agent config r).1
          ≡ some (record { kind = kind_remote_command; cmd = some there }))
      × (there.runner ≡ remote agent)
      × (there.has_handshake ≡ false)
      × (there.timeout ≡ (
          if eqb (cmd.timeout * second % 2 ^ 64) 0
          then default_command_timeout
          else cmd.timeout * second % 2 ^ 64))
      × ((a : Auth) (req : Request) → check a req there ≡ check a req cmd)
unfolding create_agent_configuration create_remote_commands with_opts remote_opts remote_command
    get_timeout
register_agent-offers agent name own r config hub once once_r made good e =
    let (cs, offered, shape) =
      configuration_of-some agent (remote_commands (all_commands own)) made in
    let (cmd, known, named) = last_named-offered agent name own hub cs once offered e in
    (
      cmd,
      on_server agent name cmd,
      known,
      subst
          (λ (x : AgentConfiguration).
            lookup name (register_agent x r).1
            ≡ some (record { kind = kind_remote_command; cmd = some (on_server agent name cmd) }))
          shape
          (registered_on agent name cs r (some (on_server agent name cmd)) once_r
            (subst (λ (x : AgentConfiguration). (register_agent x r).0 ≡ ok tt) (sym shape) good)
            named),
      refl,
      refl,
      refl,
      λ a req. check-on_server a req agent name cmd,
    )
