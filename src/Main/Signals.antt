-- ===== src/Main/Signals.antt =====
-- What the signals leave alone.
use meeseeks_box.Base.{
  ◌≡◌, ◌≢◌, refl, ap, ◌∙◌, List, [], ◌∷◌, Option, none, some, Bytes, arith, Result, ok, err, inl,
  inr, eq_iff, All,
}
use meeseeks_box.Base.Assoc.{lookup, Distinct}
use meeseeks_box.Commands.{CommandHub, kind_local_command}
use meeseeks_box.Commands.Ownership.{IsWellFormed, register-IsWellFormed}
use meeseeks_box.Config.{CommandConfig, Config, World, local_registration, load_configuration}
use meeseeks_box.Config.Loading.{reloaded, load_configuration-IsOutcome, load-registry}
use meeseeks_box.Persistence.Opening.{DatabaseConfig, Database}
use meeseeks_box.Main.{Signal, sighup, sigint, sigterm, sigusr1, reload, Waiting, wait_for_signals}

-- A command that is no local one stays when a configuration is loaded.
reloaded-other :
    (o : Option CommandConfig) (hub : CommandHub)
    → hub.kind ≢ kind_local_command
    → ((c : CommandConfig) → o ≡ some c → hub.kind ≡ kind_local_command)
    → reloaded o (some hub) ≡ some hub
reloaded-other none hub other free = ground (arith, eq_iff hub.kind kind_local_command)
reloaded-other (some c) hub other free = absurd (other (free c refl))

-- The file of a signal, if it is read, configures a name once.
abbrev pub ReadsOnce : Signal × Result Config → Type 0
ReadsOnce (sig, err e) = Unit
ReadsOnce (sig, ok cnf) = Distinct cnf.commands

module _ {D : Type 0} (open_file : DatabaseConfig → Result D)
    (flush : Database D → Result (Unit {0}) × Database D) where
  -- What every reloading keeps of the registry.
  abbrev Keeps : Bytes → CommandHub → World D → Type 0
  Keeps j hub w = IsWellFormed w.registry × (lookup j w.registry ≡ some hub)

  pub load-IsWellFormed :
      (cnf : Config) (w : World D)
      → IsWellFormed w.registry
      → IsWellFormed (load_configuration open_file cnf w).1.registry
  load-IsWellFormed cnf w h =
      load-registry open_file cnf IsWellFormed w h
        (register-IsWellFormed (local_registration cnf.commands) w.registry h)

  load-Keeps :
      (cnf : Config) (j : Bytes) (hub : CommandHub) (w : World D)
      → hub.kind ≢ kind_local_command
      → Distinct cnf.commands
      → Keeps j hub w
      → Keeps j hub (load_configuration open_file cnf w).1
  load-Keeps cnf j hub w other once (wf, there) = (
    load-IsWellFormed cnf w wf,
    elim (load_configuration-IsOutcome open_file cnf w once wf.distinct) [
      | inr (_, _, (same, _, _), _) ↦ ap (lookup j) same ∙ there
      | inl (_, (_, _, _, now, kinds)) ↦
          now j
          ∙ ap (reloaded (lookup j cnf.commands)) there
          ∙ reloaded-other (lookup j cnf.commands) hub other (λ c named. kinds j c hub named there)
    ],
  )

  reload-Keeps :
      (j : Bytes) (hub : CommandHub) (sig : Signal) (file : Result Config) (w : World D)
      → hub.kind ≢ kind_local_command
      → ReadsOnce (sig, file)
      → Keeps j hub w
      → Keeps j hub (reload open_file flush file w)
  unfolding reload
  reload-Keeps j hub sig (err e) w other once k = k
  reload-Keeps j hub sig (ok cnf) w other once k = load-Keeps cnf j hub w other once k

  signals-Keeps :
      (j : Bytes) (hub : CommandHub) (signals : List (Signal × Result Config))
      (s : Waiting open_file flush)
      → hub.kind ≢ kind_local_command
      → All ReadsOnce signals
      → Keeps j hub s.world
      → Keeps j hub (wait_for_signals open_file flush signals s).world
  unfolding wait_for_signals
  signals-Keeps j hub [] s other once k = k
  signals-Keeps j hub ((sigint, file) ∷ rest) s other (o, once) k = k
  signals-Keeps j hub ((sigterm, file) ∷ rest) s other (o, once) k = k
  signals-Keeps j hub ((sighup, file) ∷ rest) s other (o, once) k =
      signals-Keeps j hub rest _ other once (reload-Keeps j hub sighup file s.world other o k)
  signals-Keeps j hub ((sigusr1, file) ∷ rest) s other (o, once) k =
      signals-Keeps j hub rest _ other once k

-- Whatever signals come, and whatever the configuration reads as when it is reloaded, a command
-- that is no local one, a builtin or that of a remote agent, stays under its name. The registry is
-- well-formed, and a configuration has a name once.
pub wait_for_signals-keeps :
    {D : Type 0} (open_file : DatabaseConfig → Result D)
    (flush : Database D → Result (Unit {0}) × Database D) (j : Bytes) (hub : CommandHub)
    (signals : List (Signal × Result Config)) (s : Waiting open_file flush)
    → hub.kind ≢ kind_local_command
    → All ReadsOnce signals
    → IsWellFormed s.world.registry
    → lookup j s.world.registry ≡ some hub
    → lookup j (wait_for_signals open_file flush signals s).world.registry ≡ some hub
wait_for_signals-keeps open_file flush j hub signals s other once wf there =
    (signals-Keeps open_file flush j hub signals s other once (wf, there)).1
