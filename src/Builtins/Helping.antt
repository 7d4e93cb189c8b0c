-- ===== src/Builtins/Helping.antt =====
-- Which commands `help` lists.
use meeseeks_box.Base.{
  ◌≡◌, refl, Bool, true, false, not, ◌&&◌, List, [], ◌∷◌, Option, none, some, Bytes, str, ◌==◌,
  eq_iff, if◌then◌else◌, arith, contains,
}
use meeseeks_box.Base.Assoc.{Assoc, lookup}
use meeseeks_box.Model.{Job, Command}
use meeseeks_box.Builtins.Services.{Services, help_list, answer}
use meeseeks_box.Builtins.Flags.{help_flags, parse_flags, parse_one, split_name, defaults}
use meeseeks_box.Builtins.OtherCommands.{help, help_commands, is_builtin}
use meeseeks_box.Builtins.Dispatch.{Surroundings, execute}

-- A builtin command is listed only if all are asked for.
abbrev pub listed :
    Assoc (Option Command) → Bool → Assoc (Option Command) → Bytes → Option (Option Command)
listed builtins all registered name =
    if is_builtin (lookup name builtins) && not all then none else lookup name registered

lookup-help_commands :
    (builtins : Assoc (Option Command)) (all : Bool) (registered : Assoc (Option Command))
    (j : Bytes)
    → lookup j (help_commands builtins all registered) ≡ listed builtins all registered j
unfolding help_commands lookup
lookup-help_commands builtins all [] j = ground arith
lookup-help_commands builtins all ((name, cmd) ∷ rest) j =
    ground (arith, lookup-help_commands builtins all rest j, eq_iff name j)

abbrev pub help_args : Bool → List Bytes
help_args false = []
help_args true = str "-all" ∷ []

help_flags-all : (all : Bool) → help_flags (help_args all) ≡ record defaults { all = all }
unfolding help_flags parse_flags parse_one split_name lookup ◌==◌ contains
help_flags-all false = refl
help_flags-all true = refl

module _ {S : Type 0} (s : Services S) (around : Surroundings) where
  -- Without an argument `help` lists the registered commands less the builtin ones, and with
  -- `-all` every registered command; it changes nothing.
  pub help-lists :
      (all : Bool) (job : Job) (w : S)
      → job.request.args ≡ help_args all
      → (shown : Assoc (Option Command)) × (execute s around (str "help") job w
          ≡ some (answer (help_list shown), w))
        × ((name : Bytes) → lookup name shown ≡ listed around.builtins all around.registered name)
  unfolding execute lookup ◌==◌ help
  help-lists all job w e = (
    help_commands around.builtins all around.registered,
    rw (e, help_flags-all all) refl,
    λ name. lookup-help_commands around.builtins all around.registered name,
  )
