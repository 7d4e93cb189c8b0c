-- ===== src/Commands.antt =====
-- commands/commands.go: the registry of commands, its registrations, and the lookup of a
-- request's command. A nil Command is `none`.
pub mod Contents
pub mod Registration
pub mod Ownership
pub mod Lookup
pub mod Fresh
use meeseeks_box.Base.{
  Bool, true, false, ◌&&◌, ◌||◌, not, List, [], ◌∷◌, ◌++◌, Option, none, some, Bytes, str, ◌==◌,
  if◌then◌else◌, Result, ok, err, errorf, ◌>>=◌, ◌>>◌,
}
use meeseeks_box.Base.Assoc.{Assoc, lookup, insert, remove}
use meeseeks_box.Base.Trim.{trim_space}
use meeseeks_box.Model.{Request, Command}

abbrev pub kind_local_command : Bytes
kind_local_command = str "local"

abbrev pub kind_remote_command : Bytes
kind_remote_command = str "remote"

abbrev pub kind_builtin_command : Bytes
kind_builtin_command = str "builtin"

abbrev pub action_register : Bytes
action_register = str "register"

abbrev pub action_unregister : Bytes
action_unregister = str "unregister"

pub record CommandHub : Type 0 where
  pub kind : Bytes
  pub cmd : Option Command

-- the package's variable `commands`
abbrev pub Registry : Type 0
Registry = Assoc CommandHub

pub record CommandRegistration : Type 0 where
  pub name : Bytes
  pub cmd : Option Command

pub record RegistrationArgs : Type 0 where
  pub kind : Bytes
  pub action : Bytes
  pub commands : List CommandRegistration

unfoldable pub all_commands : Registry → Assoc (Option Command)
all_commands [] = []
all_commands ((name, hub) ∷ r) = (name, hub.cmd) ∷ all_commands r

abbrev with_cmd : Bytes → Option Command → Result (Unit {0})
with_cmd name none = err (errorf "Invalid command %s, it has no cmd" (name ∷ []))
with_cmd name (some _) = ok tt

validate_command : CommandRegistration → Result (Unit {0})
validate_command c =
    if trim_space c.name == []
    then err (errorf "Invalid command, it has no name" [])
    else with_cmd c.name c.cmd

-- the test of the loop on the command of that name that is already registered, if any
pub validate_known : RegistrationArgs → Bytes → Option CommandHub → Result (Unit {0})
validate_known r name none =
    if r.action == action_unregister
    then err (errorf "can't unregister an unknown command: %s" (name ∷ []))
    else ok tt
validate_known r name (some known) =
    if not (known.kind == r.kind)
    then err (errorf "incompatible command kind for an already known command: %s" (name ∷ []))
    else if known.kind == kind_remote_command && r.action == action_register
    then err (
        errorf "command %s is invalid, re-registering remote commands is not allowed yet"
          (name ∷ []))
    else ok tt

pub validate_commands : Registry → RegistrationArgs → List CommandRegistration → Result (Unit {0})
unfolding validate_command validate_known
validate_commands registry r [] = ok tt
validate_commands registry r (c ∷ cs) = do
  validate_command c
  validate_known r c.name (lookup c.name registry)
  validate_commands registry r cs

unfoldable pub is_kind : Bytes → Bool
is_kind k = k == kind_builtin_command || k == kind_local_command || k == kind_remote_command

is_action : Bytes → Bool
is_action a = a == action_register || a == action_unregister

pub validate : Registry → RegistrationArgs → Result (Unit {0})
unfolding is_kind is_action validate_commands
validate registry r =
    if trim_space r.kind == []
    then err (errorf "Invalid registration, it has no kind" [])
    else if not (is_kind r.kind)
    then err (errorf "Invalid kind of registration: %s" (r.kind ∷ []))
    else if not (is_action r.action)
    then err (errorf "Invalid action %s" (r.action ∷ []))
    else validate_commands registry r r.commands

-- the loop that deletes the local commands
pub remove_local : Registry → Registry
remove_local [] = []
remove_local ((name, hub) ∷ registry) =
    let rest = remove_local registry in
    if hub.kind == kind_local_command then rest else (name, hub) ∷ rest

pub remove_named : List CommandRegistration → Registry → Registry
remove_named [] registry = registry
remove_named (c ∷ cs) registry = remove_named cs (remove c.name registry)

unregister_commands : RegistrationArgs → Registry → Registry
unfolding remove_local remove_named
unregister_commands r registry =
    if r.kind == kind_local_command
    then remove_local registry
    else if r.kind == kind_remote_command
    then remove_named r.commands registry
    else registry

pub insert_named : Bytes → List CommandRegistration → Registry → Registry
insert_named kind [] registry = registry
insert_named kind (c ∷ cs) registry =
    insert_named kind cs (insert c.name (record { kind = kind; cmd = c.cmd }) registry)

register_commands : RegistrationArgs → Registry → Registry
unfolding insert_named
register_commands r registry = insert_named r.kind r.commands registry

pub process : RegistrationArgs → Registry → Registry
unfolding unregister_commands register_commands
process r registry =
    if r.action == action_register
    then register_commands r
        (if r.kind == kind_local_command then unregister_commands r registry else registry)
    else unregister_commands r registry

-- The error, if any, and the registry that the call leaves.
unfoldable pub register : RegistrationArgs → Registry → Result (Unit {0}) × Registry
unfolding validate process
register args registry = elim (validate registry args) [
  | err e ↦ (err e, registry)
  | ok _ ↦ (ok tt, process args registry)
]

-- `Aliases().Get` gives "" and nil with an error, which is logged and dropped.
abbrev pub aliased : Result (Bytes × List Bytes) → Bytes × List Bytes
aliased (ok found) = found
aliased (err _) = ([], [])

abbrev pub hub_cmd : Option CommandHub → Option Command
hub_cmd none = none
hub_cmd (some hub) = hub.cmd

abbrev pub hub_ok : Option CommandHub → Bool
hub_ok none = false
hub_ok (some _) = true

-- The command and whether there is one, and the request, which an alias rewrites. `alias` is
-- what the user's alias of that name gives.
unfoldable pub find :
    Registry → Result (Bytes × List Bytes) → Request → Option Command × Bool × Request
find registry alias req =
    let (aliased_command, args) = aliased alias in
    elim (lookup aliased_command registry) [
      | some hub ↦
          (hub.cmd, true, record req { command = aliased_command; args = args ++ req.args })
      | none ↦ let direct = lookup req.command registry in (hub_cmd direct, hub_ok direct, req)
    ]
