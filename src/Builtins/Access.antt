-- ===== src/Builtins/Access.antt =====
-- The builtin commands behind `LoadBuiltins`: all of them are registered, and some are for the
-- administrators only.
use meeseeks_box.Base.{
  ◌≡◌, refl, ◌∙◌, ap, true, List, [], ◌∷◌, Option, none, some, Bytes, str, ◌==◌, eq_iff,
  if◌then◌else◌, arith, ok, All, All-at, contains, inl, inr,
}
use meeseeks_box.Base.Assoc.{Assoc, lookup, Distinct, All-lookup}
use meeseeks_box.Base.Contains.{contains_iff}
use meeseeks_box.Base.Trim.{trim_space}
use meeseeks_box.Model.{Request, Command}
use meeseeks_box.Auth.{configure, check}
use meeseeks_box.Auth.Decision.{InAllowedGroup, UserAllowed, check_iff}
use meeseeks_box.Commands.{CommandHub, Registry, kind_builtin_command, register}
use meeseeks_box.Commands.Contents.{last_named, registered}
use meeseeks_box.Commands.Registration.{outcome, register_atomic}
use meeseeks_box.Builtins.Table.{
  commands, registrations, load_builtins, builtin_registration, new_cancel_job_command,
  new_kill_job_command, admin_group,
}

pub last_named-registrations :
    (t : Assoc (Option Command)) (j : Bytes)
    → Distinct t
    → last_named (registrations t) j ≡ lookup j t
unfolding registrations lookup
last_named-registrations [] j h = refl
last_named-registrations ((name, cmd) ∷ t) j (h, hs) =
    ground (arith, last_named-registrations t j hs, eq_iff name j)

pub commands-Distinct : (cancel kill : Option Command) → Distinct (commands cancel kill)
unfolding commands lookup ◌==◌
commands-Distinct cancel kill = ground arith

-- With commands for cancel and kill, loading into an empty registry is accepted.
load_builtins-accepted :
    (cancel kill : Command) → (load_builtins (some cancel) (some kill) []).0 ≡ ok tt
unfolding load_builtins registrations register commands lookup ◌==◌ trim_space
load_builtins-accepted cancel kill = refl

abbrev pub hub_of : Option (Option Command) → Option CommandHub
hub_of none = none
hub_of (some cmd) = some (record { kind = kind_builtin_command; cmd = cmd })

registered-hub_of :
    (o : Option (Option Command)) → registered kind_builtin_command o none ≡ hub_of o
registered-hub_of none = refl
registered-hub_of (some cmd) = refl

outcome-builtin :
    (cancel kill : Option Command) (o : Option (Option Command))
    → outcome (builtin_registration cancel kill) o none ≡ registered kind_builtin_command o none
unfolding ◌==◌
outcome-builtin cancel kill o = refl

outcome-builtin_over :
    (cancel kill : Option Command) (o : Option (Option Command)) (before : Option CommandHub)
    → outcome (builtin_registration cancel kill) o before ≡ registered kind_builtin_command o before
unfolding ◌==◌
outcome-builtin_over cancel kill o before = refl

-- Loading the builtins into an empty registry is accepted, whatever commands cancel and kill are,
-- and leaves the table of the package, each command as a builtin.
pub load_builtins-lookup :
    (cancel kill : Command)
    → ((load_builtins (some cancel) (some kill) []).0 ≡ ok tt)
      × ((j : Bytes)
          → lookup j (load_builtins (some cancel) (some kill) []).1
            ≡ hub_of (lookup j (commands (some cancel) (some kill))))
unfolding load_builtins lookup
load_builtins-lookup cancel kill = (
  load_builtins-accepted cancel kill,
  λ j.
      (register_atomic (builtin_registration (some cancel) (some kill)) [] tt).1
        (load_builtins-accepted cancel kill) j
      ∙ outcome-builtin (some cancel) (some kill) _
      ∙ registered-hub_of _
      ∙ ap hub_of (
          last_named-registrations (commands (some cancel) (some kill)) j
            (commands-Distinct (some cancel) (some kill))),
)

-- the commands that say that they are for administrators, but auditlogs
abbrev pub admin_only : List Bytes
admin_only =
    str "kill"
    ∷ str "audit"
    ∷ str "auditjob"
    ∷ str "groups"
    ∷ str "token-new"
    ∷ str "tokens"
    ∷ str "token-revoke"
    ∷ []

abbrev HasAccess : Bytes × Option Command → Type 0
HasAccess (name, none) = Unit
HasAccess (name, some cmd) =
    (cmd.auth_strategy ≡ (if contains admin_only name then str "group" else str "any"))
    × (cmd.allowed_groups ≡ (if contains admin_only name then admin_group ∷ [] else []))

commands-HasAccess :
    All HasAccess (commands (some new_cancel_job_command) (some new_kill_job_command))
unfolding commands contains ◌==◌
commands-HasAccess = ground arith

-- Each of these names is in the table.
admin_only-named :
    (name : Bytes)
    → contains admin_only name ≡ true
    → (o : Option Command) × (lookup name
          (commands (some new_cancel_job_command) (some new_kill_job_command))
        ≡ some o)
unfolding commands lookup ◌==◌
admin_only-named name h =
    All-at
      (λ n.
        (o : Option Command) × (lookup n
            (commands (some new_cancel_job_command) (some new_kill_job_command))
          ≡ some o))
      name admin_only ((contains_iff admin_only name).0 h)
      ((_, refl), ((_, refl), ((_, refl), ((_, refl), ((_, refl), ((_, refl), ((_, refl), tt)))))))

-- What stands under a name of the table once the builtins were loaded is the table's, whatever was
-- registered before.
loaded_entry :
    (r : Registry) (name : Bytes) (o : Option Command)
    → Distinct r
    → (load_builtins (some new_cancel_job_command) (some new_kill_job_command) r).0 ≡ ok tt
    → lookup name (commands (some new_cancel_job_command) (some new_kill_job_command)) ≡ some o
    → lookup name (load_builtins (some new_cancel_job_command) (some new_kill_job_command) r).1
      ≡ some (record { kind = kind_builtin_command; cmd = o })
unfolding load_builtins
loaded_entry r name o once good named =
    let cancel = some new_cancel_job_command in
    let kill = some new_kill_job_command in
    (register_atomic (builtin_registration cancel kill) r once).1 good name
    ∙ outcome-builtin_over cancel kill (last_named (registrations (commands cancel kill)) name)
        (lookup name r)
    ∙ ap (λ n. registered kind_builtin_command n (lookup name r))
        (last_named-registrations (commands cancel kill) name (commands-Distinct cancel kill)
          ∙ named)

admin_access :
    (name : Bytes) (cmd : Command)
    → contains admin_only name ≡ true
    → HasAccess (name, some cmd)
    → (cmd.auth_strategy ≡ str "group") × (cmd.allowed_groups ≡ admin_group ∷ [])
admin_access name cmd h (strategy, groups) = (strategy ∙ rw h refl, groups ∙ rw h refl)

group_only :
    (cfg : Assoc (List Bytes)) (req : Request) (cmd : Command)
    → cmd.auth_strategy ≡ str "group"
    → UserAllowed cfg req cmd
    → InAllowedGroup cfg req.username cmd.allowed_groups
group_only cfg req cmd h (inl any) = cc (h, any)
group_only cfg req cmd h (inr (_, member)) = member

-- Whatever was registered before, once the builtins were loaded without an error, with the commands
-- of the package for cancel and kill, and with each group configured once: kill, audit, auditjob,
-- groups, token-new, tokens and token-revoke pass the check for a member of the configured group
-- admin only. The registry has a name once.
pub admin_commands-check :
    (cfg : Assoc (List Bytes)) (req : Request) (r : Registry) (name : Bytes) (hub : CommandHub)
    (cmd : Command)
    → Distinct cfg
    → Distinct r
    → contains admin_only name ≡ true
    → (load_builtins (some new_cancel_job_command) (some new_kill_job_command) r).0 ≡ ok tt
    → lookup name (load_builtins (some new_cancel_job_command) (some new_kill_job_command) r).1
      ≡ some hub
    → hub.cmd ≡ some cmd
    → check (configure cfg) req cmd ≡ ok tt
    → InAllowedGroup cfg req.username (admin_group ∷ [])
admin_commands-check cfg req r name hub cmd once once_r listed good found is_cmd passed =
    let table = commands (some new_cancel_job_command) (some new_kill_job_command) in
    let (o, named) = admin_only-named name listed in
    let same : record { kind = kind_builtin_command; cmd = o } ≡ hub =
      cc (loaded_entry r name o once_r good named, found) in
    let entry : lookup name table ≡ some (some cmd) =
      named ∙ ap (λ x. some x) (ap (λ (x : CommandHub). x.cmd) same ∙ is_cmd) in
    let (strategy, groups) =
      admin_access name cmd listed
        (All-lookup HasAccess table name (some cmd) commands-HasAccess entry) in
    rw groups at (group_only cfg req cmd strategy ((check_iff cfg once req cmd).0 passed).0)
