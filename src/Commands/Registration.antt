-- ===== src/Commands/Registration.antt =====
-- What a registration does: all of it or nothing, and what a valid one leaves under each name.
use meeseeks_box.Base.{
  ◌≡◌, ◌≢◌, true, false, List, [], ◌∷◌, Option, none, some, Bytes, ◌==◌, eq_iff, if◌then◌else◌,
  arith, ok, err, Error, Result-cases, inl, inr, ◌⊎◌, bind-eq-ok, ◌>>◌, Option-cases,
}
use meeseeks_box.Base.Assoc.{lookup, Distinct}
use meeseeks_box.Base.Trim.{trim_space}
use meeseeks_box.Model.{Command}
use meeseeks_box.Commands.{
  CommandHub, Registry, CommandRegistration, RegistrationArgs, kind_local_command,
  kind_remote_command, action_register, is_kind, validate_command, validate_known,
  validate_commands, validate, unregister_commands, register_commands, process, register,
}
use meeseeks_box.Commands.Contents.{
  last_named, registered, unnamed, unless_local, lookup-insert_named, lookup-remove_named,
  lookup-remove_local, Distinct-insert_named, Distinct-remove_named, Distinct-remove_local,
}
use meeseeks_box.Commands.{remove_local}

-- What a registration leaves under a name, from what was there and the last command of that name.
abbrev pub outcome :
    RegistrationArgs → Option (Option Command) → Option CommandHub → Option CommandHub
outcome args named before =
    if args.action == action_register
    then registered args.kind named
        (if args.kind == kind_local_command then unless_local before else before)
    else if args.kind == kind_local_command
    then unless_local before
    else if args.kind == kind_remote_command
    then unnamed named before
    else before

pub lookup-process :
    (args : RegistrationArgs) (r : Registry) (j : Bytes)
    → Distinct r
    → lookup j (process args r) ≡ outcome args (last_named args.commands j) (lookup j r)
unfolding process register_commands unregister_commands
lookup-process args r j h = ground (
  arith,
  lookup-insert_named args.kind args.commands r j,
  lookup-insert_named args.kind args.commands (remove_local r) j,
  lookup-remove_named args.commands r j,
  lookup-remove_local r j,
)

pub Distinct-process :
    (args : RegistrationArgs) (r : Registry) → Distinct r → Distinct (process args r)
unfolding process register_commands unregister_commands
Distinct-process args r h = ground (
  arith,
  Distinct-insert_named args.kind args.commands r h,
  Distinct-insert_named args.kind args.commands (remove_local r) (Distinct-remove_local r h),
  Distinct-remove_named args.commands r h,
  Distinct-remove_local r h,
)

-- What a passed validation says of the command that is left under a name.
pub record IsAdmitted (r : Registry) (args : RegistrationArgs) (j : Bytes) (cmd : Option Command)
    : Type 0 where
  pub named : trim_space j == [] ≡ false
  pub has_cmd : cmd ≢ none
  pub known : validate_known args j (lookup j r) ≡ ok tt

first_IsAdmitted :
    (r : Registry) (args : RegistrationArgs) (c : CommandRegistration) (j : Bytes)
    (cmd : Option Command) {u v : Unit {0}}
    → validate_command c ≡ ok u
    → validate_known args c.name (lookup c.name r) ≡ ok v
    → (if c.name == j then some c.cmd else none) ≡ some cmd
    → IsAdmitted r args j cmd
unfolding validate_command
first_IsAdmitted r args c j cmd valid known e =
    let same : c.name ≡ j = (eq_iff c.name j).0 (ground arith) in
    rw (← same) (record { named = ground arith; has_cmd = ground arith; known = known })

last_named-IsAdmitted :
    (r : Registry) (args : RegistrationArgs) (cs : List CommandRegistration) (j : Bytes)
    (cmd : Option Command)
    → validate_commands r args cs ≡ ok tt
    → last_named cs j ≡ some cmd
    → IsAdmitted r args j cmd
unfolding validate_commands
last_named-IsAdmitted r args [] j cmd h e = cc
last_named-IsAdmitted r args (c ∷ cs) j cmd h e =
    let (u, valid, h') =
      bind-eq-ok (validate_command c)
        (λ _. validate_known args c.name (lookup c.name r) >> validate_commands r args cs) h in
    let (u', known, rest) =
      bind-eq-ok (validate_known args c.name (lookup c.name r)) (λ _. validate_commands r args cs)
        h' in
    elim (Option-cases (last_named cs j)) [
      | inl none_behind ↦ first_IsAdmitted r args c j cmd valid known (ground arith)
      | inr (cmd', behind) ↦ last_named-IsAdmitted r args cs j cmd rest (ground arith)
    ]

pub validate-IsAdmitted :
    (r : Registry) (args : RegistrationArgs) (j : Bytes) (cmd : Option Command)
    → validate r args ≡ ok tt
    → last_named args.commands j ≡ some cmd
    → (is_kind args.kind ≡ true) × IsAdmitted r args j cmd
unfolding validate
validate-IsAdmitted r args j cmd h e =
    (ground arith, last_named-IsAdmitted r args args.commands j cmd (ground arith) e)

-- A registration that fails leaves the registry as it was, and one that passes leaves under
-- each name what `outcome` says.
pub register_atomic :
    (args : RegistrationArgs) (r : Registry)
    → Distinct r
    → ((e : Error) → (register args r).0 ≡ err e → (register args r).1 ≡ r)
      × ((register args r).0 ≡ ok tt
          → (j : Bytes)
          → lookup j (register args r).1 ≡ outcome args (last_named args.commands j) (lookup j r))
unfolding register
register_atomic args r h = elim (Result-cases (validate r args)) [
  | inl (u, valid) ↦ (λ e p. ground arith, λ p j. rw (valid, register) (lookup-process args r j h))
  | inr (f, refused) ↦ (λ e p. rw (refused, register), λ p j. absurd (ground arith))
]

-- A registration changes nothing, or was valid and leaves what `outcome` says.
pub register-cases :
    (args : RegistrationArgs) (r : Registry) (j : Bytes)
    → Distinct r
    → (lookup j (register args r).1 ≡ lookup j r)
      ⊎ ((validate r args ≡ ok tt)
          × (lookup j (register args r).1 ≡ outcome args (last_named args.commands j) (lookup j r)))
unfolding register
register-cases args r j h = elim (Result-cases (validate r args)) [
  | inl (u, valid) ↦ inr (valid, rw (valid, register) (lookup-process args r j h))
  | inr (f, refused) ↦ inl (rw (refused, register))
]
