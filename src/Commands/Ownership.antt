-- ===== src/Commands/Ownership.antt =====
-- The registry's invariant, and who may change a command: no registration changes a command's
-- kind, takes a builtin away, or replaces a command by a remote one.
use meeseeks_box.Base.{
  ◌≡◌, refl, ◌≢◌, true, false, [], Option, none, some, Bytes, ◌==◌, eq_iff, arith, ok, Result-cases,
  inl, inr, Option-cases, sym, ◌∙◌,
}
use meeseeks_box.Base.Assoc.{lookup, Distinct}
use meeseeks_box.Base.Trim.{trim_space}
use meeseeks_box.Model.{Command}
use meeseeks_box.Commands.{
  CommandHub, Registry, RegistrationArgs, kind_local_command, kind_remote_command,
  kind_builtin_command, action_register, is_kind, validate_known, validate, process, register,
}
use meeseeks_box.Commands.Contents.{last_named}
use meeseeks_box.Commands.Registration.{
  outcome, validate-IsAdmitted, register-cases, lookup-process, Distinct-process,
}

-- A registered command has a name, one of the three kinds, and is not nil.
abbrev pub IsHub : Bytes → CommandHub → Type 0
IsHub j hub = (trim_space j == [] ≡ false) × (is_kind hub.kind ≡ true) × (hub.cmd ≢ none)

pub record IsWellFormed (r : Registry) : Type 0 where
  pub distinct : Distinct r
  pub hubs : (j : Bytes) (hub : CommandHub) → lookup j r ≡ some hub → IsHub j hub

outcome-IsHub :
    (args : RegistrationArgs) (j : Bytes) (named : Option (Option Command))
    (before : Option CommandHub) (hub : CommandHub)
    → ((cmd : Option Command) → named ≡ some cmd → IsHub j (record { kind = args.kind; cmd = cmd }))
    → ((old : CommandHub) → before ≡ some old → IsHub j old)
    → outcome args named before ≡ some hub
    → IsHub j hub
outcome-IsHub args j none none hub new old h = ground arith
outcome-IsHub args j none (some b) hub new old h = ground (arith, old b refl)
outcome-IsHub args j (some c) none hub new old h = ground (arith, new c refl)
outcome-IsHub args j (some c) (some b) hub new old h = ground (arith, new c refl, old b refl)

process-IsWellFormed :
    (args : RegistrationArgs) (r : Registry)
    → validate r args ≡ ok tt
    → IsWellFormed r
    → IsWellFormed (process args r)
process-IsWellFormed args r valid w = record {
  distinct = Distinct-process args r w.distinct;
  hubs = λ j hub e.
      outcome-IsHub args j (last_named args.commands j) (lookup j r) hub
        (λ cmd named.
          let (kind, admitted) = validate-IsAdmitted r args j cmd valid named in
          (admitted.named, kind, admitted.has_cmd))
        (λ old before. w.hubs j old before) (rw (lookup-process args r j w.distinct) at e);
}

-- Whatever is asked for, the registry stays well-formed.
pub register-IsWellFormed :
    (args : RegistrationArgs) (r : Registry) → IsWellFormed r → IsWellFormed (register args r).1
unfolding register
register-IsWellFormed args r w = elim (Result-cases (validate r args)) [
  | inl (u, valid) ↦ rw (valid, register) (process-IsWellFormed args r valid w)
  | inr (f, refused) ↦ rw (refused, register) w
]

known_kind :
    (args : RegistrationArgs) (r : Registry) (j : Bytes) (hub : CommandHub)
    → lookup j r ≡ some hub
    → validate_known args j (lookup j r) ≡ ok tt
    → hub.kind ≡ args.kind
unfolding validate_known
known_kind args r j hub there known = ground (arith, eq_iff hub.kind args.kind)

pub known_remote :
    (args : RegistrationArgs) (r : Registry) (j : Bytes) (hub : CommandHub)
    → lookup j r ≡ some hub
    → validate_known args j (lookup j r) ≡ ok tt
    → args.kind ≡ kind_remote_command
    → args.action ≢ action_register
unfolding validate_known
known_remote args r j hub there known k a = ground (
  arith,
  eq_iff hub.kind args.kind,
  eq_iff hub.kind kind_remote_command,
  eq_iff args.action action_register,
)

module _ (args : RegistrationArgs) (r : Registry) (w : Distinct r) (j : Bytes) (hub : CommandHub)
    (there : lookup j r ≡ some hub) where
  named_kind :
      (cmd : Option Command)
      → validate r args ≡ ok tt
      → last_named args.commands j ≡ some cmd
      → hub.kind ≡ args.kind
  named_kind cmd valid named =
      known_kind args r j hub there (validate-IsAdmitted r args j cmd valid named).1.known

  -- A name that is registered before and after a registration has the kind that it had.
  pub register_same_kind :
      (hub' : CommandHub) → lookup j (register args r).1 ≡ some hub' → hub'.kind ≡ hub.kind
  register_same_kind hub' e = elim (register-cases args r j w) [
    | inl same ↦ cc
    | inr (valid, after) ↦ elim (Option-cases (last_named args.commands j)) [
      | inl unmentioned ↦ ground arith
      | inr (cmd, named) ↦ ground (arith, named_kind cmd valid named)
    ]
  ]

  builtin_outcome :
      hub.kind ≡ kind_builtin_command
      → validate r args ≡ ok tt
      → outcome args (last_named args.commands j) (lookup j r) ≢ none
  builtin_outcome k valid = elim (Option-cases (last_named args.commands j)) [
    | inl unmentioned ↦ ground (arith, eq_iff hub.kind kind_local_command)
    | inr (cmd, named) ↦ ground (
      arith,
      named_kind cmd valid named,
      eq_iff hub.kind kind_local_command,
      eq_iff args.kind kind_remote_command,
    )
  ]

  -- A builtin command stays registered, as a builtin.
  pub register-builtin :
      hub.kind ≡ kind_builtin_command
      → (hub' : CommandHub) × (lookup j (register args r).1 ≡ some hub')
        × (hub'.kind ≡ kind_builtin_command)
  register-builtin k = elim (Option-cases (lookup j (register args r).1)) [
    | inr (hub', e) ↦ (hub', e, register_same_kind hub' e ∙ k)
    | inl gone ↦ elim (register-cases args r j w) [
      | inl same ↦ cc
      | inr (valid, after) ↦ absurd (builtin_outcome k valid (sym after ∙ gone))
    ]
  ]

  -- Registering the commands of a remote agent leaves every registered command as it is.
  pub register-remote_keeps :
      args.kind ≡ kind_remote_command
      → args.action ≡ action_register
      → lookup j (register args r).1 ≡ some hub
  register-remote_keeps k a = elim (register-cases args r j w) [
    | inl same ↦ same ∙ there
    | inr (valid, after) ↦ elim (Option-cases (last_named args.commands j)) [
      | inl unmentioned ↦
          ground (arith, eq_iff args.action action_register, eq_iff args.kind kind_local_command)
      | inr (cmd, named) ↦ absurd (
          known_remote args r j hub there (validate-IsAdmitted r args j cmd valid named).1.known k
            a)
    ]
  ]
