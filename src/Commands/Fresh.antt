-- ===== src/Commands/Fresh.antt =====
-- A registration of names that nothing is registered under is accepted.
use meeseeks_box.Base.{
  ◌≡◌, ◌≢◌, refl, true, false, List, [], ◌∷◌, none, Bytes, ◌==◌, arith, ok, All, eq_iff,
}
use meeseeks_box.Base.Assoc.{lookup}
use meeseeks_box.Base.Trim.{trim_space}
use meeseeks_box.Commands.{
  Registry, CommandRegistration, RegistrationArgs, action_register, is_kind, is_action,
  validate_command, validate_known, validate_commands, validate, register,
}

-- A command with a name, not nil, whose name is free.
abbrev pub IsFresh : Registry → CommandRegistration → Type 0
IsFresh r c = (trim_space c.name == [] ≡ false) × (c.cmd ≢ none) × (lookup c.name r ≡ none)

known_fresh :
    (args : RegistrationArgs) (name : Bytes)
    → args.action ≡ action_register
    → validate_known args name none ≡ ok tt
unfolding validate_known ◌==◌
known_fresh args name a = rw a refl

validate_commands-fresh :
    (r : Registry) (args : RegistrationArgs) (cs : List CommandRegistration)
    → args.action ≡ action_register
    → All (IsFresh r) cs
    → validate_commands r args cs ≡ ok tt
unfolding validate_commands validate_command
validate_commands-fresh r args [] a h = refl
validate_commands-fresh r args (c ∷ cs) a ((named, is, free), hs) =
    ground (arith, known_fresh args c.name a, validate_commands-fresh r args cs a hs)

validate-fresh :
    (r : Registry) (kind : Bytes) (cs : List CommandRegistration)
    → trim_space kind == [] ≡ false
    → is_kind kind ≡ true
    → All (IsFresh r) cs
    → validate r (record { kind = kind; action = action_register; commands = cs }) ≡ ok tt
unfolding validate is_action
validate-fresh r kind cs named known h =
    let args : RegistrationArgs = record { kind = kind; action = action_register; commands = cs } in
    ground (
      arith,
      validate_commands-fresh r args cs refl h,
      (eq_iff action_register action_register).1 refl,
    )

pub register-fresh :
    (r : Registry) (kind : Bytes) (cs : List CommandRegistration)
    → trim_space kind == [] ≡ false
    → is_kind kind ≡ true
    → All (IsFresh r) cs
    → (register (record { kind = kind; action = action_register; commands = cs }) r).0 ≡ ok tt
unfolding register
register-fresh r kind cs named known h = rw (validate-fresh r kind cs named known h, register) refl
