-- ===== src/Tests/Registering.antt =====
-- Registrations of commands and lookups of requests (commands/commands.go).
use meeseeks_box.Base.{
  ◌≡◌, refl, ◌==◌, eq-cases, eq_iff, inl, inr, subst, List, [], ◌∷◌, Bytes, str, some, Result, ok,
  err, Error,
}
use meeseeks_box.Base.Assoc.{Distinct, lookup}
use meeseeks_box.Base.Trim.{trim_space}
use meeseeks_box.Model.{Command}
use meeseeks_box.Commands.{
  Registry, CommandHub, CommandRegistration, RegistrationArgs, register, is_kind,
  kind_builtin_command, action_register, action_unregister,
}
use meeseeks_box.Commands.Contents.{last_named}
use meeseeks_box.Commands.Registration.{outcome, register_atomic}
use meeseeks_box.Commands.Ownership.{IsHub, IsWellFormed, register-IsWellFormed}
use meeseeks_box.Commands.Lookup.{remote_args, renew, unregister-register}
use meeseeks_box.Tests.Access.{deploy}

abbrev pub help_hub : CommandHub
help_hub = record { kind = kind_builtin_command; cmd = some deploy }

abbrev pub registry : Registry
registry = (str "help", help_hub) ∷ []

pub registry-Distinct : Distinct registry
unfolding lookup
registry-Distinct = (refl, tt)

help_hub-IsHub : IsHub (str "help") help_hub
unfolding trim_space is_kind ◌==◌
help_hub-IsHub = (refl, refl, λ e. cc e)

registry-hubs : (j : Bytes) (hub : CommandHub) → lookup j registry ≡ some hub → IsHub j hub
unfolding lookup
registry-hubs j hub e = elim (eq-cases (str "help") j) [
  | inl same ↦
      let value : help_hub ≡ hub = cc (e, (eq_iff (str "help") j).1 same) in
      subst (λ k. IsHub k hub) same (subst (λ h. IsHub (str "help") h) value help_hub-IsHub)
  | inr other ↦ cc (e, other)
]

pub registry-IsWellFormed : IsWellFormed registry
registry-IsWellFormed = record { distinct = registry-Distinct; hubs = registry-hubs }

abbrev offered : List CommandRegistration
offered = record { name = str "deploy"; cmd = some deploy } ∷ []

abbrev offer : RegistrationArgs
offer = remote_args action_register offered

register_atomic_example :
    ((e : Error) → (register offer registry).0 ≡ err e → (register offer registry).1 ≡ registry)
    × ((register offer registry).0 ≡ ok tt
        → (j : Bytes)
        → lookup j (register offer registry).1
          ≡ outcome offer (last_named offer.commands j) (lookup j registry))
register_atomic_example = register_atomic offer registry registry-Distinct

register-IsWellFormed_example : IsWellFormed (register offer registry).1
register-IsWellFormed_example = register-IsWellFormed offer registry registry-IsWellFormed

has_help : lookup (str "help") registry ≡ some help_hub
unfolding lookup ◌==◌
has_help = refl

offer-accepted : (register offer registry).0 ≡ ok tt
unfolding register lookup ◌==◌ trim_space
offer-accepted = refl

abbrev same : CommandRegistration → Command
same c = deploy

unregister-register_example :
    ((register (remote_args action_unregister (renew same offered)) (register offer registry).1).0
      ≡ ok tt)
    × ((j : Bytes)
        → lookup j
            (register
              (remote_args action_unregister (renew same offered))
              (register offer registry).1).1
          ≡ lookup j registry)
unregister-register_example =
    unregister-register same offered registry registry-Distinct offer-accepted

abbrev an_alias : Result (Bytes × List Bytes)
an_alias = ok (str "help", str "-all" ∷ [])
