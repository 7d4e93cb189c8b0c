-- ===== src/Commands/Lookup.antt =====
-- Finding the command of a request, and taking an agent's commands back.
use meeseeks_box.Base.{
  ◌≡◌, refl, true, false, List, [], ◌∷◌, Option, none, some, Bytes, ◌==◌, eq_refl, arith, Result,
  ok, Option-cases, Bool-cases, ◌⊎◌, All, All-of, Elem, here, there, ◌∙◌, inl, inr,
}
use meeseeks_box.Base.Assoc.{lookup, Distinct}
use meeseeks_box.Base.Trim.{trim_space}
use meeseeks_box.Model.{Request, Command}
use meeseeks_box.Commands.{
  CommandHub, Registry, CommandRegistration, RegistrationArgs, kind_remote_command, action_register,
  action_unregister, validate_known, validate_command, validate_commands, validate, process,
  register, find, aliased,
}
use meeseeks_box.Commands.Registration.{validate-IsAdmitted, lookup-process, Distinct-process}
use meeseeks_box.Commands.Contents.{last_named, registered}
use meeseeks_box.Commands.Ownership.{known_remote, IsWellFormed}

-- The same names with other commands.
abbrev pub renew :
    (CommandRegistration → Command) → List CommandRegistration → List CommandRegistration
renew f [] = []
renew f (c ∷ cs) = record { name = c.name; cmd = some (f c) } ∷ renew f cs

abbrev pub remote_args : Bytes → List CommandRegistration → RegistrationArgs
remote_args action cs = record { kind = kind_remote_command; action = action; commands = cs }

last_named-renew :
    (f : CommandRegistration → Command) (cs : List CommandRegistration) (j : Bytes)
    → ((last_named cs j ≡ none) × (last_named (renew f cs) j ≡ none))
      ⊎ ((cmd : Option Command) × (cmd' : Option Command) × (last_named cs j ≡ some cmd)
          × (last_named (renew f cs) j ≡ some cmd'))
last_named-renew f [] j = inl (refl, refl)
last_named-renew f (c ∷ cs) j = elim (last_named-renew f cs j) [
  | inr (cmd, cmd', e, e') ↦ inr (cmd, cmd', ground arith, ground arith)
  | inl (e, e') ↦ elim (Bool-cases (c.name == j)) [
    | inl t ↦ inr (c.cmd, some (f c), ground arith, ground arith)
    | inr n ↦ inl (ground arith, ground arith)
  ]
]

pub last_named-Elem :
    (c : CommandRegistration) (cs : List CommandRegistration)
    → Elem c cs
    → (cmd : Option Command) × (last_named cs c.name ≡ some cmd)
last_named-Elem c _ (here {xs}) = elim (Option-cases (last_named xs c.name)) [
  | inl e ↦ (c.cmd, ground (arith, eq_refl c.name))
  | inr (cmd, e) ↦ (cmd, ground arith)
]
last_named-Elem c _ (there {x} {xs} l) =
    let (cmd, e) = last_named-Elem c xs l in (cmd, ground arith)

abbrev IsRemote : Registry → CommandRegistration → Type 0
IsRemote r c =
    (trim_space c.name == [] ≡ false)
    × ((cmd : Option Command) × (lookup c.name r
          ≡ some (record { kind = kind_remote_command; cmd = cmd })))

known_back :
    (all : List CommandRegistration) (j : Bytes) (cmd : Option Command)
    → validate_known
        (remote_args action_unregister all)
        j
        (some (record { kind = kind_remote_command; cmd = cmd }))
      ≡ ok tt
unfolding validate_known ◌==◌
known_back all j cmd = refl

validate_renewed :
    (f : CommandRegistration → Command) (r : Registry) (all cs : List CommandRegistration)
    → All (IsRemote r) cs
    → validate_commands r (remote_args action_unregister all) (renew f cs) ≡ ok tt
unfolding validate_commands validate_command
validate_renewed f r all [] h = refl
validate_renewed f r all (c ∷ cs) ((named, (cmd, e)), hs) =
    ground (arith, known_back all c.name cmd, validate_renewed f r all cs hs)

module _ (f : CommandRegistration → Command) (cs : List CommandRegistration) (r : Registry)
    (w : Distinct r) (valid : validate r (remote_args action_register cs) ≡ ok tt) where
  abbrev after : Registry
  after = process (remote_args action_register cs) r

  lookup-after :
      (j : Bytes) → lookup j after ≡ registered kind_remote_command (last_named cs j) (lookup j r)
  unfolding ◌==◌
  lookup-after j = lookup-process (remote_args action_register cs) r j w

  admitted-IsRemote : (c : CommandRegistration) → Elem c cs → IsRemote after c
  admitted-IsRemote c l =
      let (cmd, e) = last_named-Elem c cs l in
      (
        (validate-IsAdmitted r (remote_args action_register cs) c.name cmd valid e).1.named,
        (cmd, rw (lookup-after c.name, e)),
      )

  validate_back : validate after (remote_args action_unregister (renew f cs)) ≡ ok tt
  unfolding validate trim_space ◌==◌
  validate_back = validate_renewed f after (renew f cs) cs (All-of cs admitted-IsRemote)

  fresh_name : (j : Bytes) (cmd : Option Command) → last_named cs j ≡ some cmd → lookup j r ≡ none
  fresh_name j cmd e = elim (Option-cases (lookup j r)) [
    | inl n ↦ n
    | inr (hub, known) ↦ absurd (
        known_remote (remote_args action_register cs) r j hub known
          (validate-IsAdmitted r (remote_args action_register cs) j cmd valid e).1.known refl refl)
  ]

  restored :
      (j : Bytes)
      → lookup j (process (remote_args action_unregister (renew f cs)) after) ≡ lookup j r
  unfolding ◌==◌
  restored j =
      lookup-process (remote_args action_unregister (renew f cs)) after j
        (Distinct-process (remote_args action_register cs) r w)
      ∙ rw (lookup-after j) (elim (last_named-renew f cs j) [
        | inl (e, e') ↦ rw (e, e')
        | inr (cmd, cmd', e, e') ↦ rw (e, e', fresh_name j cmd e)
      ])

register-ok_valid :
    (args : RegistrationArgs) (r : Registry) → (register args r).0 ≡ ok tt → validate r args ≡ ok tt
unfolding register
register-ok_valid args r h = ground arith

pub register-valid :
    (args : RegistrationArgs) (r : Registry)
    → validate r args ≡ ok tt
    → register args r ≡ (ok tt, process args r)
unfolding register
register-valid args r h = rw (h, register)

-- If the commands of a remote agent were registered, then unregistering the same names, with
-- whatever commands, is accepted, and every name is again what it was before.
pub unregister-register :
    (f : CommandRegistration → Command) (cs : List CommandRegistration) (r : Registry)
    → Distinct r
    → (register (remote_args action_register cs) r).0 ≡ ok tt
    → ((register
          (remote_args action_unregister (renew f cs))
          (register (remote_args action_register cs) r).1).0
        ≡ ok tt)
      × ((j : Bytes)
          → lookup j
              (register
                (remote_args action_unregister (renew f cs))
                (register (remote_args action_register cs) r).1).1
            ≡ lookup j r)
unregister-register f cs r w h =
    let valid = register-ok_valid (remote_args action_register cs) r h in
    rw (register-valid (remote_args action_register cs) r valid) (
      rw
        (register-valid (remote_args action_unregister (renew f cs)) (after f cs r w valid)
          (validate_back f cs r w valid))
        (refl, restored f cs r w valid))

blank_name : (r : Registry) → IsWellFormed r → lookup [] r ≡ none
unfolding trim_space ◌==◌
blank_name r w = elim (Option-cases (lookup [] r)) [
  | inl e ↦ e
  | inr (hub, e) ↦ cc ((w.hubs [] hub e).0)
]

hub_has_cmd :
    (r : Registry)
    → IsWellFormed r
    → (j : Bytes) (hub : CommandHub) → lookup j r ≡ some hub
    → (cmd : Command) × (hub.cmd ≡ some cmd)
hub_has_cmd r w j hub e = elim (Option-cases hub.cmd) [
  | inl nil ↦ absurd ((w.hubs j hub e).2 nil)
  | inr found ↦ found
]

-- A command that is found is not nil, and the registry has it under the name that the request
-- has then.
pub find_sound :
    (r : Registry) (alias : Result (Bytes × List Bytes)) (req : Request)
    → IsWellFormed r
    → (find r alias req).1 ≡ true
    → (cmd : Command) × ((find r alias req).0 ≡ some cmd)
      × ((hub : CommandHub) × (lookup (find r alias req).2.command r ≡ some hub)
          × (hub.cmd ≡ some cmd))
unfolding find
find_sound r alias req w h = elim (Option-cases (lookup (aliased alias).0 r)) [
  | inr (hub, e) ↦
      let (cmd, has) = hub_has_cmd r w (aliased alias).0 hub e in
      rw (e, find) (cmd, has, (hub, e, has))
  | inl absent ↦ elim (Option-cases (lookup req.command r)) [
    | inl none_at_all ↦ absurd (ground arith)
    | inr (hub, e) ↦
        let (cmd, has) = hub_has_cmd r w req.command hub e in
        rw (absent, find) (cmd, rw (e) has, (hub, e, has))
  ]
]
