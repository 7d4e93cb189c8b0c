-- ===== src/Commands/Contents.antt =====
-- What the registry holds behind each step of a registration.
use meeseeks_box.Base.{
  ◌≡◌, refl, List, [], ◌∷◌, Option, none, some, Bytes, ◌==◌, eq_iff, if◌then◌else◌, arith,
}
use meeseeks_box.Base.Assoc.{
  lookup, remove, lookup-insert, lookup-remove, Distinct, Distinct-remove, Distinct-insert,
}
use meeseeks_box.Model.{Command}
use meeseeks_box.Commands.{
  CommandHub, Registry, CommandRegistration, remove_local, remove_named, insert_named,
  kind_local_command,
}

-- The command that a list of registrations leaves under a name: the last one.
abbrev pub last_named : List CommandRegistration → Bytes → Option (Option Command)
last_named [] j = none
last_named (c ∷ cs) j = elim (last_named cs j) [
  | some cmd ↦ some cmd
  | none ↦ if c.name == j then some c.cmd else none
]

abbrev pub registered : Bytes → Option (Option Command) → Option CommandHub → Option CommandHub
registered kind none before = before
registered kind (some cmd) before = some (record { kind = kind; cmd = cmd })

pub lookup-insert_named :
    (kind : Bytes) (cs : List CommandRegistration) (r : Registry) (j : Bytes)
    → lookup j (insert_named kind cs r) ≡ registered kind (last_named cs j) (lookup j r)
unfolding insert_named
lookup-insert_named kind [] r j = refl
lookup-insert_named kind (c ∷ cs) r j =
    rw (lookup-insert_named kind cs _ j, lookup-insert) (ground arith)

abbrev pub unnamed : Option (Option Command) → Option CommandHub → Option CommandHub
unnamed none before = before
unnamed (some _) before = none

pub lookup-remove_named :
    (cs : List CommandRegistration) (r : Registry) (j : Bytes)
    → lookup j (remove_named cs r) ≡ unnamed (last_named cs j) (lookup j r)
unfolding remove_named
lookup-remove_named [] r j = refl
lookup-remove_named (c ∷ cs) r j =
    rw (lookup-remove_named cs (remove c.name r) j, lookup-remove) (ground arith)

abbrev pub unless_local : Option CommandHub → Option CommandHub
unless_local none = none
unless_local (some hub) = if hub.kind == kind_local_command then none else some hub

pub lookup-remove_local :
    (r : Registry) (j : Bytes) → Distinct r → lookup j (remove_local r) ≡ unless_local (lookup j r)
unfolding remove_local lookup
lookup-remove_local [] j h = refl
lookup-remove_local ((name, hub) ∷ r) j (h, hs) =
    ground (arith, lookup-remove_local r j hs, eq_iff name j)

pub Distinct-remove_local : (r : Registry) → Distinct r → Distinct (remove_local r)
unfolding remove_local
Distinct-remove_local [] h = tt
Distinct-remove_local ((name, hub) ∷ r) (h, hs) =
    ground (arith, lookup-remove_local r name hs, Distinct-remove_local r hs)

pub Distinct-remove_named :
    (cs : List CommandRegistration) (r : Registry) → Distinct r → Distinct (remove_named cs r)
unfolding remove_named
Distinct-remove_named [] r h = h
Distinct-remove_named (c ∷ cs) r h =
    Distinct-remove_named cs (remove c.name r) (Distinct-remove c.name r h)

pub Distinct-insert_named :
    (kind : Bytes) (cs : List CommandRegistration) (r : Registry)
    → Distinct r
    → Distinct (insert_named kind cs r)
unfolding insert_named
Distinct-insert_named kind [] r h = h
Distinct-insert_named kind (c ∷ cs) r h =
    Distinct-insert_named kind cs _ (Distinct-insert c.name _ r h)
