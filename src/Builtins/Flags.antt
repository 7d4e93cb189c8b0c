-- ===== src/Builtins/Flags.antt =====
-- The flags of the builtin commands: Go's package flag (1.12) as far as they use it, and the flag
-- set that each command declares.
use meeseeks_box.Base.{
  Bool, true, false, ◌||◌, List, [], ◌∷◌, Option, none, some, Bytes, str, ◌==◌, eqb, if◌then◌else◌,
  Result, ok, err, errorf, wrapf, fault, Error,
}
use meeseeks_box.Base.Integers.{parse_int, parse_bool}
use meeseeks_box.Base.Assoc.{Assoc, lookup}
use meeseeks_box.Builtins.Services.{Flags}

-- A flag of a set: whether it is a Boolean one, and its Set, on the variables of the command.
pub record FlagDef : Type 0 where
  pub is_bool : Bool
  pub set : Bytes → Flags → Result (Unit {0}) × Flags

abbrev pub FlagSet : Type 0
FlagSet = Assoc FlagDef

-- What one argument is: the end of the flags, with the arguments that are left; a failure, with
-- those; or a flag, with or without the argument behind it as its value.
pub data Step : Type 0 where
  stop : List Bytes → Step
  failed : Error → List Bytes → Flags → Step
  alone : Flags → Step
  with_value : Flags → Step

-- The name and the value of `name=value`, the `=` not being the first.
unfoldable pub split_name : Bytes → Bytes × Option Bytes
split_name [] = ([], none)
split_name (c ∷ s) =
    let (name, v) = split_name s in if eqb c 61 then ([], some s) else (c ∷ name, v)

abbrev pub split_first : Bytes → Bytes × Option Bytes
split_first [] = ([], none)
split_first (c ∷ s) = let (name, v) = split_name s in (c ∷ name, v)

abbrev pub set_bool : Bytes → Bytes → List Bytes → Result (Unit {0}) × Flags → Step
set_bool name v rest (ok _, flags) = alone flags
set_bool name v rest (err e, flags) =
    failed (wrapf "invalid boolean value %q for -%s: %v" (v ∷ name ∷ []) e) rest flags

abbrev pub set_value :
    (Flags → Step) → Bytes → Bytes → List Bytes → Result (Unit {0}) × Flags → Step
set_value next name v rest (ok _, flags) = next flags
set_value next name v rest (err e, flags) =
    failed (wrapf "invalid value %q for flag -%s: %v" (v ∷ name ∷ []) e) rest flags

abbrev pub or_true : Option Bytes → Bytes
or_true none = str "true"
or_true (some v) = v

-- A value stands behind the `=`, or is the next argument.
abbrev pub step_value : FlagDef → Flags → Bytes → Option Bytes → List Bytes → Step
step_value d flags name (some v) rest = set_value alone name v rest (d.set v flags)
step_value d flags name none [] = failed (errorf "flag needs an argument: -%s" (name ∷ [])) [] flags
step_value d flags name none (v ∷ rest) = set_value with_value name v rest (d.set v flags)

abbrev pub step_flag : Option FlagDef → Flags → Bytes → Option Bytes → List Bytes → Step
step_flag none flags name v rest =
    if name == str "help" || name == str "h"
    then failed (fault (str "flag: help requested")) rest flags
    else failed (errorf "flag provided but not defined: -%s" (name ∷ [])) rest flags
step_flag (some d) flags name v rest =
    if d.is_bool
    then set_bool name (or_true v) rest (d.set (or_true v) flags)
    else step_value d flags name v rest

-- The name behind one `-` or two.
abbrev pub step_named : FlagSet → Flags → Bytes → Bytes → List Bytes → Step
step_named fs flags s [] rest = failed (errorf "bad flag syntax: %s" (s ∷ [])) (s ∷ rest) flags
step_named fs flags s (c ∷ name) rest =
    if eqb c 45 || eqb c 61
    then failed (errorf "bad flag syntax: %s" (s ∷ [])) (s ∷ rest) flags
    else let (n, v) = split_first (c ∷ name) in step_flag (lookup n fs) flags n v rest

-- FlagSet.parseOne
unfoldable pub parse_one : FlagSet → Flags → Bytes → List Bytes → Step
parse_one fs flags [] rest = stop ([] ∷ rest)
parse_one fs flags (c ∷ []) rest = stop ((c ∷ []) ∷ rest)
parse_one fs flags (c ∷ d ∷ s) rest =
    if eqb c 45
    then (if eqb d 45
        then (if s == [] then stop rest else step_named fs flags (c ∷ d ∷ s) s rest)
        else step_named fs flags (c ∷ d ∷ s) (d ∷ s) rest)
    else stop ((c ∷ d ∷ s) ∷ rest)

abbrev pub ended : Flags → Result (Unit {0}) → List Bytes → Flags
ended flags r args = record flags { parsed = r; args = args }

-- FlagSet.Parse
unfoldable pub parse_flags : FlagSet → Flags → List Bytes → Flags
parse_flags fs flags [] = ended flags (ok tt) []
parse_flags fs flags (s ∷ []) = elim (parse_one fs flags s []) [
  | stop args ↦ ended flags (ok tt) args
  | failed e args after ↦ ended after (err e) args
  | alone after ↦ ended after (ok tt) []
  | with_value after ↦ ended after (ok tt) []
]
parse_flags fs flags (s ∷ v ∷ rest) = elim (parse_one fs flags s (v ∷ rest)) [
  | stop args ↦ ended flags (ok tt) args
  | failed e args after ↦ ended after (err e) args
  | alone after ↦ parse_flags fs after (v ∷ rest)
  | with_value after ↦ parse_flags fs after rest
]

-- flags.Int, flags.String and flags.Bool, for the variable that each of them gives
abbrev pub limit_flag : Bytes × FlagDef
limit_flag = (
  str "limit",
  record {
    is_bool = false;
    set = λ v flags. let (n, r) = parse_int v in (r, record flags { limit = n });
  },
)

abbrev pub all_flag : Bytes × FlagDef
all_flag = (
  str "all",
  record {
    is_bool = true;
    set = λ v flags. let (b, r) = parse_bool v in (r, record flags { all = b });
  },
)

abbrev pub text_flag : Bytes → (Bytes → Flags → Flags) → Bytes × FlagDef
text_flag name set = (name, record { is_bool = false; set = λ v flags. (ok tt, set v flags) })

abbrev pub status_flag : Bytes × FlagDef
status_flag = text_flag (str "status") (λ v flags. record flags { status = v })

abbrev pub user_flag : Bytes × FlagDef
user_flag = text_flag (str "user") (λ v flags. record flags { user = v })

abbrev pub channel_flag : Bytes × FlagDef
channel_flag = text_flag (str "channel") (λ v flags. record flags { channel = v })

abbrev pub command_flag : Bytes × FlagDef
command_flag = text_flag (str "command") (λ v flags. record flags { command = v })

-- The values before the arguments are parsed.
abbrev pub defaults : Flags
defaults = record {
  parsed = ok tt;
  args = [];
  all = false;
  limit = 5;
  status = [];
  user = [];
  channel = [];
  command = [];
}

unfoldable pub help_flags : List Bytes → Flags
help_flags = parse_flags (all_flag ∷ []) defaults

unfoldable pub jobs_flags : List Bytes → Flags
jobs_flags = parse_flags (limit_flag ∷ status_flag ∷ []) defaults

unfoldable pub audit_flags : List Bytes → Flags
audit_flags = parse_flags (limit_flag ∷ user_flag ∷ status_flag ∷ []) defaults

unfoldable pub tail_flags : List Bytes → Flags
tail_flags = parse_flags (limit_flag ∷ []) defaults

unfoldable pub head_flags : List Bytes → Flags
head_flags = parse_flags (limit_flag ∷ []) defaults

unfoldable pub tokens_flags : List Bytes → Flags
tokens_flags = parse_flags (limit_flag ∷ user_flag ∷ channel_flag ∷ command_flag ∷ []) defaults
