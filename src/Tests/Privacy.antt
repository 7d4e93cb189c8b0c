-- ===== src/Tests/Privacy.antt =====
-- Builtin commands with the flags of their arguments (commands/builtins/builtins.go).
use meeseeks_box.Base.{
  ◌≡◌, refl, [], ◌∷◌, ◌==◌, str, none, some, Option, Bytes, false, ok, err, Error, errorf, wrapf,
  arith, ◌⊎◌,
}
use meeseeks_box.Base.Decimal.{decimal, decimal_from}
use meeseeks_box.Base.Assoc.{Assoc, lookup}
use meeseeks_box.Base.Integers.{syntax_error, parse_int, parse_unsigned, number_from, digit_of}
use meeseeks_box.Model.{Job, Command}
use meeseeks_box.Builtins.Services.{reply_logs, refuse, answer, help_list}
use meeseeks_box.Builtins.Flags.{
  defaults, ended, jobs_flags, tail_flags, parse_flags, parse_one, split_name,
}
use meeseeks_box.Builtins.Dispatch.{Surroundings, execute}
use meeseeks_box.Builtins.Privacy.{limit_args, IsOwnList, jobs-IsOwnList, logs-tail-head}
use meeseeks_box.Builtins.Helping.{listed, help-lists}
use meeseeks_box.Tests.Access.{request, deploy}
use meeseeks_box.Tests.Recording.{job, one}
use meeseeks_box.Tests.Builtins.{services, services-FindLaws, asking}

abbrev around : Surroundings
around = record {
  groups = [];
  registered = (str "version", none) ∷ (str "deploy", some deploy) ∷ [];
  builtins = (str "version", none) ∷ [];
  version = record { version = str "1"; commit = str "c"; date = str "d" };
  show = λ e. [];
}

abbrev listing : Job
listing = record job { id = 8; request = record request { args = limit_args (some 1) } }

jobs-IsOwnList_example :
    IsOwnList listing.request.username 1
      (some one)
      (execute services around (str "jobs") listing (some one))
jobs-IsOwnList_example =
    jobs-IsOwnList services around services-FindLaws (some 1) listing (some one) refl (omega arith)

logs-tail-head_example :
    (((e : Error) × (execute services around (str "logs") asking (some one)
          ≡ some (refuse e, some one)))
      ⊎ ((j : Job) × (j.id ≡ 1)
          × (j.request.username ≡ asking.request.username)
          × (execute services around (str "logs") asking (some one)
              ≡ some (reply_logs (services.get_logs 1 (some one)), some one))))
    × (execute services around (str "tail") asking (some one)
        ≡ some (reply_logs (services.tail_logs 1 5 (some one)), some one))
    × (execute services around (str "head") asking (some one)
        ≡ some (reply_logs (services.head_logs 1 5 (some one)), some one))
logs-tail-head_example =
    logs-tail-head services around services-FindLaws 1 asking (some one)
      (unfold decimal decimal_from in refl) (omega arith)

abbrev help_asked : Job
help_asked = record job { id = 9; request = record request { args = [] } }

help-lists_example :
    (shown : Assoc (Option Command)) × (execute services around (str "help") help_asked (some one)
      ≡ some (answer (help_list shown), some one))
    × ((name : Bytes) → lookup name shown ≡ listed around.builtins false around.registered name)
help-lists_example = help-lists services around false help_asked (some one) refl

-- The parsing of flags stops at `--`, and takes a value behind `=`.
flags-dashes :
    tail_flags (str "--limit=0x10" ∷ str "--" ∷ str "-limit" ∷ [])
    ≡ ended (record defaults { limit = 16 }) (ok tt) (str "-limit" ∷ [])
unfolding tail_flags parse_flags parse_one split_name ◌==◌ lookup parse_int parse_unsigned
    number_from digit_of
flags-dashes = refl

-- A flag that jobs does not have is an error.
flags-unknown :
    (jobs_flags (str "-user" ∷ str "eve" ∷ [])).parsed
    ≡ err (errorf "flag provided but not defined: -%s" (str "user" ∷ []))
unfolding jobs_flags parse_flags parse_one split_name ◌==◌ lookup
flags-unknown = refl

-- tail goes on behind an error of its flags: the limit is 0 then.
flags-bad_limit :
    tail_flags (str "-limit" ∷ str "x" ∷ str "5" ∷ [])
    ≡ ended
        (record defaults { limit = 0 })
        (err (wrapf "invalid value %q for flag -%s: %v" (str "x" ∷ str "limit" ∷ []) syntax_error))
        (str "5" ∷ [])
unfolding tail_flags parse_flags parse_one split_name ◌==◌ lookup parse_int parse_unsigned
    number_from digit_of
flags-bad_limit = refl
