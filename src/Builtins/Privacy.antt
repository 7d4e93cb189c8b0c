-- ===== src/Builtins/Privacy.antt =====
-- What a builtin command shows of the jobs of other users, with the flags that its arguments hold.
use meeseeks_box.Base.{
  ℕ, ◌^◌, ◌<◌, ◌≤◌, ◌≡◌, refl, false, List, [], ◌∷◌, Option, none, some, Bytes, str, ◌==◌, eqb,
  arith, ok, Error, All, length, ◌⊎◌, inl, inr, Result-cases,
}
use meeseeks_box.Base.Decimal.{decimal, parse_uint-decimal}
use meeseeks_box.Base.Numerals.{decimal-head, parse_int-decimal}
use meeseeks_box.Base.Assoc.{lookup}
use meeseeks_box.Model.{Job}
use meeseeks_box.Builtins.Services.{
  Services, FindLaws, Flags, Reply, jobs_page, answer, refuse, reply_logs, parse_job_id,
}
use meeseeks_box.Builtins.Flags.{
  FlagSet, stop, with_value, split_name, parse_one, parse_flags, ended, defaults, jobs_flags,
  tail_flags, head_flags, limit_flag, status_flag,
}
use meeseeks_box.Builtins.JobCommands.{jobs}
use meeseeks_box.Builtins.LogCommands.{tail, head}
use meeseeks_box.Builtins.Ownership.{jobs-own, logs-own}
use meeseeks_box.Builtins.Dispatch.{Surroundings, execute}

-- An argument that does not begin with `-` ends the flags.
parse_one-plain :
    (fs : FlagSet) (flags : Flags) (c : ℕ) (s : Bytes) (rest : List Bytes)
    → eqb c 45 ≡ false
    → parse_one fs flags (c ∷ s) rest ≡ stop ((c ∷ s) ∷ rest)
unfolding parse_one
parse_one-plain fs flags c [] rest h = refl
parse_one-plain fs flags c (d ∷ s) rest h = rw h refl

plain_argument :
    (fs : FlagSet) (flags : Flags) (c : ℕ) (s : Bytes)
    → eqb c 45 ≡ false
    → parse_flags fs flags ((c ∷ s) ∷ []) ≡ ended flags (ok tt) ((c ∷ s) ∷ [])
unfolding parse_flags
plain_argument fs flags c s h = rw (parse_one-plain fs flags c s [] h, parse_flags) refl

number_argument :
    (fs : FlagSet) (flags : Flags) (id : ℕ)
    → id < 2 ^ 64
    → parse_flags fs flags (decimal id ∷ []) ≡ ended flags (ok tt) (decimal id ∷ [])
number_argument fs flags id h =
    let (c, s, e, lo, hi) = decimal-head id h in rw e (plain_argument fs flags c s (ground arith))

parse_job_id-decimal :
    (id : ℕ) (rest : List Bytes) → id < 2 ^ 64 → parse_job_id (decimal id ∷ rest) ≡ ok id
unfolding parse_job_id
parse_job_id-decimal id rest h = rw (parse_uint-decimal id h, parse_job_id) refl

-- No flag, or a limit.
abbrev pub limit_args : Option ℕ → List Bytes
limit_args none = []
limit_args (some n) = str "-limit" ∷ decimal n ∷ []

abbrev pub limit_of : Option ℕ → ℕ
limit_of none = 5
limit_of (some n) = n

parse_one-limit :
    (n : ℕ)
    → n < 2 ^ 63
    → parse_one (limit_flag ∷ status_flag ∷ []) defaults (str "-limit") (decimal n ∷ [])
      ≡ with_value (record defaults { limit = n })
unfolding parse_one lookup ◌==◌ split_name
parse_one-limit n h = rw (parse_int-decimal n h) refl

jobs_flags-limit :
    (limit : Option ℕ)
    → limit_of limit < 2 ^ 63
    → jobs_flags (limit_args limit) ≡ record defaults { limit = limit_of limit }
unfolding jobs_flags parse_flags
jobs_flags-limit none h = refl
jobs_flags-limit (some n) h = rw (parse_one-limit n h, parse_flags) refl

-- What `jobs` may answer a user with: a refusal, or own jobs up to a limit.
abbrev pub IsOwnList : {S : Type 0} → Bytes → ℕ → S → Option (Reply × S) → Type 0
IsOwnList {S} user limit w answered =
    ((e : Error) × (answered ≡ some (refuse e, w)))
    ⊎ ((found : List Job) × (answered ≡ some (answer (jobs_page found), w))
        × All (λ j. j.request.username ≡ user) found
        × (length found ≤ limit))

module _ {S : Type 0} (s : Services S) (around : Surroundings) where
  -- If Find gives only matches up to the limit: with no argument or with `-limit` and a number
  -- below 2 ^ 63, `jobs` changes nothing, and it is refused or answers with jobs of the user who
  -- asks, five at most, or as many as the limit says.
  pub jobs-IsOwnList :
      (laws : FindLaws s) (limit : Option ℕ) (job : Job) (w : S)
      → job.request.args ≡ limit_args limit
      → limit_of limit < 2 ^ 63
      → IsOwnList job.request.username (limit_of limit) w (execute s around (str "jobs") job w)
  unfolding execute lookup ◌==◌
  jobs-IsOwnList laws limit job w e h =
      let flags : jobs_flags job.request.args ≡ record defaults { limit = limit_of limit } =
        rw e (jobs_flags-limit limit h) in
      elim (Result-cases (jobs s (record defaults { limit = limit_of limit }) job w)) [
        | inr (x, refused) ↦ inl (x, rw (flags, refused) refl)
        | inl (o, shown) ↦
            let (found, page, own, few) =
              jobs-own s laws (record defaults { limit = limit_of limit }) job w o shown in
            inr (found, rw (flags, shown, page) refl, own, few)
      ]

  -- If Find gives only matches, and whoever asks with the ID of a job: `logs` is refused, or the job
  -- with that ID is one of the user's and its logs are the answer; but `tail` and `head` answer with the last and the first five lines of
  -- the job, and do not look whose it is. None of them changes anything.
  pub logs-tail-head :
      (laws : FindLaws s) (id : ℕ) (job : Job) (w : S)
      → job.request.args ≡ decimal id ∷ []
      → id < 2 ^ 64
      → (((e : Error) × (execute s around (str "logs") job w ≡ some (refuse e, w)))
          ⊎ ((j : Job) × (j.id ≡ id)
              × (j.request.username ≡ job.request.username)
              × (execute s around (str "logs") job w ≡ some (reply_logs (s.get_logs id w), w))))
        × (execute s around (str "tail") job w ≡ some (reply_logs (s.tail_logs id 5 w), w))
        × (execute s around (str "head") job w ≡ some (reply_logs (s.head_logs id 5 w), w))
  unfolding execute lookup ◌==◌ tail_flags head_flags tail head
  logs-tail-head laws id job w e h =
      let given : parse_job_id job.request.args ≡ ok id = rw e (parse_job_id-decimal id [] h) in
      (
        elim (logs-own s laws job w) [
          | inl (x, refused) ↦ inl (x, rw refused refl)
          | inr (j, parsed, own, shown) ↦
              let same : j.id ≡ id = cc (given, parsed) in inr (j, same, own, rw (shown, same) refl)
        ],
        rw (e, number_argument (limit_flag ∷ []) defaults id h, parse_job_id-decimal id [] h) refl,
        rw (e, number_argument (limit_flag ∷ []) defaults id h, parse_job_id-decimal id [] h) refl,
      )
