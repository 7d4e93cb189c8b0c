-- ===== src/Base/Results.antt =====
-- Go's `error` values, and the pair of a value and an error as a sum.
use Prim.Native.String.{String}
use mathlib.Core.Path.{◌≡◌, refl}
use mathlib.Core.Logic.{◌⊎◌, inl, inr}
use mathlib.Core.List.{List}
use meeseeks_box.Base.Strings.{Bytes}

-- The sentinels that the program compares or returns, an error made by `fmt.Errorf` (its format
-- and its texts), one that wraps another as its last text, and an error of a library.
pub data Error : Type 0 where
  no_job_with_id no_logs_for_job token_not_found alias_not_found no_job_id_as_argument : Error
  user_not_allowed channel_not_allowed only_im_allowed group_not_found user_not_in_group : Error
  unclosed_quote ignored_message no_command_to_run : Error
  errorf : String → List Bytes → Error
  wrapf : String → List Bytes → Error → Error
  fault : Bytes → Error

-- A nil error with the value, or an error, whose value no caller looks at.
pub data Result {ℓ} (A : Type ℓ) : Type ℓ where
  err : Error → Result A
  ok : A → Result A

-- `if err != nil { return err }`, in front of what follows
module _ {ℓ κ} {A : Type ℓ} {B : Type κ} where
  infixl 4 ◌>>=◌
  abbrev pub ◌>>=◌ : Result A → (A → Result B) → Result B
  err failure >>= next = err failure
  ok value >>= next = next value

  infixl 4 ◌>>◌
  abbrev pub ◌>>◌ : Result A → Result B → Result B
  first >> second = first >>= λ _. second

  -- If the whole succeeds then the first part did, with a value that the rest succeeds on.
  pub bind-eq-ok :
      (first : Result A) (next : A → Result B) {b : B}
      → (first >>= next) ≡ ok b
      → (value : A) × (first ≡ ok value) × (next value ≡ ok b)
  bind-eq-ok (err failure) next h = cc
  bind-eq-ok (ok value) next h = (value, refl, h)

-- `if err != nil { return fmt.Errorf(…, err) }`
abbrev pub or_wrap {ℓ} : {A : Type ℓ} → String → List Bytes → Result A → Result A
or_wrap format texts (ok a) = ok a
or_wrap format texts (err e) = err (wrapf format texts e)

pub Result-cases {ℓ} :
    {A : Type ℓ} (r : Result A) → ((a : A) × (r ≡ ok a)) ⊎ ((e : Error) × (r ≡ err e))
Result-cases (ok a) = inl (a, refl)
Result-cases (err e) = inr (e, refl)

pub or_wrap-eq-ok {ℓ} :
    {A : Type ℓ} (format : String) (texts : List Bytes) (r : Result A) {a : A}
    → or_wrap format texts r ≡ ok a
    → r ≡ ok a
or_wrap-eq-ok format texts (ok a) h = h
or_wrap-eq-ok format texts (err e) h = cc

pub or_wrap-eq-err {ℓ} :
    {A : Type ℓ} (format : String) (texts : List Bytes) (r : Result A) {e : Error}
    → or_wrap format texts r ≡ err e
    → (inner : Error) × (r ≡ err inner)
or_wrap-eq-err format texts (ok a) h = cc
or_wrap-eq-err format texts (err inner) h = (inner, refl)
