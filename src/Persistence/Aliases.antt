-- ===== src/Persistence/Aliases.antt =====
-- persistence/aliases/aliases.go: each user's aliases, in a bucket of the user's within the bucket
-- of all of them.
pub mod Laws
use meeseeks_box.Base.{
  Bool, List, [], ◌∷◌, map, Option, none, some, Bytes, Result, ok, err, errorf, alias_not_found,
  or_wrap, ◌>>=◌, ◌>>◌,
}
use meeseeks_box.Base.Assoc.{Assoc, lookup, insert, remove}
use meeseeks_box.Model.{Alias}
use meeseeks_box.Persistence.Bolt.{Bolt, Codec, create_if_missing}
use meeseeks_box.Persistence.Db.{update}

-- The bucket of all the aliases is made if it is missing: `top` is what that returns. The state
-- is the buckets within it.
module _ {P : Type 0} (b : Bolt P) (codec : Codec Alias P) (top : Result (Unit {0})) where
  unfoldable pub get_aliases_bucket : Bytes → Assoc b.Bucket → Result (b.Bucket)
  get_aliases_bucket user_id users = do
    or_wrap "could not get aliases bucket: %s" [] top
    create_if_missing b user_id (lookup user_id users)

  unfoldable pub create_tx : Bytes → Alias → Assoc b.Bucket → Result (Unit {0} × Assoc b.Bucket)
  create_tx user_id a users = do
    bucket ← get_aliases_bucket user_id users
    payload ← or_wrap "could not marshal alias: %s" [] (codec.marshal a)
    bucket' ← b.put a.alias payload bucket
    ok (tt, insert user_id bucket' users)

  unfoldable pub create :
      Bytes
      → Bytes
      → Bytes
      → List Bytes
      → Option (Assoc b.Bucket)
      → Result (Unit {0}) × Option (Assoc b.Bucket)
  create user_id alias command args s =
      update (create_tx user_id (record { alias = alias; command = command; args = args })) s

  abbrev pub must_exist : Option P → Result (Unit {0})
  must_exist none = err (errorf "alias not found" [])
  must_exist (some _) = ok tt

  -- A bucket that is left empty is deleted.
  abbrev pub put_back : Bytes → b.Bucket → Assoc P → Assoc b.Bucket → Assoc b.Bucket
  put_back user_id bucket [] users = remove user_id users
  put_back user_id bucket (_ ∷ _) users = insert user_id bucket users

  unfoldable pub remove_tx : Bytes → Bytes → Assoc b.Bucket → Result (Unit {0} × Assoc b.Bucket)
  remove_tx user_id alias users = do
    bucket ← get_aliases_bucket user_id users
    must_exist (b.get alias bucket)
    bucket' ← b.delete alias bucket
    ok (tt, put_back user_id bucket' (b.cursor bucket') users)

  unfoldable pub remove_alias :
      Bytes → Bytes → Option (Assoc b.Bucket) → Result (Unit {0}) × Option (Assoc b.Bucket)
  remove_alias user_id alias s = update (remove_tx user_id alias) s

  -- The error of a payload that cannot be read is dropped: `partial` is what Unmarshal leaves then.
  abbrev pub alias_or : Alias → Result Alias → Alias
  alias_or partial (ok a) = a
  alias_or partial (err _) = partial

  unfoldable pub list_tx :
      (P → Alias) → Bytes → Assoc b.Bucket → Result (List Alias × Assoc b.Bucket)
  list_tx partial user_id users = do
    bucket ← get_aliases_bucket user_id users
    ok (
      map (λ e. alias_or (partial e.1) (codec.unmarshal e.1)) (b.cursor bucket),
      insert user_id bucket users,
    )

  unfoldable pub list :
      (P → Alias) → Bytes → Option (Assoc b.Bucket) → Result (List Alias) × Option (Assoc b.Bucket)
  list partial user_id s = update (list_tx partial user_id) s

  abbrev pub alias_of : Option P → Result Alias
  alias_of none = err alias_not_found
  alias_of (some payload) = codec.unmarshal payload

  -- `get` makes the user's bucket, and keeps it if the alias is found.
  unfoldable pub get_tx :
      Bytes → Bytes → Assoc b.Bucket → Result ((Bytes × List Bytes) × Assoc b.Bucket)
  get_tx user_id alias users = do
    bucket ← get_aliases_bucket user_id users
    a ← alias_of (b.get alias bucket)
    ok ((a.command, a.args), insert user_id bucket users)

  unfoldable pub get :
      Bytes
      → Bytes
      → Option (Assoc b.Bucket)
      → Result (Bytes × List Bytes) × Option (Assoc b.Bucket)
  get user_id alias s = update (get_tx user_id alias) s
