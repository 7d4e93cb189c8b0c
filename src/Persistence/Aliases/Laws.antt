-- ===== src/Persistence/Aliases/Laws.antt =====
-- A user's alias is found as it was created last, until it is removed.
use meeseeks_box.Base.{
  ◌≡◌, refl, sym, ◌∙◌, ap, false, ◌&&◌, List, [], ◌∷◌, Option, some, Bytes, ◌==◌, eq_refl, arith,
  if◌then◌else◌, Result, ok, err, or_wrap, or_wrap-eq-ok, bind-eq-ok, ◌>>=◌, ◌>>◌, alias_not_found,
  Result-cases, eq-cases, inl, inr,
}
use meeseeks_box.Base.Assoc.{Assoc, lookup, insert, lookup-insert, lookup-remove}
use meeseeks_box.Model.{Alias}
use meeseeks_box.Persistence.Bolt.{
  Bolt, BoltLaws, Codec, IsFaithful, create_if_missing, put_pair, delete_pair, lookup-put_pair,
  lookup-delete_pair,
}
use meeseeks_box.Persistence.Jobs.Views.{entries, cursor-create_if_missing}
use meeseeks_box.Persistence.Jobs.Lifecycle.{update-inv}
use meeseeks_box.Persistence.Db.{update-ok, update-err}
use meeseeks_box.Persistence.Aliases.{
  get_aliases_bucket, create_tx, create, must_exist, put_back, remove_tx, remove_alias, alias_of,
  get_tx, get,
}

module _ {P : Type 0} (b : Bolt P) (codec : Codec Alias P) (top : Result (Unit {0}))
    (laws : BoltLaws b) where
  -- The payload of a user's alias.
  abbrev stored : Bytes → Bytes → Assoc b.Bucket → Option P
  stored user alias users = lookup alias (entries b (lookup user users))

  opened :
      (user : Bytes) (users : Assoc b.Bucket) (bucket : b.Bucket)
      → get_aliases_bucket b codec top user users ≡ ok bucket
      → b.cursor bucket ≡ entries b (lookup user users)
  unfolding get_aliases_bucket
  opened user users bucket h =
      let (_, _, opens) = bind-eq-ok (or_wrap "could not get aliases bucket: %s" [] top) _ h in
      (cursor-create_if_missing b laws user (lookup user users) bucket opens).0

  abbrev command_of : Option P → Result (Bytes × List Bytes)
  command_of o = alias_of b codec top o >>= λ a. ok (a.command, a.args)

  -- What `get` answers, from what is stored.
  get-stored :
      (user alias : Bytes) (users : Assoc b.Bucket)
      → (get b codec top user alias (some users)).0
        ≡ (get_aliases_bucket b codec top user users >> command_of (stored user alias users))
  unfolding get get_tx
  get-stored user alias users = elim (Result-cases (get_aliases_bucket b codec top user users)) [
    | inr (e, refused) ↦
        rw refused
          (ap (λ r. r.0) (update-err (get_tx b codec top user alias) users e (rw refused refl)))
    | inl (bucket, opens) ↦
        let at : b.get alias bucket ≡ stored user alias users =
          laws.get-cursor alias bucket ∙ ap (lookup alias) (opened user users bucket opens) in
        elim (Result-cases (alias_of b codec top (stored user alias users))) [
          | inr (e, missing) ↦
              rw (opens, missing)
                (ap (λ r. r.0)
                  (update-err (get_tx b codec top user alias) users e
                    (rw (opens, at, missing) refl)))
          | inl (a, found) ↦
              rw (opens, found)
                (ap (λ r. r.0)
                  (update-ok (get_tx b codec top user alias) users (a.command, a.args)
                    (insert user bucket users) (rw (opens, at, found) refl)))
        ]
  ]

  -- The steps of a `create` that succeeded.
  created-steps :
      (user : Bytes) (a : Alias) (users users' : Assoc b.Bucket)
      → create_tx b codec top user a users ≡ ok (tt, users')
      → (bucket : b.Bucket) × (payload : P) × (bucket' : b.Bucket) × (get_aliases_bucket b codec top
            user users
          ≡ ok bucket)
        × (codec.marshal a ≡ ok payload)
        × (b.cursor bucket' ≡ put_pair a.alias payload (entries b (lookup user users)))
        × (users' ≡ insert user bucket' users)
  unfolding create_tx
  created-steps user a users users' h =
      let (bucket, opens, h₁) = bind-eq-ok _ _ h in
      let (payload, marshals, h₂) = bind-eq-ok _ _ h₁ in
      let (bucket', puts, h₃) = bind-eq-ok _ _ h₂ in
      (
        bucket,
        payload,
        bucket',
        opens,
        or_wrap-eq-ok _ _ _ marshals,
        laws.cursor-put a.alias payload bucket bucket' puts
            ∙ ap (put_pair a.alias payload) (opened user users bucket opens),
        cc h₃,
      )

  opened_existing :
      (user u : Bytes) (users users' : Assoc b.Bucket) (bucket bucket' : b.Bucket)
      → get_aliases_bucket b codec top user users ≡ ok bucket
      → lookup u users' ≡ some bucket'
      → get_aliases_bucket b codec top u users' ≡ ok bucket'
  unfolding get_aliases_bucket create_if_missing
  opened_existing user u users users' bucket bucket' h e =
      let (_, made, _) = bind-eq-ok (or_wrap "could not get aliases bucket: %s" [] top) _ h in
      rw (made, e) refl

  same_bucket :
      (u : Bytes) (users users' : Assoc b.Bucket)
      → lookup u users' ≡ lookup u users
      → get_aliases_bucket b codec top u users' ≡ get_aliases_bucket b codec top u users
  unfolding get_aliases_bucket
  same_bucket u users users' e = rw e refl

  stored-insert :
      (user u alias : Bytes) (users : Assoc b.Bucket) (bucket : b.Bucket)
      → stored u alias (insert user bucket users)
        ≡ (if user == u then lookup alias (b.cursor bucket) else stored u alias users)
  stored-insert user u alias users bucket = rw lookup-insert (ground arith)

  -- Once a creation of an alias succeeded, the user gets its command and arguments for it, and nothing that is
  -- asked for under another name, or by another user, has another answer than before.
  pub get-create_alias :
      (user alias command : Bytes) (args : List Bytes) (users : Assoc b.Bucket)
      (s' : Option (Assoc b.Bucket))
      → IsFaithful codec
      → create b codec top user alias command args (some users) ≡ (ok tt, s')
      → (u other : Bytes)
      → (get b codec top u other s').0 ≡ (
          if user == u && alias == other
          then ok (command, args)
          else (get b codec top u other (some users)).0)
  unfolding create
  get-create_alias user alias command args users s' faithful h u other =
      let a : Alias = record { alias = alias; command = command; args = args } in
      let (users', after, run) = update-inv (create_tx b codec top user a) users tt s' h in
      let (bucket, payload, bucket', opens, marshals, cursor, same) =
        created-steps user a users users' run in
      let read = faithful a payload marshals in
      rw
        (
          after,
          same,
          get-stored u other (insert user bucket' users),
          get-stored u other users,
          stored-insert,
        )
        (elim (eq-cases user u) [
          | inr n ↦
              rw (n, same_bucket u users (insert user bucket' users) (rw (lookup-insert, n) refl))
                refl
          | inl e ↦
              rw
                (
                  sym e,
                  eq_refl user,
                  opens,
                  opened_existing user user users (insert user bucket' users) bucket bucket' opens
                      (rw (lookup-insert, eq_refl user) refl),
                  cursor,
                  lookup-put_pair,
                )
                (ground (arith, read))
        ])

  -- A removal puts the bucket back, or deletes it if it is empty.
  put_back-stored :
      (user u other : Bytes) (users : Assoc b.Bucket) (bucket : b.Bucket) (left : Assoc P)
      → b.cursor bucket ≡ left
      → stored u other (put_back b codec top user bucket left users)
        ≡ (if user == u then lookup other left else stored u other users)
  unfolding lookup
  put_back-stored user u other users bucket [] e = rw lookup-remove (ground arith)
  put_back-stored user u other users bucket (entry ∷ left) e =
      stored-insert user u other users bucket ∙ rw e refl

  put_back-lookup :
      (user u : Bytes) (users : Assoc b.Bucket) (bucket : b.Bucket) (left : Assoc P)
      → user == u ≡ false
      → lookup u (put_back b codec top user bucket left users) ≡ lookup u users
  put_back-lookup user u users bucket [] n = rw (lookup-remove, n) refl
  put_back-lookup user u users bucket (entry ∷ left) n = rw (lookup-insert, n) refl

  reopened :
      (user : Bytes) (users : Assoc b.Bucket) (bucket bucket' fresh : b.Bucket) (left : Assoc P)
      → get_aliases_bucket b codec top user users ≡ ok bucket
      → b.create_bucket user ≡ ok fresh
      → (t : b.Bucket) × (get_aliases_bucket b codec top user
            (put_back b codec top user bucket' left users)
          ≡ ok t)
  unfolding get_aliases_bucket create_if_missing
  reopened user users bucket bucket' fresh [] opens creates =
      let (_, made, _) = bind-eq-ok (or_wrap "could not get aliases bucket: %s" [] top) _ opens in
      (fresh, rw (made, lookup-remove, eq_refl user, creates) refl)
  reopened user users bucket bucket' fresh (entry ∷ left) opens creates =
      let (_, made, _) = bind-eq-ok (or_wrap "could not get aliases bucket: %s" [] top) _ opens in
      (bucket', rw (made, lookup-insert, eq_refl user) refl)

  -- Once a removal of an alias succeeded, it is not found, and nothing else that is asked for has another
  -- answer than before, if the user's bucket can be made anew.
  pub get-remove_alias :
      (user alias : Bytes) (users : Assoc b.Bucket) (s' : Option (Assoc b.Bucket))
      (fresh : b.Bucket)
      → b.create_bucket user ≡ ok fresh
      → remove_alias b codec top user alias (some users) ≡ (ok tt, s')
      → (u other : Bytes)
      → (get b codec top u other s').0 ≡ (
          if user == u && alias == other
          then err alias_not_found
          else (get b codec top u other (some users)).0)
  unfolding remove_alias remove_tx
  get-remove_alias user alias users s' fresh creates h u other =
      let (users', after, run) = update-inv (remove_tx b codec top user alias) users tt s' h in
      let (bucket, opens, h₁) = bind-eq-ok (get_aliases_bucket b codec top user users) _ run in
      let (_, _, h₂) = bind-eq-ok (must_exist b codec top (b.get alias bucket)) _ h₁ in
      let (bucket', deletes, h₃) = bind-eq-ok (b.delete alias bucket) _ h₂ in
      let left = b.cursor bucket' in
      let same : put_back b codec top user bucket' left users ≡ users' = cc h₃ in
      let cursor : left ≡ delete_pair alias (entries b (lookup user users)) =
        laws.cursor-delete alias bucket bucket' deletes
        ∙ ap (delete_pair alias) (opened user users bucket opens) in
      let (t, reopens) = reopened user users bucket bucket' fresh left opens creates in
      rw
        (
          after,
          sym same,
          get-stored u other (put_back b codec top user bucket' left users),
          get-stored u other users,
          put_back-stored user u other users bucket' left refl,
        )
        (elim (eq-cases user u) [
          | inr n ↦ rw (n, same_bucket u users _ (put_back-lookup user u users bucket' left n)) refl
          | inl e ↦
              rw (sym e, eq_refl user, opens, reopens, cursor, lookup-delete_pair) (ground arith)
        ])
