-- ===== src/Persistence/Tokens/Laws.antt =====
-- Created tokens are found until they are revoked.
use meeseeks_box.Base.{
  ℕ, ◌≤◌, ◌≡◌, refl, sym, ap, true, List, [], ◌∷◌, ◌++◌, Option, none, some, Bytes, ◌==◌, arith,
  if◌then◌else◌, ok, err, token_not_found, or_wrap-eq-ok, bind-eq-ok, All, All-append, length,
  length-append, ltb, ltb→lt, Bool-cases, inl, inr,
}
use meeseeks_box.Base.Assoc.{lookup}
use meeseeks_box.Model.{ApiToken, ApiTokenFilter}
use meeseeks_box.Persistence.Bolt.{
  Bolt, BoltLaws, Codec, IsFaithful, lookup-put_pair, lookup-delete_pair,
}
use meeseeks_box.Persistence.Db.{update, view}
use meeseeks_box.Persistence.Jobs.Views.{entries, cursor-create_if_missing}
use meeseeks_box.Persistence.Jobs.Lifecycle.{update-inv}
use meeseeks_box.Persistence.Tokens.{
  tokens_bucket_key, new_token, create_tx, create, get, payload_of, revoke_tx, revoke, find_loop,
  find, payloads,
}

module _ {P : Type 0} (b : Bolt P) (codec : Codec ApiToken P) (laws : BoltLaws b) where
  payload_of-eq :
      (id : Bytes) (db : Option b.Bucket) → payload_of b codec id db ≡ lookup id (entries b db)
  unfolding lookup
  payload_of-eq id none = refl
  payload_of-eq id (some t) = laws.get-cursor id t

  -- A created token is read back with what it was created from, and no other token changes.
  pub get-create_token :
      (token user_link channel_link text : Bytes) (now : ℕ) (db : Option b.Bucket)
      (s' : Option (Option b.Bucket))
      → IsFaithful codec
      → create b codec token now user_link channel_link text (some db) ≡ (token, ok tt, s')
      → (id : Bytes)
      → get b codec id s' ≡ (
          if token == id
          then ok (new_token token user_link channel_link text now)
          else get b codec id (some db))
  unfolding create get create_tx view
  get-create_token token user_link channel_link text now db s' faithful h id =
      let t = new_token token user_link channel_link text now in
      let (db', after, run) = update-inv (create_tx b codec t) db tt s' (ap (λ r. (r.1, r.2)) h) in
      let (bucket, opens, h₁) = bind-eq-ok _ _ run in
      let (payload, marshals, h₂) = bind-eq-ok _ _ h₁ in
      let (bucket', puts, h₃) = bind-eq-ok _ _ h₂ in
      let same : some bucket' ≡ db' = cc h₃ in
      let read = faithful t payload (or_wrap-eq-ok _ _ _ marshals) in
      let (old, _) = cursor-create_if_missing b laws tokens_bucket_key db bucket opens in
      rw
        (
          after,
          sym same,
          payload_of-eq id db,
          payload_of-eq id (some bucket'),
          laws.cursor-put token payload bucket bucket' puts,
          old,
          lookup-put_pair,
        )
        (ground arith)

  -- A revoked token is gone, and no other token changes.
  pub get-revoke_token :
      (token : Bytes) (db : Option b.Bucket) (s' : Option (Option b.Bucket))
      → revoke b codec token (some db) ≡ (ok tt, s')
      → (id : Bytes)
      → get b codec id s' ≡ (if token == id then err token_not_found else get b codec id (some db))
  unfolding revoke get update view
  get-revoke_token token none s' h id = cc (ap (λ r. r.0) h)
  get-revoke_token token (some bucket) s' h id =
      let (db', after, run) = update-inv (revoke_tx b codec token) (some bucket) tt s' h in
      let (bucket', deletes, h₁) = bind-eq-ok _ _ run in
      let same : some bucket' ≡ db' = cc h₁ in
      rw
        (
          after,
          sym same,
          laws.get-cursor id bucket',
          laws.get-cursor id bucket,
          laws.cursor-delete token bucket bucket' deletes,
          lookup-delete_pair,
        )
        (ground arith)

  find_loop-matches :
      (f : ApiTokenFilter) (ps : List P) (found ts : List ApiToken)
      → All (λ t. f.match t ≡ true) found
      → length found ≤ f.limit
      → find_loop b codec f ps found ≡ ok ts
      → All (λ t. f.match t ≡ true) ts × (length ts ≤ f.limit)
  unfolding find_loop
  find_loop-matches f [] found ts all short h =
      let same : found ≡ ts = cc h in rw (sym same) (all, short)
  find_loop-matches f (p ∷ ps) found ts all short h =
      elim (Bool-cases (ltb (length found) f.limit)) [
        | inr enough ↦ let same : found ≡ ts = cc (rw enough at h) in rw (sym same) (all, short)
        | inl more ↦
            let (t, read, h₁) = bind-eq-ok (codec.unmarshal p) _ (rw more at h) in
            elim (Bool-cases (f.match t)) [
              | inr miss ↦ find_loop-matches f ps found ts all short (rw miss at h₁)
              | inl hit ↦
                  find_loop-matches f ps (found ++ t ∷ []) ts
                    (All-append (λ u. f.match u ≡ true) found (t ∷ []) all (hit, tt))
                    (omega
                      (arith, length-append found (t ∷ []), ltb→lt (length found) f.limit more))
                    (rw hit at h₁)
            ]
      ]

  -- A search of the tokens that succeeds answers matches only, and no more than the limit.
  pub find_tokens-matches :
      (f : ApiTokenFilter) (s : Option (Option b.Bucket)) (ts : List ApiToken)
      → find b codec f s ≡ ok ts
      → All (λ t. f.match t ≡ true) ts × (length ts ≤ f.limit)
  unfolding find view
  find_tokens-matches f none ts h = cc
  find_tokens-matches f (some db) ts h =
      find_loop-matches f (payloads b codec db) [] ts tt (omega arith) h
