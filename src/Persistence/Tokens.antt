-- ===== src/Persistence/Tokens.antt =====
-- persistence/tokens/tokens.go: the API tokens, in a bucket by token. The token is a random UUID,
-- which is an argument, as the time is.
pub mod Laws
use meeseeks_box.Base.{
  ℕ, Bool, List, [], ◌∷◌, ◌++◌, map, Option, none, some, Bytes, str, ltb, if◌then◌else◌, length,
  Result, ok, err, token_not_found, or_wrap, ◌>>=◌,
}
use meeseeks_box.Model.{ApiToken, ApiTokenFilter}
use meeseeks_box.Persistence.Bolt.{Bolt, Codec, create_if_missing}
use meeseeks_box.Persistence.Db.{update, view}

abbrev pub tokens_bucket_key : Bytes
tokens_bucket_key = str "tokens"

abbrev pub new_token : Bytes → Bytes → Bytes → Bytes → ℕ → ApiToken
new_token token user_link channel_link text now = record {
  token_id = token;
  user_link = user_link;
  channel_link = channel_link;
  text = text;
  created_on = now;
}

-- The state is the bucket, there or not.
module _ {P : Type 0} (b : Bolt P) (codec : Codec ApiToken P) where
  unfoldable pub create_tx : ApiToken → Option b.Bucket → Result (Unit {0} × Option b.Bucket)
  create_tx t db = do
    bucket ← create_if_missing b tokens_bucket_key db
    payload ← or_wrap "could not marshal token: %s" [] (codec.marshal t)
    bucket' ← b.put t.token_id payload bucket
    ok (tt, some bucket')

  -- The token is returned with an error too.
  unfoldable pub create :
      Bytes
      → ℕ
      → Bytes
      → Bytes
      → Bytes
      → Option (Option b.Bucket)
      → Bytes × Result (Unit {0}) × Option (Option b.Bucket)
  create token now user_link channel_link text s =
      let (r, s') = update (create_tx (new_token token user_link channel_link text now)) s in
      (token, r, s')

  abbrev pub payload_of : Bytes → Option b.Bucket → Option P
  payload_of id none = none
  payload_of id (some bucket) = b.get id bucket

  abbrev pub token_of : Option P → Result ApiToken
  token_of none = err token_not_found
  token_of (some payload) = codec.unmarshal payload

  unfoldable pub get : Bytes → Option (Option b.Bucket) → Result ApiToken
  get id s = view (λ db. token_of (payload_of id db)) s

  abbrev pub revoke_tx : Bytes → Option b.Bucket → Result (Unit {0} × Option b.Bucket)
  revoke_tx id none = err token_not_found
  revoke_tx id (some bucket) = do bucket' ← b.delete id bucket; ok (tt, some bucket')

  unfoldable pub revoke :
      Bytes → Option (Option b.Bucket) → Result (Unit {0}) × Option (Option b.Bucket)
  revoke id s = update (revoke_tx id) s

  -- the loop of `find` over the payloads from the first key on
  unfoldable pub find_loop : ApiTokenFilter → List P → List ApiToken → Result (List ApiToken)
  find_loop filter [] tokens = ok tokens
  find_loop filter (payload ∷ rest) tokens =
      if ltb (length tokens) filter.limit
      then (do
        t ← codec.unmarshal payload
        find_loop filter rest (if filter.match t then tokens ++ t ∷ [] else tokens))
      else ok tokens

  abbrev pub payloads : Option b.Bucket → List P
  payloads none = []
  payloads (some bucket) = map (λ e. e.1) (b.cursor bucket)

  unfoldable pub find : ApiTokenFilter → Option (Option b.Bucket) → Result (List ApiToken)
  unfolding find_loop
  find filter s = view (λ db. find_loop filter (payloads db) []) s
