-- ===== src/Api.antt =====
-- api/api.go: the requests that are posted with an API token. The chat client that knows users
-- and channels is an argument, and so is the store of the tokens.
pub mod Posting
use meeseeks_box.Base.{
  Bool, List, [], ◌∷◌, ◌++◌, Bytes, str, ◌==◌, if◌then◌else◌, Result, ok, err, Error, errorf, ◌>>=◌,
}
use meeseeks_box.Model.{Request, ApiToken}
use meeseeks_box.Parser.{parse}

pub record Enricher : Type 0 where
  pub parse_channel_link : Bytes → Result Bytes
  pub parse_user_link : Bytes → Result Bytes
  pub get_username : Bytes → Bytes
  pub get_user_link : Bytes → Bytes
  pub get_channel : Bytes → Bytes
  pub get_channel_link : Bytes → Bytes
  pub is_im : Bytes → Bool

-- What a post leads to: a status with an error, a request that is sent on with the status of
-- acceptance, or a panic, behind which the server closes the connection.
pub data Posted : Type 0 where
  bad_request unauthorized : Error → Posted
  accepted : Request → Posted
  panicked : Posted

abbrev pub request_of : Enricher → Bytes → Bytes → Bytes → List Bytes → Request
request_of e channel_id user_id command args = record {
  command = command;
  args = args;
  user_id = user_id;
  username = e.get_username user_id;
  user_link = e.get_user_link user_id;
  channel_id = channel_id;
  channel = e.get_channel channel_id;
  channel_link = e.get_channel_link channel_id;
  is_im = e.is_im channel_id;
}

-- `args[0]` of an empty slice panics.
abbrev pub sent : Enricher → Bytes → Bytes → List Bytes → Posted
sent e channel_id user_id [] = panicked
sent e channel_id user_id (command ∷ args) = accepted (request_of e channel_id user_id command args)

abbrev pub or_bad_request : Result Posted → Posted
or_bad_request (ok p) = p
or_bad_request (err e) = bad_request e

unfoldable pub send_message : Enricher → ApiToken → Bytes → Result Posted
send_message e token message = do
  channel_id ← e.parse_channel_link token.channel_link
  user_id ← e.parse_user_link token.user_link
  args ← parse (token.text ++ (str " " ++ message))
  ok (sent e channel_id user_id args)

abbrev pub post_with : Enricher → Result ApiToken → Bytes → Posted
post_with e (err x) message = unauthorized x
post_with e (ok token) message = or_bad_request (send_message e token message)

-- The token of the header and the message of the form.
unfoldable pub handle_post_token : Enricher → (Bytes → Result ApiToken) → Bytes → Bytes → Posted
handle_post_token e tokens token_id message =
    if token_id == []
    then bad_request (errorf "no token" [])
    else post_with e (tokens token_id) message
