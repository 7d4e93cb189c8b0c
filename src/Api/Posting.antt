-- ===== src/Api/Posting.antt =====
-- Whose request a post becomes.
use meeseeks_box.Base.{
  ◌≡◌, refl, false, List, [], ◌∷◌, ◌++◌, Bytes, str, ◌==◌, Result, ok, Bool-cases, Result-cases,
  inl, inr, bind-eq-ok,
}
use meeseeks_box.Model.{Request, ApiToken}
use meeseeks_box.Parser.{parse}
use meeseeks_box.Api.{
  Enricher, accepted, request_of, sent, or_bad_request, send_message, handle_post_token,
}

-- The request has the IDs that the chat client parses of a stored token's links, what the client
-- knows under these IDs, and the command and arguments of the token's text with the message behind
-- it.
pub record IsPosted (e : Enricher) (tokens : Bytes → Result ApiToken) (token_id message : Bytes)
    (req : Request) : Type 0 where
  pub named : token_id == [] ≡ false
  pub token : ApiToken
  pub stored : tokens token_id ≡ ok token
  pub channel_parsed : e.parse_channel_link token.channel_link ≡ ok req.channel_id
  pub user_parsed : e.parse_user_link token.user_link ≡ ok req.user_id
  pub parsed : parse (token.text ++ (str " " ++ message)) ≡ ok (req.command ∷ req.args)
  pub username : req.username ≡ e.get_username req.user_id
  pub user_link : req.user_link ≡ e.get_user_link req.user_id
  pub channel : req.channel ≡ e.get_channel req.channel_id
  pub channel_link : req.channel_link ≡ e.get_channel_link req.channel_id
  pub is_im : req.is_im ≡ e.is_im req.channel_id

module _ (e : Enricher) (tokens : Bytes → Result ApiToken) (token_id message : Bytes)
    (req : Request) where
  sent-IsPosted :
      (token : ApiToken) (channel_id user_id : Bytes) (args : List Bytes)
      → token_id == [] ≡ false
      → tokens token_id ≡ ok token
      → e.parse_channel_link token.channel_link ≡ ok channel_id
      → e.parse_user_link token.user_link ≡ ok user_id
      → parse (token.text ++ (str " " ++ message)) ≡ ok args
      → sent e channel_id user_id args ≡ accepted req
      → IsPosted e tokens token_id message req
  sent-IsPosted token channel_id user_id [] n s c u p h = cc h
  sent-IsPosted token channel_id user_id (command ∷ args) n s c u p h =
      let same : req ≡ request_of e channel_id user_id command args = cc h in
      rw same (record {
        named = n;
        token = token;
        stored = s;
        channel_parsed = c;
        user_parsed = u;
        parsed = p;
        username = refl;
        user_link = refl;
        channel = refl;
        channel_link = refl;
        is_im = refl;
      })

  -- A post that is accepted names a stored token, and its request has the IDs that the chat client
  -- parses of the token's links; the user's name and link, the channel, its link and whether it is
  -- a direct message are what the client gives for these IDs; and the command and arguments are
  -- those of the token's text with the message behind it.
  pub handle_post_token-IsPosted :
      handle_post_token e tokens token_id message ≡ accepted req
      → IsPosted e tokens token_id message req
  unfolding handle_post_token send_message
  handle_post_token-IsPosted h = elim (Bool-cases (token_id == [])) [
    | inl missing ↦ cc (rw missing at h)
    | inr n ↦
        let h₁ = rw n at h in
        elim (Result-cases (tokens token_id)) [
          | inr (x, unknown) ↦ cc (rw unknown at h₁)
          | inl (token, s) ↦
              let h₂ : or_bad_request (send_message e token message) ≡ accepted req = rw s at h₁ in
              elim (Result-cases (send_message e token message)) [
                | inr (x, refused) ↦ cc (rw refused at h₂)
                | inl (p, posted) ↦
                    let (channel_id, c, h₃) =
                      bind-eq-ok (e.parse_channel_link token.channel_link) _ posted in
                    let (user_id, u, h₄) = bind-eq-ok (e.parse_user_link token.user_link) _ h₃ in
                    let (args, parsed, h₅) =
                      bind-eq-ok (parse (token.text ++ (str " " ++ message))) _ h₄ in
                    sent-IsPosted token channel_id user_id args n s c u parsed
                      (cc (h₅, rw posted at h₂))
              ]
        ]
  ]
