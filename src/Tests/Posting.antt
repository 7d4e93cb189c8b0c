-- ===== src/Tests/Posting.antt =====
-- A message that is posted with a token (api/api.go).
use meeseeks_box.Base.{
  ◌≡◌, refl, ◌==◌, false, [], ◌∷◌, ◌++◌, Bytes, str, none, some, Result, ok, err, if◌then◌else◌,
  token_not_found,
}
use meeseeks_box.Base.Trim.{trim_space}
use meeseeks_box.Model.{ApiToken, Request, Command}
use meeseeks_box.Auth.{Auth, channel_strategy_im_only, check}
use meeseeks_box.Parser.{parse, rune}
use meeseeks_box.Persistence.Tokens.{new_token}
use meeseeks_box.Api.{Enricher, accepted, request_of, send_message, handle_post_token}
use meeseeks_box.Chat.{Rtm}
use meeseeks_box.Chat.Links.{client}
use meeseeks_box.Chat.Links.Parsing.{handle_post_token-links}
use meeseeks_box.Api.Posting.{IsPosted, handle_post_token-IsPosted}

abbrev enricher : Enricher
enricher = record {
  parse_channel_link = λ link. ok (str "C1");
  parse_user_link = λ link. ok (str "U2");
  get_username = λ id. str "eve";
  get_user_link = λ id. str "<@U2>";
  get_channel = λ id. str "ops";
  get_channel_link = λ id. str "<#C1|ops>";
  is_im = λ id. false;
}

abbrev stored : Bytes → Result ApiToken
stored id =
    if id == str "t1"
    then ok (new_token id (str "<@U2>") (str "<#C1|ops>") (str "deploy") 5)
    else err token_not_found

abbrev request : Request
request = request_of enricher (str "C1") (str "U2") (str "deploy") (str "now" ∷ [])

post-accepted : handle_post_token enricher stored (str "t1") (str "now") ≡ accepted request
unfolding handle_post_token send_message parse trim_space rune ◌==◌
post-accepted = refl

handle_post_token-IsPosted_example : IsPosted enricher stored (str "t1") (str "now") request
handle_post_token-IsPosted_example =
    handle_post_token-IsPosted enricher stored (str "t1") (str "now") request post-accepted

abbrev rtm : Rtm
rtm = record { user_name = λ id. some (str "eve"); channel_name = λ id. none; own_id = str "U1" }

text-parsed : parse (str "deploy" ++ (str " " ++ str "now")) ≡ ok (str "deploy" ∷ str "now" ∷ [])
unfolding parse trim_space rune ◌==◌
text-parsed = refl

handle_post_token-links_example :
    (handle_post_token (client rtm) stored (str "t1") (str "now")
      ≡ accepted (request_of (client rtm) [] (str "U2") (str "deploy") (str "now" ∷ [])))
    × ((a : Auth) (cmd : Command)
        → cmd.channel_strategy ≡ channel_strategy_im_only
        → ¬ (
            check a (request_of (client rtm) [] (str "U2") (str "deploy") (str "now" ∷ [])) cmd
            ≡ ok tt))
unfolding ◌==◌
handle_post_token-links_example =
    handle_post_token-links rtm stored (str "t1") (str "now")
      (new_token (str "t1") (str "<@U2>") (str "<#C1|ops>") (str "deploy") 5) (str "U2")
      (str "<#C1|ops") (str "deploy") (str "now" ∷ []) refl refl refl (refl, (refl, tt)) refl
      (refl, (refl, (refl, (refl, (refl, (refl, (refl, (refl, tt))))))))
      (refl, (refl, (refl, (refl, (refl, (refl, (refl, (refl, tt)))))))) text-parsed
