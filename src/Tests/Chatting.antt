-- ===== src/Tests/Chatting.antt =====
-- A message in a channel that mentions the bot (slack/slack.go).
use meeseeks_box.Base.{◌≡◌, refl, ◌==◌, [], ◌∷◌, str, some, has_prefix, false, inl}
use meeseeks_box.Base.Trim.{trim_space}
use meeseeks_box.Model.{Request}
use meeseeks_box.Auth.{Auth, configure}
use meeseeks_box.Parser.{parse, rune}
use meeseeks_box.Chat.{
  Rtm, MessageEvent, MessageMatcher, requested, listen, init, is_myself, should_ignore_user,
  should_ignore_channel, should_care, is_im_channel, match_prefix, matches, request_from_message,
  get_user, get_channel, user_link, channel_link,
}
use meeseeks_box.Chat.Listening.{ready, IsRequestOf, listen-IsRequestOf}

abbrev rtm : Rtm
rtm = record {
  user_name = λ id. some (str "eve");
  channel_name = λ id. some (str "ops");
  own_id = str "U1";
}

abbrev matcher : MessageMatcher
matcher = record { bot_id = []; prefix_matches = []; stealth = false }

abbrev event : MessageEvent
event = record { user = str "U2"; channel = str "C1"; text = str "<@U1> deploy now" }

abbrev auth : Auth
auth = configure []

abbrev request : Request
request = record {
  command = str "deploy";
  args = str "now" ∷ [];
  username = str "eve";
  user_id = str "U2";
  user_link = user_link (str "U2");
  channel = str "ops";
  channel_id = str "C1";
  channel_link = channel_link (str "C1") (str "ops");
  is_im = false;
}

event-heard : (listen rtm auth matcher event).1 ≡ requested request
unfolding listen init matches should_care is_myself should_ignore_user should_ignore_channel
    is_im_channel match_prefix request_from_message parse trim_space has_prefix get_user get_channel
    ◌==◌ rune
event-heard = refl

listen-IsRequestOf_example :
    ((listen rtm auth matcher event).0 ≡ ready rtm false)
    × ((req : Request)
        → (listen rtm auth matcher event).1 ≡ requested req
        → IsRequestOf rtm auth (ready rtm false) event req)
listen-IsRequestOf_example = listen-IsRequestOf rtm auth matcher event (inl refl)
