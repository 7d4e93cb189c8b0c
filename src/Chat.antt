-- ===== src/Chat.antt =====
-- slack/slack.go: which messages become requests, and the style of a reply. What the Slack client
-- answers about users and channels is an argument, with `none` for an error.
pub mod Listening
pub mod Replying
pub mod Links
use meeseeks_box.Base.{
  ℕ, zero, suc, Bool, true, false, not, ◌&&◌, ◌||◌, List, [], ◌∷◌, ◌++◌, Option, none, some, Bytes,
  str, ◌==◌, has_prefix, length, if◌then◌else◌, Result, ok, err, Error, ignored_message,
  no_command_to_run, ◌>>=◌,
}
use meeseeks_box.Base.Trim.{trim_space}
use meeseeks_box.Model.{Request}
use meeseeks_box.Auth.{Auth, is_known_user}
use meeseeks_box.Parser.{parse}
use meeseeks_box.Templates.{Outcome, rendered, failed, panicked, Engine}
use meeseeks_box.Formatter.{Reply, render, channel_id, color}

-- GetUserInfo and GetChannelInfo of the real-time client, and the bot's own ID
pub record Rtm : Type 0 where
  pub user_name : Bytes → Option Bytes
  pub channel_name : Bytes → Option Bytes
  pub own_id : Bytes

pub record MessageEvent : Type 0 where
  pub user : Bytes
  pub channel : Bytes
  pub text : Bytes

pub record MessageMatcher : Type 0 where
  pub bot_id : Bytes
  pub prefix_matches : List Bytes
  pub stealth : Bool

pub record Message : Type 0 where
  pub text : Bytes
  pub channel : Bytes
  pub channel_id : Bytes
  pub username : Bytes
  pub user_id : Bytes
  pub is_im : Bool

abbrev or_default : Bytes → Option Bytes → Bytes
or_default d none = d
or_default d (some name) = name

unfoldable pub get_user : Rtm → Bytes → Bytes
get_user rtm id = or_default (str "unknown-user") (rtm.user_name id)

unfoldable pub is_im_channel : Bytes → Bool
is_im_channel channel = has_prefix channel (str "D")

unfoldable pub get_channel : Rtm → Bytes → Bytes
get_channel rtm id =
    if is_im_channel id then str "IM" else or_default (str "unknown-channel") (rtm.channel_name id)

abbrev pub user_link : Bytes → Bytes
user_link id = str "<@" ++ (id ++ str ">")

abbrev pub channel_link : Bytes → Bytes → Bytes
channel_link id name = str "<#" ++ (id ++ (str "|" ++ (name ++ str ">")))

unfoldable pub init : Rtm → MessageMatcher → MessageMatcher
init rtm m =
    if m.bot_id == []
    then record m { bot_id = rtm.own_id; prefix_matches = user_link rtm.own_id ∷ [] }
    else m

unfoldable pub is_myself : MessageMatcher → MessageEvent → Bool
is_myself m message = message.user == m.bot_id

unfoldable pub should_ignore_user : Rtm → Auth → MessageMatcher → Bytes → Bool
should_ignore_user rtm auth m id =
    if m.stealth then not (is_known_user auth (get_user rtm id)) else false

unfoldable pub should_ignore_channel : MessageMatcher → Bytes → Bool
should_ignore_channel m channel = if m.stealth then not (is_im_channel channel) else false

abbrev pub drop : ℕ → Bytes → Bytes
drop zero s = s
drop (suc n) [] = []
drop (suc n) (c ∷ s) = drop n s

-- the loop over the prefixes
unfoldable pub match_prefix : List Bytes → Bytes → Option Bytes
match_prefix [] text = none
match_prefix (match ∷ rest) text =
    if has_prefix text match
    then some (trim_space (drop (length match) text))
    else match_prefix rest text

unfoldable pub should_care : Rtm → Auth → MessageMatcher → MessageEvent → Option Bytes
should_care rtm auth m message =
    if is_myself m message
    then none
    else if should_ignore_user rtm auth m message.user
    then none
    else if should_ignore_channel m message.channel
    then none
    else if is_im_channel message.channel
    then some message.text
    else match_prefix m.prefix_matches message.text

abbrev pub message_of : Rtm → MessageEvent → Bytes → Message
message_of rtm msg text = record {
  text = text;
  user_id = msg.user;
  channel_id = msg.channel;
  username = get_user rtm msg.user;
  channel = get_channel rtm msg.channel;
  is_im = is_im_channel msg.channel;
}

abbrev pub cared : Rtm → MessageEvent → Option Bytes → Result Message
cared rtm msg none = err ignored_message
cared rtm msg (some text) = ok (message_of rtm msg text)

-- `Matches` with a matcher that `init` has made ready
unfoldable pub matches : Rtm → Auth → MessageMatcher → MessageEvent → Result Message
matches rtm auth m msg = cared rtm msg (should_care rtm auth m msg)

abbrev pub request_of : Message → Bytes → List Bytes → Request
request_of msg command args = record {
  command = command;
  args = args;
  username = msg.username;
  user_id = msg.user_id;
  user_link = user_link msg.user_id;
  channel = msg.channel;
  channel_id = msg.channel_id;
  channel_link = channel_link msg.channel_id msg.channel;
  is_im = msg.is_im;
}

abbrev pub first_is_command : Message → List Bytes → Result Request
first_is_command msg [] = err no_command_to_run
first_is_command msg (command ∷ args) = ok (request_of msg command args)

unfoldable pub request_from_message : Message → Result Request
request_from_message msg = do args ← parse msg.text; first_is_command msg args

abbrev pub empty_request : Request
empty_request = record {
  command = [];
  args = [];
  username = [];
  user_id = [];
  user_link = [];
  channel = [];
  channel_id = [];
  channel_link = [];
  is_im = false;
}

-- What Listen does with a message: nothing, a failure reply to a request, or a request sent on.
pub data Heard : Type 0 where
  ignored : Heard
  refused : Request → Error → Heard
  requested : Request → Heard

abbrev pub heard_request : Result Request → Heard
heard_request (ok r) = requested r
heard_request (err e) = refused empty_request e

abbrev pub heard : Result Message → Heard
heard (err _) = ignored
heard (ok message) = heard_request (request_from_message message)

unfoldable pub listen : Rtm → Auth → MessageMatcher → MessageEvent → MessageMatcher × Heard
listen rtm auth m msg = let ready = init rtm m in (ready, heard (matches rtm auth ready msg))

pub data ReplyStyle : Type 0 where
  null_reply text_reply attachment_reply : ReplyStyle

unfoldable pub get_reply_style : Bytes → ReplyStyle
get_reply_style style =
    if style == str "null" || style == str "disabled" || style == str "nil"
    then null_reply
    else if style == str "text"
    then text_reply
    else attachment_reply

-- What a reply becomes: a message of the Slack client, with a color if it is an attachment;
-- nothing; or the end of the process.
pub data Posted : Type 0 where
  attachment : Bytes → Bytes → Bytes → Posted
  message : Bytes → Bytes → Posted
  nothing : Posted
  crashed : Posted

-- A reply that is not rendered is logged.
abbrev pub post_as : ReplyStyle → Reply → Option Outcome → Posted
post_as null_reply r o = nothing
post_as text_reply r none = crashed
post_as text_reply r (some (rendered content)) = message (channel_id r) content
post_as text_reply r (some (failed _)) = nothing
post_as text_reply r (some panicked) = crashed
post_as attachment_reply r none = crashed
post_as attachment_reply r (some (rendered content)) = attachment (channel_id r) content (color r)
post_as attachment_reply r (some (failed _)) = nothing
post_as attachment_reply r (some panicked) = crashed

-- Client.Reply, and the Reply of each style
unfoldable pub reply : Engine → (ℕ → ℕ) → Reply → Posted
reply e random r = post_as (get_reply_style r.style) r (render e random r)
