-- ===== src/Formatter.antt =====
-- text/formatter/formatter.go: the replies to a request, their styles, colors and texts.
pub mod Rendering
pub mod Drawing
use meeseeks_box.Base.{
  ℕ, Bool, true, false, ◌||◌, List, [], ◌∷◌, Option, none, some, Bytes, str, ◌==◌, join,
  if◌then◌else◌, Error,
}
use meeseeks_box.Base.Assoc.{Assoc, lookup}
use meeseeks_box.Model.{Request}
use meeseeks_box.Templates.{
  handshake_action, success_action, failure_action, unknown_command_action, unauthorized_action,
  TemplatesBuilder, new_builder, with_messages, with_templates, clone, Value, text, flag,
  error_value, Payload, Outcome, Engine, build,
}
use meeseeks_box.Templates

abbrev pub default_info_color_message : Bytes
default_info_color_message = []

abbrev pub default_success_color_message : Bytes
default_success_color_message = str "good"

abbrev pub default_err_color_message : Bytes
default_err_color_message = str "danger"

pub record MessageColors : Type 0 where
  pub info : Bytes
  pub success : Bytes
  pub error : Bytes

pub record FormatConfig : Type 0 where
  pub colors : MessageColors
  pub reply_style : Assoc Bytes
  pub templates : Assoc Bytes
  pub messages : Assoc (List Bytes)

-- the package's variable `formatter`
pub record Formatter : Type 0 where
  pub colors : MessageColors
  pub templates : TemplatesBuilder
  pub styles : Assoc Bytes

unfoldable pub configure : FormatConfig → Formatter
configure cnf = record {
  styles = cnf.reply_style;
  colors = cnf.colors;
  templates = with_templates cnf.templates (with_messages cnf.messages new_builder);
}

unfoldable pub is_mode : Bytes → Bool
is_mode mode =
    mode == handshake_action
    || mode == unknown_command_action
    || mode == unauthorized_action
    || mode == failure_action
    || mode == success_action

abbrev pub style_or_empty : Option Bytes → Bytes
style_or_empty none = []
style_or_empty (some style) = style

-- replyStyle.Get
unfoldable pub get_style : Assoc Bytes → Bytes → Bytes
unfolding is_mode
get_style styles mode = if is_mode mode then style_or_empty (lookup mode styles) else []

pub record Reply : Type 0 where
  pub action : Bytes
  pub request : Request
  pub output : Bytes
  pub error : Option Error
  pub colors : MessageColors
  pub templates : TemplatesBuilder
  pub style : Bytes

unfoldable pub new_replier : Formatter → Bytes → Request → Reply
new_replier f action req = record {
  action = action;
  request = req;
  output = [];
  error = none;
  templates = clone f.templates;
  style = get_style f.styles action;
  colors = f.colors;
}

unfoldable pub with_output : Bytes → Reply → Reply
with_output output r = record r { output = output }

unfoldable pub with_error : Error → Reply → Reply
with_error e r = record r { error = some e }

unfoldable pub handshake_reply : Formatter → Request → Reply
unfolding new_replier
handshake_reply f req = new_replier f handshake_action req

unfoldable pub unknown_command_reply : Formatter → Request → Reply
unfolding new_replier
unknown_command_reply f req = new_replier f unknown_command_action req

unfoldable pub unauthorized_command_reply : Formatter → Request → Reply
unfolding new_replier
unauthorized_command_reply f req = new_replier f unauthorized_action req

unfoldable pub failure_reply : Formatter → Request → Error → Reply
unfolding new_replier with_error
failure_reply f req e = with_error e (new_replier f failure_action req)

unfoldable pub success_reply : Formatter → Request → Reply
unfolding new_replier
success_reply f req = new_replier f success_action req

-- the map that Render fills, its keys being different
unfoldable pub reply_payload : Reply → Payload
reply_payload r =
    (str "command", text r.request.command)
    ∷ (str "args", text (join (str " ") r.request.args))
    ∷ (str "user", text r.request.username)
    ∷ (str "userlink", text r.request.user_link)
    ∷ (str "userid", text r.request.user_id)
    ∷ (str "channel", text r.request.channel)
    ∷ (str "channellink", text r.request.channel_link)
    ∷ (str "channelid", text r.request.channel_id)
    ∷ (str "isim", flag r.request.is_im)
    ∷ (str "error", error_value r.error)
    ∷ (str "output", text r.output)
    ∷ []

-- `none` if the process exits, since a template does not parse.
unfoldable pub render : Engine → (ℕ → ℕ) → Reply → Option Outcome
render e random r = elim (build e random r.templates) [
  | none ↦ none
  | some t ↦ some (Templates.render e random t r.action (reply_payload r))
]

abbrev pub channel_id : Reply → Bytes
channel_id r = r.request.channel_id

unfoldable pub color : Reply → Bytes
color r =
    if r.action == handshake_action
    then r.colors.info
    else if r.action == unknown_command_action
        || r.action == unauthorized_action
        || r.action == failure_action
    then r.colors.error
    else r.colors.success
