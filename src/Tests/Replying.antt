-- ===== src/Tests/Replying.antt =====
-- The reply to a command that failed, under a configuration with a style and messages of its own
-- (text/formatter, text/template, slack/slack.go).
use meeseeks_box.Base.{
  ℕ, ◌≡◌, refl, ◌==◌, true, false, [], ◌∷◌, some, Bytes, str, ok, fault, if◌then◌else◌,
}
use meeseeks_box.Base.Assoc.{lookup, Distinct, insert, remove}
use meeseeks_box.Model.{Request}
use meeseeks_box.Templates.{
  Engine, Outcome, rendered, panicked, any_value, or_failed, Payload, text, error_value,
  failure_action, build, renderers_of, clone, with_messages, with_templates, new_builder,
  insert_all, get_default_templates, default_failure_template, get_default_messages,
  render_template, payload_of, new,
}
use meeseeks_box.Templates
use meeseeks_box.Formatter.{
  FormatConfig, Reply, configure, new_replier, failure_reply, with_output, with_error, render,
  reply_payload, color,
}
use meeseeks_box.Formatter.Rendering.{template_for, payload_seen}
use meeseeks_box.Executor
use meeseeks_box.Executor.Replying.{formatter_reply, told_error, told_output, asked, reply-tells}
use meeseeks_box.Chat.{message, attachment, nothing, reply}
use meeseeks_box.Chat.Replying.{is_silent, configured_style, reply-posted}

-- An engine whose templates are their texts.
abbrev verbatim : Engine
verbatim = record {
  Template = Bytes;
  parse = λ name template. ok template;
  name = λ template. template;
  execute = λ template any payload. rendered template;
}

abbrev first : ℕ → ℕ
first n = 0

abbrev cnf : FormatConfig
cnf = record {
  colors = record { info = []; success = str "good"; error = str "danger" };
  reply_style = (failure_action, str "text") ∷ [];
  templates = (failure_action, str "it failed") ∷ [];
  messages = (failure_action, str "oh no" ∷ str "sorry" ∷ []) ∷ [];
}

abbrev request : Request
request = record {
  command = str "deploy";
  args = [];
  username = str "eve";
  user_id = str "U2";
  user_link = str "<@U2>";
  channel = str "ops";
  channel_id = str "C1";
  channel_link = str "<#C1|ops>";
  is_im = false;
}

abbrev failed : Executor.Reply
failed = Executor.failure request (fault (str "exit 1")) (str "out")

failed-rendered :
    render verbatim first (formatter_reply (configure cnf) failed)
    ≡ some (rendered (str "it failed"))
unfolding render formatter_reply configure failure_reply with_output with_error new_replier build
    renderers_of clone with_messages with_templates new_builder insert_all insert remove lookup
    get_default_templates get_default_messages render_template payload_of new Templates.render ◌==◌
    reply_payload
failed-rendered = refl

once_templates : Distinct cnf.templates
unfolding lookup
once_templates = (refl, tt)

once_messages : Distinct cnf.messages
unfolding lookup
once_messages = (refl, tt)

reply-tells_example :
    (t : Bytes) × (tpl : Bytes) × (p : Payload) × (template_for cnf (str "failure") ≡ some t)
    × (ok t ≡ ok tpl)
    × (lookup (str "error") p ≡ some (error_value (told_error failed)))
    × (lookup (str "output") p ≡ some (text (told_output failed)))
    × (lookup (str "command") p ≡ some (text (asked failed).command))
    × (lookup (str "userlink") p ≡ some (text (asked failed).user_link))
    × (rendered (str "it failed") ≡ or_failed tpl (or_failed tpl (rendered tpl)))
reply-tells_example =
    reply-tells cnf verbatim first failed (rendered (str "it failed")) once_messages once_templates
      failed-rendered

abbrev reply_made : Reply
reply_made = formatter_reply (configure cnf) failed

abbrev payload : Payload
payload = payload_seen cnf once_messages once_templates verbatim first reply_made

failure_known : lookup reply_made.action get_default_templates ≡ some default_failure_template
unfolding formatter_reply failure_reply with_output with_error new_replier get_default_templates
    lookup ◌==◌
failure_known = refl

reply-posted_example :
    let r = formatter_reply (configure cnf) failed in
    (is_silent (configured_style cnf failed) ≡ true → reply verbatim first r ≡ nothing)
    × (is_silent (configured_style cnf failed) ≡ false
        → render verbatim first r ≡ some (rendered (str "it failed"))
        → reply verbatim first r ≡ (
            if configured_style cnf failed == str "text"
            then message (asked failed).channel_id (str "it failed")
            else attachment (asked failed).channel_id (str "it failed") (color r)))
reply-posted_example = reply-posted cnf verbatim first failed (str "it failed")
