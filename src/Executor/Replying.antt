-- ===== src/Executor/Replying.antt =====
-- The replies of meeseeks/executor/executor.go as text/formatter/formatter.go makes them.
use meeseeks_box.Base.{ok, ◌≡◌, refl, Option, none, some, Bytes, [], str, Error, ◌==◌, ℕ, ◌∙◌}
use meeseeks_box.Base.Assoc.{lookup, Distinct}
use meeseeks_box.Model.{Request}
use meeseeks_box.Executor.{Reply, unknown_command, unauthorized, handshake, failure, success}
use meeseeks_box.Formatter
use meeseeks_box.Formatter.{
  Formatter, FormatConfig, configure, new_replier, with_output, with_error, handshake_reply,
  unknown_command_reply, unauthorized_command_reply, failure_reply, success_reply, render,
  reply_payload,
}
use meeseeks_box.Formatter.Rendering.{template_for, shown, render-shown}
use meeseeks_box.Templates.{
  get_default_templates, Payload, Outcome, any_value, or_failed, Engine, text, error_value,
}

-- the calls of the formatter
unfoldable pub formatter_reply : Formatter → Reply → Formatter.Reply
formatter_reply f (unknown_command req) = unknown_command_reply f req
formatter_reply f (unauthorized req) = unauthorized_command_reply f req
formatter_reply f (handshake req) = handshake_reply f req
formatter_reply f (failure req e out) = with_output out (failure_reply f req e)
formatter_reply f (success req out) = with_output out (success_reply f req)

-- The error that a reply tells: that of a failure only.
abbrev pub told_error : Reply → Option Error
told_error (unknown_command req) = none
told_error (unauthorized req) = none
told_error (handshake req) = none
told_error (failure req e out) = some e
told_error (success req out) = none

abbrev pub told_output : Reply → Bytes
told_output (unknown_command req) = []
told_output (unauthorized req) = []
told_output (handshake req) = []
told_output (failure req e out) = out
told_output (success req out) = out

-- The name that the templates, messages and styles of a reply are configured under.
abbrev pub action_for : Reply → Bytes
action_for (unknown_command req) = str "unknowncommand"
action_for (unauthorized req) = str "unauthorized"
action_for (handshake req) = str "handshake"
action_for (failure req e out) = str "failure"
action_for (success req out) = str "success"

abbrev pub asked : Reply → Request
asked (unknown_command req) = req
asked (unauthorized req) = req
asked (handshake req) = req
asked (failure req e out) = req
asked (success req out) = req

module _ (cnf : FormatConfig) where
  abbrev made : Reply → Formatter.Reply
  made q = formatter_reply (configure cnf) q

  formatter_reply-templates :
      (q : Reply)
      → (made q).templates
        ≡ (new_replier (configure cnf) (made q).action (made q).request).templates
  unfolding formatter_reply unknown_command_reply unauthorized_command_reply handshake_reply
      failure_reply success_reply with_output with_error new_replier
  formatter_reply-templates (unknown_command req) = refl
  formatter_reply-templates (unauthorized req) = refl
  formatter_reply-templates (handshake req) = refl
  formatter_reply-templates (failure req e out) = refl
  formatter_reply-templates (success req out) = refl

  formatter_reply-action :
      (q : Reply) → (d : Bytes) × (lookup (made q).action get_default_templates ≡ some d)
  unfolding formatter_reply unknown_command_reply unauthorized_command_reply handshake_reply
      failure_reply success_reply with_output with_error new_replier get_default_templates lookup
      ◌==◌
  formatter_reply-action (unknown_command req) = (_, refl)
  formatter_reply-action (unauthorized req) = (_, refl)
  formatter_reply-action (handshake req) = (_, refl)
  formatter_reply-action (failure req e out) = (_, refl)
  formatter_reply-action (success req out) = (_, refl)

  formatter_reply-action_for : (q : Reply) → (made q).action ≡ action_for q
  unfolding formatter_reply unknown_command_reply unauthorized_command_reply handshake_reply
      failure_reply success_reply with_output with_error new_replier
  formatter_reply-action_for (unknown_command req) = refl
  formatter_reply-action_for (unauthorized req) = refl
  formatter_reply-action_for (handshake req) = refl
  formatter_reply-action_for (failure req e out) = refl
  formatter_reply-action_for (success req out) = refl

  shown_fields :
      (q : Reply)
      → (shown cnf (made q) (str "error") ≡ some (error_value (told_error q)))
        × (shown cnf (made q) (str "output") ≡ some (text (told_output q)))
        × (shown cnf (made q) (str "command") ≡ some (text (asked q).command))
        × (shown cnf (made q) (str "userlink") ≡ some (text (asked q).user_link))
  unfolding formatter_reply unknown_command_reply unauthorized_command_reply handshake_reply
      failure_reply success_reply with_output with_error new_replier reply_payload lookup ◌==◌
  shown_fields (unknown_command req) = (refl, refl, refl, refl)
  shown_fields (unauthorized req) = (refl, refl, refl, refl)
  shown_fields (handshake req) = (refl, refl, refl, refl)
  shown_fields (failure req e out) = (refl, refl, refl, refl)
  shown_fields (success req out) = (refl, refl, refl, refl)

  -- A reply of the executor, if it is rendered at all, is rendered by the template that is configured
  -- for what it tells, an unknown command, a refusal, a handshake, a failure or a success, or else by
  -- the default one. Messages and templates are configured once under a name. The template sees the command and the link of the user
  -- who asked, the output, and the error of a failure: no other reply tells an error, so that a
  -- user who is refused is not told why.
  pub reply-tells :
      (e : Engine) (random : ℕ → ℕ) (q : Reply) (o : Outcome)
      → Distinct cnf.messages
      → Distinct cnf.templates
      → render e random (made q) ≡ some o
      → (t : Bytes) × (tpl : e.Template) × (p : Payload) × (template_for cnf (action_for q)
          ≡ some t)
        × (e.parse (action_for q) t ≡ ok tpl)
        × (lookup (str "error") p ≡ some (error_value (told_error q)))
        × (lookup (str "output") p ≡ some (text (told_output q)))
        × (lookup (str "command") p ≡ some (text (asked q).command))
        × (lookup (str "userlink") p ≡ some (text (asked q).user_link))
        × (o ≡ or_failed (e.name tpl) (or_failed (e.name tpl) (e.execute tpl (any_value random) p)))
  reply-tells e random q o once_m once_t h =
      let (d, known) = formatter_reply-action q in
      let (t, tpl, p, template, good, shows, out) =
        render-shown cnf once_m once_t e random (made q) d o known (formatter_reply-templates q)
          h in
      let (error, output, command, link) = shown_fields q in
      (
        t,
        tpl,
        p,
        rw (formatter_reply-action_for q) at template,
        rw (formatter_reply-action_for q) at good,
        shows (str "error") ∙ error,
        shows (str "output") ∙ output,
        shows (str "command") ∙ command,
        shows (str "userlink") ∙ link,
        out,
      )
