-- ===== src/Chat/Replying.antt =====
-- Which replies are posted, and where (slack/slack.go).
use meeseeks_box.Base.{
  ◌≡◌, refl, true, false, ◌||◌, Bool, Bytes, str, ◌==◌, some, ℕ, ap, ◌∙◌, arith, if◌then◌else◌,
}
use meeseeks_box.Base.Assoc.{lookup}
use meeseeks_box.Model.{Request}
use meeseeks_box.Templates.{rendered, Engine}
use meeseeks_box.Executor
use meeseeks_box.Executor.{unknown_command, unauthorized, handshake, failure, success}
use meeseeks_box.Executor.Replying.{formatter_reply, asked}
use meeseeks_box.Formatter.{
  Reply, FormatConfig, configure, new_replier, get_style, is_mode, Formatter, unknown_command_reply,
  unauthorized_command_reply, handshake_reply, failure_reply, success_reply, with_output,
  with_error, style_or_empty, render, color,
}
use meeseeks_box.Chat.{
  Posted, attachment, message, nothing, ReplyStyle, null_reply, text_reply, attachment_reply,
  get_reply_style, post_as, reply,
}

-- The styles that say that nothing is posted.
abbrev pub is_silent : Bytes → Bool
is_silent style = style == str "null" || style == str "disabled" || style == str "nil"

-- The style that is configured for a reply's action.
abbrev pub configured_style : FormatConfig → Executor.Reply → Bytes
configured_style cnf q =
    style_or_empty (lookup (formatter_reply (configure cnf) q).action cnf.reply_style)

made-style :
    (cnf : FormatConfig) (q : Executor.Reply)
    → (formatter_reply (configure cnf) q).style ≡ configured_style cnf q
unfolding configure formatter_reply unknown_command_reply unauthorized_command_reply handshake_reply
    failure_reply success_reply with_output with_error new_replier get_style is_mode ◌==◌
made-style cnf (unknown_command req) = refl
made-style cnf (unauthorized req) = refl
made-style cnf (handshake req) = refl
made-style cnf (failure req e out) = refl
made-style cnf (success req out) = refl

made-request : (f : Formatter) (q : Executor.Reply) → (formatter_reply f q).request ≡ asked q
unfolding formatter_reply unknown_command_reply unauthorized_command_reply handshake_reply
    failure_reply success_reply with_output with_error new_replier
made-request f (unknown_command req) = refl
made-request f (unauthorized req) = refl
made-request f (handshake req) = refl
made-request f (failure req e out) = refl
made-request f (success req out) = refl

silent-null : (style : Bytes) → is_silent style ≡ true → get_reply_style style ≡ null_reply
unfolding get_reply_style
silent-null style h = ground arith

loud_style :
    (style : Bytes)
    → is_silent style ≡ false
    → get_reply_style style ≡ (if style == str "text" then text_reply else attachment_reply)
unfolding get_reply_style
loud_style style h = ground arith

posted_loud :
    (text : Bool) (r : Reply) (content : Bytes)
    → post_as (if text then text_reply else attachment_reply) r (some (rendered content)) ≡ (
        if text
        then message r.request.channel_id content
        else attachment r.request.channel_id content (color r))
posted_loud true r content = refl
posted_loud false r content = refl

-- A reply of the executor is posted in the channel of the request, with the text that was rendered,
-- as a message if the style that is configured for its action is text, and else with the color of
-- its action; but not if that style is null, disabled or nil.
pub reply-posted :
    (cnf : FormatConfig) (e : Engine) (random : ℕ → ℕ) (q : Executor.Reply) (content : Bytes)
    → let r = formatter_reply (configure cnf) q in
      (is_silent (configured_style cnf q) ≡ true → reply e random r ≡ nothing)
      × (is_silent (configured_style cnf q) ≡ false
          → render e random r ≡ some (rendered content)
          → reply e random r ≡ (
              if configured_style cnf q == str "text"
              then message (asked q).channel_id content
              else attachment (asked q).channel_id content (color r)))
unfolding reply
reply-posted cnf e random q content =
    let r : Reply = formatter_reply (configure cnf) q in
    let style = configured_style cnf q in
    let posts : ReplyStyle → Posted = λ s. post_as s r (render e random r) in
    let styled : get_reply_style r.style ≡ get_reply_style style =
      ap get_reply_style (made-style cnf q) in
    (
      λ silent. ap posts (styled ∙ silent-null style silent),
      λ loud shown.
          ap posts (styled ∙ loud_style style loud)
          ∙ ap (post_as (if style == str "text" then text_reply else attachment_reply) r) shown
          ∙ posted_loud (style == str "text") r content
          ∙ ap
              (λ (req : Request).
                if style == str "text"
                then message req.channel_id content
                else attachment req.channel_id content (color r))
              (made-request (configure cnf) q),
    )
