-- ===== src/Chat/Listening.antt =====
-- Who is listened to.
use meeseeks_box.Base.{
  ◌≡◌, refl, true, false, List, [], ◌∷◌, Option, none, some, Bytes, ◌==◌, if◌then◌else◌, arith,
  Result, ok, err, ◌>>=◌, Bool-cases, inl, inr, Elem, here, there, has_prefix, length, ◌⊎◌, str,
  ◌++◌, Bool, subst,
}
use meeseeks_box.Base.Trim.{trim_space}
use meeseeks_box.Model.{Request}
use meeseeks_box.Auth.{Auth, is_known_user}
use meeseeks_box.Parser.{parse}
use meeseeks_box.Chat.{
  Rtm, MessageEvent, MessageMatcher, get_user, is_im_channel, init, is_myself, should_ignore_user,
  should_ignore_channel, match_prefix, should_care, matches, request_from_message, requested,
  listen, drop, heard, cared, heard_request, first_is_command, request_of, message_of,
}

-- The text is the whole of a direct message, or what stands behind one of the prefixes.
abbrev pub IsText : MessageMatcher → MessageEvent → Bytes → Type 0
IsText m msg text =
    ((is_im_channel msg.channel ≡ true) × (text ≡ msg.text))
    ⊎ ((p : Bytes) × Elem p m.prefix_matches
        × (has_prefix msg.text p ≡ true)
        × (text ≡ trim_space (drop (length p) msg.text)))

match_prefix-eq :
    (ps : List Bytes) (s text : Bytes)
    → match_prefix ps s ≡ some text
    → (p : Bytes) × Elem p ps × (has_prefix s p ≡ true) × (text ≡ trim_space (drop (length p) s))
unfolding match_prefix
match_prefix-eq [] s text h = cc
match_prefix-eq (p ∷ ps) s text h = elim (Bool-cases (has_prefix s p)) [
  | inl hit ↦ (p, here, hit, cc (rw hit at h))
  | inr miss ↦
      let (q, e, starts, same) = match_prefix-eq ps s text (rw miss at h) in
      (q, there e, starts, same)
]

record IsCared (rtm : Rtm) (auth : Auth) (m : MessageMatcher) (msg : MessageEvent) (text : Bytes)
    : Type 0 where
  other : msg.user == m.bot_id ≡ false
  known : m.stealth ≡ true → is_known_user auth (get_user rtm msg.user) ≡ true
  direct : m.stealth ≡ true → is_im_channel msg.channel ≡ true
  is_text : IsText m msg text

IsText-of_channel :
    (m : MessageMatcher) (msg : MessageEvent) (text : Bytes)
    → (if is_im_channel msg.channel then some msg.text else match_prefix m.prefix_matches msg.text)
      ≡ some text
    → IsText m msg text
IsText-of_channel m msg text h = elim (Bool-cases (is_im_channel msg.channel)) [
  | inl im ↦ inl (im, cc (rw im at h))
  | inr public ↦ inr (match_prefix-eq m.prefix_matches msg.text text (rw public at h))
]

should_care-IsCared :
    (rtm : Rtm) (auth : Auth) (m : MessageMatcher) (msg : MessageEvent) (text : Bytes)
    → should_care rtm auth m msg ≡ some text
    → IsCared rtm auth m msg text
unfolding should_care is_myself should_ignore_user should_ignore_channel
should_care-IsCared rtm auth m msg text h = elim (Bool-cases (msg.user == m.bot_id)) [
  | inl self ↦ cc (rw self at h)
  | inr other ↦
      let h₁ = rw other at h in
      elim (Bool-cases (should_ignore_user rtm auth m msg.user)) [
        | inl stranger ↦ cc (rw stranger at h₁)
        | inr user ↦
            let h₂ = rw user at h₁ in
            elim (Bool-cases (should_ignore_channel m msg.channel)) [
              | inl public ↦ cc (rw public at h₂)
              | inr channel ↦
                  let h₃ = rw channel at h₂ in
                  record {
                    other = other;
                    known = λ s. ground (arith, s, user);
                    direct = λ s. ground (arith, s, channel);
                    is_text = IsText-of_channel m msg text h₃;
                  }
            ]
      ]
]

pub record IsRequestOf (rtm : Rtm) (auth : Auth) (m : MessageMatcher) (msg : MessageEvent)
    (req : Request) : Type 0 where
  pub other : msg.user == m.bot_id ≡ false
  pub known : m.stealth ≡ true → is_known_user auth (get_user rtm msg.user) ≡ true
  pub direct : m.stealth ≡ true → is_im_channel msg.channel ≡ true
  pub text : Bytes
  pub is_text : IsText m msg text
  pub parsed : parse text ≡ ok (req.command ∷ req.args)
  pub user_id : req.user_id ≡ msg.user
  pub username : req.username ≡ get_user rtm msg.user
  pub channel_id : req.channel_id ≡ msg.channel
  pub is_im : req.is_im ≡ is_im_channel msg.channel

module _ (rtm : Rtm) (auth : Auth) (m : MessageMatcher) (msg : MessageEvent) (req : Request) where
  parsed_request :
      (text : Bytes) (r : Result (List Bytes))
      → parse text ≡ r
      → IsCared rtm auth m msg text
      → heard_request (r >>= first_is_command (message_of rtm msg text)) ≡ requested req
      → IsRequestOf rtm auth m msg req
  parsed_request text (err e) p c h = cc h
  parsed_request text (ok []) p c h = cc h
  parsed_request text (ok (command ∷ args)) p c h =
      let same : req ≡ request_of (message_of rtm msg text) command args = cc h in
      rw same (record {
        other = c.other;
        known = c.known;
        direct = c.direct;
        text = text;
        is_text = c.is_text;
        parsed = p;
        user_id = refl;
        username = refl;
        channel_id = refl;
        is_im = refl;
      })

  cared_request :
      (o : Option Bytes)
      → should_care rtm auth m msg ≡ o
      → heard (cared rtm msg o) ≡ requested req
      → IsRequestOf rtm auth m msg req
  unfolding request_from_message
  cared_request none e h = cc h
  cared_request (some text) e h =
      parsed_request text (parse text) refl (should_care-IsCared rtm auth m msg text e) h

-- What the matcher of a bot is from its first message on: it knows the bot's own ID, and listens to
-- its mention and to nothing else.
abbrev pub ready : Rtm → Bool → MessageMatcher
ready rtm stealth = record {
  bot_id = rtm.own_id;
  prefix_matches = (str "<@" ++ (rtm.own_id ++ str ">")) ∷ [];
  stealth = stealth;
}

-- A matcher as it is made, without an ID, or as it was left by an earlier message.
abbrev pub IsUsed : Rtm → MessageMatcher → Type 0
IsUsed rtm m = (m.bot_id ≡ []) ⊎ (m ≡ ready rtm m.stealth)

init-ready : (rtm : Rtm) (m : MessageMatcher) → IsUsed rtm m → init rtm m ≡ ready rtm m.stealth
unfolding init ◌==◌
init-ready rtm m (inl new) = rw new refl
init-ready rtm m (inr left) = elim (Bool-cases (m.bot_id == [])) [
  | inl blank ↦ rw blank refl
  | inr known ↦ rw known left
]

listened :
    (rtm : Rtm) (auth : Auth) (m : MessageMatcher) (msg : MessageEvent) (req : Request)
    → (listen rtm auth m msg).1 ≡ requested req
    → IsRequestOf rtm auth (init rtm m) msg req
unfolding listen matches
listened rtm auth m msg req h =
    cared_request rtm auth (init rtm m) msg req (should_care rtm auth (init rtm m) msg) refl h

-- A matcher that is new, or was left by an earlier message, is left with the bot's own ID and its
-- mention as the only prefix. If a request comes of a message, then the message is not the bot's
-- own; in stealth mode it is a known user's direct message. The command and the arguments are those
-- of the text behind the mention of the bot, at the front, or of the whole text of a direct
-- message, and the request names the message's user and channel.
pub listen-IsRequestOf :
    (rtm : Rtm) (auth : Auth) (m : MessageMatcher) (msg : MessageEvent)
    → IsUsed rtm m
    → ((listen rtm auth m msg).0 ≡ ready rtm m.stealth)
      × ((req : Request)
          → (listen rtm auth m msg).1 ≡ requested req
          → IsRequestOf rtm auth (ready rtm m.stealth) msg req)
unfolding listen
listen-IsRequestOf rtm auth m msg used = (
  init-ready rtm m used,
  λ req h.
      subst (λ x. IsRequestOf rtm auth x msg req) (init-ready rtm m used)
        (listened rtm auth m msg req h),
)
