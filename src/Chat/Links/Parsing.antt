-- ===== src/Chat/Links/Parsing.antt =====
-- What the links of Slack are parsed to, and what becomes of a token's links in a posted request.
use meeseeks_box.Base.{
  ◌≡◌, refl, false, List, [], ◌∷◌, ◌++◌, Option, none, some, Bytes, str, ◌==◌, has_prefix, eqb,
  Result, ok, All, All-append, arith, ℕ, zero, suc, bind-eq-ok, sym, ◌∙◌,
}
use meeseeks_box.Model.{ApiToken, Request, Command}
use meeseeks_box.Auth.{Auth, channel_strategy_im_only, check}
use meeseeks_box.Auth.Decision.{user_result, channel_result, check-eq}
use meeseeks_box.Parser.{parse}
use meeseeks_box.Api.{accepted, request_of, send_message, handle_post_token}
use meeseeks_box.Chat.{Rtm, user_link, drop, is_im_channel}
use meeseeks_box.Chat.Links.{
  literal, group, newline, backslash, Item, user_expression, channel_expression, longest,
  match_items, match_any, find_group, parse_user_link, parse_channel_link, client,
}

-- A text without one byte.
abbrev pub Without : ℕ → Bytes → Type 0
Without b = All (λ c. eqb c b ≡ false)

-- `.*` takes a whole line, and stops where nothing more of it can be taken.
longest-append {ℓ} :
    {A : Type ℓ} (next : Bytes → Option A) (a : A) (s rest : Bytes)
    → Without newline s
    → longest next rest ≡ some ([], a)
    → longest next (s ++ rest) ≡ some (s, a)
unfolding longest
longest-append next a [] rest h e = e
longest-append next a (c ∷ s) rest (n, h) e = rw (n, longest-append next a s rest h e) refl

-- Where the text behind it never matches, it does not match either.
longest-none :
    (b : ℕ) (s : Bytes) → Without b s → longest (match_items (literal (b ∷ []) ∷ [])) s ≡ none
unfolding longest match_items has_prefix
longest-none b [] h = refl
longest-none b (c ∷ s) (n, h) = ground (arith, longest-none b s h)

Without-drop : (b n : ℕ) (s : Bytes) → Without b s → Without b (drop n s)
Without-drop b zero s h = h
Without-drop b (suc n) [] h = tt
Without-drop b (suc n) (c ∷ s) (x, h) = Without-drop b n s h

find_group-front :
    (e : List (List Item)) (s id : Bytes) → match_any e s ≡ some id → find_group e s ≡ some id
unfolding find_group
find_group-front e [] id h = h
find_group-front e (c ∷ s) id h = rw h refl

matched_user :
    (id : Bytes) → Without newline id → match_any user_expression (user_link id) ≡ some id
unfolding match_any match_items has_prefix longest
matched_user id h =
    let whole : longest (match_items (literal (str ">") ∷ [])) (id ++ str ">") ≡ some (id, []) =
      longest-append (match_items (literal (str ">") ∷ [])) [] id (str ">") h refl in
    rw whole refl

-- The link that is made of a user's ID, in one line, is parsed to the ID.
pub parse_user_link-user_link :
    (id : Bytes) → Without newline id → parse_user_link (user_link id) ≡ ok id
unfolding parse_user_link
parse_user_link-user_link id h =
    rw (find_group-front user_expression (user_link id) id (matched_user id h)) refl

-- The first branch needs a backslash.
no_channel :
    (s : Bytes)
    → Without backslash s
    → match_items (literal (str "<#") ∷ group ∷ literal (backslash ∷ []) ∷ []) s ≡ none
unfolding match_items
no_channel s h =
    rw (longest-none backslash (drop 2 s) (Without-drop backslash 2 s h)) (ground arith)

-- Of a line that ends with `>` and has no backslash, as every link of a channel, the empty ID is
-- parsed, without an error.
pub parse_channel_link-loses :
    (s : Bytes)
    → Without newline s
    → Without backslash s
    → parse_channel_link (s ++ str ">") ≡ ok []
unfolding parse_channel_link match_any match_items has_prefix longest
parse_channel_link-loses s line plain =
    let second : longest (match_items (literal (str ">") ∷ [])) (s ++ str ">") ≡ some (s, []) =
      longest-append (match_items (literal (str ">") ∷ [])) [] s (str ">") line refl in
    let first = no_channel (s ++ str ">") (All-append _ s (str ">") plain (refl, tt)) in
    rw (find_group-front channel_expression (s ++ str ">") [] (rw (first, second) refl)) refl

-- A command for direct messages is refused elsewhere.
im_only-refused :
    (auth : Auth) (req : Request) (cmd : Command)
    → cmd.channel_strategy ≡ channel_strategy_im_only
    → req.is_im ≡ false
    → ¬ (check auth req cmd ≡ ok tt)
unfolding ◌==◌
im_only-refused auth req cmd s i h =
    let (_, _, second) =
      bind-eq-ok (user_result auth req cmd) (λ _. channel_result req cmd)
        (sym (check-eq auth req cmd) ∙ h) in
    cc (rw (s, i) at second)

-- A post with a stored token whose links are Slack's, in one line and with no backslash in the
-- channel's, and whose text and message are parsed to a command, is accepted, as a request of the
-- token's user in the channel with the empty ID; and the check of a command for direct messages
-- refuses that request, whoever the user is and wherever the token is for.
pub handle_post_token-links :
    (rtm : Rtm) (tokens : Bytes → Result ApiToken) (token_id message : Bytes) (token : ApiToken)
    (user channel : Bytes) (command : Bytes) (args : List Bytes)
    → token_id == [] ≡ false
    → tokens token_id ≡ ok token
    → token.user_link ≡ user_link user
    → Without newline user
    → token.channel_link ≡ channel ++ str ">"
    → Without newline channel
    → Without backslash channel
    → parse (token.text ++ (str " " ++ message)) ≡ ok (command ∷ args)
    → (handle_post_token (client rtm) tokens token_id message
        ≡ accepted (request_of (client rtm) [] user command args))
      × ((auth : Auth) (cmd : Command)
          → cmd.channel_strategy ≡ channel_strategy_im_only
          → ¬ (check auth (request_of (client rtm) [] user command args) cmd ≡ ok tt))
unfolding handle_post_token send_message is_im_channel has_prefix
handle_post_token-links rtm tokens token_id message token user channel command args n s u lu c lc bc
      p =
    (
      rw (n, s, u, c, parse_channel_link-loses channel lc bc, parse_user_link-user_link user lu, p)
          refl,
      λ auth cmd strategy.
          im_only-refused auth (request_of (client rtm) [] user command args) cmd strategy refl,
    )
