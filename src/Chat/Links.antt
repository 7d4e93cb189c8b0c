-- ===== src/Chat/Links.antt =====
-- slack/slack.go: the links of users and channels, which are made with their IDs and parsed with
-- regular expressions, and the client as the Enricher of the API.
pub mod Parsing
use meeseeks_box.Base.{
  ℕ, Bool, List, [], ◌∷◌, Option, none, some, Bytes, str, has_prefix, length, eqb, if◌then◌else◌,
  Result, ok, err, errorf,
}
use meeseeks_box.Api.{Enricher}
use meeseeks_box.Chat.{Rtm, get_user, get_channel, is_im_channel, user_link, channel_link, drop}

-- Regular expressions as far as the links need them: a text, `.*`, and the group `(.*)`, of which a
-- sequence has one at most; the whole is an alternation of sequences. The texts are ASCII, so that
-- it does not matter that `.` stands for a rune and not for a byte.
pub data Item : Type 0 where
  literal : Bytes → Item
  anything : Item
  group : Item

abbrev pub newline : ℕ
newline = 10

abbrev pub backslash : ℕ
backslash = 92

abbrev pub prefer {ℓ} : {A : Type ℓ} → Option A → Option A → Option A
prefer (some a) later = some a
prefer none later = later

abbrev pub extended {ℓ} : {A : Type ℓ} → ℕ → Option (Bytes × A) → Option (Bytes × A)
extended c none = none
extended c (some (s, a)) = some (c ∷ s, a)

abbrev pub nothing_first {ℓ} : {A : Type ℓ} → Option A → Option (Bytes × A)
nothing_first none = none
nothing_first (some a) = some ([], a)

-- The greedy `.*`: as much of the line as what follows allows.
unfoldable pub longest {ℓ} : {A : Type ℓ} → (Bytes → Option A) → Bytes → Option (Bytes × A)
longest next [] = nothing_first (next [])
longest next (c ∷ s) =
    let more = extended c (longest next s) in
    if eqb c newline
    then nothing_first (next (c ∷ s))
    else prefer more (nothing_first (next (c ∷ s)))

abbrev pub taken {ℓ} : {A : Type ℓ} → Option (Bytes × A) → Option Bytes
taken none = none
taken (some (s, a)) = some s

abbrev pub behind {ℓ} : {A : Type ℓ} → Option (Bytes × A) → Option A
behind none = none
behind (some (s, a)) = some a

-- What the group holds after a match at the front of the text, which is empty without a group.
unfoldable pub match_items : List Item → Bytes → Option Bytes
match_items [] s = some []
match_items (literal p ∷ rest) s =
    if has_prefix s p then match_items rest (drop (length p) s) else none
match_items (anything ∷ rest) s = behind (longest (match_items rest) s)
match_items (group ∷ rest) s = taken (longest (match_items rest) s)

unfoldable pub match_any : List (List Item) → Bytes → Option Bytes
match_any [] s = none
match_any (items ∷ rest) s = prefer (match_items items s) (match_any rest s)

-- FindStringSubmatch: the group of the leftmost match. Its answer has two texts, or is nil.
unfoldable pub find_group : List (List Item) → Bytes → Option Bytes
find_group e [] = match_any e []
find_group e (c ∷ s) = let later = find_group e s in prefer (match_any e (c ∷ s)) later

-- `<@(.*)>`
abbrev pub user_expression : List (List Item)
user_expression = (literal (str "<@") ∷ group ∷ literal (str ">") ∷ []) ∷ []

-- `<#(.*)\\|.*>` in a raw string: the backslash is escaped, and so the bar is an alternation.
abbrev pub channel_expression : List (List Item)
channel_expression =
    (literal (str "<#") ∷ group ∷ literal (backslash ∷ []) ∷ [])
    ∷ (anything ∷ literal (str ">") ∷ [])
    ∷ []

abbrev pub parsed_channel : Bytes → Option Bytes → Result Bytes
parsed_channel link (some id) = ok id
parsed_channel link none = err (errorf "invalid channel link: %s" (link ∷ []))

abbrev pub parsed_user : Bytes → Option Bytes → Result Bytes
parsed_user link (some id) = ok id
parsed_user link none = err (errorf "invalid user link: %s" (link ∷ []))

unfoldable pub parse_channel_link : Bytes → Result Bytes
parse_channel_link link = parsed_channel link (find_group channel_expression link)

unfoldable pub parse_user_link : Bytes → Result Bytes
parse_user_link link = parsed_user link (find_group user_expression link)

-- Client.GetChannelLink
abbrev pub get_channel_link : Rtm → Bytes → Bytes
get_channel_link rtm id = channel_link id (get_channel rtm id)

-- The client that the API is started with.
abbrev pub client : Rtm → Enricher
client rtm = record {
  parse_channel_link = parse_channel_link;
  parse_user_link = parse_user_link;
  get_username = get_user rtm;
  get_user_link = user_link;
  get_channel = get_channel rtm;
  get_channel_link = get_channel_link rtm;
  is_im = is_im_channel;
}
