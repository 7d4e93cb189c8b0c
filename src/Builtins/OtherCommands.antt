-- ===== src/Builtins/OtherCommands.antt =====
-- The builtin commands on API tokens and aliases, groups and help.
use meeseeks_box.Base.{
  Bool, true, false, not, ◌&&◌, List, [], ◌∷◌, Option, none, some, Bytes, str, ◌==◌, if◌then◌else◌,
  Result, ok, err, errorf, fault, Error, ◌>>=◌, has_prefix, join,
}
use meeseeks_box.Base.Assoc.{Assoc, lookup}
use meeseeks_box.Model.{Job, Command, ApiToken, Alias}
use meeseeks_box.Builtins.Services.{
  Services, Output, Reply, text, tokens_page, aliases_page, groups_page, help_list, help_page,
  answer, refuse, Flags, multi_match,
}

abbrev pub is_set : Bytes → Bool
is_set t = not (t == [])

abbrev pub when_set : {A : Type 0} → Bytes → A → List A → List A
when_set t a rest = if is_set t then a ∷ rest else rest

-- the matchers of `tokens`, each there if its flag is set
abbrev pub token_matchers : Flags → List (ApiToken → Bool)
token_matchers flags =
    when_set flags.user (λ (t : ApiToken). t.user_link == flags.user)
      (when_set flags.channel (λ (t : ApiToken). t.channel_link == flags.channel)
        (when_set flags.command (λ (t : ApiToken). has_prefix t.text flags.command) []))

module _ {S : Type 0} (s : Services S) where
  -- The text is given with an error too.
  abbrev pub created_token : Bytes × Result (Unit {0}) × S → Reply × S
  created_token (t, ok _, w) = (answer (text "created token %s" (t ∷ [])), w)
  created_token (t, err e, w) =
      (record { output = text "created token %s" (t ∷ []); error = some e }, w)

  unfoldable pub new_api_token : Job → S → Reply × S
  new_api_token job w = elim job.request.args [
    | user ∷ channel ∷ first ∷ rest ↦
        created_token (s.create_token user channel (join (str " ") (first ∷ rest)) w)
    | _ ↦ (refuse (errorf "not enough arguments passed in" []), w)
  ]

  abbrev revoked_token : Bytes → Result (Unit {0}) × S → Reply × S
  revoked_token id (ok _, w) = (answer (text "Token *%s* has been revoked" (id ∷ [])), w)
  revoked_token id (err e, w) = (refuse e, w)

  unfoldable pub revoke_api_token : Job → S → Reply × S
  revoke_api_token job w = elim job.request.args [
    | id ∷ [] ↦ revoked_token id (s.revoke_token id w)
    | _ ↦ (refuse (errorf "only one token ID should be passed as an argument" []), w)
  ]

  unfoldable pub list_api_tokens : Flags → S → Result Output
  list_api_tokens flags w = do
    found ←
        s.find_tokens (record { limit = flags.limit; match = multi_match (token_matchers flags) }) w
    ok (tokens_page found)

  -- An error is both in the text and returned.
  abbrev done_or : Output → (Error → Output) → Result (Unit {0}) × S → Reply × S
  done_or done failed (ok _, w) = (answer done, w)
  done_or done failed (err e, w) = (record { output = failed e; error = some e }, w)

  unfoldable pub new_alias : (Error → Bytes) → Job → S → Reply × S
  new_alias show job w = elim job.request.args [
    | alias ∷ command ∷ args ↦
        done_or (text "alias created successfully" [])
          (λ e. text "failed to create the alias. Error: %s" (show e ∷ []))
          (s.create_alias job.request.user_id alias command args w)
    | _ ↦ (
      refuse (errorf "an alias requires at least two arguments: the alias and the command" []),
      w,
    )
  ]

  unfoldable pub delete_alias : (Error → Bytes) → Job → S → Reply × S
  delete_alias show job w = elim job.request.args [
    | alias ∷ [] ↦
        done_or (text "alias deleted successfully" [])
          (λ e. text "failed to delete the alias. Error: %s" (show e ∷ []))
          (s.remove_alias job.request.user_id alias w)
    | _ ↦ (refuse (errorf "unalias requires only one argument: the alias to delete" []), w)
  ]

  abbrev listed_aliases : (Error → Bytes) → Result (List Alias) → Reply
  listed_aliases show (ok found) = answer (aliases_page found)
  listed_aliases show (err e) = record {
    output = text "failed to load the aliases. Error: %s" (show e ∷ []);
    error = some e;
  }

  unfoldable pub get_aliases : (Error → Bytes) → Job → S → Reply
  get_aliases show job w = listed_aliases show (s.list_aliases job.request.user_id w)

-- `groups` answers with what auth.GetGroups gives.
unfoldable pub groups : List (Bytes × List Bytes) → Result Output
groups known = ok (groups_page known)

abbrev pub is_builtin : Option (Option Command) → Bool
is_builtin none = false
is_builtin (some _) = true

-- the loop of `help` over all the commands
unfoldable pub help_commands :
    Assoc (Option Command) → Bool → Assoc (Option Command) → Assoc (Option Command)
help_commands builtins all [] = []
help_commands builtins all ((name, cmd) ∷ rest) =
    let kept = help_commands builtins all rest in
    if is_builtin (lookup name builtins) && not all then kept else (name, cmd) ∷ kept

-- A method of a nil command panics.
abbrev help_of : Bytes → Option (Option Command) → Result Output
help_of name (some (some cmd)) = ok (help_page name cmd.help)
help_of name (some none) = err (fault (str "nil pointer dereference"))
help_of name none = err (errorf "could not find command %s" (name ∷ []))

unfoldable pub help : Assoc (Option Command) → Assoc (Option Command) → Flags → Result Output
unfolding help_commands
help builtins registered flags = elim flags.args [
  | [] ↦ ok (help_list (help_commands builtins flags.all registered))
  | name ∷ [] ↦ help_of name (lookup name registered)
  | _ ∷ _ ∷ _ ↦ err (errorf "too many arguments" [])
]
