-- ===== src/Tests/Tokens.antt =====
-- Tokens stored in memory (persistence/tokens/tokens.go).
use meeseeks_box.Base.{◌≡◌, refl, ◌==◌, str, Option, none, some, ok}
use meeseeks_box.Model.{ApiToken}
use meeseeks_box.Persistence.Bolt.{Bolt, create_if_missing}
use meeseeks_box.Persistence.Bolt.Memory.{Table, memory, memory-BoltLaws, plain, plain-IsFaithful}
use meeseeks_box.Persistence.Db.{update}
use meeseeks_box.Persistence.Tokens.{new_token, create, create_tx, get, revoke}
use meeseeks_box.Persistence.Tokens.Laws.{get-create_token}

abbrev tokens : Bolt ApiToken
tokens = memory ApiToken

abbrev Store : Type 0
Store = Option (Option (Table ApiToken))

abbrev kept : Store
kept =
    (create tokens (plain ApiToken) (str "t1") 5 (str "eve") (str "ops") (str "deploy now")
      (some none)).2

kept-eq :
    create tokens
      (plain ApiToken)
      (str "t1")
      5
      (str "eve")
      (str "ops")
      (str "deploy now")
      (some none)
    ≡ (str "t1", ok tt, kept)
unfolding create create_if_missing update create_tx
kept-eq = refl

get-create_token_example :
    get tokens (plain ApiToken) (str "t1") kept
    ≡ ok (new_token (str "t1") (str "eve") (str "ops") (str "deploy now") 5)
unfolding ◌==◌
get-create_token_example =
    get-create_token tokens (plain ApiToken) (memory-BoltLaws ApiToken) (str "t1") (str "eve")
      (str "ops") (str "deploy now") 5 none kept (plain-IsFaithful ApiToken) kept-eq (str "t1")

abbrev table_of : Store → Option (Table ApiToken)
table_of none = none
table_of (some t) = t

abbrev revoked : Store
revoked = (revoke tokens (plain ApiToken) (str "t1") (some (table_of kept))).1

revoked-eq : revoke tokens (plain ApiToken) (str "t1") (some (table_of kept)) ≡ (ok tt, revoked)
unfolding revoke create create_if_missing update create_tx
revoked-eq = refl
