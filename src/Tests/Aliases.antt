-- ===== src/Tests/Aliases.antt =====
-- Aliases stored in memory (persistence/aliases/aliases.go).
use meeseeks_box.Base.{◌≡◌, refl, ◌==◌, [], ◌∷◌, str, Option, none, some, ok, err, alias_not_found}
use meeseeks_box.Base.Assoc.{Assoc, lookup, insert}
use meeseeks_box.Model.{Alias}
use meeseeks_box.Persistence.Bolt.{Bolt, create_if_missing, put_pair, delete_pair}
use meeseeks_box.Persistence.Bolt.Memory.{Table, memory, memory-BoltLaws, plain, plain-IsFaithful}
use meeseeks_box.Persistence.Db.{update}
use meeseeks_box.Persistence.Aliases.{
  get_aliases_bucket, create, create_tx, remove_alias, remove_tx, get,
}
use meeseeks_box.Persistence.Aliases.Laws.{get-create_alias, get-remove_alias}

abbrev aliases : Bolt Alias
aliases = memory Alias

abbrev Store : Type 0
Store = Option (Assoc (Table Alias))

abbrev kept : Store
kept =
    (create aliases (plain Alias) (ok tt) (str "U1") (str "d") (str "deploy") (str "now" ∷ [])
      (some [])).1

kept-eq :
    create aliases
      (plain Alias)
      (ok tt)
      (str "U1")
      (str "d")
      (str "deploy")
      (str "now" ∷ [])
      (some [])
    ≡ (ok tt, kept)
unfolding create create_tx get_aliases_bucket create_if_missing lookup update
kept-eq = refl

get-create_alias_example :
    (get aliases (plain Alias) (ok tt) (str "U1") (str "d") kept).0
    ≡ ok (str "deploy", str "now" ∷ [])
unfolding ◌==◌
get-create_alias_example =
    get-create_alias aliases (plain Alias) (ok tt) (memory-BoltLaws Alias) (str "U1") (str "d")
      (str "deploy") (str "now" ∷ []) [] kept (plain-IsFaithful Alias) kept-eq (str "U1") (str "d")

abbrev users_of : Store → Assoc (Table Alias)
users_of none = []
users_of (some users) = users

abbrev removed : Store
removed = (remove_alias aliases (plain Alias) (ok tt) (str "U1") (str "d") (some (users_of kept))).1

removed-eq :
    remove_alias aliases (plain Alias) (ok tt) (str "U1") (str "d") (some (users_of kept))
    ≡ (ok tt, removed)
unfolding remove_alias remove_tx create create_tx get_aliases_bucket create_if_missing lookup insert
    put_pair delete_pair ◌==◌ update
removed-eq = refl

get-remove_alias_example :
    (get aliases (plain Alias) (ok tt) (str "U1") (str "d") removed).0 ≡ err alias_not_found
unfolding ◌==◌
get-remove_alias_example =
    get-remove_alias aliases (plain Alias) (ok tt) (memory-BoltLaws Alias) (str "U1") (str "d")
      (users_of kept) removed (record { pairs = []; last = 0; ascending = tt }) refl removed-eq
      (str "U1") (str "d")
