-- ===== src/Auth.antt =====
-- auth/auth.go: who may run a command, and where.
pub mod Groups
pub mod Decision
pub mod Listing
use meeseeks_box.Base.{
  Bool, true, List, [], ◌∷◌, Option, none, some, Bytes, str, ◌==◌, if◌then◌else◌, Result, ok, err,
  ◌>>=◌, ◌>>◌, user_not_allowed, channel_not_allowed, only_im_allowed, group_not_found,
  user_not_in_group,
}
use meeseeks_box.Base.Assoc.{Assoc, lookup, insert}
use meeseeks_box.Base.Sorting.{sort}
use meeseeks_box.Model.{Request, Command}

-- the package's variables `groups` and `knownUsers`
pub record Auth : Type 0 where
  pub groups : Assoc (Assoc Bool)
  pub known_users : Assoc (Unit {0})

abbrev pub auth_strategy_any : Bytes
auth_strategy_any = str "any"

abbrev pub auth_strategy_allowed_group : Bytes
auth_strategy_allowed_group = str "group"

abbrev pub auth_strategy_none : Bytes
auth_strategy_none = str "none"

abbrev pub channel_strategy_any : Bytes
channel_strategy_any = str "any"

abbrev pub channel_strategy_im_only : Bytes
channel_strategy_im_only = str "im_only"

abbrev pub channel_strategy_allowed_channels : Bytes
channel_strategy_allowed_channels = str "channel"

-- the inner loop of `Configure`
pub add_users : List Bytes → Assoc Bool → Assoc Bool
add_users [] group = group
add_users (user ∷ users) group = add_users users (insert user true group)

add_known : List Bytes → Assoc (Unit {0}) → Assoc (Unit {0})
add_known [] known = known
add_known (user ∷ users) known = add_known users (insert user tt known)

pub configure_from : Assoc (List Bytes) → Auth → Auth
configure_from [] a = a
configure_from ((name, users) ∷ rest) a = configure_from rest (record {
  groups = insert name (add_users users []) a.groups;
  known_users = add_known users a.known_users;
})

unfoldable pub configure : Assoc (List Bytes) → Auth
unfolding add_users add_known configure_from
configure configured_groups =
    configure_from configured_groups (record { groups = []; known_users = [] })

abbrev user_in : Option Bool → Result (Unit {0})
user_in none = err user_not_in_group
user_in (some _) = ok tt

abbrev group_has : Bytes → Option (Assoc Bool) → Result (Unit {0})
group_has username none = err group_not_found
group_has username (some users) = user_in (lookup username users)

unfoldable pub check_user_in_group : Auth → Bytes → Bytes → Result (Unit {0})
check_user_in_group a username group = group_has username (lookup group a.groups)

-- the loop over the users of a group
abbrev pub users_of : Assoc Bool → List Bytes
users_of [] = []
users_of ((user, _) ∷ users) = user ∷ users_of users

unfoldable pub groups_from : Assoc (Assoc Bool) → Assoc (List Bytes) → Assoc (List Bytes)
groups_from [] g = g
groups_from ((group, users) ∷ rest) g = groups_from rest (insert group (sort (users_of users)) g)

unfoldable pub get_groups : Auth → Assoc (List Bytes)
get_groups a = groups_from a.groups []

unfoldable pub is_known_user : Auth → Bytes → Bool
is_known_user a username = elim (lookup username a.known_users) [
  | none ↦ Bool.false
  | some _ ↦ true
]

-- the types that implement `Authorizer`
pub data Authorizer : Type 0 where
  any_user_allowed user_in_group_allowed no_user_allowed : Authorizer
  channel_explicitly_allowed any_channel_allowed im_only_allowed : Authorizer

-- every error but nil is logged, and the loop goes on
pub check_groups : Auth → Bytes → List Bytes → Result (Unit {0})
check_groups a username [] = err user_not_allowed
check_groups a username (group ∷ rest) = elim (check_user_in_group a username group) [
  | ok _ ↦ ok tt
  | err _ ↦ check_groups a username rest
]

pub check_channels : Bytes → List Bytes → Result (Unit {0})
check_channels channel [] = err channel_not_allowed
check_channels channel (ch ∷ rest) = if channel == ch then ok tt else check_channels channel rest

run_check : Authorizer → Auth → Request → Command → Result (Unit {0})
unfolding check_groups check_channels
run_check any_user_allowed a req cmd = ok tt
run_check no_user_allowed a req cmd = err user_not_allowed
run_check user_in_group_allowed a req cmd = check_groups a req.username cmd.allowed_groups
run_check any_channel_allowed a req cmd = ok tt
run_check im_only_allowed a req cmd = if req.is_im then ok tt else err only_im_allowed
run_check channel_explicitly_allowed a req cmd = check_channels req.channel cmd.allowed_channels

abbrev auth_strategies : Assoc Authorizer
auth_strategies =
    (auth_strategy_any, any_user_allowed)
    ∷ (auth_strategy_allowed_group, user_in_group_allowed)
    ∷ (auth_strategy_none, no_user_allowed)
    ∷ []

abbrev channel_strategies : Assoc Authorizer
channel_strategies =
    (channel_strategy_allowed_channels, channel_explicitly_allowed)
    ∷ (channel_strategy_any, any_channel_allowed)
    ∷ (channel_strategy_im_only, im_only_allowed)
    ∷ []

-- `if !ok { strategy = fallback }`
abbrev strategy_or : Authorizer → Option Authorizer → Authorizer
strategy_or fallback none = fallback
strategy_or fallback (some s) = s

unfoldable pub check : Auth → Request → Command → Result (Unit {0})
unfolding run_check
check a req cmd = do
  run_check (strategy_or no_user_allowed (lookup cmd.auth_strategy auth_strategies)) a req cmd
  run_check (strategy_or any_channel_allowed (lookup cmd.channel_strategy channel_strategies)) a req
      cmd
