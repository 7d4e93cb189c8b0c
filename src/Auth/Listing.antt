-- ===== src/Auth/Listing.antt =====
-- What `GetGroups` lists of the loaded groups.
use meeseeks_box.Base.{
  ◌≡◌, refl, Bool, true, false, List, [], ◌∷◌, Option, none, some, Bytes, eq_iff, arith, contains,
}
use meeseeks_box.Base.Assoc.{Assoc, lookup, insert, lookup-insert, Distinct, Distinct-insert}
use meeseeks_box.Base.Sorting.{sort, contains-sort, Ascending, Unrepeated, sort-Ascending}
use meeseeks_box.Auth.{
  Auth, add_users, configure_from, configure, users_of, groups_from, get_groups,
}
use meeseeks_box.Auth.Groups.{lookup-add_users, lookup-groups, loaded}

-- What is listed for a group: the same users as are configured for it, in ascending order and
-- each of them once; and no other group is listed.
abbrev pub IsListing : Option (List Bytes) → Option (List Bytes) → Type 0
IsListing none none = Unit
IsListing (some users) (some listed) =
    Ascending listed × ((u : Bytes) → contains listed u ≡ contains users u)
IsListing _ _ = ⊥

abbrev is_some {ℓ} : {A : Type ℓ} → Option A → Bool
is_some none = false
is_some (some a) = true

contains-users_of :
    (users : Assoc Bool) (u : Bytes) → contains (users_of users) u ≡ is_some (lookup u users)
unfolding contains lookup
contains-users_of [] u = refl
contains-users_of ((user, _) ∷ users) u = ground (arith, contains-users_of users u)

Unrepeated-users_of : (users : Assoc Bool) → Distinct users → Unrepeated (users_of users)
Unrepeated-users_of [] h = tt
Unrepeated-users_of ((user, _) ∷ users) (new, h) =
    (ground (arith, contains-users_of users user), Unrepeated-users_of users h)

Distinct-add_users :
    (users : List Bytes) (group : Assoc Bool) → Distinct group → Distinct (add_users users group)
unfolding add_users
Distinct-add_users [] group h = h
Distinct-add_users (u ∷ users) group h =
    Distinct-add_users users (insert u true group) (Distinct-insert u true group h)

abbrev listed_or : Option (Assoc Bool) → Option (List Bytes) → Option (List Bytes)
listed_or none before = before
listed_or (some users) before = some (sort (users_of users))

lookup-groups_from :
    (groups : Assoc (Assoc Bool)) (g : Assoc (List Bytes)) (name : Bytes)
    → Distinct groups
    → lookup name (groups_from groups g) ≡ listed_or (lookup name groups) (lookup name g)
unfolding groups_from lookup
lookup-groups_from [] g name h = refl
lookup-groups_from ((group, users) ∷ rest) g name (new, h) =
    rw (lookup-groups_from rest _ name h, lookup-insert) (ground (arith, eq_iff group name))

Distinct-configure_from :
    (cfg : Assoc (List Bytes)) (a : Auth)
    → Distinct a.groups
    → Distinct (configure_from cfg a).groups
unfolding configure_from
Distinct-configure_from [] a h = h
Distinct-configure_from ((name, users) ∷ cfg) a h =
    Distinct-configure_from cfg _ (Distinct-insert name (add_users users []) a.groups h)

listed_users :
    (users : List Bytes) → IsListing (some users) (some (sort (users_of (add_users users []))))
unfolding lookup
listed_users users =
    let group = add_users users [] in
    (
      sort-Ascending (users_of group) (Unrepeated-users_of group (Distinct-add_users users [] tt)),
      λ u.
          rw
            (
              contains-sort u (users_of group),
              contains-users_of group u,
              lookup-add_users users [] u,
            )
            (ground arith),
    )

listed_group :
    (configured : Option (List Bytes))
    → IsListing configured (listed_or (loaded configured none) none)
listed_group none = tt
listed_group (some users) = listed_users users

-- With each group configured once, GetGroups lists the configured groups and no other, each with
-- its users in ascending order, without repetition.
pub get_groups-configure :
    (cfg : Assoc (List Bytes)) (group : Bytes)
    → Distinct cfg
    → IsListing (lookup group cfg) (lookup group (get_groups (configure cfg)))
unfolding get_groups configure lookup
get_groups-configure cfg group h =
    let empty : Auth = record { groups = []; known_users = [] } in
    rw
      (
        lookup-groups_from (configure_from cfg empty).groups [] group
            (Distinct-configure_from cfg empty tt),
        lookup-groups cfg empty group h,
      )
      (listed_group (lookup group cfg))
