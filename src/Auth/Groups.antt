-- ===== src/Auth/Groups.antt =====
-- What `Configure` loads: the groups, and the users that any group names.
use meeseeks_box.Base.{
  ◌≡◌, refl, ◌↔◌, Bool, true, false, ◌||◌, List, [], ◌∷◌, Option, none, some, Bytes, eq_iff,
  if◌then◌else◌, arith, Result, ok, err, group_not_found, user_not_in_group, contains, Elem, here,
  there, Bool-cases, inl, inr,
}
use meeseeks_box.Base.Assoc.{Assoc, lookup, insert, lookup-insert, Distinct}
use meeseeks_box.Base.Contains.{contains_iff}
use meeseeks_box.Auth.{
  Auth, add_users, add_known, configure_from, configure, group_has, check_user_in_group,
  is_known_user,
}

pub lookup-add_users :
    (users : List Bytes) (group : Assoc Bool) (u : Bytes)
    → lookup u (add_users users group) ≡ (if contains users u then some true else lookup u group)
unfolding add_users contains
lookup-add_users [] group u = refl
lookup-add_users (x ∷ users) group u =
    rw (lookup-add_users users (insert x true group) u, lookup-insert) (ground arith)

lookup-add_known :
    (users : List Bytes) (known : Assoc (Unit {0})) (u : Bytes)
    → lookup u (add_known users known) ≡ (if contains users u then some tt else lookup u known)
unfolding add_known contains
lookup-add_known [] known u = refl
lookup-add_known (x ∷ users) known u =
    rw (lookup-add_known users (insert x tt known) u, lookup-insert) (ground arith)

abbrev pub loaded : Option (List Bytes) → Option (Assoc Bool) → Option (Assoc Bool)
loaded none before = before
loaded (some users) before = some (add_users users [])

pub lookup-groups :
    (cfg : Assoc (List Bytes)) (a : Auth) (g : Bytes)
    → Distinct cfg
    → lookup g (configure_from cfg a).groups ≡ loaded (lookup g cfg) (lookup g a.groups)
unfolding configure_from lookup
lookup-groups [] a g h = refl
lookup-groups ((name, users) ∷ cfg) a g (h, hs) =
    rw (lookup-groups cfg _ g hs, lookup-insert) (ground (arith, eq_iff name g))

-- Whether any group names the user.
abbrev pub in_any_group : Assoc (List Bytes) → Bytes → Bool
in_any_group [] u = false
in_any_group ((name, users) ∷ cfg) u = contains users u || in_any_group cfg u

lookup-known :
    (cfg : Assoc (List Bytes)) (a : Auth) (u : Bytes)
    → lookup u (configure_from cfg a).known_users
      ≡ (if in_any_group cfg u then some tt else lookup u a.known_users)
unfolding configure_from
lookup-known [] a u = refl
lookup-known ((name, users) ∷ cfg) a u = rw (lookup-known cfg _ u, lookup-add_known) (ground arith)

abbrev pub membership : Option (List Bytes) → Bytes → Result (Unit {0})
membership none u = err group_not_found
membership (some users) u = if contains users u then ok tt else err user_not_in_group

loaded_member : (o : Option (List Bytes)) (u : Bytes) → group_has u (loaded o none) ≡ membership o u
unfolding lookup
loaded_member none u = refl
loaded_member (some users) u = rw lookup-add_users (ground arith)

-- With each group configured once, a check against the loaded groups is a look into the
-- configuration: a missing group, a missing user and a member are told apart.
pub check_user_in_group-configure :
    (cfg : Assoc (List Bytes)) (u g : Bytes)
    → Distinct cfg
    → check_user_in_group (configure cfg) u g ≡ membership (lookup g cfg) u
unfolding check_user_in_group configure lookup
check_user_in_group-configure cfg u g h =
    rw (lookup-groups cfg (record { groups = []; known_users = [] }) g h)
      (loaded_member (lookup g cfg) u)

in_any_group-to :
    (cfg : Assoc (List Bytes)) (u : Bytes)
    → in_any_group cfg u ≡ true
    → (g : Bytes) × (users : List Bytes) × Elem (g, users) cfg × Elem u users
in_any_group-to [] u h = cc
in_any_group-to ((name, users) ∷ cfg) u h = elim (Bool-cases (contains users u)) [
  | inl e ↦ (name, users, here, (contains_iff users u).0 e)
  | inr n ↦ let (g, us, listed, e) = in_any_group-to cfg u (rw n at h) in (g, us, there listed, e)
]

in_any_group-of :
    (u g : Bytes) (users : List Bytes) (cfg : Assoc (List Bytes))
    → Elem (g, users) cfg
    → Elem u users
    → in_any_group cfg u ≡ true
in_any_group-of u g users _ (here {xs}) e = ground (arith, (contains_iff users u).1 e)
in_any_group-of u g users _ (there {x} {xs} l) e = ground (arith, in_any_group-of u g users xs l e)

is_known_user-configure :
    (cfg : Assoc (List Bytes)) (u : Bytes) → is_known_user (configure cfg) u ≡ in_any_group cfg u
unfolding is_known_user configure lookup
is_known_user-configure cfg u =
    ground (arith, lookup-known cfg (record { groups = []; known_users = [] }) u)

-- A user is known exactly when some configured group lists the user.
pub is_known_user_iff :
    (cfg : Assoc (List Bytes)) (u : Bytes)
    → (is_known_user (configure cfg) u ≡ true)
      ↔ ((g : Bytes) × (users : List Bytes) × Elem (g, users) cfg × Elem u users)
is_known_user_iff cfg u = (
  λ h. in_any_group-to cfg u (rw is_known_user-configure at h),
  λ (g, users, listed, e). rw is_known_user-configure (in_any_group-of u g users cfg listed e),
)
