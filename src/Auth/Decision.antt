-- ===== src/Auth/Decision.antt =====
-- When a request is allowed to run a command, stated without the strategies' maps and loops.
use meeseeks_box.Base.{
  ◌≡◌, refl, sym, ◌∙◌, ◌↔◌, ◌⊎◌, inl, inr, true, false, List, [], ◌∷◌, Option, none, some, Bytes,
  str, ◌==◌, eq_iff, eq_refl, eq-cases, if◌then◌else◌, arith, Result, ok, err, contains, Elem, here,
  there, bind-eq-ok, Result-cases, ◌>>◌, user_not_allowed, channel_not_allowed, only_im_allowed,
  Error,
}
use meeseeks_box.Base.Assoc.{Assoc, lookup, Distinct}
use meeseeks_box.Base.Contains.{contains_iff}
use meeseeks_box.Model.{Request, Command}
use meeseeks_box.Auth.{
  Auth, configure, check_user_in_group, check_groups, check_channels, run_check, check, strategy_or,
  auth_strategies, channel_strategies, no_user_allowed, any_channel_allowed,
}
use meeseeks_box.Auth.Groups.{check_user_in_group-configure, membership}

-- The user is a member of one of the groups that the command allows.
abbrev pub InAllowedGroup : Assoc (List Bytes) → Bytes → List Bytes → Type 0
InAllowedGroup cfg user allowed =
    (g : Bytes) × (users : List Bytes) × Elem g allowed
    × (lookup g cfg ≡ some users)
    × Elem user users

-- Any strategy but these two allows nobody.
abbrev pub UserAllowed : Assoc (List Bytes) → Request → Command → Type 0
UserAllowed cfg req cmd =
    (cmd.auth_strategy ≡ str "any")
    ⊎ ((cmd.auth_strategy ≡ str "group") × InAllowedGroup cfg req.username cmd.allowed_groups)

-- Any strategy but these two allows every channel.
abbrev pub ChannelAllowed : Request → Command → Type 0
ChannelAllowed req cmd =
    (cmd.channel_strategy ≡ str "im_only" → req.is_im ≡ true)
    × (cmd.channel_strategy ≡ str "channel" → Elem req.channel cmd.allowed_channels)

membership-eq-ok :
    (o : Option (List Bytes)) (u : Bytes) {x : Unit {0}}
    → membership o u ≡ ok x
    → (users : List Bytes) × (o ≡ some users) × Elem u users
membership-eq-ok none u h = cc
membership-eq-ok (some users) u h = (users, refl, (contains_iff users u).0 (ground arith))

InAllowedGroup-there :
    (cfg : Assoc (List Bytes)) {user g : Bytes} {allowed : List Bytes}
    → InAllowedGroup cfg user allowed
    → InAllowedGroup cfg user (g ∷ allowed)
InAllowedGroup-there cfg (g, users, l, e, m) = (g, users, there l, e, m)

module _ (cfg : Assoc (List Bytes)) (once : Distinct cfg) where
  check_groups-to :
      (user : Bytes) (allowed : List Bytes)
      → check_groups (configure cfg) user allowed ≡ ok tt
      → InAllowedGroup cfg user allowed
  unfolding check_groups
  check_groups-to user [] h = cc
  check_groups-to user (g ∷ allowed) h =
      elim (Result-cases (check_user_in_group (configure cfg) user g)) [
        | inl (u, e) ↦
            let (users, e', m) =
              membership-eq-ok (lookup g cfg) user
                (sym (check_user_in_group-configure cfg user g once) ∙ e) in
            (g, users, here, e', m)
        | inr (f, e) ↦
            InAllowedGroup-there cfg (check_groups-to user allowed (rw (e, check_groups) at h))
      ]

  check_groups-of :
      (user g : Bytes) (users : List Bytes)
      → lookup g cfg ≡ some users
      → Elem user users
      → (allowed : List Bytes) → Elem g allowed
      → check_groups (configure cfg) user allowed ≡ ok tt
  unfolding check_groups
  check_groups-of user g users e m _ (here {xs}) =
      ground (arith, check_user_in_group-configure cfg user g once, (contains_iff users user).1 m)
  check_groups-of user g users e m _ (there {x} {xs} l) =
      ground (arith, check_groups-of user g users e m xs l)

check_channels-eq :
    (channel : Bytes) (allowed : List Bytes)
    → check_channels channel allowed
      ≡ (if contains allowed channel then ok tt else err channel_not_allowed)
unfolding check_channels contains
check_channels-eq channel [] = refl
check_channels-eq channel (ch ∷ allowed) =
    ground (arith, check_channels-eq channel allowed, eq_iff channel ch, eq_iff ch channel)

run_user :
    (a : Auth) (req : Request) (cmd : Command)
    → run_check (strategy_or no_user_allowed (lookup cmd.auth_strategy auth_strategies)) a req cmd
      ≡ (if str "any" == cmd.auth_strategy
          then ok tt
          else if str "group" == cmd.auth_strategy
          then check_groups a req.username cmd.allowed_groups
          else err user_not_allowed)
unfolding run_check lookup
run_user a req cmd = ground arith

run_channel :
    (a : Auth) (req : Request) (cmd : Command)
    → run_check
        (strategy_or any_channel_allowed (lookup cmd.channel_strategy channel_strategies))
        a
        req
        cmd
      ≡ (if str "channel" == cmd.channel_strategy
          then check_channels req.channel cmd.allowed_channels
          else if str "im_only" == cmd.channel_strategy
          then (if req.is_im then ok tt else err only_im_allowed)
          else ok tt)
unfolding run_check lookup
run_channel a req cmd =
    ground
      (arith, eq_iff (str "any") cmd.channel_strategy, eq_iff (str "im_only") cmd.channel_strategy)

-- The user's half of a check, and the channel's half.
abbrev pub user_result : Auth → Request → Command → Result (Unit {0})
user_result a req cmd =
    if str "any" == cmd.auth_strategy
    then ok tt
    else if str "group" == cmd.auth_strategy
    then check_groups a req.username cmd.allowed_groups
    else err user_not_allowed

abbrev pub channel_result : Request → Command → Result (Unit {0})
channel_result req cmd =
    if str "channel" == cmd.channel_strategy
    then check_channels req.channel cmd.allowed_channels
    else if str "im_only" == cmd.channel_strategy
    then (if req.is_im then ok tt else err only_im_allowed)
    else ok tt

pub check-eq :
    (a : Auth) (req : Request) (cmd : Command)
    → check a req cmd ≡ (user_result a req cmd >> channel_result req cmd)
unfolding check
check-eq a req cmd = rw (run_user a req cmd, run_channel a req cmd)

check_groups_error :
    (a : Auth) (user : Bytes) (allowed : List Bytes)
    → (check_groups a user allowed ≡ ok tt) ⊎ (check_groups a user allowed ≡ err user_not_allowed)
unfolding check_groups
check_groups_error a user [] = inr refl
check_groups_error a user (g ∷ allowed) = elim (Result-cases (check_user_in_group a user g)) [
  | inl (u, e) ↦ inl (rw (e, check_groups))
  | inr (f, e) ↦ rw (e, check_groups) (check_groups_error a user allowed)
]

module _ (cfg : Assoc (List Bytes)) (once : Distinct cfg) (req : Request) (cmd : Command) where
  user_result-to : user_result (configure cfg) req cmd ≡ ok tt → UserAllowed cfg req cmd
  user_result-to h = elim (eq-cases (str "any") cmd.auth_strategy) [
    | inl e ↦ inl (sym e)
    | inr n ↦ elim (eq-cases (str "group") cmd.auth_strategy) [
      | inl e ↦ inr (
        sym e,
        check_groups-to cfg once req.username cmd.allowed_groups
            (ground (arith, (eq_iff (str "group") cmd.auth_strategy).1 e)),
      )
      | inr m ↦ cc
    ]
  ]

  user_result-of : UserAllowed cfg req cmd → user_result (configure cfg) req cmd ≡ ok tt
  user_result-of (inl e) = rw (e, eq_refl)
  user_result-of (inr (e, (g, users, l, e', m))) =
      rw (e, eq_refl)
        (unfold ◌==◌ in check_groups-of cfg once req.username g users e' m cmd.allowed_groups l)

  channel_result-to : channel_result req cmd ≡ ok tt → ChannelAllowed req cmd
  channel_result-to h = (
    λ e. ground (
      arith,
      eq_iff (str "channel") cmd.channel_strategy,
      eq_iff (str "im_only") cmd.channel_strategy,
    ),
    λ e. (contains_iff cmd.allowed_channels req.channel).0 (
        ground (
          arith,
          eq_iff (str "channel") cmd.channel_strategy,
          check_channels-eq req.channel cmd.allowed_channels,
        )),
  )

  channel_result-of : ChannelAllowed req cmd → channel_result req cmd ≡ ok tt
  channel_result-of (im, ch) = elim (eq-cases (str "channel") cmd.channel_strategy) [
    | inl e ↦ ground (
      arith,
      eq_iff (str "channel") cmd.channel_strategy,
      check_channels-eq req.channel cmd.allowed_channels,
      (contains_iff cmd.allowed_channels req.channel).1 (ch (sym e)),
    )
    | inr n ↦ elim (eq-cases (str "im_only") cmd.channel_strategy) [
      | inl e ↦ ground (arith, im (sym e))
      | inr m ↦ ground arith
    ]
  ]

  pub check_iff :
      (check (configure cfg) req cmd ≡ ok tt) ↔ (UserAllowed cfg req cmd × ChannelAllowed req cmd)
  check_iff = (
    λ h.
        let (u, e, e') =
          bind-eq-ok (user_result (configure cfg) req cmd) (λ _. channel_result req cmd)
            (sym (check-eq (configure cfg) req cmd) ∙ h) in
        (user_result-to e, channel_result-to e'),
    λ (u, c). rw (check-eq, user_result-of u) (channel_result-of c),
  )

  user_error : (e : Error) → user_result (configure cfg) req cmd ≡ err e → e ≡ user_not_allowed
  user_error e h =
      ground (arith, check_groups_error (configure cfg) req.username cmd.allowed_groups)

  channel_error :
      (e : Error)
      → channel_result req cmd ≡ err e
      → ((e ≡ only_im_allowed) × (req.is_im ≡ false)) ⊎ (e ≡ channel_not_allowed)
  channel_error e h = ground (arith, check_channels-eq req.channel cmd.allowed_channels)

  -- A refused check says whether the user or the channel was refused: the user is looked at
  -- first, and a channel is refused only for a user who is allowed.
  pub check_refusal :
      (e : Error)
      → check (configure cfg) req cmd ≡ err e
      → ((e ≡ user_not_allowed) × (UserAllowed cfg req cmd → ⊥))
        ⊎ (UserAllowed cfg req cmd
            × (ChannelAllowed req cmd → ⊥)
            × (((e ≡ only_im_allowed) × (req.is_im ≡ false)) ⊎ (e ≡ channel_not_allowed)))
  check_refusal e h = elim (Result-cases (user_result (configure cfg) req cmd)) [
    | inl (u, eu) ↦
        let ec : channel_result req cmd ≡ err e = cc (eu, check-eq (configure cfg) req cmd) in
        inr (user_result-to eu, (λ c. cc (channel_result-of c)), channel_error e ec)
    | inr (f, eu) ↦
        inl (cc (user_error f eu, eu, check-eq (configure cfg) req cmd), λ u. cc (user_result-of u))
  ]
