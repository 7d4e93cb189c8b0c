-- ===== src/Tests/Access.antt =====
-- Checks of users and channels (auth/auth.go).
use meeseeks_box.Base.{
  ◌≡◌, refl, ◌==◌, true, false, List, [], ◌∷◌, Bytes, str, err, user_not_allowed,
}
use meeseeks_box.Base.Assoc.{Assoc, Distinct, lookup, insert}
use meeseeks_box.Model.{Request, Command, CommandOpts, with_opts, shell}
use meeseeks_box.Auth.{configure, check_user_in_group, check, get_groups}
use meeseeks_box.Auth.Listing.{IsListing, get_groups-configure}

abbrev pub request : Request
request = record {
  command = str "deploy";
  args = str "now" ∷ [];
  username = str "eve";
  user_id = str "U2";
  user_link = str "<@U2>";
  channel = str "ops";
  channel_id = str "C1";
  channel_link = str "<#C1>";
  is_im = false;
}

abbrev opts : CommandOpts
opts = record {
  cmd = str "deploy";
  args = [];
  allowed_groups = str "admin" ∷ [];
  auth_strategy = str "group";
  allowed_channels = [];
  channel_strategy = [];
  handshake = true;
  timeout = 0;
  help = record { summary = []; args = [] };
}

abbrev pub deploy : Command
deploy = with_opts shell opts

abbrev groups : Assoc (List Bytes)
groups = (str "admin", str "ann" ∷ []) ∷ (str "dev", str "ann" ∷ str "eve" ∷ []) ∷ []

groups-Distinct : Distinct groups
unfolding lookup ◌==◌
groups-Distinct = (refl, (refl, tt))

get_groups-configure_example :
    IsListing (lookup (str "dev") groups) (lookup (str "dev") (get_groups (configure groups)))
get_groups-configure_example = get_groups-configure groups (str "dev") groups-Distinct

check-eve : check (configure groups) request deploy ≡ err user_not_allowed
unfolding check configure ◌==◌ lookup with_opts check_user_in_group insert
check-eve = refl
