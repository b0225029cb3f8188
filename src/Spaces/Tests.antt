-- ===== src/Spaces/Tests.antt =====
-- Runs of the spaces' code at fixed inputs, and the theorems at concrete ones.
use stohr.Common.{ℕ, ◌≡◌, refl, false, none, some, [], ◌∷◌, String}
use stohr.Db.{Db, UserRow, SpaceRow, SpaceMemberRow, SpaceRole, admin, editor, viewer, user_by_id}
use stohr.Permissions.{same_team}
use stohr.Oauth.State.{string_length}
use stohr.Teams.Slug.{to_lower}
use stohr.Spaces.Names.{slug_from_name, unique_slug, unique_slug_from}
use stohr.Spaces.Routes.{failed, removed, member, space_membership}
use stohr.Spaces.Members.{NewMember, add_member, change_member, remove_member}
use stohr.Spaces.Members.Owner.{OwnersAreAdmins}
use stohr.Spaces.Steps.{member_changed, SpaceStep-OwnersAreAdmins}

abbrev user_row : ℕ → String → UserRow
user_row id username = record {
  id = id;
  is_owner = false;
  team_id = 1;
  team_admin = false;
  oauth_epoch = 0;
  username = username;
  email = "ann@example.org";
  storage_quota_bytes = 0;
  deleted_at = none;
  suspended_at = none;
}

abbrev lab : SpaceRow
lab = record {
  id = 5;
  slug = "lab";
  name = "Lab";
  description = none;
  owner_id = 1;
  deleted_at = none;
}

abbrev member_row : ℕ → ℕ → SpaceRole → SpaceMemberRow
member_row id user_id role = record { id = id; space_id = 5; user_id = user_id; role = role }

abbrev db : Db
db = record {
  users = user_row 1 "ann" ∷ user_row 2 "bob" ∷ user_row 3 "cy" ∷ [];
  teams = [];
  folders = [];
  files = [];
  file_versions = [];
  collaborations = [];
  spaces = lab ∷ [];
  space_members = member_row 10 1 admin ∷ member_row 11 2 admin ∷ [];
}

SpaceStep-OwnersAreAdmins_example : OwnersAreAdmins (change_member db 2 5 11 (some viewer)).1
SpaceStep-OwnersAreAdmins_example =
    SpaceStep-OwnersAreAdmins db (refl, (refl, tt)) (refl, tt)
      ((member_row 10 1 admin, refl, refl), tt) (change_member db 2 5 11 (some viewer)).1
      (member_changed 2 5 11 (some viewer))

demoted :
    (change_member db 2 5 11 (some viewer)).1.space_members
    ≡ member_row 10 1 admin ∷ member_row 11 2 viewer ∷ []
unfolding change_member space_membership same_team user_by_id
demoted = refl

owner_not_demoted : (change_member db 2 5 10 (some viewer)).0 ≡ failed 422
unfolding change_member space_membership same_team user_by_id
owner_not_demoted = refl

owner_not_removed : (remove_member db 1 5 10).0 ≡ failed 422
unfolding remove_member space_membership same_team user_by_id
owner_not_removed = refl

left : (remove_member db 2 5 11).0 ≡ removed 11
unfolding remove_member space_membership same_team user_by_id
left = refl

abbrev by_name : NewMember
by_name = record { user_id = none; username = some "Cy"; email = none; role = none }

invited : (add_member db 12 1 1 5 by_name).0 ≡ member 12 editor
unfolding add_member space_membership same_team user_by_id to_lower
invited = refl

slug_of_name : slug_from_name " My  Lab! " ≡ "my-lab"
unfolding slug_from_name to_lower
slug_of_name = refl

second_slug : unique_slug (lab ∷ []) "lab" ("1234" ∷ "5678" ∷ []) ≡ some "lab-1234"
unfolding unique_slug unique_slug_from string_length
second_slug = refl
