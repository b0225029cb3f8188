-- ===== src/Permissions/Tests.antt =====
-- Runs of the access resolvers (src/permissions/index.ts).
use stohr.Common.{ℕ, ◌≡◌, ◌≢◌, ◌≤◌, ◌↔◌, refl, true, false, find, Option, none, some, [], ◌∷◌}
use stohr.Db.{
  Db, UserRow, FolderRow, FileRow, owner, editor, viewer, admin, folder, skipped, folder_by_id,
  user_by_id, standard,
}
use stohr.Permissions.{
  inherited_folder_role, folder_access, file_access, FileAccess, trashed_folder_access,
  trashed_file_access, same_team, live_file, visible_file, visible_folder, parent_space,
  current_member,
}
use stohr.Permissions.Inherited.{NearestGrant, inherited_folder_role_iff}
use stohr.Permissions.Access.{
  access-same_team, no_access_without_membership, visible_file-file_access,
}

abbrev user_of_team : ℕ → ℕ → UserRow
user_of_team id team_id = record {
  id = id;
  is_owner = false;
  team_id = team_id;
  team_admin = false;
  oauth_epoch = 0;
  storage_quota_bytes = 0;
  username = "ann";
  email = "ann@example.org";
  deleted_at = none;
  suspended_at = none;
}

abbrev folder_row : ℕ → ℕ → Option ℕ → Option ℕ → FolderRow
folder_row id user_id parent_id space_id = record {
  id = id;
  user_id = user_id;
  parent_id = parent_id;
  name = "docs";
  space_id = space_id;
  kind = standard;
  is_public = false;
  deleted_at = none;
}

abbrev file_row : ℕ → ℕ → Option ℕ → FileRow
file_row id user_id folder_id = record {
  id = id;
  user_id = user_id;
  folder_id = folder_id;
  name = "a.txt";
  mime = "text/plain";
  size = 3;
  storage_key = "k";
  thumb_key = none;
  version = 1;
  scan_status = skipped;
  scan_signature = none;
  scanned_at = none;
  deleted_at = none;
}

-- Users 1 and 2 are of team 1 and user 3 of team 2. Folder 10 is user 1's and folder 11 lies in it;
-- users 2 and 3 have a grant on folder 10. Folder 20 is in space 5, whose member is user 2.
abbrev db : Db
db = record {
  users = user_of_team 1 1 ∷ user_of_team 2 1 ∷ user_of_team 3 2 ∷ [];
  teams = [];
  folders =
      folder_row 10 1 none none
      ∷ folder_row 11 1 (some 10) none
      ∷ folder_row 20 1 none (some 5)
      ∷ [];
  files = file_row 100 1 (some 20) ∷ [];
  file_versions = [];
  collaborations =
      record { resource_type = folder; resource_id = 10; user_id = some 2; role = editor }
      ∷ record { resource_type = folder; resource_id = 10; user_id = some 3; role = viewer }
      ∷ [];
  spaces =
      record {
        id = 5;
        slug = "lab";
        name = "Lab";
        description = none;
        owner_id = 1;
        deleted_at = none;
      }
      ∷ [];
  space_members = record { id = 1; space_id = 5; user_id = 2; role = admin } ∷ [];
}

inherited_folder_role_iff_example :
    (inherited_folder_role db 2 11 ≡ some editor)
    ↔ ((n : ℕ) × (n ≤ 64) × NearestGrant db.folders db.collaborations 2 11 n editor)
inherited_folder_role_iff_example = inherited_folder_role_iff db 2 11 editor

editor_below : folder_access db 2 11 ≡ some (editor, folder_row 11 1 (some 10) none)
unfolding folder_access inherited_folder_role same_team user_by_id folder_by_id
editor_below = refl

no_other_team : folder_access db 3 11 ≡ none
unfolding folder_access inherited_folder_role same_team user_by_id folder_by_id
no_other_team = refl

abbrev shared_file : FileAccess
shared_file = record { role = owner; file = file_row 100 1 (some 20); space_id = some 5 }

access-same_team_example :
    (folder_access db 2 11 ≡ some (editor, folder_row 11 1 (some 10) none)
      → (same_team db 1 2 ≡ true) × ((folder_row 11 1 (some 10) none).deleted_at ≡ none))
    × (file_access db 2 11 ≡ some shared_file
        → (same_team db 1 2 ≡ true) × (shared_file.file.deleted_at ≡ none))
    × (trashed_folder_access db 2 11 ≡ some (editor, folder_row 11 1 (some 10) none)
        → same_team db 1 2 ≡ true)
    × (trashed_file_access db 2 11 ≡ some (editor, file_row 100 1 (some 20))
        → same_team db 1 2 ≡ true)
access-same_team_example =
    access-same_team db 2 11 editor (folder_row 11 1 (some 10) none) (file_row 100 1 (some 20))
      shared_file

-- User 1 created folder 20 and is no member of its space.
no_access_without_membership_example :
    (folder_access db 1 20 ≡ some (owner, folder_row 20 1 none (some 5))
      → (folder_row 20 1 none (some 5)).space_id ≢ some 5)
    × (file_access db 1 20 ≡ some shared_file → parent_space db (some 20) ≢ some 5)
    × (trashed_folder_access db 1 20 ≡ some (owner, folder_row 20 1 none (some 5))
        → (folder_row 20 1 none (some 5)).space_id ≢ some 5)
    × (trashed_file_access db 1 20 ≡ some (owner, file_row 100 1 (some 20))
        → parent_space db (some 20) ≢ some 5)
    × (visible_folder db 1 (folder_row 20 1 none (some 5)) ≡ true
        → (folder_row 20 1 none (some 5)).space_id ≢ some 5)
    × (visible_file db 1 (file_row 100 1 (some 20)) ≡ true → parent_space db (some 20) ≢ some 5)
no_access_without_membership_example =
    no_access_without_membership db 1 5 20 owner (folder_row 20 1 none (some 5))
      (file_row 100 1 (some 20)) shared_file refl

file_is_live : find (live_file db 2 100) db.files ≡ some (file_row 100 1 (some 20))
unfolding same_team user_by_id
file_is_live = refl

file_is_listed : visible_file db 2 (file_row 100 1 (some 20)) ≡ true
unfolding visible_file parent_space current_member folder_by_id same_team user_by_id
file_is_listed = refl

visible_file-file_access_example :
    (a : FileAccess) × (file_access db 2 100 ≡ some a) × (a.file ≡ file_row 100 1 (some 20))
visible_file-file_access_example =
    visible_file-file_access db 2 (file_row 100 1 (some 20)) file_is_live file_is_listed
