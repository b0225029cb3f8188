-- ===== src/Usage/Tests.antt =====
-- Runs of the quota checks (src/usage/index.ts, src/uploads/quota.ts).
use stohr.Common.{ℕ, ◌≡◌, refl, false, none, some, [], ◌∷◌}
use stohr.Db.{Db, UserRow, FileRow, skipped, user_by_id}
use stohr.Usage.{
  check_quota, quota_after_write, user, team, denied, breakdown_of, team_over_quota, compute_usage,
  compute_team_usage, team_quota_of,
}
use stohr.Usage.Checks.{WithinCaps, check_quota-none_iff}

abbrev member : ℕ → UserRow
member id = record {
  id = id;
  is_owner = false;
  team_id = 1;
  team_admin = false;
  oauth_epoch = 0;
  storage_quota_bytes = 100;
  username = "ann";
  email = "ann@example.org";
  deleted_at = none;
  suspended_at = none;
}

abbrev file_of : ℕ → ℕ → ℕ → FileRow
file_of id user_id size = record {
  id = id;
  user_id = user_id;
  folder_id = none;
  name = "a.txt";
  mime = "text/plain";
  size = size;
  storage_key = "k";
  thumb_key = none;
  version = 1;
  scan_status = skipped;
  scan_signature = none;
  scanned_at = none;
  deleted_at = none;
}

-- Users 1 and 2 share a team cap of 150 bytes; user 1 stores 60 bytes and user 2 stores 50.
abbrev db : Db
db = record {
  users = member 1 ∷ member 2 ∷ [];
  teams = record { id = 1; quota_bytes = some 150 } ∷ [];
  folders = [];
  files = file_of 1 1 60 ∷ file_of 2 2 50 ∷ [];
  file_versions = [];
  collaborations = [];
  spaces = [];
  space_members = [];
}

forty_bytes_fit : check_quota db 1 100 40 ≡ none
unfolding check_quota compute_usage compute_team_usage team_quota_of user_by_id
forty_bytes_fit = refl

team_cap_refuses : check_quota db 1 0 41 ≡ some (denied team 150 41 (breakdown_of 110 0 0))
unfolding check_quota compute_usage compute_team_usage team_quota_of user_by_id
team_cap_refuses = refl

own_cap_refuses : check_quota db 1 100 41 ≡ some (denied user 100 41 (breakdown_of 60 0 0))
unfolding check_quota compute_usage compute_team_usage team_quota_of user_by_id
own_cap_refuses = refl

check_quota-none_iff_example : WithinCaps db 1 100 40
check_quota-none_iff_example = (check_quota-none_iff db 1 100 40).0 forty_bytes_fit

stored_bytes_fit : quota_after_write db 1 60 60 ≡ none
unfolding quota_after_write team_over_quota compute_usage compute_team_usage team_quota_of
    user_by_id
stored_bytes_fit = refl
