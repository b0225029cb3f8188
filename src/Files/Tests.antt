-- ===== src/Files/Tests.antt =====
-- Runs of src/files at fixed inputs, and the theorems at concrete ones.
use stohr.Common.{◌≡◌, ◌≤◌, ◌<◌, refl, true, false, none, some, [], ◌∷◌}
use stohr.Db.{Db, UserRow, FileRow, FileVersionRow, skipped, infected, user_by_id, folder_by_id}
use stohr.Permissions.{file_access, same_team, parent_space, can_write}
use stohr.Uploads.Store.{whole, fetch_object, put_object, drop_object, key_eq}
use stohr.Uploads.Finalize.{Env, Disk, is_thumbable, archived}
use stohr.Files.Range.{
  satisfiable, unsatisfiable, no_range, is_finite, parse_range, parse_range-bounds,
}
use stohr.Files.Versions.{current, failed, restore_version, delete_version}
use stohr.Files.Restored.{IsRestored, restore_version-IsRestored}

last_five : parse_range (some " bytes=-5 ") 100 ≡ satisfiable 95 99
unfolding parse_range is_finite
last_five = refl

clamped : parse_range (some "bytes=10-400") 100 ≡ satisfiable 10 99
unfolding parse_range is_finite
clamped = refl

past_the_end : parse_range (some "bytes=100-") 100 ≡ unsatisfiable
unfolding parse_range is_finite
past_the_end = refl

two_ranges : parse_range (some "bytes=0-1,3-4") 100 ≡ no_range
unfolding parse_range is_finite
two_ranges = refl

parse_range-bounds_example : (10 ≤ 99) × (99 < 100)
parse_range-bounds_example = parse_range-bounds (some "bytes=10-400") 100 10 99 clamped

abbrev user_row : UserRow
user_row = record {
  id = 1;
  is_owner = false;
  team_id = 1;
  team_admin = false;
  oauth_epoch = 0;
  username = "ann";
  email = "ann@example.org";
  storage_quota_bytes = 0;
  deleted_at = none;
  suspended_at = none;
}

abbrev file_row : FileRow
file_row = record {
  id = 100;
  user_id = 1;
  folder_id = none;
  name = "a.txt";
  mime = "text/plain";
  size = 2;
  storage_key = "k2";
  thumb_key = some "t2";
  version = 2;
  scan_status = skipped;
  scan_signature = none;
  scanned_at = none;
  deleted_at = none;
}

abbrev first_version : FileVersionRow
first_version = record {
  file_id = 100;
  version = 1;
  mime = "text/html";
  size = 1;
  storage_key = "k1";
  scan_status = infected;
  scan_signature = some "eicar";
  scanned_at = some 5;
  uploaded_by = 1;
}

abbrev db : Db
db = record {
  users = user_row ∷ [];
  teams = [];
  folders = [];
  files = file_row ∷ [];
  file_versions = first_version ∷ [];
  collaborations = [];
  spaces = [];
  space_members = [];
}

abbrev disk : Disk
disk = record {
  db = db;
  objects = (whole "k1", 7 ∷ []) ∷ (whole "k2", 7 ∷ 8 ∷ []) ∷ (whole "t2", 9 ∷ []) ∷ [];
}

abbrev env : Env
env = record { s3 = false; scanning = true; thumb = λ bytes mime. none }

abbrev restored_disk : Disk
restored_disk = record {
  db = record db {
    files =
        record file_row {
          mime = "text/html";
          size = 1;
          storage_key = "k1";
          thumb_key = none;
          version = 3;
          scan_status = infected;
          scan_signature = some "eicar";
          scanned_at = some 5;
        }
        ∷ [];
    file_versions = archived file_row 1 ∷ [];
  };
  objects = (whole "k1", 7 ∷ []) ∷ (whole "k2", 7 ∷ 8 ∷ []) ∷ [];
}

infected_comes_back : restore_version env disk 1 100 1 ≡ (current 100 3, restored_disk)
unfolding restore_version file_access same_team parent_space can_write is_thumbable fetch_object
    put_object drop_object key_eq user_by_id folder_by_id
infected_comes_back = refl

restore_version-IsRestored_example : IsRestored env disk 1 100 1 3 restored_disk
restore_version-IsRestored_example =
    restore_version-IsRestored env disk 1 100 1 restored_disk 3 100 infected_comes_back

current_is_kept : delete_version disk 1 100 2 ≡ (failed 422, disk)
unfolding delete_version file_access same_team parent_space can_write user_by_id
current_is_kept = refl
