-- ===== src/Uploads/Tests.antt =====
-- Runs of the upload sessions and of their finalization (src/uploads/index.ts,
-- src/uploads/finalize.ts).
use stohr.Common.{ℕ, ◌≡◌, ◌≢◌, ◌≤◌, ◌⊎◌, refl, false, none, some, List, [], ◌∷◌, ◌++◌, arith}
use stohr.Db.{Db, FileRow, skipped, user_by_id}
use stohr.Usage.{
  denied, breakdown_of, user, check_quota, quota_after_write, team_over_quota, compute_usage,
  compute_team_usage, team_quota_of, user_quota,
}
use stohr.Usage.Checks.{WithinCaps}
use stohr.Uploads.Store.{
  ObjectKey, whole, part, Objects, fetch_object, put_object, drop_object, key_eq,
}
use stohr.Uploads.Finalize.{
  Env, FinalizeArgs, FinalizedFile, finalized, over_quota, Disk, finalize_upload, is_thumbable,
  thumb_key_for,
}
use stohr.Uploads.Finalize.Quota.{
  finalize_upload-rollback, finalize_upload-WithinCaps, finalize_upload-object,
}
use stohr.Uploads.Rows.{
  SessionRow, UploadState, created, finished, load_session, reserved_bytes, open_session_count,
  max_sessions_per_user, drop_parts,
}
use stohr.Uploads.Sessions.{number, chunk, finalize, merge_parts, assemble_upload}
use stohr.Uploads.Init.{init, InitBody, Fresh, init_target}
use stohr.Uploads.Sessions.Parts.{IsStored, Appends}
use stohr.Uploads.Sessions.Sending.{Fits, chunk-Appends, send, send_completes, joined}
use stohr.Uploads.Sessions.Outcomes.{IsFinished, finalize-IsFinished}
use stohr.Uploads.Sessions.Opening.{IsOpened, init-IsOpened, init-reserved}

-- User 1 with a cap of 10 bytes, in a team without a cap.
abbrev db : Db
db = record {
  users =
      record {
        id = 1;
        is_owner = false;
        team_id = 1;
        team_admin = false;
        oauth_epoch = 0;
        storage_quota_bytes = 10;
        username = "ann";
        email = "ann@example.org";
        deleted_at = none;
        suspended_at = none;
      }
      ∷ [];
  teams = record { id = 1; quota_bytes = none } ∷ [];
  folders = [];
  files = [];
  file_versions = [];
  collaborations = [];
  spaces = [];
  space_members = [];
}

abbrev env : Env
env = record { s3 = false; scanning = false; thumb = λ b m. none }

abbrev args : ℕ → FinalizeArgs
args size = record {
  owner_id = 1;
  folder_id = none;
  name = "a.txt";
  mime = "text/plain";
  size = size;
  key = "k";
  thumb_bytes = none;
  quota_bytes = 10;
}

abbrev disk : Disk
disk = record { db = db; objects = (whole "k", 1 ∷ 2 ∷ []) ∷ [] }

abbrev row : ℕ → FileRow
row size = record {
  id = 50;
  user_id = 1;
  folder_id = none;
  name = "a.txt";
  mime = "text/plain";
  size = size;
  storage_key = "k";
  thumb_key = none;
  version = 1;
  scan_status = skipped;
  scan_signature = none;
  scanned_at = none;
  deleted_at = none;
}

abbrev reply : ℕ → FinalizedFile
reply size = record {
  id = 50;
  name = "a.txt";
  mime = "text/plain";
  size = size;
  folder_id = none;
  version = 1;
  new_version = false;
}

abbrev emptied : Disk
emptied = record { db = db; objects = [] }

eleven_bytes_refused :
    finalize_upload env 50 (args 11) disk
    ≡ (emptied, over_quota (denied user 10 11 (breakdown_of 11 0 0)))
unfolding finalize_upload quota_after_write team_over_quota compute_usage compute_team_usage
    team_quota_of user_by_id drop_object key_eq
eleven_bytes_refused = refl

finalize_upload-rollback_example :
    (emptied.db ≡ disk.db)
    × (fetch_object (whole "k") emptied.objects ≡ none)
    × ((k : ObjectKey)
        → k ≢ whole "k"
        → k ≢ whole (thumb_key_for "k")
        → fetch_object k emptied.objects ≡ fetch_object k disk.objects)
finalize_upload-rollback_example =
    finalize_upload-rollback env 50 (args 11) disk emptied (denied user 10 11 (breakdown_of 11 0 0))
      tt refl tt eleven_bytes_refused

abbrev kept : Disk
kept = record { db = record db { files = row 2 ∷ [] }; objects = disk.objects }

two_bytes_kept : finalize_upload env 50 (args 2) disk ≡ (kept, finalized (reply 2))
unfolding finalize_upload quota_after_write team_over_quota compute_usage compute_team_usage
    team_quota_of user_by_id
two_bytes_kept = refl

finalize_upload-WithinCaps_example : WithinCaps kept.db 1 10 0
finalize_upload-WithinCaps_example =
    finalize_upload-WithinCaps env 50 (args 2) disk kept (reply 2) two_bytes_kept

finalize_upload-object_example :
    fetch_object (whole "k") kept.objects ≡ fetch_object (whole "k") disk.objects
finalize_upload-object_example =
    finalize_upload-object env 50 (args 2) disk kept (reply 2) tt two_bytes_kept

-- A session of two bytes that has not received any.
abbrev session : ℕ → ℕ → SessionRow
session received offset = record {
  id = "s";
  user_id = 1;
  folder_id = none;
  file_name = "a.txt";
  total_size = 2;
  mime = "text/plain";
  chunks_received = received;
  byte_offset = offset;
  storage_key = "k";
  s3_upload_id = none;
  s3_part_etags = [];
  expires_at = 86401000;
}

abbrev with_session : ℕ → ℕ → Objects → UploadState
with_session received offset objects = record {
  disk = record { db = db; objects = objects };
  sessions = session received offset ∷ [];
}

abbrev opened : UploadState
opened = with_session 0 0 []

abbrev body : InitBody
body = record {
  file_name = "a.txt";
  total_size = some 2;
  mime = some "text/plain";
  folder_id = none;
}

abbrev fresh : Fresh
fresh = record { id = "s"; key = "k"; upload_id = "" }

abbrev no_session : UploadState
no_session = record { disk = record { db = db; objects = [] }; sessions = [] }

session_is_created : init env fresh 1000 1 body no_session ≡ (opened, created (session 0 0) 1)
unfolding init check_quota compute_usage compute_team_usage team_quota_of user_by_id user_quota
    reserved_bytes open_session_count
session_is_created = refl

init-IsOpened_example : IsOpened env 1000 1 (session 0 0) 1 no_session opened
init-IsOpened_example =
    init-IsOpened env fresh 1000 1 body no_session opened (session 0 0) 1 session_is_created

init-reserved_example :
    WithinCaps db 1 (user_quota db 1) (reserved_bytes [] opened.sessions 1000 1)
    × (open_session_count opened.sessions 1000 1 ≤ max_sessions_per_user)
init-reserved_example =
    init-reserved env fresh 1000 1 body no_session opened (session 0 0) 1 refl session_is_created

session_found : load_session opened.sessions "s" 1 ≡ some (session 0 0)
unfolding load_session
session_found = refl

nothing-IsStored : IsStored (session 0 0) opened.disk.objects []
unfolding merge_parts
nothing-IsStored = record {
  is_local = refl;
  merged = refl;
  counted = refl;
  bounded = omega arith;
  full_parts = λ h. refl;
}

abbrev two_bytes : List ℕ
two_bytes = 1 ∷ 2 ∷ []

chunk-Appends_example :
    ((chunk env 2000 1 "s" (number 1) two_bytes "" opened).0 ≡ opened)
    ⊎ Appends "s" 1
        (session 0 0)
        []
        two_bytes
        opened
        (chunk env 2000 1 "s" (number 1) two_bytes "" opened).0
chunk-Appends_example =
    chunk-Appends env 2000 1 "s" (number 1) two_bytes [] "" opened (session 0 0) session_found
      nothing-IsStored

last_chunk-Fits : Fits (session 0 0) two_bytes
last_chunk-Fits = (omega arith, omega arith, λ h. absurd (omega arith))

send_completes_example :
    (s' : SessionRow) × (load_session (send env 2000 1 "s" (two_bytes ∷ []) opened).sessions "s" 1
      ≡ some s')
    × IsStored s'
        (send env 2000 1 "s" (two_bytes ∷ []) opened).disk.objects
        ([] ++ joined (two_bytes ∷ []))
    × (s'.byte_offset ≡ 2)
    × (s'.total_size ≡ 2)
    × (s'.storage_key ≡ "k")
send_completes_example =
    send_completes env 2000 1 "s" (two_bytes ∷ []) [] opened (session 0 0) session_found
      nothing-IsStored (omega arith) (omega arith, omega arith, λ h. absurd (omega arith), refl)

abbrev complete : UploadState
complete = with_session 1 2 ((part "k" 1, two_bytes) ∷ [])

complete_found : load_session complete.sessions "s" 1 ≡ some (session 1 2)
unfolding load_session
complete_found = refl

two_bytes-IsStored : IsStored (session 1 2) complete.disk.objects two_bytes
unfolding merge_parts fetch_object key_eq
two_bytes-IsStored = record {
  is_local = refl;
  merged = refl;
  counted = refl;
  bounded = omega arith;
  full_parts = λ h. absurd (omega arith);
}

abbrev done : UploadState
done = record { disk = kept; sessions = [] }

upload_is_finished : finalize env 50 3000 1 "s" complete ≡ (done, finished (reply 2))
unfolding finalize load_session finalize_upload quota_after_write team_over_quota compute_usage
    compute_team_usage team_quota_of user_by_id user_quota put_object drop_object fetch_object
    key_eq init_target merge_parts drop_parts assemble_upload is_thumbable
upload_is_finished = refl

finalize-IsFinished_example : IsFinished "s" 1 (session 1 2) two_bytes complete done
finalize-IsFinished_example =
    finalize-IsFinished env 50 3000 1 "s" complete done (session 1 2) two_bytes (reply 2)
      complete_found two_bytes-IsStored tt upload_is_finished
