-- ===== src/Uploads/Init.antt =====
-- src/uploads/index.ts, POST /files/upload/init. A total size that is no natural number is `none`;
-- `now` is the time of the request.
use stohr.Common.{
  ℕ, ◌+◌, Option, none, some, [], ◌∷◌, String, ◌==◌, str_eq, ltb, leb, or_else, if◌then◌else◌,
}
use stohr.Db.{Db, Role, FolderRow}
use stohr.Permissions.{can_write, folder_access}
use stohr.Usage.{user_quota, check_quota}
use stohr.Uploads.Finalize.{Env}
use stohr.Uploads.Rows.{
  session_ttl_ms, max_upload_bytes, max_sessions_per_user, SessionRow, UploadState, Reply, failed,
  quota_exceeded, created, reserved_bytes, open_session_count,
}

-- A size that is absent or no whole number is `none`; the source refuses a fraction with the table's BIGINT.
pub record InitBody : Type 0 where
  pub file_name : String
  pub total_size : Option ℕ
  pub mime : Option String
  pub folder_id : Option ℕ

-- What `init` draws: the session's id, the storage key, and S3's upload id.
pub record Fresh : Type 0 where
  pub id : String
  pub key : String
  pub upload_id : String

-- The owner under whom the file will land, or the status of the refusal.
pub data Target : Type 0 where
  refused : ℕ → Target
  owned_by : ℕ → Target

abbrev pub target_of : Option (Role × FolderRow) → Target
target_of none = refused 404
target_of (some (role, folder)) = if can_write role then owned_by (folder.user_id) else refused 403

unfoldable pub init_target : Db → ℕ → Option ℕ → Target
init_target db user_id none = owned_by user_id
init_target db user_id (some folder_id) = target_of (folder_access db user_id folder_id)

abbrev pub new_session : Env → Fresh → ℕ → ℕ → InitBody → ℕ → SessionRow
new_session env fresh now user_id body total = record {
  id = fresh.id;
  user_id = user_id;
  folder_id = body.folder_id;
  file_name = body.file_name;
  total_size = total;
  mime = or_else body.mime "application/octet-stream";
  chunks_received = 0;
  byte_offset = 0;
  storage_key = fresh.key;
  s3_upload_id = if env.s3 then some fresh.upload_id else none;
  s3_part_etags = [];
  expires_at = now + session_ttl_ms;
}

-- From the quota check on.
unfoldable pub open_session :
    Env → Fresh → ℕ → ℕ → InitBody → ℕ → Target → UploadState → UploadState × Reply
open_session env fresh now user_id body total (refused code) st = (st, failed code)
open_session env fresh now user_id body total (owned_by owner_id) st =
    let db = st.disk.db in
    let reserved = reserved_bytes db.folders st.sessions now owner_id in
    let s = new_session env fresh now user_id body total in
    elim (check_quota db owner_id (user_quota db owner_id) (total + reserved)) [
      | none ↦ (record st { sessions = s ∷ st.sessions }, created s owner_id)
      | some d ↦ (st, quota_exceeded (record d { attempted_bytes = total }))
    ]

unfoldable pub init_sized :
    Env → Fresh → ℕ → ℕ → InitBody → Option ℕ → UploadState → UploadState × Reply
unfolding open_session init_target
init_sized env fresh now user_id body none st = (st, failed 422)
init_sized env fresh now user_id body (some total) st =
    if total == 0
    then (st, failed 422)
    else if ltb max_upload_bytes total
    then (st, failed 413)
    else if leb max_sessions_per_user (open_session_count st.sessions now user_id)
    then (st, failed 429)
    else open_session env fresh now user_id body total
        (init_target st.disk.db user_id body.folder_id) st

-- POST /files/upload/init
unfoldable pub init : Env → Fresh → ℕ → ℕ → InitBody → UploadState → UploadState × Reply
unfolding init_sized
init env fresh now user_id body st =
    if str_eq body.file_name ""
    then (st, failed 422)
    else init_sized env fresh now user_id body body.total_size st
