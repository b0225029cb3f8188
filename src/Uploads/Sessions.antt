-- ===== src/Uploads/Sessions.antt =====
-- src/uploads/index.ts: the handlers of the upload sessions behind `init`, the purge of a user's
-- sessions and the sweep. The caller's id comes from the authentication guard; `now` is the time of
-- the request.
pub mod Parts
pub mod Sending
pub mod Outcomes
pub mod Opening
use stohr.Common.{
  ℕ, zero, suc, ◌+◌, ◌*◌, ◌/◌, ◌-◌, Bool, true, false, not, ◌&&◌, ◌||◌, Option, none, some, List,
  [], ◌∷◌, ◌++◌, String, ◌==◌, str_eq, ltb, leb, find, filter, delete_where, update_where, sum_by,
  length, is_none, is_some, or_else, if◌then◌else◌,
}
use stohr.Db.{Db, Role, FolderRow, folder_by_id}
use stohr.Permissions.{can_write, folder_access}
use stohr.Usage.{QuotaDenied, user_quota, check_quota}
use stohr.Uploads.Store.{ObjectKey, whole, part, Objects, fetch_object, put_object, drop_object}
use stohr.Uploads.Finalize.{
  Env, FinalizeArgs, FinalizedFile, FinalizeResult, finalized, over_quota, vanished, Disk,
  finalize_upload,
}
use stohr.Uploads.Rows.{
  chunk_size, session_ttl_ms, max_upload_bytes, max_sessions_per_user, PartEtag, SessionRow,
  UploadState, SessionStatus, Reply, failed, quota_exceeded, created, status, finished, aborted,
  thrown, status_of, owned_session, load_session, session_owner, reserved_bytes, open_session_count,
  drop_parts, without_session, purge_session,
}
use stohr.Uploads.Init.{
  InitBody, Fresh, Target, refused, owned_by, target_of, init_target, new_session, open_session,
  init_sized, init,
}

-- The `part` parameter of a chunk request.
pub data PartParam : Type 0 where
  absent malformed : PartParam
  number : ℕ → PartParam

abbrev pub part_number_of : ℕ → PartParam → Option ℕ
part_number_of received absent = some (received + 1)
part_number_of received malformed = none
part_number_of received (number n) = if n == 0 then none else some n

-- The chunk is accepted: it is stored, or sent to S3, which answers with `etag`.
pub accept_chunk : Env → SessionRow → ℕ → List ℕ → String → UploadState → UploadState × Reply
accept_chunk env s n bytes etag st =
    let to_s3 = is_some s.s3_upload_id && env.s3 in
    let s' = record s { chunks_received = n; byte_offset = s.byte_offset + length bytes } in
    let etags =
      (if to_s3
        then s.s3_part_etags ++ record { part_number = n; etag = etag } ∷ []
        else s.s3_part_etags) in
    let objects =
      (if to_s3
        then st.disk.objects
        else put_object (part s.storage_key n) bytes st.disk.objects) in
    (
      record {
        disk = record (st.disk) { objects = objects };
        sessions =
            update_where (λ r. str_eq r.id s.id)
              (λ r. record r {
                chunks_received = n;
                byte_offset = s.byte_offset + length bytes;
                s3_part_etags = etags;
              })
              st.sessions;
      },
      status (status_of s'),
    )

pub chunk_part : Env → SessionRow → Option ℕ → List ℕ → String → UploadState → UploadState × Reply
unfolding accept_chunk
chunk_part env s none bytes etag st = (st, failed 422)
chunk_part env s (some n) bytes etag st =
    let offset = s.byte_offset + length bytes in
    if leb n s.chunks_received
    then (st, status (status_of s))
    else if not (n == s.chunks_received + 1)
    then (st, failed 409)
    else if length bytes == 0
    then (st, failed 422)
    else if ltb s.total_size offset
    then (st, failed 422)
    else if ltb offset s.total_size && not (length bytes == chunk_size)
    then (st, failed 422)
    else accept_chunk env s n bytes etag st

-- POST /files/upload/:id/chunk
unfoldable pub chunk :
    Env → ℕ → ℕ → String → PartParam → List ℕ → String → UploadState → UploadState × Reply
unfolding chunk_part
chunk env now user_id id param bytes etag st = elim (load_session st.sessions id user_id) [
  | none ↦ (st, failed 404)
  | some s ↦
      if ltb s.expires_at now
      then (st, failed 410)
      else chunk_part env s (part_number_of s.chunks_received param) bytes etag st
]

-- GET /files/upload/:id/status
unfoldable pub get_status : ℕ → String → UploadState → UploadState × Reply
get_status user_id id st = elim (load_session st.sessions id user_id) [
  | none ↦ (st, failed 404)
  | some s ↦ (st, status (status_of s))
]

-- The parts 1 to n, read in order and joined; a missing part is an exception.
unfoldable pub merge_parts : String → ℕ → Objects → Option (List ℕ)
merge_parts key zero objects = some []
merge_parts key (suc n) objects = elim (merge_parts key n objects) [
  | none ↦ none
  | some front ↦ elim (fetch_object (part key (suc n)) objects) [
    | none ↦ none
    | some b ↦ some (front ++ b)
  ]
]

abbrev pub args_of : Db → SessionRow → ℕ → Option (List ℕ) → FinalizeArgs
args_of db s owner_id thumb_bytes = record {
  owner_id = owner_id;
  folder_id = s.folder_id;
  name = s.file_name;
  mime = s.mime;
  size = s.total_size;
  key = s.storage_key;
  thumb_bytes = thumb_bytes;
  quota_bytes = user_quota db owner_id;
}

-- The session is deleted whatever the quota said; an exception keeps it.
abbrev pub close_session : SessionRow → UploadState → Disk × FinalizeResult → UploadState × Reply
close_session s st (disk, finalized f) =
    (record { disk = disk; sessions = without_session s.id st.sessions }, finished f)
close_session s st (disk, over_quota d) =
    (record { disk = disk; sessions = without_session s.id st.sessions }, quota_exceeded d)
close_session s st (disk, vanished) = (record st { disk = disk }, thrown)

-- The local driver: join the parts into the final object and drop them.
abbrev pub join_parts :
    Env → ℕ → SessionRow → ℕ → UploadState → Option (List ℕ) → UploadState × Reply
join_parts env new_id s owner_id st none = (st, thrown)
join_parts env new_id s owner_id st (some merged) =
    let disk = st.disk in
    let objects =
      drop_parts s.storage_key s.chunks_received
        (put_object (whole s.storage_key) merged disk.objects) in
    close_session s st (
      finalize_upload env new_id (args_of disk.db s owner_id (some merged))
        (record disk { objects = objects }))

unfoldable pub assemble_upload : Env → ℕ → SessionRow → Target → UploadState → UploadState × Reply
unfolding merge_parts drop_parts
assemble_upload env new_id s (refused code) st = (purge_session s st, failed 403)
assemble_upload env new_id s (owned_by owner_id) st =
    if is_some s.s3_upload_id && env.s3
    then close_session s st
        (finalize_upload env new_id (args_of st.disk.db s owner_id none) st.disk)
    else join_parts env new_id s owner_id st
        (merge_parts s.storage_key s.chunks_received st.disk.objects)

-- POST /files/upload/:id/finalize
unfoldable pub finalize : Env → ℕ → ℕ → ℕ → String → UploadState → UploadState × Reply
unfolding assemble_upload
finalize env new_id now user_id id st = elim (load_session st.sessions id user_id) [
  | none ↦ (st, failed 404)
  | some s ↦
      if ltb s.expires_at now
      then (st, failed 410)
      else if ltb s.byte_offset s.total_size
      then (st, failed 409)
      else assemble_upload env new_id s (init_target st.disk.db s.user_id s.folder_id) st
]

-- DELETE /files/upload/:id
unfoldable pub abort : ℕ → String → UploadState → UploadState × Reply
abort user_id id st = elim (load_session st.sessions id user_id) [
  | none ↦ (st, failed 404)
  | some s ↦ (purge_session s st, aborted s.id)
]

pub purge_all : List SessionRow → UploadState → UploadState
purge_all [] st = st
purge_all (s ∷ rows) st = purge_all rows (purge_session s st)

unfoldable pub purge_user_uploads : ℕ → UploadState → UploadState
unfolding purge_all
purge_user_uploads user_id st = purge_all (filter (λ s. s.user_id == user_id) st.sessions) st

unfoldable pub cleanup_expired_uploads : ℕ → UploadState → UploadState
unfolding purge_all
cleanup_expired_uploads now st = purge_all (filter (λ s. ltb s.expires_at now) st.sessions) st
