-- ===== src/Uploads/Rows.antt =====
-- src/uploads/index.ts and src/uploads/config.ts: the rows of the upload sessions, what they reserve,
-- and their removal.
use stohr.Common.{
  ℕ, zero, suc, ◌*◌, Bool, ◌&&◌, Option, none, some, List, String, ◌==◌, str_eq, ltb, leb, find,
  filter, delete_where, sum_by, length, is_none, if◌then◌else◌,
}
use stohr.Db.{FolderRow, folder_by_id}
use stohr.Usage.{QuotaDenied}
use stohr.Uploads.Store.{part, Objects, drop_object}
use stohr.Uploads.Finalize.{FinalizedFile, Disk}

abbrev pub chunk_size : ℕ
chunk_size = 5 * 1024 * 1024

abbrev pub session_ttl_ms : ℕ
session_ttl_ms = 24 * 60 * 60 * 1000

-- the default of MAX_UPLOAD_BYTES
abbrev pub max_upload_bytes : ℕ
max_upload_bytes = 1024 * 1024 * 1024

abbrev pub max_sessions_per_user : ℕ
max_sessions_per_user = 16

pub record PartEtag : Type 0 where
  pub part_number : ℕ
  pub etag : String

pub record SessionRow : Type 0 where
  pub id : String
  pub user_id : ℕ
  pub folder_id : Option ℕ
  pub file_name : String
  pub total_size : ℕ
  pub mime : String
  pub chunks_received : ℕ
  pub byte_offset : ℕ
  pub storage_key : String
  pub s3_upload_id : Option String
  pub s3_part_etags : List PartEtag
  pub expires_at : ℕ

pub record UploadState : Type 0 where
  pub disk : Disk
  pub sessions : List SessionRow

pub record SessionStatus : Type 0 where
  pub id : String
  pub file_name : String
  pub mime : String
  pub total_size : ℕ
  pub chunk : ℕ
  pub chunks_received : ℕ
  pub offset : ℕ
  pub folder_id : Option ℕ
  pub expires_at : ℕ
  pub complete : Bool

-- `failed` carries the status of an error reply, `thrown` is an exception.
pub data Reply : Type 0 where
  failed : ℕ → Reply
  quota_exceeded : QuotaDenied → Reply
  created : SessionRow → ℕ → Reply
  status : SessionStatus → Reply
  finished : FinalizedFile → Reply
  aborted : String → Reply
  thrown : Reply

unfoldable pub status_of : SessionRow → SessionStatus
status_of s = record {
  id = s.id;
  file_name = s.file_name;
  mime = s.mime;
  total_size = s.total_size;
  chunk = chunk_size;
  chunks_received = s.chunks_received;
  offset = s.byte_offset;
  folder_id = s.folder_id;
  expires_at = s.expires_at;
  complete = leb s.total_size s.byte_offset;
}

abbrev pub owned_session : String → ℕ → SessionRow → Bool
owned_session id user_id s = str_eq s.id id && s.user_id == user_id

unfoldable pub load_session : List SessionRow → String → ℕ → Option SessionRow
load_session sessions id user_id = find (owned_session id user_id) sessions

-- `COALESCE(fo.user_id, us.user_id)`
abbrev pub session_owner : List FolderRow → SessionRow → ℕ
session_owner folders s = elim s.folder_id [
  | none ↦ s.user_id
  | some folder_id ↦ elim (folder_by_id folders folder_id) [ none ↦ s.user_id | some f ↦ f.user_id ]
]

unfoldable pub reserved_bytes : List FolderRow → List SessionRow → ℕ → ℕ → ℕ
reserved_bytes folders sessions now owner_id =
    sum_by (λ s. s.total_size)
      (filter (λ s. session_owner folders s == owner_id && ltb now s.expires_at) sessions)

unfoldable pub open_session_count : List SessionRow → ℕ → ℕ → ℕ
open_session_count sessions now user_id =
    length (filter (λ s. s.user_id == user_id && ltb now s.expires_at) sessions)

-- Drops the parts 1 to n.
unfoldable pub drop_parts : String → ℕ → Objects → Objects
drop_parts key zero objects = objects
drop_parts key (suc n) objects = drop_parts key n (drop_object (part key (suc n)) objects)

abbrev pub without_session : String → List SessionRow → List SessionRow
without_session id sessions = delete_where (λ s. str_eq s.id id) sessions

-- Aborting a multipart upload is a call to S3, outside this state.
unfoldable pub purge_session : SessionRow → UploadState → UploadState
unfolding drop_parts
purge_session s st = record {
  disk =
      (if is_none s.s3_upload_id
        then record (st.disk) {
          objects = drop_parts s.storage_key s.chunks_received st.disk.objects;
        }
        else st.disk);
  sessions = without_session s.id st.sessions;
}
