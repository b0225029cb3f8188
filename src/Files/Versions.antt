-- ===== src/Files/Versions.antt =====
-- src/files/index.ts: the old versions of a file. A row of file_versions is its file and its version, as
-- the table's unique key has it; the thumbnail generator and the scanner's setting are arguments.
-- A storage driver that fails is left out.
use stohr.Common.{
  ℕ, ◌+◌, Bool, true, false, not, ◌&&◌, Option, none, some, List, ◌∷◌, String, ◌==◌, leb,
  if◌then◌else◌, find, update_where, delete_where,
}
use stohr.Db.{Db, FileRow, FileVersionRow, ScanStatus, infected}
use stohr.Permissions.{file_access, can_write}
use stohr.Security.Inline.{InlineDecision, decide_inline}
use stohr.Shares.View.{is_scan_blocked}
use stohr.Uploads.Store.{whole, Objects, fetch_object, put_object, drop_object}
use stohr.Uploads.Finalize.{
  Env, Disk, is_thumbable, thumb_max_bytes, thumb_key_for, scan_status_of, archived,
}

pub data VersionReply : Type 0 where
  failed : ℕ → VersionReply
  served : InlineDecision → ℕ → List ℕ → VersionReply
  current : ℕ → ℕ → VersionReply
  deleted : ℕ → VersionReply

abbrev pub is_version : ℕ → ℕ → FileVersionRow → Bool
is_version id version v = v.file_id == id && v.version == version

abbrev pub find_version : Db → ℕ → ℕ → Option FileVersionRow
find_version db id version = find (is_version id version) db.file_versions

-- What a download needs of the file or of an old version.
pub record VersionMeta : Type 0 where
  pub mime : String
  pub size : ℕ
  pub storage_key : String
  pub scan_status : ScanStatus

abbrev meta_of_row : Option FileVersionRow → Option VersionMeta
meta_of_row none = none
meta_of_row (some v) = some (record {
  mime = v.mime;
  size = v.size;
  storage_key = v.storage_key;
  scan_status = v.scan_status;
})

abbrev pub meta_of : Db → FileRow → ℕ → ℕ → Option VersionMeta
meta_of db f id version =
    if version == f.version
    then some (record {
      mime = f.mime;
      size = f.size;
      storage_key = f.storage_key;
      scan_status = f.scan_status;
    })
    else meta_of_row (find_version db id version)

abbrev send_version : (String → String) → Objects → FileRow → VersionMeta → VersionReply
send_version encode objects f m = elim (fetch_object (whole m.storage_key) objects) [
  | none ↦ failed 500
  | some bytes ↦ served (decide_inline encode m.mime f.name false) m.size bytes
]

-- GET /files/:id/versions/:version/download
unfoldable pub download_version : (String → String) → Bool → Disk → ℕ → ℕ → ℕ → VersionReply
unfolding file_access fetch_object decide_inline
download_version encode has_clamd disk user_id id version = elim (file_access disk.db user_id id) [
  | none ↦ failed 404
  | some access ↦ elim (meta_of disk.db access.file id version) [
    | none ↦ failed 404
    | some m ↦
        if is_scan_blocked has_clamd m.scan_status
        then failed 403
        else send_version encode disk.objects access.file m
  ]
]

abbrev pub is_infected : ScanStatus → Bool
is_infected infected = true
is_infected _ = false

abbrev pub put_thumb : String → Option (List ℕ) → Objects → Option String × Objects
put_thumb key none objects = (none, objects)
put_thumb key (some t) objects = (some key, put_object (whole key) t objects)

abbrev pub thumb_of : Env → FileVersionRow → Option (List ℕ) → Option (List ℕ)
thumb_of env target none = none
thumb_of env target (some bytes) = env.thumb bytes target.mime

-- The new thumbnail, of bytes that are not infected.
abbrev pub restored_thumb : Env → FileVersionRow → Objects → Option String × Objects
restored_thumb env target objects =
    if is_thumbable target.mime
      && leb target.size thumb_max_bytes
      && not (is_infected target.scan_status)
    then put_thumb (thumb_key_for target.storage_key)
        (thumb_of env target (fetch_object (whole target.storage_key) objects)) objects
    else (none, objects)

-- The verdict belongs to the bytes that come back: only an infection is kept.
abbrev pub restored_row : Env → FileVersionRow → Option String → ℕ → FileRow → FileRow
restored_row env target thumb_key version f = record f {
  mime = target.mime;
  size = target.size;
  storage_key = target.storage_key;
  thumb_key = thumb_key;
  version = version;
  scan_status = if is_infected target.scan_status then infected else scan_status_of env;
  scan_signature = if is_infected target.scan_status then target.scan_signature else none;
  scanned_at = if is_infected target.scan_status then target.scanned_at else none;
}

abbrev drop_old_thumb : Option String → Objects → Objects
drop_old_thumb none objects = objects
drop_old_thumb (some key) objects = drop_object (whole key) objects

abbrev pub swap_version : Env → ℕ → FileRow → FileVersionRow → Disk → Disk
swap_version env user_id f target disk =
    let thumb = restored_thumb env target disk.objects in
    record {
      db = record disk.db {
        files =
            update_where (λ (r : FileRow). r.id == f.id)
              (restored_row env target thumb.0 (f.version + 1)) disk.db.files;
        file_versions =
            delete_where (is_version target.file_id target.version)
              (archived f user_id ∷ disk.db.file_versions);
      };
      objects = drop_old_thumb f.thumb_key thumb.1;
    }

abbrev pub restore_found : Env → ℕ → FileRow → Option FileVersionRow → Disk → VersionReply × Disk
restore_found env user_id f none disk = (failed 404, disk)
restore_found env user_id f (some target) disk =
    (current f.id (f.version + 1), swap_version env user_id f target disk)

-- POST /files/:id/versions/:version/restore
unfoldable pub restore_version : Env → Disk → ℕ → ℕ → ℕ → VersionReply × Disk
unfolding file_access can_write is_thumbable fetch_object put_object drop_object
restore_version env disk user_id id version = elim (file_access disk.db user_id id) [
  | none ↦ (failed 404, disk)
  | some access ↦
      if not (can_write access.role)
      then (failed 403, disk)
      else if version == access.file.version
      then (failed 422, disk)
      else restore_found env user_id access.file (find_version disk.db id version) disk
]

abbrev delete_found : Disk → ℕ → ℕ → Option FileVersionRow → VersionReply × Disk
delete_found disk id version none = (failed 404, disk)
delete_found disk id version (some v) = (
  deleted version,
  record {
    db = record disk.db {
      file_versions = delete_where (is_version id version) disk.db.file_versions;
    };
    objects = drop_object (whole v.storage_key) disk.objects;
  },
)

-- DELETE /files/:id/versions/:version
unfoldable pub delete_version : Disk → ℕ → ℕ → ℕ → VersionReply × Disk
unfolding file_access can_write drop_object
delete_version disk user_id id version = elim (file_access disk.db user_id id) [
  | none ↦ (failed 404, disk)
  | some access ↦
      if not (can_write access.role)
      then (failed 403, disk)
      else if version == access.file.version
      then (failed 422, disk)
      else delete_found disk id version (find_version disk.db id version)
]
