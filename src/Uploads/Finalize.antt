-- ===== src/Uploads/Finalize.antt =====
-- src/uploads/finalize.ts: the row of a finished upload, with the quota checked again after the
-- write and the write undone if it does not fit. The thumbnail generator, the scanner's setting
-- and the new row's id are arguments; a storage driver or a database that fails is left out.
pub mod Rollback
pub mod Quota
use Prim.Native.String
use stohr.Common.{
  ℕ, ◌+◌, Bool, true, false, ◌&&◌, ◌||◌, Option, none, some, List, [], ◌∷◌, String, ◌==◌, str_eq,
  leb, find, delete_where, update_where, is_none, same_opt, if◌then◌else◌,
}
use stohr.Db.{Db, FileRow, FileVersionRow, ScanStatus, pending, skipped}
use stohr.Usage.{QuotaDenied, quota_after_write}
use stohr.Uploads.Store.{ObjectKey, whole, Objects, put_object, drop_object}

-- `scanning` says that a scanner is configured; `thumb` is the image library.
pub record Env : Type 0 where
  pub s3 : Bool
  pub scanning : Bool
  pub thumb : List ℕ → String → Option (List ℕ)

abbrev pub thumb_max_bytes : ℕ
thumb_max_bytes = 26_214_400

-- src/storage/thumb.ts
unfoldable pub is_thumbable : String → Bool
is_thumbable mime =
    str_eq mime "image/jpeg"
    || (str_eq mime "image/png"
        || (str_eq mime "image/webp" || (str_eq mime "image/gif" || str_eq mime "application/pdf")))

abbrev pub thumb_key_for : String → String
thumb_key_for storage_key = String.◌++◌ "thumbs/" (String.◌++◌ storage_key ".webp")

pub record FinalizeArgs : Type 0 where
  pub owner_id : ℕ
  pub folder_id : Option ℕ
  pub name : String
  pub mime : String
  pub size : ℕ
  pub key : String
  pub thumb_bytes : Option (List ℕ)
  pub quota_bytes : ℕ

pub record FinalizedFile : Type 0 where
  pub id : ℕ
  pub name : String
  pub mime : String
  pub size : ℕ
  pub folder_id : Option ℕ
  pub version : ℕ
  pub new_version : Bool

-- `vanished` is the thrown error.
pub data FinalizeResult : Type 0 where
  finalized : FinalizedFile → FinalizeResult
  over_quota : QuotaDenied → FinalizeResult
  vanished : FinalizeResult

pub record Disk : Type 0 where
  pub db : Db
  pub objects : Objects

abbrev store_thumb : String → Option (List ℕ) → Objects → Option String × Objects
store_thumb key none objects = (none, objects)
store_thumb key (some t) objects = (some key, put_object (whole key) t objects)

pub write_thumb : Env → FinalizeArgs → Option (List ℕ) → Objects → Option String × Objects
write_thumb env args none objects = (none, objects)
write_thumb env args (some bytes) objects =
    if is_thumbable args.mime && leb args.size thumb_max_bytes
    then store_thumb (thumb_key_for args.key) (env.thumb bytes args.mime) objects
    else (none, objects)

-- The live file of that owner, folder and name.
abbrev pub same_place : FinalizeArgs → FileRow → Bool
same_place args f =
    f.user_id == args.owner_id
    && same_opt f.folder_id args.folder_id
    && str_eq f.name args.name
    && is_none f.deleted_at

abbrev pub drop_thumb : Option String → Objects → Objects
drop_thumb none objects = objects
drop_thumb (some key) objects = drop_object (whole key) objects

-- `dropNew`
abbrev pub drop_new : FinalizeArgs → Option String → Objects → Objects
drop_new args thumb_key objects = drop_thumb thumb_key (drop_object (whole args.key) objects)

abbrev pub scan_status_of : Env → ScanStatus
scan_status_of env = if env.scanning then pending else skipped

abbrev pub archived : FileRow → ℕ → FileVersionRow
archived f owner_id = record {
  file_id = f.id;
  version = f.version;
  mime = f.mime;
  size = f.size;
  storage_key = f.storage_key;
  scan_status = f.scan_status;
  scan_signature = f.scan_signature;
  scanned_at = f.scanned_at;
  uploaded_by = owner_id;
}

-- The columns that a new version sets, and those that the undo sets back.
abbrev pub next_version : Env → FinalizeArgs → Option String → ℕ → FileRow → FileRow
next_version env args thumb_key version f = record f {
  mime = args.mime;
  size = args.size;
  storage_key = args.key;
  thumb_key = thumb_key;
  version = version + 1;
  scan_status = scan_status_of env;
  scan_signature = none;
  scanned_at = none;
}

abbrev pub set_back : FileRow → FileRow → FileRow
set_back snapshot f = record f {
  mime = snapshot.mime;
  size = snapshot.size;
  storage_key = snapshot.storage_key;
  thumb_key = snapshot.thumb_key;
  version = snapshot.version;
  scan_status = snapshot.scan_status;
  scan_signature = snapshot.scan_signature;
  scanned_at = snapshot.scanned_at;
}

pub write_version : Env → FinalizeArgs → Option String → FileRow → Db → Db
write_version env args thumb_key existing db = record db {
  file_versions = archived existing args.owner_id ∷ db.file_versions;
  files =
      update_where (λ f. f.id == existing.id) (next_version env args thumb_key existing.version)
        db.files;
}

pub undo_version : FileRow → Db → Db
undo_version snapshot db = record db {
  file_versions =
      delete_where (λ v. v.file_id == snapshot.id && v.version == snapshot.version)
        db.file_versions;
  files = update_where (λ f. f.id == snapshot.id) (set_back snapshot) db.files;
}

abbrev pub new_row : Env → FinalizeArgs → Option String → ℕ → FileRow
new_row env args thumb_key new_id = record {
  id = new_id;
  user_id = args.owner_id;
  folder_id = args.folder_id;
  name = args.name;
  mime = args.mime;
  size = args.size;
  storage_key = args.key;
  thumb_key = thumb_key;
  version = 1;
  scan_status = scan_status_of env;
  scan_signature = none;
  scanned_at = none;
  deleted_at = none;
}

pub write_new : Env → FinalizeArgs → Option String → ℕ → Db → Db
write_new env args thumb_key new_id db = record db {
  files = new_row env args thumb_key new_id ∷ db.files;
}

pub undo_new : ℕ → Db → Db
undo_new file_id db = record db { files = delete_where (λ f. f.id == file_id) db.files }

-- The row read back, or the thrown error.
abbrev pub reply_of : Bool → Option FileRow → FinalizeResult
reply_of new_version none = vanished
reply_of new_version (some f) = finalized (record {
  id = f.id;
  name = f.name;
  mime = f.mime;
  size = f.size;
  folder_id = f.folder_id;
  version = f.version;
  new_version = new_version;
})

-- The quota check after the write: `undone` is the database that the undo leaves.
pub settle :
    FinalizeArgs
    → Option String
    → Option String
    → ℕ
    → Bool
    → Db
    → Db
    → Objects
    → Option QuotaDenied
    → Disk × FinalizeResult
settle args thumb_key prior_thumb file_id new_version db undone objects (some denied) =
    (record { db = undone; objects = drop_new args thumb_key objects }, over_quota denied)
settle args thumb_key prior_thumb file_id new_version db undone objects none = (
  record { db = db; objects = drop_thumb prior_thumb objects },
  reply_of new_version (find (λ f. f.id == file_id) db.files),
)

pub finalize_existing :
    Env → FinalizeArgs → Option String → FileRow → Db → Objects → Disk × FinalizeResult
unfolding write_version undo_version
finalize_existing env args thumb_key existing db objects =
    let db' = write_version env args thumb_key existing db in
    settle args thumb_key existing.thumb_key existing.id true db' (undo_version existing db')
      objects (quota_after_write db' args.owner_id args.quota_bytes args.size)

pub finalize_new : Env → FinalizeArgs → Option String → ℕ → Db → Objects → Disk × FinalizeResult
unfolding write_new undo_new
finalize_new env args thumb_key new_id db objects =
    let db' = write_new env args thumb_key new_id db in
    settle args thumb_key none new_id false db' (undo_new new_id db') objects
      (quota_after_write db' args.owner_id args.quota_bytes args.size)

unfoldable pub finalize_upload : Env → ℕ → FinalizeArgs → Disk → Disk × FinalizeResult
unfolding write_thumb finalize_existing finalize_new settle
finalize_upload env new_id args disk =
    let (thumb_key, objects) = write_thumb env args args.thumb_bytes disk.objects in
    elim (find (same_place args) disk.db.files) [
      | none ↦ finalize_new env args thumb_key new_id disk.db objects
      | some existing ↦ finalize_existing env args thumb_key existing disk.db objects
    ]
