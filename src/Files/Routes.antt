-- ===== src/Files/Routes.antt =====
-- src/files/index.ts: changing, trashing, restoring and purging a file. What `fireEvent` is called with is
-- a part of the reply; webhooks are not modelled. The removal of a federated object is the argument
-- `drop_federated`.
use text.Mathlib.Text.{starts_with}
use stohr.Common.{
  ℕ, Bool, false, not, ◌&&◌, ◌||◌, Option, none, some, List, [], ◌∷◌, ◌++◌, String, ◌==◌, same_opt,
  str_eq, or_else, if◌then◌else◌, find, filter, is_none, is_some, update_where, delete_where,
}
use stohr.Auth.Credentials.{trim}
use stohr.Db.{
  Db, Role, FolderRow, FileRow, FileVersionRow, CollaborationRow, ShareRow, file, folder,
  folder_by_id,
}
use stohr.Permissions.{
  FileAccess, file_access, folder_access, trashed_file_access, can_write, is_owner,
}
use stohr.Uploads.Store.{whole, Objects, drop_object}
use stohr.Folders.Tree.{live_by_id}
use stohr.Folders.Routes.{FolderEvent, updated, moved_in, moved_out, deleted, trash_file_row}
use stohr.Folders.Purge.{Library}

-- A call of `fireEvent`: the folder whose actions run, and the file that it is about.
pub record FiredFile : Type 0 where
  pub event : FolderEvent
  pub folder : FolderRow
  pub subject : FileRow

-- A folder that is `some none` is the root; a column that is not set is `none`.
pub record FilePatch : Type 0 where
  pub name : Option String
  pub folder_id : Option (Option ℕ)

pub data FileReply : Type 0 where
  failed : ℕ → FileReply
  patched : ℕ → FilePatch → List FiredFile → FileReply
  trashed : ℕ → List FiredFile → FileReply
  restored : ℕ → Option ℕ → FileReply
  unchanged : ℕ → FileReply
  purged : ℕ → FileReply

abbrev fired_in : Option FolderRow → FolderEvent → FileRow → List FiredFile
fired_in none event subject = []
fired_in (some place) event subject =
    record { event = event; folder = place; subject = subject } ∷ []

abbrev pub given_name : Option String → Option String
given_name none = none
given_name (some name) = if str_eq name "" then none else some (trim name)

abbrev pub patch_columns : FilePatch → FilePatch
patch_columns body = record { name = given_name body.name; folder_id = body.folder_id }

-- Why the file may not be moved into the folder that the caller has this access to.
abbrev pub into_error : FileAccess → Option (Role × FolderRow) → Option ℕ
into_error access none = some 404
into_error access (some target) =
    if not (can_write target.0)
    then some 403
    else if not (same_opt target.1.space_id access.space_id)
    then some 422
    else if is_none access.space_id && not (target.1.user_id == access.file.user_id)
    then some 422
    else none

abbrev pub move_error : Db → ℕ → FileAccess → Option (Option ℕ) → Option ℕ
move_error db user_id access none = none
move_error db user_id access (some none) =
    if is_some access.space_id
    then some 422
    else if not (is_owner access.role)
    then some 403
    else none
move_error db user_id access (some (some folder_id)) =
    into_error access (folder_access db user_id folder_id)

abbrev pub apply_columns : FilePatch → FileRow → FileRow
apply_columns p f = record f {
  name = or_else p.name f.name;
  folder_id = or_else p.folder_id f.folder_id;
}

abbrev pub file_by_id : List FileRow → ℕ → Option FileRow
file_by_id files id = find (λ (f : FileRow). f.id == id) files

abbrev live_folder_of : List FolderRow → Option ℕ → Option FolderRow
live_folder_of folders none = none
live_folder_of folders (some id) = live_by_id folders id

abbrev row_of : Option (Role × FolderRow) → Option FolderRow
row_of none = none
row_of (some access) = some access.1

abbrev target_of : Db → ℕ → Option (Option ℕ) → Option FolderRow
target_of db user_id (some (some folder_id)) = row_of (folder_access db user_id folder_id)
target_of db user_id _ = none

abbrev file_events : Db → ℕ → FilePatch → FileRow → Option FileRow → List FiredFile
file_events db user_id p f none = []
file_events db user_id p f (some row) =
    if is_some p.folder_id && not (same_opt f.folder_id (or_else p.folder_id f.folder_id))
    then fired_in (live_folder_of db.folders f.folder_id) moved_out row
      ++ fired_in (target_of db user_id p.folder_id) moved_in row
    else if is_some p.name
    then fired_in (live_folder_of db.folders row.folder_id) updated row
    else []

abbrev pub commit_file : Db → ℕ → FilePatch → FileRow → FileReply × Db
commit_file db user_id p f =
    let files = update_where (λ (r : FileRow). r.id == f.id) (apply_columns p) db.files in
    (
      patched f.id p (file_events db user_id p f (file_by_id files f.id)),
      record db { files = files },
    )

abbrev pub change_file : Db → ℕ → FilePatch → FileAccess → FileReply × Db
change_file db user_id p access =
    if not (can_write access.role)
    then (failed 403, db)
    else elim (move_error db user_id access p.folder_id) [
      | some code ↦ (failed code, db)
      | none ↦ commit_file db user_id p access.file
    ]

-- PATCH /files/:id
unfoldable pub patch_file : Db → ℕ → ℕ → FilePatch → FileReply × Db
unfolding file_access folder_access can_write is_owner
patch_file db user_id id body =
    let p = patch_columns body in
    if is_none p.name && is_none p.folder_id
    then (failed 422, db)
    else elim (file_access db user_id id) [
      | none ↦ (failed 404, db)
      | some access ↦ change_file db user_id p access
    ]

-- DELETE /files/:id
unfoldable pub delete_file : Db → ℕ → ℕ → ℕ → FileReply × Db
unfolding file_access can_write
delete_file db now user_id id = elim (file_access db user_id id) [
  | none ↦ (failed 404, db)
  | some access ↦
      let files = update_where (λ (f : FileRow). f.id == id) (trash_file_row now) db.files in
      if not (can_write access.role) then (failed 403, db) else (
        trashed id (fired_in (live_folder_of db.folders access.file.folder_id) deleted access.file),
        record db { files = files },
      )
]

abbrev pub back_to : Option ℕ → FileRow → FileRow
back_to folder_id f = record f { deleted_at = none; folder_id = folder_id }

abbrev pub restore_to : Db → ℕ → Option ℕ → FileReply × Db
restore_to db id folder_id = (
  restored id folder_id,
  record db { files = update_where (λ (f : FileRow). f.id == id) (back_to folder_id) db.files },
)

abbrev space_of : Option FolderRow → Option ℕ
space_of none = none
space_of (some f) = f.space_id

-- A folder that is gone or in the trash is left for the root, except a space's.
abbrev pub restore_row : Db → ℕ → Option ℕ → FileReply × Db
restore_row db id none = restore_to db id none
restore_row db id (some folder_id) =
    if is_some (live_by_id db.folders folder_id)
    then restore_to db id (some folder_id)
    else if is_some (space_of (folder_by_id db.folders folder_id))
    then (failed 409, db)
    else restore_to db id none

-- POST /files/:id/restore
unfoldable pub restore_file : Db → ℕ → ℕ → FileReply × Db
unfolding trashed_file_access can_write folder_by_id
restore_file db user_id id = elim (trashed_file_access db user_id id) [
  | none ↦ (failed 404, db)
  | some access ↦
      if not (can_write access.0)
      then (failed 403, db)
      else if is_none access.1.deleted_at
      then (unchanged id, db)
      else restore_row db id access.1.folder_id
]

-- src/federation/files.ts
abbrev pub is_federation_key : String → Bool
is_federation_key key = starts_with key "fed:" || starts_with key "fed-shard:"

abbrev pub on_file : ℕ → CollaborationRow → Bool
on_file id c = elim c.resource_type [ file ↦ c.resource_id == id | folder ↦ false ]

module _ (drop_federated : String → Objects → Objects) where
  abbrev pub drop_key : String → Objects → Objects
  drop_key key objects =
      if is_federation_key key then drop_federated key objects else drop_object (whole key) objects

  abbrev drop_thumb_key : Option String → Objects → Objects
  drop_thumb_key none objects = objects
  drop_thumb_key (some key) objects = drop_object (whole key) objects

  abbrev pub drop_versions : List FileVersionRow → Objects → Objects
  drop_versions [] objects = objects
  drop_versions (v ∷ versions) objects = drop_versions versions (drop_key v.storage_key objects)

  abbrev pub remove_file : Library → FileRow → ℕ → Library
  remove_file st f id =
      let versions = filter (λ (v : FileVersionRow). v.file_id == id) st.db.file_versions in
      record {
        db = record st.db {
          collaborations = delete_where (on_file id) st.db.collaborations;
          file_versions =
              delete_where (λ (v : FileVersionRow). v.file_id == id) st.db.file_versions;
          files = delete_where (λ (r : FileRow). r.id == id) st.db.files;
        };
        shares = delete_where (λ (s : ShareRow). s.file_id == id) st.shares;
        objects =
            drop_versions versions (drop_thumb_key f.thumb_key (drop_key f.storage_key st.objects));
      }

  -- DELETE /files/:id/purge
  unfoldable pub purge_file : Library → ℕ → ℕ → FileReply × Library
  unfolding trashed_file_access is_owner drop_object
  purge_file st user_id id = elim (trashed_file_access st.db user_id id) [
    | none ↦ (failed 404, st)
    | some access ↦
        if not (is_owner access.0)
        then (failed 403, st)
        else (purged id, remove_file st access.1 id)
  ]
