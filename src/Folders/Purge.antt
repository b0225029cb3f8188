-- ===== src/Folders/Purge.antt =====
-- src/folders/index.ts, the purge of a folder, and src/trash/index.ts: rows and objects are removed for
-- good. The id -1 that keeps a list of ids from being empty is that of no row, and is left out.
-- Of the rows that the database's foreign keys remove, those of this library's tables are modelled.
pub mod Subtree
pub mod Keys
pub mod Removed
use stohr.Common.{
  ℕ, Bool, true, false, not, ◌&&◌, ◌||◌, Option, none, some, List, [], ◌∷◌, ◌++◌, String, ◌==◌,
  if◌then◌else◌, filter, delete_where, length, is_some, is_none, map,
}
use stohr.Db.{
  Db, Role, ResourceType, file, folder, FolderRow, FileRow, FileVersionRow, CollaborationRow,
  ShareRow,
}
use stohr.Permissions.{is_owner, trashed_folder_access, personal_file}
use stohr.Uploads.Store.{whole, ObjectKey, Objects, drop_object}
use stohr.Folders.Tree.{id_in, sub_levels, collect_subtree_all}
use stohr.Folders.Routes.{in_folders}

pub record Library : Type 0 where
  pub db : Db
  pub shares : List ShareRow
  pub objects : Objects

pub data PurgeReply : Type 0 where
  failed : ℕ → PurgeReply
  purged : ℕ → PurgeReply
  emptied : ℕ → ℕ → PurgeReply

abbrev pub file_ids : List FileRow → List ℕ
file_ids files = map (λ (f : FileRow). f.id) files

abbrev pub on_any : List ℕ → List ℕ → CollaborationRow → Bool
on_any files folders c = elim c.resource_type [
  | file ↦ id_in files c.resource_id
  | folder ↦ id_in folders c.resource_id
]

abbrev some_key : Option String → List String
some_key none = []
some_key (some key) = key ∷ []

abbrev pub thumb_keys : List FileRow → List String
thumb_keys [] = []
thumb_keys (f ∷ files) = some_key f.thumb_key ++ thumb_keys files

-- The keys of the files, of their thumbnails and of their old versions.
abbrev pub keys_of : List FileRow → List FileVersionRow → List String
keys_of files versions =
    map (λ (f : FileRow). f.storage_key) files
    ++ (thumb_keys files ++ map (λ (v : FileVersionRow). v.storage_key) versions)

-- `Promise.allSettled(keys.map(k => drop(store, k)))`
unfoldable pub drop_all : List String → Objects → Objects
drop_all [] objects = objects
drop_all (k ∷ keys) objects = drop_all keys (drop_object (whole k) objects)

abbrev pub versions_of : Db → List ℕ → List FileVersionRow
versions_of db files = filter (λ (v : FileVersionRow). id_in files v.file_id) db.file_versions

abbrev pub files_below : Db → List ℕ → List FileRow
files_below db ids = filter (λ (f : FileRow). in_folders ids f.folder_id) db.files

-- The tables' `ON DELETE CASCADE`: with a folder go those below it, at most as many levels as rows.
abbrev pub cascaded : List FolderRow → List ℕ → List ℕ
cascaded folders ids = sub_levels (length folders) folders ids

-- The deletions, in one order for both routes, with the rows that they cascade to: the folders below the
-- deleted ones, the files in them, and the versions and shares of these.
abbrev pub remove_rows : Library → List ℕ → (FileRow → Bool) → List ℕ → Library
remove_rows st files is_removed folders =
    let all = cascaded st.db.folders folders in
    let more = file_ids (files_below st.db all) in
    record {
      db = record st.db {
        collaborations = delete_where (on_any files folders) st.db.collaborations;
        file_versions =
            delete_where (λ (v : FileVersionRow). id_in files v.file_id || id_in more v.file_id)
              st.db.file_versions;
        files =
            delete_where (λ (f : FileRow). is_removed f || in_folders all f.folder_id) st.db.files;
        folders = delete_where (λ (f : FolderRow). id_in all f.id) st.db.folders;
      };
      shares =
          delete_where (λ (s : ShareRow). id_in files s.file_id || id_in more s.file_id) st.shares;
      objects = st.objects;
    }

abbrev pub remove_all : Library → List FileRow → (FileRow → Bool) → List ℕ → Library
remove_all st files is_removed folders =
    let ids = file_ids files in
    let keys = keys_of files (versions_of st.db ids) in
    record (remove_rows st ids is_removed folders) { objects = drop_all keys st.objects }

abbrev pub purge_tree : Library → ℕ → Library
purge_tree st id =
    let ids = collect_subtree_all st.db.folders id in
    remove_all st (files_below st.db ids) (λ (f : FileRow). in_folders ids f.folder_id) ids

-- DELETE /folders/:id/purge
unfoldable pub purge_folder : Library → ℕ → ℕ → PurgeReply × Library
unfolding trashed_folder_access is_owner collect_subtree_all sub_levels drop_all
purge_folder st user_id id = elim (trashed_folder_access st.db user_id id) [
  | none ↦ (failed 404, st)
  | some access ↦
      let st' = purge_tree st id in
      if not (is_owner access.0) then (failed 403, st) else (purged id, st')
]

abbrev pub trashed_file : Db → ℕ → FileRow → Bool
trashed_file db user_id f = personal_file db user_id f && is_some f.deleted_at

abbrev pub trashed_folder : ℕ → FolderRow → Bool
trashed_folder user_id f = f.user_id == user_id && is_none f.space_id && is_some f.deleted_at

-- GET /trash
unfoldable pub list_trash : Db → ℕ → List FolderRow × List FileRow
unfolding personal_file
list_trash db user_id =
    (filter (trashed_folder user_id) db.folders, filter (trashed_file db user_id) db.files)

-- DELETE /trash
unfoldable pub empty_trash : Library → ℕ → PurgeReply × Library
unfolding list_trash sub_levels drop_all
empty_trash st user_id =
    let trash = list_trash st.db user_id in
    let files = trash.1 in
    let folder_ids = map (λ (f : FolderRow). f.id) trash.0 in
    (
      emptied (length files) (length trash.0),
      remove_all st files (λ (f : FileRow). id_in (file_ids files) f.id) folder_ids,
    )
