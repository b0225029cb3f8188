-- ===== src/Folders/Routes.antt =====
-- src/folders/index.ts: the handlers that create, change, trash and restore folders. The user is
-- signed in; the two spellings of a field of a body are one field. What `fireEvent` is called with is
-- a part of the reply: what the folder's actions then do comes behind the handler's own writes.
use stohr.Common.{
  ℕ, Bool, false, not, ◌&&◌, ◌||◌, Option, none, some, List, [], ◌∷◌, ◌++◌, String, ◌==◌, same_opt,
  str_eq, or_else, if◌then◌else◌, is_none, is_some, update_where,
}
use stohr.Auth.Credentials.{trim}
use stohr.Db.{Db, Role, FolderKind, standard, photos, screenshots, FolderRow, FileRow, folder_by_id}
use stohr.Permissions.{can_write, is_owner, folder_access, trashed_folder_access}
use stohr.Folders.Tree.{id_in, collect_subtree_all, live_by_id}

pub data FolderEvent : Type 0 where
  created updated moved_in moved_out deleted : FolderEvent

-- A call of `fireEvent`: the folder whose actions run, and the folder that it is about.
pub record Fired : Type 0 where
  pub event : FolderEvent
  pub folder : FolderRow
  pub subject : FolderRow

-- The columns of an update; a column that is not set is `none`.
pub record FolderPatch : Type 0 where
  pub name : Option String
  pub kind : Option FolderKind
  pub is_public : Option Bool
  pub parent_id : Option (Option ℕ)

pub data FolderReply : Type 0 where
  failed : ℕ → FolderReply
  made : FolderRow → List Fired → FolderReply
  patched : ℕ → FolderPatch → List Fired → FolderReply
  trashed : ℕ → List Fired → FolderReply
  restored : ℕ → Option ℕ → FolderReply
  unchanged : ℕ → FolderReply

pub record NewFolder : Type 0 where
  pub name : String
  pub parent_id : Option ℕ
  pub kind : Option String
  pub is_public : Option Bool

pub record PatchBody : Type 0 where
  pub name : Option String
  pub kind : Option String
  pub is_public : Option Bool
  pub parent_id : Option (Option ℕ)

abbrev pub with_folders : Db → List FolderRow → Db
with_folders db folders = record db { folders = folders }

abbrev pub kind_of : Option String → FolderKind
kind_of none = standard
kind_of (some k) =
    if str_eq k "photos" then photos else if str_eq k "screenshots" then screenshots else standard

abbrev fired_at : Option FolderRow → FolderEvent → FolderRow → List Fired
fired_at none event subject = []
fired_at (some folder) event subject =
    record { event = event; folder = folder; subject = subject } ∷ []

-- The row of a new folder below a parent, or at the top.
abbrev pub new_folder : ℕ → ℕ → NewFolder → Option (Role × FolderRow) → FolderRow
new_folder new_id user_id body none = record {
  id = new_id;
  user_id = user_id;
  parent_id = body.parent_id;
  name = trim body.name;
  kind = kind_of body.kind;
  is_public = or_else body.is_public false;
  space_id = none;
  deleted_at = none;
}
new_folder new_id user_id body (some access) =
    let free = is_owner access.0 in
    record {
      id = new_id;
      user_id = access.1.user_id;
      parent_id = body.parent_id;
      name = trim body.name;
      kind = if free then kind_of body.kind else standard;
      is_public = if free then or_else body.is_public false else false;
      space_id = access.1.space_id;
      deleted_at = none;
    }

abbrev parent_folder : Option (Role × FolderRow) → Option FolderRow
parent_folder none = none
parent_folder (some access) = some access.1

abbrev insert_folder : Db → ℕ → ℕ → NewFolder → Option (Role × FolderRow) → FolderReply × Db
insert_folder db new_id user_id body access =
    let row = new_folder new_id user_id body access in
    (made row (fired_at (parent_folder access) created row), with_folders db (row ∷ db.folders))

-- POST /folders
unfoldable pub create_folder : Db → ℕ → ℕ → NewFolder → FolderReply × Db
unfolding folder_access can_write is_owner
create_folder db new_id user_id body =
    if str_eq (trim body.name) "" then (failed 422, db) else elim body.parent_id [
      | none ↦ insert_folder db new_id user_id body none
      | some parent_id ↦ elim (folder_access db user_id parent_id) [
        | none ↦ (failed 404, db)
        | some access ↦
            if not (can_write access.0)
            then (failed 403, db)
            else insert_folder db new_id user_id body (some access)
      ]
    ]

abbrev pub name_error : Option String → Option ℕ
name_error none = none
name_error (some name) = if str_eq (trim name) "" then some 422 else none

abbrev known_kind : String → Option FolderKind
known_kind k =
    if str_eq k "standard"
    then some standard
    else if str_eq k "photos"
    then some photos
    else if str_eq k "screenshots"
    then some screenshots
    else none

abbrev pub kind_error : Option String → Option ℕ
kind_error none = none
kind_error (some k) = if is_none (known_kind k) then some 422 else none

-- Why the folder `f` may not be moved below the folder that the caller has this access to.
abbrev pub target_error : Db → FolderRow → ℕ → Option (Role × FolderRow) → Option ℕ
target_error db f parent_id none = some 404
target_error db f parent_id (some target) =
    if not (can_write target.0)
    then some 403
    else if not (same_opt target.1.space_id f.space_id)
    then some 422
    else if is_none f.space_id && not (target.1.user_id == f.user_id)
    then some 422
    else if id_in (collect_subtree_all db.folders f.id) parent_id
    then some 422
    else none

abbrev pub parent_error : Db → ℕ → Role × FolderRow → Option (Option ℕ) → Option ℕ
parent_error db user_id access none = none
parent_error db user_id access (some none) = if not (is_owner access.0) then some 403 else none
parent_error db user_id access (some (some parent_id)) =
    if parent_id == access.1.id
    then some 422
    else target_error db access.1 parent_id (folder_access db user_id parent_id)

abbrev trimmed : Option String → Option String
trimmed none = none
trimmed (some s) = some (trim s)

abbrev parsed_kind : Option String → Option FolderKind
parsed_kind none = none
parsed_kind (some k) = known_kind k

abbrev pub patch_data : PatchBody → FolderPatch
patch_data body = record {
  name = trimmed body.name;
  kind = parsed_kind body.kind;
  is_public = body.is_public;
  parent_id = body.parent_id;
}

abbrev pub apply_patch : FolderPatch → FolderRow → FolderRow
apply_patch p f = record f {
  name = or_else p.name f.name;
  kind = or_else p.kind f.kind;
  is_public = or_else p.is_public f.is_public;
  parent_id = or_else p.parent_id f.parent_id;
}

abbrev live_parent : List FolderRow → Option ℕ → Option FolderRow
live_parent folders none = none
live_parent folders (some id) = live_by_id folders id

abbrev folder_of_target : Db → ℕ → Option (Option ℕ) → Option FolderRow
folder_of_target db user_id (some (some parent_id)) =
    parent_folder (folder_access db user_id parent_id)
folder_of_target db user_id _ = none

-- The events of a change: of the old and the new parent for a move, else of the parent for a name.
abbrev patch_events :
    Db → List FolderRow → ℕ → PatchBody → FolderRow → Option FolderRow → List Fired
patch_events db folders user_id body f none = []
patch_events db folders user_id body f (some row) =
    if is_some body.parent_id && not (same_opt f.parent_id (or_else body.parent_id f.parent_id))
    then fired_at (live_parent folders f.parent_id) moved_out row
      ++ fired_at (folder_of_target db user_id body.parent_id) moved_in row
    else if is_some body.name
    then fired_at (live_parent folders row.parent_id) updated row
    else []

abbrev pub commit_patch : Db → ℕ → PatchBody → FolderRow → FolderReply × Db
commit_patch db user_id body f =
    let p = patch_data body in
    let folders = update_where (λ (r : FolderRow). r.id == f.id) (apply_patch p) db.folders in
    (
      patched f.id p (patch_events db folders user_id body f (folder_by_id folders f.id)),
      with_folders db folders,
    )

abbrev pub nothing_to_update : PatchBody → Bool
nothing_to_update body =
    is_none body.name && is_none body.parent_id && is_none body.kind && is_none body.is_public

abbrev pub first_error : Option ℕ → Option ℕ → Option ℕ
first_error none e = e
first_error (some code) e = some code

abbrev pub patch_error : Db → ℕ → PatchBody → Role × FolderRow → Option ℕ
patch_error db user_id body access =
    if not (can_write access.0)
    then some 403
    else if (is_some body.kind || is_some body.is_public) && not (is_owner access.0)
    then some 403
    else first_error (name_error body.name)
        (first_error (kind_error body.kind) (parent_error db user_id access body.parent_id))

-- PATCH /folders/:id
unfoldable pub patch_folder : Db → ℕ → ℕ → PatchBody → FolderReply × Db
unfolding folder_access can_write is_owner collect_subtree_all folder_by_id
patch_folder db user_id id body =
    if nothing_to_update body then (failed 422, db) else elim (folder_access db user_id id) [
      | none ↦ (failed 404, db)
      | some access ↦ elim (patch_error db user_id body access) [
        | some code ↦ (failed code, db)
        | none ↦ commit_patch db user_id body access.1
      ]
    ]

abbrev pub trash_folder_row : ℕ → FolderRow → FolderRow
trash_folder_row now f = record f { deleted_at = some now }

abbrev pub trash_file_row : ℕ → FileRow → FileRow
trash_file_row now f = record f { deleted_at = some now }

-- `folder_id IN (…)`, which a file at the top does not satisfy
abbrev pub in_folders : List ℕ → Option ℕ → Bool
in_folders ids none = false
in_folders ids (some folder_id) = id_in ids folder_id

abbrev pub trash_tree : ℕ → List ℕ → Db → Db
trash_tree now ids db = record db {
  folders = update_where (λ (f : FolderRow). id_in ids f.id) (trash_folder_row now) db.folders;
  files =
      update_where (λ (f : FileRow). in_folders ids f.folder_id && is_none f.deleted_at)
        (trash_file_row now) db.files;
}

-- DELETE /folders/:id
unfoldable pub delete_folder : Db → ℕ → ℕ → ℕ → FolderReply × Db
unfolding folder_access can_write collect_subtree_all
delete_folder db now user_id id = elim (folder_access db user_id id) [
  | none ↦ (failed 404, db)
  | some access ↦
      let db' = trash_tree now (collect_subtree_all db.folders id) db in
      let parent = live_parent db'.folders access.1.parent_id in
      if not (can_write access.0)
      then (failed 403, db)
      else (trashed id (fired_at parent deleted access.1), db')
]

-- The old parent if it is not in the trash, else the top.
abbrev pub restore_parent : Db → FolderRow → Option ℕ
restore_parent db f = if is_some (live_parent db.folders f.parent_id) then f.parent_id else none

abbrev pub restore_row : Option ℕ → FolderRow → FolderRow
restore_row parent_id f = record f { deleted_at = none; parent_id = parent_id }

-- POST /folders/:id/restore
unfoldable pub restore_folder : Db → ℕ → ℕ → FolderReply × Db
unfolding trashed_folder_access can_write
restore_folder db user_id id = elim (trashed_folder_access db user_id id) [
  | none ↦ (failed 404, db)
  | some access ↦
      let parent_id = restore_parent db access.1 in
      let folders =
        update_where (λ (f : FolderRow). f.id == id) (restore_row parent_id) db.folders in
      if not (can_write access.0)
      then (failed 403, db)
      else if is_none access.1.deleted_at
      then (unchanged id, db)
      else (restored id parent_id, with_folders db folders)
]
